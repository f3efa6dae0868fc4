-- ===== src/Query/Aggregate.antt =====
-- crates/blitz-query/src/executor.rs: `execute_aggregation` and `compute_aggregations`.
--
-- The arithmetic of floats is the parameter `Floats`, on their bits. A `Vec` has fewer than 2^63
-- rows, so that its length as an `i64` is unchanged.
pub mod Groups
use blitz_db.Prelude.{
  ℕ, suc, String, Bool, true, false, not, ◌&&◌, Option, none, some, List, [], ◌∷◌, ◌++◌, length,
  take, keep, map, if◌then◌else◌, ◌≡◌, refl, arith, zero,
}
use blitz_db.Prelude.Order.{ℤ, pos}
use Prim.Native.Nat.{Ordering}
use blitz_db.Prelude.Map
use blitz_db.Prelude.Map.{Map, Key, string_key}
use blitz_db.Types.Value.{
  Foreign, Value, int8, int16, int32, int64, uint8, uint16, uint32, uint64, float32, float64, null,
  cmp, probe,
}
use blitz_db.Types.Value.Laws.{probe_lem}
use blitz_db.Types.Value.Convert.{is_null}
use blitz_db.Types.Row
use blitz_db.Types.Row.{Row}
use blitz_db.Query.Planner.{AggFunction, Query}
use blitz_db.Query.Sort.{sort_by}
use blitz_db.Query.Match.{map_or, less, greater, compare_groups, truncated}

-- `as f64` of an integer and of an `f32`, and `+` and `/` of `f64`.
pub record Floats : Type 0 where
  pub of_int : ℤ → ℕ
  pub of_float32 : ℕ → ℕ
  pub add : ℕ → ℕ → ℕ
  pub divide : ℕ → ℕ → ℕ

module _ {F : Foreign} where
  abbrev pub same_keys : List (Value F) → List (Value F) → Bool
  same_keys [] [] = true
  same_keys (v ∷ vs) (w ∷ ws) = probe v w && same_keys vs ws
  same_keys _ _ = false

  pub same_keys_sound : (vs ws : List (Value F)) → same_keys vs ws ≡ true → vs ≡ ws
  same_keys_sound [] [] h = refl
  same_keys_sound [] (w ∷ ws) h = cc
  same_keys_sound (v ∷ vs) [] h = cc
  same_keys_sound (v ∷ vs) (w ∷ ws) h = ground (arith, probe_lem v w, same_keys_sound vs ws)

  instance abbrev pub group_key : Key (List (Value F))
  group_key = record { same = same_keys; same_sound = same_keys_sound }

  -- A missing column reads as null.
  unfoldable pub cell : Row (Value F) → String → Value F
  unfolding Row.get
  cell r c = elim (Row.get r c) [ none ↦ null | some v ↦ v ]

  unfoldable pub key_of : List String → Row (Value F) → List (Value F)
  unfolding cell
  key_of cs r = map (cell r) cs

  -- `groups.entry(key).or_default().push(row)`
  unfoldable pub put_row :
      Map (List (Value F)) (List (Row (Value F)))
      → List (Value F)
      → Row (Value F)
      → Map (List (Value F)) (List (Row (Value F)))
  put_row groups k r =
      Map.insert groups k (elim (Map.get groups k) [ none ↦ r ∷ [] | some rs ↦ rs ++ (r ∷ []) ])

  unfoldable pub group_rows :
      List String
      → Map (List (Value F)) (List (Row (Value F)))
      → List (Row (Value F))
      → Map (List (Value F)) (List (Row (Value F)))
  unfolding put_row key_of
  group_rows cs groups [] = groups
  group_rows cs groups (r ∷ rs) = group_rows cs (put_row groups (key_of cs r) r) rs

  unfoldable pub smaller : Option (Value F) → Value F → Option (Value F)
  unfolding less
  smaller none v = some v
  smaller (some w) v = if less v w then some v else some w

  unfoldable pub larger : Option (Value F) → Value F → Option (Value F)
  unfolding greater
  larger none v = some v
  larger (some w) v = if less w v then some v else some w

  -- The loop of `Min` and of `Max`: `better` is what it does with a value that is not null.
  unfoldable pub pick :
      (Option (Value F) → Value F → Option (Value F))
      → Option (Value F)
      → String
      → List (Row (Value F))
      → Option (Value F)
  unfolding Row.get is_null
  pick better m c [] = m
  pick better m c (r ∷ rs) =
      pick better (elim (Row.get r c) [ none ↦ m | some v ↦ if is_null v then m else better m v ]) c
        rs

  abbrev or_null : Option (Value F) → Value F
  or_null none = null
  or_null (some v) = v

  unfoldable pub set_all : Row (Value F) → Map String (Value F) → Row (Value F)
  unfolding Row.set
  set_all r [] = r
  set_all r ((alias, v) ∷ m) = set_all (Row.set r alias v) m

  -- The columns of a group with the values of its key.
  unfoldable pub set_columns : Row (Value F) → List String → List (Value F) → Row (Value F)
  unfolding Row.set
  set_columns r (c ∷ cs) (v ∷ vs) = set_columns (Row.set r c v) cs vs
  set_columns r _ _ = r

  module _ (floats : Floats) where
    unfoldable pub as_f64 : Value F → Option ℕ
    as_f64 (float32 v) = some (floats.of_float32 v)
    as_f64 (float64 v) = some v
    as_f64 (int8 v) = some (floats.of_int v)
    as_f64 (int16 v) = some (floats.of_int v)
    as_f64 (int32 v) = some (floats.of_int v)
    as_f64 (int64 v) = some (floats.of_int v)
    as_f64 (uint8 v) = some (floats.of_int (pos v))
    as_f64 (uint16 v) = some (floats.of_int (pos v))
    as_f64 (uint32 v) = some (floats.of_int (pos v))
    as_f64 (uint64 v) = some (floats.of_int (pos v))
    as_f64 _ = none

    abbrev numeric : Row (Value F) → String → Option ℕ
    numeric r c = elim (Row.get r c) [ none ↦ none | some v ↦ as_f64 v ]

    -- The loop of `Sum` and of `Avg`: the total, and how many were added.
    unfoldable pub total : ℕ → ℕ → String → List (Row (Value F)) → ℕ × ℕ
    unfolding Row.get as_f64
    total t n c [] = (t, n)
    total t n c (r ∷ rs) = elim (numeric r c) [
      | none ↦ total t n c rs
      | some x ↦ total (floats.add t x) (suc n) c rs
    ]

    abbrev average : ℕ × ℕ → Value F
    average (t, zero) = null
    average (t, suc n) = float64 (floats.divide t (floats.of_int (pos (suc n))))

    unfoldable pub aggregate : List (Row (Value F)) → AggFunction → Value F
    unfolding total pick smaller larger Row.get is_null
    aggregate rows AggFunction.count = int64 (pos (length rows))
    aggregate rows (AggFunction.count_column c) =
        int64 (pos (length (keep (λ r. map_or false (λ v. not (is_null v)) (Row.get r c)) rows)))
    aggregate rows (AggFunction.sum c) = float64 (total 0 0 c rows).0
    aggregate rows (AggFunction.avg c) = average (total 0 0 c rows)
    aggregate rows (AggFunction.min c) = or_null (pick smaller none c rows)
    aggregate rows (AggFunction.max c) = or_null (pick larger none c rows)

    unfoldable pub compute_aggregations :
        Map String (Value F)
        → List (Row (Value F))
        → List (String × AggFunction)
        → Map String (Value F)
    unfolding aggregate
    compute_aggregations out rows [] = out
    compute_aggregations out rows ((alias, f) ∷ fs) =
        compute_aggregations (Map.insert out alias (aggregate rows f)) rows fs

    unfoldable pub group_result : Query F → List (Value F) × List (Row (Value F)) → Row (Value F)
    unfolding Row.new set_columns set_all compute_aggregations
    group_result q (k, rows) =
        set_all (set_columns (Row.new 0) q.group_by k) (compute_aggregations [] rows q.aggregations)

    unfoldable pub execute_aggregation : List (Row (Value F)) → Query F → List (Row (Value F))
    unfolding Row.new set_all compute_aggregations group_rows group_result compare_groups sort_by
        truncated
    execute_aggregation rows q = elim (q.group_by) [
      | [] ↦ set_all (Row.new 0) (compute_aggregations [] rows q.aggregations) ∷ []
      | c ∷ cs ↦ truncated q.limit (
          sort_by (compare_groups q.group_by)
            (map (group_result q) (group_rows q.group_by [] rows)))
    ]
