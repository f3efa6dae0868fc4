-- ===== src/Query/Match.antt =====
-- crates/blitz-query/src/executor.rs: whether a row passes a filter, and how rows compare.
--
-- `lower` is `str::to_lowercase` on UTF-8 bytes.
use blitz_db.Prelude.{
  ℕ, String, Bool, true, false, not, ◌&&◌, ◌||◌, Option, none, some, List, [], ◌∷◌, any, take,
}
use blitz_db.Prelude.Order.{reverse, and_then}
use Prim.Native.Nat.{Ordering}
use blitz_db.Types.Value.{Foreign, Value, string, value_eq, cmp}
use blitz_db.Types.Value.Convert.{is_null}
use blitz_db.Types.Row
use blitz_db.Types.Row.{Row}
use blitz_db.Query.Planner.{Filter, Filters, Sort, SortDirection, asc, desc}
use blitz_db.Query.Like.{like_match}

-- `map_or(default, test)`
abbrev pub map_or : {A : Type 0} → Bool → (A → Bool) → Option A → Bool
map_or d f none = d
map_or d f (some a) = f a

abbrev pub directed : SortDirection → Ordering → Ordering
directed asc o = o
directed desc o = reverse o

-- `truncate(limit)`, where there is a limit.
unfoldable pub truncated : {A : Type 0} → Option ℕ → List A → List A
truncated none rows = rows
truncated (some n) rows = take n rows

module _ {F : Foreign} where
  -- `<`, `>`, `<=` and `>=` are those of `Ord`.
  unfoldable pub less : Value F → Value F → Bool
  unfolding cmp
  less v w = elim (cmp v w) [ Ordering.lt ↦ true | Ordering.eq ↦ false | Ordering.gt ↦ false ]

  unfoldable pub greater : Value F → Value F → Bool
  unfolding cmp
  greater v w = elim (cmp v w) [ Ordering.lt ↦ false | Ordering.eq ↦ false | Ordering.gt ↦ true ]

  unfoldable pub at_most : Value F → Value F → Bool
  unfolding cmp
  at_most v w = elim (cmp v w) [ Ordering.lt ↦ true | Ordering.eq ↦ true | Ordering.gt ↦ false ]

  unfoldable pub at_least : Value F → Value F → Bool
  unfolding cmp
  at_least v w = elim (cmp v w) [ Ordering.lt ↦ false | Ordering.eq ↦ true | Ordering.gt ↦ true ]

  -- `vals.contains(v)`
  unfoldable pub contains : List (Value F) → Value F → Bool
  unfolding value_eq
  contains vals v = any (λ w. value_eq w v) vals

  unfoldable pub like_value : (List ℕ → List ℕ) → List ℕ → Value F → Bool
  unfolding like_match
  like_value lower pattern (string s) = like_match (lower s) (lower pattern)
  like_value lower pattern _ = false

  unfoldable mutual
    unfolding Row.get less greater at_most at_least contains like_value value_eq is_null

    pub matches_filter : (List ℕ → List ℕ) → Row (Value F) → Filter F → Bool
    matches_filter lower r (Filter.eq c w) = map_or false (λ v. value_eq v w) (Row.get r c)
    matches_filter lower r (Filter.ne c w) = map_or true (λ v. not (value_eq v w)) (Row.get r c)
    matches_filter lower r (Filter.gt c w) = map_or false (λ v. greater v w) (Row.get r c)
    matches_filter lower r (Filter.lt c w) = map_or false (λ v. less v w) (Row.get r c)
    matches_filter lower r (Filter.gte c w) = map_or false (λ v. at_least v w) (Row.get r c)
    matches_filter lower r (Filter.lte c w) = map_or false (λ v. at_most v w) (Row.get r c)
    matches_filter lower r (Filter.in_ c ws) = map_or false (contains ws) (Row.get r c)
    matches_filter lower r (Filter.not_in c ws) =
        map_or true (λ v. not (contains ws v)) (Row.get r c)
    matches_filter lower r (Filter.between c low high) =
        map_or false (λ v. at_least v low && at_most v high) (Row.get r c)
    matches_filter lower r (Filter.like c pattern) =
        map_or false (like_value lower pattern) (Row.get r c)
    matches_filter lower r (Filter.is_null c) = map_or true is_null (Row.get r c)
    matches_filter lower r (Filter.is_not_null c) =
        map_or false (λ v. not (is_null v)) (Row.get r c)
    matches_filter lower r (Filter.and fs) = all_match lower r fs
    matches_filter lower r (Filter.or fs) = any_match lower r fs
    matches_filter lower r (Filter.not f) = not (matches_filter lower r f)

    pub all_match : (List ℕ → List ℕ) → Row (Value F) → Filters F → Bool
    all_match lower r Filters.nil = true
    all_match lower r (Filters.cons f fs) = matches_filter lower r f && all_match lower r fs

    pub any_match : (List ℕ → List ℕ) → Row (Value F) → Filters F → Bool
    any_match lower r Filters.nil = false
    any_match lower r (Filters.cons f fs) = matches_filter lower r f || any_match lower r fs

  -- A row without the column comes after every row that has it.
  abbrev pub compare_cells : Option (Value F) → Option (Value F) → Ordering
  compare_cells (some v) (some w) = cmp v w
  compare_cells (some v) none = Ordering.lt
  compare_cells none (some w) = Ordering.gt
  compare_cells none none = Ordering.eq

  -- The closure of `sort_rows`, and that of `execute_aggregation`.
  unfoldable pub compare_rows : List Sort → Row (Value F) → Row (Value F) → Ordering
  unfolding Row.get
  compare_rows [] a b = Ordering.eq
  compare_rows (s ∷ ss) a b =
      and_then (directed s.direction (compare_cells (Row.get a s.column) (Row.get b s.column)))
        (compare_rows ss a b)

  unfoldable pub compare_groups : List String → Row (Value F) → Row (Value F) → Ordering
  unfolding Row.get
  compare_groups [] a b = Ordering.eq
  compare_groups (c ∷ cs) a b =
      and_then (compare_cells (Row.get a c) (Row.get b c)) (compare_groups cs a b)
