-- ===== src/Index/Entries.antt =====
-- The hash map of ids that the index of crates/blitz-index/src/hash_index.rs and that of
-- crates/blitz-core/src/index.rs keep, and the two statements that change it.
use blitz_db.Prelude.{ℕ, not, Option, none, some, List, [], ◌∷◌, ◌++◌, keep, ◌==◌}
use blitz_db.Prelude.Map
use blitz_db.Prelude.Map.{Map, Key}

-- `unwrap_or_default()`
abbrev pub or_empty : Option (List ℕ) → List ℕ
or_empty none = []
or_empty (some ids) = ids

-- `ids.retain(|id| *id != row_id)`
abbrev pub retain : ℕ → List ℕ → List ℕ
retain r ids = keep (λ id. not (id == r)) ids

module _ {V : Type 0} ⦃k : Key V⦄ where
  -- `entries.entry(value).or_default().push(row_id)`
  unfoldable pub push_id : Map V (List ℕ) → V → ℕ → Map V (List ℕ)
  push_id entries v r = Map.insert entries v (or_empty (Map.get entries v) ++ (r ∷ []))

  abbrev pub put_back : Map V (List ℕ) → V → List ℕ → Map V (List ℕ)
  put_back entries v [] = Map.remove entries v
  put_back entries v (id ∷ ids) = Map.insert entries v (id ∷ ids)

  unfoldable pub drop_id : Map V (List ℕ) → V → ℕ → Map V (List ℕ)
  drop_id entries v r = elim (Map.get entries v) [
    | none ↦ entries
    | some ids ↦ put_back entries v (retain r ids)
  ]
