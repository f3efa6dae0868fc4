-- ===== src/Core/Table/Valid.antt =====
-- The invariant that ties the rows of a table to its unique indexes, and its plain consequences.
use blitz_db.Prelude.{
  ℕ, ◌<◌, String, true, false, Option, none, some, if◌then◌else◌, ◌==◌, ◌≡◌, arith, Option-cases,
  inl, inr,
}
use blitz_db.Prelude.Map
use blitz_db.Prelude.Map.{Map, nat_key, string_key, get-insert, get-remove}
use blitz_db.Types.Interface.{ValueOps, value_key}
use blitz_db.Types.Row.{Row}
use blitz_db.Types.Schema.{TableSchema}
use blitz_db.Core.Table.{InMemoryTable, owner, uniq_cols, new_table}
use blitz_db.Core.Table.Index.{is_in}

module _ {V : Type 0} where
  -- The value of a row under a column.
  unfoldable pub cell : Map ℕ (Row V) → ℕ → String → Option V
  cell rows i c = elim (Map.get rows i) [ none ↦ none | some row ↦ Map.get row.values c ]

  pub cell-get :
      (rows : Map ℕ (Row V)) (i : ℕ) (c : String) (row : Row V)
      → Map.get rows i ≡ some row
      → cell rows i c ≡ Map.get row.values c
  unfolding cell
  cell-get rows i c row h = rw (h, cell)

  pub cell-insert :
      (rows : Map ℕ (Row V)) (i j : ℕ) (row : Row V) (c : String)
      → cell (Map.insert rows i row) j c ≡ (if i == j then Map.get row.values c else cell rows j c)
  unfolding cell
  cell-insert rows i j row c = ground (arith, get-insert rows i j row)

  pub cell-remove :
      (rows : Map ℕ (Row V)) (i j : ℕ) (c : String)
      → cell (Map.remove rows i) j c ≡ (if i == j then none else cell rows j c)
  unfolding cell
  cell-remove rows i j c = ground (arith, get-remove rows i j)

  -- A value is under a column of row `i` only if there is a row `i`.
  pub cell-some :
      (rows : Map ℕ (Row V)) (i : ℕ) (c : String) {v : V}
      → cell rows i c ≡ some v
      → (row : Row V) × (Map.get rows i ≡ some row) × (Map.get row.values c ≡ some v)
  unfolding cell
  cell-some rows i c {v} h = elim (Option-cases (Map.get rows i)) [
    | inl absent ↦ cc (absent, h)
    | inr (row, present) ↦ (row, present, rw (present, cell) at h)
  ]

  pub cell-none :
      (rows : Map ℕ (Row V)) (i : ℕ) (c : String) → Map.get rows i ≡ none → cell rows i c ≡ none
  unfolding cell
  cell-none rows i c h = rw (h, cell)

module _ {V : Type 0} ⦃o : ValueOps V⦄ where
  -- Every row stands under its own id, below the counter. An index entry is for a unique column and
  -- points at a row that has the value; and a value that is not null and that a probe can find is in the index of its column.
  pub record IsValid (t : InMemoryTable V) : Type 0 where
    pub keyed : (i : ℕ) (row : Row V) → Map.get t.rows i ≡ some row → row.id ≡ i
    pub below : (i : ℕ) (row : Row V) → Map.get t.rows i ≡ some row → i < t.next_id
    pub listed :
        (c : String) (v : V) (i : ℕ) → owner t.uniq c v ≡ some i → is_in c (uniq_cols t) ≡ true
    pub sound : (c : String) (v : V) (i : ℕ) → owner t.uniq c v ≡ some i → cell t.rows i c ≡ some v
    pub complete :
        (c : String) (v : V) (i : ℕ)
        → cell t.rows i c ≡ some v
        → is_in c (uniq_cols t) ≡ true
        → o.is_null v ≡ false
        → o.probe v v ≡ true
        → owner t.uniq c v ≡ some i

  pub new_table-IsValid : (s : TableSchema V) → IsValid (new_table s)
  unfolding new_table owner cell Map.get
  new_table-IsValid s = record {
    keyed = λ i row h. cc;
    below = λ i row h. cc;
    listed = λ c v i h. cc;
    sound = λ c v i h. cc;
    complete = λ c v i h. cc;
  }

  module _ {t : InMemoryTable V} (valid : IsValid t) where
    pub cell_below : (i : ℕ) (c : String) (v : V) → cell t.rows i c ≡ some v → i < t.next_id
    cell_below i c v h =
        let (row, present, held) = cell-some t.rows i c h in valid.below i row present

    pub fresh : Map.get t.rows t.next_id ≡ none
    fresh = elim (Option-cases (Map.get t.rows t.next_id)) [
      | inl absent ↦ absent
      | inr (row, present) ↦ absurd (omega (arith, valid.below t.next_id row present))
    ]

    pub unique_values :
        (c : String) (v : V) (i j : ℕ)
        → cell t.rows i c ≡ some v
        → cell t.rows j c ≡ some v
        → is_in c (uniq_cols t) ≡ true
        → o.is_null v ≡ false
        → o.probe v v ≡ true
        → i ≡ j
    unique_values c v i j hi hj m n p =
        cc (valid.complete c v i hi m n p, valid.complete c v j hj m n p)

  -- Only a value that a probe can find has an owner.
  pub owner_probe :
      (u : Map String (Map V ℕ)) (c : String) (v : V) {i : ℕ}
      → owner u c v ≡ some i
      → o.probe v v ≡ true
  unfolding owner
  owner_probe u c v {i} h = elim (Option-cases (Map.get u c)) [
    | inl absent ↦ ground (arith, absent)
    | inr (idx, present) ↦ Map.get-same idx v (rw (present, owner) at h)
  ]
