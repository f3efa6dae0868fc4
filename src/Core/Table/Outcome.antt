-- ===== src/Core/Table/Outcome.antt =====
-- What the table operations return and change, branch by branch, and what `lookup_by_unique` means.
use blitz_db.Prelude.{
  ℕ, String, true, false, ◌&&◌, ◌||◌, Option, none, some, List, [], ◌∷◌, map, keep, any, ok, err,
  ◌==◌, str_eq, ◌≡◌, refl, if◌then◌else◌, arith, eq_iff, Option-cases, Bool-cases, inl, inr,
}
use blitz_db.Prelude.Map
use blitz_db.Prelude.Map.{Map, nat_key, string_key, get-insert, get-extend}
use blitz_db.Types.Interface.{ValueOps, ColumnDef}
use blitz_db.Types.Row.{Row}
use blitz_db.Core.Table.{
  InMemoryTable, CoreError, duplicate_key, owner, unique_names, uniq_cols, index_row, clashes,
  check_cols, check_uniq, next_row_id, insert, insert_unchecked, insert_preserving_id, update,
  lookup_by_unique,
}
use blitz_db.Core.Table.Index.{is_in}
use blitz_db.Core.Table.Valid.{cell, cell-some, IsValid}

module _ {V : Type 0} ⦃o : ValueOps V⦄ where
  -- A call that reports an error has changed nothing.
  pub insert_atomic :
      (t : InMemoryTable V) (row : Row V) {e : CoreError}
      → (insert t row).0 ≡ err e
      → (insert t row).1 ≡ t
  unfolding insert insert_unchecked
  insert_atomic t row h = ground arith

  pub update_atomic :
      (t : InMemoryTable V) (i : ℕ) (values : Map String V) {e : CoreError}
      → (update t i values).0 ≡ err e
      → (update t i values).1 ≡ t
  unfolding update
  update_atomic t i values h = ground arith

  pub insert_preserving_id_atomic :
      (t : InMemoryTable V) (row : Row V) {e : CoreError}
      → (insert_preserving_id t row).0 ≡ err e
      → (insert_preserving_id t row).1 ≡ t
  unfolding insert_preserving_id
  insert_preserving_id_atomic t row h = ground arith

  -- A successful `insert` returns the id of the counter, stores the row there under that id, and
  -- leaves every other row as it was.
  pub rows-insert :
      (t : InMemoryTable V) (row : Row V) (i j : ℕ)
      → (insert t row).0 ≡ ok i
      → (i ≡ t.next_id)
        × (Map.get (insert t row).1.rows j
            ≡ (if i == j then some (record row { id = i }) else Map.get t.rows j))
  unfolding insert insert_unchecked next_row_id index_row
  rows-insert t row i j h =
      ground (arith, get-insert t.rows t.next_id j (record row { id = t.next_id }))

  -- A successful `update` changes the given columns of one row, and returns that row.
  pub rows-update :
      (t : InMemoryTable V) (i j : ℕ) (values : Map String V) (row : Row V)
      → (update t i values).0 ≡ ok row
      → Map.get (update t i values).1.rows j ≡ (if i == j then some row else Map.get t.rows j)
  unfolding update
  rows-update t i j values row h = ground (arith, get-insert t.rows i j row)

  -- The row that a successful `update` returns has the given value under each given column and the
  -- old value under every other.
  pub update_columns :
      (t : InMemoryTable V) (i : ℕ) (values : Map String V) (row : Row V) (c : String)
      → (update t i values).0 ≡ ok row
      → Map.get row.values c ≡ elim (Map.get values c) [ none ↦ cell t.rows i c | some v ↦ some v ]
  unfolding update cell
  update_columns t i values row c h = elim (Option-cases (Map.get t.rows i)) [
    | inl absent ↦ ground (arith, absent)
    | inr (cur, present) ↦ ground (arith, present, get-extend cur.values values c)
  ]

  check_cols_fails :
      (cs : List String) (u : Map String (Map V ℕ)) (values : Map String V) (self_id : Option ℕ)
      (c : String)
      → is_in c cs ≡ true
      → clashes u values self_id c ≡ true
      → (d : String) × (check_cols u cs values self_id ≡ err (duplicate_key d))
  unfolding check_cols
  check_cols_fails [] u values self_id c m h = cc
  check_cols_fails (d ∷ cs) u values self_id c m h =
      elim (Bool-cases (clashes u values self_id d)) [
        | inl first ↦ (d, rw first)
        | inr pass ↦
            let (e, later) =
              check_cols_fails cs u values self_id c (ground (arith, eq_iff d c, m, h, pass)) h in
            (e, rw pass later)
      ]

  -- On a valid table, `insert_unchecked` of a row with a value that is not null, that a probe can
  -- find and that a stored row already has under a unique column reports a duplicate key and leaves
  -- the table as it was.
  pub insert_unchecked_duplicate :
      {t : InMemoryTable V}
      → IsValid t
      → (row : Row V) (c : String) (v : V) (i : ℕ) → is_in c (uniq_cols t) ≡ true
      → cell t.rows i c ≡ some v
      → Map.get row.values c ≡ some v
      → o.is_null v ≡ false
      → o.probe v v ≡ true
      → (d : String) × (insert_unchecked t row ≡ (err (duplicate_key d), t))
  unfolding insert_unchecked check_uniq
  insert_unchecked_duplicate {t} valid row c v i m held given n p =
      let (d, failed) = check_cols_fails (uniq_cols t) t.uniq row.values none c m clash in
      (d, rw (failed, insert_unchecked))
    where
      clash : clashes t.uniq row.values none c ≡ true
      clash = unfold clashes in ground (arith, given, n, valid.complete c v i held m n p)

  is_in-unique_names :
      (cs : List (ColumnDef V)) (c : String)
      → any (λ d. str_eq d.name c && (d.is_primary_key || d.is_unique)) cs
        ≡ is_in c (map (λ d. d.name) (keep (λ d. d.is_primary_key || d.is_unique) cs))
  is_in-unique_names [] c = refl
  is_in-unique_names (d ∷ cs) c = elim (Bool-cases (d.is_primary_key || d.is_unique)) [
    | inl unique ↦ ground (arith, unique, is_in-unique_names cs c)
    | inr plain ↦ ground (arith, plain, is_in-unique_names cs c)
  ]

  lookup_unfolded :
      (t : InMemoryTable V) (c : String) (v : V)
      → is_in c (uniq_cols t) ≡ true
      → o.is_null v ≡ false
      → lookup_by_unique t c v
        ≡ elim (owner t.uniq c v) [ none ↦ ok none | some i ↦ ok (Map.get t.rows i) ]
  unfolding lookup_by_unique unique_names
  lookup_unfolded t c v m n = ground (arith, is_in-unique_names t.schema.columns c, m, n)

  -- On a valid table the O(1) lookup by a unique column answers as a full scan would.
  module _ {t : InMemoryTable V} (valid : IsValid t) (c : String) (v : V) where
    -- On a valid table, `lookup_by_unique` of a value that is not null, that a probe can find and
    -- that row `i` has under a unique column returns row `i`.
    pub lookup_by_unique_finds :
        (i : ℕ)
        → is_in c (uniq_cols t) ≡ true
        → o.is_null v ≡ false
        → o.probe v v ≡ true
        → cell t.rows i c ≡ some v
        → (row : Row V) × (lookup_by_unique t c v ≡ ok (some row)) × (Map.get t.rows i ≡ some row)
    lookup_by_unique_finds i m n p held =
        let (row, present, carried) = cell-some t.rows i c held in
        (
          row,
          ground (arith, lookup_unfolded t c v m n, valid.complete c v i held m n p, present),
          present,
        )

    -- On a valid table, a row that `lookup_by_unique` returns is stored under its own id and has
    -- the value under the column.
    pub lookup_by_unique_sound :
        (row : Row V)
        → lookup_by_unique t c v ≡ ok (some row)
        → (Map.get t.rows row.id ≡ some row) × (Map.get row.values c ≡ some v)
    unfolding lookup_by_unique
    lookup_by_unique_sound row h = elim (Option-cases (owner t.uniq c v)) [
      | inl unowned ↦ ground (arith, unowned)
      | inr (i, owned) ↦
          let (found, present, carried) = cell-some t.rows i c (valid.sound c v i owned) in
          ground (arith, owned, present, carried, valid.keyed i found present)
    ]
