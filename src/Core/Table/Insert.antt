-- ===== src/Core/Table/Insert.antt =====
-- Insertions keep the table valid.
use blitz_db.Prelude.{
  ℕ, ◌+◌, ◌%◌, ◌<◌, ◌≤◌, String, true, false, Option, none, some, ok, ◌≡◌, refl, arith,
  Option-cases, inl, inr, Result-cases,
}
use blitz_db.Prelude.Map
use blitz_db.Prelude.Map.{Map, nat_key, string_key, get-insert}
use blitz_db.Types.Interface.{ValueOps}
use blitz_db.Types.Row.{Row}
use blitz_db.Types.Schema.{validate_row_values}
use blitz_db.Core.Table.{
  InMemoryTable, is_owner, owner, uniq_cols, index_cols, index_row, clashes, check_uniq,
  next_row_id, insert_unchecked, insert, insert_preserving_id, u64_mod,
}
use blitz_db.Core.Table.Index.{
  is_in, offers, offers-get, get-offers, owner-index_cols, check_cols_passes,
}
use blitz_db.Core.Table.Valid.{cell, cell-insert, cell-none, IsValid, fresh}

module _ {V : Type 0} ⦃o : ValueOps V⦄ where
  -- A row put under an id that no row has, where each value that it offers is unowned.
  module _ {t : InMemoryTable V} (valid : IsValid t) (i n : ℕ) (row : Row V) where
    abbrev placed : InMemoryTable V
    placed = record t {
      rows = Map.insert t.rows i row;
      next_id = n;
      uniq = index_cols t.uniq (uniq_cols t) i row.values;
    }

    placed-IsValid :
        Map.get t.rows i ≡ none
        → row.id ≡ i
        → i < n
        → t.next_id ≤ n
        → ((c : String) (v : V)
            → is_in c (uniq_cols t) ≡ true
            → offers row.values c v ≡ true
            → owner t.uniq c v ≡ none)
        → IsValid placed
    placed-IsValid free named lt le unowned = record {
      keyed = λ j r h. ground (arith, get-insert t.rows i j row, valid.keyed j r);
      below = λ j r h. ground (arith, get-insert t.rows i j row, valid.below j r);
      listed = λ c v j h.
          ground
            (arith, owner-index_cols (uniq_cols t) t.uniq i row.values c v, valid.listed c v j);
      sound = λ c v j h. ground (
        arith,
        owner-index_cols (uniq_cols t) t.uniq i row.values c v,
        offers-get row.values c v,
        cell-insert t.rows i j row c,
        vacant c,
        valid.sound c v j,
      );
      complete = λ c v j h m nn p. ground (
        arith,
        owner-index_cols (uniq_cols t) t.uniq i row.values c v,
        get-offers row.values c v,
        cell-insert t.rows i j row c,
        unowned c v m,
        valid.complete c v j,
      );
    }
      where
        vacant : (c : String) → cell t.rows i c ≡ none
        vacant c = cell-none t.rows i c free

  -- `check_uniq` of a row that is not yet in the table leaves what it offers unowned.
  unowned_after_check :
      (t : InMemoryTable V) (values : Map String V) (self_id : Option ℕ)
      → ((c : String) (v : V) (i : ℕ) → owner t.uniq c v ≡ some i → is_owner self_id i ≡ false)
      → check_uniq t (uniq_cols t) values self_id ≡ ok tt
      → (c : String) (v : V) → is_in c (uniq_cols t) ≡ true
      → offers values c v ≡ true
      → owner t.uniq c v ≡ none
  unfolding check_uniq clashes
  unowned_after_check t values self_id strange passed c v m off =
      elim (Option-cases (owner t.uniq c v)) [
        | inl unowned ↦ unowned
        | inr (i, owned) ↦ ground (
          arith,
          check_cols_passes (uniq_cols t) t.uniq values self_id c passed m,
          offers-get values c v off,
          strange c v i owned,
        )
      ]

  -- `insert_unchecked` keeps the table valid, on success and on failure, while the counter of ids
  -- stays below the last `u64`.
  pub insert_unchecked-IsValid :
      (t : InMemoryTable V) (row : Row V)
      → t.next_id + 1 < u64_mod
      → IsValid t
      → IsValid (insert_unchecked t row).1
  unfolding insert_unchecked next_row_id index_row
  insert_unchecked-IsValid t row room valid =
      elim (Result-cases (check_uniq t (uniq_cols t) row.values none)) [
        | inr (e, failed) ↦ rw (failed, insert_unchecked) valid
        | inl (u, passed) ↦
            rw (passed, insert_unchecked)
              (placed-IsValid valid t.next_id ((t.next_id + 1) % u64_mod)
                (record row { id = t.next_id }) (fresh valid) refl (omega arith) (omega arith)
                (unowned_after_check t row.values none (λ c v i h. refl) passed))
      ]

  -- `insert` keeps a table valid, on success and on failure, if the counter of ids is below the
  -- last `u64`.
  pub insert-IsValid :
      (t : InMemoryTable V) (row : Row V)
      → t.next_id + 1 < u64_mod
      → IsValid t
      → IsValid (insert t row).1
  unfolding insert
  insert-IsValid t row room valid = elim (Result-cases (validate_row_values t.schema row.values)) [
    | inr (e, failed) ↦ rw (failed, insert) valid
    | inl (u, passed) ↦ rw (passed, insert) (insert_unchecked-IsValid t row room valid)
  ]

  -- `insert_preserving_id` keeps a table valid, on success and on failure, if the id of the
  -- restored row is below the last `u64`.
  pub insert_preserving_id-IsValid :
      (t : InMemoryTable V) (row : Row V)
      → row.id + 1 < u64_mod
      → IsValid t
      → IsValid (insert_preserving_id t row).1
  unfolding insert_preserving_id index_row
  insert_preserving_id-IsValid t row room valid = elim (Option-cases (Map.get t.rows row.id)) [
    | inr (r, taken) ↦ rw (taken, insert_preserving_id) valid
    | inl free ↦ elim (Result-cases (check_uniq t (uniq_cols t) row.values (some row.id))) [
      | inr (e, failed) ↦ rw (free, insert_preserving_id) (rw failed valid)
      | inl (u, passed) ↦
          rw (free, insert_preserving_id)
            (rw passed (
              placed-IsValid valid row.id _ row free refl (ground arith) (ground arith)
                (unowned_after_check t row.values (some row.id) (others_own free) passed)))
    ]
  ]
    where
      others_own :
          Map.get t.rows row.id ≡ none
          → (c : String) (v : V) (i : ℕ) → owner t.uniq c v ≡ some i
          → is_owner (some row.id) i ≡ false
      others_own free c v i owned =
          ground (arith, valid.sound c v i owned, cell-none t.rows row.id c free)
