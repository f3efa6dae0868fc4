-- ===== src/Core/Table/Update.antt =====
-- Updates and removals keep the table valid.
use blitz_db.Prelude.{
  ℕ, String, true, false, none, some, ok, ◌≡◌, ◌∙◌, ◌&&◌, if◌then◌else◌, arith, Option-cases, inl,
  inr, Result-cases,
}
use blitz_db.Prelude.Map
use blitz_db.Prelude.Map.{Map, nat_key, string_key, get-insert, get-remove, get-extend}
use blitz_db.Types.Interface.{ValueOps}
use blitz_db.Types.Row.{Row}
use blitz_db.Core.Table.{
  InMemoryTable, is_owner, owner, uniq_cols, index_cols, unindex_row, drop_stale_cols, clashes,
  check_uniq, update, take,
}
use blitz_db.Core.Table.Index.{
  is_in, offers, carries, stale, offers-get, get-offers, owner-index_cols, owner-unindex_cols,
  owner-drop_stale_cols, check_cols_passes,
}
use blitz_db.Core.Table.Valid.{
  cell, cell-get, cell-insert, cell-remove, cell-none, IsValid, owner_probe,
}

module _ {V : Type 0} ⦃o : ValueOps V⦄ where
  get-carries :
      (values : Map String V) (d : String) (w : V)
      → Map.get values d ≡ some w
      → o.probe w w ≡ true
      → carries values d w ≡ true
  get-carries values d w h p = ground (arith, h)

  -- `take`, on which `delete` rests, keeps a table valid, whether or not the row is there.
  pub take-IsValid : (t : InMemoryTable V) (i : ℕ) → IsValid t → IsValid (take t i).1
  unfolding take unindex_row
  take-IsValid t i valid = elim (Option-cases (Map.get t.rows i)) [
    | inl absent ↦
        rw (absent, take)
          (record {
            keyed = λ j r h. ground (arith, get-remove t.rows i j, valid.keyed j r);
            below = λ j r h. ground (arith, get-remove t.rows i j, valid.below j r);
            listed = valid.listed;
            sound = λ c v j h.
                ground
                  (arith, cell-remove t.rows i j c, cell-none t.rows i c absent, valid.sound c v j);
            complete =
                λ c v j h m n p. ground (arith, cell-remove t.rows i j c, valid.complete c v j);
          })
    | inr (row, present) ↦
        rw (present, take)
          (record {
            keyed = λ j r h. ground (arith, get-remove t.rows i j, valid.keyed j r);
            below = λ j r h. ground (arith, get-remove t.rows i j, valid.below j r);
            listed = λ c v j h. ground (
              arith,
              owner-unindex_cols (uniq_cols t) t.uniq i row.values c v,
              valid.listed c v j,
            );
            sound = λ c v j h. ground (
              arith,
              owner-unindex_cols (uniq_cols t) t.uniq i row.values c v,
              cell-remove t.rows i j c,
              cell-get t.rows i c row present,
              valid.listed c v j,
              valid.sound c v j,
              get-carries row.values c v,
              owner_probe t.uniq c v {i = j},
            );
            complete = λ c v j h m n p. ground (
              arith,
              owner-unindex_cols (uniq_cols t) t.uniq i row.values c v,
              cell-remove t.rows i j c,
              valid.complete c v j,
            );
          })
  ]

  -- The table that `update` leaves, for a row that is there and a check that passed.
  module _ {t : InMemoryTable V} (valid : IsValid t) (i : ℕ) (values : Map String V) (cur : Row V)
      (present : Map.get t.rows i ≡ some cur)
      (passed : check_uniq t (uniq_cols t) values (some i) ≡ ok tt)
      (agree : (c : String) (v w : V)
        → Map.get cur.values c ≡ some v
        → Map.get values c ≡ some w
        → o.eq w v ≡ true
        → w ≡ v) where
    abbrev fresh_values : Map String V
    fresh_values = Map.extend cur.values values

    abbrev updated : InMemoryTable V
    updated = record t {
      rows = Map.insert t.rows i (record cur { values = fresh_values });
      uniq =
          index_cols (drop_stale_cols t.uniq (uniq_cols t) i cur.values fresh_values) (uniq_cols t)
            i fresh_values;
    }

    owner-updated :
        (c : String) (v : V)
        → owner updated.uniq c v ≡ (
            if is_in c (uniq_cols t) && offers fresh_values c v
            then some i
            else if is_in c (uniq_cols t)
                && stale cur.values fresh_values c v
                && is_owner (owner t.uniq c v) i
            then none
            else owner t.uniq c v)
    owner-updated c v = ground (
      arith,
      owner-index_cols (uniq_cols t)
          (drop_stale_cols t.uniq (uniq_cols t) i cur.values fresh_values) i fresh_values c v,
      owner-drop_stale_cols (uniq_cols t) t.uniq i cur.values fresh_values c v,
    )

    -- A value that `update` does not call stale is still the row's value.
    not_stale :
        (c : String) (v : V)
        → Map.get cur.values c ≡ some v
        → o.probe v v ≡ true
        → stale cur.values fresh_values c v ≡ false
        → Map.get fresh_values c ≡ some v
    not_stale c v held p kept = elim (Option-cases (Map.get values c)) [
      | inl absent ↦ ground (arith, get-extend cur.values values c, absent)
      | inr (w, given) ↦
          ground (arith, get-extend cur.values values c, given, agree c v w held given)
    ]

    -- What the updated row offers, no other row owns.
    offers_own :
        (c : String) (v : V) (j : ℕ)
        → is_in c (uniq_cols t) ≡ true
        → offers fresh_values c v ≡ true
        → o.is_null v ≡ false
        → o.probe v v ≡ true
        → owner t.uniq c v ≡ some j
        → i ≡ j
    unfolding check_uniq clashes
    offers_own c v j m off n p owned = elim (Option-cases (Map.get values c)) [
      | inl absent ↦ ground (
        arith,
        get-extend cur.values values c,
        absent,
        offers-get fresh_values c v off,
        cell-get t.rows i c cur present,
        valid.complete c v i,
      )
      | inr (w, given) ↦ ground (
        arith,
        get-extend cur.values values c,
        given,
        offers-get fresh_values c v off,
        check_cols_passes (uniq_cols t) t.uniq values (some i) c passed m,
      )
    ]

    updated-IsValid : IsValid updated
    updated-IsValid = record {
      keyed = λ j r h. ground (
        arith,
        get-insert t.rows i j (record cur { values = fresh_values }),
        valid.keyed i cur present,
        valid.keyed j r,
      );
      below = λ j r h. ground (
        arith,
        get-insert t.rows i j (record cur { values = fresh_values }),
        valid.below i cur present,
        valid.below j r,
      );
      listed = λ c v j h. ground (arith, owner-updated c v, valid.listed c v j);
      sound = λ c v j h. ground (
        arith,
        owner-updated c v,
        offers-get fresh_values c v,
        cell-insert t.rows i j (record cur { values = fresh_values }) c,
        cell-get t.rows i c cur present,
        valid.listed c v j,
        valid.sound c v j,
        owner_probe t.uniq c v {i = j},
        not_stale c v,
      );
      complete = λ c v j h m n p. ground (
        arith,
        owner-updated c v,
        get-offers fresh_values c v,
        offers_own c v j m,
        cell-insert t.rows i j (record cur { values = fresh_values }) c,
        valid.complete c v j,
      );
    }

  -- `update` keeps a table valid, on success and on failure, if no value that the row gets is `==`
  -- to the old value of its column without being the same.
  pub update-IsValid :
      (t : InMemoryTable V) (i : ℕ) (values : Map String V)
      → ((c : String) (v w : V)
          → cell t.rows i c ≡ some v
          → Map.get values c ≡ some w
          → o.eq w v ≡ true
          → w ≡ v)
      → IsValid t
      → IsValid (update t i values).1
  unfolding update
  update-IsValid t i values agree valid = elim (Option-cases (Map.get t.rows i)) [
    | inl absent ↦ rw (absent, update) valid
    | inr (cur, present) ↦ elim (Result-cases (check_uniq t (uniq_cols t) values (some i))) [
      | inr (e, failed) ↦ rw (present, update) (rw failed valid)
      | inl (u, passed) ↦
          rw (present, update)
            (rw passed (
              updated-IsValid valid i values cur present passed
                (λ c v w held. agree c v w (cell-get t.rows i c cur present ∙ held))))
    ]
  ]
