-- ===== src/Durability/Replay/Mirror.antt =====
-- One table of a running engine and the same table in recovery: what an entry keeps between them.
use blitz_db.Prelude.{
  ℕ, String, Option, none, some, [], ok, ◌==◌, if◌then◌else◌, ◌≡◌, refl, sym, subst, arith,
  Option-cases, Bool-cases, inl, inr,
}
use mathlib.Core.Option
use blitz_db.Prelude.Map
use blitz_db.Prelude.Map.{Map, string_key, nat_key, get-insert, get-remove, get-extend}
use blitz_db.Types.Interface.{ValueOps}
use blitz_db.Types.Value.{Foreign, Value}
use blitz_db.Types.Value.Laws.{value_ops}
use blitz_db.Types.Row.{Row}
use blitz_db.Core.Table
use blitz_db.Core.Table.{
  InMemoryTable, uniq_cols, check_uniq, check_cols, index_row, index_cols, unindex_row,
  unindex_cols, drop_stale_cols, insert_preserving_id, update, take,
}
use blitz_db.Core.Table.Outcome
use blitz_db.Durability.Payload.{Serde}
use blitz_db.Durability.Payload.RoundTrip.{recovered}

abbrev pub row_in : {V : Type 0} → Option (InMemoryTable V) → ℕ → Option (Row V)
row_in none i = none
row_in (some t) i = Map.get t.rows i

-- A table without unique columns.
abbrev pub IsPlain : {V : Type 0} → Option (InMemoryTable V) → Type 0
IsPlain {V} o = (t : InMemoryTable V) → o ≡ some t → uniq_cols t ≡ []

module _ {V : Type 0} ⦃o : ValueOps V⦄ (t : InMemoryTable V) (plain : uniq_cols t ≡ []) where
  uniq_cols-insert : (row : Row V) → uniq_cols (insert_preserving_id t row).1 ≡ []
  unfolding insert_preserving_id index_row check_uniq
  uniq_cols-insert row = ground (arith, plain)

  uniq_cols-update : (i : ℕ) (values : Map String V) → uniq_cols (update t i values).1 ≡ []
  unfolding update check_uniq
  uniq_cols-update i values = ground (arith, plain)

  uniq_cols-take : (i : ℕ) → uniq_cols (take t i).1 ≡ []
  unfolding take unindex_row
  uniq_cols-take i = ground (arith, plain)

  -- Without unique columns a free id is taken.
  rows-insert_preserving_id :
      (row : Row V) (j : ℕ)
      → Map.get t.rows row.id ≡ none
      → Map.get (insert_preserving_id t row).1.rows j
        ≡ (if row.id == j then some row else Map.get t.rows j)
  unfolding insert_preserving_id check_uniq check_cols index_row index_cols
  rows-insert_preserving_id row j free = ground (arith, plain, free, get-insert t.rows row.id j row)

  rows-update :
      (i j : ℕ) (values : Map String V) (cur : Row V)
      → Map.get t.rows i ≡ some cur
      → Map.get (update t i values).1.rows j ≡ (
          if i == j
          then some (record cur { values = Map.extend cur.values values })
          else Map.get t.rows j)
  unfolding update check_uniq check_cols
  rows-update i j values cur present = ground (
    arith,
    plain,
    present,
    get-insert t.rows i j (record cur { values = Map.extend cur.values values }),
  )

rows-take :
    {V : Type 0} ⦃o : ValueOps V⦄ (t : InMemoryTable V) (i j : ℕ)
    → Map.get (take t i).1.rows j ≡ (if i == j then none else Map.get t.rows j)
unfolding take unindex_row
rows-take t i j = ground (arith, get-remove t.rows i j)

module _ {F : Foreign} (s : Serde F) where
  -- The values of the second row are those of the first after a round trip.
  abbrev pub SameValues : Map String (Value F) → Map String (Value F) → Type 0
  SameValues live back = (c : String) → Map.get back c ≡ Option.map (recovered s) (Map.get live c)

  abbrev pub SameRow : Option (Row (Value F)) → Option (Row (Value F)) → Type 0
  SameRow none none = Unit
  SameRow (some r) (some q) = (q.id ≡ r.id) × SameValues r.values q.values
  SameRow _ _ = ⊥

  -- Recovery has the rows of the running table, id by id, and no unique columns.
  pub record Mirrors (live back : Option (InMemoryTable (Value F))) : Type 0 where
    pub rows : (i : ℕ) → SameRow (row_in live i) (row_in back i)
    pub plain : IsPlain back

  SameRow-none : (r q : Option (Row (Value F))) → SameRow r q → r ≡ none → q ≡ none
  SameRow-none r q h e = ground (arith, h, e)

  SameRow-some :
      (r q : Option (Row (Value F))) (a : Row (Value F))
      → SameRow r q
      → r ≡ some a
      → (b : Row (Value F)) × (q ≡ some b) × (b.id ≡ a.id) × SameValues a.values b.values
  SameRow-some none q a h e = cc
  SameRow-some (some r) none a h e = absurd h
  SameRow-some (some r) (some q) a h e =
      let same : r ≡ a = ground (arith, e) in
      let (ids, held) = subst (λ z. (q.id ≡ z.id) × SameValues z.values q.values) same h in
      (q, refl, ids, held)

  -- An update with the whole new row, over a row that mirrors the old one.
  SameValues-extend :
      (old values cur back : Map String (Value F))
      → SameValues old cur
      → SameValues (Map.extend old values) back
      → SameValues (Map.extend old values) (Map.extend cur back)
  SameValues-extend old values cur back before full c =
      elim (Option-cases (Map.get (Map.extend old values) c)) [
        | inl absent ↦
            ground (arith, absent, get-extend cur back c, full c, before c, get-extend old values c)
        | inr (v, present) ↦ ground (arith, present, get-extend cur back c, full c)
      ]

  still_plain : (b : InMemoryTable (Value F)) → uniq_cols b ≡ [] → IsPlain (some b)
  still_plain b h u e = let same : b ≡ u = ground (arith, e) in subst (λ z. uniq_cols z ≡ []) same h

  -- A row that the running table inserts under a free id.
  pub insert-Mirrors :
      (t b : InMemoryTable (Value F)) (row : Row (Value F)) (i : ℕ) (values : Map String (Value F))
      → (Table.insert t row).0 ≡ ok i
      → Map.get t.rows i ≡ none
      → SameValues row.values values
      → Mirrors (some t) (some b)
      → Mirrors
          (some (Table.insert t row).1)
          (some (insert_preserving_id b (record { id = i; values = values })).1)
  insert-Mirrors t b row i values inserted free same mirror = record {
    rows = λ j. elim (Bool-cases (i == j)) [
      | inl hit ↦ rw (placed j, stored j, hit) (refl, same)
      | inr miss ↦ rw (placed j, stored j, miss) (mirror.rows j)
    ];
    plain =
        still_plain _
          (uniq_cols-insert b (mirror.plain b refl) (record { id = i; values = values }));
  }
    where
      placed :
          (j : ℕ)
          → Map.get (Table.insert t row).1.rows j
            ≡ (if i == j then some (record row { id = i }) else Map.get t.rows j)
      placed j = (Outcome.rows-insert t row i j inserted).1

      stored :
          (j : ℕ)
          → Map.get (insert_preserving_id b (record { id = i; values = values })).1.rows j
            ≡ (if i == j then some (record { id = i; values = values }) else Map.get b.rows j)
      stored j =
          rows-insert_preserving_id b (mirror.plain b refl) (record { id = i; values = values }) j
            (SameRow-none _ _ (mirror.rows i) free)

  -- The row that a successful update returns.
  pub updated_row :
      (t : InMemoryTable (Value F)) (i : ℕ) (values : Map String (Value F)) (row : Row (Value F))
      → (update t i values).0 ≡ ok row
      → (cur : Row (Value F)) × (Map.get t.rows i ≡ some cur)
        × (record cur { values = Map.extend cur.values values } ≡ row)
  unfolding update
  updated_row t i values row h = elim (Option-cases (Map.get t.rows i)) [
    | inl absent ↦ ground (arith, absent, h)
    | inr (cur, present) ↦ (cur, present, ground (arith, present, h))
  ]

  -- An update that the running table makes, replayed with the whole new row.
  pub update-Mirrors :
      (t b : InMemoryTable (Value F)) (i : ℕ) (values back : Map String (Value F))
      (row : Row (Value F))
      → (update t i values).0 ≡ ok row
      → SameValues row.values back
      → Mirrors (some t) (some b)
      → Mirrors (some (update t i values).1) (some (update b i back).1)
  update-Mirrors t b i values back row updated same mirror =
      let (cur, present, made) = updated_row t i values row updated in
      let (old, there, ids, before) = SameRow-some _ _ cur (mirror.rows i) present in
      let full : SameValues (Map.extend cur.values values) back =
        subst (λ z. SameValues z.values back) (sym made) same in
      let hit : SameRow (some row) (some (record old { values = Map.extend old.values back })) =
        subst (λ z. SameRow (some z) (some (record old { values = Map.extend old.values back })))
          made (ids, SameValues-extend cur.values values old.values back before full) in
      record {
        rows = λ j. elim (Bool-cases (i == j)) [
          | inl same_id ↦
              rw
                (
                  Outcome.rows-update t i j values row updated,
                  rows-update b (mirror.plain b refl) i j back old there,
                  same_id,
                )
                hit
          | inr miss ↦
              rw
                (
                  Outcome.rows-update t i j values row updated,
                  rows-update b (mirror.plain b refl) i j back old there,
                  miss,
                )
                (mirror.rows j)
        ];
        plain = still_plain _ (uniq_cols-update b (mirror.plain b refl) i back);
      }

  take_both :
      (t b : InMemoryTable (Value F)) (i : ℕ)
      → Mirrors (some t) (some b)
      → Mirrors (some (take t i).1) (some (take b i).1)
  take_both t b i mirror = record {
    rows = λ j. elim (Bool-cases (i == j)) [
      | inl hit ↦ rw (rows-take t i j, rows-take b i j, hit) tt
      | inr miss ↦ rw (rows-take t i j, rows-take b i j, miss) (mirror.rows j)
    ];
    plain = still_plain _ (uniq_cols-take b (mirror.plain b refl) i);
  }

  -- A row taken from both, where a table that is not there has no rows.
  pub take-Mirrors :
      (live back : Option (InMemoryTable (Value F))) (i : ℕ)
      → Mirrors live back
      → Mirrors (Option.map (λ t. (take t i).1) live) (Option.map (λ t. (take t i).1) back)
  take-Mirrors none none i mirror = mirror
  take-Mirrors (some t) (some b) i mirror = take_both t b i mirror
  take-Mirrors none (some b) i mirror = record {
    rows = λ j. elim (Bool-cases (i == j)) [
      | inl hit ↦ rw (rows-take b i j, hit) tt
      | inr miss ↦ rw (rows-take b i j, miss) (mirror.rows j)
    ];
    plain = still_plain _ (uniq_cols-take b (mirror.plain b refl) i);
  }
  take-Mirrors (some t) none i mirror = record {
    rows = λ j. elim (Bool-cases (i == j)) [
      | inl hit ↦ rw (rows-take t i j, hit) tt
      | inr miss ↦ rw (rows-take t i j, miss) (mirror.rows j)
    ];
    plain = mirror.plain;
  }
