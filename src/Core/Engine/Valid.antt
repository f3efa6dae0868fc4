-- ===== src/Core/Engine/Valid.antt =====
-- Whatever sequence of calls an engine has served, each of its tables is valid.
use blitz_db.Prelude.{
  ℕ, ◌+◌, ◌<◌, String, some, ok, ◌≡◌, arith, str_eq, Option-cases, Bool-cases, inl, inr, subst,
  true, false, ◌≢◌,
}
use blitz_db.Prelude.Map
use blitz_db.Prelude.Map.{Map, string_key, nat_key, get-insert, get-remove}
use blitz_db.Types.Interface.{ValueOps}
use blitz_db.Types.Row.{Row}
use blitz_db.Types.Schema.{TableSchema}
use blitz_db.Core.Table
use blitz_db.Core.Table.{InMemoryTable, CoreResult, u64_mod, uniq_cols, new_table}
use blitz_db.Core.Table.Index.{is_in}
use blitz_db.Core.Table.Valid.{IsValid, cell, new_table-IsValid, unique_values}
use blitz_db.Core.Table.Insert.{
  insert-IsValid, insert_unchecked-IsValid, insert_preserving_id-IsValid,
}
use blitz_db.Core.Table.Update.{update-IsValid, take-IsValid}
use blitz_db.Core.Engine.{
  Engine, new_engine, on_table, insert, insert_unchecked, update, take, delete,
  insert_preserving_id, create_table, drop_table,
}

module _ {V : Type 0} ⦃o : ValueOps V⦄ where
  pub record EngineValid (e : Engine V) : Type 0 where
    pub tables : (n : String) (t : InMemoryTable V) → Map.get e n ≡ some t → IsValid t

  -- The counter of the table has room for one more id.
  abbrev pub HasRoom : Engine V → String → Type 0
  HasRoom e n = (t : InMemoryTable V) → Map.get e n ≡ some t → t.next_id + 1 < u64_mod

  -- No new value is `==` to the old one of its column without being the same.
  abbrev pub Agrees : Engine V → String → ℕ → Map String V → Type 0
  Agrees e n i values =
      (t : InMemoryTable V)
      → Map.get e n ≡ some t
      → (c : String) (v w : V) → cell t.rows i c ≡ some v
      → Map.get values c ≡ some w
      → o.eq w v ≡ true
      → w ≡ v

  -- One call that may change the engine.
  pub data Step : Engine V → Engine V → Type 0 where
    inserts : (e : Engine V) (n : String) (row : Row V) → HasRoom e n → Step e (insert e n row).1
    inserts_unchecked :
        (e : Engine V) (n : String) (row : Row V)
        → HasRoom e n
        → Step e (insert_unchecked e n row).1
    restores :
        (e : Engine V) (n : String) (row : Row V)
        → row.id + 1 < u64_mod
        → Step e (insert_preserving_id e n row).1
    updates :
        (e : Engine V) (n : String) (i : ℕ) (values : Map String V)
        → Agrees e n i values
        → Step e (update e n i values).1
    deletes : (e : Engine V) (n : String) (i : ℕ) → Step e (delete e n i).1
    creates : (e : Engine V) (s : TableSchema V) → Step e (create_table e s).1
    drops : (e : Engine V) (n : String) → Step e (drop_table e n).1

  pub data Reach (e : Engine V) : Engine V → Type 0 where
    here : Reach e e
    next : {f g : Engine V} → Reach e f → Step f g → Reach e g

  put-EngineValid :
      (e : Engine V) (n : String) (t : InMemoryTable V)
      → EngineValid e
      → IsValid t
      → EngineValid (Map.insert e n t)
  put-EngineValid e n t valid new = record {
    tables = λ m u found. elim (Bool-cases (str_eq n m)) [
      | inl same ↦
          let stored : t ≡ u = ground (arith, get-insert e n m t, same, found) in
          subst IsValid stored new
      | inr other ↦ valid.tables m u (rw (get-insert e n m t, other) at found)
    ];
  }

  on_table-EngineValid {ℓ} :
      {A : Type ℓ} (e : Engine V) (n : String)
      (body : InMemoryTable V → CoreResult A × InMemoryTable V)
      → ((t : InMemoryTable V) → Map.get e n ≡ some t → IsValid t → IsValid (body t).1)
      → EngineValid e
      → EngineValid (on_table e n body).1
  on_table-EngineValid e n body keeps valid = elim (Option-cases (Map.get e n)) [
    | inl absent ↦ unfold on_table in rw (absent, on_table) valid
    | inr (t, present) ↦
        unfold on_table in
        rw (present, on_table)
          (put-EngineValid e n (body t).1 valid (keeps t present (valid.tables n t present)))
  ]

  -- Each call, successful or not, keeps every table valid.
  pub Step-EngineValid : {e f : Engine V} → Step e f → EngineValid e → EngineValid f
  unfolding insert insert_unchecked update take delete insert_preserving_id create_table drop_table
  Step-EngineValid (inserts e n row room) =
      on_table-EngineValid e n _ (λ t present. insert-IsValid t row (room t present))
  Step-EngineValid (inserts_unchecked e n row room) =
      on_table-EngineValid e n _ (λ t present. insert_unchecked-IsValid t row (room t present))
  Step-EngineValid (restores e n row room) =
      on_table-EngineValid e n _ (λ t present. insert_preserving_id-IsValid t row room)
  Step-EngineValid (updates e n i values agree) =
      on_table-EngineValid e n _ (λ t present. update-IsValid t i values (agree t present))
  Step-EngineValid (deletes e n i) =
      on_table-EngineValid e n (λ t. let (taken, t') = Table.take t i in (ok taken, t'))
        (λ t present. take-IsValid t i)
  Step-EngineValid (creates e s) = λ valid. elim (Option-cases (Map.get e s.name)) [
    | inr (t, taken) ↦ rw (taken, create_table) valid
    | inl free ↦
        rw (free, create_table) (put-EngineValid e s.name (new_table s) valid (new_table-IsValid s))
  ]
  Step-EngineValid (drops e n) = λ valid. elim (Option-cases (Map.get e n)) [
    | inl absent ↦ rw (absent, drop_table) valid
    | inr (t, present) ↦
        rw (present, drop_table)
          (record { tables = λ m u found. valid.tables m u (ground (arith, get-remove e n m)) })
  ]

  -- Every engine that a sequence of calls makes out of the empty engine has valid tables only,
  -- where each insert finds room in the counter of its table and no update sets a value that is
  -- `==` to the old one without being the same.
  pub Reach-EngineValid : {e : Engine V} → Reach new_engine e → EngineValid e
  unfolding Map.get
  Reach-EngineValid here = record { tables = λ n t found. cc }
  Reach-EngineValid (next r st) = Step-EngineValid st (Reach-EngineValid r)

  -- In every engine that a sequence of calls makes out of the empty engine, with the room in the
  -- counters and the updates that `Reach-EngineValid` asks for, two rows of one table with
  -- different ids never hold the same value under a unique column, where the value is not null and
  -- a probe can find it.
  pub Reach-distinct_values :
      {e : Engine V}
      → Reach new_engine e
      → (n : String) (t : InMemoryTable V) → Map.get e n ≡ some t
      → (c : String) (v : V) (i j : ℕ) → cell t.rows i c ≡ some v
      → is_in c (uniq_cols t) ≡ true
      → o.is_null v ≡ false
      → o.probe v v ≡ true
      → i ≢ j
      → cell t.rows j c ≢ some v
  Reach-distinct_values r n t present c v i j held unique filled found other again =
      let valid = (Reach-EngineValid r).tables n t present in
      other (unique_values valid c v i j held again unique filled found)
