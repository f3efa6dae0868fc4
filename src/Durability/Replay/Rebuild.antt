-- ===== src/Durability/Replay/Rebuild.antt =====
-- What an entry of the running server keeps between its engine and recovery, and the whole log.
use blitz_db.Prelude.{
  ℕ, ◌+◌, ◌<◌, String, Option, none, some, List, [], ◌∷◌, keep, ok, str_eq, if◌then◌else◌, ◌≡◌,
  refl, subst, arith, eq_iff, Option-cases, Bool-cases, inl, inr,
}
use mathlib.Core.Option
use mathlib.Core.List.{append-nil}
use blitz_db.Prelude.Map
use blitz_db.Prelude.Map.{Map, string_key, nat_key, get-insert}
use blitz_db.Types.Interface.{new_column, nullable}
use blitz_db.Types.Value.{Foreign, Value}
use blitz_db.Types.Value.Laws.{value_ops}
use blitz_db.Types.Schema.{TableSchema, new_schema, with_column}
use blitz_db.Types.Row.{Row}
use blitz_db.Server.Ids.{local_mod, compose_id-local}
use blitz_db.Core.Table
use blitz_db.Core.Table.{InMemoryTable, new_table, u64_mod, uniq_cols, unique_names}
use blitz_db.Core.Table.Valid.{IsValid}
use blitz_db.Core.Table.Outcome
use blitz_db.Core.Engine
use blitz_db.Core.Engine.{Engine, on_table}
use blitz_db.Core.Engine.Valid.{
  EngineValid, Step-EngineValid, inserts, updates, deletes, creates, HasRoom,
}
use blitz_db.Wal.Codec.{EntryType, WalEntry}
use blitz_db.Durability.Payload.{Serde, values_to_json_bytes, payload_values}
use blitz_db.Durability.Payload.RoundTrip.{Survives, payload_values-values_to_json_bytes}
use blitz_db.Durability.Replay.{
  infer_schema, with_keys, with_inferred, id_schema, sorted_keys, is_logged_after,
}
use blitz_db.Durability.Replay.Tables.{
  get-on_table, is_of, or_inferred, apply_table, apply_log, keep-append,
}
use blitz_db.Durability.Replay.Mirror.{
  Mirrors, SameValues, SameRow, updated_row, insert-Mirrors, update-Mirrors, take-Mirrors,
}
use blitz_db.Durability.Replay.History.{
  Served, entry_of, done, create, insert, update, delete, on_table_ok,
}

unique_names-with_column :
    {F : Foreign} (t : TableSchema (Value F)) (sample : Map String (Value F)) (k : String)
    → unique_names t ≡ []
    → unique_names (with_inferred t sample k) ≡ []
unfolding unique_names with_inferred with_column new_column nullable
unique_names-with_column t sample k h = elim (Option-cases (Map.get sample k)) [
  | inl absent ↦ rw (absent, with_inferred) h
  | inr (v, present) ↦ rw (present, with_inferred, keep-append, append-nil) h
]

unique_names-with_keys :
    {F : Foreign} (t : TableSchema (Value F)) (sample : Map String (Value F)) (ks : List String)
    → unique_names t ≡ []
    → unique_names (with_keys t sample ks) ≡ []
unfolding with_keys
unique_names-with_keys t sample [] h = h
unique_names-with_keys t sample (k ∷ ks) h =
    unique_names-with_keys (with_inferred t sample k) sample ks
      (unique_names-with_column t sample k h)

module _ {F : Foreign} (s : Serde F) (fresh : String → ℕ) where
  unique_names-infer_schema :
      (n : String) (sample : Map String (Value F))
      → unique_names (infer_schema s fresh n sample) ≡ []
  unfolding infer_schema new_schema
  unique_names-infer_schema n sample =
      unique_names-with_keys (id_schema s fresh n) sample (sorted_keys s fresh sample)
        (unfold unique_names with_column new_column nullable in refl)

  or_inferred-Mirrors :
      (n : String) (live o : Option (InMemoryTable (Value F))) (values : Map String (Value F))
      → Mirrors s live o
      → Mirrors s live (some (or_inferred s fresh n o values))
  or_inferred-Mirrors n live (some b) values mirror = mirror
  or_inferred-Mirrors n live none values mirror = record {
    rows = unfold new_table Map.get in mirror.rows;
    plain = λ t e.
        let same : new_table (infer_schema s fresh n values) ≡ t = ground (arith, e) in
        subst (λ z. uniq_cols z ≡ []) same (unfold new_table in unique_names-infer_schema n values);
  }

  -- The id that an insert draws is free.
  insert_free :
      (t : InMemoryTable (Value F)) (row : Row (Value F)) (i : ℕ)
      → IsValid t
      → (Table.insert t row).0 ≡ ok i
      → Map.get t.rows i ≡ none
  insert_free t row i valid h = elim (Option-cases (Map.get t.rows i)) [
    | inl free ↦ free
    | inr (r, present) ↦
        let drawn : i ≡ t.next_id = (Outcome.rows-insert t row i i h).0 in
        let below : i < t.next_id = valid.below i r present in
        let none_left : ⊥ = omega arith in absurd none_left
  ]

  has_room :
      (e : Engine (Value F)) (m : String) (row : Row (Value F)) (i : ℕ)
      → i < local_mod
      → (Engine.insert e m row).0 ≡ ok i
      → HasRoom e m
  unfolding Engine.insert
  has_room e m row i fits inserted u present =
      let (t, found, success) = on_table_ok e m (λ t. Table.insert t row) i inserted in
      let same : t ≡ u = ground (arith, found, present) in
      let drawn : i ≡ t.next_id = (Outcome.rows-insert t row i i success).0 in
      let low : t.next_id + 1 < u64_mod = omega arith in
      subst (λ z. z.next_id + 1 < u64_mod) same low

  abbrev pub after_entry :
      String → Option (InMemoryTable (Value F)) → WalEntry → Option (InMemoryTable (Value F))
  after_entry n o x = if is_of s fresh n x then apply_table s fresh n o x else o

  insert_step :
      (e : Engine (Value F)) (m n : String) (row : Row (Value F)) (seq shard i : ℕ)
      (o : Option (InMemoryTable (Value F)))
      → EngineValid e
      → i < local_mod
      → (Engine.insert e m row).0 ≡ ok i
      → Survives s row.values
      → Mirrors s (Map.get e n) o
      → Mirrors s (Map.get (Engine.insert e m row).1 n) (
          after_entry n o
            (entry_of s seq EntryType.insert m shard i (values_to_json_bytes s row.values)))
  unfolding Engine.insert apply_table
  insert_step e m n row seq shard i o valid fits inserted survives mirror =
      elim (Bool-cases (str_eq m n)) [
        | inr other ↦
            rw (get-on_table e m n (λ t. Table.insert t row), s.text-as_bytes m, other) mirror
        | inl same ↦
            let (t, found, success) = on_table_ok e m (λ t. Table.insert t row) i inserted in
            let here : Map.get e n ≡ some t =
              subst (λ k. Map.get e k ≡ some t) ((eq_iff m n).0 same) found in
            let free : Map.get t.rows i ≡ none =
              insert_free t row i (valid.tables m t found) success in
            rw
              (
                get-on_table e m n (λ t. Table.insert t row),
                s.text-as_bytes m,
                same,
                here,
                compose_id-local shard i fits,
              )
              (insert-Mirrors s t
                (or_inferred s fresh n o (payload_values s (values_to_json_bytes s row.values))) row
                i (payload_values s (values_to_json_bytes s row.values)) success free
                (λ c. payload_values-values_to_json_bytes s row.values c survives)
                (or_inferred-Mirrors n (some t) o _ (subst (λ l. Mirrors s l o) here mirror)))
      ]

  update_step :
      (e : Engine (Value F)) (m n : String) (values : Map String (Value F)) (row : Row (Value F))
      (seq shard i : ℕ) (o : Option (InMemoryTable (Value F)))
      → i < local_mod
      → (Engine.update e m i values).0 ≡ ok row
      → Survives s row.values
      → Mirrors s (Map.get e n) o
      → Mirrors s (Map.get (Engine.update e m i values).1 n) (
          after_entry n o
            (entry_of s seq EntryType.update m shard i (values_to_json_bytes s row.values)))
  unfolding Engine.update apply_table
  update_step e m n values row seq shard i o fits updated survives mirror =
      elim (Bool-cases (str_eq m n)) [
        | inr other ↦
            rw (get-on_table e m n (λ t. Table.update t i values), s.text-as_bytes m, other) mirror
        | inl same ↦
            let (t, found, success) = on_table_ok e m (λ t. Table.update t i values) row updated in
            let here : Map.get e n ≡ some t =
              subst (λ k. Map.get e k ≡ some t) ((eq_iff m n).0 same) found in
            rw
              (
                get-on_table e m n (λ t. Table.update t i values),
                s.text-as_bytes m,
                same,
                here,
                compose_id-local shard i fits,
              )
              (update_under t i values row (payload_values s (values_to_json_bytes s row.values)) o
                success (λ c. payload_values-values_to_json_bytes s row.values c survives)
                (subst (λ l. Mirrors s l o) here mirror))
      ]
    where
      update_under :
          (t : InMemoryTable (Value F)) (i : ℕ) (values : Map String (Value F))
          (row : Row (Value F)) (back : Map String (Value F)) (o : Option (InMemoryTable (Value F)))
          → (Table.update t i values).0 ≡ ok row
          → SameValues s row.values back
          → Mirrors s (some t) o
          → Mirrors s
              (some (Table.update t i values).1)
              (Option.map (λ b. (Table.update b i back).1) o)
      update_under t i values row back none h same mirror =
          let (cur, present, made) = updated_row s t i values row h in
          absurd (subst (λ r. SameRow s r none) present (mirror.rows i))
      update_under t i values row back (some b) h same mirror =
          update-Mirrors s t b i values back row h same mirror

  delete_step :
      (e : Engine (Value F)) (m n : String) (seq shard i : ℕ) (o : Option (InMemoryTable (Value F)))
      → i < local_mod
      → Mirrors s (Map.get e n) o
      → Mirrors s
          (Map.get (Engine.delete e m i).1 n)
          (after_entry n o (entry_of s seq EntryType.delete m shard i []))
  unfolding Engine.delete Engine.take apply_table
  delete_step e m n seq shard i o fits mirror = elim (Bool-cases (str_eq m n)) [
    | inr other ↦
        rw
          (
            get-on_table e m n (λ t. let (taken, t') = Table.take t i in (ok taken, t')),
            s.text-as_bytes m,
            other,
          )
          mirror
    | inl same ↦
        rw
          (
            get-on_table e m n (λ t. let (taken, t') = Table.take t i in (ok taken, t')),
            s.text-as_bytes m,
            same,
            compose_id-local shard i fits,
          )
          (take-Mirrors s (Map.get e n) o i mirror)
  ]

  create_step :
      (e : Engine (Value F)) (n : String) (schema : TableSchema (Value F))
      (o : Option (InMemoryTable (Value F)))
      → Mirrors s (Map.get e n) o
      → Mirrors s (Map.get (Engine.create_table e schema).1 n) o
  unfolding Engine.create_table
  create_step e n schema o mirror = elim (Option-cases (Map.get e schema.name)) [
    | inr (t, taken) ↦ rw (taken, Engine.create_table) mirror
    | inl free ↦ elim (Bool-cases (str_eq schema.name n)) [
      | inr other ↦
          rw (free, Engine.create_table, get-insert e schema.name n (new_table schema), other)
            mirror
      | inl same ↦
          let absent : Map.get e n ≡ none =
            subst (λ k. Map.get e k ≡ none) ((eq_iff schema.name n).0 same) free in
          let before : Mirrors s none o = subst (λ l. Mirrors s l o) absent mirror in
          rw (free, Engine.create_table, get-insert e schema.name n (new_table schema), same)
            (record { rows = unfold new_table Map.get in before.rows; plain = before.plain })
    ]
  ]

  apply_log-entry :
      (after : ℕ) (n : String) (o : Option (InMemoryTable (Value F))) (x : WalEntry)
      (xs : List WalEntry)
      → after < x.sequence
      → apply_log s fresh after n o (keep (is_of s fresh n) (x ∷ xs))
        ≡ apply_log s fresh after n (after_entry n o x) (keep (is_of s fresh n) xs)
  unfolding apply_log is_logged_after
  apply_log-entry after n o x xs later = elim (Bool-cases (is_of s fresh n x)) [
    | inl ours ↦ ground (arith, ours)
    | inr other ↦ ground (arith, other)
  ]

  -- Each entry of the log keeps a table of recovery the mirror of the running one.
  pub Served-Mirrors :
      {after : ℕ} {e f : Engine (Value F)} {xs : List WalEntry}
      → Served s after e xs f
      → EngineValid e
      → (n : String) (o : Option (InMemoryTable (Value F))) → Mirrors s (Map.get e n) o
      → Mirrors s (Map.get f n) (apply_log s fresh after n o (keep (is_of s fresh n) xs))
  unfolding apply_log
  Served-Mirrors {after} (done e) valid n o mirror = mirror
  Served-Mirrors {after} (create e f xs schema run) valid n o mirror =
      Served-Mirrors run (Step-EngineValid (creates e schema) valid) n o
        (create_step e n schema o mirror)
  Served-Mirrors {after} (insert e f xs m row seq shard i later fits inserted survives run) valid n
        o mirror =
      let x = entry_of s seq EntryType.insert m shard i (values_to_json_bytes s row.values) in
      let room = has_room e m row i fits inserted in
      rw (apply_log-entry after n o x xs later) (
        Served-Mirrors run (Step-EngineValid (inserts e m row room) valid) n (after_entry n o x)
          (insert_step e m n row seq shard i o valid fits inserted survives mirror))
  Served-Mirrors {after}
        (update e f xs m values row seq shard i later fits agrees updated survives run) valid n o
        mirror =
      let x = entry_of s seq EntryType.update m shard i (values_to_json_bytes s row.values) in
      rw (apply_log-entry after n o x xs later) (
        Served-Mirrors run (Step-EngineValid (updates e m i values agrees) valid) n
          (after_entry n o x)
          (update_step e m n values row seq shard i o fits updated survives mirror))
  Served-Mirrors {after} (delete e f xs m seq shard i later fits deleted run) valid n o mirror =
      let x = entry_of s seq EntryType.delete m shard i [] in
      rw (apply_log-entry after n o x xs later) (
        Served-Mirrors run (Step-EngineValid (deletes e m i) valid) n (after_entry n o x)
          (delete_step e m n seq shard i o fits mirror))
