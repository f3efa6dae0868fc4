-- ===== src/Durability/Replay/Tables.antt =====
-- Replay taken table by table: what a table is after a log depends on its own entries only.
use blitz_db.Prelude.{
  ℕ, ◌%◌, String, Bool, Option, none, some, List, [], ◌∷◌, ◌++◌, keep, str_eq, if◌then◌else◌, ◌≡◌,
  refl, sym, ap, ◌∙◌, subst, arith, eq_iff, Option-cases, Bool-cases, inl, inr, ok,
}
use mathlib.Core.Option
use blitz_db.Prelude.Map
use blitz_db.Prelude.Map.{Map, string_key, nat_key, get-insert}
use blitz_db.Types.Value.{Foreign, Value}
use blitz_db.Types.Value.Laws.{value_ops}
use blitz_db.Types.Schema.{TableSchema, new_schema, with_column}
use blitz_db.Types.Row.{Row}
use blitz_db.Core.Table
use blitz_db.Core.Table.{InMemoryTable, CoreResult, new_table}
use blitz_db.Core.Engine
use blitz_db.Core.Engine.{Engine, on_table}
use blitz_db.Wal.Codec.{EntryType, WalEntry}
use blitz_db.Server.Ids.{local_mod}
use blitz_db.Durability.Payload.{Serde, payload_values}
use blitz_db.Durability.Replay.{
  id_schema, sorted_keys, with_inferred, with_keys, infer_schema, ensure_table, is_logged_after,
  replay_insert, replay_entry, replay, replay_files,
}

abbrev pub concat {ℓ} : {A : Type ℓ} → List (List A) → List A
concat [] = []
concat (xs ∷ xss) = xs ++ concat xss

pub keep-append {ℓ} :
    {A : Type ℓ} (p : A → Bool) (xs ys : List A) → keep p (xs ++ ys) ≡ keep p xs ++ keep p ys
keep-append p [] ys = refl
keep-append p (x ∷ xs) ys = elim (Bool-cases (p x)) [
  | inl kept ↦ ground (arith, kept, keep-append p xs ys)
  | inr cut ↦ ground (arith, cut, keep-append p xs ys)
]

pub get-on_table :
    {V : Type 0} {A : Type 0} (e : Engine V) (n m : String)
    (body : InMemoryTable V → CoreResult A × InMemoryTable V)
    → Map.get (on_table e n body).1 m
      ≡ (if str_eq n m then Option.map (λ t. (body t).1) (Map.get e m) else Map.get e m)
unfolding on_table
get-on_table e n m body = elim (Option-cases (Map.get e n)) [
  | inl absent ↦ elim (Bool-cases (str_eq n m)) [
    | inl same ↦
        rw (absent, on_table, same, subst (λ k. Map.get e k ≡ none) ((eq_iff n m).0 same) absent)
          refl
    | inr other ↦ rw (absent, on_table, other) refl
  ]
  | inr (t, present) ↦ elim (Bool-cases (str_eq n m)) [
    | inl same ↦
        rw
          (
            present,
            on_table,
            get-insert e n m (body t).1,
            same,
            subst (λ k. Map.get e k ≡ some t) ((eq_iff n m).0 same) present,
          )
          refl
    | inr other ↦ rw (present, on_table, get-insert e n m (body t).1, other) refl
  ]
]

module _ {F : Foreign} (s : Serde F) (fresh : String → ℕ) where
  -- The entries of one table.
  abbrev pub is_of : String → WalEntry → Bool
  is_of n x = str_eq (s.text x.table) n

  -- A table, or the one that recovery creates.
  abbrev pub or_inferred :
      String → Option (InMemoryTable (Value F)) → Map String (Value F) → InMemoryTable (Value F)
  or_inferred n none values = new_table (infer_schema s fresh n values)
  or_inferred n (some t) values = t

  -- What an entry of table `n` does to that table.
  unfoldable pub apply_table :
      String → Option (InMemoryTable (Value F)) → WalEntry → Option (InMemoryTable (Value F))
  apply_table n o x = elim (x.entry_type) [
    | EntryType.insert ↦
        let values = payload_values s x.contents in
        some
          (Table.insert_preserving_id (or_inferred n o values)
            (record { id = x.row_id % local_mod; values = values })).1
    | EntryType.update ↦
        Option.map (λ t. (Table.update t (x.row_id % local_mod) (payload_values s x.contents)).1) o
    | EntryType.delete ↦ Option.map (λ t. (Table.take t (x.row_id % local_mod)).1) o
    | EntryType.commit ↦ o
    | EntryType.rollback ↦ o
  ]

  unfoldable pub apply_log :
      ℕ
      → String
      → Option (InMemoryTable (Value F))
      → List WalEntry
      → Option (InMemoryTable (Value F))
  unfolding is_logged_after
  apply_log after n o [] = o
  apply_log after n o (x ∷ xs) =
      apply_log after n (if is_logged_after after x then apply_table n o x else o) xs

  pub apply_log-append :
      (after : ℕ) (n : String) (o : Option (InMemoryTable (Value F))) (xs ys : List WalEntry)
      → apply_log after n o (xs ++ ys) ≡ apply_log after n (apply_log after n o xs) ys
  unfolding apply_log
  apply_log-append after n o [] ys = refl
  apply_log-append after n o (x ∷ xs) ys =
      apply_log-append after n (if is_logged_after after x then apply_table n o x else o) xs ys

  name-with_keys :
      (t : TableSchema (Value F)) (sample : Map String (Value F)) (ks : List String)
      → (with_keys t sample ks).name ≡ t.name
  unfolding with_keys with_inferred with_column
  name-with_keys t sample [] = refl
  name-with_keys t sample (k ∷ ks) = elim (Option-cases (Map.get sample k)) [
    | inl absent ↦ ground (arith, absent, name-with_keys t sample ks)
    | inr (v, present) ↦
        ground (arith, present, name-with_keys (with_inferred t sample k) sample ks)
  ]

  name-infer_schema :
      (n : String) (sample : Map String (Value F)) → (infer_schema s fresh n sample).name ≡ n
  unfolding infer_schema with_column new_schema
  name-infer_schema n sample =
      name-with_keys (id_schema s fresh n) sample (sorted_keys s fresh sample)

  get-ensure_table :
      (e : Engine (Value F)) (n m : String) (values : Map String (Value F))
      → Map.get (ensure_table s fresh e n values) m
        ≡ (if str_eq n m then some (or_inferred m (Map.get e m) values) else Map.get e m)
  unfolding ensure_table Engine.table_exists Map.contains_key Engine.create_table
  get-ensure_table e n m values = elim (Option-cases (Map.get e n)) [
    | inl absent ↦
        let made : TableSchema (Value F) = infer_schema s fresh n values in
        ground (
          arith,
          absent,
          name-infer_schema n values,
          eq_iff n m,
          get-insert e n m (new_table (infer_schema s fresh n values)),
        )
    | inr (t, present) ↦ ground (arith, present, eq_iff n m)
  ]

  -- What one entry does to each table of the engine.
  pub get-replay_entry :
      (e : Engine (Value F)) (x : WalEntry) (m : String)
      → Map.get (replay_entry s fresh e x).1 m
        ≡ (if is_of m x then apply_table m (Map.get e m) x else Map.get e m)
  unfolding replay_entry apply_table replay_insert Engine.insert_preserving_id Engine.update
      Engine.delete Engine.take
  get-replay_entry e x m = by_type x.entry_type refl
    where
      by_type :
          (t : EntryType)
          → x.entry_type ≡ t
          → Map.get (replay_entry s fresh e x).1 m
            ≡ (if is_of m x then apply_table m (Map.get e m) x else Map.get e m)
      by_type EntryType.insert h =
          let values = payload_values s x.contents in
          let row : Row (Value F) = record { id = x.row_id % local_mod; values = values } in
          ground (
            arith,
            h,
            get-ensure_table e (s.text x.table) m values,
            get-on_table (ensure_table s fresh e (s.text x.table) values) (s.text x.table) m
                (λ t. Table.insert_preserving_id t row),
          )
      by_type EntryType.update h = ground (
        arith,
        h,
        get-on_table e (s.text x.table) m
            (λ t. Table.update t (x.row_id % local_mod) (payload_values s x.contents)),
      )
      by_type EntryType.delete h = ground (
        arith,
        h,
        get-on_table e (s.text x.table) m
            (λ t. let (taken, t') = Table.take t (x.row_id % local_mod) in (ok taken, t')),
      )
      by_type EntryType.commit h = ground (arith, h)
      by_type EntryType.rollback h = ground (arith, h)

  pub get-replay :
      (after : ℕ) (e : Engine (Value F)) (xs : List WalEntry) (m : String)
      → Map.get (replay s fresh after e xs).1 m
        ≡ apply_log after m (Map.get e m) (keep (is_of m) xs)
  unfolding replay apply_log
  get-replay after e [] m = refl
  get-replay after e (x ∷ xs) m = elim (Bool-cases (is_logged_after after x)) [
    | inr skipped ↦ elim (Bool-cases (is_of m x)) [
      | inl ours ↦ ground (arith, skipped, ours, get-replay after e xs m)
      | inr other ↦ ground (arith, skipped, other, get-replay after e xs m)
    ]
    | inl logged ↦ elim (Bool-cases (is_of m x)) [
      | inl ours ↦ ground (
        arith,
        logged,
        ours,
        get-replay_entry e x m,
        get-replay after (replay_entry s fresh e x).1 xs m,
      )
      | inr other ↦ ground (
        arith,
        logged,
        other,
        get-replay_entry e x m,
        get-replay after (replay_entry s fresh e x).1 xs m,
      )
    ]
  ]

  -- What the logs of several files do to a table is what its entries do, in the order of the files.
  pub get-replay_files :
      (after : ℕ) (e : Engine (Value F)) (files : List (List WalEntry)) (m : String)
      → Map.get (replay_files s fresh after e files).1 m
        ≡ apply_log after m (Map.get e m) (keep (is_of m) (concat files))
  unfolding replay_files apply_log
  get-replay_files after e [] m = refl
  get-replay_files after e (xs ∷ files) m =
      get-replay_files after (replay s fresh after e xs).1 files m
      ∙ ap (λ o. apply_log after m o (keep (is_of m) (concat files))) (get-replay after e xs m)
      ∙ sym (
          apply_log-append after m (Map.get e m) (keep (is_of m) xs)
            (keep (is_of m) (concat files)))
      ∙ ap (apply_log after m (Map.get e m)) (sym (keep-append (is_of m) xs (concat files)))
