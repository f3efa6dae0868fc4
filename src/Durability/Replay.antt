-- ===== src/Durability/Replay.antt =====
-- crates/blitz-server/src/durability.rs: `recover`, the snapshot and then the logs, on the engine.
--
-- The `Uuid` of a table that recovery creates is drawn by `fresh`. A snapshot is what
-- `SnapshotManager` has loaded, and a log is the bytes of its file.
pub mod Tables
pub mod Mirror
pub mod History
pub mod Rebuild
use blitz_db.Prelude.{
  ℕ, ◌+◌, ◌%◌, ◌^◌, String, Bool, not, Option, none, some, List, [], ◌∷◌, map, keep, length, leb,
  str_eq, if◌then◌else◌, Result, ok, err,
}
use Prim.Native.Nat.{compare}
use blitz_db.Prelude.Map
use blitz_db.Prelude.Map.{Map, string_key, nat_key}
use blitz_db.Prelude.Order.{cmp_bytes}
use blitz_db.Types.Interface.{ColumnType, ColumnDef, new_column, nullable}
use blitz_db.Types.Value.{Foreign, Value}
use blitz_db.Types.Value.Laws.{value_ops}
use blitz_db.Types.Schema.{TableSchema, new_schema, with_column}
use blitz_db.Types.Row.{Row}
use blitz_db.Query.Sort.{sort_by}
use blitz_db.Core.Table.{InMemoryTable, CoreResult}
use blitz_db.Core.Engine
use blitz_db.Core.Engine.{Engine}
use blitz_db.Wal.Reader.{WalError}
use blitz_db.Wal.Codec.{Bytes32, EntryType, WalEntry}
use blitz_db.Wal.Log.{WriteAheadLog, open_log, read_all}
use blitz_db.Server.Ids.{local_mod}
use blitz_db.Durability.Payload.{Serde, json_to_value, map_values, payload_values, value_to_json}

pub record SnapshotRow (F : Foreign) : Type 0 where
  pub id : ℕ
  pub values : Map String F.Json

pub record TableSnapshot (F : Foreign) : Type 0 where
  pub name : String
  pub rows : List (SnapshotRow F)

unfoldable pub infer_column_type : {F : Foreign} → Value F → ColumnType
infer_column_type (Value.boolean b) = ColumnType.boolean
infer_column_type (Value.int8 n) = ColumnType.int8
infer_column_type (Value.int16 n) = ColumnType.int16
infer_column_type (Value.int32 n) = ColumnType.int32
infer_column_type (Value.int64 n) = ColumnType.int64
infer_column_type (Value.uint8 n) = ColumnType.uint8
infer_column_type (Value.uint16 n) = ColumnType.uint16
infer_column_type (Value.uint32 n) = ColumnType.uint32
infer_column_type (Value.uint64 n) = ColumnType.uint64
infer_column_type (Value.float32 n) = ColumnType.float32
infer_column_type (Value.float64 n) = ColumnType.float64
infer_column_type _ = ColumnType.string

unfoldable pub is_logged_after : ℕ → WalEntry → Bool
is_logged_after after x = not (leb x.sequence after)

-- `open` fails: the file is skipped; `read_all` fails: nothing of it is replayed.
unfoldable pub opened_entries : Bytes32 → Option (Result WalError WriteAheadLog) → List WalEntry
opened_entries c none = []
opened_entries c (some (err e)) = []
opened_entries c (some (ok w)) = elim (read_all c w) [
  | none ↦ []
  | some r ↦ elim r [ err e ↦ [] | ok entries ↦ entries ]
]

module _ {F : Foreign} where
  -- `with_column(ColumnDef::new(k, infer_column_type(&sample[k])).nullable())`; every key is one
  -- of the sample's.
  unfoldable pub with_inferred :
      TableSchema (Value F) → Map String (Value F) → String → TableSchema (Value F)
  with_inferred t sample k = elim (Map.get sample k) [
    | none ↦ t
    | some v ↦ with_column t (nullable (new_column k (infer_column_type v)))
  ]

  unfoldable pub with_keys :
      TableSchema (Value F) → Map String (Value F) → List String → TableSchema (Value F)
  unfolding with_inferred
  with_keys t sample [] = t
  with_keys t sample (k ∷ ks) = with_keys (with_inferred t sample k) sample ks

module _ {F : Foreign} (s : Serde F) (fresh : String → ℕ) where
  abbrev pub id_schema : String → TableSchema (Value F)
  id_schema n = with_column (new_schema (fresh n) n) (nullable (new_column "id" ColumnType.int64))

  -- The keys but `id`, sorted.
  abbrev pub sorted_keys : Map String (Value F) → List String
  sorted_keys sample =
      sort_by (λ a b. cmp_bytes (s.as_bytes a) (s.as_bytes b))
        (keep (λ k. not (str_eq k "id")) (map (λ entry. entry.0) sample))

  unfoldable pub infer_schema : String → Map String (Value F) → TableSchema (Value F)
  unfolding with_keys
  infer_schema n sample = with_keys (id_schema n) sample (sorted_keys sample)

  -- `if !engine.table_exists(name) { let _ = engine.create_table(schema); }`
  unfoldable pub ensure_table : Engine (Value F) → String → Map String (Value F) → Engine (Value F)
  unfolding infer_schema
  ensure_table e n sample =
      if Engine.table_exists e n then e else (Engine.create_table e (infer_schema n sample)).1

  -- One entry of a log: how much it adds to `replayed`, and the engine after it.
  unfoldable pub replay_insert :
      Engine (Value F) → String → ℕ → Map String (Value F) → ℕ × Engine (Value F)
  unfolding ensure_table
  replay_insert e n i values =
      let (r, e') =
        Engine.insert_preserving_id (ensure_table e n values) n
          (record { id = i; values = values }) in
      (elim r [ ok j ↦ 1 | err x ↦ 0 ], e')

  unfoldable pub replay_entry : Engine (Value F) → WalEntry → ℕ × Engine (Value F)
  unfolding replay_insert
  replay_entry e x = elim (x.entry_type) [
    | EntryType.insert ↦
        replay_insert e (s.text x.table) (x.row_id % local_mod) (payload_values s x.contents)
    | EntryType.update ↦ (
      1,
      (Engine.update e (s.text x.table) (x.row_id % local_mod) (payload_values s x.contents)).1,
    )
    | EntryType.delete ↦ (1, (Engine.delete e (s.text x.table) (x.row_id % local_mod)).1)
    | EntryType.commit ↦ (0, e)
    | EntryType.rollback ↦ (0, e)
  ]

  -- The loop over the entries of a file; those up to the snapshot's sequence are skipped.
  unfoldable pub replay : ℕ → Engine (Value F) → List WalEntry → ℕ × Engine (Value F)
  replay after e [] = (0, e)
  replay after e (x ∷ xs) =
      let (counted, e') = if is_logged_after after x then replay_entry e x else (0, e) in
      let (more, last) = replay after e' xs in (counted + more, last)

  unfoldable pub replay_files : ℕ → Engine (Value F) → List (List WalEntry) → ℕ × Engine (Value F)
  replay_files after e [] = (0, e)
  replay_files after e (xs ∷ files) =
      let (counted, e') = replay after e xs in
      let (more, last) = replay_files after e' files in (counted + more, last)

  -- The rows of a table of the snapshot; a row whose id is taken is skipped.
  unfoldable pub restore_rows :
      Engine (Value F) → String → List (SnapshotRow F) → ℕ × Engine (Value F)
  restore_rows e n [] = (0, e)
  restore_rows e n (r ∷ rs) =
      let (outcome, e') =
        Engine.insert_preserving_id e n
          (record { id = r.id; values = map_values (json_to_value s) r.values }) in
      let (more, last) = restore_rows e' n rs in
      (elim outcome [ ok i ↦ 1 | err x ↦ 0 ] + more, last)

  unfoldable pub first_values : List (SnapshotRow F) → Map String (Value F)
  first_values [] = []
  first_values (r ∷ rs) = map_values (json_to_value s) r.values

  unfoldable pub restore_table : Engine (Value F) → TableSnapshot F → ℕ × Engine (Value F)
  unfolding restore_rows first_values ensure_table
  restore_table e t =
      restore_rows (ensure_table e t.name (first_values t.rows)) t.name
        (sort_by (λ a b. compare a.id b.id) t.rows)

  unfoldable pub restore_tables : Engine (Value F) → List (TableSnapshot F) → ℕ × Engine (Value F)
  unfolding restore_table
  restore_tables e [] = (0, e)
  restore_tables e (t ∷ ts) =
      let (rows, e') = restore_table e t in
      let (more, last) = restore_tables e' ts in (rows + more, last)

-- `load_latest`'s answer, the logs in the order in which their files are read, and the outcome:
-- tables restored, rows restored, entries replayed, and the engine.
module _ {F : Foreign} (s : Serde F) (fresh : String → ℕ) (c : Bytes32) where
  abbrev pub file_entries : List (List ℕ) → List (List WalEntry)
  file_entries files = map (λ bytes. opened_entries c (open_log c bytes)) files

  unfoldable pub recover :
      {E : Type 0}
      → Engine (Value F)
      → Result E (Option (List (TableSnapshot F) × ℕ))
      → List (List ℕ)
      → Result E (ℕ × ℕ × ℕ × Engine (Value F))
  unfolding restore_tables replay_files opened_entries
  recover e (err x) files = err x
  recover e (ok none) files =
      let (replayed, last) = replay_files s fresh 0 e (file_entries files) in
      ok (0, 0, replayed, last)
  recover e (ok (some (tables, seq))) files =
      let (rows, restored) = restore_tables s fresh e tables in
      let (replayed, last) = replay_files s fresh seq restored (file_entries files) in
      ok (length tables, rows, replayed, last)

module _ {F : Foreign} (s : Serde F) where
  -- `save_snapshot`: every table with its rows by id; the sequence it records is always 0.
  unfoldable pub snapshot_row : Row (Value F) → SnapshotRow F
  snapshot_row r = record { id = r.id; values = map_values (value_to_json s) r.values }

  unfoldable pub snapshot_table : String × InMemoryTable (Value F) → TableSnapshot F
  unfolding snapshot_row
  snapshot_table entry = record {
    name = entry.0;
    rows = sort_by (λ a b. compare a.id b.id) (map (λ row. snapshot_row row.1) entry.1.rows);
  }

  unfoldable pub save_snapshot : Engine (Value F) → List (TableSnapshot F) × ℕ
  unfolding snapshot_table
  save_snapshot e = (map snapshot_table e, 0)
