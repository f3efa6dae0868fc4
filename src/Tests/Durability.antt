-- ===== src/Tests/Durability.antt =====
-- A server that logs a row, a change of it and its deletion, and its recovery.
use blitz_db.Prelude.{ℕ, String, true, false, List, [], ◌∷◌, ◌++◌, none, ok, ◌≡◌, refl, arith}
use mathlib.Core.Option
use blitz_db.Prelude.Map
use blitz_db.Prelude.Map.{Map, string_key}
use blitz_db.Prelude.Order.{pos}
use blitz_db.Prelude.Bytes.{to_le}
use blitz_db.Types.Interface.{ColumnDef, ColumnType}
use blitz_db.Types.Value.{Value}
use blitz_db.Types.Value.Laws.{value_ops}
use blitz_db.Types.Schema.{TableSchema}
use blitz_db.Types.Row.{Row}
use blitz_db.Types.Value.{value_eq, same_hash, probe}
use blitz_db.Types.Value.Convert.{is_null, value_matches_type}
use blitz_db.Types.Schema.{
  validate_row_values, validate_columns, check_column, check_present, check_absent,
}
use blitz_db.Prelude.Order.{eq_bytes}
use blitz_db.Prelude.Bytes.{from_le}
use blitz_db.Core.Table
use blitz_db.Core.Table.{
  new_table, next_row_id, unique_names, owner, clashes, check_cols, check_uniq, claim, index_col,
  index_cols, index_row, release, unindex_col, unindex_cols, unindex_row,
}
use blitz_db.Core.Engine
use blitz_db.Core.Engine.{on_table}
use blitz_db.Wal.Reader.{read_le, read_exact}
use blitz_db.Wal.Codec.{read_header, read_entry, to_entry, check_utf8, verify, from_u8}
use blitz_db.Wal.Log.{
  open_log, recover_sequence, resume, scan_file, each_entry, max_seq, read_all, push, start, sync,
}
use blitz_db.Durability.Replay.{opened_entries}
use blitz_db.Durability.Cluster.{route}
use blitz_db.Core.Engine.{Engine, new_engine}
use blitz_db.Wal.Codec.{
  WalEntry, EntryType, write_header, from_entry, write_entry, compute_checksum, as_u8,
}
use blitz_db.Wal.Log.{fresh_header}
use blitz_db.Wal.Log.Loop.{encode}
use blitz_db.Server.Ids.{compose_id}
use blitz_db.Durability.Payload.{values_to_json_bytes, payload_values}
use blitz_db.Durability.Payload.RoundTrip.{recovered, Survives, payload_values-values_to_json_bytes}
use blitz_db.Durability.Replay.{recover, file_entries}
use blitz_db.Durability.Replay.Mirror.{Mirrors}
use blitz_db.Durability.Replay.History.{Served, entry_of, create, insert, delete, done}
use blitz_db.Durability.Cluster.{shard_logs, shards_for_mode}
use blitz_db.Durability.Recovered.{recover_rebuilds}
use blitz_db.Tests.Json.{documents, serde}
use blitz_db.Tests.Wal.{sums}

abbrev Stored : Type 0
Stored = Value documents

abbrev score : ColumnDef Stored
score = record {
  name = "n";
  column_type = ColumnType.int32;
  is_nullable = false;
  is_primary_key = false;
  is_unique = true;
  default = none;
}

abbrev scores : TableSchema Stored
scores = record { id = 4; name = "t"; columns = score ∷ []; column_index = ("n", 0) ∷ [] }

abbrev seven : Map String Stored
seven = ("n", Value.int32 (pos 7)) ∷ []

seven-Survives : Survives serde seven
unfolding values_to_json_bytes blitz_db.Durability.Payload.map_values
    blitz_db.Durability.Payload.value_to_json
seven-Survives = refl

payload_values-values_to_json_bytes_example :
    Map.get (payload_values serde (values_to_json_bytes serde seven)) "n"
    ≡ Option.map (recovered serde) (Map.get seven "n")
payload_values-values_to_json_bytes_example =
    payload_values-values_to_json_bytes serde seven "n" seven-Survives

abbrev eight : Map String Stored
eight = ("n", Value.int32 (pos 8)) ∷ []

eight-Survives : Survives serde eight
unfolding values_to_json_bytes blitz_db.Durability.Payload.map_values
    blitz_db.Durability.Payload.value_to_json
eight-Survives = refl

abbrev row_of : Map String Stored → Row Stored
row_of values = record { id = 0; values = values }

abbrev created : Engine Stored
created = (Engine.create_table new_engine scores).1

abbrev first : Engine Stored
first = (Engine.insert created "t" (row_of seven)).1

abbrev second : Engine Stored
second = (Engine.insert first "t" (row_of eight)).1

abbrev third : Engine Stored
third = (Engine.delete second "t" 1).1

abbrev written : List WalEntry
written =
    entry_of serde 1 EntryType.insert "t" 0 1 (values_to_json_bytes serde seven)
    ∷ entry_of serde 2 EntryType.insert "t" 0 2 (values_to_json_bytes serde eight)
    ∷ entry_of serde 3 EntryType.delete "t" 0 1 []
    ∷ []

first_id : (Engine.insert created "t" (row_of seven)).0 ≡ ok 1
unfolding Engine.create_table Engine.insert Engine.delete Engine.take on_table Table.insert
    Table.insert_unchecked Table.take validate_row_values validate_columns check_column
    check_present check_absent new_table Map.get Map.insert Map.remove is_null value_matches_type
    check_uniq check_cols unique_names clashes index_row next_row_id index_cols index_col claim
    owner unindex_row unindex_cols unindex_col release value_eq same_hash probe eq_bytes
first_id = refl

second_id : (Engine.insert first "t" (row_of eight)).0 ≡ ok 2
unfolding Engine.create_table Engine.insert Engine.delete Engine.take on_table Table.insert
    Table.insert_unchecked Table.take validate_row_values validate_columns check_column
    check_present check_absent new_table Map.get Map.insert Map.remove is_null value_matches_type
    check_uniq check_cols unique_names clashes index_row next_row_id index_cols index_col claim
    owner unindex_row unindex_cols unindex_col release value_eq same_hash probe eq_bytes
second_id = refl

deleted : (Engine.delete second "t" 1).0 ≡ ok true
unfolding Engine.create_table Engine.insert Engine.delete Engine.take on_table Table.insert
    Table.insert_unchecked Table.take validate_row_values validate_columns check_column
    check_present check_absent new_table Map.get Map.insert Map.remove is_null value_matches_type
    check_uniq check_cols unique_names clashes index_row next_row_id index_cols index_col claim
    owner unindex_row unindex_cols unindex_col release value_eq same_hash probe eq_bytes
deleted = refl

-- A file that only has its header, and the file of shard 3.
abbrev header : List ℕ
header = write_header fresh_header

abbrev files : List (List ℕ)
files =
    header
    ∷ header
    ∷ header
    ∷ (header ++ encode sums written)
    ∷ header
    ∷ header
    ∷ header
    ∷ header
    ∷ header
    ∷ header
    ∷ header
    ∷ header
    ∷ header
    ∷ header
    ∷ header
    ∷ header
    ∷ []

abbrev fresh : String → ℕ
fresh n = 9

abbrev hash : String → ℕ
hash n = 19

files_read :
    file_entries serde fresh sums files ≡ shard_logs serde fresh hash shards_for_mode written
unfolding open_log recover_sequence resume scan_file each_entry read_header read_entry read_le
    read_exact from_le to_le write_header max_seq read_all push opened_entries start sync
    write_entry from_entry to_entry compute_checksum as_u8 encode shard_logs route compose_id
    values_to_json_bytes blitz_db.Durability.Payload.map_values
    blitz_db.Durability.Payload.value_to_json check_utf8 verify from_u8
files_read = refl

run : Served serde 0 new_engine written third
run = create new_engine third written scores (
    insert created third _ "t" (row_of seven) 1 0 1 (omega arith) (omega arith) first_id
      seven-Survives
      (insert first third _ "t" (row_of eight) 2 0 2 (omega arith) (omega arith) second_id
        eight-Survives
        (delete second third _ "t" 3 0 1 (omega arith) (omega arith) deleted (done third))))

recover_rebuilds_example :
    (replayed : ℕ) × (last : Engine Stored) × (recover serde fresh sums {E = Unit {0}} new_engine
        (ok none)
        files
      ≡ ok (0, 0, replayed, last))
    × ((n : String) → Mirrors serde (Map.get third n) (Map.get last n))
recover_rebuilds_example = recover_rebuilds serde fresh hash sums files run files_read
