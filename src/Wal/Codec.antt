-- ===== src/Wal/Codec.antt =====
-- crates/blitz-wal/src/log.rs: `WalHeader` and `WalEntryRaw`, to bytes and back.
--
-- A table name is the list of its bytes. The checksum is the crate crc32fast's and the UTF-8 test
-- the standard library's; both are parameters, `Bytes32`.
pub mod RoundTrip
use blitz_db.Prelude.{
  ℕ, ◌+◌, ◌%◌, ◌^◌, ◌<◌, Bool, true, false, List, [], ◌∷◌, ◌++◌, length, Option, none, some, Result,
  ok, err, if◌then◌else◌, ◌==◌,
}
use blitz_db.Prelude.Bytes.{to_le}
use blitz_db.Wal.Reader.{
  Reader, WalError, unexpected_eof, corruption, ◌>>=◌, pure, fail, read_exact, read_le,
}

pub record Bytes32 : Type 0 where
  pub crc32 : List ℕ → ℕ
  pub is_utf8 : List ℕ → Bool
  pub crc32_fits : (bs : List ℕ) → crc32 bs < 2 ^ 32

abbrev pub wal_magic : ℕ
wal_magic = 0x424c4954

abbrev pub wal_version : ℕ
wal_version = 1

abbrev pub wal_header_size : ℕ
wal_header_size = 16

abbrev pub entry_header_size : ℕ
entry_header_size = 4 + 8 + 1 + 4 + 8 + 4 + 4

pub data EntryType : Type 0 where
  insert update delete commit rollback : EntryType

unfoldable pub as_u8 : EntryType → ℕ
as_u8 insert = 1
as_u8 update = 2
as_u8 delete = 3
as_u8 commit = 4
as_u8 rollback = 5

unfoldable pub from_u8 : ℕ → Option EntryType
from_u8 v =
    if v == 1
    then some insert
    else if v == 2
    then some update
    else if v == 3
    then some delete
    else if v == 4
    then some commit
    else if v == 5
    then some rollback
    else none

pub record WalEntry : Type 0 where
  pub sequence : ℕ
  pub entry_type : EntryType
  pub table : List ℕ
  pub row_id : ℕ
  pub contents : List ℕ

pub record WalHeader : Type 0 where
  pub magic : ℕ
  pub version : ℕ
  pub sequence : ℕ

pub record WalEntryRaw : Type 0 where
  pub magic : ℕ
  pub sequence : ℕ
  pub entry_type : ℕ
  pub table : List ℕ
  pub row_id : ℕ
  pub contents : List ℕ
  pub checksum : ℕ

unfoldable pub write_header : WalHeader → List ℕ
write_header h = to_le 4 h.magic ++ (to_le 4 h.version ++ to_le 8 h.sequence)

-- The version is read and not looked at.
unfoldable pub read_header : Reader WalHeader
read_header = do
  magic ← read_le 4
  version ← read_le 4
  sequence ← read_le 8
  pure (record { magic = magic; version = version; sequence = sequence })

unfoldable pub serialized_size : WalEntryRaw → ℕ
serialized_size r = entry_header_size + length r.table + length r.contents

-- `len() as u32` keeps the low 32 bits, as writing four bytes does.
unfoldable pub write_entry : WalEntryRaw → List ℕ
write_entry r =
    to_le 4 r.magic
    ++ (to_le 8 r.sequence
        ++ ((r.entry_type ∷ [])
            ++ (to_le 4 (length r.table % 2 ^ 32)
                ++ (r.table
                    ++ (to_le 8 r.row_id
                        ++ (to_le 4 (length r.contents % 2 ^ 32)
                            ++ (r.contents ++ to_le 4 r.checksum)))))))

unfoldable pub to_entry : WalEntryRaw → Result WalError WalEntry
to_entry r = elim (from_u8 r.entry_type) [
  | none ↦ err corruption
  | some t ↦ ok (record {
    sequence = r.sequence;
    entry_type = t;
    table = r.table;
    row_id = r.row_id;
    contents = r.contents;
  })
]

module _ (c : Bytes32) where
  unfoldable pub compute_checksum : WalEntryRaw → ℕ
  compute_checksum r =
      c.crc32 (
        to_le 8 r.sequence
        ++ ((r.entry_type ∷ []) ++ (r.table ++ (to_le 8 r.row_id ++ r.contents))))

  unfoldable pub from_entry : WalEntry → WalEntryRaw
  unfolding as_u8
  from_entry e =
      let raw : WalEntryRaw = record {
        magic = wal_magic;
        sequence = e.sequence;
        entry_type = as_u8 e.entry_type;
        table = e.table;
        row_id = e.row_id;
        contents = e.contents;
        checksum = 0;
      } in
      record raw { checksum = compute_checksum raw }

  unfoldable pub check_utf8 : List ℕ → Reader (List ℕ)
  check_utf8 bs = if c.is_utf8 bs then pure bs else fail corruption

  unfoldable pub verify : WalEntryRaw → Reader WalEntryRaw
  verify r = if r.checksum == compute_checksum r then pure r else fail corruption

  unfoldable pub read_entry : Reader WalEntryRaw
  read_entry = do
    magic ← read_le 4
    sequence ← read_le 8
    entry_type ← read_le 1
    table_len ← read_le 4
    table_bytes ← read_exact table_len
    table ← check_utf8 table_bytes
    row_id ← read_le 8
    data_len ← read_le 4
    contents ← read_exact data_len
    checksum ← read_le 4
    verify (record {
      magic = magic;
      sequence = sequence;
      entry_type = entry_type;
      table = table;
      row_id = row_id;
      contents = contents;
      checksum = checksum;
    })
