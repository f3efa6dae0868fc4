-- ===== src/Wal/Log.antt =====
-- crates/blitz-wal/src/log.rs: `WriteAheadLog`.
--
-- The file is the list of its bytes. Creating directories, syncing and I/O errors other than the
-- end of the file are not modelled; how many staged bytes the `BufWriter` spills to the file by
-- itself is an argument of `append_buffered`.
pub mod Loop
pub mod Recovery
pub mod Steps
use blitz_db.Prelude.{
  ℕ, zero, suc, ◌+◌, ◌-◌, ◌%◌, ◌^◌, Bool, List, [], ◌∷◌, ◌++◌, length, take, drop, Option, none,
  some, Result, ok, err, if◌then◌else◌, ◌==◌, ltb,
}
use blitz_db.Wal.Reader.{WalError, unexpected_eof, corruption, Reader}
use blitz_db.Wal.Codec.{
  Bytes32, EntryType, insert, update, delete, commit, rollback, WalEntry, WalHeader, WalEntryRaw,
  wal_magic, wal_version, wal_header_size, write_header, read_header, serialized_size, write_entry,
  to_entry, from_entry, read_entry,
}

pub record WriteAheadLog : Type 0 where
  pub file : List ℕ
  pub staged : List ℕ
  pub next_sequence : ℕ
  pub current_size : ℕ

abbrev pub fresh_header : WalHeader
fresh_header = record { magic = wal_magic; version = wal_version; sequence = 0 }

-- The sequence and the size are `u64`s, which wrap.
abbrev pub u64_mod : ℕ
u64_mod = 2 ^ 64

-- `writer.flush()`: what is staged goes to the file.
unfoldable pub sync : WriteAheadLog → WriteAheadLog
sync w = record w { file = w.file ++ w.staged; staged = [] }

unfoldable pub start : WriteAheadLog → WriteAheadLog
start w = record (sync (record w { staged = w.staged ++ write_header fresh_header })) {
  current_size = (w.current_size + wal_header_size) % u64_mod;
}

unfoldable pub truncate : WriteAheadLog → WriteAheadLog
truncate w = start (record w { file = []; staged = []; current_size = 0 })

module _ (c : Bytes32) where
  -- The loop over the entries after the header; `none` when the fuel runs out.
  unfoldable pub each_entry :
      {S : Type 0}
      → (S → WalEntryRaw → Result WalError S)
      → ℕ
      → S
      → List ℕ
      → Option (Result WalError S)
  each_entry visit zero s src = none
  each_entry visit (suc fuel) s src = elim (read_entry c src) [
    | err unexpected_eof ↦ some (ok s)
    | err corruption ↦ some (err corruption)
    | ok (raw, rest) ↦ elim (visit s raw) [
      | err e ↦ some (err e)
      | ok t ↦ each_entry visit fuel t rest
    ]
  ]

  -- The header, then the loop; every entry takes a byte at least.
  unfoldable pub scan_file :
      {S : Type 0} → (S → WalEntryRaw → Result WalError S) → S → List ℕ → Option (Result WalError S)
  scan_file visit s file = elim (read_header file) [
    | err e ↦ some (err e)
    | ok (header, rest) ↦
        if header.magic == wal_magic
        then each_entry visit (suc (length rest)) s rest
        else some (err corruption)
  ]

unfoldable pub push : List WalEntry → WalEntryRaw → Result WalError (List WalEntry)
push entries raw = elim (to_entry raw) [ ok e ↦ ok (entries ++ (e ∷ [])) | err e ↦ err e ]

unfoldable pub max_seq : ℕ → WalEntryRaw → Result WalError ℕ
max_seq seen raw = ok (if ltb seen raw.sequence then raw.sequence else seen)

-- `recover_sequence` of what the scan found.
unfoldable pub resume :
    WriteAheadLog → Option (Result WalError ℕ) → Option (Result WalError WriteAheadLog)
resume w none = none
resume w (some (err e)) = some (err e)
resume w (some (ok seen)) = some (ok (record w { next_sequence = (seen + 1) % u64_mod }))

unfoldable pub next_entry : WriteAheadLog → EntryType → List ℕ → ℕ → List ℕ → WalEntry
next_entry w t table row_id contents = record {
  sequence = w.next_sequence;
  entry_type = t;
  table = table;
  row_id = row_id;
  contents = contents;
}

unfoldable pub bump : WriteAheadLog → WriteAheadLog
bump w = record w { next_sequence = (w.next_sequence + 1) % u64_mod }

module _ (c : Bytes32) where
  unfoldable pub read_all : WriteAheadLog → Option (Result WalError (List WalEntry))
  read_all w = scan_file c push [] w.file

  unfoldable pub recover_sequence : WriteAheadLog → Option (Result WalError WriteAheadLog)
  recover_sequence w = resume w (scan_file c max_seq 0 w.file)

  unfoldable pub open_log : List ℕ → Option (Result WalError WriteAheadLog)
  open_log bytes =
      let w : WriteAheadLog = record {
        file = bytes;
        staged = [];
        next_sequence = 1;
        current_size = length bytes;
      } in
      if length bytes == 0 then some (ok (start w)) else recover_sequence w

  -- The entry staged behind what is staged already, and its size counted.
  unfoldable pub stage : WriteAheadLog → WalEntry → WriteAheadLog
  stage w e = record w {
    staged = w.staged ++ write_entry (from_entry c e);
    current_size = (w.current_size + serialized_size (from_entry c e)) % u64_mod;
  }

  unfoldable pub append_entry : WriteAheadLog → WalEntry → WriteAheadLog
  append_entry w e = sync (stage w e)

  unfoldable pub append_insert : WriteAheadLog → List ℕ → ℕ → List ℕ → ℕ × WriteAheadLog
  append_insert w table row_id contents =
      (w.next_sequence, bump (append_entry w (next_entry w insert table row_id contents)))

  unfoldable pub append_update : WriteAheadLog → List ℕ → ℕ → List ℕ → ℕ × WriteAheadLog
  append_update w table row_id contents =
      (w.next_sequence, bump (append_entry w (next_entry w update table row_id contents)))

  unfoldable pub append_delete : WriteAheadLog → List ℕ → ℕ → ℕ × WriteAheadLog
  append_delete w table row_id =
      (w.next_sequence, bump (append_entry w (next_entry w delete table row_id [])))

  unfoldable pub append_commit : WriteAheadLog → ℕ → ℕ × WriteAheadLog
  append_commit w tx_id = (w.next_sequence, bump (append_entry w (next_entry w commit [] tx_id [])))

  unfoldable pub append_rollback : WriteAheadLog → ℕ → ℕ × WriteAheadLog
  append_rollback w tx_id =
      (w.next_sequence, bump (append_entry w (next_entry w rollback [] tx_id [])))

  -- `spilled` staged bytes reach the file with the append.
  unfoldable pub append_buffered :
      WriteAheadLog → ℕ → EntryType → List ℕ → ℕ → List ℕ → ℕ × WriteAheadLog
  append_buffered w spilled t table row_id contents =
      let v = stage w (next_entry w t table row_id contents) in
      (
        w.next_sequence,
        bump (record v { file = v.file ++ take spilled v.staged; staged = drop spilled v.staged }),
      )
