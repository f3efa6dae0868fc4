-- ===== src/Tests/Wal.antt =====
-- The log on small entries. The checksum of the tests adds the bytes, which need not be crc32.
use blitz_db.Prelude.{
  ℕ, ◌+◌, ◌%◌, ◌^◌, ◌<◌, true, List, [], ◌∷◌, ◌++◌, none, some, ok, All, ◌≡◌, ◌≢◌, refl, arith,
}
use blitz_db.Prelude.Bytes.{to_le}
use blitz_db.Wal.Codec.{
  Bytes32, insert, delete, WalEntry, read_entry, write_entry, from_entry, to_entry,
  compute_checksum, as_u8, write_header,
}
use blitz_db.Wal.Codec.RoundTrip.{Fits, read_entry-write_entry, to_entry-from_entry}
use blitz_db.Wal.Log.{
  WriteAheadLog, fresh_header, scan_file, push, read_all, open_log, append_insert, append_entry,
  stage, bump, next_entry, sync,
}
use blitz_db.Wal.Log.Loop.{encode, scan_file_ends}
use blitz_db.Wal.Log.Recovery.{Crashed, read_all_recovers, open_log_resumes}
use blitz_db.Wal.Log.Steps.{Logged, IsShort, Step, read_all_synced, Step-Logged}

abbrev pub total : List ℕ → ℕ
total [] = 0
total (b ∷ bs) = b + total bs

abbrev pub sums : Bytes32
sums = record {
  crc32 = λ bs. total bs % 2 ^ 32;
  is_utf8 = λ bs. true;
  crc32_fits = λ bs. omega arith;
}

abbrev entry : WalEntry
entry = record {
  sequence = 1;
  entry_type = insert;
  table = 117 ∷ [];
  row_id = 1;
  contents = 5 ∷ 6 ∷ [];
}

abbrev second : WalEntry
second = record { sequence = 2; entry_type = delete; table = 117 ∷ []; row_id = 1; contents = [] }

entry-Fits : Fits sums entry
entry-Fits = record {
  sequence = omega arith;
  table = omega arith;
  utf8 = refl;
  row_id = omega arith;
  contents = omega arith;
}

second-Fits : Fits sums second
second-Fits = record {
  sequence = omega arith;
  table = omega arith;
  utf8 = refl;
  row_id = omega arith;
  contents = omega arith;
}

-- The first five bytes of the second entry, and the rest of them.
abbrev front : List ℕ
front = 0x54 ∷ 0x49 ∷ 0x4c ∷ 0x42 ∷ 2 ∷ []

abbrev rest : List ℕ
rest =
    0 ∷ 0 ∷ 0 ∷ 0 ∷ 0 ∷ 0 ∷ 0 ∷ 3 ∷ 1 ∷ 0 ∷ 0 ∷ 0 ∷ 117 ∷ 1 ∷ 0 ∷ 0 ∷ 0 ∷ 0 ∷ 0 ∷ 0 ∷ 0 ∷ 0 ∷ 0 ∷ 0
    ∷ 0 ∷ 123 ∷ 0 ∷ 0 ∷ 0 ∷ []

second_bytes : write_entry (from_entry sums second) ≡ front ++ rest
unfolding write_entry from_entry compute_checksum to_le as_u8
second_bytes = refl

abbrev crashed_file : List ℕ
crashed_file = write_header fresh_header ++ (encode sums (entry ∷ []) ++ front)

crash : Crashed sums (entry ∷ []) crashed_file
crash = record {
  whole = (entry-Fits, tt);
  last = second;
  fits = second-Fits;
  front = front;
  back = rest;
  cut = second_bytes;
  short = omega arith;
  bytes = refl;
}

abbrev after_crash : WriteAheadLog
after_crash = record { file = crashed_file; staged = []; next_sequence = 1; current_size = 0 }

read_entry-write_entry_example :
    read_entry sums (write_entry (from_entry sums entry) ++ front)
    ≡ ok (from_entry sums entry, front)
read_entry-write_entry_example = read_entry-write_entry sums entry front entry-Fits

to_entry-from_entry_example : to_entry (from_entry sums entry) ≡ ok entry
to_entry-from_entry_example = to_entry-from_entry sums entry

scan_file_ends_example : scan_file sums push [] crashed_file ≢ none
scan_file_ends_example = scan_file_ends sums push [] crashed_file

read_all_recovers_example : read_all sums after_crash ≡ some (ok (entry ∷ []))
read_all_recovers_example = read_all_recovers sums after_crash (entry ∷ []) crash

open_log_resumes_example :
    (w : WriteAheadLog) × (open_log sums crashed_file ≡ some (ok w))
    × ((w.file ≡ crashed_file) × All (λ e. e.sequence < w.next_sequence) (entry ∷ []))
open_log_resumes_example = open_log_resumes sums crashed_file (entry ∷ []) crash (omega arith, tt)

abbrev blank : WriteAheadLog
blank = record {
  file = write_header fresh_header;
  staged = [];
  next_sequence = 1;
  current_size = 16;
}

blank-Logged : Logged sums blank []
unfolding write_header to_le encode
blank-Logged = record { image = refl; size = refl; numbered = tt }

blank-IsShort : IsShort sums (append_insert sums blank (117 ∷ []) 1 (5 ∷ 6 ∷ [])).1
unfolding write_header write_entry to_le encode from_entry as_u8 append_insert append_entry stage
    bump sync next_entry compute_checksum
blank-IsShort = omega arith

Step-Logged_example :
    Logged sums
      (append_insert sums blank (117 ∷ []) 1 (5 ∷ 6 ∷ [])).1
      ([] ++ (next_entry blank insert (117 ∷ []) 1 (5 ∷ 6 ∷ []) ∷ []))
Step-Logged_example =
    Step-Logged sums blank (append_insert sums blank (117 ∷ []) 1 (5 ∷ 6 ∷ [])).1 []
      ([] ++ (next_entry blank insert (117 ∷ []) 1 (5 ∷ 6 ∷ []) ∷ []))
      (Step.inserted blank [] (117 ∷ []) 1 (5 ∷ 6 ∷ [])) (omega arith) blank-IsShort blank-Logged

abbrev one_staged : WriteAheadLog
one_staged = record {
  file = write_header fresh_header;
  staged = write_entry (from_entry sums entry);
  next_sequence = 2;
  current_size = 52;
}

one_staged-Logged : Logged sums one_staged (entry ∷ [])
unfolding write_header write_entry to_le encode from_entry as_u8
one_staged-Logged = record { image = refl; size = refl; numbered = (omega arith, tt) }

read_all_synced_example : read_all sums (sync one_staged) ≡ some (ok (entry ∷ []))
read_all_synced_example =
    read_all_synced sums one_staged (entry ∷ []) one_staged-Logged (entry-Fits, tt)
