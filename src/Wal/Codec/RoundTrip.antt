-- ===== src/Wal/Codec/RoundTrip.antt =====
-- Reading back what was written, whole or cut short.
use blitz_db.Prelude.{
  ℕ, ◌%◌, ◌^◌, ◌<◌, true, List, [], ◌∷◌, ◌++◌, length, length-append, some, ok, err, ◌==◌, ==_refl,
  ◌≡◌, refl, arith, Result-cases, inl, inr, Bool-cases,
}
use mathlib.Core.List.{append-nil}
use blitz_db.Prelude.Bytes.{to_le, length-to_le}
use blitz_db.Wal.Reader.{
  Reads, Reads-bind, Reads-pure, Reads-last, Reads-read_exact, Reads-read_le, unexpected_eof,
  corruption, read_exact, read_le, Extends, Extends-bind, Extends-weaken, Extends-pure,
  Extends-fail, Extends-read_exact, Extends-read_le,
}
use blitz_db.Wal.Codec.{
  Bytes32, EntryType, insert, update, delete, commit, rollback, as_u8, from_u8, WalEntry,
  WalEntryRaw, write_entry, read_entry, check_utf8, verify, to_entry, from_entry, compute_checksum,
  serialized_size,
}

from_u8-as_u8 : (t : EntryType) → from_u8 (as_u8 t) ≡ some t
unfolding from_u8 as_u8
from_u8-as_u8 insert = refl
from_u8-as_u8 _ = refl

one_byte : (b : ℕ) → b < 256 → to_le 1 b ≡ b ∷ []
unfolding to_le
one_byte b h = ground arith

check_utf8-Extends : (c : Bytes32) (bs : List ℕ) → Extends 0 (check_utf8 c bs)
check_utf8-Extends c bs = elim (Bool-cases (c.is_utf8 bs)) [
  | inl good ↦ unfold check_utf8 in rw (good, check_utf8) (Extends-pure bs)
  | inr bad ↦ unfold check_utf8 in rw (bad, check_utf8) Extends-fail
]

verify-Extends : (c : Bytes32) (r : WalEntryRaw) → Extends 0 (verify c r)
verify-Extends c r = elim (Bool-cases (r.checksum == compute_checksum c r)) [
  | inl good ↦ unfold verify in rw (good, verify) (Extends-pure r)
  | inr bad ↦ unfold verify in rw (bad, verify) Extends-fail
]

==_eq : (m n : ℕ) → m ≡ n → (m == n) ≡ true
==_eq m n e = rw e (==_refl n)

module _ (c : Bytes32) where
  -- The fields fit the widths at which they are written, and the table name is UTF-8.
  pub record Fits (e : WalEntry) : Type 0 where
    pub sequence : e.sequence < 2 ^ 64
    pub table : length e.table < 2 ^ 32
    pub utf8 : c.is_utf8 e.table ≡ true
    pub row_id : e.row_id < 2 ^ 64
    pub contents : length e.contents < 2 ^ 32

  module _ (r : WalEntryRaw) (magic : r.magic < 2 ^ 32) (sequence : r.sequence < 2 ^ 64)
      (entry_type : r.entry_type < 256) (table : length r.table < 2 ^ 32)
      (utf8 : c.is_utf8 r.table ≡ true) (row_id : r.row_id < 2 ^ 64)
      (contents : length r.contents < 2 ^ 32) (checksum : r.checksum < 2 ^ 32)
      (verified : r.checksum ≡ compute_checksum c r) where
    type_byte : Reads (read_le 1) (r.entry_type ∷ []) r.entry_type
    type_byte =
        rw (one_byte r.entry_type entry_type) at (Reads-read_le 1 r.entry_type (omega arith))

    low_bits : (n : ℕ) → n < 2 ^ 32 → n % 2 ^ 32 ≡ n
    low_bits n h = omega arith

    read_bytes : (xs : List ℕ) → length xs < 2 ^ 32 → Reads (read_exact (length xs % 2 ^ 32)) xs xs
    read_bytes xs h = rw (low_bits (length xs) h) (Reads-read_exact xs)

    read_length :
        (xs : List ℕ) → Reads (read_le 4) (to_le 4 (length xs % 2 ^ 32)) (length xs % 2 ^ 32)
    read_length xs = Reads-read_le 4 (length xs % 2 ^ 32) (omega arith)

    read_name : Reads (check_utf8 c r.table) [] r.table
    unfolding check_utf8
    read_name = rw (utf8, check_utf8) (Reads-pure r.table)

    read_verified : Reads (verify c r) [] r
    unfolding verify
    read_verified =
        let good : (r.checksum == compute_checksum c r) ≡ true =
          ==_eq r.checksum (compute_checksum c r) verified in
        rw (good, verify) (Reads-pure r)

    read_raw : Reads (read_entry c) (write_entry r) r
    unfolding read_entry write_entry
    read_raw = Reads-bind _ (Reads-read_le 4 r.magic magic) (
        Reads-bind _ (Reads-read_le 8 r.sequence sequence) (
          Reads-bind _ type_byte (
            Reads-bind _ (read_length r.table) (
              Reads-bind _ (read_bytes r.table table) (
                Reads-bind _ read_name (
                  Reads-bind _ (Reads-read_le 8 r.row_id row_id) (
                    Reads-bind _ (read_length r.contents) (
                      Reads-bind _ (read_bytes r.contents contents)
                        (Reads-last _ (Reads-read_le 4 r.checksum checksum) read_verified)))))))))

  type_fits : (t : EntryType) → as_u8 t < 256
  unfolding as_u8
  type_fits insert = omega arith
  type_fits update = omega arith
  type_fits delete = omega arith
  type_fits commit = omega arith
  type_fits rollback = omega arith

  Reads-write_entry :
      (e : WalEntry) → Fits e → Reads (read_entry c) (write_entry (from_entry c e)) (from_entry c e)
  unfolding from_entry compute_checksum
  Reads-write_entry e h =
      read_raw (from_entry c e) (omega arith) h.sequence (type_fits e.entry_type) h.table h.utf8
        h.row_id h.contents (c.crc32_fits _) refl

  -- An entry whose fields fit their widths and whose table name is UTF-8 is read back as it was
  -- written, whatever bytes follow it.
  pub read_entry-write_entry :
      (e : WalEntry) (rest : List ℕ)
      → Fits e
      → read_entry c (write_entry (from_entry c e) ++ rest) ≡ ok (from_entry c e, rest)
  read_entry-write_entry e rest h = (Reads-write_entry e h).reads rest

  -- The raw entry made from an entry turns back into that entry.
  pub to_entry-from_entry : (e : WalEntry) → to_entry (from_entry c e) ≡ ok e
  unfolding to_entry from_entry
  to_entry-from_entry e = rw (from_u8-as_u8 e.entry_type, to_entry) refl

  -- `serialized_size` of a raw entry is the number of bytes that are written for it.
  pub length-write_entry : (r : WalEntryRaw) → length (write_entry r) ≡ serialized_size r
  unfolding write_entry serialized_size
  length-write_entry r = grind (arith, length-append, length-to_le)

pub read_entry-Extends : (c : Bytes32) → Extends 33 (read_entry c)
unfolding read_entry
read_entry-Extends c =
    Extends-weaken 33
      (Extends-bind (Extends-read_le 4) (λ magic. Extends-bind (Extends-read_le 8) (λ sequence.
        Extends-bind (Extends-read_le 1) (λ entry_type.
          Extends-bind (Extends-read_le 4) (λ table_len.
            Extends-bind (Extends-weaken 0 (Extends-read_exact table_len) (omega arith))
              (λ table_bytes. Extends-bind (check_utf8-Extends c table_bytes) (λ table.
                Extends-bind (Extends-read_le 8) (λ row_id.
                  Extends-bind (Extends-read_le 4) (λ data_len.
                    Extends-bind (Extends-weaken 0 (Extends-read_exact data_len) (omega arith))
                      (λ contents.
                        Extends-bind (Extends-read_le 4) (λ checksum. verify-Extends c _)))))))))))
      (omega arith)

-- Of the bytes of an entry whose fields fit, cut anywhere short, `read_entry` reports the end of
-- the file: it neither returns an entry nor reports corruption.
pub read_entry_torn :
    (c : Bytes32) (e : WalEntry) (front back : List ℕ)
    → Fits c e
    → write_entry (from_entry c e) ≡ front ++ back
    → 0 < length back
    → read_entry c front ≡ err unexpected_eof
read_entry_torn c e front back h cut more =
    let whole : read_entry c (front ++ back) ≡ ok (from_entry c e, []) =
      rw (append-nil (write_entry (from_entry c e)), cut) at (read_entry-write_entry c e [] h) in
    elim (Result-cases (read_entry c front)) [
      | inl ((r, rest), read) ↦
          let longer = (read_entry-Extends c).on_ok front back rest r read in
          ground (arith, longer, whole, length-append rest back)
      | inr (unexpected_eof, failed) ↦ failed
      | inr (corruption, failed) ↦
          let still = (read_entry-Extends c).on_corruption front back failed in
          ground (arith, still, whole)
    ]
