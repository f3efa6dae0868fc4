-- ===== src/Wal/Log/Loop.antt =====
-- The loop over a log's entries: it ends, and it gives back what was written.
use blitz_db.Prelude.{
  ℕ, zero, suc, ◌<◌, List, [], ◌∷◌, ◌++◌, length, none, some, Result, ok, err, All, ◌≡◌, ◌≢◌, refl,
  arith, Result-cases, inl, inr,
}
use mathlib.Core.List.{append_assoc}
use blitz_db.Prelude.Bytes.{to_le, from_le}
use blitz_db.Wal.Reader.{read_le, read_exact, WalError, unexpected_eof, corruption}
use blitz_db.Wal.Codec.{
  Bytes32, WalEntry, WalEntryRaw, read_entry, read_header, write_header, write_entry, from_entry,
}
use blitz_db.Wal.Codec.RoundTrip.{Fits, read_entry-Extends, read_entry-write_entry}
use blitz_db.Wal.Log.{each_entry, scan_file, fresh_header}

read_header-fresh :
    (rest : List ℕ) → read_header (write_header fresh_header ++ rest) ≡ ok (fresh_header, rest)
unfolding read_header write_header read_le read_exact to_le from_le
read_header-fresh rest = refl

-- What the loop makes of a list of entries.
unfoldable pub replay : {S : Type 0} → (S → WalEntry → S) → S → List WalEntry → S
replay f s [] = s
replay f s (e ∷ es) = replay f (f s e) es

module _ (c : Bytes32) where
  each_entry_enough :
      {S : Type 0} (visit : S → WalEntryRaw → Result WalError S) (fuel : ℕ) (s : S) (src : List ℕ)
      → length src < fuel
      → each_entry c visit fuel s src ≢ none
  unfolding each_entry
  each_entry_enough visit zero s src h = omega arith
  each_entry_enough visit (suc fuel) s src h = elim (Result-cases (read_entry c src)) [
    | inr (unexpected_eof, failed) ↦ ground (arith, failed)
    | inr (corruption, failed) ↦ ground (arith, failed)
    | inl ((raw, rest), read) ↦ elim (Result-cases (visit s raw)) [
      | inr (e, refused) ↦ ground (arith, read, refused)
      | inl (t, visited) ↦
          let shorter = (read_entry-Extends c).takes src rest raw read in
          let rec = each_entry_enough visit fuel t rest (omega (arith, shorter)) in
          ground (arith, read, visited, rec)
    ]
  ]

  -- The scan of a file, whatever its bytes and whatever it does with an entry, never runs out of
  -- its fuel, which is one more than the number of bytes after the header.
  pub scan_file_ends :
      {S : Type 0} (visit : S → WalEntryRaw → Result WalError S) (s : S) (file : List ℕ)
      → scan_file c visit s file ≢ none
  unfolding scan_file
  scan_file_ends visit s file = elim (Result-cases (read_header file)) [
    | inr (e, failed) ↦ ground (arith, failed)
    | inl ((header, rest), read) ↦
        ground (arith, read, each_entry_enough visit (suc (length rest)) s rest (omega arith))
  ]

  unfoldable pub encode : List WalEntry → List ℕ
  encode [] = []
  encode (e ∷ es) = write_entry (from_entry c e) ++ encode es

  each_entry-encode :
      {S : Type 0} (visit : S → WalEntryRaw → Result WalError S) (f : S → WalEntry → S)
      → ((s : S) (e : WalEntry) → visit s (from_entry c e) ≡ ok (f s e))
      → (es : List WalEntry) (fuel : ℕ) (s : S) (torn : List ℕ) → All (Fits c) es
      → read_entry c torn ≡ err unexpected_eof
      → length (encode es ++ torn) < fuel
      → each_entry c visit fuel s (encode es ++ torn) ≡ some (ok (replay f s es))
  unfolding each_entry encode replay
  each_entry-encode visit f agree es zero s torn fits cut h = absurd (omega arith)
  each_entry-encode visit f agree [] (suc fuel) s torn fits cut h = ground (arith, cut)
  each_entry-encode visit f agree (e ∷ es) (suc fuel) s torn (fit, fits) cut h =
      let read = read_entry-write_entry c e (encode es ++ torn) fit in
      let shorter = (read_entry-Extends c).takes _ _ _ read in
      let assoc = append_assoc (write_entry (from_entry c e)) (encode es) torn in
      let long : length (write_entry (from_entry c e) ++ (encode es ++ torn)) < suc fuel =
        rw assoc at h in
      let rec =
        each_entry-encode visit f agree es fuel (f s e) torn fits cut
          (omega (arith, shorter, long)) in
      ground (arith, read, assoc, agree s e, rec)

  pub scan_file-encode :
      {S : Type 0} (visit : S → WalEntryRaw → Result WalError S) (f : S → WalEntry → S)
      → ((s : S) (e : WalEntry) → visit s (from_entry c e) ≡ ok (f s e))
      → (es : List WalEntry) (s : S) (torn : List ℕ) → All (Fits c) es
      → read_entry c torn ≡ err unexpected_eof
      → scan_file c visit s (write_header fresh_header ++ (encode es ++ torn))
        ≡ some (ok (replay f s es))
  unfolding scan_file
  scan_file-encode visit f agree es s torn fits cut =
      rw (read_header-fresh (encode es ++ torn), scan_file)
        (each_entry-encode visit f agree es (suc (length (encode es ++ torn))) s torn fits cut
          (omega arith))
