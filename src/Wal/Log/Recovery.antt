-- ===== src/Wal/Log/Recovery.antt =====
-- What a log holds as entries are appended, and what opening its file again recovers.
use blitz_db.Prelude.{
  ℕ, ◌+◌, ◌<◌, ◌≤◌, false, List, [], ◌∷◌, ◌++◌, length, some, ok, All, ap, ◌≡◌, refl, sym, subst,
  arith, ◌==◌, ◌%◌, if◌then◌else◌, ltb,
}
use mathlib.Core.List.{append_assoc, append-nil}
use blitz_db.Prelude.Bytes.{to_le}
use blitz_db.Wal.Codec.{Bytes32, WalEntry, write_header, write_entry, from_entry}
use blitz_db.Wal.Codec.RoundTrip.{Fits, read_entry_torn, to_entry-from_entry}
use blitz_db.Wal.Log.{
  u64_mod, WriteAheadLog, fresh_header, scan_file, push, max_seq, read_all, resume,
  recover_sequence, open_log,
}
use blitz_db.Wal.Log.Loop.{encode, replay, scan_file-encode}

pub replay-push : (es acc : List WalEntry) → replay (λ seen e. seen ++ (e ∷ [])) acc es ≡ acc ++ es
unfolding replay
replay-push [] acc = rw (append-nil acc) refl
replay-push (e ∷ es) acc = rw (replay-push es (acc ++ (e ∷ [])), append_assoc acc (e ∷ []) es) refl

unfoldable higher : ℕ → WalEntry → ℕ
higher seen e = if ltb seen e.sequence then e.sequence else seen

replay-higher :
    (es : List WalEntry) (seen : ℕ)
    → (seen ≤ replay higher seen es) × All (λ e. e.sequence < replay higher seen es + 1) es
unfolding replay higher
replay-higher [] seen = ground arith
replay-higher (e ∷ es) seen = ground (arith, replay-higher es (higher seen e))

replay-higher-lt :
    (es : List WalEntry) (seen : ℕ)
    → seen + 1 < u64_mod
    → All (λ e. e.sequence + 1 < u64_mod) es
    → replay higher seen es + 1 < u64_mod
unfolding replay higher
replay-higher-lt [] seen low room = low
replay-higher-lt (e ∷ es) seen low (first, rest) =
    replay-higher-lt es (higher seen e) (ground arith) rest

max_seq-higher :
    (c : Bytes32) (seen : ℕ) (e : WalEntry) → max_seq seen (from_entry c e) ≡ ok (higher seen e)
unfolding max_seq higher from_entry
max_seq-higher c seen e = refl

header_not_empty : (rest : List ℕ) → (length (write_header fresh_header ++ rest) == 0) ≡ false
unfolding write_header to_le
header_not_empty rest = ground arith

module _ (c : Bytes32) where
  -- The file after a crash: the header, whole entries, and perhaps the front of one more.
  pub record Crashed (es : List WalEntry) (file : List ℕ) : Type 0 where
    pub whole : All (Fits c) es
    pub last : WalEntry
    pub fits : Fits c last
    pub front : List ℕ
    pub back : List ℕ
    pub cut : write_entry (from_entry c last) ≡ front ++ back
    pub short : 0 < length back
    pub bytes : file ≡ write_header fresh_header ++ (encode c es ++ front)

  pub push-from_entry :
      (seen : List WalEntry) (e : WalEntry) → push seen (from_entry c e) ≡ ok (seen ++ (e ∷ []))
  unfolding push
  push-from_entry seen e = rw (to_entry-from_entry c e, push) refl

  -- If the file of a log is a fresh header, whole entries whose fields fit, and a proper front of
  -- one more such entry, then `read_all` ends and returns exactly the whole entries, in the order
  -- written.
  pub read_all_recovers :
      (w : WriteAheadLog) (es : List WalEntry) → Crashed es w.file → read_all c w ≡ some (ok es)
  unfolding read_all
  read_all_recovers w es h =
      rw
        (
          h.bytes,
          scan_file-encode c push (λ seen e. seen ++ (e ∷ [])) push-from_entry es [] h.front h.whole
              (read_entry_torn c h.last h.front h.back h.fits h.cut h.short),
        )
        (ap (λ l. some (ok l)) (replay-push es []))

  -- Opening a file of a fresh header, whole entries, none of them numbered 2^64 - 1, and a proper
  -- front of one more ends without an error, keeps the bytes and sets the next sequence number
  -- above that of every whole entry.
  pub open_log_resumes :
      (file : List ℕ) (es : List WalEntry)
      → Crashed es file
      → All (λ e. e.sequence + 1 < u64_mod) es
      → (w : WriteAheadLog) × (open_log c file ≡ some (ok w))
        × ((w.file ≡ file) × All (λ e. e.sequence < w.next_sequence) es)
  unfolding open_log recover_sequence resume max_seq
  open_log_resumes file es h room =
      let next : (replay higher 0 es + 1) % u64_mod ≡ replay higher 0 es + 1 =
        let low = replay-higher-lt es 0 (omega arith) room in omega (arith, low) in
      let scanned : scan_file c max_seq 0 file ≡ some (ok (replay higher 0 es)) = rw h.bytes (
        scan_file-encode c max_seq higher (max_seq-higher c) es 0 h.front h.whole
          (read_entry_torn c h.last h.front h.back h.fits h.cut h.short)) in
      let long : (length file == 0) ≡ false =
        rw h.bytes (header_not_empty (encode c es ++ h.front)) in
      (
        record {
          file = file;
          staged = [];
          next_sequence = (replay higher 0 es + 1) % u64_mod;
          current_size = length file;
        },
        rw (long, open_log, scanned, recover_sequence) refl,
        (refl, subst (λ n. All (λ e. e.sequence < n) es) (sym next) (replay-higher es 0).1),
      )
