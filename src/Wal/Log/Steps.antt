-- ===== src/Wal/Log/Steps.antt =====
-- What a log promises of its file and its staged bytes, and that every operation keeps it.
use blitz_db.Prelude.{
  ℕ, zero, suc, ◌+◌, ◌<◌, List, [], ◌∷◌, ◌++◌, length, take, drop, length-append, some, ok, All, ap,
  ◌≡◌, refl, sym, subst, arith, ◌%◌,
}
use mathlib.Core.List.{append_assoc, append-nil}
use blitz_db.Prelude.Bytes.{to_le}
use blitz_db.Wal.Reader.{read_le, read_exact}
use blitz_db.Wal.Codec.{
  Bytes32, EntryType, insert, update, delete, commit, rollback, WalEntry, write_header, write_entry,
  from_entry, read_entry,
}
use blitz_db.Wal.Codec.RoundTrip.{Fits, length-write_entry}
use blitz_db.Wal.Log.{
  u64_mod, WriteAheadLog, fresh_header, push, read_all, sync, start, truncate, stage, append_entry,
  next_entry, bump, append_insert, append_update, append_delete, append_commit, append_rollback,
  append_buffered,
}
use blitz_db.Wal.Log.Loop.{encode, scan_file-encode}
use blitz_db.Wal.Log.Recovery.{replay-push, push-from_entry}

take-drop : (n : ℕ) (xs : List ℕ) → take n xs ++ drop n xs ≡ xs
take-drop zero xs = refl
take-drop (suc n) [] = refl
take-drop (suc n) (x ∷ xs) = rw (take-drop n xs) refl

module _ (c : Bytes32) where
  -- What a log in memory promises about its file and what is staged.
  pub record Logged (w : WriteAheadLog) (es : List WalEntry) : Type 0 where
    pub image : w.file ++ w.staged ≡ write_header fresh_header ++ encode c es
    pub size : w.current_size ≡ length (w.file ++ w.staged)
    pub numbered : All (λ e. e.sequence < w.next_sequence) es

  -- The bytes of the file and those staged can be counted by a `u64`.
  abbrev pub IsShort : WriteAheadLog → Type 0
  IsShort w = length (w.file ++ w.staged) < u64_mod

  encode-snoc :
      (es : List WalEntry) (e : WalEntry)
      → encode c (es ++ (e ∷ [])) ≡ encode c es ++ write_entry (from_entry c e)
  unfolding encode
  encode-snoc [] e = append-nil (write_entry (from_entry c e))
  encode-snoc (x ∷ es) e =
      rw
        (
          encode-snoc es e,
          append_assoc (write_entry (from_entry c x)) (encode c es) (write_entry (from_entry c e)),
        )
        refl

  All-numbered :
      (n : ℕ) (es : List WalEntry) (e : WalEntry)
      → All (λ x. x.sequence < n) es
      → e.sequence ≡ n
      → All (λ x. x.sequence < n + 1) (es ++ (e ∷ []))
  All-numbered n [] e hs h = ground arith
  All-numbered n (x ∷ es) e (hx, hs) h = (omega arith, All-numbered n es e hs h)

  stage-Logged :
      (w : WriteAheadLog) (es : List WalEntry) (e : WalEntry)
      → Logged w es
      → e.sequence ≡ w.next_sequence
      → w.next_sequence + 1 < u64_mod
      → IsShort (stage c w e)
      → Logged (bump (stage c w e)) (es ++ (e ∷ []))
  unfolding bump stage
  stage-Logged w es e h same room short =
      let new = write_entry (from_entry c e) in
      let moved = append_assoc w.file w.staged new in
      let joined = append_assoc (write_header fresh_header) (encode c es) new in
      let snoc = encode-snoc es e in
      let long = length-append (w.file ++ w.staged) new in
      let exact = length-write_entry c (from_entry c e) in
      let total : length ((w.file ++ w.staged) ++ new) < u64_mod = rw moved short in
      let next : (w.next_sequence + 1) % u64_mod ≡ w.next_sequence + 1 = omega (arith, room) in
      record {
        image = rw⁻¹ moved (rw (h.image, snoc) joined);
        size = rw⁻¹ moved (omega (arith, long, exact, h.size, total));
        numbered =
            subst (λ n. All (λ x. x.sequence < n) (es ++ (e ∷ []))) (sym next)
              (All-numbered w.next_sequence es e h.numbered same);
      }

  sync-Logged : (w : WriteAheadLog) (es : List WalEntry) → Logged w es → Logged (sync w) es
  unfolding sync
  sync-Logged w es h = record {
    image = rw (append-nil (w.file ++ w.staged)) h.image;
    size = rw (append-nil (w.file ++ w.staged)) h.size;
    numbered = h.numbered;
  }

  spill-Logged :
      (n : ℕ) (w : WriteAheadLog) (es : List WalEntry)
      → Logged w es
      → Logged (record w { file = w.file ++ take n w.staged; staged = drop n w.staged }) es
  spill-Logged n w es h =
      let moved = append_assoc w.file (take n w.staged) (drop n w.staged) in
      record {
        image = rw (moved, take-drop n w.staged) h.image;
        size = rw (moved, take-drop n w.staged) h.size;
        numbered = h.numbered;
      }

  unspilled :
      (n : ℕ) (w : WriteAheadLog)
      → IsShort (record w { file = w.file ++ take n w.staged; staged = drop n w.staged })
      → IsShort w
  unspilled n w short =
      rw (append_assoc w.file (take n w.staged) (drop n w.staged), take-drop n w.staged) at short

  -- One operation on a log, with the entries logged before and after it.
  pub data Step : WriteAheadLog → List WalEntry → WriteAheadLog → List WalEntry → Type 0 where
    inserted :
        (w : WriteAheadLog) (es : List WalEntry) (table : List ℕ) (row_id : ℕ) (contents : List ℕ)
        → Step w es
            (append_insert c w table row_id contents).1
            (es ++ (next_entry w insert table row_id contents ∷ []))
    updated :
        (w : WriteAheadLog) (es : List WalEntry) (table : List ℕ) (row_id : ℕ) (contents : List ℕ)
        → Step w es
            (append_update c w table row_id contents).1
            (es ++ (next_entry w update table row_id contents ∷ []))
    deleted :
        (w : WriteAheadLog) (es : List WalEntry) (table : List ℕ) (row_id : ℕ)
        → Step w es
            (append_delete c w table row_id).1
            (es ++ (next_entry w delete table row_id [] ∷ []))
    committed :
        (w : WriteAheadLog) (es : List WalEntry) (tx_id : ℕ)
        → Step w es (append_commit c w tx_id).1 (es ++ (next_entry w commit [] tx_id [] ∷ []))
    rolled_back :
        (w : WriteAheadLog) (es : List WalEntry) (tx_id : ℕ)
        → Step w es (append_rollback c w tx_id).1 (es ++ (next_entry w rollback [] tx_id [] ∷ []))
    buffered :
        (w : WriteAheadLog) (es : List WalEntry) (spilled : ℕ) (t : EntryType) (table : List ℕ)
        (row_id : ℕ) (contents : List ℕ)
        → Step w es
            (append_buffered c w spilled t table row_id contents).1
            (es ++ (next_entry w t table row_id contents ∷ []))
    synced : (w : WriteAheadLog) (es : List WalEntry) → Step w es (sync w) es
    truncated : (w : WriteAheadLog) (es : List WalEntry) → Step w es (truncate w) []

  append_entry-Logged :
      (w : WriteAheadLog) (es : List WalEntry) (t : EntryType) (table : List ℕ) (row_id : ℕ)
      (contents : List ℕ)
      → Logged w es
      → w.next_sequence + 1 < u64_mod
      → IsShort (append_entry c w (next_entry w t table row_id contents))
      → Logged
          (bump (append_entry c w (next_entry w t table row_id contents)))
          (es ++ (next_entry w t table row_id contents ∷ []))
  unfolding append_entry bump sync next_entry
  append_entry-Logged w es t table row_id contents h room short =
      let v = stage c w (next_entry w t table row_id contents) in
      sync-Logged (bump v) (es ++ (next_entry w t table row_id contents ∷ [])) (
        stage-Logged w es (next_entry w t table row_id contents) h refl room
          (rw (append-nil (v.file ++ v.staged)) at short))

  truncate-Logged : (w : WriteAheadLog) → Logged (truncate w) []
  unfolding truncate start sync write_header encode to_le
  truncate-Logged w = record { image = refl; size = refl; numbered = tt }

  -- Each operation of a log, `sync` and `truncate` included, keeps this, if the next sequence
  -- number is below 2^64 - 1 before it and the bytes of the file and those staged number fewer than
  -- 2^64 after it: the file followed by what is staged is a fresh header and the encoded entries,
  -- their size is `current_size`, and the sequence number of every entry is below the next one.
  pub Step-Logged :
      (w v : WriteAheadLog) (es fs : List WalEntry)
      → Step w es v fs
      → w.next_sequence + 1 < u64_mod
      → IsShort v
      → Logged w es
      → Logged v fs
  unfolding append_insert append_update append_delete append_commit append_rollback append_buffered
      bump next_entry
  Step-Logged w v es fs (inserted _ _ table row_id contents) room short h =
      append_entry-Logged w es insert table row_id contents h room short
  Step-Logged w v es fs (updated _ _ table row_id contents) room short h =
      append_entry-Logged w es update table row_id contents h room short
  Step-Logged w v es fs (deleted _ _ table row_id) room short h =
      append_entry-Logged w es delete table row_id [] h room short
  Step-Logged w v es fs (committed _ _ tx_id) room short h =
      append_entry-Logged w es commit [] tx_id [] h room short
  Step-Logged w v es fs (rolled_back _ _ tx_id) room short h =
      append_entry-Logged w es rollback [] tx_id [] h room short
  Step-Logged w v es fs (buffered _ _ spilled t table row_id contents) room short h =
      let x = next_entry w t table row_id contents in
      spill-Logged spilled (bump (stage c w x)) (es ++ (x ∷ []))
        (stage-Logged w es x h refl room (unspilled spilled (stage c w x) short))
  Step-Logged w v es fs (synced _ _) room short h = sync-Logged w es h
  Step-Logged w v es fs (truncated _ _) room short h = truncate-Logged w

  -- After `sync`, `read_all` of a log that holds entries whose fields fit ends and returns exactly
  -- those entries, in the order appended.
  pub read_all_synced :
      (w : WriteAheadLog) (es : List WalEntry)
      → Logged w es
      → All (Fits c) es
      → read_all c (sync w) ≡ some (ok es)
  unfolding read_all sync read_entry read_le read_exact
  read_all_synced w es h fits =
      let image : w.file ++ w.staged ≡ write_header fresh_header ++ (encode c es ++ []) =
        rw (append-nil (encode c es)) h.image in
      rw
        (
          image,
          scan_file-encode c push (λ seen e. seen ++ (e ∷ [])) (push-from_entry c) es [] [] fits
              refl,
        )
        (ap (λ l. some (ok l)) (replay-push es []))
