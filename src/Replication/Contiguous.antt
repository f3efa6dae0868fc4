-- ===== src/Replication/Contiguous.antt =====
-- The log numbers its entries without a gap, and a peer that is not too far behind gets all it misses.
use blitz_db.Prelude.{
  ℕ, suc, ◌+◌, ◌-◌, ◌^◌, ◌≤◌, ◌<◌, List, [], ◌∷◌, ◌++◌, length, length-append, keep, leb, ltb, ◌≡◌,
  refl, arith, Bool-cases, inl, inr,
}
use blitz_db.Prelude.Map.{string_key}
use blitz_db.Replication.{OpEntry, Operation, Replicator, trim, append, entries_since, latest_seq}

module _ {V : Type 0} where
  -- The entries are numbered one after the other, the first with `start`.
  unfoldable pub IsRun : ℕ → List (OpEntry V) → Type 0
  IsRun start [] = Unit
  IsRun start (e ∷ es) = (e.seq ≡ start) × IsRun (suc start) es

  -- The numbers run from `start` to the last one given out, and the log is within its size.
  pub record IsContiguous (start : ℕ) (r : Replicator V) : Type 0 where
    pub run : IsRun start r.oplog
    pub upto : start + length r.oplog ≡ r.next_seq
    pub bounded : length r.oplog ≤ r.max_oplog_size

  IsRun-snoc :
      (start : ℕ) (es : List (OpEntry V)) (e : OpEntry V)
      → IsRun start es
      → e.seq ≡ start + length es
      → IsRun start (es ++ (e ∷ []))
  unfolding IsRun
  IsRun-snoc start [] e h same = (omega arith, tt)
  IsRun-snoc start (x ∷ es) e (first, h) same = (first, IsRun-snoc (suc start) es e h (omega arith))

  trim-IsRun :
      (max start : ℕ) (es : List (OpEntry V))
      → IsRun start es
      → (from : ℕ) × (IsRun from (trim max es)
          × ((from + length (trim max es) ≡ start + length es) × (length (trim max es) ≤ max)))
  unfolding IsRun trim
  trim-IsRun max start [] h = (start, (tt, (refl, omega arith)))
  trim-IsRun max start (e ∷ es) (first, h) = elim (Bool-cases (leb (length (e ∷ es)) max)) [
    | inl fits ↦ (start, rw (fits, trim) ((first, h), (refl, ground (arith, fits))))
    | inr long ↦
        let (from, (run, (upto, bounded))) = trim-IsRun max (suc start) es h in
        (from, rw (long, trim) (run, (omega (arith, upto), bounded)))
  ]

  -- `append`, while the next sequence number is below 2^64 - 1, keeps the log contiguous: the
  -- entries that the trimming leaves are numbered without a gap up to the last number given out,
  -- and are no more than the maximum size.
  pub append-IsContiguous :
      (r : Replicator V) (start uuid now : ℕ) (op : Operation V)
      → r.next_seq + 1 < 2 ^ 64
      → IsContiguous start r
      → (from : ℕ) × IsContiguous from (append r uuid now op).1
  unfolding append
  append-IsContiguous r start uuid now op room h =
      let entry : OpEntry V = record { id = uuid; seq = r.next_seq; timestamp = now; op = op } in
      let longer = IsRun-snoc start r.oplog entry h.run (omega (arith, h.upto)) in
      let (from, (run, (upto, bounded))) =
        trim-IsRun r.max_oplog_size start (r.oplog ++ (entry ∷ [])) longer in
      (
        from,
        record {
          run = run;
          upto = omega (arith, room, upto, h.upto, length-append r.oplog (entry ∷ []));
          bounded = bounded;
        },
      )

  keep_all :
      (es : List (OpEntry V)) (start since : ℕ)
      → IsRun start es
      → since < start
      → keep (λ e. ltb since e.seq) es ≡ es
  unfolding IsRun
  keep_all [] start since h lt = refl
  keep_all (e ∷ es) start since (first, h) lt =
      ground (arith, first, keep_all es (suc start) since h)

  keep_after :
      (es : List (OpEntry V)) (start since : ℕ)
      → IsRun start es
      → start ≤ since + 1
      → since < start + length es
      → IsRun (since + 1) (keep (λ e. ltb since e.seq) es)
        × (since + 1 + length (keep (λ e. ltb since e.seq) es) ≡ start + length es)
  unfolding IsRun
  keep_after [] start since h le lt = (tt, omega arith)
  keep_after (e ∷ es) start since (first, h) le lt = elim (Bool-cases (ltb since e.seq)) [
    | inl newer ↦
        let whole = keep_all es (suc start) since h (ground (arith, newer, first)) in
        let begins : start ≡ since + 1 = ground (arith, newer, first) in
        let kept : keep (λ x. ltb since x.seq) (e ∷ es) ≡ e ∷ es = ground (arith, newer, whole) in
        rw kept ((omega (arith, first, begins), rw begins at h), omega (arith, begins))
    | inr older ↦
        let (run, count) =
          keep_after es (suc start) since h (ground (arith, older, first)) (omega arith) in
        let kept : keep (λ x. ltb since x.seq) (e ∷ es) ≡ keep (λ x. ltb since x.seq) es =
          ground (arith, older) in
        rw kept (run, omega (arith, count))
  ]

  -- If the log is contiguous from `start`, a peer that has seen all before `start` and not more
  -- than was given out gets, from `entries_since`, every later entry and no other: they are
  -- numbered from its number on without a gap, and there are as many as it is behind the latest.
  pub entries_since_complete :
      (r : Replicator V) (start since : ℕ)
      → IsContiguous start r
      → start ≤ since + 1
      → since < r.next_seq
      → IsRun (since + 1) (entries_since r since)
        × (length (entries_since r since) ≡ latest_seq r - since)
  unfolding entries_since latest_seq
  entries_since_complete r start since h le lt =
      let (run, count) = keep_after r.oplog start since h.run le (omega (arith, h.upto)) in
      (run, omega (arith, count, h.upto))
