-- ===== src/Tx/Manager/Versions.antt =====
-- The version map: what a commit stamps, and that first come is first served.
use blitz_db.Prelude.{
  ℕ, ◌+◌, ◌%◌, ◌<◌, ◌≤◌, Bool, true, false, ◌||◌, none, some, List, [], ◌∷◌, any, ltb, ok, err,
  if◌then◌else◌, ◌≡◌, refl, arith, Bool-cases, Result-cases, inl, inr,
}
use blitz_db.Prelude.Map
use blitz_db.Prelude.Map.{Map, get-insert}
use blitz_db.Types.Interface.{ValueOps}
use blitz_db.Core.Table.{u64_mod}
use blitz_db.Core.Engine.{Engine}
use blitz_db.Tx.Transaction.{
  Transaction, WriteOp, insert, update, delete, conflict, is_active, has_writes,
}
use blitz_db.Tx.Manager.{
  RowKey, same_row, same_row_sound, row_key, TransactionManager, aims_at, overtaken, write_conflict,
  stamp, apply_write, apply_writes, apply_and_stamp, commit,
}
use blitz_db.Tx.Manager.Commit.{commit_decides}

abbrev pub is_touched : RowKey → List RowKey → Bool
is_touched k ks = any (λ j. same_row j k) ks

pub get-stamp :
    (ks : List RowKey) (versions : Map RowKey ℕ) (seq : ℕ) (k : RowKey)
    → Map.get (stamp versions ks seq) k ≡ (if is_touched k ks then some seq else Map.get versions k)
unfolding stamp
get-stamp [] versions seq k = refl
get-stamp (j ∷ ks) versions seq k =
    ground (arith, get-stamp ks (Map.insert versions j seq) seq k, get-insert versions j k seq)

module _ {V : Type 0} ⦃o : ValueOps V⦄ where
  apply_write_target :
      (e : Engine V) (op : WriteOp V) (k j : RowKey)
      → (apply_write e op).0 ≡ ok j
      → aims_at k op ≡ true
      → same_row j k ≡ true
  unfolding apply_write
  apply_write_target e (insert n row) k j h aimed = cc
  apply_write_target e (update n i values) k j h aimed = ground arith
  apply_write_target e (delete n i) k j h aimed = ground arith

  -- Every row that a write was aimed at is among the rows touched.
  pub apply_writes_touch :
      (ops : List (WriteOp V)) (e : Engine V) (ks : List RowKey) (k : RowKey)
      → (apply_writes e ops).0 ≡ ok ks
      → any (aims_at k) ops ≡ true
      → is_touched k ks ≡ true
  unfolding apply_writes
  apply_writes_touch [] e ks k h aimed = cc
  apply_writes_touch (op ∷ ops) e ks k h aimed = elim (Result-cases (apply_write e op).0) [
    | inr (y, failed) ↦ ground (arith, failed)
    | inl (j, done) ↦ elim (Result-cases (apply_writes (apply_write e op).1 ops).0) [
      | inr (y, failed) ↦ ground (arith, done, failed)
      | inl (js, rest) ↦
          let tail : ks ≡ j ∷ js = ground (arith, done, rest, h) in
          ground (
            arith,
            tail,
            apply_write_target e op k j done,
            apply_writes_touch ops (apply_write e op).1 js k rest,
          )
    ]
  ]

  overtaken_or :
      (j : RowKey) (ops : List (WriteOp V)) (versions : Map RowKey ℕ) (start v : ℕ) (k : RowKey)
      → (same_row j k || any (aims_at k) ops) ≡ true
      → Map.get versions k ≡ some v
      → start < v
      → (any (aims_at k) ops ≡ true → any (overtaken versions start) ops ≡ true)
      → ((elim (Map.get versions j) [ none ↦ false | some w ↦ ltb start w ])
          || any (overtaken versions start) ops)
        ≡ true
  overtaken_or j ops versions start v k aimed held lt later = elim (Bool-cases (same_row j k)) [
    | inl same ↦ rw (same_row_sound j k same) (ground (arith, held))
    | inr other ↦ ground (arith, other, aimed, later)
  ]

  -- `write_conflict` sees a write that is aimed at a row stamped after the transaction began.
  any-overtaken :
      (ops : List (WriteOp V)) (versions : Map RowKey ℕ) (start v : ℕ) (k : RowKey)
      → any (aims_at k) ops ≡ true
      → Map.get versions k ≡ some v
      → start < v
      → any (overtaken versions start) ops ≡ true
  any-overtaken [] versions start v k aimed held lt = cc
  any-overtaken (insert n row ∷ ops) versions start v k aimed held lt =
      any-overtaken ops versions start v k aimed held lt
  any-overtaken (update n i values ∷ ops) versions start v k aimed held lt =
      overtaken_or (n, i) ops versions start v k aimed held lt
        (λ later. any-overtaken ops versions start v k later held lt)
  any-overtaken (delete n i ∷ ops) versions start v k aimed held lt =
      overtaken_or (n, i) ops versions start v k aimed held lt
        (λ later. any-overtaken ops versions start v k later held lt)

  -- What a successful commit with writes returns and leaves.
  pub commit_success :
      (m : TransactionManager V) (tx : Transaction V) (ks : List RowKey)
      → is_active tx ≡ true
      → has_writes tx ≡ true
      → (commit m tx).0 ≡ ok ks
      → ((apply_writes m.engine tx.writes).0 ≡ ok ks)
        × ((commit m tx).1.versions ≡ stamp m.versions ks ((m.commit_seq + 1) % u64_mod))
        × ((commit m tx).1.commit_seq ≡ (m.commit_seq + 1) % u64_mod)
  unfolding apply_and_stamp
  commit_success m tx ks live busy h = elim (Result-cases (apply_writes m.engine tx.writes).0) [
    | inr (x, failed) ↦ ground (arith, commit_decides m tx live busy, failed)
    | inl (js, done) ↦ ground (arith, commit_decides m tx live busy, done)
  ]

  pub has_writes_of :
      (tx : Transaction V) (k : RowKey) → any (aims_at k) tx.writes ≡ true → has_writes tx ≡ true
  unfolding has_writes
  has_writes_of tx k aimed = ground arith

  -- First committer wins. If the commit counter has room, an active transaction that wrote a row
  -- commits, and another active transaction that began no later and also writes that row commits
  -- after it, then the second commit reports a conflict, at any isolation level.
  pub first_committer_wins :
      (m : TransactionManager V) (first second : Transaction V) (k : RowKey) (ks : List RowKey)
      → m.commit_seq + 1 < u64_mod
      → is_active first ≡ true
      → any (aims_at k) first.writes ≡ true
      → (commit m first).0 ≡ ok ks
      → is_active second ≡ true
      → any (aims_at k) second.writes ≡ true
      → second.start_seq ≤ m.commit_seq
      → (commit (commit m first).1 second).0 ≡ err conflict
  unfolding write_conflict
  first_committer_wins m first second k ks room live wrote done live' writes began =
      let busy = has_writes_of first k wrote in
      let (applied, stamped, counted) = commit_success m first ks live busy done in
      let touched = apply_writes_touch first.writes m.engine ks k applied wrote in
      let seq = (m.commit_seq + 1) % u64_mod in
      let held : Map.get (commit m first).1.versions k ≡ some seq =
        rw (stamped, get-stamp ks m.versions seq k, touched) refl in
      let lost =
        any-overtaken second.writes (commit m first).1.versions second.start_seq seq k writes held
          (omega arith) in
      ground (
        arith,
        commit_decides (commit m first).1 second live' (has_writes_of second k writes),
        lost,
      )
