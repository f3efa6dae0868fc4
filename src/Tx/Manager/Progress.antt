-- ===== src/Tx/Manager/Progress.antt =====
-- Versions never pass the commit counter, so a transaction that no commit overtook goes through.
use blitz_db.Prelude.{
  ℕ, ◌+◌, ◌%◌, ◌<◌, ◌≤◌, false, some, List, [], ◌∷◌, any, ◌≡◌, refl, arith, Result-cases,
  Option-cases, inl, inr,
}
use blitz_db.Prelude.Map
use blitz_db.Prelude.Map.{Map}
use blitz_db.Types.Interface.{ValueOps}
use blitz_db.Core.Table.{u64_mod}
use blitz_db.Tx.Transaction
use blitz_db.Tx.Transaction.{
  Transaction, IsolationLevel, WriteOp, insert, update, delete, TxError, conflict, core_error,
  active, committed, is_active, has_writes,
}
use blitz_db.Tx.Manager.{
  RowKey, row_key, TransactionManager, overtaken, stale_read, write_conflict, apply_writes,
  apply_and_stamp, commit, begin,
}
use blitz_db.Tx.Manager.Commit.{commit_decides}
use blitz_db.Tx.Manager.Versions.{get-stamp}

module _ {V : Type 0} where
  pub record IsBounded (m : TransactionManager V) : Type 0 where
    pub versions : (k : RowKey) (v : ℕ) → Map.get m.versions k ≡ some v → v ≤ m.commit_seq

  none_overtaken :
      (ops : List (WriteOp V)) (versions : Map RowKey ℕ) (start : ℕ)
      → ((k : RowKey) (v : ℕ) → Map.get versions k ≡ some v → v ≤ start)
      → any (overtaken versions start) ops ≡ false
  none_overtaken [] versions start old = refl
  none_overtaken (insert n row ∷ ops) versions start old = none_overtaken ops versions start old
  none_overtaken (update n i values ∷ ops) versions start old =
      elim (Option-cases (Map.get versions (n, i))) [
        | inl unseen ↦ ground (arith, unseen, none_overtaken ops versions start old)
        | inr (v, held) ↦
            ground (arith, held, old (n, i) v held, none_overtaken ops versions start old)
      ]
  none_overtaken (delete n i ∷ ops) versions start old =
      elim (Option-cases (Map.get versions (n, i))) [
        | inl unseen ↦ ground (arith, unseen, none_overtaken ops versions start old)
        | inr (v, held) ↦
            ground (arith, held, old (n, i) v held, none_overtaken ops versions start old)
      ]

module _ {V : Type 0} ⦃o : ValueOps V⦄ where
  -- If the commit counter has room and no version is above it, then no version is above it after a
  -- commit, whatever the commit returns.
  pub commit-IsBounded :
      (m : TransactionManager V) (tx : Transaction V)
      → m.commit_seq + 1 < u64_mod
      → IsBounded m
      → IsBounded (commit m tx).1
  unfolding commit apply_and_stamp
  commit-IsBounded m tx room bounded = elim (Result-cases (apply_writes m.engine tx.writes).0) [
    | inr (x, failed) ↦ record { versions = λ k v h. ground (arith, failed, bounded.versions k v) }
    | inl (ks, done) ↦ record {
      versions = λ k v h. ground (
        arith,
        done,
        get-stamp ks m.versions ((m.commit_seq + 1) % u64_mod) k,
        bounded.versions k v,
      );
    }
  ]

  -- While no version is above the commit counter, a transaction that begins, buffers at least one
  -- write, reads nothing and commits before any other commit is not refused for a conflict: its
  -- writes go to the engine.
  pub commit-begin :
      (m : TransactionManager V) (level : IsolationLevel) (op : WriteOp V) (ops : List (WriteOp V))
      → IsBounded m
      → let tx = record (begin m level).0 { writes = op ∷ ops } in
        commit (begin m level).1 tx ≡ apply_and_stamp (begin m level).1 tx
  unfolding begin stale_read write_conflict Transaction.new has_writes is_active
  commit-begin m level op ops bounded =
      let (started, m') = begin m level in
      let tx : Transaction V = record started { writes = op ∷ ops } in
      ground (
        arith,
        commit_decides m' tx refl refl,
        none_overtaken (op ∷ ops) m.versions m.commit_seq bounded.versions,
      )
