-- ===== src/Tx/Manager/Failure.antt =====
-- What an error of the engine in the middle of a commit leaves behind.
use blitz_db.Prelude.{
  ◌+◌, ◌%◌, List, [], ◌∷◌, length, ok, err, ◌≡◌, refl, arith, Result-cases, inl, inr,
}
use blitz_db.Types.Interface.{ValueOps}
use blitz_db.Core.Table.{CoreError, u64_mod}
use blitz_db.Core.Engine.{Engine}
use blitz_db.Tx.Transaction
use blitz_db.Tx.Transaction.{
  Transaction, WriteOp, TxError, conflict, core_error, active, committed, is_active, has_writes,
}
use blitz_db.Tx.Manager.{
  RowKey, TransactionManager, apply_write, apply_writes, apply_and_stamp, commit,
}

module _ {V : Type 0} ⦃o : ValueOps V⦄ where
  commit_empty :
      (m : TransactionManager V) (tx : Transaction V)
      → tx.state ≡ active
      → tx.writes ≡ []
      → commit m tx ≡ (ok [], m, record tx { state = committed })
  unfolding commit
  commit_empty m tx live idle = ground (arith, live, idle)

  commit_failed :
      (m : TransactionManager V) (tx : Transaction V) (c : CoreError)
      → (commit m tx).0 ≡ err (core_error c)
      → (tx.state ≡ active)
        × (commit m tx ≡ (
          err (core_error c),
          record m {
            engine = (apply_writes m.engine tx.writes).1;
            commit_seq = (m.commit_seq + 1) % u64_mod;
          },
          record tx { writes = [] },
        ))
  unfolding commit apply_and_stamp
  commit_failed m tx c h = elim (Result-cases (apply_writes m.engine tx.writes).0) [
    | inr (x, failed) ↦ (ground (arith, failed), ground (arith, failed))
    | inl (ks, done) ↦ (ground (arith, done), ground (arith, done))
  ]

  -- A commit that the engine turns away leaves the transaction active with an empty buffer and the
  -- versions as they were; the same call again reports success and changes nothing of the manager.
  pub commit_after_failure :
      (m : TransactionManager V) (tx : Transaction V) (c : CoreError)
      → (commit m tx).0 ≡ err (core_error c)
      → ((commit m tx).2.state ≡ active)
        × ((commit m tx).2.writes ≡ [])
        × ((commit m tx).1.versions ≡ m.versions)
        × (commit (commit m tx).1 (commit m tx).2
            ≡ (ok [], (commit m tx).1, record (commit m tx).2 { state = committed }))
  commit_after_failure m tx c h =
      let (live, left) = commit_failed m tx c h in
      rw left (live, refl, refl, commit_empty _ (record tx { writes = [] }) live refl)

  -- A successful commit reports one row for each write, in order.
  length-apply_writes :
      (ops : List (WriteOp V)) (e : Engine V) (ks : List RowKey)
      → (apply_writes e ops).0 ≡ ok ks
      → length ks ≡ length ops
  unfolding apply_writes
  length-apply_writes [] e ks h = ground arith
  length-apply_writes (op ∷ ops) e ks h = elim (Result-cases (apply_write e op).0) [
    | inr (y, failed) ↦ ground (arith, failed)
    | inl (j, done) ↦ elim (Result-cases (apply_writes (apply_write e op).1 ops).0) [
      | inr (y, failed) ↦ ground (arith, done, failed)
      | inl (js, rest) ↦
          let tail : ks ≡ j ∷ js = ground (arith, done, rest, h) in
          rw tail (omega (arith, length-apply_writes ops (apply_write e op).1 js rest))
    ]
  ]

  -- A successful commit reports as many rows as the transaction had writes, and leaves it
  -- committed.
  pub commit_reports :
      (m : TransactionManager V) (tx : Transaction V) (ks : List RowKey)
      → (commit m tx).0 ≡ ok ks
      → (length ks ≡ length tx.writes) × ((commit m tx).2.state ≡ committed)
  unfolding commit apply_and_stamp Transaction.commit has_writes
  commit_reports m tx ks h = elim (Result-cases (apply_writes m.engine tx.writes).0) [
    | inr (x, failed) ↦ (ground (arith, failed), ground (arith, failed))
    | inl (js, done) ↦
        (ground (arith, done, length-apply_writes tx.writes m.engine js done), ground (arith, done))
  ]
