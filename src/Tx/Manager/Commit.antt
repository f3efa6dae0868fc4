-- ===== src/Tx/Manager/Commit.antt =====
-- `commit`: conflicts are found, and leave the engine alone; success stamps every row it touched.
use blitz_db.Prelude.{
  true, ◌||◌, List, [], ◌∷◌, Result, ok, err, if◌then◌else◌, ◌≡◌, arith, Result-cases, inl, inr,
}
use blitz_db.Types.Interface.{ValueOps}
use blitz_db.Core.Table.{CoreError}
use blitz_db.Core.Engine
use blitz_db.Core.Engine.{Engine}
use blitz_db.Tx.Transaction.{
  Transaction, WriteOp, insert, update, delete, TxError, conflict, core_error, TxResult,
  rolled_back, is_active, has_writes, rollback,
}
use blitz_db.Tx.Manager.{
  RowKey, row_key, TransactionManager, stale_read, write_conflict, apply_write, apply_writes,
  apply_and_stamp, commit,
}

from_core {ℓ} :
    {A : Type ℓ} (r : Result CoreError A) (f : A → RowKey) (x : TxError)
    → ◌≡◌ {A = TxResult RowKey} (elim r [ err c ↦ err (core_error c) | ok a ↦ ok (f a) ]) (err x)
    → (c : CoreError) × (x ≡ core_error c)
from_core (ok a) f x h = cc
from_core (err c) f x h = (c, cc)

module _ {V : Type 0} ⦃o : ValueOps V⦄ where
  apply_write_error :
      (e : Engine V) (op : WriteOp V) (x : TxError)
      → (apply_write e op).0 ≡ err x
      → (c : CoreError) × (x ≡ core_error c)
  unfolding apply_write
  apply_write_error e (insert n row) x h = from_core (Engine.insert e n row).0 (λ i. (n, i)) x h
  apply_write_error e (update n i values) x h =
      from_core (Engine.update e n i values).0 (λ row. (n, i)) x h
  apply_write_error e (delete n i) x h = from_core (Engine.delete e n i).0 (λ found. (n, i)) x h

  pub apply_writes_error :
      (ops : List (WriteOp V)) (e : Engine V) (x : TxError)
      → (apply_writes e ops).0 ≡ err x
      → (c : CoreError) × (x ≡ core_error c)
  unfolding apply_writes
  apply_writes_error [] e x h = cc
  apply_writes_error (op ∷ ops) e x h = elim (Result-cases (apply_write e op).0) [
    | inr (y, failed) ↦ apply_write_error e op x (ground (arith, failed, h))
    | inl (k, done) ↦ apply_writes_error ops (apply_write e op).1 x (ground (arith, done, h))
  ]

  -- A commit that reports a conflict leaves the manager as it was, the engine included, and leaves
  -- the transaction rolled back with an empty buffer.
  pub commit_conflict :
      (m : TransactionManager V) (tx : Transaction V)
      → (commit m tx).0 ≡ err conflict
      → ((commit m tx).1 ≡ m)
        × ((commit m tx).2.state ≡ rolled_back)
        × ((commit m tx).2.writes ≡ [])
  unfolding commit apply_and_stamp rollback
  commit_conflict m tx h = elim (Result-cases (apply_writes m.engine tx.writes).0) [
    | inr (x, failed) ↦
        let (c, core) = apply_writes_error tx.writes m.engine x failed in
        ground (arith, failed, core)
    | inl (ks, done) ↦ ground (arith, done)
  ]

  -- For an active transaction with something to write, `commit` refuses and rolls back if a read is
  -- stale or a write was overtaken, and otherwise applies the writes and stamps the rows.
  pub commit_decides :
      (m : TransactionManager V) (tx : Transaction V)
      → is_active tx ≡ true
      → has_writes tx ≡ true
      → commit m tx ≡ (
          if stale_read m tx || write_conflict m tx
          then (err conflict, m, record tx { state = rolled_back; writes = [] })
          else apply_and_stamp m tx)
  unfolding commit rollback
  commit_decides m tx live busy = ground (arith, live, busy)
