-- ===== src/Tx/Manager.antt =====
-- crates/blitz-tx/src/manager.rs: optimistic concurrency control over the engine.
--
-- A call of the manager is one step: the commit stripes, which serialise commits that share a row,
-- and lock poisoning are left out.
pub mod Commit
pub mod Versions
pub mod Progress
pub mod Failure
pub mod Reads
pub mod Validated
use blitz_db.Prelude.{
  ℕ, ◌+◌, ◌%◌, String, Bool, true, false, not, ◌&&◌, ◌||◌, Option, none, some, List, [], ◌∷◌, ◌++◌,
  any, ltb, ◌==◌, str_eq, Result, ok, err, if◌then◌else◌, ◌≡◌, arith, eq_iff,
}
use blitz_db.Prelude.Map
use blitz_db.Prelude.Map.{Map, Key, string_key, nat_key}
use mathlib.Core.List.{reverse}
use blitz_db.Types.Interface.{ValueOps}
use blitz_db.Types.Row.{Row}
use blitz_db.Core.Table.{CoreError, row_not_found, u64_mod}
use blitz_db.Core.Engine
use blitz_db.Core.Engine.{Engine}
use blitz_db.Tx.Transaction
use blitz_db.Tx.Transaction.{
  Transaction, IsolationLevel, repeatable_read, serializable, WriteOp, insert, update, delete,
  TxError, conflict, core_error, inactive, TxResult, active, committed, is_active, has_writes,
  record_read, rollback,
}

-- `(table, row id)`, the key of the version map.
abbrev pub RowKey : Type 0
RowKey = String × ℕ

abbrev pub same_row : RowKey → RowKey → Bool
same_row a b = str_eq a.0 b.0 && a.1 == b.1

pub same_row_sound : (a b : RowKey) → same_row a b ≡ true → a ≡ b
same_row_sound (n, i) (m, j) h = ground (arith, eq_iff n m)

instance abbrev pub row_key : Key RowKey
row_key = record { same = same_row; same_sound = same_row_sound }

unfoldable pub version_of : Map RowKey ℕ → String → ℕ → ℕ
version_of versions n i = elim (Map.get versions (n, i)) [ none ↦ 0 | some v ↦ v ]

-- `matches!(tx.isolation, Serializable | RepeatableRead)`
unfoldable pub validates_reads : IsolationLevel → Bool
validates_reads IsolationLevel.read_uncommitted = false
validates_reads IsolationLevel.read_committed = false
validates_reads repeatable_read = true
validates_reads serializable = true

abbrev pub is_stale : Map RowKey ℕ → (String × ℕ × ℕ) → Bool
is_stale versions (n, i, seen) = not (version_of versions n i == seen)

unfoldable pub stamp : Map RowKey ℕ → List RowKey → ℕ → Map RowKey ℕ
stamp versions [] seq = versions
stamp versions (k ∷ ks) seq = stamp (Map.insert versions k seq) ks seq

pub record TransactionManager (V : Type 0) : Type 0 where
  pub engine : Engine V
  pub next_tx_id : ℕ
  pub commit_seq : ℕ
  pub versions : Map RowKey ℕ

module _ {V : Type 0} where
  pub new_manager : Engine V → TransactionManager V
  new_manager e = record { engine = e; next_tx_id = 1; commit_seq = 0; versions = [] }

  unfoldable pub begin :
      TransactionManager V → IsolationLevel → Transaction V × TransactionManager V
  unfolding Transaction.new
  begin m level = (
    record (Transaction.new m.next_tx_id level) { start_seq = m.commit_seq },
    record m { next_tx_id = (m.next_tx_id + 1) % u64_mod },
  )

  abbrev pub current_version : TransactionManager V → String → ℕ → ℕ
  current_version m n i = version_of m.versions n i

  -- The row that an operation is aimed at; the row of an insert has no id yet.
  abbrev pub target : WriteOp V → Option RowKey
  target (insert n row) = none
  target (update n i values) = some (n, i)
  target (delete n i) = some (n, i)

  abbrev pub aims_at : RowKey → WriteOp V → Bool
  aims_at k op = elim (target op) [ none ↦ false | some j ↦ same_row j k ]

  -- `for op in tx.writes.iter().rev()`: the first operation that is aimed at the row.
  unfoldable pub first_aimed : RowKey → List (WriteOp V) → Option (WriteOp V)
  first_aimed k [] = none
  first_aimed k (op ∷ ops) = if aims_at k op then some op else first_aimed k ops

  abbrev pub newest_write : Transaction V → String → ℕ → Option (WriteOp V)
  newest_write tx n i = first_aimed (n, i) (reverse tx.writes)

  -- The read-modify branch of `get` for a buffered update.
  unfoldable pub get_updated :
      TransactionManager V
      → Transaction V
      → String
      → ℕ
      → Map String V
      → TxResult (Option (Row V)) × Transaction V
  unfolding record_read version_of
  get_updated m tx n i values = elim (Engine.get m.engine n i) [
    | err e ↦ (err (core_error e), tx)
    | ok none ↦ (err (core_error (row_not_found i)), tx)
    | ok (some base) ↦ (
      ok (some (record base { values = Map.extend base.values values })),
      record_read tx n i (current_version m n i),
    )
  ]

  unfoldable pub get_stored :
      TransactionManager V → Transaction V → String → ℕ → TxResult (Option (Row V)) × Transaction V
  unfolding record_read version_of
  get_stored m tx n i = elim (Engine.get m.engine n i) [
    | err e ↦ (err (core_error e), tx)
    | ok row ↦ (ok row, record_read tx n i (current_version m n i))
  ]

  unfoldable pub get :
      TransactionManager V → Transaction V → String → ℕ → TxResult (Option (Row V)) × Transaction V
  unfolding is_active get_updated get_stored record_read version_of first_aimed
  get m tx n i = if not (is_active tx) then (err inactive, tx) else elim (newest_write tx n i) [
    | some (delete t j) ↦ (ok none, record_read tx n i (current_version m n i))
    | some (update t j values) ↦ get_updated m tx n i values
    | some (insert t row) ↦ get_stored m tx n i
    | none ↦ get_stored m tx n i
  ]

  unfoldable pub stale_read : TransactionManager V → Transaction V → Bool
  unfolding validates_reads version_of
  stale_read m tx = validates_reads tx.isolation && any (is_stale m.versions) tx.read_set

  -- A newer commit wrote the row that the operation is aimed at.
  abbrev pub overtaken : Map RowKey ℕ → ℕ → WriteOp V → Bool
  overtaken versions start op = elim (target op) [
    | none ↦ false
    | some k ↦ elim (Map.get versions k) [ none ↦ false | some v ↦ ltb start v ]
  ]

  unfoldable pub write_conflict : TransactionManager V → Transaction V → Bool
  write_conflict m tx = any (overtaken m.versions tx.start_seq) tx.writes

module _ {V : Type 0} ⦃o : ValueOps V⦄ where
  -- One round of the loop that drains `tx.writes`.
  unfoldable pub apply_write : Engine V → WriteOp V → TxResult RowKey × Engine V
  apply_write e (insert n row) =
      let (r, e') = Engine.insert e n row in
      (elim r [ err x ↦ err (core_error x) | ok i ↦ ok (n, i) ], e')
  apply_write e (update n i values) =
      let (r, e') = Engine.update e n i values in
      (elim r [ err x ↦ err (core_error x) | ok row ↦ ok (n, i) ], e')
  apply_write e (delete n i) =
      let (r, e') = Engine.delete e n i in
      (elim r [ err x ↦ err (core_error x) | ok found ↦ ok (n, i) ], e')

  -- The keys touched, in the order of the writes; an error ends the loop, and what was applied stays.
  unfoldable pub apply_writes : Engine V → List (WriteOp V) → TxResult (List RowKey) × Engine V
  apply_writes e [] = (ok [], e)
  apply_writes e (op ∷ ops) =
      let (r, e') = apply_write e op in
      let (rs, e'') = apply_writes e' ops in
      elim r [ err x ↦ (err x, e') | ok k ↦ (elim rs [ err x ↦ err x | ok ks ↦ ok (k ∷ ks) ], e'') ]

  -- The part of `commit` behind the validation. `drain` has emptied the buffer also when an error
  -- ends the loop early, and then neither the versions nor the state are touched.
  unfoldable pub apply_and_stamp :
      TransactionManager V
      → Transaction V
      → TxResult (List RowKey) × TransactionManager V × Transaction V
  unfolding Transaction.commit
  apply_and_stamp m tx =
      let seq = (m.commit_seq + 1) % u64_mod in
      let (r, e') = apply_writes m.engine tx.writes in
      elim r [
        | err x ↦ (err x, record m { engine = e'; commit_seq = seq }, record tx { writes = [] })
        | ok ks ↦ (
          ok ks,
          record m { engine = e'; commit_seq = seq; versions = stamp m.versions ks seq },
          (Transaction.commit (record tx { writes = [] })).1,
        )
      ]

  unfoldable pub commit :
      TransactionManager V
      → Transaction V
      → TxResult (List RowKey) × TransactionManager V × Transaction V
  unfolding is_active has_writes Transaction.commit rollback stale_read write_conflict
  commit m tx =
      if not (is_active tx)
      then (err inactive, m, tx)
      else if not (has_writes tx)
      then (ok [], m, (Transaction.commit tx).1)
      else if stale_read m tx || write_conflict m tx
      then (err conflict, m, (rollback tx).1)
      else apply_and_stamp m tx
