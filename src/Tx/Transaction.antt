-- ===== src/Tx/Transaction.antt =====
-- crates/blitz-tx/src/transaction.rs: a transaction buffers its writes and records what it read.
use blitz_db.Prelude.{
  ℕ, String, Bool, true, false, not, List, [], ◌∷◌, ◌++◌, length, Result, ok, err, if◌then◌else◌,
  ◌≡◌, refl, arith,
}
use blitz_db.Prelude.Map.{Map}
use blitz_db.Types.Row.{Row}
use blitz_db.Core.Table.{CoreError}

pub data IsolationLevel : Type 0 where
  read_uncommitted read_committed repeatable_read serializable : IsolationLevel

pub data TxState : Type 0 where
  active committed rolled_back : TxState

-- crates/blitz-tx/src/error.rs, the kinds that the crate raises: `inactive` is the internal error
-- "transaction is not active".
pub data TxError : Type 0 where
  conflict : TxError
  core_error : CoreError → TxError
  inactive : TxError

abbrev pub TxResult {ℓ} : Type ℓ → Type ℓ
TxResult A = Result TxError A

pub data WriteOp (V : Type 0) : Type 0 where
  insert : String → Row V → WriteOp V
  update : String → ℕ → Map String V → WriteOp V
  delete : String → ℕ → WriteOp V

pub record Transaction (V : Type 0) : Type 0 where
  pub id : ℕ
  pub state : TxState
  pub isolation : IsolationLevel
  pub writes : List (WriteOp V)
  pub read_set : List (String × ℕ × ℕ)
  pub start_seq : ℕ

unfoldable pub is_state_active : TxState → Bool
is_state_active active = true
is_state_active committed = false
is_state_active rolled_back = false

-- The calls that a client may make on a transaction.
pub data Call (V : Type 0) : Type 0 where
  buffers : WriteOp V → Call V
  commits : Call V
  rolls_back : Call V

module _ {V : Type 0} where
  unfoldable pub new : ℕ → IsolationLevel → Transaction V
  new i level = record {
    id = i;
    state = active;
    isolation = level;
    writes = [];
    read_set = [];
    start_seq = 0;
  }

  unfoldable pub is_active : Transaction V → Bool
  unfolding is_state_active
  is_active tx = is_state_active tx.state

  -- `insert`, `update` and `delete` push one operation, if the transaction is active.
  unfoldable pub buffer : Transaction V → WriteOp V → TxResult (Unit {0}) × Transaction V
  unfolding is_active
  buffer tx op =
      if not (is_active tx)
      then (err inactive, tx)
      else (ok tt, record tx { writes = tx.writes ++ (op ∷ []) })

  unfoldable pub record_read : Transaction V → String → ℕ → ℕ → Transaction V
  record_read tx n i version = record tx { read_set = tx.read_set ++ ((n, i, version) ∷ []) }

  unfoldable pub commit : Transaction V → TxResult (Unit {0}) × Transaction V
  unfolding is_active
  commit tx =
      if not (is_active tx) then (err inactive, tx) else (ok tt, record tx { state = committed })

  unfoldable pub rollback : Transaction V → TxResult (Unit {0}) × Transaction V
  unfolding is_active
  rollback tx =
      if not (is_active tx)
      then (err inactive, tx)
      else (ok tt, record tx { state = rolled_back; writes = [] })

  pub write_count : Transaction V → ℕ
  write_count tx = length tx.writes

  unfoldable pub has_writes : Transaction V → Bool
  has_writes tx = elim tx.writes [ [] ↦ false | op ∷ ops ↦ true ]

  pub call : Transaction V → Call V → TxResult (Unit {0}) × Transaction V
  unfolding buffer commit rollback
  call tx (buffers op) = buffer tx op
  call tx commits = commit tx
  call tx rolls_back = rollback tx

  pub run_calls : Transaction V → List (Call V) → Transaction V
  unfolding call
  run_calls tx [] = tx
  run_calls tx (c ∷ cs) = run_calls (call tx c).1 cs

  call_finished :
      (tx : Transaction V) (c : Call V) → is_active tx ≡ false → call tx c ≡ (err inactive, tx)
  unfolding call
  call_finished tx (buffers op) done = ground arith
  call_finished tx commits done = ground arith
  call_finished tx rolls_back done = ground arith

  -- Once a transaction is committed or rolled back, no sequence of buffering calls, commits and
  -- rollbacks changes it.
  pub run_calls_finished :
      (tx : Transaction V) (cs : List (Call V)) → is_active tx ≡ false → run_calls tx cs ≡ tx
  unfolding run_calls
  run_calls_finished tx [] done = refl
  run_calls_finished tx (c ∷ cs) done = rw (call_finished tx c done) (run_calls_finished tx cs done)
