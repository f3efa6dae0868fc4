-- ===== src/Storage.antt =====
-- crates/blitz-storage/src/recovery.rs: `replay_wal`, the log of transactions on the engine.
--
-- bincode's reading of a payload is the parameter `Payloads`. The set of the committed transactions,
-- which the source fills and never reads, is left out.
pub mod Effective
use blitz_db.Prelude.{
  ℕ, String, Option, none, some, List, [], ◌∷◌, ◌++◌, leb, if◌then◌else◌, Result, ok, err,
}
use blitz_db.Prelude.Map.{Map}
use blitz_db.Types.Interface.{ValueOps}
use blitz_db.Types.Row.{Row}
use blitz_db.Core.Table.{CoreError}
use blitz_db.Core.Engine
use blitz_db.Core.Engine.{Engine}
use blitz_db.Wal.Reader.{WalError}
use blitz_db.Wal.Codec.{Bytes32, EntryType, WalEntry}
use blitz_db.Wal.Log.{open_log, read_all, WriteAheadLog}

pub data RecoveryError : Type 0 where
  wal_error : WalError → RecoveryError
  deserialization_error : RecoveryError
  engine_error : CoreError → RecoveryError

abbrev pub Recovered : Type 0 → Type 0
Recovered V = Result RecoveryError (Unit {0}) × Engine V

pub record Payloads (V : Type 0) : Type 0 where
  pub row_from : List ℕ → Option (Row V)
  pub updates_from : List ℕ → Option (Map String V)
  pub text : List ℕ → String

-- `.map_err(|e| RecoveryError::EngineError(e.to_string()))?`, the value dropped.
unfoldable pub outcome {ℓ} : {A : Type ℓ} → Result CoreError A → Result RecoveryError (Unit {0})
outcome (ok a) = ok tt
outcome (err e) = err (engine_error e)

module _ {V : Type 0} ⦃o : ValueOps V⦄ (p : Payloads V) where
  unfoldable pub apply_insert : Engine V → WalEntry → Recovered V
  unfolding outcome
  apply_insert e x = elim (p.row_from x.contents) [
    | none ↦ (err deserialization_error, e)
    | some row ↦ let (r, e') = Engine.insert e (p.text x.table) row in (outcome r, e')
  ]

  unfoldable pub apply_update : Engine V → WalEntry → Recovered V
  unfolding outcome
  apply_update e x = elim (p.updates_from x.contents) [
    | none ↦ (err deserialization_error, e)
    | some values ↦
        let (r, e') = Engine.update e (p.text x.table) x.row_id values in (outcome r, e')
  ]

  unfoldable pub apply_delete : Engine V → WalEntry → Recovered V
  unfolding outcome
  apply_delete e x = let (r, e') = Engine.delete e (p.text x.table) x.row_id in (outcome r, e')

  unfoldable pub apply_entry : Engine V → WalEntry → Recovered V
  unfolding apply_insert apply_update apply_delete
  apply_entry e x = elim x.entry_type [
    | EntryType.insert ↦ apply_insert e x
    | EntryType.update ↦ apply_update e x
    | EntryType.delete ↦ apply_delete e x
    | EntryType.commit ↦ (ok tt, e)
    | EntryType.rollback ↦ (ok tt, e)
  ]

  -- `for (_, op) in ops { self.apply_entry(engine, &op)?; }`
  unfoldable pub apply_all : Engine V → List WalEntry → Recovered V
  apply_all e [] = (ok tt, e)
  apply_all e (x ∷ xs) =
      let (r, e') = apply_entry e x in
      let rest = apply_all e' xs in elim r [ err f ↦ (err f, e') | ok u ↦ rest ]

  -- The loop of `replay_wal` with its pending operations, and what it does after the last entry.
  unfoldable pub replay_entries : ℕ → Engine V → List WalEntry → List WalEntry → Recovered V
  unfolding apply_all
  replay_entries after e pending [] = apply_all e pending
  replay_entries after e pending (x ∷ xs) =
      let (r, e') = apply_all e pending in
      let committed = replay_entries after e' [] xs in
      let rolled_back = replay_entries after e [] xs in
      let pushed = replay_entries after e (pending ++ (x ∷ [])) xs in
      let skipped = replay_entries after e pending xs in
      if leb x.sequence after then skipped else elim x.entry_type [
        | EntryType.commit ↦ elim r [ err f ↦ (err f, e') | ok u ↦ committed ]
        | EntryType.rollback ↦ rolled_back
        | EntryType.insert ↦ pushed
        | EntryType.update ↦ pushed
        | EntryType.delete ↦ pushed
      ]

  -- What reading the file gives, and the replay of it.
  unfoldable pub replay_read :
      Bytes32 → ℕ → Engine V → Option (Result WalError WriteAheadLog) → Option (Recovered V)
  unfolding replay_entries
  replay_read c after e none = none
  replay_read c after e (some (err f)) = some (err (wal_error f), e)
  replay_read c after e (some (ok w)) = elim (read_all c w) [
    | none ↦ none
    | some r ↦ elim r [
      | err f ↦ some (err (wal_error f), e)
      | ok entries ↦ some (replay_entries after e [] entries)
    ]
  ]

  unfoldable pub replay_wal : Bytes32 → ℕ → Engine V → List ℕ → Option (Recovered V)
  unfolding replay_read
  replay_wal c after e bytes = replay_read c after e (open_log c bytes)
