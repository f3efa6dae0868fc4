-- ===== src/Storage/Effective.antt =====
-- Which entries of a log take effect.
use blitz_db.Prelude.{
  ℕ, List, [], ◌∷◌, ◌++◌, leb, false, if◌then◌else◌, ok, err, ◌≡◌, refl, arith, Bool-cases,
  Result-cases, inl, inr,
}
use blitz_db.Types.Interface.{ValueOps}
use blitz_db.Core.Engine.{Engine}
use blitz_db.Wal.Codec.{EntryType, WalEntry}
use blitz_db.Storage.{Payloads, Recovered, apply_entry, apply_all, replay_entries}

-- The operations after the sequence of the snapshot, but those that a rollback follows before the
-- next commit. What follows the last marker stays.
abbrev pub effective : ℕ → List WalEntry → List WalEntry → List WalEntry
effective after pending [] = pending
effective after pending (x ∷ xs) =
    if leb x.sequence after then effective after pending xs else elim x.entry_type [
      | EntryType.commit ↦ pending ++ effective after [] xs
      | EntryType.rollback ↦ effective after [] xs
      | EntryType.insert ↦ effective after (pending ++ (x ∷ [])) xs
      | EntryType.update ↦ effective after (pending ++ (x ∷ [])) xs
      | EntryType.delete ↦ effective after (pending ++ (x ∷ [])) xs
    ]

module _ {V : Type 0} ⦃o : ValueOps V⦄ (p : Payloads V) where
  abbrev and_then_all : Recovered V → List WalEntry → Recovered V
  and_then_all (ok u, e) xs = apply_all p e xs
  and_then_all (err f, e) xs = (err f, e)

  apply_all-append :
      (e : Engine V) (xs ys : List WalEntry)
      → apply_all p e (xs ++ ys) ≡ and_then_all (apply_all p e xs) ys
  unfolding apply_all
  apply_all-append e [] ys = refl
  apply_all-append e (x ∷ xs) ys = elim (Result-cases (apply_entry p e x).0) [
    | inl (u, fine) ↦ rw (fine, apply_all) (apply_all-append (apply_entry p e x).1 xs ys)
    | inr (f, failed) ↦ rw (failed, apply_all) refl
  ]

  -- The entries `xs` are replayed as the effective ones, from whatever engine and pending ones.
  abbrev IsEffective : ℕ → List WalEntry → Type 0
  IsEffective after xs =
      (e : Engine V) (pending : List WalEntry)
      → replay_entries p after e pending xs ≡ apply_all p e (effective after pending xs)

  commit_step :
      (after : ℕ) (xs : List WalEntry) (done : Recovered V)
      → IsEffective after xs
      → elim done.0 [ err f ↦ (err f, done.1) | ok u ↦ replay_entries p after done.1 [] xs ]
        ≡ and_then_all done (effective after [] xs)
  commit_step after xs (ok u, e) later = later e []
  commit_step after xs (err f, e) later = refl

  entry_step :
      (after : ℕ) (e : Engine V) (pending xs : List WalEntry) (x : WalEntry) (t : EntryType)
      → x.entry_type ≡ t
      → leb x.sequence after ≡ false
      → IsEffective after xs
      → replay_entries p after e pending (x ∷ xs) ≡ apply_all p e (effective after pending (x ∷ xs))
  unfolding replay_entries
  entry_step after e pending xs x EntryType.insert h new later =
      ground (arith, h, new, later e (pending ++ (x ∷ [])))
  entry_step after e pending xs x EntryType.update h new later =
      ground (arith, h, new, later e (pending ++ (x ∷ [])))
  entry_step after e pending xs x EntryType.delete h new later =
      ground (arith, h, new, later e (pending ++ (x ∷ [])))
  entry_step after e pending xs x EntryType.rollback h new later =
      ground (arith, h, new, later e [])
  entry_step after e pending xs x EntryType.commit h new later =
      rw (new, h, apply_all-append e pending (effective after [] xs))
        (commit_step after xs (apply_all p e pending) later)

  -- The replay of a log of transactions applies, in their order and up to the first that fails,
  -- exactly the operations after the sequence of the snapshot that no rollback follows before the
  -- next commit, whatever transaction the commit or the rollback is of; the operations after the
  -- last commit or rollback are applied too.
  pub replay_entries-effective :
      (after : ℕ) (xs : List WalEntry) (e : Engine V) (pending : List WalEntry)
      → replay_entries p after e pending xs ≡ apply_all p e (effective after pending xs)
  unfolding replay_entries
  replay_entries-effective after [] e pending = refl
  replay_entries-effective after (x ∷ xs) e pending = elim (Bool-cases (leb x.sequence after)) [
    | inl old ↦ ground (arith, old, replay_entries-effective after xs e pending)
    | inr new ↦
        entry_step after e pending xs x x.entry_type refl new (replay_entries-effective after xs)
  ]
