-- ===== src/Tx/Manager/Validated.antt =====
-- What a successful commit has checked: the rows read are unchanged, the rows written not overtaken.
use blitz_db.Prelude.{
  ℕ, ◌≤◌, String, Bool, true, false, none, some, List, [], ◌∷◌, any, All, ==_iff, ok, ◌≡◌, arith,
  Bool-cases, Option-cases, inl, inr,
}
use blitz_db.Prelude.Map
use blitz_db.Prelude.Map.{Map}
use blitz_db.Types.Interface.{ValueOps}
use blitz_db.Tx.Transaction.{Transaction, WriteOp, has_writes}
use blitz_db.Tx.Manager.{
  RowKey, row_key, TransactionManager, target, overtaken, is_stale, stale_read, write_conflict,
  version_of, validates_reads, current_version, commit,
}

All-none {ℓ κ} :
    {A : Type ℓ} (P : A → Type κ) (f : A → Bool)
    → ((x : A) → f x ≡ false → P x)
    → (xs : List A) → any f xs ≡ false
    → All P xs
All-none P f each [] h = tt
All-none P f each (x ∷ xs) h = elim (Bool-cases (f x)) [
  | inl met ↦ ground (arith, met)
  | inr missed ↦ (each x missed, All-none P f each xs (ground (arith, missed)))
]

module _ {V : Type 0} where
  -- The version that the row of an operation has now; 0 for an insert.
  unfoldable pub target_version : TransactionManager V → WriteOp V → ℕ
  target_version m op = elim (target op) [ none ↦ 0 | some k ↦ current_version m k.0 k.1 ]

  fresh_read :
      (m : TransactionManager V) (r : String × ℕ × ℕ)
      → is_stale m.versions r ≡ false
      → current_version m r.0 r.1 ≡ r.2
  fresh_read m (n, i, seen) h = ground (arith, ==_iff (current_version m n i) seen)

  target-overtaken :
      (m : TransactionManager V) (start : ℕ) (op : WriteOp V)
      → overtaken m.versions start op ≡ false
      → target_version m op ≤ start
  unfolding target_version version_of
  target-overtaken m start op h = elim (Option-cases (target op)) [
    | inl untargeted ↦ ground (arith, untargeted)
    | inr (k, aimed) ↦ elim (Option-cases (Map.get m.versions k)) [
      | inl unseen ↦ ground (arith, aimed, unseen)
      | inr (v, held) ↦ ground (arith, aimed, held)
    ]
  ]

module _ {V : Type 0} ⦃o : ValueOps V⦄ where
  passed :
      (m : TransactionManager V) (tx : Transaction V) (ks : List RowKey)
      → has_writes tx ≡ true
      → (commit m tx).0 ≡ ok ks
      → (stale_read m tx ≡ false) × (write_conflict m tx ≡ false)
  unfolding commit
  passed m tx ks busy done = (ground (arith, busy), ground (arith, busy))

  -- When a transaction that validates its reads and has something to write commits with success,
  -- every row that it read still had the version that it recorded, and no row that it updates or
  -- deletes had a version above its start.
  pub commit_validated :
      (m : TransactionManager V) (tx : Transaction V) (ks : List RowKey)
      → has_writes tx ≡ true
      → validates_reads tx.isolation ≡ true
      → (commit m tx).0 ≡ ok ks
      → All (λ r. current_version m r.0 r.1 ≡ r.2) tx.read_set
        × All (λ op. target_version m op ≤ tx.start_seq) tx.writes
  unfolding stale_read write_conflict
  commit_validated m tx ks busy level done =
      let (fresh, ahead) = passed m tx ks busy done in
      (
        All-none (λ r. current_version m r.0 r.1 ≡ r.2) (is_stale m.versions) (fresh_read m)
            tx.read_set (ground (arith, fresh, level)),
        All-none (λ op. target_version m op ≤ tx.start_seq) (overtaken m.versions tx.start_seq)
            (target-overtaken m tx.start_seq) tx.writes ahead,
      )
