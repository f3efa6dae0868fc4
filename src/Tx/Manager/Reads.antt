-- ===== src/Tx/Manager/Reads.antt =====
-- Reads inside a transaction: its own newest write, and the versions that commit validates.
use blitz_db.Prelude.{
  ℕ, ◌+◌, ◌%◌, ◌<◌, ◌≤◌, String, Bool, true, Option, none, some, List, [], ◌∷◌, ◌++◌, any, ok, err,
  ◌≡◌, refl, arith, eq_iff, Option-cases, inl, inr,
}
use blitz_db.Prelude.Map
use blitz_db.Prelude.Map.{Map, string_key}
use mathlib.Core.List.{reverse-append}
use blitz_db.Types.Interface.{ValueOps}
use blitz_db.Types.Row.{Row}
use blitz_db.Core.Table.{u64_mod}
use blitz_db.Core.Engine
use blitz_db.Tx.Transaction.{
  Transaction, WriteOp, update, delete, conflict, is_active, has_writes, buffer, record_read,
}
use blitz_db.Tx.Manager.{
  RowKey, row_key, same_row, TransactionManager, aims_at, first_aimed, newest_write, get_updated,
  get_stored, get, version_of, current_version, validates_reads, is_stale, stale_read, commit,
}
use blitz_db.Tx.Manager.Commit.{commit_decides}
use blitz_db.Tx.Manager.Versions.{get-stamp, apply_writes_touch, commit_success, has_writes_of}
use blitz_db.Tx.Manager.Progress.{IsBounded}

same_row_refl : (n : String) (i : ℕ) → same_row (n, i) (n, i) ≡ true
same_row_refl n i = ground (arith, eq_iff n n)

any-snoc {ℓ} :
    {A : Type ℓ} (p : A → Bool) (xs : List A) (x : A) → p x ≡ true → any p (xs ++ (x ∷ [])) ≡ true
any-snoc p [] x h = ground (arith, h)
any-snoc p (y ∷ xs) x h = ground (arith, any-snoc p xs x h)

module _ {V : Type 0} where
  is_active-buffer :
      (tx : Transaction V) (op : WriteOp V) → is_active (buffer tx op).1 ≡ is_active tx
  unfolding buffer
  is_active-buffer tx op = ground arith

  newest-buffer :
      (tx : Transaction V) (op : WriteOp V) (n : String) (i : ℕ)
      → is_active tx ≡ true
      → aims_at (n, i) op ≡ true
      → newest_write (buffer tx op).1 n i ≡ some op
  unfolding buffer first_aimed
  newest-buffer tx op n i live aimed = rw (live, reverse-append tx.writes (op ∷ []), aimed)

  -- After an active transaction buffers an update of a row that is stored, `get` returns the stored
  -- row with the values of that update on it: what earlier updates of the row buffered is not
  -- merged in.
  pub get-buffer-update :
      (m : TransactionManager V) (tx : Transaction V) (n : String) (i : ℕ) (values : Map String V)
      (base : Row V)
      → is_active tx ≡ true
      → Engine.get m.engine n i ≡ ok (some base)
      → (get m (buffer tx (update n i values)).1 n i).0
        ≡ ok (some (record base { values = Map.extend base.values values }))
  unfolding get get_updated
  get-buffer-update m tx n i values base live stored = ground (
    arith,
    is_active-buffer tx (update n i values),
    newest-buffer tx (update n i values) n i live (same_row_refl n i),
    stored,
  )

  -- After an active transaction buffers a delete of a row, `get` reports that row as missing,
  -- whatever is stored and whatever was buffered before.
  pub get-buffer-delete :
      (m : TransactionManager V) (tx : Transaction V) (n : String) (i : ℕ)
      → is_active tx ≡ true
      → (get m (buffer tx (delete n i)).1 n i).0 ≡ ok none
  unfolding get
  get-buffer-delete m tx n i live = ground (
    arith,
    is_active-buffer tx (delete n i),
    newest-buffer tx (delete n i) n i live (same_row_refl n i),
  )

  -- A `get` that returns a row or a miss records the version that it saw.
  get_records :
      (m : TransactionManager V) (tx : Transaction V) (n : String) (i : ℕ) (found : Option (Row V))
      → (get m tx n i).0 ≡ ok found
      → (is_active tx ≡ true) × ((get m tx n i).1 ≡ record_read tx n i (current_version m n i))
  unfolding get get_updated get_stored
  get_records m tx n i found h = ground arith

  version_below :
      (m : TransactionManager V) (n : String) (i : ℕ)
      → IsBounded m
      → current_version m n i ≤ m.commit_seq
  unfolding version_of
  version_below m n i bounded = elim (Option-cases (Map.get m.versions (n, i))) [
    | inl unseen ↦ ground (arith, unseen)
    | inr (v, held) ↦ ground (arith, held, bounded.versions (n, i) v held)
  ]

  stale_after :
      (m : TransactionManager V) (tx : Transaction V) (n : String) (i seen seq : ℕ)
      → validates_reads tx.isolation ≡ true
      → Map.get m.versions (n, i) ≡ some seq
      → seen < seq
      → stale_read m (record_read tx n i seen) ≡ true
  unfolding stale_read record_read
  stale_after m tx n i seen seq level held lt =
      let outdated : is_stale m.versions (n, i, seen) ≡ true =
        unfold version_of in ground (arith, held) in
      ground (arith, level, any-snoc (is_stale m.versions) tx.read_set (n, i, seen) outdated)

module _ {V : Type 0} ⦃o : ValueOps V⦄ where
  refused_if_stale :
      (m : TransactionManager V) (tx : Transaction V) (n : String) (i seen : ℕ)
      → is_active tx ≡ true
      → has_writes tx ≡ true
      → stale_read m (record_read tx n i seen) ≡ true
      → (commit m (record_read tx n i seen)).0 ≡ err conflict
  unfolding record_read is_active has_writes
  refused_if_stale m tx n i seen live busy stale =
      ground (arith, commit_decides m (record_read tx n i seen) live busy, stale)

  -- While no version is above the commit counter and the counter has room, a transaction whose
  -- isolation validates reads and that has something to write is refused with a conflict if, after
  -- `get` gave it a row or a miss, another commit wrote that row.
  pub read_then_overwritten :
      (m : TransactionManager V) (reader writer : Transaction V) (n : String) (i : ℕ)
      (found : Option (Row V)) (ks : List RowKey)
      → IsBounded m
      → m.commit_seq + 1 < u64_mod
      → (get m reader n i).0 ≡ ok found
      → validates_reads reader.isolation ≡ true
      → has_writes reader ≡ true
      → is_active writer ≡ true
      → any (aims_at (n, i)) writer.writes ≡ true
      → (commit m writer).0 ≡ ok ks
      → (commit (commit m writer).1 (get m reader n i).1).0 ≡ err conflict
  read_then_overwritten m reader writer n i found ks bounded room read level busy live wrote done =
      let (live', left) = get_records m reader n i found read in
      let (applied, stamped, counted) =
        commit_success m writer ks live (has_writes_of writer (n, i) wrote) done in
      let touched = apply_writes_touch writer.writes m.engine ks (n, i) applied wrote in
      let seq = (m.commit_seq + 1) % u64_mod in
      let held : Map.get (commit m writer).1.versions (n, i) ≡ some seq =
        rw (stamped, get-stamp ks m.versions seq (n, i), touched) refl in
      rw left (
        refused_if_stale (commit m writer).1 reader n i (current_version m n i) live' busy (
          stale_after (commit m writer).1 reader n i (current_version m n i) seq level held
            (omega (arith, version_below m n i bounded))))
