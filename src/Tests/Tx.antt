-- ===== src/Tests/Tx.antt =====
-- Transactions on the shop.
use blitz_db.Prelude.{◌≤◌, ℕ, String, All, some, [], ◌∷◌, ok, err, ◌≡◌, refl, arith}
use blitz_db.Prelude.Map
use blitz_db.Prelude.Map.{nat_key, string_key}
use blitz_db.Prelude.Order.{eq_bytes}
use blitz_db.Types.Value.{value_eq, same_hash, probe}
use blitz_db.Types.Value.Convert.{is_null}
use blitz_db.Types.Value.Laws.{value_ops}
use blitz_db.Core.Table
use blitz_db.Core.Table.{
  row_not_found, unique_names, owner, clashes, check_cols, check_uniq, claim, index_col, index_cols,
  release, unindex_col, unindex_cols, unindex_row, drop_stale, drop_stale_cols,
}
use blitz_db.Core.Engine
use blitz_db.Core.Engine.{on_table, read_table}
use blitz_db.Tx.Transaction
use blitz_db.Tx.Transaction.{
  Transaction, update, delete, conflict, core_error, active, committed, rolled_back, is_active,
  is_state_active, has_writes, buffer, record_read, rollback, buffers, commits, run_calls,
  run_calls_finished, serializable,
}
use blitz_db.Tx.Manager.{
  current_version, row_key, version_of, validates_reads, stamp, begin, first_aimed, get,
  get_updated, get_stored, stale_read, write_conflict, apply_write, apply_writes, apply_and_stamp,
  commit,
}
use blitz_db.Tx.Manager.Commit.{commit_conflict}
use blitz_db.Tx.Manager.Validated.{target_version, commit_validated}
use blitz_db.Tx.Manager.Versions.{first_committer_wins}
use blitz_db.Tx.Manager.Progress.{IsBounded, commit-begin}
use blitz_db.Tx.Manager.Failure.{commit_after_failure}
use blitz_db.Tx.Manager.Reads.{read_then_overwritten}
use blitz_db.Tests.{Cell, ann, older, opened, writing, birthday, leaving}

opened-IsBounded : IsBounded opened
unfolding Map.get
opened-IsBounded = record { versions = λ k v h. cc }

-- A transaction that deletes a row that is not there and then updates it.
abbrev missing : Transaction Cell
missing = writing (delete "users" 8 ∷ update "users" 8 older ∷ [])

birthday_commits : (commit opened birthday).0 ≡ ok (("users", 1) ∷ [])
unfolding commit begin stale_read write_conflict apply_write apply_writes apply_and_stamp stamp
    version_of validates_reads is_active is_state_active has_writes rollback Transaction.commit
    record_read get get_updated get_stored first_aimed buffer Engine.update Engine.delete
    Engine.take Engine.get on_table read_table Table.update Table.take Map.get Map.insert Map.remove
    Map.extend is_null check_uniq check_cols unique_names clashes index_cols index_col claim owner
    unindex_row unindex_cols unindex_col release drop_stale drop_stale_cols value_eq same_hash probe
    eq_bytes
birthday_commits = refl

birthday_twice : (commit (commit opened birthday).1 birthday).0 ≡ err conflict
unfolding commit begin stale_read write_conflict apply_write apply_writes apply_and_stamp stamp
    version_of validates_reads is_active is_state_active has_writes rollback Transaction.commit
    record_read get get_updated get_stored first_aimed buffer Engine.update Engine.delete
    Engine.take Engine.get on_table read_table Table.update Table.take Map.get Map.insert Map.remove
    Map.extend is_null check_uniq check_cols unique_names clashes index_cols index_col claim owner
    unindex_row unindex_cols unindex_col release drop_stale drop_stale_cols value_eq same_hash probe
    eq_bytes
birthday_twice = refl

missing_fails : (commit opened missing).0 ≡ err (core_error (row_not_found 8))
unfolding commit begin stale_read write_conflict apply_write apply_writes apply_and_stamp stamp
    version_of validates_reads is_active is_state_active has_writes rollback Transaction.commit
    record_read get get_updated get_stored first_aimed buffer Engine.update Engine.delete
    Engine.take Engine.get on_table read_table Table.update Table.take Map.get Map.insert Map.remove
    Map.extend is_null check_uniq check_cols unique_names clashes index_cols index_col claim owner
    unindex_row unindex_cols unindex_col release drop_stale drop_stale_cols value_eq same_hash probe
    eq_bytes
missing_fails = refl

first_committer_wins_example : (commit (commit opened birthday).1 leaving).0 ≡ err conflict
unfolding commit begin stale_read write_conflict apply_write apply_writes apply_and_stamp stamp
    version_of validates_reads is_active is_state_active has_writes rollback Transaction.commit
    record_read get get_updated get_stored first_aimed buffer Engine.update Engine.delete
    Engine.take Engine.get on_table read_table Table.update Table.take Map.get Map.insert Map.remove
    Map.extend is_null check_uniq check_cols unique_names clashes index_cols index_col claim owner
    unindex_row unindex_cols unindex_col release drop_stale drop_stale_cols value_eq same_hash probe
    eq_bytes
first_committer_wins_example =
    first_committer_wins opened birthday leaving ("users", 1) (("users", 1) ∷ []) (omega arith) refl
      refl refl refl refl (omega arith)

read_then_overwritten_example :
    (commit
      (commit opened leaving).1
      (get opened (writing (update "users" 2 older ∷ [])) "users" 1).1).0
    ≡ err conflict
unfolding commit begin stale_read write_conflict apply_write apply_writes apply_and_stamp stamp
    version_of validates_reads is_active is_state_active has_writes rollback Transaction.commit
    record_read get get_updated get_stored first_aimed buffer Engine.update Engine.delete
    Engine.take Engine.get on_table read_table Table.update Table.take Map.get Map.insert Map.remove
    Map.extend is_null check_uniq check_cols unique_names clashes index_cols index_col claim owner
    unindex_row unindex_cols unindex_col release drop_stale drop_stale_cols value_eq same_hash probe
    eq_bytes
read_then_overwritten_example =
    read_then_overwritten opened (writing (update "users" 2 older ∷ [])) leaving "users" 1
      (some (record { id = 1; values = ann })) (("users", 1) ∷ []) opened-IsBounded (omega arith)
      refl refl refl refl refl refl

commit_conflict_example :
    ((commit (commit opened birthday).1 leaving).1 ≡ (commit opened birthday).1)
    × ((commit (commit opened birthday).1 leaving).2.state ≡ rolled_back)
    × ((commit (commit opened birthday).1 leaving).2.writes ≡ [])
unfolding commit begin stale_read write_conflict apply_write apply_writes apply_and_stamp stamp
    version_of validates_reads is_active is_state_active has_writes rollback Transaction.commit
    record_read get get_updated get_stored first_aimed buffer Engine.update Engine.delete
    Engine.take Engine.get on_table read_table Table.update Table.take Map.get Map.insert Map.remove
    Map.extend is_null check_uniq check_cols unique_names clashes index_cols index_col claim owner
    unindex_row unindex_cols unindex_col release drop_stale drop_stale_cols value_eq same_hash probe
    eq_bytes
commit_conflict_example = commit_conflict (commit opened birthday).1 leaving refl

-- The birthday after a look at the other user.
abbrev looked : Transaction Cell
looked = record birthday { read_set = ("users", 2, 0) ∷ [] }

commit_validated_example :
    All {A = String × ℕ × ℕ} (λ r. current_version opened r.0 r.1 ≡ r.2) (("users", 2, 0) ∷ [])
    × All (λ op. target_version opened op ≤ 0) (update "users" 1 older ∷ [])
unfolding commit begin stale_read write_conflict apply_write apply_writes apply_and_stamp stamp
    version_of validates_reads is_active is_state_active has_writes rollback Transaction.commit
    record_read get get_updated get_stored first_aimed buffer Engine.update Engine.delete
    Engine.take Engine.get on_table read_table Table.update Table.take Map.get Map.insert Map.remove
    Map.extend is_null check_uniq check_cols unique_names clashes index_cols index_col claim owner
    unindex_row unindex_cols unindex_col release drop_stale drop_stale_cols value_eq same_hash probe
    eq_bytes
commit_validated_example = commit_validated opened looked (("users", 1) ∷ []) refl refl refl

commit-begin_example :
    commit
      (begin opened serializable).1
      (record (begin opened serializable).0 { writes = update "users" 1 older ∷ [] })
    ≡ apply_and_stamp
        (begin opened serializable).1
        (record (begin opened serializable).0 { writes = update "users" 1 older ∷ [] })
commit-begin_example = commit-begin opened serializable (update "users" 1 older) [] opened-IsBounded

commit_after_failure_example :
    ((commit opened missing).2.state ≡ active)
    × ((commit opened missing).2.writes ≡ [])
    × ((commit opened missing).1.versions ≡ opened.versions)
    × (commit (commit opened missing).1 (commit opened missing).2 ≡ (
      ok [],
      (commit opened missing).1,
      record (commit opened missing).2 { state = committed },
    ))
commit_after_failure_example = commit_after_failure opened missing (row_not_found 8) missing_fails

abbrev ended : Transaction Cell
ended = record birthday { state = committed }
