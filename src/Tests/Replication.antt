-- ===== src/Tests/Replication.antt =====
-- A replicator that keeps two entries.
use blitz_db.Prelude.{ℕ, ◌+◌, ◌-◌, ◌∷◌, [], length, ◌≡◌, refl, arith}
use blitz_db.Replication.{Operation, delete, Replicator, append, entries_since, latest_seq, trim}
use blitz_db.Replication.Contiguous.{
  IsRun, IsContiguous, append-IsContiguous, entries_since_complete,
}

abbrev removal : Operation ℕ
removal = delete "users" 1

abbrev full : Replicator ℕ
full = record {
  oplog =
      record { id = 0; seq = 4; timestamp = 0; op = removal }
      ∷ record { id = 0; seq = 5; timestamp = 0; op = removal }
      ∷ [];
  max_oplog_size = 2;
  next_seq = 6;
  peers = [];
}

full-IsContiguous : IsContiguous 4 full
unfolding IsRun
full-IsContiguous = record { run = (refl, (refl, tt)); upto = refl; bounded = omega arith }

oldest_dropped : length (append full 0 0 removal).1.oplog ≡ 2
unfolding append trim
oldest_dropped = refl

append-IsContiguous_example : (from : ℕ) × IsContiguous from (append full 0 0 removal).1
append-IsContiguous_example = append-IsContiguous full 4 0 0 removal (omega arith) full-IsContiguous

entries_since_complete_example :
    IsRun (4 + 1) (entries_since full 4) × (length (entries_since full 4) ≡ latest_seq full - 4)
entries_since_complete_example =
    entries_since_complete full 4 4 full-IsContiguous (omega arith) (omega arith)
