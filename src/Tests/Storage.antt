-- ===== src/Tests/Storage.antt =====
-- The log of two transactions, of which one is rolled back.
use blitz_db.Prelude.{ℕ, List, [], ◌∷◌, some, ◌≡◌, refl}
use blitz_db.Types.Value.Laws.{value_ops}
use blitz_db.Wal.Codec.{EntryType, WalEntry}
use blitz_db.Storage.{Payloads, apply_all, replay_entries}
use blitz_db.Storage.Effective.{effective, replay_entries-effective}
use blitz_db.Tests.{Cell, shop, bob}

-- Every payload is the row of Bob.
abbrev bobs : Payloads Cell
bobs = record {
  row_from = λ bs. some (record { id = 0; values = bob });
  updates_from = λ bs. some bob;
  text = λ bs. "users";
}

abbrev logged : ℕ → EntryType → ℕ → WalEntry
logged seq t row = record {
  sequence = seq;
  entry_type = t;
  table = [];
  row_id = row;
  contents = [];
}

abbrev two_transactions : List WalEntry
two_transactions =
    logged 1 EntryType.delete 2
    ∷ logged 2 EntryType.commit 1
    ∷ logged 3 EntryType.delete 1
    ∷ logged 4 EntryType.rollback 2
    ∷ logged 5 EntryType.insert 9
    ∷ []

two_effective :
    effective 0 [] two_transactions ≡ logged 1 EntryType.delete 2 ∷ logged 5 EntryType.insert 9 ∷ []
two_effective = refl

replay_entries-effective_example :
    replay_entries bobs 0 shop [] two_transactions
    ≡ apply_all bobs shop (effective 0 [] two_transactions)
replay_entries-effective_example = replay_entries-effective bobs 0 two_transactions shop []
