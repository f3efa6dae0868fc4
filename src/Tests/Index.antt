-- ===== src/Tests/Index.antt =====
-- An index on ages.
use blitz_db.Prelude.{ℕ, true, List, [], ◌∷◌, ◌≡◌}
use blitz_db.Prelude.Map.{nat_key}
use blitz_db.Index.Hash.{new_index, lookup}
use blitz_db.Index.Refines.{Call, calls, promises, ids_of, lookup-calls}

-- The second insert is refused, and so is nothing after the removal.
abbrev ages : List (Call ℕ)
ages = Call.inserts 30 1 ∷ Call.inserts 30 2 ∷ Call.removes 30 1 ∷ Call.inserts 30 3 ∷ []

lookup-calls_example :
    lookup (calls (new_index "age" true) ages) 30 ≡ ids_of 30 (promises true [] ages)
lookup-calls_example = lookup-calls "age" true ages 30
