-- ===== src/Durability/Replay/History.antt =====
-- What the server logs while it runs, and the engine that recovery makes of the log.
use blitz_db.Prelude.{
  ℕ, ◌<◌, String, true, some, List, [], ◌∷◌, ok, ◌≡◌, arith, Option-cases, inl, inr,
}
use blitz_db.Prelude.Map
use blitz_db.Prelude.Map.{Map, string_key, nat_key, get-insert}
use blitz_db.Types.Value.{Foreign, Value}
use blitz_db.Types.Value.Laws.{value_ops}
use blitz_db.Types.Schema.{TableSchema}
use blitz_db.Types.Row.{Row}
use blitz_db.Server.Ids.{local_mod, compose_id}
use blitz_db.Core.Table.{InMemoryTable, CoreResult}
use blitz_db.Core.Engine
use blitz_db.Core.Engine.{Engine, on_table}
use blitz_db.Core.Engine.Valid.{Agrees}
use blitz_db.Wal.Codec.{EntryType, WalEntry}
use blitz_db.Durability.Payload.{Serde, values_to_json_bytes}
use blitz_db.Durability.Payload.RoundTrip.{Survives}

-- A call on a table that succeeds has found the table.
pub on_table_ok :
    {V : Type 0} {A : Type 0} (e : Engine V) (n : String)
    (body : InMemoryTable V → CoreResult A × InMemoryTable V) (a : A)
    → (on_table e n body).0 ≡ ok a
    → (t : InMemoryTable V) × (Map.get e n ≡ some t) × ((body t).0 ≡ ok a)
unfolding on_table
on_table_ok e n body a h = elim (Option-cases (Map.get e n)) [
  | inl absent ↦ ground (arith, absent, h)
  | inr (t, present) ↦ (t, present, ground (arith, present, h))
]

module _ {F : Foreign} (s : Serde F) where
  -- The entry that the server appends for a change of row `i`, which a shard's table holds: the
  -- global id, and the values of the row.
  abbrev pub entry_of : ℕ → EntryType → String → ℕ → ℕ → List ℕ → WalEntry
  entry_of seq t n shard i contents = record {
    sequence = seq;
    entry_type = t;
    table = s.as_bytes n;
    row_id = compose_id shard i;
    contents = contents;
  }

  -- A run of the server's writes, one after the other, from an engine to the one it leaves, with
  -- the entries that they log. What a call that fails leaves out, and the creation of tables is not
  -- logged.
  pub data Served (after : ℕ) : Engine (Value F) → List WalEntry → Engine (Value F) → Type 0 where
    done : (e : Engine (Value F)) → Served after e [] e
    create :
        (e f : Engine (Value F)) (xs : List WalEntry) (schema : TableSchema (Value F))
        → Served after (Engine.create_table e schema).1 xs f
        → Served after e xs f
    insert :
        (e f : Engine (Value F)) (xs : List WalEntry) (n : String) (row : Row (Value F))
        (seq shard i : ℕ)
        → after < seq
        → i < local_mod
        → (Engine.insert e n row).0 ≡ ok i
        → Survives s row.values
        → Served after (Engine.insert e n row).1 xs f
        → Served after e
            (entry_of seq EntryType.insert n shard i (values_to_json_bytes s row.values) ∷ xs)
            f
    update :
        (e f : Engine (Value F)) (xs : List WalEntry) (n : String) (values : Map String (Value F))
        (row : Row (Value F)) (seq shard i : ℕ)
        → after < seq
        → i < local_mod
        → Agrees e n i values
        → (Engine.update e n i values).0 ≡ ok row
        → Survives s row.values
        → Served after (Engine.update e n i values).1 xs f
        → Served after e
            (entry_of seq EntryType.update n shard i (values_to_json_bytes s row.values) ∷ xs)
            f
    delete :
        (e f : Engine (Value F)) (xs : List WalEntry) (n : String) (seq shard i : ℕ)
        → after < seq
        → i < local_mod
        → (Engine.delete e n i).0 ≡ ok true
        → Served after (Engine.delete e n i).1 xs f
        → Served after e (entry_of seq EntryType.delete n shard i [] ∷ xs) f
