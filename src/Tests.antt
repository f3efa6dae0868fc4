-- ===== src/Tests.antt =====
-- A small shop of users, on which the tests and the examples of the children run.
pub mod Core
pub mod Tx
pub mod Wal
pub mod Replication
pub mod Policy
pub mod Jobs
pub mod Wire
pub mod Json
pub mod Durability
pub mod Server
pub mod Storage
pub mod Protocol
pub mod Query
pub mod Index
pub mod Cluster
use blitz_db.Prelude.{
  ℕ, String, Bool, true, false, Option, none, some, List, [], ◌∷◌, ◌==◌, ==_iff, refl,
}
use blitz_db.Prelude.Order.{pos, compare_flip}
use blitz_db.Prelude.Chain.{compare-Chain}
use Prim.Native.Nat.{compare}
use blitz_db.Prelude.Map.{Map}
use blitz_db.Types.Interface.{ColumnDef, ColumnType}
use blitz_db.Types.Value.{Foreign, Ordered, Value, int32, string}
use blitz_db.Types.Value.Laws.{value_ops}
use blitz_db.Types.Schema.{TableSchema}
use blitz_db.Types.Row.{Row}
use blitz_db.Core.Table.{InMemoryTable}
use blitz_db.Core.Engine.{Engine}
use blitz_db.Tx.Transaction.{Transaction, WriteOp, update, delete, active, serializable}
use blitz_db.Tx.Manager.{TransactionManager}

abbrev pub ordered_nat : Ordered ℕ
ordered_nat = record {
  cmp = compare;
  eq = ◌==◌;
  eq_sound = λ a b. (==_iff a b).0;
  cmp_flip = compare_flip;
  cmp_chain = compare-Chain;
}

-- Numbers stand for the values of the other crates.
abbrev pub sample : Foreign
sample = record {
  Uuid = ℕ;
  Timestamp = ℕ;
  Date = ℕ;
  Json = ℕ;
  uuids = ordered_nat;
  timestamps = ordered_nat;
  dates = ordered_nat;
  json_eq = ◌==◌;
  json_text = λ n. n ∷ [];
  json_sound = λ a b e t. (==_iff a b).0 e;
}

abbrev pub Cell : Type 0
Cell = Value sample

abbrev pub email : ColumnDef Cell
email = record {
  name = "email";
  column_type = ColumnType.string;
  is_nullable = false;
  is_primary_key = false;
  is_unique = true;
  default = none;
}

abbrev pub age : ColumnDef Cell
age = record {
  name = "age";
  column_type = ColumnType.int32;
  is_nullable = true;
  is_primary_key = false;
  is_unique = false;
  default = none;
}

abbrev pub users : TableSchema Cell
users = record {
  id = 7;
  name = "users";
  columns = email ∷ age ∷ [];
  column_index = ("email", 0) ∷ ("age", 1) ∷ [];
}

abbrev pub ann_mail : Cell
ann_mail = string (97 ∷ [])

abbrev pub bob_mail : Cell
bob_mail = string (98 ∷ [])

abbrev pub ann : Map String Cell
ann = ("email", ann_mail) ∷ ("age", int32 (pos 30)) ∷ []

abbrev pub bob : Map String Cell
bob = ("email", bob_mail) ∷ []

abbrev pub older : Map String Cell
older = ("age", int32 (pos 31)) ∷ []

abbrev pub stocked : InMemoryTable Cell
stocked = record {
  schema = users;
  rows = (1, record { id = 1; values = ann }) ∷ (2, record { id = 2; values = bob }) ∷ [];
  next_id = 3;
  uniq = ("email", (ann_mail, 1) ∷ (bob_mail, 2) ∷ []) ∷ [];
}

abbrev pub shop : Engine Cell
shop = ("users", stocked) ∷ []

abbrev pub opened : TransactionManager Cell
opened = record { engine = shop; next_tx_id = 1; commit_seq = 0; versions = [] }

-- A serializable transaction that has buffered the given writes.
abbrev pub writing : List (WriteOp Cell) → Transaction Cell
writing ops = record {
  id = 1;
  state = active;
  isolation = serializable;
  writes = ops;
  read_set = [];
  start_seq = 0;
}

abbrev pub birthday : Transaction Cell
birthday = writing (update "users" 1 older ∷ [])

abbrev pub leaving : Transaction Cell
leaving = writing (delete "users" 1 ∷ [])
