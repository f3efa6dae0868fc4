-- ===== src/Server/Limits.antt =====
-- crates/blitz-server/src/server.rs: the admission of connections, in all and by address, and the
-- row ids that are kept for the keys of repeated inserts. An address is a number, and the shard of
-- a key, which only spreads the locks and the bound, is an argument. The counters are those of a
-- 64-bit machine, with their wrap.
pub mod Bounds
use blitz_db.Prelude.{
  ℕ, zero, suc, ◌+◌, ◌-◌, ◌/◌, ◌%◌, ◌^◌, String, Bool, true, false, Option, none, some, List, [],
  ◌∷◌, map, length, take, leb, ltb, ◌==◌, if◌then◌else◌,
}
use blitz_db.Prelude.Map
use blitz_db.Prelude.Map.{Map, string_key, nat_key}

pub record Limits : Type 0 where
  pub max_connections : ℕ
  pub max_connections_per_ip : ℕ
  pub shed_at_connections : Option ℕ

pub record Admission : Type 0 where
  pub connections : ℕ
  pub ips : Map ℕ ℕ

-- The compare-and-swap loops, in the round that succeeds.
unfoldable pub try_acquire_connection : Limits → Admission → Bool × Admission
try_acquire_connection l a =
    if leb l.max_connections a.connections
    then (false, a)
    else (true, record a { connections = (a.connections + 1) % 2 ^ 64 })

unfoldable pub release_connection : Admission → Admission
release_connection a =
    if a.connections == 0
    then a
    else record a { connections = (a.connections + (2 ^ 64 - 1)) % 2 ^ 64 }

pub should_shed : Limits → Admission → Bool
should_shed l a = elim l.shed_at_connections [ none ↦ false | some t ↦ leb t a.connections ]

abbrev pub held_by : Admission → ℕ → ℕ
held_by a ip = elim (Map.get a.ips ip) [ none ↦ 0 | some n ↦ n ]

unfoldable pub ip_acquire : Limits → Admission → ℕ → Bool × Admission
ip_acquire l a ip =
    if l.max_connections_per_ip == 0
    then (true, a)
    else if leb l.max_connections_per_ip (held_by a ip)
    then (false, a)
    else (true, record a { ips = Map.insert a.ips ip ((held_by a ip + 1) % 2 ^ 64) })

unfoldable pub ip_release : Admission → ℕ → Admission
ip_release a ip = elim (Map.get a.ips ip) [
  | none ↦ a
  | some n ↦
      if leb n 1
      then record a { ips = Map.remove a.ips ip }
      else record a { ips = Map.insert a.ips ip ((n + (2 ^ 64 - 1)) % 2 ^ 64) }
]

-- One shard of the idempotency keys.
abbrev pub IdemShard : Type 0
IdemShard = Map String ℕ

abbrev pub idem_cap : ℕ
idem_cap = 16_000

unfoldable pub remove_keys : List String → IdemShard → IdemShard
remove_keys [] g = g
remove_keys (k ∷ ks) g = remove_keys ks (Map.remove g k)

unfoldable pub make_room : IdemShard → IdemShard
unfolding remove_keys
make_room g =
    if leb idem_cap (length g)
    then remove_keys (map (λ entry. entry.0) (take (length g / 2) g)) g
    else g

pub idem_lookup : IdemShard → String → Option ℕ
idem_lookup g key = Map.get g key

unfoldable pub idem_record : IdemShard → String → ℕ → IdemShard
unfolding make_room
idem_record g key row_id = Map.insert (make_room g) key row_id
