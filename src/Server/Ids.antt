-- ===== src/Server/Ids.antt =====
-- crates/blitz-server/src/server.rs: global row ids, the shard in the high 8 bits of a `u64` and the
-- engine's own id in the low 56. The bit operations are read as arithmetic.
use blitz_db.Prelude.{ℕ, ◌+◌, ◌*◌, ◌/◌, ◌%◌, ◌^◌, ◌<◌, ◌≡◌, arith}

-- `SHARD_SHIFT` and `LOCAL_MASK`
abbrev pub local_mod : ℕ
local_mod = 2 ^ 56

unfoldable pub compose_id : ℕ → ℕ → ℕ
compose_id shard i = shard % 256 * local_mod + i % local_mod

unfoldable pub split_id : ℕ → ℕ × ℕ
split_id i = (i / local_mod, i % local_mod)

-- The parts of a global id come back, and the id fits a `u64`.
pub split_id-compose_id :
    (shard i : ℕ)
    → shard < 256
    → i < local_mod
    → (split_id (compose_id shard i) ≡ (shard, i)) × (compose_id shard i < 2 ^ 64)
unfolding split_id compose_id
split_id-compose_id shard i small fits = ground arith

pub compose_id-local : (shard i : ℕ) → i < local_mod → compose_id shard i % local_mod ≡ i
unfolding compose_id
compose_id-local shard i fits = ground arith
