-- ===== src/Server/Routing.antt =====
-- crates/blitz-server/src/server.rs: the shards of a table. A row goes to the shard that the hash of
-- one of its values says, and later calls find it by the shard in its global id. The name of a
-- shard's table (`format!`), and the texts and bytes of other crates' values are parameters.
use Prim.Native.Nat.{bit_xor}
use blitz_db.Prelude.{
  ℕ, ◌*◌, ◌%◌, ◌^◌, ◌≤◌, ◌<◌, String, none, some, List, [], ◌∷◌, leb, if◌then◌else◌, ◌≡◌, refl,
  arith, Option-cases, Bool-cases, inl, inr,
}
use native.Mathlib.Nat.{mod-lt, mod-eq_of_lt}
use blitz_db.Prelude.Map
use blitz_db.Prelude.Map.{Map, string_key}
use blitz_db.Prelude.Bytes.{to_le}
use blitz_db.Types.Value.{Foreign, Value, Values, nil, cons}
use blitz_db.Protocol.Wire.{Wire, to_bits}
use blitz_db.Server.Ids.{local_mod, compose_id, split_id, split_id-compose_id}

pub record ShardSpec : Type 0 where
  pub shards : ℕ
  pub column : String

unfoldable pub new_spec : ℕ → String → ShardSpec
new_spec n c = record { shards = if leb n 1 then 1 else n; column = c }

abbrev pub fnv_offset : ℕ
fnv_offset = 14695981039346656037

abbrev pub fnv_prime : ℕ
fnv_prime = 1099511628211

unfoldable pub mix : ℕ → List ℕ → ℕ
mix h [] = h
mix h (b ∷ bs) = mix (bit_xor h b * fnv_prime % 2 ^ 64) bs

module _ {F : Foreign} (w : Wire F) (date_text : F.Date → List ℕ) where
  unfoldable mutual
    unfolding mix

    pub shard_hash : Value F → ℕ
    shard_hash (Value.boolean b) = mix fnv_offset ((if b then 1 else 0) ∷ [])
    shard_hash (Value.int8 n) = mix fnv_offset (to_le 1 (to_bits 8 n))
    shard_hash (Value.int16 n) = mix fnv_offset (to_le 2 (to_bits 16 n))
    shard_hash (Value.int32 n) = mix fnv_offset (to_le 4 (to_bits 32 n))
    shard_hash (Value.int64 n) = mix fnv_offset (to_le 8 (to_bits 64 n))
    shard_hash (Value.uint8 n) = mix fnv_offset (to_le 1 n)
    shard_hash (Value.uint16 n) = mix fnv_offset (to_le 2 n)
    shard_hash (Value.uint32 n) = mix fnv_offset (to_le 4 n)
    shard_hash (Value.uint64 n) = mix fnv_offset (to_le 8 n)
    shard_hash (Value.float32 n) = mix fnv_offset (to_le 4 n)
    shard_hash (Value.float64 n) = mix fnv_offset (to_le 8 n)
    shard_hash (Value.decimal t) = mix fnv_offset t
    shard_hash (Value.string t) = mix fnv_offset t
    shard_hash (Value.bytes b) = mix fnv_offset b
    shard_hash (Value.uuid u) = mix fnv_offset (w.uuid_bytes u)
    shard_hash (Value.timestamp t) = mix fnv_offset (to_le 8 (to_bits 64 (w.micros t)))
    shard_hash (Value.date d) = mix fnv_offset (date_text d)
    shard_hash (Value.json j) = mix fnv_offset (F.json_text j)
    shard_hash (Value.array items) = mix_items fnv_offset items
    shard_hash Value.null = mix fnv_offset (110 ∷ 117 ∷ 108 ∷ 108 ∷ [])

    mix_items : ℕ → Values F → ℕ
    mix_items h nil = h
    mix_items h (cons v vs) = mix_items (mix h (to_le 8 (shard_hash v))) vs

  module _ (named : String → ℕ → String) (specs : Map String ShardSpec) where
    unfoldable pub shard_count : String → ℕ
    shard_count base = elim (Map.get specs base) [
      | none ↦ 1
      | some spec ↦ if leb spec.shards 1 then 1 else spec.shards
    ]

    unfoldable pub physical_table : String → ℕ → String
    unfolding shard_count
    physical_table base shard = if leb (shard_count base) 1 then base else named base shard

    -- The shard that `route_insert` takes; a column that is missing hashes as null.
    unfoldable pub chosen_shard : String → Map String (Value F) → ℕ
    unfolding shard_hash shard_count
    chosen_shard base values = elim (Map.get specs base) [
      | none ↦ 0
      | some spec ↦
          let v : Value F = elim (Map.get values spec.column) [ none ↦ Value.null | some v ↦ v ] in
          shard_hash v % shard_count base
    ]

    unfoldable pub route_insert : String → Map String (Value F) → String × ℕ
    unfolding physical_table chosen_shard
    route_insert base values =
        if leb (shard_count base) 1
        then (base, 0)
        else (physical_table base (chosen_shard base values), chosen_shard base values)

    unfoldable pub route_id : String → ℕ → String × ℕ
    unfolding physical_table
    route_id base i =
        if leb (shard_count base) 1
        then (base, i)
        else (physical_table base ((split_id i).0 % shard_count base), (split_id i).1)

    chosen_shard-lt :
        (base : String) (values : Map String (Value F))
        → chosen_shard base values < shard_count base
    unfolding chosen_shard shard_count
    chosen_shard-lt base values = elim (Option-cases (Map.get specs base)) [
      | inl absent ↦ ground (arith, absent)
      | inr (spec, present) ↦
          let v : Value F = elim (Map.get values spec.column) [ none ↦ Value.null | some v ↦ v ] in
          let some_shard : 0 < (if leb spec.shards 1 then 1 else spec.shards) = ground arith in
          let low = mod-lt (shard_hash v) some_shard in
          let count : shard_count base ≡ (if leb spec.shards 1 then 1 else spec.shards) =
            rw (present, shard_count) refl in
          rw (count, present, chosen_shard, count) low
    ]

    -- For a table of at most 256 shards and an id below 2^56, the global id that is made of the
    -- shard to which a row is inserted and of its id there leads back to the same shard's table and
    -- the same id.
    pub route_id-route_insert :
        (base : String) (values : Map String (Value F)) (i : ℕ)
        → shard_count base ≤ 256
        → i < local_mod
        → route_id base (compose_id (route_insert base values).1 i)
          ≡ ((route_insert base values).0, i)
    unfolding route_id route_insert
    route_id-route_insert base values i few fits = elim (Bool-cases (leb (shard_count base) 1)) [
      | inl single ↦
          let plain : compose_id 0 i ≡ i = unfold compose_id in omega arith in
          rw (single, route_id, route_insert, plain) refl
      | inr many ↦
          let shard = chosen_shard base values in
          let low = chosen_shard-lt base values in
          let parts = (split_id-compose_id shard i (omega arith) fits).0 in
          let stays : shard % shard_count base ≡ shard = mod-eq_of_lt low in
          rw (many, route_id, route_insert, parts, stays) refl
    ]
