-- ===== src/Types/Value/Transitive/Parts.antt =====
-- `Ord::cmp` of values by parts: it compares the variants, and within one variant the payloads.
use blitz_db.Prelude.{ℕ, suc, true, Option, none, some, List, [], ◌≡◌, refl, arith}
use blitz_db.Prelude.Order.{ℤ, pos, and_then, cmp_int, cmp_bytes}
use blitz_db.Prelude.Chain.{
  Chain, Chain-along, and_then-Chain, lt-Chain, gt-Chain_last, compare-Chain, cmp_int-Chain,
  cmp_bytes-Chain,
}
use Prim.Native.Nat.{compare, Ordering}
use blitz_db.Types.Value.{
  Foreign, Ordered, Value, Values, nil, boolean, int8, int16, int32, int64, uint8, uint16, uint32,
  uint64, float32, float64, decimal, string, bytes, uuid, timestamp, date, json, array, null,
  variant_index, cmp, cmp_zip, len,
}

-- The variant, null first.
abbrev rank : {F : Foreign} → Value F → ℕ
unfolding variant_index
rank null = 0
rank v = suc (variant_index v)

abbrev signed_part : {F : Foreign} → Value F → ℤ
signed_part (int8 a) = a
signed_part (int16 a) = a
signed_part (int32 a) = a
signed_part (int64 a) = a
signed_part _ = pos 0

abbrev unsigned_part : {F : Foreign} → Value F → ℕ
unsigned_part (boolean true) = 1
unsigned_part (uint8 a) = a
unsigned_part (uint16 a) = a
unsigned_part (uint32 a) = a
unsigned_part (uint64 a) = a
unsigned_part (float32 a) = a
unsigned_part (float64 a) = a
unsigned_part _ = 0

abbrev bytes_part : {F : Foreign} → Value F → List ℕ
bytes_part (decimal a) = a
bytes_part (string a) = a
bytes_part (bytes a) = a
bytes_part {F} (json a) = F.json_text a
bytes_part _ = []

abbrev uuid_part : {F : Foreign} → Value F → Option F.Uuid
uuid_part (uuid a) = some a
uuid_part _ = none

abbrev timestamp_part : {F : Foreign} → Value F → Option F.Timestamp
timestamp_part (timestamp a) = some a
timestamp_part _ = none

abbrev date_part : {F : Foreign} → Value F → Option F.Date
date_part (date a) = some a
date_part _ = none

abbrev pub items_part : {F : Foreign} → Value F → Values F
items_part (array a) = a
items_part _ = nil

abbrev cmp_option : {A : Type 0} → Ordered A → Option A → Option A → Ordering
cmp_option o (some a) (some b) = o.cmp a b
cmp_option o (some a) none = Ordering.gt
cmp_option o none (some b) = Ordering.lt
cmp_option o none none = Ordering.eq

cmp_option-Chain :
    {A : Type 0} (o : Ordered A) (a b c : Option A)
    → Chain (cmp_option o a b) (cmp_option o b c) (cmp_option o a c)
cmp_option-Chain o none none c = refl
cmp_option-Chain o none (some b) none = tt
cmp_option-Chain o none (some b) (some c) = lt-Chain (o.cmp b c)
cmp_option-Chain o (some a) none none = refl
cmp_option-Chain o (some a) none (some c) = tt
cmp_option-Chain o (some a) (some b) none = gt-Chain_last (o.cmp a b)
cmp_option-Chain o (some a) (some b) (some c) = o.cmp_chain a b c

-- The comparison of two arrays.
abbrev pub cmp_items : {F : Foreign} → Values F → Values F → Ordering
cmp_items vs ws = and_then (cmp_zip vs ws) (compare (len vs) (len ws))

-- All but the items of an array.
unfoldable cmp_flat : {F : Foreign} → Value F → Value F → Ordering
cmp_flat {F} v w = and_then (compare (rank v) (rank w)) (
    and_then (cmp_int (signed_part v) (signed_part w)) (
      and_then (compare (unsigned_part v) (unsigned_part w)) (
        and_then (cmp_bytes (bytes_part v) (bytes_part w)) (
          and_then (cmp_option F.uuids (uuid_part v) (uuid_part w)) (
            and_then (cmp_option F.timestamps (timestamp_part v) (timestamp_part w))
              (cmp_option F.dates (date_part v) (date_part w)))))))

cmp_flat-Chain :
    {F : Foreign} (v w x : Value F) → Chain (cmp_flat v w) (cmp_flat w x) (cmp_flat v x)
unfolding cmp_flat
cmp_flat-Chain {F} v w x = and_then-Chain _ _ _ _ _ _ (compare-Chain (rank v) (rank w) (rank x)) (
    and_then-Chain _ _ _ _ _ _ (cmp_int-Chain (signed_part v) (signed_part w) (signed_part x)) (
      and_then-Chain _ _ _ _ _ _
        (compare-Chain (unsigned_part v) (unsigned_part w) (unsigned_part x))
        (and_then-Chain _ _ _ _ _ _ (cmp_bytes-Chain (bytes_part v) (bytes_part w) (bytes_part x)) (
          and_then-Chain _ _ _ _ _ _
            (cmp_option-Chain F.uuids (uuid_part v) (uuid_part w) (uuid_part x))
            (and_then-Chain _ _ _ _ _ _
              (cmp_option-Chain F.timestamps (timestamp_part v) (timestamp_part w)
                (timestamp_part x))
              (cmp_option-Chain F.dates (date_part v) (date_part w) (date_part x)))))))

-- `cmp` by the parts.
cmp_parts :
    {F : Foreign} (v w : Value F)
    → cmp v w ≡ and_then (cmp_flat v w) (cmp_items (items_part v) (items_part w))
unfolding cmp cmp_zip len cmp_flat cmp_bytes
cmp_parts (boolean a) (boolean b) = ground arith
cmp_parts (int8 a) (int8 b) = ground arith
cmp_parts (int16 a) (int16 b) = ground arith
cmp_parts (int32 a) (int32 b) = ground arith
cmp_parts (int64 a) (int64 b) = ground arith
cmp_parts (uint8 a) (uint8 b) = ground arith
cmp_parts (uint16 a) (uint16 b) = ground arith
cmp_parts (uint32 a) (uint32 b) = ground arith
cmp_parts (uint64 a) (uint64 b) = ground arith
cmp_parts (float32 a) (float32 b) = ground arith
cmp_parts (float64 a) (float64 b) = ground arith
cmp_parts (decimal a) (decimal b) = ground arith
cmp_parts (string a) (string b) = ground arith
cmp_parts (bytes a) (bytes b) = ground arith
cmp_parts (uuid a) (uuid b) = ground arith
cmp_parts (timestamp a) (timestamp b) = ground arith
cmp_parts (date a) (date b) = ground arith
cmp_parts (json a) (json b) = ground arith
cmp_parts (array a) (array b) = refl
cmp_parts null null = refl
cmp_parts _ _ = refl

-- The order is transitive where that of the items is.
pub parts-Chain :
    {F : Foreign} (v w x : Value F)
    → Chain
        (cmp_items (items_part v) (items_part w))
        (cmp_items (items_part w) (items_part x))
        (cmp_items (items_part v) (items_part x))
    → Chain (cmp v w) (cmp w x) (cmp v x)
parts-Chain v w x h =
    Chain-along (cmp_parts v w) (cmp_parts w x) (cmp_parts v x)
      (and_then-Chain _ _ _ _ _ _ (cmp_flat-Chain v w x) h)
