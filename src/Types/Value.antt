-- ===== src/Types/Value.antt =====
-- crates/blitz-types/src/value.rs: the values of cells, their `==`, their hash and their order.
--
-- Signed integers are `ℤ`, a float is its bits, a text is its UTF-8 bytes. What comes from other
-- crates (`Uuid`, `DateTime<Utc>`, `NaiveDate`, `serde_json::Value`) is a parameter, `Foreign`.
pub mod Laws
pub mod Transitive
pub mod Convert
use blitz_db.Prelude.{
  ℕ, zero, suc, ◌+◌, ◌-◌, ◌/◌, ◌%◌, ◌^◌, Bool, true, false, not, ◌&&◌, ◌||◌, Option, none, some,
  List, ◌==◌, ◌≡◌,
}
use blitz_db.Prelude.Order.{
  ℤ, pos, negsuc, reverse, and_then, cmp_int, eq_int, cmp_bool, eq_bool, cmp_bytes, eq_bytes,
}
use blitz_db.Prelude.Chain.{Chain}
use Prim.Native.Nat.{compare, Ordering}
use blitz_db.Types.Interface.{ColumnType}

-- A type of another crate with its `Ord` and `Eq`.
pub record Ordered (A : Type 0) : Type 0 where
  pub cmp : A → A → Ordering
  pub eq : A → A → Bool
  pub eq_sound : (a b : A) → eq a b ≡ true → a ≡ b
  pub cmp_flip : (a b : A) → cmp b a ≡ reverse (cmp a b)
  pub cmp_chain : (a b c : A) → Chain (cmp a b) (cmp b c) (cmp a c)

-- JSON values have `==` and print; two that are equal and print alike are the same.
pub record Foreign : Type 1 where
  pub Uuid : Type 0
  pub Timestamp : Type 0
  pub Date : Type 0
  pub Json : Type 0
  pub uuids : Ordered Uuid
  pub timestamps : Ordered Timestamp
  pub dates : Ordered Date
  pub json_eq : Json → Json → Bool
  pub json_text : Json → List ℕ
  pub json_sound : (a b : Json) → json_eq a b ≡ true → json_text a ≡ json_text b → a ≡ b

mutual
  pub data Value (F : Foreign) : Type 0 where
    boolean : Bool → Value F
    int8 int16 int32 int64 : ℤ → Value F
    uint8 uint16 uint32 uint64 : ℕ → Value F
    float32 float64 : ℕ → Value F
    decimal string bytes : List ℕ → Value F
    uuid : F.Uuid → Value F
    timestamp : F.Timestamp → Value F
    date : F.Date → Value F
    json : F.Json → Value F
    array : Values F → Value F
    null : Value F

  pub data Values (F : Foreign) : Type 0 where
    nil : Values F
    cons : Value F → Values F → Values F

-- IEEE equality on the bits of a float with `e` bits of exponent and `m` of mantissa: a NaN equals
-- nothing, and the two zeros are equal.
unfoldable pub is_nan : ℕ → ℕ → ℕ → Bool
is_nan e m b = b / 2 ^ m % 2 ^ e == 2 ^ e - 1 && not (b % 2 ^ m == 0)

unfoldable pub is_zero : ℕ → ℕ → ℕ → Bool
is_zero e m b = b % 2 ^ (e + m) == 0

unfoldable pub eq_float : ℕ → ℕ → ℕ → ℕ → Bool
unfolding is_nan is_zero
eq_float e m a b =
    not (is_nan e m a) && not (is_nan e m b) && (a == b || is_zero e m a && is_zero e m b)

unfoldable pub len : {F : Foreign} → Values F → ℕ
len nil = 0
len (cons v vs) = suc (len vs)

-- `self_idx` and `other_idx`
unfoldable pub variant_index : {F : Foreign} → Value F → ℕ
variant_index (boolean a) = 0
variant_index (int8 a) = 1
variant_index (int16 a) = 2
variant_index (int32 a) = 3
variant_index (int64 a) = 4
variant_index (uint8 a) = 5
variant_index (uint16 a) = 6
variant_index (uint32 a) = 7
variant_index (uint64 a) = 8
variant_index (float32 a) = 9
variant_index (float64 a) = 10
variant_index (decimal a) = 11
variant_index (string a) = 12
variant_index (bytes a) = 13
variant_index (uuid a) = 14
variant_index (timestamp a) = 15
variant_index (date a) = 16
variant_index (json a) = 17
variant_index (array a) = 18
variant_index null = 19

-- The derived `PartialEq`.
unfoldable mutual
  unfolding eq_float

  pub value_eq : {F : Foreign} → Value F → Value F → Bool
  value_eq {F} (boolean a) (boolean b) = eq_bool a b
  value_eq {F} (int8 a) (int8 b) = eq_int a b
  value_eq {F} (int16 a) (int16 b) = eq_int a b
  value_eq {F} (int32 a) (int32 b) = eq_int a b
  value_eq {F} (int64 a) (int64 b) = eq_int a b
  value_eq {F} (uint8 a) (uint8 b) = a == b
  value_eq {F} (uint16 a) (uint16 b) = a == b
  value_eq {F} (uint32 a) (uint32 b) = a == b
  value_eq {F} (uint64 a) (uint64 b) = a == b
  value_eq {F} (float32 a) (float32 b) = eq_float 8 23 a b
  value_eq {F} (float64 a) (float64 b) = eq_float 11 52 a b
  value_eq {F} (decimal a) (decimal b) = eq_bytes a b
  value_eq {F} (string a) (string b) = eq_bytes a b
  value_eq {F} (bytes a) (bytes b) = eq_bytes a b
  value_eq {F} (uuid a) (uuid b) = F.uuids.eq a b
  value_eq {F} (timestamp a) (timestamp b) = F.timestamps.eq a b
  value_eq {F} (date a) (date b) = F.dates.eq a b
  value_eq {F} (json a) (json b) = F.json_eq a b
  value_eq {F} (array a) (array b) = value_eq_items a b
  value_eq {F} null null = true
  value_eq _ _ = false

  value_eq_items : {F : Foreign} → Values F → Values F → Bool
  value_eq_items nil nil = true
  value_eq_items (cons v vs) (cons w ws) = value_eq v w && value_eq_items vs ws
  value_eq_items _ _ = false

-- Whether `Hash` feeds the same input for both: the bits of a float, the text of a JSON value.
unfoldable mutual
  pub same_hash : {F : Foreign} → Value F → Value F → Bool
  same_hash {F} (boolean a) (boolean b) = eq_bool a b
  same_hash {F} (int8 a) (int8 b) = eq_int a b
  same_hash {F} (int16 a) (int16 b) = eq_int a b
  same_hash {F} (int32 a) (int32 b) = eq_int a b
  same_hash {F} (int64 a) (int64 b) = eq_int a b
  same_hash {F} (uint8 a) (uint8 b) = a == b
  same_hash {F} (uint16 a) (uint16 b) = a == b
  same_hash {F} (uint32 a) (uint32 b) = a == b
  same_hash {F} (uint64 a) (uint64 b) = a == b
  same_hash {F} (float32 a) (float32 b) = a == b
  same_hash {F} (float64 a) (float64 b) = a == b
  same_hash {F} (decimal a) (decimal b) = eq_bytes a b
  same_hash {F} (string a) (string b) = eq_bytes a b
  same_hash {F} (bytes a) (bytes b) = eq_bytes a b
  same_hash {F} (uuid a) (uuid b) = F.uuids.eq a b
  same_hash {F} (timestamp a) (timestamp b) = F.timestamps.eq a b
  same_hash {F} (date a) (date b) = F.dates.eq a b
  same_hash {F} (json a) (json b) = eq_bytes (F.json_text a) (F.json_text b)
  same_hash {F} (array a) (array b) = same_hash_items a b
  same_hash {F} null null = true
  same_hash _ _ = false

  same_hash_items : {F : Foreign} → Values F → Values F → Bool
  same_hash_items nil nil = true
  same_hash_items (cons v vs) (cons w ws) = same_hash v w && same_hash_items vs ws
  same_hash_items _ _ = false

-- A `HashMap` keyed by values takes a stored key when the hash inputs agree and `==` holds.
unfoldable pub probe : {F : Foreign} → Value F → Value F → Bool
unfolding same_hash value_eq
probe v w = same_hash v w && value_eq v w

-- `Ord::cmp`: null first, then within a variant by its payload, then by the index of the variant.
-- `cmp_zip` is the loop over the zipped arrays.
unfoldable mutual
  unfolding variant_index len cmp_bytes

  pub cmp : {F : Foreign} → Value F → Value F → Ordering
  cmp null null = Ordering.eq
  cmp null _ = Ordering.lt
  cmp _ null = Ordering.gt
  cmp {F} (boolean a) (boolean b) = cmp_bool a b
  cmp {F} (int8 a) (int8 b) = cmp_int a b
  cmp {F} (int16 a) (int16 b) = cmp_int a b
  cmp {F} (int32 a) (int32 b) = cmp_int a b
  cmp {F} (int64 a) (int64 b) = cmp_int a b
  cmp {F} (uint8 a) (uint8 b) = compare a b
  cmp {F} (uint16 a) (uint16 b) = compare a b
  cmp {F} (uint32 a) (uint32 b) = compare a b
  cmp {F} (uint64 a) (uint64 b) = compare a b
  cmp {F} (float32 a) (float32 b) = compare a b
  cmp {F} (float64 a) (float64 b) = compare a b
  cmp {F} (decimal a) (decimal b) = cmp_bytes a b
  cmp {F} (string a) (string b) = cmp_bytes a b
  cmp {F} (bytes a) (bytes b) = cmp_bytes a b
  cmp {F} (uuid a) (uuid b) = F.uuids.cmp a b
  cmp {F} (timestamp a) (timestamp b) = F.timestamps.cmp a b
  cmp {F} (date a) (date b) = F.dates.cmp a b
  cmp {F} (json a) (json b) = cmp_bytes (F.json_text a) (F.json_text b)
  cmp {F} (array a) (array b) = and_then (cmp_zip a b) (compare (len a) (len b))
  cmp v w = compare (variant_index v) (variant_index w)

  pub cmp_zip : {F : Foreign} → Values F → Values F → Ordering
  cmp_zip nil ws = Ordering.eq
  cmp_zip (cons v vs) nil = Ordering.eq
  cmp_zip (cons v vs) (cons w ws) = and_then (cmp v w) (cmp_zip vs ws)
