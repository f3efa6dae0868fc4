-- ===== src/Types/Value/Convert.antt =====
-- crates/blitz-types/src/value.rs: the accessors; and the type check of schema.rs.
use blitz_db.Prelude.{ℕ, String, Bool, true, false, Option, none, some, List}
use blitz_db.Prelude.Order.{ℤ, pos, negsuc}
use blitz_db.Types.Interface.{ColumnType}
use blitz_db.Types.Value.{
  Foreign, Value, boolean, int8, int16, int32, int64, uint8, uint16, uint32, uint64, float32,
  float64, decimal, string, bytes, uuid, timestamp, date, json, array, null,
}

-- `Some(*v as u64)` under the guard `*v >= 0`.
abbrev pub unsigned : ℤ → Option ℕ
unsigned (pos n) = some n
unsigned (negsuc n) = none

module _ {F : Foreign} where
  unfoldable pub is_null : Value F → Bool
  is_null null = true
  is_null _ = false

  pub type_name : Value F → String
  type_name (boolean a) = "boolean"
  type_name (int8 a) = "int8"
  type_name (int16 a) = "int16"
  type_name (int32 a) = "int32"
  type_name (int64 a) = "int64"
  type_name (uint8 a) = "uint8"
  type_name (uint16 a) = "uint16"
  type_name (uint32 a) = "uint32"
  type_name (uint64 a) = "uint64"
  type_name (float32 a) = "float32"
  type_name (float64 a) = "float64"
  type_name (decimal a) = "decimal"
  type_name (string a) = "string"
  type_name (bytes a) = "bytes"
  type_name (uuid a) = "uuid"
  type_name (timestamp a) = "timestamp"
  type_name (date a) = "date"
  type_name (json a) = "json"
  type_name (array a) = "array"
  type_name null = "null"

  -- Every payload fits `i64`; a `u64` value is refused, whatever its size.
  unfoldable pub as_i64 : Value F → Option ℤ
  as_i64 (int8 v) = some v
  as_i64 (int16 v) = some v
  as_i64 (int32 v) = some v
  as_i64 (int64 v) = some v
  as_i64 (uint8 v) = some (pos v)
  as_i64 (uint16 v) = some (pos v)
  as_i64 (uint32 v) = some (pos v)
  as_i64 _ = none

  unfoldable pub as_u64 : Value F → Option ℕ
  as_u64 (uint8 v) = some v
  as_u64 (uint16 v) = some v
  as_u64 (uint32 v) = some v
  as_u64 (uint64 v) = some v
  as_u64 (int8 v) = unsigned v
  as_u64 (int16 v) = unsigned v
  as_u64 (int32 v) = unsigned v
  as_u64 (int64 v) = unsigned v
  as_u64 _ = none

  pub as_str : Value F → Option (List ℕ)
  as_str (string s) = some s
  as_str _ = none

  pub as_bool : Value F → Option Bool
  as_bool (boolean b) = some b
  as_bool _ = none

  unfoldable pub value_matches_type : Value F → ColumnType → Bool
  value_matches_type (boolean a) ColumnType.boolean = true
  value_matches_type (int8 a) ColumnType.int8 = true
  value_matches_type (int16 a) ColumnType.int16 = true
  value_matches_type (int32 a) ColumnType.int32 = true
  value_matches_type (int64 a) ColumnType.int64 = true
  value_matches_type (uint8 a) ColumnType.uint8 = true
  value_matches_type (uint16 a) ColumnType.uint16 = true
  value_matches_type (uint32 a) ColumnType.uint32 = true
  value_matches_type (uint64 a) ColumnType.uint64 = true
  value_matches_type (float32 a) ColumnType.float32 = true
  value_matches_type (float64 a) ColumnType.float64 = true
  value_matches_type (decimal a) ColumnType.decimal = true
  value_matches_type (string a) ColumnType.string = true
  value_matches_type (bytes a) ColumnType.bytes = true
  value_matches_type (uuid a) ColumnType.uuid = true
  value_matches_type (timestamp a) ColumnType.timestamp = true
  value_matches_type (date a) ColumnType.date = true
  value_matches_type (json a) ColumnType.json = true
  value_matches_type (array a) ColumnType.array = true
  value_matches_type _ _ = false
