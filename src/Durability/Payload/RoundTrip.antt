-- ===== src/Durability/Payload/RoundTrip.antt =====
-- What a row's values are after a payload was written and read back.
use blitz_db.Prelude.{
  ℕ, ◌^◌, ◌≤◌, String, true, Option, none, some, [], ◌∷◌, ltb, str_eq, if◌then◌else◌, ◌≡◌, refl,
  arith, Bool-cases, inl, inr, ap,
}
use mathlib.Core.Option
use blitz_db.Prelude.Map
use blitz_db.Prelude.Map.{Map, string_key}
use blitz_db.Prelude.Order.{pos}
use blitz_db.Types.Value.{Foreign, Value}
use blitz_db.Durability.Payload.{
  Serde, Shape, object, uint, float, array, is_finite, read_back, byte_items, items_to_json,
  value_to_json, json_to_value, shape_to_value, map_values, values_to_json_bytes, object_values,
  payload_values,
}

-- The `u64` that JSON gives back: an `i64` if it holds the number.
abbrev pub recovered_uint : {F : Foreign} → ℕ → Value F
recovered_uint n = if ltb n (2 ^ 63) then Value.int64 (pos n) else Value.uint64 n

abbrev pub recovered_float : {F : Foreign} → ℕ → Value F
recovered_float b = if is_finite b then Value.float64 b else Value.null

-- Values that come back as they are.
abbrev pub IsPortable : {F : Foreign} → Value F → Type 0
IsPortable Value.null = Unit
IsPortable (Value.boolean b) = Unit
IsPortable (Value.int64 n) = Unit
IsPortable (Value.uint64 n) = 2 ^ 63 ≤ n
IsPortable (Value.float64 b) = is_finite b ≡ true
IsPortable (Value.string t) = Unit
IsPortable _ = ⊥

get-map_values {ℓ κ} :
    {A : Type ℓ} {B : Type κ} (f : A → B) (m : Map String A) (k : String)
    → Map.get (map_values f m) k ≡ Option.map f (Map.get m k)
unfolding map_values Map.get
get-map_values f [] k = refl
get-map_values f ((i, v) ∷ m) k = elim (Bool-cases (str_eq i k)) [
  | inl hit ↦ rw hit refl
  | inr miss ↦ rw miss (get-map_values f m k)
]

module _ {F : Foreign} (s : Serde F) where
  -- What a value is after a round trip through JSON.
  unfoldable pub recovered : Value F → Value F
  recovered Value.null = Value.null
  recovered (Value.boolean b) = Value.boolean b
  recovered (Value.int8 n) = Value.int64 n
  recovered (Value.int16 n) = Value.int64 n
  recovered (Value.int32 n) = Value.int64 n
  recovered (Value.int64 n) = Value.int64 n
  recovered (Value.uint8 n) = recovered_uint n
  recovered (Value.uint16 n) = recovered_uint n
  recovered (Value.uint32 n) = recovered_uint n
  recovered (Value.uint64 n) = recovered_uint n
  recovered (Value.float32 b) = recovered_float (s.widen b)
  recovered (Value.float64 b) = recovered_float b
  recovered (Value.decimal t) = Value.string t
  recovered (Value.string t) = Value.string t
  recovered (Value.bytes b) = Value.json (s.of_shape (array (byte_items s b)))
  recovered (Value.uuid u) = Value.string (s.uuid_text u)
  recovered (Value.timestamp t) = Value.string (s.timestamp_text t)
  recovered (Value.date d) = Value.string (s.date_text d)
  recovered (Value.json j) = json_to_value s j
  recovered (Value.array items) = Value.json (s.of_shape (array (items_to_json s items)))

  pub recovered-IsPortable : (v : Value F) → IsPortable v → recovered v ≡ v
  unfolding recovered
  recovered-IsPortable v h = ground arith

  written_uint : (n : ℕ) (j : F.Json) → shape_to_value s j (read_back (uint n)) ≡ recovered_uint n
  unfolding shape_to_value
  written_uint n j = ground arith

  written_float :
      (b : ℕ) (j : F.Json) → shape_to_value s j (read_back (float b)) ≡ recovered_float b
  unfolding shape_to_value
  written_float b j = ground arith

  pub json_to_value-value_to_json :
      (v : Value F) → json_to_value s (value_to_json s v) ≡ recovered v
  unfolding json_to_value value_to_json recovered shape_to_value
  json_to_value-value_to_json Value.null = rw (s.flat Shape.null tt) refl
  json_to_value-value_to_json (Value.boolean b) = rw (s.flat (Shape.boolean b) tt) refl
  json_to_value-value_to_json (Value.int8 n) = rw (s.flat (Shape.int n) tt) refl
  json_to_value-value_to_json (Value.int16 n) = rw (s.flat (Shape.int n) tt) refl
  json_to_value-value_to_json (Value.int32 n) = rw (s.flat (Shape.int n) tt) refl
  json_to_value-value_to_json (Value.int64 n) = rw (s.flat (Shape.int n) tt) refl
  json_to_value-value_to_json (Value.uint8 n) = rw (s.flat (uint n) tt) (written_uint n _)
  json_to_value-value_to_json (Value.uint16 n) = rw (s.flat (uint n) tt) (written_uint n _)
  json_to_value-value_to_json (Value.uint32 n) = rw (s.flat (uint n) tt) (written_uint n _)
  json_to_value-value_to_json (Value.uint64 n) = rw (s.flat (uint n) tt) (written_uint n _)
  json_to_value-value_to_json (Value.float32 b) =
      rw (s.flat (float (s.widen b)) tt) (written_float (s.widen b) _)
  json_to_value-value_to_json (Value.float64 b) = rw (s.flat (float b) tt) (written_float b _)
  json_to_value-value_to_json (Value.decimal t) = rw (s.flat (Shape.string t) tt) refl
  json_to_value-value_to_json (Value.string t) = rw (s.flat (Shape.string t) tt) refl
  json_to_value-value_to_json (Value.bytes b) = rw (s.flat (array (byte_items s b)) tt) refl
  json_to_value-value_to_json (Value.uuid u) = rw (s.flat (Shape.string (s.uuid_text u)) tt) refl
  json_to_value-value_to_json (Value.timestamp t) =
      rw (s.flat (Shape.string (s.timestamp_text t)) tt) refl
  json_to_value-value_to_json (Value.date d) = rw (s.flat (Shape.string (s.date_text d)) tt) refl
  json_to_value-value_to_json (Value.json j) = refl
  json_to_value-value_to_json (Value.array items) =
      rw (s.flat (array (items_to_json s items)) tt) refl

  -- The text of these values parses back to the JSON value it was printed from.
  abbrev pub Survives : Map String (Value F) → Type 0
  Survives values =
      s.from_slice (values_to_json_bytes s values)
      ≡ some (s.of_shape (object (map_values (value_to_json s) values)))

  -- If the text of a row's values parses back to the JSON it was printed from, then the payload
  -- that is read back has under each column what `recovered` makes of the value: an integer is an
  -- `i64`, or a `u64` where only that holds it; a 32-bit float is the 64-bit float that it widens
  -- to, and a float that is not finite is null; decimals, uuids, timestamps and dates are their
  -- texts; bytes and arrays are JSON; a JSON value is what `json_to_value` makes of it, which turns
  -- a JSON null, boolean, number or string into a plain value; and nulls, booleans, finite 64-bit
  -- floats and strings are as they were.
  pub payload_values-values_to_json_bytes :
      (values : Map String (Value F)) (k : String)
      → Survives values
      → Map.get (payload_values s (values_to_json_bytes s values)) k
        ≡ Option.map recovered (Map.get values k)
  unfolding payload_values object_values
  payload_values-values_to_json_bytes values k parses =
      let (n, read, same) = s.fields (map_values (value_to_json s) values) in
      rw
        (
          parses,
          object_values,
          read,
          get-map_values (json_to_value s) n k,
          same k,
          get-map_values (value_to_json s) values k,
        )
        (mapped (Map.get values k))
    where
      mapped :
          (o : Option (Value F))
          → Option.map (json_to_value s) (Option.map (value_to_json s) o) ≡ Option.map recovered o
      mapped none = refl
      mapped (some v) = ap some (json_to_value-value_to_json v)
