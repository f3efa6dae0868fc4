-- ===== src/Durability/Payload.antt =====
-- crates/blitz-server/src/durability.rs: the payloads of the log, a row's values as a JSON object.
--
-- serde_json is the parameter `Serde`: a `serde_json::Value` is read by its variants (`shape`) and
-- built from them (`of_shape`, which is also `json!`). The printers of `Uuid`, `DateTime` and
-- `NaiveDate` and the widening of an `f32` are parameters too.
pub mod RoundTrip
use blitz_db.Prelude.{
  ℕ, zero, suc, ◌-◌, ◌/◌, ◌%◌, ◌^◌, String, Bool, true, false, not, Option, none, some, List, [],
  ◌∷◌, map, ltb, ◌==◌, if◌then◌else◌, ◌≡◌,
}
use blitz_db.Prelude.Map
use blitz_db.Prelude.Map.{Map, string_key}
use blitz_db.Prelude.Order.{ℤ, pos}
use blitz_db.Types.Value.{Foreign, Value, Values, nil, cons}

-- A `serde_json::Value` taken apart. A number is what the first of `as_i64`, `as_u64` and `as_f64`
-- that answers gives, or `odd` when none does.
pub data Shape (F : Foreign) : Type 0 where
  null odd : Shape F
  boolean : Bool → Shape F
  int : ℤ → Shape F
  uint float : ℕ → Shape F
  string : List ℕ → Shape F
  array : List F.Json → Shape F
  object : Map String F.Json → Shape F

-- An `f64` that JSON can write: the exponent is not all ones.
abbrev pub is_finite : ℕ → Bool
is_finite b = not (b / 2 ^ 52 % 2 ^ 11 == 2 ^ 11 - 1)

-- How serde_json reads back what it has built: a `u64` that an `i64` holds answers `as_i64`, and a
-- float that is not finite is null. Keys of an object come back in an order of its own.
abbrev pub read_back : {F : Foreign} → Shape F → Shape F
read_back (uint n) = if ltb n (2 ^ 63) then int (pos n) else uint n
read_back (float b) = if is_finite b then float b else null
read_back s = s

abbrev pub IsFlat : {F : Foreign} → Shape F → Type 0
IsFlat (object m) = ⊥
IsFlat odd = ⊥
IsFlat s = Unit {0}

pub record Serde (F : Foreign) : Type 0 where
  pub shape : F.Json → Shape F
  pub of_shape : Shape F → F.Json
  pub to_vec : F.Json → List ℕ
  pub from_slice : List ℕ → Option F.Json
  pub uuid_text : F.Uuid → List ℕ
  pub timestamp_text : F.Timestamp → List ℕ
  pub date_text : F.Date → List ℕ
  pub widen : ℕ → ℕ
  pub as_bytes : String → List ℕ
  pub text : List ℕ → String
  pub text-as_bytes : (s : String) → text (as_bytes s) ≡ s
  pub flat : (s : Shape F) → IsFlat s → shape (of_shape s) ≡ read_back s
  pub fields :
      (m : Map String F.Json)
      → (n : Map String F.Json) × (shape (of_shape (object m)) ≡ object n)
        × ((k : String) → Map.get n k ≡ Map.get m k)

unfoldable pub map_values {ℓ κ} : {A : Type ℓ} {B : Type κ} → (A → B) → Map String A → Map String B
map_values f m = map (λ entry. (entry.0, f entry.1)) m

module _ {F : Foreign} (s : Serde F) where
  abbrev pub byte_items : List ℕ → List F.Json
  byte_items [] = []
  byte_items (b ∷ bs) = s.of_shape (uint b) ∷ byte_items bs

  unfoldable mutual
    pub value_to_json : Value F → F.Json
    value_to_json Value.null = s.of_shape null
    value_to_json (Value.boolean b) = s.of_shape (boolean b)
    value_to_json (Value.int8 n) = s.of_shape (int n)
    value_to_json (Value.int16 n) = s.of_shape (int n)
    value_to_json (Value.int32 n) = s.of_shape (int n)
    value_to_json (Value.int64 n) = s.of_shape (int n)
    value_to_json (Value.uint8 n) = s.of_shape (uint n)
    value_to_json (Value.uint16 n) = s.of_shape (uint n)
    value_to_json (Value.uint32 n) = s.of_shape (uint n)
    value_to_json (Value.uint64 n) = s.of_shape (uint n)
    value_to_json (Value.float32 n) = s.of_shape (float (s.widen n))
    value_to_json (Value.float64 n) = s.of_shape (float n)
    value_to_json (Value.decimal t) = s.of_shape (string t)
    value_to_json (Value.string t) = s.of_shape (string t)
    value_to_json (Value.bytes b) = s.of_shape (array (byte_items b))
    value_to_json (Value.uuid u) = s.of_shape (string (s.uuid_text u))
    value_to_json (Value.timestamp t) = s.of_shape (string (s.timestamp_text t))
    value_to_json (Value.date d) = s.of_shape (string (s.date_text d))
    value_to_json (Value.json j) = j
    value_to_json (Value.array items) = s.of_shape (array (items_to_json items))

    items_to_json : Values F → List F.Json
    items_to_json nil = []
    items_to_json (cons v vs) = value_to_json v ∷ items_to_json vs

  -- The match of `json_to_value`; the JSON value itself is kept for an object and copied for an
  -- array.
  unfoldable pub shape_to_value : F.Json → Shape F → Value F
  shape_to_value j null = Value.null
  shape_to_value j odd = Value.null
  shape_to_value j (boolean b) = Value.boolean b
  shape_to_value j (int n) = Value.int64 n
  shape_to_value j (uint n) = Value.uint64 n
  shape_to_value j (float n) = Value.float64 n
  shape_to_value j (string t) = Value.string t
  shape_to_value j (array items) = Value.json (s.of_shape (array items))
  shape_to_value j (object m) = Value.json j

  unfoldable pub json_to_value : F.Json → Value F
  unfolding shape_to_value
  json_to_value j = shape_to_value j (s.shape j)

  unfoldable pub values_to_json_bytes : Map String (Value F) → List ℕ
  values_to_json_bytes values = s.to_vec (s.of_shape (object (map_values value_to_json values)))

  -- `as_object().cloned()`, then every field through `json_to_value`.
  unfoldable pub object_values : Option F.Json → Map String (Value F)
  unfolding json_to_value map_values
  object_values none = []
  object_values (some j) = elim (s.shape j) [ object m ↦ map_values json_to_value m | _ ↦ [] ]

  -- The payload of a replayed entry: what does not parse as an object is an empty row.
  unfoldable pub payload_values : List ℕ → Map String (Value F)
  unfolding object_values
  payload_values contents = object_values (s.from_slice contents)
