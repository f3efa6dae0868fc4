-- ===== src/Protocol/Decoder.antt =====
-- crates/blitz-protocol/src/codec.rs: `Reader`, over the bytes that are left.
--
-- `Reader::value` calls itself for the items of an array. Its fuel is the number of bytes left: with
-- none left the source reports a truncated payload, and so does the model without fuel.
use blitz_db.Prelude.{
  ℕ, zero, suc, String, not, ◌&&◌, Option, none, some, List, [], ◌∷◌, length, ok, err,
  if◌then◌else◌, ltb, ◌==◌,
}
use blitz_db.Prelude.Bytes.{from_le}
use blitz_db.Prelude.Order.{eq_bytes}
use blitz_db.Prelude.Map
use blitz_db.Prelude.Map.{Map, string_key}
use blitz_db.Prelude.Reader
use blitz_db.Prelude.Reader.{◌>>=◌, pure, fail, take_bytes, repeat}
use blitz_db.Types.Value.{
  Foreign, Value, Values, nil, cons, boolean, int8, int16, int32, int64, uint8, uint16, uint32,
  uint64, float32, float64, decimal, string, bytes, uuid, timestamp, date, json, array, null,
}
use blitz_db.Protocol.Message.{from_tag, Request, RowView, Response}
use blitz_db.Protocol.Wire.{Wire, from_bits, JsonView, JsonItems, JsonFields}

-- crates/blitz-protocol/src/error.rs; the texts are left out.
pub data ProtocolError : Type 0 where
  decode_error encode_error internal : ProtocolError
  unsupported_version : ℕ → ProtocolError

abbrev pub Decode : Type 0 → Type 0
Decode A = Reader.Reader ProtocolError A

unfoldable pub get_bytes : ℕ → Decode (List ℕ)
unfolding take_bytes
get_bytes n = take_bytes decode_error n

-- `u8`, `u16`, `u32`, `u64` and the bits of the signed and the floating readers.
unfoldable pub get_le : ℕ → Decode ℕ
unfolding get_bytes
get_le n = get_bytes n >>= λ b. pure (from_le b)

-- `ok_or_else`: the value, or a decode error.
unfoldable pub require : {A : Type 0} → Option A → Decode A
require none = fail decode_error
require (some a) = pure a

-- A count with the bound that the source checks first.
unfoldable pub get_count : ℕ → Decode ℕ
unfolding get_le
get_count limit = get_le 4 >>= λ n. if ltb limit n then fail decode_error else pure n

unfoldable pub of_list : {F : Foreign} → List (Value F) → Values F
of_list [] = nil
of_list (v ∷ vs) = cons v (of_list vs)

unfoldable pub json_items : List JsonView → JsonItems
json_items [] = JsonItems.nil
json_items (j ∷ js) = JsonItems.cons j (json_items js)

-- `map.insert(key, value)` of a `serde_json::Map`.
unfoldable pub json_insert : JsonFields → List ℕ → JsonView → JsonFields
json_insert JsonFields.end k j = JsonFields.field k j JsonFields.end
json_insert (JsonFields.field i v fs) k j =
    if eq_bytes i k then JsonFields.field i j fs else JsonFields.field i v (json_insert fs k j)

unfoldable pub json_fields : JsonFields → List (List ℕ × JsonView) → JsonFields
unfolding json_insert
json_fields out [] = out
json_fields out ((k, j) ∷ kvs) = json_fields (json_insert out k j) kvs

-- `out.insert(key, value)` for each pair read.
unfoldable pub insert_all : {V : Type 0} → Map String V → List (String × V) → Map String V
insert_all out [] = out
insert_all out ((k, v) ∷ kvs) = insert_all (Map.insert out k v) kvs

unfoldable pub get_option : {A : Type 0} → Decode A → Decode (Option A)
unfolding get_le
get_option p = get_le 1 >>= λ t.
    if t == 0 then pure none else if t == 1 then (p >>= λ a. pure (some a)) else fail decode_error

module _ {F : Foreign} (c : Wire F) where
  -- The bytes of a text, which must be UTF-8; and the text as a name.
  unfoldable pub get_text : Decode (List ℕ)
  unfolding get_le get_bytes require
  get_text = do n ← get_le 4; bs ← get_bytes n; name ← require (c.from_utf8 bs); pure bs

  unfoldable pub get_name : Decode String
  unfolding get_le get_bytes require
  get_name = do n ← get_le 4; bs ← get_bytes n; require (c.from_utf8 bs)

  -- A match arm of `Reader::json`, `self.json` being `inner`.
  unfoldable pub json_body : Decode JsonView → ℕ → Decode JsonView
  unfolding get_le get_text get_count repeat json_fields json_items
  json_body inner t =
      if t == 0x00
      then pure JsonView.null
      else if t == 0x01
      then (get_le 1 >>= λ b. pure (JsonView.boolean (not (b == 0))))
      else if t == 0x05
      then (get_le 8 >>= λ n. pure (JsonView.int (from_bits 64 n)))
      else if t == 0x09
      then (get_le 8 >>= λ n. pure (JsonView.uint n))
      else if t == 0x0b
      then (get_le 8 >>= λ n. pure (JsonView.float n))
      else if t == 0x0d
      then (get_text >>= λ s. pure (JsonView.string s))
      else if t == 0x12
      then (get_count 4096 >>= λ n.
          repeat n (get_text >>= λ k. inner >>= λ j. pure (k, j)) >>= λ kvs.
          pure (JsonView.object (json_fields JsonFields.end kvs)))
      else if t == 0x13
      then (get_count 65536 >>= λ n. repeat n inner >>= λ js. pure (JsonView.array (json_items js)))
      else fail decode_error

  unfoldable pub get_json : ℕ → Decode JsonView
  unfolding get_le json_body
  get_json zero = fail decode_error
  get_json (suc fuel) = get_le 1 >>= λ t. json_body (get_json fuel) t

  -- The arms of `Reader::value` that read no value inside.
  unfoldable pub scalar : ℕ → Decode (Value F)
  unfolding get_le get_text get_bytes require
  scalar t =
      if t == 0x00
      then pure null
      else if t == 0x01
      then (get_le 1 >>= λ b. pure (boolean (not (b == 0))))
      else if t == 0x02
      then (get_le 1 >>= λ n. pure (int8 (from_bits 8 n)))
      else if t == 0x03
      then (get_le 2 >>= λ n. pure (int16 (from_bits 16 n)))
      else if t == 0x04
      then (get_le 4 >>= λ n. pure (int32 (from_bits 32 n)))
      else if t == 0x05
      then (get_le 8 >>= λ n. pure (int64 (from_bits 64 n)))
      else if t == 0x06
      then (get_le 1 >>= λ n. pure (uint8 n))
      else if t == 0x07
      then (get_le 2 >>= λ n. pure (uint16 n))
      else if t == 0x08
      then (get_le 4 >>= λ n. pure (uint32 n))
      else if t == 0x09
      then (get_le 8 >>= λ n. pure (uint64 n))
      else if t == 0x0a
      then (get_le 4 >>= λ n. pure (float32 n))
      else if t == 0x0b
      then (get_le 8 >>= λ n. pure (float64 n))
      else if t == 0x0c
      then (get_text >>= λ s. pure (decimal s))
      else if t == 0x0d
      then (get_text >>= λ s. pure (string s))
      else if t == 0x0e
      then (get_le 4 >>= λ n. get_bytes n >>= λ b. pure (bytes b))
      else if t == 0x0f
      then (get_bytes 16 >>= λ b. require (c.uuid_from_slice b) >>= λ u. pure (uuid u))
      else if t == 0x10
      then (get_le 8 >>= λ n. require (c.from_micros (from_bits 64 n)) >>= λ u. pure (timestamp u))
      else if t == 0x11
      then (get_le 4 >>= λ n. get_le 4 >>= λ m. get_le 4 >>= λ d.
          require (c.from_days (from_bits 32 n)) >>= λ u.
          if c.month u == m && c.day u == d then pure (date u) else fail decode_error)
      else fail decode_error

  -- The match, with `self.value` and `self.json` for the values inside.
  unfoldable pub value_body : Decode (Value F) → Decode JsonView → ℕ → Decode (Value F)
  unfolding scalar get_count repeat of_list
  value_body inner inner_json t =
      if t == 0x12
      then (inner_json >>= λ j. pure (json (c.build j)))
      else if t == 0x13
      then (get_count 65536 >>= λ n. repeat n inner >>= λ vs. pure (array (of_list vs)))
      else scalar t

  unfoldable pub get_value : ℕ → Decode (Value F)
  unfolding get_le value_body get_json
  get_value zero = fail decode_error
  get_value (suc fuel) = get_le 1 >>= λ t. value_body (get_value fuel) (get_json fuel) t

  unfoldable pub read_value : Decode (Value F)
  unfolding get_value
  read_value src = get_value (length src) src

  unfoldable pub get_pair : Decode (String × Value F)
  unfolding get_name read_value
  get_pair = get_name >>= λ k. read_value >>= λ v. pure (k, v)

  unfoldable pub get_map : Decode (Map String (Value F))
  unfolding get_count get_pair repeat insert_all
  get_map = do n ← get_count 4096; kvs ← repeat n get_pair; pure (insert_all [] kvs)

  unfoldable pub get_request : Decode (Request (Value F))
  unfolding get_le from_tag require get_name get_option get_map
  get_request = do
    id ← get_le 8
    t ← get_le 1
    op ← require (from_tag t)
    table ← get_name
    row_id ← get_option (get_le 8)
    values ← get_option get_map
    pure (record { id = id; op = op; table = table; row_id = row_id; values = values })

  unfoldable pub get_row : Decode (RowView (Value F))
  unfolding get_le get_map
  get_row = do id ← get_le 8; values ← get_map; pure (record { id = id; values = values })

  unfoldable pub get_response : Decode (Response (Value F))
  unfolding get_le get_count repeat get_row get_option get_name
  get_response = do
    id ← get_le 8
    done ← get_le 1
    n ← get_count 1000000
    rows ← repeat n get_row
    error ← get_option get_name
    pure (record { id = id; ok = not (done == 0); rows = rows; error = error })

-- `Reader::end`: nothing may follow the message.
unfoldable pub at_end : Decode (Unit {0})
at_end [] = ok (tt, [])
at_end (b ∷ src) = err decode_error
