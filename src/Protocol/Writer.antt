-- ===== src/Protocol/Writer.antt =====
-- crates/blitz-protocol/src/codec.rs: `Writer`. A method is the bytes that it puts.
use blitz_db.Prelude.{
  ℕ, suc, ◌%◌, ◌^◌, String, Bool, true, false, Option, none, some, List, [], ◌∷◌, ◌++◌, length,
}
use blitz_db.Prelude.Bytes.{to_le}
use blitz_db.Prelude.Map.{Map}
use blitz_db.Types.Value.{
  Foreign, Value, Values, nil, cons, boolean, int8, int16, int32, int64, uint8, uint16, uint32,
  uint64, float32, float64, decimal, string, bytes, uuid, timestamp, date, json, array, null, len,
}
use blitz_db.Protocol.Message.{tag, Request, RowView, Response}
use blitz_db.Protocol.Wire.{Wire, to_bits, JsonView, JsonItems, JsonFields}

abbrev pub flag : Bool → ℕ
flag true = 1
flag false = 0

-- `len() as u32`
abbrev pub put_len : ℕ → List ℕ
put_len n = to_le 4 (n % 2 ^ 32)

unfoldable pub put_str : List ℕ → List ℕ
put_str s = put_len (length s) ++ s

unfoldable pub count_items : JsonItems → ℕ
count_items JsonItems.nil = 0
count_items (JsonItems.cons j js) = suc (count_items js)

unfoldable pub count_fields : JsonFields → ℕ
count_fields JsonFields.end = 0
count_fields (JsonFields.field k j fs) = suc (count_fields fs)

unfoldable mutual
  unfolding put_str count_items count_fields

  pub write_json : JsonView → List ℕ
  write_json JsonView.null = 0x00 ∷ []
  write_json (JsonView.boolean b) = (0x01 ∷ []) ++ (flag b ∷ [])
  write_json (JsonView.int i) = (0x05 ∷ []) ++ to_le 8 (to_bits 64 i)
  write_json (JsonView.uint u) = (0x09 ∷ []) ++ to_le 8 u
  write_json (JsonView.float f) = (0x0b ∷ []) ++ to_le 8 f
  write_json (JsonView.string s) = (0x0d ∷ []) ++ put_str s
  write_json (JsonView.array items) =
      (0x13 ∷ []) ++ (put_len (count_items items) ++ write_json_items items)
  write_json (JsonView.object fields) =
      (0x12 ∷ []) ++ (put_len (count_fields fields) ++ write_json_fields fields)

  pub write_json_items : JsonItems → List ℕ
  write_json_items JsonItems.nil = []
  write_json_items (JsonItems.cons j js) = write_json j ++ write_json_items js

  pub write_json_fields : JsonFields → List ℕ
  write_json_fields JsonFields.end = []
  write_json_fields (JsonFields.field k j fs) = put_str k ++ (write_json j ++ write_json_fields fs)

unfoldable pub write_option : {A : Type 0} → (A → List ℕ) → Option A → List ℕ
write_option put none = 0 ∷ []
write_option put (some a) = (1 ∷ []) ++ put a

unfoldable pub write_all : {A : Type 0} → (A → List ℕ) → List A → List ℕ
write_all put [] = []
write_all put (a ∷ as') = put a ++ write_all put as'

module _ {F : Foreign} (c : Wire F) where
  unfoldable mutual
    unfolding put_str len write_json

    pub write_value : Value F → List ℕ
    write_value null = 0x00 ∷ []
    write_value (boolean b) = (0x01 ∷ []) ++ (flag b ∷ [])
    write_value (int8 n) = (0x02 ∷ []) ++ (to_bits 8 n ∷ [])
    write_value (int16 n) = (0x03 ∷ []) ++ to_le 2 (to_bits 16 n)
    write_value (int32 n) = (0x04 ∷ []) ++ to_le 4 (to_bits 32 n)
    write_value (int64 n) = (0x05 ∷ []) ++ to_le 8 (to_bits 64 n)
    write_value (uint8 n) = (0x06 ∷ []) ++ (n ∷ [])
    write_value (uint16 n) = (0x07 ∷ []) ++ to_le 2 n
    write_value (uint32 n) = (0x08 ∷ []) ++ to_le 4 n
    write_value (uint64 n) = (0x09 ∷ []) ++ to_le 8 n
    write_value (float32 n) = (0x0a ∷ []) ++ to_le 4 n
    write_value (float64 n) = (0x0b ∷ []) ++ to_le 8 n
    write_value (decimal s) = (0x0c ∷ []) ++ put_str s
    write_value (string s) = (0x0d ∷ []) ++ put_str s
    write_value (bytes b) = (0x0e ∷ []) ++ (put_len (length b) ++ b)
    write_value (uuid u) = (0x0f ∷ []) ++ c.uuid_bytes u
    write_value (timestamp t) = (0x10 ∷ []) ++ to_le 8 (to_bits 64 (c.micros t))
    write_value (date d) =
        (0x11 ∷ [])
        ++ (to_le 4 (to_bits 32 (c.days d)) ++ (to_le 4 (c.month d) ++ to_le 4 (c.day d)))
    write_value (json j) = (0x12 ∷ []) ++ write_json (c.view j)
    write_value (array items) = (0x13 ∷ []) ++ (put_len (len items) ++ write_items items)

    pub write_items : Values F → List ℕ
    write_items nil = []
    write_items (cons v vs) = write_value v ++ write_items vs

  unfoldable pub write_name : String → List ℕ
  unfolding put_str
  write_name s = put_str (c.as_bytes s)

  unfoldable pub write_fields : Map String (Value F) → List ℕ
  unfolding write_name
  write_fields [] = []
  write_fields ((k, v) ∷ m) = (write_name k ++ write_value v) ++ write_fields m

  unfoldable pub write_map : Map String (Value F) → List ℕ
  unfolding write_fields
  write_map m = put_len (length m) ++ write_fields m

  unfoldable pub write_request : Request (Value F) → List ℕ
  unfolding write_name write_option write_map tag
  write_request r =
      to_le 8 r.id
      ++ ((tag r.op ∷ [])
          ++ (write_name r.table
              ++ (write_option (to_le 8) r.row_id ++ write_option write_map r.values)))

  unfoldable pub write_row : RowView (Value F) → List ℕ
  unfolding write_map
  write_row r = to_le 8 r.id ++ write_map r.values

  unfoldable pub write_response : Response (Value F) → List ℕ
  unfolding write_all write_row write_option write_name
  write_response r =
      to_le 8 r.id
      ++ ((flag r.ok ∷ [])
          ++ (put_len (length r.rows)
              ++ (write_all write_row r.rows ++ write_option write_name r.error)))

  -- `response_body_borrowed`: the rows are given, and success is the absence of an error.
  unfoldable pub write_response_borrowed : ℕ → List (RowView (Value F)) → Option String → List ℕ
  unfolding write_all write_row write_option write_name
  write_response_borrowed i rows error =
      to_le 8 i
      ++ ((flag (elim error [ none ↦ true | some msg ↦ false ]) ∷ [])
          ++ (put_len (length rows) ++ (write_all write_row rows ++ write_option write_name error)))
