-- ===== src/Protocol/Codec.antt =====
-- crates/blitz-protocol/src/codec.rs: `FrameCodec`, from messages to frames and back.
--
-- The codec is its `max_frame`. `feed` gives the payload, if a whole one is there, and the buffer
-- that it leaves.
use blitz_db.Prelude.{
  ℕ, ◌+◌, ◌*◌, String, Option, none, some, List, [], ◌∷◌, ◌++◌, length, take, drop, Result, ok, err,
  if◌then◌else◌, ltb, ◌==◌,
}
use blitz_db.Prelude.Bytes.{to_le, from_le}
use blitz_db.Prelude.Map.{Map}
use blitz_db.Prelude.Reader.{◌>>=◌, pure, fail, repeat}
use blitz_db.Types.Value.{Foreign, Value}
use blitz_db.Protocol.Message.{Request, RowView, Response, BatchRequest, BatchResponse}
use blitz_db.Protocol.Wire.{Wire}
use blitz_db.Protocol.Writer.{
  put_len, write_request, write_all, write_response, write_response_borrowed,
}
use blitz_db.Protocol.Decoder.{
  ProtocolError, decode_error, encode_error, unsupported_version, Decode, get_le, get_count,
  get_request, get_response, at_end,
}

abbrev pub protocol_version : ℕ
protocol_version = 2

abbrev pub kind_request : ℕ
kind_request = 0x01

abbrev pub kind_batch_request : ℕ
kind_batch_request = 0x02

abbrev pub kind_atomic_batch_request : ℕ
kind_atomic_batch_request = 0x03

abbrev pub kind_response : ℕ
kind_response = 0x11

abbrev pub kind_batch_response : ℕ
kind_batch_response = 0x12

abbrev pub header_len : ℕ
header_len = 5

abbrev pub default_max_frame : ℕ
default_max_frame = 8 * 1024 * 1024

pub data Incoming (V : Type 0) : Type 0 where
  single : Request V → Incoming V
  batch : BatchRequest V → Incoming V
  atomic_batch : BatchRequest V → Incoming V

unfoldable pub frame : ℕ → List ℕ → Result ProtocolError (List ℕ)
frame max payload =
    if ltb max (length payload)
    then err encode_error
    else ok ((protocol_version ∷ []) ++ (put_len (length payload) ++ payload))

-- `buf[0]` and `buf[1..5]` are there, since the header is.
unfoldable pub feed : ℕ → List ℕ → Result ProtocolError (Option (List ℕ)) × List ℕ
feed max buf =
    if ltb (length buf) header_len
    then (ok none, buf)
    else let ver = from_le (take 1 buf) in
      let len = from_le (take 4 (drop 1 buf)) in
      if ver == protocol_version
      then (if ltb max len
          then (err decode_error, buf)
          else if ltb (length buf) (header_len + len)
          then (ok none, buf)
          else (ok (some (take len (drop header_len buf))), drop (header_len + len) buf))
      else (err (unsupported_version ver), buf)

unfoldable pub expect_kind : ℕ → Decode (Unit {0})
unfolding get_le
expect_kind want = get_le 1 >>= λ got. if got == want then pure tt else fail decode_error

-- The message of a payload, which nothing may follow.
unfoldable pub whole : {A : Type 0} → Decode A → List ℕ → Result ProtocolError A
unfolding at_end
whole p payload = elim ((p >>= λ a. at_end >>= λ u. pure a) payload) [
  | ok (a, rest) ↦ ok a
  | err e ↦ err e
]

module _ {F : Foreign} (c : Wire F) where
  unfoldable pub encode_request : ℕ → Request (Value F) → Result ProtocolError (List ℕ)
  unfolding write_request frame
  encode_request max r = frame max ((kind_request ∷ []) ++ write_request c r)

  -- The payload of both kinds of batch.
  unfoldable pub write_batch : ℕ → BatchRequest (Value F) → List ℕ
  unfolding write_all write_request
  write_batch kind b =
      (kind ∷ []) ++ (to_le 8 b.id ++ (put_len (length b.ops) ++ write_all (write_request c) b.ops))

  unfoldable pub encode_batch_request : ℕ → BatchRequest (Value F) → Result ProtocolError (List ℕ)
  unfolding write_batch frame
  encode_batch_request max b = frame max (write_batch kind_batch_request b)

  unfoldable pub encode_atomic_batch_request :
      ℕ → BatchRequest (Value F) → Result ProtocolError (List ℕ)
  unfolding write_batch frame
  encode_atomic_batch_request max b = frame max (write_batch kind_atomic_batch_request b)

  unfoldable pub encode_response : ℕ → Response (Value F) → Result ProtocolError (List ℕ)
  unfolding write_response frame
  encode_response max r = frame max ((kind_response ∷ []) ++ write_response c r)

  unfoldable pub encode_ok_single : ℕ → ℕ → ℕ → Map String (Value F) → Result ProtocolError (List ℕ)
  unfolding write_response_borrowed frame
  encode_ok_single max i row_id values = frame max (
      (kind_response ∷ [])
      ++ write_response_borrowed c i (record { id = row_id; values = values } ∷ []) none)

  unfoldable pub encode_ok_borrowed :
      ℕ → ℕ → List (RowView (Value F)) → Result ProtocolError (List ℕ)
  unfolding write_response_borrowed frame
  encode_ok_borrowed max i rows =
      frame max ((kind_response ∷ []) ++ write_response_borrowed c i rows none)

  unfoldable pub write_batch_response : BatchResponse (Value F) → List ℕ
  unfolding write_all write_response
  write_batch_response b =
      (kind_batch_response ∷ [])
      ++ (to_le 8 b.id ++ (put_len (length b.results) ++ write_all (write_response c) b.results))

  unfoldable pub encode_batch_response : ℕ → BatchResponse (Value F) → Result ProtocolError (List ℕ)
  unfolding write_batch_response frame
  encode_batch_response max b = frame max (write_batch_response b)

  unfoldable pub decode_request : List ℕ → Result ProtocolError (Request (Value F))
  unfolding whole expect_kind get_request
  decode_request = whole (expect_kind kind_request >>= λ u. get_request c)

  unfoldable pub get_batch : Decode (BatchRequest (Value F))
  unfolding get_le get_count repeat get_request
  get_batch = do
    id ← get_le 8
    n ← get_count 4096
    ops ← repeat n (get_request c)
    pure (record { id = id; ops = ops })

  unfoldable pub get_incoming : Decode (Incoming (Value F))
  unfolding get_le get_request get_batch
  get_incoming = get_le 1 >>= λ kind.
      if kind == kind_request
      then (get_request c >>= λ r. pure (single r))
      else if kind == kind_batch_request
      then (get_batch >>= λ b. pure (batch b))
      else if kind == kind_atomic_batch_request
      then (get_batch >>= λ b. pure (atomic_batch b))
      else fail decode_error

  unfoldable pub decode_incoming : List ℕ → Result ProtocolError (Incoming (Value F))
  unfolding whole get_incoming
  decode_incoming = whole get_incoming

  unfoldable pub decode_response : List ℕ → Result ProtocolError (Response (Value F))
  unfolding whole expect_kind get_response
  decode_response = whole (expect_kind kind_response >>= λ u. get_response c)

  unfoldable pub get_batch_response : Decode (BatchResponse (Value F))
  unfolding get_le get_count repeat get_response
  get_batch_response = do
    id ← get_le 8
    n ← get_count 4096
    results ← repeat n (get_response c)
    pure (record { id = id; results = results })

  unfoldable pub decode_batch_response : List ℕ → Result ProtocolError (BatchResponse (Value F))
  unfolding whole expect_kind get_batch_response
  decode_batch_response = whole (expect_kind kind_batch_response >>= λ u. get_batch_response)
