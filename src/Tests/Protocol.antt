-- ===== src/Tests/Protocol.antt =====
-- Small messages from one end to the other.
use Prim.Native.String.{String}
use blitz_db.Prelude.{
  ℕ, ◌≤◌, true, List, [], ◌∷◌, ◌++◌, none, some, ok, length, take, ◌≡◌, refl, arith,
}
use blitz_db.Prelude.Bytes.{to_le}
use blitz_db.Prelude.Order.{pos}
use blitz_db.Prelude.Map
use blitz_db.Prelude.Map.{Map}
use blitz_db.Types.Value.{Value, int32, string}
use blitz_db.Protocol.Message.{
  insert, tag, Request, RowView, Response, BatchRequest, BatchResponse, ok_response,
}
use blitz_db.Protocol.Writer.{
  put_str, write_request, write_name, write_option, write_map, write_fields, write_value, write_row,
  write_all, write_response,
}
use blitz_db.Protocol.Codec.{
  single, atomic_batch, frame, feed, encode_request, encode_atomic_batch_request, encode_response,
  encode_batch_response, write_batch, write_batch_response, encode_ok_borrowed, encode_ok_single,
  kind_response, decode_incoming,
}
use blitz_db.Protocol.RoundTrip.Values.{FitsValue}
use blitz_db.Protocol.RoundTrip.Maps.{FitsMap, Fresh}
use blitz_db.Protocol.RoundTrip.Messages.{
  FitsRequest, FitsResponse, FitsBatch, FitsBatchResponse, incoming_payload,
}
use blitz_db.Protocol.RoundTrip.Frames.{feed-frame, feed-part, feed_sound}
use blitz_db.Protocol.RoundTrip.Exchange.{feed-encode_request, feed-encode_batch, encode_ok_lem}
use blitz_db.Tests.Wire.{plain, wire}

abbrev cells : Map String (Value plain)
cells = ("age", int32 (pos 30)) ∷ ("mail", string (97 ∷ 64 ∷ [])) ∷ []

cells-FitsMap : FitsMap wire cells
unfolding FitsValue Fresh Map.get Map.insert
cells-FitsMap = record {
  few = omega arith;
  names = (refl, (refl, tt));
  pairs = (
    (omega arith, omega arith),
    ((omega arith, record { short = omega arith; text = "a@"; utf8 = refl }), tt),
  );
}

abbrev adding : Request (Value plain)
adding = record { id = 1; op = insert; table = "users"; row_id = some 9; values = some cells }

adding-FitsRequest : FitsRequest wire adding
adding-FitsRequest = record {
  id = omega arith;
  table = omega arith;
  row_id = omega arith;
  values = cells-FitsMap;
}

abbrev pair_of : BatchRequest (Value plain)
pair_of = record { id = 2; ops = adding ∷ adding ∷ [] }

pair_of-FitsBatch : FitsBatch wire pair_of
pair_of-FitsBatch = record {
  id = omega arith;
  few = omega arith;
  ops = (adding-FitsRequest, (adding-FitsRequest, tt));
}

abbrev found : RowView (Value plain)
found = record { id = 9; values = cells }

abbrev answer : Response (Value plain)
answer = record { id = 1; ok = true; rows = found ∷ []; error = some "late" }

answer-FitsResponse : FitsResponse wire answer
answer-FitsResponse = record {
  id = omega arith;
  few = omega arith;
  rows = (record { id = omega arith; values = cells-FitsMap }, tt);
  error = omega arith;
}

abbrev answers : BatchResponse (Value plain)
answers = record { id = 2; results = answer ∷ [] }

answers-FitsBatchResponse : FitsBatchResponse wire answers
answers-FitsBatchResponse = record {
  id = omega arith;
  few = omega arith;
  results = (answer-FitsResponse, tt);
}

-- What a frame of a payload is.
abbrev framed : List ℕ → List ℕ
framed payload = 2 ∷ (to_le 4 (length payload) ++ payload)

sent_adding : encode_request wire 1000 adding ≡ ok (framed (incoming_payload wire (single adding)))
unfolding encode_request frame write_request tag write_name put_str write_option write_map
    write_fields write_value to_le
sent_adding = refl

sent_pair_of :
    encode_atomic_batch_request wire 1000 pair_of
    ≡ ok (framed (incoming_payload wire (atomic_batch pair_of)))
unfolding encode_atomic_batch_request frame write_batch write_all write_request tag write_name
    put_str write_option write_map write_fields write_value to_le
sent_pair_of = refl

abbrev answer_payload : List ℕ
answer_payload = (kind_response ∷ []) ++ write_response wire answer

sent_answer : encode_response wire 1000 answer ≡ ok (framed answer_payload)
unfolding encode_response frame write_response write_all write_row write_name put_str write_option
    write_map write_fields write_value to_le
sent_answer = refl

sent_answers :
    encode_batch_response wire 1000 answers ≡ ok (framed (write_batch_response wire answers))
unfolding encode_batch_response write_batch_response frame write_response write_all write_row
    write_name put_str write_option write_map write_fields write_value to_le
sent_answers = refl

-- The start of the next frame.
abbrev next : List ℕ
next = 2 ∷ 0 ∷ []

feed-encode_request_example :
    (feed 1000 (framed (incoming_payload wire (single adding)) ++ next)
      ≡ (ok (some (incoming_payload wire (single adding))), next))
    × (decode_incoming wire (incoming_payload wire (single adding)) ≡ ok (single adding))
feed-encode_request_example =
    feed-encode_request wire 1000 adding (framed (incoming_payload wire (single adding))) next
      (omega arith) adding-FitsRequest sent_adding

feed-encode_batch_example :
    (feed 1000 (framed (incoming_payload wire (atomic_batch pair_of)) ++ next)
      ≡ (ok (some (incoming_payload wire (atomic_batch pair_of))), next))
    × (decode_incoming wire (incoming_payload wire (atomic_batch pair_of))
        ≡ ok (atomic_batch pair_of))
feed-encode_batch_example =
    feed-encode_batch wire 1000 pair_of (framed (incoming_payload wire (atomic_batch pair_of))) next
      (omega arith) pair_of-FitsBatch sent_pair_of

encode_ok_lem_example :
    (encode_ok_borrowed wire 1000 1 (found ∷ [])
      ≡ encode_response wire 1000 (ok_response 1 (found ∷ [])))
    × (encode_ok_single wire 1000 1 9 cells
        ≡ encode_response wire 1000 (ok_response 1 (record { id = 9; values = cells } ∷ [])))
encode_ok_lem_example = encode_ok_lem wire 1000 1 9 cells (found ∷ [])

abbrev word : List ℕ
word = 7 ∷ 8 ∷ 9 ∷ []

sent_word : frame 100 word ≡ ok (framed word)
unfolding frame to_le
sent_word = refl

feed-part_example : feed 100 (take 6 (framed word)) ≡ (ok none, take 6 (framed word))
unfolding to_le
feed-part_example = feed-part 100 word (framed word) (omega arith) sent_word 6 (omega arith)

fed_word : feed 100 (framed word ++ next) ≡ (ok (some word), next)
fed_word = feed-frame 100 word (framed word) (omega arith) sent_word next

feed_sound_example :
    (framed word ++ next ≡ take 5 (framed word ++ next) ++ (word ++ next)) × (length word ≤ 100)
feed_sound_example = feed_sound 100 (framed word ++ next) word next fed_word
