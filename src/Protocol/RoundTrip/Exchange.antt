-- ===== src/Protocol/RoundTrip/Exchange.antt =====
-- From one end of a connection to the other: encoded, framed, fed and decoded.
use blitz_db.Prelude.{ℕ, ◌^◌, ◌<◌, String, some, List, [], ◌∷◌, ◌++◌, ok, ◌≡◌, refl}
use blitz_db.Prelude.Map.{Map}
use blitz_db.Types.Value.{Foreign, Value}
use blitz_db.Protocol.Message.{Request, Response, RowView, ok_response}
use blitz_db.Protocol.Message.{BatchRequest, BatchResponse}
use blitz_db.Protocol.Wire.{Wire}
use blitz_db.Protocol.Writer.{write_response, write_response_borrowed}
use blitz_db.Protocol.Codec.{
  kind_response, single, atomic_batch, feed, encode_request, encode_atomic_batch_request,
  encode_response, encode_ok_single, encode_ok_borrowed, encode_batch_response,
  write_batch_response, decode_incoming, decode_response, decode_batch_response,
}
use blitz_db.Protocol.RoundTrip.Messages.{
  FitsIncoming, FitsRequest, FitsBatch, FitsResponse, FitsBatchResponse, incoming_payload,
  decode_incoming-payload, decode_response-payload, decode_batch_response-payload,
}
use blitz_db.Protocol.RoundTrip.Frames.{feed-frame}

module _ {F : Foreign} (c : Wire F) (max : ℕ) where
  -- If a request fits the wire (numbers within their widths, texts that are UTF-8 and below 2^32
  -- bytes, no name twice in a map, maps and arrays within the bounds of the reader, timestamps that
  -- their microseconds give back) and the limit on frames is below 2^32, then whatever
  -- `encode_request` gives, with any bytes after it, `feed` takes off as one payload and leaves
  -- those bytes, and `decode_incoming` reads that payload as the same single request.
  pub feed-encode_request :
      (r : Request (Value F)) (out rest : List ℕ)
      → max < 2 ^ 32
      → FitsRequest c r
      → encode_request c max r ≡ ok out
      → (feed max (out ++ rest) ≡ (ok (some (incoming_payload c (single r))), rest))
        × (decode_incoming c (incoming_payload c (single r)) ≡ ok (single r))
  unfolding encode_request FitsIncoming
  feed-encode_request r out rest small fits sent = (
    feed-frame max (incoming_payload c (single r)) out small sent rest,
    decode_incoming-payload c (single r) fits,
  )

  -- If every request of a batch fits the wire, there are at most 4096 of them and the limit on
  -- frames is below 2^32, then what `encode_atomic_batch_request` gives, with any bytes after it,
  -- is fed as one payload that leaves those bytes, and that `decode_incoming` reads as the same
  -- batch and as an atomic one.
  pub feed-encode_batch :
      (b : BatchRequest (Value F)) (out rest : List ℕ)
      → max < 2 ^ 32
      → FitsBatch c b
      → encode_atomic_batch_request c max b ≡ ok out
      → (feed max (out ++ rest) ≡ (ok (some (incoming_payload c (atomic_batch b))), rest))
        × (decode_incoming c (incoming_payload c (atomic_batch b)) ≡ ok (atomic_batch b))
  unfolding encode_atomic_batch_request FitsIncoming
  feed-encode_batch b out rest small fits sent = (
    feed-frame max (incoming_payload c (atomic_batch b)) out small sent rest,
    decode_incoming-payload c (atomic_batch b) fits,
  )

  -- If a response of at most a million rows fits the wire and the limit on frames is below 2^32,
  -- then what `encode_response` gives, with any bytes after it, is fed as one payload that leaves
  -- those bytes, and that `decode_response` reads as the same response.
  pub feed-encode_response :
      (r : Response (Value F)) (out rest : List ℕ)
      → max < 2 ^ 32
      → FitsResponse c r
      → encode_response c max r ≡ ok out
      → (feed max (out ++ rest) ≡ (ok (some ((kind_response ∷ []) ++ write_response c r)), rest))
        × (decode_response c ((kind_response ∷ []) ++ write_response c r) ≡ ok r)
  unfolding encode_response
  feed-encode_response r out rest small fits sent = (
    feed-frame max ((kind_response ∷ []) ++ write_response c r) out small sent rest,
    decode_response-payload c r fits,
  )

  -- If a batch of at most 4096 responses fits the wire and the limit on frames is below 2^32, then
  -- what `encode_batch_response` gives, with any bytes after it, is fed as one payload that leaves
  -- those bytes, and that `decode_batch_response` reads as the same batch.
  pub feed-encode_batch_response :
      (b : BatchResponse (Value F)) (out rest : List ℕ)
      → max < 2 ^ 32
      → FitsBatchResponse c b
      → encode_batch_response c max b ≡ ok out
      → (feed max (out ++ rest) ≡ (ok (some (write_batch_response c b)), rest))
        × (decode_batch_response c (write_batch_response c b) ≡ ok b)
  unfolding encode_batch_response
  feed-encode_batch_response b out rest small fits sent = (
    feed-frame max (write_batch_response c b) out small sent rest,
    decode_batch_response-payload c b fits,
  )

  -- The encoders that borrow their rows give what `encode_response` gives for a successful response.
  pub encode_ok_lem :
      (i row_id : ℕ) (values : Map String (Value F)) (rows : List (RowView (Value F)))
      → (encode_ok_borrowed c max i rows ≡ encode_response c max (ok_response i rows))
        × (encode_ok_single c max i row_id values
            ≡ encode_response c max (ok_response i (record { id = row_id; values = values } ∷ [])))
  unfolding encode_ok_borrowed encode_ok_single encode_response ok_response write_response
      write_response_borrowed
  encode_ok_lem i row_id values rows = (refl, refl)
