-- ===== src/Protocol/RoundTrip/Messages.antt =====
-- Requests, rows, responses and batches read back as they were written.
use blitz_db.Prelude.{
  ℕ, ◌^◌, ◌≤◌, ◌<◌, String, Option, none, some, List, [], ◌∷◌, ◌++◌, length, All, ok, ==_refl, ◌≡◌,
  refl, ap, arith,
}
use mathlib.Core.List.{append-nil}
use blitz_db.Prelude.Bytes.{to_le}
use blitz_db.Prelude.Reader.{Reads, Reads-bind, Reads-last, Reads-pure}
use blitz_db.Types.Value.{Foreign, Value}
use blitz_db.Protocol.Message.{
  Op, ping, tag, from_tag-tag, Request, RowView, Response, BatchRequest, BatchResponse,
}
use blitz_db.Protocol.Wire.{Wire}
use blitz_db.Protocol.Writer.{
  flag, put_len, write_map, write_name, write_request, write_row, write_all, write_response,
}
use blitz_db.Protocol.Decoder.{Decode, get_request, get_row, get_response, at_end}
use blitz_db.Protocol.Codec.{
  kind_request, kind_response, kind_batch_request, kind_atomic_batch_request, kind_batch_response,
  Incoming, single, batch, atomic_batch, whole, expect_kind, write_batch, get_batch, get_incoming,
  get_batch_response, write_batch_response, decode_incoming, decode_response, decode_batch_response,
}
use blitz_db.Protocol.RoundTrip.Parts.{
  Reads-byte, Reads-get_le, Reads-get_count, Reads-get_name, Reads-get_option, Reads-require,
  Reads-repeat, Reads-pure_eq, flag_lem,
}
use blitz_db.Protocol.RoundTrip.Maps.{FitsMap, Reads-get_map}

-- What an option holds, if anything, fits.
abbrev pub Held : {A : Type 0} → (A → Type 0) → Option A → Type 0
Held P none = Unit
Held P (some a) = P a

Held-at : {A : Type 0} (P : A → Type 0) (o : Option A) → Held P o → (a : A) → o ≡ some a → P a
Held-at P o h a eq = rw eq at h

tag-lt : (op : Op) → tag op < 256
unfolding tag
tag-lt ping = omega arith
tag-lt _ = omega arith

All-map :
    {A : Type 0} {P Q : A → Type 0} → ((a : A) → P a → Q a) → (xs : List A) → All P xs → All Q xs
All-map f [] h = tt
All-map f (x ∷ xs) (h, hs) = (f x h, All-map f xs hs)

-- A reader that takes a message up takes it up as a whole.
whole-Reads : {A : Type 0} {p : Decode A} {xs : List ℕ} {a : A} → Reads p xs a → whole p xs ≡ ok a
unfolding whole at_end
whole-Reads {p = p} {xs} {a} h = rw (alone, whole, at_end) refl
  where
    alone : p xs ≡ ok (a, [])
    alone = rw (append-nil xs) at (h.reads [])

Reads-expect_kind : (want : ℕ) → want < 256 → Reads (expect_kind want) (want ∷ []) tt
unfolding expect_kind
Reads-expect_kind want h = Reads-last _ (Reads-byte want h) (rw (==_refl want) (Reads-pure tt))

module _ {F : Foreign} (c : Wire F) where
  -- Numbers fit their widths, texts their lengths, maps the bound of the reader.
  abbrev pub FitsName : String → Type 0
  FitsName s = length (c.as_bytes s) < 2 ^ 32

  pub record FitsRequest (r : Request (Value F)) : Type 0 where
    pub id : r.id < 2 ^ 64
    pub table : FitsName r.table
    pub row_id : Held (λ i. i < 2 ^ 64) r.row_id
    pub values : Held (FitsMap c) r.values

  pub record FitsRow (r : RowView (Value F)) : Type 0 where
    pub id : r.id < 2 ^ 64
    pub values : FitsMap c r.values

  pub record FitsResponse (r : Response (Value F)) : Type 0 where
    pub id : r.id < 2 ^ 64
    pub few : length r.rows ≤ 1000000
    pub rows : All FitsRow r.rows
    pub error : Held FitsName r.error

  pub record FitsBatch (b : BatchRequest (Value F)) : Type 0 where
    pub id : b.id < 2 ^ 64
    pub few : length b.ops ≤ 4096
    pub ops : All FitsRequest b.ops

  pub record FitsBatchResponse (b : BatchResponse (Value F)) : Type 0 where
    pub id : b.id < 2 ^ 64
    pub few : length b.results ≤ 4096
    pub results : All FitsResponse b.results

  Reads-get_request :
      (r : Request (Value F)) → FitsRequest r → Reads (get_request c) (write_request c r) r
  unfolding get_request write_request
  Reads-get_request r h = Reads-bind _ (Reads-get_le 8 r.id (omega (arith, h.id))) (
      Reads-bind _ (Reads-byte (tag r.op) (tag-lt r.op)) (
        Reads-bind _ (Reads-require (from_tag-tag r.op)) (
          Reads-bind _ (Reads-get_name c r.table h.table) (
            Reads-bind _
              (Reads-get_option (to_le 8) r.row_id
                (λ i eq. Reads-get_le 8 i (Held-at (λ i. i < 2 ^ 64) r.row_id h.row_id i eq)))
              (Reads-last _
                (Reads-get_option (write_map c) r.values
                  (λ m eq. Reads-get_map c m (Held-at (FitsMap c) r.values h.values m eq)))
                (Reads-pure r))))))

  Reads-get_row : (r : RowView (Value F)) → FitsRow r → Reads (get_row c) (write_row c r) r
  unfolding get_row write_row
  Reads-get_row r h =
      Reads-bind _ (Reads-get_le 8 r.id (omega (arith, h.id)))
        (Reads-last _ (Reads-get_map c r.values h.values) (Reads-pure r))

  Reads-get_response :
      (r : Response (Value F)) → FitsResponse r → Reads (get_response c) (write_response c r) r
  unfolding get_response write_response
  Reads-get_response r h = Reads-bind _ (Reads-get_le 8 r.id (omega (arith, h.id))) (
      Reads-bind _ (Reads-byte (flag r.ok) (flag_lem r.ok).0) (
        Reads-bind _ (Reads-get_count 1000000 (length r.rows) (omega (arith, h.few)) h.few) (
          Reads-bind _
            (Reads-repeat (get_row c) (write_row c) r.rows (All-map Reads-get_row r.rows h.rows))
            (Reads-last _
              (Reads-get_option (write_name c) r.error
                (λ s eq. Reads-get_name c s (Held-at FitsName r.error h.error s eq)))
              (Reads-pure_eq (
                ap (λ b. record { id = r.id; ok = b; rows = r.rows; error = r.error })
                  (flag_lem r.ok).1))))))

  Reads-get_batch :
      (b : BatchRequest (Value F))
      → FitsBatch b
      → Reads
          (get_batch c)
          (to_le 8 b.id ++ (put_len (length b.ops) ++ write_all (write_request c) b.ops))
          b
  unfolding get_batch
  Reads-get_batch b h = Reads-bind _ (Reads-get_le 8 b.id (omega (arith, h.id))) (
      Reads-bind _ (Reads-get_count 4096 (length b.ops) (omega (arith, h.few)) h.few) (
        Reads-last _
          (Reads-repeat (get_request c) (write_request c) b.ops
            (All-map Reads-get_request b.ops h.ops))
          (Reads-pure b)))

  Reads-get_batch_response :
      (b : BatchResponse (Value F))
      → FitsBatchResponse b
      → Reads
          (get_batch_response c)
          (to_le 8 b.id ++ (put_len (length b.results) ++ write_all (write_response c) b.results))
          b
  unfolding get_batch_response
  Reads-get_batch_response b h = Reads-bind _ (Reads-get_le 8 b.id (omega (arith, h.id))) (
      Reads-bind _ (Reads-get_count 4096 (length b.results) (omega (arith, h.few)) h.few) (
        Reads-last _
          (Reads-repeat (get_response c) (write_response c) b.results
            (All-map Reads-get_response b.results h.results))
          (Reads-pure b)))

  -- What the kinds of message come to, and their bounds.
  unfoldable pub FitsIncoming : Incoming (Value F) → Type 0
  FitsIncoming (single r) = FitsRequest r
  FitsIncoming (batch b) = FitsBatch b
  FitsIncoming (atomic_batch b) = FitsBatch b

  -- The payload of each kind.
  abbrev pub incoming_payload : Incoming (Value F) → List ℕ
  incoming_payload (single r) = (kind_request ∷ []) ++ write_request c r
  incoming_payload (batch b) = write_batch c kind_batch_request b
  incoming_payload (atomic_batch b) = write_batch c kind_atomic_batch_request b

  Reads-get_incoming :
      (m : Incoming (Value F)) → FitsIncoming m → Reads (get_incoming c) (incoming_payload m) m
  unfolding get_incoming FitsIncoming write_batch
  Reads-get_incoming (single r) h =
      Reads-bind _ (Reads-byte kind_request (omega arith))
        (Reads-last _ (Reads-get_request r h) (Reads-pure (single r)))
  Reads-get_incoming (batch b) h =
      Reads-bind _ (Reads-byte kind_batch_request (omega arith))
        (Reads-last _ (Reads-get_batch b h) (Reads-pure (batch b)))
  Reads-get_incoming (atomic_batch b) h =
      Reads-bind _ (Reads-byte kind_atomic_batch_request (omega arith))
        (Reads-last _ (Reads-get_batch b h) (Reads-pure (atomic_batch b)))

  -- A payload of any of the three kinds that fits is read back.
  pub decode_incoming-payload :
      (m : Incoming (Value F)) → FitsIncoming m → decode_incoming c (incoming_payload m) ≡ ok m
  unfolding decode_incoming
  decode_incoming-payload m h = whole-Reads (Reads-get_incoming m h)

  pub decode_response-payload :
      (r : Response (Value F))
      → FitsResponse r
      → decode_response c ((kind_response ∷ []) ++ write_response c r) ≡ ok r
  unfolding decode_response
  decode_response-payload r h =
      whole-Reads
        (Reads-bind _ (Reads-expect_kind kind_response (omega arith)) (Reads-get_response r h))

  pub decode_batch_response-payload :
      (b : BatchResponse (Value F))
      → FitsBatchResponse b
      → decode_batch_response c (write_batch_response c b) ≡ ok b
  unfolding decode_batch_response write_batch_response
  decode_batch_response-payload b h = whole-Reads (
      Reads-bind _ (Reads-expect_kind kind_batch_response (omega arith))
        (Reads-get_batch_response b h))
