-- ===== src/Protocol/RoundTrip/Frames.antt =====
-- Frames: what `frame` sends and `feed` takes, whole, in part and broken.
use blitz_db.Prelude.{
  ℕ, ◌+◌, ◌-◌, ◌%◌, ◌^◌, ◌≤◌, ◌<◌, true, false, none, some, List, [], ◌∷◌, ◌++◌, length,
  length-append, take, drop, ok, err, if◌then◌else◌, ltb, ◌==◌, ◌≡◌, refl, sym, ap, ◌∙◌, arith,
  Bool-cases, inl, inr,
}
use blitz_db.Prelude.Cuts.{take-append, drop-append, drop_more, take-drop, length-take, take_more}
use mathlib.Core.List.{append_assoc}
use blitz_db.Prelude.Bytes.{from_le, length-to_le, from_le-to_le}
use blitz_db.Protocol.Writer.{put_len}
use blitz_db.Protocol.Decoder.{decode_error}
use blitz_db.Protocol.Codec.{frame, feed, protocol_version, header_len}

-- A frame is its header of five bytes and the payload.
pub frame-bound :
    (max : ℕ) (payload out : List ℕ)
    → frame max payload ≡ ok out
    → (length out ≡ header_len + length payload) × (length out ≤ header_len + max)
unfolding frame
frame-bound max payload out h = ground (
  arith,
  length-append (put_len (length payload)) payload,
  length-to_le 4 (length payload % 2 ^ 32),
)

feed-short : (max : ℕ) (buf : List ℕ) → length buf < header_len → feed max buf ≡ (ok none, buf)
unfolding feed
feed-short max buf h = ground arith

-- `feed` at a buffer that has a header of this version.
feed_lem :
    (max : ℕ) (l tail : List ℕ)
    → length l ≡ 4
    → feed max ((protocol_version ∷ l) ++ tail) ≡ (
        if ltb max (from_le l)
        then (err decode_error, (protocol_version ∷ l) ++ tail)
        else if ltb (length tail) (from_le l)
        then (ok none, (protocol_version ∷ l) ++ tail)
        else (ok (some (take (from_le l) tail)), drop (from_le l) tail))
unfolding feed
feed_lem max (a ∷ b ∷ c ∷ d ∷ []) tail h = rw (full, version, same, drop_more 5 n buf) refl
  where
    n : ℕ
    n = from_le (a ∷ b ∷ c ∷ d ∷ [])

    buf : List ℕ
    buf = protocol_version ∷ a ∷ b ∷ c ∷ d ∷ tail

    full : ltb (length buf) header_len ≡ false
    full = ground arith

    version : (from_le (protocol_version ∷ []) == protocol_version) ≡ true
    version = unfold from_le in refl

    same : ltb (length buf) (header_len + n) ≡ ltb (length tail) n
    same = ground arith
feed_lem max [] tail h = absurd (omega arith)
feed_lem max (a ∷ []) tail h = absurd (omega arith)
feed_lem max (a ∷ b ∷ []) tail h = absurd (omega arith)
feed_lem max (a ∷ b ∷ c ∷ []) tail h = absurd (omega arith)
feed_lem max (a ∷ b ∷ c ∷ d ∷ e ∷ l) tail h = absurd (omega arith)

module _ (max : ℕ) (payload out : List ℕ) (small : max < 2 ^ 32)
    (sent : frame max payload ≡ ok out) where
  frame-parts :
      (out ≡ (protocol_version ∷ put_len (length payload)) ++ payload) × (length payload ≤ max)
  unfolding frame
  frame-parts = ground arith

  header : List ℕ
  header = protocol_version ∷ put_len (length payload)

  header_length : length (put_len (length payload)) ≡ 4
  header_length = length-to_le 4 (length payload % 2 ^ 32)

  read_length : from_le (put_len (length payload)) ≡ length payload
  read_length =
      from_le-to_le 4 (length payload % 2 ^ 32) (omega arith) ∙ omega (arith, frame-parts.1)

  feed-header :
      (tail : List ℕ)
      → feed max ((protocol_version ∷ put_len (length payload)) ++ tail) ≡ (
          if ltb (length tail) (length payload)
          then (ok none, (protocol_version ∷ put_len (length payload)) ++ tail)
          else (ok (some (take (length payload) tail)), drop (length payload) tail))
  feed-header tail =
      feed_lem max (put_len (length payload)) tail header_length ∙ rw (read_length, within) refl
    where
      within : ltb max (length payload) ≡ false
      within = ground (arith, frame-parts.1)

  -- A whole frame is taken off and what follows it is left.
  pub feed-frame : (rest : List ℕ) → feed max (out ++ rest) ≡ (ok (some payload), rest)
  feed-frame rest =
      rw (frame-parts.0, append_assoc (protocol_version ∷ put_len (length payload)) payload rest)
        (feed-header (payload ++ rest)
          ∙ rw (enough, take-append payload rest, drop-append payload rest) refl)
    where
      enough : ltb (length (payload ++ rest)) (length payload) ≡ false
      enough = ground (arith, length-append payload rest)

  cut_lem :
      (k : ℕ)
      → header_len ≤ k
      → take k out ≡ (protocol_version ∷ put_len (length payload)) ++ take (k - header_len) payload
  cut_lem k h =
      ap (λ i. take i out) split
      ∙ rw frame-parts.0
          (take_more (protocol_version ∷ put_len (length payload)) payload (k - header_len))
    where
      split : k ≡ length (protocol_version ∷ put_len (length payload)) + (k - header_len)
      split = omega (arith, header_length)

  feed-long :
      (k : ℕ) → header_len ≤ k → k < length out → feed max (take k out) ≡ (ok none, take k out)
  feed-long k long h =
      rw (cut_lem k long) (feed-header (take (k - header_len) payload) ∙ rw few refl)
    where
      few : ltb (length (take (k - header_len) payload)) (length payload) ≡ true
      few =
          ground
            (arith, length-take (k - header_len) payload, frame-bound max payload out sent, h, long)

  -- While a frame has arrived only in part, however it is cut, `feed` reports that nothing is there
  -- and takes nothing out of the buffer, if the limit on frames is below 2^32.
  pub feed-part : (k : ℕ) → k < length out → feed max (take k out) ≡ (ok none, take k out)
  feed-part k h = elim (Bool-cases (ltb k header_len)) [
    | inl short ↦ feed-short max (take k out) (ground (arith, length-take k out, short))
    | inr long ↦ feed-long k (ground (arith, long)) h
  ]

-- The length that a header tells.
abbrev told : List ℕ → ℕ
told buf = from_le (take 4 (drop 1 buf))

feed-payload :
    (max : ℕ) (buf payload rest : List ℕ)
    → feed max buf ≡ (ok (some payload), rest)
    → (payload ≡ take (told buf) (drop header_len buf))
      × (rest ≡ drop (header_len + told buf) buf)
      × (told buf ≤ max)
unfolding feed
feed-payload max buf payload rest h = ground (arith, h)

-- A payload that `feed` gives is no longer than the limit, and the buffer was a header of five
-- bytes, the payload and what `feed` leaves.
pub feed_sound :
    (max : ℕ) (buf payload rest : List ℕ)
    → feed max buf ≡ (ok (some payload), rest)
    → (buf ≡ take header_len buf ++ (payload ++ rest)) × (length payload ≤ max)
feed_sound max buf payload rest h =
    let (body, left, bounded) = feed-payload max buf payload rest h in
    let all : drop header_len buf ≡ payload ++ rest =
      rw (body, left, drop_more header_len (told buf) buf)
        (sym (take-drop (told buf) (drop header_len buf))) in
    (
      rw all at (sym (take-drop header_len buf)),
      rw body (omega (arith, bounded, length-take (told buf) (drop header_len buf))),
    )
