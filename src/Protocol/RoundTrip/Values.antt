-- ===== src/Protocol/RoundTrip/Values.antt =====
-- Values read back as they were written.
use blitz_db.Prelude.{
  ℕ, zero, suc, ◌^◌, ◌≤◌, ◌<◌, some, List, [], ◌∷◌, ◌++◌, length, length-append, ==_refl, ◌≡◌, refl,
  ap, arith,
}
use blitz_db.Prelude.Bytes.{to_le}
use blitz_db.Prelude.Map.{string_key}
use blitz_db.Prelude.Reader.{Reads, Reads-bind, Reads-last, Reads-pure, repeat}
use blitz_db.Types.Value.{
  Foreign, Value, Values, nil, cons, boolean, int8, int16, int32, int64, uint8, uint16, uint32,
  uint64, float32, float64, decimal, string, bytes, uuid, timestamp, date, json, array, null, len,
}
use blitz_db.Protocol.Wire.{
  Wire, InRange, to_bits, from_bits, from_bits-8, from_bits-16, from_bits-32, from_bits-64,
}
use blitz_db.Protocol.Writer.{flag, put_len, put_str, write_json, write_value, write_items}
use blitz_db.Protocol.Decoder.{
  get_json, get_value, value_body, scalar, of_list, read_value, get_bytes,
}
use blitz_db.Protocol.RoundTrip.Parts.{
  Reads-byte, Reads-get_le, Reads-get_count, Reads-get_text, Reads-get_bytes, Reads-require,
  Reads-put_len, Reads-pure_eq, flag_lem,
}
use blitz_db.Protocol.RoundTrip.Json.{IsText, FitsJson, Reads-json}

module _ {F : Foreign} (c : Wire F) where
  -- Numbers fit their widths, texts are UTF-8, an array is within the bound that the reader checks,
  -- and a timestamp is one of whole microseconds.
  unfoldable mutual
    unfolding FitsJson len

    pub FitsValue : Value F → Type 0
    FitsValue null = Unit
    FitsValue (boolean b) = Unit
    FitsValue (int8 n) = InRange 8 n
    FitsValue (int16 n) = InRange 16 n
    FitsValue (int32 n) = InRange 32 n
    FitsValue (int64 n) = InRange 64 n
    FitsValue (uint8 n) = n < 2 ^ 8
    FitsValue (uint16 n) = n < 2 ^ 16
    FitsValue (uint32 n) = n < 2 ^ 32
    FitsValue (uint64 n) = n < 2 ^ 64
    FitsValue (float32 n) = n < 2 ^ 32
    FitsValue (float64 n) = n < 2 ^ 64
    FitsValue (decimal s) = IsText c s
    FitsValue (string s) = IsText c s
    FitsValue (bytes b) = length b < 2 ^ 32
    FitsValue (uuid u) = Unit
    FitsValue (timestamp t) = c.from_micros (c.micros t) ≡ some t
    FitsValue (date d) = Unit
    FitsValue (json j) = FitsJson c (c.view j)
    FitsValue (array items) = (len items ≤ 65536) × FitsItems items

    pub FitsItems : Values F → Type 0
    FitsItems nil = Unit
    FitsItems (cons v vs) = FitsValue v × FitsItems vs

  value_step :
      (f t : ℕ) (body : List ℕ) (v : Value F)
      → t < 256
      → ((g : ℕ) → length body ≤ g → Reads (value_body c (get_value c g) (get_json c g) t) body v)
      → length ((t ∷ []) ++ body) ≤ f
      → Reads (get_value c f) ((t ∷ []) ++ body) v
  unfolding get_value
  value_step zero t body v ht step h = absurd (omega arith)
  value_step (suc f) t body v ht step h = Reads-bind _ (Reads-byte t ht) (step f (omega arith))

  items_list : Values F → List (Value F)
  items_list nil = []
  items_list (cons v vs) = v ∷ items_list vs

  of_list-items_list : (vs : Values F) → of_list (items_list vs) ≡ vs
  unfolding of_list items_list
  of_list-items_list nil = refl
  of_list-items_list (cons v vs) = ap (cons v) (of_list-items_list vs)

  Reads-uuid : (u : F.Uuid) → Reads (get_bytes 16) (c.uuid_bytes u) (c.uuid_bytes u)
  Reads-uuid u = rw (c.uuid_length u) at (Reads-get_bytes (c.uuid_bytes u))

  Reads-date :
      (d : F.Date) (g : ℕ)
      → Reads
          (value_body c (get_value c g) (get_json c g) 0x11)
          (to_le 4 (to_bits 32 (c.days d)) ++ (to_le 4 (c.month d) ++ to_le 4 (c.day d)))
          (date d)
  unfolding value_body scalar
  Reads-date d g =
      Reads-bind _
        (Reads-get_le 4 (to_bits 32 (c.days d)) (from_bits-32 (c.days d) (c.days_fits d)).0)
        (Reads-bind _ (Reads-get_le 4 (c.month d) (omega (arith, c.month_fits d))) (
          Reads-last _ (Reads-get_le 4 (c.day d) (omega (arith, c.day_fits d))) (
            Reads-last _ (Reads-require found)
              (rw (==_refl (c.month d), ==_refl (c.day d)) (Reads-pure (date d))))))
    where
      found : c.from_days (from_bits 32 (to_bits 32 (c.days d))) ≡ some d
      found = rw (from_bits-32 (c.days d) (c.days_fits d)).1 (c.from_days-days d)

  Reads-timestamp :
      (t : F.Timestamp)
      → c.from_micros (c.micros t) ≡ some t
      → (g : ℕ)
      → Reads
          (value_body c (get_value c g) (get_json c g) 0x10)
          (to_le 8 (to_bits 64 (c.micros t)))
          (timestamp t)
  unfolding value_body scalar
  Reads-timestamp t fits g =
      Reads-last _
        (Reads-get_le 8 (to_bits 64 (c.micros t)) (from_bits-64 (c.micros t) (c.micros_fits t)).0)
        (Reads-last _ (Reads-require found) (Reads-pure (timestamp t)))
    where
      found : c.from_micros (from_bits 64 (to_bits 64 (c.micros t))) ≡ some t
      found = rw (from_bits-64 (c.micros t) (c.micros_fits t)).1 fits

  mutual
    unfolding write_value value_body scalar FitsValue len repeat items_list

    Reads-value :
        (v : Value F)
        → FitsValue v
        → (f : ℕ) → length (write_value c v) ≤ f
        → Reads (get_value c f) (write_value c v) v
    Reads-value null fits f h = value_step f 0x00 [] null (omega arith) (λ g le. Reads-pure null) h
    Reads-value (boolean b) fits f h =
        value_step f 0x01 (flag b ∷ []) (boolean b) (omega arith)
          (λ g le.
            Reads-last _ (Reads-byte (flag b) (flag_lem b).0)
              (Reads-pure_eq (ap boolean (flag_lem b).1)))
          h
    Reads-value (int8 n) fits f h =
        value_step f 0x02 (to_bits 8 n ∷ []) (int8 n) (omega arith)
          (λ g le.
            Reads-last _ (Reads-byte (to_bits 8 n) (from_bits-8 n fits).0)
              (Reads-pure_eq (ap int8 (from_bits-8 n fits).1)))
          h
    Reads-value (int16 n) fits f h =
        value_step f 0x03 (to_le 2 (to_bits 16 n)) (int16 n) (omega arith)
          (λ g le.
            Reads-last _ (Reads-get_le 2 (to_bits 16 n) (from_bits-16 n fits).0)
              (Reads-pure_eq (ap int16 (from_bits-16 n fits).1)))
          h
    Reads-value (int32 n) fits f h =
        value_step f 0x04 (to_le 4 (to_bits 32 n)) (int32 n) (omega arith)
          (λ g le.
            Reads-last _ (Reads-get_le 4 (to_bits 32 n) (from_bits-32 n fits).0)
              (Reads-pure_eq (ap int32 (from_bits-32 n fits).1)))
          h
    Reads-value (int64 n) fits f h =
        value_step f 0x05 (to_le 8 (to_bits 64 n)) (int64 n) (omega arith)
          (λ g le.
            Reads-last _ (Reads-get_le 8 (to_bits 64 n) (from_bits-64 n fits).0)
              (Reads-pure_eq (ap int64 (from_bits-64 n fits).1)))
          h
    Reads-value (uint8 n) fits f h =
        value_step f 0x06 (n ∷ []) (uint8 n) (omega arith)
          (λ g le. Reads-last _ (Reads-byte n fits) (Reads-pure (uint8 n))) h
    Reads-value (uint16 n) fits f h =
        value_step f 0x07 (to_le 2 n) (uint16 n) (omega arith)
          (λ g le. Reads-last _ (Reads-get_le 2 n fits) (Reads-pure (uint16 n))) h
    Reads-value (uint32 n) fits f h =
        value_step f 0x08 (to_le 4 n) (uint32 n) (omega arith)
          (λ g le. Reads-last _ (Reads-get_le 4 n fits) (Reads-pure (uint32 n))) h
    Reads-value (uint64 n) fits f h =
        value_step f 0x09 (to_le 8 n) (uint64 n) (omega arith)
          (λ g le. Reads-last _ (Reads-get_le 8 n fits) (Reads-pure (uint64 n))) h
    Reads-value (float32 n) fits f h =
        value_step f 0x0a (to_le 4 n) (float32 n) (omega arith)
          (λ g le. Reads-last _ (Reads-get_le 4 n fits) (Reads-pure (float32 n))) h
    Reads-value (float64 n) fits f h =
        value_step f 0x0b (to_le 8 n) (float64 n) (omega arith)
          (λ g le. Reads-last _ (Reads-get_le 8 n fits) (Reads-pure (float64 n))) h
    Reads-value (decimal s) fits f h =
        value_step f 0x0c (put_str s) (decimal s) (omega arith)
          (λ g le. Reads-last _ (Reads-get_text c s fits.short fits.utf8) (Reads-pure (decimal s)))
          h
    Reads-value (string s) fits f h =
        value_step f 0x0d (put_str s) (string s) (omega arith)
          (λ g le. Reads-last _ (Reads-get_text c s fits.short fits.utf8) (Reads-pure (string s))) h
    Reads-value (bytes b) fits f h =
        value_step f 0x0e (put_len (length b) ++ b) (bytes b) (omega arith)
          (λ g le.
            Reads-bind _ (Reads-put_len (length b) fits)
              (Reads-last _ (Reads-get_bytes b) (Reads-pure (bytes b))))
          h
    Reads-value (uuid u) fits f h =
        value_step f 0x0f (c.uuid_bytes u) (uuid u) (omega arith)
          (λ g le.
            Reads-last _ (Reads-uuid u)
              (Reads-last _ (Reads-require (c.uuid_lem u)) (Reads-pure (uuid u))))
          h
    Reads-value (timestamp t) fits f h =
        value_step f 0x10 (to_le 8 (to_bits 64 (c.micros t))) (timestamp t) (omega arith)
          (λ g le. Reads-timestamp t fits g) h
    Reads-value (date d) fits f h =
        value_step f 0x11
          (to_le 4 (to_bits 32 (c.days d)) ++ (to_le 4 (c.month d) ++ to_le 4 (c.day d))) (date d)
          (omega arith) (λ g le. Reads-date d g) h
    Reads-value (json j) fits f h =
        value_step f 0x12 (write_json (c.view j)) (json j) (omega arith)
          (λ g le.
            Reads-last _ (Reads-json c (c.view j) fits g le)
              (Reads-pure_eq (ap json (c.build-view j))))
          h
    Reads-value (array items) (few, fits) f h =
        value_step f 0x13 (put_len (len items) ++ write_items c items) (array items) (omega arith)
          (λ g le. Reads-bind _ (Reads-get_count 65536 (len items) (omega arith) few) (
            Reads-last _
              (Reads-items items fits g
                (omega (arith, le, length-append (put_len (len items)) (write_items c items))))
              (Reads-pure_eq (ap array (of_list-items_list items)))))
          h

    Reads-items :
        (vs : Values F)
        → FitsItems vs
        → (f : ℕ) → length (write_items c vs) ≤ f
        → Reads (repeat (len vs) (get_value c f)) (write_items c vs) (items_list vs)
    Reads-items nil fits f h = Reads-pure []
    Reads-items (cons v vs) (fit, fits) f h =
        let long = length-append (write_value c v) (write_items c vs) in
        Reads-bind _ (Reads-value v fit f (omega (arith, h, long))) (
          Reads-last _ (Reads-items vs fits f (omega (arith, h, long)))
            (Reads-pure (v ∷ items_list vs)))

  pub Reads-read_value : (v : Value F) → FitsValue v → Reads (read_value c) (write_value c v) v
  unfolding read_value
  Reads-read_value v fits = record {
    reads = λ rest.
        (Reads-value v fits (length (write_value c v ++ rest))
            (omega (arith, length-append (write_value c v) rest))).reads
          rest;
  }
