-- ===== src/Protocol/RoundTrip/Json.antt =====
-- JSON values read back as they were written.
use blitz_db.Prelude.{
  ℕ, zero, suc, ◌^◌, ◌≤◌, ◌<◌, String, Bool, true, false, some, List, [], ◌∷◌, ◌++◌, length,
  length-append, if◌then◌else◌, ◌≡◌, refl, ap, ◌∙◌, arith,
}
use mathlib.Core.List.{append_assoc}
use blitz_db.Prelude.Bytes.{to_le}
use blitz_db.Prelude.Order.{eq_bytes}
use blitz_db.Prelude.Reader.{Reads, Reads-bind, Reads-last, Reads-pure, ◌>>=◌, pure, repeat}
use blitz_db.Types.Value.{Foreign}
use blitz_db.Protocol.Wire.{Wire, InRange, to_bits, from_bits-64, JsonView, JsonItems, JsonFields}
use blitz_db.Protocol.Writer.{
  flag, put_len, put_str, count_items, count_fields, write_json, write_json_items,
  write_json_fields,
}
use blitz_db.Protocol.Decoder.{get_json, json_body, json_items, json_insert, json_fields, get_text}
use blitz_db.Protocol.RoundTrip.Parts.{
  Reads-byte, Reads-get_le, Reads-get_count, Reads-get_text, Reads-pure_eq, flag_lem,
}

-- No field of the object has the key.
unfoldable pub has_key : JsonFields → List ℕ → Bool
has_key JsonFields.end k = false
has_key (JsonFields.field i j fs) k = if eq_bytes i k then true else has_key fs k

-- No key comes twice: each is new to the object that the fields before it make.
unfoldable pub Fresh : JsonFields → JsonFields → Type 0
Fresh out JsonFields.end = Unit
Fresh out (JsonFields.field k j fs) = (has_key out k ≡ false) × Fresh (json_insert out k j) fs

items_list : JsonItems → List JsonView
items_list JsonItems.nil = []
items_list (JsonItems.cons j js) = j ∷ items_list js

fields_list : JsonFields → List (List ℕ × JsonView)
fields_list JsonFields.end = []
fields_list (JsonFields.field k j fs) = (k, j) ∷ fields_list fs

json_items-items_list : (js : JsonItems) → json_items (items_list js) ≡ js
unfolding json_items items_list
json_items-items_list JsonItems.nil = refl
json_items-items_list (JsonItems.cons j js) = ap (JsonItems.cons j) (json_items-items_list js)

join : JsonFields → JsonFields → JsonFields
join JsonFields.end gs = gs
join (JsonFields.field k j fs) gs = JsonFields.field k j (join fs gs)

json_insert-join :
    (fs : JsonFields) (k : List ℕ) (j : JsonView)
    → has_key fs k ≡ false
    → json_insert fs k j ≡ join fs (JsonFields.field k j JsonFields.end)
unfolding json_insert join has_key
json_insert-join JsonFields.end k j h = refl
json_insert-join (JsonFields.field i v fs) k j h = ground (arith, json_insert-join fs k j)

join-end : (fs : JsonFields) → join fs JsonFields.end ≡ fs
unfolding join
join-end JsonFields.end = refl
join-end (JsonFields.field k j fs) = ap (JsonFields.field k j) (join-end fs)

join_assoc : (fs gs hs : JsonFields) → join (join fs gs) hs ≡ join fs (join gs hs)
unfolding join
join_assoc JsonFields.end gs hs = refl
join_assoc (JsonFields.field k j fs) gs hs = ap (JsonFields.field k j) (join_assoc fs gs hs)

json_fields-fields_list :
    (fs out : JsonFields) → Fresh out fs → json_fields out (fields_list fs) ≡ join out fs
unfolding json_fields fields_list Fresh join
json_fields-fields_list JsonFields.end out h = rw (join-end out) refl
json_fields-fields_list (JsonFields.field k j fs) out (new, h) =
    json_fields-fields_list fs (json_insert out k j) h
    ∙ (ap (λ gs. join gs fs) (json_insert-join out k j new)
        ∙ join_assoc out (JsonFields.field k j JsonFields.end) fs)

module _ {F : Foreign} (c : Wire F) where
  -- A text that is UTF-8 and whose length fits four bytes.
  pub record IsText (bs : List ℕ) : Type 0 where
    pub short : length bs < 2 ^ 32
    pub text : String
    pub utf8 : c.from_utf8 bs ≡ some text

  -- Numbers fit their widths, counts their bounds, and the keys of an object differ.
  unfoldable mutual
    unfolding count_items count_fields Fresh

    pub FitsJson : JsonView → Type 0
    FitsJson JsonView.null = Unit
    FitsJson (JsonView.boolean b) = Unit
    FitsJson (JsonView.int i) = InRange 64 i
    FitsJson (JsonView.uint u) = u < 2 ^ 64
    FitsJson (JsonView.float f) = f < 2 ^ 64
    FitsJson (JsonView.string s) = IsText s
    FitsJson (JsonView.array items) = (count_items items ≤ 65536) × FitsItems items
    FitsJson (JsonView.object fields) =
        (count_fields fields ≤ 4096) × (Fresh JsonFields.end fields × FitsFields fields)

    pub FitsItems : JsonItems → Type 0
    FitsItems JsonItems.nil = Unit
    FitsItems (JsonItems.cons j js) = FitsJson j × FitsItems js

    pub FitsFields : JsonFields → Type 0
    FitsFields JsonFields.end = Unit
    FitsFields (JsonFields.field k j fs) = IsText k × (FitsJson j × FitsFields fs)

  json_step :
      (f t : ℕ) (body : List ℕ) (j : JsonView)
      → t < 256
      → ((g : ℕ) → length body ≤ g → Reads (json_body c (get_json c g) t) body j)
      → length ((t ∷ []) ++ body) ≤ f
      → Reads (get_json c f) ((t ∷ []) ++ body) j
  unfolding get_json
  json_step zero t body j ht step h = absurd (omega arith)
  json_step (suc f) t body j ht step h = Reads-bind _ (Reads-byte t ht) (step f (omega arith))

  mutual
    unfolding write_json json_body FitsJson join count_items count_fields repeat items_list
        fields_list

    pub Reads-json :
        (j : JsonView)
        → FitsJson j
        → (f : ℕ) → length (write_json j) ≤ f
        → Reads (get_json c f) (write_json j) j
    Reads-json JsonView.null fits f h =
        json_step f 0x00 [] JsonView.null (omega arith) (λ g le. Reads-pure JsonView.null) h
    Reads-json (JsonView.boolean b) fits f h =
        json_step f 0x01 (flag b ∷ []) (JsonView.boolean b) (omega arith)
          (λ g le.
            Reads-last _ (Reads-byte (flag b) (flag_lem b).0)
              (Reads-pure_eq (ap JsonView.boolean (flag_lem b).1)))
          h
    Reads-json (JsonView.int i) fits f h =
        json_step f 0x05 (to_le 8 (to_bits 64 i)) (JsonView.int i) (omega arith)
          (λ g le.
            Reads-last _ (Reads-get_le 8 (to_bits 64 i) (from_bits-64 i fits).0)
              (Reads-pure_eq (ap JsonView.int (from_bits-64 i fits).1)))
          h
    Reads-json (JsonView.uint u) fits f h =
        json_step f 0x09 (to_le 8 u) (JsonView.uint u) (omega arith)
          (λ g le. Reads-last _ (Reads-get_le 8 u fits) (Reads-pure (JsonView.uint u))) h
    Reads-json (JsonView.float u) fits f h =
        json_step f 0x0b (to_le 8 u) (JsonView.float u) (omega arith)
          (λ g le. Reads-last _ (Reads-get_le 8 u fits) (Reads-pure (JsonView.float u))) h
    Reads-json (JsonView.string s) fits f h =
        json_step f 0x0d (put_str s) (JsonView.string s) (omega arith)
          (λ g le.
            Reads-last _ (Reads-get_text c s fits.short fits.utf8) (Reads-pure (JsonView.string s)))
          h
    Reads-json (JsonView.array items) (few, fits) f h =
        json_step f 0x13 (put_len (count_items items) ++ write_json_items items)
          (JsonView.array items) (omega arith)
          (λ g le. Reads-bind _ (Reads-get_count 65536 (count_items items) (omega arith) few) (
            Reads-last _
              (Reads-items items fits g (
                omega (
                  arith,
                  le,
                  length-append (put_len (count_items items)) (write_json_items items),
                )))
              (Reads-pure_eq (ap JsonView.array (json_items-items_list items)))))
          h
    Reads-json (JsonView.object fields) (few, (new, fits)) f h =
        json_step f 0x12 (put_len (count_fields fields) ++ write_json_fields fields)
          (JsonView.object fields) (omega arith)
          (λ g le. Reads-bind _ (Reads-get_count 4096 (count_fields fields) (omega arith) few) (
            Reads-last _
              (Reads-fields fields fits g (
                omega (
                  arith,
                  le,
                  length-append (put_len (count_fields fields)) (write_json_fields fields),
                )))
              (Reads-pure_eq
                (ap JsonView.object (json_fields-fields_list fields JsonFields.end new)))))
          h

    Reads-items :
        (js : JsonItems)
        → FitsItems js
        → (f : ℕ) → length (write_json_items js) ≤ f
        → Reads (repeat (count_items js) (get_json c f)) (write_json_items js) (items_list js)
    Reads-items JsonItems.nil fits f h = Reads-pure []
    Reads-items (JsonItems.cons j js) (fit, fits) f h =
        let long = length-append (write_json j) (write_json_items js) in
        Reads-bind _ (Reads-json j fit f (omega (arith, h, long))) (
          Reads-last _ (Reads-items js fits f (omega (arith, h, long)))
            (Reads-pure (j ∷ items_list js)))

    Reads-fields :
        (fs : JsonFields)
        → FitsFields fs
        → (f : ℕ) → length (write_json_fields fs) ≤ f
        → Reads
            (repeat (count_fields fs) (get_text c >>= λ k. get_json c f >>= λ j. pure (k, j)))
            (write_json_fields fs)
            (fields_list fs)
    Reads-fields JsonFields.end fits f h = Reads-pure []
    Reads-fields (JsonFields.field k j fs) (text, (fit, fits)) f h =
        let long = length-append (put_str k) (write_json j ++ write_json_fields fs) in
        let longer = length-append (write_json j) (write_json_fields fs) in
        rw⁻¹ (append_assoc (put_str k) (write_json j) (write_json_fields fs)) (
          Reads-bind _
            (Reads-bind _ (Reads-get_text c k text.short text.utf8) (
              Reads-last _ (Reads-json j fit f (omega (arith, h, long, longer)))
                (Reads-pure (k, j))))
            (Reads-last _ (Reads-fields fs fits f (omega (arith, h, long, longer)))
              (Reads-pure ((k, j) ∷ fields_list fs))))
