-- ===== src/Tests/Json.antt =====
-- JSON values for the tests. Their text is written for objects of small numbers only: each field is
-- the length of its key, the key, and the number.
use blitz_db.Prelude.{
  ℕ, zero, suc, ◌^◌, String, Bool, true, false, ◌&&◌, List, [], ◌∷◌, ◌++◌, length, take, drop, none,
  some, ltb, ◌==◌, if◌then◌else◌, ◌≡◌, refl, arith, both, ==_iff, eq_iff, str_eq,
}
use blitz_db.Prelude.Map.{Map}
use blitz_db.Prelude.Order.{
  ℤ, pos, eq_int, eq_int_sound, eq_bool, eq_bool_sound, eq_bytes, eq_bytes_sound,
}
use blitz_db.Types.Value.{Foreign}
use blitz_db.Durability.Payload.{Serde, Shape, IsFlat, is_finite, read_back}
use blitz_db.Tests.{ordered_nat}
use blitz_db.Tests.Wire.{codes, from_codes, from_codes-codes}

mutual
  pub data Doc : Type 0 where
    null : Doc
    boolean : Bool → Doc
    int : ℤ → Doc
    uint float : ℕ → Doc
    string : List ℕ → Doc
    array : Docs → Doc
    object : Fields → Doc

  pub data Docs : Type 0 where
    nil : Docs
    cons : Doc → Docs → Docs

  pub data Fields : Type 0 where
    end : Fields
    field : String → Doc → Fields → Fields

unfoldable mutual
  pub doc_eq : Doc → Doc → Bool
  doc_eq null null = true
  doc_eq (boolean a) (boolean b) = eq_bool a b
  doc_eq (int a) (int b) = eq_int a b
  doc_eq (uint a) (uint b) = a == b
  doc_eq (float a) (float b) = a == b
  doc_eq (string a) (string b) = eq_bytes a b
  doc_eq (array a) (array b) = docs_eq a b
  doc_eq (object a) (object b) = fields_eq a b
  doc_eq _ _ = false

  docs_eq : Docs → Docs → Bool
  docs_eq nil nil = true
  docs_eq (cons a xs) (cons b ys) = doc_eq a b && docs_eq xs ys
  docs_eq _ _ = false

  fields_eq : Fields → Fields → Bool
  fields_eq end end = true
  fields_eq (field k a xs) (field l b ys) = str_eq k l && (doc_eq a b && fields_eq xs ys)
  fields_eq _ _ = false

mutual
  unfolding doc_eq

  pub doc_eq_sound : (a b : Doc) → doc_eq a b ≡ true → a ≡ b
  doc_eq_sound null null h = refl
  doc_eq_sound (boolean a) (boolean b) h = cc (eq_bool_sound a b h)
  doc_eq_sound (int a) (int b) h = cc (eq_int_sound a b h)
  doc_eq_sound (uint a) (uint b) h = cc ((==_iff a b).0 h)
  doc_eq_sound (float a) (float b) h = cc ((==_iff a b).0 h)
  doc_eq_sound (string a) (string b) h = cc (eq_bytes_sound a b h)
  doc_eq_sound (array a) (array b) h = cc (docs_eq_sound a b h)
  doc_eq_sound (object a) (object b) h = cc (fields_eq_sound a b h)
  doc_eq_sound _ _ h = cc

  docs_eq_sound : (a b : Docs) → docs_eq a b ≡ true → a ≡ b
  docs_eq_sound nil nil h = refl
  docs_eq_sound (cons a xs) (cons b ys) h =
      let hs = both (doc_eq a b) (docs_eq xs ys) h in
      cc (doc_eq_sound a b hs.0, docs_eq_sound xs ys hs.1)
  docs_eq_sound _ _ h = cc

  fields_eq_sound : (a b : Fields) → fields_eq a b ≡ true → a ≡ b
  fields_eq_sound end end h = refl
  fields_eq_sound (field k a xs) (field l b ys) h =
      let hs = both (str_eq k l) (doc_eq a b && fields_eq xs ys) h in
      let ts = both (doc_eq a b) (fields_eq xs ys) hs.1 in
      cc ((eq_iff k l).0 hs.0, doc_eq_sound a b ts.0, fields_eq_sound xs ys ts.1)
  fields_eq_sound _ _ h = cc

abbrev pub documents : Foreign
documents = record {
  Uuid = ℕ;
  Timestamp = ℕ;
  Date = ℕ;
  Json = Doc;
  uuids = ordered_nat;
  timestamps = ordered_nat;
  dates = ordered_nat;
  json_eq = doc_eq;
  json_text = λ d. [];
  json_sound = λ a b e t. doc_eq_sound a b e;
}

abbrev pub to_docs : List Doc → Docs
to_docs [] = nil
to_docs (d ∷ ds) = cons d (to_docs ds)

abbrev pub from_docs : Docs → List Doc
from_docs nil = []
from_docs (cons d ds) = d ∷ from_docs ds

from_docs-to_docs : (ds : List Doc) → from_docs (to_docs ds) ≡ ds
from_docs-to_docs [] = refl
from_docs-to_docs (d ∷ ds) = rw (from_docs-to_docs ds) refl

abbrev pub to_fields : Map String Doc → Fields
to_fields [] = end
to_fields ((k, d) ∷ m) = field k d (to_fields m)

abbrev pub from_fields : Fields → Map String Doc
from_fields end = []
from_fields (field k d fs) = (k, d) ∷ from_fields fs

pub from_fields-to_fields : (m : Map String Doc) → from_fields (to_fields m) ≡ m
from_fields-to_fields [] = refl
from_fields-to_fields ((k, d) ∷ m) = rw (from_fields-to_fields m) refl

abbrev pub shape : Doc → Shape documents
shape null = Shape.null
shape (boolean b) = Shape.boolean b
shape (int z) = Shape.int z
shape (uint n) = Shape.uint n
shape (float b) = Shape.float b
shape (string t) = Shape.string t
shape (array ds) = Shape.array (from_docs ds)
shape (object fs) = Shape.object (from_fields fs)

abbrev pub of_shape : Shape documents → Doc
of_shape Shape.null = null
of_shape Shape.odd = null
of_shape (Shape.boolean b) = boolean b
of_shape (Shape.int z) = int z
of_shape (Shape.uint n) = if ltb n (2 ^ 63) then int (pos n) else uint n
of_shape (Shape.float b) = if is_finite b then float b else null
of_shape (Shape.string t) = string t
of_shape (Shape.array ds) = array (to_docs ds)
of_shape (Shape.object m) = object (to_fields m)

pub shape-of_shape : (s : Shape documents) → IsFlat s → shape (of_shape s) ≡ read_back s
shape-of_shape Shape.null h = refl
shape-of_shape Shape.odd h = absurd h
shape-of_shape (Shape.boolean b) h = refl
shape-of_shape (Shape.int z) h = refl
shape-of_shape (Shape.uint n) h = ground arith
shape-of_shape (Shape.float b) h = ground arith
shape-of_shape (Shape.string t) h = refl
shape-of_shape (Shape.array ds) h = rw (from_docs-to_docs ds) refl
shape-of_shape (Shape.object m) h = absurd h

abbrev pub write_fields : Fields → List ℕ
write_fields (field k (int (pos n)) fs) = length (codes k) ∷ (codes k ++ (n ∷ write_fields fs))
write_fields _ = []

abbrev pub text_of : List ℕ → String
text_of bs = elim (from_codes bs) [ none ↦ "" | some t ↦ t ]

abbrev pub parse_number : List ℕ → Doc
parse_number [] = null
parse_number (n ∷ bs) = int (pos n)

abbrev pub parse_fields : ℕ → List ℕ → Fields
parse_fields zero bs = end
parse_fields (suc fuel) [] = end
parse_fields (suc fuel) (n ∷ bs) =
    field (text_of (take n bs)) (parse_number (drop n bs)) (parse_fields fuel (drop (suc n) bs))

abbrev pub to_vec : Doc → List ℕ
to_vec (object fs) = write_fields fs
to_vec _ = []

pub text_of-codes : (t : String) → text_of (codes t) ≡ t
text_of-codes t = rw (from_codes-codes t, text_of) refl

abbrev pub serde : Serde documents
serde = record {
  shape = shape;
  of_shape = of_shape;
  to_vec = to_vec;
  from_slice = λ bs. some (object (parse_fields (length bs) bs));
  uuid_text = λ u. u ∷ [];
  timestamp_text = λ t. t ∷ [];
  date_text = λ d. d ∷ [];
  widen = λ b. b;
  as_bytes = codes;
  text = text_of;
  text-as_bytes = text_of-codes;
  flat = shape-of_shape;
  fields = λ m. (from_fields (to_fields m), refl, λ k. rw (from_fields-to_fields m) refl);
}
