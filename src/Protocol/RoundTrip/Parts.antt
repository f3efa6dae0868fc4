-- ===== src/Protocol/RoundTrip/Parts.antt =====
-- Numbers, counts, texts and options read back as they were written.
use blitz_db.Prelude.{
  ℕ, ◌%◌, ◌^◌, ◌≤◌, ◌<◌, String, Bool, false, not, Option, none, some, List, [], ◌∷◌, length, All,
  ltb, ◌==◌, ◌≡◌, refl, arith,
}
use blitz_db.Prelude.Bytes.{to_le, from_le-to_le, length-to_le}
use blitz_db.Prelude.Reader.{
  Reads, Reads-bind, Reads-last, Reads-pure, pure, repeat, Reads-take_bytes,
}
use blitz_db.Types.Value.{Foreign}
use blitz_db.Protocol.Wire.{Wire}
use blitz_db.Protocol.Writer.{flag, put_len, put_str, write_name, write_option, write_all}
use blitz_db.Protocol.Decoder.{
  ProtocolError, decode_error, Decode, get_bytes, get_le, require, get_count, get_text, get_name,
  get_option,
}

pub Reads-get_bytes : (xs : List ℕ) → Reads (get_bytes (length xs)) xs xs
unfolding get_bytes
Reads-get_bytes xs = Reads-take_bytes decode_error xs

pub Reads-get_le : (n v : ℕ) → v < 256 ^ n → Reads (get_le n) (to_le n v) v
unfolding get_le
Reads-get_le n v h = Reads-last _ read (rw (from_le-to_le n v h) (Reads-pure v))
  where
    read : Reads (get_bytes n) (to_le n v) (to_le n v)
    read = rw (length-to_le n v) at (Reads-get_bytes (to_le n v))

pub Reads-byte : (b : ℕ) → b < 256 → Reads (get_le 1) (b ∷ []) b
Reads-byte b h = rw one at (Reads-get_le 1 b (omega arith))
  where
    one : to_le 1 b ≡ b ∷ []
    one = unfold to_le in ground arith

module _ {A : Type 0} where
  pub Reads-pure_eq : {a b : A} → a ≡ b → Reads {E = ProtocolError} (pure a) [] b
  Reads-pure_eq {a} {b} h = rw h (Reads-pure b)

  pub Reads-require : {o : Option A} {a : A} → o ≡ some a → Reads (require o) [] a
  unfolding require
  Reads-require {o} {a} h = rw h (Reads-pure a)

  pub Reads-repeat :
      (p : Decode A) (put : A → List ℕ) (xs : List A)
      → All (λ x. Reads p (put x) x) xs
      → Reads (repeat (length xs) p) (write_all put xs) xs
  unfolding repeat write_all
  Reads-repeat p put [] h = Reads-pure []
  Reads-repeat p put (x ∷ xs) (h, hs) =
      Reads-bind _ h (Reads-last _ (Reads-repeat p put xs hs) (Reads-pure (x ∷ xs)))

  pub Reads-get_option :
      {p : Decode A} (put : A → List ℕ) (o : Option A)
      → ((a : A) → o ≡ some a → Reads p (put a) a)
      → Reads (get_option p) (write_option put o) o
  unfolding get_option write_option
  Reads-get_option put none h = Reads-last _ (Reads-byte 0 (omega arith)) (Reads-pure none)
  Reads-get_option put (some a) h =
      Reads-bind _ (Reads-byte 1 (omega arith)) (Reads-last _ (h a refl) (Reads-pure (some a)))

pub Reads-put_len : (n : ℕ) → n < 2 ^ 32 → Reads (get_le 4) (put_len n) n
Reads-put_len n h = rw low (Reads-get_le 4 n (omega arith))
  where
    low : n % 2 ^ 32 ≡ n
    low = omega arith

pub Reads-get_count : (limit n : ℕ) → n < 2 ^ 32 → n ≤ limit → Reads (get_count limit) (put_len n) n
unfolding get_count
Reads-get_count limit n h le = Reads-last _ (Reads-put_len n h) (rw within (Reads-pure n))
  where
    within : ltb limit n ≡ false
    within = ground arith

pub flag_lem : (b : Bool) → (flag b < 256) × (not (flag b == 0) ≡ b)
flag_lem b = ground arith

module _ {F : Foreign} (c : Wire F) where
  pub Reads-get_text :
      (bs : List ℕ) {s : String}
      → length bs < 2 ^ 32
      → c.from_utf8 bs ≡ some s
      → Reads (get_text c) (put_str bs) bs
  unfolding get_text put_str
  Reads-get_text bs h u =
      Reads-bind _ (Reads-put_len (length bs) h)
        (Reads-last _ (Reads-get_bytes bs) (Reads-last _ (Reads-require u) (Reads-pure bs)))

  pub Reads-get_name :
      (s : String) → length (c.as_bytes s) < 2 ^ 32 → Reads (get_name c) (write_name c s) s
  unfolding get_name write_name put_str
  Reads-get_name s h =
      Reads-bind _ (Reads-put_len (length (c.as_bytes s)) h)
        (Reads-last _ (Reads-get_bytes (c.as_bytes s)) (Reads-require (c.from_utf8-as_bytes s)))
