-- ===== src/Prelude/Reader.antt =====
-- Readers of bytes: what is left of the input is passed on, and an error ends the reading.
use blitz_db.Prelude.Lists.{length}
use blitz_db.Prelude.Outcomes.{Result, ok, err}
use Prim.Native.Nat.{ℕ, zero, suc}
use mathlib.Core.Path.{◌≡◌, refl}
use mathlib.Core.List.{List, [], ◌∷◌, ◌++◌, append_assoc}

abbrev pub Reader : Type 0 → Type 0 → Type 0
Reader E A = List ℕ → Result E (A × List ℕ)

infixl 5 ◌>>=◌
abbrev pub ◌>>=◌ : {E A B : Type 0} → Reader E A → (A → Reader E B) → Reader E B
◌>>=◌ p f src = elim (p src) [ ok (a, rest) ↦ f a rest | err e ↦ err e ]

abbrev pub pure : {E A : Type 0} → A → Reader E A
pure a src = ok (a, src)

abbrev pub fail : {E A : Type 0} → E → Reader E A
fail e src = err e

-- A reader that turns `xs` into `a` and leaves whatever follows.
pub record Reads {E A : Type 0} (p : Reader E A) (xs : List ℕ) (a : A) : Type 0 where
  pub reads : (rest : List ℕ) → p (xs ++ rest) ≡ ok (a, rest)

module _ {E A B : Type 0} where
  pub Reads-bind :
      {p : Reader E A} (f : A → Reader E B) {xs ys : List ℕ} {a : A} {b : B}
      → Reads p xs a
      → Reads (f a) ys b
      → Reads (p >>= f) (xs ++ ys) b
  Reads-bind {p} f {xs} {ys} {a} {b} hp hf = record {
    reads = λ rest. rw (append_assoc xs ys rest, hp.reads (ys ++ rest), ◌>>=◌) (hf.reads rest);
  }

  -- The same where the second reader takes nothing.
  pub Reads-last :
      {p : Reader E A} (f : A → Reader E B) {xs : List ℕ} {a : A} {b : B}
      → Reads p xs a
      → Reads (f a) [] b
      → Reads (p >>= f) xs b
  Reads-last {p} f {xs} {a} {b} hp hf = record {
    reads = λ rest. rw (hp.reads rest, ◌>>=◌) (hf.reads rest);
  }

module _ {E A : Type 0} where
  pub Reads-pure : (a : A) → Reads {E = E} (pure a) [] a
  Reads-pure a = record { reads = λ rest. refl }

-- `n` bytes, or the error if there are fewer.
abbrev cons_read : {E : Type 0} → ℕ → Result E (List ℕ × List ℕ) → Result E (List ℕ × List ℕ)
cons_read b (ok (xs, rest)) = ok (b ∷ xs, rest)
cons_read b (err e) = err e

unfoldable pub take_bytes : {E : Type 0} → E → ℕ → Reader E (List ℕ)
take_bytes e zero src = ok ([], src)
take_bytes e (suc n) [] = err e
take_bytes e (suc n) (b ∷ src) = cons_read b (take_bytes e n src)

-- `n` rounds of a reader.
unfoldable pub repeat : {E A : Type 0} → ℕ → Reader E A → Reader E (List A)
repeat zero p = pure []
repeat (suc n) p = p >>= λ a. repeat n p >>= λ as'. pure (a ∷ as')

pub take_bytes-append :
    {E : Type 0} (e : E) (xs rest : List ℕ) → take_bytes e (length xs) (xs ++ rest) ≡ ok (xs, rest)
unfolding take_bytes
take_bytes-append e [] rest = refl
take_bytes-append e (x ∷ xs) rest = rw (take_bytes-append e xs rest)

pub Reads-take_bytes : {E : Type 0} (e : E) (xs : List ℕ) → Reads (take_bytes e (length xs)) xs xs
Reads-take_bytes e xs = record { reads = λ rest. take_bytes-append e xs rest }
