-- ===== src/Wal/Reader.antt =====
-- `std::io::Read` over the bytes of a file that are left, as the log's `read_from` functions use it.
use blitz_db.Prelude.{
  ℕ, zero, suc, ◌+◌, ◌≤◌, ◌<◌, ◌^◌, List, [], ◌∷◌, ◌++◌, length, Result, ok, err, Result-cases, inl,
  inr, ◌≡◌, ◌≢◌, refl, arith,
}
use mathlib.Core.List.{append_assoc}
use blitz_db.Prelude.Bytes.{to_le, from_le, from_le-to_le, length-to_le}

-- crates/blitz-wal/src/error.rs: of the I/O errors only the unexpected end of the file is modelled.
pub data WalError : Type 0 where
  unexpected_eof corruption : WalError

abbrev pub Reader : Type 0 → Type 0
Reader A = List ℕ → Result WalError (A × List ℕ)

infixl 5 ◌>>=◌
abbrev pub ◌>>=◌ : {A B : Type 0} → Reader A → (A → Reader B) → Reader B
◌>>=◌ p f src = elim (p src) [ ok (a, rest) ↦ f a rest | err e ↦ err e ]

abbrev pub pure : {A : Type 0} → A → Reader A
pure a src = ok (a, src)

abbrev pub fail : {A : Type 0} → WalError → Reader A
fail e src = err e

-- One more byte in front of what was read.
abbrev cons_read : ℕ → Result WalError (List ℕ × List ℕ) → Result WalError (List ℕ × List ℕ)
cons_read b (ok (xs, rest)) = ok (b ∷ xs, rest)
cons_read b (err e) = err e

-- `reader.read_exact(&mut buf)` for a buffer of the given size.
unfoldable pub read_exact : ℕ → Reader (List ℕ)
read_exact zero src = ok ([], src)
read_exact (suc n) [] = err unexpected_eof
read_exact (suc n) (b ∷ src) = cons_read b (read_exact n src)

-- `u32::from_le_bytes(buf)` and the like, behind `read_exact`.
unfoldable pub read_le : ℕ → Reader ℕ
read_le n = read_exact n >>= λ buf. pure (from_le buf)

pub read_exact-append : (xs rest : List ℕ) → read_exact (length xs) (xs ++ rest) ≡ ok (xs, rest)
unfolding read_exact
read_exact-append [] rest = refl
read_exact-append (x ∷ xs) rest = rw (read_exact-append xs rest)

pub read_le-to_le :
    (n v : ℕ) (rest : List ℕ) → v < 256 ^ n → read_le n (to_le n v ++ rest) ≡ ok (v, rest)
unfolding read_le
read_le-to_le n v rest h =
    let read : read_exact n (to_le n v ++ rest) ≡ ok (to_le n v, rest) =
      rw (length-to_le n v) at (read_exact-append (to_le n v) rest) in
    ground (arith, read, from_le-to_le n v h)

-- A reader that turns `xs` into `a` and leaves whatever follows.
pub record Reads {A : Type 0} (p : Reader A) (xs : List ℕ) (a : A) : Type 0 where
  pub reads : (rest : List ℕ) → p (xs ++ rest) ≡ ok (a, rest)

module _ {A B : Type 0} where
  pub Reads-bind :
      {p : Reader A} (f : A → Reader B) {xs ys : List ℕ} {a : A} {b : B}
      → Reads p xs a
      → Reads (f a) ys b
      → Reads (p >>= f) (xs ++ ys) b
  Reads-bind {p} f {xs} {ys} {a} {b} hp hf = record {
    reads = λ rest. rw (append_assoc xs ys rest, hp.reads (ys ++ rest), ◌>>=◌) (hf.reads rest);
  }

  -- The same where the second reader takes nothing.
  pub Reads-last :
      {p : Reader A} (f : A → Reader B) {xs : List ℕ} {a : A} {b : B}
      → Reads p xs a
      → Reads (f a) [] b
      → Reads (p >>= f) xs b
  Reads-last {p} f {xs} {a} {b} hp hf = record {
    reads = λ rest. rw (hp.reads rest, ◌>>=◌) (hf.reads rest);
  }

module _ {A : Type 0} where
  pub Reads-pure : (a : A) → Reads (pure a) [] a
  Reads-pure a = record { reads = λ rest. refl }

-- A reader that takes at least `k` bytes when it succeeds, and whose verdict, if it is not the end
-- of the file, stays when more bytes follow.
pub record Extends {A : Type 0} (k : ℕ) (p : Reader A) : Type 0 where
  pub takes : (src rest : List ℕ) (a : A) → p src ≡ ok (a, rest) → length rest + k ≤ length src
  pub on_ok :
      (src more rest : List ℕ) (a : A)
      → p src ≡ ok (a, rest)
      → p (src ++ more) ≡ ok (a, rest ++ more)
  pub on_corruption :
      (src more : List ℕ) → p src ≡ err corruption → p (src ++ more) ≡ err corruption

module _ {A B : Type 0} where
  pub Extends-bind :
      {j k : ℕ} {p : Reader A} {f : A → Reader B}
      → Extends j p
      → ((a : A) → Extends k (f a))
      → Extends (j + k) (p >>= f)
  Extends-bind {j} {k} {p} {f} hp hf = record {
    takes = λ src rest b h. elim (Result-cases (p src)) [
      | inr (e, failed) ↦ ground (arith, failed)
      | inl ((a, mid), read) ↦
          ground (arith, read, hp.takes src mid a read, (hf a).takes mid rest b)
    ];
    on_ok = λ src more rest b h. elim (Result-cases (p src)) [
      | inr (e, failed) ↦ ground (arith, failed)
      | inl ((a, mid), read) ↦
          ground (arith, read, hp.on_ok src more mid a read, (hf a).on_ok mid more rest b)
    ];
    on_corruption = λ src more h. elim (Result-cases (p src)) [
      | inr (e, failed) ↦ ground (arith, failed, hp.on_corruption src more)
      | inl ((a, mid), read) ↦
          ground (arith, read, hp.on_ok src more mid a read, (hf a).on_corruption mid more)
    ];
  }

module _ {A : Type 0} where
  pub Extends-weaken : {j : ℕ} (k : ℕ) {p : Reader A} → Extends j p → k ≤ j → Extends k p
  Extends-weaken k h le = record {
    takes = λ src rest a e. omega (arith, h.takes src rest a e);
    on_ok = h.on_ok;
    on_corruption = h.on_corruption;
  }

  pub Extends-pure : (a : A) → Extends 0 (pure a)
  Extends-pure a = record {
    takes = λ src rest b h. ground arith;
    on_ok = λ src more rest b h. ground arith;
    on_corruption = λ src more h. cc;
  }

  pub Extends-fail : Extends 0 (fail {A = A} corruption)
  Extends-fail = record {
    takes = λ src rest b h. cc;
    on_ok = λ src more rest b h. cc;
    on_corruption = λ src more h. refl;
  }

read_exact_takes :
    (n : ℕ) (src rest a : List ℕ) → read_exact n src ≡ ok (a, rest) → length rest + n ≤ length src
unfolding read_exact
read_exact_takes zero src rest a h = ground arith
read_exact_takes (suc n) [] rest a h = cc
read_exact_takes (suc n) (b ∷ src) rest a h = elim (Result-cases (read_exact n src)) [
  | inr (e, failed) ↦ ground (arith, failed)
  | inl ((xs, mid), read) ↦ ground (arith, read, read_exact_takes n src mid xs read)
]

read_exact_ok :
    (n : ℕ) (src more rest a : List ℕ)
    → read_exact n src ≡ ok (a, rest)
    → read_exact n (src ++ more) ≡ ok (a, rest ++ more)
unfolding read_exact
read_exact_ok zero src more rest a h = ground arith
read_exact_ok (suc n) [] more rest a h = cc
read_exact_ok (suc n) (b ∷ src) more rest a h = elim (Result-cases (read_exact n src)) [
  | inr (e, failed) ↦ ground (arith, failed)
  | inl ((xs, mid), read) ↦ ground (arith, read, read_exact_ok n src more mid xs read)
]

read_exact_sound : (n : ℕ) (src : List ℕ) → read_exact n src ≢ err corruption
unfolding read_exact
read_exact_sound zero src h = cc
read_exact_sound (suc n) [] h = cc
read_exact_sound (suc n) (b ∷ src) h = elim (Result-cases (read_exact n src)) [
  | inr (unexpected_eof, failed) ↦ ground (arith, failed)
  | inr (corruption, failed) ↦ read_exact_sound n src failed
  | inl ((xs, mid), read) ↦ ground (arith, read)
]

pub Extends-read_exact : (n : ℕ) → Extends n (read_exact n)
Extends-read_exact n = record {
  takes = λ src rest a h. read_exact_takes n src rest a h;
  on_ok = λ src more rest a h. read_exact_ok n src more rest a h;
  on_corruption = λ src more h. absurd (read_exact_sound n src h);
}

pub Extends-read_le : (n : ℕ) → Extends (n + 0) (read_le n)
unfolding read_le
Extends-read_le n =
    Extends-bind {f = λ buf. pure (from_le buf)} (Extends-read_exact n)
      (λ buf. Extends-pure (from_le buf))

pub Reads-read_exact : (xs : List ℕ) → Reads (read_exact (length xs)) xs xs
Reads-read_exact xs = record { reads = λ rest. read_exact-append xs rest }

pub Reads-read_le : (n v : ℕ) → v < 256 ^ n → Reads (read_le n) (to_le n v) v
Reads-read_le n v h = record { reads = λ rest. read_le-to_le n v rest h }
