-- ===== src/Prelude/Order.antt =====
-- Orderings, and the comparisons of integers and of byte strings that Rust's `Ord` gives.
use blitz_db.Prelude.Tests.{◌==◌}
use Prim.Native.Nat.{ℕ, compare, Ordering}
use mathlib.Core.Path.{◌≡◌, refl}
use mathlib.Core.Bool.{Bool, true, false, ◌&&◌}
use mathlib.Core.List.{List, [], ◌∷◌}
use native.Mathlib.Omega.{arith}

-- `negsuc n` is -(n + 1).
pub data ℤ : Type 0 where
  pos : ℕ → ℤ
  negsuc : ℕ → ℤ

abbrev pub reverse : Ordering → Ordering
reverse Ordering.lt = Ordering.gt
reverse Ordering.eq = Ordering.eq
reverse Ordering.gt = Ordering.lt

-- The first comparison that is not `Equal`.
abbrev pub and_then : Ordering → Ordering → Ordering
and_then Ordering.eq r = r
and_then Ordering.lt r = Ordering.lt
and_then Ordering.gt r = Ordering.gt

abbrev pub cmp_int : ℤ → ℤ → Ordering
cmp_int (pos a) (pos b) = compare a b
cmp_int (pos a) (negsuc b) = Ordering.gt
cmp_int (negsuc a) (pos b) = Ordering.lt
cmp_int (negsuc a) (negsuc b) = compare b a

abbrev pub eq_int : ℤ → ℤ → Bool
eq_int (pos a) (pos b) = a == b
eq_int (negsuc a) (negsuc b) = a == b
eq_int _ _ = false

-- `false < true`
abbrev pub cmp_bool : Bool → Bool → Ordering
cmp_bool false false = Ordering.eq
cmp_bool false true = Ordering.lt
cmp_bool true false = Ordering.gt
cmp_bool true true = Ordering.eq

abbrev pub eq_bool : Bool → Bool → Bool
eq_bool false false = true
eq_bool true true = true
eq_bool _ _ = false

unfoldable pub cmp_bytes : List ℕ → List ℕ → Ordering
cmp_bytes [] [] = Ordering.eq
cmp_bytes [] (b ∷ bs) = Ordering.lt
cmp_bytes (a ∷ xs) [] = Ordering.gt
cmp_bytes (a ∷ xs) (b ∷ bs) = and_then (compare a b) (cmp_bytes xs bs)

unfoldable pub eq_bytes : List ℕ → List ℕ → Bool
eq_bytes [] [] = true
eq_bytes (a ∷ xs) (b ∷ bs) = a == b && eq_bytes xs bs
eq_bytes _ _ = false

pub eq_int_sound : (a b : ℤ) → eq_int a b ≡ true → a ≡ b
eq_int_sound a b h = ground arith

pub eq_bool_sound : (a b : Bool) → eq_bool a b ≡ true → a ≡ b
eq_bool_sound a b h = ground arith

pub eq_bytes_sound : (a b : List ℕ) → eq_bytes a b ≡ true → a ≡ b
unfolding eq_bytes
eq_bytes_sound [] [] h = refl
eq_bytes_sound [] (b ∷ bs) h = cc
eq_bytes_sound (a ∷ xs) [] h = cc
eq_bytes_sound (a ∷ xs) (b ∷ bs) h = ground (arith, eq_bytes_sound xs bs)

pub compare_flip : (a b : ℕ) → compare b a ≡ reverse (compare a b)
compare_flip a b = ground arith

pub cmp_int_flip : (a b : ℤ) → cmp_int b a ≡ reverse (cmp_int a b)
cmp_int_flip a b = ground arith

pub cmp_bool_flip : (a b : Bool) → cmp_bool b a ≡ reverse (cmp_bool a b)
cmp_bool_flip a b = ground arith

pub cmp_bytes_flip : (a b : List ℕ) → cmp_bytes b a ≡ reverse (cmp_bytes a b)
unfolding cmp_bytes
cmp_bytes_flip [] [] = refl
cmp_bytes_flip [] (b ∷ bs) = refl
cmp_bytes_flip (a ∷ xs) [] = refl
cmp_bytes_flip (a ∷ xs) (b ∷ bs) = ground (arith, cmp_bytes_flip xs bs)
