-- ===== src/Prelude/Chain.antt =====
-- Transitive comparisons, and how they are put together.
use Prim.Native.Nat.{ℕ, compare, Ordering}
use mathlib.Core.Path.{◌≡◌, refl, sym, subst}
use mathlib.Core.Logic.{◌≢◌}
use mathlib.Core.List.{List, [], ◌∷◌}
use native.Mathlib.Omega.{arith}
use blitz_db.Prelude.Order.{ℤ, reverse, and_then, cmp_int, cmp_bytes}

-- What transitivity says of the comparisons of `a` with `b`, of `b` with `c`, and of `a` with `c`.
abbrev pub Chain : Ordering → Ordering → Ordering → Type 0
Chain Ordering.eq q r = r ≡ q
Chain Ordering.lt Ordering.eq r = r ≡ Ordering.lt
Chain Ordering.lt Ordering.lt r = r ≡ Ordering.lt
Chain Ordering.lt Ordering.gt r = Unit
Chain Ordering.gt Ordering.eq r = r ≡ Ordering.gt
Chain Ordering.gt Ordering.gt r = r ≡ Ordering.gt
Chain Ordering.gt Ordering.lt r = Unit

-- A comparison by one thing and then by another is transitive if both are.
pub and_then-Chain :
    (p q r p' q' r' : Ordering)
    → Chain p q r
    → Chain p' q' r'
    → Chain (and_then p p') (and_then q q') (and_then r r')
and_then-Chain Ordering.eq Ordering.eq r p' q' r' h g = rw h g
and_then-Chain Ordering.eq Ordering.lt r Ordering.eq q' r' h g = rw h refl
and_then-Chain Ordering.eq Ordering.lt r Ordering.lt q' r' h g = rw h refl
and_then-Chain Ordering.eq Ordering.lt r Ordering.gt q' r' h g = tt
and_then-Chain Ordering.eq Ordering.gt r Ordering.eq q' r' h g = rw h refl
and_then-Chain Ordering.eq Ordering.gt r Ordering.gt q' r' h g = rw h refl
and_then-Chain Ordering.eq Ordering.gt r Ordering.lt q' r' h g = tt
and_then-Chain Ordering.lt Ordering.eq r p' Ordering.eq r' h g = rw h refl
and_then-Chain Ordering.lt Ordering.eq r p' Ordering.lt r' h g = rw h refl
and_then-Chain Ordering.lt Ordering.eq r p' Ordering.gt r' h g = tt
and_then-Chain Ordering.lt Ordering.lt r p' q' r' h g = rw h refl
and_then-Chain Ordering.lt Ordering.gt r p' q' r' h g = tt
and_then-Chain Ordering.gt Ordering.eq r p' Ordering.eq r' h g = rw h refl
and_then-Chain Ordering.gt Ordering.eq r p' Ordering.gt r' h g = rw h refl
and_then-Chain Ordering.gt Ordering.eq r p' Ordering.lt r' h g = tt
and_then-Chain Ordering.gt Ordering.gt r p' q' r' h g = rw h refl
and_then-Chain Ordering.gt Ordering.lt r p' q' r' h g = tt

pub reverse-Chain : (p q r : Ordering) → Chain p q r → Chain (reverse p) (reverse q) (reverse r)
reverse-Chain Ordering.eq q r h = rw h refl
reverse-Chain Ordering.lt Ordering.eq r h = rw h refl
reverse-Chain Ordering.lt Ordering.lt r h = rw h refl
reverse-Chain Ordering.lt Ordering.gt r h = tt
reverse-Chain Ordering.gt Ordering.eq r h = rw h refl
reverse-Chain Ordering.gt Ordering.gt r h = rw h refl
reverse-Chain Ordering.gt Ordering.lt r h = tt

pub Chain-below :
    (p q r : Ordering) → Chain p q r → p ≢ Ordering.gt → q ≢ Ordering.gt → r ≢ Ordering.gt
Chain-below Ordering.eq q r h g k = rw h k
Chain-below Ordering.lt Ordering.eq r h g k = rw h g
Chain-below Ordering.lt Ordering.lt r h g k = rw h g
Chain-below Ordering.lt Ordering.gt r h g k = absurd (k refl)
Chain-below Ordering.gt q r h g k = absurd (g refl)

pub lt-Chain : (q : Ordering) → Chain Ordering.lt q Ordering.lt
lt-Chain Ordering.eq = refl
lt-Chain Ordering.lt = refl
lt-Chain Ordering.gt = tt

pub gt-Chain : (q : Ordering) → Chain Ordering.gt q Ordering.gt
gt-Chain Ordering.eq = refl
gt-Chain Ordering.lt = tt
gt-Chain Ordering.gt = refl

pub lt-Chain_last : (p : Ordering) → Chain p Ordering.lt Ordering.lt
lt-Chain_last Ordering.eq = refl
lt-Chain_last Ordering.lt = refl
lt-Chain_last Ordering.gt = tt

pub gt-Chain_last : (p : Ordering) → Chain p Ordering.gt Ordering.gt
gt-Chain_last Ordering.eq = refl
gt-Chain_last Ordering.lt = tt
gt-Chain_last Ordering.gt = refl

pub compare-Chain : (a b c : ℕ) → Chain (compare a b) (compare b c) (compare a c)
compare-Chain a b c = ground arith

pub cmp_int-Chain : (a b c : ℤ) → Chain (cmp_int a b) (cmp_int b c) (cmp_int a c)
cmp_int-Chain a b c = ground arith

pub cmp_bytes-Chain : (a b c : List ℕ) → Chain (cmp_bytes a b) (cmp_bytes b c) (cmp_bytes a c)
unfolding cmp_bytes
cmp_bytes-Chain [] [] c = refl
cmp_bytes-Chain [] (b ∷ bs) [] = tt
cmp_bytes-Chain [] (b ∷ bs) (x ∷ xs) = lt-Chain (cmp_bytes (b ∷ bs) (x ∷ xs))
cmp_bytes-Chain (a ∷ more) [] [] = refl
cmp_bytes-Chain (a ∷ more) [] (x ∷ xs) = tt
cmp_bytes-Chain (a ∷ more) (b ∷ bs) [] = gt-Chain_last (cmp_bytes (a ∷ more) (b ∷ bs))
cmp_bytes-Chain (a ∷ more) (b ∷ bs) (x ∷ xs) =
    and_then-Chain (compare a b) (compare b x) (compare a x) (cmp_bytes more bs) (cmp_bytes bs xs)
      (cmp_bytes more xs) (compare-Chain a b x) (cmp_bytes-Chain more bs xs)

-- A chain of comparisons that are equal to others.
pub Chain-along :
    {p q r p' q' r' : Ordering} → p' ≡ p → q' ≡ q → r' ≡ r → Chain p q r → Chain p' q' r'
Chain-along {p} {q} {r} {p'} {q'} {r'} hp hq hr h =
    subst (λ o. Chain o q' r') (sym hp)
      (subst (λ o. Chain p o r') (sym hq) (subst (λ o. Chain p q o) (sym hr) h))
