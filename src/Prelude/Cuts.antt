-- ===== src/Prelude/Cuts.antt =====
-- Lists cut in two by `take` and `drop`.
use blitz_db.Prelude.Lists.{length, take, drop}
use Prim.Native.Nat.{ℕ, zero, suc, ◌+◌, ◌≤◌}
use mathlib.Core.Path.{◌≡◌, refl, sym, ap, ◌∙◌}
use mathlib.Core.List.{List, [], ◌∷◌, ◌++◌}
use native.Mathlib.Omega.{arith}

pub take-append : {A : Type 0} (xs ys : List A) → take (length xs) (xs ++ ys) ≡ xs
take-append [] ys = refl
take-append (x ∷ xs) ys = ap (λ l. x ∷ l) (take-append xs ys)

pub drop-append : {A : Type 0} (xs ys : List A) → drop (length xs) (xs ++ ys) ≡ ys
drop-append [] ys = refl
drop-append (x ∷ xs) ys = drop-append xs ys

module _ {A : Type 0} where
  pub drop-empty : (n : ℕ) → drop {A = A} n [] ≡ []
  drop-empty zero = refl
  drop-empty (suc n) = refl

  pub length-take : (n : ℕ) (xs : List A) → length (take n xs) ≤ n
  length-take zero xs = omega arith
  length-take (suc n) [] = omega arith
  length-take (suc n) (x ∷ xs) = omega (arith, length-take n xs)

  pub take-drop : (n : ℕ) (xs : List A) → take n xs ++ drop n xs ≡ xs
  take-drop zero xs = refl
  take-drop (suc n) [] = refl
  take-drop (suc n) (x ∷ xs) = ap (λ l. x ∷ l) (take-drop n xs)

  pub take_more : (xs ys : List A) (n : ℕ) → take (length xs + n) (xs ++ ys) ≡ xs ++ take n ys
  take_more [] ys n = ap (λ i. take i ys) (omega arith)
  take_more (x ∷ xs) ys n =
      ap (λ i. take i (x ∷ (xs ++ ys))) sum ∙ ap (λ l. x ∷ l) (take_more xs ys n)
    where
      sum : length (x ∷ xs) + n ≡ suc (length xs + n)
      sum = omega arith

  pub drop_more : (k n : ℕ) (xs : List A) → drop (k + n) xs ≡ drop n (drop k xs)
  drop_more zero n xs = ap (λ i. drop i xs) (omega arith)
  drop_more (suc k) n [] = drop-empty (suc k + n) ∙ sym (drop-empty n)
  drop_more (suc k) n (x ∷ xs) = ap (λ i. drop i (x ∷ xs)) (sum k n) ∙ drop_more k n xs
    where
      sum : (k n : ℕ) → suc k + n ≡ suc (k + n)
      sum k n = omega arith

module _ {A : Type 0} where
  pub drop_past : (n : ℕ) (xs : List A) → length xs ≤ n → drop n xs ≡ []
  drop_past zero [] h = refl
  drop_past zero (x ∷ xs) h = absurd (omega arith)
  drop_past (suc n) [] h = refl
  drop_past (suc n) (x ∷ xs) h = drop_past n xs (omega arith)

  pub take_split : (n m : ℕ) (xs : List A) → take n xs ++ take m (drop n xs) ≡ take (n + m) xs
  take_split zero m xs = ap (λ i. take i xs) (omega arith)
  take_split (suc n) m [] = take_none m ∙ sym (take_none (suc n + m))
    where
      take_none : (k : ℕ) → take {A = A} k [] ≡ []
      take_none zero = refl
      take_none (suc k) = refl
  take_split (suc n) m (x ∷ xs) =
      ap (λ l. x ∷ l) (take_split n m xs) ∙ ap (λ i. take i (x ∷ xs)) (sum n m)
    where
      sum : (n m : ℕ) → suc (n + m) ≡ suc n + m
      sum n m = omega arith
