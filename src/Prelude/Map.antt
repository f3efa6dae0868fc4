-- ===== src/Prelude/Map.antt =====
-- `std::collections::HashMap` (and `DashMap`) as an association list. The order of the entries
-- stands for the order of iteration, on which no theorem depends unless it says so.
--
-- A probe accepts a stored key when the hashes agree and `==` holds; `same` is that test. It need
-- not be reflexive: a floating NaN is not equal to itself, so that no probe finds it.
use blitz_db.Prelude.Tests.{◌==◌, ==_iff, if◌then◌else◌, Bool-cases}
use Prim.Native.Nat.{ℕ}
use Prim.Native.String.{String}
use mathlib.Core.Path.{◌≡◌, refl}
use mathlib.Core.Logic.{inl, inr}
use mathlib.Core.Bool.{Bool, true, false}
use mathlib.Core.Option.{Option, none, some}
use mathlib.Core.List.{List, [], ◌∷◌}
use native.Mathlib.Omega.{arith}
use text.Mathlib.Text.{◌==◌ as str_eq}
use text.Mathlib.TextEquality.{eq_iff}

pub record Key {ℓ} (K : Type ℓ) : Type ℓ where
  pub same : K → K → Bool
  pub same_sound : (a b : K) → same a b ≡ true → a ≡ b

instance abbrev pub nat_key : Key ℕ
nat_key = record { same = ◌==◌; same_sound = λ a b. (==_iff a b).0 }

instance abbrev pub string_key : Key String
string_key = record { same = str_eq; same_sound = λ a b. (eq_iff a b).0 }

abbrev pub Map {ℓ κ} : Type ℓ → Type κ → Type (ℓ ⊔ κ)
Map K V = List (K × V)

module _ {ℓ κ} {K : Type ℓ} {V : Type κ} ⦃k : Key K⦄ where
  unfoldable pub get : Map K V → K → Option V
  get [] j = none
  get ((i, v) ∷ m) j = if k.same i j then some v else get m j

  -- An entry that is there is overwritten.
  unfoldable pub insert : Map K V → K → V → Map K V
  insert [] j w = (j, w) ∷ []
  insert ((i, v) ∷ m) j w = if k.same i j then (i, w) ∷ m else (i, v) ∷ insert m j w

  unfoldable pub remove : Map K V → K → Map K V
  remove [] j = []
  remove ((i, v) ∷ m) j = let rest = remove m j in if k.same i j then rest else (i, v) ∷ rest

  -- `for (key, value) in changes { base.insert(key, value) }`
  unfoldable pub extend : Map K V → Map K V → Map K V
  extend base [] = base
  extend base ((i, v) ∷ m) = insert (extend base m) i v

  unfoldable pub contains_key : Map K V → K → Bool
  contains_key m j = elim (get m j) [ none ↦ false | some v ↦ true ]

  pub get-insert :
      (m : Map K V) (i j : K) (w : V)
      → get (insert m i w) j ≡ (if k.same i j then some w else get m j)
  unfolding get insert
  get-insert [] i j w = refl
  get-insert ((h, v) ∷ m) i j w =
      ground (arith, k.same_sound h i, k.same_sound h j, k.same_sound i j, get-insert m i j w)

  pub get-remove :
      (m : Map K V) (i j : K) → get (remove m i) j ≡ (if k.same i j then none else get m j)
  unfolding get remove
  get-remove [] i j = ground arith
  get-remove ((h, v) ∷ m) i j =
      ground (arith, k.same_sound h i, k.same_sound h j, k.same_sound i j, get-remove m i j)

  pub get-extend :
      (base m : Map K V) (j : K)
      → get (extend base m) j ≡ elim (get m j) [ none ↦ get base j | some v ↦ some v ]
  unfolding get extend
  get-extend base [] j = refl
  get-extend base ((i, v) ∷ m) j = elim (Bool-cases (k.same i j)) [
    | inl hit ↦ rw (hit, get-insert (extend base m) i j v, hit) refl
    | inr miss ↦ rw (miss, get-insert (extend base m) i j v, miss) (get-extend base m j)
  ]

  -- What a probe finds, the probe accepts.
  pub get-same : (m : Map K V) (j : K) {v : V} → get m j ≡ some v → k.same j j ≡ true
  unfolding get
  get-same [] j h = cc
  get-same ((i, w) ∷ m) j {v} h = ground (arith, k.same_sound i j, get-same m j {v = v})
