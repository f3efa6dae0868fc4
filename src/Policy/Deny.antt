-- ===== src/Policy/Deny.antt =====
-- A denial overrides, wherever it stands among the rules.
use blitz_db.Prelude.{
  String, Bool, true, false, not, ◌&&◌, ◌||◌, List, [], ◌∷◌, ◌++◌, any, ◌≡◌, refl, arith,
  Bool-cases, ◌⊎◌, inl, inr,
}
use blitz_db.Policy.{
  Permission, Identity, Effect, allow, deny, PolicyRule, matches, is_allow, scan_rules, verdict,
  check,
}

-- A rule that applies, with the given effect.
abbrev pub denies : Identity → String → Permission → PolicyRule → Bool
denies i resource p r = matches i resource p r && not (is_allow r.effect)

abbrev pub allows : Identity → String → Permission → PolicyRule → Bool
allows i resource p r = matches i resource p r && is_allow r.effect

effect_cases : (e : Effect) → (e ≡ allow) ⊎ (e ≡ deny)
effect_cases allow = inl refl
effect_cases deny = inr refl

verdict-scan_rules :
    (rules : List PolicyRule) (i : Identity) (resource : String) (p : Permission) (allowed : Bool)
    → verdict (scan_rules i resource p rules (false, allowed))
      ≡ (not (any (denies i resource p) rules) && (allowed || any (allows i resource p) rules))
unfolding scan_rules verdict is_allow
verdict-scan_rules [] i resource p allowed = ground arith
verdict-scan_rules (r ∷ rs) i resource p allowed = elim (Bool-cases (matches i resource p r)) [
  | inr missed ↦ ground (arith, missed, verdict-scan_rules rs i resource p allowed)
  | inl hit ↦ elim (effect_cases r.effect) [
    | inl permits ↦ ground (arith, hit, permits, verdict-scan_rules rs i resource p true)
    | inr refuses ↦ ground (arith, hit, refuses)
  ]
]

-- `check` says yes exactly if no rule that applies denies and some rule that applies allows,
-- wherever they stand.
pub check_lem :
    (rules : List PolicyRule) (i : Identity) (resource : String) (p : Permission)
    → check rules i resource p
      ≡ (not (any (denies i resource p) rules) && any (allows i resource p) rules)
unfolding check
check_lem rules i resource p = verdict-scan_rules rules i resource p false

any-append {ℓ} :
    {A : Type ℓ} (f : A → Bool) (xs ys : List A) → any f (xs ++ ys) ≡ (any f ys || any f xs)
any-append f [] ys = ground arith
any-append f (x ∷ xs) ys = ground (arith, any-append f xs ys)

any-swap {ℓ} : {A : Type ℓ} (f : A → Bool) (xs ys : List A) → any f (xs ++ ys) ≡ any f (ys ++ xs)
any-swap f xs ys = ground (arith, any-append f xs ys, any-append f ys xs)

-- Exchanging the first part of the rules with the rest does not change what `check` says.
pub check_swap :
    (xs ys : List PolicyRule) (i : Identity) (resource : String) (p : Permission)
    → check (xs ++ ys) i resource p ≡ check (ys ++ xs) i resource p
check_swap xs ys i resource p = cc (
  check_lem (xs ++ ys) i resource p,
  check_lem (ys ++ xs) i resource p,
  any-swap (denies i resource p) xs ys,
  any-swap (allows i resource p) xs ys,
)
