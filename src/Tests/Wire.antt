-- ===== src/Tests/Wire.antt =====
-- A wire on which one value stands for each type of the other crates, and a text's bytes are the
-- numbers of its characters, which is UTF-8 for the texts of the tests.
use Prim.Native.Nat.{Ordering, compare}
use Prim.Native.Char.{Char, char, code, IsLt}
use Prim.Native.String.{String}
use blitz_db.Prelude.{ℕ, true, List, [], ◌∷◌, Option, none, some, ◌≡◌, refl, arith}
use blitz_db.Prelude.Order.{pos}
use blitz_db.Types.Value.{Foreign, Ordered}
use blitz_db.Protocol.Wire.{Wire, JsonView}

-- `IsScalar` of three comparisons, with the clauses that it has.
abbrev pub IsLtBoth : Ordering → Ordering → Type 0
IsLtBoth Ordering.lt o = IsLt o
IsLtBoth Ordering.eq _ = ⊥
IsLtBoth Ordering.gt _ = ⊥

abbrev pub IsAnyScalar : Ordering → Ordering → Ordering → Type 0
IsAnyScalar Ordering.lt _ _ = Unit
IsAnyScalar Ordering.eq o p = IsLtBoth o p
IsAnyScalar Ordering.gt o p = IsLtBoth o p

abbrev pub find_lt : (o : Ordering) → Option (IsLt o)
find_lt Ordering.lt = some tt
find_lt Ordering.eq = none
find_lt Ordering.gt = none

abbrev pub find_in_both : (o p : Ordering) → Option (IsLtBoth o p)
find_in_both Ordering.lt p = find_lt p
find_in_both Ordering.eq p = none
find_in_both Ordering.gt p = none

abbrev pub find_scalar : (o p q : Ordering) → Option (IsAnyScalar o p q)
find_scalar Ordering.lt p q = some tt
find_scalar Ordering.eq p q = find_in_both p q
find_scalar Ordering.gt p q = find_in_both p q

pub find_lt-some : (o : Ordering) (h : IsLt o) → find_lt o ≡ some h
find_lt-some Ordering.lt h = refl
find_lt-some Ordering.eq h = absurd h
find_lt-some Ordering.gt h = absurd h

pub find_in_both-some : (o p : Ordering) (h : IsLtBoth o p) → find_in_both o p ≡ some h
find_in_both-some Ordering.lt p h = find_lt-some p h
find_in_both-some Ordering.eq p h = absurd h
find_in_both-some Ordering.gt p h = absurd h

pub find_scalar-some : (o p q : Ordering) (h : IsAnyScalar o p q) → find_scalar o p q ≡ some h
find_scalar-some Ordering.lt p q h = refl
find_scalar-some Ordering.eq p q h = find_in_both-some p q h
find_scalar-some Ordering.gt p q h = find_in_both-some p q h

abbrev pub to_char : ℕ → Option Char
to_char n = elim (find_scalar (compare n 55296) (compare 57343 n) (compare n 1114112)) [
  | none ↦ none
  | some p ↦ some (char n p)
]

pub to_char-code : (c : Char) → to_char (code c) ≡ some c
to_char-code (char n p) =
    rw (find_scalar-some (compare n 55296) (compare 57343 n) (compare n 1114112) p, to_char) refl

abbrev pub codes : String → List ℕ
codes String.[] = []
codes (String.◌∷◌ c s) = code c ∷ codes s

abbrev pub push_front : Option Char → Option String → Option String
push_front (some c) (some s) = some (String.◌∷◌ c s)
push_front _ _ = none

abbrev pub from_codes : List ℕ → Option String
from_codes [] = some String.[]
from_codes (n ∷ ns) = push_front (to_char n) (from_codes ns)

pub from_codes-codes : (s : String) → from_codes (codes s) ≡ some s
from_codes-codes String.[] = refl
from_codes-codes (String.◌∷◌ c s) = rw (to_char-code c, from_codes-codes s) refl

abbrev pub ordered_unit : Ordered (Unit {0})
ordered_unit = record {
  cmp = λ a b. Ordering.eq;
  eq = λ a b. true;
  eq_sound = λ a b e. refl;
  cmp_flip = λ a b. refl;
  cmp_chain = λ a b c. refl;
}

abbrev pub plain : Foreign
plain = record {
  Uuid = Unit {0};
  Timestamp = Unit {0};
  Date = Unit {0};
  Json = Unit {0};
  uuids = ordered_unit;
  timestamps = ordered_unit;
  dates = ordered_unit;
  json_eq = λ a b. true;
  json_text = λ j. [];
  json_sound = λ a b e t. refl;
}

abbrev pub wire : Wire plain
wire = record {
  as_bytes = codes;
  from_utf8 = from_codes;
  from_utf8-as_bytes = from_codes-codes;
  uuid_bytes = λ u. 1 ∷ 2 ∷ 3 ∷ 4 ∷ 5 ∷ 6 ∷ 7 ∷ 8 ∷ 9 ∷ 10 ∷ 11 ∷ 12 ∷ 13 ∷ 14 ∷ 15 ∷ 16 ∷ [];
  uuid_from_slice = λ b. some tt;
  uuid_length = λ u. refl;
  uuid_lem = λ u. refl;
  micros = λ t. pos 1_000_000;
  from_micros = λ z. some tt;
  micros_fits = λ t. omega arith;
  days = λ d. pos 738_000;
  month = λ d. 7;
  day = λ d. 26;
  from_days = λ z. some tt;
  days_fits = λ d. omega arith;
  month_fits = λ d. omega arith;
  day_fits = λ d. omega arith;
  from_days-days = λ d. refl;
  view = λ j. JsonView.null;
  build = λ v. tt;
  build-view = λ j. refl;
}
