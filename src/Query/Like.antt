-- ===== src/Query/Like.antt =====
-- crates/blitz-query/src/executor.rs: the test of `Filter::Like`, on the lower-case bytes of the text
-- and the pattern.
pub mod Prefix
use blitz_db.Prelude.{
  ℕ, zero, suc, ◌+◌, Bool, true, false, not, ◌&&◌, Option, none, some, List, [], ◌∷◌, length, drop,
  if◌then◌else◌, ◌==◌,
}
use blitz_db.Prelude.Order.{eq_bytes}

abbrev pub percent : ℕ
percent = 37

-- `str::split('%')`, which gives one part at least.
abbrev onto_first : ℕ → List (List ℕ) → List (List ℕ)
onto_first b [] = (b ∷ []) ∷ []
onto_first b (p ∷ ps) = (b ∷ p) ∷ ps

unfoldable pub split : List ℕ → List (List ℕ)
split [] = [] ∷ []
split (b ∷ bs) = let rest = split bs in if b == percent then [] ∷ rest else onto_first b rest

unfoldable pub begins : List ℕ → List ℕ → Bool
begins [] text = true
begins (b ∷ bs) [] = false
begins (b ∷ bs) (c ∷ cs) = b == c && begins bs cs

abbrev one_on : Option ℕ → Option ℕ
one_on none = none
one_on (some i) = some (suc i)

-- `str::find`: where the part first occurs.
unfoldable pub find : List ℕ → List ℕ → Option ℕ
unfolding begins
find part [] = if begins part [] then some 0 else none
find part (c ∷ cs) =
    let later = find part cs in if begins part (c ∷ cs) then some 0 else one_on later

-- The loop over the parts: `first` is `i == 0`, `text` is `s_lower[pos..]`.
unfoldable pub match_parts : Bool → List (List ℕ) → List ℕ → Bool
unfolding find
match_parts first [] text = true
match_parts first ([] ∷ ps) text = match_parts false ps text
match_parts first ((b ∷ bs) ∷ ps) text = elim (find (b ∷ bs) text) [
  | none ↦ false
  | some i ↦
      if first && not (i == 0)
      then false
      else match_parts false ps (drop (i + length (b ∷ bs)) text)
]

unfoldable pub like_match : List ℕ → List ℕ → Bool
unfolding split match_parts eq_bytes
like_match text pattern =
    let parts = split pattern in
    if length parts == 1 then eq_bytes text pattern else match_parts true parts text
