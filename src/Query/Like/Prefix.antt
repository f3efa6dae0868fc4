-- ===== src/Query/Like/Prefix.antt =====
-- What patterns with one `%` match: at their end it is a test of the beginning, at their start only
-- a search.
use blitz_db.Prelude.{
  ℕ, true, false, none, some, List, [], ◌∷◌, ◌++◌, All, ◌==◌, ◌≡◌, ◌≢◌, ◌↔◌, refl, arith,
  Bool-cases, inl, inr, sym, Option-cases,
}
use blitz_db.Query.Like.{percent, split, begins, find, match_parts, like_match}

split-percent :
    (p : List ℕ) → All (λ b. b ≢ percent) p → split (p ++ (percent ∷ [])) ≡ p ∷ ([] ∷ [])
unfolding split
split-percent [] h = refl
split-percent (b ∷ p) (other, h) = rw (split-percent p h) (ground (arith, other))

-- The part is found at 0 exactly if the text begins with it.
find_at_start : (p text : List ℕ) → (i : ℕ) → find p text ≡ some i → (i == 0) ≡ begins p text
unfolding find
find_at_start p [] i h = ground (arith, h)
find_at_start p (c ∷ cs) i h = ground (arith, h)

find-none : (p text : List ℕ) → find p text ≡ none → begins p text ≡ false
unfolding find
find-none p [] h = ground (arith, h)
find-none p (c ∷ cs) h = ground (arith, h)

-- A pattern of at least one byte without `%` and a `%` after it matches exactly the texts that
-- begin with those bytes.
pub like_prefix :
    (b : ℕ) (p text : List ℕ)
    → All (λ c. c ≢ percent) (b ∷ p)
    → like_match text ((b ∷ p) ++ (percent ∷ [])) ≡ begins (b ∷ p) text
unfolding like_match match_parts
like_prefix b p text h = rw (split-percent (b ∷ p) h) (elim (Option-cases (find (b ∷ p) text)) [
  | inl missed ↦ rw (missed, match_parts) (sym (find-none (b ∷ p) text missed))
  | inr (i, found) ↦ rw (found, match_parts) (ground (arith, find_at_start (b ∷ p) text i found))
])

begins-append : (p text more : List ℕ) → begins p text ≡ true → begins p (text ++ more) ≡ true
unfolding begins
begins-append [] text more h = refl
begins-append (b ∷ p) [] more h = cc h
begins-append (b ∷ p) (c ∷ cs) more h = ground (arith, h, begins-append p cs more)

find-begins : (p text : List ℕ) → begins p text ≡ true → find p text ≢ none
unfolding find
find-begins p [] h = ground (arith, h)
find-begins p (c ∷ cs) h = ground (arith, h)

find-append : (p text more : List ℕ) → find p text ≢ none → find p (text ++ more) ≢ none
unfolding find
find-append p [] more h = elim (Bool-cases (begins p [])) [
  | inl yes_begins ↦ find-begins p more (begins-append p [] more yes_begins)
  | inr not_begins ↦ absurd (ground (arith, h, not_begins))
]
find-append p (c ∷ cs) more h = elim (Bool-cases (begins p (c ∷ cs))) [
  | inl yes_begins ↦ find-begins p (c ∷ (cs ++ more)) (begins-append p (c ∷ cs) more yes_begins)
  | inr not_begins ↦ ground (arith, h, not_begins, find-append p cs more)
]

split_whole : (p : List ℕ) → All (λ b. b ≢ percent) p → split p ≡ p ∷ []
unfolding split
split_whole [] h = refl
split_whole (b ∷ p) (other, h) = rw (split_whole p h) (ground (arith, other))

-- The part after a first `%` is only looked for.
like_suffix-find :
    (b : ℕ) (p text : List ℕ)
    → All (λ c. c ≢ percent) (b ∷ p)
    → (like_match text (percent ∷ (b ∷ p)) ≡ true) ↔ (find (b ∷ p) text ≢ none)
unfolding like_match match_parts split
like_suffix-find b p text h = rw (split_whole (b ∷ p) h) (elim (Option-cases (find (b ∷ p) text)) [
  | inl missed ↦ rw (missed, match_parts) (ground arith)
  | inr (i, found) ↦ rw (found, match_parts) (ground arith)
])

-- If a text matches a pattern of `%` and at least one byte without `%`, then so does every longer
-- text that begins with it: the end of the text is not compared.
pub like_suffix_open :
    (b : ℕ) (p text more : List ℕ)
    → All (λ c. c ≢ percent) (b ∷ p)
    → like_match text (percent ∷ (b ∷ p)) ≡ true
    → like_match (text ++ more) (percent ∷ (b ∷ p)) ≡ true
like_suffix_open b p text more h matched =
    (like_suffix-find b p (text ++ more) h).1
      (find-append (b ∷ p) text more ((like_suffix-find b p text h).0 matched))
