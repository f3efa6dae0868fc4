-- ===== src/Query/Sort.antt =====
-- `slice::sort_by`: a stable sort by a comparison, as insertion before the first element that is not
-- smaller.
pub mod Ordered
use blitz_db.Prelude.{ℕ, List, [], ◌∷◌, ◌≡◌}
use Prim.Native.Nat.{Ordering}

module _ {A : Type 0} (cmp : A → A → Ordering) where
  unfoldable pub insert_by : A → List A → List A
  insert_by x [] = x ∷ []
  insert_by x (y ∷ ys) =
      let rest = insert_by x ys in
      elim (cmp x y) [
        | Ordering.lt ↦ x ∷ y ∷ ys
        | Ordering.eq ↦ x ∷ y ∷ ys
        | Ordering.gt ↦ y ∷ rest
      ]

  unfoldable pub sort_by : List A → List A
  unfolding insert_by
  sort_by [] = []
  sort_by (x ∷ xs) = insert_by x (sort_by xs)
