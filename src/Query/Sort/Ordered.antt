-- ===== src/Query/Sort/Ordered.antt =====
-- The sort keeps the elements and puts them in order.
use blitz_db.Prelude.{List, [], ◌∷◌, ◌≡◌, ◌≢◌, ◌⊎◌, inl, inr, refl, All}
use blitz_db.Prelude.Order.{reverse}
use blitz_db.Prelude.Chain.{Chain, Chain-below}
use Prim.Native.Nat.{Ordering}
use mathlib.Core.List.{Perm}
use mathlib.Core.List.Perm
use blitz_db.Query.Sort.{insert_by, sort_by}

Ordering-cases : (o : Ordering) → (o ≢ Ordering.gt) ⊎ (o ≡ Ordering.gt)
Ordering-cases Ordering.lt = inl (λ e. cc e)
Ordering-cases Ordering.eq = inl (λ e. cc e)
Ordering-cases Ordering.gt = inr refl

module _ {A : Type 0} (cmp : A → A → Ordering) where
  -- Where an element goes: here, or further on.
  insert_by-cases :
      (x y : A) (ys : List A)
      → ((cmp x y ≢ Ordering.gt) × (insert_by cmp x (y ∷ ys) ≡ x ∷ (y ∷ ys)))
        ⊎ ((cmp x y ≡ Ordering.gt) × (insert_by cmp x (y ∷ ys) ≡ y ∷ insert_by cmp x ys))
  unfolding insert_by
  insert_by-cases x y ys = step (cmp x y) refl
    where
      step :
          (o : Ordering)
          → cmp x y ≡ o
          → ((cmp x y ≢ Ordering.gt) × (insert_by cmp x (y ∷ ys) ≡ x ∷ (y ∷ ys)))
            ⊎ ((cmp x y ≡ Ordering.gt) × (insert_by cmp x (y ∷ ys) ≡ y ∷ insert_by cmp x ys))
      step Ordering.lt h = inl (rw h (λ e. cc e), rw (h, insert_by) refl)
      step Ordering.eq h = inl (rw h (λ e. cc e), rw (h, insert_by) refl)
      step Ordering.gt h = inr (h, rw (h, insert_by) refl)

  insert_by-perm : (x : A) (l : List A) → Perm (insert_by cmp x l) (x ∷ l)
  unfolding insert_by
  insert_by-perm x [] = Perm.rfl
  insert_by-perm x (y ∷ ys) = elim (insert_by-cases x y ys) [
    | inl (le, here) ↦ rw here Perm.rfl
    | inr (more, later) ↦
        rw later (Perm.trans (Perm.cons y (insert_by-perm x ys)) (Perm.swap x y ys))
  ]

  pub sort_by-perm : (l : List A) → Perm (sort_by cmp l) l
  unfolding sort_by
  sort_by-perm [] = Perm.rfl
  sort_by-perm (x ∷ xs) =
      Perm.trans (insert_by-perm x (sort_by cmp xs)) (Perm.cons x (sort_by-perm xs))

  abbrev IsBeforeHead : A → List A → Type 0
  IsBeforeHead x [] = Unit
  IsBeforeHead x (y ∷ l) = cmp x y ≢ Ordering.gt

  -- No element is greater than the one right after it.
  abbrev InOrder : List A → Type 0
  InOrder [] = Unit
  InOrder (x ∷ l) = IsBeforeHead x l × InOrder l

  module _ (flip : (x y : A) → cmp y x ≡ reverse (cmp x y)) where
    not_above : (x y : A) → cmp x y ≡ Ordering.gt → cmp y x ≢ Ordering.gt
    not_above x y h e = cc (flip x y, h, e)

    insert_by-IsBeforeHead :
        (y x : A) (l : List A)
        → cmp y x ≢ Ordering.gt
        → IsBeforeHead y l
        → IsBeforeHead y (insert_by cmp x l)
    unfolding insert_by
    insert_by-IsBeforeHead y x [] le h = le
    insert_by-IsBeforeHead y x (z ∷ l) le h = elim (insert_by-cases x z l) [
      | inl (less, here) ↦ rw here le
      | inr (more, later) ↦ rw later h
    ]

    insert_by-InOrder : (x : A) (l : List A) → InOrder l → InOrder (insert_by cmp x l)
    unfolding insert_by
    insert_by-InOrder x [] h = (tt, tt)
    insert_by-InOrder x (y ∷ l) h = elim (insert_by-cases x y l) [
      | inl (less, here) ↦ rw here (less, h)
      | inr (more, later) ↦
          rw later
            (insert_by-IsBeforeHead y x l (not_above x y more) h.0, insert_by-InOrder x l h.1)
    ]

    sort_by-InOrder : (l : List A) → InOrder (sort_by cmp l)
    unfolding sort_by
    sort_by-InOrder [] = tt
    sort_by-InOrder (x ∷ xs) = insert_by-InOrder x (sort_by cmp xs) (sort_by-InOrder xs)

  -- No element is greater than any after it.
  abbrev pub IsSortedBy : List A → Type 0
  IsSortedBy [] = Unit
  IsSortedBy (x ∷ l) = All (λ y. cmp x y ≢ Ordering.gt) l × IsSortedBy l

  module _ (chain : (x y z : A) → Chain (cmp x y) (cmp y z) (cmp x z)) where
    step_over : (x y : A) (l : List A) → cmp x y ≢ Ordering.gt → IsBeforeHead y l → IsBeforeHead x l
    step_over x y [] le h = tt
    step_over x y (z ∷ l) le h = Chain-below (cmp x y) (cmp y z) (cmp x z) (chain x y z) le h

    below_all :
        (x : A) (l : List A) → IsBeforeHead x l → InOrder l → All (λ y. cmp x y ≢ Ordering.gt) l
    below_all x [] h o = tt
    below_all x (y ∷ l) h o = (h, below_all x l (step_over x y l h o.0) o.1)

    IsSortedBy-InOrder : (l : List A) → InOrder l → IsSortedBy l
    IsSortedBy-InOrder [] o = tt
    IsSortedBy-InOrder (x ∷ l) o = (below_all x l o.0 o.1, IsSortedBy-InOrder l o.1)

    pub sort_by-IsSortedBy :
        (flip : (x y : A) → cmp y x ≡ reverse (cmp x y)) (l : List A) → IsSortedBy (sort_by cmp l)
    sort_by-IsSortedBy flip l = IsSortedBy-InOrder (sort_by cmp l) (sort_by-InOrder flip l)
