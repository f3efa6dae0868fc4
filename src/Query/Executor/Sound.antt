-- ===== src/Query/Executor/Sound.antt =====
-- What a query without aggregation returns: a page of the rows that match, in order.
use blitz_db.Prelude.{
  ℕ, zero, suc, Bool, true, false, Option, none, some, List, [], ◌∷◌, length, take, drop, keep, map,
  ok, leb, All, ◌≡◌, ◌≢◌, refl, sym, arith, Bool-cases, inl, inr,
}
use blitz_db.Prelude.Order.{reverse, and_then}
use blitz_db.Prelude.Chain.{Chain, and_then-Chain, reverse-Chain, gt-Chain, lt-Chain_last}
use Prim.Native.Nat.{Ordering}
use mathlib.Core.List.{
  Mem, Perm, mem-cons, not-mem-nil, mem-cons_of_mem, Mem-prop, exists_of_mem-map,
}
use mathlib.Core.Logic.{∥∥₁_map}
use mathlib.Core.Logic.Or
use mathlib.Core.Bool.{Bool-set}
use mathlib.Core.List.Perm
use blitz_db.Types.Value.{Foreign, Value, cmp}
use blitz_db.Types.Value.Laws.{cmp_antisymmetric}
use blitz_db.Types.Value.Transitive.{cmp-Chain}
use blitz_db.Types.Row
use blitz_db.Types.Row.{Row}
use blitz_db.Query.Planner.{Filter, Sort, SortDirection, asc, desc, Query}
use blitz_db.Query.Sort.Ordered.{sort_by-perm, sort_by-IsSortedBy, IsSortedBy}
use blitz_db.Query.Match.{matches_filter, compare_rows, compare_cells, directed, truncated}
use blitz_db.Query.Aggregate.{Floats}
use blitz_db.Query.Executor.{
  matching, filter_rows, sort_rows, skipped, paged, shown, aggregates, execute,
}

then_flip :
    (d : SortDirection) (o p o' p' : Ordering)
    → o' ≡ reverse o
    → p' ≡ reverse p
    → and_then (directed d o') p' ≡ reverse (and_then (directed d o) p)
then_flip asc Ordering.lt p o' p' h g = rw h refl
then_flip asc Ordering.eq p o' p' h g = rw h g
then_flip asc Ordering.gt p o' p' h g = rw h refl
then_flip desc Ordering.lt p o' p' h g = rw h refl
then_flip desc Ordering.eq p o' p' h g = rw h g
then_flip desc Ordering.gt p o' p' h g = rw h refl

directed-Chain :
    (d : SortDirection) (p q r : Ordering)
    → Chain p q r
    → Chain (directed d p) (directed d q) (directed d r)
directed-Chain asc p q r h = h
directed-Chain desc p q r h = reverse-Chain p q r h

module _ {F : Foreign} where
  cells_flip : (a b : Option (Value F)) → compare_cells b a ≡ reverse (compare_cells a b)
  cells_flip (some v) (some w) = cmp_antisymmetric v w
  cells_flip (some v) none = refl
  cells_flip none (some w) = refl
  cells_flip none none = refl

  pub compare_rows_flip :
      (ss : List Sort) (a b : Row (Value F)) → compare_rows ss b a ≡ reverse (compare_rows ss a b)
  unfolding compare_rows
  compare_rows_flip [] a b = refl
  compare_rows_flip (s ∷ ss) a b =
      then_flip s.direction (compare_cells (Row.get a s.column) (Row.get b s.column))
        (compare_rows ss a b) (compare_cells (Row.get b s.column) (Row.get a s.column))
        (compare_rows ss b a) (cells_flip (Row.get a s.column) (Row.get b s.column))
        (compare_rows_flip ss a b)

  cells-Chain :
      (a b c : Option (Value F)) → Chain (compare_cells a b) (compare_cells b c) (compare_cells a c)
  cells-Chain none none c = refl
  cells-Chain none (some w) none = tt
  cells-Chain none (some w) (some x) = gt-Chain (cmp w x)
  cells-Chain (some v) none none = refl
  cells-Chain (some v) none (some x) = tt
  cells-Chain (some v) (some w) none = lt-Chain_last (cmp v w)
  cells-Chain (some v) (some w) (some x) = cmp-Chain v w x

  compare_rows-Chain :
      (ss : List Sort) (a b c : Row (Value F))
      → Chain (compare_rows ss a b) (compare_rows ss b c) (compare_rows ss a c)
  unfolding compare_rows
  compare_rows-Chain [] a b c = refl
  compare_rows-Chain (s ∷ ss) a b c =
      let cells = cells-Chain (Row.get a s.column) (Row.get b s.column) (Row.get c s.column) in
      and_then-Chain _ _ _ _ _ _ (directed-Chain s.direction _ _ _ cells)
        (compare_rows-Chain ss a b c)

  equal-All :
      (x : Row (Value F)) (l : List (Row (Value F)))
      → All (λ y. compare_rows [] x y ≢ Ordering.gt) l
  unfolding compare_rows
  equal-All x [] = tt
  equal-All x (y ∷ l) = ((λ e. cc e), equal-All x l)

  equal-IsSortedBy : (l : List (Row (Value F))) → IsSortedBy (compare_rows []) l
  equal-IsSortedBy [] = tt
  equal-IsSortedBy (x ∷ l) = (equal-All x l, equal-IsSortedBy l)

  sort_rows_lem :
      (l : List (Row (Value F))) (ss : List Sort)
      → Perm (sort_rows l ss) l × IsSortedBy (compare_rows ss) (sort_rows l ss)
  unfolding sort_rows
  sort_rows_lem l [] = (Perm.rfl, equal-IsSortedBy l)
  sort_rows_lem l (s ∷ ss) = (
    sort_by-perm (compare_rows (s ∷ ss)) l,
    sort_by-IsSortedBy (compare_rows (s ∷ ss)) (compare_rows-Chain (s ∷ ss))
        (compare_rows_flip (s ∷ ss)) l,
  )

  -- A query without aggregation never fails: what it returns is the page that its offset and limit
  -- cut out of a permutation of the matching rows in which no row is greater, by the sort columns
  -- and their directions, than any row after it, each row shown by its projection.
  pub execute_lem :
      (lower : List ℕ → List ℕ) (floats : Floats) (rows : List (Row (Value F))) (q : Query F)
      → aggregates q ≡ false
      → (sorted : List (Row (Value F))) × (execute lower floats rows q
          ≡ ok (map (shown q) (paged q.offset q.limit sorted)))
        × (Perm sorted (matching lower rows q) × IsSortedBy (compare_rows q.sorts) sorted)
  unfolding execute
  execute_lem lower floats rows q plain = (
    sort_rows (matching lower rows q) q.sorts,
    rw plain refl,
    sort_rows_lem (matching lower rows q) q.sorts,
  )

  Mem-keep :
      (p : Row (Value F) → Bool) (l : List (Row (Value F))) (r : Row (Value F))
      → Mem r (keep p l)
      → Mem r l × (p r ≡ true)
  Mem-keep p [] r h = absurd (not-mem-nil h)
  Mem-keep p (x ∷ l) r h = step (p x) refl (Mem-keep p l r) h
    where
      step :
          (b : Bool)
          → p x ≡ b
          → (Mem r (keep p l) → Mem r l × (p r ≡ true))
          → Mem r (elim b [ true ↦ x ∷ keep p l | false ↦ keep p l ])
          → Mem r (x ∷ l) × (p r ≡ true)
      step true e rest m = (
        Or.elim Mem-prop (mem-cons.0 m) (λ same. mem-cons.1 (Or.inl same))
            (λ later. mem-cons_of_mem x (rest later).0),
        Or.elim (Bool-set (p r) true) (mem-cons.0 m) (λ same. rw same e) (λ later. (rest later).1),
      )
      step false e rest m = let (found, holds) = rest m in (mem-cons_of_mem x found, holds)

  Mem-drop : (n : ℕ) (l : List (Row (Value F))) (r : Row (Value F)) → Mem r (drop n l) → Mem r l
  Mem-drop zero l r h = h
  Mem-drop (suc n) [] r h = h
  Mem-drop (suc n) (x ∷ l) r h = mem-cons_of_mem x (Mem-drop n l r h)

  Mem-take : (n : ℕ) (l : List (Row (Value F))) (r : Row (Value F)) → Mem r (take n l) → Mem r l
  Mem-take zero l r h = absurd (not-mem-nil h)
  Mem-take (suc n) [] r h = h
  Mem-take (suc n) (x ∷ l) r h =
      Or.elim Mem-prop (mem-cons.0 h) (λ same. mem-cons.1 (Or.inl same))
        (λ later. mem-cons_of_mem x (Mem-take n l r later))

  Mem-paged :
      (offset limit : Option ℕ) (l : List (Row (Value F))) (r : Row (Value F))
      → Mem r (paged offset limit l)
      → Mem r l
  unfolding paged skipped truncated
  Mem-paged none none l r h = h
  Mem-paged none (some n) l r h = Mem-take n l r h
  Mem-paged (some o) none l r h = elim (Bool-cases (leb (length l) o)) [
    | inl past ↦ absurd (not-mem-nil (rw past at h))
    | inr within ↦ Mem-drop o l r (rw within at h)
  ]
  Mem-paged (some o) (some n) l r h = elim (Bool-cases (leb (length l) o)) [
    | inl past ↦ absurd (not-mem-nil (Mem-take n [] r (rw past at h)))
    | inr within ↦ Mem-drop o l r (Mem-take n (drop o l) r (rw within at h))
  ]

  -- Every row that a filtered query without aggregation returns is the projection of a row of the
  -- table that matches the filter.
  pub execute_sound :
      (lower : List ℕ → List ℕ) (floats : Floats) (rows out : List (Row (Value F))) (q : Query F)
      (f : Filter F)
      → aggregates q ≡ false
      → q.filter ≡ some f
      → execute lower floats rows q ≡ ok out
      → (r : Row (Value F)) → Mem r out
      → ∥ (
          (s : Row (Value F)) × Mem s rows
          × (((matches_filter lower s f ≡ true) × (shown q s ≡ r)))) ∥₁
  unfolding matching filter_rows
  execute_sound lower floats rows out q f plain filtered run r h =
      let (sorted, page, (perm, order)) = execute_lem lower floats rows q plain in
      let shown_page : map (shown q) (paged q.offset q.limit sorted) ≡ out =
        ground (arith, page, run) in
      ∥∥₁_map (exists_of_mem-map (rw (sym shown_page) at h)) (λ found.
        let (s, m, e) = found in
        let in_matching : Mem s (matching lower rows q) =
          Perm.subset perm s (Mem-paged q.offset q.limit sorted s m) in
        let (in_rows, matched) =
          Mem-keep (λ x. matches_filter lower x f) rows s (rw filtered at in_matching) in
        (s, in_rows, (matched, e)))
