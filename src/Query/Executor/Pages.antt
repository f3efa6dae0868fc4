-- ===== src/Query/Executor/Pages.antt =====
-- Pages: what the limit and the offset of a query cut out.
use blitz_db.Prelude.{
  ℕ, ◌+◌, ◌≤◌, false, some, List, [], ◌∷◌, ◌++◌, length, take, drop, map, ok, leb, ◌≡◌, refl, sym,
  ap, ◌∙◌, arith, Bool-cases, inl, inr,
}
use blitz_db.Prelude.Cuts.{drop_more, drop_past, take_split, length-take}
use blitz_db.Types.Value.{Foreign, Value}
use blitz_db.Types.Row.{Row}
use blitz_db.Query.Planner.{Query}
use blitz_db.Query.Match.{truncated}
use blitz_db.Query.Aggregate.{Floats}
use blitz_db.Query.Executor.{matching, sort_rows, skipped, paged, shown, aggregates, execute}

module _ {F : Foreign} where
  page_lem : (o n : ℕ) (l : List (Row (Value F))) → paged (some o) (some n) l ≡ take n (drop o l)
  unfolding paged skipped truncated
  page_lem o n l = elim (Bool-cases (leb (length l) o)) [
    | inl past ↦ rw (past, drop_past o l (ground (arith, past))) refl
    | inr within ↦ rw within refl
  ]

  map-append :
      (f : Row (Value F) → Row (Value F)) (xs ys : List (Row (Value F)))
      → map f (xs ++ ys) ≡ map f xs ++ map f ys
  map-append f [] ys = refl
  map-append f (x ∷ xs) ys = ap (λ l. f x ∷ l) (map-append f xs ys)

  take_drop-page :
      (o n m : ℕ) (l : List (Row (Value F)))
      → paged (some o) (some n) l ++ paged (some (o + n)) (some m) l
        ≡ paged (some o) (some (n + m)) l
  take_drop-page o n m l =
      rw (page_lem o n l, page_lem (o + n) m l, page_lem o (n + m) l, drop_more o n l)
        (take_split n m (drop o l))

  -- For a query without aggregation, the page of `n` rows at an offset followed by the page of `m`
  -- rows right after it is the page of `n + m` rows at that offset: no row is lost or repeated
  -- between pages.
  pub pages_join :
      (lower : List ℕ → List ℕ) (floats : Floats) (rows : List (Row (Value F))) (q : Query F)
      (o n m : ℕ)
      → aggregates q ≡ false
      → (a : List (Row (Value F))) × (b : List (Row (Value F))) × ((execute lower floats rows
              (record q { offset = some o; limit = some n })
            ≡ ok a)
          × ((execute lower floats rows (record q { offset = some (o + n); limit = some m }) ≡ ok b)
              × (execute lower floats rows (record q { offset = some o; limit = some (n + m) })
                  ≡ ok (a ++ b))))
  unfolding execute matching aggregates shown
  pages_join lower floats rows q o n m plain =
      let sorted = sort_rows (matching lower rows q) q.sorts in
      (
        map (shown q) (paged (some o) (some n) sorted),
        map (shown q) (paged (some (o + n)) (some m) sorted),
        (
          rw plain refl,
          (
            rw plain refl,
            rw plain (
                ap ok (
                  ap (map (shown q)) (sym (take_drop-page o n m sorted))
                  ∙ map-append (shown q) (paged (some o) (some n) sorted)
                      (paged (some (o + n)) (some m) sorted))),
          ),
        ),
      )

  length-map :
      (f : Row (Value F) → Row (Value F)) (xs : List (Row (Value F)))
      → length (map f xs) ≡ length xs
  length-map f [] = refl
  length-map f (x ∷ xs) = omega (arith, length-map f xs)

  -- A query without aggregation returns no more rows than its limit.
  pub execute_limit :
      (lower : List ℕ → List ℕ) (floats : Floats) (rows out : List (Row (Value F))) (q : Query F)
      (n : ℕ)
      → aggregates q ≡ false
      → q.limit ≡ some n
      → execute lower floats rows q ≡ ok out
      → length out ≤ n
  unfolding execute paged truncated
  execute_limit lower floats rows out q n plain limited run =
      let left = skipped q.offset (sort_rows (matching lower rows q) q.sorts) in
      let page : map (shown q) (take n left) ≡ out = ground (arith, plain, limited, run) in
      let short : length (map (shown q) (take n left)) ≤ n =
        omega (arith, length-map (shown q) (take n left), length-take n left) in
      rw page at short
