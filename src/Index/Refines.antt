-- ===== src/Index/Refines.antt =====
-- The index against its contract: a list of pairs of a value and a row id, looked through.
use blitz_db.Prelude.{
  ℕ, String, Bool, true, false, ◌&&◌, Option, none, some, List, [], ◌∷◌, ◌++◌, if◌then◌else◌, ◌==◌,
  ◌≡◌, refl, sym, subst, ◌∙◌, arith, Bool-cases, Option-cases, inl, inr,
}
use blitz_db.Prelude.Map
use blitz_db.Prelude.Map.{Map, Key}
use blitz_db.Index.Entries.{or_empty, push_id, drop_id, retain, put_back}
use blitz_db.Index.Hash.{HashIndex, new_index, insert, lookup, remove}

abbrev pub pack : List ℕ → Option (List ℕ)
pack [] = none
pack (id ∷ ids) = some (id ∷ ids)

or_empty-pack : (ids : List ℕ) → or_empty (pack ids) ≡ ids
or_empty-pack [] = refl
or_empty-pack (id ∷ ids) = refl

pack_last : (ids : List ℕ) (r : ℕ) → pack (ids ++ (r ∷ [])) ≡ some (ids ++ (r ∷ []))
pack_last [] r = refl
pack_last (id ∷ ids) r = refl

-- A call that changes an index.
pub data Call (V : Type 0) : Type 0 where
  inserts removes : V → ℕ → Call V

module _ {V : Type 0} ⦃k : Key V⦄ where
  -- The ids that stand beside a value.
  unfoldable pub ids_of : V → List (V × ℕ) → List ℕ
  ids_of w [] = []
  ids_of w ((v, r) ∷ ps) = let rest = ids_of w ps in if k.same v w then r ∷ rest else rest

  unfoldable pub without : V → ℕ → List (V × ℕ) → List (V × ℕ)
  without v r [] = []
  without v r ((w, s) ∷ ps) =
      let rest = without v r ps in if k.same w v && s == r then rest else (w, s) ∷ rest

  -- A map of ids stands for the pairs: it finds what is beside a value, and has no empty entry.
  unfoldable pub Stands : Map V (List ℕ) → List (V × ℕ) → Type 0
  unfolding ids_of
  Stands entries ps = (w : V) → Map.get entries w ≡ pack (ids_of w ps)

  ids_of-append :
      (w v : V) (r : ℕ) (ps : List (V × ℕ))
      → ids_of w (ps ++ ((v, r) ∷ []))
        ≡ (if k.same v w then ids_of w ps ++ (r ∷ []) else ids_of w ps)
  unfolding ids_of
  ids_of-append w v r [] = ground arith
  ids_of-append w v r ((u, s) ∷ ps) = ground (arith, ids_of-append w v r ps)

  ids_of-without :
      (w v : V) (r : ℕ) (ps : List (V × ℕ))
      → ids_of w (without v r ps) ≡ (if k.same v w then retain r (ids_of w ps) else ids_of w ps)
  unfolding ids_of without
  ids_of-without w v r [] = ground arith
  ids_of-without w v r ((u, s) ∷ ps) =
      ground (arith, ids_of-without w v r ps, k.same_sound u v, k.same_sound u w, k.same_sound v w)

  push_id-Stands :
      (entries : Map V (List ℕ)) (ps : List (V × ℕ)) (v : V) (r : ℕ)
      → Stands entries ps
      → Stands (push_id entries v r) (ps ++ ((v, r) ∷ []))
  unfolding Stands push_id
  push_id-Stands entries ps v r h w =
      rw
        (
          Map.get-insert entries v w (or_empty (Map.get entries v) ++ (r ∷ [])),
          ids_of-append w v r ps,
          h v,
        )
        (elim (Bool-cases (k.same v w)) [
          | inl hit ↦
              rw (hit, or_empty-pack (ids_of v ps), pack_last (ids_of w ps) r, k.same_sound v w hit)
                refl
          | inr miss ↦ rw miss (h w)
        ])

  get-put_back :
      (entries : Map V (List ℕ)) (v w : V) (ids : List ℕ)
      → Map.get (put_back entries v ids) w ≡ (if k.same v w then pack ids else Map.get entries w)
  get-put_back entries v w [] = Map.get-remove entries v w
  get-put_back entries v w (id ∷ ids) = Map.get-insert entries v w (id ∷ ids)

  get-drop_id :
      (entries : Map V (List ℕ)) (v w : V) (r : ℕ)
      → Map.get (drop_id entries v r) w
        ≡ (if k.same v w then pack (retain r (or_empty (Map.get entries v))) else Map.get entries w)
  unfolding drop_id
  get-drop_id entries v w r = elim (Option-cases (Map.get entries v)) [
    | inl missed ↦
        rw (missed, drop_id)
          (elim (Bool-cases (k.same v w)) [
            | inl hit ↦ rw (hit, sym (k.same_sound v w hit)) missed
            | inr miss ↦ rw miss refl
          ])
    | inr (ids, found) ↦ rw (found, drop_id) (get-put_back entries v w (retain r ids))
  ]

  drop_id-Stands :
      (entries : Map V (List ℕ)) (ps : List (V × ℕ)) (v : V) (r : ℕ)
      → Stands entries ps
      → Stands (drop_id entries v r) (without v r ps)
  unfolding Stands
  drop_id-Stands entries ps v r h w =
      rw (get-drop_id entries v w r, ids_of-without w v r ps, h v, or_empty-pack (ids_of v ps))
        (elim (Bool-cases (k.same v w)) [
          | inl hit ↦ rw (hit, k.same_sound v w hit) refl
          | inr miss ↦ rw miss (h w)
        ])

  unfoldable pub call : HashIndex V → Call V → HashIndex V
  unfolding insert remove
  call i (Call.inserts v r) = (insert i v r).1
  call i (Call.removes v r) = remove i v r

  unfoldable pub promise : Bool → List (V × ℕ) → Call V → List (V × ℕ)
  unfolding ids_of without
  promise unique ps (Call.inserts v r) = elim (ids_of v ps) [
    | [] ↦ ps ++ ((v, r) ∷ [])
    | id ∷ ids ↦ if unique then ps else ps ++ ((v, r) ∷ [])
  ]
  promise unique ps (Call.removes v r) = without v r ps

  unfoldable pub calls : HashIndex V → List (Call V) → HashIndex V
  calls i [] = i
  calls i (x ∷ xs) = calls (call i x) xs

  unfoldable pub promises : Bool → List (V × ℕ) → List (Call V) → List (V × ℕ)
  promises u ps [] = ps
  promises u ps (x ∷ xs) = promises u (promise u ps x) xs

  -- A value that is there is refused by a unique index; any other value goes in.
  insert-Stands :
      (i : HashIndex V) (ps : List (V × ℕ)) (v : V) (r : ℕ)
      → Stands i.entries ps
      → (ids : List ℕ) → Map.get i.entries v ≡ pack ids
      → Stands (insert i v r).1.entries (elim ids [
        | [] ↦ ps ++ ((v, r) ∷ [])
        | id ∷ rest ↦ if i.unique then ps else ps ++ ((v, r) ∷ [])
      ])
  unfolding insert push_id Map.contains_key
  insert-Stands i ps v r h [] there = elim (Bool-cases i.unique) [
    | inl one ↦
        rw (one, absent)
          (subst (λ m. Stands m (ps ++ ((v, r) ∷ []))) alone (push_id-Stands i.entries ps v r h))
    | inr many ↦ rw many (push_id-Stands i.entries ps v r h)
  ]
    where
      absent : Map.contains_key i.entries v ≡ false
      absent = rw (there, Map.contains_key) refl

      alone : push_id i.entries v r ≡ Map.insert i.entries v (r ∷ [])
      alone = rw there refl
  insert-Stands i ps v r h (id ∷ rest) there = elim (Bool-cases i.unique) [
    | inl one ↦ rw (one, present) h
    | inr many ↦ rw many (push_id-Stands i.entries ps v r h)
  ]
    where
      present : Map.contains_key i.entries v ≡ true
      present = rw (there, Map.contains_key) refl

  call-Stands :
      (i : HashIndex V) (ps : List (V × ℕ)) (x : Call V)
      → Stands i.entries ps
      → Stands (call i x).entries (promise i.unique ps x)
  unfolding call promise remove
  call-Stands i ps (Call.inserts v r) h =
      insert-Stands i ps v r h (ids_of v ps) (unfold Stands in h v)
  call-Stands i ps (Call.removes v r) h = drop_id-Stands i.entries ps v r h

  call-unique : (i : HashIndex V) (x : Call V) → (call i x).unique ≡ i.unique
  unfolding call insert remove
  call-unique i (Call.inserts v r) = ground arith
  call-unique i (Call.removes v r) = refl

  calls-Stands :
      (xs : List (Call V)) (i : HashIndex V) (unique : Bool) (ps : List (V × ℕ))
      → i.unique ≡ unique
      → Stands i.entries ps
      → Stands (calls i xs).entries (promises unique ps xs)
  unfolding calls promises
  calls-Stands [] i unique ps same h = h
  calls-Stands (x ∷ xs) i unique ps same h =
      calls-Stands xs (call i x) unique (promise unique ps x) (call-unique i x ∙ same)
        (subst (λ u. Stands (call i x).entries (promise u ps x)) same (call-Stands i ps x h))

  -- After any inserts and removals, in any order, a hash index, unique or not, finds for every
  -- value the row ids that stand beside that value in a list of pairs, in the order inserted, where
  -- an insert adds a pair, unless the index is unique and the value is there, and a removal takes
  -- out every pair of the value and the id.
  pub lookup-calls :
      (c : String) (unique : Bool) (xs : List (Call V)) (w : V)
      → lookup (calls (new_index c unique) xs) w ≡ ids_of w (promises unique [] xs)
  unfolding lookup Stands Map.get new_index ids_of
  lookup-calls c unique xs w =
      rw (calls-Stands xs (new_index c unique) unique [] refl (λ v. refl) w)
        (or_empty-pack (ids_of w (promises unique [] xs)))
