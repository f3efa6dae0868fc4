-- ===== src/Core/Table/Index.antt =====
-- What the loops over the unique columns do to an index, read off by `owner`.
use blitz_db.Prelude.{
  ℕ, String, Bool, true, false, not, ◌&&◌, Option, none, some, List, [], ◌∷◌, any, ok,
  if◌then◌else◌, str_eq, ◌≡◌, refl, arith, eq_iff, Option-cases, inl, inr,
}
use blitz_db.Prelude.Map
use blitz_db.Prelude.Map.{Map, string_key, nat_key, get-insert, get-remove}
use blitz_db.Types.Interface.{ValueOps, value_key}
use blitz_db.Core.Table.{
  Uniq, is_owner, owner, clashes, check_cols, claim, entry_or_default, index_col, index_cols,
  release, unindex_col, unindex_cols, drop_stale, drop_stale_cols,
}

abbrev pub is_in : String → List String → Bool
is_in d cs = any (λ c. str_eq c d) cs

module _ {V : Type 0} ⦃o : ValueOps V⦄ where
  -- Under `d` the row has a value that the probe takes for `w`; and one that is not null.
  abbrev pub carries : Map String V → String → V → Bool
  carries values d w = elim (Map.get values d) [ none ↦ false | some v ↦ o.probe v w ]

  abbrev pub offers : Map String V → String → V → Bool
  offers values d w = elim (Map.get values d) [
    | none ↦ false
    | some v ↦ not (o.is_null v) && o.probe v w
  ]

  -- The old value under `d` is `w`, and the new row has there nothing that is `==` to it.
  abbrev pub stale : Map String V → Map String V → String → V → Bool
  stale old new d w = elim (Map.get old d) [
    | none ↦ false
    | some v ↦ o.probe v w && (elim (Map.get new d) [ none ↦ true | some x ↦ not (o.eq x v) ])
  ]

  owner-claim :
      (u : Uniq V) (c d : String) (v w : V) (i : ℕ)
      → owner (claim u c v i) d w ≡ (if str_eq c d && o.probe v w then some i else owner u d w)
  unfolding owner claim Map.get
  owner-claim u c d v w i = ground (
    arith,
    eq_iff c d,
    get-insert u c d (Map.insert (entry_or_default u c) v i),
    get-insert (entry_or_default u c) v w i,
  )

  owner-index_col :
      (u : Uniq V) (i : ℕ) (values : Map String V) (c d : String) (w : V)
      → owner (index_col u i values c) d w
        ≡ (if str_eq c d && offers values d w then some i else owner u d w)
  unfolding index_col
  owner-index_col u i values c d w = elim (Option-cases (Map.get values c)) [
    | inl absent ↦ ground (arith, eq_iff c d, absent)
    | inr (v, present) ↦ ground (arith, eq_iff c d, present, owner-claim u c d v w i)
  ]

  -- After indexing, `id` owns what the row offers under the listed columns; the rest is as before.
  pub owner-index_cols :
      (cs : List String) (u : Uniq V) (i : ℕ) (values : Map String V) (d : String) (w : V)
      → owner (index_cols u cs i values) d w
        ≡ (if is_in d cs && offers values d w then some i else owner u d w)
  unfolding index_cols
  owner-index_cols [] u i values d w = refl
  owner-index_cols (c ∷ cs) u i values d w = ground (
    arith,
    owner-index_cols cs (index_col u i values c) i values d w,
    owner-index_col u i values c d w,
  )

  owner-release :
      (u : Uniq V) (c d : String) (v w : V) (i : ℕ)
      → owner (release u c v i) d w
        ≡ (if str_eq c d && o.probe v w && is_owner (owner u d w) i then none else owner u d w)
  unfolding owner release
  owner-release u c d v w i = elim (Option-cases (Map.get u c)) [
    | inl absent ↦ ground (arith, eq_iff c d, absent)
    | inr (idx, present) ↦ ground (
      arith,
      eq_iff c d,
      present,
      o.probe_sound v w,
      get-insert u c d (Map.remove idx v),
      get-remove idx v w,
    )
  ]

  owner-unindex_col :
      (u : Uniq V) (i : ℕ) (values : Map String V) (c d : String) (w : V)
      → owner (unindex_col u i values c) d w ≡ (
          if str_eq c d && carries values d w && is_owner (owner u d w) i
          then none
          else owner u d w)
  unfolding unindex_col
  owner-unindex_col u i values c d w = elim (Option-cases (Map.get values c)) [
    | inl absent ↦ ground (arith, eq_iff c d, absent)
    | inr (v, present) ↦ ground (arith, eq_iff c d, present, owner-release u c d v w i)
  ]

  -- After unindexing, `id` owns nothing of what the row carries; the rest is as before.
  pub owner-unindex_cols :
      (cs : List String) (u : Uniq V) (i : ℕ) (values : Map String V) (d : String) (w : V)
      → owner (unindex_cols u cs i values) d w ≡ (
          if is_in d cs && carries values d w && is_owner (owner u d w) i
          then none
          else owner u d w)
  unfolding unindex_cols
  owner-unindex_cols [] u i values d w = refl
  owner-unindex_cols (c ∷ cs) u i values d w = ground (
    arith,
    owner-unindex_cols cs (unindex_col u i values c) i values d w,
    owner-unindex_col u i values c d w,
  )

  owner-drop_stale :
      (u : Uniq V) (i : ℕ) (old new : Map String V) (c d : String) (w : V)
      → owner (drop_stale u i old new c) d w ≡ (
          if str_eq c d && stale old new d w && is_owner (owner u d w) i then none else owner u d w)
  unfolding drop_stale
  owner-drop_stale u i old new c d w = elim (Option-cases (Map.get old c)) [
    | inl absent ↦ ground (arith, eq_iff c d, absent)
    | inr (v, present) ↦ ground (arith, eq_iff c d, present, owner-release u c d v w i)
  ]

  -- `update` takes from `id` what its old row had and its new row has not.
  pub owner-drop_stale_cols :
      (cs : List String) (u : Uniq V) (i : ℕ) (old new : Map String V) (d : String) (w : V)
      → owner (drop_stale_cols u cs i old new) d w ≡ (
          if is_in d cs && stale old new d w && is_owner (owner u d w) i then none else owner u d w)
  unfolding drop_stale_cols
  owner-drop_stale_cols [] u i old new d w = refl
  owner-drop_stale_cols (c ∷ cs) u i old new d w = ground (
    arith,
    owner-drop_stale_cols cs (drop_stale u i old new c) i old new d w,
    owner-drop_stale u i old new c d w,
  )

  -- `check_uniq` passes exactly when no listed column clashes.
  pub check_cols_passes :
      (cs : List String) (u : Uniq V) (values : Map String V) (self_id : Option ℕ) (c : String)
      → check_cols u cs values self_id ≡ ok tt
      → is_in c cs ≡ true
      → clashes u values self_id c ≡ false
  unfolding check_cols
  check_cols_passes [] u values self_id c h m = cc
  check_cols_passes (d ∷ cs) u values self_id c h m =
      ground (arith, eq_iff d c, check_cols_passes cs u values self_id c)

  pub offers-get :
      (values : Map String V) (d : String) (w : V)
      → offers values d w ≡ true
      → Map.get values d ≡ some w
  offers-get values d w h = elim (Option-cases (Map.get values d)) [
    | inl absent ↦ ground (arith, absent)
    | inr (v, present) ↦ ground (arith, present, o.probe_sound v w)
  ]

  pub get-offers :
      (values : Map String V) (d : String) (w : V)
      → Map.get values d ≡ some w
      → o.is_null w ≡ false
      → o.probe w w ≡ true
      → offers values d w ≡ true
  get-offers values d w h n p = ground (arith, h)

  pub carries-get :
      (values : Map String V) (d : String) (w : V)
      → carries values d w ≡ true
      → Map.get values d ≡ some w
  carries-get values d w h = elim (Option-cases (Map.get values d)) [
    | inl absent ↦ ground (arith, absent)
    | inr (v, present) ↦ ground (arith, present, o.probe_sound v w)
  ]
