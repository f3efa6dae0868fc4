-- ===== src/Types/Value/Transitive.antt =====
-- `Ord::cmp` of values is transitive, in arrays by their items.
pub mod Parts
use blitz_db.Prelude.{
  ℕ, zero, suc, ◌+◌, Bool, true, false, ◌&&◌, Option, none, some, List, [], ◌≡◌, ◌≢◌, refl, arith,
  subst, sym, Bool-cases, inl, inr,
}
use blitz_db.Prelude.Order.{ℤ, pos, and_then, cmp_int, cmp_bool, cmp_bytes}
use blitz_db.Prelude.Chain.{
  Chain, Chain-below, Chain-along, and_then-Chain, lt-Chain, gt-Chain_last, compare-Chain,
  cmp_int-Chain, cmp_bytes-Chain,
}
use Prim.Native.Nat.{compare, Ordering}
use blitz_db.Types.Value.Transitive.Parts.{items_part, cmp_items, parts-Chain}
use blitz_db.Types.Value.{
  Foreign, Ordered, Value, Values, nil, cons, boolean, int8, int16, int32, int64, uint8, uint16,
  uint32, uint64, float32, float64, decimal, string, bytes, uuid, timestamp, date, json, array,
  null, variant_index, cmp, cmp_zip, len,
}

then_assoc : (p q r : Ordering) → and_then (and_then p q) r ≡ and_then p (and_then q r)
then_assoc p q r = ground arith

compare-suc : (m n : ℕ) → compare (suc m) (suc n) ≡ compare m n
compare-suc m n = ground arith

cmp_items-cons :
    {F : Foreign} (v w : Value F) (vs ws : Values F)
    → cmp_items (cons v vs) (cons w ws) ≡ and_then (cmp v w) (cmp_items vs ws)
unfolding cmp_zip len
cmp_items-cons v w vs ws =
    let lengths = compare-suc (len vs) (len ws) in
    let parts = then_assoc (cmp v w) (cmp_zip vs ws) (compare (len vs) (len ws)) in
    cc (lengths, parts)

cmp_items-below :
    {F : Foreign} (w : Value F) (ws : Values F) → cmp_items nil (cons w ws) ≡ Ordering.lt
unfolding cmp_zip len
cmp_items-below w ws = ground arith

cmp_items-above :
    {F : Foreign} (v : Value F) (vs : Values F) → cmp_items (cons v vs) nil ≡ Ordering.gt
unfolding cmp_zip len
cmp_items-above v vs = ground arith

unfoldable is_array : {F : Foreign} → Value F → Bool
is_array (array a) = true
is_array _ = false

-- The items of what is not an array are none.
nil_first-Chain :
    {F : Foreign} (w x : Values F) → Chain (cmp_items nil w) (cmp_items w x) (cmp_items nil x)
unfolding cmp_zip len
nil_first-Chain nil x = refl
nil_first-Chain (cons w ws) nil = Chain-along (cmp_items-below w ws) (cmp_items-above w ws) refl tt
nil_first-Chain (cons w ws) (cons x xs) =
    Chain-along (cmp_items-below w ws) refl (cmp_items-below x xs)
      (lt-Chain (cmp_items (cons w ws) (cons x xs)))

nil_second-Chain :
    {F : Foreign} (v x : Values F) → Chain (cmp_items v nil) (cmp_items nil x) (cmp_items v x)
unfolding cmp_zip len
nil_second-Chain nil x = refl
nil_second-Chain (cons v vs) nil =
    Chain-along (cmp_items-above v vs) refl (cmp_items-above v vs) refl
nil_second-Chain (cons v vs) (cons x xs) =
    Chain-along (cmp_items-above v vs) (cmp_items-below x xs) refl tt

nil_third-Chain :
    {F : Foreign} (v w : Values F) → Chain (cmp_items v w) (cmp_items w nil) (cmp_items v nil)
unfolding cmp_zip len
nil_third-Chain nil w = nil_first-Chain w nil
nil_third-Chain (cons v vs) nil = nil_second-Chain (cons v vs) nil
nil_third-Chain (cons v vs) (cons w ws) =
    Chain-along refl (cmp_items-above w ws) (cmp_items-above v vs)
      (gt-Chain_last (cmp_items (cons v vs) (cons w ws)))

items_of-nil : {F : Foreign} (v : Value F) → is_array v ≡ false → items_part v ≡ nil
unfolding is_array
items_of-nil (array a) h = cc
items_of-nil _ h = refl

few_arrays-Chain :
    {F : Foreign} (v w x : Value F)
    → (is_array v && (is_array w && is_array x)) ≡ false
    → Chain
        (cmp_items (items_part v) (items_part w))
        (cmp_items (items_part w) (items_part x))
        (cmp_items (items_part v) (items_part x))
few_arrays-Chain v w x h = elim (Bool-cases (is_array v)) [
  | inr n ↦
      subst
        (λ a.
          Chain (cmp_items a (items_part w)) (cmp_items (items_part w) (items_part x))
            (cmp_items a (items_part x)))
        (sym (items_of-nil v n)) (nil_first-Chain (items_part w) (items_part x))
  | inl y ↦ elim (Bool-cases (is_array w)) [
    | inr n ↦
        subst
          (λ a.
            Chain (cmp_items (items_part v) a) (cmp_items a (items_part x))
              (cmp_items (items_part v) (items_part x)))
          (sym (items_of-nil w n)) (nil_second-Chain (items_part v) (items_part x))
    | inl z ↦
        let n : is_array x ≡ false = ground (arith, h, y, z) in
        subst
          (λ a.
            Chain (cmp_items (items_part v) (items_part w)) (cmp_items (items_part w) a)
              (cmp_items (items_part v) a))
          (sym (items_of-nil x n)) (nil_third-Chain (items_part v) (items_part w))
  ]
]

mutual
  unfolding is_array

  cmp_values-Chain : {F : Foreign} (v w x : Value F) → Chain (cmp v w) (cmp w x) (cmp v x)
  cmp_values-Chain (array a) (array b) (array c) =
      parts-Chain (array a) (array b) (array c) (cmp_items-Chain a b c)
  cmp_values-Chain v w x = parts-Chain v w x (few_arrays-Chain v w x refl)

  cmp_items-Chain :
      {F : Foreign} (vs ws xs : Values F)
      → Chain (cmp_items vs ws) (cmp_items ws xs) (cmp_items vs xs)
  cmp_items-Chain nil ws xs = nil_first-Chain ws xs
  cmp_items-Chain (cons v vs) nil xs = nil_second-Chain (cons v vs) xs
  cmp_items-Chain (cons v vs) (cons w ws) nil = nil_third-Chain (cons v vs) (cons w ws)
  cmp_items-Chain (cons v vs) (cons w ws) (cons x xs) =
      Chain-along (cmp_items-cons v w vs ws) (cmp_items-cons w x ws xs) (cmp_items-cons v x vs xs)
        (and_then-Chain _ _ _ _ _ _ (cmp_values-Chain v w x) (cmp_items-Chain vs ws xs))

-- The order of values is transitive.
pub cmp-Chain : {F : Foreign} (v w x : Value F) → Chain (cmp v w) (cmp w x) (cmp v x)
cmp-Chain v w x = cmp_values-Chain v w x

-- `Ord::cmp` of values is transitive, over every variant and nested arrays: if a value is not
-- greater than a second, and that not greater than a third, then the first is not greater than the
-- third.
pub cmp_transitive :
    {F : Foreign} (v w x : Value F)
    → cmp v w ≢ Ordering.gt
    → cmp w x ≢ Ordering.gt
    → cmp v x ≢ Ordering.gt
cmp_transitive v w x = Chain-below (cmp v w) (cmp w x) (cmp v x) (cmp-Chain v w x)
