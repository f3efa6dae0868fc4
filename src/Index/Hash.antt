-- ===== src/Index/Hash.antt =====
-- crates/blitz-index/src/hash_index.rs
use blitz_db.Prelude.{
  ℕ, ◌+◌, String, Bool, true, false, List, [], ◌∷◌, length, map, Result, ok, err, if◌then◌else◌,
}
use blitz_db.Prelude.Map
use blitz_db.Prelude.Map.{Map, Key}
use blitz_db.Index.Entries.{or_empty, push_id, drop_id}

-- crates/blitz-index/src/error.rs; the texts are left out. The index gives the first.
pub data IndexError : Type 0 where
  duplicate_key not_found internal : IndexError

pub record HashIndex (V : Type 0) : Type 0 where
  pub column : String
  pub unique : Bool
  pub entries : Map V (List ℕ)

abbrev sum_lengths : {V : Type 0} → Map V (List ℕ) → ℕ
sum_lengths [] = 0
sum_lengths ((v, ids) ∷ m) = length ids + sum_lengths m

module _ {V : Type 0} where
  unfoldable pub new_index : String → Bool → HashIndex V
  new_index c u = record { column = c; unique = u; entries = [] }

  unfoldable pub clear : HashIndex V → HashIndex V
  clear i = record i { entries = [] }

  unfoldable pub len : HashIndex V → ℕ
  len i = sum_lengths i.entries

  unfoldable pub key_count : HashIndex V → ℕ
  key_count i = length i.entries

  unfoldable pub is_empty : HashIndex V → Bool
  is_empty i = elim (i.entries) [ [] ↦ true | e ∷ es ↦ false ]

  unfoldable pub keys : HashIndex V → List V
  keys i = map (λ e. e.0) i.entries

module _ {V : Type 0} ⦃k : Key V⦄ where
  unfoldable pub insert : HashIndex V → V → ℕ → Result IndexError (Unit {0}) × HashIndex V
  unfolding push_id Map.contains_key
  insert i v r =
      if i.unique
      then (if Map.contains_key i.entries v
          then (err duplicate_key, i)
          else (ok tt, record i { entries = Map.insert i.entries v (r ∷ []) }))
      else (ok tt, record i { entries = push_id i.entries v r })

  unfoldable pub lookup : HashIndex V → V → List ℕ
  lookup i v = or_empty (Map.get i.entries v)

  unfoldable pub remove : HashIndex V → V → ℕ → HashIndex V
  unfolding drop_id
  remove i v r = record i { entries = drop_id i.entries v r }
