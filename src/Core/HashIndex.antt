-- ===== src/Core/HashIndex.antt =====
-- crates/blitz-core/src/index.rs: the index of the core crate, with a map of its own for unique
-- values.
use blitz_db.Prelude.{
  ℕ, String, Bool, Option, none, some, List, [], ◌∷◌, length, Result, ok, err, if◌then◌else◌, ◌==◌,
}
use blitz_db.Prelude.Map
use blitz_db.Prelude.Map.{Map, Key}
use blitz_db.Index.Entries.{or_empty, push_id, drop_id}
use blitz_db.Core.Table.{CoreError, duplicate_key}

pub record HashIndex (V : Type 0) : Type 0 where
  pub column : String
  pub unique : Bool
  pub entries : Map V (List ℕ)
  pub unique_entries : Map V ℕ

abbrev alone : Option ℕ → List ℕ
alone none = []
alone (some r) = r ∷ []

module _ {V : Type 0} where
  unfoldable pub new_index : String → Bool → HashIndex V
  new_index c u = record { column = c; unique = u; entries = []; unique_entries = [] }

  unfoldable pub len : HashIndex V → ℕ
  len i = if i.unique then length i.unique_entries else length i.entries

  unfoldable pub is_empty : HashIndex V → Bool
  unfolding len
  is_empty i = len i == 0

module _ {V : Type 0} ⦃k : Key V⦄ where
  unfoldable pub insert : HashIndex V → V → ℕ → Result CoreError (Unit {0}) × HashIndex V
  unfolding push_id Map.contains_key
  insert i v r =
      if i.unique
      then (if Map.contains_key i.unique_entries v
          then (err (duplicate_key i.column), i)
          else (ok tt, record i { unique_entries = Map.insert i.unique_entries v r }))
      else (ok tt, record i { entries = push_id i.entries v r })

  -- A unique index forgets the value, whichever row it belongs to.
  unfoldable pub remove : HashIndex V → V → ℕ → HashIndex V
  unfolding drop_id
  remove i v r =
      if i.unique
      then record i { unique_entries = Map.remove i.unique_entries v }
      else record i { entries = drop_id i.entries v r }

  unfoldable pub lookup : HashIndex V → V → List ℕ
  lookup i v =
      if i.unique then alone (Map.get i.unique_entries v) else or_empty (Map.get i.entries v)

  unfoldable pub contains : HashIndex V → V → Bool
  unfolding Map.contains_key
  contains i v =
      if i.unique then Map.contains_key i.unique_entries v else Map.contains_key i.entries v
