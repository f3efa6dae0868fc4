-- ===== src/Types/Row.antt =====
-- crates/blitz-types/src/row.rs: a row is its id and a map from column names to values.
use blitz_db.Prelude.{ℕ, String, Bool, Option, none, some, List, [], ◌∷◌, Result, ok, err, map}
use blitz_db.Prelude.Map
use blitz_db.Prelude.Map.{Map, string_key}
use blitz_db.Types.Interface.{ValueOps}
use blitz_db.Types.Schema.{TableSchema, TypeError, primary_key_columns, validate_row_values}

pub record Row (V : Type 0) : Type 0 where
  pub id : ℕ
  pub values : Map String V

module _ {V : Type 0} where
  unfoldable pub new : ℕ → Row V
  new i = record { id = i; values = [] }

  unfoldable pub set : Row V → String → V → Row V
  set r n v = record r { values = Map.insert r.values n v }

  unfoldable pub get : Row V → String → Option V
  get r n = Map.get r.values n

  pub has_column : Row V → String → Bool
  has_column r n = Map.contains_key r.values n

  pub remove : Row V → String → Option V × Row V
  remove r n = (Map.get r.values n, record r { values = Map.remove r.values n })

  -- `Row::project`: the columns are inserted one by one into an empty row.
  unfoldable pub project_from : Row V → Row V → List String → Row V
  project_from source out [] = out
  project_from source out (c ∷ cs) =
      project_from source
        (elim (Map.get source.values c) [
          | none ↦ out
          | some v ↦ record out { values = Map.insert out.values c v }
        ])
        cs

  unfoldable pub project : Row V → List String → Row V
  unfolding new project_from
  project r cs = project_from r (new r.id) cs

module _ {V : Type 0} ⦃o : ValueOps V⦄ where
  pub from_values : ℕ → Map String V → TableSchema V → Result TypeError (Row V)
  from_values i values s = elim (validate_row_values s values) [
    | ok u ↦ ok (record { id = i; values = values })
    | err e ↦ err e
  ]

  -- A missing key column reads as null.
  pub primary_key_values : Row V → TableSchema V → List V
  primary_key_values r s =
      map (λ c. elim (Map.get r.values c.name) [ none ↦ o.null | some v ↦ v ])
        (primary_key_columns s)
