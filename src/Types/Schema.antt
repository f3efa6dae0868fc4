-- ===== src/Types/Schema.antt =====
-- crates/blitz-types/src/schema.rs: table schemas and the validation of a row's values.
use blitz_db.Prelude.{
  ℕ, String, Bool, not, ◌&&◌, Option, none, some, List, [], ◌∷◌, ◌++◌, length, any, keep, Result,
  ok, err, if◌then◌else◌, str_eq,
}
use blitz_db.Prelude.Map.{Map, get, insert, string_key}
use blitz_db.Types.Interface.{ColumnDef, ValueOps}

-- The texts of the messages are left out: an error names the column that it is about.
pub data TypeError : Type 0 where
  null_value : TypeError
  wrong_type : String → TypeError
  required : String → TypeError
  not_found : String → TypeError
  already_exists : String → TypeError

-- `id` is the random `Uuid` of the `TableId`, which the caller supplies.
pub record TableSchema (V : Type 0) : Type 0 where
  pub id : ℕ
  pub name : String
  pub columns : List (ColumnDef V)
  pub column_index : Map String ℕ

module _ {V : Type 0} where
  unfoldable pub new_schema : ℕ → String → TableSchema V
  new_schema uuid n = record { id = uuid; name = n; columns = []; column_index = [] }

  unfoldable pub with_column : TableSchema V → ColumnDef V → TableSchema V
  with_column s c = record s {
    columns = s.columns ++ (c ∷ []);
    column_index = insert s.column_index c.name (length s.columns);
  }

  unfoldable pub primary_key_columns : TableSchema V → List (ColumnDef V)
  primary_key_columns s = keep (λ c. c.is_primary_key) s.columns

  pub has_primary_key : TableSchema V → Bool
  has_primary_key s = any (λ c. c.is_primary_key) s.columns

  -- The column that stands at a position, and the lookup of `TableSchema::column`.
  unfoldable pub column_at : List (ColumnDef V) → ℕ → Option (ColumnDef V)
  column_at [] i = none
  column_at (c ∷ cs) ℕ.zero = some c
  column_at (c ∷ cs) (ℕ.suc i) = column_at cs i

  pub column : TableSchema V → String → Result TypeError (ColumnDef V)
  unfolding column_at
  column s n = elim (get s.column_index n) [
    | none ↦ err (not_found n)
    | some i ↦ elim (column_at s.columns i) [ none ↦ err (not_found n) | some c ↦ ok c ]
  ]

  pub column_index : TableSchema V → String → Result TypeError ℕ
  column_index s n = elim (get s.column_index n) [ none ↦ err (not_found n) | some i ↦ ok i ]

module _ {V : Type 0} ⦃o : ValueOps V⦄ where
  -- The match on `values.get(&col.name)` in `validate_row_values`.
  unfoldable pub check_present : ColumnDef V → V → Result TypeError (Unit {0})
  check_present c v =
      if o.is_null v && not c.is_nullable
      then err null_value
      else if not (o.is_null v) && not (o.matches_type v c.column_type)
      then err (wrong_type c.name)
      else ok tt

  unfoldable pub check_absent : ColumnDef V → Result TypeError (Unit {0})
  check_absent c = elim c.default [
    | some d ↦ ok tt
    | none ↦
        if c.is_primary_key
        then err (required c.name)
        else if not c.is_nullable
        then err (required c.name)
        else ok tt
  ]

  unfoldable pub check_column : ColumnDef V → Map String V → Result TypeError (Unit {0})
  unfolding check_present check_absent
  check_column c values = elim (get values c.name) [
    | none ↦ check_absent c
    | some v ↦ check_present c v
  ]

  unfoldable pub validate_columns : List (ColumnDef V) → Map String V → Result TypeError (Unit {0})
  validate_columns [] values = ok tt
  validate_columns (c ∷ cs) values =
      let rest = validate_columns cs values in
      elim (check_column c values) [ ok u ↦ rest | err e ↦ err e ]

  unfoldable pub validate_row_values : TableSchema V → Map String V → Result TypeError (Unit {0})
  unfolding validate_columns
  validate_row_values s values = validate_columns s.columns values

-- The schema of the whole database.
module _ {V : Type 0} where
  pub find_table : List (TableSchema V) → String → Option (TableSchema V)
  find_table [] n = none
  find_table (t ∷ ts) n = if str_eq t.name n then some t else find_table ts n

  pub get_table : List (TableSchema V) → String → Result TypeError (TableSchema V)
  unfolding find_table
  get_table ts n = elim (find_table ts n) [ none ↦ err (not_found n) | some t ↦ ok t ]

  pub add_table :
      List (TableSchema V) → TableSchema V → Result TypeError (Unit {0}) × List (TableSchema V)
  add_table ts t =
      if any (λ s. str_eq s.name t.name) ts
      then (err (already_exists t.name), ts)
      else (ok tt, ts ++ (t ∷ []))
