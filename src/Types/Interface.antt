-- ===== src/Types/Interface.antt =====
-- crates/blitz-types/src/column.rs, and what the storage layers ask of a `Value`.
--
-- The engine above is written against this interface; `blitz_db.Types.Value` fills it.
use blitz_db.Prelude.{Bool, true, false, Option, none, some, String, ◌≡◌}
use blitz_db.Prelude.Map.{Key}

pub data ColumnType : Type 0 where
  boolean int8 int16 int32 int64 uint8 uint16 uint32 uint64 : ColumnType
  float32 float64 decimal string bytes uuid timestamp date json array : ColumnType

-- `is_null`, the derived `==`, and the strict type check of schema.rs.
-- `probe` is the test by which a `HashMap` accepts a stored key: equal hash input and `==`.
pub record ValueOps (V : Type 0) : Type 0 where
  pub null : V
  pub is_null : V → Bool
  pub eq : V → V → Bool
  pub probe : V → V → Bool
  pub probe_sound : (v w : V) → probe v w ≡ true → v ≡ w
  pub matches_type : V → ColumnType → Bool

instance abbrev pub value_key : {V : Type 0} ⦃o : ValueOps V⦄ → Key V
value_key ⦃o⦄ = record { same = o.probe; same_sound = o.probe_sound }

pub record ColumnDef (V : Type 0) : Type 0 where
  pub name : String
  pub column_type : ColumnType
  pub is_nullable : Bool
  pub is_primary_key : Bool
  pub is_unique : Bool
  pub default : Option V

-- The builders `ColumnDef::new`, `nullable`, `primary_key`, `unique`, `default_value`.
module _ {V : Type 0} where
  unfoldable pub new_column : String → ColumnType → ColumnDef V
  new_column n t = record {
    name = n;
    column_type = t;
    is_nullable = false;
    is_primary_key = false;
    is_unique = false;
    default = none;
  }

  unfoldable pub nullable : ColumnDef V → ColumnDef V
  nullable c = record c { is_nullable = true }

  unfoldable pub primary_key : ColumnDef V → ColumnDef V
  primary_key c = record c { is_primary_key = true; is_nullable = false }

  unfoldable pub unique : ColumnDef V → ColumnDef V
  unique c = record c { is_unique = true }

  unfoldable pub default_value : ColumnDef V → V → ColumnDef V
  default_value c v = record c { default = some v }
