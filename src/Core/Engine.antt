-- ===== src/Core/Engine.antt =====
-- crates/blitz-core/src/table.rs: the `TableEngine` methods of `InMemoryTableEngine`.
--
-- The engine is its map of tables. A method looks the table up, takes its lock and runs on it, so a
-- call is one step; it returns its outcome and the engine that it leaves.
pub mod Valid
use blitz_db.Prelude.{
  ℕ, String, Bool, true, false, Option, none, some, List, [], ◌∷◌, map, length, Result, ok, err,
}
use blitz_db.Prelude.Map
use blitz_db.Prelude.Map.{Map, string_key, nat_key}
use blitz_db.Types.Interface.{ValueOps}
use blitz_db.Types.Row.{Row}
use blitz_db.Types.Schema.{TableSchema}
use blitz_db.Core.Table
use blitz_db.Core.Table.{
  InMemoryTable, CoreError, CoreResult, table_not_found, table_already_exists, new_table,
}

abbrev pub Engine : Type 0 → Type 0
Engine V = Map String (InMemoryTable V)

module _ {V : Type 0} where
  abbrev pub new_engine : Engine V
  new_engine = []

  -- `self.table(name)?`, then the body under the write lock.
  unfoldable pub on_table {ℓ} :
      {A : Type ℓ}
      → Engine V
      → String
      → (InMemoryTable V → CoreResult A × InMemoryTable V)
      → CoreResult A × Engine V
  on_table e n body = elim (Map.get e n) [
    | none ↦ (err (table_not_found n), e)
    | some t ↦ let (r, t') = body t in (r, Map.insert e n t')
  ]

  -- The same under the read lock.
  unfoldable pub read_table {ℓ} :
      {A : Type ℓ} → Engine V → String → (InMemoryTable V → CoreResult A) → CoreResult A
  read_table e n body = elim (Map.get e n) [ none ↦ err (table_not_found n) | some t ↦ body t ]

  unfoldable pub get : Engine V → String → ℕ → CoreResult (Option (Row V))
  unfolding read_table
  get e n i = read_table e n (λ t. ok (Map.get t.rows i))

  pub scan : Engine V → String → CoreResult (List (Row V))
  unfolding read_table
  scan e n = read_table e n (λ t. ok (map (λ entry. entry.1) t.rows))

  pub schema : Engine V → String → CoreResult (TableSchema V)
  unfolding read_table
  schema e n = read_table e n (λ t. ok t.schema)

  pub count : Engine V → String → CoreResult ℕ
  unfolding read_table
  count e n = read_table e n (λ t. ok (length t.rows))

  unfoldable pub create_table : Engine V → TableSchema V → CoreResult (Unit {0}) × Engine V
  create_table e s = elim (Map.get e s.name) [
    | some t ↦ (err (table_already_exists s.name), e)
    | none ↦ (ok tt, Map.insert e s.name (new_table s))
  ]

  unfoldable pub drop_table : Engine V → String → CoreResult (Unit {0}) × Engine V
  drop_table e n = elim (Map.get e n) [
    | none ↦ (err (table_not_found n), e)
    | some t ↦ (ok tt, Map.remove e n)
  ]

  unfoldable pub table_exists : Engine V → String → Bool
  table_exists e n = Map.contains_key e n

  pub table_names : Engine V → List String
  table_names e = map (λ entry. entry.0) e

module _ {V : Type 0} ⦃o : ValueOps V⦄ where
  unfoldable pub insert : Engine V → String → Row V → CoreResult ℕ × Engine V
  unfolding on_table
  insert e n row = on_table e n (λ t. Table.insert t row)

  unfoldable pub insert_unchecked : Engine V → String → Row V → CoreResult ℕ × Engine V
  unfolding on_table
  insert_unchecked e n row = on_table e n (λ t. Table.insert_unchecked t row)

  unfoldable pub update : Engine V → String → ℕ → Map String V → CoreResult (Row V) × Engine V
  unfolding on_table
  update e n i values = on_table e n (λ t. Table.update t i values)

  unfoldable pub take : Engine V → String → ℕ → CoreResult (Option (Row V)) × Engine V
  unfolding on_table
  take e n i = on_table e n (λ t. let (taken, t') = Table.take t i in (ok taken, t'))

  unfoldable pub delete : Engine V → String → ℕ → CoreResult Bool × Engine V
  delete e n i =
      let (r, e') = take e n i in
      (elim r [ err x ↦ err x | ok taken ↦ ok (elim taken [ none ↦ false | some row ↦ true ]) ], e')

  unfoldable pub lookup_by_unique : Engine V → String → String → V → CoreResult (Option (Row V))
  unfolding read_table
  lookup_by_unique e n c v = read_table e n (λ t. Table.lookup_by_unique t c v)

  unfoldable pub insert_preserving_id : Engine V → String → Row V → CoreResult ℕ × Engine V
  unfolding on_table
  insert_preserving_id e n row = on_table e n (λ t. Table.insert_preserving_id t row)
