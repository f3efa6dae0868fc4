-- ===== src/Core/Table.antt =====
-- crates/blitz-core/src/table.rs: `InMemoryTable`, its unique indexes, and the bodies of the engine's
-- methods once a table is found and locked. `Arc<Row>` is the row: rows are copied on write.
--
-- `uniq` maps a column to its index, value to row id. A method returns its outcome and the table
-- that it leaves, so that what a failing call changes can be stated.
pub mod Index
pub mod Valid
pub mod Insert
pub mod Update
pub mod Outcome
use blitz_db.Prelude.{
  ℕ, ◌+◌, ◌%◌, ◌^◌, String, Bool, true, false, not, ◌&&◌, ◌||◌, Option, none, some, List, [], ◌∷◌,
  map, keep, any, Result, ok, err, if◌then◌else◌, leb, ◌==◌, str_eq,
}
use blitz_db.Prelude.Map
use blitz_db.Prelude.Map.{Map, string_key, nat_key}
use blitz_db.Types.Interface.{ValueOps, ColumnDef, value_key}
use blitz_db.Types.Schema.{TableSchema, TypeError, validate_row_values}
use blitz_db.Types.Row.{Row}

-- crates/blitz-core/src/error.rs. The texts are left out; `duplicate_key` keeps the column or, from
-- `insert_preserving_id`, the row.
pub data CoreError : Type 0 where
  table_not_found : String → CoreError
  table_already_exists : String → CoreError
  row_not_found : ℕ → CoreError
  duplicate_key : String → CoreError
  duplicate_row : ℕ → CoreError
  constraint_violation : String → CoreError
  type_error : TypeError → CoreError

abbrev pub CoreResult {ℓ} : Type ℓ → Type ℓ
CoreResult A = Result CoreError A

abbrev pub Uniq : Type 0 → Type 0
Uniq V = Map String (Map V ℕ)

pub record InMemoryTable (V : Type 0) : Type 0 where
  pub schema : TableSchema V
  pub rows : Map ℕ (Row V)
  pub next_id : ℕ
  pub uniq : Uniq V

abbrev pub u64_mod : ℕ
u64_mod = 2 ^ 64

-- `Some(*owner) != self_id`, read as an equality.
abbrev pub is_owner : Option ℕ → ℕ → Bool
is_owner none i = false
is_owner (some j) i = j == i

module _ {V : Type 0} where
  unfoldable pub new_table : TableSchema V → InMemoryTable V
  new_table s = record { schema = s; rows = []; next_id = 1; uniq = [] }

  -- The id, and the counter after `self.next_id += 1` on a `u64`.
  unfoldable pub next_row_id : InMemoryTable V → ℕ × InMemoryTable V
  next_row_id t = (t.next_id, record t { next_id = (t.next_id + 1) % u64_mod })

  unfoldable pub unique_names : TableSchema V → List String
  unique_names s = map (λ c. c.name) (keep (λ c. c.is_primary_key || c.is_unique) s.columns)

  abbrev pub uniq_cols : InMemoryTable V → List String
  uniq_cols t = unique_names t.schema

module _ {V : Type 0} ⦃o : ValueOps V⦄ where
  -- `self.uniq.get(col)` and then `idx.get(v)`.
  unfoldable pub owner : Uniq V → String → V → Option ℕ
  owner u c v = elim (Map.get u c) [ none ↦ none | some idx ↦ Map.get idx v ]

  -- One round of the loop of `check_uniq`: does the row's value belong to another row?
  unfoldable pub clashes : Uniq V → Map String V → Option ℕ → String → Bool
  unfolding owner
  clashes u values self_id c = elim (Map.get values c) [
    | none ↦ false
    | some v ↦
        if o.is_null v
        then false
        else elim (owner u c v) [ none ↦ false | some i ↦ not (is_owner self_id i) ]
  ]

  unfoldable pub check_cols : Uniq V → List String → Map String V → Option ℕ → CoreResult (Unit {0})
  check_cols u [] values self_id = ok tt
  check_cols u (c ∷ cs) values self_id =
      let rest = check_cols u cs values self_id in
      if clashes u values self_id c then err (duplicate_key c) else rest

  unfoldable pub check_uniq :
      InMemoryTable V → List String → Map String V → Option ℕ → CoreResult (Unit {0})
  check_uniq t cs values self_id = check_cols t.uniq cs values self_id

  -- `self.uniq.entry(col).or_default().insert(v, id)`
  abbrev pub entry_or_default : Uniq V → String → Map V ℕ
  entry_or_default u c = elim (Map.get u c) [ none ↦ [] | some idx ↦ idx ]

  unfoldable pub claim : Uniq V → String → V → ℕ → Uniq V
  claim u c v i = Map.insert u c (Map.insert (entry_or_default u c) v i)

  unfoldable pub index_col : Uniq V → ℕ → Map String V → String → Uniq V
  index_col u i values c = elim (Map.get values c) [
    | none ↦ u
    | some v ↦ if o.is_null v then u else claim u c v i
  ]

  unfoldable pub index_cols : Uniq V → List String → ℕ → Map String V → Uniq V
  index_cols u [] i values = u
  index_cols u (c ∷ cs) i values = index_cols (index_col u i values c) cs i values

  unfoldable pub index_row : InMemoryTable V → List String → ℕ → Map String V → InMemoryTable V
  index_row t cs i values = record t { uniq = index_cols t.uniq cs i values }

  -- `if idx.get(&v) == Some(&id) { idx.remove(&v); }`
  unfoldable pub release : Uniq V → String → V → ℕ → Uniq V
  release u c v i = elim (Map.get u c) [
    | none ↦ u
    | some idx ↦ elim (Map.get idx v) [
      | none ↦ u
      | some j ↦ if j == i then Map.insert u c (Map.remove idx v) else u
    ]
  ]

  unfoldable pub unindex_col : Uniq V → ℕ → Map String V → String → Uniq V
  unindex_col u i values c = elim (Map.get values c) [ none ↦ u | some v ↦ release u c v i ]

  unfoldable pub unindex_cols : Uniq V → List String → ℕ → Map String V → Uniq V
  unindex_cols u [] i values = u
  unindex_cols u (c ∷ cs) i values = unindex_cols (unindex_col u i values c) cs i values

  unfoldable pub unindex_row : InMemoryTable V → List String → ℕ → Map String V → InMemoryTable V
  unindex_row t cs i values = record t { uniq = unindex_cols t.uniq cs i values }

  -- The part that `insert` and `insert_unchecked` share, from `uniq_cols` on.
  unfoldable pub insert_unchecked : InMemoryTable V → Row V → CoreResult ℕ × InMemoryTable V
  insert_unchecked t row =
      let cs = uniq_cols t in
      elim (check_uniq t cs row.values none) [
        | err e ↦ (err e, t)
        | ok u ↦
            let (i, t') = next_row_id t in
            let t'' = index_row t' cs i row.values in
            (ok i, record t'' { rows = Map.insert t''.rows i (record row { id = i }) })
      ]

  unfoldable pub insert : InMemoryTable V → Row V → CoreResult ℕ × InMemoryTable V
  insert t row = elim (validate_row_values t.schema row.values) [
    | err e ↦ (err (type_error e), t)
    | ok u ↦ insert_unchecked t row
  ]

  -- The two loops at the end of `update`: drop the stale keys, add the current ones. The stale test
  -- is `!=` on values, which is not the probe of the index.
  unfoldable pub drop_stale : Uniq V → ℕ → Map String V → Map String V → String → Uniq V
  drop_stale u i old new c = elim (Map.get old c) [
    | none ↦ u
    | some v ↦ elim (Map.get new c) [
      | none ↦ release u c v i
      | some w ↦ if o.eq w v then u else release u c v i
    ]
  ]

  unfoldable pub drop_stale_cols : Uniq V → List String → ℕ → Map String V → Map String V → Uniq V
  drop_stale_cols u [] i old new = u
  drop_stale_cols u (c ∷ cs) i old new = drop_stale_cols (drop_stale u i old new c) cs i old new

  unfoldable pub update : InMemoryTable V → ℕ → Map String V → CoreResult (Row V) × InMemoryTable V
  update t i values = elim (Map.get t.rows i) [
    | none ↦ (err (row_not_found i), t)
    | some cur ↦
        let cs = uniq_cols t in
        elim (check_uniq t cs values (some i)) [
          | err e ↦ (err e, t)
          | ok u ↦
              let new = Map.extend cur.values values in
              let row = record cur { values = new } in
              (
                ok row,
                record t {
                  rows = Map.insert t.rows i row;
                  uniq = index_cols (drop_stale_cols t.uniq cs i cur.values new) cs i new;
                },
              )
        ]
  ]

  unfoldable pub take : InMemoryTable V → ℕ → Option (Row V) × InMemoryTable V
  take t i = elim (Map.get t.rows i) [
    | none ↦ (none, record t { rows = Map.remove t.rows i })
    | some row ↦
        (some row, unindex_row (record t { rows = Map.remove t.rows i }) (uniq_cols t) i row.values)
  ]

  unfoldable pub lookup_by_unique : InMemoryTable V → String → V → CoreResult (Option (Row V))
  lookup_by_unique t c v =
      if not (any (λ d. str_eq d.name c && (d.is_primary_key || d.is_unique)) t.schema.columns)
      then err (constraint_violation c)
      else if o.is_null v
      then ok none
      else elim (owner t.uniq c v) [ none ↦ ok none | some i ↦ ok (Map.get t.rows i) ]

  unfoldable pub insert_preserving_id : InMemoryTable V → Row V → CoreResult ℕ × InMemoryTable V
  insert_preserving_id t row = elim (Map.get t.rows row.id) [
    | some r ↦ (err (duplicate_row row.id), t)
    | none ↦
        let cs = uniq_cols t in
        elim (check_uniq t cs row.values (some row.id)) [
          | err e ↦ (err e, t)
          | ok u ↦
              let next = if leb t.next_id row.id then (row.id + 1) % u64_mod else t.next_id in
              let t' = index_row (record t { next_id = next }) cs row.id row.values in
              (ok row.id, record t' { rows = Map.insert t'.rows row.id row })
        ]
  ]
