-- ===== src/Query/Executor.antt =====
-- crates/blitz-query/src/executor.rs: `QueryExecutor::execute`.
pub mod Sound
pub mod Pages
use blitz_db.Prelude.{
  ℕ, String, Bool, true, false, not, ◌||◌, Option, none, some, List, [], ◌∷◌, length, take, drop,
  keep, map, Result, ok, err, if◌then◌else◌, leb,
}
use blitz_db.Types.Value.{Foreign, Value}
use blitz_db.Types.Row
use blitz_db.Types.Row.{Row}
use blitz_db.Query.Planner.{Filter, Sort, Query}
use blitz_db.Query.Sort.{sort_by}
use blitz_db.Query.Match.{matches_filter, compare_rows, truncated}
use blitz_db.Query.Aggregate.{Floats, execute_aggregation}

-- crates/blitz-query/src/error.rs; the texts are left out. `execute` gives none of them.
pub data QueryError : Type 0 where
  table_not_found column_not_found invalid_query internal : QueryError

abbrev is_empty : {A : Type 0} → List A → Bool
is_empty [] = true
is_empty (a ∷ as') = false

module _ {F : Foreign} where
  unfoldable pub filter_rows :
      (List ℕ → List ℕ) → List (Row (Value F)) → Filter F → List (Row (Value F))
  unfolding matches_filter
  filter_rows lower rows f = keep (λ r. matches_filter lower r f) rows

  unfoldable pub matching :
      (List ℕ → List ℕ) → List (Row (Value F)) → Query F → List (Row (Value F))
  unfolding filter_rows
  matching lower rows q = elim (q.filter) [ none ↦ rows | some f ↦ filter_rows lower rows f ]

  unfoldable pub sort_rows : List (Row (Value F)) → List Sort → List (Row (Value F))
  unfolding sort_by compare_rows
  sort_rows rows [] = rows
  sort_rows rows (s ∷ ss) = sort_by (compare_rows (s ∷ ss)) rows

  -- `drain(offset..)`, and nothing if the offset is past the end.
  unfoldable pub skipped : Option ℕ → List (Row (Value F)) → List (Row (Value F))
  skipped none rows = rows
  skipped (some o) rows = if leb (length rows) o then [] else drop o rows

  unfoldable pub paged : Option ℕ → Option ℕ → List (Row (Value F)) → List (Row (Value F))
  unfolding skipped truncated
  paged offset limit rows = truncated limit (skipped offset rows)

  unfoldable pub shown : Query F → Row (Value F) → Row (Value F)
  unfolding Row.project
  shown q r = elim (q.projections) [ none ↦ r | some cs ↦ Row.project r cs ]

  unfoldable pub aggregates : Query F → Bool
  aggregates q = not (is_empty q.group_by) || not (is_empty q.aggregations)

  unfoldable pub execute :
      (List ℕ → List ℕ)
      → Floats
      → List (Row (Value F))
      → Query F
      → Result QueryError (List (Row (Value F)))
  unfolding matching aggregates execute_aggregation sort_rows paged shown
  execute lower floats rows q =
      let result = matching lower rows q in
      if aggregates q
      then ok (execute_aggregation floats result q)
      else ok (map (shown q) (paged q.offset q.limit (sort_rows result q.sorts)))
