-- ===== src/Query/Planner.antt =====
-- crates/blitz-query/src/planner.rs: filters, sorts, aggregations and queries.
--
-- A vector of filters inside a filter is the list type `Filters`. The pattern of `like` is its UTF-8
-- bytes, as a text value is.
use blitz_db.Prelude.{ℕ, String, Option, none, some, List, [], ◌∷◌, ◌++◌}
use blitz_db.Types.Value.{Foreign, Value}

mutual
  pub data Filter (F : Foreign) : Type 0 where
    eq ne gt lt gte lte : String → Value F → Filter F
    in_ not_in : String → List (Value F) → Filter F
    between : String → Value F → Value F → Filter F
    like : String → List ℕ → Filter F
    is_null is_not_null : String → Filter F
    and or : Filters F → Filter F
    not : Filter F → Filter F

  pub data Filters (F : Foreign) : Type 0 where
    nil : Filters F
    cons : Filter F → Filters F → Filters F

pub data SortDirection : Type 0 where
  asc desc : SortDirection

pub record Sort : Type 0 where
  pub column : String
  pub direction : SortDirection

unfoldable pub sort_asc : String → Sort
sort_asc c = record { column = c; direction = asc }

unfoldable pub sort_desc : String → Sort
sort_desc c = record { column = c; direction = desc }

pub data AggFunction : Type 0 where
  count : AggFunction
  count_column sum avg min max : String → AggFunction

pub record Query (F : Foreign) : Type 0 where
  pub table : String
  pub filter : Option (Filter F)
  pub projections : Option (List String)
  pub sorts : List Sort
  pub limit : Option ℕ
  pub offset : Option ℕ
  pub aggregations : List (String × AggFunction)
  pub group_by : List String

-- The builder: each method changes one field.
module _ {F : Foreign} where
  unfoldable pub new_query : String → Query F
  new_query t = record {
    table = t;
    filter = none;
    projections = none;
    sorts = [];
    limit = none;
    offset = none;
    aggregations = [];
    group_by = [];
  }

  unfoldable pub with_filter : Filter F → Query F → Query F
  with_filter f q = record q { filter = some f }

  unfoldable pub select : List String → Query F → Query F
  select cs q = record q { projections = some cs }

  unfoldable pub order_by : Sort → Query F → Query F
  order_by s q = record q { sorts = q.sorts ++ (s ∷ []) }

  unfoldable pub with_limit : ℕ → Query F → Query F
  with_limit n q = record q { limit = some n }

  unfoldable pub with_offset : ℕ → Query F → Query F
  with_offset n q = record q { offset = some n }

  -- `count`, `sum`, `avg`, `min` and `max` of the source.
  unfoldable pub aggregate : String → AggFunction → Query F → Query F
  aggregate alias f q = record q { aggregations = q.aggregations ++ ((alias, f) ∷ []) }

  unfoldable pub with_group_by : List String → Query F → Query F
  with_group_by cs q = record q { group_by = cs }
