-- ===== src/Tests/Query.antt =====
-- Queries over three users. Lower case is left as it is, and the numbers of the floats are whole.
use blitz_db.Prelude.{
  ℕ, ◌+◌, ◌/◌, true, false, none, some, List, [], ◌∷◌, ◌++◌, map, ok, ◌≡◌, refl, arith,
}
use blitz_db.Prelude.Order.{pos, negsuc}
use mathlib.Core.List.{Mem, Perm, mem-cons}
use mathlib.Core.Logic.Or
use blitz_db.Prelude.Map
use blitz_db.Types.Value.{int32, string, cmp}
use blitz_db.Types.Row
use blitz_db.Types.Row.{Row}
use blitz_db.Query.Planner.{Filter, Query, desc}
use blitz_db.Query.Like.{percent, split, begins, find, match_parts, like_match}
use blitz_db.Query.Sort.{sort_by, insert_by}
use blitz_db.Query.Sort.Ordered.{IsSortedBy}
use blitz_db.Query.Match.{matches_filter, compare_rows, truncated, at_least}
use blitz_db.Query.Aggregate.{Floats, group_rows}
use blitz_db.Query.Aggregate.Groups.{rows_of, IsKeyed, group_rows-perm}
use blitz_db.Query.Executor.{
  matching, filter_rows, sort_rows, skipped, paged, shown, aggregates, execute,
}
use blitz_db.Query.Executor.Sound.{execute_lem, execute_sound}
use blitz_db.Query.Executor.Pages.{pages_join}
use blitz_db.Query.Like.Prefix.{like_suffix_open}
use blitz_db.Tests.{Cell, sample, ann, bob}

abbrev same_case : List ℕ → List ℕ
same_case text = text

abbrev whole_numbers : Floats
whole_numbers = record {
  of_int = λ z. elim z [ pos n ↦ n | negsuc n ↦ 0 ];
  of_float32 = λ b. b;
  add = ◌+◌;
  divide = ◌/◌;
}

abbrev cat : Row Cell
cat = record { id = 3; values = ("email", string (99 ∷ [])) ∷ ("age", int32 (pos 40)) ∷ [] }

abbrev ann_row : Row Cell
ann_row = record { id = 1; values = ann }

abbrev rows : List (Row Cell)
rows = ann_row ∷ record { id = 2; values = bob } ∷ cat ∷ []

-- The older of those who are 30 and more: bob has no age, and the column is all that is shown.
abbrev adult : Filter sample
adult = Filter.gte "age" (int32 (pos 30))

abbrev oldest : Query sample
oldest = record {
  table = "users";
  filter = some adult;
  projections = some ("email" ∷ []);
  sorts = record { column = "age"; direction = desc } ∷ [];
  limit = some 1;
  offset = none;
  aggregations = [];
  group_by = [];
}

abbrev cat_mail : Row Cell
cat_mail = record { id = 3; values = ("email", string (99 ∷ [])) ∷ [] }

found_cat : execute same_case whole_numbers rows oldest ≡ ok (cat_mail ∷ [])
unfolding execute matching filter_rows matches_filter at_least cmp Row.get Map.get aggregates
    sort_rows sort_by insert_by compare_rows paged skipped truncated shown Row.project
    Row.project_from Row.new Map.insert
found_cat = refl

plain_oldest : aggregates oldest ≡ false
unfolding aggregates
plain_oldest = refl

execute_lem_example :
    (sorted : List (Row Cell)) × (execute same_case whole_numbers rows oldest
      ≡ ok (map (shown oldest) (paged oldest.offset oldest.limit sorted)))
    × (Perm sorted (matching same_case rows oldest) × IsSortedBy (compare_rows oldest.sorts) sorted)
execute_lem_example = execute_lem same_case whole_numbers rows oldest plain_oldest

execute_sound_example : ∥ (
    (s : Row Cell) × Mem s rows
    × ((matches_filter same_case s adult ≡ true) × (shown oldest s ≡ cat_mail))) ∥₁
execute_sound_example =
    execute_sound same_case whole_numbers rows (cat_mail ∷ []) oldest adult plain_oldest refl
      found_cat cat_mail (mem-cons.1 (Or.inl refl))

pages_join_example :
    (a : List (Row Cell)) × (b : List (Row Cell)) × ((execute same_case whole_numbers rows
          (record oldest { offset = some 0; limit = some 1 })
        ≡ ok a)
      × ((execute same_case whole_numbers rows
              (record oldest { offset = some (0 + 1); limit = some 2 })
            ≡ ok b)
          × (execute same_case whole_numbers rows
                (record oldest { offset = some 0; limit = some (1 + 2) })
              ≡ ok (a ++ b))))
pages_join_example = pages_join same_case whole_numbers rows oldest 0 1 2 plain_oldest

group_rows-perm_example :
    Perm (rows_of (group_rows ("age" ∷ []) [] rows)) rows
    × IsKeyed ("age" ∷ []) (group_rows ("age" ∷ []) [] rows)
group_rows-perm_example = group_rows-perm ("age" ∷ []) rows

ends_in_c : like_match (97 ∷ 98 ∷ 99 ∷ []) (percent ∷ (99 ∷ [])) ≡ true
unfolding like_match split match_parts find begins
ends_in_c = refl

like_suffix_open_example :
    like_match ((97 ∷ 98 ∷ 99 ∷ []) ++ (100 ∷ [])) (percent ∷ (99 ∷ [])) ≡ true
like_suffix_open_example =
    like_suffix_open 99 [] (97 ∷ 98 ∷ 99 ∷ []) (100 ∷ []) (ground arith) ends_in_c
