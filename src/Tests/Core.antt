-- ===== src/Tests/Core.antt =====
-- The engine on the shop: tests, and the theorems at work.
use blitz_db.Prelude.{
  String, true, some, ◌≢◌, [], ◌∷◌, ok, err, ◌≡◌, refl, sym, ap, subst, arith, eq_iff, ◌+◌, ◌<◌,
}
use blitz_db.Prelude.Map
use blitz_db.Prelude.Map.{nat_key, string_key}
use blitz_db.Prelude.Order.{pos, eq_bytes, cmp_bytes}
use blitz_db.Types.Interface.{value_key}
use blitz_db.Types.Value.{
  int32, array, nil, cons, value_eq, same_hash, probe, cmp, cmp_zip, variant_index, len,
}
use blitz_db.Types.Value.Transitive.{cmp_transitive}
use Prim.Native.Nat.{Ordering}
use blitz_db.Types.Value.Convert.{is_null, value_matches_type}
use blitz_db.Types.Value.Laws.{value_ops}
use blitz_db.Types.Row.{Row}
use blitz_db.Types.Schema.{
  validate_row_values, validate_columns, check_column, check_present, check_absent,
}
use blitz_db.Core.Table.{
  InMemoryTable, u64_mod, duplicate_key, new_table, insert, insert_unchecked, insert_preserving_id,
  update, take, lookup_by_unique, next_row_id, unique_names, owner, clashes, check_cols, check_uniq,
  claim, index_col, index_cols, index_row, release, unindex_col, unindex_cols, unindex_row,
  drop_stale, drop_stale_cols,
}
use blitz_db.Core.Table.Valid.{IsValid, cell, new_table-IsValid}
use blitz_db.Core.Table.Insert.{insert-IsValid}
use blitz_db.Core.Table.Outcome.{lookup_by_unique_finds}
use blitz_db.Core.Engine
use blitz_db.Core.Engine.{new_engine}
use blitz_db.Core.Engine.Valid.{
  EngineValid, Reach, here, next, creates, inserts, HasRoom, Reach-EngineValid,
  Reach-distinct_values,
}
use blitz_db.Tests.{Cell, sample, users, ann, bob, ann_mail, bob_mail, older, stocked}

abbrev ann_only : InMemoryTable Cell
ann_only = record {
  schema = users;
  rows = (1, record { id = 1; values = ann }) ∷ [];
  next_id = 2;
  uniq = ("email", (ann_mail, 1) ∷ []) ∷ [];
}

abbrev fresh_row : Map.Map String Cell → Row Cell
fresh_row values = record { id = 0; values = values }

first_insert : insert (new_table users) (fresh_row ann) ≡ (ok 1, ann_only)
unfolding insert insert_unchecked validate_row_values validate_columns check_column check_present
    check_absent new_table Map.get Map.insert Map.remove Map.extend is_null value_matches_type
    check_uniq check_cols unique_names clashes index_row next_row_id index_cols index_col claim
    owner cell update take lookup_by_unique unindex_row unindex_cols unindex_col release drop_stale
    drop_stale_cols insert_preserving_id value_eq same_hash probe eq_bytes
first_insert = refl

second_insert : insert ann_only (fresh_row bob) ≡ (ok 2, stocked)
unfolding insert insert_unchecked validate_row_values validate_columns check_column check_present
    check_absent new_table Map.get Map.insert Map.remove Map.extend is_null value_matches_type
    check_uniq check_cols unique_names clashes index_row next_row_id index_cols index_col claim
    owner cell update take lookup_by_unique unindex_row unindex_cols unindex_col release drop_stale
    drop_stale_cols insert_preserving_id value_eq same_hash probe eq_bytes
second_insert = refl

duplicate_insert : insert stocked (fresh_row bob) ≡ (err (duplicate_key "email"), stocked)
unfolding insert insert_unchecked validate_row_values validate_columns check_column check_present
    check_absent new_table Map.get Map.insert Map.remove Map.extend is_null value_matches_type
    check_uniq check_cols unique_names clashes index_row next_row_id index_cols index_col claim
    owner cell update take lookup_by_unique unindex_row unindex_cols unindex_col release drop_stale
    drop_stale_cols insert_preserving_id value_eq same_hash probe eq_bytes
duplicate_insert = refl

aged :
    (update stocked 1 older).0
    ≡ ok (record { id = 1; values = ("email", ann_mail) ∷ ("age", int32 (pos 31)) ∷ [] })
unfolding insert insert_unchecked validate_row_values validate_columns check_column check_present
    check_absent new_table Map.get Map.insert Map.remove Map.extend is_null value_matches_type
    check_uniq check_cols unique_names clashes index_row next_row_id index_cols index_col claim
    owner cell update take lookup_by_unique unindex_row unindex_cols unindex_col release drop_stale
    drop_stale_cols insert_preserving_id value_eq same_hash probe eq_bytes
aged = refl

room : (new_table users).next_id + 1 < u64_mod
unfolding new_table
room = omega arith

ann_only-IsValid : IsValid ann_only
ann_only-IsValid =
    subst IsValid (ap (λ p. p.1) first_insert)
      (insert-IsValid (new_table users) (fresh_row ann) room (new_table-IsValid users))

pub stocked-IsValid : IsValid stocked
stocked-IsValid =
    subst IsValid (ap (λ p. p.1) second_insert)
      (insert-IsValid ann_only (fresh_row bob) (omega arith) ann_only-IsValid)

only_age : (c : String) (w : Cell) → Map.get older c ≡ some w → "age" ≡ c
unfolding Map.get
only_age c w new = ground (arith, eq_iff "age" c)

differ :
    (v w : Cell)
    → cell stocked.rows 1 "age" ≡ some v
    → Map.get {K = String} older "age" ≡ some w
    → value_eq w v ≡ true
    → w ≡ v
unfolding cell Map.get value_eq
differ v w held new same =
    let old : ◌≡◌ {A = Cell} (int32 (pos 30)) v = cc held in
    let now : ◌≡◌ {A = Cell} (int32 (pos 31)) w = cc new in
    let equal : value_eq {F = sample} (int32 (pos 31)) (int32 (pos 30)) ≡ true =
      cc (old, now, same) in
    cc equal

older_agrees :
    (c : String) (v w : Cell)
    → cell stocked.rows 1 c ≡ some v
    → Map.get older c ≡ some w
    → value_eq w v ≡ true
    → w ≡ v
older_agrees c v w held new same =
    let here = sym (only_age c w new) in
    differ v w (subst (λ d. cell stocked.rows 1 d ≡ some v) here held)
      (subst (λ d. Map.get older d ≡ some w) here new) same

lookup_by_unique_finds_example :
    (row : Row Cell) × (lookup_by_unique stocked "email" bob_mail ≡ ok (some row))
    × (Map.get stocked.rows 2 ≡ some row)
unfolding insert insert_unchecked validate_row_values validate_columns check_column check_present
    check_absent new_table Map.get Map.insert Map.remove Map.extend is_null value_matches_type
    check_uniq check_cols unique_names clashes index_row next_row_id index_cols index_col claim
    owner cell update take lookup_by_unique unindex_row unindex_cols unindex_col release drop_stale
    drop_stale_cols insert_preserving_id value_eq same_hash probe eq_bytes
lookup_by_unique_finds_example =
    lookup_by_unique_finds stocked-IsValid "email" bob_mail 2 refl refl refl refl

made_users : Reach new_engine (Engine.create_table new_engine users).1
made_users = next here (creates new_engine users)

Reach-EngineValid_example : EngineValid (Engine.create_table new_engine users).1
Reach-EngineValid_example = Reach-EngineValid made_users

roomy :
    (e : Engine.Engine Cell) (u : InMemoryTable Cell)
    → Map.get e "users" ≡ some u
    → u.next_id + 1 < u64_mod
    → HasRoom e "users"
roomy e u stored left t found =
    let same : u ≡ t = ground (arith, stored, found) in
    subst (λ t. t.next_id + 1 < u64_mod) same left

-- The engine after the table of users is made, ann is inserted, and then bob.
abbrev with_users : Engine.Engine Cell
with_users = (Engine.create_table new_engine users).1

abbrev with_ann : Engine.Engine Cell
with_ann = (Engine.insert with_users "users" (fresh_row ann)).1

abbrev with_bob : Engine.Engine Cell
with_bob = (Engine.insert with_ann "users" (fresh_row bob)).1

has_users : Map.get with_users "users" ≡ some (new_table users)
unfolding Engine.insert Engine.on_table Engine.create_table insert insert_unchecked
    validate_row_values validate_columns check_column check_present check_absent new_table Map.get
    Map.insert Map.remove Map.extend is_null value_matches_type check_uniq check_cols unique_names
    clashes index_row next_row_id index_cols index_col claim owner cell update take lookup_by_unique
    unindex_row unindex_cols unindex_col release drop_stale drop_stale_cols insert_preserving_id
    value_eq same_hash probe eq_bytes
has_users = refl

has_ann : Map.get with_ann "users" ≡ some ann_only
unfolding Engine.insert Engine.on_table Engine.create_table insert insert_unchecked
    validate_row_values validate_columns check_column check_present check_absent new_table Map.get
    Map.insert Map.remove Map.extend is_null value_matches_type check_uniq check_cols unique_names
    clashes index_row next_row_id index_cols index_col claim owner cell update take lookup_by_unique
    unindex_row unindex_cols unindex_col release drop_stale drop_stale_cols insert_preserving_id
    value_eq same_hash probe eq_bytes
has_ann = refl

has_bob : Map.get with_bob "users" ≡ some stocked
unfolding Engine.insert Engine.on_table Engine.create_table insert insert_unchecked
    validate_row_values validate_columns check_column check_present check_absent new_table Map.get
    Map.insert Map.remove Map.extend is_null value_matches_type check_uniq check_cols unique_names
    clashes index_row next_row_id index_cols index_col claim owner cell update take lookup_by_unique
    unindex_row unindex_cols unindex_col release drop_stale drop_stale_cols insert_preserving_id
    value_eq same_hash probe eq_bytes
has_bob = refl

made_bob : Reach new_engine with_bob
made_bob =
    let ann_in = inserts with_users "users" (fresh_row ann) (roomy with_users _ has_users room) in
    next (next made_users ann_in)
      (inserts with_ann "users" (fresh_row bob) (roomy with_ann _ has_ann (omega arith)))

Reach-distinct_values_example : cell stocked.rows 2 "email" ≢ some ann_mail
unfolding Engine.insert Engine.on_table Engine.create_table insert insert_unchecked
    validate_row_values validate_columns check_column check_present check_absent new_table Map.get
    Map.insert Map.remove Map.extend is_null value_matches_type check_uniq check_cols unique_names
    clashes index_row next_row_id index_cols index_col claim owner cell update take lookup_by_unique
    unindex_row unindex_cols unindex_col release drop_stale drop_stale_cols insert_preserving_id
    value_eq same_hash probe eq_bytes
Reach-distinct_values_example =
    Reach-distinct_values made_bob "users" stocked has_bob "email" ann_mail 1 2 refl refl refl refl
      (λ same. omega (arith, same))

abbrev dirty : Row Cell
dirty = record { id = 9; values = ann }

-- Arrays of one item, and of two.
abbrev mails : Cell
mails = array (cons ann_mail nil)

abbrev more_mails : Cell
more_mails = array (cons ann_mail (cons bob_mail nil))

cmp_transitive_example : cmp bob_mail more_mails ≢ Ordering.gt
unfolding cmp cmp_zip variant_index len cmp_bytes
cmp_transitive_example =
    cmp_transitive bob_mail mails more_mails (λ e. absurd (cc e)) (λ e. absurd (cc e))
