-- ===== src/Server/Changes/Ordered.antt =====
-- The log of each table is bounded and in the order of the writes.
use blitz_db.Prelude.{
  ℕ, zero, suc, ◌+◌, ◌-◌, ◌%◌, ◌^◌, ◌≤◌, ◌<◌, String, Bool, true, false, not, some, List, [], ◌∷◌,
  ◌++◌, length, drop, str_eq, if◌then◌else◌, ◌≡◌, refl, sym, arith, subst, Option-cases, Bool-cases,
  inl, inr,
}
use blitz_db.Prelude.Map
use blitz_db.Prelude.Map.{Map, string_key, get-insert}
use blitz_db.Server.Changes.{
  ChangeRecord, Changes, max_changes_per_table, trim, log_of, push, append_change, record_change,
}

-- The sequence numbers go up, from `lo` on and below `hi`.
abbrev pub IsAscending : ℕ → ℕ → List ChangeRecord → Type 0
IsAscending lo hi [] = Unit
IsAscending lo hi (r ∷ q) = (lo ≤ r.seq) × (r.seq < hi) × IsAscending (r.seq + 1) hi q

abbrev pub IsWindow : ℕ → List ChangeRecord → Type 0
IsWindow next q = IsAscending 0 next q × (length q ≤ max_changes_per_table)

pub record ChangesValid (c : Changes) : Type 0 where
  pub windows :
      (table : String) (q : List ChangeRecord)
      → Map.get c.logs table ≡ some q
      → IsWindow c.next_seq q

IsAscending-widen :
    (q : List ChangeRecord) (lo lower hi higher : ℕ)
    → lower ≤ lo
    → hi ≤ higher
    → IsAscending lo hi q
    → IsAscending lower higher q
IsAscending-widen [] lo lower hi higher below above h = tt
IsAscending-widen (r ∷ q) lo lower hi higher below above (from, under, rest) = (
  omega arith,
  omega arith,
  IsAscending-widen q (r.seq + 1) (r.seq + 1) hi higher (omega arith) above rest,
)

IsAscending-append :
    (q : List ChangeRecord) (lo next : ℕ) (r : ChangeRecord)
    → r.seq ≡ next
    → lo ≤ next
    → IsAscending lo next q
    → IsAscending lo (next + 1) (q ++ (r ∷ []))
IsAscending-append [] lo next r same low h = (omega arith, omega arith, tt)
IsAscending-append (s ∷ q) lo next r same low (from, under, rest) =
    (from, omega arith, IsAscending-append q (s.seq + 1) next r same (omega arith) rest)

IsAscending-drop :
    (n : ℕ) (q : List ChangeRecord) (lo hi : ℕ) → IsAscending lo hi q → IsAscending lo hi (drop n q)
IsAscending-drop zero q lo hi h = h
IsAscending-drop (suc n) [] lo hi h = tt
IsAscending-drop (suc n) (r ∷ q) lo hi (from, under, rest) =
    IsAscending-drop n q lo hi
      (IsAscending-widen q (r.seq + 1) lo hi hi (omega arith) (omega arith) rest)

length-drop : (n : ℕ) (q : List ChangeRecord) → length (drop n q) ≡ length q - n
length-drop zero q = omega arith
length-drop (suc n) [] = omega arith
length-drop (suc n) (r ∷ q) = omega (arith, length-drop n q)

logs-push :
    (c : Changes) (table : String) (r : ChangeRecord)
    → ((push c table r).logs ≡ c.logs) × ((push c table r).next_seq ≡ c.next_seq)
unfolding push
logs-push c table r = ground arith

trim-IsWindow :
    (q : List ChangeRecord) (next : ℕ) (r : ChangeRecord)
    → r.seq ≡ next
    → IsAscending 0 next q
    → IsWindow (next + 1) (trim (q ++ (r ∷ [])))
unfolding trim
trim-IsWindow q next r same h = (
  IsAscending-drop (length (q ++ (r ∷ [])) - max_changes_per_table) (q ++ (r ∷ [])) 0 (next + 1)
      (IsAscending-append q 0 next r same (omega arith) h),
  omega (arith, length-drop (length (q ++ (r ∷ [])) - max_changes_per_table) (q ++ (r ∷ []))),
)

log_of-IsAscending :
    (c : Changes) (table : String) → ChangesValid c → IsAscending 0 c.next_seq (log_of c table)
unfolding log_of
log_of-IsAscending c table valid = elim (Option-cases (Map.get c.logs table)) [
  | inl absent ↦ rw (absent, log_of) tt
  | inr (q, present) ↦ rw (present, log_of) (valid.windows table q present).0
]

push-ChangesValid :
    (c : Changes) (table : String) (r : ChangeRecord)
    → ChangesValid c
    → ChangesValid (push c table r)
push-ChangesValid c table r valid = record {
  windows = λ t q found.
      let (logs, next) = logs-push c table r in
      subst (λ n. IsWindow n q) (sym next)
        (valid.windows t q (subst (λ m. Map.get m t ≡ some q) logs found));
}

append_change-ChangesValid :
    (c : Changes) (now : ℕ) (table op : String) (row_id : ℕ)
    → c.next_seq + 1 < 2 ^ 64
    → ChangesValid c
    → ChangesValid (append_change c now table op row_id).1
unfolding append_change log_of
append_change-ChangesValid c now table op row_id room valid = record {
  windows = λ t q found.
      let next : (c.next_seq + 1) % 2 ^ 64 ≡ c.next_seq + 1 = omega arith in
      subst (λ n. IsWindow n q) (sym next) (window t q found);
}
  where
    r : ChangeRecord
    r = record { seq = c.next_seq; table = table; op = op; row_id = row_id; ts_micros = now }

    window :
        (t : String) (q : List ChangeRecord)
        → Map.get (Map.insert c.logs table (trim (log_of c table ++ (r ∷ [])))) t ≡ some q
        → IsWindow (c.next_seq + 1) q
    window t q found = elim (Bool-cases (str_eq table t)) [
      | inr other ↦
          let before : Map.get c.logs t ≡ some q =
            rw (get-insert c.logs table t (trim (log_of c table ++ (r ∷ []))), other) at found in
          let (order, bound) = valid.windows t q before in
          (
            IsAscending-widen q 0 0 c.next_seq (c.next_seq + 1) (omega arith) (omega arith) order,
            bound,
          )
      | inl same ↦
          let after : some (trim (log_of c table ++ (r ∷ []))) ≡ some q =
            rw (get-insert c.logs table t (trim (log_of c table ++ (r ∷ []))), same) at found in
          let new : trim (log_of c table ++ (r ∷ [])) ≡ q = ground (arith, after) in
          subst (IsWindow (c.next_seq + 1)) new
            (trim-IsWindow (log_of c table) c.next_seq r refl (log_of-IsAscending c table valid))
    ]

-- Recording a change keeps this, while the sequence has room: the log of each table has 128 records
-- at most, and their sequence numbers go up and are below the next one.
pub record_change-ChangesValid :
    (c : Changes) (now : ℕ) (table op : String) (row_id : ℕ)
    → c.next_seq + 1 < 2 ^ 64
    → ChangesValid c
    → ChangesValid (record_change c now table op row_id)
unfolding record_change
record_change-ChangesValid c now table op row_id room valid = by_use c.is_used
  where
    by_use :
        (used : Bool)
        → ChangesValid (
            if not used
            then c
            else let (r, c') = append_change c now table op row_id in push c' table r)
    by_use false = valid
    by_use true =
        push-ChangesValid (append_change c now table op row_id).1 table
          (append_change c now table op row_id).0
          (append_change-ChangesValid c now table op row_id room valid)
