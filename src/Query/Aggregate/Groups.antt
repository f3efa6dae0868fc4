-- ===== src/Query/Aggregate/Groups.antt =====
-- Grouping loses no row, doubles none, and puts a row only with rows of its key.
use blitz_db.Prelude.{String, List, [], ◌∷◌, ◌++◌, All, ◌≡◌, refl, sym, Bool-cases, inl, inr, ◌⊎◌}
use mathlib.Core.List.{Perm, append_assoc, append-nil, perm_middle}
use mathlib.Core.List.Perm
use blitz_db.Prelude.Map
use blitz_db.Prelude.Map.{Map}
use blitz_db.Types.Value.{Foreign, Value}
use blitz_db.Types.Row.{Row}
use blitz_db.Query.Aggregate.{key_of, put_row, group_rows, group_key, same_keys, same_keys_sound}

abbrev pub Groups : Foreign → Type 0
Groups F = Map (List (Value F)) (List (Row (Value F)))

module _ {F : Foreign} where
  -- The rows of all groups, and that each has the key of its group.
  unfoldable pub rows_of : Groups F → List (Row (Value F))
  rows_of [] = []
  rows_of ((k, rs) ∷ m) = rs ++ rows_of m

  unfoldable pub IsKeyed : List String → Groups F → Type 0
  unfolding key_of
  IsKeyed cs [] = Unit
  IsKeyed cs ((k, rs) ∷ m) = All (λ r. key_of cs r ≡ k) rs × IsKeyed cs m

  -- A row goes to the first group if that has its key, else to the rest.
  put_row-cases :
      (i k : List (Value F)) (rs : List (Row (Value F))) (m : Groups F) (r : Row (Value F))
      → ((i ≡ k) × (put_row ((i, rs) ∷ m) k r ≡ (i, rs ++ (r ∷ [])) ∷ m))
        ⊎ (put_row ((i, rs) ∷ m) k r ≡ (i, rs) ∷ put_row m k r)
  unfolding put_row Map.get Map.insert
  put_row-cases i k rs m r = elim (Bool-cases (same_keys i k)) [
    | inl same ↦ inl (same_keys_sound i k same, rw (same, Map.get, Map.insert) refl)
    | inr other ↦ inr (rw (other, Map.get, Map.insert) refl)
  ]

  rows_of-put_row :
      (m : Groups F) (k : List (Value F)) (r : Row (Value F))
      → Perm (rows_of (put_row m k r)) (r ∷ rows_of m)
  unfolding put_row rows_of Map.get Map.insert
  rows_of-put_row [] k r = Perm.rfl
  rows_of-put_row ((i, rs) ∷ m) k r = elim (put_row-cases i k rs m r) [
    | inl (same, here) ↦
        rw (here, append_assoc rs (r ∷ []) (rows_of m)) (perm_middle rs (rows_of m))
    | inr later ↦
        rw later
          (Perm.trans (Perm.append_left rs (rows_of-put_row m k r)) (perm_middle rs (rows_of m)))
  ]

  All-last :
      (P : Row (Value F) → Type 0) (rs : List (Row (Value F))) (r : Row (Value F))
      → All P rs
      → P r
      → All P (rs ++ (r ∷ []))
  All-last P [] r h p = (p, tt)
  All-last P (x ∷ rs) r (h, hs) p = (h, All-last P rs r hs p)

  IsKeyed-put_row :
      (cs : List String) (m : Groups F) (r : Row (Value F))
      → IsKeyed cs m
      → IsKeyed cs (put_row m (key_of cs r) r)
  unfolding put_row IsKeyed Map.get Map.insert
  IsKeyed-put_row cs [] r h = ((refl, tt), tt)
  IsKeyed-put_row cs ((i, rs) ∷ m) r (h, hs) = elim (put_row-cases i (key_of cs r) rs m r) [
    | inl (same, here) ↦ rw here (All-last (λ x. key_of cs x ≡ i) rs r h (sym same), hs)
    | inr later ↦ rw later (h, IsKeyed-put_row cs m r hs)
  ]

  group_rows_lem :
      (cs : List String) (m : Groups F) (rows : List (Row (Value F)))
      → IsKeyed cs m
      → Perm (rows_of (group_rows cs m rows)) (rows_of m ++ rows)
        × IsKeyed cs (group_rows cs m rows)
  unfolding group_rows
  group_rows_lem cs m [] h = (rw (append-nil (rows_of m)) Perm.rfl, h)
  group_rows_lem cs m (r ∷ rows) h =
      let (perm, keyed) =
        group_rows_lem cs (put_row m (key_of cs r) r) rows (IsKeyed-put_row cs m r h) in
      (
        Perm.trans perm (
            Perm.trans (Perm.append_right rows (rows_of-put_row m (key_of cs r) r))
              (Perm.symm (perm_middle (rows_of m) rows))),
        keyed,
      )

  -- The groups of an aggregation hold together exactly the rows that were given, each as often as
  -- it was given, and every row of a group has the values of that group in the grouping columns.
  pub group_rows-perm :
      (cs : List String) (rows : List (Row (Value F)))
      → Perm (rows_of (group_rows cs [] rows)) rows × IsKeyed cs (group_rows cs [] rows)
  unfolding IsKeyed rows_of
  group_rows-perm cs rows = group_rows_lem cs [] rows tt
