-- ===== src/Server/Window/Pages.antt =====
-- The search finds the border of the test, and a cursor goes on where the page before it ended.
use blitz_db.Prelude.{
  ℕ, zero, suc, ◌+◌, ◌-◌, ◌/◌, ◌^◌, ◌≤◌, ◌<◌, Bool, true, false, not, some, leb, ltb, if◌then◌else◌,
  ◌≡◌, ap, arith, Bool-cases, inl, inr,
}
use blitz_db.Server.Window.{ScanWindow, search, cursor_start, apply_window}

-- Between `lo` and `hi` the test holds exactly below `k`.
abbrev IsBorder : (ℕ → Bool) → ℕ → ℕ → ℕ → Type 0
IsBorder p lo hi k = (i : ℕ) → lo ≤ i → i < hi → p i ≡ ltb i k

search_finds :
    (p : ℕ → Bool) (fuel lo hi k : ℕ)
    → IsBorder p lo hi k
    → lo ≤ k
    → k ≤ hi
    → hi ≤ lo + fuel
    → search p fuel lo hi ≡ k
unfolding search
search_finds p zero lo hi k border low high fuel = omega arith
search_finds p (suc fuel) lo hi k border low high enough = elim (Bool-cases (ltb lo hi)) [
  | inr empty ↦ ground (arith, empty)
  | inl more ↦
      let mid = (lo + hi) / 2 in
      let inside : mid < hi = ground arith in
      let above : lo ≤ mid = ground arith in
      let test = border mid above inside in
      elim (Bool-cases (ltb mid k)) [
        | inl below ↦
            let step =
              search_finds p fuel (mid + 1) hi k (λ i a b. border i (omega arith) b) (ground arith)
                high (omega arith) in
            ground (arith, more, test, below, step)
        | inr beyond ↦
            let step =
              search_finds p fuel lo mid k (λ i a b. border i a (omega arith)) low (ground arith)
                (omega arith) in
            ground (arith, more, test, beyond, step)
      ]
]

-- The ids of the rows of a scan, which is sorted up or down.
abbrev pub IsSorted : Bool → (ℕ → ℕ) → ℕ → Type 0
IsSorted false id_at len = (i j : ℕ) → i < j → j < len → id_at i < id_at j
IsSorted true id_at len = (i j : ℕ) → i < j → j < len → id_at j < id_at i

-- The window after the page that ends before row `e`.
abbrev pub next_window : ℕ → Bool → (ℕ → ℕ) → ℕ → ScanWindow
next_window limit desc id_at e = record {
  limit = limit;
  offset = 0;
  desc = desc;
  cursor = some (id_at (e - 1));
}

ids_up :
    (id_at : ℕ → ℕ) (len e i : ℕ)
    → IsSorted false id_at len
    → 0 < e
    → e ≤ len
    → i < len
    → leb (id_at i) (id_at (e - 1)) ≡ ltb i e
ids_up id_at len e i sorted some_row fits inside = elim (Bool-cases (ltb i (e - 1))) [
  | inl below ↦
      let less : i < e - 1 = ground arith in
      let order = sorted i (e - 1) less (omega arith) in ground (arith, order)
  | inr other ↦ elim (Bool-cases (ltb (e - 1) i)) [
    | inl beyond ↦
        let after : e - 1 < i = ground arith in
        let order = sorted (e - 1) i after inside in ground (arith, order)
    | inr same ↦
        let equal : i ≡ e - 1 = ground arith in
        let ids : id_at i ≡ id_at (e - 1) = ap id_at equal in ground (arith, ids)
  ]
]

ids_down :
    (id_at : ℕ → ℕ) (len e i : ℕ)
    → IsSorted true id_at len
    → 0 < e
    → e ≤ len
    → i < len
    → leb (id_at (e - 1)) (id_at i) ≡ ltb i e
ids_down id_at len e i sorted some_row fits inside = elim (Bool-cases (ltb i (e - 1))) [
  | inl below ↦
      let less : i < e - 1 = ground arith in
      let order = sorted i (e - 1) less (omega arith) in ground (arith, order)
  | inr other ↦ elim (Bool-cases (ltb (e - 1) i)) [
    | inl beyond ↦
        let after : e - 1 < i = ground arith in
        let order = sorted (e - 1) i after inside in ground (arith, order)
    | inr same ↦
        let equal : i ≡ e - 1 = ground arith in
        let ids : id_at i ≡ id_at (e - 1) = ap id_at equal in ground (arith, ids)
  ]
]

-- For a scan sorted upwards or downwards by distinct ids, the window whose cursor is the id of the
-- row before row `e`, without an offset, begins at row `e` and holds the next rows up to its limit,
-- so that a cursor goes on where the page before it ended; the number of rows and the limit fit 64
-- bits together.
pub apply_window-next_window :
    (len limit e : ℕ) (desc : Bool) (id_at : ℕ → ℕ)
    → IsSorted desc id_at len
    → 0 < e
    → e ≤ len
    → len + limit < 2 ^ 64
    → apply_window len (not desc) (next_window limit desc id_at e) id_at
      ≡ (e, if leb (e + limit) len then e + limit else len)
unfolding apply_window cursor_start
apply_window-next_window len limit e false id_at sorted some_row fits room =
    let found =
      search_finds (λ i. leb (id_at i) (id_at (e - 1))) len 0 len e
        (λ i low high. ids_up id_at len e i sorted some_row fits high) (omega arith) fits
        (omega arith) in
    ground (arith, found)
apply_window-next_window len limit e true id_at sorted some_row fits room =
    let found =
      search_finds (λ i. leb (id_at (e - 1)) (id_at i)) len 0 len e
        (λ i low high. ids_down id_at len e i sorted some_row fits high) (omega arith) fits
        (omega arith) in
    ground (arith, found)
