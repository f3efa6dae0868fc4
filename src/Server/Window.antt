-- ===== src/Server/Window.antt =====
-- crates/blitz-server/src/transport.rs: the window of a scan, `apply_window` with its two binary
-- searches. Sums wrap at 2^64; a search has one unit of fuel for each row.
pub mod Pages
use blitz_db.Prelude.{
  ℕ, zero, suc, ◌+◌, ◌/◌, ◌%◌, ◌^◌, Bool, true, false, not, ◌&&◌, Option, none, some, leb, ltb,
  if◌then◌else◌,
}

pub record ScanWindow : Type 0 where
  pub limit : ℕ
  pub offset : ℕ
  pub desc : Bool
  pub cursor : Option ℕ

abbrev min : ℕ → ℕ → ℕ
min a b = if leb a b then a else b

abbrev max : ℕ → ℕ → ℕ
max a b = if leb a b then b else a

-- `while lo < hi`: the first position from `lo` where the test fails.
unfoldable pub search : (ℕ → Bool) → ℕ → ℕ → ℕ → ℕ
search p zero lo hi = lo
search p (suc fuel) lo hi =
    let mid = (lo + hi) / 2 in
    let right = search p fuel (mid + 1) hi in
    let left = search p fuel lo mid in if ltb lo hi then (if p mid then right else left) else lo

unfoldable pub cursor_start : ℕ → Bool → ScanWindow → (ℕ → ℕ) → ℕ
unfolding search
cursor_start len ids_asc w id_at = elim w.cursor [
  | none ↦ 0
  | some c ↦
      if ids_asc && not w.desc
      then search (λ i. leb (id_at i) c) len 0 len
      else search (λ i. leb c (id_at i)) len 0 len
]

unfoldable pub apply_window : ℕ → Bool → ScanWindow → (ℕ → ℕ) → ℕ × ℕ
unfolding cursor_start
apply_window len ids_asc w id_at =
    let start = min ((cursor_start len ids_asc w id_at + w.offset) % 2 ^ 64) len in
    (start, max (min ((start + w.limit) % 2 ^ 64) len) start)
