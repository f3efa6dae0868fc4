-- ===== src/Core/Pool/Bound.antt =====
-- A pool of rows stays small and hands out clean rows.
use blitz_db.Prelude.{◌≤◌, List, [], ◌∷◌, length, ◌≡◌, refl, ◌∙◌, arith}
use blitz_db.Types.Row
use blitz_db.Types.Row.{Row}
use blitz_db.Core.Pool.{
  ObjectPool, PoolCall, takes, gives, copies, new_pool, checkout, checkin, new_row_pool,
  checkout_row, checkin_row, use_pool,
}

module _ {T : Type 0} where
  checkout-free :
      (p : ObjectPool T)
      → ((checkout p).1.max_size ≡ p.max_size) × (length (checkout p).1.free ≤ length p.free)
  unfolding checkout
  checkout-free p = ground arith

  checkin-free :
      (p : ObjectPool T) (t : T)
      → p.max_size ≡ 64
      → length p.free ≤ 64
      → ((checkin p t).max_size ≡ 64) × (length (checkin p t).free ≤ 64)
  unfolding checkin
  checkin-free p t m h = ground arith

module _ {V : Type 0} where
  pool_bound :
      (cs : List (PoolCall V)) (p : ObjectPool (Row V))
      → p.max_size ≡ 64
      → length p.free ≤ 64
      → length (use_pool p cs).free ≤ 64
  unfolding use_pool checkout_row checkin_row
  pool_bound [] p m h = h
  pool_bound (takes ∷ cs) p m h =
      let (same, less) = checkout-free p in
      pool_bound cs (checkout_row p).1 (same ∙ m) (omega (arith, less, h))
  pool_bound (gives r ∷ cs) p m h =
      let (same, less) = checkin-free p (record r { values = [] }) m h in
      pool_bound cs (checkin_row p r) same less

  -- However rows are taken from a row pool and given back, it keeps 64 free rows at most, and the
  -- next row that it gives is empty with id 0.
  pub row_pool_bound :
      (cs : List (PoolCall V))
      → (length (use_pool new_row_pool cs).free ≤ 64)
        × ((checkout_row (use_pool new_row_pool cs)).0 ≡ Row.new {V = V} 0)
  unfolding new_row_pool new_pool copies checkout_row Row.new
  row_pool_bound cs = (pool_bound cs new_row_pool refl (omega arith), refl)
