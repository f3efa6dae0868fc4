-- ===== src/Core/Pool.antt =====
-- crates/blitz-core/src/pool.rs: pools of objects to use again. The back of the queue is the head of
-- the list; a factory is the object that it makes, since it always makes the same.
pub mod Bound
use blitz_db.Prelude.{
  ℕ, zero, suc, ◌+◌, ◌≤◌, Bool, true, false, ◌||◌, List, [], ◌∷◌, length, if◌then◌else◌, ltb, ◌==◌,
  ◌≡◌, refl, arith,
}
use blitz_db.Types.Row
use blitz_db.Types.Row.{Row}

pub record ObjectPool (T : Type 0) : Type 0 where
  pub free : List T
  pub factory : T
  pub max_size : ℕ
  pub total_created : ℕ

module _ {T : Type 0} where
  unfoldable pub copies : ℕ → T → List T
  copies zero t = []
  copies (suc n) t = t ∷ copies n t

  unfoldable pub new_pool : T → ℕ → ℕ → ObjectPool T
  unfolding copies
  new_pool t initial max = record {
    free = copies initial t;
    factory = t;
    max_size = max;
    total_created = initial;
  }

  unfoldable pub checkout : ObjectPool T → T × ObjectPool T
  checkout p = elim (p.free) [
    | t ∷ ts ↦ (t, record p { free = ts })
    | [] ↦
        if p.max_size == 0 || ltb p.total_created p.max_size
        then (p.factory, record p { total_created = p.total_created + 1 })
        else (p.factory, p)
  ]

  unfoldable pub checkin : ObjectPool T → T → ObjectPool T
  checkin p t =
      if p.max_size == 0 || ltb (length p.free) p.max_size
      then record p { free = t ∷ p.free }
      else p

module _ {V : Type 0} where
  -- `RowPool`, and `RowIdVecPool` below: what is taken out is cleared first.
  unfoldable pub new_row_pool : ObjectPool (Row V)
  unfolding new_pool Row.new
  new_row_pool = new_pool (Row.new 0) 16 64

  unfoldable pub checkout_row : ObjectPool (Row V) → Row V × ObjectPool (Row V)
  unfolding checkout
  checkout_row p = let (row, q) = checkout p in (record row { id = 0; values = [] }, q)

  unfoldable pub checkin_row : ObjectPool (Row V) → Row V → ObjectPool (Row V)
  unfolding checkin
  checkin_row p row = checkin p (record row { values = [] })

unfoldable pub new_vec_pool : ObjectPool (List ℕ)
unfolding new_pool
new_vec_pool = new_pool [] 16 64

unfoldable pub checkout_vec : ObjectPool (List ℕ) → List ℕ × ObjectPool (List ℕ)
unfolding checkout
checkout_vec p = let (v, q) = checkout p in ([], q)

unfoldable pub checkin_vec : ObjectPool (List ℕ) → List ℕ → ObjectPool (List ℕ)
unfolding checkin
checkin_vec p v = checkin p []

-- A use of the pool of rows.
pub data PoolCall (V : Type 0) : Type 0 where
  takes : PoolCall V
  gives : Row V → PoolCall V

module _ {V : Type 0} where
  unfoldable pub use_pool : ObjectPool (Row V) → List (PoolCall V) → ObjectPool (Row V)
  unfolding checkout_row checkin_row
  use_pool p [] = p
  use_pool p (takes ∷ cs) = use_pool (checkout_row p).1 cs
  use_pool p (gives r ∷ cs) = use_pool (checkin_row p r) cs
