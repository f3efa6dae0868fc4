-- ===== src/Durability/Cluster.antt =====
-- crates/blitz-server/src/durability.rs: `DurabilityMode`, and `WalCluster`'s choice of a shard. The
-- hash of a table's name is a parameter.
use blitz_db.Prelude.{
  ℕ, zero, suc, ◌%◌, ◌<◌, String, Bool, true, false, List, [], ◌∷◌, ◌++◌, keep, ltb, ◌==◌,
  if◌then◌else◌, ◌≡◌, sym, ap, arith, eq_iff, Bool-cases, inl, inr,
}
use mathlib.Core.List.{append_assoc, append-nil}
use blitz_db.Types.Value.{Foreign}
use blitz_db.Wal.Codec.{WalEntry}
use blitz_db.Durability.Payload.{Serde}
use blitz_db.Durability.Replay.Tables.{concat, is_of, keep-append}

pub data DurabilityMode : Type 0 where
  none : DurabilityMode
  group_commit : ℕ → ℕ → DurabilityMode

pub every_sec : DurabilityMode
every_sec = group_commit 1000 5000

pub near_sync : DurabilityMode
near_sync = group_commit 1 100

pub is_durable : DurabilityMode → Bool
is_durable none = false
is_durable (group_commit w b) = true

abbrev pub shards_for_mode : ℕ
shards_for_mode = 16

abbrev max_one : ℕ → ℕ
max_one zero = 1
max_one (suc n) = suc n

unfoldable pub route : (String → ℕ) → ℕ → String → ℕ
route hash n table = hash table % max_one n

concat-append :
    (xss : List (List WalEntry)) (ys : List WalEntry) → concat (xss ++ (ys ∷ [])) ≡ concat xss ++ ys
concat-append [] ys = append-nil ys
concat-append (xs ∷ xss) ys = rw (concat-append xss ys) (sym (append_assoc xs (concat xss) ys))

-- The log of each of the first `m` shards, where every entry goes to the shard of its table.
module _ {F : Foreign} (s : Serde F) (fresh : String → ℕ) (hash : String → ℕ) where
  abbrev pub is_on : ℕ → WalEntry → Bool
  is_on k x = route hash shards_for_mode (s.text x.table) == k

  unfoldable pub shard_logs : ℕ → List WalEntry → List (List WalEntry)
  shard_logs zero xs = []
  shard_logs (suc m) xs = shard_logs m xs ++ (keep (is_on m) xs ∷ [])

  pub route-lt : (n : String) → route hash shards_for_mode n < shards_for_mode
  unfolding route
  route-lt n = omega arith

  keep-keep :
      (n : String) (k : ℕ) (xs : List WalEntry)
      → keep (is_of s fresh n) (keep (is_on k) xs)
        ≡ (if route hash shards_for_mode n == k then keep (is_of s fresh n) xs else [])
  keep-keep n k [] = ground arith
  keep-keep n k (x ∷ xs) = elim (Bool-cases (is_of s fresh n x)) [
    | inl ours ↦
        let named : s.text x.table ≡ n = (eq_iff (s.text x.table) n).0 ours in
        let same : is_on k x ≡ (route hash shards_for_mode n == k) =
          ap (λ t. route hash shards_for_mode t == k) named in
        ground (arith, ours, same, keep-keep n k xs)
    | inr other ↦ ground (arith, other, keep-keep n k xs)
  ]

  -- Of the logs one after the other, the entries of a table are those of its shard, in their order.
  pub keep-shard_logs :
      (n : String) (m : ℕ) (xs : List WalEntry)
      → keep (is_of s fresh n) (concat (shard_logs m xs))
        ≡ (if ltb (route hash shards_for_mode n) m then keep (is_of s fresh n) xs else [])
  unfolding shard_logs
  keep-shard_logs n zero xs = ground arith
  keep-shard_logs n (suc m) xs =
      rw
        (
          concat-append (shard_logs m xs) (keep (is_on m) xs),
          keep-append (is_of s fresh n) (concat (shard_logs m xs)) (keep (is_on m) xs),
          keep-shard_logs n m xs,
          keep-keep n m xs,
        )
        (one_of (keep (is_of s fresh n) xs))
    where
      one_of :
          (ys : List WalEntry)
          → (if ltb (route hash shards_for_mode n) m then ys else [])
              ++ (if route hash shards_for_mode n == m then ys else [])
            ≡ (if ltb (route hash shards_for_mode n) (suc m) then ys else [])
      one_of ys = ground (arith, append-nil ys)
