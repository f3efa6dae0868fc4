-- ===== src/Replication.antt =====
-- crates/blitz-replication/src/replicator.rs: the operation log that peers are fed from.
--
-- The random id and the time of an entry are arguments of `append`.
pub mod Contiguous
use blitz_db.Prelude.{
  ℕ, zero, suc, ◌+◌, ◌-◌, ◌%◌, ◌^◌, String, Bool, true, false, not, Option, none, some, List, [],
  ◌∷◌, ◌++◌, length, keep, map, if◌then◌else◌, leb, ltb,
}
use blitz_db.Prelude.Map
use blitz_db.Prelude.Map.{Map, string_key}

pub data Operation (V : Type 0) : Type 0 where
  insert update : String → ℕ → Map String V → Operation V
  delete : String → ℕ → Operation V

pub record OpEntry (V : Type 0) : Type 0 where
  pub id : ℕ
  pub seq : ℕ
  pub timestamp : ℕ
  pub op : Operation V

pub record PeerState : Type 0 where
  pub peer_id : String
  pub last_applied_seq : ℕ
  pub lag : ℕ

pub record Replicator (V : Type 0) : Type 0 where
  pub oplog : List (OpEntry V)
  pub max_oplog_size : ℕ
  pub next_seq : ℕ
  pub peers : Map String PeerState

module _ {V : Type 0} where
  unfoldable pub new_replicator : Replicator V
  new_replicator = record { oplog = []; max_oplog_size = 10000; next_seq = 1; peers = [] }

  unfoldable pub with_max_oplog_size : Replicator V → ℕ → Replicator V
  with_max_oplog_size r max = record r { max_oplog_size = max }

  -- `while self.oplog.len() > max { self.oplog.pop_front(); }`
  unfoldable pub trim : ℕ → List (OpEntry V) → List (OpEntry V)
  trim max [] = []
  trim max (e ∷ es) = let rest = trim max es in if leb (length (e ∷ es)) max then e ∷ es else rest

  unfoldable pub append : Replicator V → ℕ → ℕ → Operation V → ℕ × Replicator V
  append r uuid now op =
      let entry : OpEntry V = record { id = uuid; seq = r.next_seq; timestamp = now; op = op } in
      (
        r.next_seq,
        record r {
          next_seq = (r.next_seq + 1) % 2 ^ 64;
          oplog = trim r.max_oplog_size (r.oplog ++ (entry ∷ []));
        },
      )

  unfoldable pub entries_since : Replicator V → ℕ → List (OpEntry V)
  entries_since r since = keep (λ e. ltb since e.seq) r.oplog

  -- `saturating_sub(1)`
  unfoldable pub latest_seq : Replicator V → ℕ
  latest_seq r = r.next_seq - 1

  pub oplog_size : Replicator V → ℕ
  oplog_size r = length r.oplog

  unfoldable pub register_peer : Replicator V → String → Replicator V
  register_peer r n = elim (Map.get r.peers n) [
    | some p ↦ r
    | none ↦ record r {
      peers = Map.insert r.peers n (record { peer_id = n; last_applied_seq = 0; lag = 0 });
    }
  ]

  unfoldable pub update_peer : Replicator V → String → ℕ → Replicator V
  unfolding latest_seq
  update_peer r n seq = elim (Map.get r.peers n) [
    | none ↦ r
    | some p ↦ record r {
      peers = Map.insert r.peers n (record p { last_applied_seq = seq; lag = latest_seq r - seq });
    }
  ]

  pub peer_states : Replicator V → List PeerState
  peer_states r = map (λ entry. entry.1) r.peers

  unfoldable pub peer_lag : Replicator V → String → Option ℕ
  peer_lag r n = elim (Map.get r.peers n) [ none ↦ none | some p ↦ some p.lag ]

  unfoldable pub remove_peer : Replicator V → String → Bool × Replicator V
  remove_peer r n = (Map.contains_key r.peers n, record r { peers = Map.remove r.peers n })
