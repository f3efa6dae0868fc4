-- ===== src/Cluster/Quorum.antt =====
-- When a quorum is there, and that there are not two.
use blitz_db.Prelude.{
  ℕ, suc, ◌+◌, ◌≤◌, String, true, false, some, [], ◌∷◌, length, keep, map, if◌then◌else◌, ◌≡◌, refl,
  arith, Option-cases, inl, inr,
}
use blitz_db.Prelude.Map
use blitz_db.Prelude.Map.{Map, string_key}
use blitz_db.Cluster.{
  Node, ClusterMembership, alive, is_alive, alive_nodes, all_nodes, alive_count, total_count,
  has_quorum, heartbeat, change_node,
}

-- Two sides of a cluster that know equally many nodes, and together hold no more of them alive than
-- there are, do not both have a quorum.
pub quorum_unique :
    (m n : ClusterMembership)
    → total_count m ≡ total_count n
    → alive_count m + alive_count n ≤ total_count m
    → has_quorum m ≡ true
    → has_quorum n ≡ false
unfolding has_quorum
quorum_unique m n same apart h = ground arith

abbrev count_alive : Map String Node → ℕ
count_alive [] = 0
count_alive ((i, n) ∷ m) = let rest = count_alive m in if is_alive n then suc rest else rest

alive_count_lem : (m : ClusterMembership) → alive_count m ≡ count_alive m.nodes
unfolding alive_count alive_nodes all_nodes
alive_count_lem m = go m.nodes
  where
    go : (ns : Map String Node) → length (keep is_alive (map (λ e. e.1) ns)) ≡ count_alive ns
    go [] = refl
    go ((i, n) ∷ ns) = ground (arith, go ns)

-- Changing one node leaves their number, and a node that comes alive is one more at most.
count_alive-insert :
    (ns : Map String Node) (i : String) (n : Node) (f : Node → Node)
    → Map.get ns i ≡ some n
    → is_alive (f n) ≡ true
    → (length (Map.insert ns i (f n)) ≡ length ns)
      × (count_alive ns ≤ count_alive (Map.insert ns i (f n)))
unfolding Map.get Map.insert
count_alive-insert [] i n f h a = cc h
count_alive-insert ((j, x) ∷ ns) i n f h a = ground (arith, count_alive-insert ns i n f)

more_alive :
    (m n : ClusterMembership)
    → total_count n ≡ total_count m
    → alive_count m ≤ alive_count n
    → has_quorum m ≡ true
    → has_quorum n ≡ true
unfolding has_quorum
more_alive m n same more h = ground arith

-- A heartbeat, whether the node is known or not, never takes the quorum away.
pub heartbeat-has_quorum :
    (now : ℕ) (m : ClusterMembership) (i : String)
    → has_quorum m ≡ true
    → has_quorum (heartbeat now m i).1 ≡ true
unfolding heartbeat change_node total_count
heartbeat-has_quorum now m i h = elim (Option-cases (Map.get m.nodes i)) [
  | inl missed ↦ rw (missed, heartbeat, change_node) h
  | inr (n, found) ↦
      rw (found, heartbeat, change_node)
        (let beat : Node → Node = λ x. record x { last_heartbeat = now; status = alive } in
          let after : ClusterMembership = record m { nodes = Map.insert m.nodes i (beat n) } in
          let (size, more) = count_alive-insert m.nodes i n beat found refl in
          more_alive m after size (omega (arith, more, alive_count_lem m, alive_count_lem after)) h)
]
