-- ===== src/Tests/Cluster.antt =====
-- A cluster of three nodes, one of them dead, and the side of it that hears of one node only.
use blitz_db.Prelude.{true, [], ◌∷◌, ◌≡◌, refl}
use blitz_db.Cluster.{
  Node, NodeStatus, alive, dead, follower, ClusterMembership, all_nodes, alive_nodes, alive_count,
  total_count, has_quorum,
}

abbrev member : NodeStatus → Node
member s = record {
  id = "n";
  name = "";
  address = "10.0.0.1";
  port = 4000;
  status = s;
  role = follower;
  metadata = [];
  last_heartbeat = 0;
  joined_at = 0;
}

abbrev majority : ClusterMembership
majority = record {
  nodes = ("a", member alive) ∷ ("b", member alive) ∷ ("c", member dead) ∷ [];
  local_id = "a";
}

abbrev minority : ClusterMembership
minority = record {
  nodes = ("a", member dead) ∷ ("b", member dead) ∷ ("c", member alive) ∷ [];
  local_id = "c";
}

majority_rules : has_quorum majority ≡ true
unfolding has_quorum alive_count total_count alive_nodes all_nodes
majority_rules = refl
