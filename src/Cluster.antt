-- ===== src/Cluster.antt =====
-- crates/blitz-cluster/src/membership.rs: the nodes of a cluster and their status. A time is a number.
pub mod Quorum
use blitz_db.Prelude.{
  ℕ, ◌+◌, ◌/◌, String, Bool, true, false, ◌&&◌, Option, none, some, List, [], ◌∷◌, length, keep,
  map, if◌then◌else◌, ltb, ◌==◌,
}
use blitz_db.Prelude.Map
use blitz_db.Prelude.Map.{Map, string_key}

pub data NodeStatus : Type 0 where
  alive suspect dead : NodeStatus

pub data NodeRole : Type 0 where
  leader_role follower observer : NodeRole

pub record Node : Type 0 where
  pub id : String
  pub name : String
  pub address : String
  pub port : ℕ
  pub status : NodeStatus
  pub role : NodeRole
  pub metadata : Map String String
  pub last_heartbeat : ℕ
  pub joined_at : ℕ

unfoldable pub new_node : ℕ → String → String → ℕ → Node
new_node now i a p = record {
  id = i;
  name = "";
  address = a;
  port = p;
  status = alive;
  role = follower;
  metadata = [];
  last_heartbeat = now;
  joined_at = now;
}

unfoldable pub with_name : String → Node → Node
with_name n node = record node { name = n }

unfoldable pub with_role : NodeRole → Node → Node
with_role r node = record node { role = r }

unfoldable pub with_metadata : String → String → Node → Node
with_metadata k v node = record node { metadata = Map.insert node.metadata k v }

-- The derived `==` of the status and of the role.
abbrev pub is_alive : Node → Bool
is_alive node = elim (node.status) [ alive ↦ true | suspect ↦ false | dead ↦ false ]

unfoldable pub same_role : NodeRole → NodeRole → Bool
same_role leader_role leader_role = true
same_role follower follower = true
same_role observer observer = true
same_role _ _ = false

pub record ClusterMembership : Type 0 where
  pub nodes : Map String Node
  pub local_id : String

unfoldable pub new_membership : String → ClusterMembership
new_membership l = record { nodes = []; local_id = l }

unfoldable pub add_node : ClusterMembership → Node → ClusterMembership
add_node m node = record m { nodes = Map.insert m.nodes node.id node }

unfoldable pub remove_node : ClusterMembership → String → Bool × ClusterMembership
remove_node m i = elim (Map.get m.nodes i) [
  | none ↦ (false, m)
  | some node ↦ (true, record m { nodes = Map.remove m.nodes i })
]

unfoldable pub get_node : ClusterMembership → String → Option Node
get_node m i = Map.get m.nodes i

unfoldable pub local_node : ClusterMembership → Option Node
local_node m = Map.get m.nodes m.local_id

unfoldable pub all_nodes : ClusterMembership → List Node
all_nodes m = map (λ e. e.1) m.nodes

unfoldable pub alive_nodes : ClusterMembership → List Node
unfolding all_nodes
alive_nodes m = keep is_alive (all_nodes m)

unfoldable pub first_leader : List Node → Option Node
unfolding same_role
first_leader [] = none
first_leader (n ∷ ns) =
    let rest = first_leader ns in
    if same_role n.role leader_role && is_alive n then some n else rest

unfoldable pub leader : ClusterMembership → Option Node
unfolding all_nodes first_leader
leader m = first_leader (all_nodes m)

unfoldable pub nodes_by_role : ClusterMembership → NodeRole → List Node
unfolding all_nodes same_role
nodes_by_role m r = keep (λ n. same_role n.role r) (all_nodes m)

-- `if let Some(node) = self.nodes.get_mut(id)`
unfoldable pub change_node : ClusterMembership → String → (Node → Node) → Bool × ClusterMembership
change_node m i f = elim (Map.get m.nodes i) [
  | none ↦ (false, m)
  | some node ↦ (true, record m { nodes = Map.insert m.nodes i (f node) })
]

unfoldable pub heartbeat : ℕ → ClusterMembership → String → Bool × ClusterMembership
unfolding change_node
heartbeat now m i = change_node m i (λ n. record n { last_heartbeat = now; status = alive })

unfoldable pub mark_suspect : ClusterMembership → String → Bool × ClusterMembership
unfolding change_node
mark_suspect m i = change_node m i (λ n. record n { status = suspect })

unfoldable pub mark_dead : ClusterMembership → String → Bool × ClusterMembership
unfolding change_node
mark_dead m i = change_node m i (λ n. record n { status = dead })

unfoldable pub alive_count : ClusterMembership → ℕ
unfolding alive_nodes
alive_count m = length (alive_nodes m)

unfoldable pub total_count : ClusterMembership → ℕ
total_count m = length m.nodes

unfoldable pub has_quorum : ClusterMembership → Bool
unfolding alive_count total_count
has_quorum m = if total_count m == 0 then false else ltb (total_count m / 2) (alive_count m)
