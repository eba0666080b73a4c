-- ===== src/Network/Examples/Topologies.antt =====
-- The topology of core/src/network/Topology.cpp on small networks, with whole numbers as doubles.
use gns.Base.{ℕ, zero, ◌≡◌, refl, true, false, some, List, [], ◌∷◌, suc, get_or, arith}
use gns.Base.Ints.{pos}
use gns.Engine.Examples.{ticks}
use gns.Network.Link.{Link, full_duplex, half_duplex}
use gns.Network.Topology.{Topology, create_topology, remove_node, touches}
use gns.Network.Topology.Spec.{WellFormed, incident, interfaces_of}
use gns.Network.Node.{Node, Interface, new_interface}
use gns.Network.Topology.Calls.{
  TopologyCall, adds_link, adds_node, removes_node, removes_link, sets_link_up, sets_loss_prob,
  topology_calls, topology_calls-WellFormed,
}
use gns.Network.Topology.Removed.{NodeGone, remove_node_in}

abbrev some_calls : List (TopologyCall ℕ)
some_calls =
    adds_link (pos 0) (pos 1) 10 2 0 full_duplex
    ∷ adds_link (pos 1) (pos 4) 10 2 0 half_duplex
    ∷ adds_node
    ∷ removes_link (pos 1) (pos 0)
    ∷ sets_link_up (pos 1) (pos 4) false
    ∷ sets_loss_prob 1
    ∷ removes_node (pos 4)
    ∷ []

topology_calls-WellFormed_example :
    (t : Topology ℕ) × (create_topology (pos 2) ≡ some t)
    × WellFormed (topology_calls ticks t 5 some_calls).0 (topology_calls ticks t 5 some_calls).1
topology_calls-WellFormed_example = topology_calls-WellFormed ticks 2 5 some_calls (omega arith)

abbrev wire : ℕ → ℕ → ℕ → Link ℕ
wire id a b = record {
  id = id;
  a = pos a;
  b = pos b;
  bandwidth_mbps = 10;
  delay_ms = 2;
  loss_prob = 0;
  mode = full_duplex;
  busy_until_ab = 0;
  busy_until_ba = 0;
  busy_until_shared = 0;
  queue_ab = [];
  queue_ba = [];
  queue_shared = [];
  queue_capacity = 32;
  up = true;
}

abbrev node : ℕ → Node
node i = record { id = pos i; active = true }

abbrev port : ℕ → ℕ → Interface
port node link = record { node_id = pos node; link_id = link; mtu = 0; up = true }

-- 0 - 1 - 2, the second link twice.
abbrev path : Topology ℕ
path = record {
  links = wire 3 0 1 ∷ wire 4 1 2 ∷ wire 6 2 1 ∷ [];
  adjacency_list = (3 ∷ []) ∷ (3 ∷ 4 ∷ 6 ∷ []) ∷ (4 ∷ 6 ∷ []) ∷ [];
  nodes = node 0 ∷ node 1 ∷ node 2 ∷ [];
  interfaces = port 0 3 ∷ port 1 3 ∷ port 1 4 ∷ port 2 4 ∷ port 2 6 ∷ port 1 6 ∷ [];
}

path-rows : (i : ℕ) → get_or path.adjacency_list i [] ≡ incident path.links (pos i)
unfolding incident touches
path-rows zero = refl
path-rows (suc zero) = refl
path-rows (suc (suc zero)) = refl
path-rows (suc (suc (suc i))) = ground arith

path-ports : path.interfaces ≡ interfaces_of path.links
unfolding interfaces_of new_interface
path-ports = refl

path-WellFormed : WellFormed path 7
path-WellFormed = record {
  rows = path-rows;
  ports = path-ports;
  slots = refl;
  numbers = (refl, (refl, (refl, tt)));
  ends = (
    record {
      a_at = 0;
      a_is = refl;
      a_in = omega arith;
      b_at = 1;
      b_is = refl;
      b_in = omega arith;
      differ = refl;
    },
    (
      record {
        a_at = 1;
        a_is = refl;
        a_in = omega arith;
        b_at = 2;
        b_is = refl;
        b_in = omega arith;
        differ = refl;
      },
      (
        record {
          a_at = 2;
          a_is = refl;
          a_in = omega arith;
          b_at = 1;
          b_is = refl;
          b_in = omega arith;
          differ = refl;
        },
        tt,
      ),
    ),
  );
  fresh = (omega arith, (omega arith, (omega arith, tt)));
  distinct = ((refl, (refl, tt)), ((refl, tt), (tt, tt)));
}

remove_node_in_example :
    NodeGone path (remove_node path (pos 2)).0 7 2 × ((remove_node path (pos 2)).1 ≡ true)
remove_node_in_example = remove_node_in path 7 2 path-WellFormed (omega arith)
