-- ===== src/Network/Topology/Calls.antt =====
-- Any sequence of calls on a topology of core/src/network/Topology.cpp.
use gns.Base.{
  ℕ, suc, ◌+◌, ◌<◌, ◌≤◌, ◌≡◌, ◌⊎◌, inl, inr, refl, sym, subst, Bool, some, List, [], ◌∷◌, length,
  leb, Bool-cases, arith,
}
use gns.Base.Ints.{ℤ, pos, negsuc, to_size, max_int}
use gns.Base.Words.{size_mod}
use gns.Base.Floats.{Float}
use gns.Network.Link.{LinkMode, Link, create_link}
use gns.Network.Topology.{
  Topology, TopologyError, grow, attach, create_topology, add_link_ptr, add_node, remove_node,
  remove_link, set_link_up, set_global_loss_prob,
}
use gns.Network.Topology.Spec.{WellFormed}
use gns.Network.Topology.Shape.{
  unless_thrown, set_link_up-WellFormed, set_global_loss_prob-WellFormed,
}
use gns.Network.Topology.Growth.{
  grow-WellFormed, length-grow, add_node-WellFormed, create_topology-WellFormed,
}
use gns.Network.Topology.Accepted.{Accepted, add_link_ptr-cases, max_int-bounds}
use gns.Network.Topology.Attach.{attach-WellFormed}
use gns.Network.Topology.Removed.{remove_node_in, remove_node_out, remove_link-cases}

-- The calls that change a topology.
pub data TopologyCall (T : Type 0) : Type 0 where
  adds_link : ℤ → ℤ → T → T → T → LinkMode → TopologyCall T
  adds_node : TopologyCall T
  removes_node : ℤ → TopologyCall T
  removes_link : ℤ → ℤ → TopologyCall T
  sets_link_up : ℤ → ℤ → Bool → TopologyCall T
  sets_loss_prob : T → TopologyCall T

module _ {T : Type 0} (f : Float T) where
  -- The topology and the counter of the links; a call that throws leaves both.
  abbrev after_add : Topology T → ℕ → TopologyError ⊎ (Topology T × Link T × ℕ) → Topology T × ℕ
  after_add t next_id (inl e) = (t, next_id)
  after_add t next_id (inr r) = (r.0, r.2)

  pub topology_call : Topology T → ℕ → TopologyCall T → Topology T × ℕ
  topology_call t next_id (adds_link a b bandwidth delay loss mode) =
      after_add t next_id (add_link_ptr f t next_id a b bandwidth delay loss mode)
  topology_call t next_id adds_node = ((add_node t).0, next_id)
  topology_call t next_id (removes_node id) = ((remove_node t id).0, next_id)
  topology_call t next_id (removes_link a b) = ((remove_link t a b).0, next_id)
  topology_call t next_id (sets_link_up a b up) = ((set_link_up t a b up).0, next_id)
  topology_call t next_id (sets_loss_prob value) =
      (unless_thrown t (set_global_loss_prob f t value), next_id)

  pub topology_calls : Topology T → ℕ → List (TopologyCall T) → Topology T × ℕ
  unfolding topology_call
  topology_calls t next_id [] = (t, next_id)
  topology_calls t next_id (c ∷ cs) =
      let (t', next_id') = topology_call t next_id c in topology_calls t' next_id' cs

  abbrev Sound : Topology T × ℕ → Type 0
  Sound s = WellFormed s.0 s.1

  abbrev Grows : ℕ → Topology T × ℕ → Type 0
  Grows next_id s = s.1 ≤ suc next_id

  attached-WellFormed :
      (t : Topology T) (next_id : ℕ) (a b : ℤ) (bandwidth delay loss : T) (mode : LinkMode)
      → WellFormed t next_id
      → Accepted f a b
      → WellFormed
          (attach
            (grow t (to_size (max_int a b)))
            (create_link f next_id a b bandwidth delay loss mode).0)
          (suc next_id)
  unfolding create_link
  attached-WellFormed t next_id a b bandwidth delay loss mode w ok =
      let m = to_size (max_int a b) in
      let far = length-grow t m in
      let ends =
        subst
          (λ (x : ℤ).
            (y : ℤ)
            → y ≡ pos ok.b_at
            → (ok.a_at ≤ to_size (max_int x y)) × (ok.b_at ≤ to_size (max_int x y)))
          (sym ok.a_is)
          (λ y e.
            subst
              (λ (z : ℤ).
                (ok.a_at ≤ to_size (max_int (pos ok.a_at) z))
                × (ok.b_at ≤ to_size (max_int (pos ok.a_at) z)))
              (sym e) (max_int-bounds ok.a_at ok.b_at))
          b ok.b_is in
      attach-WellFormed (grow t m) next_id (create_link f next_id a b bandwidth delay loss mode).0
        (grow-WellFormed t next_id m w)
        (record {
          a_at = ok.a_at;
          a_is = ok.a_is;
          a_in = omega (arith, ends.0, far.0);
          b_at = ok.b_at;
          b_is = ok.b_is;
          b_in = omega (arith, ends.1, far.0);
          differ = ok.differ;
        })
        refl

  next_number :
      (next_id : ℕ) (a b : ℤ) (bandwidth delay loss : T) (mode : LinkMode)
      → suc next_id < size_mod
      → (create_link f next_id a b bandwidth delay loss mode).1 ≡ suc next_id
  unfolding create_link
  next_number next_id a b bandwidth delay loss mode h = omega (arith, h)

  remove_node-WellFormed :
      (t : Topology T) (next_id : ℕ) (id : ℤ)
      → WellFormed t next_id
      → WellFormed (remove_node t id).0 next_id
  remove_node-WellFormed t next_id (negsuc i) w = rw (remove_node_out t (negsuc i) refl) w
  remove_node-WellFormed t next_id (pos i) w = elim (Bool-cases (leb (length t.adjacency_list) i)) [
    | inl h ↦ rw (remove_node_out t (pos i) h) w
    | inr h ↦ (remove_node_in t next_id i w (ground (arith, h))).0.well
  ]

  topology_call-WellFormed :
      (t : Topology T) (next_id : ℕ) (c : TopologyCall T)
      → WellFormed t next_id
      → suc next_id < size_mod
      → Sound (topology_call t next_id c) × Grows next_id (topology_call t next_id c)
  unfolding topology_call
  topology_call-WellFormed t next_id (adds_link a b bandwidth delay loss mode) w h =
      elim (add_link_ptr-cases f t next_id a b bandwidth delay loss mode) [
        | inl thrown ↦ rw thrown.1 (w, omega arith)
        | inr ok ↦
            rw (ok.1, next_number next_id a b bandwidth delay loss mode h)
              (attached-WellFormed t next_id a b bandwidth delay loss mode w ok.0, omega arith)
      ]
  topology_call-WellFormed t next_id adds_node w h = (add_node-WellFormed t next_id w, omega arith)
  topology_call-WellFormed t next_id (removes_node id) w h =
      (remove_node-WellFormed t next_id id w, omega arith)
  topology_call-WellFormed t next_id (removes_link a b) w h =
      elim (remove_link-cases t next_id a b w) [
        | inl unchanged ↦ rw unchanged.1 (w, omega arith)
        | inr gone ↦ (gone.0.well, omega arith)
      ]
  topology_call-WellFormed t next_id (sets_link_up a b up) w h =
      (set_link_up-WellFormed t next_id a b up w, omega arith)
  topology_call-WellFormed t next_id (sets_loss_prob value) w h =
      (set_global_loss_prob-WellFormed f t next_id value w, omega arith)

  topology_calls-kept :
      (calls : List (TopologyCall T)) (t : Topology T) (next_id : ℕ)
      → WellFormed t next_id
      → next_id + length calls < size_mod
      → Sound (topology_calls t next_id calls)
  unfolding topology_calls
  topology_calls-kept [] t next_id w h = w
  topology_calls-kept (c ∷ cs) t next_id w h =
      let step = topology_call-WellFormed t next_id c w (omega (arith, h)) in
      topology_calls-kept cs (topology_call t next_id c).0 (topology_call t next_id c).1 step.0
        (omega (arith, h, step.1))

  -- After any sequence of calls on a new topology with any number of nodes, while the link counter
  -- does not wrap, the adjacency list of every node holds exactly the links that touch it, in the
  -- order of the list of links; there are two interfaces for each link, and as many nodes as
  -- adjacency lists, numbered by their places; every link joins two different existing nodes; no
  -- two links have the same number, and the counter is above all of them.
  pub topology_calls-WellFormed :
      (count next_id : ℕ) (calls : List (TopologyCall T))
      → next_id + length calls < size_mod
      → (t : Topology T) × (create_topology (pos count) ≡ some t)
        × WellFormed (topology_calls t next_id calls).0 (topology_calls t next_id calls).1
  topology_calls-WellFormed count next_id calls h =
      let (t, e, size, w) = create_topology-WellFormed count next_id in
      (t, e, topology_calls-kept calls t next_id w h)
