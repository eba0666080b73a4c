-- ===== src/Network/Topology.antt =====
-- core/include/network/Topology.hpp and core/src/network/Topology.cpp, without the display name. The
-- links are shared objects: `links` holds them, and a pointer to one in an adjacency list is its
-- number, which identifies it. An exception is a result of type TopologyError.
pub mod Spec
pub mod Links
pub mod Removal
pub mod Deletion
pub mod Removed
pub mod Growth
pub mod Attach
pub mod Accepted
pub mod Shape
pub mod Calls
use gns.Base.{
  ℕ, zero, suc, ◌+◌, ◌-◌, Bool, true, false, not, ◌&&◌, ◌||◌, Option, none, some, ◌⊎◌, inl, inr,
  List, [], ◌∷◌, ◌++◌, map, length, ltb, leb, ◌==◌, if◌then◌else◌, get_elem?, update_at, replicate,
  remove_if,
}
use gns.Base.Ints.{ℤ, pos, is_negative, eq_int, max_int, to_size}
use gns.Base.Floats.{Float}
use gns.Network.Link.{LinkMode, Link, create_link, set_loss_prob, set_up}
use gns.Network.Node.{Node, new_node, set_active, Interface, new_interface}

pub record Topology (T : Type 0) : Type 0 where
  pub links : List (Link T)
  pub adjacency_list : List (List ℕ)
  pub nodes : List Node
  pub interfaces : List Interface

pub data TopologyError : Type 0 where
  negative_index self_loop bad_bandwidth bad_delay bad_loss_prob : TopologyError

-- `count` nodes numbered from `first`.
unfoldable pub numbered_nodes : ℕ → ℕ → List Node
unfolding new_node
numbered_nodes first zero = []
numbered_nodes first (suc count) = new_node (pos first) ∷ numbered_nodes (suc first) count

unfoldable pub push_back : ℕ → List ℕ → List ℕ
push_back link_id row = row ++ link_id ∷ []

-- A pointer leaves the adjacency list of a node, if the node is in range.
unfoldable pub detach_at : List (List ℕ) → ℤ → ℕ → List (List ℕ)
detach_at rows node link_id =
    if not (is_negative node) && ltb (to_size node) (length rows)
    then update_at rows (to_size node) (remove_if (λ id. id == link_id))
    else rows

unfoldable pub detach_interfaces : List Interface → ℕ → List Interface
detach_interfaces interfaces link_id = remove_if (λ i. i.link_id == link_id) interfaces

module _ {T : Type 0} where
  -- The constructor; none where it throws.
  unfoldable pub create_topology : ℤ → Option (Topology T)
  unfolding numbered_nodes
  create_topology count =
      if is_negative count
      then none
      else some (record {
        links = [];
        adjacency_list = replicate (to_size count) [];
        nodes = numbered_nodes 0 (to_size count);
        interfaces = [];
      })

  abbrev pub topology_size : Topology T → ℕ
  topology_size t = length t.adjacency_list

  -- The adjacency list and the nodes, made long enough for `max_node`.
  unfoldable pub grow : Topology T → ℕ → Topology T
  unfolding numbered_nodes
  grow t max_node =
      let old_size = length t.adjacency_list in
      if leb old_size max_node
      then record t {
        adjacency_list = t.adjacency_list ++ replicate (suc max_node - old_size) [];
        nodes = t.nodes ++ numbered_nodes old_size (suc max_node - old_size);
      }
      else t

  -- The new link in `links`, in the two adjacency lists and at its two interfaces.
  unfoldable pub attach : Topology T → Link T → Topology T
  unfolding push_back new_interface
  attach t link = record t {
    links = t.links ++ link ∷ [];
    adjacency_list =
        update_at (update_at t.adjacency_list (to_size link.a) (push_back link.id)) (to_size link.b)
          (push_back link.id);
    interfaces = t.interfaces ++ new_interface link.a link.id ∷ new_interface link.b link.id ∷ [];
  }

  -- `getLinksFromNode`; none where it throws.
  unfoldable pub get_links_from_node : Topology T → ℤ → Option (List ℕ)
  get_links_from_node t node =
      if is_negative node || leb (length t.adjacency_list) (to_size node)
      then none
      else get_elem? t.adjacency_list (to_size node)

  unfoldable pub add_node : Topology T → Topology T × ℕ
  unfolding new_node
  add_node t =
      let id = length t.adjacency_list in
      (
        record t {
          adjacency_list = t.adjacency_list ++ [] ∷ [];
          nodes = t.nodes ++ new_node (pos id) ∷ [];
        },
        id,
      )

  unfoldable pub get_node : Topology T → ℤ → Option Node
  get_node t id =
      if is_negative id || leb (length t.nodes) (to_size id)
      then none
      else get_elem? t.nodes (to_size id)

  unfoldable pub touches : ℤ → Link T → Bool
  touches node link = eq_int link.a node || eq_int link.b node

  unfoldable pub joins : ℤ → ℤ → Link T → Bool
  joins a b link = (eq_int link.a a && eq_int link.b b) || (eq_int link.a b && eq_int link.b a)

  -- One round of the loop of `removeNode` over the links to remove.
  unfoldable pub remove_pointer : Topology T → Link T → Topology T
  unfolding detach_at detach_interfaces
  remove_pointer t link = record t {
    links = remove_if (λ l. l.id == link.id) t.links;
    adjacency_list = detach_at (detach_at t.adjacency_list link.a link.id) link.b link.id;
    interfaces = detach_interfaces t.interfaces link.id;
  }

  unfoldable pub remove_pointers : Topology T → List (Link T) → Topology T
  unfolding remove_pointer
  remove_pointers t [] = t
  remove_pointers t (l ∷ ls) = remove_pointers (remove_pointer t l) ls

  unfoldable pub remove_node : Topology T → ℤ → Topology T × Bool
  unfolding touches remove_pointers set_active
  remove_node t id =
      let to_remove = remove_if (λ l. not (touches id l)) t.links in
      let t' = remove_pointers t to_remove in
      if is_negative id || leb (length t.adjacency_list) (to_size id) then (t, false) else (
        record t' {
          adjacency_list = update_at t'.adjacency_list (to_size id) (λ row. []);
          nodes = update_at t'.nodes (to_size id) (λ n. set_active n false);
        },
        true,
      )

  -- The first link that satisfies the test, and the other links without it.
  unfoldable pub take_first : (Link T → Bool) → List (Link T) → Option (Link T × List (Link T))
  take_first p [] = none
  take_first p (l ∷ ls) =
      let rest = take_first p ls in
      if p l then some (l, ls) else elim rest [ none ↦ none | some r ↦ some (r.0, l ∷ r.1) ]

  unfoldable pub remove_link : Topology T → ℤ → ℤ → Topology T × Bool
  unfolding joins take_first detach_at detach_interfaces
  remove_link t a b = elim (take_first (joins a b) t.links) [
    | none ↦ (t, false)
    | some r ↦
        let (link, kept) = r in
        (
          record t {
            links = kept;
            adjacency_list = detach_at (detach_at t.adjacency_list link.a link.id) link.b link.id;
            interfaces = detach_interfaces t.interfaces link.id;
          },
          true,
        )
  ]

  -- The loop of `setLinkUp`.
  unfoldable pub set_first_up : (Link T → Bool) → Bool → List (Link T) → List (Link T) × Bool
  unfolding set_up
  set_first_up p up [] = ([], false)
  set_first_up p up (l ∷ ls) =
      let rest = set_first_up p up ls in
      if p l then (set_up l up ∷ ls, true) else (l ∷ rest.0, rest.1)

  unfoldable pub set_link_up : Topology T → ℤ → ℤ → Bool → Topology T × Bool
  unfolding joins set_first_up
  set_link_up t a b up =
      let (links, found) = set_first_up (joins a b) up t.links in
      (record t { links = links }, found)

module _ {T : Type 0} (f : Float T) where
  -- `addLinkPtr`, with the counter of the links before and after it.
  unfoldable pub add_link_ptr :
      Topology T → ℕ → ℤ → ℤ → T → T → T → LinkMode → TopologyError ⊎ (Topology T × Link T × ℕ)
  unfolding create_link grow attach
  add_link_ptr t next_id a b bandwidth_mbps delay_ms loss_prob mode =
      let zero_value = f.literal 0 1 in
      let (link, next_id') = create_link f next_id a b bandwidth_mbps delay_ms loss_prob mode in
      if is_negative a || is_negative b
      then inl negative_index
      else if eq_int a b
      then inl self_loop
      else if f.le bandwidth_mbps zero_value
      then inl bad_bandwidth
      else if f.lt delay_ms zero_value
      then inl bad_delay
      else if f.lt loss_prob zero_value || f.lt (f.literal 1 1) loss_prob
      then inl bad_loss_prob
      else inr (attach (grow t (to_size (max_int a b))) link, link, next_id')

  -- none where it throws.
  unfoldable pub set_global_loss_prob : Topology T → T → Option (Topology T)
  unfolding set_loss_prob
  set_global_loss_prob t value =
      if f.lt value (f.literal 0 1) || f.lt (f.literal 1 1) value
      then none
      else some (record t { links = map (λ l. set_loss_prob l value) t.links })
