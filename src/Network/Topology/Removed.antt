-- ===== src/Network/Topology/Removed.antt =====
-- What is left after removeNode and removeLink of core/src/network/Topology.cpp.
use gns.Base.{
  ℕ, ◌<◌, ◌≡◌, ◌⊎◌, inl, inr, refl, sym, ap, subst, ◌∙◌, ◌||◌, not, leb, Bool, true, false, none,
  some, List, [], ◌∷◌, ◌++◌, length, All, All-weaken, All-remove_if, update_at, remove_if,
  remove_if-rest, remove_if-none, All-middle, length-update_at, Bool-cases, arith,
}
use gns.Base.Ints.{ℤ, pos, is_negative, to_size}
use gns.Network.Link.{Link}
use gns.Network.Node.{Node, set_active}
use gns.Network.Topology.{
  Topology, touches, joins, take_first, detach_at, detach_interfaces, remove_pointers, remove_node,
  remove_link,
}
use gns.Network.Topology.Spec.{Distinct, WellFormed}
use gns.Network.Topology.Links.{has_id, same_id, Agrees, Distinct-Agrees}
use gns.Network.Topology.Removal.{WellFormed-without, length-detached}
use gns.Network.Topology.Deletion.{
  remove_pointers-Removed, removed_touching, WellFormed-cleared, touching,
}

in_range : (n i : ℕ) → i < n → leb n i ≡ false
in_range n i h = ground arith

module _ {T : Type 0} where
  -- What removeNode leaves.
  pub record NodeGone (t t' : Topology T) (next_id i : ℕ) : Type 0 where
    pub links_left : t'.links ≡ remove_if (touches (pos i)) t.links
    pub marked : t'.nodes ≡ update_at t.nodes i (λ n. set_active n false)
    pub size_same : length t'.adjacency_list ≡ length t.adjacency_list
    pub well : WellFormed t' next_id

  -- In a well-formed topology, removeNode of an existing node returns true: the links that touch the
  -- node are gone, the others stay in their order, the node is marked inactive and keeps its place,
  -- no other node changes, and the topology is well-formed again.
  pub remove_node_in :
      (t : Topology T) (next_id i : ℕ)
      → WellFormed t next_id
      → i < length t.adjacency_list
      → NodeGone t (remove_node t (pos i)).0 next_id i × ((remove_node t (pos i)).1 ≡ true)
  unfolding remove_node
  remove_node_in t next_id i w h =
      let rs = touching (pos i) t.links in
      let t' = remove_pointers t rs in
      let r = remove_pointers-Removed rs t next_id w (
        All-remove_if _ (λ l. not (touches (pos i) l)) t.links
          (Distinct-Agrees t.links w.distinct)) in
      let left = r.links_left ∙ removed_touching (pos i) t.links w.distinct in
      let none_touch =
        subst (All (λ l. touches (pos i) l ≡ false)) (sym left)
          (remove_if-rest (touches (pos i)) t.links) in
      let well =
        WellFormed-cleared t' next_id i false r.well (omega (arith, h, r.size_same)) none_touch in
      rw (in_range (length t.adjacency_list) i h) (
        record {
          links_left = left;
          marked = ap (λ (ns : List Node). update_at ns i (λ n. set_active n false)) r.nodes_same;
          size_same = length-update_at t'.adjacency_list i _ ∙ r.size_same;
          well = well;
        },
        refl,
      )

  -- A node that does not exist is not removed.
  pub remove_node_out :
      (t : Topology T) (id : ℤ)
      → (is_negative id || leb (length t.adjacency_list) (to_size id)) ≡ true
      → remove_node t id ≡ (t, false)
  unfolding remove_node
  remove_node_out t id h = rw h refl

  -- `l` is the first link that satisfies the test, and `rest` the others.
  pub record Taken (p : Link T → Bool) (ls : List (Link T)) (l : Link T) (rest : List (Link T))
      : Type 0 where
    pub fits : p l ≡ true
    pub earlier : List (Link T)
    pub later : List (Link T)
    pub whole : ls ≡ earlier ++ l ∷ later
    pub left : rest ≡ earlier ++ later
    pub first : All (λ k. p k ≡ false) earlier

  pub take_first-cases :
      (p : Link T → Bool) (ls : List (Link T))
      → ((take_first p ls ≡ none) × All (λ k. p k ≡ false) ls)
        ⊎ ((l : Link T) × (rest : List (Link T)) × (take_first p ls ≡ some (l, rest))
            × Taken p ls l rest)
  unfolding take_first
  take_first-cases p [] = inl (refl, tt)
  take_first-cases p (x ∷ xs) = elim (Bool-cases (p x)) [
    | inl h ↦ inr (
      x,
      xs,
      rw h refl,
      record { fits = h; earlier = []; later = xs; whole = refl; left = refl; first = tt },
    )
    | inr h ↦ elim (take_first-cases p xs) [
      | inl none_of ↦ inl (rw (h, none_of.0) refl, (h, none_of.1))
      | inr found ↦
          let (l, rest, e, taken) = found in
          inr (
            l,
            x ∷ rest,
            rw (h, e) refl,
            record {
              fits = taken.fits;
              earlier = x ∷ taken.earlier;
              later = taken.later;
              whole = ap (λ (r : List (Link T)). x ∷ r) taken.whole;
              left = ap (λ (r : List (Link T)). x ∷ r) taken.left;
              first = (h, taken.first);
            },
          )
    ]
  ]

  not_same : (x l : Link T) → has_id x.id l ≡ false → has_id l.id x ≡ false
  not_same x l h = ground (arith, h)

  -- Among distinct links, the erased position is the only one with its number.
  Distinct-erase :
      (xs : List (Link T)) (l : Link T) (ys : List (Link T))
      → Distinct (xs ++ l ∷ ys)
      → (remove_if (has_id l.id) (xs ++ l ∷ ys) ≡ xs ++ ys) × Agrees l (xs ++ l ∷ ys)
  Distinct-erase [] l ys d = (
    rw (same_id l) (remove_if-none (has_id l.id) ys d.0),
    (inl refl, All-weaken (λ k. has_id l.id k ≡ false) _ ys (λ k h. inr h) d.0),
  )
  Distinct-erase (x ∷ xs) l ys d =
      let rest = Distinct-erase xs l ys d.1 in
      let other = not_same x l (All-middle (λ k. has_id x.id k ≡ false) xs l ys d.0) in
      (rw other (ap (λ (r : List (Link T)). x ∷ r) rest.0), (inr other, rest.1))

  -- What removeLink leaves.
  pub record LinkGone (t t' : Topology T) (next_id : ℕ) (a b : ℤ) : Type 0 where
    pub link : Link T
    pub taken : Taken (joins a b) t.links link t'.links
    pub nodes_same : t'.nodes ≡ t.nodes
    pub size_same : length t'.adjacency_list ≡ length t.adjacency_list
    pub well : WellFormed t' next_id

  abbrev without : Topology T → Link T → List (Link T) → Topology T
  without t l rest = record t {
    links = rest;
    adjacency_list = detach_at (detach_at t.adjacency_list l.a l.id) l.b l.id;
    interfaces = detach_interfaces t.interfaces l.id;
  }

  without-WellFormed :
      (t : Topology T) (next_id : ℕ) (p : Link T → Bool) (l : Link T) (rest : List (Link T))
      → WellFormed t next_id
      → Taken p t.links l rest
      → WellFormed (without t l rest) next_id
  without-WellFormed t next_id p l rest w taken =
      let d = subst Distinct taken.whole w.distinct in
      let one = Distinct-erase taken.earlier l taken.later d in
      let agree = subst (Agrees l) (sym taken.whole) one.1 in
      let same = ap (remove_if (has_id l.id)) taken.whole ∙ one.0 ∙ sym taken.left in
      subst (λ r. WellFormed (without t l r) next_id) same (WellFormed-without t next_id l w agree)

  pub remove_link-cases :
      (t : Topology T) (next_id : ℕ) (a b : ℤ)
      → WellFormed t next_id
      → (All (λ l. joins a b l ≡ false) t.links × (remove_link t a b ≡ (t, false)))
        ⊎ (LinkGone t (remove_link t a b).0 next_id a b × ((remove_link t a b).1 ≡ true))
  unfolding remove_link
  remove_link-cases t next_id a b w = elim (take_first-cases (joins a b) t.links) [
    | inl none_of ↦ inl (none_of.1, rw (none_of.0, remove_link) refl)
    | inr found ↦
        let (l, rest, e, taken) = found in
        inr (
          rw (e, remove_link)
            (
              record {
                link = l;
                taken = taken;
                nodes_same = refl;
                size_same = length-detached l t.adjacency_list;
                well = without-WellFormed t next_id (joins a b) l rest w taken;
              },
              refl,
            ))
  ]
