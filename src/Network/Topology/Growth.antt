-- ===== src/Network/Topology/Growth.antt =====
-- The constructor, addLinkPtr and addNode of core/src/network/Topology.cpp.
use native.Mathlib.Nat.{add-zero}
use gns.Base.{
  ℕ, zero, suc, ◌+◌, ◌-◌, ◌<◌, ◌≤◌, ◌≡◌, inl, inr, refl, sym, ap, subst, ◌∙◌, leb, some, List, [],
  ◌∷◌, ◌++◌, length, length-append, All-weaken, get_or-extend, get_or-replicate, length-replicate,
  replicate, Bool-cases, arith,
}
use gns.Base.Ints.{pos}
use gns.Network.Link.{Link}
use gns.Network.Node.{Node}
use gns.Network.Topology.{Topology, numbered_nodes, create_topology, grow, add_node}
use gns.Network.Topology.Spec.{incident, interfaces_of, IsBetween, Numbered, WellFormed}

Numbered-append :
    (first : ℕ) (ns ms : List Node)
    → Numbered first ns
    → Numbered (first + length ns) ms
    → Numbered first (ns ++ ms)
Numbered-append first [] ms h k = subst (λ (i : ℕ). Numbered i ms) (add-zero first) k
Numbered-append first (n ∷ ns) ms h k =
    (h.0, Numbered-append (suc first) ns ms h.1 (subst (λ (i : ℕ). Numbered i ms) (omega arith) k))

numbered_nodes-Numbered : (first count : ℕ) → Numbered first (numbered_nodes first count)
unfolding numbered_nodes
numbered_nodes-Numbered first zero = tt
numbered_nodes-Numbered first (suc count) = (refl, numbered_nodes-Numbered (suc first) count)

length-numbered_nodes : (first count : ℕ) → length (numbered_nodes first count) ≡ count
unfolding numbered_nodes
length-numbered_nodes first zero = refl
length-numbered_nodes first (suc count) = ap suc (length-numbered_nodes (suc first) count)

module _ {T : Type 0} where
  pub IsBetween-mono : (m n : ℕ) (l : Link T) → m ≤ n → IsBetween m l → IsBetween n l
  IsBetween-mono m n l h b = record {
    a_at = b.a_at;
    a_is = b.a_is;
    a_in = omega (arith, h, b.a_in);
    b_at = b.b_at;
    b_is = b.b_is;
    b_in = omega (arith, h, b.b_in);
    differ = b.differ;
  }

  -- `count` empty nodes more.
  abbrev extended : Topology T → ℕ → Topology T
  extended t count = record t {
    adjacency_list = t.adjacency_list ++ replicate count [];
    nodes = t.nodes ++ numbered_nodes (length t.adjacency_list) count;
  }

  length-extended :
      (t : Topology T) (count : ℕ)
      → length (extended t count).adjacency_list ≡ length t.adjacency_list + count
  length-extended t count =
      length-append t.adjacency_list (replicate count [])
      ∙ ap (λ (k : ℕ). length t.adjacency_list + k) (length-replicate count [])

  extended-WellFormed :
      (t : Topology T) (next_id count : ℕ)
      → WellFormed t next_id
      → WellFormed (extended t count) next_id
  extended-WellFormed t next_id count w =
      let size = length t.adjacency_list in
      let size' = length-extended t count in
      record {
        rows = λ i. get_or-extend t.adjacency_list count i [] ∙ w.rows i;
        ports = w.ports;
        slots = omega (
          arith,
          length-append t.nodes (numbered_nodes size count),
          length-numbered_nodes size count,
          w.slots,
          size',
        );
        numbers = Numbered-append 0 t.nodes (numbered_nodes size count) w.numbers (
            subst (λ (i : ℕ). Numbered i (numbered_nodes size count)) (omega (arith, w.slots))
              (numbered_nodes-Numbered size count));
        ends =
            All-weaken (IsBetween size) (IsBetween (length (extended t count).adjacency_list))
              t.links (λ l b. IsBetween-mono size _ l (omega (arith, size')) b) w.ends;
        fresh = w.fresh;
        distinct = w.distinct;
      }

  pub grow-WellFormed :
      (t : Topology T) (next_id max_node : ℕ)
      → WellFormed t next_id
      → WellFormed (grow t max_node) next_id
  unfolding grow
  grow-WellFormed t next_id max_node w =
      elim (Bool-cases (leb (length t.adjacency_list) max_node)) [
        | inl h ↦ rw h (extended-WellFormed t next_id (suc max_node - length t.adjacency_list) w)
        | inr h ↦ rw h w
      ]

  pub length-grow :
      (t : Topology T) (max_node : ℕ)
      → (max_node < length (grow t max_node).adjacency_list)
        × (length t.adjacency_list ≤ length (grow t max_node).adjacency_list)
  unfolding grow
  length-grow t max_node = elim (Bool-cases (leb (length t.adjacency_list) max_node)) [
    | inl h ↦ rw h (
        let e = length-extended t (suc max_node - length t.adjacency_list) in
        (ground (arith, h, e), ground (arith, h, e)))
    | inr h ↦ rw h (ground (arith, h), omega arith)
  ]

  pub add_node-WellFormed :
      (t : Topology T) (next_id : ℕ) → WellFormed t next_id → WellFormed (add_node t).0 next_id
  unfolding add_node numbered_nodes
  add_node-WellFormed t next_id w = extended-WellFormed t next_id 1 w

  pub create_topology-WellFormed :
      (count next_id : ℕ)
      → (t : Topology T) × (create_topology (pos count) ≡ some t)
        × (length t.adjacency_list ≡ count)
        × WellFormed t next_id
  unfolding create_topology incident interfaces_of
  create_topology-WellFormed count next_id = (
    _,
    refl,
    length-replicate count [],
    record {
      rows = λ i. get_or-replicate count i [];
      ports = refl;
      slots = length-numbered_nodes 0 count ∙ sym (length-replicate count []);
      numbers = numbered_nodes-Numbered 0 count;
      ends = tt;
      fresh = tt;
      distinct = tt;
    },
  )
