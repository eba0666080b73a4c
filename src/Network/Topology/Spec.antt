-- ===== src/Network/Topology/Spec.antt =====
-- The topology of core/src/network/Topology.cpp as the list of its links: the adjacency lists and the
-- interfaces are what the links determine.
use gns.Base.{ℕ, suc, ◌<◌, ◌≡◌, ◌==◌, List, [], ◌∷◌, length, All, get_or, if◌then◌else◌, false}
use gns.Base.Ints.{ℤ, pos, eq_int}
use gns.Network.Link.{Link}
use gns.Network.Node.{Node, Interface, new_interface}
use gns.Network.Topology.{Topology, touches}

-- `first`, `first` + 1, and so on.
abbrev pub Numbered : ℕ → List Node → Type 0
Numbered first [] = Unit
Numbered first (n ∷ ns) = (n.id ≡ pos first) × Numbered (suc first) ns

module _ {T : Type 0} where
  -- The numbers of the links that touch a node, in the order of the links.
  unfoldable pub incident : List (Link T) → ℤ → List ℕ
  incident [] node = []
  incident (l ∷ ls) node = if touches node l then l.id ∷ incident ls node else incident ls node

  -- Two interfaces for each link.
  unfoldable pub interfaces_of : List (Link T) → List Interface
  interfaces_of [] = []
  interfaces_of (l ∷ ls) = new_interface l.a l.id ∷ new_interface l.b l.id ∷ interfaces_of ls

  -- Two different nodes of a topology of `size` nodes.
  pub record IsBetween (size : ℕ) (l : Link T) : Type 0 where
    pub a_at : ℕ
    pub a_is : l.a ≡ pos a_at
    pub a_in : a_at < size
    pub b_at : ℕ
    pub b_is : l.b ≡ pos b_at
    pub b_in : b_at < size
    pub differ : eq_int l.a l.b ≡ false

  abbrev pub Distinct : List (Link T) → Type 0
  Distinct [] = Unit
  Distinct (l ∷ ls) = All (λ k. (k.id == l.id) ≡ false) ls × Distinct ls

  pub record WellFormed (t : Topology T) (next_id : ℕ) : Type 0 where
    pub rows : (i : ℕ) → get_or t.adjacency_list i [] ≡ incident t.links (pos i)
    pub ports : t.interfaces ≡ interfaces_of t.links
    pub slots : length t.nodes ≡ length t.adjacency_list
    pub numbers : Numbered 0 t.nodes
    pub ends : All (IsBetween (length t.adjacency_list)) t.links
    pub fresh : All (λ l. l.id < next_id) t.links
    pub distinct : Distinct t.links
