-- ===== src/Network/Topology/Deletion.antt =====
-- removeNode and removeLink of core/src/network/Topology.cpp.
use gns.Base.{
  ℕ, zero, suc, ◌<◌, ◌≡◌, inl, inr, refl, sym, subst, ◌∙◌, ◌==◌, ◌||◌, not, Bool, true, false, List,
  [], ◌∷◌, length, All, All-weaken, All-both, All-remove_if, get_or, get_or-update_at_same,
  get_or-update_at_other, update_at, length-update_at, remove_if, remove_if-agree, remove_if-both,
  remove_if-false, Bool-cases, ==_iff, arith,
}
use gns.Base.Ints.{ℤ, pos}
use gns.Network.Link.{Link}
use gns.Network.Node.{Node, set_active}
use gns.Network.Topology.{Topology, touches, remove_pointer, remove_pointers}
use gns.Network.Topology.Spec.{incident, Distinct, IsBetween, Numbered, WellFormed}
use gns.Network.Topology.Links.{has_id, Agrees}
use gns.Network.Topology.Removal.{WellFormed-without, length-detached, IsBetween-size}

module _ {T : Type 0} where
  -- Whether a list has a link with the number of `l`.
  abbrev in_ids : List (Link T) → Link T → Bool
  in_ids [] l = false
  in_ids (r ∷ rs) l = has_id r.id l || in_ids rs l

  pub record Removed (t t' : Topology T) (next_id : ℕ) (rs : List (Link T)) : Type 0 where
    pub well : WellFormed t' next_id
    pub links_left : t'.links ≡ remove_if (in_ids rs) t.links
    pub nodes_same : t'.nodes ≡ t.nodes
    pub size_same : length t'.adjacency_list ≡ length t.adjacency_list

  pub remove_pointers-Removed :
      (rs : List (Link T)) (t : Topology T) (next_id : ℕ)
      → WellFormed t next_id
      → All (λ r. Agrees r t.links) rs
      → Removed t (remove_pointers t rs) next_id rs
  unfolding remove_pointers remove_pointer
  remove_pointers-Removed [] t next_id w agree = record {
    well = w;
    links_left = sym (remove_if-false t.links);
    nodes_same = refl;
    size_same = refl;
  }
  remove_pointers-Removed (r ∷ rs) t next_id w agree =
      let rest =
        remove_pointers-Removed rs (remove_pointer t r) next_id
          (WellFormed-without t next_id r w agree.0)
          (All-weaken (λ s. Agrees s t.links) _ rs (λ s h. All-remove_if _ (has_id r.id) t.links h)
            agree.1) in
      record {
        well = rest.well;
        links_left = rest.links_left ∙ remove_if-both (has_id r.id) (in_ids rs) t.links;
        nodes_same = rest.nodes_same;
        size_same = rest.size_same ∙ length-detached r t.adjacency_list;
      }

  abbrev pub touching : ℤ → List (Link T) → List (Link T)
  touching node ls = remove_if (λ l. not (touches node l)) ls

  in_ids-none :
      (l : Link T) (rs : List (Link T)) → All (λ r. has_id l.id r ≡ false) rs → in_ids rs l ≡ false
  in_ids-none l [] h = refl
  in_ids-none l (r ∷ rs) h = rw (in_ids-none l rs h.1) (ground (arith, h.0))

  touching_head :
      (node : ℤ) (x : Link T) (xs : List (Link T))
      → touches node x ≡ true
      → touching node (x ∷ xs) ≡ x ∷ touching node xs
  touching_head node x xs h = rw h refl

  touching_tail :
      (node : ℤ) (x : Link T) (xs : List (Link T))
      → touches node x ≡ false
      → touching node (x ∷ xs) ≡ touching node xs
  touching_tail node x xs h = rw h refl

  -- Among distinct links, the number of a link is one of those that touch a node when the link touches it.
  in_ids-touching :
      (node : ℤ) (ls : List (Link T))
      → Distinct ls
      → All (λ l. in_ids (touching node ls) l ≡ touches node l) ls
  in_ids-touching node [] d = tt
  in_ids-touching node (x ∷ xs) d = elim (Bool-cases (touches node x)) [
    | inl h ↦
        subst (λ ts. All (λ l. in_ids ts l ≡ touches node l) (x ∷ xs))
          (sym (touching_head node x xs h))
          (
            rw h (ground arith),
            All-weaken
                (λ l. (has_id x.id l ≡ false) × (in_ids (touching node xs) l ≡ touches node l))
                (λ l. (has_id x.id l || in_ids (touching node xs) l) ≡ touches node l) xs
                (λ l e. rw e.0 e.1) (All-both _ _ xs d.0 (in_ids-touching node xs d.1)),
          )
    | inr h ↦
        subst (λ ts. All (λ l. in_ids ts l ≡ touches node l) (x ∷ xs))
          (sym (touching_tail node x xs h))
          (
            rw h (
                in_ids-none x (touching node xs)
                  (All-remove_if _ (λ l. not (touches node l)) xs d.0)),
            in_ids-touching node xs d.1,
          )
  ]

  pub removed_touching :
      (node : ℤ) (ls : List (Link T))
      → Distinct ls
      → remove_if (in_ids (touching node ls)) ls ≡ remove_if (touches node) ls
  removed_touching node ls d = remove_if-agree _ (touches node) ls (in_ids-touching node ls d)

  incident-none :
      (node : ℤ) (ls : List (Link T)) → All (λ l. touches node l ≡ false) ls → incident ls node ≡ []
  unfolding incident
  incident-none node [] h = refl
  incident-none node (x ∷ xs) h = rw h.0 (incident-none node xs h.1)

Numbered-update :
    (first i : ℕ) (ns : List Node) (active : Bool)
    → Numbered first ns
    → Numbered first (update_at ns i (λ n. set_active n active))
unfolding set_active
Numbered-update first i [] active h = tt
Numbered-update first zero (n ∷ ns) active h = h
Numbered-update first (suc i) (n ∷ ns) active h = (h.0, Numbered-update (suc first) i ns active h.1)

module _ {T : Type 0} where
  -- The row of a node without links is emptied, which it was.
  pub WellFormed-cleared :
      (t : Topology T) (next_id i : ℕ) (active : Bool)
      → WellFormed t next_id
      → i < length t.adjacency_list
      → All (λ l. touches (pos i) l ≡ false) t.links
      → WellFormed
          (record t {
            adjacency_list = update_at t.adjacency_list i (λ row. []);
            nodes = update_at t.nodes i (λ n. set_active n active);
          })
          next_id
  WellFormed-cleared t next_id i active w h none_touch = record {
    rows = λ j. elim (Bool-cases (i == j)) [
      | inl same ↦
          subst
            (λ (k : ℕ).
              get_or (update_at t.adjacency_list i (λ row. [])) k [] ≡ incident t.links (pos k))
            ((==_iff i j).0 same)
            (get_or-update_at_same t.adjacency_list i (λ row. []) [] h
              ∙ sym (incident-none (pos i) t.links none_touch))
      | inr other ↦ get_or-update_at_other t.adjacency_list i j (λ row. []) [] other ∙ w.rows j
    ];
    ports = w.ports;
    slots = length-update_at t.nodes i _ ∙ w.slots ∙ sym (length-update_at t.adjacency_list i _);
    numbers = Numbered-update 0 i t.nodes active w.numbers;
    ends =
        All-weaken (IsBetween (length t.adjacency_list)) _ t.links
          (λ k b. IsBetween-size _ _ k (sym (length-update_at t.adjacency_list i _)) b) w.ends;
    fresh = w.fresh;
    distinct = w.distinct;
  }
