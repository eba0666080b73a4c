-- ===== src/Network/Topology/Removal.antt =====
-- A link that leaves core/src/network/Topology.cpp leaves every list.
use gns.Base.{
  ℕ, zero, suc, ◌≡◌, ◌⊎◌, inl, inr, refl, sym, ap, subst, ◌∙◌, ◌==◌, ◌&&◌, not, ltb, false, List,
  [], ◌∷◌, length, All-weaken, All-remove_if, ==_iff, get_or, get_or-update_at_same,
  get_or-update_at_other, update_at, length-update_at, remove_if, remove_if-twice, Bool-cases,
  ltb→lt, arith,
}
use gns.Base.Ints.{ℤ, pos, negsuc, eq_int, is_negative, to_size}
use gns.Network.Link.{Link}
use gns.Network.Node.{Interface}
use gns.Network.Topology.{Topology, touches, detach_at, detach_interfaces}
use gns.Network.Topology.Spec.{incident, IsBetween, WellFormed}
use gns.Network.Topology.Links.{
  has_id, Agrees, Distinct-remove_if, incident-remove_if, incident-kept, interfaces_of-remove_if,
}

abbrev erased : ℕ → List ℕ → List ℕ
erased k row = remove_if (λ id. id == k) row

pub length-detach_at :
    (rows : List (List ℕ)) (node : ℤ) (k : ℕ) → length (detach_at rows node k) ≡ length rows
unfolding detach_at
length-detach_at rows node k =
    elim (Bool-cases (not (is_negative node) && ltb (to_size node) (length rows))) [
      | inl h ↦ rw h (length-update_at rows (to_size node) (erased k))
      | inr h ↦ rw h refl
    ]

-- A row of a node that is out of range is empty.
get_or-out : (rows : List (List ℕ)) (i : ℕ) → ltb i (length rows) ≡ false → get_or rows i [] ≡ []
get_or-out [] i h = refl
get_or-out (x ∷ rows) zero h = ground arith
get_or-out (x ∷ rows) (suc i) h = get_or-out rows i (ground (arith, h))

-- The row of a node after a pointer was erased at `node`.
detach_row :
    (rows : List (List ℕ)) (node : ℤ) (k i : ℕ)
    → (get_or (detach_at rows node k) i [] ≡ erased k (get_or rows i []))
      ⊎ ((eq_int node (pos i) ≡ false) × (get_or (detach_at rows node k) i [] ≡ get_or rows i []))
unfolding detach_at
detach_row rows (negsuc n) k i = inr (refl, refl)
detach_row rows (pos n) k i = elim (Bool-cases (n == i)) [
  | inl same ↦ inl (elim (Bool-cases (ltb n (length rows))) [
    | inl h ↦ rw h (
        subst (λ (j : ℕ). get_or (update_at rows n (erased k)) j [] ≡ erased k (get_or rows j []))
          ((==_iff n i).0 same)
          (get_or-update_at_same rows n (erased k) [] (ltb→lt n (length rows) h)))
    | inr h ↦ rw h (
        rw
          (get_or-out rows i
            (subst (λ (j : ℕ). ltb j (length rows) ≡ false) ((==_iff n i).0 same) h))
          refl)
  ])
  | inr other ↦ inr (
    other,
    elim (Bool-cases (ltb n (length rows))) [
      | inl h ↦ rw h (get_or-update_at_other rows n i (erased k) [] other)
      | inr h ↦ rw h refl
    ],
  )
]

module _ {T : Type 0} where
  untouched :
      (l : Link T) (i : ℕ)
      → eq_int l.a (pos i) ≡ false
      → eq_int l.b (pos i) ≡ false
      → touches (pos i) l ≡ false
  unfolding touches
  untouched l i h k = rw (h, k) refl

  -- Both ends of a link erased: the row of a node is that of the remaining links.
  row_after :
      (l : Link T) (ls : List (Link T)) (rows : List (List ℕ)) (i : ℕ)
      → Agrees l ls
      → get_or rows i [] ≡ incident ls (pos i)
      → get_or (detach_at (detach_at rows l.a l.id) l.b l.id) i []
        ≡ incident (remove_if (has_id l.id) ls) (pos i)
  row_after l ls rows i agree row =
      let gone = incident-remove_if l.id ls (pos i) in
      elim (detach_row rows l.a l.id i) [
        | inl first ↦ elim (detach_row (detach_at rows l.a l.id) l.b l.id i) [
          | inl second ↦
              second
              ∙ ap (erased l.id) first
              ∙ remove_if-twice _ (get_or rows i [])
              ∙ ap (erased l.id) row
              ∙ sym gone
          | inr second ↦ second.1 ∙ first ∙ ap (erased l.id) row ∙ sym gone
        ]
        | inr first ↦ elim (detach_row (detach_at rows l.a l.id) l.b l.id i) [
          | inl second ↦ second ∙ ap (erased l.id) (first.1 ∙ row) ∙ sym gone
          | inr second ↦
              second.1
              ∙ first.1
              ∙ row
              ∙ sym (incident-kept l ls (pos i) agree (untouched l i first.0 second.0))
        ]
      ]

  pub IsBetween-size : (m n : ℕ) (l : Link T) → m ≡ n → IsBetween m l → IsBetween n l
  IsBetween-size m n l e h = subst (λ (k : ℕ). IsBetween k l) e h

  pub length-detached :
      (l : Link T) (rows : List (List ℕ))
      → length (detach_at (detach_at rows l.a l.id) l.b l.id) ≡ length rows
  length-detached l rows =
      length-detach_at (detach_at rows l.a l.id) l.b l.id ∙ length-detach_at rows l.a l.id

  -- Any change that leaves the nodes, and erases one link everywhere.
  pub WellFormed-without :
      (t : Topology T) (next_id : ℕ) (l : Link T)
      → WellFormed t next_id
      → Agrees l t.links
      → WellFormed
          (record t {
            links = remove_if (has_id l.id) t.links;
            adjacency_list = detach_at (detach_at t.adjacency_list l.a l.id) l.b l.id;
            interfaces = detach_interfaces t.interfaces l.id;
          })
          next_id
  unfolding detach_interfaces
  WellFormed-without t next_id l w agree =
      let same = length-detached l t.adjacency_list in
      record {
        rows = λ i. row_after l t.links t.adjacency_list i agree (w.rows i);
        ports =
            ap (remove_if (λ (i : Interface). i.link_id == l.id)) w.ports
            ∙ sym (interfaces_of-remove_if l.id t.links);
        slots = w.slots ∙ sym same;
        numbers = w.numbers;
        ends =
            All-weaken (IsBetween (length t.adjacency_list)) _ (remove_if (has_id l.id) t.links)
              (λ k h. IsBetween-size _ _ k (sym same) h)
              (All-remove_if _ (has_id l.id) t.links w.ends);
        fresh = All-remove_if _ (has_id l.id) t.links w.fresh;
        distinct = Distinct-remove_if (has_id l.id) t.links w.distinct;
      }
