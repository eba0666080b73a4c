-- ===== src/Network/Topology/Attach.antt =====
-- A link that addLinkPtr of core/src/network/Topology.cpp puts into every list.
use gns.Base.{
  ℕ, suc, ◌<◌, ◌≡◌, inl, inr, refl, sym, ap, subst, ◌∙◌, ◌==◌, ==_iff, ◌||◌, true, false, List, [],
  ◌∷◌, ◌++◌, append_nil, length, All-append, All-weaken, get_or, get_or-update_at_same,
  get_or-update_at_other, length-update_at, update_at, if◌then◌else◌, Bool-cases, arith,
}
use gns.Base.Ints.{ℤ, pos, eq_int, to_size}
use gns.Network.Link.{Link}
use gns.Network.Node.{Interface, new_interface}
use gns.Network.Topology.{Topology, touches, attach, push_back}
use gns.Network.Topology.Spec.{incident, interfaces_of, IsBetween, WellFormed}
use gns.Network.Topology.Links.{incident-append, interfaces_of-append, Distinct-append}
use gns.Network.Topology.Growth.{IsBetween-mono}

push_row :
    (rows : List (List ℕ)) (k id i : ℕ)
    → k < length rows
    → get_or (update_at rows k (push_back id)) i []
      ≡ get_or rows i [] ++ (if k == i then id ∷ [] else [])
unfolding push_back
push_row rows k id i h = elim (Bool-cases (k == i)) [
  | inl same ↦ rw same (
      subst (λ (j : ℕ). get_or (update_at rows k (push_back id)) j [] ≡ get_or rows j [] ++ id ∷ [])
        ((==_iff k i).0 same) (get_or-update_at_same rows k (push_back id) [] h))
  | inr other ↦ rw other (
      get_or-update_at_other rows k i (push_back id) [] other ∙ sym (append_nil (get_or rows i [])))
]

apart : (a b i : ℕ) → (a == b) ≡ false → (a == i) ≡ true → (b == i) ≡ false
apart a b i d h = ground (arith, d, h)

attach_row :
    (rows : List (List ℕ)) (a b id i : ℕ)
    → a < length rows
    → b < length rows
    → (a == b) ≡ false
    → get_or (update_at (update_at rows a (push_back id)) b (push_back id)) i []
      ≡ get_or rows i [] ++ (if (a == i) || (b == i) then id ∷ [] else [])
attach_row rows a b id i ha hb d =
    let second =
      push_row (update_at rows a (push_back id)) b id i
        (omega (arith, hb, length-update_at rows a (push_back id))) in
    let first = push_row rows a id i ha in
    let chain = second ∙ ap (λ (r : List ℕ). r ++ (if b == i then id ∷ [] else [])) first in
    elim (Bool-cases (a == i)) [
      | inl same ↦ chain ∙ rw (same, apart a b i d same) (append_nil (get_or rows i [] ++ id ∷ []))
      | inr other ↦
          chain
          ∙ rw other (
              ap (λ (r : List ℕ). r ++ (if b == i then id ∷ [] else []))
                (append_nil (get_or rows i [])))
    ]

attach_row_int :
    (rows : List (List ℕ)) (x y : ℤ) (a b id i : ℕ)
    → x ≡ pos a
    → y ≡ pos b
    → a < length rows
    → b < length rows
    → eq_int x y ≡ false
    → get_or (update_at (update_at rows (to_size x) (push_back id)) (to_size y) (push_back id)) i []
      ≡ get_or rows i [] ++ (if eq_int x (pos i) || eq_int y (pos i) then id ∷ [] else [])
attach_row_int rows x y a b id i ex ey ha hb d =
    rw (ex, ey)
      (attach_row rows a b id i ha hb
        (sym (ap (λ r. eq_int r y) ex ∙ ap (λ r. eq_int (pos a) r) ey) ∙ d))

module _ {T : Type 0} where
  incident-one :
      (l : Link T) (node : ℤ)
      → incident (l ∷ []) node ≡ (if eq_int l.a node || eq_int l.b node then l.id ∷ [] else [])
  unfolding incident touches
  incident-one l node = refl

  length-attach :
      (t : Topology T) (l : Link T) → length (attach t l).adjacency_list ≡ length t.adjacency_list
  unfolding attach
  length-attach t l =
      length-update_at (update_at t.adjacency_list (to_size l.a) (push_back l.id)) (to_size l.b)
        (push_back l.id)
      ∙ length-update_at t.adjacency_list (to_size l.a) (push_back l.id)

  pub attach-WellFormed :
      (t : Topology T) (next_id : ℕ) (l : Link T)
      → WellFormed t next_id
      → IsBetween (length t.adjacency_list) l
      → l.id ≡ next_id
      → WellFormed (attach t l) (suc next_id)
  unfolding attach interfaces_of
  attach-WellFormed t next_id l w b number =
      let same = length-attach t l in
      let widen = λ (k : Link T) (h : IsBetween (length t.adjacency_list) k).
        IsBetween-mono (length t.adjacency_list) (length (attach t l).adjacency_list) k
          (omega (arith, same)) h in
      record {
        rows = λ i.
            attach_row_int t.adjacency_list l.a l.b b.a_at b.b_at l.id i b.a_is b.b_is b.a_in b.b_in
              b.differ
            ∙ ap
                (λ (r : List ℕ).
                  r ++ (if eq_int l.a (pos i) || eq_int l.b (pos i) then l.id ∷ [] else []))
                (w.rows i)
            ∙ ap (λ (r : List ℕ). incident t.links (pos i) ++ r) (sym (incident-one l (pos i)))
            ∙ sym (incident-append t.links (l ∷ []) (pos i));
        ports =
            ap (λ (r : List Interface). r ++ new_interface l.a l.id ∷ new_interface l.b l.id ∷ [])
              w.ports
            ∙ sym (interfaces_of-append t.links (l ∷ []));
        slots = w.slots ∙ sym same;
        numbers = w.numbers;
        ends =
            All-append (IsBetween (length (attach t l).adjacency_list)) t.links (l ∷ [])
              (All-weaken _ _ t.links widen w.ends) (widen l b, tt);
        fresh =
            All-append (λ k. k.id < suc next_id) t.links (l ∷ [])
              (All-weaken (λ k. k.id < next_id) _ t.links (λ k h. omega (arith, h)) w.fresh)
              (omega (arith, number), tt);
        distinct =
            Distinct-append t.links l w.distinct (
              All-weaken (λ k. k.id < next_id) _ t.links (λ k h. omega (arith, h, number)) w.fresh);
      }
