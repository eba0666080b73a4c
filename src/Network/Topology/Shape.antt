-- ===== src/Network/Topology/Shape.antt =====
-- Changes of the links of core/src/network/Topology.cpp that leave their numbers and ends: setLinkUp
-- and setGlobalLossProb.
use gns.Base.{
  ℕ, ◌<◌, ◌≡◌, ◌||◌, refl, sym, ap, subst, ◌∙◌, ◌==◌, Bool, false, Option, none, some, inl, inr,
  List, [], ◌∷◌, map, length, All, Bool-cases,
}
use gns.Base.Ints.{ℤ, pos, eq_int}
use gns.Base.Floats.{Float}
use gns.Network.Link.{Link, set_loss_prob}
use gns.Network.Node.{Interface, new_interface}
use gns.Network.Topology.{Topology, touches, set_first_up, set_link_up, set_global_loss_prob}
use gns.Network.Topology.Spec.{incident, interfaces_of, Distinct, IsBetween, WellFormed}

-- The object after a call: the old one if the call throws.
abbrev pub unless_thrown {ℓ} : {A : Type ℓ} → A → Option A → A
unless_thrown old none = old
unless_thrown old (some x) = x

module _ {T : Type 0} where
  abbrev identity : Link T → ℕ × ℤ × ℤ
  identity l = (l.id, l.a, l.b)

  -- The same links but for what no list depends on.
  pub data Alike : List (Link T) → List (Link T) → Type 0 where
    nil : Alike [] []
    cons :
        {x y : Link T} {xs ys : List (Link T)}
        → identity y ≡ identity x
        → Alike xs ys
        → Alike (x ∷ xs) (y ∷ ys)

  touches-identity :
      (x y : Link T) (node : ℤ) → identity y ≡ identity x → touches node y ≡ touches node x
  unfolding touches
  touches-identity x y node e = ap (λ (r : ℕ × ℤ × ℤ). eq_int r.1 node || eq_int r.2 node) e

  incident-Alike :
      (xs ys : List (Link T)) (node : ℤ) → Alike xs ys → incident ys node ≡ incident xs node
  unfolding incident
  incident-Alike _ _ node nil = refl
  incident-Alike _ _ node (cons {x} {y} {xs} {ys} e h) =
      let same = ap (λ (r : ℕ × ℤ × ℤ). r.0) e in
      rw (touches-identity x y node e, same, incident-Alike xs ys node h) refl

  interfaces_of-Alike : (xs ys : List (Link T)) → Alike xs ys → interfaces_of ys ≡ interfaces_of xs
  unfolding interfaces_of
  interfaces_of-Alike _ _ nil = refl
  interfaces_of-Alike _ _ (cons {x} {y} {xs} {ys} e h) =
      subst
        (λ (is : List Interface).
          new_interface y.a y.id ∷ new_interface y.b y.id ∷ interfaces_of ys
          ≡ new_interface x.a x.id ∷ new_interface x.b x.id ∷ is)
        (interfaces_of-Alike xs ys h)
        (ap (λ (r : ℕ × ℤ × ℤ). new_interface r.1 r.0 ∷ new_interface r.2 r.0 ∷ interfaces_of ys) e)

  -- A property of number and ends passes to the changed links.
  All-Alike :
      (P : ℕ × ℤ × ℤ → Type 0) (xs ys : List (Link T))
      → Alike xs ys
      → All (λ l. P (identity l)) xs
      → All (λ l. P (identity l)) ys
  All-Alike P _ _ nil p = tt
  All-Alike P _ _ (cons {x} {y} {xs} {ys} e h) p = (subst P (sym e) p.0, All-Alike P xs ys h p.1)

  Distinct-Alike : (xs ys : List (Link T)) → Alike xs ys → Distinct xs → Distinct ys
  Distinct-Alike _ _ nil d = tt
  Distinct-Alike _ _ (cons {x} {y} {xs} {ys} e h) d = (
    subst (λ (r : ℕ × ℤ × ℤ). All (λ k. (k.id == r.0) ≡ false) ys) (sym e)
        (All-Alike (λ r. (r.0 == x.id) ≡ false) xs ys h d.0),
    Distinct-Alike xs ys h d.1,
  )

  abbrev with_links : Topology T → List (Link T) → Topology T
  with_links t links = record t { links = links }

  IsBetween-Alike :
      (n : ℕ) (xs ys : List (Link T)) → Alike xs ys → All (IsBetween n) xs → All (IsBetween n) ys
  IsBetween-Alike n _ _ nil p = tt
  IsBetween-Alike n _ _ (cons {x} {y} {xs} {ys} e h) p =
      (between e p.0, IsBetween-Alike n xs ys h p.1)
    where
      between : {x y : Link T} → identity y ≡ identity x → IsBetween n x → IsBetween n y
      between {x} {y} e b = record {
        a_at = b.a_at;
        a_is = ap (λ (r : ℕ × ℤ × ℤ). r.1) e ∙ b.a_is;
        a_in = b.a_in;
        b_at = b.b_at;
        b_is = ap (λ (r : ℕ × ℤ × ℤ). r.2) e ∙ b.b_is;
        b_in = b.b_in;
        differ = ap (λ (r : ℕ × ℤ × ℤ). eq_int r.1 r.2) e ∙ b.differ;
      }

  WellFormed-Alike :
      (t : Topology T) (next_id : ℕ) (links : List (Link T))
      → Alike t.links links
      → WellFormed t next_id
      → WellFormed (with_links t links) next_id
  WellFormed-Alike t next_id links h w = record {
    rows = λ i. w.rows i ∙ sym (incident-Alike t.links links (pos i) h);
    ports = w.ports ∙ sym (interfaces_of-Alike t.links links h);
    slots = w.slots;
    numbers = w.numbers;
    ends = IsBetween-Alike (length t.adjacency_list) t.links links h w.ends;
    fresh = All-Alike (λ r. r.0 < next_id) t.links links h w.fresh;
    distinct = Distinct-Alike t.links links h w.distinct;
  }

  Alike-refl : (ls : List (Link T)) → Alike ls ls
  Alike-refl [] = nil
  Alike-refl (l ∷ ls) = cons refl (Alike-refl ls)

  set_first_up-Alike :
      (p : Link T → Bool) (up : Bool) (ls : List (Link T)) → Alike ls (set_first_up p up ls).0
  unfolding set_first_up
  set_first_up-Alike p up [] = nil
  set_first_up-Alike p up (l ∷ ls) = elim (Bool-cases (p l)) [
    | inl h ↦ rw h (cons refl (Alike-refl ls))
    | inr h ↦ rw h (cons refl (set_first_up-Alike p up ls))
  ]

  pub set_link_up-WellFormed :
      (t : Topology T) (next_id : ℕ) (a b : ℤ) (up : Bool)
      → WellFormed t next_id
      → WellFormed (set_link_up t a b up).0 next_id
  unfolding set_link_up
  set_link_up-WellFormed t next_id a b up w =
      WellFormed-Alike t next_id _ (set_first_up-Alike _ up t.links) w

module _ {T : Type 0} (f : Float T) where
  map_loss-Alike : (value : T) (ls : List (Link T)) → Alike ls (map (λ l. set_loss_prob l value) ls)
  unfolding set_loss_prob
  map_loss-Alike value [] = nil
  map_loss-Alike value (l ∷ ls) = cons refl (map_loss-Alike value ls)

  -- A call that throws leaves the topology.
  pub set_global_loss_prob-WellFormed :
      (t : Topology T) (next_id : ℕ) (value : T)
      → WellFormed t next_id
      → WellFormed (unless_thrown t (set_global_loss_prob f t value)) next_id
  unfolding set_global_loss_prob
  set_global_loss_prob-WellFormed t next_id value w =
      elim (Bool-cases (f.lt value (f.literal 0 1) || f.lt (f.literal 1 1) value)) [
        | inl h ↦ rw (h, set_global_loss_prob) w
        | inr h ↦
            rw (h, set_global_loss_prob)
              (WellFormed-Alike t next_id _ (map_loss-Alike value t.links) w)
      ]
