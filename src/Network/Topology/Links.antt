-- ===== src/Network/Topology/Links.antt =====
-- The adjacency lists and the interfaces as functions of the list of links: they follow the
-- appended and the removed links.
use gns.Base.{
  ℕ, ◌<◌, ◌≡◌, ◌⊎◌, inl, inr, refl, sym, ap, ◌==◌, Bool, true, false, List, [], ◌∷◌, ◌++◌, All,
  All-weaken, All-both, All-append, subst, All-remove_if, remove_if, Bool-cases, arith,
}
use gns.Base.Ints.{ℤ}
use gns.Network.Link.{Link}
use gns.Network.Node.{Interface, new_interface}
use gns.Network.Topology.{touches}
use gns.Network.Topology.Spec.{incident, interfaces_of, Distinct}

module _ {T : Type 0} where
  abbrev pub has_id : ℕ → Link T → Bool
  has_id k l = l.id == k

  pub same_id : (l : Link T) → has_id l.id l ≡ true
  same_id l = ground arith

  -- A link of the list with the number of `l` is `l`.
  abbrev pub Agrees : Link T → List (Link T) → Type 0
  Agrees l ls = All (λ k. (k ≡ l) ⊎ (has_id l.id k ≡ false)) ls

  pub Distinct-Agrees : (ls : List (Link T)) → Distinct ls → All (λ l. Agrees l ls) ls
  Distinct-Agrees [] d = tt
  Distinct-Agrees (x ∷ xs) d = (
    (inl refl, All-weaken (λ k. has_id x.id k ≡ false) _ xs (λ k h. inr h) d.0),
    All-weaken (λ l. (has_id x.id l ≡ false) × Agrees l xs) (λ l. Agrees l (x ∷ xs)) xs
        (λ l h. (inr (ground (arith, h.0)), h.1))
        (All-both (λ l. has_id x.id l ≡ false) (λ l. Agrees l xs) xs d.0 (Distinct-Agrees xs d.1)),
  )

  pub Distinct-remove_if :
      (p : Link T → Bool) (ls : List (Link T)) → Distinct ls → Distinct (remove_if p ls)
  Distinct-remove_if p [] d = tt
  Distinct-remove_if p (x ∷ xs) d = elim (Bool-cases (p x)) [
    | inl h ↦ rw h (Distinct-remove_if p xs d.1)
    | inr h ↦ rw h (All-remove_if _ p xs d.0, Distinct-remove_if p xs d.1)
  ]

  pub Distinct-append :
      (ls : List (Link T)) (l : Link T)
      → Distinct ls
      → All (λ k. k.id < l.id) ls
      → Distinct (ls ++ l ∷ [])
  Distinct-append [] l d h = (tt, tt)
  Distinct-append (x ∷ xs) l d h = (
    All-append (λ k. has_id x.id k ≡ false) xs (l ∷ []) d.0 (ground (arith, h.0), tt),
    Distinct-append xs l d.1 h.1,
  )

  pub incident-append :
      (xs ys : List (Link T)) (node : ℤ)
      → incident (xs ++ ys) node ≡ incident xs node ++ incident ys node
  unfolding incident
  incident-append [] ys node = refl
  incident-append (x ∷ xs) ys node = elim (Bool-cases (touches node x)) [
    | inl h ↦ rw h (ap (λ (r : List ℕ). x.id ∷ r) (incident-append xs ys node))
    | inr h ↦ rw h (incident-append xs ys node)
  ]

  pub incident-remove_if :
      (k : ℕ) (ls : List (Link T)) (node : ℤ)
      → incident (remove_if (has_id k) ls) node ≡ remove_if (λ id. id == k) (incident ls node)
  unfolding incident
  incident-remove_if k [] node = refl
  incident-remove_if k (x ∷ xs) node = elim (Bool-cases (has_id k x)) [
    | inl h ↦ elim (Bool-cases (touches node x)) [
      | inl t ↦ rw (h, t) (rw h (incident-remove_if k xs node))
      | inr t ↦ rw (h, t) (incident-remove_if k xs node)
    ]
    | inr h ↦ elim (Bool-cases (touches node x)) [
      | inl t ↦ rw (h, t) (rw h (ap (λ (r : List ℕ). x.id ∷ r) (incident-remove_if k xs node)))
      | inr t ↦ rw (h, t) (incident-remove_if k xs node)
    ]
  ]

  -- The number of a link that does not touch the node is not in its list.
  pub incident-kept :
      (l : Link T) (ls : List (Link T)) (node : ℤ)
      → Agrees l ls
      → touches node l ≡ false
      → incident (remove_if (has_id l.id) ls) node ≡ incident ls node
  unfolding incident
  incident-kept l [] node a h = refl
  incident-kept l (x ∷ xs) node a h = elim a.0 [
    | inl e ↦
        rw
          (
            subst (λ (y : Link T). has_id l.id y ≡ true) (sym e) (same_id l),
            subst (λ (y : Link T). touches node y ≡ false) (sym e) h,
          )
          (incident-kept l xs node a.1 h)
    | inr n ↦ elim (Bool-cases (touches node x)) [
      | inl t ↦ rw (n, t) (ap (λ (r : List ℕ). x.id ∷ r) (incident-kept l xs node a.1 h))
      | inr t ↦ rw (n, t) (incident-kept l xs node a.1 h)
    ]
  ]

  pub interfaces_of-append :
      (xs ys : List (Link T)) → interfaces_of (xs ++ ys) ≡ interfaces_of xs ++ interfaces_of ys
  unfolding interfaces_of
  interfaces_of-append [] ys = refl
  interfaces_of-append (x ∷ xs) ys =
      ap (λ (r : List Interface). new_interface x.a x.id ∷ new_interface x.b x.id ∷ r)
        (interfaces_of-append xs ys)

  pub interfaces_of-remove_if :
      (k : ℕ) (ls : List (Link T))
      → interfaces_of (remove_if (has_id k) ls) ≡ remove_if (λ i. i.link_id == k) (interfaces_of ls)
  unfolding interfaces_of new_interface
  interfaces_of-remove_if k [] = refl
  interfaces_of-remove_if k (x ∷ xs) = elim (Bool-cases (has_id k x)) [
    | inl h ↦ rw h (interfaces_of-remove_if k xs)
    | inr h ↦ rw h (
        ap (λ (r : List Interface). new_interface x.a x.id ∷ new_interface x.b x.id ∷ r)
          (interfaces_of-remove_if k xs))
  ]
