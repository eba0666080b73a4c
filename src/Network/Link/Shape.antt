-- ===== src/Network/Link/Shape.antt =====
-- What the calls of core/src/network/Link.cpp leave as it is.
use gns.Base.{ℕ, ◌≡◌, inl, inr, List, [], ◌∷◌, ◌++◌, Bool-cases, refl, sym, subst}
use gns.Base.Ints.{ℤ}
use gns.Base.Floats.{Float, float_max}
use gns.Network.Link.{
  LinkMode, full_duplex, half_duplex, simplex, DirectionSlot, slot_ab, slot_ba, slot_shared,
  slot_invalid, LinkTransmission, Link, get_direction_slot, get_queue_slot,
}
use gns.Network.Link.Queue.{
  can_queue, queue_for_slot, set_queue_for_slot, transmission, enqueue_transmission, erase_first,
  same_transmission, dequeue_transmission, is_invalid,
}
use gns.Network.Link.Medium.{reserve_transmission, reserve_in}

module _ {T : Type 0} (f : Float T) where
  -- What no call changes.
  abbrev pub shape : Link T → ℕ × ℤ × ℤ × ℕ
  shape l = (l.id, l.a, l.b, l.queue_capacity)

  shape-set :
      (l : Link T) (s : DirectionSlot) (q : List (LinkTransmission T))
      → shape (set_queue_for_slot l s q) ≡ shape l
  unfolding set_queue_for_slot
  shape-set l slot_ab q = refl
  shape-set l slot_ba q = refl
  shape-set l slot_shared q = refl
  shape-set l slot_invalid q = refl

  pub shape-enqueue :
      (l : Link T) (from to : ℤ) (departure arrival : T)
      → shape (enqueue_transmission l from to departure arrival) ≡ shape l
  unfolding enqueue_transmission
  shape-enqueue l from to d a = elim (Bool-cases (can_queue l from to)) [
    | inl h ↦ rw h (
        shape-set l (get_queue_slot l from to)
          (queue_for_slot l (get_queue_slot l from to) ++ transmission from to d a ∷ []))
    | inr h ↦ rw h refl
  ]

  pub shape-dequeue :
      (l : Link T) (from to : ℤ) (departure arrival : T)
      → shape (dequeue_transmission f l from to departure arrival).0 ≡ shape l
  unfolding dequeue_transmission
  shape-dequeue l from to d a = elim (Bool-cases (is_invalid (get_queue_slot l from to))) [
    | inl h ↦ rw h refl
    | inr h ↦ rw h (
        shape-set l (get_queue_slot l from to)
          (erase_first f (same_transmission f from to d a)
            (queue_for_slot l (get_queue_slot l from to))).0)
  ]

  abbrev pub busy_until : Link T → T → T → T → Link T
  busy_until l x y z = record l { busy_until_ab = x; busy_until_ba = y; busy_until_shared = z }

  -- A reservation changes only the times.
  reserve_in-kept :
      (l : Link T) (t : T) (m : LinkMode) (s : DirectionSlot)
      → (x : T) × (y : T) × (z : T) × (reserve_in f l t m s ≡ busy_until l x y z)
  unfolding reserve_in
  reserve_in-kept l t full_duplex slot_ab =
      (float_max f l.busy_until_ab t, l.busy_until_ba, l.busy_until_shared, refl)
  reserve_in-kept l t full_duplex slot_ba =
      (l.busy_until_ab, float_max f l.busy_until_ba t, l.busy_until_shared, refl)
  reserve_in-kept l t full_duplex slot_shared =
      (l.busy_until_ab, l.busy_until_ba, l.busy_until_shared, refl)
  reserve_in-kept l t full_duplex slot_invalid =
      (l.busy_until_ab, l.busy_until_ba, l.busy_until_shared, refl)
  reserve_in-kept l t half_duplex slot_ab =
      (l.busy_until_ab, l.busy_until_ba, float_max f l.busy_until_shared t, refl)
  reserve_in-kept l t half_duplex slot_ba =
      (l.busy_until_ab, l.busy_until_ba, float_max f l.busy_until_shared t, refl)
  reserve_in-kept l t half_duplex slot_shared =
      (l.busy_until_ab, l.busy_until_ba, float_max f l.busy_until_shared t, refl)
  reserve_in-kept l t half_duplex slot_invalid =
      (l.busy_until_ab, l.busy_until_ba, l.busy_until_shared, refl)
  reserve_in-kept l t simplex slot_ab =
      (float_max f l.busy_until_ab t, l.busy_until_ba, l.busy_until_shared, refl)
  reserve_in-kept l t simplex slot_ba =
      (l.busy_until_ab, l.busy_until_ba, l.busy_until_shared, refl)
  reserve_in-kept l t simplex slot_shared =
      (l.busy_until_ab, l.busy_until_ba, l.busy_until_shared, refl)
  reserve_in-kept l t simplex slot_invalid =
      (l.busy_until_ab, l.busy_until_ba, l.busy_until_shared, refl)

  -- An invariant that does not look at the times outlives a reservation.
  pub reserve-keeps :
      (P : Link T → Type 0) (l : Link T) (from to : ℤ) (t : T)
      → ((x y z : T) → P (busy_until l x y z))
      → P (reserve_transmission f l from to t)
  unfolding reserve_transmission
  reserve-keeps P l from to t h =
      let (x, y, z, e) = reserve_in-kept l t l.mode (get_direction_slot l from to) in
      subst P (sym e) (h x y z)

  -- A reservation leaves the number, the queues and their space.
  module _ (l : Link T) (from to : ℤ) (t : T) where
    abbrev after : Link T
    after = reserve_transmission f l from to t

    pub id-reserve : after.id ≡ l.id
    id-reserve = reserve-keeps (λ k. k.id ≡ l.id) l from to t (λ x y z. refl)

    pub queues-reserve :
        (after.queue_ab ≡ l.queue_ab)
        × (after.queue_ba ≡ l.queue_ba)
        × (after.queue_shared ≡ l.queue_shared)
    queues-reserve =
        reserve-keeps
          (λ k.
            (k.queue_ab ≡ l.queue_ab)
            × (k.queue_ba ≡ l.queue_ba)
            × (k.queue_shared ≡ l.queue_shared))
          l from to t (λ x y z. (refl, refl, refl))

    pub can_queue-reserve : (p q : ℤ) → can_queue after p q ≡ can_queue l p q
    unfolding can_queue get_queue_slot get_direction_slot
    can_queue-reserve p q =
        reserve-keeps (λ k. can_queue k p q ≡ can_queue l p q) l from to t (λ x y z. refl)

    by_slot :
        (x y z : T) (s : DirectionSlot) → queue_for_slot (busy_until l x y z) s ≡ queue_for_slot l s
    unfolding queue_for_slot
    by_slot x y z slot_ab = refl
    by_slot x y z slot_ba = refl
    by_slot x y z slot_shared = refl
    by_slot x y z slot_invalid = refl

    pub queue-reserve :
        (p q : ℤ)
        → queue_for_slot after (get_queue_slot after p q) ≡ queue_for_slot l (get_queue_slot l p q)
    unfolding get_queue_slot get_direction_slot
    queue-reserve p q =
        reserve-keeps
          (λ k. queue_for_slot k (get_queue_slot k p q) ≡ queue_for_slot l (get_queue_slot l p q)) l
          from to t (λ x y z. by_slot x y z (get_queue_slot l p q))
