-- ===== src/Network/Link/Capacity.antt =====
-- The capacity and the directions of the queues of core/src/network/Link.cpp.
use gns.Base.{
  ◌≤◌, ◌<◌, ◌≡◌, ◌⊎◌, inl, inr, true, false, List, [], ◌∷◌, ◌++◌, length, All, All-append,
  length-append, Bool-cases, refl, ◌&&◌, arith,
}
use gns.Base.Ints.{ℤ, eq_int, eq_int-both}
use gns.Network.Link.{
  LinkMode, full_duplex, half_duplex, simplex, DirectionSlot, slot_ab, slot_ba, slot_shared,
  slot_invalid, LinkTransmission, Link, get_direction_slot, mode_slot, get_queue_slot,
}
use gns.Network.Link.Queue.{
  can_queue, has_space, queue_for_slot, set_queue_for_slot, transmission, enqueue_transmission,
}

module _ {T : Type 0} where
  abbrev Joins : ℤ → ℤ → LinkTransmission T → Type 0
  Joins a b e = (e.from ≡ a) × (e.to ≡ b)

  -- The entries of a slot's queue go in the slot's direction.
  abbrev pub Directed : ℤ → ℤ → DirectionSlot → LinkTransmission T → Type 0
  Directed a b slot_ab e = Joins a b e
  Directed a b slot_ba e = Joins b a e
  Directed a b slot_shared e = Joins a b e ⊎ Joins b a e
  Directed a b slot_invalid e = Joins a b e ⊎ Joins b a e

  pub record Fits (l : Link T) (s : DirectionSlot) (q : List (LinkTransmission T)) : Type 0 where
    pub bounded : length q ≤ l.queue_capacity
    pub directed : All (Directed l.a l.b s) q

  -- Each queue within the capacity, with the entries of its own direction only.
  pub record WellQueued (l : Link T) : Type 0 where
    pub ab : Fits l slot_ab l.queue_ab
    pub ba : Fits l slot_ba l.queue_ba
    pub shared : Fits l slot_shared l.queue_shared

  pub Fits-queue : (l : Link T) (s : DirectionSlot) → WellQueued l → Fits l s (queue_for_slot l s)
  unfolding queue_for_slot
  Fits-queue l slot_ab w = w.ab
  Fits-queue l slot_ba w = w.ba
  Fits-queue l slot_shared w = w.shared
  Fits-queue l slot_invalid w = record { bounded = w.shared.bounded; directed = w.shared.directed }

  pub WellQueued-set :
      (l : Link T) (s : DirectionSlot) (q : List (LinkTransmission T))
      → WellQueued l
      → Fits l s q
      → WellQueued (set_queue_for_slot l s q)
  unfolding set_queue_for_slot
  WellQueued-set l slot_ab q w h = record {
    ab = record { bounded = h.bounded; directed = h.directed };
    ba = record { bounded = w.ba.bounded; directed = w.ba.directed };
    shared = record { bounded = w.shared.bounded; directed = w.shared.directed };
  }
  WellQueued-set l slot_ba q w h = record {
    ab = record { bounded = w.ab.bounded; directed = w.ab.directed };
    ba = record { bounded = h.bounded; directed = h.directed };
    shared = record { bounded = w.shared.bounded; directed = w.shared.directed };
  }
  WellQueued-set l slot_shared q w h = record {
    ab = record { bounded = w.ab.bounded; directed = w.ab.directed };
    ba = record { bounded = w.ba.bounded; directed = w.ba.directed };
    shared = record { bounded = h.bounded; directed = h.directed };
  }
  WellQueued-set l slot_invalid q w h = record {
    ab = record { bounded = w.ab.bounded; directed = w.ab.directed };
    ba = record { bounded = w.ba.bounded; directed = w.ba.directed };
    shared = record { bounded = h.bounded; directed = h.directed };
  }

  has_space-lt :
      (l : Link T) (m : LinkMode) (d : DirectionSlot)
      → has_space l m (mode_slot m d) ≡ true
      → length (queue_for_slot l (mode_slot m d)) < l.queue_capacity
  unfolding has_space queue_for_slot mode_slot
  has_space-lt l full_duplex slot_ab h = ground (arith, h)
  has_space-lt l full_duplex slot_ba h = ground (arith, h)
  has_space-lt l full_duplex slot_shared h = ground (arith, h)
  has_space-lt l full_duplex slot_invalid h = ground (arith, h)
  has_space-lt l half_duplex slot_ab h = ground (arith, h)
  has_space-lt l half_duplex slot_ba h = ground (arith, h)
  has_space-lt l half_duplex slot_shared h = ground (arith, h)
  has_space-lt l half_duplex slot_invalid h = ground (arith, h)
  has_space-lt l simplex slot_ab h = ground (arith, h)
  has_space-lt l simplex slot_ba h = ground (arith, h)
  has_space-lt l simplex slot_shared h = ground (arith, h)
  has_space-lt l simplex slot_invalid h = ground (arith, h)

  mode_slot-Directed :
      (a b : ℤ) (m : LinkMode) (d : DirectionSlot) (e : LinkTransmission T)
      → Directed a b d e
      → Directed a b (mode_slot m d) e
  unfolding mode_slot
  mode_slot-Directed a b full_duplex d e h = h
  mode_slot-Directed a b half_duplex slot_ab e h = inl h
  mode_slot-Directed a b half_duplex slot_ba e h = inr h
  mode_slot-Directed a b half_duplex slot_shared e h = h
  mode_slot-Directed a b half_duplex slot_invalid e h = h
  mode_slot-Directed a b simplex slot_ab e h = h
  mode_slot-Directed a b simplex slot_ba e h = inr h
  mode_slot-Directed a b simplex slot_shared e h = h
  mode_slot-Directed a b simplex slot_invalid e h = h

  -- A slot that has space is one of a direction.
  has_space-direction :
      (l : Link T) (m : LinkMode) → has_space l m (mode_slot m slot_invalid) ≡ false
  unfolding has_space mode_slot
  has_space-direction l full_duplex = refl
  has_space-direction l half_duplex = refl
  has_space-direction l simplex = refl

  get_direction_slot-Directed :
      (l : Link T) (from to : ℤ) (departure arrival : T)
      → (get_direction_slot l from to ≡ slot_invalid)
        ⊎ Directed l.a l.b (get_direction_slot l from to) (transmission from to departure arrival)
  unfolding get_direction_slot transmission
  get_direction_slot-Directed l from to d a = elim (Bool-cases (eq_int from l.a && eq_int to l.b)) [
    | inl h ↦ rw h (inr (eq_int-both from l.a to l.b h))
    | inr h ↦ rw h (elim (Bool-cases (eq_int from l.b && eq_int to l.a)) [
      | inl k ↦ rw k (inr (eq_int-both from l.b to l.a k))
      | inr k ↦ rw k (inl refl)
    ])
  ]

  accepted_direction :
      (l : Link T) (from to : ℤ) (departure arrival : T)
      → can_queue l from to ≡ true
      → Directed l.a l.b (get_direction_slot l from to) (transmission from to departure arrival)
  unfolding can_queue get_queue_slot
  accepted_direction l from to d a h = elim (get_direction_slot-Directed l from to d a) [
    | inl none_of ↦ ground (arith, h, none_of, has_space-direction l l.mode)
    | inr dir ↦ dir
  ]

  accepted_space :
      (l : Link T) (from to : ℤ)
      → can_queue l from to ≡ true
      → length (queue_for_slot l (get_queue_slot l from to)) < l.queue_capacity
  unfolding can_queue get_queue_slot
  accepted_space l from to h =
      has_space-lt l l.mode (get_direction_slot l from to) (ground (arith, h))

  accepted-Directed :
      (l : Link T) (from to : ℤ) (departure arrival : T)
      → can_queue l from to ≡ true
      → Directed l.a l.b (get_queue_slot l from to) (transmission from to departure arrival)
  unfolding get_queue_slot
  accepted-Directed l from to d a h =
      mode_slot-Directed l.a l.b l.mode (get_direction_slot l from to) (transmission from to d a)
        (accepted_direction l from to d a h)

  pub enqueue-WellQueued :
      (l : Link T) (from to : ℤ) (departure arrival : T)
      → WellQueued l
      → WellQueued (enqueue_transmission l from to departure arrival)
  unfolding enqueue_transmission
  enqueue-WellQueued l from to d a w =
      let s = get_queue_slot l from to in
      let fits = Fits-queue l s w in
      let e = transmission from to d a in
      elim (Bool-cases (can_queue l from to)) [
        | inl h ↦ rw h (
            WellQueued-set l s (queue_for_slot l s ++ e ∷ []) w (record {
              bounded =
                  omega (
                    arith,
                    length-append (queue_for_slot l s) (e ∷ []),
                    accepted_space l from to h,
                  );
              directed =
                  All-append (Directed l.a l.b s) (queue_for_slot l s) (e ∷ []) fits.directed
                    (accepted-Directed l from to d a h, tt);
            }))
        | inr h ↦ rw h w
      ]
