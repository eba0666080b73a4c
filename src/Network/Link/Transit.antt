-- ===== src/Network/Link/Transit.antt =====
-- What the queues of core/src/network/Link.cpp hold, whatever the calls: their capacity, the
-- directions of their entries, and an entry that leaves as it came.
use gns.Base.{◌≡◌, Bool, true, false, List, [], ◌∷◌, ◌++◌, All, ap, refl, ◌∙◌, arith}
use gns.Base.Ints.{ℤ, eq_int_refl}
use gns.Base.Floats.{Float}
use gns.Network.Link.{
  LinkMode, full_duplex, half_duplex, simplex, DirectionSlot, slot_ab, slot_ba, slot_shared,
  slot_invalid, LinkTransmission, Link, get_direction_slot, get_queue_slot,
}
use gns.Network.Link.Queue.{
  can_queue, has_space, queue_for_slot, set_queue_for_slot, transmission, enqueue_transmission,
  erase_first, same_transmission, dequeue_transmission, is_invalid,
}

module _ {T : Type 0} (f : Float T) where
  erase_first-append :
      (matches : LinkTransmission T → Bool) (es : List (LinkTransmission T))
      (e : LinkTransmission T)
      → All (λ x. matches x ≡ false) es
      → matches e ≡ true
      → erase_first f matches (es ++ e ∷ []) ≡ (es, true)
  unfolding erase_first
  erase_first-append matches [] e h k = rw k refl
  erase_first-append matches (x ∷ es) e h k = rw (h.0, erase_first-append matches es e h.1 k) refl

  same_transmission_refl :
      (from to : ℤ) (d a : T)
      → f.eq d d ≡ true
      → f.eq a a ≡ true
      → same_transmission f from to d a (transmission from to d a) ≡ true
  unfolding same_transmission transmission
  same_transmission_refl from to d a hd ha = rw (eq_int_refl from, eq_int_refl to, hd, ha) refl

  set_queue-eta :
      (l : Link T) (s : DirectionSlot) (q : List (LinkTransmission T))
      → set_queue_for_slot (set_queue_for_slot l s q) s (queue_for_slot l s) ≡ l
  unfolding set_queue_for_slot queue_for_slot
  set_queue-eta l slot_ab q = refl
  set_queue-eta l slot_ba q = refl
  set_queue-eta l slot_shared q = refl
  set_queue-eta l slot_invalid q = refl

  queue-set :
      (l : Link T) (s : DirectionSlot) (q : List (LinkTransmission T))
      → queue_for_slot (set_queue_for_slot l s q) s ≡ q
  unfolding set_queue_for_slot queue_for_slot
  queue-set l slot_ab q = refl
  queue-set l slot_ba q = refl
  queue-set l slot_shared q = refl
  queue-set l slot_invalid q = refl

  get_queue_slot-set :
      (l : Link T) (s : DirectionSlot) (q : List (LinkTransmission T)) (from to : ℤ)
      → get_queue_slot (set_queue_for_slot l s q) from to ≡ get_queue_slot l from to
  unfolding set_queue_for_slot get_queue_slot get_direction_slot
  get_queue_slot-set l slot_ab q from to = refl
  get_queue_slot-set l slot_ba q from to = refl
  get_queue_slot-set l slot_shared q from to = refl
  get_queue_slot-set l slot_invalid q from to = refl

  has_space-valid :
      (l : Link T) (m : LinkMode) (s : DirectionSlot)
      → has_space l m s ≡ true
      → is_invalid s ≡ false
  unfolding has_space is_invalid
  has_space-valid l full_duplex slot_ab h = refl
  has_space-valid l m slot_ba h = refl
  has_space-valid l m slot_shared h = refl
  has_space-valid l full_duplex slot_invalid h = ground arith
  has_space-valid l half_duplex slot_invalid h = ground arith
  has_space-valid l simplex slot_invalid h = ground arith
  has_space-valid l half_duplex slot_ab h = refl
  has_space-valid l simplex slot_ab h = refl

  can_queue-valid :
      (l : Link T) (from to : ℤ)
      → can_queue l from to ≡ true
      → is_invalid (get_queue_slot l from to) ≡ false
  unfolding can_queue
  can_queue-valid l from to h =
      has_space-valid l l.mode (get_queue_slot l from to) (ground (arith, h))

  pub enqueue_accepted :
      (l : Link T) (from to : ℤ) (departure arrival : T)
      → can_queue l from to ≡ true
      → enqueue_transmission l from to departure arrival
        ≡ set_queue_for_slot l (get_queue_slot l from to) (
            queue_for_slot l (get_queue_slot l from to)
            ++ transmission from to departure arrival ∷ [])
  unfolding enqueue_transmission
  enqueue_accepted l from to departure arrival h = rw h refl

  dequeue_found :
      (l : Link T) (from to : ℤ) (departure arrival : T) (s : DirectionSlot)
      (held queue : List (LinkTransmission T))
      → get_queue_slot l from to ≡ s
      → is_invalid s ≡ false
      → queue_for_slot l s ≡ held
      → erase_first f (same_transmission f from to departure arrival) held ≡ (queue, true)
      → dequeue_transmission f l from to departure arrival ≡ (set_queue_for_slot l s queue, true)
  unfolding dequeue_transmission
  dequeue_found l from to departure arrival s held queue hs hv hq he = rw (hs, hv, hq, he) refl

  -- A transmission that the link accepts, and that differs from those that wait in its direction, leaves again under its own key, and the link is as it was.
  pub dequeue_transmission-enqueue_transmission :
      (l : Link T) (from to : ℤ) (departure arrival : T)
      → can_queue l from to ≡ true
      → f.eq departure departure ≡ true
      → f.eq arrival arrival ≡ true
      → All
          (λ e. same_transmission f from to departure arrival e ≡ false)
          (queue_for_slot l (get_queue_slot l from to))
      → dequeue_transmission f
          (enqueue_transmission l from to departure arrival)
          from
          to
          departure
          arrival
        ≡ (l, true)
  dequeue_transmission-enqueue_transmission l from to d a can hd ha new =
      let s = get_queue_slot l from to in
      let queue = queue_for_slot l s in
      let full = queue ++ transmission from to d a ∷ [] in
      let erased =
        erase_first-append (same_transmission f from to d a) queue (transmission from to d a) new
          (same_transmission_refl from to d a hd ha) in
      let found =
        dequeue_found (set_queue_for_slot l s full) from to d a s full queue
          (get_queue_slot-set l s full from to) (can_queue-valid l from to can) (queue-set l s full)
          erased in
      rw (enqueue_accepted l from to d a can)
        (found ∙ ap (λ (r : Link T). (r, true)) (set_queue-eta l s full))
