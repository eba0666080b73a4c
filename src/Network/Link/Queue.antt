-- ===== src/Network/Link/Queue.antt =====
-- The queues of core/src/network/Link.cpp: which one a direction uses, its space, and the
-- transmissions that enter and leave it.
use gns.Base.{ℕ, Bool, true, false, not, ◌&&◌, List, [], ◌∷◌, ◌++◌, length, ltb, if◌then◌else◌}
use gns.Base.Words.{add_size}
use gns.Base.Ints.{ℤ, eq_int}
use gns.Base.Floats.{Float}
use gns.Network.Link.{
  LinkMode, full_duplex, half_duplex, simplex, DirectionSlot, slot_ab, slot_ba, slot_shared,
  slot_invalid, LinkTransmission, Link, get_queue_slot,
}

unfoldable pub is_invalid : DirectionSlot → Bool
is_invalid slot_invalid = true
is_invalid slot_ab = false
is_invalid slot_ba = false
is_invalid slot_shared = false

module _ {T : Type 0} where
  -- The deque that `queueForSlot` refers to.
  unfoldable pub queue_for_slot : Link T → DirectionSlot → List (LinkTransmission T)
  queue_for_slot l slot_ab = l.queue_ab
  queue_for_slot l slot_ba = l.queue_ba
  queue_for_slot l slot_shared = l.queue_shared
  queue_for_slot l slot_invalid = l.queue_shared

  -- A change of the deque that `queueForSlot` refers to.
  unfoldable pub set_queue_for_slot : Link T → DirectionSlot → List (LinkTransmission T) → Link T
  set_queue_for_slot l slot_ab queue = record l { queue_ab = queue }
  set_queue_for_slot l slot_ba queue = record l { queue_ba = queue }
  set_queue_for_slot l slot_shared queue = record l { queue_shared = queue }
  set_queue_for_slot l slot_invalid queue = record l { queue_shared = queue }

  -- The `switch` of `estimatedQueueSize` in its mode and slot.
  unfoldable pub size_in : Link T → LinkMode → DirectionSlot → ℕ
  size_in l full_duplex slot_ab = length l.queue_ab
  size_in l full_duplex slot_ba = length l.queue_ba
  size_in l full_duplex slot_shared = 0
  size_in l full_duplex slot_invalid = 0
  size_in l half_duplex slot_ab = length l.queue_shared
  size_in l half_duplex slot_ba = length l.queue_shared
  size_in l half_duplex slot_shared = length l.queue_shared
  size_in l half_duplex slot_invalid = 0
  size_in l simplex slot_ab = length l.queue_ab
  size_in l simplex slot_ba = 0
  size_in l simplex slot_shared = 0
  size_in l simplex slot_invalid = 0

  unfoldable pub estimated_queue_size : Link T → T → ℤ → ℤ → ℕ
  unfolding get_queue_slot size_in
  estimated_queue_size l now from to = size_in l l.mode (get_queue_slot l from to)

  -- The `switch` of `canQueue` in its mode and slot.
  unfoldable pub has_space : Link T → LinkMode → DirectionSlot → Bool
  has_space l full_duplex slot_ab = ltb (length l.queue_ab) l.queue_capacity
  has_space l full_duplex slot_ba = ltb (length l.queue_ba) l.queue_capacity
  has_space l full_duplex slot_shared = false
  has_space l full_duplex slot_invalid = false
  has_space l half_duplex slot_ab = ltb (length l.queue_shared) l.queue_capacity
  has_space l half_duplex slot_ba = ltb (length l.queue_shared) l.queue_capacity
  has_space l half_duplex slot_shared = ltb (length l.queue_shared) l.queue_capacity
  has_space l half_duplex slot_invalid = false
  has_space l simplex slot_ab = ltb (length l.queue_ab) l.queue_capacity
  has_space l simplex slot_ba = false
  has_space l simplex slot_shared = false
  has_space l simplex slot_invalid = false

  unfoldable pub can_queue : Link T → ℤ → ℤ → Bool
  unfolding get_queue_slot has_space
  can_queue l from to = if not l.up then false else has_space l l.mode (get_queue_slot l from to)

  unfoldable pub transmission : ℤ → ℤ → T → T → LinkTransmission T
  transmission from to departure_time arrival_time = record {
    from = from;
    to = to;
    departure_time = departure_time;
    arrival_time = arrival_time;
  }

  unfoldable pub enqueue_transmission : Link T → ℤ → ℤ → T → T → Link T
  unfolding get_queue_slot can_queue queue_for_slot set_queue_for_slot transmission
  enqueue_transmission l from to departure_time arrival_time =
      let slot = get_queue_slot l from to in
      if not (can_queue l from to)
      then l
      else set_queue_for_slot l slot
          (queue_for_slot l slot ++ transmission from to departure_time arrival_time ∷ [])

  unfoldable pub get_queue_size : Link T → ℕ
  get_queue_size l =
      add_size (add_size (length l.queue_ab) (length l.queue_ba)) (length l.queue_shared)

module _ {T : Type 0} (f : Float T) where
  unfoldable pub same_transmission : ℤ → ℤ → T → T → LinkTransmission T → Bool
  same_transmission from to departure_time arrival_time e =
      eq_int e.from from
      && (eq_int e.to to
          && (f.eq e.departure_time departure_time && f.eq e.arrival_time arrival_time))

  -- The loop of `dequeueTransmission`: the first match is erased; the Boolean says whether there is one.
  unfoldable pub erase_first :
      (LinkTransmission T → Bool) → List (LinkTransmission T) → List (LinkTransmission T) × Bool
  erase_first matches [] = ([], false)
  erase_first matches (e ∷ es) =
      let rest = erase_first matches es in if matches e then (es, true) else (e ∷ rest.0, rest.1)

  unfoldable pub dequeue_transmission : Link T → ℤ → ℤ → T → T → Link T × Bool
  unfolding get_queue_slot same_transmission queue_for_slot set_queue_for_slot erase_first
      is_invalid
  dequeue_transmission l from to departure_time arrival_time =
      let slot = get_queue_slot l from to in
      let matches = same_transmission from to departure_time arrival_time in
      let (queue, found) = erase_first matches (queue_for_slot l slot) in
      if is_invalid slot then (l, false) else (set_queue_for_slot l slot queue, found)
