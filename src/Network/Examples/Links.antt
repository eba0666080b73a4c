-- ===== src/Network/Examples/Links.antt =====
-- The links of core/src/network/Link.cpp, with whole numbers as times.
use gns.Base.{ℕ, ◌≡◌, ◌⊎◌, refl, true, false, All, List, [], ◌∷◌}
use gns.Base.Ints.{pos}
use gns.Engine.Examples.{ticks, ticks-FloatOrder}
use gns.Network.Link.{full_duplex, half_duplex, simplex, Link, create_link, get_queue_slot}
use gns.Network.Link.Queue.{
  can_queue, same_transmission, queue_for_slot, enqueue_transmission, dequeue_transmission,
}
use gns.Network.Link.Transit.{dequeue_transmission-enqueue_transmission}
use gns.Network.Link.Capacity.{WellQueued}
use gns.Network.Link.Shape.{shape}
use gns.Network.Link.Calls.{
  LinkCall, enqueues, dequeues, reserves, switches, turns, link_calls, link_calls-WellQueued,
}
use gns.Network.Link.Medium.{get_next_available_time, reserve_transmission}
use gns.Network.Link.Reservation.{reserve_transmission_lem}

abbrev cable : Link ℕ
cable = record {
  id = 7;
  a = pos 2;
  b = pos 5;
  bandwidth_mbps = 10;
  delay_ms = 3;
  loss_prob = 0;
  mode = half_duplex;
  busy_until_ab = 0;
  busy_until_ba = 0;
  busy_until_shared = 4;
  queue_ab = [];
  queue_ba = [];
  queue_shared = record { from = pos 2; to = pos 5; departure_time = 1; arrival_time = 4 } ∷ [];
  queue_capacity = 32;
  up = true;
}

can_queue_back : can_queue cable (pos 5) (pos 2) ≡ true
unfolding can_queue
can_queue_back = refl

waiting_differs :
    All
      (λ e. same_transmission ticks (pos 5) (pos 2) 4 8 e ≡ false)
      (queue_for_slot cable (get_queue_slot cable (pos 5) (pos 2)))
unfolding same_transmission queue_for_slot get_queue_slot
waiting_differs = (refl, tt)

dequeue_transmission-enqueue_transmission_example :
    dequeue_transmission ticks (enqueue_transmission cable (pos 5) (pos 2) 4 8) (pos 5) (pos 2) 4 8
    ≡ (cable, true)
dequeue_transmission-enqueue_transmission_example =
    dequeue_transmission-enqueue_transmission ticks cable (pos 5) (pos 2) 4 8 can_queue_back refl
      refl waiting_differs

abbrev some_calls : List (LinkCall ℕ)
some_calls =
    enqueues (pos 2) (pos 5) 0 3
    ∷ reserves (pos 2) (pos 5) 3
    ∷ switches half_duplex
    ∷ enqueues (pos 5) (pos 2) 3 6
    ∷ dequeues (pos 5) (pos 2) 3 6
    ∷ turns false
    ∷ enqueues (pos 2) (pos 5) 9 9
    ∷ []

link_calls-WellQueued_example :
    let l =
      link_calls ticks (create_link ticks 7 (pos 2) (pos 5) 10 3 0 full_duplex).0 some_calls in
    WellQueued l × (shape ticks l ≡ (7, pos 2, pos 5, 32))
link_calls-WellQueued_example =
    link_calls-WellQueued ticks 7 (pos 2) (pos 5) 10 3 0 full_duplex some_calls

reserve_transmission_lem_example :
    let l' = reserve_transmission ticks cable (pos 5) (pos 2) 9 in
    (ticks.lt (get_next_available_time ticks l' (pos 5) (pos 2) 6) 9 ≡ false)
    × (((cable.mode ≡ half_duplex)
          × (ticks.lt (get_next_available_time ticks l' (pos 2) (pos 5) 6) 9 ≡ false))
        ⊎ (((cable.mode ≡ full_duplex) ⊎ (cable.mode ≡ simplex))
            × (get_next_available_time ticks l' (pos 2) (pos 5) 6
                ≡ get_next_available_time ticks cable (pos 2) (pos 5) 6)))
reserve_transmission_lem_example =
    reserve_transmission_lem ticks ticks-FloatOrder cable (pos 5) (pos 2) 6 9
      (record { ab = refl; ba = refl; shared = refl }) refl refl refl
