-- ===== src/Engine/Simulation/Releases.antt =====
-- A packet of core/src/engine/core/SimulationEngine.cpp that goes onto a link, and what its release
-- finds.
use mathlib.Core.List.{Perm}
use gns.Base.{
  ℕ, ◌+◌, ◌≡◌, ◌⊎◌, inl, inr, refl, sym, ap, subst, ◌∙◌, Bool, true, false, not, ◌==◌, List, [],
  ◌∷◌, ◌++◌, All, if◌then◌else◌, if_cases, unnegated_true, Bool-cases, arith,
}
use gns.Base.Ints.{ℤ, minus_one, eq_int, eq_int_refl}
use gns.Base.Floats.{Float}
use gns.Network.Link.{Link, get_other_node, get_queue_slot}
use gns.Network.Link.Queue.{
  can_queue, enqueue_transmission, dequeue_transmission, queue_for_slot, same_transmission,
}
use gns.Network.Link.Medium.{get_next_available_time, reserve_transmission, should_drop}
use gns.Network.Link.Shape.{queues-reserve, can_queue-reserve, queue-reserve, id-reserve}
use gns.Network.Link.Transit.{dequeue_transmission-enqueue_transmission}
use gns.Network.Packet.{Packet, PacketTravelInfo}
use gns.Engine.EventQueue.{Event, schedule}
use gns.Engine.EventQueue.Laws.{insert-perm}
use gns.Engine.Simulation.{SimulationEngine, EventBody, packet_received, schedule_event}
use gns.Engine.Simulation.Packets.{
  lose_packet, count_sent, transmission_time, propagation_time, forwarded, travel_info, launch,
  send_packet, same_travel, remove_first, remove_packet_in_transit,
}

module _ {T : Type 0} (f : Float T) (e : SimulationEngine T) (pkt : Packet T) (link : Link T)
    (now draw : T) where
  abbrev pub sent : SimulationEngine T × Link T × Bool
  sent = send_packet f e pkt link now draw

  abbrev pub next_node : ℤ
  next_node = get_other_node link pkt.current_node

  -- When the link is free, and when the last bit is at the other end.
  abbrev pub departure : T
  departure = get_next_available_time f link pkt.current_node next_node now

  abbrev pub arrival : T
  arrival = f.add (f.add departure (transmission_time f pkt link)) (propagation_time f link)

  abbrev pub reserved : Link T
  reserved = reserve_transmission f link pkt.current_node next_node arrival

  -- A packet that is not on the link: nothing is under way, and at most one loss is counted.
  pub record Refused (r : SimulationEngine T × Link T × Bool) : Type 0 where
    pub answer : r.2 ≡ false
    pub transit : r.0.packets_in_transit ≡ e.packets_in_transit
    pub events : r.0.event_queue ≡ e.event_queue
    pub queues :
        (r.1.queue_ab ≡ link.queue_ab)
        × (r.1.queue_ba ≡ link.queue_ba)
        × (r.1.queue_shared ≡ link.queue_shared)
    pub loss :
        (r.0.stats.packets_lost ≡ e.stats.packets_lost)
        ⊎ (r.0.stats.packets_lost ≡ e.stats.packets_lost + 1)

  -- The event that will receive the packet.
  abbrev pub receipt : Event T (EventBody T)
  receipt = record {
    timestamp = arrival;
    id = e.next_event_id;
    body = packet_received (forwarded f pkt reserved next_node departure arrival);
  }

  -- A packet on the link: one entry in transit, one in the link's queue, one event, and no loss.
  pub record Launched (r : SimulationEngine T × Link T × Bool) : Type 0 where
    pub answer : r.2 ≡ true
    pub space : can_queue link pkt.current_node next_node ≡ true
    pub transit :
        r.0.packets_in_transit
        ≡ e.packets_in_transit ++ travel_info f pkt reserved next_node departure arrival ∷ []
    pub events : Perm r.0.event_queue.event_list (receipt ∷ e.event_queue.event_list)
    pub queued : r.1 ≡ enqueue_transmission reserved pkt.current_node next_node departure arrival
    pub loss : r.0.stats.packets_lost ≡ e.stats.packets_lost
    pub counted :
        r.0.stats.packets_sent
        ≡ (if pkt.hop_count == 0 then e.stats.packets_sent + 1 else e.stats.packets_sent)

  untouched :
      (e' : SimulationEngine T)
      → e'.packets_in_transit ≡ e.packets_in_transit
      → e'.event_queue ≡ e.event_queue
      → (e'.stats.packets_lost ≡ e.stats.packets_lost)
        ⊎ (e'.stats.packets_lost ≡ e.stats.packets_lost + 1)
      → Refused (e', link, false)
  untouched e' transit events loss = record {
    answer = refl;
    transit = transit;
    events = events;
    queues = (refl, refl, refl);
    loss = loss;
  }

  -- `count_sent` changes the number of sent packets only.
  counted_cases :
      (n : ℕ) × (count_sent e pkt ≡ record e { stats = record e.stats { packets_sent = n } })
      × (n ≡ (if pkt.hop_count == 0 then e.stats.packets_sent + 1 else e.stats.packets_sent))
  unfolding count_sent
  counted_cases = elim (Bool-cases (pkt.hop_count == 0)) [
    | inl h ↦ rw h (e.stats.packets_sent + 1, refl, refl)
    | inr h ↦ rw h (e.stats.packets_sent, refl, refl)
  ]

  dropped : Refused (lose_packet (count_sent e pkt), reserved, false)
  unfolding lose_packet
  dropped =
      let (n, same, _) = counted_cases in
      rw same (record {
        answer = refl;
        transit = refl;
        events = refl;
        queues = queues-reserve f link pkt.current_node next_node arrival;
        loss = inr refl;
      })

  launched :
      can_queue link pkt.current_node next_node ≡ true
      → Launched (
        launch f (count_sent e pkt) pkt reserved next_node departure arrival,
        enqueue_transmission reserved pkt.current_node next_node departure arrival,
        true,
      )
  unfolding launch schedule_event schedule
  launched space =
      let (n, same, number) = counted_cases in
      rw same (record {
        answer = refl;
        space = space;
        transit = refl;
        events = insert-perm f e.event_queue.event_list receipt;
        queued = refl;
        loss = refl;
        counted = number;
      })

  -- A packet is either refused, and then nothing is under way: the packets in transit, the events
  -- and the queues of the link are as before, and at most one loss is counted. Or it is launched: the link had
  -- space, the packet is the last in transit, its transmission is in the queue of the link, one
  -- event is added, at the arrival time, no loss is counted, and it is counted as sent at its first hop only.
  pub send_packet-cases : Refused sent ⊎ Launched sent
  unfolding send_packet lose_packet
  send_packet-cases =
      let out = λ (r : SimulationEngine T × Link T × Bool). Refused r ⊎ Launched r in
      if_cases out (not link.up) _ _ (λ h. inl (untouched e refl refl (inl refl)))
        (λ up.
          if_cases out (eq_int next_node minus_one) _ _
            (λ h. inl (untouched e refl refl (inl refl)))
            (λ other.
              if_cases out (not (can_queue link pkt.current_node next_node)) _ _
                (λ h. inl (untouched (lose_packet e) refl refl (inr refl)))
                (λ space.
                  if_cases out (should_drop f reserved draw) _ _ (λ h. inl dropped)
                    (λ h. inr (launched (unnegated_true _ space))))))

  remove_first-append :
      (p : PacketTravelInfo T → Bool) (xs : List (PacketTravelInfo T)) (x : PacketTravelInfo T)
      → All (λ i. p i ≡ false) xs
      → p x ≡ true
      → remove_first f p (xs ++ x ∷ []) ≡ (xs, true)
  unfolding remove_first
  remove_first-append p [] x h k = rw k refl
  remove_first-append p (y ∷ xs) x h k = rw (h.0, remove_first-append p xs x h.1 k) refl

  Launched-sent : sent.2 ≡ true → Launched sent
  Launched-sent h = elim send_packet-cases [ inl r ↦ ground (arith, h, r.answer) | inr l ↦ l ]

  same_travel-own :
      f.eq departure departure ≡ true
      → f.eq arrival arrival ≡ true
      → same_travel f departure arrival pkt.current_node next_node link.id
          (travel_info f pkt reserved next_node departure arrival)
        ≡ true
  unfolding same_travel travel_info
  same_travel-own hd ha =
      rw (hd, ha, eq_int_refl pkt.current_node, eq_int_refl next_node)
        (ground (arith, id-reserve f link pkt.current_node next_node arrival))

  -- The release of a packet that was accepted, under the times at which it left and arrives, when no
  -- other packet waits or travels under the same key: its transmission is found in the queue of the link,
  -- which is left as the reservation made it, and the packets in transit are those from before.
  pub release-send_packet :
      sent.2 ≡ true
      → f.eq departure departure ≡ true
      → f.eq arrival arrival ≡ true
      → All
          (λ t. same_transmission f pkt.current_node next_node departure arrival t ≡ false)
          (queue_for_slot link (get_queue_slot link pkt.current_node next_node))
      → All
          (λ i. same_travel f departure arrival pkt.current_node next_node link.id i ≡ false)
          e.packets_in_transit
      → (dequeue_transmission f sent.1 pkt.current_node next_node departure arrival
          ≡ (reserved, true))
        × (remove_packet_in_transit f sent.0 departure arrival pkt.current_node next_node link.id
            ≡ (record sent.0 { packets_in_transit = e.packets_in_transit }, true))
  unfolding remove_packet_in_transit
  release-send_packet h hd ha waiting travelling =
      let l = Launched-sent h in
      (
        ap (λ (k : Link T). dequeue_transmission f k pkt.current_node next_node departure arrival)
              l.queued
            ∙ dequeue_transmission-enqueue_transmission f reserved pkt.current_node next_node
                departure arrival
                (can_queue-reserve f link pkt.current_node next_node arrival pkt.current_node
                    next_node
                  ∙ l.space)
                hd ha
                (subst
                  (All (λ t.
                    same_transmission f pkt.current_node next_node departure arrival t ≡ false))
                  (sym (
                    queue-reserve f link pkt.current_node next_node arrival pkt.current_node
                      next_node))
                  waiting),
        ap
            (λ (r : List (PacketTravelInfo T) × Bool).
              (record sent.0 { packets_in_transit = r.0 }, r.1))
            (ap
                (remove_first f
                  (same_travel f departure arrival pkt.current_node next_node link.id))
                l.transit
              ∙ remove_first-append _ e.packets_in_transit _ travelling (same_travel-own hd ha)),
      )
