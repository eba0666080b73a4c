-- ===== src/Engine/Simulation/Packets.antt =====
-- The packets of core/src/engine/core/SimulationEngine.cpp on their way, and
-- core/src/network/utils/PacketUtils.cpp. The link that the code changes through a reference is the
-- one of the topology with its number. A draw of the random numbers is an argument.
use gns.Base.{
  ℕ, ◌+◌, Bool, true, false, not, ◌&&◌, ◌==◌, Option, none, some, List, [], ◌∷◌, ◌++◌,
  if◌then◌else◌,
}
use gns.Base.Ints.{ℤ, minus_one, eq_int}
use gns.Base.Floats.{Float}
use gns.Network.Link.{Link, get_other_node}
use gns.Network.Link.Queue.{can_queue, enqueue_transmission}
use gns.Network.Link.Medium.{get_next_available_time, reserve_transmission, should_drop}
use gns.Network.Packet.{Packet, PacketTravelInfo}
use gns.Engine.Simulation.{SimulationEngine, packet_received, now, schedule_event}

module _ {T : Type 0} where
  unfoldable pub lose_packet : SimulationEngine T → SimulationEngine T
  lose_packet e = record e { stats = record e.stats { packets_lost = e.stats.packets_lost + 1 } }

  -- A packet is counted as sent at its first hop.
  unfoldable pub count_sent : SimulationEngine T → Packet T → SimulationEngine T
  count_sent e pkt =
      if pkt.hop_count == 0
      then record e { stats = record e.stats { packets_sent = e.stats.packets_sent + 1 } }
      else e

  -- The link that a pointer of an adjacency list refers to.
  unfoldable pub find_link : List (Link T) → ℕ → Option (Link T)
  find_link [] id = none
  find_link (l ∷ ls) id = let rest = find_link ls id in if l.id == id then some l else rest

  unfoldable pub store_link : List (Link T) → Link T → List (Link T)
  store_link [] link = []
  store_link (l ∷ ls) link =
      let rest = store_link ls link in if l.id == link.id then link ∷ rest else l ∷ rest

  unfoldable pub put_link : SimulationEngine T → Link T → SimulationEngine T
  unfolding store_link
  put_link e link = record e {
    topology = record e.topology { links = store_link e.topology.links link };
  }

  -- The first link of a row that is up and leads from `current` to `next`.
  unfoldable pub select_link : List (Link T) → List ℕ → ℤ → ℤ → Option (Link T)
  unfolding find_link get_other_node
  select_link links [] current next = none
  select_link links (id ∷ ids) current next =
      let rest = select_link links ids current next in
      elim (find_link links id) [
        | none ↦ rest
        | some l ↦ if l.up && eq_int (get_other_node l current) next then some l else rest
      ]

module _ {T : Type 0} (f : Float T) where
  -- `packet_size_bytes * 8.0 / (bandwidth_mbps * 1e6)`.
  unfoldable pub transmission_time : Packet T → Link T → T
  transmission_time pkt link =
      f.div (f.mul (f.literal pkt.packet_size_bytes 1) (f.literal 8 1))
        (f.mul link.bandwidth_mbps (f.literal 1000000 1))

  unfoldable pub propagation_time : Link T → T
  propagation_time link = f.div link.delay_ms (f.literal 1000 1)

  unfoldable pub compute_arrival_time : Packet T → Link T → T → T
  unfolding transmission_time propagation_time
  compute_arrival_time pkt link now =
      f.add (f.add now (propagation_time link)) (transmission_time pkt link)

  -- The packet as it arrives at the other end.
  unfoldable pub forwarded : Packet T → Link T → ℤ → T → T → Packet T
  forwarded pkt link next_node departure arrival = record pkt {
    current_node = next_node;
    previous_node = pkt.current_node;
    link_id = link.id;
    hop_count = pkt.hop_count + 1;
    departure_time = departure;
    arrival_time = arrival;
  }

  unfoldable pub travel_info : Packet T → Link T → ℤ → T → T → PacketTravelInfo T
  travel_info pkt link next_node departure arrival = record {
    departure_time = departure;
    arrival_time = arrival;
    from_node = pkt.current_node;
    to_node = next_node;
    packet_type = pkt.packet_type;
    link_id = link.id;
  }

  -- What `sendPacket` does once the packet is on the link.
  unfoldable pub launch : SimulationEngine T → Packet T → Link T → ℤ → T → T → SimulationEngine T
  unfolding forwarded travel_info schedule_event
  launch e pkt link next_node departure arrival =
      schedule_event f
        (record e {
          packets_in_transit =
              e.packets_in_transit ++ travel_info pkt link next_node departure arrival ∷ [];
        })
        arrival (packet_received (forwarded pkt link next_node departure arrival))

  unfoldable pub send_packet :
      SimulationEngine T → Packet T → Link T → T → T → SimulationEngine T × Link T × Bool
  unfolding get_other_node can_queue get_next_available_time reserve_transmission should_drop
      enqueue_transmission lose_packet count_sent transmission_time propagation_time launch
  send_packet e pkt link now draw =
      let next_node = get_other_node link pkt.current_node in
      let departure = get_next_available_time f link pkt.current_node next_node now in
      let arrival = f.add (f.add departure (transmission_time pkt link)) (propagation_time link) in
      let reserved = reserve_transmission f link pkt.current_node next_node arrival in
      let counted = count_sent e pkt in
      if not link.up
      then (e, link, false)
      else if eq_int next_node minus_one
      then (e, link, false)
      else if not (can_queue link pkt.current_node next_node)
      then (lose_packet e, link, false)
      else if should_drop f reserved draw
      then (lose_packet counted, reserved, false)
      else (
        launch counted pkt reserved next_node departure arrival,
        enqueue_transmission reserved pkt.current_node next_node departure arrival,
        true,
      )

  unfoldable pub same_travel : T → T → ℤ → ℤ → ℕ → PacketTravelInfo T → Bool
  same_travel departure arrival from to link_id info =
      f.eq info.departure_time departure
      && (f.eq info.arrival_time arrival
          && (eq_int info.from_node from && (eq_int info.to_node to && info.link_id == link_id)))

  unfoldable pub remove_first :
      (PacketTravelInfo T → Bool) → List (PacketTravelInfo T) → List (PacketTravelInfo T) × Bool
  remove_first p [] = ([], false)
  remove_first p (x ∷ xs) =
      let rest = remove_first p xs in if p x then (xs, true) else (x ∷ rest.0, rest.1)

  unfoldable pub remove_packet_in_transit :
      SimulationEngine T → T → T → ℤ → ℤ → ℕ → SimulationEngine T × Bool
  unfolding same_travel remove_first
  remove_packet_in_transit e departure arrival from to link_id =
      let (left, found) =
        remove_first (same_travel departure arrival from to link_id) e.packets_in_transit in
      (record e { packets_in_transit = left }, found)
