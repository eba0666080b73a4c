-- ===== src/Engine/Examples/Simulations.antt =====
-- The engine of core/src/engine/core on a small network, with whole numbers as doubles.
use gns.Base.{ℕ, ◌≡◌, ◌⊎◌, refl, true, false, arith, none, some, [], ◌∷◌, All}
use gns.Base.Ints.{pos, minus_one}
use gns.Engine.Examples.{ticks}
use gns.Network.Link.{Link, full_duplex, get_other_node, get_queue_slot}
use gns.Network.Link.Medium.{get_next_available_time}
use gns.Network.Link.Queue.{dequeue_transmission, queue_for_slot, same_transmission}
use gns.Network.Packet.{Packet}
use gns.Network.Routing.{delay_metric}
use gns.Tcp.Segment.{syn_packet}
use gns.Tcp.Listener.{TcpListener, invalid_session_id}
use gns.Engine.Simulation.{SimulationEngine}
use gns.Engine.Simulation.Packets.{
  send_packet, transmission_time, propagation_time, remove_packet_in_transit, same_travel,
}
use gns.Engine.Simulation.Releases.{
  sent, next_node, departure, arrival, reserved, Refused, Launched, send_packet-cases,
  release-send_packet,
}
use gns.Engine.Simulation.Sessions.{map_find, same_id, accept}
use gns.Engine.Simulation.Listening.{Refuses, Admits, Accepted, accept-cases}

abbrev pub cable : Link ℕ
cable = record {
  id = 3;
  a = pos 0;
  b = pos 1;
  bandwidth_mbps = 10;
  delay_ms = 3000;
  loss_prob = 0;
  mode = full_duplex;
  busy_until_ab = 4;
  busy_until_ba = 0;
  busy_until_shared = 0;
  queue_ab = [];
  queue_ba = [];
  queue_shared = [];
  queue_capacity = 32;
  up = true;
}

abbrev pub engine : SimulationEngine ℕ
engine = record {
  clock = record { current_time = 1 };
  topology = record {
    links = cable ∷ [];
    adjacency_list = (3 ∷ []) ∷ (3 ∷ []) ∷ [];
    nodes = [];
    interfaces = [];
  };
  routing_tables = [];
  stats = record { packets_sent = 0; packets_delivered = 0; packets_lost = 0; total_latency = 0 };
  event_queue = record { event_list = [] };
  next_event_id = 0;
  packets_in_transit =
      record {
        departure_time = 0;
        arrival_time = 17;
        from_node = pos 1;
        to_node = pos 0;
        packet_type = syn_packet;
        link_id = 3;
      }
      ∷ [];
  global_packet_size = 12500000;
  sessions = [];
  next_session_id = 0;
  handshake_offset = 0;
  packets_per_route = 20;
  routing_metric = delay_metric;
  listeners = [];
}

abbrev packet : Packet ℕ
packet = record {
  source = pos 0;
  destination = pos 1;
  current_node = pos 0;
  previous_node = minus_one;
  creation_time = 1;
  departure_time = 0;
  arrival_time = 0;
  packet_size_bytes = 12500000;
  hop_count = 0;
  session_id = 0;
  link_id = 0;
  tcp = record { seq = 0; ack = 0; window = 0; flags = 1; payload = [] };
  packet_type = syn_packet;
}

send_packet-cases_example :
    Refused ticks engine packet cable 1 0 (send_packet ticks engine packet cable 1 0)
    ⊎ Launched ticks engine packet cable 1 0 (send_packet ticks engine packet cable 1 0)
send_packet-cases_example = send_packet-cases ticks engine packet cable 1 0

packet_is_sent : (sent ticks engine packet cable 1 0).2 ≡ true
unfolding send_packet
packet_is_sent = refl

departure_is_number : departure ticks engine packet cable 1 0 ≡ 4
unfolding get_other_node get_next_available_time
departure_is_number = refl

arrival_is_number : arrival ticks engine packet cable 1 0 ≡ 17
unfolding get_other_node get_next_available_time transmission_time propagation_time
arrival_is_number = refl

none_waits :
    All
      (λ t.
        same_transmission ticks
          (pos 0)
          (next_node ticks engine packet cable 1 0)
          (departure ticks engine packet cable 1 0)
          (arrival ticks engine packet cable 1 0)
          t
        ≡ false)
      (queue_for_slot cable
        (get_queue_slot cable (pos 0) (next_node ticks engine packet cable 1 0)))
unfolding get_other_node get_queue_slot queue_for_slot
none_waits = tt

none_travels :
    All
      (λ i.
        same_travel ticks
          (departure ticks engine packet cable 1 0)
          (arrival ticks engine packet cable 1 0)
          (pos 0)
          (next_node ticks engine packet cable 1 0)
          3
          i
        ≡ false)
      engine.packets_in_transit
unfolding get_other_node get_next_available_time transmission_time propagation_time same_travel
none_travels = (refl, tt)

same_time : (x : ℕ) → ticks.eq x x ≡ true
same_time x = ground arith

release-send_packet_example :
    let next = next_node ticks engine packet cable 1 0 in
    let leaves = departure ticks engine packet cable 1 0 in
    let arrives = arrival ticks engine packet cable 1 0 in
    let r = sent ticks engine packet cable 1 0 in
    (dequeue_transmission ticks r.1 (pos 0) next leaves arrives
      ≡ (reserved ticks engine packet cable 1 0, true))
    × (remove_packet_in_transit ticks r.0 leaves arrives (pos 0) next 3
        ≡ (record r.0 { packets_in_transit = engine.packets_in_transit }, true))
release-send_packet_example =
    release-send_packet ticks engine packet cable 1 0 packet_is_sent
      (same_time (departure ticks engine packet cable 1 0))
      (same_time (arrival ticks engine packet cable 1 0)) none_waits none_travels

abbrev web_server : TcpListener
web_server = record { node_id = pos 1; backlog = pos 2; listening = true; active_sessions = 9 ∷ [] }

number_is_free : map_find same_id engine.sessions engine.next_session_id ≡ none
unfolding map_find
number_is_free = refl

accept-cases_example :
    (Refuses web_server
      × (accept ticks engine web_server (pos 0) 700
          ≡ some (engine, web_server, invalid_session_id)))
    ⊎ (Admits web_server
        × Accepted ticks engine web_server (pos 0) 700 (accept ticks engine web_server (pos 0) 700))
accept-cases_example = accept-cases ticks engine web_server (pos 0) 700 number_is_free
