-- ===== src/Engine/Simulation.antt =====
-- core/include/engine/core/SimulationEngine.hpp and Stats.hpp: the state of the engine and the calls
-- that read it. A std::map is an association list with distinct keys; the observers are left out.
-- The counters of packets, of C++ type int, are natural numbers.
pub mod Packets
pub mod Transport
pub mod Releases
pub mod Maps
pub mod Listening
pub mod Sessions
use gns.Base.{
  ℕ, Bool, true, false, ◌&&◌, ◌||◌, ◌==◌, Option, none, some, List, [], ◌∷◌, length, leb, get_elem?,
  if◌then◌else◌,
}
use gns.Base.Ints.{ℤ, minus_one, is_negative, eq_int, to_size}
use gns.Base.Floats.{Float}
use gns.Engine.EventQueue.{
  EventQueue, SimulationClock, create_event, schedule, has_events, set_time, peek_timestamp,
}
use gns.Network.Packet.{Packet, PacketTravelInfo}
use gns.Network.Routing.{RoutingMetric, RoutingEntry}
use gns.Network.Topology.{Topology}
use gns.Tcp.Listener.{TcpListener}
use gns.Tcp.Session.{TcpSession}

-- The events that are modelled, with the members of their classes.
pub data EventBody (T : Type 0) : Type 0 where
  packet_received : Packet T → EventBody T
  packet_generation tcp_handshake : ℤ → ℤ → ℕ → EventBody T
  link_failure : ℤ → ℤ → Bool → EventBody T
  handshake_timeout time_wait_timeout : ℕ → EventBody T
  tcp_timeout tcp_retransmission : ℕ → ℕ → EventBody T

pub record Stats (T : Type 0) : Type 0 where
  pub packets_sent : ℕ
  pub packets_delivered : ℕ
  pub packets_lost : ℕ
  pub total_latency : T

pub record SimulationEngine (T : Type 0) : Type 0 where
  pub clock : SimulationClock T
  pub topology : Topology T
  pub routing_tables : List (List (RoutingEntry T))
  pub stats : Stats T
  pub event_queue : EventQueue T (EventBody T)
  pub next_event_id : ℕ  -- the counter of Event, uint64
  pub packets_in_transit : List (PacketTravelInfo T)
  pub global_packet_size : ℕ
  pub sessions : List (ℕ × TcpSession T)
  pub next_session_id : ℕ  -- uint64
  pub handshake_offset : T
  pub packets_per_route : ℕ
  pub routing_metric : RoutingMetric
  pub listeners : List (ℤ × TcpListener)

module _ {T : Type 0} where
  abbrev pub now : SimulationEngine T → T
  now e = e.clock.current_time

  unfoldable pub advance_time : SimulationEngine T → T → SimulationEngine T
  unfolding set_time
  advance_time e time = record e { clock = set_time e.clock time }

  unfoldable pub set_global_packet_size : SimulationEngine T → ℕ → SimulationEngine T
  set_global_packet_size e value = record e { global_packet_size = value }

  unfoldable pub hop_at : List (RoutingEntry T) → ℤ → ℤ
  hop_at row destination =
      if is_negative destination || leb (length row) (to_size destination)
      then minus_one
      else elim (get_elem? row (to_size destination)) [
        | none ↦ minus_one
        | some entry ↦ entry.next_hop
      ]

  unfoldable pub get_next_hop : SimulationEngine T → ℤ → ℤ → ℤ
  unfolding hop_at
  get_next_hop e current destination =
      if is_negative current || leb (length e.routing_tables) (to_size current)
      then minus_one
      else elim (get_elem? e.routing_tables (to_size current)) [
        | none ↦ minus_one
        | some row ↦ hop_at row destination
      ]

module _ {T : Type 0} (f : Float T) where
  -- `schedule(std::make_unique<...>(timestamp, ...))`.
  unfoldable pub schedule_event : SimulationEngine T → T → EventBody T → SimulationEngine T
  unfolding create_event schedule
  schedule_event e timestamp body =
      let (event, next_event_id) = create_event e.next_event_id timestamp body in
      elim (schedule f e.event_queue (some event)) [
        | none ↦ e
        | some queue ↦ record e { event_queue = queue; next_event_id = next_event_id }
      ]

  unfoldable pub schedule_link_failure : SimulationEngine T → T → ℤ → ℤ → Bool → SimulationEngine T
  unfolding schedule_event
  schedule_link_failure e at_time node_a node_b up =
      schedule_event e at_time (link_failure node_a node_b up)
