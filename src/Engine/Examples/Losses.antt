-- ===== src/Engine/Examples/Losses.antt =====
-- A retransmission of core/src/engine/events over a link that loses every packet.
use gns.Base.{ℕ, ◌≡◌, refl, true, false, some, [], ◌∷◌}
use gns.Base.Ints.{pos, minus_one}
use gns.Engine.Examples.{ticks}
use gns.Engine.Examples.Simulations.{cable, engine}
use gns.Network.Link.{Link}
use gns.Tcp.StateMachine.{established}
use gns.Tcp.Segment.{TcpSegment}
use gns.Tcp.Congestion.{reno, reno_type}
use gns.Tcp.Connection.{TcpConnection, initial_connection}
use gns.Tcp.Connection.Sending.{get_outstanding_segment, can_retransmit, mark_segment_retransmitted}
use gns.Tcp.Session.{TcpSession, session_of}
use gns.Tcp.Session.Opening.{default_reno}
use gns.Engine.Simulation.{SimulationEngine}
use gns.Engine.Simulation.Sessions.{get_tcp_session}
use gns.Engine.Simulation.Transport.{send_packet_through_topology}
use gns.Engine.Timeouts.{execute_retransmission, retransmission, update_client}
use gns.Engine.Timeouts.Lost.{before_resend, marked, lost_retransmission}

abbrev lossy : Link ℕ
lossy = record cable { loss_prob = 1 }

abbrev segment : TcpSegment
segment = record { seq = 100; ack = 500; window = 1000; flags = 16; payload = 1 ∷ 2 ∷ 3 ∷ [] }

abbrev peer : TcpConnection ℕ
peer =
    initial_connection ticks established 103 500 (pos 0) (pos 1) reno_type
      (reno (default_reno ticks))

abbrev sender : TcpConnection ℕ
sender = record peer {
  send_unacknowledged = 100;
  send_buffer = record {
    entries =
        record { segment = segment; sent_at = 0; retransmitted = false; retransmission_count = 0 }
        ∷ [];
    capacity = 0;
  };
}

abbrev session : TcpSession ℕ
session = session_of ticks 4 (pos 0) (pos 1) established sender peer

abbrev lossy_engine : SimulationEngine ℕ
lossy_engine = record engine {
  topology = record {
    links = lossy ∷ [];
    adjacency_list = (3 ∷ []) ∷ (3 ∷ []) ∷ [];
    nodes = [];
    interfaces = [];
  };
  routing_tables =
      (record { destination = pos 0; next_hop = minus_one; distance = 0 }
        ∷ record { destination = pos 1; next_hop = pos 1; distance = 3 }
        ∷ [])
      ∷ []
      ∷ [];
  sessions = (4, session) ∷ [];
}

session_is_there : get_tcp_session lossy_engine 4 ≡ some session
unfolding get_tcp_session
session_is_there = refl

segment_is_outstanding : get_outstanding_segment session.client_connection 100 ≡ some segment
unfolding get_outstanding_segment
segment_is_outstanding = refl

limit_not_reached : can_retransmit session.client_connection 100 ≡ true
unfolding can_retransmit
limit_not_reached = refl

packet_is_lost :
    (send_packet_through_topology ticks
      (before_resend ticks lossy_engine 4 session 100)
      (retransmission ticks
        (before_resend ticks lossy_engine 4 session 100)
        (marked ticks lossy_engine session 100)
        segment
        4)
      0).1
    ≡ false
unfolding send_packet_through_topology retransmission update_client mark_segment_retransmitted
packet_is_lost = refl

lost_retransmission_example :
    let e' = execute_retransmission ticks lossy_engine 4 100 0 in
    (e'.event_queue ≡ lossy_engine.event_queue)
    × (e'.packets_in_transit ≡ lossy_engine.packets_in_transit)
lost_retransmission_example =
    lost_retransmission ticks lossy_engine session segment 4 100 0 session_is_there
      segment_is_outstanding refl limit_not_reached packet_is_lost
