-- ===== src/Engine/Departures.antt =====
-- The events of core/src/engine/events that send for an endpoint: TCPConnectionCloseEvent,
-- TCPDelayedAckEvent, TCPFastRetransmitEvent and PacketGenerationEvent, each its `execute` on the
-- engine. The draw that loses a packet is an argument.
use gns.Base.{ℕ, not, ◌==◌, Option, none, some, length, min, ltb, if◌then◌else◌, replicate}
use gns.Base.Ints.{ℤ, eq_int}
use gns.Base.Floats.{Float}
use gns.Network.Packet.{Packet, new_packet}
use gns.Tcp.StateMachine.{established, is_state}
use gns.Tcp.Segment.{TcpSegment, ack_packet, data_packet, infer_packet_type, flag_or}
use gns.Tcp.Segment.Flag
use gns.Tcp.Connection.{TcpConnection, get_tcp_state, is_established, build_ack, build_fin}
use gns.Tcp.Connection.Handshake.{send_fin}
use gns.Tcp.Connection.Receiving.{clear_delayed_ack_pending}
use gns.Tcp.Connection.Sending.{
  in_flight, can_send, queue_sent_segment, get_outstanding_segment, get_oldest_outstanding_sequence,
  has_outstanding_segment, can_retransmit, mark_segment_retransmitted, fail_retransmission,
  on_fast_retransmit, get_current_rto,
}
use gns.Tcp.Session.{TcpSession, get_state, is_complete, increment_packets_sent}
use gns.Engine.Simulation.{SimulationEngine, now, schedule_event, tcp_timeout, packet_generation}
use gns.Engine.Simulation.Sessions.{get_tcp_session}
use gns.Engine.Simulation.Transport.{send_packet_through_topology}
use gns.Engine.Timeouts.{update_session, update_client, retransmission}

module _ {T : Type 0} (f : Float T) where
  -- A segment of an endpoint, on its way to the other one.
  unfoldable pub outgoing : SimulationEngine T → TcpConnection T → TcpSegment → ℕ → Packet T
  unfolding new_packet infer_packet_type
  outgoing e c segment session_id =
      record (new_packet f c.local_node c.remote_node c.local_node (now e) e.global_packet_size
        session_id) {
          tcp = segment;
          packet_type = infer_packet_type segment;
          departure_time = now e;
        }

  unfoldable pub close_in : SimulationEngine T → ℕ → T → Option (TcpSession T) → SimulationEngine T
  unfolding send_fin build_fin update_client outgoing send_packet_through_topology
  close_in e session_id draw none = e
  close_in e session_id draw (some s) =
      let (client, closing) = send_fin s.client_connection in
      let e' = update_client e session_id s client in
      if not (is_state (get_tcp_state s.client_connection) established)
      then e
      else if not closing
      then e'
      else (send_packet_through_topology f e' (outgoing e' client (build_fin client) session_id)
          draw).0

  -- `execute` of TCPConnectionCloseEvent.
  unfoldable pub execute_close : SimulationEngine T → ℕ → T → SimulationEngine T
  unfolding get_tcp_session close_in
  execute_close e session_id draw = close_in e session_id draw (get_tcp_session e session_id)

  -- The acknowledgement of `receiver`, which `put` stores back into its session.
  unfoldable pub acknowledge_late :
      SimulationEngine T
      → (TcpConnection T → SimulationEngine T)
      → TcpConnection T
      → ℕ
      → ℕ
      → T
      → SimulationEngine T
  unfolding clear_delayed_ack_pending build_ack outgoing send_packet_through_topology
  acknowledge_late e put receiver session_id acknowledgement draw =
      let cleared = put (clear_delayed_ack_pending receiver) in
      let ack = record (outgoing e receiver (build_ack receiver) session_id) {
        packet_type = ack_packet;
      } in
      if not (is_established receiver)
      then e
      else if not receiver.delayed_ack_pending
      then e
      else if not (receiver.expected_ack_num == acknowledgement)
      then cleared
      else (send_packet_through_topology f cleared ack draw).0

  unfoldable pub delayed_ack_in :
      SimulationEngine T → ℕ → ℤ → ℕ → T → Option (TcpSession T) → SimulationEngine T
  unfolding acknowledge_late update_session
  delayed_ack_in e session_id receiver_node acknowledgement draw none = e
  delayed_ack_in e session_id receiver_node acknowledgement draw (some s) =
      if eq_int receiver_node s.source
      then acknowledge_late e
          (λ c. update_session e session_id (record s { client_connection = c }))
          s.client_connection session_id acknowledgement draw
      else if eq_int receiver_node s.destination
      then acknowledge_late e
          (λ c. update_session e session_id (record s { server_connection = c }))
          s.server_connection session_id acknowledgement draw
      else e

  -- `execute` of TCPDelayedAckEvent.
  unfoldable pub execute_delayed_ack : SimulationEngine T → ℕ → ℤ → ℕ → T → SimulationEngine T
  unfolding get_tcp_session delayed_ack_in
  execute_delayed_ack e session_id receiver_node acknowledgement draw =
      delayed_ack_in e session_id receiver_node acknowledgement draw (get_tcp_session e session_id)

  -- The oldest segment goes out again, and if it was accepted its timeout is scheduled.
  unfoldable pub fast_resend :
      SimulationEngine T → TcpSession T → TcpSegment → ℕ → ℕ → T → SimulationEngine T
  unfolding can_retransmit fail_retransmission on_fast_retransmit mark_segment_retransmitted
      update_client retransmission send_packet_through_topology has_outstanding_segment
      get_current_rto schedule_event
  fast_resend e s segment session_id sequence draw =
      let c = s.client_connection in
      let reduced = on_fast_retransmit f c (in_flight c) (now e) in
      let client = (mark_segment_retransmitted reduced sequence (now e)).0 in
      let e' = update_client e session_id s client in
      let (e'', sent) =
        send_packet_through_topology f e' (retransmission f e' client segment session_id) draw in
      if not (can_retransmit c sequence)
      then update_client e session_id s (fail_retransmission f c).0
      else if not sent
      then e''
      else if not (has_outstanding_segment client sequence)
      then e''
      else schedule_event f e'' (f.add (now e'') (get_current_rto f client))
          (tcp_timeout session_id sequence)

  unfoldable pub fast_retransmit_in :
      SimulationEngine T → ℕ → T → Option (TcpSession T) → SimulationEngine T
  unfolding get_oldest_outstanding_sequence get_outstanding_segment fast_resend
  fast_retransmit_in e session_id draw none = e
  fast_retransmit_in e session_id draw (some s) =
      if not (is_established s.client_connection)
      then e
      else elim (get_oldest_outstanding_sequence s.client_connection) [
        | none ↦ e
        | some sequence ↦ elim (get_outstanding_segment s.client_connection sequence) [
          | none ↦ e
          | some segment ↦ fast_resend e s segment session_id sequence draw
        ]
      ]

  -- `execute` of TCPFastRetransmitEvent.
  unfoldable pub execute_fast_retransmit : SimulationEngine T → ℕ → T → SimulationEngine T
  unfolding get_tcp_session fast_retransmit_in
  execute_fast_retransmit e session_id draw =
      fast_retransmit_in e session_id draw (get_tcp_session e session_id)

  -- The new data of a client: `size` times the letter A.
  unfoldable pub data_segment : TcpConnection T → ℕ → TcpSegment
  data_segment c size = record {
    seq = c.seq_num;
    ack = c.expected_ack_num;
    window = min c.send_window 65535;
    flags = flag_or Flag.ack Flag.psh;
    payload = replicate size 65;
  }

  -- Once the packet was accepted: it is queued, its timeout scheduled if it is the only one
  -- outstanding, and the next packet scheduled.
  unfoldable pub generated :
      SimulationEngine T → TcpSession T → TcpSegment → ℤ → ℤ → ℕ → SimulationEngine T
  unfolding queue_sent_segment update_session increment_packets_sent is_complete get_current_rto
      schedule_event
  generated e s segment source destination session_id =
      let c = s.client_connection in
      let (client, queued) = queue_sent_segment c segment (now e) in
      let s' = increment_packets_sent (record s { client_connection = client }) in
      let e' = update_session e session_id s' in
      let timed =
        if length c.send_buffer.entries == 0
        then schedule_event f e' (f.add (now e) (get_current_rto f client))
            (tcp_timeout session_id segment.seq)
        else e' in
      if not queued
      then update_client e session_id s client
      else if is_complete s'
      then timed
      else schedule_event f timed (now e) (packet_generation source destination session_id)

  unfoldable pub generate_in :
      SimulationEngine T → ℤ → ℤ → ℕ → T → Option (TcpSession T) → SimulationEngine T
  unfolding get_state is_complete can_send data_segment new_packet send_packet_through_topology
      generated
  generate_in e source destination session_id draw none = e
  generate_in e source destination session_id draw (some s) =
      let size = if ltb 0 e.global_packet_size then e.global_packet_size else 1 in
      let segment = data_segment s.client_connection size in
      let pkt =
        record (new_packet f source destination source (now e) e.global_packet_size session_id) {
          packet_type = data_packet;
          tcp = segment;
          departure_time = now e;
        } in
      let (e', accepted) = send_packet_through_topology f e pkt draw in
      if not (is_state (get_state s) established)
      then e
      else if is_complete s
      then e
      else if not (can_send s.client_connection size)
      then e
      else if not accepted
      then e'
      else generated e' s segment source destination session_id

  -- `execute` of PacketGenerationEvent.
  unfoldable pub execute_generation : SimulationEngine T → ℤ → ℤ → ℕ → T → SimulationEngine T
  unfolding get_tcp_session generate_in
  execute_generation e source destination session_id draw =
      generate_in e source destination session_id draw (get_tcp_session e session_id)
