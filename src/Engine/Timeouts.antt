-- ===== src/Engine/Timeouts.antt =====
-- The events of core/src/engine/events that open a connection and retransmit: TCPHandshakeEvent,
-- TCPHandshakeTimeoutEvent, TCPTimeWaitTimeoutEvent, TCPTimeoutEvent and TCPRetransmissionEvent, each
-- its `execute` on the engine. A result none is an exception of getTCPSession; the initial sequence
-- number and the draw that loses a packet are arguments.
pub mod Lost
use gns.Base.{ℕ, Bool, true, false, not, ◌||◌, ◌==◌, Option, none, some, min, if◌then◌else◌}
use gns.Base.Ints.{ℤ}
use gns.Base.Floats.{Float}
use gns.Network.Packet.{Packet, new_packet}
use gns.Tcp.StateMachine.{closed, syn_sent, is_state}
use gns.Tcp.Segment.{TcpSegment, payload_size, data_packet, infer_packet_type}
use gns.Tcp.Connection.{TcpConnection, get_tcp_state, is_established, build_syn}
use gns.Tcp.Connection.Handshake.{send_syn, can_retry_syn, increment_syn_retries, expire_time_wait}
use gns.Tcp.Connection.Sending.{
  get_outstanding_segment, get_oldest_outstanding_sequence, has_outstanding_segment, can_retransmit,
  mark_segment_retransmitted, fail_retransmission, on_send_timeout, get_current_rto,
}
use gns.Tcp.Session.{TcpSession, set_state}
use gns.Engine.Simulation.{
  SimulationEngine, now, schedule_event, handshake_timeout, tcp_timeout, tcp_retransmission,
}
use gns.Engine.Simulation.Sessions.{get_tcp_session, map_store, same_id}
use gns.Engine.Simulation.Transport.{send_packet_through_topology}

module _ {T : Type 0} where
  -- The session that is changed through the reference of getTCPSession.
  unfoldable pub update_session : SimulationEngine T → ℕ → TcpSession T → SimulationEngine T
  unfolding map_store
  update_session e session_id s = record e { sessions = map_store same_id e.sessions session_id s }

  unfoldable pub update_client :
      SimulationEngine T → ℕ → TcpSession T → TcpConnection T → SimulationEngine T
  unfolding update_session
  update_client e session_id s client =
      update_session e session_id (record s { client_connection = client })

module _ {T : Type 0} (f : Float T) where
  -- The SYN of a client, on its way from `source`.
  unfoldable pub syn_packet_of : SimulationEngine T → TcpConnection T → ℤ → ℤ → ℕ → Packet T
  unfolding new_packet build_syn infer_packet_type
  syn_packet_of e client source destination session_id =
      record (new_packet f source destination source (now e) e.global_packet_size session_id) {
        tcp = build_syn client;
        packet_type = infer_packet_type (build_syn client);
        departure_time = now e;
      }

  -- `TCP_SYN_TIMEOUT`, and the 1.0 of TCPHandshakeEvent.
  abbrev pub syn_timeout : T
  syn_timeout = f.literal 1 1

  -- The SYN is sent, and if it was accepted its timeout is scheduled.
  unfoldable pub send_timed_syn : SimulationEngine T → Packet T → ℕ → T → SimulationEngine T
  unfolding send_packet_through_topology schedule_event
  send_timed_syn e syn session_id draw =
      let (e', sent) = send_packet_through_topology f e syn draw in
      if sent
      then schedule_event f e' (f.add (now e') syn_timeout) (handshake_timeout session_id)
      else e'

  unfoldable pub execute_handshake :
      SimulationEngine T → ℤ → ℤ → ℕ → ℕ → T → Option (SimulationEngine T)
  unfolding get_tcp_session send_syn update_client syn_packet_of send_timed_syn
  execute_handshake e source destination session_id isn draw = elim (get_tcp_session e session_id) [
    | none ↦ none
    | some s ↦
        let (client, started) = send_syn s.client_connection isn in
        let e' = update_client e session_id s client in
        if not started
        then some e'
        else some (
            send_timed_syn e' (syn_packet_of e' client source destination session_id) session_id
              draw)
  ]

  unfoldable pub retry_syn : SimulationEngine T → TcpSession T → ℕ → T → SimulationEngine T
  unfolding increment_syn_retries can_retry_syn update_client syn_packet_of send_timed_syn
  retry_syn e s session_id draw =
      let client = increment_syn_retries s.client_connection in
      let e' = update_client e session_id s client in
      if not (is_state (get_tcp_state s.client_connection) syn_sent)
      then e
      else if not (can_retry_syn s.client_connection)
      then e
      else send_timed_syn e'
          (syn_packet_of e' client client.local_node client.remote_node session_id) session_id draw

  unfoldable pub execute_handshake_timeout : SimulationEngine T → ℕ → T → SimulationEngine T
  unfolding get_tcp_session retry_syn
  execute_handshake_timeout e session_id draw = elim (get_tcp_session e session_id) [
    | none ↦ e
    | some s ↦ retry_syn e s session_id draw
  ]

  unfoldable pub execute_time_wait_timeout : SimulationEngine T → ℕ → Option (SimulationEngine T)
  unfolding get_tcp_session expire_time_wait set_state update_session
  execute_time_wait_timeout e session_id = elim (get_tcp_session e session_id) [
    | none ↦ none
    | some s ↦
        let (client, expired) = expire_time_wait s.client_connection in
        let s' = record s { client_connection = client } in
        some (update_session e session_id (if expired then set_state s' closed else s'))
  ]

  -- A timeout of the oldest outstanding segment.
  unfoldable pub time_out : SimulationEngine T → TcpSession T → ℕ → ℕ → SimulationEngine T
  unfolding can_retransmit fail_retransmission on_send_timeout update_client schedule_event
  time_out e s session_id sequence =
      let client = on_send_timeout f s.client_connection (now e) in
      let e' = update_client e session_id s client in
      if not (can_retransmit s.client_connection sequence)
      then update_client e session_id s (fail_retransmission f s.client_connection).0
      else if not (is_established client)
      then e'
      else schedule_event f e' (now e) (tcp_retransmission session_id sequence)

  unfoldable pub is_oldest : TcpConnection T → ℕ → Bool
  unfolding get_outstanding_segment get_oldest_outstanding_sequence
  is_oldest c sequence = elim (get_outstanding_segment c sequence) [
    | none ↦ false
    | some _ ↦ elim (get_oldest_outstanding_sequence c) [
      | none ↦ false
      | some oldest ↦ oldest == sequence
    ]
  ]

  unfoldable pub execute_timeout : SimulationEngine T → ℕ → ℕ → SimulationEngine T
  unfolding get_tcp_session is_oldest time_out
  execute_timeout e session_id sequence = elim (get_tcp_session e session_id) [
    | none ↦ e
    | some s ↦
        if is_oldest s.client_connection sequence then time_out e s session_id sequence else e
  ]

  -- The packet of a segment that is sent again.
  unfoldable pub retransmission : SimulationEngine T → TcpConnection T → TcpSegment → ℕ → Packet T
  unfolding new_packet
  retransmission e client segment session_id =
      record (new_packet f client.local_node client.remote_node client.local_node (now e)
        (payload_size segment) session_id) {
          tcp = record segment { window = min client.send_window 65535 };
          packet_type = data_packet;
          departure_time = now e;
        }

  -- The segment goes out once more, and if it was accepted its timeout is scheduled.
  unfoldable pub retransmit :
      SimulationEngine T → TcpSession T → TcpSegment → ℕ → ℕ → T → SimulationEngine T
  unfolding mark_segment_retransmitted update_client retransmission send_packet_through_topology
      has_outstanding_segment get_current_rto schedule_event
  retransmit e s segment session_id sequence draw =
      let client = (mark_segment_retransmitted s.client_connection sequence (now e)).0 in
      let e' = update_client e session_id s client in
      let (e'', sent) =
        send_packet_through_topology f e' (retransmission e' client segment session_id) draw in
      if not sent
      then e''
      else if not (has_outstanding_segment client sequence)
      then e''
      else schedule_event f e'' (f.add (now e'') (get_current_rto f client))
          (tcp_timeout session_id sequence)

  -- The rest of `execute` once the segment is found; its second tests of the same conditions never fail.
  unfoldable pub resend :
      SimulationEngine T → TcpSession T → ℕ → ℕ → T → Option TcpSegment → SimulationEngine T
  unfolding can_retransmit fail_retransmission update_client retransmit
  resend e s session_id sequence draw none = e
  resend e s session_id sequence draw (some segment) =
      if not (is_established s.client_connection)
      then e
      else if not (can_retransmit s.client_connection sequence)
      then update_client e session_id s (fail_retransmission f s.client_connection).0
      else retransmit e s segment session_id sequence draw

  unfoldable pub resend_in :
      SimulationEngine T → ℕ → ℕ → T → Option (TcpSession T) → SimulationEngine T
  unfolding get_outstanding_segment resend
  resend_in e session_id sequence draw none = e
  resend_in e session_id sequence draw (some s) =
      resend e s session_id sequence draw (get_outstanding_segment s.client_connection sequence)

  -- `execute` of TCPRetransmissionEvent.
  unfoldable pub execute_retransmission : SimulationEngine T → ℕ → ℕ → T → SimulationEngine T
  unfolding get_tcp_session resend_in
  execute_retransmission e session_id sequence draw =
      resend_in e session_id sequence draw (get_tcp_session e session_id)
