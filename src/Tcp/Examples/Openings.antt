-- ===== src/Tcp/Examples/Openings.antt =====
-- Opening and closing concrete connections, and the segments and flags that this takes.
use gns.Tcp.Examples.Fractions.{Fraction, fractions}
use gns.Tcp.Examples.Endpoints.{endpoint, client, server, connected}
use gns.Base.Ints.{pos}
use gns.Base.{
  ◌≡◌, refl, ◌≢◌, ◌⊎◌, inl, inr, true, false, List, [], ◌∷◌, ◌==◌, if◌then◌else◌, ◌<◌, arith, All,
}
use gns.Tcp.StateMachine.{
  TcpState, TcpStateMachine, closed, listen, closing, fin_wait_2, close_wait, signal, peer_fin,
  fin_acked, fin_sends, time_wait_done, retransmission_fails,
}
use gns.Tcp.StateMachine.Diagram.{Edge, signal_cases, signals, signals-closing, IsRefused}
use gns.Tcp.Segment.{
  has_flag, set_flag, infer_packet_type, syn_packet, syn_ack_packet, ack_packet, fin_packet,
  rst_packet,
}
use gns.Tcp.Segment.Flag
use gns.Tcp.Segment.Laws.{is_ack, is_fin, set_flag_lem}
use gns.Tcp.Connection.{
  TcpConnection, get_tcp_state, build_syn, build_syn_ack, build_ack, build_fin, build_rst,
}
use gns.Tcp.Session.{TcpSession, get_state}
use gns.Tcp.Session.Opening.{opened, session_opens}
use gns.Base.{some}
use gns.Tcp.StateMachine.{established}
use gns.Tcp.Session.{create_session}
use gns.Tcp.Connection.Segments.{IsBare, built_segments}
use gns.Tcp.Connection.Handshake.{
  send_syn, receive_syn, receive_syn_ack, send_fin, receive_fin, expire_time_wait,
}
use gns.Tcp.Connection.Sending.{receive_ack}
use gns.Tcp.Connection.Opening.{Connected, three_way_handshake}
use gns.Tcp.Connection.Closing.{orderly_close, StaysClosing, simultaneous_close_stuck}
use gns.Tcp.Connection.Queue.{acknowledges, times_out}
use gns.Tcp.Connection.Calls.{EndpointCall, sender, data_arrives, time_wait_expires, IsNoFailure}

abbrev half_closed : TcpStateMachine
half_closed = record { state = fin_wait_2 }

signal_cases_example :
    (((signal half_closed peer_fin).1 ≡ true)
      × Edge fin_wait_2 peer_fin (signal half_closed peer_fin).0.state)
    ⊎ ((signal half_closed peer_fin ≡ (half_closed, false))
        × ((t : TcpState) → ¬ Edge fin_wait_2 peer_fin t))
signal_cases_example = signal_cases half_closed peer_fin

not_failures : All (λ e. e ≢ retransmission_fails) (fin_acked ∷ time_wait_done ∷ fin_sends ∷ [])
not_failures = ((λ e. cc), ((λ e. cc), ((λ e. cc), tt)))

signals-closing_example :
    ((signals (record { state = closing }) (fin_acked ∷ time_wait_done ∷ fin_sends ∷ [])).0
      ≡ record { state = closing })
    × All IsRefused
        (signals (record { state = closing }) (fin_acked ∷ time_wait_done ∷ fin_sends ∷ [])).1
signals-closing_example = signals-closing (fin_acked ∷ time_wait_done ∷ fin_sends ∷ []) not_failures

set_flag_lem_example :
    (has_flag (set_flag 21 Flag.fin false) Flag.ack
      ≡ (if Flag.fin == Flag.ack then false else has_flag 21 Flag.ack))
    × (set_flag 21 Flag.fin false < 256)
set_flag_lem_example = set_flag_lem 21 false (omega arith) is_fin is_ack

built_segments_example :
    ((infer_packet_type (build_syn client) ≡ syn_packet) × IsBare (build_syn client))
    × ((infer_packet_type (build_syn_ack client) ≡ syn_ack_packet) × IsBare (build_syn_ack client))
    × ((infer_packet_type (build_ack client) ≡ ack_packet) × IsBare (build_ack client))
    × ((infer_packet_type (build_fin client) ≡ fin_packet) × IsBare (build_fin client))
    × ((infer_packet_type (build_rst client 70) ≡ rst_packet) × IsBare (build_rst client 70))
built_segments_example = built_segments client 70 (omega arith) (omega arith)

abbrev caller : TcpConnection Fraction
caller = endpoint closed 0 0

abbrev listener : TcpConnection Fraction
listener = endpoint listen 900 0

three_way_handshake_example :
    let (c1, sent) = send_syn caller 4294967295 in
    let (s1, heard) = receive_syn listener (build_syn c1).seq in
    let (c2, answered) = receive_syn_ack c1 (build_syn_ack s1).seq (build_syn_ack s1).ack in
    let (s2, confirmed) = receive_ack fractions s1 (build_ack c2).ack (3, 1) in
    (sent ≡ true) × (heard ≡ true) × (answered ≡ true) × (confirmed ≡ true) × Connected c2 s2
three_way_handshake_example =
    three_way_handshake fractions caller listener 4294967295 (3, 1) (inl refl) (inr refl)

orderly_close_example :
    let (c1, fin_out) = send_fin client in
    let (s1, fin_in) = receive_fin server (build_fin c1).seq in
    let (c2, acked) = receive_ack fractions c1 (build_ack s1).ack (9, 1) in
    let (s2, last_out) = send_fin s1 in
    let (c3, last_in) = receive_fin c2 (build_fin s2).seq in
    let (s3, last_acked) = receive_ack fractions s2 (build_ack c3).ack (9, 1) in
    let (c4, expired) = expire_time_wait c3 in
    ((fin_out ≡ true)
      × (fin_in ≡ true)
      × (acked ≡ true)
      × (last_out ≡ true)
      × (last_in ≡ true)
      × (last_acked ≡ true)
      × (expired ≡ true))
    × (get_tcp_state c2 ≡ fin_wait_2)
    × (get_tcp_state s1 ≡ close_wait)
    × (get_tcp_state c4 ≡ closed)
    × (get_tcp_state s3 ≡ closed)
orderly_close_example = orderly_close fractions client server (9, 1) connected

-- The acknowledgement of a FIN, data, a timeout and the end of a TIME_WAIT.
abbrev later : List (EndpointCall Fraction)
later =
    sender (acknowledges 101 (9, 1))
    ∷ data_arrives 501 (7 ∷ []) (9, 1)
    ∷ sender (times_out (9, 1))
    ∷ time_wait_expires
    ∷ []

later-IsNoFailure : All IsNoFailure later
later-IsNoFailure = (tt, (tt, (tt, (tt, tt))))

simultaneous_close_stuck_example :
    let (c1, client_out) = send_fin client in
    let (s1, server_out) = send_fin server in
    let (c2, client_in) = receive_fin c1 (build_fin s1).seq in
    let (s2, server_in) = receive_fin s1 (build_fin c1).seq in
    ((client_out ≡ true) × (server_out ≡ true) × (client_in ≡ true) × (server_in ≡ true))
    × StaysClosing fractions c2 (build_ack s2).ack (9, 1) later
    × StaysClosing fractions s2 (build_ack c2).ack (9, 1) later
simultaneous_close_stuck_example =
    simultaneous_close_stuck fractions client server (9, 1) later later connected later-IsNoFailure
      later-IsNoFailure

abbrev session : TcpSession Fraction
session = record {
  session_id = 4;
  source = pos 0;
  destination = pos 1;
  state = closed;
  total_packets = 10;
  packets_sent = 0;
  client_connection = caller;
  server_connection = server;
  close_requested = false;
  traffic_generated = false;
}

session_opens_example :
    (s : TcpSession Fraction) × (create_session fractions 7 (pos 0) (pos 1) listen ≡ some s)
    × (get_state s ≡ closed)
    × (get_state (opened fractions s 4294967295 (2, 1)) ≡ established)
session_opens_example = session_opens fractions 7 4294967295 (pos 0) (pos 1) listen (2, 1)
