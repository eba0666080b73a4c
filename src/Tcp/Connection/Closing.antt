-- ===== src/Tcp/Connection/Closing.antt =====
-- The close of a connection between two endpoints of
-- core/src/network/transport/tcp/TCPConnection.cpp, by one side and by both at once.
use gns.Base.{ℕ, ◌≡◌, ap, ◌∙◌, Bool, true, false, List, [], ◌∷◌, All, arith}
use gns.Base.Floats.{Float}
use gns.Tcp.StateMachine.{closed, closing, fin_wait_2, close_wait}
use gns.Tcp.Connection.{
  TcpConnection, get_tcp_state, set_seq_num, reset_loss_detection, build_fin, build_ack,
}
use gns.Tcp.Connection.Handshake.{
  send_fin, receive_fin, receive_syn, receive_syn_ack, send_syn, expire_time_wait, listen_on,
  mark_syn_sent, increment_syn_retries,
}
use gns.Tcp.Connection.Sending.{
  receive_ack, queue_sent_segment, mark_segment_retransmitted, on_send_timeout, on_fast_retransmit,
  on_send_timeout_untimed,
}
use gns.Tcp.Connection.Receiving.{receive_data, mark_delayed_ack_pending, clear_delayed_ack_pending}
use gns.Tcp.Connection.Queue.{SenderCall, acknowledges, queues, call}
use gns.Tcp.Connection.Calls.{
  EndpointCall, sender, retransmission_fails, IsNoFailure, endpoint_call, endpoint_calls,
}
use gns.Tcp.Connection.Opening.{Connected}

module _ {T : Type 0} (f : Float T) where
  -- A connected pair whose client closes first goes through the half-closed states, the client in
  -- FIN_WAIT_2 and the server in CLOSE_WAIT after the first exchange, succeeds in each of the seven
  -- steps, every argument taken from a segment that the other side builds, and ends closed on both
  -- sides.
  pub orderly_close :
      (client server : TcpConnection T) (now : T)
      → Connected client server
      → let (c1, fin_out) = send_fin client in
        let (s1, fin_in) = receive_fin server (build_fin c1).seq in
        let (c2, acked) = receive_ack f c1 (build_ack s1).ack now in
        let (s2, last_out) = send_fin s1 in
        let (c3, last_in) = receive_fin c2 (build_fin s2).seq in
        let (s3, last_acked) = receive_ack f s2 (build_ack c3).ack now in
        let (c4, expired) = expire_time_wait c3 in
        ((fin_out ≡ true)
          × (fin_in ≡ true)
          × (acked ≡ true)
          × (last_out ≡ true)
          × (last_in ≡ true)
          × (last_acked ≡ true)
          × (expired ≡ true))
        × (get_tcp_state c2 ≡ fin_wait_2)
        × (get_tcp_state s1 ≡ close_wait)
        × (get_tcp_state c4 ≡ closed)
        × (get_tcp_state s3 ≡ closed)
  unfolding send_fin receive_fin receive_ack build_fin build_ack expire_time_wait
  orderly_close client server now h = ground arith

module _ {T : Type 0} (f : Float T) where
  receive_ack-closing :
      (c : TcpConnection T) (a : ℕ) (now : T)
      → get_tcp_state c ≡ closing
      → receive_ack f c a now ≡ (c, false)
  unfolding receive_ack
  receive_ack-closing c a now h = ground arith

  call-closing :
      (c : TcpConnection T) (k : SenderCall T)
      → get_tcp_state c ≡ closing
      → get_tcp_state (call f c k) ≡ closing
  unfolding call queue_sent_segment mark_segment_retransmitted on_send_timeout on_fast_retransmit
      on_send_timeout_untimed reset_loss_detection
  call-closing c (acknowledges a now) h =
      ap (λ (r : TcpConnection T × Bool). get_tcp_state r.0) (receive_ack-closing c a now h) ∙ h
  call-closing c (queues segment now) h = ground arith
  call-closing c _ h = ground arith

  endpoint_call-closing :
      (c : TcpConnection T) (k : EndpointCall T)
      → IsNoFailure k
      → get_tcp_state c ≡ closing
      → get_tcp_state (endpoint_call f c k) ≡ closing
  unfolding endpoint_call receive_data receive_syn receive_fin receive_syn_ack send_syn set_seq_num
      listen_on mark_syn_sent increment_syn_retries send_fin expire_time_wait
      mark_delayed_ack_pending clear_delayed_ack_pending
  endpoint_call-closing c (sender k) n h = call-closing c k h
  endpoint_call-closing c retransmission_fails n h = absurd n
  endpoint_call-closing c _ n h = ground arith

  endpoint_calls-closing :
      (c : TcpConnection T) (ks : List (EndpointCall T))
      → All IsNoFailure ks
      → get_tcp_state c ≡ closing
      → get_tcp_state (endpoint_calls f c ks) ≡ closing
  unfolding endpoint_calls
  endpoint_calls-closing c [] n h = h
  endpoint_calls-closing c (k ∷ ks) n h =
      endpoint_calls-closing (endpoint_call f c k) ks n.1 (endpoint_call-closing c k n.0 h)

  -- What a simultaneous close leaves at an endpoint: it is in CLOSING, the acknowledgement of its FIN,
  -- `a`, is refused and changes nothing, and it is in CLOSING after the calls `ks` too.
  pub record StaysClosing (c : TcpConnection T) (a : ℕ) (now : T) (ks : List (EndpointCall T))
      : Type 0 where
    pub state : get_tcp_state c ≡ closing
    pub unheard : receive_ack f c a now ≡ (c, false)
    pub stuck : get_tcp_state (endpoint_calls f c ks) ≡ closing

  closing-StaysClosing :
      (c : TcpConnection T) (a : ℕ) (now : T) (ks : List (EndpointCall T))
      → All IsNoFailure ks
      → get_tcp_state c ≡ closing
      → StaysClosing c a now ks
  closing-StaysClosing c a now ks n h = record {
    state = h;
    unheard = receive_ack-closing c a now h;
    stuck = endpoint_calls-closing c ks n h;
  }

  -- When both sides of a connected pair close before either FIN arrives, the two closes and the
  -- arrivals of the two FINs succeed and both sides are in CLOSING. Each then refuses the
  -- acknowledgement of its FIN that the other side builds, unchanged, and after any run of
  -- the calls that the events and the listener make at an endpoint, arriving data among them, but no
  -- failed retransmission, it is still in CLOSING.
  pub simultaneous_close_stuck :
      (client server : TcpConnection T) (now : T) (at_client at_server : List (EndpointCall T))
      → Connected client server
      → All IsNoFailure at_client
      → All IsNoFailure at_server
      → let (c1, client_out) = send_fin client in
        let (s1, server_out) = send_fin server in
        let (c2, client_in) = receive_fin c1 (build_fin s1).seq in
        let (s2, server_in) = receive_fin s1 (build_fin c1).seq in
        ((client_out ≡ true) × (server_out ≡ true) × (client_in ≡ true) × (server_in ≡ true))
        × StaysClosing c2 (build_ack s2).ack now at_client
        × StaysClosing s2 (build_ack c2).ack now at_server
  unfolding send_fin receive_fin build_fin
  simultaneous_close_stuck client server now at_client at_server h p q = (
    ground arith,
    closing-StaysClosing _ _ now at_client p (ground arith),
    closing-StaysClosing _ _ now at_server q (ground arith),
  )
