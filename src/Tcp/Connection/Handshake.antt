-- ===== src/Tcp/Connection/Handshake.antt =====
-- core/src/network/transport/tcp/TCPConnection.cpp: the three-way handshake, the close, and the
-- retries of the SYN.
use gns.Base.{ℕ, Bool, true, false, not, ltb, ◌==◌, if◌then◌else◌}
use gns.Base.Words.{add_u32}
use gns.Tcp.StateMachine.{
  syn_sent, syn_received, is_state, on_listen, on_syn_sent, on_syn_received, on_established,
  on_fin_sent, on_peer_fin, on_time_wait_done,
}
use gns.Tcp.Connection.{
  TcpConnection, get_tcp_state, set_expected_ack_num, reset_loss_detection, max_syn_retries,
}

module _ {T : Type 0} where
  unfoldable pub increment_syn_retries : TcpConnection T → TcpConnection T
  increment_syn_retries c = record c { syn_retries = add_u32 c.syn_retries 1 }

  unfoldable pub can_retry_syn : TcpConnection T → Bool
  can_retry_syn c = ltb c.syn_retries max_syn_retries

  unfoldable pub reset_syn_retries : TcpConnection T → TcpConnection T
  reset_syn_retries c = record c { syn_retries = 0 }

  unfoldable pub listen_on : TcpConnection T → TcpConnection T × Bool
  unfolding on_listen
  listen_on c = let (m, done) = on_listen c.state_machine in (record c { state_machine = m }, done)

  unfoldable pub receive_syn : TcpConnection T → ℕ → TcpConnection T × Bool
  unfolding on_syn_received set_expected_ack_num
  receive_syn c remote_seq =
      let (m, done) = on_syn_received c.state_machine in
      let c' = record c { state_machine = m } in
      if not done then (c', false) else (set_expected_ack_num c' (add_u32 remote_seq 1), true)

  -- After the SYN was acknowledged: it took one sequence number.
  unfoldable pub finish_handshake : TcpConnection T → ℕ → TcpConnection T
  unfolding reset_syn_retries reset_loss_detection
  finish_handshake c remote_ack =
      reset_loss_detection
        (reset_syn_retries (record c { seq_num = remote_ack; send_unacknowledged = remote_ack }))

  unfoldable pub receive_syn_ack : TcpConnection T → ℕ → ℕ → TcpConnection T × Bool
  unfolding on_established set_expected_ack_num finish_handshake
  receive_syn_ack c remote_seq remote_ack =
      let (m, done) = on_established c.state_machine in
      let c' = record c { state_machine = m } in
      if not (is_state (get_tcp_state c) syn_sent)
      then (c, false)
      else if not (remote_ack == add_u32 c.seq_num 1)
      then (c, false)
      else if not done
      then (c', false)
      else (finish_handshake (set_expected_ack_num c' (add_u32 remote_seq 1)) remote_ack, true)

  unfoldable pub receive_fin : TcpConnection T → ℕ → TcpConnection T × Bool
  unfolding on_peer_fin set_expected_ack_num
  receive_fin c remote_seq =
      let (m, done) = on_peer_fin c.state_machine in
      let c' = record c { state_machine = m } in
      if not done then (c', false) else (set_expected_ack_num c' (add_u32 remote_seq 1), true)

  -- `initial_seq` is what `generateInitialSeq` draws.
  unfoldable pub send_syn : TcpConnection T → ℕ → TcpConnection T × Bool
  unfolding on_syn_sent reset_loss_detection
  send_syn c initial_seq =
      let (m, done) = on_syn_sent c.state_machine in
      let c' = record c { state_machine = m } in
      if is_state (get_tcp_state c) syn_sent then (c, true) else if not done then (c', false) else (
        reset_loss_detection
            (record c' { seq_num = initial_seq; send_unacknowledged = initial_seq }),
        true,
      )

  unfoldable pub mark_syn_sent : TcpConnection T → TcpConnection T × Bool
  unfolding on_syn_sent
  mark_syn_sent c =
      let (m, done) = on_syn_sent c.state_machine in (record c { state_machine = m }, done)

  unfoldable pub send_syn_ack : TcpConnection T → Bool
  send_syn_ack c = is_state (get_tcp_state c) syn_received

  abbrev pub send_ack : TcpConnection T → Bool
  send_ack c = true

  unfoldable pub send_fin : TcpConnection T → TcpConnection T × Bool
  unfolding on_fin_sent
  send_fin c = let (m, done) = on_fin_sent c.state_machine in (record c { state_machine = m }, done)

  unfoldable pub expire_time_wait : TcpConnection T → TcpConnection T × Bool
  unfolding on_time_wait_done
  expire_time_wait c =
      let (m, done) = on_time_wait_done c.state_machine in (record c { state_machine = m }, done)
