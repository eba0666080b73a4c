-- ===== src/Tcp/Connection/Opening.antt =====
-- The three-way handshake between two endpoints of core/src/network/transport/tcp/TCPConnection.cpp.
use gns.Base.{ℕ, ◌≡◌, ◌⊎◌, true, arith}
use gns.Base.Floats.{Float}
use gns.Tcp.StateMachine.{TcpState, closed, listen, established}
use gns.Tcp.Connection.{TcpConnection, get_tcp_state, build_syn, build_syn_ack, build_ack}
use gns.Tcp.Connection.Handshake.{send_syn, receive_syn, receive_syn_ack}
use gns.Tcp.Connection.Sending.{receive_ack}

-- A connection that has not begun.
abbrev pub IsFresh : TcpState → Type 0
IsFresh s = (s ≡ closed) ⊎ (s ≡ listen)

-- What the two endpoints hold when both are open.
pub record Connected {T : Type 0} (client server : TcpConnection T) : Type 0 where
  pub client_open : get_tcp_state client ≡ established
  pub server_open : get_tcp_state server ≡ established
  pub to_server : client.seq_num ≡ server.expected_ack_num
  pub to_client : server.seq_num ≡ client.expected_ack_num
  pub client_settled : client.send_unacknowledged ≡ client.seq_num
  pub server_settled : server.send_unacknowledged ≡ server.seq_num

module _ {T : Type 0} (f : Float T) where
  -- A fresh client that sends its SYN, a fresh server that hears it, and the two answers, each taken
  -- from the segment that the sender builds, succeed in every step, whatever the two initial
  -- sequence numbers, the last one included, and leave both sides established with each side's next
  -- sequence number the one that the other expects and nothing unacknowledged.
  pub three_way_handshake :
      (client server : TcpConnection T) (isn : ℕ) (now : T)
      → IsFresh (get_tcp_state client)
      → IsFresh (get_tcp_state server)
      → let (c1, sent) = send_syn client isn in
        let (s1, heard) = receive_syn server (build_syn c1).seq in
        let (c2, answered) = receive_syn_ack c1 (build_syn_ack s1).seq (build_syn_ack s1).ack in
        let (s2, confirmed) = receive_ack f s1 (build_ack c2).ack now in
        (sent ≡ true) × (heard ≡ true) × (answered ≡ true) × (confirmed ≡ true) × Connected c2 s2
  unfolding send_syn receive_syn receive_syn_ack receive_ack build_syn build_syn_ack build_ack
  three_way_handshake client server isn now p q = ground arith
