-- ===== src/Tcp/Session/Opening.antt =====
-- A new session of core/src/network/transport/tcp/TCPSession.cpp, and its opening.
use gns.Tcp.Congestion.{reno, reno_type}
use gns.Tcp.Congestion.Reno.{RenoCongestionControl}
use gns.Base.Ints.{ℤ}
use gns.Base.{false, ℕ, ◌≡◌, refl, some, inl}
use gns.Base.Floats.{Float}
use gns.Tcp.StateMachine.{TcpState, closed, established}
use gns.Tcp.Connection.{TcpConnection, connect, get_tcp_state, build_syn, build_syn_ack, build_ack}
use gns.Tcp.Connection.Handshake.{send_syn, receive_syn, receive_syn_ack}
use gns.Tcp.Connection.Sending.{receive_ack}
use gns.Tcp.Connection.Opening.{three_way_handshake}
use gns.Tcp.Session.{TcpSession, joint_state, get_state, session_of, create_session}

module _ {T : Type 0} (f : Float T) where
  -- The session after the three segments of the handshake, none of them lost.
  pub opened : TcpSession T → ℕ → T → TcpSession T
  opened s isn now =
      let c1 = (send_syn s.client_connection isn).0 in
      let s1 = (receive_syn s.server_connection (build_syn c1).seq).0 in
      let c2 = (receive_syn_ack c1 (build_syn_ack s1).seq (build_syn_ack s1).ack).0 in
      let s2 = (receive_ack f s1 (build_ack c2).ack now).0 in
      record s { client_connection = c2; server_connection = s2 }

  abbrev pub default_reno : RenoCongestionControl
  default_reno = record {
    mss = 65535;
    initial_ssthresh = 65535;
    cwnd = 65535;
    ssthresh = 131070;
    fast_recovery = false;
  }

  abbrev pub new_connection : ℤ → ℤ → TcpConnection T
  new_connection local_node remote_node =
      connect f closed 0 0 local_node remote_node reno_type (reno default_reno)

  new_connection-state :
      (local_node remote_node : ℤ) → get_tcp_state (new_connection local_node remote_node) ≡ closed
  unfolding connect
  new_connection-state local_node remote_node = refl

  abbrev pub new_session : ℕ → ℤ → ℤ → TcpState → TcpSession T
  new_session session_id source destination state =
      session_of f session_id source destination state (new_connection source destination)
        (new_connection destination source)

  pub create_session-some :
      (session_id : ℕ) (source destination : ℤ) (state : TcpState)
      → create_session f session_id source destination state
        ≡ some (new_session session_id source destination state)
  unfolding create_session
  create_session-some session_id source destination state = refl

  joint_state-opened :
      (s : TcpSession T) (isn : ℕ) (now : T)
      → get_tcp_state s.client_connection ≡ closed
      → get_tcp_state s.server_connection ≡ closed
      → get_state (opened s isn now) ≡ established
  unfolding get_state opened
  joint_state-opened s isn now c d =
      let (_, _, _, _, both) =
        three_way_handshake f s.client_connection s.server_connection isn now (inl c) (inl d) in
      rw (both.client_open, both.server_open) refl

  -- A session is constructed without an exception, whatever its numbers, and is closed; when its
  -- client sends a SYN with any initial sequence number and the three segments arrive, it is
  -- established.
  pub session_opens :
      (session_id isn : ℕ) (source destination : ℤ) (state : TcpState) (now : T)
      → (s : TcpSession T) × (create_session f session_id source destination state ≡ some s)
        × (get_state s ≡ closed)
        × (get_state (opened s isn now) ≡ established)
  unfolding get_state joint_state
  session_opens session_id isn source destination state now =
      let client = new_connection-state source destination in
      let server = new_connection-state destination source in
      let s = new_session session_id source destination state in
      (
        s,
        create_session-some session_id source destination state,
        rw (client, server) refl,
        joint_state-opened s isn now client server,
      )
