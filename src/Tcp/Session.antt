-- ===== src/Tcp/Session.antt =====
-- core/include/network/transport/tcp/TCPSession.hpp and core/src/network/transport/tcp/TCPSession.cpp.
-- An `int` counter is a natural number: it counts packets from 0.
pub mod Laws
pub mod Opening
use gns.Base.Ints.{ℤ, pos}
use gns.Base.{Option, none, some, ℕ, ◌+◌, Bool, true, false, ◌&&◌, ◌||◌, ◌==◌, if◌then◌else◌}
use gns.Tcp.StateMachine.{
  TcpState, closed, listen, syn_sent, syn_received, established, fin_wait_1, fin_wait_2, close_wait,
  closing, last_ack, time_wait, is_state,
}
use gns.Base.Floats.{Float}
use gns.Tcp.Congestion.{reno_type}
use gns.Tcp.Connection.{TcpConnection, get_tcp_state, create, default_send_window}

pub record TcpSession (T : Type 0) : Type 0 where
  pub session_id : ℕ  -- uint64
  pub source : ℤ
  pub destination : ℤ
  pub state : TcpState
  pub total_packets : ℕ
  pub packets_sent : ℕ
  pub client_connection : TcpConnection T
  pub server_connection : TcpConnection T
  pub close_requested : Bool
  pub traffic_generated : Bool

-- The rules of `getState`, on the states of the client and the server.
unfoldable pub joint_state : TcpState → TcpState → TcpState
joint_state cs ss =
    if is_state cs established && is_state ss established
    then established
    else if is_state cs close_wait || is_state ss close_wait
    then close_wait
    else if is_state cs last_ack || is_state ss last_ack
    then last_ack
    else if is_state cs fin_wait_1 || is_state ss fin_wait_1
    then fin_wait_1
    else if is_state cs fin_wait_2 || is_state ss fin_wait_2
    then fin_wait_2
    else if is_state cs closing || is_state ss closing
    then closing
    else if is_state cs time_wait || is_state ss time_wait
    then time_wait
    else if is_state cs closed && is_state ss closed
    then closed
    else if is_state cs syn_received || is_state ss syn_received
    then syn_received
    else if is_state cs syn_sent || is_state ss syn_sent
    then syn_sent
    else if is_state cs listen || is_state ss listen
    then listen
    else cs

module _ {T : Type 0} where
  unfoldable pub get_state : TcpSession T → TcpState
  unfolding joint_state
  get_state s = joint_state (get_tcp_state s.client_connection) (get_tcp_state s.server_connection)

  unfoldable pub increment_packets_sent : TcpSession T → TcpSession T
  increment_packets_sent s = record s { packets_sent = s.packets_sent + 1 }

  unfoldable pub set_total_packets : TcpSession T → ℕ → TcpSession T
  set_total_packets s total = record s { total_packets = total }

  unfoldable pub is_complete : TcpSession T → Bool
  is_complete s = s.packets_sent == s.total_packets

  unfoldable pub set_close_request : TcpSession T → Bool → TcpSession T
  set_close_request s close_request = record s { close_requested = close_request }

  unfoldable pub mark_traffic_generated : TcpSession T → TcpSession T
  mark_traffic_generated s = record s { traffic_generated = true }

  unfoldable pub set_state : TcpSession T → TcpState → TcpSession T
  set_state s state = record s { state = state }

-- `DEFAULT_CONGESTION_MSS` of TCPConnection.hpp, and the default of the constructor's last argument.
abbrev pub default_congestion_mss : ℕ
default_congestion_mss = default_send_window

abbrev pub default_initial_ssthresh : ℕ
default_initial_ssthresh = 65535

module _ {T : Type 0} (f : Float T) where
  -- A closed connection between two nodes, with the default arguments of its constructor.
  unfoldable pub closed_connection : ℤ → ℤ → Option (TcpConnection T)
  unfolding create
  closed_connection local_node remote_node =
      create f closed 0 0 local_node remote_node reno_type default_congestion_mss
        default_initial_ssthresh

  -- A session with its two connections.
  abbrev pub session_of : ℕ → ℤ → ℤ → TcpState → TcpConnection T → TcpConnection T → TcpSession T
  session_of session_id source destination state client server = record {
    session_id = session_id;
    source = source;
    destination = destination;
    state = state;
    total_packets = 0;
    packets_sent = 0;
    client_connection = client;
    server_connection = server;
    close_requested = false;
    traffic_generated = false;
  }

  -- The constructor; none where that of a connection throws.
  unfoldable pub create_session : ℕ → ℤ → ℤ → TcpState → Option (TcpSession T)
  unfolding closed_connection
  create_session session_id source destination state = elim (closed_connection source destination) [
    | none ↦ none
    | some client ↦ elim (closed_connection destination source) [
      | none ↦ none
      | some server ↦ some (session_of session_id source destination state client server)
    ]
  ]

  unfoldable pub default_session : Option (TcpSession T)
  unfolding create_session
  default_session = create_session 0 (pos 0) (pos 0) closed
