-- ===== src/Tcp/Session/Laws.antt =====
-- The joint state that core/src/network/transport/tcp/TCPSession.cpp derives from the two endpoints.
use gns.Base.{◌≡◌, refl, ◌⊎◌, inl, inr}
use gns.Tcp.StateMachine.{
  TcpState, closed, listen, syn_sent, syn_received, established, fin_wait_1, fin_wait_2, close_wait,
  closing, last_ack, time_wait,
}
use gns.Tcp.Connection.{get_tcp_state}
use gns.Tcp.Session.{TcpSession, joint_state, get_state}

-- One side is established and the other closed.
pub data IsLopsided : TcpState → TcpState → Type 0 where
  client_open : IsLopsided established closed
  server_open : IsLopsided closed established

joint_state_comm :
    (cs ss : TcpState)
    → (joint_state cs ss ≡ joint_state ss cs) ⊎ (IsLopsided cs ss × (joint_state cs ss ≡ cs))
unfolding joint_state
joint_state_comm established closed = inr (client_open, refl)
joint_state_comm established _ = inl refl
joint_state_comm closed established = inr (server_open, refl)
joint_state_comm closed _ = inl refl
joint_state_comm listen closed = inl refl
joint_state_comm listen _ = inl refl
joint_state_comm syn_sent closed = inl refl
joint_state_comm syn_sent _ = inl refl
joint_state_comm syn_received closed = inl refl
joint_state_comm syn_received _ = inl refl
joint_state_comm fin_wait_1 closed = inl refl
joint_state_comm fin_wait_1 _ = inl refl
joint_state_comm fin_wait_2 closed = inl refl
joint_state_comm fin_wait_2 _ = inl refl
joint_state_comm close_wait closed = inl refl
joint_state_comm close_wait _ = inl refl
joint_state_comm closing closed = inl refl
joint_state_comm closing _ = inl refl
joint_state_comm last_ack closed = inl refl
joint_state_comm last_ack _ = inl refl
joint_state_comm time_wait closed = inl refl
joint_state_comm time_wait _ = inl refl

module _ {T : Type 0} where
  abbrev pub swapped : TcpSession T → TcpSession T
  swapped s = record s {
    client_connection = s.server_connection;
    server_connection = s.client_connection;
  }

  -- The joint state does not depend on which endpoint is the client, but for a session of which one
  -- side is established and the other closed: its joint state is the client's.
  pub get_state-swapped :
      (s : TcpSession T)
      → (get_state s ≡ get_state (swapped s))
        ⊎ (IsLopsided (get_tcp_state s.client_connection) (get_tcp_state s.server_connection)
            × (get_state s ≡ get_tcp_state s.client_connection))
  unfolding get_state
  get_state-swapped s =
      joint_state_comm (get_tcp_state s.client_connection) (get_tcp_state s.server_connection)
