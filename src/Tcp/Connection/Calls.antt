-- ===== src/Tcp/Connection/Calls.antt =====
-- The calls that change an endpoint of core/src/network/transport/tcp/TCPConnection.cpp, as the events
-- of core/src/engine/events and the listener make them, and runs of them.
use gns.Base.{ℕ, List, [], ◌∷◌}
use gns.Base.Floats.{Float}
use gns.Tcp.Connection.{TcpConnection, set_seq_num}
use gns.Tcp.Connection.Handshake.{
  increment_syn_retries, listen_on, receive_syn, receive_syn_ack, receive_fin, send_syn,
  mark_syn_sent, send_fin, expire_time_wait,
}
use gns.Tcp.Connection.Sending.{fail_retransmission}
use gns.Tcp.Connection.Receiving.{receive_data, mark_delayed_ack_pending, clear_delayed_ack_pending}
use gns.Tcp.Connection.Queue.{SenderCall, call}

pub data EndpointCall (T : Type 0) : Type 0 where
  sender : SenderCall T → EndpointCall T
  data_arrives : ℕ → List ℕ → T → EndpointCall T
  syn_arrives fin_arrives : ℕ → EndpointCall T
  syn_ack_arrives : ℕ → ℕ → EndpointCall T
  open_called set_seq_num_called : ℕ → EndpointCall T
  listen_called syn_sent_marked syn_retried close_called : EndpointCall T
  time_wait_expires retransmission_fails ack_delayed delayed_ack_cleared : EndpointCall T

-- A call that does not give the connection up.
abbrev pub IsNoFailure : {T : Type 0} → EndpointCall T → Type 0
IsNoFailure retransmission_fails = ⊥
IsNoFailure _ = Unit

module _ {T : Type 0} (f : Float T) where
  unfoldable pub endpoint_call : TcpConnection T → EndpointCall T → TcpConnection T
  endpoint_call c (sender k) = call f c k
  endpoint_call c (data_arrives n payload now) = (receive_data c n payload now).0
  endpoint_call c (syn_arrives n) = (receive_syn c n).0
  endpoint_call c (fin_arrives n) = (receive_fin c n).0
  endpoint_call c (syn_ack_arrives n m) = (receive_syn_ack c n m).0
  endpoint_call c (open_called n) = (send_syn c n).0
  endpoint_call c (set_seq_num_called n) = set_seq_num c n
  endpoint_call c listen_called = (listen_on c).0
  endpoint_call c syn_sent_marked = (mark_syn_sent c).0
  endpoint_call c syn_retried = increment_syn_retries c
  endpoint_call c close_called = (send_fin c).0
  endpoint_call c time_wait_expires = (expire_time_wait c).0
  endpoint_call c retransmission_fails = (fail_retransmission f c).0
  endpoint_call c ack_delayed = mark_delayed_ack_pending c
  endpoint_call c delayed_ack_cleared = clear_delayed_ack_pending c

  unfoldable pub endpoint_calls : TcpConnection T → List (EndpointCall T) → TcpConnection T
  endpoint_calls c [] = c
  endpoint_calls c (k ∷ ks) = endpoint_calls (endpoint_call c k) ks
