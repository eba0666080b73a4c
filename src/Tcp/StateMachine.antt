-- ===== src/Tcp/StateMachine.antt =====
-- core/include/network/transport/tcp/TCPStateMachine.hpp and core/include/enums/TCPState.hpp.
-- A method that writes `state_` returns the new machine with its result.
pub mod Diagram
use gns.Base.{ℕ, Bool, true, false, ◌||◌, ◌==◌, if◌then◌else◌}

pub data TcpState : Type 0 where
  closed listen syn_sent syn_received established : TcpState
  fin_wait_1 fin_wait_2 close_wait closing last_ack time_wait : TcpState

-- The value that the C++ compiler gives to the enumerator.
abbrev pub ordinal : TcpState → ℕ
ordinal closed = 0
ordinal listen = 1
ordinal syn_sent = 2
ordinal syn_received = 3
ordinal established = 4
ordinal fin_wait_1 = 5
ordinal fin_wait_2 = 6
ordinal close_wait = 7
ordinal closing = 8
ordinal last_ack = 9
ordinal time_wait = 10

-- `a == b` on the enumeration.
abbrev pub is_state : TcpState → TcpState → Bool
is_state a b = ordinal a == ordinal b

pub record TcpStateMachine : Type 0 where
  pub state : TcpState

unfoldable pub on_listen : TcpStateMachine → TcpStateMachine × Bool
on_listen m =
    if is_state m.state closed
    then (record m { state = listen }, true)
    else (m, is_state m.state listen)

unfoldable pub on_syn_sent : TcpStateMachine → TcpStateMachine × Bool
on_syn_sent m =
    if is_state m.state closed || is_state m.state listen
    then (record m { state = syn_sent }, true)
    else (m, false)

unfoldable pub on_syn_received : TcpStateMachine → TcpStateMachine × Bool
on_syn_received m =
    if is_state m.state closed || (is_state m.state listen || is_state m.state syn_sent)
    then (record m { state = syn_received }, true)
    else (m, false)

unfoldable pub on_established : TcpStateMachine → TcpStateMachine × Bool
on_established m =
    if is_state m.state syn_sent
      || (is_state m.state syn_received
          || (is_state m.state fin_wait_1
              || (is_state m.state fin_wait_2 || is_state m.state close_wait)))
    then (record m { state = established }, true)
    else (m, false)

unfoldable pub on_fin_sent : TcpStateMachine → TcpStateMachine × Bool
on_fin_sent m =
    if is_state m.state established
    then (record m { state = fin_wait_1 }, true)
    else if is_state m.state close_wait
    then (record m { state = last_ack }, true)
    else (m, false)

unfoldable pub on_fin_acked : TcpStateMachine → TcpStateMachine × Bool
on_fin_acked m =
    if is_state m.state fin_wait_1
    then (record m { state = fin_wait_2 }, true)
    else if is_state m.state last_ack
    then (record m { state = closed }, true)
    else (m, false)

unfoldable pub on_peer_fin : TcpStateMachine → TcpStateMachine × Bool
on_peer_fin m =
    if is_state m.state established
    then (record m { state = close_wait }, true)
    else if is_state m.state fin_wait_1
    then (record m { state = closing }, true)
    else if is_state m.state fin_wait_2
    then (record m { state = time_wait }, true)
    else (m, false)

unfoldable pub on_time_wait_done : TcpStateMachine → TcpStateMachine × Bool
on_time_wait_done m =
    if is_state m.state time_wait then (record m { state = closed }, true) else (m, false)

unfoldable pub on_retransmission_failure : TcpStateMachine → TcpStateMachine × Bool
on_retransmission_failure m =
    if is_state m.state closed then (m, false) else (record m { state = closed }, true)

-- The events that the endpoint reports to its machine, one for each method.
pub data Signal : Type 0 where
  listens syn_sends syn_arrives handshake_ends fin_sends fin_acked peer_fin : Signal
  time_wait_done retransmission_fails : Signal

unfoldable pub signal : TcpStateMachine → Signal → TcpStateMachine × Bool
unfolding on_listen on_syn_sent on_syn_received on_established on_fin_sent on_fin_acked on_peer_fin
    on_time_wait_done on_retransmission_failure
signal m listens = on_listen m
signal m syn_sends = on_syn_sent m
signal m syn_arrives = on_syn_received m
signal m handshake_ends = on_established m
signal m fin_sends = on_fin_sent m
signal m fin_acked = on_fin_acked m
signal m peer_fin = on_peer_fin m
signal m time_wait_done = on_time_wait_done m
signal m retransmission_fails = on_retransmission_failure m
