-- ===== src/Tcp/StateMachine/Diagram.antt =====
-- The transition diagram of core/include/network/transport/tcp/TCPStateMachine.hpp, stated apart from
-- its code.
use gns.Base.{
  ◌≡◌, refl, subst, ◌≢◌, ◌⊎◌, inl, inr, ap, Bool-cases, Bool, true, false, List, [], ◌∷◌, All,
  arith,
}
use gns.Tcp.StateMachine.{
  TcpState, closed, listen, syn_sent, syn_received, established, fin_wait_1, fin_wait_2, close_wait,
  closing, last_ack, time_wait, TcpStateMachine, Signal, listens, syn_sends, syn_arrives,
  handshake_ends, fin_sends, fin_acked, peer_fin, time_wait_done, retransmission_fails, signal,
}

-- An edge is labelled with the signal that takes it.
pub data Edge : TcpState → Signal → TcpState → Type 0 where
  open_passively : Edge closed listens listen
  stay_listening : Edge listen listens listen
  open_actively : Edge closed syn_sends syn_sent
  call_out : Edge listen syn_sends syn_sent
  accept_closed : Edge closed syn_arrives syn_received
  accept : Edge listen syn_arrives syn_received
  cross : Edge syn_sent syn_arrives syn_received
  complete_client : Edge syn_sent handshake_ends established
  complete_server : Edge syn_received handshake_ends established
  reopen_fin_wait_1 : Edge fin_wait_1 handshake_ends established
  reopen_fin_wait_2 : Edge fin_wait_2 handshake_ends established
  reopen_close_wait : Edge close_wait handshake_ends established
  close_actively : Edge established fin_sends fin_wait_1
  close_passively : Edge close_wait fin_sends last_ack
  half_close : Edge fin_wait_1 fin_acked fin_wait_2
  finish : Edge last_ack fin_acked closed
  peer_closes : Edge established peer_fin close_wait
  close_together : Edge fin_wait_1 peer_fin closing
  both_closed : Edge fin_wait_2 peer_fin time_wait
  expire : Edge time_wait time_wait_done closed
  give_up : {s : TcpState} → s ≢ closed → Edge s retransmission_fails closed

pub ruleset edges = (
  open_passively, stay_listening, open_actively, call_out, accept_closed, accept, cross,
  complete_client, complete_server, reopen_fin_wait_1, reopen_fin_wait_2, reopen_close_wait,
  close_actively, close_passively, half_close, finish, peer_closes, close_together, both_closed,
  expire,
)

-- The result `b` of a signal in state `s`, with the state `t` after it.
abbrev pub Outcome : TcpState → Signal → TcpState → Bool → Type 0
Outcome s e t true = Edge s e t
Outcome s e t false = t ≡ s

signal-Outcome :
    (e : Signal) (s : TcpState)
    → let (m, b) = signal (record { state = s }) e in Outcome s e m.state b
unfolding signal
signal-Outcome listens closed = search edges
signal-Outcome listens listen = search edges
signal-Outcome listens _ = refl
signal-Outcome syn_sends closed = search edges
signal-Outcome syn_sends listen = search edges
signal-Outcome syn_sends _ = refl
signal-Outcome syn_arrives closed = search edges
signal-Outcome syn_arrives listen = search edges
signal-Outcome syn_arrives syn_sent = search edges
signal-Outcome syn_arrives _ = refl
signal-Outcome handshake_ends syn_sent = search edges
signal-Outcome handshake_ends syn_received = search edges
signal-Outcome handshake_ends fin_wait_1 = search edges
signal-Outcome handshake_ends fin_wait_2 = search edges
signal-Outcome handshake_ends close_wait = search edges
signal-Outcome handshake_ends _ = refl
signal-Outcome fin_sends established = search edges
signal-Outcome fin_sends close_wait = search edges
signal-Outcome fin_sends _ = refl
signal-Outcome fin_acked fin_wait_1 = search edges
signal-Outcome fin_acked last_ack = search edges
signal-Outcome fin_acked _ = refl
signal-Outcome peer_fin established = search edges
signal-Outcome peer_fin fin_wait_1 = search edges
signal-Outcome peer_fin fin_wait_2 = search edges
signal-Outcome peer_fin _ = refl
signal-Outcome time_wait_done time_wait = search edges
signal-Outcome time_wait_done _ = refl
signal-Outcome retransmission_fails closed = refl
signal-Outcome retransmission_fails _ = give_up (λ e. cc)

Edge-signal :
    {s t : TcpState} {e : Signal}
    → Edge s e t
    → signal (record { state = s }) e ≡ (record { state = t }, true)
unfolding signal
Edge-signal (give_up h) = ground arith
Edge-signal _ = refl

Edge-accepts :
    (m : TcpStateMachine) (e : Signal) {t : TcpState} → Edge m.state e t → (signal m e).1 ≡ true
Edge-accepts m e h = ap (λ (r : TcpStateMachine × Bool). r.1) (Edge-signal h)

-- A method of the state machine returns true exactly when the diagram has an edge with its label
-- from the present state, and then the machine stands at the end of such an edge; otherwise it
-- returns false and the machine is as it was.
pub signal_cases :
    (m : TcpStateMachine) (e : Signal)
    → (((signal m e).1 ≡ true) × Edge m.state e (signal m e).0.state)
      ⊎ ((signal m e ≡ (m, false)) × ((t : TcpState) → ¬ Edge m.state e t))
signal_cases m e = elim (Bool-cases (signal m e).1) [
  | inl h ↦ inl (h, subst (Outcome m.state e (signal m e).0.state) h (signal-Outcome e m.state))
  | inr h ↦
      let same : (signal m e).0.state ≡ m.state =
        subst (Outcome m.state e (signal m e).0.state) h (signal-Outcome e m.state) in
      inr (λ i. (record { state = same i }, h i), λ t edge. cc (Edge-accepts m e edge))
]

-- The machine after a list of signals, with the answers that it gave.
pub signals : TcpStateMachine → List Signal → TcpStateMachine × List Bool
signals m [] = (m, [])
signals m (e ∷ es) = let (m', b) = signal m e in let (m'', bs) = signals m' es in (m'', b ∷ bs)

abbrev pub IsRefused : Bool → Type 0
IsRefused b = b ≡ false

signal-closing :
    (e : Signal)
    → e ≢ retransmission_fails
    → signal (record { state = closing }) e ≡ (record { state = closing }, false)
unfolding signal
signal-closing retransmission_fails h = absurd (h refl)
signal-closing _ h = refl

-- A machine in CLOSING that gets no retransmission failure stays in CLOSING, whatever signals come,
-- the acknowledgement of its FIN among them, and refuses them all.
pub signals-closing :
    (es : List Signal)
    → All (λ e. e ≢ retransmission_fails) es
    → ((signals (record { state = closing }) es).0 ≡ record { state = closing })
      × All IsRefused (signals (record { state = closing }) es).1
unfolding signals
signals-closing [] h = (refl, tt)
signals-closing (e ∷ es) h =
    let (stays, refused) = signals-closing es h.1 in
    rw (signal-closing e h.0) (stays, (refl, refused))
