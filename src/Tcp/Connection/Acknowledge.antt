-- ===== src/Tcp/Connection/Acknowledge.antt =====
-- What an acknowledgement does at an established sender of core/src/network/transport/tcp/
-- TCPConnection.cpp, on every branch of `receive_ack`.
use native.Mathlib.Decide.{dec_lt}
use gns.Base.{
  ℕ, ◌≤◌, ◌<◌, ◌≡◌, refl, ap, subst, ◌∙◌, Bool, true, false, Option, List, ◌⊎◌, inl, inr, arith,
}
use gns.Base.Floats.{Float}
use gns.Tcp.StateMachine.{TcpStateMachine}
use gns.Tcp.SendBuffer.{TcpSendEntry, TcpSendBuffer, acknowledge_and_get_rtt}
use gns.Tcp.SendBuffer.Laws.{Split, acknowledge_lem}
use gns.Tcp.LossDetector
use gns.Tcp.LossDetector.{TcpLossDetector}
use gns.Tcp.Connection.{TcpConnection, get_tcp_state}
use gns.Tcp.Connection.Sending.{receive_established_ack, receive_ack, on_acknowledged}
use gns.Tcp.Connection.Sender.{SendChain, SendChain-rest, Sending, moved-Sending, duplicate-Sending}
use gns.Tcp.Connection.Flow.{receive_ack-established}

position : (a una next : ℕ) → ((a < una) ⊎ (next < a)) ⊎ (a ≡ una) ⊎ ((una < a) × (a ≤ next))
position a una next = elim (dec_lt a una) [
  | yes h ↦ inl (inl h)
  | no h ↦ elim (dec_lt next a) [
    | yes k ↦ inl (inr k)
    | no k ↦ elim (dec_lt una a) [
      | yes l ↦ inr (inr (l, omega arith))
      | no l ↦ inr (inl (omega arith))
    ]
  ]
]

module _ {T : Type 0} (f : Float T) where
  on_acknowledged_fields :
      (c : TcpConnection T) (a : ℕ) (now : T)
      → c.send_unacknowledged < a
      → let d = on_acknowledged f c a now in
        (d.send_buffer ≡ (acknowledge_and_get_rtt f c.send_buffer a now).0)
        × (d.send_unacknowledged ≡ a)
        × (d.seq_num ≡ c.seq_num)
        × (d.state_machine ≡ c.state_machine)
        × (d.send_window ≡ c.send_window)
        × (d.loss_detector ≡ c.loss_detector)
  unfolding on_acknowledged
  on_acknowledged_fields c a now h = ground arith

  receive_ack_advance :
      (c : TcpConnection T) (a : ℕ) (now : T)
      → c.send_unacknowledged < a
      → a ≤ c.seq_num
      → receive_established_ack f c a now ≡ (
        on_acknowledged f
            (record c { loss_detector = (LossDetector.observe_ack c.loss_detector a).0 })
            a
            now,
        true,
      )
  unfolding receive_established_ack
  receive_ack_advance c a now h k = ground arith

  receive_established_ack_stale :
      (c : TcpConnection T) (a : ℕ) (now : T)
      → (a < c.send_unacknowledged) ⊎ (c.seq_num < a)
      → receive_established_ack f c a now ≡ (c, false)
  unfolding receive_established_ack
  receive_established_ack_stale c a now h = ground arith

  pub duplicate_fields :
      (c : TcpConnection T) (a : ℕ) (now : T)
      → c.send_unacknowledged ≤ c.seq_num
      → a ≡ c.send_unacknowledged
      → let (d, fresh) = receive_established_ack f c a now in
        (fresh ≡ false)
        × (d.send_buffer ≡ c.send_buffer)
        × (d.send_unacknowledged ≡ c.send_unacknowledged)
        × (d.seq_num ≡ c.seq_num)
        × (d.loss_detector ≡ (LossDetector.observe_ack c.loss_detector a).0)
        × (get_tcp_state d ≡ get_tcp_state c)
  unfolding receive_established_ack
  duplicate_fields c a now o h = ground arith

  receive_established_ack_advance :
      (c : TcpConnection T) (a : ℕ) (now : T)
      → c.send_unacknowledged < a
      → a ≤ c.seq_num
      → let (d, fresh) = receive_established_ack f c a now in
        (fresh ≡ true)
        × ((gone : List (TcpSendEntry T)) × Split a c.send_buffer.entries gone
              d.send_buffer.entries)
        × (d.send_unacknowledged ≡ a)
        × (d.seq_num ≡ c.seq_num)
        × (d.loss_detector ≡ (LossDetector.observe_ack c.loss_detector a).0)
        × (get_tcp_state d ≡ get_tcp_state c)
        × (d.send_buffer.capacity ≡ c.send_buffer.capacity)
  receive_established_ack_advance c a now h k =
      let observed : TcpConnection T = record c {
        loss_detector = (LossDetector.observe_ack c.loss_detector a).0;
      } in
      let (buffer, una, next, machine, window, detector) =
        on_acknowledged_fields observed a now h in
      let (gone, rest, split, _, both) = acknowledge_lem f c.send_buffer a now in
      let left : (on_acknowledged f observed a now).send_buffer
          ≡ record c.send_buffer { entries = rest } =
        buffer ∙ ap (λ (r : TcpSendBuffer T × Option T). r.0) both in
      rw (receive_ack_advance c a now h k) (
        refl,
        (gone, rw left split),
        una,
        next,
        detector,
        ap (λ (m : TcpStateMachine). m.state) machine,
        ap (λ (b : TcpSendBuffer T). b.capacity) left,
      )

  advance-Sending :
      (c : TcpConnection T) (base a : ℕ) (now : T)
      → Sending c base
      → c.send_unacknowledged < a
      → a ≤ c.seq_num
      → (base' : ℕ) × Sending (receive_established_ack f c a now).0 base'
  advance-Sending c base a now s h k =
      let (_, (gone, split), una, next, _, state, capacity) =
        receive_established_ack_advance c a now h k in
      let (base', begins, chain) =
        SendChain-rest base c.seq_num a gone _ s.word (omega (arith, s.begins))
          (subst (λ (es : List (TcpSendEntry T)). SendChain base es c.seq_num) split.whole s.chain)
          split.covered in
      (
        base',
        moved-Sending c _ base base' a s (una, next, state, capacity) k begins chain split.longest,
      )

  -- What an acknowledgement number does to an established sender: below SND.UNA or above SND.NXT it
  -- is refused and changes nothing; equal to SND.UNA it counts as a duplicate and leaves the queue
  -- and the sequence numbers alone; between them it moves SND.UNA there and takes from the queue
  -- the longest prefix that it covers.
  abbrev pub Stale : TcpConnection T → ℕ → T → Type 0
  Stale c a now =
      ((a < c.send_unacknowledged) ⊎ (c.seq_num < a)) × (receive_ack f c a now ≡ (c, false))

  abbrev pub Duplicate : TcpConnection T → ℕ → T → Type 0
  Duplicate c a now =
      let (d, fresh) = receive_ack f c a now in
      (a ≡ c.send_unacknowledged)
      × (fresh ≡ false)
      × (d.send_buffer ≡ c.send_buffer)
      × (d.send_unacknowledged ≡ c.send_unacknowledged)
      × (d.seq_num ≡ c.seq_num)
      × (d.loss_detector ≡ (LossDetector.observe_ack c.loss_detector a).0)

  abbrev pub Advance : TcpConnection T → ℕ → T → Type 0
  Advance c a now =
      let (d, fresh) = receive_ack f c a now in
      (c.send_unacknowledged < a)
      × (a ≤ c.seq_num)
      × (fresh ≡ true)
      × ((gone : List (TcpSendEntry T)) × Split a c.send_buffer.entries gone d.send_buffer.entries)
      × (d.send_unacknowledged ≡ a)
      × (d.seq_num ≡ c.seq_num)
      × (d.loss_detector ≡ (LossDetector.observe_ack c.loss_detector a).0)

  abbrev pub StaysSending : TcpConnection T → Type 0
  StaysSending c = (base : ℕ) × Sending c base

  -- An acknowledgement number at an established sender whose queue is in order and whose sequence
  -- numbers do not wrap, SND.UNA to SND.NXT below 2 ^ 32, is in one of three cases: below SND.UNA or
  -- above SND.NXT it is refused and changes nothing; equal to SND.UNA it is observed as a duplicate
  -- and leaves the queue and the sequence numbers alone; between the two it moves SND.UNA to itself
  -- and takes from the queue the longest prefix that it covers. After each the queue still holds,
  -- without a gap, the bytes up to SND.NXT from the start of the segment that SND.UNA lies in.
  pub receive_ack_cases :
      (c : TcpConnection T) (base a : ℕ) (now : T)
      → Sending c base
      → (Stale c a now ⊎ (Duplicate c a now ⊎ Advance c a now))
        × StaysSending (receive_ack f c a now).0
  receive_ack_cases c base a now s =
      rw (receive_ack-established f c a now s.opened)
        (elim (position a c.send_unacknowledged c.seq_num) [
          | inl h ↦
              let same = receive_established_ack_stale c a now h in
              (inl (h, same), rw same (base, s))
          | inr (inl h) ↦
              let (fresh, buffer, una, next, detector, state) =
                duplicate_fields c a now s.ordered h in
              (
                inr (inl (h, fresh, buffer, una, next, detector)),
                (base, duplicate-Sending c _ base s (buffer, una, next, state)),
              )
          | inr (inr (h, k)) ↦
              let (fresh, gone, una, next, detector, _, _) =
                receive_established_ack_advance c a now h k in
              (
                inr (inr (h, k, fresh, gone, una, next, detector)),
                advance-Sending c base a now s h k,
              )
        ])

  pub receive_ack-seq :
      (c : TcpConnection T) (base a : ℕ) (now : T)
      → Sending c base
      → (receive_ack f c a now).0.seq_num ≡ c.seq_num
  receive_ack-seq c base a now s = elim (receive_ack_cases c base a now s).0 [
    | inl (_, same) ↦ ap (λ (r : TcpConnection T × Bool). r.0.seq_num) same
    | inr (inl h) ↦ h.4
    | inr (inr h) ↦ h.5
  ]
