-- ===== src/Tcp/Connection/Queue.antt =====
-- The sending side of core/src/network/transport/tcp/TCPConnection.cpp over any run of its calls.
use native.Mathlib.Nat.{le_of_eq}
use gns.Base.{
  ℕ, ◌+◌, ◌≤◌, ◌<◌, ◌≡◌, refl, inl, inr, false, Bool-cases, List, [], ◌∷◌, ◌==◌, sum_by, arith,
}
use gns.Base.Words.{u32_mod}
use gns.Base.Floats.{Float}
use gns.Tcp.Segment.{TcpSegment, payload_size}
use gns.Tcp.SendBuffer.{TcpSendEntry, sequence_end, mark_first}
use gns.Tcp.SendBuffer.Laws.{HeadUncovered, mark_retransmitted-entries}
use gns.Tcp.Congestion
use gns.Tcp.Connection.{TcpConnection, reset_loss_detection}
use gns.Tcp.Connection.Sending.{
  queue_sent_segment, receive_ack, mark_segment_retransmitted, on_send_timeout,
  on_send_timeout_untimed, on_fast_retransmit,
}
use gns.Tcp.Connection.Sender.{
  SendChain, Sending, moved-Sending, duplicate-Sending, queue-Sending, queue_fields,
}
use gns.Tcp.Connection.Acknowledge.{receive_ack_cases, receive_ack-seq}

-- The calls that the events make at the sending side of an endpoint, but for the failed retransmission,
-- which ends the connection. `reports_duplicate` is the `getCongestionControl().onDuplicateAck()` of
-- PacketReceivedEvent.cpp, and `times_out_untimed` the overload of `onSendTimeout` without a time.
pub data SenderCall (T : Type 0) : Type 0 where
  queues : TcpSegment → T → SenderCall T
  acknowledges : ℕ → T → SenderCall T
  times_out : T → SenderCall T
  retransmits : ℕ → T → SenderCall T
  fast_retransmits : ℕ → T → SenderCall T
  times_out_untimed reports_duplicate resets_detection : SenderCall T

module _ {T : Type 0} where
  mark_first-SendChain :
      (n m sequence : ℕ) (now : T) (es : List (TcpSendEntry T))
      → SendChain n es m
      → SendChain n (mark_first es sequence now) m
  unfolding mark_first
  mark_first-SendChain n m sequence now [] h = h
  mark_first-SendChain n m sequence now (e ∷ es) h = elim (Bool-cases (e.segment.seq == sequence)) [
    | inl p ↦ rw p h
    | inr p ↦
        rw p (h.0, h.1, mark_first-SendChain (n + payload_size e.segment) m sequence now es h.2)
  ]

  mark_first-HeadUncovered :
      (a sequence : ℕ) (now : T) (es : List (TcpSendEntry T))
      → HeadUncovered a es
      → HeadUncovered a (mark_first es sequence now)
  unfolding mark_first sequence_end
  mark_first-HeadUncovered a sequence now [] h = h
  mark_first-HeadUncovered a sequence now (e ∷ es) h =
      elim (Bool-cases (e.segment.seq == sequence)) [ inl p ↦ rw p h | inr p ↦ rw p h ]

  mark-Sending :
      (c : TcpConnection T) (base sequence : ℕ) (now : T)
      → Sending c base
      → Sending (mark_segment_retransmitted c sequence now).0 base
  unfolding mark_segment_retransmitted
  mark-Sending c base sequence now s =
      let (entries, capacity) = mark_retransmitted-entries c.send_buffer sequence now in
      moved-Sending c (mark_segment_retransmitted c sequence now).0 base base c.send_unacknowledged
        s (refl, refl, refl, capacity) s.ordered s.begins
        (rw entries
          (mark_first-SendChain base c.seq_num sequence now c.send_buffer.entries s.chain))
        (rw entries (
          mark_first-HeadUncovered c.send_unacknowledged sequence now c.send_buffer.entries
            s.front))

  mark-seq :
      (c : TcpConnection T) (sequence : ℕ) (now : T)
      → (mark_segment_retransmitted c sequence now).0.seq_num ≤ c.seq_num + 0
  unfolding mark_segment_retransmitted
  mark-seq c sequence now = omega arith

  queue_refused :
      (c : TcpConnection T) (segment : TcpSegment) (now : T)
      → (queue_sent_segment c segment now).1 ≡ false
      → (queue_sent_segment c segment now).0 ≡ c
  unfolding queue_sent_segment
  queue_refused c segment now h = ground arith

  queue_cases :
      (c : TcpConnection T) (base : ℕ) (segment : TcpSegment) (now : T)
      → Sending c base
      → c.seq_num + payload_size segment < u32_mod
      → let d = (queue_sent_segment c segment now).0 in
        ((base' : ℕ) × Sending d base') × (d.seq_num ≤ c.seq_num + payload_size segment)
  queue_cases c base segment now s w = elim (Bool-cases (queue_sent_segment c segment now).1) [
    | inl h ↦ (
      (base, queue-Sending c segment now base s h w),
      le_of_eq (queue_fields c segment now s.unlimited h w).1,
    )
    | inr h ↦ rw (queue_refused c segment now h) ((base, s), omega arith)
  ]

-- The bytes that a call may add to the queue.
abbrev pub call_bytes : {T : Type 0} → SenderCall T → ℕ
call_bytes (queues segment now) = payload_size segment
call_bytes _ = 0

module _ {T : Type 0} (f : Float T) where
  unfoldable pub call : TcpConnection T → SenderCall T → TcpConnection T
  call c (queues segment now) = (queue_sent_segment c segment now).0
  call c (acknowledges a now) = (receive_ack f c a now).0
  call c (times_out now) = on_send_timeout f c now
  call c (retransmits sequence now) = (mark_segment_retransmitted c sequence now).0
  call c (fast_retransmits flight_size now) = on_fast_retransmit f c flight_size now
  call c times_out_untimed = on_send_timeout_untimed f c
  call c reports_duplicate = record c {
    congestion_control = Congestion.on_duplicate_ack c.congestion_control;
  }
  call c resets_detection = reset_loss_detection c

  unfoldable pub calls : TcpConnection T → List (SenderCall T) → TcpConnection T
  calls c [] = c
  calls c (k ∷ ks) = calls (call c k) ks

  timeout-Sending :
      (c : TcpConnection T) (base : ℕ) (now : T)
      → Sending c base
      → Sending (on_send_timeout f c now) base × ((on_send_timeout f c now).seq_num ≤ c.seq_num)
  unfolding on_send_timeout
  timeout-Sending c base now s = (
    duplicate-Sending c (on_send_timeout f c now) base s
        (ground arith, ground arith, ground arith, ground arith),
    ground arith,
  )

  fast_retransmit-Sending :
      (c : TcpConnection T) (base flight_size : ℕ) (now : T)
      → Sending c base
      → Sending (on_fast_retransmit f c flight_size now) base
        × ((on_fast_retransmit f c flight_size now).seq_num ≤ c.seq_num)
  unfolding on_fast_retransmit
  fast_retransmit-Sending c base flight_size now s = (
    duplicate-Sending c (on_fast_retransmit f c flight_size now) base s
        (ground arith, ground arith, ground arith, ground arith),
    ground arith,
  )

  call-Sending :
      (c : TcpConnection T) (base : ℕ) (k : SenderCall T)
      → Sending c base
      → c.seq_num + call_bytes k < u32_mod
      → ((base' : ℕ) × Sending (call c k) base') × ((call c k).seq_num ≤ c.seq_num + call_bytes k)
  unfolding call on_send_timeout_untimed reset_loss_detection
  call-Sending c base (queues segment now) s w = queue_cases c base segment now s w
  call-Sending c base (acknowledges a now) s w =
      ((receive_ack_cases f c base a now s).1, omega (arith, receive_ack-seq f c base a now s))
  call-Sending c base (times_out now) s w =
      let (t, le) = timeout-Sending c base now s in ((base, t), omega arith)
  call-Sending c base (retransmits sequence now) s w =
      ((base, mark-Sending c base sequence now s), mark-seq c sequence now)
  call-Sending c base (fast_retransmits flight_size now) s w =
      let (t, le) = fast_retransmit-Sending c base flight_size now s in ((base, t), omega arith)
  call-Sending c base times_out_untimed s w =
      ((base, duplicate-Sending c _ base s (refl, refl, refl, refl)), omega arith)
  call-Sending c base reports_duplicate s w =
      ((base, duplicate-Sending c _ base s (refl, refl, refl, refl)), omega arith)
  call-Sending c base resets_detection s w =
      ((base, duplicate-Sending c _ base s (refl, refl, refl, refl)), omega arith)

  -- An established sender whose queue is in order stays so through any run of new segments,
  -- acknowledgements of any number, timeouts, retransmissions, fast retransmissions, duplicates that
  -- are reported to the congestion control and resets of the loss detection, as long as the bytes
  -- offered keep its sequence numbers below 2 ^ 32.
  pub calls-Sending :
      (c : TcpConnection T) (base : ℕ) (ks : List (SenderCall T))
      → Sending c base
      → c.seq_num + sum_by call_bytes ks < u32_mod
      → (base' : ℕ) × Sending (calls c ks) base'
  unfolding calls
  calls-Sending c base [] s w = (base, s)
  calls-Sending c base (k ∷ ks) s w =
      let ((base', t), le) = call-Sending c base k s (omega arith) in
      calls-Sending (call c k) base' ks t (omega arith)
