-- ===== src/Tcp/Connection/Duplicates.antt =====
-- Duplicate acknowledgements and retransmission counts of core/src/network/transport/tcp/
-- TCPConnection.cpp: when the connection asks for a fast retransmission, and when it gives up.
use gns.Base.{ℕ, zero, suc, ◌+◌, ◌%◌, ◌≤◌, ◌<◌, ◌≡◌, refl, ◌∙◌, ◌↔◌, true, some, arith}
use gns.Base.Words.{u32_mod}
use gns.Base.Floats.{Float}
use gns.Tcp.StateMachine.{established}
use gns.Tcp.Segment.{TcpSegment, payload_size}
use gns.Tcp.SendBuffer.{TcpSendEntry, find, mark_entry}
use gns.Tcp.SendBuffer.Laws.{mark_retransmitted_lem}
use gns.Tcp.LossDetector
use gns.Tcp.LossDetector.{TcpLossDetector}
use gns.Tcp.Connection.{TcpConnection, get_tcp_state, reset_loss_detection}
use gns.Tcp.Connection.Sending.{
  queue_sent_segment, receive_ack, should_fast_retransmit, mark_segment_retransmitted,
  get_retransmission_count, can_retransmit, get_oldest_outstanding_sequence,
}
use gns.Tcp.Connection.Sender.{Sending, queue-Sending}
use gns.Tcp.Connection.Acknowledge.{duplicate_fields}
use gns.Tcp.Connection.Flow.{receive_ack-established}

module _ {T : Type 0} (f : Float T) where
  -- `n` acknowledgements of SND.UNA.
  pub duplicates : ℕ → TcpConnection T → T → TcpConnection T
  duplicates zero c now = c
  duplicates (suc n) c now =
      let d = duplicates n c now in (receive_ack f d d.send_unacknowledged now).0

  -- What `n` duplicates leave of an established sender whose detector was reset.
  record Counted (c d : TcpConnection T) (n : ℕ) : Type 0 where
    pub buffer : d.send_buffer ≡ c.send_buffer
    pub una : d.send_unacknowledged ≡ c.send_unacknowledged
    pub next : d.seq_num ≡ c.seq_num
    pub state : get_tcp_state d ≡ get_tcp_state c
    pub detector : d.loss_detector ≡ record {
      last_ack = c.send_unacknowledged;
      duplicate_ack_count = n % u32_mod;
      has_ack = true;
    }

  observe_again :
      (a n : ℕ)
      → (LossDetector.observe_ack
          (record { last_ack = a; duplicate_ack_count = n % u32_mod; has_ack = true })
          a).0
        ≡ record { last_ack = a; duplicate_ack_count = suc n % u32_mod; has_ack = true }
  unfolding LossDetector.observe_ack
  observe_again a n = ground arith

  duplicates-Counted :
      (c : TcpConnection T) (n : ℕ) (now : T)
      → get_tcp_state c ≡ established
      → c.send_unacknowledged ≤ c.seq_num
      → Counted c c 0
      → Counted c (duplicates n c now) n
  unfolding duplicates
  duplicates-Counted c zero now o le h = h
  duplicates-Counted c (suc n) now o le h =
      let d = duplicates n c now in
      let i = duplicates-Counted c n now o le h in
      let (_, buffer, una, next, detector, state) =
        duplicate_fields f d d.send_unacknowledged now (rw (i.una, i.next) le) refl in
      rw (duplicates, receive_ack-established f d d.send_unacknowledged now (i.state ∙ o))
        (record {
          buffer = buffer ∙ i.buffer;
          una = una ∙ i.una;
          next = next ∙ i.next;
          state = state ∙ i.state;
          detector = detector ∙ rw (i.detector, i.una) (observe_again c.send_unacknowledged n);
        })

  queue-Counted :
      (c : TcpConnection T) (segment : TcpSegment) (sent_at : T)
      → (queue_sent_segment c segment sent_at).1 ≡ true
      → let d = (queue_sent_segment c segment sent_at).0 in Counted d d 0
  unfolding queue_sent_segment reset_loss_detection LossDetector.observe_ack LossDetector.reset
  queue-Counted c segment sent_at q = ground arith

  -- After an established sender whose queue is in order has queued a segment below 2 ^ 32, fewer
  -- than 2 ^ 32 acknowledgements of SND.UNA make it ask for a fast retransmission exactly when there
  -- are three or more of them, and the segment that it is to send again is still the oldest one.
  pub duplicates_trigger :
      (c : TcpConnection T) (segment : TcpSegment) (sent_at : T) (base n : ℕ) (now : T)
      → Sending c base
      → (queue_sent_segment c segment sent_at).1 ≡ true
      → c.seq_num + payload_size segment < u32_mod
      → n < u32_mod
      → let d = (queue_sent_segment c segment sent_at).0 in
        let e = duplicates n d now in
        ((should_fast_retransmit e ≡ true) ↔ (3 ≤ n))
        × (get_oldest_outstanding_sequence e ≡ get_oldest_outstanding_sequence d)
  unfolding should_fast_retransmit get_oldest_outstanding_sequence
  duplicates_trigger c segment sent_at base n now s q w l =
      let d = (queue_sent_segment c segment sent_at).0 in
      let t = queue-Sending c segment sent_at base s q w in
      let h = duplicates-Counted d n now t.opened t.ordered (queue-Counted c segment sent_at q) in
      (rw h.detector (ground arith), rw h.buffer refl)

module _ {T : Type 0} where
  -- `k` retransmissions of the segment that begins at `sequence`.
  pub retransmit_times : ℕ → TcpConnection T → ℕ → T → TcpConnection T
  retransmit_times zero c sequence now = c
  retransmit_times (suc k) c sequence now =
      (mark_segment_retransmitted (retransmit_times k c sequence now) sequence now).0

  find_retransmitted :
      (c : TcpConnection T) (sequence k : ℕ) (now : T) (e : TcpSendEntry T)
      → find c.send_buffer sequence ≡ some e
      → e.retransmission_count ≡ 0
      → (e' : TcpSendEntry T) × (find (retransmit_times k c sequence now).send_buffer sequence
          ≡ some e')
        × (e'.retransmission_count ≡ k % u32_mod)
  unfolding retransmit_times mark_segment_retransmitted mark_entry
  find_retransmitted c sequence zero now e h z = (e, h, z)
  find_retransmitted c sequence (suc k) now e h z =
      let (e', found, count) = find_retransmitted c sequence k now e h z in
      let d = retransmit_times k c sequence now in
      let (marked, _, _) = mark_retransmitted_lem d.send_buffer sequence sequence now in
      (mark_entry e' now, marked ∙ ground (arith, found), ground (arith, count))

  -- A segment in the queue that was sent once may be retransmitted as long as that has happened
  -- fewer than five times, and the connection counts the retransmissions, up to 2 ^ 32 of them.
  pub retransmission_limit :
      (c : TcpConnection T) (sequence k : ℕ) (now : T) (e : TcpSendEntry T)
      → find c.send_buffer sequence ≡ some e
      → e.retransmission_count ≡ 0
      → k < u32_mod
      → let d = retransmit_times k c sequence now in
        (get_retransmission_count d sequence ≡ k) × ((can_retransmit d sequence ≡ true) ↔ (k < 5))
  unfolding get_retransmission_count can_retransmit
  retransmission_limit c sequence k now e h z l =
      let (e', found, count) = find_retransmitted c sequence k now e h z in
      rw (get_retransmission_count, can_retransmit, found) (ground (arith, count))
