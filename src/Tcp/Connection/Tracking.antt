-- ===== src/Tcp/Connection/Tracking.antt =====
-- What the calls of core/src/network/transport/tcp/TCPConnection.cpp do to the congestion history: those
-- that leave it and the congestion control alone, and those that record a sample.
use gns.Base.{
  ◌≡◌, refl, sym, subst, ◌⊎◌, inl, inr, Bool, true, Option, none, some, last?, Bool-cases, arith,
  ltb, ℕ,
}
use gns.Base.Floats.{Float}
use gns.Tcp.Congestion
use gns.Tcp.Congestion.{CongestionControl, CongestionControlType, get_cwnd, get_ssthresh}
use gns.Tcp.Connection.{TcpConnection, same_sample, record_congestion_sample}
use gns.Base.Words.{sub_u32}
use gns.Tcp.LossDetector
use gns.Tcp.SendBuffer.{acknowledge_and_get_rtt}
use gns.Tcp.Connection.Samples.{NoRepeat, record-Recorded}
use gns.Tcp.Segment.{TcpSegment}
use gns.Tcp.Connection.Sending.{
  mark_segment_retransmitted, queue_sent_segment, receive_ack, notify_congestion, take_sample,
  on_acknowledged, receive_established_ack, update_send_unacknowledged,
}

module _ {T : Type 0} where
  -- An operation that leaves the congestion control and its history alone.
  pub record Kept (c d : TcpConnection T) : Type 0 where
    pub history : d.congestion_history ≡ c.congestion_history
    pub control : d.congestion_control ≡ c.congestion_control

  -- The history of a connection whose congestion control may have changed without a sample if `behind`
  -- is true: no two neighbours repeat, and otherwise the last sample is the present window and threshold.
  pub record Tracked (behind : Bool) (c : TcpConnection T) : Type 0 where
    pub distinct : NoRepeat c.congestion_history
    pub current :
        (behind ≡ true)
        ⊎ (same_sample
              (last? c.congestion_history)
              (get_cwnd c.congestion_control)
              (get_ssthresh c.congestion_control)
            ≡ true)

  pub Kept-Tracked : (c d : TcpConnection T) (b : Bool) → Kept c d → Tracked b c → Tracked b d
  Kept-Tracked c d b k h = record {
    distinct = rw k.history h.distinct;
    current = rw (k.history, k.control) h.current;
  }

  pub record-Tracked :
      (c : TcpConnection T) (now : T) (b : Bool)
      → NoRepeat c.congestion_history
      → Tracked b (record_congestion_sample c now)
  record-Tracked c now b n =
      let r = record-Recorded c now n in record { distinct = r.distinct; current = inr r.current }

  pub queue-Kept :
      (c : TcpConnection T) (segment : TcpSegment) (now : T)
      → Kept c (queue_sent_segment c segment now).0
  unfolding queue_sent_segment
  queue-Kept c segment now = ground arith

  pub mark-Kept :
      (c : TcpConnection T) (sequence : ℕ) (now : T)
      → Kept c (mark_segment_retransmitted c sequence now).0
  unfolding mark_segment_retransmitted
  mark-Kept c sequence now = record { history = refl; control = refl }

  una-Kept : (c : TcpConnection T) (a : ℕ) → Kept c (update_send_unacknowledged c a)
  unfolding update_send_unacknowledged
  una-Kept c a = ground arith

module _ {T : Type 0} (f : Float T) where
  take_sample-Kept : (c : TcpConnection T) (s : Option T) → Kept c (take_sample f c s)
  unfolding take_sample
  take_sample-Kept c none = record { history = refl; control = refl }
  take_sample-Kept c (some r) = record { history = refl; control = refl }

  notify_congestion-Tracked :
      (c : TcpConnection T) (n : ℕ) (now : T) (b : Bool)
      → Tracked b c
      → Tracked b (notify_congestion f c n now)
  unfolding notify_congestion
  notify_congestion-Tracked c n now b h = elim (Bool-cases (ltb 0 n)) [
    | inl p ↦ rw p (
        record-Tracked
          (record c { congestion_control = Congestion.on_ack f c.congestion_control n }) now b
          h.distinct)
    | inr p ↦ rw p h
  ]

  on_acknowledged-Tracked :
      (c : TcpConnection T) (a : ℕ) (now : T) (b : Bool)
      → Tracked b c
      → Tracked b (on_acknowledged f c a now)
  unfolding on_acknowledged
  on_acknowledged-Tracked c a now b h =
      let (buffer, sample) = acknowledge_and_get_rtt f c.send_buffer a now in
      let r : TcpConnection T = record c { send_buffer = buffer } in
      let d = update_send_unacknowledged r a in
      let e = notify_congestion f d (sub_u32 a c.send_unacknowledged) now in
      Kept-Tracked e (take_sample f e sample) b (take_sample-Kept e sample) (
        notify_congestion-Tracked d (sub_u32 a c.send_unacknowledged) now b (
          Kept-Tracked r d b (una-Kept r a)
            (record { distinct = h.distinct; current = h.current })))

  receive_established_ack-Tracked :
      (c : TcpConnection T) (a : ℕ) (now : T) (b : Bool)
      → Tracked b c
      → Tracked b (receive_established_ack f c a now).0
  unfolding receive_established_ack
  receive_established_ack-Tracked c a now b h =
      let observed : TcpConnection T = record c {
        loss_detector = (LossDetector.observe_ack c.loss_detector a).0;
      } in
      let duplicated : TcpConnection T = record observed {
        congestion_control = Congestion.on_duplicate_ack c.congestion_control;
      } in
      grind (
        arith,
        record-Tracked duplicated now b h.distinct,
        on_acknowledged-Tracked observed a now b
            (record { distinct = h.distinct; current = h.current }),
      )

  receive_ack-Kept :
      (c : TcpConnection T) (a : ℕ) (now : T)
      → Kept c (receive_ack f c a now).0
        ⊎ (receive_ack f c a now ≡ receive_established_ack f c a now)
  unfolding receive_ack
  receive_ack-Kept c a now = ground arith

  pub receive_ack-Tracked :
      (c : TcpConnection T) (a : ℕ) (now : T) (b : Bool)
      → Tracked b c
      → Tracked b (receive_ack f c a now).0
  receive_ack-Tracked c a now b h = elim (receive_ack-Kept c a now) [
    | inl k ↦ Kept-Tracked c _ b k h
    | inr e ↦
        subst (λ (r : TcpConnection T × Bool). Tracked b r.0) (sym e)
          (receive_established_ack-Tracked c a now b h)
  ]
