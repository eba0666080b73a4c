-- ===== src/Tcp/Connection/Flow.antt =====
-- The send window of core/src/network/transport/tcp/TCPConnection.cpp: what may be sent, what an
-- acknowledgement does, and what happens where the 32-bit sequence numbers wrap around.
use gns.Base.{ℕ, ◌+◌, ◌≤◌, ◌<◌, ◌≡◌, ◌∙◌, true, false, arith}
use gns.Base.Words.{u32_mod}
use gns.Base.Floats.{Float}
use gns.Tcp.StateMachine.{established}
use gns.Tcp.Segment.{TcpSegment, payload_size}
use gns.Tcp.Connection.{TcpConnection, get_tcp_state}
use gns.Tcp.Connection.Sending.{queue_sent_segment, receive_established_ack, receive_ack}

module _ {T : Type 0} where
  -- The words that the send window is computed from.
  pub record SendWords (c : TcpConnection T) : Type 0 where
    pub seq_word : c.seq_num < u32_mod
    pub una_word : c.send_unacknowledged < u32_mod
    pub window_word : c.send_window < u32_mod

module _ {T : Type 0} (f : Float T) where
  pub receive_ack-established :
      (c : TcpConnection T) (a : ℕ) (now : T)
      → get_tcp_state c ≡ established
      → receive_ack f c a now ≡ receive_established_ack f c a now
  unfolding receive_ack
  receive_ack-established c a now e = ground arith

  wrapped_rejects :
      (c : TcpConnection T) (a : ℕ) (now : T)
      → get_tcp_state c ≡ established
      → c.seq_num < c.send_unacknowledged
      → receive_ack f c a now ≡ (c, false)
  unfolding receive_established_ack
  wrapped_rejects c a now e h = receive_ack-established c a now e ∙ ground arith

  -- Once an established connection with nothing in flight has queued a segment whose end lies at
  -- 2 ^ 32 or beyond, it refuses every acknowledgement, the one of exactly that segment included,
  -- and its state does not change by any of them.
  pub wrapped_segment_unacknowledged :
      (c : TcpConnection T) (segment : TcpSegment) (sent_at : T) (a : ℕ) (now : T)
      → SendWords c
      → get_tcp_state c ≡ established
      → c.send_unacknowledged ≡ c.seq_num
      → u32_mod ≤ c.seq_num + payload_size segment
      → (queue_sent_segment c segment sent_at).1 ≡ true
      → let d = (queue_sent_segment c segment sent_at).0 in receive_ack f d a now ≡ (d, false)
  unfolding queue_sent_segment
  wrapped_segment_unacknowledged c segment sent_at a now w e u h q =
      wrapped_rejects (queue_sent_segment c segment sent_at).0 a now (ground arith) (ground arith)
