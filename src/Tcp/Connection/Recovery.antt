-- ===== src/Tcp/Connection/Recovery.antt =====
-- Fast recovery in core/src/network/transport/tcp/TCPConnection.cpp, under any
-- acknowledgements.
use gns.Base.{ℕ, ◌≤◌, ◌≡◌, refl, ◌∙◌, ◌⊎◌, inl, inr, true, false, Bool, List, [], ◌∷◌, arith}
use gns.Base.Words.{sub_u32}
use gns.Base.Floats.{Float}
use gns.Tcp.Congestion
use gns.Tcp.Congestion.{CongestionControl, tahoe, reno, new_reno, cubic, get_cwnd, get_ssthresh}
use gns.Tcp.Congestion.Safety.{IsSafe, saturating_add_bounds, slow_start_bounds, avoidance_bounds}
use gns.Tcp.Connection.{TcpConnection}
use gns.Tcp.Connection.Sending.{receive_ack}

abbrev pub in_fast_recovery : {T : Type 0} → CongestionControl T → Bool
in_fast_recovery (tahoe c) = false
in_fast_recovery (reno c) = c.fast_recovery
in_fast_recovery (new_reno c) = c.fast_recovery
in_fast_recovery (cubic c) = c.fast_recovery

module _ {T : Type 0} (f : Float T) where
  receive_ack_control :
      (c : TcpConnection T) (a : ℕ) (now : T)
      → let d = (receive_ack f c a now).0.congestion_control in
        (d ≡ c.congestion_control)
        ⊎ ((d ≡ Congestion.on_duplicate_ack c.congestion_control)
            ⊎ (d ≡ Congestion.on_ack f c.congestion_control (sub_u32 a c.send_unacknowledged)))
  unfolding receive_ack
  receive_ack_control c a now = ground arith

  -- The effect of the three cases on an algorithm that is in fast recovery.
  pub record StillRecovering (old new : CongestionControl T) : Type 0 where
    pub recovering : in_fast_recovery new ≡ true
    pub safe : IsSafe new
    pub window : get_cwnd old ≤ get_cwnd new
    pub threshold : get_ssthresh new ≡ get_ssthresh old

  duplicate-StillRecovering :
      (c : CongestionControl T)
      → in_fast_recovery c ≡ true
      → IsSafe c
      → StillRecovering c (Congestion.on_duplicate_ack c)
  unfolding Congestion.on_duplicate_ack get_cwnd get_ssthresh
  duplicate-StillRecovering (tahoe c) r s = ground arith
  duplicate-StillRecovering (reno c) r s = grind (arith, saturating_add_bounds)
  duplicate-StillRecovering (new_reno c) r s = grind (arith, saturating_add_bounds)
  duplicate-StillRecovering (cubic c) r s = grind (arith, saturating_add_bounds)

  ack-StillRecovering :
      (c : CongestionControl T) (n : ℕ)
      → in_fast_recovery c ≡ true
      → IsSafe c
      → StillRecovering c (Congestion.on_ack f c n)
  unfolding Congestion.on_ack get_cwnd get_ssthresh
  ack-StillRecovering (tahoe c) n r s = ground arith
  ack-StillRecovering (reno c) n r s = grind (arith, slow_start_bounds, avoidance_bounds)
  ack-StillRecovering (new_reno c) n r s = ground arith
  ack-StillRecovering (cubic c) n r s = ground arith

  StillRecovering-self :
      (c : CongestionControl T) → in_fast_recovery c ≡ true → IsSafe c → StillRecovering c c
  StillRecovering-self c r s = record {
    recovering = r;
    safe = s;
    window = omega arith;
    threshold = refl;
  }

  receive_ack-StillRecovering :
      (c : TcpConnection T) (a : ℕ) (now : T)
      → in_fast_recovery c.congestion_control ≡ true
      → IsSafe c.congestion_control
      → StillRecovering c.congestion_control (receive_ack f c a now).0.congestion_control
  receive_ack-StillRecovering c a now r s = elim (receive_ack_control c a now) [
    | inl e ↦ rw e (StillRecovering-self c.congestion_control r s)
    | inr (inl e) ↦ rw e (duplicate-StillRecovering c.congestion_control r s)
    | inr (inr e) ↦
        rw e (ack-StillRecovering c.congestion_control (sub_u32 a c.send_unacknowledged) r s)
  ]

  pub receive_acks : TcpConnection T → List (ℕ × T) → TcpConnection T
  receive_acks c [] = c
  receive_acks c ((a, now) ∷ as') = receive_acks (receive_ack f c a now).0 as'

  -- No acknowledgements end a fast recovery, the one of all outstanding data included: whatever
  -- numbers arrive, the algorithm stays in fast recovery, its window never shrinks, and its
  -- threshold stays as it was.
  pub recovery_never_ends :
      (c : TcpConnection T) (as' : List (ℕ × T))
      → in_fast_recovery c.congestion_control ≡ true
      → IsSafe c.congestion_control
      → StillRecovering c.congestion_control (receive_acks c as').congestion_control
  unfolding receive_acks
  recovery_never_ends c [] r s = StillRecovering-self c.congestion_control r s
  recovery_never_ends c ((a, now) ∷ as') r s =
      let one = receive_ack-StillRecovering c a now r s in
      let rest = recovery_never_ends (receive_ack f c a now).0 as' one.recovering one.safe in
      record {
        recovering = rest.recovering;
        safe = rest.safe;
        window = omega (arith, one.window, rest.window);
        threshold = rest.threshold ∙ one.threshold;
      }
