-- ===== src/Tcp/Congestion/Cubic.antt =====
-- core/include/network/transport/tcp/congestion/CubicCongestionControl.hpp and
-- core/src/network/transport/tcp/congestion/CubicCongestionControl.cpp.
use gns.Base.{
  ℕ, max, min, Bool, true, false, not, ◌||◌, Option, none, some, ltb, ◌==◌, if◌then◌else◌,
}
use gns.Base.Words.{u32, u32_max}
use gns.Base.Floats.{Float, float_max}
use gns.Tcp.Congestion.Window.{saturating_add, slow_start, capped_add, minimum_ssthresh}

pub record CubicCongestionControl (T : Type 0) : Type 0 where
  pub mss : ℕ  -- uint32, as the other numbers
  pub initial_ssthresh : ℕ
  pub cwnd : ℕ
  pub ssthresh : ℕ
  pub w_max : ℕ
  pub beta : T
  pub c : T
  pub fast_recovery : Bool

module _ {T : Type 0} (f : Float T) where
  -- The constructor throws on a zero MSS, and on a beta or C out of range.
  unfoldable pub create : ℕ → ℕ → T → T → Option (CubicCongestionControl T)
  create mss initial_ssthresh beta c =
      if mss == 0
      then none
      else if not (f.is_finite beta) || (f.le beta (f.literal 0 1) || f.le (f.literal 1 1) beta)
      then none
      else if not (f.is_finite c) || f.le c (f.literal 0 1)
      then none
      else some (record {
        mss = mss;
        initial_ssthresh = initial_ssthresh;
        cwnd = mss;
        ssthresh = max initial_ssthresh (minimum_ssthresh mss);
        w_max = mss;
        beta = beta;
        c = c;
        fast_recovery = false;
      })

  -- `increase_bytes`: the growth towards the cubic target, rounded up. The source computes a
  -- `distance` too, which it does not use.
  unfoldable pub increase_bytes : CubicCongestionControl T → ℕ → ℕ
  increase_bytes s acknowledged_bytes =
      let mss = f.literal s.mss 1 in
      let cwnd = f.literal s.cwnd 1 in
      let w_max = f.literal s.w_max 1 in
      let normalized_ack = f.div (f.literal acknowledged_bytes 1) mss in
      let current_window = f.div cwnd mss in
      let max_window = f.div w_max mss in
      let root = f.cbrt (f.div (f.mul max_window (f.sub (f.literal 1 1) s.beta)) s.c) in
      let cube = f.pow (f.sub normalized_ack root) (f.literal 3 1) in
      let cubic_target = f.add w_max (f.mul (f.mul s.c cube) mss) in
      let target = float_max f mss cubic_target in
      let increase =
        float_max f (f.literal 1 1)
          (f.div (f.sub target cwnd) (float_max f (f.literal 1 1) current_window)) in
      f.to_u64 (f.ceil increase)

  unfoldable pub on_ack : CubicCongestionControl T → ℕ → CubicCongestionControl T
  on_ack s acknowledged_bytes =
      if acknowledged_bytes == 0 || s.fast_recovery
      then s
      else if ltb s.cwnd s.ssthresh
      then record s { cwnd = slow_start s.mss s.cwnd acknowledged_bytes }
      else record s { cwnd = capped_add s.cwnd (increase_bytes s acknowledged_bytes) }

  -- The threshold after a reduction of `window` by the factor beta.
  unfoldable pub reduced_ssthresh : CubicCongestionControl T → ℕ → ℕ
  reduced_ssthresh s window =
      let reduced = f.to_u64 (f.floor (f.mul (f.literal window 1) s.beta)) in
      max (minimum_ssthresh s.mss) (u32 (min (max s.mss reduced) u32_max))

  unfoldable pub on_loss : CubicCongestionControl T → CubicCongestionControl T
  on_loss s =
      let ssthresh = reduced_ssthresh s s.cwnd in
      record s { w_max = s.cwnd; ssthresh = ssthresh; cwnd = ssthresh; fast_recovery = false }

  unfoldable pub on_fast_retransmit : CubicCongestionControl T → ℕ → CubicCongestionControl T
  on_fast_retransmit s flight_size =
      let ssthresh = reduced_ssthresh s flight_size in
      record s { w_max = s.cwnd; ssthresh = ssthresh; cwnd = ssthresh; fast_recovery = true }

module _ {T : Type 0} where
  unfoldable pub on_duplicate_ack : CubicCongestionControl T → CubicCongestionControl T
  on_duplicate_ack s =
      if not s.fast_recovery then s else record s { cwnd = saturating_add s.cwnd s.mss }

  unfoldable pub on_recovery_ack : CubicCongestionControl T → ℕ → Bool → CubicCongestionControl T
  on_recovery_ack s acknowledged_bytes recovery_complete =
      if not s.fast_recovery
      then s
      else if not recovery_complete
      then s
      else record s { cwnd = s.ssthresh; fast_recovery = false }

  unfoldable pub reset : CubicCongestionControl T → CubicCongestionControl T
  reset s = record s {
    cwnd = s.mss;
    ssthresh = max s.initial_ssthresh (minimum_ssthresh s.mss);
    w_max = s.mss;
    fast_recovery = false;
  }
