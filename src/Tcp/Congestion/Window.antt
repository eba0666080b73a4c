-- ===== src/Tcp/Congestion/Window.antt =====
-- The arithmetic that the four congestion control algorithms of
-- core/src/network/transport/tcp/congestion/ have in common, with its saturation at 2 ^ 32 - 1.
use gns.Base.{ℕ, ◌-◌, ◌*◌, ◌/◌, ◌%◌, min, max, Bool, false, ltb, leb, if◌then◌else◌}
use gns.Base.Words.{u32, u32_max, mul_u32, add_u32, size_mod}

-- `if (cwnd_ > max_value - increase) cwnd_ = max_value; else cwnd_ += increase;`
unfoldable pub saturating_add : ℕ → ℕ → ℕ
saturating_add cwnd increase =
    if ltb (u32_max - increase) cwnd then u32_max else add_u32 cwnd increase

-- One acknowledgement in slow start.
unfoldable pub slow_start : ℕ → ℕ → ℕ → ℕ
unfolding saturating_add
slow_start mss cwnd acknowledged_bytes = saturating_add cwnd (min acknowledged_bytes mss)

-- `if (increase >= max_value - cwnd_) cwnd_ = max_value; else cwnd_ += increase;` with a 64-bit
-- increase.
unfoldable pub capped_add : ℕ → ℕ → ℕ
capped_add cwnd increase =
    if leb (u32_max - cwnd) increase then u32_max else add_u32 cwnd (u32 increase)

-- One acknowledgement in congestion avoidance: the increase is mss² / cwnd, but at least 1.
unfoldable pub congestion_avoidance : ℕ → ℕ → ℕ
unfolding capped_add
congestion_avoidance mss cwnd = capped_add cwnd (max 1 (mss * mss % size_mod / cwnd))

-- `2 * mss`, the smallest slow-start threshold, and `3 * mss`.
abbrev pub minimum_ssthresh : ℕ → ℕ
minimum_ssthresh mss = mul_u32 2 mss

abbrev pub recovery_increase : ℕ → ℕ
recovery_increase mss = mul_u32 3 mss

-- `canSend` of every algorithm.
unfoldable pub can_send_within : ℕ → ℕ → ℕ → Bool
can_send_within cwnd bytes_in_flight segment_size =
    if ltb cwnd bytes_in_flight then false else leb segment_size (cwnd - bytes_in_flight)
