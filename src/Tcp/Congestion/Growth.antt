-- ===== src/Tcp/Congestion/Growth.antt =====
-- How far one acknowledgement moves the window of core/src/network/transport/tcp/congestion.
use native.Mathlib.Nat.{mod-eq_of_lt}
use gns.Base.{ℕ, ◌+◌, ◌*◌, ◌/◌, ◌%◌, ◌≤◌, ◌<◌, ◌≡◌, max, min, false, arith}
use gns.Base.Words.{u32_max, u32_mod, size_mod}
use gns.Base.Floats.{Float}
use gns.Tcp.Congestion.Window.{saturating_add, slow_start, capped_add, congestion_avoidance}
use gns.Tcp.Congestion.Safety.{IsSafe}
use gns.Tcp.Congestion.{
  CongestionControl, tahoe, reno, new_reno, cubic, on_ack, get_cwnd, get_ssthresh, get_mss,
}

square-div : (mss cwnd : ℕ) → 0 < mss → mss ≤ cwnd → mss * mss / cwnd ≤ mss
square-div mss cwnd p h = grind arith

capped_add_step :
    (cwnd increase mss : ℕ)
    → cwnd ≤ u32_max
    → 0 < increase
    → increase ≤ mss
    → (capped_add cwnd increase ≤ cwnd + mss) × (min (cwnd + 1) u32_max ≤ capped_add cwnd increase)
unfolding capped_add
capped_add_step cwnd increase mss h p k = ground arith

square-word : (mss : ℕ) → mss < u32_mod → mss * mss < size_mod
square-word mss h = grind arith

avoidance_step :
    (mss cwnd : ℕ)
    → 0 < mss
    → mss ≤ cwnd
    → mss < u32_mod
    → cwnd ≤ u32_max
    → (congestion_avoidance mss cwnd ≤ cwnd + mss)
      × (min (cwnd + 1) u32_max ≤ congestion_avoidance mss cwnd)
unfolding congestion_avoidance
avoidance_step mss cwnd p l m h =
    capped_add_step cwnd (max 1 (mss * mss % size_mod / cwnd)) mss h (omega arith)
      (rw (mod-eq_of_lt (square-word mss m)) (omega (arith, square-div mss cwnd p l)))

slow_start_step :
    (mss cwnd acknowledged : ℕ)
    → 0 < mss
    → mss < u32_mod
    → cwnd ≤ u32_max
    → 0 < acknowledged
    → (slow_start mss cwnd acknowledged ≤ cwnd + mss)
      × (min (cwnd + 1) u32_max ≤ slow_start mss cwnd acknowledged)
unfolding slow_start saturating_add
slow_start_step mss cwnd acknowledged p m h a = ground arith

-- The algorithms whose growth depends on the window and the MSS alone, outside fast recovery.
abbrev pub GrowsLinearly : {T : Type 0} → CongestionControl T → Type 0
GrowsLinearly (tahoe c) = Unit
GrowsLinearly (reno c) = Unit
GrowsLinearly (new_reno c) = c.fast_recovery ≡ false
GrowsLinearly (cubic c) = ⊥

module _ {T : Type 0} (f : Float T) where
  -- An acknowledgement of new data makes the window of Tahoe, Reno and, outside fast recovery,
  -- NewReno grow by one byte at least, unless it stands at 2 ^ 32 - 1, and by one MSS at most; it
  -- leaves the threshold as it was.
  pub on_ack_growth :
      (c : CongestionControl T) (acknowledged : ℕ)
      → IsSafe c
      → GrowsLinearly c
      → 0 < acknowledged
      → (min (get_cwnd c + 1) u32_max ≤ get_cwnd (on_ack f c acknowledged))
        × (get_cwnd (on_ack f c acknowledged) ≤ get_cwnd c + get_mss c)
        × (get_ssthresh (on_ack f c acknowledged) ≡ get_ssthresh c)
  unfolding on_ack get_cwnd get_mss get_ssthresh
  on_ack_growth (tahoe c) a s g p =
      ground (arith, slow_start_step c.mss c.cwnd a, avoidance_step c.mss c.cwnd)
  on_ack_growth (reno c) a s g p =
      ground (arith, slow_start_step c.mss c.cwnd a, avoidance_step c.mss c.cwnd)
  on_ack_growth (new_reno c) a s g p =
      ground (arith, slow_start_step c.mss c.cwnd a, avoidance_step c.mss c.cwnd)
  on_ack_growth (cubic c) a s g p = absurd g
