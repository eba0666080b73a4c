-- ===== src/Tcp/Congestion.antt =====
-- core/include/network/transport/tcp/congestion/CongestionControl.hpp, CongestionControlType.hpp and
-- CongestionControlFactory.hpp with core/src/network/transport/tcp/congestion/
-- CongestionControlFactory.cpp. The abstract class is a sum of its four implementations, and a
-- virtual method is the function that dispatches to them.
pub mod Window
pub mod Tahoe
pub mod Reno
pub mod NewReno
pub mod Cubic
pub mod Notices
pub mod Safety
pub mod Equivalence
pub mod Growth
use Tahoe
use Reno
use NewReno
use Cubic
use Window.{can_send_within}
use Tahoe.{TahoeCongestionControl}
use Reno.{RenoCongestionControl}
use NewReno.{NewRenoCongestionControl}
use Cubic.{CubicCongestionControl}
use mathlib.Core.Option
use gns.Base.{ℕ, Bool, Option}
use gns.Base.Floats.{Float}

pub data CongestionControlType : Type 0 where
  tahoe_type reno_type new_reno_type cubic_type : CongestionControlType

pub data CongestionControl (T : Type 0) : Type 0 where
  tahoe : TahoeCongestionControl → CongestionControl T
  reno : RenoCongestionControl → CongestionControl T
  new_reno : NewRenoCongestionControl → CongestionControl T
  cubic : CubicCongestionControl T → CongestionControl T

module _ {T : Type 0} where
  unfoldable pub get_cwnd : CongestionControl T → ℕ
  get_cwnd (tahoe c) = c.cwnd
  get_cwnd (reno c) = c.cwnd
  get_cwnd (new_reno c) = c.cwnd
  get_cwnd (cubic c) = c.cwnd

  unfoldable pub get_ssthresh : CongestionControl T → ℕ
  get_ssthresh (tahoe c) = c.ssthresh
  get_ssthresh (reno c) = c.ssthresh
  get_ssthresh (new_reno c) = c.ssthresh
  get_ssthresh (cubic c) = c.ssthresh

  unfoldable pub get_mss : CongestionControl T → ℕ
  get_mss (tahoe c) = c.mss
  get_mss (reno c) = c.mss
  get_mss (new_reno c) = c.mss
  get_mss (cubic c) = c.mss

  unfoldable pub can_send : CongestionControl T → ℕ → ℕ → Bool
  unfolding get_cwnd can_send_within
  can_send c bytes_in_flight segment_size =
      can_send_within (get_cwnd c) bytes_in_flight segment_size

  unfoldable pub on_duplicate_ack : CongestionControl T → CongestionControl T
  unfolding Reno.on_duplicate_ack NewReno.on_duplicate_ack Cubic.on_duplicate_ack
  on_duplicate_ack (tahoe c) = tahoe c
  on_duplicate_ack (reno c) = reno (Reno.on_duplicate_ack c)
  on_duplicate_ack (new_reno c) = new_reno (NewReno.on_duplicate_ack c)
  on_duplicate_ack (cubic c) = cubic (Cubic.on_duplicate_ack c)

  unfoldable pub on_recovery_ack : CongestionControl T → ℕ → Bool → CongestionControl T
  unfolding Reno.on_recovery_ack NewReno.on_recovery_ack Cubic.on_recovery_ack
  on_recovery_ack (tahoe c) n complete = tahoe c
  on_recovery_ack (reno c) n complete = reno (Reno.on_recovery_ack c n complete)
  on_recovery_ack (new_reno c) n complete = new_reno (NewReno.on_recovery_ack c n complete)
  on_recovery_ack (cubic c) n complete = cubic (Cubic.on_recovery_ack c n complete)

  unfoldable pub reset : CongestionControl T → CongestionControl T
  unfolding Tahoe.reset Reno.reset NewReno.reset Cubic.reset
  reset (tahoe c) = tahoe (Tahoe.reset c)
  reset (reno c) = reno (Reno.reset c)
  reset (new_reno c) = new_reno (NewReno.reset c)
  reset (cubic c) = cubic (Cubic.reset c)

module _ {T : Type 0} (f : Float T) where
  -- The defaults of CubicCongestionControl.hpp for beta and C.
  abbrev pub default_beta : T
  default_beta = f.literal 7 10

  abbrev pub default_c : T
  default_c = f.literal 2 5

  -- `CongestionControlFactory::create`; none where a constructor throws.
  unfoldable pub create : CongestionControlType → ℕ → ℕ → Option (CongestionControl T)
  unfolding Tahoe.create Reno.create NewReno.create Cubic.create
  create tahoe_type mss initial_ssthresh = Option.map tahoe (Tahoe.create mss initial_ssthresh)
  create reno_type mss initial_ssthresh = Option.map reno (Reno.create mss initial_ssthresh)
  create new_reno_type mss initial_ssthresh =
      Option.map new_reno (NewReno.create mss initial_ssthresh)
  create cubic_type mss initial_ssthresh =
      Option.map cubic (Cubic.create f mss initial_ssthresh default_beta default_c)

  unfoldable pub on_ack : CongestionControl T → ℕ → CongestionControl T
  unfolding Tahoe.on_ack Reno.on_ack NewReno.on_ack Cubic.on_ack
  on_ack (tahoe c) n = tahoe (Tahoe.on_ack c n)
  on_ack (reno c) n = reno (Reno.on_ack c n)
  on_ack (new_reno c) n = new_reno (NewReno.on_ack c n)
  on_ack (cubic c) n = cubic (Cubic.on_ack f c n)

  unfoldable pub on_loss : CongestionControl T → CongestionControl T
  unfolding Tahoe.on_loss Reno.on_loss NewReno.on_loss Cubic.on_loss
  on_loss (tahoe c) = tahoe (Tahoe.on_loss c)
  on_loss (reno c) = reno (Reno.on_loss c)
  on_loss (new_reno c) = new_reno (NewReno.on_loss c)
  on_loss (cubic c) = cubic (Cubic.on_loss f c)

  unfoldable pub on_fast_retransmit : CongestionControl T → ℕ → CongestionControl T
  unfolding Tahoe.on_fast_retransmit Reno.on_fast_retransmit NewReno.on_fast_retransmit
      Cubic.on_fast_retransmit
  on_fast_retransmit (tahoe c) n = tahoe (Tahoe.on_fast_retransmit c n)
  on_fast_retransmit (reno c) n = reno (Reno.on_fast_retransmit c n)
  on_fast_retransmit (new_reno c) n = new_reno (NewReno.on_fast_retransmit c n)
  on_fast_retransmit (cubic c) n = cubic (Cubic.on_fast_retransmit f c n)
