-- ===== src/Tcp/Congestion/Notices.antt =====
-- The notifications that an algorithm receives through the interface of CongestionControl.hpp, and
-- what a history of them leaves behind.
use gns.Base.{ℕ, Bool, List, [], ◌∷◌}
use gns.Base.Floats.{Float}
use gns.Tcp.Congestion.{
  CongestionControl, on_ack, on_loss, on_fast_retransmit, on_duplicate_ack, on_recovery_ack, reset,
}

pub data Notice : Type 0 where
  acked : ℕ → Notice
  lost : Notice
  fast_retransmitted : ℕ → Notice
  duplicated : Notice
  recovery_acked : ℕ → Bool → Notice
  restarted : Notice

module _ {T : Type 0} (f : Float T) where
  unfoldable pub notify : CongestionControl T → Notice → CongestionControl T
  unfolding on_ack on_loss on_fast_retransmit on_duplicate_ack on_recovery_ack reset
  notify c (acked n) = on_ack f c n
  notify c lost = on_loss f c
  notify c (fast_retransmitted n) = on_fast_retransmit f c n
  notify c duplicated = on_duplicate_ack c
  notify c (recovery_acked n complete) = on_recovery_ack c n complete
  notify c restarted = reset c

  unfoldable pub notify_all : CongestionControl T → List Notice → CongestionControl T
  unfolding notify
  notify_all c [] = c
  notify_all c (n ∷ ns) = notify_all (notify c n) ns
