-- ===== src/Tcp/Congestion/Reno.antt =====
-- core/include/network/transport/tcp/congestion/RenoCongestionControl.hpp and
-- core/src/network/transport/tcp/congestion/RenoCongestionControl.cpp.
use gns.Base.{ℕ, ◌/◌, max, Bool, true, false, not, Option, none, some, ltb, ◌==◌, if◌then◌else◌}
use gns.Tcp.Congestion.Window.{
  saturating_add, slow_start, congestion_avoidance, minimum_ssthresh, recovery_increase,
}

pub record RenoCongestionControl : Type 0 where
  pub mss : ℕ  -- uint32, as the other numbers
  pub initial_ssthresh : ℕ
  pub cwnd : ℕ
  pub ssthresh : ℕ
  pub fast_recovery : Bool

-- The constructor throws when the MSS is zero.
unfoldable pub create : ℕ → ℕ → Option RenoCongestionControl
create mss initial_ssthresh =
    if mss == 0
    then none
    else some (record {
      mss = mss;
      initial_ssthresh = initial_ssthresh;
      cwnd = mss;
      ssthresh = max initial_ssthresh (minimum_ssthresh mss);
      fast_recovery = false;
    })

unfoldable pub on_ack : RenoCongestionControl → ℕ → RenoCongestionControl
on_ack c acknowledged_bytes =
    if acknowledged_bytes == 0
    then c
    else if ltb c.cwnd c.ssthresh
    then record c { cwnd = slow_start c.mss c.cwnd acknowledged_bytes }
    else record c { cwnd = congestion_avoidance c.mss c.cwnd }

unfoldable pub on_loss : RenoCongestionControl → RenoCongestionControl
on_loss c = record c {
  ssthresh = max (minimum_ssthresh c.mss) (c.cwnd / 2);
  cwnd = c.mss;
  fast_recovery = false;
}

unfoldable pub on_fast_retransmit : RenoCongestionControl → ℕ → RenoCongestionControl
on_fast_retransmit c flight_size =
    let ssthresh = max (minimum_ssthresh c.mss) (flight_size / 2) in
    record c {
      ssthresh = ssthresh;
      cwnd = saturating_add ssthresh (recovery_increase c.mss);
      fast_recovery = true;
    }

unfoldable pub on_duplicate_ack : RenoCongestionControl → RenoCongestionControl
on_duplicate_ack c =
    if not c.fast_recovery then c else record c { cwnd = saturating_add c.cwnd c.mss }

unfoldable pub on_recovery_ack : RenoCongestionControl → ℕ → Bool → RenoCongestionControl
on_recovery_ack c acknowledged_bytes recovery_complete =
    if not c.fast_recovery
    then c
    else if not recovery_complete
    then c
    else record c { cwnd = c.ssthresh; fast_recovery = false }

unfoldable pub reset : RenoCongestionControl → RenoCongestionControl
reset c = record c {
  cwnd = c.mss;
  ssthresh = max c.initial_ssthresh (minimum_ssthresh c.mss);
  fast_recovery = false;
}
