-- ===== src/Tcp/Congestion/NewReno.antt =====
-- core/include/network/transport/tcp/congestion/NewRenoCongestionControl.hpp and
-- core/src/network/transport/tcp/congestion/NewRenoCongestionControl.cpp.
use gns.Base.{
  ℕ, ◌/◌, max, Bool, true, false, not, Option, none, some, ltb, leb, ◌==◌, if◌then◌else◌,
}
use gns.Base.Words.{sub_u32}
use gns.Tcp.Congestion.Window.{
  saturating_add, slow_start, congestion_avoidance, minimum_ssthresh, recovery_increase,
}

pub record NewRenoCongestionControl : Type 0 where
  pub mss : ℕ  -- uint32, as the other numbers
  pub initial_ssthresh : ℕ
  pub cwnd : ℕ
  pub ssthresh : ℕ
  pub recovery_ssthresh : ℕ
  pub fast_recovery : Bool
  pub partial_ack_observed : Bool

-- The constructor throws when the MSS is zero.
unfoldable pub create : ℕ → ℕ → Option NewRenoCongestionControl
create mss initial_ssthresh =
    if mss == 0
    then none
    else some (record {
      mss = mss;
      initial_ssthresh = initial_ssthresh;
      cwnd = mss;
      ssthresh = max initial_ssthresh (minimum_ssthresh mss);
      recovery_ssthresh = 0;
      fast_recovery = false;
      partial_ack_observed = false;
    })

unfoldable pub on_ack : NewRenoCongestionControl → ℕ → NewRenoCongestionControl
on_ack c acknowledged_bytes =
    if acknowledged_bytes == 0
    then c
    else if c.fast_recovery
    then c
    else if ltb c.cwnd c.ssthresh
    then record c { cwnd = slow_start c.mss c.cwnd acknowledged_bytes }
    else record c { cwnd = congestion_avoidance c.mss c.cwnd }

unfoldable pub on_loss : NewRenoCongestionControl → NewRenoCongestionControl
on_loss c = record c {
  ssthresh =
      if c.fast_recovery
      then max (minimum_ssthresh c.mss) c.recovery_ssthresh
      else max (minimum_ssthresh c.mss) (c.cwnd / 2);
  cwnd = c.mss;
  fast_recovery = false;
  partial_ack_observed = false;
}

unfoldable pub on_fast_retransmit : NewRenoCongestionControl → ℕ → NewRenoCongestionControl
on_fast_retransmit c flight_size =
    let ssthresh = max (minimum_ssthresh c.mss) (flight_size / 2) in
    record c {
      ssthresh = ssthresh;
      recovery_ssthresh = ssthresh;
      cwnd = saturating_add ssthresh (recovery_increase c.mss);
      fast_recovery = true;
      partial_ack_observed = false;
    }

unfoldable pub on_duplicate_ack : NewRenoCongestionControl → NewRenoCongestionControl
on_duplicate_ack c =
    if not c.fast_recovery then c else record c { cwnd = saturating_add c.cwnd c.mss }

-- The new window of a partial acknowledgement: deflated by the acknowledged bytes, one MSS added
-- back, and one MSS at least.
unfoldable pub partial_window : ℕ → ℕ → ℕ → ℕ
partial_window mss cwnd acknowledged_bytes =
    let deflated = if leb cwnd acknowledged_bytes then mss else sub_u32 cwnd acknowledged_bytes in
    let inflated = if leb mss acknowledged_bytes then saturating_add deflated mss else deflated in
    if ltb inflated mss then mss else inflated

unfoldable pub on_recovery_ack : NewRenoCongestionControl → ℕ → Bool → NewRenoCongestionControl
unfolding partial_window
on_recovery_ack c acknowledged_bytes recovery_complete =
    if not c.fast_recovery
    then c
    else if recovery_complete
    then record c { cwnd = c.ssthresh; fast_recovery = false; partial_ack_observed = false }
    else if acknowledged_bytes == 0
    then c
    else record c {
      cwnd = partial_window c.mss c.cwnd acknowledged_bytes;
      partial_ack_observed = true;
    }

unfoldable pub reset : NewRenoCongestionControl → NewRenoCongestionControl
reset c = record c {
  cwnd = c.mss;
  ssthresh = max c.initial_ssthresh (minimum_ssthresh c.mss);
  fast_recovery = false;
  partial_ack_observed = false;
  recovery_ssthresh = 0;
}
