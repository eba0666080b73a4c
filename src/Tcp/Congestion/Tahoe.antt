-- ===== src/Tcp/Congestion/Tahoe.antt =====
-- core/include/network/transport/tcp/congestion/TahoeCongestionControl.hpp and
-- core/src/network/transport/tcp/congestion/TahoeCongestionControl.cpp. The notifications that the
-- class does not override are those of CongestionControl.hpp.
use gns.Base.{ℕ, ◌/◌, max, Option, none, some, ltb, ◌==◌, if◌then◌else◌}
use gns.Tcp.Congestion.Window.{slow_start, congestion_avoidance, minimum_ssthresh}

pub record TahoeCongestionControl : Type 0 where
  pub mss : ℕ  -- uint32, as the other fields
  pub initial_ssthresh : ℕ
  pub cwnd : ℕ
  pub ssthresh : ℕ

-- The constructor throws when the MSS is zero.
unfoldable pub create : ℕ → ℕ → Option TahoeCongestionControl
create mss initial_ssthresh =
    if mss == 0
    then none
    else some (record {
      mss = mss;
      initial_ssthresh = initial_ssthresh;
      cwnd = mss;
      ssthresh = max initial_ssthresh (minimum_ssthresh mss);
    })

unfoldable pub on_ack : TahoeCongestionControl → ℕ → TahoeCongestionControl
on_ack c acknowledged_bytes =
    if acknowledged_bytes == 0
    then c
    else if ltb c.cwnd c.ssthresh
    then record c { cwnd = slow_start c.mss c.cwnd acknowledged_bytes }
    else record c { cwnd = congestion_avoidance c.mss c.cwnd }

unfoldable pub on_loss : TahoeCongestionControl → TahoeCongestionControl
on_loss c = record c { ssthresh = max (minimum_ssthresh c.mss) (c.cwnd / 2); cwnd = c.mss }

unfoldable pub on_fast_retransmit : TahoeCongestionControl → ℕ → TahoeCongestionControl
unfolding on_loss
on_fast_retransmit c flight_size = on_loss c

unfoldable pub reset : TahoeCongestionControl → TahoeCongestionControl
reset c = record c { cwnd = c.mss; ssthresh = max c.initial_ssthresh (minimum_ssthresh c.mss) }
