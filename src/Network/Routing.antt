-- ===== src/Network/Routing.antt =====
-- The routing tables of core/include/network/Routing.hpp.
use gns.Base.Ints.{ℤ}

pub data RoutingMetric : Type 0 where
  delay_metric bandwidth_metric hop_count_metric delay_bandwidth_metric : RoutingMetric

pub record RoutingEntry (T : Type 0) : Type 0 where
  pub destination : ℤ
  pub next_hop : ℤ
  pub distance : T
