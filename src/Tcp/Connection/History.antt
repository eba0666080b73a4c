-- ===== src/Tcp/Connection/History.antt =====
-- The congestion history of core/src/network/transport/tcp/TCPConnection.cpp through the life of a
-- connection.
use gns.Base.{Bool, true, false, List, [], ◌∷◌}
use gns.Tcp.Congestion
use gns.Tcp.Congestion.{get_cwnd, get_ssthresh}
use gns.Tcp.Connection.Queue.{
  SenderCall, times_out, fast_retransmits, times_out_untimed, reports_duplicate,
}
use gns.Tcp.Connection.Calls.{EndpointCall, sender}

module _ {T : Type 0} where
  -- Whether a change of the congestion control is without a sample after the call: the two that
  -- record nothing leave one, a timeout and a fast retransmission record the present values.
  abbrev pub behind_sender : Bool → SenderCall T → Bool
  behind_sender b (times_out now) = false
  behind_sender b (fast_retransmits flight_size now) = false
  behind_sender b times_out_untimed = true
  behind_sender b reports_duplicate = true
  behind_sender b _ = b

  abbrev pub behind_call : Bool → EndpointCall T → Bool
  behind_call b (sender k) = behind_sender b k
  behind_call b _ = b

  unfoldable pub is_behind : Bool → List (EndpointCall T) → Bool
  is_behind b [] = b
  is_behind b (k ∷ ks) = is_behind (behind_call b k) ks
