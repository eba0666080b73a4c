-- ===== src/Tcp/LossDetector.antt =====
-- core/include/network/transport/tcp/recovery/TCPLossDetector.hpp and
-- core/src/network/transport/tcp/recovery/TCPLossDetector.cpp.
pub mod Laws
use gns.Base.{ℕ, Bool, true, false, not, leb, ◌==◌, if◌then◌else◌}
use gns.Base.Words.{add_u32}

pub record TcpLossDetector : Type 0 where
  pub last_ack : ℕ  -- uint32
  pub duplicate_ack_count : ℕ  -- uint32
  pub has_ack : Bool

abbrev pub duplicate_ack_threshold : ℕ
duplicate_ack_threshold = 3

-- The state of a new detector, and of one that was reset.
unfoldable pub reset : TcpLossDetector
reset = record { last_ack = 0; duplicate_ack_count = 0; has_ack = false }

unfoldable pub observe_ack : TcpLossDetector → ℕ → TcpLossDetector × Bool
observe_ack d ack_number =
    if not d.has_ack
    then (record { last_ack = ack_number; duplicate_ack_count = 0; has_ack = true }, false)
    else if ack_number == d.last_ack
    then (record d { duplicate_ack_count = add_u32 d.duplicate_ack_count 1 }, true)
    else (record d { last_ack = ack_number; duplicate_ack_count = 0 }, false)

unfoldable pub should_fast_retransmit : TcpLossDetector → Bool
should_fast_retransmit d = leb duplicate_ack_threshold d.duplicate_ack_count
