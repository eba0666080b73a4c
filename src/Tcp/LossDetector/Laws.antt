-- ===== src/Tcp/LossDetector/Laws.antt =====
-- The duplicate-ACK count of core/src/network/transport/tcp/recovery/TCPLossDetector.cpp against a description of the acknowledgements seen so far.
use gns.Base.{
  ℕ, suc, ◌<◌, ◌%◌, ◌≤◌, ◌≡◌, refl, ◌↔◌, true, List, [], ◌∷◌, length, ◌==◌, if◌then◌else◌, arith,
}
use gns.Base.Words.{u32_mod}
use gns.Tcp.LossDetector.{TcpLossDetector, reset, observe_ack, should_fast_retransmit}

-- The detector after a history of acknowledgement numbers, given newest first.
pub detector_after : List ℕ → TcpLossDetector
detector_after [] = reset
detector_after (a ∷ history) = (observe_ack (detector_after history) a).0

-- How often `a` stands at the head of the list without a break.
pub leading : ℕ → List ℕ → ℕ
leading a [] = 0
leading a (b ∷ bs) = if b == a then suc (leading a bs) else 0

leading-le-length : (a : ℕ) (bs : List ℕ) → leading a bs ≤ length bs
unfolding leading
leading-le-length a [] = omega arith
leading-le-length a (b ∷ bs) = ground (arith, leading-le-length a bs)

detector_after_state :
    (a : ℕ) (history : List ℕ)
    → detector_after (a ∷ history)
      ≡ record { last_ack = a; duplicate_ack_count = leading a history % u32_mod; has_ack = true }
unfolding detector_after observe_ack reset leading
detector_after_state a [] = refl
detector_after_state a (b ∷ history) = ground (arith, detector_after_state b history)

-- After any history of fewer than 2 ^ 32 acknowledgements the count of duplicates is the number of
-- times that the newest number was repeated without a break, and the detector asks for a fast
-- retransmission exactly when that is three or more.
pub detector_after_lem :
    (a : ℕ) (history : List ℕ)
    → length history < u32_mod
    → ((detector_after (a ∷ history)).duplicate_ack_count ≡ leading a history)
      × ((should_fast_retransmit (detector_after (a ∷ history)) ≡ true) ↔ (3 ≤ leading a history))
unfolding should_fast_retransmit
detector_after_lem a history h =
    ground (arith, detector_after_state a history, leading-le-length a history)
