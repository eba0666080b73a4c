-- ===== src/Tcp/Examples/Transfers.antt =====
-- Segments and acknowledgements at concrete senders.
use gns.Tcp.Examples.Fractions.{Fraction, fractions}
use gns.Tcp.Examples.Endpoints.{sender, last_sender, segment_at, sender-Sending}
use gns.Base.{
  ℕ, ◌≤◌, ◌<◌, ◌≡◌, refl, ◌↔◌, ◌⊎◌, true, false, List, [], ◌∷◌, length, head?, arith, some,
}
use gns.Tcp.SendBuffer
use gns.Tcp.SendBuffer.{
  TcpSendEntry, TcpSendBuffer, acknowledge, acknowledge_and_get_rtt, mark_retransmitted, mark_entry,
}
use gns.Tcp.SendBuffer.Laws.{Split, rtt_samples, acknowledge_lem}
use gns.Tcp.Connection.Sending.{
  queue_sent_segment, receive_ack, should_fast_retransmit, get_oldest_outstanding_sequence,
  get_retransmission_count, can_retransmit,
}
use gns.Tcp.Connection.Sender.{Sending}
use gns.Tcp.Connection.Flow.{SendWords, wrapped_segment_unacknowledged}
use gns.Tcp.Connection.Acknowledge.{Stale, Duplicate, Advance, StaysSending, receive_ack_cases}
use gns.Tcp.Connection.Queue.{
  SenderCall, queues, acknowledges, times_out, retransmits, fast_retransmits, reports_duplicate,
  calls, calls-Sending,
}
use gns.Tcp.Connection.Calls
use gns.Tcp.Connection.Calls.{EndpointCall, close_called}
use gns.Tcp.Connection.History.{is_behind}
use gns.Tcp.Connection.Duplicates.{
  duplicates, duplicates_trigger, retransmit_times, retransmission_limit,
}

abbrev sent : TcpSendBuffer Fraction
sent = sender.send_buffer

acknowledge_lem_example :
    (gone : List (TcpSendEntry Fraction)) × (rest : List (TcpSendEntry Fraction)) × Split 103
      sent.entries gone rest
    × (acknowledge sent 103 ≡ (record sent { entries = rest }, length gone))
    × (acknowledge_and_get_rtt fractions sent 103 (2, 1)
        ≡ (record sent { entries = rest }, head? (rtt_samples fractions (2, 1) gone)))
acknowledge_lem_example = acknowledge_lem fractions sent 103 (2, 1)

receive_ack_cases_example :
    (Stale fractions sender 103 (2, 1)
      ⊎ (Duplicate fractions sender 103 (2, 1) ⊎ Advance fractions sender 103 (2, 1)))
    × StaysSending fractions (receive_ack fractions sender 103 (2, 1)).0
receive_ack_cases_example = receive_ack_cases fractions sender 100 103 (2, 1) sender-Sending

abbrev exchange : List (SenderCall Fraction)
exchange =
    queues (segment_at 103) (1, 1)
    ∷ acknowledges 103 (2, 1)
    ∷ times_out (3, 1)
    ∷ retransmits 103 (3, 1)
    ∷ fast_retransmits 3 (4, 1)
    ∷ acknowledges 106 (5, 1)
    ∷ []

calls-Sending_example : (base : ℕ) × Sending (calls fractions sender exchange) base
calls-Sending_example = calls-Sending fractions sender 100 exchange sender-Sending (omega arith)

-- A duplicate that is reported straight to the congestion control, and then a timeout.
abbrev life : List (EndpointCall Fraction)
life =
    Calls.sender (queues (segment_at 100) (1, 1))
    ∷ Calls.sender reports_duplicate
    ∷ Calls.sender (times_out (3, 1))
    ∷ close_called
    ∷ []

life_recorded : is_behind false life ≡ false
unfolding is_behind
life_recorded = refl

sender_queues : (queue_sent_segment sender (segment_at 103) (1, 1)).1 ≡ true
unfolding queue_sent_segment
sender_queues = refl

duplicates_trigger_example :
    let d = (queue_sent_segment sender (segment_at 103) (1, 1)).0 in
    let e = duplicates fractions 3 d (2, 1) in
    ((should_fast_retransmit e ≡ true) ↔ (3 ≤ 3))
    × (get_oldest_outstanding_sequence e ≡ get_oldest_outstanding_sequence d)
duplicates_trigger_example =
    duplicates_trigger fractions sender (segment_at 103) (1, 1) 100 3 (2, 1) sender-Sending
      sender_queues (omega arith) (omega arith)

abbrev first_entry : TcpSendEntry Fraction
first_entry = record {
  segment = segment_at 100;
  sent_at = (1, 2);
  retransmitted = false;
  retransmission_count = 0;
}

first_found : SendBuffer.find sent 100 ≡ some first_entry
unfolding SendBuffer.find
first_found = refl

retransmission_limit_example :
    let d = retransmit_times 4 sender 100 (6, 1) in
    (get_retransmission_count d 100 ≡ 4) × ((can_retransmit d 100 ≡ true) ↔ (4 < 5))
retransmission_limit_example =
    retransmission_limit sender 100 4 (6, 1) first_entry first_found refl (omega arith)

last_sender-SendWords : SendWords last_sender
last_sender-SendWords = record {
  seq_word = omega arith;
  una_word = omega arith;
  window_word = omega arith;
}

last_sender_queues : (queue_sent_segment last_sender (segment_at 4294967294) (1, 1)).1 ≡ true
unfolding queue_sent_segment
last_sender_queues = refl

wrapped_segment_unacknowledged_example :
    let d = (queue_sent_segment last_sender (segment_at 4294967294) (1, 1)).0 in
    receive_ack fractions d 1 (2, 1) ≡ (d, false)
wrapped_segment_unacknowledged_example =
    wrapped_segment_unacknowledged fractions last_sender (segment_at 4294967294) (1, 1) 1 (2, 1)
      last_sender-SendWords refl refl (omega arith) last_sender_queues
