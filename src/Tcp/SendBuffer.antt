-- ===== src/Tcp/SendBuffer.antt =====
-- core/include/network/transport/tcp/buffer/TCPSendEntry.hpp, TCPSendBuffer.hpp and
-- core/src/network/transport/tcp/buffer/TCPSendBuffer.cpp. The deque is a list, its front first.
-- A method that changes the buffer returns the new one with its result.
pub mod Laws
use gns.Base.{
  ℕ, suc, Bool, true, false, not, ◌&&◌, Option, none, some, List, [], ◌∷◌, ◌++◌, length, leb, ◌==◌,
  if◌then◌else◌,
}
use gns.Base.Words.{u32, add_u32}
use gns.Base.Floats.{Float}
use gns.Tcp.Segment.{TcpSegment, payload_size}

pub record TcpSendEntry (T : Type 0) : Type 0 where
  pub segment : TcpSegment
  pub sent_at : T
  pub retransmitted : Bool
  pub retransmission_count : ℕ  -- uint32

pub record TcpSendBuffer (T : Type 0) : Type 0 where
  pub entries : List (TcpSendEntry T)
  pub capacity : ℕ

module _ {T : Type 0} where
  unfoldable pub sequence_end : TcpSendEntry T → ℕ
  sequence_end e = add_u32 e.segment.seq (u32 (payload_size e.segment))

  unfoldable pub is_acknowledged : TcpSendEntry T → ℕ → Bool
  unfolding sequence_end
  is_acknowledged e ack_number = leb (sequence_end e) ack_number

  unfoldable pub can_measure_rtt : TcpSendEntry T → Bool
  can_measure_rtt e = not e.retransmitted

  unfoldable pub mark_entry : TcpSendEntry T → T → TcpSendEntry T
  mark_entry e retransmission_time = record e {
    sent_at = retransmission_time;
    retransmitted = true;
    retransmission_count = add_u32 e.retransmission_count 1;
  }

  unfoldable pub set_capacity : TcpSendBuffer T → ℕ → TcpSendBuffer T
  set_capacity b capacity = record b { capacity = capacity }

  unfoldable pub push : TcpSendBuffer T → TcpSendEntry T → TcpSendBuffer T × Bool
  push b e =
      if not (b.capacity == 0) && leb b.capacity (length b.entries)
      then (b, false)
      else (record b { entries = b.entries ++ e ∷ [] }, true)

  unfoldable pub find_entry : List (TcpSendEntry T) → ℕ → Option (TcpSendEntry T)
  find_entry [] sequence = none
  find_entry (e ∷ es) sequence =
      if e.segment.seq == sequence then some e else find_entry es sequence

  unfoldable pub find : TcpSendBuffer T → ℕ → Option (TcpSendEntry T)
  unfolding find_entry
  find b sequence = find_entry b.entries sequence

  unfoldable pub contains : TcpSendBuffer T → ℕ → Bool
  unfolding find
  contains b sequence = elim (find b sequence) [ none ↦ false | some _ ↦ true ]

  unfoldable pub front : TcpSendBuffer T → Option (TcpSendEntry T)
  front b = elim b.entries [ [] ↦ none | e ∷ _ ↦ some e ]

  -- The `while` loop of `acknowledge`; `removed` counts at most the entries, so it does not wrap.
  unfoldable pub acknowledge_loop : List (TcpSendEntry T) → ℕ → ℕ → List (TcpSendEntry T) × ℕ
  unfolding is_acknowledged
  acknowledge_loop [] ack_number removed = ([], removed)
  acknowledge_loop (e ∷ es) ack_number removed =
      let rest = acknowledge_loop es ack_number (suc removed) in
      if is_acknowledged e ack_number then rest else (e ∷ es, removed)

  unfoldable pub acknowledge : TcpSendBuffer T → ℕ → TcpSendBuffer T × ℕ
  unfolding acknowledge_loop
  acknowledge b ack_number =
      let (entries, removed) = acknowledge_loop b.entries ack_number 0 in
      (record b { entries = entries }, removed)

  unfoldable pub pop_front : TcpSendBuffer T → TcpSendBuffer T × Option (TcpSendEntry T)
  pop_front b = elim b.entries [ [] ↦ (b, none) | e ∷ es ↦ (record b { entries = es }, some e) ]

  -- The entry that `find` points to is changed in place.
  unfoldable pub mark_first : List (TcpSendEntry T) → ℕ → T → List (TcpSendEntry T)
  unfolding mark_entry
  mark_first [] sequence retransmission_time = []
  mark_first (e ∷ es) sequence retransmission_time =
      if e.segment.seq == sequence
      then mark_entry e retransmission_time ∷ es
      else e ∷ mark_first es sequence retransmission_time

  unfoldable pub mark_retransmitted : TcpSendBuffer T → ℕ → T → TcpSendBuffer T × Bool
  unfolding contains mark_first
  mark_retransmitted b sequence retransmission_time =
      if contains b sequence
      then (record b { entries = mark_first b.entries sequence retransmission_time }, true)
      else (b, false)

  unfoldable pub clear : TcpSendBuffer T → TcpSendBuffer T
  clear b = record b { entries = [] }

  module _ (f : Float T) where
    -- The RTT sample of one entry, if it may give one.
    unfoldable pub sample_of : TcpSendEntry T → T → Option T
    unfolding can_measure_rtt
    sample_of e acknowledgement_time =
        let sample = f.sub acknowledgement_time e.sent_at in
        if can_measure_rtt e && (f.is_finite sample && f.lt (f.literal 0 1) sample)
        then some sample
        else none

    unfoldable pub keep_first : Option T → Option T → Option T
    keep_first (some r) next = some r
    keep_first none next = next

    -- The `while` loop of `acknowledgeAndGetRtt`, with the sample found so far.
    unfoldable pub rtt_loop :
        List (TcpSendEntry T) → ℕ → T → Option T → List (TcpSendEntry T) × Option T
    unfolding is_acknowledged sample_of keep_first
    rtt_loop [] ack_number now sample = ([], sample)
    rtt_loop (e ∷ es) ack_number now sample =
        let rest = rtt_loop es ack_number now (keep_first sample (sample_of e now)) in
        if is_acknowledged e ack_number then rest else (e ∷ es, sample)

    unfoldable pub acknowledge_and_get_rtt : TcpSendBuffer T → ℕ → T → TcpSendBuffer T × Option T
    unfolding rtt_loop
    acknowledge_and_get_rtt b ack_number acknowledgement_time =
        let (entries, sample) = rtt_loop b.entries ack_number acknowledgement_time none in
        (record b { entries = entries }, sample)
