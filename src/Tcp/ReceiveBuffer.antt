-- ===== src/Tcp/ReceiveBuffer.antt =====
-- core/include/network/transport/tcp/buffer/TCPReceiveEntry.hpp, TCPReceiveBuffer.hpp and
-- core/src/network/transport/tcp/buffer/TCPReceiveBuffer.cpp. The deque is a list, its front first.
pub mod Laws
pub mod Consume
use gns.Base.{
  ℕ, suc, ◌-◌, Bool, true, false, not, ◌&&◌, List, [], ◌∷◌, ltb, leb, ◌==◌, if◌then◌else◌,
}
use gns.Base.Words.{u32, add_u32, add_size, sub_size}
use gns.Tcp.Segment.{TcpSegment, payload_size}

pub record TcpReceiveEntry (T : Type 0) : Type 0 where
  pub segment : TcpSegment
  pub received_at : T

pub record TcpReceiveBuffer (T : Type 0) : Type 0 where
  pub entries : List (TcpReceiveEntry T)
  pub next_sequence : ℕ  -- uint32
  pub capacity_bytes : ℕ  -- size_t
  pub buffered_bytes : ℕ  -- size_t

-- What the loop of `consumeContiguous` carries.
pub record Progress (T : Type 0) : Type 0 where
  pub remaining : List (TcpReceiveEntry T)
  pub next : ℕ
  pub buffered : ℕ
  pub consumed : ℕ

module _ {T : Type 0} where
  -- `payload_size()` of an entry, and its sequence number.
  abbrev pub entry_size : TcpReceiveEntry T → ℕ
  entry_size e = payload_size e.segment

  abbrev pub entry_seq : TcpReceiveEntry T → ℕ
  entry_seq e = e.segment.seq

  unfoldable pub sequence_end : TcpReceiveEntry T → ℕ
  sequence_end e = add_u32 e.segment.seq (u32 (payload_size e.segment))

  unfoldable pub empty : ℕ → ℕ → TcpReceiveBuffer T
  empty next_sequence capacity_bytes = record {
    entries = [];
    next_sequence = next_sequence;
    capacity_bytes = capacity_bytes;
    buffered_bytes = 0;
  }

  unfoldable pub available_window : TcpReceiveBuffer T → ℕ
  available_window b =
      if b.capacity_bytes == 0
      then 0
      else if leb b.capacity_bytes b.buffered_bytes
      then 0
      else b.capacity_bytes - b.buffered_bytes

  unfoldable pub set_capacity : TcpReceiveBuffer T → ℕ → TcpReceiveBuffer T
  set_capacity b capacity_bytes = record b { capacity_bytes = capacity_bytes }

  unfoldable pub set_next_sequence : TcpReceiveBuffer T → ℕ → TcpReceiveBuffer T
  set_next_sequence b sequence = record b { next_sequence = sequence }

  -- The `std::find_if` for an entry with the same sequence number.
  unfoldable pub has_duplicate : List (TcpReceiveEntry T) → ℕ → Bool
  has_duplicate [] seq = false
  has_duplicate (x ∷ xs) seq = if x.segment.seq == seq then true else has_duplicate xs seq

  -- `insert` at the position of `std::lower_bound`: behind the entries below `seq`, which stand
  -- first in a buffer that is sorted.
  unfoldable pub insert_sorted :
      List (TcpReceiveEntry T) → TcpReceiveEntry T → List (TcpReceiveEntry T)
  insert_sorted [] e = e ∷ []
  insert_sorted (x ∷ xs) e =
      if ltb x.segment.seq e.segment.seq then x ∷ insert_sorted xs e else e ∷ x ∷ xs

  unfoldable pub push : TcpReceiveBuffer T → TcpReceiveEntry T → TcpReceiveBuffer T × Bool
  unfolding available_window has_duplicate insert_sorted
  push b e =
      if entry_size e == 0
      then (b, false)
      else if ltb e.segment.seq b.next_sequence
      then (b, false)
      else if not (b.capacity_bytes == 0) && ltb (available_window b) (entry_size e)
      then (b, false)
      else if has_duplicate b.entries e.segment.seq
      then (b, false)
      else (
        record b {
          entries = insert_sorted b.entries e;
          buffered_bytes = add_size b.buffered_bytes (entry_size e);
        },
        true,
      )

  unfoldable pub consume_loop : List (TcpReceiveEntry T) → ℕ → ℕ → ℕ → Progress T
  unfolding sequence_end
  consume_loop [] next buffered consumed = record {
    remaining = [];
    next = next;
    buffered = buffered;
    consumed = consumed;
  }
  consume_loop (e ∷ es) next buffered consumed =
      let rest =
        consume_loop es (sequence_end e) (sub_size buffered (entry_size e)) (suc consumed) in
      if not (e.segment.seq == next)
      then record { remaining = e ∷ es; next = next; buffered = buffered; consumed = consumed }
      else rest

  unfoldable pub consume_contiguous : TcpReceiveBuffer T → TcpReceiveBuffer T × ℕ
  unfolding consume_loop
  consume_contiguous b =
      let p = consume_loop b.entries b.next_sequence b.buffered_bytes 0 in
      (
        record b { entries = p.remaining; next_sequence = p.next; buffered_bytes = p.buffered },
        p.consumed,
      )

  unfoldable pub clear : TcpReceiveBuffer T → TcpReceiveBuffer T
  clear b = record b { entries = []; buffered_bytes = 0 }
