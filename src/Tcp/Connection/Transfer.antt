-- ===== src/Tcp/Connection/Transfer.antt =====
-- A transfer between two endpoints of core/src/network/transport/tcp/TCPConnection.cpp: the segments
-- of the sender's queue, at the receiver in their order, and the acknowledgement that comes back.
use gns.Base.{
  ℕ, ◌+◌, ◌≤◌, ◌<◌, ◌≡◌, refl, ◌∙◌, sym, ◌⊎◌, inl, inr, true, List, [], ◌∷◌, length, All, arith,
}
use gns.Base.Words.{u32_mod, size_mod}
use gns.Base.Floats.{Float}
use gns.Tcp.Segment.{payload_size}
use gns.Tcp.SendBuffer.{TcpSendEntry, sequence_end}
use gns.Tcp.SendBuffer.Laws.{HeadUncovered}
use gns.Tcp.ReceiveBuffer.{push, consume_contiguous}
use gns.Tcp.Connection.{TcpConnection, build_ack}
use gns.Tcp.Connection.Sending.{receive_ack}
use gns.Tcp.Connection.Receiving.{receive_data}
use gns.Tcp.Connection.Sender.{SendChain, SendChain-le, Sending}
use gns.Tcp.Connection.Acknowledge.{Stale, Duplicate, Advance, receive_ack_cases}

-- A receiver that expects `n` and holds nothing.
pub record Ready {T : Type 0} (c : TcpConnection T) (n capacity : ℕ) : Type 0 where
  pub drained : c.receive_buffer.entries ≡ []
  pub wants : c.expected_ack_num ≡ n
  pub awaits : c.receive_buffer.next_sequence ≡ n
  pub unused : c.receive_buffer.buffered_bytes ≡ 0
  pub room : c.receive_buffer.capacity_bytes ≡ capacity
  pub room_word : capacity < size_mod

module _ {T : Type 0} where
  -- The receiver after the segments of some entries, in their order.
  pub deliver : TcpConnection T → List (TcpSendEntry T) → T → TcpConnection T
  deliver c [] now = c
  deliver c (e ∷ es) now = deliver (receive_data c e.segment.seq e.segment.payload now).0 es now

  abbrev pub IsWithin : ℕ → TcpSendEntry T → Type 0
  IsWithin capacity e = payload_size e.segment ≤ capacity

  receive-Ready :
      (c : TcpConnection T) (n capacity sequence : ℕ) (payload : List ℕ) (now : T)
      → Ready c n capacity
      → sequence ≡ n
      → 0 < length payload
      → length payload ≤ capacity
      → n + length payload < u32_mod
      → Ready (receive_data c sequence payload now).0 (n + length payload) capacity
  unfolding receive_data push consume_contiguous
  receive-Ready c n capacity sequence payload now r e p l w = ground arith

  deliver-Ready :
      (c : TcpConnection T) (n m capacity : ℕ) (es : List (TcpSendEntry T)) (now : T)
      → Ready c n capacity
      → SendChain n es m
      → All (IsWithin capacity) es
      → m < u32_mod
      → Ready (deliver c es now) m capacity
  unfolding deliver
  deliver-Ready c n m capacity [] now r h l w = record {
    drained = r.drained;
    wants = r.wants ∙ h;
    awaits = r.awaits ∙ h;
    unused = r.unused;
    room = r.room;
    room_word = r.room_word;
  }
  deliver-Ready c n m capacity (e ∷ es) now r h l w =
      let below = SendChain-le (n + payload_size e.segment) m es h.2 in
      deliver-Ready (receive_data c e.segment.seq e.segment.payload now).0
        (n + payload_size e.segment) m capacity es now
        (receive-Ready c n capacity e.segment.seq e.segment.payload now r h.0 h.1 l.0 (omega arith))
        h.2 l.1 w

  chain_empty :
      (n m : ℕ) (es : List (TcpSendEntry T))
      → SendChain n es m
      → HeadUncovered m es
      → m < u32_mod
      → es ≡ []
  unfolding sequence_end
  chain_empty n m [] h u w = refl
  chain_empty n m (e ∷ es) h u w =
      absurd (omega (arith, SendChain-le (n + payload_size e.segment) m es h.2))

  settled :
      (d : TcpConnection T) (base : ℕ)
      → Sending d base
      → d.send_unacknowledged ≡ d.seq_num
      → d.send_buffer.entries ≡ []
  settled d base s e =
      chain_empty base d.seq_num d.send_buffer.entries s.chain (rw (← e) s.front) s.word

module _ {T : Type 0} (f : Float T) where
  acknowledged :
      (c : TcpConnection T) (base : ℕ) (now : T)
      → c.send_unacknowledged < c.seq_num
      → (Stale f c c.seq_num now ⊎ (Duplicate f c c.seq_num now ⊎ Advance f c c.seq_num now))
      → Sending (receive_ack f c c.seq_num now).0 base
      → let (d, fresh) = receive_ack f c c.seq_num now in
        (fresh ≡ true)
        × (d.send_buffer.entries ≡ [])
        × (d.send_unacknowledged ≡ c.seq_num)
        × (d.seq_num ≡ c.seq_num)
  acknowledged c base now o cases after = elim cases [
    | inl (outside, _) ↦ absurd (omega (arith, outside))
    | inr (inl (same, _, _, _, _, _)) ↦ absurd (omega arith)
    | inr (inr (_, _, fresh, _, una, next, _)) ↦
        (fresh, settled (receive_ack f c c.seq_num now).0 base after (una ∙ sym next), una, next)
  ]

  -- When the segments in the queue of an established sender, in order, not empty, and with
  -- sequence numbers that stay below 2 ^ 32, arrive in their order at a receiver that
  -- expects the first of them, holds nothing and has room for each, the receiver ends up expecting
  -- the sender's next sequence number, with nothing held back; and the acknowledgement that it then
  -- builds is accepted by the sender, which is left with an empty queue and nothing unacknowledged.
  pub transfer :
      (sender receiver : TcpConnection T) (base capacity : ℕ) (now later : T)
      → Sending sender base
      → sender.send_unacknowledged < sender.seq_num
      → Ready receiver base capacity
      → All (IsWithin capacity) sender.send_buffer.entries
      → let r = deliver receiver sender.send_buffer.entries now in
        let (s, fresh) = receive_ack f sender (build_ack r).ack later in
        Ready r sender.seq_num capacity
        × ((fresh ≡ true)
            × (s.send_buffer.entries ≡ [])
            × (s.send_unacknowledged ≡ sender.seq_num)
            × (s.seq_num ≡ sender.seq_num))
  unfolding build_ack
  transfer sender receiver base capacity now later s o r l =
      let got =
        deliver-Ready receiver base sender.seq_num capacity sender.send_buffer.entries now r s.chain
          l s.word in
      let (cases, (base', after)) = receive_ack_cases f sender base sender.seq_num later s in
      (got, rw got.wants (acknowledged sender base' later o cases after))
