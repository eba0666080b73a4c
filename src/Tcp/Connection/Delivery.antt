-- ===== src/Tcp/Connection/Delivery.antt =====
-- The receiving side of core/src/network/transport/tcp/TCPConnection.cpp: what `receive_data` makes
-- available, in order, and what overlapping segments do.
use mathlib.Core.List.{Perm}
use gns.Base.{
  ℕ, ◌+◌, ◌%◌, ◌≤◌, ◌<◌, ◌≡◌, refl, sym, ap, ◌∙◌, ◌⊎◌, inl, inr, true, false, Bool, List, [], ◌∷◌,
  ◌++◌, subst, length, arith,
}
use gns.Base.Words.{u32_mod}
use gns.Tcp.ReceiveBuffer.{TcpReceiveBuffer, TcpReceiveEntry, push, consume_contiguous}
use gns.Tcp.ReceiveBuffer.Laws.{Fits, sizes, push_cases}
use gns.Tcp.ReceiveBuffer.Consume.{Chain, HeadIsNot, consume_contiguous_lem}
use gns.Tcp.Connection.{TcpConnection}
use gns.Tcp.Connection.Receiving.{received_entry, receive_data}
use gns.Tcp.Connection.Receiver.{
  Receiving, Data, receive_all, receive_all-Blocked, late-Gapped, early-Blocked, late_accepted,
  early_accepted,
}

module _ {T : Type 0} where
  -- `gone`, from the expected number on and without a gap, is what became available when `e` arrived:
  -- with what is still queued it makes up the old queue and `e`, and only the queue and the expected
  -- number are new.
  pub record Delivered (c d : TcpConnection T) (e : TcpReceiveEntry T)
      (gone : List (TcpReceiveEntry T)) : Type 0 where
    pub whole : Perm (gone ++ d.receive_buffer.entries) (e ∷ c.receive_buffer.entries)
    pub chain : Chain c.expected_ack_num gone d.expected_ack_num
    pub stopped : HeadIsNot d.expected_ack_num d.receive_buffer.entries
    pub advanced : d.expected_ack_num ≡ (c.expected_ack_num + sizes gone) % u32_mod
    pub capacity : d.receive_buffer.capacity_bytes ≡ c.receive_buffer.capacity_bytes
    pub others :
        d ≡ record c { receive_buffer = d.receive_buffer; expected_ack_num = d.expected_ack_num }

  receive_data_accepted :
      (c : TcpConnection T) (sequence : ℕ) (payload : List ℕ) (now : T)
      → 0 < length payload
      → (push c.receive_buffer (received_entry c sequence payload now)).1 ≡ true
      → let b =
          (consume_contiguous
            (push c.receive_buffer (received_entry c sequence payload now)).0).0 in
        receive_data c sequence payload now
        ≡ (record c { receive_buffer = b; expected_ack_num = b.next_sequence }, true)
  unfolding receive_data
  receive_data_accepted c sequence payload now p h = ground arith

  receive_data_refused :
      (c : TcpConnection T) (sequence : ℕ) (payload : List ℕ) (now : T)
      → (push c.receive_buffer (received_entry c sequence payload now)).1 ≡ false
      → receive_data c sequence payload now ≡ (c, false)
  unfolding receive_data
  receive_data_refused c sequence payload now h = ground arith

  push-next :
      (b : TcpReceiveBuffer T) (e : TcpReceiveEntry T)
      → (push b e).0.next_sequence ≡ b.next_sequence
  unfolding push
  push-next b e = ground arith

  taken-capacity :
      (b : TcpReceiveBuffer T) (e : TcpReceiveEntry T)
      → (consume_contiguous (push b e).0).0.capacity_bytes ≡ b.capacity_bytes
  unfolding push consume_contiguous
  taken-capacity b e = ground arith

  -- Data at a receiving side that is in order: if the buffer can take it, it is accepted, and the queue
  -- with the new entry is split in two. One part follows the expected number without a gap and is
  -- delivered, the expected number moving over its bytes, modulo 2 ^ 32; the other stays queued, and
  -- its first entry does not begin at the new expected number. Nothing else changes. All other data is
  -- refused and changes nothing. Either way the receiving side stays in order.
  pub receive_data_cases :
      (c : TcpConnection T) (sequence : ℕ) (payload : List ℕ) (now : T)
      → Receiving c
      → let e = received_entry c sequence payload now in
        let (d, accepted) = receive_data c sequence payload now in
        ((Fits c.receive_buffer e
            × (accepted ≡ true)
            × ((gone : List (TcpReceiveEntry T)) × Delivered c d e gone))
          ⊎ ((¬ Fits c.receive_buffer e) × (d ≡ c) × (accepted ≡ false)))
        × Receiving d
  receive_data_cases c sequence payload now r =
      let e = received_entry c sequence payload now in
      let (cases, pushed) = push_cases c.receive_buffer e r.valid in
      elim cases [
        | inl (fits, took, with_entry) ↦
            let (gone, whole, chain, stopped, ends, _, valid) =
              consume_contiguous_lem (push c.receive_buffer e).0 pushed in
            let start : (push c.receive_buffer e).0.next_sequence ≡ c.expected_ack_num =
              push-next c.receive_buffer e ∙ sym r.expected in
            rw (receive_data_accepted c sequence payload now fits.has_data took) (
              inl (
                fits,
                refl,
                (
                  gone,
                  record {
                    whole =
                        subst
                          (λ (es : List (TcpReceiveEntry T)).
                            Perm es (e ∷ c.receive_buffer.entries))
                          whole with_entry;
                    capacity = taken-capacity c.receive_buffer e;
                    others = refl;
                    chain = rw start at chain;
                    stopped = stopped;
                    advanced = rw start at ends;
                  },
                ),
              ),
              record { valid = valid; expected = refl },
            )
        | inr (unfit, same) ↦
            rw
              (receive_data_refused c sequence payload now
                (ap (λ (p : TcpReceiveBuffer T × Bool). p.1) same))
              (inr (unfit, refl, refl), r)
      ]

  -- At a receiving side that is in order and holds nothing, with room for both and the expected number
  -- far enough below 2 ^ 32 that the second does not wrap: a segment that arrives ahead of a gap, and
  -- then one that begins at the expected number, fills the gap and overlaps the first, are both
  -- accepted; from then on the expected number stays at the end of the second, whatever data arrives.
  pub overlap_blocks :
      (c : TcpConnection T) (late early : List ℕ) (gap : ℕ) (t u : T) (rest : List (Data T))
      → Receiving c
      → c.receive_buffer.entries ≡ []
      → 0 < gap
      → gap < length early
      → 0 < length late
      → length late + length early ≤ c.receive_buffer.capacity_bytes
      → c.expected_ack_num + length early < u32_mod
      → let n = c.expected_ack_num in
        let d = (receive_data c (n + gap) late t).0 in
        let e = (receive_data d n early u).0 in
        ((receive_data c (n + gap) late t).1 ≡ true)
        × ((receive_data d n early u).1 ≡ true)
        × (e.expected_ack_num ≡ n + length early)
        × ((receive_all e rest).expected_ack_num ≡ n + length early)
  overlap_blocks c late early gap t u rest r e g l p room word =
      let n = c.expected_ack_num in
      let d = (receive_data c (n + gap) late t).0 in
      let x = received_entry c (n + gap) late t in
      let gapped = late-Gapped c late gap (length early) t r e g p room in
      let blocked = early-Blocked d x n early u gapped (omega arith) (omega arith) word in
      (
        late_accepted c late gap (length early) t r e p room,
        early_accepted d x n early u gapped (omega arith) (omega arith),
        blocked.expected,
        (receive_all-Blocked (receive_data d n early u).0 x (n + length early) rest
            blocked).expected,
      )
