-- ===== src/Tcp/Connection/Receiver.antt =====
-- The receiving side of core/src/network/transport/tcp/TCPConnection.cpp: in order, with a gap before
-- what it holds, and blocked by an entry that begins below the expected number.
use gns.Base.{ℕ, ◌+◌, ◌≤◌, ◌<◌, ◌≡◌, ap, ◌∙◌, true, List, [], ◌∷◌, length, head?, some, arith}
use gns.Base.Words.{u32_mod, size_mod}
use gns.Tcp.ReceiveBuffer.{TcpReceiveBuffer, TcpReceiveEntry, push, consume_contiguous}
use gns.Tcp.ReceiveBuffer.Laws.{IsValid, sizes, push-head}
use gns.Tcp.ReceiveBuffer.Consume.{consume_stalled}
use gns.Tcp.Connection.{TcpConnection}
use gns.Tcp.Connection.Receiving.{received_entry, receive_data}

-- The receiving side of a connection in order: its buffer is valid and expects what the connection
-- acknowledges.
pub record Receiving {T : Type 0} (c : TcpConnection T) : Type 0 where
  pub valid : IsValid c.receive_buffer
  pub expected : c.expected_ack_num ≡ c.receive_buffer.next_sequence

-- The expected number is `n`, and an entry that begins below it stands at the front of the queue.
pub record Blocked {T : Type 0} (c : TcpConnection T) (x : TcpReceiveEntry T) (n : ℕ) : Type 0 where
  pub front : head? c.receive_buffer.entries ≡ some x
  pub below : x.segment.seq < n
  pub expected : c.expected_ack_num ≡ n
  pub next : c.receive_buffer.next_sequence ≡ n

-- Data that arrives: its sequence number, its bytes, and the time.
abbrev pub Data : Type 0 → Type 0
Data T = ℕ × List ℕ × T

module _ {T : Type 0} where
  pub receive_all : TcpConnection T → List (Data T) → TcpConnection T
  receive_all c [] = c
  receive_all c ((sequence, payload, now) ∷ rest) =
      receive_all (receive_data c sequence payload now).0 rest

  blocked_buffer :
      (b : TcpReceiveBuffer T) (x e : TcpReceiveEntry T) (n : ℕ)
      → head? b.entries ≡ some x
      → x.segment.seq < n
      → b.next_sequence ≡ n
      → let d = (consume_contiguous (push b e).0).0 in
        (head? d.entries ≡ some x) × (d.next_sequence ≡ n)
  blocked_buffer b x e n h l q =
      let (front, next) = push-head b x e h (rw q l) in
      rw (consume_stalled (push b e).0 x front (rw (next, q) l)) (front, next ∙ q)

  receive_data-Blocked :
      (c : TcpConnection T) (x : TcpReceiveEntry T) (n sequence : ℕ) (payload : List ℕ) (now : T)
      → Blocked c x n
      → Blocked (receive_data c sequence payload now).0 x n
  unfolding receive_data
  receive_data-Blocked c x n sequence payload now b = ground (
    arith,
    blocked_buffer c.receive_buffer x (received_entry c sequence payload now) n b.front b.below
        b.next,
  )

  pub receive_all-Blocked :
      (c : TcpConnection T) (x : TcpReceiveEntry T) (n : ℕ) (rest : List (Data T))
      → Blocked c x n
      → Blocked (receive_all c rest) x n
  unfolding receive_all
  receive_all-Blocked c x n [] b = b
  receive_all-Blocked c x n ((sequence, payload, now) ∷ rest) b =
      receive_all-Blocked (receive_data c sequence payload now).0 x n rest
        (receive_data-Blocked c x n sequence payload now b)

  -- The queue after data that leaves a gap has arrived at an empty one.
  pub record Gapped (c : TcpConnection T) (x : TcpReceiveEntry T) (n room : ℕ) : Type 0 where
    pub only : c.receive_buffer.entries ≡ x ∷ []
    pub wants : c.expected_ack_num ≡ n
    pub awaits : c.receive_buffer.next_sequence ≡ n
    pub space : c.receive_buffer.buffered_bytes + room ≤ c.receive_buffer.capacity_bytes
    pub space_word : c.receive_buffer.capacity_bytes < size_mod
    pub space_some : 0 < c.receive_buffer.capacity_bytes

  pub late-Gapped :
      (c : TcpConnection T) (late : List ℕ) (gap room : ℕ) (now : T)
      → Receiving c
      → c.receive_buffer.entries ≡ []
      → 0 < gap
      → 0 < length late
      → length late + room ≤ c.receive_buffer.capacity_bytes
      → let sequence = c.expected_ack_num + gap in
        Gapped
          (receive_data c sequence late now).0
          (received_entry c sequence late now)
          c.expected_ack_num
          room
  unfolding receive_data push consume_contiguous
  late-Gapped c late gap room now r e g p fit =
      let none_held : c.receive_buffer.buffered_bytes ≡ 0 = r.valid.counted ∙ ap sizes e in
      ground arith

  pub early-Blocked :
      (c : TcpConnection T) (x : TcpReceiveEntry T) (n : ℕ) (early : List ℕ) (now : T)
      → Gapped c x n (length early)
      → n < x.segment.seq
      → x.segment.seq < n + length early
      → n + length early < u32_mod
      → Blocked (receive_data c n early now).0 x (n + length early)
  unfolding receive_data push consume_contiguous
  early-Blocked c x n early now g above below word = ground arith

  pub late_accepted :
      (c : TcpConnection T) (late : List ℕ) (gap room : ℕ) (now : T)
      → Receiving c
      → c.receive_buffer.entries ≡ []
      → 0 < length late
      → length late + room ≤ c.receive_buffer.capacity_bytes
      → (receive_data c (c.expected_ack_num + gap) late now).1 ≡ true
  unfolding receive_data push
  late_accepted c late gap room now r e p fit =
      let none_held : c.receive_buffer.buffered_bytes ≡ 0 = r.valid.counted ∙ ap sizes e in
      ground (arith, r.expected, r.valid.bounded, r.valid.word)

  pub early_accepted :
      (c : TcpConnection T) (x : TcpReceiveEntry T) (n : ℕ) (early : List ℕ) (now : T)
      → Gapped c x n (length early)
      → n < x.segment.seq
      → 0 < length early
      → (receive_data c n early now).1 ≡ true
  unfolding receive_data push
  early_accepted c x n early now g above p = ground arith
