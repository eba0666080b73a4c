-- ===== src/Tcp/Connection/Sender.antt =====
-- The retransmission queue of an established sender of core/src/network/transport/tcp/
-- TCPConnection.cpp, as long as its sequence numbers stay below 2 ^ 32.
use gns.Base.{ℕ, ◌+◌, ◌≤◌, ◌<◌, ◌≡◌, ap, ◌∙◌, true, List, [], ◌∷◌, ◌++◌, All, arith}
use gns.Base.Words.{u32_mod}
use gns.Tcp.StateMachine.{established}
use gns.Tcp.Segment.{TcpSegment, payload_size}
use gns.Tcp.SendBuffer.{TcpSendEntry, TcpSendBuffer, sequence_end}
use gns.Tcp.SendBuffer.Laws.{IsCovered, HeadUncovered}
use gns.Tcp.Connection.{TcpConnection, get_tcp_state}
use gns.Tcp.Connection.Sending.{fresh_entry, queue_sent_segment}

module _ {T : Type 0} where
  -- Entries that follow one another without a gap, from `n` up to `m`, each with some bytes.
  abbrev pub SendChain : ℕ → List (TcpSendEntry T) → ℕ → Type 0
  SendChain n [] m = n ≡ m
  SendChain n (e ∷ es) m =
      (e.segment.seq ≡ n)
      × (0 < payload_size e.segment)
      × SendChain (n + payload_size e.segment) es m

  -- The queue of an established sender: it holds the bytes from `base` to SND.NXT without a gap, and
  -- its first entry is the one that SND.UNA lies in, or begins.
  pub record Sending (c : TcpConnection T) (base : ℕ) : Type 0 where
    pub opened : get_tcp_state c ≡ established
    pub chain : SendChain base c.send_buffer.entries c.seq_num
    pub begins : base ≤ c.send_unacknowledged
    pub front : HeadUncovered c.send_unacknowledged c.send_buffer.entries
    pub ordered : c.send_unacknowledged ≤ c.seq_num
    pub word : c.seq_num < u32_mod
    pub unlimited : c.send_buffer.capacity ≡ 0

  pub SendChain-le : (n m : ℕ) (es : List (TcpSendEntry T)) → SendChain n es m → n ≤ m
  SendChain-le n m [] h = omega arith
  SendChain-le n m (e ∷ es) h = omega (arith, SendChain-le (n + payload_size e.segment) m es h.2)

  pub SendChain-snoc :
      (n m : ℕ) (es : List (TcpSendEntry T)) (e : TcpSendEntry T)
      → SendChain n es m
      → e.segment.seq ≡ m
      → 0 < payload_size e.segment
      → SendChain n (es ++ e ∷ []) (m + payload_size e.segment)
  SendChain-snoc n m [] e h s p = (omega arith, p, omega arith)
  SendChain-snoc n m (x ∷ xs) e h s p =
      (h.0, h.1, SendChain-snoc (n + payload_size x.segment) m xs e h.2 s p)

  -- Behind a covered prefix the chain begins at or below the acknowledgement number.
  pub SendChain-rest :
      (n m a : ℕ) (gone rest : List (TcpSendEntry T))
      → m < u32_mod
      → n ≤ a
      → SendChain n (gone ++ rest) m
      → All (IsCovered a) gone
      → (base : ℕ) × (base ≤ a) × SendChain base rest m
  unfolding sequence_end
  SendChain-rest n m a [] rest w h c k = (n, h, c)
  SendChain-rest n m a (e ∷ gone) rest w h c k =
      let below = SendChain-le (n + payload_size e.segment) m (gone ++ rest) c.2 in
      SendChain-rest (n + payload_size e.segment) m a gone rest w (omega arith) c.2 k.1

  pub HeadUncovered-snoc :
      (a : ℕ) (es : List (TcpSendEntry T)) (e : TcpSendEntry T)
      → HeadUncovered a es
      → a < sequence_end e
      → HeadUncovered a (es ++ e ∷ [])
  HeadUncovered-snoc a [] e h k = k
  HeadUncovered-snoc a (x ∷ xs) e h k = h

  pub queue_fields :
      (c : TcpConnection T) (segment : TcpSegment) (sent_at : T)
      → c.send_buffer.capacity ≡ 0
      → (queue_sent_segment c segment sent_at).1 ≡ true
      → c.seq_num + payload_size segment < u32_mod
      → let d = (queue_sent_segment c segment sent_at).0 in
        (d.send_buffer.entries ≡ c.send_buffer.entries ++ fresh_entry segment sent_at ∷ [])
        × (d.seq_num ≡ c.seq_num + payload_size segment)
        × (d.send_unacknowledged ≡ c.send_unacknowledged)
        × (get_tcp_state d ≡ get_tcp_state c)
        × (d.send_buffer.capacity ≡ 0)
        × (segment.seq ≡ c.seq_num)
        × (0 < payload_size segment)
  unfolding queue_sent_segment
  queue_fields c segment sent_at u q w = ground arith

  pub queue-Sending :
      (c : TcpConnection T) (segment : TcpSegment) (sent_at : T) (base : ℕ)
      → Sending c base
      → (queue_sent_segment c segment sent_at).1 ≡ true
      → c.seq_num + payload_size segment < u32_mod
      → Sending (queue_sent_segment c segment sent_at).0 base
  unfolding sequence_end
  queue-Sending c segment sent_at base s q w =
      let (entries, next, una, state, capacity, starts, bytes) =
        queue_fields c segment sent_at s.unlimited q w in
      let e : TcpSendEntry T = fresh_entry segment sent_at in
      record {
        opened = state ∙ s.opened;
        chain = rw (entries, next) (SendChain-snoc base c.seq_num _ e s.chain starts bytes);
        begins = rw una s.begins;
        front =
            rw (entries, una)
              (HeadUncovered-snoc c.send_unacknowledged _ e s.front (omega (arith, s.ordered)));
        ordered = rw (una, next) (omega (arith, s.ordered));
        word = rw next w;
        unlimited = capacity;
      }

  pub moved-Sending :
      (c d : TcpConnection T) (old base a : ℕ)
      → Sending c old
      → (d.send_unacknowledged ≡ a)
        × (d.seq_num ≡ c.seq_num)
        × (get_tcp_state d ≡ get_tcp_state c)
        × (d.send_buffer.capacity ≡ c.send_buffer.capacity)
      → a ≤ c.seq_num
      → base ≤ a
      → SendChain base d.send_buffer.entries c.seq_num
      → HeadUncovered a d.send_buffer.entries
      → Sending d base
  moved-Sending c d old base a s (una, next, state, capacity) k begins chain front = record {
    opened = state ∙ s.opened;
    chain = rw next chain;
    begins = rw una begins;
    front = rw una front;
    ordered = rw (una, next) k;
    word = rw next s.word;
    unlimited = capacity ∙ s.unlimited;
  }

  pub duplicate-Sending :
      (c d : TcpConnection T) (base : ℕ)
      → Sending c base
      → (d.send_buffer ≡ c.send_buffer)
        × (d.send_unacknowledged ≡ c.send_unacknowledged)
        × (d.seq_num ≡ c.seq_num)
        × (get_tcp_state d ≡ get_tcp_state c)
      → Sending d base
  duplicate-Sending c d base s (buffer, una, next, state) =
      moved-Sending c d base base c.send_unacknowledged s
        (una, next, state, ap (λ (b : TcpSendBuffer T). b.capacity) buffer) s.ordered s.begins
        (rw buffer s.chain) (rw buffer s.front)
