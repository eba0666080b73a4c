-- ===== src/Tcp/ReceiveBuffer/Consume.antt =====
-- core/src/network/transport/tcp/buffer/TCPReceiveBuffer.cpp: what `consumeContiguous` takes from the
-- front of a valid buffer.
use gns.Base.{
  ℕ, suc, ◌+◌, ◌%◌, ◌≤◌, ◌<◌, ◌≡◌, refl, ap, subst, ◌≢◌, inl, inr, List, [], ◌∷◌, ◌++◌, length,
  head?, some, sum_by-append, All, ◌==◌, Bool-cases, ==_iff, arith,
}
use gns.Base.Words.{u32_mod, size_mod, sub_size}
use gns.Tcp.ReceiveBuffer.Laws.{AscendingFrom, HasBytes, sizes, IsValid}
use gns.Tcp.Segment.{payload_size}
use gns.Tcp.ReceiveBuffer.{
  TcpReceiveEntry, TcpReceiveBuffer, Progress, sequence_end, consume_loop, consume_contiguous,
}

module _ {T : Type 0} where
  AscendingFrom-mono :
      {m n : ℕ} (es : List (TcpReceiveEntry T)) → m ≤ n → AscendingFrom n es → AscendingFrom m es
  AscendingFrom-mono [] h a = tt
  AscendingFrom-mono (e ∷ es) h a = (omega arith, a.1)

  -- The entries follow one another from sequence number `n` up to `m`.
  abbrev pub Chain : ℕ → List (TcpReceiveEntry T) → ℕ → Type 0
  Chain n [] m = n ≡ m
  Chain n (e ∷ es) m = (e.segment.seq ≡ n) × Chain (sequence_end e) es m

  abbrev pub HeadIsNot : ℕ → List (TcpReceiveEntry T) → Type 0
  HeadIsNot n [] = Unit
  HeadIsNot n (e ∷ es) = e.segment.seq ≢ n

  -- What a loop that started from `es`, `next` and `buffered` has done: `gone` was taken.
  pub record Consumed (es : List (TcpReceiveEntry T)) (next : ℕ) (p : Progress T)
      (gone : List (TcpReceiveEntry T)) : Type 0 where
    pub whole : es ≡ gone ++ p.remaining
    pub chain : Chain next gone p.next
    pub stopped : HeadIsNot p.next p.remaining

  consume_loop-Consumed :
      (es : List (TcpReceiveEntry T)) (next buffered consumed : ℕ)
      → (gone : List (TcpReceiveEntry T)) × Consumed es next
          (consume_loop es next buffered consumed)
          gone
        × ((consume_loop es next buffered consumed).consumed ≡ consumed + length gone)
        × (buffered ≡ sizes es
            → sizes es < size_mod
            → (consume_loop es next buffered consumed).buffered
              ≡ sizes (consume_loop es next buffered consumed).remaining)
  unfolding consume_loop
  consume_loop-Consumed [] next buffered consumed =
      ([], record { whole = refl; chain = refl; stopped = tt }, omega arith, λ e h. e)
  consume_loop-Consumed (e ∷ es) next buffered consumed =
      let (gone, c, n, k) =
        consume_loop-Consumed es (sequence_end e) (sub_size buffered (payload_size e.segment))
          (suc consumed) in
      elim (Bool-cases (e.segment.seq == next)) [
        | inl h ↦ rw h (
          e ∷ gone,
          record {
            whole = ap (◌∷◌ e) c.whole;
            chain = ((==_iff _ _).0 h, c.chain);
            stopped = c.stopped;
          },
          omega arith,
          λ p q. k (omega arith) (omega arith),
        )
        | inr h ↦ rw h (
          [],
          record { whole = refl; chain = refl; stopped = ground arith },
          omega arith,
          λ p q. p,
        )
      ]

  Chain-end :
      (n m : ℕ) (es : List (TcpReceiveEntry T))
      → n < u32_mod
      → Chain n es m
      → m ≡ (n + sizes es) % u32_mod
  unfolding sequence_end
  Chain-end n m [] h c = omega arith
  Chain-end n m (e ∷ es) h c = omega (arith, Chain-end (sequence_end e) m es (omega arith) c.1)

  AscendingFrom-suffix :
      (n : ℕ) (gone rest : List (TcpReceiveEntry T))
      → AscendingFrom n (gone ++ rest)
      → AscendingFrom 0 rest
  AscendingFrom-suffix n [] rest a = AscendingFrom-mono rest (omega arith) a
  AscendingFrom-suffix n (e ∷ gone) rest a = AscendingFrom-suffix (suc e.segment.seq) gone rest a.1

  All-suffix :
      (gone rest : List (TcpReceiveEntry T)) → All HasBytes (gone ++ rest) → All HasBytes rest
  All-suffix [] rest a = a
  All-suffix (e ∷ gone) rest a = All-suffix gone rest a.1

  -- From a valid buffer `consume_contiguous` takes a prefix of the queue whose entries follow one
  -- another without a gap from the expected sequence number, stops where the next entry does not
  -- follow, advances the expected number by the bytes taken, modulo 2 ^ 32, returns how many entries
  -- it took, and leaves a valid buffer.
  pub consume_contiguous_lem :
      (b : TcpReceiveBuffer T)
      → IsValid b
      → let (c, count) = consume_contiguous b in
        (gone : List (TcpReceiveEntry T)) × (b.entries ≡ gone ++ c.entries)
        × Chain b.next_sequence gone c.next_sequence
        × HeadIsNot c.next_sequence c.entries
        × (c.next_sequence ≡ (b.next_sequence + sizes gone) % u32_mod)
        × (count ≡ length gone)
        × IsValid c
  unfolding consume_contiguous
  consume_contiguous_lem b v =
      let (gone, c, n, k) = consume_loop-Consumed b.entries b.next_sequence b.buffered_bytes 0 in
      let ends = Chain-end b.next_sequence _ gone v.next_word c.chain in
      (
        gone,
        c.whole,
        c.chain,
        c.stopped,
        ends,
        omega arith,
        record {
          ascending = AscendingFrom-suffix 0 gone _ (subst (AscendingFrom 0) c.whole v.ascending);
          has_bytes = All-suffix gone _ (subst (All HasBytes) c.whole v.has_bytes);
          counted = k v.counted (omega arith);
          within = omega (
            arith,
            k v.counted (omega arith),
            ap sizes c.whole,
            sum_by-append (λ (e : TcpReceiveEntry T). payload_size e.segment) gone
                (consume_loop b.entries b.next_sequence b.buffered_bytes 0).remaining,
          );
          bounded = v.bounded;
          word = v.word;
          next_word = omega arith;
        },
      )

  consume_loop_stalled :
      (es : List (TcpReceiveEntry T)) (x : TcpReceiveEntry T) (next buffered consumed : ℕ)
      → head? es ≡ some x
      → x.segment.seq < next
      → consume_loop es next buffered consumed
        ≡ record { remaining = es; next = next; buffered = buffered; consumed = consumed }
  unfolding consume_loop
  consume_loop_stalled [] x next buffered consumed h l = cc
  consume_loop_stalled (y ∷ ys) x next buffered consumed h l = ground arith

  pub consume_stalled :
      (b : TcpReceiveBuffer T) (x : TcpReceiveEntry T)
      → head? b.entries ≡ some x
      → x.segment.seq < b.next_sequence
      → consume_contiguous b ≡ (b, 0)
  unfolding consume_contiguous
  consume_stalled b x h l =
      ground (arith, consume_loop_stalled b.entries x b.next_sequence b.buffered_bytes 0 h l)
