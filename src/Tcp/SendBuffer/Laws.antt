-- ===== src/Tcp/SendBuffer/Laws.antt =====
-- What TCPSendBuffer.cpp promises: the cumulative acknowledgement, its RTT sample (Karn's rule),
-- and the retransmission marks.
use mathlib.Core.Option
use native.Mathlib.Nat.{add-zero, zero-add}
use native.Mathlib.Decide.{dec_le}
use gns.Base.{
  ℕ, suc, ◌+◌, ◌≤◌, ◌<◌, ◌≡◌, refl, sym, ap, ◌∙◌, Option, none, some, List, [], ◌∷◌, ◌++◌, length,
  head?, All, ◌&&◌, ◌==◌, if◌then◌else◌, map, le→leb, arith,
}
use gns.Base.Floats.{Float}
use gns.Tcp.SendBuffer.{
  TcpSendEntry, TcpSendBuffer, sequence_end, mark_entry, find_entry, find, contains,
  acknowledge_loop, acknowledge, mark_first, mark_retransmitted, sample_of, keep_first, rtt_loop,
  acknowledge_and_get_rtt,
}

module _ {T : Type 0} where
  -- All bytes of the entry lie below the acknowledgement number.
  abbrev pub IsCovered : ℕ → TcpSendEntry T → Type 0
  IsCovered ack_number e = sequence_end e ≤ ack_number

  abbrev pub HeadUncovered : ℕ → List (TcpSendEntry T) → Type 0
  HeadUncovered ack_number [] = Unit
  HeadUncovered ack_number (e ∷ es) = ack_number < sequence_end e

  -- `es` splits into the longest prefix that the acknowledgement covers, and the rest.
  pub record Split (ack_number : ℕ) (es gone rest : List (TcpSendEntry T)) : Type 0 where
    pub whole : es ≡ gone ++ rest
    pub covered : All (IsCovered ack_number) gone
    pub longest : HeadUncovered ack_number rest

module _ {T : Type 0} (f : Float T) where
  -- The RTTs of the entries that were sent once, those that are finite and positive.
  pub rtt_samples : T → List (TcpSendEntry T) → List T
  rtt_samples now [] = []
  rtt_samples now (e ∷ es) =
      if e.retransmitted
      then rtt_samples now es
      else if f.is_finite (f.sub now e.sent_at) && f.lt (f.literal 0 1) (f.sub now e.sent_at)
      then f.sub now e.sent_at ∷ rtt_samples now es
      else rtt_samples now es

module _ {T : Type 0} where
  acknowledge_loop_stops :
      (ack_number : ℕ) (rest : List (TcpSendEntry T)) (removed : ℕ)
      → HeadUncovered ack_number rest
      → acknowledge_loop rest ack_number removed ≡ (rest, removed)
  unfolding acknowledge_loop
  acknowledge_loop_stops ack_number [] removed h = refl
  acknowledge_loop_stops ack_number (e ∷ es) removed h = ground arith

  acknowledge_loop-append :
      (ack_number : ℕ) (gone rest : List (TcpSendEntry T)) (removed : ℕ)
      → All (IsCovered ack_number) gone
      → HeadUncovered ack_number rest
      → acknowledge_loop (gone ++ rest) ack_number removed ≡ (rest, removed + length gone)
  unfolding acknowledge_loop
  acknowledge_loop-append ack_number [] rest removed c h =
      acknowledge_loop_stops ack_number rest removed h ∙ rw add-zero
  acknowledge_loop-append ack_number (e ∷ gone) rest removed c h =
      ground (arith, acknowledge_loop-append ack_number gone rest (suc removed) c.1 h)

module _ {T : Type 0} (f : Float T) where
  rtt_loop_stops :
      (ack_number : ℕ) (now : T) (rest : List (TcpSendEntry T)) (s : Option T)
      → HeadUncovered ack_number rest
      → rtt_loop f rest ack_number now s ≡ (rest, s)
  unfolding rtt_loop
  rtt_loop_stops ack_number now [] s h = refl
  rtt_loop_stops ack_number now (e ∷ es) s h = ground arith

  keep_first-none : (s : Option T) → keep_first f s none ≡ s
  unfolding keep_first
  keep_first-none none = refl
  keep_first-none (some r) = refl

  keep_first-head :
      (now : T) (e : TcpSendEntry T) (es : List (TcpSendEntry T)) (s : Option T)
      → keep_first f (keep_first f s (sample_of f e now)) (head? (rtt_samples f now es))
        ≡ keep_first f s (head? (rtt_samples f now (e ∷ es)))
  unfolding keep_first sample_of rtt_samples
  keep_first-head now e es s = ground arith

  rtt_loop-append :
      (ack_number : ℕ) (now : T) (gone rest : List (TcpSendEntry T)) (s : Option T)
      → All (IsCovered ack_number) gone
      → HeadUncovered ack_number rest
      → rtt_loop f (gone ++ rest) ack_number now s
        ≡ (rest, keep_first f s (head? (rtt_samples f now gone)))
  unfolding rtt_loop rtt_samples
  rtt_loop-append ack_number now [] rest s c h =
      rtt_loop_stops ack_number now rest s h
      ∙ sym (ap (λ (r : Option T). (rest, r)) (keep_first-none s))
  rtt_loop-append ack_number now (e ∷ gone) rest s c h =
      let step =
        rtt_loop-append ack_number now gone rest (keep_first f s (sample_of f e now)) c.1 h in
      rw (le→leb (sequence_end e) ack_number c.0) (step ∙ rw (keep_first-head now e gone s))

  acknowledge_loop-Split :
      (ack_number : ℕ) (es gone rest : List (TcpSendEntry T))
      → Split ack_number es gone rest
      → acknowledge_loop es ack_number 0 ≡ (rest, length gone)
  acknowledge_loop-Split ack_number es gone rest s =
      rw s.whole (acknowledge_loop-append ack_number gone rest 0 s.covered s.longest ∙ rw zero-add)

  rtt_loop-Split :
      (ack_number : ℕ) (now : T) (es gone rest : List (TcpSendEntry T))
      → Split ack_number es gone rest
      → rtt_loop f es ack_number now none ≡ (rest, head? (rtt_samples f now gone))
  unfolding keep_first
  rtt_loop-Split ack_number now es gone rest s =
      rw s.whole (rtt_loop-append ack_number now gone rest none s.covered s.longest)

  covered_prefix :
      (ack_number : ℕ) (es : List (TcpSendEntry T))
      → (gone : List (TcpSendEntry T)) × (rest : List (TcpSendEntry T)) × Split ack_number es gone
          rest
  covered_prefix ack_number [] = ([], [], record { whole = refl; covered = tt; longest = tt })
  covered_prefix ack_number (e ∷ es) = elim (dec_le (sequence_end e) ack_number) [
    | yes h ↦
        let (gone, rest, s) = covered_prefix ack_number es in
        (
          e ∷ gone,
          rest,
          record { whole = ap (◌∷◌ e) s.whole; covered = (h, s.covered); longest = s.longest },
        )
    | no h ↦ ([], e ∷ es, record { whole = refl; covered = tt; longest = omega arith })
  ]

  -- Both acknowledging methods remove the longest prefix of the buffer that lies below the
  -- acknowledgement number and keep the rest; `acknowledge` returns how many entries went, and
  -- `acknowledge_and_get_rtt` the first usable RTT of those, none of them from a retransmitted entry.
  pub acknowledge_lem :
      (b : TcpSendBuffer T) (ack_number : ℕ) (now : T)
      → (gone : List (TcpSendEntry T)) × (rest : List (TcpSendEntry T)) × Split ack_number b.entries
          gone rest
        × (acknowledge b ack_number ≡ (record b { entries = rest }, length gone))
        × (acknowledge_and_get_rtt f b ack_number now
            ≡ (record b { entries = rest }, head? (rtt_samples f now gone)))
  unfolding acknowledge acknowledge_and_get_rtt
  acknowledge_lem b ack_number now =
      let (gone, rest, s) = covered_prefix ack_number b.entries in
      (
        gone,
        rest,
        s,
        ground (arith, acknowledge_loop-Split ack_number b.entries gone rest s),
        ground (arith, rtt_loop-Split ack_number now b.entries gone rest s),
      )

module _ {T : Type 0} where
  abbrev pub entry_seqs : List (TcpSendEntry T) → List ℕ
  entry_seqs = map (λ e. e.segment.seq)

  find_entry-mark_first :
      (sequence s : ℕ) (now : T) (es : List (TcpSendEntry T))
      → find_entry (mark_first es sequence now) s ≡ (
          if sequence == s
          then Option.map (λ e. mark_entry e now) (find_entry es s)
          else find_entry es s)
  unfolding find_entry mark_first
  find_entry-mark_first sequence s now [] = ground arith
  find_entry-mark_first sequence s now (e ∷ es) =
      ground (arith, find_entry-mark_first sequence s now es)

  entry_seqs-mark_first :
      (sequence : ℕ) (now : T) (es : List (TcpSendEntry T))
      → entry_seqs (mark_first es sequence now) ≡ entry_seqs es
  unfolding mark_first
  entry_seqs-mark_first sequence now [] = refl
  entry_seqs-mark_first sequence now (e ∷ es) =
      ground (arith, entry_seqs-mark_first sequence now es)

  mark_first_missing :
      (sequence : ℕ) (now : T) (es : List (TcpSendEntry T))
      → find_entry es sequence ≡ none
      → mark_first es sequence now ≡ es
  unfolding mark_first find_entry
  mark_first_missing sequence now [] h = refl
  mark_first_missing sequence now (e ∷ es) h = ground (arith, mark_first_missing sequence now es)

  pub mark_retransmitted-entries :
      (b : TcpSendBuffer T) (sequence : ℕ) (now : T)
      → ((mark_retransmitted b sequence now).0.entries ≡ mark_first b.entries sequence now)
        × ((mark_retransmitted b sequence now).0.capacity ≡ b.capacity)
  unfolding mark_retransmitted
  mark_retransmitted-entries b sequence now =
      ground (arith, mark_first_missing sequence now b.entries)

  -- Marking a sequence number as retransmitted answers whether the buffer holds it, gives that entry
  -- the new time, the mark and one more retransmission, and changes neither what any other sequence
  -- number finds nor the order of the sequence numbers.
  pub mark_retransmitted_lem :
      (b : TcpSendBuffer T) (sequence s : ℕ) (now : T)
      → (find (mark_retransmitted b sequence now).0 s
          ≡ (if sequence == s then Option.map (λ e. mark_entry e now) (find b s) else find b s))
        × ((mark_retransmitted b sequence now).1 ≡ contains b sequence)
        × (entry_seqs (mark_retransmitted b sequence now).0.entries ≡ entry_seqs b.entries)
  unfolding mark_retransmitted find contains
  mark_retransmitted_lem b sequence s now = (
    ground (arith, find_entry-mark_first sequence s now b.entries),
    ground arith,
    ground (arith, entry_seqs-mark_first sequence now b.entries),
  )
