-- ===== src/Tcp/ReceiveBuffer/Laws.antt =====
-- core/src/network/transport/tcp/buffer/TCPReceiveBuffer.cpp: the order and the byte count of the
-- queue, and what `push` accepts.
use mathlib.Core.List.{Perm}
use mathlib.Core.List.Perm
use gns.Base.{
  ℕ, suc, ◌+◌, ◌≤◌, ◌<◌, ◌≡◌, refl, ◌≢◌, ◌⊎◌, inl, inr, true, false, List, [], ◌∷◌, head?, some,
  sum_by, All, ltb, Bool-cases, arith,
}
use gns.Base.Words.{u32_mod, size_mod}
use gns.Tcp.Segment.{payload_size}
use gns.Tcp.ReceiveBuffer.{TcpReceiveEntry, TcpReceiveBuffer, has_duplicate, insert_sorted, push}

module _ {T : Type 0} where
  -- Strictly ascending sequence numbers, from `n` on.
  abbrev pub AscendingFrom : ℕ → List (TcpReceiveEntry T) → Type 0
  AscendingFrom n [] = Unit
  AscendingFrom n (e ∷ es) = (n ≤ e.segment.seq) × AscendingFrom (suc e.segment.seq) es

  abbrev pub HasBytes : TcpReceiveEntry T → Type 0
  HasBytes e = 0 < payload_size e.segment

  abbrev pub sizes : List (TcpReceiveEntry T) → ℕ
  sizes = sum_by (λ e. payload_size e.segment)

-- A buffer with a capacity: its queue is in order, its counter exact and within the capacity.
pub record IsValid {T : Type 0} (b : TcpReceiveBuffer T) : Type 0 where
  pub ascending : AscendingFrom 0 b.entries
  pub has_bytes : All HasBytes b.entries
  pub counted : b.buffered_bytes ≡ sizes b.entries
  pub within : b.buffered_bytes ≤ b.capacity_bytes
  pub bounded : 0 < b.capacity_bytes
  pub word : b.capacity_bytes < size_mod
  pub next_word : b.next_sequence < u32_mod

module _ {T : Type 0} where
  AscendingFrom-insert :
      (n : ℕ) (es : List (TcpReceiveEntry T)) (e : TcpReceiveEntry T)
      → AscendingFrom n es
      → n ≤ e.segment.seq
      → has_duplicate es e.segment.seq ≡ false
      → AscendingFrom n (insert_sorted es e)
  unfolding insert_sorted has_duplicate
  AscendingFrom-insert n [] e a h d = (h, tt)
  AscendingFrom-insert n (x ∷ xs) e a h d =
      ground (arith, AscendingFrom-insert (suc x.segment.seq) xs e a.1)

  insert_sorted-perm :
      (es : List (TcpReceiveEntry T)) (e : TcpReceiveEntry T) → Perm (insert_sorted es e) (e ∷ es)
  unfolding insert_sorted
  insert_sorted-perm [] e = Perm.refl (e ∷ [])
  insert_sorted-perm (x ∷ xs) e = elim (Bool-cases (ltb x.segment.seq e.segment.seq)) [
    | inl h ↦ rw h (Perm.trans (Perm.cons x (insert_sorted-perm xs e)) (Perm.swap e x xs))
    | inr h ↦ rw h (Perm.refl (e ∷ x ∷ xs))
  ]

  sizes-insert :
      (es : List (TcpReceiveEntry T)) (e : TcpReceiveEntry T)
      → sizes (insert_sorted es e) ≡ payload_size e.segment + sizes es
  unfolding insert_sorted
  sizes-insert [] e = refl
  sizes-insert (x ∷ xs) e = ground (arith, sizes-insert xs e)

  All-insert :
      (es : List (TcpReceiveEntry T)) (e : TcpReceiveEntry T)
      → HasBytes e
      → All HasBytes es
      → All HasBytes (insert_sorted es e)
  unfolding insert_sorted
  All-insert [] e h a = (h, tt)
  All-insert (x ∷ xs) e h a = ground (arith, All-insert xs e h a.1)

  pub push-IsValid :
      (b : TcpReceiveBuffer T) (e : TcpReceiveEntry T) → IsValid b → IsValid (push b e).0
  unfolding push
  push-IsValid b e v = ground (
    arith,
    AscendingFrom-insert 0 b.entries e v.ascending,
    All-insert b.entries e,
    sizes-insert b.entries e,
  )

  has_duplicate-All :
      (es : List (TcpReceiveEntry T)) (e : TcpReceiveEntry T)
      → has_duplicate es e.segment.seq ≡ false
      → All (λ x. x.segment.seq ≢ e.segment.seq) es
  unfolding has_duplicate
  has_duplicate-All [] e h = tt
  has_duplicate-All (x ∷ xs) e h = (ground arith, has_duplicate-All xs e (ground arith))

  has_duplicate_of_All :
      (es : List (TcpReceiveEntry T)) (e : TcpReceiveEntry T)
      → All (λ x. x.segment.seq ≢ e.segment.seq) es
      → has_duplicate es e.segment.seq ≡ false
  unfolding has_duplicate
  has_duplicate_of_All [] e h = refl
  has_duplicate_of_All (x ∷ xs) e h = ground (arith, has_duplicate_of_All xs e h.1)

  push-entries :
      (b : TcpReceiveBuffer T) (e : TcpReceiveEntry T)
      → (push b e).1 ≡ true
      → (push b e).0.entries ≡ insert_sorted b.entries e
  unfolding push
  push-entries b e h = ground arith

  -- What an entry needs to be taken: it has bytes, does not begin below the expected sequence
  -- number, fits into the capacity, and begins where no queued entry does.
  pub record Fits (b : TcpReceiveBuffer T) (e : TcpReceiveEntry T) : Type 0 where
    pub has_data : 0 < payload_size e.segment
    pub not_old : b.next_sequence ≤ e.segment.seq
    pub has_room : b.buffered_bytes + payload_size e.segment ≤ b.capacity_bytes
    pub is_new : All (λ x. x.segment.seq ≢ e.segment.seq) b.entries

  push_of_Fits :
      (b : TcpReceiveBuffer T) (e : TcpReceiveEntry T) → IsValid b → Fits b e → (push b e).1 ≡ true
  unfolding push
  push_of_Fits b e v p =
      ground (arith, p.has_data, p.not_old, p.has_room, has_duplicate_of_All b.entries e p.is_new)

  push-Fits :
      (b : TcpReceiveBuffer T) (e : TcpReceiveEntry T) → IsValid b → (push b e).1 ≡ true → Fits b e
  unfolding push
  push-Fits b e v h = record {
    has_data = ground arith;
    not_old = ground arith;
    has_room = ground arith;
    is_new = has_duplicate-All b.entries e (ground arith);
  }

  push_refused :
      (b : TcpReceiveBuffer T) (e : TcpReceiveEntry T) → (push b e).1 ≡ false → (push b e).0 ≡ b
  unfolding push
  push_refused b e h = ground arith

  -- A valid buffer takes an entry with bytes that does not begin below the expected sequence number,
  -- fits into the capacity and begins where no queued entry does, and its queue is then a permutation
  -- of the old one with the entry; any other entry it refuses, and is unchanged. It stays valid.
  pub push_cases :
      (b : TcpReceiveBuffer T) (e : TcpReceiveEntry T)
      → IsValid b
      → ((Fits b e × ((push b e).1 ≡ true) × Perm (push b e).0.entries (e ∷ b.entries))
          ⊎ ((¬ Fits b e) × (push b e ≡ (b, false))))
        × IsValid (push b e).0
  push_cases b e v = (
    elim (Bool-cases (push b e).1) [
      | inl h ↦ inl (push-Fits b e v h, h, rw (push-entries b e h) (insert_sorted-perm b.entries e))
      | inr h ↦ inr (λ p. cc (push_of_Fits b e v p), λ i. (push_refused b e h i, h i))
    ],
    push-IsValid b e v,
  )

  insert_sorted-head :
      (es : List (TcpReceiveEntry T)) (x e : TcpReceiveEntry T)
      → head? es ≡ some x
      → x.segment.seq < e.segment.seq
      → head? (insert_sorted es e) ≡ some x
  unfolding insert_sorted
  insert_sorted-head [] x e h l = cc
  insert_sorted-head (y ∷ ys) x e h l = ground arith

  -- An entry below the expected number stays at the front whatever is pushed.
  pub push-head :
      (b : TcpReceiveBuffer T) (x e : TcpReceiveEntry T)
      → head? b.entries ≡ some x
      → x.segment.seq < b.next_sequence
      → (head? (push b e).0.entries ≡ some x) × ((push b e).0.next_sequence ≡ b.next_sequence)
  unfolding push
  push-head b x e h l = ground (arith, insert_sorted-head b.entries x e h)
