-- ===== src/Network/Topology/Accepted.antt =====
-- What addLinkPtr of core/src/network/Topology.cpp accepts.
use gns.Base.{ℕ, ◌≤◌, ◌≡◌, ◌⊎◌, inl, inr, refl, ◌||◌, false, ltb, Bool-cases, or_false, arith}
use gns.Base.Ints.{ℤ, pos, negsuc, eq_int, is_negative, to_size, max_int}
use gns.Base.Floats.{Float}
use gns.Network.Link.{LinkMode, Link, create_link}
use gns.Network.Topology.{
  Topology, TopologyError, negative_index, self_loop, bad_bandwidth, bad_delay, bad_loss_prob, grow,
  attach, add_link_ptr,
}

is_negative-pos : (x : ℤ) → is_negative x ≡ false → (i : ℕ) × (x ≡ pos i)
is_negative-pos (pos i) h = (i, refl)
is_negative-pos (negsuc i) h = ground arith

pub max_int-bounds :
    (i j : ℕ) → (i ≤ to_size (max_int (pos i) (pos j))) × (j ≤ to_size (max_int (pos i) (pos j)))
max_int-bounds i j = elim (Bool-cases (ltb i j)) [
  | inl h ↦ rw h (ground (arith, h), omega arith)
  | inr h ↦ rw h (omega arith, ground (arith, h))
]

module _ {T : Type 0} (f : Float T) where
  -- A link between two different nodes that exist or are made.
  pub record Accepted (a b : ℤ) : Type 0 where
    pub a_at : ℕ
    pub a_is : a ≡ pos a_at
    pub b_at : ℕ
    pub b_is : b ≡ pos b_at
    pub differ : eq_int a b ≡ false

  module _ (t : Topology T) (next_id : ℕ) (a b : ℤ) (bandwidth delay loss : T)
      (mode : LinkMode) where
    abbrev pub added : TopologyError ⊎ (Topology T × Link T × ℕ)
    added = add_link_ptr f t next_id a b bandwidth delay loss mode

    abbrev pub new_link : Link T × ℕ
    new_link = create_link f next_id a b bandwidth delay loss mode

    pub add_link_ptr-cases :
        ((e : TopologyError) × (added ≡ inl e))
        ⊎ (Accepted a b
            × (added
                ≡ inr (attach (grow t (to_size (max_int a b))) new_link.0, new_link.0, new_link.1)))
    unfolding add_link_ptr
    add_link_ptr-cases = elim (Bool-cases (is_negative a || is_negative b)) [
      | inl h1 ↦ inl (negative_index, rw (h1, add_link_ptr) refl)
      | inr h1 ↦ elim (Bool-cases (eq_int a b)) [
        | inl h2 ↦ inl (self_loop, rw (h1, h2, add_link_ptr) refl)
        | inr h2 ↦ elim (Bool-cases (f.le bandwidth (f.literal 0 1))) [
          | inl h3 ↦ inl (bad_bandwidth, rw (h1, h2, h3, add_link_ptr) refl)
          | inr h3 ↦ elim (Bool-cases (f.lt delay (f.literal 0 1))) [
            | inl h4 ↦ inl (bad_delay, rw (h1, h2, h3, h4, add_link_ptr) refl)
            | inr h4 ↦ elim (Bool-cases (f.lt loss (f.literal 0 1) || f.lt (f.literal 1 1) loss)) [
              | inl h5 ↦ inl (bad_loss_prob, rw (h1, h2, h3, h4, h5, add_link_ptr) refl)
              | inr h5 ↦
                  let both = or_false (is_negative a) (is_negative b) h1 in
                  let (i, ea) = is_negative-pos a both.0 in
                  let (j, eb) = is_negative-pos b both.1 in
                  inr (
                    record { a_at = i; a_is = ea; b_at = j; b_is = eb; differ = h2 },
                    rw (h1, h2, h3, h4, h5, add_link_ptr) refl,
                  )
            ]
          ]
        ]
      ]
    ]
