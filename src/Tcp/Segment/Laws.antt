-- ===== src/Tcp/Segment/Laws.antt =====
-- The flag operations of core/include/network/transport/tcp/TCPSegment.hpp, over every byte.
use native.Mathlib.Decide.{dec_lt}
use gns.Base.{
  ℕ, zero, suc, ◌<◌, ◌≡◌, refl, Bool, true, false, ◌&&◌, ◌==◌, if◌then◌else◌, ltb, ltb→lt, arith,
}
use gns.Tcp.Segment.{has_flag, set_flag}
use gns.Tcp.Segment.Flag

-- One of the five flags of the enumeration.
pub data IsFlag : ℕ → Type 0 where
  is_syn : IsFlag Flag.syn
  is_ack : IsFlag Flag.ack
  is_fin : IsFlag Flag.fin
  is_rst : IsFlag Flag.rst
  is_psh : IsFlag Flag.psh

same_bool : Bool → Bool → Bool
same_bool true b = b
same_bool false true = false
same_bool false false = true

same_bool-eq : (a b : Bool) → same_bool a b ≡ true → a ≡ b
unfolding same_bool
same_bool-eq true true h = refl
same_bool-eq false false h = refl
same_bool-eq true false h = cc
same_bool-eq false true h = cc

all_below : ℕ → (ℕ → Bool) → Bool
all_below zero p = true
all_below (suc n) p = p n && all_below n p

all_below_sound : (n x : ℕ) (p : ℕ → Bool) → all_below n p ≡ true → x < n → p x ≡ true
unfolding all_below
all_below_sound zero x p h l = absurd (omega arith)
all_below_sound (suc n) x p h l = elim (dec_lt x n) [
  | yes e ↦ all_below_sound n x p (ground arith) e
  | no e ↦ rw (x-eq-n e) (ground arith)
]
  where
    x-eq-n : (¬ x < n) → x ≡ n
    x-eq-n e = omega arith

agrees : ℕ → ℕ → Bool → ℕ → Bool
agrees a b v flags =
    same_bool (has_flag (set_flag flags a v) b) (if a == b then v else has_flag flags b)
    && ltb (set_flag flags a v) 256

flag_table :
    {a b : ℕ}
    → IsFlag a
    → IsFlag b
    → all_below 256 (λ flags. agrees a b true flags && agrees a b false flags) ≡ true
unfolding all_below agrees same_bool has_flag set_flag
flag_table is_syn is_syn = refl
flag_table is_syn _ = refl
flag_table is_ack is_syn = refl
flag_table is_ack _ = refl
flag_table is_fin is_syn = refl
flag_table is_fin _ = refl
flag_table is_rst is_syn = refl
flag_table is_rst _ = refl
flag_table is_psh is_syn = refl
flag_table is_psh _ = refl

flag_agrees :
    {a b : ℕ} (flags : ℕ) (v : Bool) → flags < 256 → IsFlag a → IsFlag b → agrees a b v flags ≡ true
flag_agrees {a} {b} flags v h p q =
    let both =
      all_below_sound 256 flags (λ x. agrees a b true x && agrees a b false x) (flag_table p q) h in
    elim v [ true ↦ ground arith | false ↦ ground arith ]

-- Setting a flag in a byte makes that flag what it is set to, leaves each of the other four as it
-- was, and gives a byte again.
pub set_flag_lem :
    {a b : ℕ} (flags : ℕ) (v : Bool)
    → flags < 256
    → IsFlag a
    → IsFlag b
    → (has_flag (set_flag flags a v) b ≡ (if a == b then v else has_flag flags b))
      × (set_flag flags a v < 256)
unfolding agrees
set_flag_lem {a} {b} flags v h p q =
    let table = flag_agrees flags v h p q in
    (same_bool-eq _ _ (ground arith), ltb→lt _ _ (ground arith))
