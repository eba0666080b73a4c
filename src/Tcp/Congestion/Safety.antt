-- ===== src/Tcp/Congestion/Safety.antt =====
-- The bounds of the congestion window and the slow-start threshold, for every algorithm of
-- core/src/network/transport/tcp/congestion.
use mathlib.Core.Option
use gns.Base.{
  ℕ, ◌+◌, ◌*◌, ◌≤◌, ◌<◌, ◌≡◌, refl, ◌∙◌, min, Bool, true, false, Option, none, some, List, [], ◌∷◌,
  All, Bool-cases, ◌==◌, subst, not, ◌||◌, if◌then◌else◌, inl, inr, arith,
}
use gns.Base.Words.{u32_max, u32_mod}
use gns.Base.Floats.{Float}
use gns.Tcp.Congestion.Window.{saturating_add, slow_start, capped_add, congestion_avoidance}
use gns.Tcp.Congestion.Tahoe
use gns.Tcp.Congestion.Reno
use gns.Tcp.Congestion.NewReno
use gns.Tcp.Congestion.Cubic
use gns.Tcp.Congestion.Cubic.{CubicCongestionControl}
use gns.Tcp.Congestion.{
  CongestionControl, tahoe, reno, new_reno, cubic, CongestionControlType, tahoe_type, reno_type,
  new_reno_type, cubic_type, create, default_beta, default_c, get_cwnd, get_ssthresh, get_mss,
}
use gns.Tcp.Congestion.Notices.{Notice, acked, fast_retransmitted, notify, notify_all}

-- Three segments fit into 32 bits, the window holds one segment at least and the threshold two.
pub record WindowSafe (mss initial_ssthresh cwnd ssthresh : ℕ) : Type 0 where
  pub mss_low : 0 < mss
  pub mss_high : 3 * mss < u32_mod
  pub initial_high : initial_ssthresh ≤ u32_max
  pub cwnd_low : mss ≤ cwnd
  pub cwnd_high : cwnd ≤ u32_max
  pub ssthresh_low : 2 * mss ≤ ssthresh
  pub ssthresh_high : ssthresh ≤ u32_max

abbrev pub IsSafe : {T : Type 0} → CongestionControl T → Type 0
IsSafe (tahoe c) = WindowSafe c.mss c.initial_ssthresh c.cwnd c.ssthresh
IsSafe (reno c) = WindowSafe c.mss c.initial_ssthresh c.cwnd c.ssthresh
IsSafe (new_reno c) =
    WindowSafe c.mss c.initial_ssthresh c.cwnd c.ssthresh × (c.recovery_ssthresh ≤ u32_max)
IsSafe (cubic c) = WindowSafe c.mss c.initial_ssthresh c.cwnd c.ssthresh

-- The sizes in a notification are 32-bit words.
abbrev pub IsWordNotice : Notice → Type 0
IsWordNotice (fast_retransmitted n) = n < u32_mod
IsWordNotice _ = Unit

pub saturating_add_bounds :
    (cwnd increase : ℕ)
    → cwnd ≤ u32_max
    → (increase ≤ u32_max)
    → (cwnd ≤ saturating_add cwnd increase)
      × (saturating_add cwnd increase ≤ u32_max)
      × (saturating_add cwnd increase ≤ cwnd + increase)
unfolding saturating_add
saturating_add_bounds cwnd increase h k = ground arith

pub capped_add_bounds :
    (cwnd increase : ℕ)
    → cwnd ≤ u32_max
    → (cwnd ≤ capped_add cwnd increase) × (capped_add cwnd increase ≤ u32_max)
unfolding capped_add
capped_add_bounds cwnd increase h = ground arith

pub slow_start_bounds :
    (mss cwnd acknowledged : ℕ)
    → cwnd ≤ u32_max
    → mss ≤ u32_max
    → (cwnd ≤ slow_start mss cwnd acknowledged)
      × (slow_start mss cwnd acknowledged ≤ u32_max)
      × (slow_start mss cwnd acknowledged ≤ cwnd + mss)
unfolding slow_start
slow_start_bounds mss cwnd acknowledged h k =
    ground (arith, saturating_add_bounds cwnd (min acknowledged mss))

pub avoidance_bounds :
    (mss cwnd : ℕ)
    → cwnd ≤ u32_max
    → (cwnd ≤ congestion_avoidance mss cwnd) × (congestion_avoidance mss cwnd ≤ u32_max)
unfolding congestion_avoidance
avoidance_bounds mss cwnd h = capped_add_bounds cwnd _ h

ruleset bounds =
    (arith, saturating_add_bounds, capped_add_bounds, slow_start_bounds, avoidance_bounds)

tahoe-IsSafe :
    {T : Type 0} (f : Float T) (c : Tahoe.TahoeCongestionControl) (n : Notice)
    → IsSafe {T = T} (tahoe c)
    → IsWordNotice n
    → IsSafe (notify f (tahoe c) n)
unfolding notify
tahoe-IsSafe f c (acked n) h w = grind bounds
tahoe-IsSafe f c _ h w = grind bounds

reno-IsSafe :
    {T : Type 0} (f : Float T) (c : Reno.RenoCongestionControl) (n : Notice)
    → IsSafe {T = T} (reno c)
    → IsWordNotice n
    → IsSafe (notify f (reno c) n)
unfolding notify
reno-IsSafe f c (acked n) h w = grind bounds
reno-IsSafe f c _ h w = grind bounds

new_reno-IsSafe :
    {T : Type 0} (f : Float T) (c : NewReno.NewRenoCongestionControl) (n : Notice)
    → IsSafe {T = T} (new_reno c)
    → IsWordNotice n
    → IsSafe (notify f (new_reno c) n)
unfolding notify
new_reno-IsSafe f c (acked n) h w = grind bounds
new_reno-IsSafe f c _ h w = grind bounds

cubic-IsSafe :
    {T : Type 0} (f : Float T) (c : CubicCongestionControl T) (n : Notice)
    → IsSafe (cubic c)
    → IsWordNotice n
    → IsSafe (notify f (cubic c) n)
unfolding notify Cubic.reduced_ssthresh
cubic-IsSafe f c (acked n) h w = grind bounds
cubic-IsSafe f c _ h w = grind bounds

module _ {T : Type 0} (f : Float T) where
  notify-IsSafe :
      (c : CongestionControl T) (n : Notice) → IsSafe c → IsWordNotice n → IsSafe (notify f c n)
  notify-IsSafe (tahoe c) n h w = tahoe-IsSafe f c n h w
  notify-IsSafe (reno c) n h w = reno-IsSafe f c n h w
  notify-IsSafe (new_reno c) n h w = new_reno-IsSafe f c n h w
  notify-IsSafe (cubic c) n h w = cubic-IsSafe f c n h w

  notify-mss : (c : CongestionControl T) (n : Notice) → get_mss (notify f c n) ≡ get_mss c
  unfolding notify get_mss
  notify-mss (tahoe c) n = ground arith
  notify-mss (reno c) n = ground arith
  notify-mss (new_reno c) n = ground arith
  notify-mss (cubic c) n = ground arith

  notify_all-IsSafe :
      (c : CongestionControl T) (ns : List Notice)
      → IsSafe c
      → All IsWordNotice ns
      → IsSafe (notify_all f c ns) × (get_mss (notify_all f c ns) ≡ get_mss c)
  unfolding notify_all
  notify_all-IsSafe c [] h w = (h, refl)
  notify_all-IsSafe c (n ∷ ns) h w =
      let (safe, same) = notify_all-IsSafe (notify f c n) ns (notify-IsSafe c n h w.0) w.1 in
      (safe, same ∙ notify-mss c n)

  abbrev Checked : ℕ → Option (CongestionControl T) → Type 0
  Checked mss none = Unit
  Checked mss (some c) = IsSafe c × (get_mss c ≡ mss)

  create-Checked :
      (t : CongestionControlType) (mss initial_ssthresh : ℕ)
      → 3 * mss < u32_mod
      → initial_ssthresh ≤ u32_max
      → Checked mss (create f t mss initial_ssthresh)
  unfolding create get_mss
  create-Checked tahoe_type mss initial_ssthresh m i = elim (Bool-cases (mss == 0)) [
    | inl z ↦ rw z tt
    | inr z ↦ rw z (ground arith, refl)
  ]
  create-Checked reno_type mss initial_ssthresh m i = elim (Bool-cases (mss == 0)) [
    | inl z ↦ rw z tt
    | inr z ↦ rw z (ground arith, refl)
  ]
  create-Checked new_reno_type mss initial_ssthresh m i = elim (Bool-cases (mss == 0)) [
    | inl z ↦ rw z tt
    | inr z ↦ rw z ((ground arith, omega arith), refl)
  ]
  create-Checked cubic_type mss initial_ssthresh m i =
      if_none (mss == 0) _ λ z. if_none bad_beta _ λ _. if_none bad_c _ λ _. (ground arith, refl)
    where
      bad_beta : Bool
      bad_beta =
          not (f.is_finite (default_beta f))
          || (f.le (default_beta f) (f.literal 0 1) || f.le (f.literal 1 1) (default_beta f))

      bad_c : Bool
      bad_c = not (f.is_finite (default_c f)) || f.le (default_c f) (f.literal 0 1)

      if_none :
          (b : Bool) (o : Option (CubicCongestionControl T))
          → (b ≡ false → Checked mss (Option.map cubic o))
          → Checked mss (Option.map cubic (if b then none else o))
      if_none true o h = tt
      if_none false o h = h refl

  create-IsSafe :
      (t : CongestionControlType) (mss initial_ssthresh : ℕ) {c : CongestionControl T}
      → 3 * mss < u32_mod
      → initial_ssthresh ≤ u32_max
      → create f t mss initial_ssthresh ≡ some c
      → IsSafe c × (get_mss c ≡ mss)
  create-IsSafe t mss initial_ssthresh m i e =
      subst (Checked mss) e (create-Checked t mss initial_ssthresh m i)

  IsSafe-bounds :
      (c : CongestionControl T)
      → IsSafe c
      → (get_mss c ≤ get_cwnd c)
        × (get_cwnd c ≤ u32_max)
        × (2 * get_mss c ≤ get_ssthresh c)
        × (get_ssthresh c ≤ u32_max)
  unfolding get_mss get_cwnd get_ssthresh
  IsSafe-bounds (tahoe c) h = omega arith
  IsSafe-bounds (reno c) h = omega arith
  IsSafe-bounds (new_reno c) h = omega arith
  IsSafe-bounds (cubic c) h = omega arith

  -- Whatever algorithm the factory builds for an MSS of which three fit into 32 bits, after any
  -- history of notifications with 32-bit sizes its congestion window is at least one MSS, its
  -- slow-start threshold at least two, and neither exceeds 2 ^ 32 - 1.
  pub window_bounds :
      (t : CongestionControlType) (mss initial_ssthresh : ℕ) (ns : List Notice)
      {c : CongestionControl T}
      → 3 * mss < u32_mod
      → initial_ssthresh ≤ u32_max
      → All IsWordNotice ns
      → create f t mss initial_ssthresh ≡ some c
      → let d = notify_all f c ns in
        (mss ≤ get_cwnd d)
        × (get_cwnd d ≤ u32_max)
        × (2 * mss ≤ get_ssthresh d)
        × (get_ssthresh d ≤ u32_max)
  window_bounds t mss initial_ssthresh ns {c} m i w e =
      let (safe, same) = create-IsSafe t mss initial_ssthresh m i e in
      let (safe', same') = notify_all-IsSafe c ns safe w in
      rw (← (same' ∙ same)) (IsSafe-bounds (notify_all f c ns) safe')
