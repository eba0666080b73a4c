-- ===== src/Tcp/Congestion/Equivalence.antt =====
-- Where the algorithms of core/src/network/transport/tcp/congestion agree.
use mathlib.Core.Option.{some-injective}
use mathlib.Core.Path.{subst₃}
use gns.Base.{ℕ, ◌≡◌, false, List, [], ◌∷◌, All, Bool-cases, ◌==◌, some, inl, inr, arith}
use gns.Base.Floats.{Float}
use gns.Tcp.Congestion.Tahoe.{TahoeCongestionControl}
use gns.Tcp.Congestion.Reno.{RenoCongestionControl}
use gns.Tcp.Congestion.NewReno.{NewRenoCongestionControl}
use gns.Tcp.Congestion.{
  CongestionControl, tahoe, reno, new_reno, cubic, create, tahoe_type, reno_type, new_reno_type,
  get_cwnd, get_ssthresh,
}
use gns.Tcp.Congestion.Notices.{Notice, acked, lost, fast_retransmitted, notify, notify_all}

-- The notifications other than a fast retransmission.
abbrev pub IsOrdinary : Notice → Type 0
IsOrdinary (fast_retransmitted n) = ⊥
IsOrdinary _ = Unit

-- Three algorithms in the same position, none of them in fast recovery.
pub record Aligned (t : TahoeCongestionControl) (r : RenoCongestionControl)
    (n : NewRenoCongestionControl) : Type 0 where
  pub reno_mss : r.mss ≡ t.mss
  pub reno_initial : r.initial_ssthresh ≡ t.initial_ssthresh
  pub reno_cwnd : r.cwnd ≡ t.cwnd
  pub reno_ssthresh : r.ssthresh ≡ t.ssthresh
  pub reno_idle : r.fast_recovery ≡ false
  pub new_reno_mss : n.mss ≡ t.mss
  pub new_reno_initial : n.initial_ssthresh ≡ t.initial_ssthresh
  pub new_reno_cwnd : n.cwnd ≡ t.cwnd
  pub new_reno_ssthresh : n.ssthresh ≡ t.ssthresh
  pub new_reno_idle : n.fast_recovery ≡ false

abbrev pub AlignedAll :
    {T : Type 0} → CongestionControl T → CongestionControl T → CongestionControl T → Type 0
AlignedAll (tahoe t) (reno r) (new_reno n) = Aligned t r n
AlignedAll _ _ _ = ⊥

module _ {T : Type 0} (f : Float T) where
  notify-Aligned :
      (t : TahoeCongestionControl) (r : RenoCongestionControl) (n : NewRenoCongestionControl)
      (e : Notice)
      → Aligned t r n
      → IsOrdinary e
      → AlignedAll (notify f (tahoe t) e) (notify f (reno r) e) (notify f (new_reno n) e)
  unfolding notify
  notify-Aligned t r n (acked a) h o = ground arith
  notify-Aligned t r n lost h o = ground arith
  notify-Aligned t r n (fast_retransmitted a) h o = absurd o
  notify-Aligned t r n _ h o = ground arith

  aligned_windows :
      (c d e : CongestionControl T)
      → AlignedAll c d e
      → (get_cwnd d ≡ get_cwnd c)
        × (get_ssthresh d ≡ get_ssthresh c)
        × (get_cwnd e ≡ get_cwnd c)
        × (get_ssthresh e ≡ get_ssthresh c)
  unfolding get_cwnd get_ssthresh
  aligned_windows (tahoe t) (reno r) (new_reno n) h =
      (h.reno_cwnd, h.reno_ssthresh, h.new_reno_cwnd, h.new_reno_ssthresh)
  aligned_windows (tahoe t) (reno r) (tahoe n) h = absurd h
  aligned_windows (tahoe t) (reno r) (reno n) h = absurd h
  aligned_windows (tahoe t) (reno r) (cubic n) h = absurd h
  aligned_windows _ _ _ h = absurd h

  notify-AlignedAll :
      (c d e : CongestionControl T) (n : Notice)
      → AlignedAll c d e
      → IsOrdinary n
      → AlignedAll (notify f c n) (notify f d n) (notify f e n)
  notify-AlignedAll (tahoe t) (reno r) (new_reno n) a h o = notify-Aligned t r n a h o
  notify-AlignedAll (tahoe t) (reno r) (tahoe n) a h o = absurd h
  notify-AlignedAll (tahoe t) (reno r) (reno n) a h o = absurd h
  notify-AlignedAll (tahoe t) (reno r) (cubic n) a h o = absurd h
  notify-AlignedAll _ _ _ a h o = absurd h

  notify_all-AlignedAll :
      (c d e : CongestionControl T) (ns : List Notice)
      → AlignedAll c d e
      → All IsOrdinary ns
      → AlignedAll (notify_all f c ns) (notify_all f d ns) (notify_all f e ns)
  unfolding notify_all
  notify_all-AlignedAll c d e [] h o = h
  notify_all-AlignedAll c d e (n ∷ ns) h o =
      notify_all-AlignedAll (notify f c n) (notify f d n) (notify f e n) ns
        (notify-AlignedAll c d e n h o.0) o.1

  create-AlignedAll :
      (mss initial_ssthresh : ℕ) (c d e : CongestionControl T)
      → create f tahoe_type mss initial_ssthresh ≡ some c
      → create f reno_type mss initial_ssthresh ≡ some d
      → create f new_reno_type mss initial_ssthresh ≡ some e
      → AlignedAll c d e
  unfolding create
  create-AlignedAll mss initial_ssthresh c d e p q r = elim (Bool-cases (mss == 0)) [
    | inl z ↦ ground arith
    | inr z ↦
        subst₃ AlignedAll (some-injective _ _ (rw z at p)) (some-injective _ _ (rw z at q))
          (some-injective _ _ (rw z at r)) (ground arith)
  ]

  -- Tahoe, Reno and NewReno, built with the same parameters, have the same window and the same
  -- threshold after any history of notifications in which no fast retransmission occurs.
  pub ordinary_agree :
      (mss initial_ssthresh : ℕ) (ns : List Notice) (c d e : CongestionControl T)
      → create f tahoe_type mss initial_ssthresh ≡ some c
      → create f reno_type mss initial_ssthresh ≡ some d
      → create f new_reno_type mss initial_ssthresh ≡ some e
      → All IsOrdinary ns
      → (get_cwnd (notify_all f d ns) ≡ get_cwnd (notify_all f c ns))
        × (get_ssthresh (notify_all f d ns) ≡ get_ssthresh (notify_all f c ns))
        × (get_cwnd (notify_all f e ns) ≡ get_cwnd (notify_all f c ns))
        × (get_ssthresh (notify_all f e ns) ≡ get_ssthresh (notify_all f c ns))
  ordinary_agree mss initial_ssthresh ns c d e p q r o =
      aligned_windows (notify_all f c ns) (notify_all f d ns) (notify_all f e ns)
        (notify_all-AlignedAll c d e ns (create-AlignedAll mss initial_ssthresh c d e p q r) o)
