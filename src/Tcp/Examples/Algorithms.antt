-- ===== src/Tcp/Examples/Algorithms.antt =====
-- Congestion control, timer and loss detection on concrete histories.
use gns.Tcp.Examples.Fractions.{Fraction, fractions, fractions-FloatLaws}
use gns.Tcp.Examples.Endpoints.{
  new_tahoe, idle_reno, idle_new_reno, recovering_sender, idle_reno-IsSafe, recovering_reno-IsSafe,
}
use gns.Base.{◌+◌, ◌*◌, ◌^◌, ◌≤◌, ◌≡◌, refl, ◌↔◌, min, true, false, some, List, [], ◌∷◌, All, arith}
use gns.Base.Words.{u32_max}
use gns.Tcp.LossDetector.{should_fast_retransmit}
use gns.Tcp.LossDetector.Laws.{detector_after, leading, detector_after_lem}
use gns.Tcp.Timer.{min_rto, max_rto, current_rto, new_manager}
use gns.Tcp.Timer.Laws.{
  TimerEvent, timeout, restart, sample, timer_run, current_rto_range, timeouts, timeouts-backoff,
}
use gns.Tcp.Congestion.{
  create, tahoe_type, reno_type, new_reno_type, on_ack, get_cwnd, get_ssthresh, get_mss,
}
use gns.Tcp.Congestion.Notices.{
  Notice, acked, lost, fast_retransmitted, duplicated, recovery_acked, notify_all,
}
use gns.Tcp.Congestion.Safety.{IsWordNotice, window_bounds}
use gns.Tcp.Congestion.Equivalence.{IsOrdinary, ordinary_agree}
use gns.Tcp.Congestion.Growth.{on_ack_growth}
use gns.Tcp.Connection.Recovery.{StillRecovering, receive_acks, recovery_never_ends}

tahoe_created : create fractions tahoe_type 1000 8000 ≡ some new_tahoe
unfolding create
tahoe_created = refl

reno_created : create fractions reno_type 1000 8000 ≡ some idle_reno
unfolding create
reno_created = refl

new_reno_created : create fractions new_reno_type 1000 8000 ≡ some idle_new_reno
unfolding create
new_reno_created = refl

abbrev history : List Notice
history = acked 1000 ∷ fast_retransmitted 3000 ∷ duplicated ∷ recovery_acked 1000 true ∷ lost ∷ []

abbrev quiet_history : List Notice
quiet_history = acked 1000 ∷ duplicated ∷ acked 500 ∷ lost ∷ acked 1000 ∷ []

history-IsWordNotice : All IsWordNotice history
history-IsWordNotice = (tt, (omega arith, (tt, (tt, (tt, tt)))))

quiet_history-IsOrdinary : All IsOrdinary quiet_history
quiet_history-IsOrdinary = (tt, (tt, (tt, (tt, (tt, tt)))))

window_bounds_example :
    let d = notify_all fractions idle_reno history in
    (1000 ≤ get_cwnd d)
    × (get_cwnd d ≤ u32_max)
    × (2 * 1000 ≤ get_ssthresh d)
    × (get_ssthresh d ≤ u32_max)
window_bounds_example =
    window_bounds fractions reno_type 1000 8000 history (omega arith) (omega arith)
      history-IsWordNotice reno_created

ordinary_agree_example :
    (get_cwnd (notify_all fractions idle_reno quiet_history)
      ≡ get_cwnd (notify_all fractions new_tahoe quiet_history))
    × (get_ssthresh (notify_all fractions idle_reno quiet_history)
        ≡ get_ssthresh (notify_all fractions new_tahoe quiet_history))
    × (get_cwnd (notify_all fractions idle_new_reno quiet_history)
        ≡ get_cwnd (notify_all fractions new_tahoe quiet_history))
    × (get_ssthresh (notify_all fractions idle_new_reno quiet_history)
        ≡ get_ssthresh (notify_all fractions new_tahoe quiet_history))
ordinary_agree_example =
    ordinary_agree fractions 1000 8000 quiet_history new_tahoe idle_reno idle_new_reno tahoe_created
      reno_created new_reno_created quiet_history-IsOrdinary

on_ack_growth_example :
    (min (get_cwnd idle_reno + 1) u32_max ≤ get_cwnd (on_ack fractions idle_reno 400))
    × (get_cwnd (on_ack fractions idle_reno 400) ≤ get_cwnd idle_reno + get_mss idle_reno)
    × (get_ssthresh (on_ack fractions idle_reno 400) ≡ get_ssthresh idle_reno)
on_ack_growth_example = on_ack_growth fractions idle_reno 400 idle_reno-IsSafe tt (omega arith)

detector_after_lem_example :
    ((detector_after (100 ∷ 100 ∷ 100 ∷ 100 ∷ [])).duplicate_ack_count
      ≡ leading 100 (100 ∷ 100 ∷ 100 ∷ []))
    × ((should_fast_retransmit (detector_after (100 ∷ 100 ∷ 100 ∷ 100 ∷ [])) ≡ true)
        ↔ (3 ≤ leading 100 (100 ∷ 100 ∷ 100 ∷ [])))
detector_after_lem_example = detector_after_lem 100 (100 ∷ 100 ∷ 100 ∷ []) (omega arith)

abbrev timer_events : List (TimerEvent Fraction)
timer_events = timeout ∷ timeout ∷ sample (1, 10) ∷ timeout ∷ restart ∷ sample (3, 1) ∷ []

current_rto_range_example :
    let m = timer_run fractions (new_manager fractions) timer_events in
    (fractions.lt (current_rto fractions m) (min_rto fractions) ≡ false)
    × (fractions.lt (max_rto fractions) (current_rto fractions m) ≡ false)
current_rto_range_example = current_rto_range fractions fractions-FloatLaws timer_events

new_manager_backoff : (new_manager fractions).backoff ≡ (1, 1)
unfolding new_manager
new_manager_backoff = refl

timeouts-backoff_example :
    ((timeouts fractions 3 (new_manager fractions)).backoff ≡ fractions.literal (min (2 ^ 3) 64) 1)
    × ((timeouts fractions 3 (new_manager fractions)).estimator ≡ (new_manager fractions).estimator)
timeouts-backoff_example =
    timeouts-backoff fractions fractions-FloatLaws 3 (new_manager fractions) new_manager_backoff

recovery_never_ends_example :
    StillRecovering fractions recovering_sender.congestion_control
      (receive_acks fractions recovering_sender
        ((103, (2, 1)) ∷ (103, (3, 1)) ∷ [])).congestion_control
recovery_never_ends_example =
    recovery_never_ends fractions recovering_sender ((103, (2, 1)) ∷ (103, (3, 1)) ∷ []) refl
      recovering_reno-IsSafe
