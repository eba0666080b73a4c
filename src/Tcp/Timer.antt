-- ===== src/Tcp/Timer.antt =====
-- core/include/network/transport/tcp/timer/RTTEstimator.hpp and RTOManager.hpp, with
-- core/src/network/transport/tcp/timer/RTTEstimator.cpp and RTOManager.cpp.
pub mod Laws
use gns.Base.{ℕ, Bool, true, false, not, ◌||◌, if◌then◌else◌}
use gns.Base.Floats.{Float, float_min, float_clamp}

pub record RttEstimator (T : Type 0) : Type 0 where
  pub srtt : T
  pub rttvar : T
  pub rto : T
  pub initialized : Bool

pub record RtoManager (T : Type 0) : Type 0 where
  pub estimator : RttEstimator T
  pub backoff : T

module _ {T : Type 0} (f : Float T) where
  abbrev pub initial_rto : T
  initial_rto = f.literal 1 1

  abbrev pub min_rto : T
  min_rto = f.literal 1 5

  abbrev pub max_rto : T
  max_rto = f.literal 60 1

  abbrev pub alpha : T
  alpha = f.div (f.literal 1 1) (f.literal 8 1)

  abbrev pub beta : T
  beta = f.div (f.literal 1 1) (f.literal 4 1)

  abbrev pub rto_k : T
  rto_k = f.literal 4 1

  abbrev pub initial_backoff : T
  initial_backoff = f.literal 1 1

  abbrev pub max_backoff : T
  max_backoff = f.literal 64 1

  -- `rto_ = std::clamp(srtt_ + K * rttvar_, MIN_RTO, MAX_RTO)`, in two places of `update`.
  unfoldable pub clamped_rto : T → T → T
  clamped_rto srtt rttvar = float_clamp f (f.add srtt (f.mul rto_k rttvar)) min_rto max_rto

  -- A new estimator, and the effect of `reset`.
  unfoldable pub new_estimator : RttEstimator T
  new_estimator = record {
    srtt = f.literal 0 1;
    rttvar = f.literal 0 1;
    rto = initial_rto;
    initialized = false;
  }

  unfoldable pub update : RttEstimator T → T → RttEstimator T
  update e measured_rtt =
      if not (f.is_finite measured_rtt) || f.le measured_rtt (f.literal 0 1)
      then e
      else if not e.initialized
      then (let rttvar = f.div measured_rtt (f.literal 2 1) in
          record {
            srtt = measured_rtt;
            rttvar = rttvar;
            rto = clamped_rto measured_rtt rttvar;
            initialized = true;
          })
      else (let rttvar =
            f.add (f.mul (f.sub (f.literal 1 1) beta) e.rttvar)
              (f.mul beta (f.abs (f.sub e.srtt measured_rtt))) in
          let srtt =
            f.add (f.mul (f.sub (f.literal 1 1) alpha) e.srtt) (f.mul alpha measured_rtt) in
          record e { srtt = srtt; rttvar = rttvar; rto = clamped_rto srtt rttvar })

  -- A new manager, and the effect of `reset`.
  unfoldable pub new_manager : RtoManager T
  unfolding new_estimator
  new_manager = record { estimator = new_estimator; backoff = initial_backoff }

  unfoldable pub current_rto : RtoManager T → T
  current_rto m = float_min f (f.mul m.estimator.rto m.backoff) max_rto

  unfoldable pub on_timeout : RtoManager T → RtoManager T × T
  unfolding current_rto
  on_timeout m =
      let m' = record m { backoff = float_min f (f.mul m.backoff (f.literal 2 1)) max_backoff } in
      (m', current_rto m')

  unfoldable pub on_acknowledgement : RtoManager T → T → RtoManager T
  unfolding update
  on_acknowledgement m measured_rtt = record {
    estimator = update m.estimator measured_rtt;
    backoff = initial_backoff;
  }
