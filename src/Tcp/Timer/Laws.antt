-- ===== src/Tcp/Timer/Laws.antt =====
-- The range of the retransmission timeout of core/src/network/transport/tcp/timer, and its backoff.
use native.Mathlib.Nat.{pow-suc}
use gns.Base.{
  ℕ, zero, suc, ◌*◌, ◌^◌, ◌≤◌, ◌<◌, ◌≡◌, refl, false, List, [], ◌∷◌, min, ltb, arith, Bool-cases,
  inl, inr,
}
use gns.Base.Floats.{Float, float_min}
use gns.Tcp.Timer.{
  RttEstimator, RtoManager, min_rto, max_rto, initial_backoff, max_backoff, new_manager,
  clamped_rto, update, current_rto, on_timeout, on_acknowledgement,
}

-- What IEEE 754 says of the doubles that the timer computes with: rounding a constant is monotone,
-- the whole numbers below 2 ^ 53 are exact, and a product with a factor of at least 1 does not fall
-- below a positive constant that the other factor reaches.
pub record FloatLaws {T : Type 0} (f : Float T) : Type 0 where
  pub literal_mono :
      (a b c d : ℕ) → 0 < b → 0 < d → c * b ≤ a * d → f.lt (f.literal a b) (f.literal c d) ≡ false
  pub whole_lt :
      (a b : ℕ) → a < 2 ^ 53 → b < 2 ^ 53 → f.lt (f.literal a 1) (f.literal b 1) ≡ ltb a b
  pub whole_double :
      (a : ℕ) → a < 2 ^ 52 → f.mul (f.literal a 1) (f.literal 2 1) ≡ f.literal (a * 2) 1
  pub mul_ge :
      (x y : T) (n d : ℕ)
      → 0 < n
      → 0 < d
      → f.lt x (f.literal n d) ≡ false
      → f.lt y (f.literal 1 1) ≡ false
      → f.lt (f.mul x y) (f.literal n d) ≡ false

-- What the connection tells the manager.
pub data TimerEvent (T : Type 0) : Type 0 where
  timeout restart : TimerEvent T
  sample : T → TimerEvent T

module _ {T : Type 0} (f : Float T) where
  unfoldable pub timer_step : RtoManager T → TimerEvent T → RtoManager T
  timer_step m timeout = (on_timeout f m).0
  timer_step m restart = new_manager f
  timer_step m (sample r) = on_acknowledgement f m r

  unfoldable pub timer_run : RtoManager T → List (TimerEvent T) → RtoManager T
  unfolding timer_step
  timer_run m [] = m
  timer_run m (e ∷ es) = timer_run (timer_step m e) es

  pub record InRange (m : RtoManager T) : Type 0 where
    pub rto_low : f.lt m.estimator.rto (min_rto f) ≡ false
    pub rto_high : f.lt (max_rto f) m.estimator.rto ≡ false
    pub backoff_low : f.lt m.backoff (initial_backoff f) ≡ false

module _ {T : Type 0} (f : Float T) (laws : FloatLaws f) where
  clamped_rto_range :
      (srtt rttvar : T)
      → (f.lt (clamped_rto f srtt rttvar) (min_rto f) ≡ false)
        × (f.lt (max_rto f) (clamped_rto f srtt rttvar) ≡ false)
  unfolding clamped_rto
  clamped_rto_range srtt rttvar =
      ground
        (arith, laws.literal_mono 1 5 1 5, laws.literal_mono 60 1 60 1, laws.literal_mono 60 1 1 5)

  update-range :
      (e : RttEstimator T) (r : T)
      → f.lt e.rto (min_rto f) ≡ false
      → f.lt (max_rto f) e.rto ≡ false
      → (f.lt (update f e r).rto (min_rto f) ≡ false)
        × (f.lt (max_rto f) (update f e r).rto ≡ false)
  unfolding update
  update-range e r lo hi = grind (arith, clamped_rto_range)

  new_manager-InRange : InRange f (new_manager f)
  unfolding new_manager
  new_manager-InRange =
      ground
        (arith, laws.literal_mono 1 1 1 5, laws.literal_mono 60 1 1 1, laws.literal_mono 1 1 1 1)

  timer_step-InRange :
      (m : RtoManager T) (e : TimerEvent T) → InRange f m → InRange f (timer_step f m e)
  unfolding timer_step on_timeout new_manager on_acknowledgement
  timer_step-InRange m timeout h = ground (
    arith,
    laws.literal_mono 64 1 1 1,
    laws.literal_mono 2 1 1 1,
    laws.mul_ge m.backoff (f.literal 2 1) 1 1,
  )
  timer_step-InRange m restart h = new_manager-InRange
  timer_step-InRange m (sample s) h =
      ground (arith, update-range m.estimator s h.rto_low h.rto_high, laws.literal_mono 1 1 1 1)

  timer_run-InRange :
      (m : RtoManager T) (es : List (TimerEvent T)) → InRange f m → InRange f (timer_run f m es)
  unfolding timer_run
  timer_run-InRange m [] h = h
  timer_run-InRange m (e ∷ es) h =
      timer_run-InRange (timer_step f m e) es (timer_step-InRange m e h)

  -- After any sequence of timeouts, samples and resets of a new manager the current timeout is
  -- neither below 0.2 nor above 60.
  pub current_rto_range :
      (es : List (TimerEvent T))
      → let m = timer_run f (new_manager f) es in
        (f.lt (current_rto f m) (min_rto f) ≡ false) × (f.lt (max_rto f) (current_rto f m) ≡ false)
  unfolding current_rto
  current_rto_range es =
      let m = timer_run f (new_manager f) es in
      let h = timer_run-InRange (new_manager f) es (new_manager-InRange) in
      ground (
        arith,
        laws.mul_ge m.estimator.rto m.backoff 1 5,
        laws.literal_mono 60 1 60 1,
        laws.literal_mono 60 1 1 5,
      )

module _ {T : Type 0} (f : Float T) where
  -- `k` timeouts in a row.
  unfoldable pub timeouts : ℕ → RtoManager T → RtoManager T
  timeouts zero m = m
  timeouts (suc k) m = (on_timeout f (timeouts k m)).0

module _ {T : Type 0} (f : Float T) (laws : FloatLaws f) where
  backoff_step :
      (a : ℕ)
      → a ≤ 64
      → float_min f (f.mul (f.literal a 1) (f.literal 2 1)) (max_backoff f)
        ≡ f.literal (min (a * 2) 64) 1
  backoff_step a h = rw (laws.whole_double a (omega arith)) (elim (Bool-cases (ltb 64 (a * 2))) [
    | inl p ↦ ground (arith, laws.whole_lt 64 (a * 2))
    | inr p ↦ ground (arith, laws.whole_lt 64 (a * 2))
  ])

  min-double : (p : ℕ) → min (min p 64 * 2) 64 ≡ min (p * 2) 64
  min-double p = omega arith

  -- After `k` timeouts in a row since the last restart the backoff is 2 ^ k, but 64 at most, and the
  -- estimator is as it was.
  pub timeouts-backoff :
      (k : ℕ) (m : RtoManager T)
      → m.backoff ≡ initial_backoff f
      → ((timeouts f k m).backoff ≡ f.literal (min (2 ^ k) 64) 1)
        × ((timeouts f k m).estimator ≡ m.estimator)
  unfolding timeouts on_timeout
  timeouts-backoff zero m h = (h, refl)
  timeouts-backoff (suc k) m h =
      let (b, e) = timeouts-backoff k m h in
      (rw (b, backoff_step (min (2 ^ k) 64) (omega arith), min-double (2 ^ k), pow-suc) refl, e)
