-- ===== src/Engine/Examples.antt =====
-- The event queue of core/src/engine/core on concrete events, with whole numbers as times.
pub mod Simulations
mod Losses
use mathlib.Core.List.{Perm}
use gns.Base.{
  ℕ, ◌+◌, ◌-◌, ◌*◌, ◌/◌, ◌^◌, ◌≡◌, refl, ◌⊎◌, true, none, List, [], ◌∷◌, All, ltb, leb, ◌==◌, arith,
}
use gns.Base.Floats.{Float}
use gns.Engine.EventQueue.{Event, next, queue_size}
use gns.Engine.EventQueue.Laws.{FloatOrder, IsTimed, InOrder}
use gns.Engine.EventQueue.Runs.{
  QueueCall, schedules, takes, no_events, IsTimedCall, queue_calls, schedule_all, take_events,
  GivesEarliest, next_earliest, take_events-InOrder,
}

abbrev pub ticks : Float ℕ
ticks = record {
  literal = λ n d. n / d;
  infinity = 2 ^ 1024;
  add = ◌+◌;
  sub = ◌-◌;
  mul = ◌*◌;
  div = ◌/◌;
  abs = λ x. x;
  pow = ◌^◌;
  cbrt = λ x. x;
  ceil = λ x. x;
  floor = λ x. x;
  to_u64 = λ x. x;
  lt = ltb;
  le = leb;
  eq = λ x y. x == y;
  is_finite = λ x. true;
}

pub ticks-FloatOrder : FloatOrder ticks
ticks-FloatOrder = record {
  lt_asymm = λ x y h. ground arith;
  not_lt_trans = λ x y z p h k. ground arith;
  eq_of_not_lt = λ x y p q h k. ground arith;
  eq_comm = λ x y. ground arith;
  eq_not_lt = λ x y h. ground arith;
}

abbrev event_at : ℕ → ℕ → Event ℕ ℕ
event_at time id = record { timestamp = time; id = id; body = 0 }

abbrev some_calls : List (QueueCall ℕ ℕ)
some_calls =
    schedules (event_at 5 0) ∷ schedules (event_at 2 1) ∷ takes ∷ schedules (event_at 5 2) ∷ []

some_calls-IsTimedCall : All (IsTimedCall ticks) some_calls
some_calls-IsTimedCall = (refl, (refl, (tt, (refl, tt))))

next_earliest_example :
    let q = queue_calls ticks no_events some_calls in
    ((q.event_list ≡ []) × (next q ≡ (q, none))) ⊎ GivesEarliest ticks q
next_earliest_example = next_earliest ticks ticks-FloatOrder some_calls some_calls-IsTimedCall

abbrev some_events : List (Event ℕ ℕ)
some_events = event_at 5 0 ∷ event_at 2 1 ∷ event_at 5 2 ∷ event_at 0 3 ∷ []

some_events-IsTimed : All (IsTimed ticks) some_events
some_events-IsTimed = (refl, (refl, (refl, (refl, tt))))

take_events-InOrder_example :
    let q = schedule_all ticks no_events some_events in
    InOrder ticks (take_events (queue_size q) q) × Perm (take_events (queue_size q) q) some_events
take_events-InOrder_example =
    take_events-InOrder ticks ticks-FloatOrder some_events some_events-IsTimed
