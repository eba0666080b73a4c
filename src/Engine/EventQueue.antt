-- ===== src/Engine/EventQueue.antt =====
-- core/include/engine/core/EventQueue.hpp, Event.hpp and SimulationClock.hpp with the sources of the
-- same names under core/src/engine/core. The std::priority_queue is the list of its elements in the
-- order in which it gives them out. An event is its time, its number and what a subclass adds to it.
pub mod Laws
pub mod Runs
use gns.Base.{
  ℕ, ◌+◌, ◌%◌, Bool, true, false, not, Option, none, some, List, [], ◌∷◌, length, ltb,
  if◌then◌else◌,
}
use gns.Base.Words.{add_size}
use gns.Base.Floats.{Float}

pub record Event (T E : Type 0) : Type 0 where
  pub timestamp : T
  pub id : ℕ  -- uint64
  pub body : E

pub record EventQueue (T E : Type 0) : Type 0 where
  pub event_list : List (Event T E)

pub record SimulationClock (T : Type 0) : Type 0 where
  pub current_time : T

module _ {T E : Type 0} where
  -- The constructor of an event takes the next number, and the counter after it.
  unfoldable pub create_event : ℕ → T → E → Event T E × ℕ
  create_event next_id timestamp body =
      (record { timestamp = timestamp; id = next_id; body = body }, add_size next_id 1)

  unfoldable pub next : EventQueue T E → EventQueue T E × Option (Event T E)
  next q = elim q.event_list [ [] ↦ (q, none) | e ∷ es ↦ (record { event_list = es }, some e) ]

  unfoldable pub has_events : EventQueue T E → Bool
  has_events q = elim q.event_list [ [] ↦ false | _ ↦ true ]

  abbrev pub queue_size : EventQueue T E → ℕ
  queue_size q = length q.event_list

  unfoldable pub clear : EventQueue T E → EventQueue T E
  clear q = record { event_list = [] }

module _ {T E : Type 0} (f : Float T) where
  -- `EventComparator`: whether `a` comes out after `b`.
  unfoldable pub comes_after : Event T E → Event T E → Bool
  comes_after a b =
      if not (f.eq a.timestamp b.timestamp) then f.lt b.timestamp a.timestamp else ltb b.id a.id

  unfoldable pub insert_event : List (Event T E) → Event T E → List (Event T E)
  unfolding comes_after
  insert_event [] e = e ∷ []
  insert_event (x ∷ xs) e = if comes_after x e then e ∷ x ∷ xs else x ∷ insert_event xs e

  -- none where the code throws, on a null pointer.
  unfoldable pub schedule : EventQueue T E → Option (Event T E) → Option (EventQueue T E)
  unfolding insert_event
  schedule q none = none
  schedule q (some e) = some (record { event_list = insert_event q.event_list e })

  unfoldable pub peek_timestamp : EventQueue T E → T
  peek_timestamp q = elim q.event_list [ [] ↦ f.infinity | e ∷ _ ↦ e.timestamp ]

module _ {T : Type 0} (f : Float T) where
  unfoldable pub new_clock : SimulationClock T
  new_clock = record { current_time = f.literal 0 1 }

  unfoldable pub tick : SimulationClock T → T → SimulationClock T
  tick c delta_time = record { current_time = f.add c.current_time delta_time }

module _ {T : Type 0} where
  unfoldable pub set_time : SimulationClock T → T → SimulationClock T
  set_time c time = record { current_time = time }
