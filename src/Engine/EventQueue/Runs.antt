-- ===== src/Engine/EventQueue/Runs.antt =====
-- Runs of core/src/engine/core/EventQueue.cpp: what comes out after any use of the queue, and what a
-- queue gives out until it is empty.
use mathlib.Core.List.{Perm}
use mathlib.Core.List.Perm
use gns.Base.{ℕ, zero, suc, ◌≡◌, refl, ◌⊎◌, inl, inr, Option, none, some, List, [], ◌∷◌, All, ap}
use gns.Base.Floats.{Float}
use gns.Engine.EventQueue.{Event, EventQueue, next, clear, insert_event, schedule, queue_size}
use gns.Engine.EventQueue.Laws.{
  FloatOrder, IsTimed, IsSorted, Precedes, InOrder, All-insert, All-Precedes, insert-IsSorted,
  IsSorted-InOrder, insert-perm,
}

-- What the engine does with its queue.
pub data QueueCall (T E : Type 0) : Type 0 where
  schedules : Event T E → QueueCall T E
  takes clears : QueueCall T E

abbrev pub no_events : {T E : Type 0} → EventQueue T E
no_events = record { event_list = [] }

module _ {T E : Type 0} where
  schedule_or_keep : EventQueue T E → Option (EventQueue T E) → EventQueue T E
  schedule_or_keep q none = q
  schedule_or_keep q (some r) = r

  -- The events that `n` calls of `next` give.
  pub take_events : ℕ → EventQueue T E → List (Event T E)
  take_events zero q = []
  take_events (suc n) q =
      let rest = take_events n (next q).0 in elim (next q).1 [ none ↦ [] | some e ↦ e ∷ rest ]

  take_events-all :
      (es : List (Event T E))
      → take_events
          (queue_size {T = T} {E = E} (record { event_list = es }))
          (record { event_list = es })
        ≡ es
  unfolding take_events next
  take_events-all [] = refl
  take_events-all (e ∷ es) = ap (◌∷◌ e) (take_events-all es)

module _ {T E : Type 0} (f : Float T) where
  abbrev pub IsTimedCall : QueueCall T E → Type 0
  IsTimedCall (schedules e) = IsTimed f e
  IsTimedCall _ = Unit

  queue_call : EventQueue T E → QueueCall T E → EventQueue T E
  queue_call q (schedules e) = schedule_or_keep q (schedule f q (some e))
  queue_call q takes = (next q).0
  queue_call q clears = clear q

  pub queue_calls : EventQueue T E → List (QueueCall T E) → EventQueue T E
  queue_calls q [] = q
  queue_calls q (k ∷ ks) = queue_calls (queue_call q k) ks

  pub schedule_all : EventQueue T E → List (Event T E) → EventQueue T E
  schedule_all q [] = q
  schedule_all q (e ∷ es) = schedule_or_keep q (schedule f (schedule_all q es) (some e))

  record IsOrdered (q : EventQueue T E) : Type 0 where
    pub timed : All (IsTimed f) q.event_list
    pub sorted : IsSorted f q.event_list

  -- The event that `next` gives, with those that stay behind.
  abbrev pub GivesEarliest : EventQueue T E → Type 0
  GivesEarliest q =
      (e : Event T E) × ((next q).1 ≡ some e)
      × (q.event_list ≡ e ∷ (next q).0.event_list)
      × All (Precedes f e) (next q).0.event_list

module _ {T E : Type 0} (f : Float T) (order : FloatOrder f) where
  insert-IsOrdered :
      (q : EventQueue T E) (e : Event T E)
      → IsOrdered f q
      → IsTimed f e
      → IsOrdered f (record { event_list = insert_event f q.event_list e })
  insert-IsOrdered q e h t = record {
    timed = All-insert f (IsTimed f) q.event_list e h.timed t;
    sorted = insert-IsSorted f order q.event_list e h.timed t h.sorted;
  }

  next_of_list :
      (es : List (Event T E))
      → IsOrdered f (record { event_list = es })
      → IsOrdered f (next (record { event_list = es })).0
  unfolding next
  next_of_list [] h = h
  next_of_list (e ∷ es) h = record { timed = h.timed.1; sorted = h.sorted.1 }

  next-IsOrdered : (q : EventQueue T E) → IsOrdered f q → IsOrdered f (next q).0
  next-IsOrdered q h = next_of_list q.event_list h

  queue_call-IsOrdered :
      (q : EventQueue T E) (k : QueueCall T E)
      → IsOrdered f q
      → IsTimedCall f k
      → IsOrdered f (queue_call f q k)
  unfolding queue_call schedule schedule_or_keep clear
  queue_call-IsOrdered q (schedules e) h t = insert-IsOrdered q e h t
  queue_call-IsOrdered q takes h t = next-IsOrdered q h
  queue_call-IsOrdered q clears h t = record { timed = tt; sorted = tt }

  queue_calls-IsOrdered :
      (q : EventQueue T E) (ks : List (QueueCall T E))
      → IsOrdered f q
      → All (IsTimedCall f) ks
      → IsOrdered f (queue_calls f q ks)
  unfolding queue_calls
  queue_calls-IsOrdered q [] h t = h
  queue_calls-IsOrdered q (k ∷ ks) h t =
      queue_calls-IsOrdered (queue_call f q k) ks (queue_call-IsOrdered q k h t.0) t.1

  next_of_ordered :
      (es : List (Event T E))
      → IsOrdered f (record { event_list = es })
      → let q : EventQueue T E = record { event_list = es } in
        ((q.event_list ≡ []) × (next q ≡ (q, none))) ⊎ GivesEarliest f q
  unfolding next
  next_of_ordered [] h = inl (refl, refl)
  next_of_ordered (e ∷ es) h =
      inr (e, refl, refl, All-Precedes f order e es h.timed.0 h.timed.1 h.sorted.0)

  -- Where the finite doubles are totally ordered, after any run of scheduling events with finite
  -- times, taking events and clearing the queue, `next` gives none and leaves the queue as it is if
  -- the queue is empty; otherwise it removes one event and gives it, and each event that stays has a
  -- later time, or the same time and a number that is not smaller.
  pub next_earliest :
      (ks : List (QueueCall T E))
      → All (IsTimedCall f) ks
      → let q = queue_calls f no_events ks in
        ((q.event_list ≡ []) × (next q ≡ (q, none))) ⊎ GivesEarliest f q
  next_earliest ks t =
      next_of_ordered (queue_calls f no_events ks).event_list
        (queue_calls-IsOrdered no_events ks (record { timed = tt; sorted = tt }) t)

  schedule_all-IsOrdered :
      (es : List (Event T E))
      → All (IsTimed f) es
      → IsOrdered f (schedule_all f no_events es) × Perm (schedule_all f no_events es).event_list es
  unfolding schedule_all schedule schedule_or_keep
  schedule_all-IsOrdered [] t = (record { timed = tt; sorted = tt }, Perm.refl [])
  schedule_all-IsOrdered (e ∷ es) t =
      let (h, p) = schedule_all-IsOrdered es t.1 in
      (
        insert-IsOrdered (schedule_all f no_events es) e h t.0,
        Perm.trans (insert-perm f _ e) (Perm.cons e p),
      )

  -- Where the finite doubles are totally ordered, a queue into which events with finite times were
  -- scheduled gives them all out, each once, in the order of their times, and of their numbers where
  -- the times are equal.
  pub take_events-InOrder :
      (es : List (Event T E))
      → All (IsTimed f) es
      → let q = schedule_all f no_events es in
        InOrder f (take_events (queue_size q) q) × Perm (take_events (queue_size q) q) es
  take_events-InOrder es t =
      let (h, p) = schedule_all-IsOrdered es t in
      rw (take_events-all (schedule_all f no_events es).event_list)
        (IsSorted-InOrder f order (schedule_all f no_events es).event_list h.timed h.sorted, p)
