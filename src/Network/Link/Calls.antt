-- ===== src/Network/Link/Calls.antt =====
-- What a link of core/src/network/Link.cpp holds after any sequence of calls.
use gns.Base.{
  ℕ, ◌≤◌, ◌≡◌, inl, inr, Bool, List, [], ◌∷◌, length, All, Bool-cases, refl, sym, subst, ◌∙◌, arith,
}
use gns.Base.Ints.{ℤ}
use gns.Base.Floats.{Float}
use gns.Network.Link.{
  LinkMode, DirectionSlot, slot_ab, slot_ba, slot_shared, LinkTransmission, Link, create_link,
  get_queue_slot, set_up, set_mode, set_loss_prob, set_bandwidth_mbps, set_delay_ms,
}
use gns.Network.Link.Queue.{
  queue_for_slot, enqueue_transmission, erase_first, same_transmission, dequeue_transmission,
  is_invalid,
}
use gns.Network.Link.Medium.{reserve_transmission}
use gns.Network.Link.Shape.{shape, shape-enqueue, shape-dequeue, busy_until, reserve-keeps}
use gns.Network.Link.Capacity.{
  Directed, Fits, WellQueued, Fits-queue, WellQueued-set, enqueue-WellQueued,
}

module _ {T : Type 0} (f : Float T) where
  erase_first-length :
      (matches : LinkTransmission T → Bool) (es : List (LinkTransmission T))
      → length (erase_first f matches es).0 ≤ length es
  unfolding erase_first
  erase_first-length matches [] = omega arith
  erase_first-length matches (e ∷ es) = ground (arith, erase_first-length matches es)

  erase_first-All :
      (P : LinkTransmission T → Type 0) (matches : LinkTransmission T → Bool)
      (es : List (LinkTransmission T))
      → All P es
      → All P (erase_first f matches es).0
  unfolding erase_first
  erase_first-All P matches [] h = tt
  erase_first-All P matches (e ∷ es) h = elim (Bool-cases (matches e)) [
    | inl b ↦ rw b h.1
    | inr b ↦ rw b (h.0, erase_first-All P matches es h.1)
  ]

  dequeue-WellQueued :
      (l : Link T) (from to : ℤ) (departure arrival : T)
      → WellQueued l
      → WellQueued (dequeue_transmission f l from to departure arrival).0
  unfolding dequeue_transmission
  dequeue-WellQueued l from to d a w =
      let s = get_queue_slot l from to in
      let matches = same_transmission f from to d a in
      let fits = Fits-queue l s w in
      elim (Bool-cases (is_invalid s)) [
        | inl h ↦ rw h w
        | inr h ↦ rw h (
            WellQueued-set l s (erase_first f matches (queue_for_slot l s)).0 w (record {
              bounded =
                  omega (arith, erase_first-length matches (queue_for_slot l s), fits.bounded);
              directed =
                  erase_first-All (Directed l.a l.b s) matches (queue_for_slot l s) fits.directed;
            }))
      ]

-- The calls that change a link.
pub data LinkCall (T : Type 0) : Type 0 where
  enqueues dequeues : ℤ → ℤ → T → T → LinkCall T
  reserves : ℤ → ℤ → T → LinkCall T
  switches : LinkMode → LinkCall T
  turns : Bool → LinkCall T
  retunes : T → T → T → LinkCall T

module _ {T : Type 0} (f : Float T) where
  pub link_call : Link T → LinkCall T → Link T
  link_call l (enqueues from to departure arrival) =
      enqueue_transmission l from to departure arrival
  link_call l (dequeues from to departure arrival) =
      (dequeue_transmission f l from to departure arrival).0
  link_call l (reserves from to busy_until) = reserve_transmission f l from to busy_until
  link_call l (switches mode) = set_mode l mode
  link_call l (turns up) = set_up l up
  link_call l (retunes bandwidth delay loss) =
      set_loss_prob (set_delay_ms (set_bandwidth_mbps l bandwidth) delay) loss

  pub link_calls : Link T → List (LinkCall T) → Link T
  unfolding link_call
  link_calls l [] = l
  link_calls l (c ∷ cs) = link_calls (link_call l c) cs

module _ {T : Type 0} (f : Float T) where
  Fits-same :
      (l l' : Link T) (s : DirectionSlot) (q q' : List (LinkTransmission T))
      → shape f l' ≡ shape f l
      → q' ≡ q
      → Fits l s q
      → Fits l' s q'
  Fits-same l l' s q q' h e fits = subst (Fits l' s) (sym e) (record {
    bounded = subst (λ (r : ℕ × ℤ × ℤ × ℕ). length q ≤ r.3) (sym h) fits.bounded;
    directed = subst (λ (r : ℕ × ℤ × ℤ × ℕ). All (Directed r.1 r.2 s) q) (sym h) fits.directed;
  })

  WellQueued-same :
      (l l' : Link T)
      → shape f l' ≡ shape f l
      → l'.queue_ab ≡ l.queue_ab
      → l'.queue_ba ≡ l.queue_ba
      → l'.queue_shared ≡ l.queue_shared
      → WellQueued l
      → WellQueued l'
  WellQueued-same l l' h ab ba shared w = record {
    ab = Fits-same l l' slot_ab l.queue_ab l'.queue_ab h ab w.ab;
    ba = Fits-same l l' slot_ba l.queue_ba l'.queue_ba h ba w.ba;
    shared = Fits-same l l' slot_shared l.queue_shared l'.queue_shared h shared w.shared;
  }

  link_call-WellQueued :
      (l : Link T) (c : LinkCall T)
      → WellQueued l
      → WellQueued (link_call f l c) × (shape f (link_call f l c) ≡ shape f l)
  unfolding link_call set_mode set_up set_loss_prob set_delay_ms set_bandwidth_mbps
  link_call-WellQueued l (enqueues from to d a) w =
      (enqueue-WellQueued l from to d a w, shape-enqueue f l from to d a)
  link_call-WellQueued l (dequeues from to d a) w =
      (dequeue-WellQueued f l from to d a w, shape-dequeue f l from to d a)
  link_call-WellQueued l (reserves from to t) w =
      reserve-keeps f (λ l'. WellQueued l' × (shape f l' ≡ shape f l)) l from to t
        (λ x y z. (WellQueued-same l (busy_until f l x y z) refl refl refl refl w, refl))
  link_call-WellQueued l (switches mode) w =
      (WellQueued-same l (set_mode l mode) refl refl refl refl w, refl)
  link_call-WellQueued l (turns up) w =
      (WellQueued-same l (set_up l up) refl refl refl refl w, refl)
  link_call-WellQueued l (retunes x y z) w = (
    WellQueued-same l (set_loss_prob (set_delay_ms (set_bandwidth_mbps l x) y) z) refl refl refl
        refl w,
    refl,
  )

  pub link_calls-kept :
      (l : Link T) (calls : List (LinkCall T))
      → WellQueued l
      → WellQueued (link_calls f l calls) × (shape f (link_calls f l calls) ≡ shape f l)
  unfolding link_calls
  link_calls-kept l [] w = (w, refl)
  link_calls-kept l (c ∷ cs) w =
      let step = link_call-WellQueued l c w in
      let rest = link_calls-kept (link_call f l c) cs step.0 in (rest.0, rest.1 ∙ step.1)

  -- After any sequence of calls on a new link, its ends, its number and its capacity of 32 are those
  -- it was made with, no queue holds more than 32 transmissions, and each holds only transmissions of its own
  -- direction: a to b, b to a, or either in the shared one.
  pub link_calls-WellQueued :
      (next_id : ℕ) (a b : ℤ) (bandwidth delay loss : T) (mode : LinkMode)
      (calls : List (LinkCall T))
      → let l = link_calls f (create_link f next_id a b bandwidth delay loss mode).0 calls in
        WellQueued l × (shape f l ≡ (next_id, a, b, 32))
  unfolding create_link
  link_calls-WellQueued next_id a b bandwidth delay loss mode calls =
      link_calls-kept (create_link f next_id a b bandwidth delay loss mode).0 calls (record {
        ab = record { bounded = omega arith; directed = tt };
        ba = record { bounded = omega arith; directed = tt };
        shared = record { bounded = omega arith; directed = tt };
      })
