-- ===== src/Network/Link/Reservation.antt =====
-- The reservation of a direction in core/src/network/Link.cpp.
use gns.Base.{
  ◌≡◌, ◌⊎◌, if◌then◌else◌, and_true, sym, subst, ◌∙◌, inl, inr, refl, ◌&&◌, Bool, true, false,
  Bool-cases, arith,
}
use gns.Base.Ints.{ℤ, eq_int, eq_int_refl, eq_int-both}
use gns.Base.Floats.{Float, float_max}
use gns.Engine.EventQueue.Laws.{FloatOrder}
use gns.Network.Link.{
  LinkMode, full_duplex, half_duplex, simplex, DirectionSlot, slot_ab, slot_ba, slot_shared,
  slot_invalid, Link, get_direction_slot,
}
use gns.Network.Link.Shape.{reserve-keeps}
use gns.Network.Link.Medium.{
  get_next_available_time, available_in, reserve_transmission, reserve_in,
}

module _ {T : Type 0} (f : Float T) where
  pub record IsTimedLink (l : Link T) : Type 0 where
    pub ab : f.is_finite l.busy_until_ab ≡ true
    pub ba : f.is_finite l.busy_until_ba ≡ true
    pub shared : f.is_finite l.busy_until_shared ≡ true

abbrev opposite : DirectionSlot → DirectionSlot
opposite slot_ab = slot_ba
opposite slot_ba = slot_ab
opposite slot_shared = slot_shared
opposite slot_invalid = slot_invalid

slots_opposite :
    (p q r s : Bool)
    → ((p && q) && (r && s)) ≡ false
    → (if s && r then slot_ab else if q && p then slot_ba else slot_invalid)
      ≡ opposite (if p && q then slot_ab else if r && s then slot_ba else slot_invalid)
slots_opposite true true true true h = ground (arith, h)
slots_opposite true true true false h = refl
slots_opposite true true false true h = refl
slots_opposite true true false false h = refl
slots_opposite true false true true h = refl
slots_opposite true false true false h = refl
slots_opposite true false false true h = refl
slots_opposite true false false false h = refl
slots_opposite false true true true h = refl
slots_opposite false true true false h = refl
slots_opposite false true false true h = refl
slots_opposite false true false false h = refl
slots_opposite false false true true h = refl
slots_opposite false false true false h = refl
slots_opposite false false false true h = refl
slots_opposite false false false false h = refl

module _ {T : Type 0} (f : Float T) (order : FloatOrder f) where
  lt_irrefl : (x : T) → f.lt x x ≡ false
  lt_irrefl x = elim (Bool-cases (f.lt x x)) [
    | inl h ↦ ground (arith, order.lt_asymm x x h)
    | inr h ↦ h
  ]

  max_right : (x y : T) → f.lt (float_max f x y) y ≡ false
  max_right x y = elim (Bool-cases (f.lt x y)) [ inl h ↦ rw h (lt_irrefl y) | inr h ↦ rw h h ]

  is_finite_max :
      (x y : T) → f.is_finite x ≡ true → f.is_finite y ≡ true → f.is_finite (float_max f x y) ≡ true
  is_finite_max x y hx hy = elim (Bool-cases (f.lt x y)) [ inl h ↦ rw h hy | inr h ↦ rw h hx ]

  -- A free time after a reservation up to `t` is not before `t`.
  reserved_max :
      (now busy t : T)
      → f.is_finite busy ≡ true
      → f.is_finite t ≡ true
      → f.lt (float_max f now (float_max f busy t)) t ≡ false
  reserved_max now busy t hb ht =
      order.not_lt_trans t (float_max f busy t) (float_max f now (float_max f busy t))
        (is_finite_max busy t hb ht) (max_right busy t) (max_right now (float_max f busy t))

  not_before :
      (l : Link T) (now t : T)
      → IsTimedLink f l
      → f.is_finite t ≡ true
      → f.lt f.infinity t ≡ false
      → (m : LinkMode) (s : DirectionSlot)
      → f.lt (available_in f (reserve_in f l t m s) now m s) t ≡ false
  unfolding available_in reserve_in
  not_before l now t times ht hi full_duplex slot_ab =
      reserved_max now l.busy_until_ab t times.ab ht
  not_before l now t times ht hi full_duplex slot_ba =
      reserved_max now l.busy_until_ba t times.ba ht
  not_before l now t times ht hi full_duplex slot_shared = hi
  not_before l now t times ht hi full_duplex slot_invalid = hi
  not_before l now t times ht hi half_duplex slot_ab =
      reserved_max now l.busy_until_shared t times.shared ht
  not_before l now t times ht hi half_duplex slot_ba =
      reserved_max now l.busy_until_shared t times.shared ht
  not_before l now t times ht hi half_duplex slot_shared =
      reserved_max now l.busy_until_shared t times.shared ht
  not_before l now t times ht hi half_duplex slot_invalid = hi
  not_before l now t times ht hi simplex slot_ab = reserved_max now l.busy_until_ab t times.ab ht
  not_before l now t times ht hi simplex slot_ba = hi
  not_before l now t times ht hi simplex slot_shared = hi
  not_before l now t times ht hi simplex slot_invalid = hi

  opposite_after :
      (l : Link T) (now t : T)
      → IsTimedLink f l
      → f.is_finite t ≡ true
      → f.lt f.infinity t ≡ false
      → (m : LinkMode) (s : DirectionSlot)
      → ((m ≡ half_duplex)
          × (f.lt (available_in f (reserve_in f l t m s) now m (opposite s)) t ≡ false))
        ⊎ (((m ≡ full_duplex) ⊎ (m ≡ simplex))
            × (available_in f (reserve_in f l t m s) now m (opposite s)
                ≡ available_in f l now m (opposite s)))
  unfolding available_in reserve_in
  opposite_after l now t times ht hi full_duplex slot_ab = inr (inl refl, refl)
  opposite_after l now t times ht hi full_duplex slot_ba = inr (inl refl, refl)
  opposite_after l now t times ht hi full_duplex slot_shared = inr (inl refl, refl)
  opposite_after l now t times ht hi full_duplex slot_invalid = inr (inl refl, refl)
  opposite_after l now t times ht hi half_duplex slot_ab =
      inl (refl, reserved_max now l.busy_until_shared t times.shared ht)
  opposite_after l now t times ht hi half_duplex slot_ba =
      inl (refl, reserved_max now l.busy_until_shared t times.shared ht)
  opposite_after l now t times ht hi half_duplex slot_shared =
      inl (refl, reserved_max now l.busy_until_shared t times.shared ht)
  opposite_after l now t times ht hi half_duplex slot_invalid = inl (refl, hi)
  opposite_after l now t times ht hi simplex slot_ab = inr (inr refl, refl)
  opposite_after l now t times ht hi simplex slot_ba = inr (inr refl, refl)
  opposite_after l now t times ht hi simplex slot_shared = inr (inr refl, refl)
  opposite_after l now t times ht hi simplex slot_invalid = inr (inr refl, refl)

  available_after :
      (l : Link T) (from to : ℤ) (t now : T) (p q : ℤ)
      → get_next_available_time f (reserve_transmission f l from to t) p q now
        ≡ available_in f
            (reserve_in f l t l.mode (get_direction_slot l from to))
            now
            l.mode
            (get_direction_slot l p q)
  unfolding get_next_available_time get_direction_slot reserve_transmission
  available_after l from to t now p q =
      reserve-keeps f
        (λ l'.
          get_next_available_time f l' p q now
          ≡ available_in f l' now l.mode (get_direction_slot l p q))
        l from to t (λ x y z. refl)

  two_ends :
      (l : Link T) (from to : ℤ)
      → eq_int l.a l.b ≡ false
      → ((eq_int from l.a && eq_int to l.b) && (eq_int from l.b && eq_int to l.a)) ≡ false
  two_ends l from to h =
      elim (Bool-cases ((eq_int from l.a && eq_int to l.b) && (eq_int from l.b && eq_int to l.a))) [
        | inl k ↦
            let both =
              and_true (eq_int from l.a && eq_int to l.b) (eq_int from l.b && eq_int to l.a) k in
            let same =
              sym (eq_int-both from l.a to l.b both.0).0 ∙ (eq_int-both from l.b to l.a both.1).0 in
            ground (arith, h, subst (λ (x : ℤ). eq_int l.a x ≡ true) same (eq_int_refl l.a))
        | inr k ↦ k
      ]

  get_direction_slot-opposite :
      (l : Link T) (from to : ℤ)
      → eq_int l.a l.b ≡ false
      → get_direction_slot l to from ≡ opposite (get_direction_slot l from to)
  unfolding get_direction_slot
  get_direction_slot-opposite l from to h =
      slots_opposite (eq_int from l.a) (eq_int to l.b) (eq_int from l.b) (eq_int to l.a)
        (two_ends l from to h)

  -- On a link between two different nodes whose times are finite, after a direction is reserved up
  -- to a finite time t below infinity it is not free before t. In the half duplex mode the opposite direction is not
  -- free before t either, and in the two other modes it is free exactly when it was.
  pub reserve_transmission_lem :
      (l : Link T) (from to : ℤ) (now t : T)
      → IsTimedLink f l
      → f.is_finite t ≡ true
      → f.lt f.infinity t ≡ false
      → eq_int l.a l.b ≡ false
      → let l' = reserve_transmission f l from to t in
        (f.lt (get_next_available_time f l' from to now) t ≡ false)
        × (((l.mode ≡ half_duplex) × (f.lt (get_next_available_time f l' to from now) t ≡ false))
            ⊎ (((l.mode ≡ full_duplex) ⊎ (l.mode ≡ simplex))
                × (get_next_available_time f l' to from now
                    ≡ get_next_available_time f l to from now)))
  unfolding get_next_available_time available_in
  reserve_transmission_lem l from to now t times ht hi ends =
      let s = get_direction_slot l from to in
      rw
        (
          available_after l from to t now from to,
          available_after l from to t now to from,
          get_direction_slot-opposite l from to ends,
        )
        (not_before l now t times ht hi l.mode s, opposite_after l now t times ht hi l.mode s)
