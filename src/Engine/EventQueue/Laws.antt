-- ===== src/Engine/EventQueue/Laws.antt =====
-- The order in which core/src/engine/core/EventQueue.cpp gives out its events.
use mathlib.Core.List.{Perm}
use mathlib.Core.List.Perm
use gns.Base.{◌≤◌, ◌≡◌, ◌⊎◌, inl, inr, true, false, List, [], ◌∷◌, All, Bool-cases, arith}
use gns.Base.Floats.{Float}
use gns.Engine.EventQueue.{Event, comes_after, insert_event}

-- What IEEE 754 says of the comparisons of finite doubles: a total order.
pub record FloatOrder {T : Type 0} (f : Float T) : Type 0 where
  pub lt_asymm : (x y : T) → f.lt x y ≡ true → f.lt y x ≡ false
  pub not_lt_trans :
      (x y z : T) → f.is_finite y ≡ true → f.lt y x ≡ false → f.lt z y ≡ false → f.lt z x ≡ false
  pub eq_of_not_lt :
      (x y : T)
      → f.is_finite x ≡ true
      → f.is_finite y ≡ true
      → f.lt x y ≡ false
      → f.lt y x ≡ false
      → f.eq x y ≡ true
  pub eq_comm : (x y : T) → f.eq x y ≡ f.eq y x
  pub eq_not_lt : (x y : T) → f.eq x y ≡ true → (f.lt x y ≡ false) × (f.lt y x ≡ false)

module _ {T E : Type 0} (f : Float T) where
  abbrev pub IsTimed : Event T E → Type 0
  IsTimed e = f.is_finite e.timestamp ≡ true

  -- No event comes after, by the comparator of the queue, one that stands behind it.
  abbrev pub IsSorted : List (Event T E) → Type 0
  IsSorted [] = Unit
  IsSorted (e ∷ es) = All (λ x. comes_after f e x ≡ false) es × IsSorted es

  -- The time of `a` is below that of `b`, or the times are equal and the number of `a` is not above
  -- that of `b`.
  abbrev pub Precedes : Event T E → Event T E → Type 0
  Precedes a b =
      (f.lt a.timestamp b.timestamp ≡ true)
      ⊎ ((f.eq a.timestamp b.timestamp ≡ true) × (a.id ≤ b.id))

  -- Each event precedes all that stand behind it.
  abbrev pub InOrder : List (Event T E) → Type 0
  InOrder [] = Unit
  InOrder (e ∷ es) = All (Precedes e) es × InOrder es

  pub insert-perm : (es : List (Event T E)) (e : Event T E) → Perm (insert_event f es e) (e ∷ es)
  unfolding insert_event
  insert-perm [] e = Perm.refl (e ∷ [])
  insert-perm (x ∷ xs) e = elim (Bool-cases (comes_after f x e)) [
    | inl h ↦ rw h (Perm.refl (e ∷ x ∷ xs))
    | inr h ↦ rw h (Perm.trans (Perm.cons x (insert-perm xs e)) (Perm.swap e x xs))
  ]

  pub All-insert :
      (P : Event T E → Type 0) (es : List (Event T E)) (e : Event T E)
      → All P es
      → P e
      → All P (insert_event f es e)
  unfolding insert_event
  All-insert P [] e h k = (k, tt)
  All-insert P (x ∷ xs) e h k = elim (Bool-cases (comes_after f x e)) [
    | inl b ↦ rw b (k, h)
    | inr b ↦ rw b (h.0, All-insert P xs e h.1 k)
  ]

module _ {T E : Type 0} (f : Float T) (order : FloatOrder f) where
  comes_after_asymm : (a b : Event T E) → comes_after f a b ≡ true → comes_after f b a ≡ false
  unfolding comes_after
  comes_after_asymm a b h =
      ground (arith, order.eq_comm a.timestamp b.timestamp, order.lt_asymm b.timestamp a.timestamp)

  comes_after-lt :
      (a b : Event T E) → comes_after f a b ≡ false → f.lt b.timestamp a.timestamp ≡ false
  unfolding comes_after
  comes_after-lt a b h = ground (arith, order.eq_not_lt a.timestamp b.timestamp)

  comes_after-id :
      (a b : Event T E)
      → comes_after f a b ≡ false
      → f.eq a.timestamp b.timestamp ≡ true
      → a.id ≤ b.id
  unfolding comes_after
  comes_after-id a b h e = ground arith

  comes_after-false :
      (a c : Event T E)
      → f.lt c.timestamp a.timestamp ≡ false
      → (f.eq a.timestamp c.timestamp ≡ false) ⊎ (a.id ≤ c.id)
      → comes_after f a c ≡ false
  unfolding comes_after
  comes_after-false a c h k = ground arith

  comes_after_trans :
      (a b c : Event T E)
      → IsTimed f a
      → IsTimed f b
      → IsTimed f c
      → comes_after f a b ≡ false
      → comes_after f b c ≡ false
      → comes_after f a c ≡ false
  comes_after_trans a b c p q r h k =
      let ba = comes_after-lt a b h in
      let cb = comes_after-lt b c k in
      let ca = order.not_lt_trans a.timestamp b.timestamp c.timestamp q ba cb in
      elim (Bool-cases (f.eq a.timestamp c.timestamp)) [
        | inr e ↦ comes_after-false a c ca (inl e)
        | inl e ↦
            let ac = (order.eq_not_lt a.timestamp c.timestamp e).0 in
            let ab = order.not_lt_trans b.timestamp c.timestamp a.timestamp r cb ac in
            let bc = order.not_lt_trans c.timestamp a.timestamp b.timestamp p ac ba in
            comes_after-false a c ca (
              inr (
                omega (
                  arith,
                  comes_after-id a b h (order.eq_of_not_lt a.timestamp b.timestamp p q ab ba),
                  comes_after-id b c k (order.eq_of_not_lt b.timestamp c.timestamp q r bc cb),
                )))
      ]

  -- `a` before `b`, and `b` before all of `es`.
  before-All :
      (a b : Event T E) (es : List (Event T E))
      → IsTimed f a
      → IsTimed f b
      → comes_after f a b ≡ false
      → All (IsTimed f) es
      → All (λ x. comes_after f b x ≡ false) es
      → All (λ x. comes_after f a x ≡ false) es
  before-All a b [] p q h t k = tt
  before-All a b (x ∷ es) p q h t k =
      (comes_after_trans a b x p q t.0 h k.0, before-All a b es p q h t.1 k.1)

  pub insert-IsSorted :
      (es : List (Event T E)) (e : Event T E)
      → All (IsTimed f) es
      → IsTimed f e
      → IsSorted f es
      → IsSorted f (insert_event f es e)
  unfolding insert_event
  insert-IsSorted [] e t p h = (tt, tt)
  insert-IsSorted (x ∷ xs) e t p h = elim (Bool-cases (comes_after f x e)) [
    | inl b ↦ let ex = comes_after_asymm x e b in rw b ((ex, before-All e x xs p t.0 ex t.1 h.0), h)
    | inr b ↦
        rw b
          (All-insert f (λ y. comes_after f x y ≡ false) xs e h.0 b, insert-IsSorted xs e t.1 p h.1)
  ]

  comes_after-Precedes :
      (a b : Event T E) → IsTimed f a → IsTimed f b → comes_after f a b ≡ false → Precedes f a b
  comes_after-Precedes a b p q h = elim (Bool-cases (f.eq a.timestamp b.timestamp)) [
    | inl e ↦ inr (e, comes_after-id a b h e)
    | inr e ↦ elim (Bool-cases (f.lt a.timestamp b.timestamp)) [
      | inl l ↦ inl l
      | inr l ↦
          let same = order.eq_of_not_lt a.timestamp b.timestamp p q l (comes_after-lt a b h) in
          inr (same, comes_after-id a b h same)
    ]
  ]

  pub All-Precedes :
      (a : Event T E) (es : List (Event T E))
      → IsTimed f a
      → All (IsTimed f) es
      → All (λ x. comes_after f a x ≡ false) es
      → All (Precedes f a) es
  All-Precedes a [] p t h = tt
  All-Precedes a (x ∷ es) p t h = (comes_after-Precedes a x p t.0 h.0, All-Precedes a es p t.1 h.1)

  pub IsSorted-InOrder : (es : List (Event T E)) → All (IsTimed f) es → IsSorted f es → InOrder f es
  IsSorted-InOrder [] t h = tt
  IsSorted-InOrder (e ∷ es) t h = (All-Precedes e es t.0 t.1 h.0, IsSorted-InOrder es t.1 h.1)
