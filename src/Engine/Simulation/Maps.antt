-- ===== src/Engine/Simulation/Maps.antt =====
-- The maps of core/src/engine/core/SimulationEngine.cpp after the entry of a new key.
use gns.Base.{ℕ, ◌≡◌, inl, inr, refl, ap, false, none, some, List, [], ◌∷◌, ◌++◌, Bool-cases, arith}
use gns.Engine.Simulation.Sessions.{map_find, map_emplace, map_store, same_id}

module _ {V : Type 0} where
  -- A key that is not there is neither the first nor in the rest.
  map_find-none :
      (e : ℕ × V) (es : List (ℕ × V)) (k : ℕ)
      → map_find same_id (e ∷ es) k ≡ none
      → (same_id e.0 k ≡ false) × (map_find same_id es k ≡ none)
  unfolding map_find
  map_find-none e es k h = elim (Bool-cases (same_id e.0 k)) [
    | inl b ↦ ground (arith, b, h)
    | inr b ↦ (b, ground (arith, b, h))
  ]

  pub map_find-append :
      (es : List (ℕ × V)) (k : ℕ) (v : V)
      → map_find same_id es k ≡ none
      → map_find same_id (es ++ (k, v) ∷ []) k ≡ some v
  unfolding map_find
  map_find-append [] k v h = ground arith
  map_find-append (e ∷ es) k v h =
      let rest = map_find-none e es k h in rw rest.0 (map_find-append es k v rest.1)

  pub map_store-append :
      (es : List (ℕ × V)) (k : ℕ) (v w : V)
      → map_find same_id es k ≡ none
      → map_store same_id (es ++ (k, v) ∷ []) k w ≡ es ++ (k, w) ∷ []
  unfolding map_store
  map_store-append [] k v w h = ground arith
  map_store-append (e ∷ es) k v w h =
      let rest = map_find-none e es k h in
      rw rest.0 (ap (λ (r : List (ℕ × V)). e ∷ r) (map_store-append es k v w rest.1))

  pub map_emplace-fresh :
      (es : List (ℕ × V)) (k : ℕ) (v : V)
      → map_find same_id es k ≡ none
      → map_emplace same_id es k v ≡ es ++ (k, v) ∷ []
  unfolding map_emplace
  map_emplace-fresh es k v h = rw (h, map_emplace) refl
