-- ===== src/Base/Rows.antt =====
-- Lists as arrays under native indices, and the erase-remove idiom.
use Prim.Native.Nat.{ℕ, zero, suc, ◌<◌}
use mathlib.Core.Path.{◌≡◌, refl, ap}
use mathlib.Core.Logic.{inl, inr}
use mathlib.Core.Bool.{Bool, false, ◌||◌}
use mathlib.Core.Option.{Option, none, some}
use mathlib.Core.List.{List, [], ◌∷◌, ◌++◌}
use native.Mathlib.Omega.{arith}
use gns.Base.Tests.{if◌then◌else◌, Bool-cases, ◌==◌}
use gns.Base.Lists.{length, All}

module _ {ℓ} {A : Type ℓ} where
  abbrev pub get_elem? : List A → ℕ → Option A
  get_elem? [] i = none
  get_elem? (x ∷ xs) zero = some x
  get_elem? (x ∷ xs) (suc i) = get_elem? xs i

  abbrev pub get_or : List A → ℕ → A → A
  get_or [] i d = d
  get_or (x ∷ xs) zero d = x
  get_or (x ∷ xs) (suc i) d = get_or xs i d

  abbrev pub update_at : List A → ℕ → (A → A) → List A
  update_at [] i g = []
  update_at (x ∷ xs) zero g = g x ∷ xs
  update_at (x ∷ xs) (suc i) g = x ∷ update_at xs i g

  abbrev pub replicate : ℕ → A → List A
  replicate zero x = []
  replicate (suc n) x = x ∷ replicate n x

  -- `v.erase(std::remove_if(v.begin(), v.end(), p), v.end())`.
  abbrev pub remove_if : (A → Bool) → List A → List A
  remove_if p [] = []
  remove_if p (x ∷ xs) = if p x then remove_if p xs else x ∷ remove_if p xs

  pub length-update_at : (xs : List A) (i : ℕ) (g : A → A) → length (update_at xs i g) ≡ length xs
  length-update_at [] i g = refl
  length-update_at (x ∷ xs) zero g = refl
  length-update_at (x ∷ xs) (suc i) g = ap suc (length-update_at xs i g)

  pub length-replicate : (n : ℕ) (x : A) → length (replicate n x) ≡ n
  length-replicate zero x = refl
  length-replicate (suc n) x = ap suc (length-replicate n x)

  pub get_or-update_at_same :
      (xs : List A) (i : ℕ) (g : A → A) (d : A)
      → i < length xs
      → get_or (update_at xs i g) i d ≡ g (get_or xs i d)
  get_or-update_at_same [] i g d h = ground arith
  get_or-update_at_same (x ∷ xs) zero g d h = refl
  get_or-update_at_same (x ∷ xs) (suc i) g d h = get_or-update_at_same xs i g d (omega (arith, h))

  pub get_or-update_at_other :
      (xs : List A) (i j : ℕ) (g : A → A) (d : A)
      → (i == j) ≡ false
      → get_or (update_at xs i g) j d ≡ get_or xs j d
  get_or-update_at_other [] i j g d h = refl
  get_or-update_at_other (x ∷ xs) zero zero g d h = ground arith
  get_or-update_at_other (x ∷ xs) zero (suc j) g d h = refl
  get_or-update_at_other (x ∷ xs) (suc i) zero g d h = refl
  get_or-update_at_other (x ∷ xs) (suc i) (suc j) g d h =
      get_or-update_at_other xs i j g d (ground (arith, h))

  pub get_or-replicate : (n i : ℕ) (d : A) → get_or (replicate n d) i d ≡ d
  get_or-replicate zero i d = refl
  get_or-replicate (suc n) zero d = refl
  get_or-replicate (suc n) (suc i) d = get_or-replicate n i d

  pub get_or-extend :
      (xs : List A) (n i : ℕ) (d : A) → get_or (xs ++ replicate n d) i d ≡ get_or xs i d
  get_or-extend [] n i d = get_or-replicate n i d
  get_or-extend (x ∷ xs) n zero d = refl
  get_or-extend (x ∷ xs) n (suc i) d = get_or-extend xs n i d

  pub remove_if-append :
      (p : A → Bool) (xs ys : List A) → remove_if p (xs ++ ys) ≡ remove_if p xs ++ remove_if p ys
  remove_if-append p [] ys = refl
  remove_if-append p (x ∷ xs) ys = elim (Bool-cases (p x)) [
    | inl h ↦ rw h (remove_if-append p xs ys)
    | inr h ↦ rw h (ap (λ (r : List A). x ∷ r) (remove_if-append p xs ys))
  ]

  pub remove_if-none :
      (p : A → Bool) (xs : List A) → All (λ x. p x ≡ false) xs → remove_if p xs ≡ xs
  remove_if-none p [] h = refl
  remove_if-none p (x ∷ xs) h = rw h.0 (ap (λ (r : List A). x ∷ r) (remove_if-none p xs h.1))

  pub All-remove_if {κ} :
      (P : A → Type κ) (p : A → Bool) (xs : List A) → All P xs → All P (remove_if p xs)
  All-remove_if P p [] h = tt
  All-remove_if P p (x ∷ xs) h = elim (Bool-cases (p x)) [
    | inl b ↦ rw b (All-remove_if P p xs h.1)
    | inr b ↦ rw b (h.0, All-remove_if P p xs h.1)
  ]

  pub All-weaken {κ λ'} :
      (P : A → Type κ) (Q : A → Type λ') (xs : List A) → ((x : A) → P x → Q x) → All P xs → All Q xs
  All-weaken P Q [] f h = tt
  All-weaken P Q (x ∷ xs) f h = (f x h.0, All-weaken P Q xs f h.1)

  pub All-both {κ λ'} :
      (P : A → Type κ) (Q : A → Type λ') (xs : List A)
      → All P xs
      → All Q xs
      → All (λ x. P x × Q x) xs
  All-both P Q [] h k = tt
  All-both P Q (x ∷ xs) h k = ((h.0, k.0), All-both P Q xs h.1 k.1)

  pub remove_if-both :
      (p q : A → Bool) (xs : List A) → remove_if q (remove_if p xs) ≡ remove_if (λ x. p x || q x) xs
  remove_if-both p q [] = refl
  remove_if-both p q (x ∷ xs) = elim (Bool-cases (p x)) [
    | inl h ↦ rw h (remove_if-both p q xs)
    | inr h ↦ rw h (elim (Bool-cases (q x)) [
      | inl k ↦ rw k (remove_if-both p q xs)
      | inr k ↦ rw k (ap (λ (r : List A). x ∷ r) (remove_if-both p q xs))
    ])
  ]

  pub remove_if-agree :
      (p q : A → Bool) (xs : List A) → All (λ x. p x ≡ q x) xs → remove_if p xs ≡ remove_if q xs
  remove_if-agree p q [] h = refl
  remove_if-agree p q (x ∷ xs) h = elim (Bool-cases (q x)) [
    | inl k ↦ rw (h.0, k) (remove_if-agree p q xs h.1)
    | inr k ↦ rw (h.0, k) (ap (λ (r : List A). x ∷ r) (remove_if-agree p q xs h.1))
  ]

  pub remove_if-twice : (p : A → Bool) (xs : List A) → remove_if p (remove_if p xs) ≡ remove_if p xs
  remove_if-twice p [] = refl
  remove_if-twice p (x ∷ xs) = elim (Bool-cases (p x)) [
    | inl h ↦ rw h (remove_if-twice p xs)
    | inr h ↦ rw h (rw h (ap (λ (r : List A). x ∷ r) (remove_if-twice p xs)))
  ]

  -- What stays does not satisfy the test.
  pub remove_if-rest : (p : A → Bool) (xs : List A) → All (λ x. p x ≡ false) (remove_if p xs)
  remove_if-rest p [] = tt
  remove_if-rest p (x ∷ xs) = elim (Bool-cases (p x)) [
    | inl h ↦ rw h (remove_if-rest p xs)
    | inr h ↦ rw h (h, remove_if-rest p xs)
  ]

  pub remove_if-false : (xs : List A) → remove_if (λ x. false) xs ≡ xs
  remove_if-false [] = refl
  remove_if-false (x ∷ xs) = ap (λ (r : List A). x ∷ r) (remove_if-false xs)

  pub All-middle {κ} :
      (P : A → Type κ) (xs : List A) (x : A) (ys : List A) → All P (xs ++ x ∷ ys) → P x
  All-middle P [] x ys h = h.0
  All-middle P (y ∷ xs) x ys h = All-middle P xs x ys h.1
