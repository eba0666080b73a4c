-- ===== src/Base/Ints.antt =====
-- The C++ type `int` where the code stores node numbers: -1 and the other negative values are
-- kept, and the tests that the code makes on them are Boolean functions.
use Prim.Native.Nat.{ℕ, ◌-◌}
use mathlib.Core.Path.{◌≡◌, ap}
use mathlib.Core.Bool.{Bool, true, false, ◌&&◌}
use native.Mathlib.Omega.{arith}
use gns.Base.Tests.{and_true, ◌==◌, ltb, if◌then◌else◌, ==_iff}

-- `negsuc n` is -(n + 1).
pub data ℤ : Type 0 where
  pos negsuc : ℕ → ℤ

abbrev pub minus_one : ℤ
minus_one = negsuc 0

abbrev pub is_negative : ℤ → Bool
is_negative (pos n) = false
is_negative (negsuc n) = true

abbrev pub eq_int : ℤ → ℤ → Bool
eq_int (pos m) (pos n) = m == n
eq_int (negsuc m) (negsuc n) = m == n
eq_int (pos m) (negsuc n) = false
eq_int (negsuc m) (pos n) = false

abbrev pub lt_int : ℤ → ℤ → Bool
lt_int (pos m) (pos n) = ltb m n
lt_int (negsuc m) (negsuc n) = ltb n m
lt_int (pos m) (negsuc n) = false
lt_int (negsuc m) (pos n) = true

-- `std::max(a, b)`.
abbrev pub max_int : ℤ → ℤ → ℤ
max_int a b = if lt_int a b then b else a

-- `static_cast<std::size_t>(x)`, the conversion to an index.
abbrev pub to_size : ℤ → ℕ
to_size (pos n) = n
to_size (negsuc n) = 18446744073709551615 - n

pub eq_int_refl : (x : ℤ) → eq_int x x ≡ true
eq_int_refl (pos n) = ground arith
eq_int_refl (negsuc n) = ground arith

pub eq_int→path : (x y : ℤ) → eq_int x y ≡ true → x ≡ y
eq_int→path (pos m) (pos n) h = ap (λ (k : ℕ). pos k) ((==_iff m n).0 h)
eq_int→path (negsuc m) (negsuc n) h = ap (λ (k : ℕ). negsuc k) ((==_iff m n).0 h)
eq_int→path (pos m) (negsuc n) h = ground arith
eq_int→path (negsuc m) (pos n) h = ground arith

pub eq_int-both : (x y z w : ℤ) → (eq_int x y && eq_int z w) ≡ true → (x ≡ y) × (z ≡ w)
eq_int-both x y z w h =
    let both = and_true (eq_int x y) (eq_int z w) h in
    (eq_int→path x y both.0, eq_int→path z w both.1)
