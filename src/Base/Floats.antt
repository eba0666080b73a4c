-- ===== src/Base/Floats.antt =====
-- The C++ type `double` with the operations that the code uses, as an interface: its values are a
-- type `T`, its comparisons Boolean tests, so that the definitions stay executable over any carrier.
use Prim.Native.Nat.{ℕ}
use mathlib.Core.Bool.{Bool}
use gns.Base.Tests.{if◌then◌else◌}

pub record Float (T : Type 0) : Type 0 where
  -- `literal n d` is the constant n / d of the source, rounded to a double.
  pub literal : ℕ → ℕ → T
  pub infinity : T
  pub add : T → T → T
  pub sub : T → T → T
  pub mul : T → T → T
  pub div : T → T → T
  pub abs : T → T
  pub pow : T → T → T
  pub cbrt : T → T
  pub ceil : T → T
  pub floor : T → T
  -- `static_cast<std::uint64_t>(x)`.
  pub to_u64 : T → ℕ
  pub lt : T → T → Bool
  pub le : T → T → Bool
  pub eq : T → T → Bool
  pub is_finite : T → Bool

module _ {T : Type 0} (f : Float T) where
  -- `std::min(a, b)` is `b < a ? b : a`.
  abbrev pub float_min : T → T → T
  float_min a b = if f.lt b a then b else a

  -- `std::max(a, b)` is `a < b ? b : a`.
  abbrev pub float_max : T → T → T
  float_max a b = if f.lt a b then b else a

  -- `std::clamp(v, lo, hi)` is `v < lo ? lo : hi < v ? hi : v`.
  abbrev pub float_clamp : T → T → T → T
  float_clamp v lo hi = if f.lt v lo then lo else if f.lt hi v then hi else v
