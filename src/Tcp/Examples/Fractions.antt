-- ===== src/Tcp/Examples/Fractions.antt =====
-- Exact fractions in the place of doubles, to run the timer and the endpoint on.
use native.Mathlib.Nat.{mul-le-mul}
use gns.Base.{ℕ, ◌+◌, ◌-◌, ◌*◌, ◌/◌, ◌≤◌, ◌≡◌, false, not, ltb, leb, ◌==◌, arith}
use gns.Base.Floats.{Float}
use gns.Tcp.Timer.Laws.{FloatLaws}

abbrev pub Fraction : Type 0
Fraction = ℕ × ℕ

abbrev pub fractions : Float Fraction
fractions = record {
  literal = λ n d. (n, d);
  infinity = (1, 0);
  add = λ x y. (x.0 * y.1 + y.0 * x.1, x.1 * y.1);
  sub = λ x y. (x.0 * y.1 - y.0 * x.1, x.1 * y.1);
  mul = λ x y. (x.0 * y.0, x.1 * y.1);
  div = λ x y. (x.0 * y.1, x.1 * y.0);
  abs = λ x. x;
  pow = λ x y. x;
  cbrt = λ x. x;
  ceil = λ x. ((x.0 + x.1 - 1) / x.1, 1);
  floor = λ x. (x.0 / x.1, 1);
  to_u64 = λ x. x.0 / x.1;
  lt = λ x y. ltb (x.0 * y.1) (y.0 * x.1);
  le = λ x y. leb (x.0 * y.1) (y.0 * x.1);
  eq = λ x y. x.0 * y.1 == y.0 * x.1;
  is_finite = λ x. not (x.1 == 0);
}

not_ltb : (a b : ℕ) → b ≤ a → ltb a b ≡ false
not_ltb a b h = ground arith

le_of_ltb : (a b : ℕ) → ltb a b ≡ false → b ≤ a
le_of_ltb a b h = ground arith

product_le : (p q r s n d : ℕ) → n * q ≤ p * d → s ≤ r → n * (q * s) ≤ (p * r) * d
product_le p q r s n d h k =
    omega (arith, mul-le-mul {n₁ = n * q} {m₁ = s} {n₂ = p * d} {m₂ = r} h k)

pub fractions-FloatLaws : FloatLaws fractions
fractions-FloatLaws = record {
  literal_mono = λ a b c d hb hd h. not_ltb (a * d) (c * b) h;
  whole_lt = λ a b h k. ground arith;
  whole_double = λ a h. ground arith;
  mul_ge = λ x y n d hn hd hx hy. not_ltb (x.0 * y.0 * d) (n * (x.1 * y.1)) (
      product_le x.0 x.1 y.0 y.1 n d (le_of_ltb (x.0 * d) (n * x.1) hx)
        (omega (arith, le_of_ltb (y.0 * 1) (1 * y.1) hy)));
}
