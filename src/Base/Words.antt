-- ===== src/Base/Words.antt =====
-- The fixed-width unsigned arithmetic of the C++ code: `uint8_t`, `uint16_t`, `uint32_t` and the
-- 64-bit `size_t` are natural numbers, with the wrap-around written out.
use Prim.Native.Nat.{ℕ, ◌+◌, ◌-◌, ◌*◌, ◌%◌}

abbrev pub u32_mod : ℕ
u32_mod = 4294967296

-- `std::numeric_limits<std::uint32_t>::max()`.
abbrev pub u32_max : ℕ
u32_max = 4294967295

abbrev pub size_mod : ℕ
size_mod = 18446744073709551616

abbrev pub u32 : ℕ → ℕ
u32 n = n % u32_mod

abbrev pub add_u32 : ℕ → ℕ → ℕ
add_u32 a b = (a + b) % u32_mod

-- `-` on ℕ stops at 0, so the modulus is added first.
abbrev pub sub_u32 : ℕ → ℕ → ℕ
sub_u32 a b = (a + u32_mod - b) % u32_mod

abbrev pub mul_u32 : ℕ → ℕ → ℕ
mul_u32 a b = (a * b) % u32_mod

abbrev pub add_size : ℕ → ℕ → ℕ
add_size a b = (a + b) % size_mod

abbrev pub sub_size : ℕ → ℕ → ℕ
sub_size a b = (a + size_mod - b) % size_mod
