-- ===== src/Base/Words.antt =====
-- Unsigned machine words. Values are plain numbers below the modulus; the release profile of the
-- workspace has no overflow checks, so `+` and `-` wrap.
use Prim.Native.Nat.{ℕ, zero, suc, ◌+◌, ◌-◌, ◌*◌, ◌%◌, ◌/◌, ◌^◌, ◌≤◌, ◌<◌}
use mathlib.Core.Path.{◌≡◌}
use mathlib.Core.List.{List, [], ◌∷◌}
use native.Mathlib.Omega.{arith}
use seda_rust.Base.Tests.{ltb, if◌then◌else◌}

abbrev pub u128_mod : ℕ
u128_mod = 2 ^ 128

abbrev pub u64_mod : ℕ
u64_mod = 2 ^ 64

-- A signed 32-bit number is its pattern.
abbrev pub i32_mod : ℕ
i32_mod = 2 ^ 32

-- The cast of an `i32` to a `usize` of 64 bits, which extends the sign.
unfoldable pub i32_as_usize : ℕ → ℕ
i32_as_usize x = if ltb x (2 ^ 31) then x else x + u64_mod - i32_mod

unfoldable pub add_u128 : ℕ → ℕ → ℕ
add_u128 a b = (a + b) % u128_mod

unfoldable pub sub_u128 : ℕ → ℕ → ℕ
sub_u128 a b = (a + u128_mod - b) % u128_mod

unfoldable pub mul_u128 : ℕ → ℕ → ℕ
mul_u128 a b = (a * b) % u128_mod

unfoldable pub add_u64 : ℕ → ℕ → ℕ
add_u64 a b = (a + b) % u64_mod

unfoldable pub sub_u64 : ℕ → ℕ → ℕ
sub_u64 a b = (a + u64_mod - b) % u64_mod

pub add_u128_exact : (a b : ℕ) → a + b < u128_mod → add_u128 a b ≡ a + b
unfolding add_u128
add_u128_exact a b h = omega arith

pub sub_u128_exact : (a b : ℕ) → b ≤ a → a < u128_mod → sub_u128 a b ≡ a - b
unfolding sub_u128
sub_u128_exact a b h k = omega arith

-- Below zero the difference wraps to the top of the range.
pub sub_u128_wraps : (a b : ℕ) → a < b → b < u128_mod → sub_u128 a b ≡ a + u128_mod - b
unfolding sub_u128
sub_u128_wraps a b h k = omega arith

pub add_u128_bound : (a b : ℕ) → add_u128 a b < u128_mod
unfolding add_u128
add_u128_bound a b = omega arith

pub sub_u128_bound : (a b : ℕ) → sub_u128 a b < u128_mod
unfolding sub_u128
sub_u128_bound a b = omega arith

-- Subtracting what was added gives back the start, wrapping or not.
pub sub-add_u128 : (a b : ℕ) → a < u128_mod → b < u128_mod → sub_u128 (add_u128 a b) b ≡ a
unfolding sub_u128 add_u128
sub-add_u128 a b h k = omega arith

pub add-sub_u128 : (a b : ℕ) → a < u128_mod → b < u128_mod → add_u128 (sub_u128 a b) b ≡ a
unfolding sub_u128 add_u128
add-sub_u128 a b h k = omega arith

pub add_u64_exact : (a b : ℕ) → a + b < u64_mod → add_u64 a b ≡ a + b
unfolding add_u64
add_u64_exact a b h = omega arith

pub sub_u64_exact : (a b : ℕ) → b ≤ a → a < u64_mod → sub_u64 a b ≡ a - b
unfolding sub_u64
sub_u64_exact a b h k = omega arith

-- `to_le_bytes` of a word of `w` bytes.
unfoldable pub to_le_bytes : ℕ → ℕ → List ℕ
to_le_bytes zero n = []
to_le_bytes (suc w) n = (n % 256) ∷ to_le_bytes w (n / 256)
