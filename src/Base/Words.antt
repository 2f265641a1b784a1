-- ===== src/Base/Words.antt =====
-- `size_t` arithmetic: 64-bit words that wrap around.
use Prim.Native.Nat.{ℕ, ◌+◌, ◌-◌, ◌*◌, ◌%◌, ◌^◌, ◌≤◌, ◌<◌}
use mathlib.Core.Path.{◌≡◌}
use native.Mathlib.Omega.{arith}

abbrev pub size_mod : ℕ
size_mod = 2 ^ 64

abbrev pub add_size : ℕ → ℕ → ℕ
add_size a b = (a + b) % size_mod

abbrev pub sub_size : ℕ → ℕ → ℕ
sub_size a b = (a + size_mod - b) % size_mod

abbrev pub mul_size : ℕ → ℕ → ℕ
mul_size a b = (a * b) % size_mod

-- A remainder below the modulus, and one below twice the modulus.
pub mod_small : (a m : ℕ) → a < m → a % m ≡ a
mod_small a m h = grind arith

pub mod_once : (a m : ℕ) → m ≤ a → a < m + m → a % m ≡ a - m
mod_once a m h k = grind arith
