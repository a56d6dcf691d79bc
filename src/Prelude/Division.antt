-- ===== src/Prelude/Division.antt =====
-- Quotient and remainder by a variable divisor.
use Prim.Native.Nat.{ℕ, ◌+◌, ◌*◌, ◌/◌, ◌%◌, ◌<◌}
use mathlib.Core.Path.{◌≡◌}
use native.Mathlib.Omega.{arith}

-- A number is its quotient and remainder.
pub div-mod_unique : (q n m : ℕ) → m < n → ((q * n + m) / n ≡ q) × ((q * n + m) % n ≡ m)
div-mod_unique q n m h = (grind arith, grind arith)

-- One divisor more.
pub add_divisor : (k n : ℕ) → 0 < n → ((k + n) / n ≡ k / n + 1) × ((k + n) % n ≡ k % n)
add_divisor k n h = (grind arith, grind arith)
