-- ===== src/Base/Division.antt =====
-- The item an offset lies in and its place there, for items of one size: the arithmetic of the
-- sample and component loops of src/reader.cpp.
use Prim.Native.Nat.{ℕ, ◌+◌, ◌*◌, ◌/◌, ◌%◌, ◌<◌}
use mathlib.Core.Path.{◌≡◌}
use native.Mathlib.Omega.{arith}

pub split-div : (i b s : ℕ) → b < s → (i * s + b) / s ≡ i
split-div i b s h = grind arith

pub split-mod : (i b s : ℕ) → b < s → (i * s + b) % s ≡ b
split-mod i b s h = grind arith

pub quotient-lt : (j s n : ℕ) → j < n * s → j / s < n
quotient-lt j s n h = grind arith

pub remainder-lt : (j s n : ℕ) → j < n * s → j % s < s
remainder-lt j s n h = grind arith

pub div-mod : (j s : ℕ) → j / s * s + j % s ≡ j
div-mod j s = grind arith
