-- ===== src/Word/Checked.antt =====
-- The checked operations are exact: they refuse just the results that do not fit 64 bits.
use mmxisf.Base.{ℕ, zero, suc, ◌+◌, ◌*◌, ◌/◌, ◌^◌, ◌≤◌, ◌<◌, ◌≡◌, ◌↔◌, none, some, arith}
use mmxisf.Word.{u64_max, checked_multiply, checked_add}

-- The guard of `checked_multiply` against the product itself.
quotient_guard : (a b : ℕ) → 0 < a → b ≤ u64_max / a → a * b ≤ u64_max
quotient_guard a b pos h = grind arith

quotient_guard_conv : (a b : ℕ) → 0 < a → u64_max / a < b → u64_max < a * b
quotient_guard_conv a b pos h = grind arith

-- A product is returned exactly when it fits 64 bits, and is then the product of the numbers.
pub checked_multiply_iff :
    (a b r : ℕ) → (checked_multiply a b ≡ some r) ↔ ((a * b ≡ r) × (r < 2 ^ 64))
unfolding checked_multiply
checked_multiply_iff zero b r = ground arith
checked_multiply_iff (suc a) b r =
    ground (arith, quotient_guard (suc a) b, quotient_guard_conv (suc a) b)

-- A sum of a word and a number is returned exactly when it fits 64 bits.
pub checked_add_iff :
    (a b r : ℕ) → a < 2 ^ 64 → (checked_add a b ≡ some r) ↔ ((a + b ≡ r) × (r < 2 ^ 64))
unfolding checked_add
checked_add_iff a b r h = ground arith

-- A product is refused exactly when it does not fit.
pub checked_multiply-none : (a b : ℕ) → checked_multiply a b ≡ none → u64_max < a * b
unfolding checked_multiply
checked_multiply-none zero b h = ground arith
checked_multiply-none (suc a) b h = ground (arith, quotient_guard_conv (suc a) b)
