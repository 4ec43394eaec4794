-- ===== src/Word/Align.antt =====
-- `align_up` at a power of two.
use Prim.Native.Nat.{bit_and}
use mmxisf.Base.Bits.{bit_and-low_mask}
use native.Mathlib.Nat.{one-le-pow, mul-mod_left}
use mmxisf.Base.{
  ℕ, ◌+◌, ◌-◌, ◌*◌, ◌/◌, ◌%◌, ◌^◌, ◌≤◌, ◌<◌, ◌≡◌, refl, sym, ap, ◌∙◌, inl, inr, some, arith, ◌==◌,
  Bool-cases,
}
use mmxisf.Base.Error.{ok}
use mmxisf.Word.{checked_add}
use mmxisf.Word.Checked.{checked_add_iff}
use mmxisf.Word.{align_up, align_by}

-- The multiple of `m` that follows `value`.
next_multiple : (value m : ℕ) → 0 < m → 0 < value % m → (value + (m - value % m)) % m ≡ 0
next_multiple value m pos rest = ap (λ t. t % m) whole ∙ mul-mod_left (value / m + 1) m
  where
    parts : value / m * m + value % m ≡ value
    parts = grind arith

    small : value % m < m
    small = grind arith

    whole : value + (m - value % m) ≡ (value / m + 1) * m
    whole = omega (arith, parts, small)

align_by-multiple :
    (value m : ℕ) {aligned : ℕ}
    → 0 < m
    → value < 2 ^ 64
    → align_by value m (value % m) ≡ ok aligned
    → (aligned % m ≡ 0) × (value ≤ aligned) × (aligned < value + m) × (aligned < 2 ^ 64)
unfolding align_by
align_by-multiple value m {aligned} pos h e = elim (Bool-cases (value % m == 0)) [
  | inl there ↦ ground arith
  | inr rest ↦
      let sum : checked_add value (m - value % m) ≡ some aligned = ground arith in
      let (total, fits) = (checked_add_iff value (m - value % m) aligned h).0 sum in
      let pos_rest : 0 < value % m = ground arith in
      (rw (← total) (next_multiple value m pos pos_rest), omega arith, omega arith, fits)
]

align_up_lem :
    (value alignment : ℕ)
    → align_up value alignment ≡ align_by value alignment (bit_and value (alignment - 1))
unfolding align_up
align_up_lem value alignment = refl

-- At a power of two and for a 64-bit value, what is returned is a multiple of the alignment, fits
-- 64 bits, and is the least multiple from the value on: less than one alignment above it.
pub align_up-least :
    (value k : ℕ) {aligned : ℕ}
    → value < 2 ^ 64
    → align_up value (2 ^ k) ≡ ok aligned
    → (aligned % 2 ^ k ≡ 0) × (value ≤ aligned) × (aligned < value + 2 ^ k) × (aligned < 2 ^ 64)
align_up-least value k h e =
    align_by-multiple value (2 ^ k) (one-le-pow k 2 (omega arith)) h
      (rw (bit_and-low_mask k value) at (sym (align_up_lem value (2 ^ k)) ∙ e))
