-- ===== src/Word.antt =====
-- The checked 64-bit arithmetic of src/reader.cpp and src/writer.cpp. A word is a number below
-- 2 ^ 64; `none` is the `false` of a checked operation, which then leaves its result alone.
pub mod Checked
pub mod Align
use Prim.Native.Nat.{bit_and}
use mmxisf.Base.{
  ℕ, ◌+◌, ◌-◌, ◌*◌, ◌/◌, ◌%◌, ◌^◌, Bool, not, ◌&&◌, Option, none, some, ltb, ◌==◌, if◌then◌else◌,
}
use mmxisf.Base.Error.{Result, ok, overflow, fail}

-- `std::numeric_limits<std::uint64_t>::max()`, also that of `std::size_t` on the 64-bit targets.
abbrev pub u64_max : ℕ
u64_max = 2 ^ 64 - 1

abbrev pub u64 : ℕ → ℕ
u64 n = n % 2 ^ 64

unfoldable pub checked_multiply : ℕ → ℕ → Option ℕ
checked_multiply left right =
    if not (left == 0) && ltb (u64_max / left) right then none else some (u64 (left * right))

unfoldable pub checked_add : ℕ → ℕ → Option ℕ
checked_add left right = if ltb (u64_max - left) right then none else some (u64 (left + right))

unfoldable pub is_power_of_two : ℕ → Bool
is_power_of_two value = not (value == 0) && bit_and value (value - 1) == 0

-- `align_up` behind its first line.
unfoldable pub align_by : ℕ → ℕ → ℕ → Result ℕ
align_by value alignment remainder =
    if remainder == 0 then ok value else elim (checked_add value (alignment - remainder)) [
      | none ↦ fail overflow "Writer attachment alignment overflows"
      | some aligned ↦ ok aligned
    ]

unfoldable pub align_up : ℕ → ℕ → Result ℕ
unfolding align_by
align_up value alignment = align_by value alignment (bit_and value (alignment - 1))
