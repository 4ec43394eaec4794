-- ===== src/Number.antt =====
-- Decimal numbers: `parse_unsigned` of src/reader.cpp at `std::uint64_t`, which is
-- `std::from_chars` on the whole text, and `std::to_string` as src/writer.cpp uses it.
pub mod RoundTrip
use mmxisf.Base.{
  ℕ, zero, suc, ◌+◌, ◌-◌, ◌*◌, ◌/◌, ◌%◌, Bool, ◌&&◌, Option, none, some, [], ◌∷◌, ltb, leb,
  if◌then◌else◌,
}
use mmxisf.Base.Text.{Bytes, is_empty}
use mmxisf.Base.Error.{◌>>=◌, ◌>>◌}
use mmxisf.Word.{u64_max}

abbrev pub is_ascii_digit : ℕ → Bool
is_ascii_digit c = leb b'0' c && leb c b'9'

-- The value of a text of digits behind those read so far.
unfoldable pub digits_value : ℕ → Bytes → Option ℕ
digits_value value [] = some value
digits_value value (c ∷ cs) =
    if is_ascii_digit c then digits_value (value * 10 + (c - b'0')) cs else none

-- A value that does not fit is the `std::errc::result_out_of_range` of `std::from_chars`.
abbrev pub in_range : Option ℕ → Option ℕ
in_range none = none
in_range (some value) = if leb value u64_max then some value else none

unfoldable pub parse_unsigned : Bytes → Option ℕ
parse_unsigned text = if is_empty text then none else in_range (digits_value 0 text)

-- The digits of `n` in front of `digits`; `fuel` is more than their number.
unfoldable pub decimal_onto : ℕ → ℕ → Bytes → Bytes
decimal_onto zero n digits = digits
decimal_onto (suc fuel) n digits =
    let rest = decimal_onto fuel (n / 10) ((b'0' + n % 10) ∷ digits) in
    if ltb n 10 then (b'0' + n) ∷ digits else rest

unfoldable pub to_decimal : ℕ → Bytes
to_decimal n = decimal_onto (suc n) n []
