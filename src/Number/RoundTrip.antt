-- ===== src/Number/RoundTrip.antt =====
-- Printed numbers are read back, and hold no separator.
use mmxisf.Base.{
  ℕ, zero, suc, ◌+◌, ◌/◌, ◌%◌, ◌^◌, ◌<◌, ◌≡◌, ◌∙◌, inl, inr, true, false, some, [], ◌∷◌, arith, ltb,
  le→leb, Bool-cases, All,
}
use mmxisf.Base.Text.{Bytes, is_empty, Lacks}
use mmxisf.Word.{u64_max}
use mmxisf.Number.{is_ascii_digit, digits_value, parse_unsigned, decimal_onto, to_decimal}

digits_value-decimal_onto :
    (fuel n : ℕ) (rest : Bytes)
    → n < fuel
    → digits_value 0 (decimal_onto fuel n rest) ≡ digits_value n rest
unfolding digits_value decimal_onto
digits_value-decimal_onto zero n rest h = absurd (omega arith)
digits_value-decimal_onto (suc fuel) n rest h = elim (Bool-cases (ltb n 10)) [
  | inl one ↦ rw one (ground arith)
  | inr more ↦ rw more (
      digits_value-decimal_onto fuel (n / 10) ((b'0' + n % 10) ∷ rest) (ground arith)
      ∙ ground arith)
]

decimal_onto-nonempty :
    (fuel n : ℕ) (rest : Bytes) → n < fuel → is_empty (decimal_onto fuel n rest) ≡ false
unfolding decimal_onto
decimal_onto-nonempty zero n rest h = absurd (omega arith)
decimal_onto-nonempty (suc fuel) n rest h =
    ground (arith, decimal_onto-nonempty fuel (n / 10) ((b'0' + n % 10) ∷ rest))

-- The bytes of a printed number are digits.
pub decimal_onto-digits :
    (fuel n : ℕ) (rest : Bytes)
    → All (λ c. is_ascii_digit c ≡ true) rest
    → All (λ c. is_ascii_digit c ≡ true) (decimal_onto fuel n rest)
unfolding decimal_onto
decimal_onto-digits zero n rest h = h
decimal_onto-digits (suc fuel) n rest h = elim (Bool-cases (ltb n 10)) [
  | inl one ↦ rw one (ground arith, h)
  | inr more ↦ rw more (decimal_onto-digits fuel (n / 10) _ (ground arith, h))
]

pub to_decimal-digits : (n : ℕ) → All (λ c. is_ascii_digit c ≡ true) (to_decimal n)
unfolding to_decimal
to_decimal-digits n = decimal_onto-digits (suc n) n [] tt

pub digits-Lacks :
    (s : ℕ) (text : Bytes)
    → is_ascii_digit s ≡ false
    → All (λ c. is_ascii_digit c ≡ true) text
    → Lacks s text
digits-Lacks s [] out h = tt
digits-Lacks s (c ∷ cs) out h = (ground arith, digits-Lacks s cs out h.1)

pub to_decimal-nonempty : (n : ℕ) → is_empty (to_decimal n) ≡ false
unfolding to_decimal
to_decimal-nonempty n = decimal_onto-nonempty (suc n) n [] (omega arith)

-- A printed 64-bit number is read back.
pub parse_unsigned-to_decimal : (n : ℕ) → n < 2 ^ 64 → parse_unsigned (to_decimal n) ≡ some n
unfolding parse_unsigned digits_value
parse_unsigned-to_decimal n h =
    rw (to_decimal-nonempty n, value) (rw (le→leb n u64_max (omega arith)))
  where
    value : digits_value 0 (to_decimal n) ≡ some n
    value = unfold to_decimal in digits_value-decimal_onto (suc n) n [] (omega arith)
