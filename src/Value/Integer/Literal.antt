-- ===== src/Value/Integer/Literal.antt =====
-- `is_valid_integer_value` against a description of the literals of an integer type.
use mmxisf.Base.{
  All, ◌+◌, ℕ, ◌^◌, ◌≤◌, ◌<◌, ◌≡◌, refl, sym, subst, ◌↔◌, ◌⊎◌, inl, inr, Bool, true, false, not, [],
  ◌∷◌, arith, ◌==◌, if◌then◌else◌, ==_iff, Bool-cases, length, drop,
}
use mmxisf.Base.Text.{Bytes, is_empty}
use mmxisf.Value.{
  trim_xml_whitespace, prefix_base, is_digit_of, is_valid_prefixed, is_valid_magnitude,
  is_valid_decimal, literal_base, is_valid_integer_value,
}
use mmxisf.Value.Positional.{number}
use mmxisf.Value.Integer.{
  IntegerWidth, bits, IsDecimal, IsCanonical, magnitude_limit, is_valid_magnitude_iff,
}
use mmxisf.Value.Integer.Prefixed.{IsBase, AllDigits, is_valid_prefixed_iff}

-- Decimal digits without a superfluous leading zero whose number is at most `limit`.
abbrev pub IsMagnitude : ℕ → Bytes → Type 0
IsMagnitude limit text = IsDecimal text × IsCanonical text × (number 10 0 text ≤ limit)

-- The letter behind the zero of a binary, octal or hexadecimal literal.
abbrev pub IsPrefix : ℕ → ℕ → Type 0
IsPrefix base p =
    ((base ≡ 2) × ((p ≡ b'b') ⊎ (p ≡ b'B')))
    ⊎ ((base ≡ 8) × ((p ≡ b'o') ⊎ (p ≡ b'O')))
    ⊎ ((base ≡ 16) × ((p ≡ b'x') ⊎ (p ≡ b'X')))

-- The digits of a base: ten digits, of which a small base has the first ones, and six letters.
abbrev pub IsDigitOf : ℕ → ℕ → Type 0
IsDigitOf base c =
    ((b'0' ≤ c) × (c ≤ b'9') × (c < b'0' + base))
    ⊎ ((base ≡ 16) × (b'a' ≤ c) × (c ≤ b'f'))
    ⊎ ((base ≡ 16) × (b'A' ≤ c) × (c ≤ b'F'))

-- The literals of an integer type of a width: a prefix and digits of its base, or an optional sign
-- and a magnitude, with a value that the type has.
pub data IsInteger (is_signed : Bool) (width : IntegerWidth) : Bytes → Type 0 where
  prefixed :
      (base p : ℕ) (digits : Bytes)
      → IsPrefix base p
      → 0 < length digits
      → All (IsDigitOf base) digits
      → number base 0 digits < 2 ^ bits width
      → IsInteger is_signed width (b'0' ∷ p ∷ digits)
  plain :
      (digits : Bytes)
      → IsMagnitude (magnitude_limit is_signed (bits width) false) digits
      → IsInteger is_signed width digits
  plus :
      (digits : Bytes)
      → IsMagnitude (magnitude_limit is_signed (bits width) false) digits
      → IsInteger is_signed width (b'+' ∷ digits)
  minus :
      (digits : Bytes)
      → is_signed ≡ true
      → IsMagnitude (magnitude_limit is_signed (bits width) true) digits
      → IsInteger is_signed width (b'-' ∷ digits)

-- The check behind the trimming.
abbrev check : Bytes → Bool → ℕ → Bool
check text is_signed bit_width =
    if is_empty text
    then false
    else if not (literal_base text == 0)
    then is_valid_prefixed (literal_base text) bit_width (drop 2 text)
    else is_valid_decimal is_signed bit_width text

prefix_base-IsBase : (p : ℕ) → (prefix_base p == 0) ≡ false → IsBase (prefix_base p)
prefix_base-IsBase p h = ground arith

prefix_base-IsPrefix : (p : ℕ) → IsBase (prefix_base p) → IsPrefix (prefix_base p) p
prefix_base-IsPrefix p h = ground arith

IsPrefix-prefix_base : (base p : ℕ) → IsPrefix base p → prefix_base p ≡ base
IsPrefix-prefix_base base p h = ground arith

IsPrefix-IsBase : (base p : ℕ) → IsPrefix base p → IsBase base
IsPrefix-IsBase base p h = ground arith

IsDigitOf-iff : (base c : ℕ) → IsBase base → (is_digit_of base c ≡ true) ↔ IsDigitOf base c
IsDigitOf-iff base c b = ground arith

AllDigits-iff :
    (base : ℕ) (digits : Bytes) → IsBase base → AllDigits base digits ↔ All (IsDigitOf base) digits
AllDigits-iff base [] b = (λ h. tt, λ h. tt)
AllDigits-iff base (c ∷ cs) b =
    let (to, from) = AllDigits-iff base cs b in
    let (one, back) = IsDigitOf-iff base c b in (λ h. (one h.0, to h.1), λ h. (back h.0, from h.1))

decimal_sound :
    (text : Bytes) (is_signed : Bool) (width : IntegerWidth)
    → is_valid_decimal is_signed (bits width) text ≡ true
    → IsInteger is_signed width text
unfolding is_valid_decimal
decimal_sound [] is_signed width h = cc
decimal_sound (c ∷ cs) is_signed width h = elim (Bool-cases (c == b'+')) [
  | inl is_plus ↦
      subst (λ x. IsInteger is_signed width (x ∷ cs)) (sym ((==_iff c b'+').0 is_plus))
        (plus cs ((is_valid_magnitude_iff is_signed width false cs).0 (ground arith)))
  | inr not_plus ↦ elim (Bool-cases (c == b'-')) [
    | inl is_minus ↦
        subst (λ x. IsInteger is_signed width (x ∷ cs)) (sym ((==_iff c b'-').0 is_minus))
          (minus cs (ground arith)
            ((is_valid_magnitude_iff is_signed width true cs).0 (ground arith)))
    | inr not_minus ↦
        plain (c ∷ cs) ((is_valid_magnitude_iff is_signed width false (c ∷ cs)).0 (ground arith))
  ]
]

prefixed_sound :
    (text : Bytes) (is_signed : Bool) (width : IntegerWidth)
    → (literal_base text == 0) ≡ false
    → is_valid_prefixed (literal_base text) (bits width) (drop 2 text) ≡ true
    → IsInteger is_signed width text
prefixed_sound [] is_signed width b h = cc
prefixed_sound (c ∷ []) is_signed width b h = cc
prefixed_sound (c ∷ p ∷ digits) is_signed width b h = elim (Bool-cases (c == b'0')) [
  | inr other ↦ absurd (ground arith)
  | inl is_zero ↦
      let base : literal_base (c ∷ p ∷ digits) ≡ prefix_base p = rw is_zero refl in
      let is_base = prefix_base-IsBase p (ground arith) in
      let valid : is_valid_prefixed (prefix_base p) (bits width) digits ≡ true =
        subst (λ b. is_valid_prefixed b (bits width) digits ≡ true) base h in
      let (nonempty, all_digits, fits) =
        (is_valid_prefixed_iff (prefix_base p) width digits is_base).0 valid in
      subst (λ x. IsInteger is_signed width (x ∷ p ∷ digits)) (sym ((==_iff c b'0').0 is_zero))
        (prefixed (prefix_base p) p digits (prefix_base-IsPrefix p is_base) nonempty
          ((AllDigits-iff (prefix_base p) digits is_base).0 all_digits) fits)
]

check_sound :
    (text : Bytes) (is_signed : Bool) (width : IntegerWidth)
    → check text is_signed (bits width) ≡ true
    → IsInteger is_signed width text
check_sound text is_signed width h = elim (Bool-cases (literal_base text == 0)) [
  | inl none_given ↦ decimal_sound text is_signed width (ground arith)
  | inr some_given ↦ prefixed_sound text is_signed width some_given (ground arith)
]

not_zero : (b : ℕ) → IsBase b → (b == 0) ≡ false
not_zero b h = ground arith

canonical_base : (text : Bytes) → IsDecimal text → IsCanonical text → literal_base text ≡ 0
unfolding IsCanonical
canonical_base [] d c = refl
canonical_base (x ∷ []) d c = refl
canonical_base (x ∷ y ∷ rest) d c = ground arith

plain_check :
    (text : Bytes) (is_signed : Bool) (width : IntegerWidth)
    → IsMagnitude (magnitude_limit is_signed (bits width) false) text
    → check text is_signed (bits width) ≡ true
unfolding is_valid_decimal IsCanonical
plain_check [] is_signed width m = absurd (ground arith)
plain_check (c ∷ cs) is_signed width m =
    rw (canonical_base (c ∷ cs) m.0 m.1)
      (ground (arith, (is_valid_magnitude_iff is_signed width false (c ∷ cs)).1 m, m.0.0))

signed_check :
    (sign : ℕ) (digits : Bytes) (is_signed : Bool) (width : IntegerWidth)
    → (sign ≡ b'+') ⊎ ((sign ≡ b'-') × (is_signed ≡ true))
    → is_valid_magnitude is_signed (bits width) (sign == b'-') digits ≡ true
    → check (sign ∷ digits) is_signed (bits width) ≡ true
unfolding is_valid_decimal
signed_check sign [] is_signed width s h = ground arith
signed_check sign (d ∷ ds) is_signed width s h = ground arith

check_complete :
    (text : Bytes) (is_signed : Bool) (width : IntegerWidth)
    → IsInteger is_signed width text
    → check text is_signed (bits width) ≡ true
check_complete _ is_signed width (prefixed base p digits named nonempty all_digits fits) =
    let b = IsPrefix-IsBase base p named in
    rw (IsPrefix-prefix_base base p named, not_zero base b)
      ((is_valid_prefixed_iff base width digits b).1
        (nonempty, (AllDigits-iff base digits b).1 all_digits, fits))
check_complete _ is_signed width (plain digits m) = plain_check digits is_signed width m
check_complete _ is_signed width (plus digits m) =
    signed_check b'+' digits is_signed width (inl refl)
      ((is_valid_magnitude_iff is_signed width false digits).1 m)
check_complete _ is_signed width (minus digits s m) =
    signed_check b'-' digits is_signed width (inr (refl, s))
      ((is_valid_magnitude_iff is_signed width true digits).1 m)

-- An integer value is accepted for a type of 8, 16, 32, 64 or 128 bits exactly when the text without
-- the whitespace around it is a literal of that type: a binary, octal or hexadecimal literal below
-- two to the width, or decimal digits without a superfluous zero, with an optional sign, that spell
-- a number of the type.
pub is_valid_integer_value_iff :
    (value : Bytes) (is_signed : Bool) (width : IntegerWidth)
    → (is_valid_integer_value value is_signed (bits width) ≡ true)
      ↔ IsInteger is_signed width (trim_xml_whitespace value)
unfolding is_valid_integer_value
is_valid_integer_value_iff value is_signed width = (
  check_sound (trim_xml_whitespace value) is_signed width,
  check_complete (trim_xml_whitespace value) is_signed width,
)
