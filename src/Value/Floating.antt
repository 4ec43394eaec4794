-- ===== src/Value/Floating.antt =====
-- `is_valid_floating_point_value` and `is_valid_complex_value` of src/reader.cpp. A position in the
-- text is the text behind it.
use Prim.Native.String.{String}
use mmxisf.Base.{
  ◌-◌, Bool, true, false, not, ◌&&◌, ◌||◌, List, [], ◌∷◌, ltb, ◌==◌, if◌then◌else◌, length, get_or,
  take, drop,
}
use mmxisf.Base.Text.{Bytes, is_empty, contains, split_on}
use mmxisf.Number.{is_ascii_digit}
use mmxisf.Value.{trim_xml_whitespace}

abbrev pub skip_digits : Bytes → Bytes
skip_digits [] = []
skip_digits (c ∷ cs) = if is_ascii_digit c then skip_digits cs else c ∷ cs

abbrev pub starts_with_digit : Bytes → Bool
starts_with_digit [] = false
starts_with_digit (c ∷ cs) = is_ascii_digit c

abbrev pub skip_sign : Bytes → Bytes
skip_sign [] = []
skip_sign (c ∷ cs) = if c == b'+' || c == b'-' then cs else c ∷ cs

abbrev pub is_digits : Bytes → Bool
is_digits text = starts_with_digit text && is_empty (skip_digits text)

-- The exponent, if there is one, is all that is left.
abbrev pub is_exponent : Bytes → Bool
is_exponent [] = true
is_exponent (c ∷ cs) = if c == b'e' || c == b'E' then is_digits (skip_sign cs) else false

-- The text behind the integer digits; the flag tells whether there were any.
abbrev pub is_fraction : Bool → Bytes → Bool
is_fraction has_integer_digits [] = has_integer_digits
is_fraction has_integer_digits (c ∷ cs) =
    if c == b'.'
    then starts_with_digit cs && is_exponent (skip_digits cs)
    else has_integer_digits && is_exponent (c ∷ cs)

abbrev pub special_values : List String
special_values = "NaN" ∷ "+Inf" ∷ "-Inf" ∷ "nan" ∷ "-nan" ∷ "inf" ∷ "-inf" ∷ []

unfoldable pub is_floating_point_text : Bytes → Bool
is_floating_point_text text =
    if contains special_values text
    then true
    else if is_empty text
    then false
    else let digits = skip_sign text in
      if is_empty digits then false else is_fraction (starts_with_digit digits) (skip_digits digits)

unfoldable pub is_valid_floating_point_value : Bytes → Bool
is_valid_floating_point_value value = is_floating_point_text (trim_xml_whitespace value)

-- `text.remove_suffix(1)`
abbrev pub without_last : Bytes → Bytes
without_last text = take (length text - 1) text

-- The two parts between the parentheses.
abbrev pub are_parts : List Bytes → Bool
are_parts (real ∷ imaginary ∷ []) =
    is_valid_floating_point_value real && is_valid_floating_point_value imaginary
are_parts _ = false

unfoldable pub is_valid_complex_value : Bytes → Bool
is_valid_complex_value value =
    let text = trim_xml_whitespace value in
    if ltb (length text) 5
      || not (get_or text 0 0 == b'(')
      || not (get_or text (length text - 1) 0 == b')')
    then false
    else are_parts (split_on b',' (without_last (drop 1 text)))
