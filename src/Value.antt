-- ===== src/Value.antt =====
-- The checks of property values in src/reader.cpp: whitespace and integers. A `char` is its byte;
-- one above 127 is a negative `char` in the source, outside every range that it is compared with,
-- here as there.
pub mod Positional
pub mod Integer
pub mod Floating
pub mod Scalar
use mmxisf.Base.{
  ℕ, ◌+◌, ◌-◌, ◌/◌, ◌%◌, ◌^◌, Bool, true, false, not, ◌&&◌, ◌||◌, [], ◌∷◌, ltb, leb, ◌==◌,
  if◌then◌else◌, length, get_or, drop, all,
}
use mmxisf.Base.Text.{Bytes, codes, is_empty}
use mmxisf.Base.Error.{◌>>=◌, ◌>>◌}
use mmxisf.Number.{is_ascii_digit}

abbrev pub is_xml_whitespace : ℕ → Bool
is_xml_whitespace c = c == b' ' || c == 9 || c == 13 || c == 10

abbrev pub trim_start : Bytes → Bytes
trim_start [] = []
trim_start (c ∷ cs) = if is_xml_whitespace c then trim_start cs else c ∷ cs

-- A byte in front of a trimmed end.
abbrev pub keep_trimmed : ℕ → Bytes → Bytes
keep_trimmed c [] = if is_xml_whitespace c then [] else c ∷ []
keep_trimmed c (d ∷ ds) = c ∷ d ∷ ds

abbrev pub trim_end : Bytes → Bytes
trim_end [] = []
trim_end (c ∷ cs) = keep_trimmed c (trim_end cs)

unfoldable pub trim_xml_whitespace : Bytes → Bytes
trim_xml_whitespace text = trim_end (trim_start text)

-- `digits <= maximum` on `std::string_view`
abbrev pub text_leb : Bytes → Bytes → Bool
text_leb [] ys = true
text_leb (x ∷ xs) [] = false
text_leb (x ∷ xs) (y ∷ ys) = if ltb x y then true else x == y && text_leb xs ys

unfoldable pub decimal_magnitude_fits : Bytes → Bytes → Bool
decimal_magnitude_fits digits maximum =
    ltb (length digits) (length maximum)
    || length digits == length maximum && text_leb digits maximum

abbrev pub unsigned_maximum : ℕ → Bytes
unsigned_maximum bit_width =
    if bit_width == 8
    then codes "255"
    else if bit_width == 16
    then codes "65535"
    else if bit_width == 32
    then codes "4294967295"
    else if bit_width == 64
    then codes "18446744073709551615"
    else if bit_width == 128
    then codes "340282366920938463463374607431768211455"
    else []

abbrev pub signed_maximum : ℕ → Bool → Bytes
signed_maximum bit_width is_negative =
    if bit_width == 8
    then (if is_negative then codes "128" else codes "127")
    else if bit_width == 16
    then (if is_negative then codes "32768" else codes "32767")
    else if bit_width == 32
    then (if is_negative then codes "2147483648" else codes "2147483647")
    else if bit_width == 64
    then (if is_negative then codes "9223372036854775808" else codes "9223372036854775807")
    else if bit_width == 128
    then (if is_negative
        then codes "170141183460469231731687303715884105728"
        else codes "170141183460469231731687303715884105727")
    else []

unfoldable pub maximum_decimal_magnitude : ℕ → Bool → Bool → Bytes
maximum_decimal_magnitude bit_width is_signed is_negative =
    if is_signed then signed_maximum bit_width is_negative else unsigned_maximum bit_width

-- `digits.remove_prefix(digits.find_first_not_of('0'))`
abbrev pub skip_zeros : Bytes → Bytes
skip_zeros [] = []
skip_zeros (c ∷ cs) = if c == b'0' then skip_zeros cs else c ∷ cs

-- The branches of `prefixed_integer_fits` behind the leading zeros.
abbrev pub significant_fit : Bytes → ℕ → ℕ → Bool
significant_fit digits base bit_width =
    let maximum_digits = (bit_width + 2) / 3 in
    let leading_bits = bit_width % 3 in
    if base == 2
    then leb (length digits) bit_width
    else if base == 16
    then leb (length digits) (bit_width / 4)
    else if not (base == 8)
    then false
    else if not (length digits == maximum_digits)
    then ltb (length digits) maximum_digits
    else if leading_bits == 0
    then true
    else leb (get_or digits 0 0 - b'0') (2 ^ leading_bits - 1)

unfoldable pub prefixed_integer_fits : Bytes → ℕ → ℕ → Bool
prefixed_integer_fits digits base bit_width =
    let significant = skip_zeros digits in
    if is_empty significant then true else significant_fit significant base bit_width

-- The base that the second character of a literal selects, 0 for none.
abbrev pub prefix_base : ℕ → ℕ
prefix_base prefix =
    if prefix == b'b' || prefix == b'B'
    then 2
    else if prefix == b'o' || prefix == b'O'
    then 8
    else if prefix == b'x' || prefix == b'X'
    then 16
    else 0

abbrev pub is_digit_of : ℕ → ℕ → Bool
is_digit_of base c =
    if is_ascii_digit c
    then ltb (c - b'0') base
    else base == 16 && (leb b'a' c && leb c b'f') || base == 16 && (leb b'A' c && leb c b'F')

-- Behind the prefix.
unfoldable pub is_valid_prefixed : ℕ → ℕ → Bytes → Bool
is_valid_prefixed base bit_width text =
    not (is_empty text)
    && (all (is_digit_of base) text && prefixed_integer_fits text base bit_width)

-- Behind the sign.
unfoldable pub is_valid_magnitude : Bool → ℕ → Bool → Bytes → Bool
is_valid_magnitude is_signed bit_width is_negative text =
    let maximum = maximum_decimal_magnitude bit_width is_signed is_negative in
    if is_empty text || ltb 1 (length text) && get_or text 0 0 == b'0'
    then false
    else if not (all is_ascii_digit text)
    then false
    else not (is_empty maximum) && decimal_magnitude_fits text maximum

-- Behind the test for a prefix.
unfoldable pub is_valid_decimal : Bool → ℕ → Bytes → Bool
is_valid_decimal is_signed bit_width [] = false
is_valid_decimal is_signed bit_width (c ∷ cs) =
    if c == b'+' || c == b'-'
    then (if not is_signed && c == b'-'
        then false
        else is_valid_magnitude is_signed bit_width (c == b'-') cs)
    else is_valid_magnitude is_signed bit_width false (c ∷ cs)

-- The base of the prefix of a literal, 0 for a literal that has none.
abbrev pub literal_base : Bytes → ℕ
literal_base (c ∷ d ∷ rest) = if c == b'0' then prefix_base d else 0
literal_base _ = 0

unfoldable pub is_valid_integer_value : Bytes → Bool → ℕ → Bool
is_valid_integer_value value is_signed bit_width =
    let text = trim_xml_whitespace value in
    if is_empty text
    then false
    else if not (literal_base text == 0)
    then is_valid_prefixed (literal_base text) bit_width (drop 2 text)
    else is_valid_decimal is_signed bit_width text
