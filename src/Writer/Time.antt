-- ===== src/Writer/Time.antt =====
-- `is_canonical_utc_time` of src/writer.cpp with its own digits, leap years and months. The numbers
-- that are read have at most four digits, so an `unsigned` does not wrap; a character of the text
-- outside it is never read in the source, and is 0 here.
use mmxisf.Base.{
  ℕ, zero, suc, ◌+◌, ◌-◌, ◌*◌, ◌%◌, Bool, false, not, ◌&&◌, ◌||◌, Option, none, some, List, [], ◌∷◌,
  ltb, leb, ◌==◌, if◌then◌else◌, length, get_or,
}
use mmxisf.Base.Text.{Bytes}

unfoldable pub is_leap_year : ℕ → Bool
is_leap_year year = year % 4 == 0 && (not (year % 100 == 0) || year % 400 == 0)

-- The loop of `parse_digits`: `left` characters from the position on.
unfoldable pub digits_loop : Bytes → ℕ → ℕ → ℕ → Option ℕ
digits_loop text position zero value = some value
digits_loop text position (suc left) value =
    let character = get_or text position 0 in
    let rest = digits_loop text (position + 1) left (value * 10 + (character - b'0')) in
    if ltb character b'0' || ltb b'9' character then none else rest

unfoldable pub parse_digits : Bytes → ℕ → ℕ → Option ℕ
parse_digits text position count =
    if ltb (length text) position || ltb (length text - position) count
    then none
    else digits_loop text position count 0

abbrev pub month_lengths : List ℕ
month_lengths = 31 ∷ 28 ∷ 31 ∷ 30 ∷ 31 ∷ 30 ∷ 31 ∷ 31 ∷ 30 ∷ 31 ∷ 30 ∷ 31 ∷ []

abbrev pub maximum_day : ℕ → ℕ → ℕ
maximum_day year month =
    if month == 2 && is_leap_year year then 29 else get_or month_lengths (month - 1) 0

unfoldable pub is_valid_utc : ℕ → ℕ → ℕ → ℕ → ℕ → ℕ → Bool
is_valid_utc year month day hour minute second =
    if month == 0 || ltb (length month_lengths) month
    then false
    else not (day == 0)
      && leb day (maximum_day year month)
      && leb hour 23
      && leb minute 59
      && leb second 60

-- The check of the six numbers, unless one of them was not read.
unfoldable pub are_valid_numbers :
    Option ℕ → Option ℕ → Option ℕ → Option ℕ → Option ℕ → Option ℕ → Bool
are_valid_numbers (some year) (some month) (some day) (some hour) (some minute) (some second) =
    is_valid_utc year month day hour minute second
are_valid_numbers _ _ _ _ _ _ = false

unfoldable pub is_canonical_utc_time : Bytes → Bool
is_canonical_utc_time text =
    if not (length text == 20)
      || not (get_or text 4 0 == b'-')
      || not (get_or text 7 0 == b'-')
      || not (get_or text 10 0 == b'T')
      || not (get_or text 13 0 == b':')
      || not (get_or text 16 0 == b':')
      || not (get_or text 19 0 == b'Z')
    then false
    else are_valid_numbers (parse_digits text 0 4) (parse_digits text 5 2) (parse_digits text 8 2)
        (parse_digits text 11 2) (parse_digits text 14 2) (parse_digits text 17 2)
