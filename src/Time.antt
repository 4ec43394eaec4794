-- ===== src/Time.antt =====
-- Points of time: `is_valid_time_point_value` of src/reader.cpp. The numbers that are read have at most four digits, so an `unsigned` does not
-- wrap; a character of the text outside it is never read in the source, and is 0 here.
pub mod Accepted
use mmxisf.Base.{
  ℕ, ◌-◌, ◌%◌, Bool, true, false, not, ◌&&◌, ◌||◌, Option, none, some, List, [], ◌∷◌, ltb, leb,
  ◌==◌, if◌then◌else◌, length, get_or, take, drop,
}
use mmxisf.Base.Text.{Bytes, is_empty}
use mmxisf.Base.Error.{◌>>=◌, ◌>>◌}
use mmxisf.Number.{digits_value}
use mmxisf.Value.{trim_xml_whitespace}
use mmxisf.Value.Floating.{skip_digits, starts_with_digit}

unfoldable pub is_leap_year : ℕ → Bool
is_leap_year year = year % 4 == 0 && (not (year % 100 == 0) || year % 400 == 0)

unfoldable pub parse_fixed_digits : Bytes → ℕ → ℕ → Option ℕ
parse_fixed_digits text position count =
    if ltb (length text) position || ltb (length text - position) count
    then none
    else digits_value 0 (take count (drop position text))

abbrev pub month_lengths : List ℕ
month_lengths = 31 ∷ 28 ∷ 31 ∷ 30 ∷ 31 ∷ 30 ∷ 31 ∷ 31 ∷ 30 ∷ 31 ∷ 30 ∷ 31 ∷ []

abbrev pub maximum_day : ℕ → ℕ → ℕ
maximum_day year month =
    if month == 2 && is_leap_year year then 29 else get_or month_lengths (month - 1) 0

pub record DateTime : Type 0 where
  pub year : ℕ
  pub month : ℕ
  pub day : ℕ
  pub hour : ℕ
  pub minute : ℕ
  pub second : ℕ

-- The six fields of the date and the time of day.
unfoldable pub parse_fields : Bytes → Option DateTime
parse_fields text = elim (parse_fixed_digits text 0 4) [
  | none ↦ none
  | some year ↦ elim (parse_fixed_digits text 5 2) [
    | none ↦ none
    | some month ↦ elim (parse_fixed_digits text 8 2) [
      | none ↦ none
      | some day ↦ elim (parse_fixed_digits text 11 2) [
        | none ↦ none
        | some hour ↦ elim (parse_fixed_digits text 14 2) [
          | none ↦ none
          | some minute ↦ elim (parse_fixed_digits text 17 2) [
            | none ↦ none
            | some second ↦ some (record {
              year = year;
              month = month;
              day = day;
              hour = hour;
              minute = minute;
              second = second;
            })
          ]
        ]
      ]
    ]
  ]
]

unfoldable pub is_valid_date_time : DateTime → Bool
is_valid_date_time t =
    if t.month == 0 || ltb 12 t.month
    then false
    else not (t.day == 0)
      && leb t.day (maximum_day t.year t.month)
      && leb t.hour 23
      && leb t.minute 59
      && leb t.second 60

abbrev pub are_valid_fields : Option DateTime → Bool
are_valid_fields none = false
are_valid_fields (some t) = is_valid_date_time t

abbrev pub is_at_most : Option ℕ → ℕ → Bool
is_at_most none bound = false
is_at_most (some n) bound = leb n bound

-- The time zone behind the seconds and their fraction.
unfoldable pub is_valid_zone : Bytes → Bool
is_valid_zone [] = true
is_valid_zone (c ∷ cs) =
    if c == b'Z' || c == b'z'
    then is_empty cs
    else if not (c == b'+') && not (c == b'-')
        || not (length (c ∷ cs) == 6)
        || not (get_or (c ∷ cs) 3 0 == b':')
    then false
    else is_at_most (parse_fixed_digits (c ∷ cs) 1 2) 23
      && is_at_most (parse_fixed_digits (c ∷ cs) 4 2) 59

-- The text behind the seconds.
unfoldable pub is_valid_time_tail : Bytes → Bool
is_valid_time_tail [] = true
is_valid_time_tail (c ∷ cs) =
    if c == b'.'
    then starts_with_digit cs && is_valid_zone (skip_digits cs)
    else is_valid_zone (c ∷ cs)

unfoldable pub is_time_point_text : Bytes → Bool
is_time_point_text text =
    if ltb (length text) 19
      || not (get_or text 4 0 == b'-')
      || not (get_or text 7 0 == b'-')
      || not (get_or text 10 0 == b'T') && not (get_or text 10 0 == b't')
      || not (get_or text 13 0 == b':')
      || not (get_or text 16 0 == b':')
    then false
    else are_valid_fields (parse_fields text) && is_valid_time_tail (drop 19 text)

unfoldable pub is_valid_time_point_value : Bytes → Bool
is_valid_time_point_value value = is_time_point_text (trim_xml_whitespace value)
