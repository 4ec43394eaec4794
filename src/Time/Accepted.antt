-- ===== src/Time/Accepted.antt =====
-- The times that the writer takes and those that the reader accepts.
use mmxisf.Base.{
  ℕ, zero, suc, ◌+◌, ◌-◌, ◌*◌, ◌<◌, ◌≤◌, ◌≡◌, refl, sym, ap, ◌∙◌, subst, ◌↔◌, inl, inr, true, false,
  ◌||◌, [], ◌∷◌, arith, ltb, ◌==◌, ==_iff, Bool-cases, length, get_or, take, drop,
}
use mmxisf.Base.Text.{Bytes}
use mmxisf.Number.{is_ascii_digit, digits_value}
use mmxisf.Value.{is_xml_whitespace, trim_end, trim_xml_whitespace}
use mmxisf.Time.{
  parse_fixed_digits, DateTime, parse_fields, is_valid_date_time, are_valid_fields, is_valid_zone,
  is_valid_time_tail, is_time_point_text, is_valid_time_point_value,
}
use mmxisf.Writer.Time.{
  digits_loop, parse_digits, is_valid_utc, are_valid_numbers, is_canonical_utc_time,
}

-- A text whose last character is not whitespace has a trimmed end.
trim_end-last :
    (c : ℕ) (cs : Bytes)
    → is_xml_whitespace (get_or (c ∷ cs) (length cs) 0) ≡ false
    → trim_end (c ∷ cs) ≡ c ∷ cs
trim_end-last c [] h = ground arith
trim_end-last c (d ∷ ds) h = rw (trim_end-last d ds h) refl

trim-id :
    (c : ℕ) (cs : Bytes)
    → is_xml_whitespace c ≡ false
    → is_xml_whitespace (get_or (c ∷ cs) (length cs) 0) ≡ false
    → trim_xml_whitespace (c ∷ cs) ≡ c ∷ cs
unfolding trim_xml_whitespace
trim-id c cs first last = rw first (trim_end-last c cs last)

-- The first field begins with a digit.
fields-first :
    (c : ℕ) (cs : Bytes) → are_valid_fields (parse_fields (c ∷ cs)) ≡ true → is_ascii_digit c ≡ true
unfolding parse_fields parse_fixed_digits digits_value
fields-first c cs h = ground arith

last_of : (cs : Bytes) → drop 19 cs ≡ b'Z' ∷ [] → is_valid_time_tail (drop 19 cs) ≡ true
unfolding is_valid_time_tail is_valid_zone
last_of cs e = rw e refl

drop-last : (n : ℕ) (text : Bytes) → length text ≡ suc n → drop n text ≡ get_or text n 0 ∷ []
drop-last n [] h = absurd (omega arith)
drop-last zero (c ∷ []) h = refl
drop-last zero (c ∷ d ∷ ds) h = absurd (omega arith)
drop-last (suc n) (c ∷ cs) h = drop-last n cs (omega arith)

-- The digits that the writer's loop reads are those of the text from the position on.
drop-at :
    (n : ℕ) (text : Bytes) → n < length text → drop n text ≡ get_or text n 0 ∷ drop (suc n) text
drop-at n [] h = absurd (omega arith)
drop-at zero (c ∷ cs) h = refl
drop-at (suc n) (c ∷ cs) h = drop-at n cs (omega arith)

digits_loop-digits_value :
    (text : Bytes) (position left value : ℕ)
    → position + left ≤ length text
    → digits_loop text position left value ≡ digits_value value (take left (drop position text))
unfolding digits_loop digits_value
digits_loop-digits_value text position zero value h = refl
digits_loop-digits_value text position (suc left) value h =
    let c = get_or text position 0 in
    let rest =
      digits_loop-digits_value text (position + 1) left (value * 10 + (c - b'0')) (omega arith) in
    let next : position + 1 ≡ suc position = omega arith in
    let rest' =
      subst
        (λ n.
          digits_loop text (position + 1) left (value * 10 + (c - b'0'))
          ≡ digits_value (value * 10 + (c - b'0')) (take left (drop n text)))
        next rest in
    rw (drop-at position text (omega arith)) (ground (arith, rest'))

parse_digits-parse_fixed_digits :
    (text : Bytes) (position count : ℕ)
    → parse_digits text position count ≡ parse_fixed_digits text position count
unfolding parse_digits parse_fixed_digits
parse_digits-parse_fixed_digits text position count =
    elim (Bool-cases (ltb (length text) position || ltb (length text - position) count)) [
      | inl short ↦ rw short refl
      | inr long ↦ rw long (digits_loop-digits_value text position count 0 (ground arith))
    ]

-- The two checks of the numbers agree.
utc-date_time :
    (t : DateTime)
    → is_valid_utc t.year t.month t.day t.hour t.minute t.second ≡ is_valid_date_time t
unfolding is_valid_utc is_valid_date_time mmxisf.Writer.Time.is_leap_year mmxisf.Time.is_leap_year
utc-date_time t = refl

are_valid_numbers-fields :
    (text : Bytes)
    → are_valid_numbers
        (parse_digits text 0 4)
        (parse_digits text 5 2)
        (parse_digits text 8 2)
        (parse_digits text 11 2)
        (parse_digits text 14 2)
        (parse_digits text 17 2)
      ≡ are_valid_fields (parse_fields text)
unfolding are_valid_numbers parse_fields
are_valid_numbers-fields text =
    rw
      (
        parse_digits-parse_fixed_digits text 0 4,
        parse_digits-parse_fixed_digits text 5 2,
        parse_digits-parse_fixed_digits text 8 2,
        parse_digits-parse_fixed_digits text 11 2,
        parse_digits-parse_fixed_digits text 14 2,
        parse_digits-parse_fixed_digits text 17 2,
      )
      (grind (arith, utc-date_time))

canonical-parts :
    (text : Bytes)
    → is_canonical_utc_time text ≡ true
    → (length text ≡ 20)
      × ((get_or text 4 0 == b'-') ≡ true)
      × ((get_or text 7 0 == b'-') ≡ true)
      × ((get_or text 10 0 == b'T') ≡ true)
      × ((get_or text 13 0 == b':') ≡ true)
      × ((get_or text 16 0 == b':') ≡ true)
      × ((get_or text 19 0 == b'Z') ≡ true)
      × (are_valid_fields (parse_fields text) ≡ true)
unfolding is_canonical_utc_time
canonical-parts text h = ground (arith, are_valid_numbers-fields text)

canonical-text : (text : Bytes) → is_canonical_utc_time text ≡ true → is_time_point_text text ≡ true
unfolding is_time_point_text
canonical-text text h =
    let (size, a, b, t, d, e, z, fields) = canonical-parts text h in
    let tail =
      last_of text
        (drop-last 19 text size ∙ ap (λ c. c ∷ []) ((==_iff (get_or text 19 0) b'Z').0 z)) in
    rw (size, a, b, t, d, e, fields, tail) refl

-- The texts of twenty characters from a digit to a capital Z, with a capital T.
pub record IsUtcText (text : Bytes) : Type 0 where
  pub size : length text ≡ 20
  pub first : is_ascii_digit (get_or text 0 0) ≡ true
  pub separator : get_or text 10 0 ≡ b'T'
  pub zone : get_or text 19 0 ≡ b'Z'

canonical-IsUtcText : (text : Bytes) → is_canonical_utc_time text ≡ true → IsUtcText text
canonical-IsUtcText [] h = absurd (ground (arith, (canonical-parts [] h).0))
canonical-IsUtcText (c ∷ cs) h =
    let (size, a, b, t, d, e, z, fields) = canonical-parts (c ∷ cs) h in
    record {
      size = size;
      first = fields-first c cs fields;
      separator = (==_iff (get_or (c ∷ cs) 10 0) b'T').0 t;
      zone = (==_iff (get_or (c ∷ cs) 19 0) b'Z').0 z;
    }

-- Such a text has no whitespace at its ends.
time_point-text :
    (text : Bytes) → IsUtcText text → is_valid_time_point_value text ≡ is_time_point_text text
unfolding is_valid_time_point_value
time_point-text [] utc = absurd (omega (arith, utc.size))
time_point-text (c ∷ cs) utc =
    let last : get_or (c ∷ cs) (length cs) 0 ≡ b'Z' =
      ap (λ n. get_or (c ∷ cs) n 0) {y = 19} (omega (arith, utc.size)) ∙ utc.zone in
    ap is_time_point_text (trim-id c cs (ground (arith, utc.first)) (ap is_xml_whitespace last))

text-canonical :
    (text : Bytes)
    → IsUtcText text
    → is_time_point_text text ≡ true
    → is_canonical_utc_time text ≡ true
unfolding is_time_point_text is_canonical_utc_time
text-canonical text utc h =
    ground (arith, utc.size, utc.separator, utc.zone, are_valid_numbers-fields text)

-- The writer takes a text as canonical exactly when it has the twenty characters of a UTC time and the
-- reader accepts it as a point of time.
pub canonical_iff_time_point :
    (text : Bytes)
    → (is_canonical_utc_time text ≡ true)
      ↔ (IsUtcText text × (is_valid_time_point_value text ≡ true))
canonical_iff_time_point text = (
  λ h.
      let utc = canonical-IsUtcText text h in
      (utc, time_point-text text utc ∙ canonical-text text h),
  λ (utc, h). text-canonical text utc (sym (time_point-text text utc) ∙ h),
)
