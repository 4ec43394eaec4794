-- ===== src/Value/Integer.antt =====
-- What the check of a decimal magnitude accepts: the texts whose number fits the type.
pub mod Prefixed
pub mod Literal
use mmxisf.Base.{
  ℕ, ◌+◌, ◌-◌, ◌*◌, ◌^◌, ◌≤◌, ◌<◌, ◌≡◌, subst, ◌↔◌, ◌⊎◌, Bool, true, false, not, ◌&&◌, ◌||◌, [],
  ◌∷◌, arith, ltb, ◌==◌, if◌then◌else◌, length, get_or, all, All,
}
use mmxisf.Base.Text.{Bytes, is_empty}
use mmxisf.Number.{is_ascii_digit}
use mmxisf.Value.{text_leb, decimal_magnitude_fits, maximum_decimal_magnitude, is_valid_magnitude}
use mmxisf.Value.Positional.{
  digit_of, number, power, IsDigits, number-cons, number-lt, number-ge, power-le, apart,
}

abbrev pub IsDecimal : Bytes → Type 0
IsDecimal = All (λ c. is_ascii_digit c ≡ true)

IsDecimal-IsDigits : (text : Bytes) → IsDecimal text → IsDigits 10 text
IsDecimal-IsDigits [] h = tt
IsDecimal-IsDigits (c ∷ cs) h = (ground arith, IsDecimal-IsDigits cs h.1)

same_first : (d p m n : ℕ) → (d * p + m ≤ d * p + n) ↔ (m ≤ n)
same_first d p m n = grind arith

-- The comparison of the first digits, and of the rest where they agree.
leb_step :
    (x y : ℕ) (less : Bool) (p m n : ℕ)
    → is_ascii_digit x ≡ true
    → is_ascii_digit y ≡ true
    → m < p
    → n < p
    → (less ≡ true) ↔ (m ≤ n)
    → ((if ltb x y then true else x == y && less) ≡ true)
      ↔ (digit_of x * p + m ≤ digit_of y * p + n)
leb_step x y less p m n hx hy hm hn hr =
    ground (
      arith,
      apart (x - 48) (y - 48) p m n,
      apart (y - 48) (x - 48) p n m,
      same_first (x - 48) p m n,
    )

-- Texts of the same length are ordered like their numbers.
text_leb_iff :
    (xs ys : Bytes)
    → IsDecimal xs
    → IsDecimal ys
    → length xs ≡ length ys
    → (text_leb xs ys ≡ true) ↔ (number 10 0 xs ≤ number 10 0 ys)
unfolding number
text_leb_iff [] [] h k e = ground arith
text_leb_iff [] (y ∷ ys) h k e = absurd (omega arith)
text_leb_iff (x ∷ xs) [] h k e = absurd (omega arith)
text_leb_iff (x ∷ xs) (y ∷ ys) h k e =
    rw (number-cons 10 x xs, number-cons 10 y ys, same)
      (leb_step x y (text_leb xs ys) (power 10 (length ys)) (number 10 0 xs) (number 10 0 ys) h.0
        k.0
        (subst (λ n. number 10 0 xs < power 10 n) same
          (number-lt 10 xs (IsDecimal-IsDigits xs h.1)))
        (number-lt 10 ys (IsDecimal-IsDigits ys k.1)) (text_leb_iff xs ys h.1 k.1 same))
  where
    same : length xs ≡ length ys
    same = omega arith

-- The digits of a positive number without leading zeros, or those of 0.
unfoldable pub IsCanonical : Bytes → Type 0
IsCanonical text = (length text ≡ 1) ⊎ ((0 < length text) × (b'0' < get_or text 0 0))

shorter :
    (c : ℕ) (cs m : Bytes)
    → IsDecimal m
    → is_ascii_digit c ≡ true
    → b'0' < c
    → length m < length (c ∷ cs)
    → number 10 0 m < number 10 0 (c ∷ cs)
shorter c cs m h k pos less =
    let a = number-lt 10 m (IsDecimal-IsDigits m h) in
    let b = power-le 10 (length m) (length cs) (omega arith) (omega arith) in
    let d = number-ge 10 c cs (ground arith) in omega (arith, a, b, d)

-- The comparison of magnitudes is that of their numbers, for a maximum with no leading zero.
fits_iff :
    (c : ℕ) (cs : Bytes) (d : ℕ) (ds : Bytes)
    → IsDecimal (c ∷ cs)
    → IsDecimal (d ∷ ds)
    → IsCanonical (c ∷ cs)
    → b'0' < d
    → (decimal_magnitude_fits (c ∷ cs) (d ∷ ds) ≡ true)
      ↔ (number 10 0 (c ∷ cs) ≤ number 10 0 (d ∷ ds))
unfolding decimal_magnitude_fits IsCanonical
fits_iff c cs d ds h k canonical pos = ground (
  arith,
  shorter d ds (c ∷ cs) h k.0 pos,
  shorter c cs (d ∷ ds) k h.0,
  text_leb_iff (c ∷ cs) (d ∷ ds) h k,
)

-- The largest magnitude of a type.
abbrev pub magnitude_limit : Bool → ℕ → Bool → ℕ
magnitude_limit false bit_width is_negative = 2 ^ bit_width - 1
magnitude_limit true bit_width true = 2 ^ (bit_width - 1)
magnitude_limit true bit_width false = 2 ^ (bit_width - 1) - 1

pub data IntegerWidth : Type 0 where
  w8 w16 w32 w64 w128 : IntegerWidth

abbrev pub bits : IntegerWidth → ℕ
bits w8 = 8
bits w16 = 16
bits w32 = 32
bits w64 = 64
bits w128 = 128

-- The maximum of a type: digits, the first of them positive, that spell the limit.
abbrev IsMaximum : Bytes → ℕ → Type 0
IsMaximum [] limit = ⊥
IsMaximum (d ∷ ds) limit =
    All (λ c. is_ascii_digit c ≡ true) (d ∷ ds) × (b'0' < d) × (number 10 0 (d ∷ ds) ≡ limit)

maximum_decimal_magnitude-IsMaximum :
    (is_signed : Bool) (width : IntegerWidth) (is_negative : Bool)
    → IsMaximum
        (maximum_decimal_magnitude (bits width) is_signed is_negative)
        (magnitude_limit is_signed (bits width) is_negative)
unfolding maximum_decimal_magnitude number
maximum_decimal_magnitude-IsMaximum false w8 n = ground arith
maximum_decimal_magnitude-IsMaximum false w16 n = ground arith
maximum_decimal_magnitude-IsMaximum false w32 n = ground arith
maximum_decimal_magnitude-IsMaximum false w64 n = ground arith
maximum_decimal_magnitude-IsMaximum false w128 n = ground arith
maximum_decimal_magnitude-IsMaximum true w8 true = ground arith
maximum_decimal_magnitude-IsMaximum true w16 true = ground arith
maximum_decimal_magnitude-IsMaximum true w32 true = ground arith
maximum_decimal_magnitude-IsMaximum true w64 true = ground arith
maximum_decimal_magnitude-IsMaximum true w128 true = ground arith
maximum_decimal_magnitude-IsMaximum true w8 false = ground arith
maximum_decimal_magnitude-IsMaximum true w16 false = ground arith
maximum_decimal_magnitude-IsMaximum true w32 false = ground arith
maximum_decimal_magnitude-IsMaximum true w64 false = ground arith
maximum_decimal_magnitude-IsMaximum true w128 false = ground arith

all-IsDecimal : (text : Bytes) → (all is_ascii_digit text ≡ true) ↔ IsDecimal text
all-IsDecimal [] = ground arith
all-IsDecimal (c ∷ cs) = ground (arith, all-IsDecimal cs)

-- The magnitude check against any maximum.
abbrev magnitude_check : Bytes → Bytes → Bool
magnitude_check text maximum =
    if is_empty text || ltb 1 (length text) && get_or text 0 0 == b'0'
    then false
    else if not (all is_ascii_digit text)
    then false
    else not (is_empty maximum) && decimal_magnitude_fits text maximum

magnitude_check_iff :
    (text maximum : Bytes) (limit : ℕ)
    → IsMaximum maximum limit
    → (magnitude_check text maximum ≡ true)
      ↔ (IsDecimal text × IsCanonical text × (number 10 0 text ≤ limit))
unfolding IsCanonical
magnitude_check_iff text [] limit h = absurd h
magnitude_check_iff [] (d ∷ ds) limit h = ground arith
magnitude_check_iff (c ∷ cs) (d ∷ ds) limit (k, pos, spelled) =
    ground (arith, spelled, all-IsDecimal (c ∷ cs), fits c cs d ds k pos)
  where
    fits :
        (c : ℕ) (cs : Bytes) (d : ℕ) (ds : Bytes)
        → IsDecimal (d ∷ ds)
        → b'0' < d
        → IsDecimal (c ∷ cs)
        → (length (c ∷ cs) ≡ 1) ⊎ ((0 < length (c ∷ cs)) × (b'0' < c))
        → (decimal_magnitude_fits (c ∷ cs) (d ∷ ds) ≡ true)
          ↔ (number 10 0 (c ∷ cs) ≤ number 10 0 (d ∷ ds))
    fits c cs d ds k pos h canonical = fits_iff c cs d ds h k canonical pos

-- A magnitude is accepted exactly when it is written in digits without a superfluous zero and its
-- number fits the type.
pub is_valid_magnitude_iff :
    (is_signed : Bool) (width : IntegerWidth) (is_negative : Bool) (text : Bytes)
    → (is_valid_magnitude is_signed (bits width) is_negative text ≡ true) ↔ (
        IsDecimal text
        × IsCanonical text
        × (number 10 0 text ≤ magnitude_limit is_signed (bits width) is_negative))
unfolding is_valid_magnitude
is_valid_magnitude_iff is_signed width is_negative text =
    magnitude_check_iff text (maximum_decimal_magnitude (bits width) is_signed is_negative) _
      (maximum_decimal_magnitude-IsMaximum is_signed width is_negative)
