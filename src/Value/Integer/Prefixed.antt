-- ===== src/Value/Integer/Prefixed.antt =====
-- What the checks of prefixed literals and of whole integer values accept.
use mmxisf.Base.{
  ℕ, suc, ◌+◌, ◌-◌, ◌*◌, ◌/◌, ◌%◌, ◌^◌, ◌≤◌, ◌<◌, ◌≡◌, refl, sym, ◌∙◌, subst, ◌↔◌, ◌⊎◌, inl, inr,
  true, false, [], ◌∷◌, arith, ◌==◌, if◌then◌else◌, Bool-cases, length, all, All,
}
use mmxisf.Base.Text.{Bytes, is_empty}
use mmxisf.Value.{
  skip_zeros, significant_fit, prefixed_integer_fits, is_digit_of, is_valid_prefixed,
}
use mmxisf.Value.Positional.{
  digit_of, number, power, IsDigits, number-cons, number-lt, number-ge, power-le,
}
use mmxisf.Value.Integer.{IntegerWidth, w8, w16, w32, w64, w128, bits}

-- A number with a positive first digit needs as many places as it has digits.
size_iff :
    (base c : ℕ) (cs : Bytes) (m : ℕ)
    → 0 < base
    → 0 < digit_of c
    → IsDigits base (c ∷ cs)
    → (length (c ∷ cs) ≤ m) ↔ (number base 0 (c ∷ cs) < power base m)
size_iff base c cs m b pos h =
    let upper = number-lt base (c ∷ cs) h in
    let lower = number-ge base c cs pos in
    ground (arith, upper, lower, power-le base (suc (length cs)) m b, power-le base m (length cs) b)

first_place : (d l p n : ℕ) → n < p → (d ≤ l) ↔ (d * p + n < suc l * p)
first_place d l p n h = (grind arith, grind arith)

lead_iff :
    (base c : ℕ) (cs : Bytes) (l m : ℕ)
    → IsDigits base (c ∷ cs)
    → length cs ≡ m
    → (digit_of c ≤ l) ↔ (number base 0 (c ∷ cs) < suc l * power base m)
lead_iff base c cs l m h e =
    rw (number-cons base c cs, sym e)
      (first_place (digit_of c) l (power base (length cs)) (number base 0 cs)
        (number-lt base cs h.1))

multiple : (l p : ℕ) → p ≤ suc l * p
multiple l p = grind arith

within : (l p b : ℕ) → suc l ≤ b → suc l * p ≤ b * p
within l p b h = grind arith

-- A bound of `suc l` at a place, against the digits.
place_iff :
    (base c : ℕ) (cs : Bytes) (l m : ℕ)
    → 0 < base
    → 0 < digit_of c
    → IsDigits base (c ∷ cs)
    → suc l ≤ base
    → ((length cs < m) ⊎ ((length cs ≡ m) × (digit_of c ≤ l)))
      ↔ (number base 0 (c ∷ cs) < suc l * power base m)
place_iff base c cs l m b pos h le = ground (
  arith,
  size_iff base c cs m b pos h,
  size_iff base c cs (suc m) b pos h,
  lead_iff base c cs l m h,
  multiple l (power base m),
  within l (power base m) base le,
)

abbrev pub IsBase : ℕ → Type 0
IsBase base = (base ≡ 2) ⊎ (base ≡ 8) ⊎ (base ≡ 16)

abbrev pub AllDigits : ℕ → Bytes → Type 0
AllDigits base = All (λ c. is_digit_of base c ≡ true)

digit_of-lt : (base c : ℕ) → IsBase base → is_digit_of base c ≡ true → digit_of c < base
digit_of-lt base c b h = ground arith

digit_of-pos :
    (base c : ℕ) → IsBase base → is_digit_of base c ≡ true → (c == b'0') ≡ false → 0 < digit_of c
digit_of-pos base c b h n = ground arith

AllDigits-IsDigits :
    (base : ℕ) (text : Bytes) → IsBase base → AllDigits base text → IsDigits base text
AllDigits-IsDigits base [] b h = tt
AllDigits-IsDigits base (c ∷ cs) b h = (digit_of-lt base c b h.0, AllDigits-IsDigits base cs b h.1)

abbrev FitsBelow : ℕ → Bytes → ℕ → Type 0
FitsBelow base digits width =
    (significant_fit digits base width ≡ true) ↔ (number base 0 digits < 2 ^ width)

binary_fits :
    (width c : ℕ) (cs : Bytes)
    → power 2 width ≡ 2 ^ width
    → 0 < digit_of c
    → IsDigits 2 (c ∷ cs)
    → FitsBelow 2 (c ∷ cs) width
binary_fits width c cs e pos h = ground (arith, size_iff 2 c cs width)

hexadecimal_fits :
    (width c : ℕ) (cs : Bytes)
    → power 16 (width / 4) ≡ 2 ^ width
    → 0 < digit_of c
    → IsDigits 16 (c ∷ cs)
    → FitsBelow 16 (c ∷ cs) width
hexadecimal_fits width c cs e pos h = ground (arith, size_iff 16 c cs (width / 4))

-- The numbers that decide the octal test at a width: the places behind the first, and the largest
-- first digit.
record IsOctal (width m l : ℕ) : Type 0 where
  pub places : (width + 2) / 3 ≡ suc m
  pub leading : 2 ^ (width % 3) - 1 ≡ l
  pub leading-pos : 0 < width % 3
  pub digit : suc l ≤ 8
  pub bound : suc l * power 8 m ≡ 2 ^ width

octal_fits :
    (width m l c : ℕ) (cs : Bytes)
    → IsOctal width m l
    → 0 < digit_of c
    → digit_of c ≡ c - b'0'
    → IsDigits 8 (c ∷ cs)
    → FitsBelow 8 (c ∷ cs) width
octal_fits width m l c cs o pos d h = ground (
  arith,
  o.places,
  o.leading,
  o.leading-pos,
  o.bound,
  place_iff 8 c cs l m (omega arith) pos h o.digit,
)

fits_at :
    (width m l base c : ℕ) (cs : Bytes)
    → power 2 width ≡ 2 ^ width
    → power 16 (width / 4) ≡ 2 ^ width
    → IsOctal width m l
    → IsBase base
    → 0 < digit_of c
    → (base ≡ 8 → digit_of c ≡ c - b'0')
    → IsDigits base (c ∷ cs)
    → FitsBelow base (c ∷ cs) width
fits_at width m l base c cs two sixteen o b pos d h = elim b [
  | inl e ↦ moved e (binary_fits width c cs two pos) h
  | inr (inl e) ↦ moved e (octal_fits width m l c cs o pos (d e)) h
  | inr (inr e) ↦ moved e (hexadecimal_fits width c cs sixteen pos) h
]
  where
    moved :
        {k : ℕ}
        → base ≡ k
        → (IsDigits k (c ∷ cs) → FitsBelow k (c ∷ cs) width)
        → IsDigits base (c ∷ cs)
        → FitsBelow base (c ∷ cs) width
    moved e f = subst (λ k. IsDigits k (c ∷ cs) → FitsBelow k (c ∷ cs) width) (sym e) f

abbrev octal :
    (width m l : ℕ)
    → (width + 2) / 3 ≡ suc m
    → 2 ^ (width % 3) - 1 ≡ l
    → 0 < width % 3
    → suc l ≤ 8
    → suc l * power 8 m ≡ 2 ^ width
    → IsOctal width m l
octal width m l a b c d e = record {
  places = a;
  leading = b;
  leading-pos = c;
  digit = d;
  bound = e;
}

-- The tests on the digits behind the leading zeros, at each width.
significant_fit_iff :
    (base : ℕ) (width : IntegerWidth) (c : ℕ) (cs : Bytes)
    → IsBase base
    → 0 < digit_of c
    → (base ≡ 8 → digit_of c ≡ c - b'0')
    → IsDigits base (c ∷ cs)
    → FitsBelow base (c ∷ cs) (bits width)
significant_fit_iff base w8 c cs =
    fits_at 8 2 3 base c cs refl refl (octal 8 2 3 refl refl (omega arith) (omega arith) refl)
significant_fit_iff base w16 c cs =
    fits_at 16 5 1 base c cs refl refl (octal 16 5 1 refl refl (omega arith) (omega arith) refl)
significant_fit_iff base w32 c cs =
    fits_at 32 10 3 base c cs refl refl (octal 32 10 3 refl refl (omega arith) (omega arith) refl)
significant_fit_iff base w64 c cs =
    fits_at 64 21 1 base c cs refl refl (octal 64 21 1 refl refl (omega arith) (omega arith) refl)
significant_fit_iff base w128 c cs =
    fits_at 128 42 3 base c cs refl refl (octal 128 42 3 refl refl (omega arith) (omega arith) refl)

-- The leading zeros count for nothing.
number-skip_zeros : (base : ℕ) (text : Bytes) → number base 0 (skip_zeros text) ≡ number base 0 text
number-skip_zeros base [] = refl
number-skip_zeros base (c ∷ cs) = elim (Bool-cases (c == b'0')) [
  | inl is_zero ↦ rw is_zero (number-skip_zeros base cs ∙ zero_first is_zero)
  | inr other ↦ rw other refl
]
  where
    zero_first : (c == b'0') ≡ true → number base 0 cs ≡ number base 0 (c ∷ cs)
    zero_first h = rw (number-cons base c cs) (ground arith)

AllDigits-skip_zeros :
    (base : ℕ) (text : Bytes) → AllDigits base text → AllDigits base (skip_zeros text)
AllDigits-skip_zeros base [] h = tt
AllDigits-skip_zeros base (c ∷ cs) h = elim (Bool-cases (c == b'0')) [
  | inl is_zero ↦ rw is_zero (AllDigits-skip_zeros base cs h.1)
  | inr other ↦ rw other h
]

first-skip_zeros :
    (text : Bytes) (c : ℕ) (cs : Bytes) → skip_zeros text ≡ c ∷ cs → (c == b'0') ≡ false
first-skip_zeros [] c cs e = absurd (ground arith)
first-skip_zeros (d ∷ ds) c cs e = ground (arith, first-skip_zeros ds c cs)

octal_digit : (base c : ℕ) → is_digit_of base c ≡ true → base ≡ 8 → digit_of c ≡ c - b'0'
octal_digit base c h e = ground arith

significant_iff :
    (base : ℕ) (width : IntegerWidth) (digits : Bytes)
    → IsBase base
    → AllDigits base digits
    → ((c : ℕ) (cs : Bytes) → digits ≡ c ∷ cs → (c == b'0') ≡ false)
    → ((if is_empty digits then true else significant_fit digits base (bits width)) ≡ true)
      ↔ (number base 0 digits < 2 ^ bits width)
unfolding number
significant_iff base width [] b h first = (λ e. positive width, λ e. refl)
  where
    positive : (w : IntegerWidth) → 0 < 2 ^ bits w
    positive w = ground arith
significant_iff base width (c ∷ cs) b h first =
    significant_fit_iff base width c cs b (digit_of-pos base c b h.0 (first c cs refl))
      (octal_digit base c h.0) (AllDigits-IsDigits base (c ∷ cs) b h)

prefixed_integer_fits_iff :
    (base : ℕ) (width : IntegerWidth) (text : Bytes)
    → IsBase base
    → AllDigits base text
    → (prefixed_integer_fits text base (bits width) ≡ true) ↔ (number base 0 text < 2 ^ bits width)
unfolding prefixed_integer_fits
prefixed_integer_fits_iff base width text b h =
    subst (λ n. (prefixed_integer_fits text base (bits width) ≡ true) ↔ (n < 2 ^ bits width))
      (number-skip_zeros base text)
      (significant_iff base width (skip_zeros text) b (AllDigits-skip_zeros base text h)
        (first-skip_zeros text))

all-AllDigits :
    (base : ℕ) (text : Bytes) → (all (is_digit_of base) text ≡ true) ↔ AllDigits base text
all-AllDigits base [] = ground arith
all-AllDigits base (c ∷ cs) = ground (arith, all-AllDigits base cs)

-- A prefixed literal is accepted exactly when it has digits of its base, whose number fits the
-- width.
pub is_valid_prefixed_iff :
    (base : ℕ) (width : IntegerWidth) (text : Bytes)
    → IsBase base
    → (is_valid_prefixed base (bits width) text ≡ true)
      ↔ ((0 < length text) × AllDigits base text × (number base 0 text < 2 ^ bits width))
unfolding is_valid_prefixed
is_valid_prefixed_iff base width text b =
    ground (arith, all-AllDigits base text, prefixed_integer_fits_iff base width text b)
