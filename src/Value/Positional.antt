-- ===== src/Value/Positional.antt =====
-- Numbers in positional notation: the size and the order of texts of digits.
use mmxisf.Base.{
  ℕ, zero, suc, ◌+◌, ◌-◌, ◌*◌, ◌≤◌, ◌<◌, ◌≡◌, sym, ap, ◌∙◌, [], ◌∷◌, arith, leb, if◌then◌else◌,
  length, All,
}
use mmxisf.Base.Text.{Bytes}

-- The digit that a byte stands for.
abbrev pub digit_of : ℕ → ℕ
digit_of c = if leb b'a' c then c - b'a' + 10 else if leb b'A' c then c - b'A' + 10 else c - b'0'

-- The number that the digits spell behind a number read so far.
unfoldable pub number : ℕ → ℕ → Bytes → ℕ
number base value [] = value
number base value (c ∷ cs) = number base (value * base + digit_of c) cs

abbrev pub IsDigits : ℕ → Bytes → Type 0
IsDigits base = All (λ c. digit_of c < base)

abbrev pub power : ℕ → ℕ → ℕ
power base zero = 1
power base (suc n) = base * power base n

shift : (a b d p n : ℕ) → (a * b + d) * p + n ≡ a * (b * p) + (d * p + n)
shift a b d p n = grind arith

first : (base c : ℕ) (cs : Bytes) → number base 0 (c ∷ cs) ≡ number base (digit_of c) cs
unfolding number
first base c cs = ap (λ v. number base v cs) (from_zero base (digit_of c))
  where
    from_zero : (b d : ℕ) → 0 * b + d ≡ d
    from_zero b d = omega arith

pub number_acc :
    (base value : ℕ) (text : Bytes)
    → number base value text ≡ value * power base (length text) + number base 0 text
unfolding number
number_acc base value [] = omega arith
number_acc base value (c ∷ cs) =
    number_acc base (value * base + digit_of c) cs
    ∙ shift value base (digit_of c) (power base (length cs)) (number base 0 cs)
    ∙ ap (λ m. value * (base * power base (length cs)) + m)
        (sym (first base c cs ∙ number_acc base (digit_of c) cs))

-- The first digit has the weight of the power.
pub number-cons :
    (base c : ℕ) (cs : Bytes)
    → number base 0 (c ∷ cs) ≡ digit_of c * power base (length cs) + number base 0 cs
unfolding number
number-cons base c cs = first base c cs ∙ number_acc base (digit_of c) cs

below : (b d p n : ℕ) → d < b → n < p → d * p + n < b * p
below b d p n h k = grind arith

pub number-lt :
    (base : ℕ) (text : Bytes) → IsDigits base text → number base 0 text < power base (length text)
unfolding number
number-lt base [] h = omega arith
number-lt base (c ∷ cs) h = rw (number-cons base c cs) (
    below base (digit_of c) (power base (length cs)) (number base 0 cs) h.0 (number-lt base cs h.1))

at_least : (d p n : ℕ) → 0 < d → p ≤ d * p + n
at_least d p n h = grind arith

-- A number whose first digit is not 0 is at least the power of that digit's place.
pub number-ge :
    (base c : ℕ) (cs : Bytes) → 0 < digit_of c → power base (length cs) ≤ number base 0 (c ∷ cs)
number-ge base c cs h =
    rw (number-cons base c cs) (at_least (digit_of c) (power base (length cs)) (number base 0 cs) h)

pub power-pos : (base n : ℕ) → 0 < base → 0 < power base n
power-pos base zero h = omega arith
power-pos base (suc n) h = grind (arith, power-pos base n h)

grows : (b p : ℕ) → 0 < b → p ≤ b * p
grows b p h = grind arith

pub power-le : (base m n : ℕ) → 0 < base → m ≤ n → power base m ≤ power base n
power-le base m zero h le = ground arith
power-le base zero (suc n) h le = omega (arith, power-pos base (suc n) h)
power-le base (suc m) (suc n) h le =
    scaled base (power base m) (power base n) (power-le base m n h (omega arith))
  where
    scaled : (b p q : ℕ) → p ≤ q → b * p ≤ b * q
    scaled b p q k = grind arith

pub apart : (x y p m n : ℕ) → x < y → m < p → x * p + m < y * p + n
apart x y p m n h k = grind arith
