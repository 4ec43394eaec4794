-- ===== src/Base/Bits.antt =====
-- Bit operations at variables: facts over a byte by evaluation, and masks of low bits at every
-- width from the definition by binary digits.
use Prim.Native.Nat.{bit_and, digits, bit_and-bitwise}
use native.Mathlib.Nat.{pow-suc, one-le-pow}
use mathlib.Core.Path.{◌≡◌, refl, sym, ap, ◌∙◌}
use mathlib.Core.Bool.{Bool, true, ◌&&◌}
use Prim.Native.Nat.{ℕ, zero, suc, ◌+◌, ◌-◌, ◌*◌, ◌/◌, ◌%◌, ◌^◌, ◌≤◌, ◌<◌, min}
use native.Mathlib.Omega.{arith}

-- The test holds below `n`.
abbrev pub check_below : ℕ → (ℕ → Bool) → Bool
check_below zero test = true
check_below (suc n) test = test n && check_below n test

pub check_below_sound :
    (n : ℕ) (test : ℕ → Bool) (x : ℕ) → check_below n test ≡ true → x < n → test x ≡ true
check_below_sound zero test x h lt = absurd (omega arith)
check_below_sound (suc n) test x h lt = ground (arith, check_below_sound n test x)

-- The digits of a conjunction do not depend on the count, once it is large enough.
and_count :
    (n m a b : ℕ) → a ≤ n → a ≤ m → digits (λ _. zero) min n a b ≡ digits (λ _. zero) min m a b
and_count zero zero a b p q = refl
and_count zero (suc m) zero b p q = refl
and_count (suc n) zero zero b p q = refl
and_count (suc n) (suc m) zero b p q = refl
and_count zero m (suc a) b p q = absurd (omega arith)
and_count (suc n) zero (suc a) b p q = absurd (omega arith)
and_count (suc n) (suc m) (suc a) b p q =
    omega (arith, and_count n m (suc a / 2) (b / 2) (omega arith) (omega arith))

-- One binary digit of a conjunction.
and_digit : (a b : ℕ) → bit_and a b ≡ bit_and (a / 2) (b / 2) * 2 + min (a % 2) (b % 2)
and_digit zero b = omega (arith, bit_and-bitwise zero b, bit_and-bitwise zero (b / 2))
and_digit (suc a) b = omega (
  arith,
  bit_and-bitwise (suc a) b,
  bit_and-bitwise (suc a / 2) (b / 2),
  and_count a (suc a / 2) (suc a / 2) (b / 2) (omega arith) (omega arith),
)

and_none : (count a : ℕ) → a ≤ count → bit_and a 0 ≡ 0
and_none count zero h = refl
and_none zero (suc a) h = absurd (omega arith)
and_none (suc count) (suc a) h =
    omega (arith, and_digit (suc a) 0, and_none count (suc a / 2) (omega arith))

last_digits : (q t c : ℕ) → t < c → (q * c + t) % c ≡ t
last_digits q t c h = grind arith

mod_double : (a m : ℕ) → 0 < m → a % (m * 2) ≡ a / 2 % m * 2 + a % 2
mod_double a m h =
    sym (ap (λ t. t % (m * 2)) regroup)
    ∙ last_digits (a / 2 / m) (a / 2 % m * 2 + a % 2) (m * 2) small
  where
    low : a / 2 % m < m
    low = grind arith

    small : a / 2 % m * 2 + a % 2 < m * 2
    small = omega (arith, low)

    whole : a / 2 / m * m + a / 2 % m ≡ a / 2
    whole = grind arith

    regroup : a / 2 / m * (m * 2) + (a / 2 % m * 2 + a % 2) ≡ a
    regroup = omega (arith, ap (λ (t : ℕ). t * 2) whole)

-- A mask of the `k` low bits takes the remainder by `2 ^ k`.
pub bit_and-low_mask : (k a : ℕ) → bit_and a (2 ^ k - 1) ≡ a % 2 ^ k
bit_and-low_mask zero a = omega (arith, and_none a a (omega arith))
bit_and-low_mask (suc k) a =
    let pos : 0 < 2 ^ k = one-le-pow k 2 (omega arith) in
    let half : (2 ^ suc k - 1) / 2 ≡ 2 ^ k - 1 = omega (arith, pow-suc 2 k) in
    let odd : (2 ^ suc k - 1) % 2 ≡ 1 = omega (arith, pow-suc 2 k) in
    and_digit a (2 ^ suc k - 1)
    ∙ rw (half, odd, bit_and-low_mask k (a / 2), pow-suc 2 k)
        (omega (arith, mod_double a (2 ^ k) pos))
