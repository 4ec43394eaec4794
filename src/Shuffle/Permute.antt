-- ===== src/Shuffle/Permute.antt =====
-- The index map of the byte shuffle is onto: it stays inside the block and reaches every byte.
use mmxisf.Base.{
  ℕ, ◌+◌, ◌*◌, ◌/◌, ◌%◌, ◌≤◌, ◌<◌, ◌≡◌, refl, arith, ltb, if◌then◌else◌, ltb→lt, lt→ltb, Bool-cases,
  inl, inr,
}
use mmxisf.Shuffle.{plain_index}

-- Row `r`, column `q` of a matrix with `c` columns and `s` rows lies inside it.
cell-lt : (q r c s n : ℕ) → q < c → r < s → c * s ≤ n → q * s + r < n
cell-lt q r c s n hq hr h = grind arith

quotient-lt : (g c s : ℕ) → g < c * s → g / c < s
quotient-lt g c s h = grind arith

remainder-lt : (g c s : ℕ) → g < c * s → g % c < c
remainder-lt g c s h = grind arith

pub plain_index-lt : (n s g : ℕ) → 0 < s → g < n → plain_index n s g < n
unfolding plain_index
plain_index-lt n s g pos h = elim (Bool-cases (ltb g (n / s * s))) [
  | inl inside ↦ rw inside (
      let h' = ltb→lt _ _ inside in
      cell-lt (g % (n / s)) (g / (n / s)) (n / s) s n (remainder-lt g (n / s) s h')
        (quotient-lt g (n / s) s h') (grind arith))
  | inr outside ↦ rw outside h
]

-- Where the byte at plain index `j` stands in the shuffled stream.
abbrev pub shuffled_index : ℕ → ℕ → ℕ → ℕ
shuffled_index n s j = if ltb j (n / s * s) then j % s * (n / s) + j / s else j

quotient-lt' : (j c s : ℕ) → j < c * s → j / s < c
quotient-lt' j c s h = grind arith

swapped-div : (q r c s : ℕ) → q < c → (r * c + q) / c ≡ r
swapped-div q r c s h = grind arith

swapped-mod : (q r c s : ℕ) → q < c → (r * c + q) % c ≡ q
swapped-mod q r c s h = grind arith

pub plain_index-shuffled_index :
    (n s j : ℕ)
    → 0 < s
    → j < n
    → (shuffled_index n s j < n) × (plain_index n s (shuffled_index n s j) ≡ j)
unfolding plain_index
plain_index-shuffled_index n s j pos h = elim (Bool-cases (ltb j (n / s * s))) [
  | inl inside ↦
      let h' = ltb→lt _ _ inside in
      let row : j / s < n / s = quotient-lt' j (n / s) s h' in
      let fits : j % s * (n / s) + j / s < n / s * s =
        cell-lt (j % s) (j / s) s (n / s) (n / s * s) (grind arith) row (grind arith) in
      rw inside (
        let inv : n / s * s ≤ n = grind arith in omega (arith, fits),
        rw
            (
              lt→ltb _ _ fits,
              swapped-mod (j / s) (j % s) (n / s) s row,
              swapped-div (j / s) (j % s) (n / s) s row,
            )
            (grind arith),
      )
  | inr outside ↦ rw (outside, outside) (h, refl)
]
