-- ===== src/Pixels/Swap.antt =====
-- `swap_byte_order_in_place` by what each byte becomes, and its inverse.
use mathlib.Core.List.{reverse, reverse-append}
use mmxisf.Base.{
  ℕ, zero, suc, ◌+◌, ◌-◌, ◌*◌, ◌/◌, ◌≤◌, ◌<◌, ◌≡◌, refl, ap, ◌∙◌, ◌⊎◌, inl, inr, ℕ_discrete, true,
  [], ◌∷◌, ◌++◌, arith, ◌==◌, ==_iff, Bool-cases, length, get_or, drop, length-append,
}
use mmxisf.Base.Index.{get_or-drop}
use mmxisf.Base.Text.{Bytes}
use mmxisf.Base.Error.{ok, StopToken, Never}
use mmxisf.Buffer.{
  subspan, splice, length-splice, length-subspan, get_or-splice_inside, get_or-splice_before,
  get_or-splice_after, get_or-take,
}
use mmxisf.Pixels.{swap_loop, swap_byte_order_in_place}

get_or-append_left : (xs ys : Bytes) (i : ℕ) → i < length xs → get_or (xs ++ ys) i 0 ≡ get_or xs i 0
get_or-append_left [] ys i h = absurd (omega arith)
get_or-append_left (x ∷ xs) ys zero h = refl
get_or-append_left (x ∷ xs) ys (suc i) h = get_or-append_left xs ys i (omega arith)

get_or-append_last : (xs : Bytes) (y i : ℕ) → i ≡ length xs → get_or (xs ++ (y ∷ [])) i 0 ≡ y
get_or-append_last [] y zero e = refl
get_or-append_last [] y (suc i) e = absurd (omega arith)
get_or-append_last (x ∷ xs) y zero e = absurd (omega arith)
get_or-append_last (x ∷ xs) y (suc i) e = get_or-append_last xs y i (omega arith)

reverse-cons : (x : ℕ) (xs : Bytes) → reverse (x ∷ xs) ≡ reverse xs ++ (x ∷ [])
reverse-cons x xs = reverse-append (x ∷ []) xs

length-reverse : (xs : Bytes) → length (reverse xs) ≡ length xs
length-reverse [] = refl
length-reverse (x ∷ xs) =
    rw reverse-cons (omega (arith, length-append (reverse xs) (x ∷ []), length-reverse xs))

get_or-reverse :
    (xs : Bytes) (i : ℕ) → i < length xs → get_or (reverse xs) i 0 ≡ get_or xs (length xs - i - 1) 0
get_or-reverse [] i h = absurd (omega arith)
get_or-reverse (x ∷ xs) i h = rw reverse-cons (elim (Bool-cases (i == length xs)) [
  | inl last ↦
      let e : i ≡ length xs = (==_iff _ _).0 last in
      let z : suc (length xs) - i - 1 ≡ 0 = omega arith in
      rw z (get_or-append_last (reverse xs) x i (omega (arith, length-reverse xs)))
  | inr other ↦
      let before : i < length xs = ground arith in
      let z : suc (length xs) - i - 1 ≡ suc (length xs - i - 1) = omega arith in
      rw z (
        get_or-append_left (reverse xs) (x ∷ []) i (omega (arith, length-reverse xs))
        ∙ get_or-reverse xs i before)
])

module _ (destination : Bytes) (begin size : ℕ) (fits : begin + size ≤ length destination) where
  abbrev reversed : Bytes
  reversed = splice destination begin (reverse (subspan destination begin size))

  piece_size : length (reverse (subspan destination begin size)) ≡ size
  piece_size = length-reverse _ ∙ length-subspan destination begin size fits

  reversed_inside :
      (k : ℕ)
      → k < size
      → get_or reversed (begin + k) 0 ≡ get_or destination (begin + (size - k - 1)) 0
  reversed_inside k h =
      get_or-splice_inside destination begin _ k (omega (arith, piece_size))
        (omega (arith, piece_size))
      ∙ get_or-reverse (subspan destination begin size) k
          (omega (arith, length-subspan destination begin size fits))
      ∙ rw (length-subspan destination begin size fits) (
          get_or-take size (size - k - 1) (drop begin destination) (omega arith)
          ∙ get_or-drop begin (size - k - 1) destination 0)

  reversed_outside :
      (j : ℕ) → (j < begin) ⊎ (begin + size ≤ j) → get_or reversed j 0 ≡ get_or destination j 0
  reversed_outside j (inl before) = get_or-splice_before destination begin _ j before
  reversed_outside j (inr behind) =
      get_or-splice_after destination begin _ j (omega (arith, piece_size))

-- `result` has the bytes of `destination` with each component from `lo` up to `hi` reversed.
pub record IsSwapped (size lo hi : ℕ) (destination result : Bytes) : Type 0 where
  pub same_length : length result ≡ length destination
  pub inside :
      (component k : ℕ)
      → lo ≤ component
      → component < hi
      → k < size
      → get_or result (component * size + k) 0
        ≡ get_or destination (component * size + (size - k - 1)) 0
  pub outside :
      (j : ℕ) → (j < lo * size) ⊎ (hi * size ≤ j) → get_or result j 0 ≡ get_or destination j 0

next_row : (a b s : ℕ) → a < b → a * s + s ≤ b * s
next_row a b s h = grind arith

suc_row : (a s : ℕ) → (a + 1) * s ≡ a * s + s
suc_row a s = grind arith

module _ (stop : StopToken) (never : Never stop) (size : ℕ) where
  swap_loop-IsSwapped :
      (left lo hi : ℕ) (destination : Bytes)
      → lo + left ≡ hi
      → hi * size ≤ length destination
      → (result : Bytes) × (swap_loop stop size left lo destination ≡ (true, result))
        × IsSwapped size lo hi destination result
  unfolding swap_loop
  swap_loop-IsSwapped zero lo hi destination end fits = (
    destination,
    refl,
    record {
      same_length = refl;
      inside = λ c k p q h. absurd (omega arith);
      outside = λ j h. refl;
    },
  )
  swap_loop-IsSwapped (suc left) lo hi destination end fits =
      let row = next_row lo hi size (omega arith) in
      let here : lo * size + size ≤ length destination = omega arith in
      let next = reversed destination (lo * size) size here in
      let (result, runs, rest) = swap_loop-IsSwapped left (lo + 1) hi next (omega arith) (
        rw (length-splice destination (lo * size) (reverse (subspan destination (lo * size) size)))
          fits) in
      (
        result,
        ground (arith, never (lo ∷ [])),
        record {
          same_length = rest.same_length ∙ length-splice destination (lo * size) _;
          inside = λ c k p q h. elim (ℕ_discrete lo c) [
            | yes same ↦ rw (← same) (
                rest.outside (lo * size + k) (inl (omega (arith, suc_row lo size)))
                ∙ reversed_inside destination (lo * size) size here k h)
            | no later ↦
                rest.inside c k (omega arith) q h
                ∙ reversed_outside destination (lo * size) size here (c * size + (size - k - 1))
                    (inr (omega (arith, next_row lo c size (omega arith))))
          ];
          outside = λ j h. elim h [
            | inl before ↦
                rest.outside j (inl (omega (arith, suc_row lo size)))
                ∙ reversed_outside destination (lo * size) size here j (inl before)
            | inr behind ↦
                rest.outside j (inr behind)
                ∙ reversed_outside destination (lo * size) size here j (inr (omega arith))
          ];
        },
      )

whole_fits : (n size : ℕ) → n / size * size ≤ n
whole_fits n size = grind arith

-- Swapping in place reverses every whole component and leaves the bytes behind the last one, when
-- stop is never requested.
pub swap_byte_order-IsSwapped :
    (destination : Bytes) (size : ℕ) (stop : StopToken)
    → Never stop
    → (result : Bytes) × (swap_byte_order_in_place destination size stop
        ≡ (ok (length destination), result))
      × IsSwapped size 0 (length destination / size) destination result
unfolding swap_byte_order_in_place
swap_byte_order-IsSwapped destination size stop never =
    let (result, runs, swapped) =
      swap_loop-IsSwapped stop never size (length destination / size) 0 (length destination / size)
        destination (omega arith) (whole_fits (length destination) size) in
    (result, rw runs (ap (λ n. (ok n, result)) swapped.same_length), swapped)
