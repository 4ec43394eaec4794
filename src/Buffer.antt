-- ===== src/Buffer.antt =====
-- Destination buffers that are filled piece by piece: spans into them, and the statement that a
-- step has put the right bytes at some places and kept those that stand right already.
pub mod Run
pub mod Nested
use mmxisf.Base.{
  ℕ, zero, suc, ◌+◌, ◌-◌, ◌≤◌, ◌<◌, ◌≡◌, refl, ap, ◌∙◌, subst, inl, inr, [], ◌∷◌, arith, ltb,
  ltb→lt, Bool-cases, length, get_or, take, drop, length-take, length-drop,
}
use mmxisf.Base.Index.{list_ext, get_or-drop}
use mmxisf.Base.Text.{Bytes}
use mmxisf.Base.Error.{Result, ok, err, ◌>>=◌, ◌>>◌}

-- `std::span::subspan(offset, count)`
abbrev pub subspan : Bytes → ℕ → ℕ → Bytes
subspan bytes offset count = take count (drop offset bytes)

-- The buffer whose subspan at `offset` has been overwritten by `piece`.
abbrev pub splice : Bytes → ℕ → Bytes → Bytes
splice [] offset piece = []
splice (b ∷ bs) zero [] = b ∷ bs
splice (b ∷ bs) zero (c ∷ cs) = c ∷ splice bs zero cs
splice (b ∷ bs) (suc offset) piece = b ∷ splice bs offset piece

-- `std::vector<std::byte>::resize`
abbrev pub resize : ℕ → Bytes → Bytes
resize zero bytes = []
resize (suc n) [] = 0 ∷ resize n []
resize (suc n) (b ∷ bs) = b ∷ resize n bs

-- A function that writes through a span returns the span's bytes beside its result.
abbrev pub then_with {ℓ κ} :
    {A : Type ℓ} {B : Type κ} → Result A × Bytes → (A → Bytes → Result B × Bytes) → Result B × Bytes
then_with (ok a, bytes) f = f a bytes
then_with (err e, bytes) f = (err e, bytes)

pub length-resize : (n : ℕ) (bytes : Bytes) → length (resize n bytes) ≡ n
length-resize zero bytes = refl
length-resize (suc n) [] = ap suc (length-resize n [])
length-resize (suc n) (b ∷ bs) = ap suc (length-resize n bs)

pub length-splice :
    (bytes : Bytes) (offset : ℕ) (piece : Bytes) → length (splice bytes offset piece) ≡ length bytes
length-splice [] offset piece = refl
length-splice (b ∷ bs) zero [] = refl
length-splice (b ∷ bs) zero (c ∷ cs) = ap suc (length-splice bs zero cs)
length-splice (b ∷ bs) (suc offset) piece = ap suc (length-splice bs offset piece)

pub length-subspan :
    (bytes : Bytes) (offset count : ℕ)
    → offset + count ≤ length bytes
    → length (subspan bytes offset count) ≡ count
length-subspan bytes offset count h =
    omega (arith, length-take count (drop offset bytes), length-drop offset bytes)

pub get_or-splice_inside :
    (bytes : Bytes) (offset : ℕ) (piece : Bytes) (k : ℕ)
    → k < length piece
    → offset + length piece ≤ length bytes
    → get_or (splice bytes offset piece) (offset + k) 0 ≡ get_or piece k 0
get_or-splice_inside [] offset piece k h fits = absurd (omega arith)
get_or-splice_inside (b ∷ bs) zero [] k h fits = absurd (omega arith)
get_or-splice_inside (b ∷ bs) zero (c ∷ cs) zero h fits = refl
get_or-splice_inside (b ∷ bs) zero (c ∷ cs) (suc k) h fits =
    let e : 0 + suc k ≡ suc (0 + k) = omega arith in
    rw e (get_or-splice_inside bs zero cs k (omega arith) (omega arith))
get_or-splice_inside (b ∷ bs) (suc offset) piece k h fits =
    let e : suc offset + k ≡ suc (offset + k) = omega arith in
    rw e (get_or-splice_inside bs offset piece k h (omega arith))

pub get_or-splice_before :
    (bytes : Bytes) (offset : ℕ) (piece : Bytes) (j : ℕ)
    → j < offset
    → get_or (splice bytes offset piece) j 0 ≡ get_or bytes j 0
get_or-splice_before [] offset piece j h = refl
get_or-splice_before (b ∷ bs) zero piece j h = absurd (omega arith)
get_or-splice_before (b ∷ bs) (suc offset) piece zero h = refl
get_or-splice_before (b ∷ bs) (suc offset) piece (suc j) h =
    get_or-splice_before bs offset piece j (omega arith)

pub get_or-splice_after :
    (bytes : Bytes) (offset : ℕ) (piece : Bytes) (j : ℕ)
    → offset + length piece ≤ j
    → get_or (splice bytes offset piece) j 0 ≡ get_or bytes j 0
get_or-splice_after [] offset piece j h = refl
get_or-splice_after (b ∷ bs) zero [] j h = refl
get_or-splice_after (b ∷ bs) zero (c ∷ cs) zero h = absurd (omega arith)
get_or-splice_after (b ∷ bs) zero (c ∷ cs) (suc j) h =
    get_or-splice_after bs zero cs j (omega arith)
get_or-splice_after (b ∷ bs) (suc offset) piece zero h = absurd (omega arith)
get_or-splice_after (b ∷ bs) (suc offset) piece (suc j) h =
    get_or-splice_after bs offset piece j (omega arith)

pub get_or-take : (n i : ℕ) (bytes : Bytes) → i < n → get_or (take n bytes) i 0 ≡ get_or bytes i 0
get_or-take zero i bytes h = absurd (omega arith)
get_or-take (suc n) i [] h = refl
get_or-take (suc n) zero (b ∷ bs) h = refl
get_or-take (suc n) (suc i) (b ∷ bs) h = get_or-take n i bs (omega arith)

-- The bytes of both buffers at `j` are the same.
abbrev pub Agree : Bytes → Bytes → ℕ → Type 0
Agree out input j = get_or out j 0 ≡ get_or input j 0

-- `out` has become `out'`, which keeps what agreed with `input`, and agrees with it at the places
-- of the stream's bytes from `lo` up to `hi`.
pub record Restores (input : Bytes) (place : ℕ → ℕ) (lo hi : ℕ) (out out' : Bytes) : Type 0 where
  pub same_length : length out' ≡ length input
  pub kept : (j : ℕ) → Agree out input j → Agree out' input j
  pub placed : (g : ℕ) → lo ≤ g → g < hi → Agree out' input (place g)

module _ {input : Bytes} {place : ℕ → ℕ} where
  pub Restores-trans :
      (mid : ℕ) {lo hi : ℕ} {a b c : Bytes}
      → Restores input place lo mid a b
      → Restores input place mid hi b c
      → Restores input place lo hi a c
  Restores-trans mid r s = record {
    same_length = s.same_length;
    kept = λ j h. s.kept j (r.kept j h);
    placed = λ g p q. elim (Bool-cases (ltb g mid)) [
      | inl before ↦ s.kept _ (r.placed g p (ltb→lt _ _ before))
      | inr after ↦ s.placed g (ground arith) q
    ];
  }

  -- A buffer restored at every place that reaches it is the input.
  pub Restores-eq :
      {out out' : Bytes}
      → ((j : ℕ) → j < length input → (g : ℕ) × (g < length input) × (place g ≡ j))
      → Restores input place 0 (length input) out out'
      → out' ≡ input
  Restores-eq {out'} onto r = list_ext 0 out' input r.same_length λ j h.
      let (g, inside, at) = onto j (subst (λ n. j < n) r.same_length h) in
      rw at at (r.placed g (omega arith) inside)

-- Overwriting a subspan by the input's bytes there restores them.
pub splice-Restores :
    (input out : Bytes) (offset count : ℕ)
    → offset + count ≤ length input
    → length out ≡ length input
    → Restores input
        (λ g. g)
        offset
        (offset + count)
        out
        (splice out offset (subspan input offset count))
splice-Restores input out offset count fits same = record {
  same_length = length-splice out offset _ ∙ same;
  kept = keep;
  placed = inside;
}
  where
    piece : Bytes
    piece = subspan input offset count

    size : length piece ≡ count
    size = length-subspan input offset count fits

    at : (k : ℕ) → k < count → Agree (splice out offset piece) input (offset + k)
    at k h =
        get_or-splice_inside out offset piece k (omega (arith, size)) (omega (arith, size))
        ∙ get_or-take count k (drop offset input) h
        ∙ get_or-drop offset k input 0

    inside : (g : ℕ) → offset ≤ g → g < offset + count → Agree (splice out offset piece) input g
    inside g p q =
        let e : offset + (g - offset) ≡ g = omega arith in rw e at (at (g - offset) (omega arith))

    keep : (j : ℕ) → Agree out input j → Agree (splice out offset piece) input j
    keep j a = elim (Bool-cases (ltb j offset)) [
      | inl before ↦ get_or-splice_before out offset piece j (ltb→lt _ _ before) ∙ a
      | inr reached ↦ elim (Bool-cases (ltb j (offset + count))) [
        | inl within ↦ inside j (ground arith) (ltb→lt _ _ within)
        | inr behind ↦ get_or-splice_after out offset piece j (ground (arith, size)) ∙ a
      ]
    ]
