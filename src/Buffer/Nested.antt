-- ===== src/Buffer/Nested.antt =====
-- A write to the start of a subspan is a write to the buffer.
use mmxisf.Base.{
  ℕ, zero, suc, ◌+◌, ◌-◌, ◌≤◌, ◌≡◌, refl, sym, ap, ◌∙◌, [], ◌∷◌, arith, length, take, drop,
}
use mmxisf.Base.Text.{Bytes}
use mmxisf.Buffer.{subspan, splice}

splice-take_self : (c : ℕ) (bytes : Bytes) → splice bytes 0 (take c bytes) ≡ bytes
splice-take_self c [] = refl
splice-take_self zero (b ∷ bs) = refl
splice-take_self (suc c) (b ∷ bs) = ap (◌∷◌ b) (splice-take_self c bs)

splice-splice-take :
    (bytes piece : Bytes) (c : ℕ)
    → length piece ≤ c
    → splice bytes 0 (splice (take c bytes) 0 piece) ≡ splice bytes 0 piece
splice-splice-take [] piece c h = refl
splice-splice-take (b ∷ bs) [] zero h = refl
splice-splice-take (b ∷ bs) (p ∷ ps) zero h = absurd (omega arith)
splice-splice-take (b ∷ bs) [] (suc c) h = ap (◌∷◌ b) (splice-take_self c bs)
splice-splice-take (b ∷ bs) (p ∷ ps) (suc c) h =
    ap (◌∷◌ p) (splice-splice-take bs ps c (omega arith))

pub splice-splice-subspan :
    (bytes piece : Bytes) (offset count : ℕ)
    → length piece ≤ count
    → splice bytes offset (splice (subspan bytes offset count) 0 piece) ≡ splice bytes offset piece
splice-splice-subspan [] piece offset count h = refl
splice-splice-subspan (b ∷ bs) piece zero count h = splice-splice-take (b ∷ bs) piece count h
splice-splice-subspan (b ∷ bs) piece (suc offset) count h =
    ap (◌∷◌ b) (splice-splice-subspan bs piece offset count h)

take-nil : (n : ℕ) → take {A = ℕ} n [] ≡ []
take-nil zero = refl
take-nil (suc n) = refl

drop-take : (a n : ℕ) (bytes : Bytes) → drop a (take n bytes) ≡ take (n - a) (drop a bytes)
drop-take zero n bytes = rw (minus_zero n) refl
  where
    minus_zero : (n : ℕ) → n - 0 ≡ n
    minus_zero n = omega arith
drop-take (suc a) zero [] = sym (take-nil (zero - suc a))
drop-take (suc a) zero (b ∷ bs) = let e : zero - suc a ≡ 0 = omega arith in rw e refl
drop-take (suc a) (suc n) [] = sym (take-nil (suc n - suc a))
drop-take (suc a) (suc n) (b ∷ bs) =
    let e : suc n - suc a ≡ n - a = omega arith in rw e (drop-take a n bs)

take-take : (m n : ℕ) (bytes : Bytes) → m ≤ n → take m (take n bytes) ≡ take m bytes
take-take zero n bytes h = refl
take-take (suc m) zero bytes h = absurd (omega arith)
take-take (suc m) (suc n) [] h = refl
take-take (suc m) (suc n) (b ∷ bs) h = ap (◌∷◌ b) (take-take m n bs (omega arith))

drop-nil : (b : ℕ) → drop {A = ℕ} b [] ≡ []
drop-nil zero = refl
drop-nil (suc b) = refl

pub drop-drop : (a b : ℕ) (bytes : Bytes) → drop (a + b) bytes ≡ drop b (drop a bytes)
drop-drop zero b bytes = ap (λ k. drop k bytes) (omega arith)
drop-drop (suc a) b [] = let e : suc a + b ≡ suc (a + b) = omega arith in rw e (sym (drop-nil b))
drop-drop (suc a) b (c ∷ bytes) =
    let e : suc a + b ≡ suc (a + b) = omega arith in rw e (drop-drop a b bytes)

-- A span of a span.
pub subspan-subspan :
    (base size total read : ℕ) (bytes : Bytes)
    → total + read ≤ size
    → subspan (subspan bytes base size) total read ≡ subspan bytes (base + total) read
subspan-subspan base size total read bytes h =
    ap (take read) (drop-take total size (drop base bytes))
    ∙ take-take read (size - total) (drop total (drop base bytes)) (omega arith)
    ∙ ap (take read) (sym (drop-drop base total bytes))

pub splice-all : (bytes piece : Bytes) → length piece ≡ length bytes → splice bytes 0 piece ≡ piece
splice-all [] [] h = refl
splice-all [] (p ∷ ps) h = absurd (omega arith)
splice-all (b ∷ bs) [] h = absurd (omega arith)
splice-all (b ∷ bs) (p ∷ ps) h = ap (◌∷◌ p) (splice-all bs ps (omega arith))

pub take-splice :
    (bytes piece : Bytes)
    → length piece ≤ length bytes
    → take (length piece) (splice bytes 0 piece) ≡ piece
take-splice bytes [] h = refl
take-splice [] (p ∷ ps) h = absurd (omega arith)
take-splice (b ∷ bs) (p ∷ ps) h = ap (◌∷◌ p) (take-splice bs ps (omega arith))
