-- ===== src/Source/Exact.antt =====
-- The read loop ends, and what it leaves in the buffer.
use mmxisf.Base.{
  ℕ, zero, suc, ◌+◌, ◌≤◌, ◌<◌, ◌≡◌, refl, ap, ◌∙◌, inl, inr, arith, ltb, if◌then◌else◌, ge→ltb,
  Bool-cases, length,
}
use mmxisf.Base.Text.{Bytes}
use mmxisf.Base.Error.{Result, ok, err}
use mmxisf.Buffer.{
  subspan, splice, then_with, Restores, Restores-trans, Restores-eq, splice-Restores, length-splice,
}
use mmxisf.Source.{fill_loop}

-- Every round that returns has read a byte.
abbrev pub IsProgress : (ℕ → Bytes → Result ℕ × Bytes) → Type 0
IsProgress round =
    (total : ℕ) (buffer filled : Bytes) (read : ℕ)
    → round total buffer ≡ (ok read, filled)
    → 0 < read

then_with-eq :
    (m : Result ℕ × Bytes) (f g : ℕ → Bytes → Result ℕ × Bytes)
    → ((read : ℕ) (filled : Bytes) → m ≡ (ok read, filled) → f read filled ≡ g read filled)
    → then_with m f ≡ then_with m g
then_with-eq (ok a, bytes) f g h = h a bytes refl
then_with-eq (err e, bytes) f g h = refl

-- The loop has ended when the fuel has: any fuel of at least the bytes to read gives the same run.
pub fill_loop-fuel :
    (round : ℕ → Bytes → Result ℕ × Bytes) (size fuel other total : ℕ) (buffer : Bytes)
    → IsProgress round
    → size ≤ total + fuel
    → size ≤ total + other
    → fill_loop round size fuel total buffer ≡ fill_loop round size other total buffer
unfolding fill_loop
fill_loop-fuel round size zero zero total buffer progress h k = refl
fill_loop-fuel round size zero (suc other) total buffer progress h k =
    rw (ge→ltb total size (omega arith)) refl
fill_loop-fuel round size (suc fuel) zero total buffer progress h k =
    rw (ge→ltb total size (omega arith)) refl
fill_loop-fuel round size (suc fuel) (suc other) total buffer progress h k =
    ap (λ run. if ltb total size then run else (ok total, buffer))
      (then_with-eq (round total buffer) _ _ (λ read filled e.
        fill_loop-fuel round size fuel other (total + read) filled progress
          (omega (arith, progress total buffer filled read e))
          (omega (arith, progress total buffer filled read e))))

-- A round that stores the bytes of `input` behind those that it has.
abbrev pub IsFaithful : Bytes → (ℕ → Bytes → Result ℕ × Bytes) → Type 0
IsFaithful input round =
    (total : ℕ) (buffer : Bytes)
    → total < length input
    → length buffer ≡ length input
    → (read : ℕ) × (0 < read)
      × (total + read ≤ length input)
      × (round total buffer ≡ (ok read, splice buffer total (subspan input total read)))

abbrev id : ℕ → ℕ
id g = g

fill_loop-Restores :
    (input : Bytes) (round : ℕ → Bytes → Result ℕ × Bytes) (fuel total : ℕ) (buffer : Bytes)
    → IsFaithful input round
    → length input ≤ total + fuel
    → total ≤ length input
    → length buffer ≡ length input
    → (result : Bytes) × (fill_loop round (length input) fuel total buffer
        ≡ (ok (length input), result))
      × Restores input id total (length input) buffer result
unfolding fill_loop
fill_loop-Restores input round zero total buffer faithful h fits same = (
  buffer,
  ap (λ n. (ok n, buffer)) (omega arith),
  record { same_length = same; kept = λ j a. a; placed = λ g p q. absurd (omega arith) },
)
fill_loop-Restores input round (suc fuel) total buffer faithful h fits same =
    elim (Bool-cases (ltb total (length input))) [
      | inr done ↦ (
        buffer,
        rw done (ap (λ n. (ok n, buffer)) (ground arith)),
        record { same_length = same; kept = λ j a. a; placed = λ g p q. absurd (ground arith) },
      )
      | inl more ↦
          let (read, pos, inside, runs) = faithful total buffer (ground arith) same in
          let filled = splice buffer total (subspan input total read) in
          let (result, loops, others) =
            fill_loop-Restores input round fuel (total + read) filled faithful (omega arith) inside
              (length-splice buffer total (subspan input total read) ∙ same) in
          (
            result,
            rw (more, runs) loops,
            Restores-trans (total + read) (splice-Restores input buffer total read inside same)
                others,
          )
    ]

-- A loop of faithful rounds fills the buffer with the input.
pub fill_loop-input :
    (input : Bytes) (round : ℕ → Bytes → Result ℕ × Bytes) (buffer : Bytes)
    → IsFaithful input round
    → length buffer ≡ length input
    → fill_loop round (length input) (length input) 0 buffer ≡ (ok (length input), input)
fill_loop-input input round buffer faithful same =
    let (result, runs, restores) =
      fill_loop-Restores input round (length input) 0 buffer faithful (omega arith) (omega arith)
        same in
    runs ∙ ap (λ bytes. (ok (length input), bytes)) (Restores-eq (λ j h. (j, h, refl)) restores)
