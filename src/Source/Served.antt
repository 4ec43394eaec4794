-- ===== src/Source/Served.antt =====
-- What `read_exact` returns from a source that serves its contents.
use mmxisf.Base.{
  ℕ, ◌+◌, ◌-◌, ◌≤◌, ◌<◌, ◌≡◌, sym, ap, ap₂, ◌∙◌, inl, inr, List, [], ◌∷◌, arith, ltb, ge→ltb,
  Bool-cases, length, drop, length-take,
}
use mmxisf.Base.Text.{Bytes}
use mmxisf.Base.Error.{Result, ok, err}
use mmxisf.Word.{u64_max}
use mmxisf.Buffer.{subspan, splice, length-subspan}
use mmxisf.Buffer.Nested.{splice-splice-subspan, subspan-subspan}
use mmxisf.Source.{
  ByteSource, Serves, Stored, checked_read, read_span, exact_round, read_exact, fill_loop,
}
use mmxisf.Source.Exact.{IsFaithful, IsProgress, fill_loop-input, fill_loop-fuel}

checked_read-progress :
    (available read : ℕ) (result : Result ℕ) → checked_read available result ≡ ok read → 0 < read
checked_read-progress available read (err e) h = cc
checked_read-progress available read (ok a) h = ground arith

checked_read-ok :
    (available read : ℕ) → 0 < read → read ≤ available → checked_read available (ok read) ≡ ok read
checked_read-ok available read h k = ground arith

pub read_span-progress :
    (source : ByteSource) (path : List ℕ) (offset total count : ℕ) (destination filled : Bytes)
    (read : ℕ)
    → read_span source path offset total count destination ≡ (ok read, filled)
    → 0 < read
unfolding read_span
read_span-progress source path offset total count destination filled read h =
    checked_read-progress count read
      (source.read_at path offset (subspan destination total count)).0 (ap (λ run. run.0) h)

module _ (source : ByteSource) (contents : Bytes) (serves : Serves source contents) where
  -- A call inside the contents stores bytes of them behind those that the buffer has.
  pub read_span-Stored :
      (path : List ℕ) (base total count : ℕ) (input buffer : Bytes)
      → Stored contents base input
      → length buffer ≡ length input
      → 0 < count
      → total + count ≤ length input
      → (read : ℕ) × (0 < read)
        × (read ≤ count)
        × (read_span source path (base + total) total count buffer
            ≡ (ok read, splice buffer total (subspan input total read)))
  unfolding read_span
  read_span-Stored path base total count input buffer stored same pos fits =
      let size : length (subspan buffer total count) ≡ count =
        length-subspan buffer total count (omega arith) in
      let (read, some_read, inside, reads) =
        serves path (base + total) (subspan buffer total count) (omega (arith, size))
          (omega (arith, size, stored.0)) in
      let piece = subspan contents (base + total) read in
      let stands : subspan input total read ≡ piece =
        ap (λ bytes. subspan bytes total read) (sym stored.1)
        ∙ subspan-subspan base (length input) total read contents (omega (arith, size)) in
      let short : length piece ≤ count =
        omega (arith, size, length-take read (drop (base + total) contents)) in
      (
        read,
        some_read,
        omega (arith, size),
        rw reads (
            ap₂ (λ a b. (a, b)) (checked_read-ok count read some_read (omega (arith, size)))
              (splice-splice-subspan buffer piece total count short
                ∙ ap (splice buffer total) (sym stands))),
      )

pub exact_round-IsProgress :
    (source : ByteSource) (offset : ℕ) → IsProgress (exact_round source offset)
unfolding exact_round
exact_round-IsProgress source offset total buffer filled read h =
    elim (Bool-cases (ltb (u64_max - total) offset)) [
      | inl out ↦ cc (rw out at h)
      | inr inside ↦
          read_span-progress source (total ∷ []) (offset + total) total (length buffer - total)
            buffer filled read (rw inside at h)
    ]

-- More fuel does not change `read_exact`: the loop has ended.
pub read_exact-fuel :
    (source : ByteSource) (offset extra : ℕ) (destination : Bytes)
    → fill_loop
        (exact_round source offset)
        (length destination)
        (length destination + extra)
        0
        destination
      ≡ read_exact source offset destination
unfolding read_exact
read_exact-fuel source offset extra destination =
    fill_loop-fuel (exact_round source offset) (length destination) (length destination + extra)
      (length destination) 0 destination (exact_round-IsProgress source offset) (omega arith)
      (omega arith)

pub read_exact-Stored :
    (source : ByteSource) (contents : Bytes) (base : ℕ) (input destination : Bytes)
    → Serves source contents
    → length contents ≤ u64_max
    → Stored contents base input
    → length destination ≡ length input
    → read_exact source base destination ≡ (ok (length input), input)
unfolding read_exact exact_round
read_exact-Stored source contents base input destination serves small stored same =
    rw same (fill_loop-input input (exact_round source base) destination faithful same)
  where
    faithful : IsFaithful input (exact_round source base)
    faithful total buffer more full =
        let (read, pos, inside, reads) =
          read_span-Stored source contents serves (total ∷ []) base total (length buffer - total)
            input buffer stored full (omega arith) (omega arith) in
        (read, pos, omega arith, rw (ge→ltb (u64_max - total) base (omega (arith, stored.0))) reads)
