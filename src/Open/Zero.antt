-- ===== src/Open/Zero.antt =====
-- The space between the attached ranges is filled with zeros when it is accepted.
use mmxisf.Base.{
  ℕ, zero, suc, ◌+◌, ◌-◌, ◌≤◌, ◌<◌, min, ◌≡◌, refl, sym, ap, ◌∙◌, subst, ◌⊎◌, inl, inr, Bool, true,
  not, List, [], ◌∷◌, arith, ltb, if◌then◌else◌, ltb→lt, lt→ltb, Bool-cases, length, get_or, take,
  drop, all, All, length-take, length-replicate,
}
use mmxisf.Base.Index.{get_or-drop}
use mmxisf.Base.Text.{Bytes}
use mmxisf.Base.Error.{invalid_block, Result, ok, >>=-eq-ok, reject_if-eq-ok, ok-injective}
use mmxisf.Word.{u64_max, u64}
use mmxisf.Buffer.{subspan, splice, length-splice, length-subspan, get_or-take}
use mmxisf.Buffer.Nested.{take-splice}
use mmxisf.Document.{ReaderOptions}
use mmxisf.Source.{ByteSource, Serves, below_call}
use mmxisf.Source.Served.{read_exact-Stored}
use mmxisf.Header.{AttachedRange}
use mmxisf.Header.Checked.{Covered}
use mmxisf.Open.{
  gap_buffer_bytes, is_zero, gap_loop, GapState, validate_gap, validate_gaps,
  validate_unused_spaces,
}

all_zero : (bytes : Bytes) (j : ℕ) → all is_zero bytes ≡ true → get_or bytes j 0 ≡ 0
all_zero [] j h = refl
all_zero (b ∷ bs) zero h = ground arith
all_zero (b ∷ bs) (suc j) h = all_zero bs j (ground arith)

chunk_bounds :
    (size checked : ℕ)
    → checked < size
    → (0 < min gap_buffer_bytes (size - checked))
      × (min gap_buffer_bytes (size - checked) ≤ gap_buffer_bytes)
      × (checked + min gap_buffer_bytes (size - checked) ≤ size)
chunk_bounds size checked h = ground arith

module _ (source : ByteSource) (contents : Bytes) (serves : Serves source contents)
    (small : length contents ≤ u64_max) (offset size : ℕ)
    (inside : offset + size ≤ length contents) where
  gap_loop-zero :
      (fuel checked : ℕ) (buffer : Bytes) {kept : Bytes}
      → size ≤ checked + fuel
      → length buffer ≡ gap_buffer_bytes
      → gap_loop source offset size fuel checked buffer ≡ ok kept
      → (length kept ≡ gap_buffer_bytes)
        × ((j : ℕ) → offset + checked ≤ j → j < offset + size → get_or contents j 0 ≡ 0)
  unfolding gap_loop
  gap_loop-zero zero checked buffer enough same h = (
    subst (λ b. length b ≡ gap_buffer_bytes) (ok-injective h) same,
    λ j p q. absurd (omega arith),
  )
  gap_loop-zero (suc fuel) checked buffer enough same h = elim (Bool-cases (ltb checked size)) [
    | inr done ↦ (
      subst (λ b. length b ≡ gap_buffer_bytes) (ok-injective (rw done at h)) same,
      λ j p q. absurd (ground arith),
    )
    | inl more ↦
        let (pos, within, end) = chunk_bounds size checked (ltb→lt checked size more) in
        let chunk = min gap_buffer_bytes (size - checked) in
        let piece = subspan contents (offset + checked) chunk in
        let piece_size : length piece ≡ chunk =
          length-subspan contents (offset + checked) chunk (omega arith) in
        let first_size : length (take chunk buffer) ≡ length piece =
          omega (arith, piece_size, same, length-take chunk buffer) in
        let reads =
          read_exact-Stored (below_call checked source) contents (offset + checked) piece
            (take chunk buffer) (λ path. serves (checked ∷ path)) small
            (omega (arith, piece_size), ap (subspan contents (offset + checked)) piece_size)
            first_size in
        let filled = splice buffer 0 piece in
        let (clear, loops) =
          reject_if-eq-ok (not (all is_zero (take chunk filled))) invalid_block
            "Unused monolithic file space must be zero-filled"
            (gap_loop source offset size fuel (checked + chunk) filled) (rw (more, reads) at h) in
        let (kept_size, later) =
          gap_loop-zero fuel (checked + chunk) filled (omega arith)
            (length-splice buffer 0 piece ∙ same) loops in
        let stands : take chunk filled ≡ piece =
          ap (λ n. take n filled) (sym piece_size)
          ∙ take-splice buffer piece (omega (arith, piece_size, same)) in
        (
          kept_size,
          λ j p q. elim (Bool-cases (ltb j (offset + (checked + chunk)))) [
            | inr behind ↦ later j (ground arith) q
            | inl here ↦
                zero_at (offset + checked) chunk j p (ground arith)
                  (ground (arith, ap (all is_zero) stands))
          ],
        )
  ]
    where
      zero_at :
          (base count j : ℕ)
          → base ≤ j
          → j < base + count
          → all is_zero (subspan contents base count) ≡ true
          → get_or contents j 0 ≡ 0
      zero_at base count j p q h =
          let e : base + (j - base) ≡ j = omega arith in
          ap (λ i. get_or contents i 0) (sym e)
          ∙ sym (get_or-drop base (j - base) contents 0)
          ∙ sym (get_or-take count (j - base) (drop base contents) (omega arith))
          ∙ all_zero (subspan contents base count) (j - base) h

validate_gap-zero :
    (source : ByteSource) (contents : Bytes) (options : ReaderOptions) (offset size : ℕ)
    (state : GapState) {validated : GapState}
    → Serves source contents
    → length contents ≤ u64_max
    → offset + size ≤ length contents
    → length state.buffer ≡ gap_buffer_bytes
    → validate_gap source options offset size state ≡ ok validated
    → (length validated.buffer ≡ gap_buffer_bytes)
      × ((j : ℕ) → offset ≤ j → j < offset + size → get_or contents j 0 ≡ 0)
unfolding validate_gap
validate_gap-zero source contents options offset size state {validated} serves small inside same h =
    let (buffer, loops, kept) = parts h in
    let (kept_size, clear) =
      gap_loop-zero source contents serves small offset size inside size 0 state.buffer
        (omega arith) same loops in
    (ap (λ b. length b) (sym kept) ∙ kept_size, λ j p q. clear j (omega arith) q)
  where
    parts :
        validate_gap source options offset size state ≡ ok validated
        → (buffer : Bytes) × (gap_loop source offset size size 0 state.buffer ≡ ok buffer)
          × (buffer ≡ validated.buffer)
    parts h = ground arith

abbrev pub IsWithin : ℕ → List AttachedRange → Type 0
IsWithin file_size ranges = All (λ range. range.offset + range.size ≤ file_size) ranges

-- From the start of a range on, a byte is in the range or behind it.
beyond :
    (range : AttachedRange) (ranges : List AttachedRange) (contents : Bytes) (j : ℕ)
    → (u64 (range.offset + range.size) ≤ j → Covered ranges j ⊎ (get_or contents j 0 ≡ 0))
    → range.offset ≤ j
    → Covered (range ∷ ranges) j ⊎ (get_or contents j 0 ≡ 0)
beyond range ranges contents j later reached =
    elim (Bool-cases (ltb j (range.offset + range.size))) [
      | inl here ↦ inl (inl (reached, ltb→lt _ _ here))
      | inr behind ↦ elim (later (ground arith)) [
        | inl covered ↦ inl (inr covered)
        | inr clear ↦ inr clear
      ]
    ]

module _ (source : ByteSource) (contents : Bytes) (serves : Serves source contents)
    (small : length contents ≤ u64_max) (options : ReaderOptions) where
  validate_gaps-zero :
      (ranges : List AttachedRange) (round cursor : ℕ) (state : GapState) {valid : Bool}
      → IsWithin (length contents) ranges
      → length state.buffer ≡ gap_buffer_bytes
      → validate_gaps source options (length contents) ranges round cursor state ≡ ok valid
      → (j : ℕ) → cursor ≤ j
      → j < length contents
      → Covered ranges j ⊎ (get_or contents j 0 ≡ 0)
  unfolding validate_gaps
  validate_gaps-zero [] round cursor state within same h j p q =
      let (validated, gap, done) =
        >>=-eq-ok
          (validate_gap (below_call round source) options cursor (length contents - cursor) state)
          (λ valid. ok true) (rw (lt→ltb cursor (length contents) (omega arith)) at h) in
      let (kept, clear) =
        validate_gap-zero (below_call round source) contents options cursor
          (length contents - cursor) state (λ path. serves (round ∷ path)) small (omega arith) same
          gap in
      inr (clear j p (omega arith))
  validate_gaps-zero (range ∷ ranges) round cursor state (inside, within) same h j p q =
      let (validated, gap, rest) =
        >>=-eq-ok (run (ltb cursor range.offset))
          (validate_gaps source options (length contents) ranges (round + 1)
            (u64 (range.offset + range.size)))
          h in
      elim (Bool-cases (ltb cursor range.offset)) [
        | inl ahead ↦
            let (kept, clear) =
              validate_gap-zero (below_call round source) contents options cursor
                (range.offset - cursor) state (λ path. serves (round ∷ path)) small (ground arith)
                same (rw ahead at gap) in
            elim (Bool-cases (ltb j range.offset)) [
              | inl before ↦ inr (clear j p (ground arith))
              | inr reached ↦
                  beyond range ranges contents j
                    (λ r.
                      validate_gaps-zero ranges (round + 1) (u64 (range.offset + range.size))
                        validated within kept rest j r q)
                    (ground arith)
            ]
        | inr behind ↦
            let kept =
              subst (λ s. length s.buffer ≡ gap_buffer_bytes) (ok-injective (rw behind at gap))
                same in
            beyond range ranges contents j
              (λ r.
                validate_gaps-zero ranges (round + 1) (u64 (range.offset + range.size)) validated
                  within kept rest j r q)
              (ground arith)
      ]
    where
      run : Bool → Result GapState
      run ahead =
          if ahead
          then validate_gap (below_call round source) options cursor (range.offset - cursor) state
          else ok state

-- Between the header and the end of the file, a byte is in an attached range or zero: when the
-- unused space is accepted, and the ranges lie in the file.
pub validate_unused_spaces-zero :
    (source : ByteSource) (contents : Bytes) (header_end : ℕ) (ranges : List AttachedRange)
    (options : ReaderOptions) {valid : Bool}
    → Serves source contents
    → length contents ≤ u64_max
    → IsWithin (length contents) ranges
    → validate_unused_spaces source header_end (length contents) ranges options ≡ ok valid
    → (j : ℕ) → header_end ≤ j
    → j < length contents
    → Covered ranges j ⊎ (get_or contents j 0 ≡ 0)
unfolding validate_unused_spaces
validate_unused_spaces-zero source contents header_end ranges options serves small within h =
    validate_gaps-zero source contents serves small options ranges 0 header_end _ within
      (length-replicate {A = ℕ} gap_buffer_bytes 0) h
