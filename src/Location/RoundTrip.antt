-- ===== src/Location/RoundTrip.antt =====
-- Printed geometries and attachment locations are read back.
use mmxisf.Base.{
  ℕ, ◌+◌, ◌^◌, ◌≤◌, ◌<◌, ◌≡◌, sym, ap, ◌∙◌, subst, ◌↔◌, some, List, [], ◌∷◌, ◌++◌, map, arith,
  length, All, length-append, append-nil, snoc-append,
}
use mmxisf.Base.Text.{
  Bytes, codes, strip_prefix, cut, cut-append, strip_prefix-append, split_on, join, Lacks,
  split_on-join,
}
use mmxisf.Base.Error.{ok, ok-injective}
use mmxisf.Number.{parse_unsigned, to_decimal}
use mmxisf.Number.RoundTrip.{parse_unsigned-to_decimal, to_decimal-digits, digits-Lacks}
use mmxisf.Document.{attachment}
use mmxisf.Location.{
  geometry_loop, parse_geometry, parse_attachment, location_behind, parse_location,
}

-- A dimension of an image, or its number of channels.
abbrev pub IsAxis : ℕ → Type 0
IsAxis value = (0 < value) × (value < 2 ^ 64)

decimal-Lacks : (n : ℕ) → Lacks b':' (to_decimal n)
decimal-Lacks n = digits-Lacks b':' (to_decimal n) (ground arith) (to_decimal-digits n)

decimals-Lack : (axes : List ℕ) → All (Lacks b':') (map to_decimal axes)
decimals-Lack [] = tt
decimals-Lack (a ∷ axes) = (decimal-Lacks a, decimals-Lack axes)

geometry_step :
    (token : Bytes) (tokens : List Bytes) (done : List ℕ) (a : ℕ)
    → parse_unsigned token ≡ some a
    → 0 < a
    → length (done ++ (a ∷ [])) ≤ 9
    → geometry_loop (token ∷ tokens) done ≡ geometry_loop tokens (done ++ (a ∷ []))
unfolding geometry_loop
geometry_step token tokens done a e pos le = ground arith

geometry_loop-decimals :
    (axes done : List ℕ)
    → All IsAxis axes
    → length done + length axes ≤ 9
    → geometry_loop (map to_decimal axes) done ≡ ok (done ++ axes)
unfolding geometry_loop
geometry_loop-decimals [] done h le = ap ok (sym (append-nil done))
geometry_loop-decimals (a ∷ axes) done h le =
    geometry_step (to_decimal a) (map to_decimal axes) done a (parse_unsigned-to_decimal a h.0.1)
      h.0.0 (omega (arith, size))
    ∙ geometry_loop-decimals axes (done ++ (a ∷ [])) h.1 (omega (arith, size))
    ∙ ap ok (snoc-append done a axes)
  where
    size : length (done ++ (a ∷ [])) ≡ length done + 1
    size = length-append done (a ∷ [])

parse_unsigned-lt : (text : Bytes) {n : ℕ} → parse_unsigned text ≡ some n → n < 2 ^ 64
unfolding parse_unsigned
parse_unsigned-lt text h = ground arith

-- A round of the loop that does not stop.
geometry_loop-parts :
    (token : Bytes) (tokens : List Bytes) (done : List ℕ) {axes : List ℕ}
    → geometry_loop (token ∷ tokens) done ≡ ok axes
    → (a : ℕ) × (parse_unsigned token ≡ some a)
      × (0 < a)
      × (length (done ++ (a ∷ [])) ≤ 9)
      × (geometry_loop tokens (done ++ (a ∷ [])) ≡ ok axes)
unfolding geometry_loop
geometry_loop-parts token tokens done h = ground arith

All-snoc : (xs : List ℕ) (y : ℕ) → All IsAxis xs → IsAxis y → All IsAxis (xs ++ (y ∷ []))
All-snoc [] y h k = (k, tt)
All-snoc (x ∷ xs) y h k = (h.0, All-snoc xs y h.1 k)

-- The axes that the loop returns, if those it was given are axes.
geometry_loop-IsAxis :
    (tokens : List Bytes) (done : List ℕ) {axes : List ℕ}
    → All IsAxis done
    → length done ≤ 9
    → geometry_loop tokens done ≡ ok axes
    → All IsAxis axes × (length axes ≤ 9)
unfolding geometry_loop
geometry_loop-IsAxis [] done h le e =
    subst (λ axes. All IsAxis axes × (length axes ≤ 9)) (ok-injective e) (h, le)
geometry_loop-IsAxis (token ∷ tokens) done h le e =
    let (a, read, pos, small, rest) = geometry_loop-parts token tokens done e in
    geometry_loop-IsAxis tokens (done ++ (a ∷ []))
      (All-snoc done a h (pos, parse_unsigned-lt token read)) small rest

geometry-parts :
    (text : Bytes) {axes : List ℕ}
    → parse_geometry text ≡ ok axes
    → (geometry_loop (split_on b':' text) [] ≡ ok axes) × (2 ≤ length axes)
unfolding parse_geometry
geometry-parts text h = ground arith

geometry_of :
    (text : Bytes) (axes : List ℕ)
    → geometry_loop (split_on b':' text) [] ≡ ok axes
    → 2 ≤ length axes
    → parse_geometry text ≡ ok axes
unfolding parse_geometry
geometry_of text axes h two = ground arith

-- A geometry that is read has two to nine axes, each positive and below 2 ^ 64; and every such
-- geometry, printed in decimal with colons between the axes, is read back.
pub parse_geometry_iff :
    (a : ℕ) (axes : List ℕ)
    → (All IsAxis (a ∷ axes) × (2 ≤ length (a ∷ axes)) × (length (a ∷ axes) ≤ 9)) ↔ (
        (text : Bytes) × (parse_geometry text ≡ ok (a ∷ axes))
        × ((parse_geometry (join b':' (map to_decimal (a ∷ axes)))) ≡ ok (a ∷ axes)))
parse_geometry_iff a axes = (
  λ (h, two, nine). (join b':' (map to_decimal (a ∷ axes)), printed h two nine, printed h two nine),
  λ (text, read, back). bounds text read,
)
  where
    printed :
        All IsAxis (a ∷ axes)
        → 2 ≤ length (a ∷ axes)
        → length (a ∷ axes) ≤ 9
        → parse_geometry (join b':' (map to_decimal (a ∷ axes))) ≡ ok (a ∷ axes)
    printed h two nine =
        geometry_of _ (a ∷ axes)
          (ap (λ tokens. geometry_loop tokens [])
              (split_on-join b':' (to_decimal a) (map to_decimal axes) (decimal-Lacks a)
                (decimals-Lack axes))
            ∙ geometry_loop-decimals (a ∷ axes) [] h (omega arith))
          two

    bounds :
        (text : Bytes)
        → parse_geometry text ≡ ok (a ∷ axes)
        → All IsAxis (a ∷ axes) × (2 ≤ length (a ∷ axes)) × (length (a ∷ axes) ≤ 9)
    bounds text read =
        let (loop, two) = geometry-parts text read in
        let (all_axes, nine) = geometry_loop-IsAxis (split_on b':' text) [] tt (omega arith) loop in
        (all_axes, two, nine)

attachment_of :
    (text tail head rest : Bytes) (offset size : ℕ)
    → cut b':' tail ≡ some (head, rest)
    → parse_unsigned head ≡ some offset
    → parse_unsigned rest ≡ some size
    → parse_attachment text tail
      ≡ record { kind = attachment; offset = offset; size = size; raw = text }
unfolding parse_attachment
attachment_of text tail head rest offset size b c d = ground arith

location_of :
    (text tail : Bytes)
    → strip_prefix (codes "attachment:") text ≡ some tail
    → parse_location text ≡ parse_attachment text tail
unfolding parse_location
location_of text tail e = ap (location_behind text) e

-- The location of an attachment, printed with its offset and its size in decimal as the writer
-- prints it, is read back with that offset and that size, for every pair of 64-bit numbers.
pub parse_location-attachment :
    (offset size : ℕ)
    → offset < 2 ^ 64
    → size < 2 ^ 64
    → (text : Bytes) → text ≡ codes "attachment:" ++ (to_decimal offset ++ (b':' ∷ to_decimal size))
    → parse_location text ≡ record { kind = attachment; offset = offset; size = size; raw = text }
parse_location-attachment offset size h k text e =
    location_of text _
      (ap (strip_prefix (codes "attachment:")) e ∙ strip_prefix-append (codes "attachment:") _)
    ∙ attachment_of text _ (to_decimal offset) (to_decimal size) offset size
        (cut-append b':' (to_decimal offset) (to_decimal size) (decimal-Lacks offset))
        (parse_unsigned-to_decimal offset h) (parse_unsigned-to_decimal size k)
