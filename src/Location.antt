-- ===== src/Location.antt =====
-- `parse_geometry` and `parse_location` of src/reader.cpp: the attributes of an element that say
-- how large an image is and where a block is stored.
pub mod RoundTrip
use mmxisf.Base.{
  ℕ, Bool, true, false, ◌||◌, Option, none, some, List, [], ◌∷◌, ◌++◌, ltb, ◌==◌, if◌then◌else◌,
  length,
}
use mmxisf.Base.Text.{Bytes, codes, bytes_eq, strip_prefix, cut, contains, split_on}
use mmxisf.Base.Error.{resource_limit, invalid_xisf, Result, ok, fail, ◌>>=◌, ◌>>◌, reject_if}
use mmxisf.Number.{parse_unsigned}
use mmxisf.Document.{
  BlockLocation, unknown_location, BlockKind, attachment, embedded, inline_data, external,
}

-- The loop over the axes, given those read so far.
unfoldable pub geometry_loop : List Bytes → List ℕ → Result (List ℕ)
geometry_loop [] axes = ok axes
geometry_loop (token ∷ tokens) axes = elim (parse_unsigned token) [
  | none ↦ fail invalid_xisf "Image geometry contains an invalid axis"
  | some value ↦
      reject_if (value == 0) invalid_xisf "Image geometry contains an invalid axis"
      >> reject_if (ltb 9 (length (axes ++ (value ∷ [])))) resource_limit
          "Image geometry exceeds the dimension limit"
      >> geometry_loop tokens (axes ++ (value ∷ []))
]

unfoldable pub parse_geometry : Bytes → Result (List ℕ)
parse_geometry text = geometry_loop (split_on b':' text) [] >>= λ axes.
    reject_if (ltb (length axes) 2) invalid_xisf
      "Image geometry must contain a dimension and channels"
    >> ok axes

-- The branch of an attachment, given the text behind the prefix; the first colon separates.
unfoldable pub parse_attachment : Bytes → Bytes → BlockLocation
parse_attachment text tail = elim (cut b':' tail) [
  | none ↦ unknown_location text
  | some (head, rest) ↦ elim (parse_unsigned head) [
    | none ↦ unknown_location text
    | some offset ↦ elim (parse_unsigned rest) [
      | none ↦ unknown_location text
      | some size ↦ record { kind = attachment; offset = offset; size = size; raw = text }
    ]
  ]
]

abbrev pub starts_with : Bytes → Bytes → Bool
starts_with prefix text = elim (strip_prefix prefix text) [ none ↦ false | some rest ↦ true ]

abbrev pub with_kind : BlockKind → Bytes → BlockLocation
with_kind kind text = let location = unknown_location text in record location { kind = kind }

-- The kind of a location that is no attachment.
unfoldable pub other_location : Bytes → BlockLocation
other_location text =
    if bytes_eq text (codes "embedded")
    then with_kind embedded text
    else if starts_with (codes "inline:") text
    then with_kind inline_data text
    else if starts_with (codes "url(") text || starts_with (codes "path(") text
    then with_kind external text
    else unknown_location text

-- The location, given the text behind the prefix of an attachment.
abbrev pub location_behind : Bytes → Option Bytes → BlockLocation
location_behind text none = other_location text
location_behind text (some tail) = parse_attachment text tail

unfoldable pub parse_location : Bytes → BlockLocation
parse_location text = location_behind text (strip_prefix (codes "attachment:") text)
