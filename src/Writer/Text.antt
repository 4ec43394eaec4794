-- ===== src/Writer/Text.antt =====
-- `is_valid_xml_utf8` and `escape_xml` of src/writer.cpp. The masks of the source's bits are
-- remainders and quotients; the bits that `|` joins do not overlap.
pub mod Escapes
pub mod Utf8
use mmxisf.Base.{
  ℕ, zero, suc, ◌+◌, ◌*◌, ◌/◌, ◌%◌, ◌^◌, Bool, true, false, not, ◌&&◌, ◌||◌, Option, none, some, [],
  ◌∷◌, ◌++◌, ltb, leb, ◌==◌, if◌then◌else◌, length,
}
use mmxisf.Base.Text.{Bytes, codes}
use mmxisf.Base.Error.{invalid_argument, Result, ok, fail, ◌>>=◌, ◌>>◌}

-- The bits of the code point in a lead byte, and the number of bytes that continue it.
unfoldable pub lead_byte : ℕ → Option (ℕ × ℕ)
lead_byte lead =
    if ltb lead 0x80
    then some (lead, 0)
    else if leb 0xc2 lead && leb lead 0xdf
    then some (lead % 2 ^ 5, 1)
    else if leb 0xe0 lead && leb lead 0xef
    then some (lead % 2 ^ 4, 2)
    else if leb 0xf0 lead && leb lead 0xf4
    then some (lead % 2 ^ 3, 3)
    else none

-- The loop over the continuation bytes: the code point and the text behind it.
unfoldable pub continuation : ℕ → ℕ → Bytes → Option (ℕ × Bytes)
continuation zero code_point text = some (code_point, text)
continuation (suc count) code_point [] = none
continuation (suc count) code_point (byte ∷ text) =
    let rest = continuation count (code_point * 2 ^ 6 + byte % 2 ^ 6) text in
    if not (byte / 2 ^ 6 == 2) then none else rest

abbrev pub is_in : ℕ → ℕ → ℕ → Bool
is_in low high code_point = leb low code_point && leb code_point high

-- The code points that the count of bytes or the standard rules out.
unfoldable pub is_excluded : ℕ → ℕ → Bool
is_excluded count code_point =
    count == 2 && ltb code_point 0x800
    || count == 3 && ltb code_point 0x10000
    || ltb 0x10ffff code_point
    || is_in 0xd800 0xdfff code_point

unfoldable pub is_xml_character : ℕ → Bool
is_xml_character code_point =
    code_point == 0x09
    || code_point == 0x0a
    || code_point == 0x0d
    || is_in 0x20 0xd7ff code_point
    || is_in 0xe000 0xfffd code_point
    || is_in 0x10000 0x10ffff code_point

-- A round of the loop, which gives the text behind a character, from its last part on.
unfoldable pub accept_character : ℕ → Option (ℕ × Bytes) → Option Bytes
accept_character count none = none
accept_character count (some (code_point, rest)) =
    if is_excluded count code_point || not (is_xml_character code_point) then none else some rest

unfoldable pub continue_character : Bytes → Option (ℕ × ℕ) → Option Bytes
continue_character text none = none
continue_character text (some (start, count)) =
    if ltb (length text) count then none else accept_character count (continuation count start text)

unfoldable pub next_character : Bytes → Option Bytes
next_character [] = none
next_character (lead ∷ text) = continue_character text (lead_byte lead)

-- A round reads a byte, so the fuel is the length of the text.
unfoldable pub utf8_loop : ℕ → Bytes → Bool
utf8_loop fuel [] = true
utf8_loop zero (lead ∷ text) = false
utf8_loop (suc fuel) (lead ∷ text) = elim (next_character (lead ∷ text)) [
  | none ↦ false
  | some rest ↦ utf8_loop fuel rest
]

unfoldable pub is_valid_xml_utf8 : Bytes → Bool
is_valid_xml_utf8 text = utf8_loop (length text) text

-- What a character is replaced with.
abbrev pub escape_character : Bool → ℕ → Bytes
escape_character is_attribute character =
    if character == b'&'
    then codes "&amp;"
    else if character == b'<'
    then codes "&lt;"
    else if character == b'>'
    then codes "&gt;"
    else if character == b'"'
    then (if is_attribute then codes "&quot;" else character ∷ [])
    else character ∷ []

unfoldable pub escape_text : Bool → Bytes → Bytes
escape_text is_attribute [] = []
escape_text is_attribute (character ∷ input) =
    escape_character is_attribute character ++ escape_text is_attribute input

unfoldable pub escape_xml : Bytes → Bool → Result Bytes
escape_xml input is_attribute =
    if not (is_valid_xml_utf8 input)
    then fail invalid_argument "Writer text is not valid XML 1.0 UTF-8"
    else ok (escape_text is_attribute input)
