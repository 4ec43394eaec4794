-- ===== src/Inline.antt =====
-- The decoders of embedded and inline blocks of src/reader.cpp: `base64_value`,
-- `append_inline_byte`, `decode_base64_quartet` and `decode_embedded_text`, with the check at the
-- end of the element. The part of `XmlBuilder` that they use is a state; an error stops the parser.
pub mod RoundTrip
use Prim.Native.String.{String}
use mmxisf.Base.{
  ℕ, ◌+◌, ◌-◌, ◌*◌, ◌/◌, ◌%◌, ◌^◌, Bool, true, false, not, ◌&&◌, ◌||◌, Option, none, some, List, [],
  ◌∷◌, ◌++◌, leb, ◌==◌, if◌then◌else◌, length,
}
use mmxisf.Base.Text.{Bytes, is_empty, contains}
use mmxisf.Base.Error.{
  ErrorCode, resource_limit, invalid_xisf, make_error, Result, ok, err, ◌>>=◌, ◌>>◌,
}
use mmxisf.Document.{ReaderOptions}

pub data EmbeddedEncoding : Type 0 where
  no_encoding base64 hex : EmbeddedEncoding

-- The block that the indices of the builder select.
pub data InlineTarget : Type 0 where
  metadata_block icc_profile_block thumbnail_block image_block : InlineTarget

-- `base64_quartet` is the part of the array that is in use.
pub record InlineDecoder : Type 0 where
  pub target : InlineTarget
  pub embedded_encoding : EmbeddedEncoding
  pub output : Bytes
  pub encoded_block_bytes : ℕ
  pub hex_high_nibble : Option ℕ
  pub base64_quartet : List ℕ
  pub base64_complete : Bool

-- The state at the start of an element.
abbrev pub new_decoder : InlineTarget → EmbeddedEncoding → InlineDecoder
new_decoder target encoding = record {
  target = target;
  embedded_encoding = encoding;
  output = [];
  encoded_block_bytes = 0;
  hex_high_nibble = none;
  base64_quartet = [];
  base64_complete = false;
}

abbrev pub element_of : InlineTarget → String
element_of metadata_block = "Property"
element_of icc_profile_block = "ICCProfile"
element_of _ = "Data"

abbrev pub limit_of : ReaderOptions → InlineTarget → ℕ
limit_of options metadata_block = options.max_serialized_property_bytes
limit_of options icc_profile_block = options.max_serialized_icc_profile_bytes
limit_of options thumbnail_block = options.max_serialized_thumbnail_bytes
limit_of options image_block = options.max_decoded_image_bytes

-- `state.fail(code, message, element)`
abbrev pub fail_in {ℓ} : {A : Type ℓ} → InlineTarget → ErrorCode → String → Result A
fail_in target code message =
    let error = make_error code message in err (record error { element = element_of target })

unfoldable pub base64_value : ℕ → Option ℕ
base64_value character =
    if leb b'A' character && leb character b'Z'
    then some (character - b'A')
    else if leb b'a' character && leb character b'z'
    then some (character - b'a' + 26)
    else if leb b'0' character && leb character b'9'
    then some (character - b'0' + 52)
    else if character == b'+'
    then some 62
    else if character == b'/'
    then some 63
    else none

unfoldable pub append_inline_byte : ReaderOptions → InlineDecoder → ℕ → Result InlineDecoder
append_inline_byte options state value =
    if leb (limit_of options state.target) (length state.output)
    then fail_in state.target resource_limit "Encoded block exceeds its serialized byte limit"
    else ok (record state { output = state.output ++ (value % 2 ^ 8) ∷ [] })

-- The padding that `=` stands for.
abbrev pub padding : ℕ
padding = 64

-- The four values of a quartet. Their bits do not overlap, so that `|` is a sum.
unfoldable pub decode_base64_quartet :
    ReaderOptions → InlineDecoder → ℕ → ℕ → ℕ → ℕ → Result InlineDecoder
decode_base64_quartet options state q0 q1 q2 q3 =
    if q0 == padding || q1 == padding
    then fail_in state.target invalid_xisf "Invalid Base64 padding"
    else append_inline_byte options state (q0 * 2 ^ 2 + q1 / 2 ^ 4) >>= λ first.
        if q2 == padding
        then (if not (q3 == padding) || not (q1 % 2 ^ 4 == 0)
            then fail_in state.target invalid_xisf "Invalid or noncanonical Base64 padding"
            else ok (record first { base64_complete = true }))
        else append_inline_byte options first (q1 * 2 ^ 4 + q2 / 2 ^ 2) >>= λ second.
            if q3 == padding
            then (if not (q2 % 2 ^ 2 == 0)
                then fail_in state.target invalid_xisf "Invalid or noncanonical Base64 padding"
                else ok (record second { base64_complete = true }))
            else append_inline_byte options second (q2 * 2 ^ 6 + q3)

-- The quartet with one value more, which is decoded when it is full.
unfoldable pub push_quartet : ReaderOptions → InlineDecoder → List ℕ → ℕ → Result InlineDecoder
push_quartet options state (q0 ∷ q1 ∷ q2 ∷ rest) value =
    decode_base64_quartet options state q0 q1 q2 value >>= λ decoded.
    ok (record decoded { base64_quartet = [] })
push_quartet options state quartet value =
    ok (record state { base64_quartet = quartet ++ value ∷ [] })

unfoldable pub decode_base64_character : ReaderOptions → InlineDecoder → ℕ → Result InlineDecoder
decode_base64_character options state character =
    if state.base64_complete
    then fail_in state.target invalid_xisf "Base64 data continues after padding"
    else if character == b'='
    then push_quartet options state state.base64_quartet padding
    else elim (base64_value character) [
      | none ↦
          fail_in state.target invalid_xisf "Encoded block contains an invalid Base64 character"
      | some value ↦ push_quartet options state state.base64_quartet value
    ]

unfoldable pub nibble_of : ℕ → Option ℕ
nibble_of character =
    if leb b'0' character && leb character b'9'
    then some (character - b'0')
    else if leb b'a' character && leb character b'f'
    then some (character - b'a' + 10)
    else none

unfoldable pub push_nibble : ReaderOptions → InlineDecoder → Option ℕ → ℕ → Result InlineDecoder
push_nibble options state none nibble = ok (record state { hex_high_nibble = some nibble })
push_nibble options state (some high) nibble =
    append_inline_byte options state (high * 2 ^ 4 + nibble) >>= λ decoded.
    ok (record decoded { hex_high_nibble = none })

-- `decode_embedded_text` behind the value of a hexadecimal digit.
unfoldable pub push_digit : ReaderOptions → InlineDecoder → Option ℕ → Result InlineDecoder
push_digit options state none =
    fail_in state.target invalid_xisf "Base16 data must use lowercase hexadecimal"
push_digit options state (some nibble) = push_nibble options state state.hex_high_nibble nibble

unfoldable pub decode_hex_character : ReaderOptions → InlineDecoder → ℕ → Result InlineDecoder
decode_hex_character options state character = push_digit options state (nibble_of character)

abbrev pub is_hex : EmbeddedEncoding → Bool
is_hex hex = true
is_hex _ = false

abbrev pub is_blank : ℕ → Bool
is_blank character = character == 32 || character == 9 || character == 13 || character == 10

-- A round of `decode_embedded_text` for a character that is not blank.
unfoldable pub decode_character : ReaderOptions → InlineDecoder → ℕ → Result InlineDecoder
decode_character options state character =
    if leb options.max_encoded_block_bytes state.encoded_block_bytes
    then fail_in state.target resource_limit "Encoded block exceeds the encoded byte limit"
    else let counted = record state { encoded_block_bytes = state.encoded_block_bytes + 1 } in
      if is_hex state.embedded_encoding
      then decode_hex_character options counted character
      else decode_base64_character options counted character

unfoldable pub decode_embedded_text : ReaderOptions → InlineDecoder → Bytes → Result InlineDecoder
decode_embedded_text options state [] = ok state
decode_embedded_text options state (character ∷ text) =
    (if is_blank character then ok state else decode_character options state character)
    >>= λ decoded. decode_embedded_text options decoded text

abbrev pub is_base64 : EmbeddedEncoding → Bool
is_base64 base64 = true
is_base64 _ = false

abbrev pub is_some : Option ℕ → Bool
is_some none = false
is_some (some n) = true

-- The check of `end_element`, which refuses the block.
unfoldable pub is_incomplete : InlineDecoder → Bool
is_incomplete state =
    is_base64 state.embedded_encoding && not (is_empty state.base64_quartet)
    || is_hex state.embedded_encoding && is_some state.hex_high_nibble
