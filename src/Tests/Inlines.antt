-- ===== src/Tests/Inlines.antt =====
-- The theorems on inline blocks at concrete texts.
use mmxisf.Base.{◌≡◌, refl, false, [], ◌∷◌, arith}
use mmxisf.Base.Text.{Bytes, codes}
use mmxisf.Base.Error.{ok}
use mmxisf.Document.{default_options}
use mmxisf.Inline.{
  metadata_block, image_block, base64, hex, InlineDecoder, new_decoder, decode_embedded_text,
  is_incomplete,
}
use mmxisf.Inline.RoundTrip.Base64.{decode_embedded_text-base64}
use mmxisf.Inline.RoundTrip.Base16.{decode_embedded_text-base16}

abbrev inline_bytes : Bytes
inline_bytes = 1 ∷ 255 ∷ 3 ∷ 128 ∷ []

decode_embedded_text-base64_example :
    (final : InlineDecoder) × (decode_embedded_text default_options
        (new_decoder metadata_block base64)
        (codes " Af8D gA==")
      ≡ ok final)
    × (final.output ≡ inline_bytes)
    × (is_incomplete final ≡ false)
decode_embedded_text-base64_example =
    decode_embedded_text-base64 default_options metadata_block inline_bytes (codes " Af8D gA==")
      (omega arith, (omega arith, (omega arith, (omega arith, tt)))) refl (omega arith)
      (omega arith)

decode_embedded_text-base16_example :
    (final : InlineDecoder) × (decode_embedded_text default_options
        (new_decoder image_block hex)
        (codes "01ff 0380")
      ≡ ok final)
    × (final.output ≡ inline_bytes)
    × (is_incomplete final ≡ false)
decode_embedded_text-base16_example =
    decode_embedded_text-base16 default_options image_block inline_bytes (codes "01ff 0380")
      (omega arith, (omega arith, (omega arith, (omega arith, tt)))) refl (omega arith)
      (omega arith)
