-- ===== src/Tests/Markup.antt =====
-- The theorems on the writer's texts at concrete texts.
use mmxisf.Base.{◌≡◌, refl, ◌↔◌, true, false, not, [], ◌∷◌, all}
use mmxisf.Base.Text.{Bytes, codes}
use mmxisf.Base.Error.{ok}
use mmxisf.Writer.Text.{is_valid_xml_utf8, escape_xml}
use mmxisf.Writer.Text.Escapes.{is_markup, unescape, escape_xml-unescape}
use mmxisf.Writer.Text.Utf8.Decoded.{IsXmlUtf8, is_valid_xml_utf8_iff}

-- A letter of two bytes, and one of three.
abbrev letters : Bytes
letters = 0xc3 ∷ 0xa9 ∷ 0xe2 ∷ 0x82 ∷ 0xac ∷ []

is_valid_xml_utf8_iff_example : is_valid_xml_utf8 letters ≡ true ↔ IsXmlUtf8 letters
is_valid_xml_utf8_iff_example = is_valid_xml_utf8_iff letters

-- A surrogate is refused.
surrogate_refused : is_valid_xml_utf8 (0xed ∷ 0xa0 ∷ 0x80 ∷ []) ≡ false
unfolding is_valid_xml_utf8 mmxisf.Writer.Text.utf8_loop mmxisf.Writer.Text.next_character
    mmxisf.Writer.Text.continue_character mmxisf.Writer.Text.lead_byte
    mmxisf.Writer.Text.accept_character mmxisf.Writer.Text.continuation
    mmxisf.Writer.Text.is_excluded
surrogate_refused = refl

escaped : escape_xml (codes "a<b & c") true ≡ ok (codes "a&lt;b &amp; c")
unfolding escape_xml is_valid_xml_utf8 mmxisf.Writer.Text.utf8_loop
    mmxisf.Writer.Text.next_character mmxisf.Writer.Text.continue_character
    mmxisf.Writer.Text.lead_byte mmxisf.Writer.Text.accept_character mmxisf.Writer.Text.continuation
    mmxisf.Writer.Text.is_excluded mmxisf.Writer.Text.is_xml_character
    mmxisf.Writer.Text.escape_text
escaped = refl

escape_xml-unescape_example :
    (all (λ d. not (is_markup true d)) (codes "a&lt;b &amp; c") ≡ true)
    × (unescape (codes "a&lt;b &amp; c") ≡ codes "a<b & c")
escape_xml-unescape_example = escape_xml-unescape (codes "a<b & c") true escaped
