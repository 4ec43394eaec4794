-- ===== src/Writer/Text/Utf8/Characters.antt =====
-- The characters that XML allows, and the test of src/writer.cpp.
use mmxisf.Base.{
  ℕ, ◌≤◌, ◌<◌, ◌≡◌, refl, ◌↔◌, ◌⊎◌, true, List, [], ◌∷◌, arith, and-eq-true, all, All,
}
use mmxisf.Writer.Text.{is_xml_character}

-- The characters of XML 1.0: tab, line feed, carriage return, and from the space on all but the
-- surrogates and the last two of the first plane.
abbrev pub IsXmlCharacter : ℕ → Type 0
IsXmlCharacter c =
    (c ≡ 9)
    ⊎ (c ≡ 10)
    ⊎ (c ≡ 13)
    ⊎ ((32 ≤ c) × (c < 0xd800))
    ⊎ ((0xdfff < c) × (c < 0xfffe))
    ⊎ ((0xffff < c) × (c < 0x110000))

IsXmlCharacter-iff : (c : ℕ) → (is_xml_character c ≡ true) ↔ IsXmlCharacter c
unfolding is_xml_character
IsXmlCharacter-iff c = ground arith

pub characters_iff :
    (characters : List ℕ) → (all is_xml_character characters ≡ true) ↔ All IsXmlCharacter characters
characters_iff [] = (λ h. tt, λ h. refl)
characters_iff (c ∷ characters) =
    let (to, from) = characters_iff characters in
    let (one, back) = IsXmlCharacter-iff c in
    (
      λ h.
          let (first, rest) =
            and-eq-true (is_xml_character c) (all is_xml_character characters) h in
          (one first, to rest),
      λ (first, rest). rw (back first, from rest) refl,
    )
