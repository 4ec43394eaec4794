-- ===== src/Writer/Text/Escapes.antt =====
-- The escapes can be undone, and leave no markup.
use mmxisf.Base.{
  ℕ, zero, suc, ◌≤◌, ◌≡◌, refl, sym, ap, ap₂, ◌∙◌, subst, inl, inr, Bool, true, false, not, ◌&&◌,
  ◌||◌, Option, none, some, [], ◌∷◌, ◌++◌, arith, ◌==◌, if◌then◌else◌, Bool-cases, length,
  length-append, all,
}
use mmxisf.Base.Text.{Bytes, codes, strip_prefix}
use mmxisf.Base.Error.{ok, ok-injective}
use mmxisf.Writer.Text.{escape_character, escape_text, escape_xml, is_valid_xml_utf8}

abbrev pub or_else : ℕ → Option Bytes → Option (ℕ × Bytes) → Option (ℕ × Bytes)
or_else character (some rest) other = some (character, rest)
or_else character none other = other

-- The character of a predefined entity at the start of a text, and the text behind it.
abbrev pub entity : Bytes → Option (ℕ × Bytes)
entity text = or_else b'&' (strip_prefix (codes "&amp;") text) (
    or_else b'<' (strip_prefix (codes "&lt;") text) (
      or_else b'>' (strip_prefix (codes "&gt;") text)
        (or_else b'"' (strip_prefix (codes "&quot;") text) none)))

-- A round takes one byte at least.
unescape_loop : ℕ → Bytes → Bytes
unescape_loop zero text = []
unescape_loop (suc fuel) [] = []
unescape_loop (suc fuel) (c ∷ text) = elim (entity (c ∷ text)) [
  | none ↦ c ∷ unescape_loop fuel text
  | some (character, rest) ↦ character ∷ unescape_loop fuel rest
]

-- The whole text with its entities replaced with their characters.
pub unescape : Bytes → Bytes
unescape text = unescape_loop (length text) text

-- A character that ends a text or an attribute's value.
abbrev pub is_markup : Bool → ℕ → Bool
is_markup is_attribute c = c == b'<' || c == b'>' || (is_attribute && c == b'"')

entity-ne : (c : ℕ) (text : Bytes) → (c == b'&') ≡ false → entity (c ∷ text) ≡ none
entity-ne c text h = ap₂ (or_else b'&') (differs (codes "amp;")) (
    ap₂ (or_else b'<') (differs (codes "lt;")) (
      ap₂ (or_else b'>') (differs (codes "gt;"))
        (ap (λ o. or_else b'"' o none) (differs (codes "quot;")))))
  where
    turned : (b'&' == c) ≡ false
    turned = ground arith

    differs : (name : Bytes) → strip_prefix (b'&' ∷ name) (c ∷ text) ≡ none
    differs name = ap (λ t. if t then strip_prefix name text else none) turned

unescape_loop-keep :
    (fuel c : ℕ) (text : Bytes)
    → (c == b'&') ≡ false
    → unescape_loop (suc fuel) (c ∷ text) ≡ c ∷ unescape_loop fuel text
unfolding unescape_loop
unescape_loop-keep fuel c text h =
    ap
      (λ found. elim found [
        | none ↦ c ∷ unescape_loop fuel text
        | some (character, rest) ↦ character ∷ unescape_loop fuel rest
      ])
      (entity-ne c text h)

equal : (a b : ℕ) → (a == b) ≡ true → a ≡ b
equal a b h = ground arith

unescape_loop-quote :
    (is_attribute : Bool) (fuel c : ℕ) (text input : Bytes)
    → c ≡ b'"'
    → unescape_loop fuel text ≡ input
    → unescape_loop (suc fuel) ((if is_attribute then codes "&quot;" else c ∷ []) ++ text)
      ≡ c ∷ input
unfolding unescape_loop
unescape_loop-quote true fuel c text input at h = ap₂ ◌∷◌ (sym at) h
unescape_loop-quote false fuel c text input at h =
    rw at (unescape_loop-keep fuel b'"' text refl ∙ ap (◌∷◌ b'"') h)

unescape_loop-escape_text :
    (is_attribute : Bool) (input : Bytes) (fuel : ℕ)
    → length input ≤ fuel
    → unescape_loop fuel (escape_text is_attribute input) ≡ input
unfolding escape_text unescape_loop
unescape_loop-escape_text is_attribute [] zero h = refl
unescape_loop-escape_text is_attribute [] (suc fuel) h = refl
unescape_loop-escape_text is_attribute (c ∷ input) zero h = absurd (omega arith)
unescape_loop-escape_text is_attribute (c ∷ input) (suc fuel) h =
    let rest = unescape_loop-escape_text is_attribute input fuel (omega arith) in
    elim (Bool-cases (c == b'&')) [
      | inl amp ↦ rw amp (ap₂ ◌∷◌ (sym (equal c b'&' amp)) rest)
      | inr a ↦ elim (Bool-cases (c == b'<')) [
        | inl lt ↦ rw (a, lt) (ap₂ ◌∷◌ (sym (equal c b'<' lt)) rest)
        | inr l ↦ elim (Bool-cases (c == b'>')) [
          | inl gt ↦ rw (a, l, gt) (ap₂ ◌∷◌ (sym (equal c b'>' gt)) rest)
          | inr g ↦ elim (Bool-cases (c == b'"')) [
            | inl quote ↦
                rw (a, l, g, quote)
                  (unescape_loop-quote is_attribute fuel c (escape_text is_attribute input) input
                    (equal c b'"' quote) rest)
            | inr q ↦
                rw (a, l, g, q)
                  (unescape_loop-keep fuel c (escape_text is_attribute input) a ∙ ap (◌∷◌ c) rest)
          ]
        ]
      ]
    ]

-- No character of an escape is markup.
escape_character-plain :
    (is_attribute : Bool) (c : ℕ)
    → all (λ d. not (is_markup is_attribute d)) (escape_character is_attribute c) ≡ true
escape_character-plain true c = ground arith
escape_character-plain false c = ground arith

all-append :
    (test : ℕ → Bool) (xs ys : Bytes)
    → all test xs ≡ true
    → all test ys ≡ true
    → all test (xs ++ ys) ≡ true
all-append test [] ys h k = k
all-append test (x ∷ xs) ys h k = ground (arith, all-append test xs ys)

escape_text-plain :
    (is_attribute : Bool) (input : Bytes)
    → all (λ d. not (is_markup is_attribute d)) (escape_text is_attribute input) ≡ true
unfolding escape_text
escape_text-plain is_attribute [] = refl
escape_text-plain is_attribute (c ∷ input) =
    all-append (λ d. not (is_markup is_attribute d)) (escape_character is_attribute c)
      (escape_text is_attribute input) (escape_character-plain is_attribute c)
      (escape_text-plain is_attribute input)

-- An escape is at least one byte long.
length-escape_character :
    (is_attribute : Bool) (c : ℕ) → 1 ≤ length (escape_character is_attribute c)
length-escape_character true c = ground arith
length-escape_character false c = ground arith

length-escape_text :
    (is_attribute : Bool) (input : Bytes) → length input ≤ length (escape_text is_attribute input)
unfolding escape_text
length-escape_text is_attribute [] = omega arith
length-escape_text is_attribute (c ∷ input) = omega (
  arith,
  length-append (escape_character is_attribute c) (escape_text is_attribute input),
  length-escape_character is_attribute c,
  length-escape_text is_attribute input,
)

-- An escaped text has no markup, and replacing the entities of the whole text gives the text back.
pub escape_xml-unescape :
    (input : Bytes) (is_attribute : Bool) {output : Bytes}
    → escape_xml input is_attribute ≡ ok output
    → (all (λ d. not (is_markup is_attribute d)) output ≡ true) × (unescape output ≡ input)
unfolding escape_xml unescape
escape_xml-unescape input is_attribute {output} h = elim (Bool-cases (is_valid_xml_utf8 input)) [
  | inr invalid ↦ cc (rw invalid at h)
  | inl valid ↦
      let same : escape_text is_attribute input ≡ output = ok-injective (rw valid at h) in
      (
        subst (λ text. all (λ d. not (is_markup is_attribute d)) text ≡ true) same
            (escape_text-plain is_attribute input),
        subst (λ text. unescape_loop (length text) text ≡ input) same
            (unescape_loop-escape_text is_attribute input (length (escape_text is_attribute input))
              (length-escape_text is_attribute input)),
      )
]
