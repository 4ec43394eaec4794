-- ===== src/Writer/Text/Utf8.antt =====
-- A text is accepted exactly when it is the UTF-8 form of XML characters.
pub mod Characters
pub mod Decoded
use mmxisf.Base.{
  ℕ, suc, ◌+◌, ◌*◌, ◌/◌, ◌%◌, ◌^◌, ◌≤◌, ◌<◌, ◌≡◌, refl, ap, ◌∙◌, inl, inr, true, false, ◌&&◌, some,
  List, [], ◌∷◌, ◌++◌, arith, ltb, ◌==◌, if◌then◌else◌, ltb→lt, ge→ltb, Bool-cases, length,
}
use mmxisf.Base.Text.{Bytes}
use mmxisf.Base.Error.{◌>>=◌, ◌>>◌}
use mmxisf.Writer.Text.{
  lead_byte, continuation, is_in, is_excluded, is_xml_character, accept_character,
  continue_character, next_character,
}

-- The UTF-8 form of a code point.
abbrev pub utf8 : ℕ → Bytes
utf8 c =
    if ltb c 0x80
    then c ∷ []
    else if ltb c 0x800
    then (0xc0 + c / 64) ∷ (0x80 + c % 64) ∷ []
    else if ltb c 0x10000
    then (0xe0 + c / 4096) ∷ (0x80 + c / 64 % 64) ∷ (0x80 + c % 64) ∷ []
    else (0xf0 + c / 262144) ∷ (0x80 + c / 4096 % 64) ∷ (0x80 + c / 64 % 64) ∷ (0x80 + c % 64) ∷ []

abbrev pub utf8_text : List ℕ → Bytes
utf8_text [] = []
utf8_text (c ∷ characters) = utf8 c ++ utf8_text characters

accept_character-ok :
    (count c : ℕ) (rest : Bytes)
    → is_excluded count c ≡ false
    → is_xml_character c ≡ true
    → accept_character count (some (c, rest)) ≡ some rest
unfolding accept_character
accept_character-ok count c rest allowed character = rw (allowed, character) refl

continue_character-ok :
    (start count : ℕ) (text : Bytes)
    → count ≤ length text
    → continue_character text (some (start, count))
      ≡ accept_character count (continuation count start text)
unfolding continue_character
continue_character-ok start count text fits = rw (ge→ltb (length text) count fits) refl

next_character-ok :
    (lead start count c : ℕ) (text rest : Bytes)
    → lead_byte lead ≡ some (start, count)
    → count ≤ length text
    → continuation count start text ≡ some (c, rest)
    → is_excluded count c ≡ false
    → is_xml_character c ≡ true
    → next_character (lead ∷ text) ≡ some rest
unfolding next_character
next_character-ok lead start count c text rest leads fits continues allowed character =
    ap (continue_character text) leads
    ∙ continue_character-ok start count text fits
    ∙ ap (accept_character count) continues
    ∙ accept_character-ok count c rest allowed character

continuation-step :
    (count start byte : ℕ) (text : Bytes)
    → byte / 2 ^ 6 ≡ 2
    → continuation (suc count) start (byte ∷ text)
      ≡ continuation count (start * 2 ^ 6 + byte % 2 ^ 6) text
unfolding continuation
continuation-step count start byte text h = rw h refl

continuation-zero : (c d : ℕ) (text : Bytes) → c ≡ d → continuation 0 c text ≡ some (d, text)
unfolding continuation
continuation-zero c d text h = ap (λ n. some (n, text)) h

-- The ranges of the characters.
in_range : (c : ℕ) → is_xml_character c ≡ true → (c ≤ 0x10ffff) × (is_in 0xd800 0xdfff c ≡ false)
unfolding is_xml_character
in_range c h = (ground arith, ground arith)

not_excluded :
    (count c : ℕ)
    → is_xml_character c ≡ true
    → (count == 2 && ltb c 0x800) ≡ false
    → (count == 3 && ltb c 0x10000) ≡ false
    → is_excluded count c ≡ false
unfolding is_excluded
not_excluded count c h two three =
    let (below, surrogate) = in_range c h in rw (two, three, ge→ltb 0x10ffff c below) surrogate

lead_one : (c : ℕ) → c < 0x80 → lead_byte c ≡ some (c, 0)
unfolding lead_byte
lead_one c h = ground arith

lead_two : (c : ℕ) → 0x80 ≤ c → c < 0x800 → lead_byte (0xc0 + c / 64) ≡ some (c / 64, 1)
unfolding lead_byte
lead_two c h k = ground arith

lead_three : (c : ℕ) → c < 0x10000 → lead_byte (0xe0 + c / 4096) ≡ some (c / 4096, 2)
unfolding lead_byte
lead_three c h = ground arith

lead_four : (c : ℕ) → c ≤ 0x10ffff → lead_byte (0xf0 + c / 262144) ≡ some (c / 262144, 3)
unfolding lead_byte
lead_four c h = ground arith

-- A character at the start of a text is read.
pub next_character-utf8 :
    (c : ℕ) (rest : Bytes) → is_xml_character c ≡ true → next_character (utf8 c ++ rest) ≡ some rest
next_character-utf8 c rest h = elim (Bool-cases (ltb c 0x80)) [
  | inl one ↦ rw one (
      next_character-ok c c 0 c rest rest (lead_one c (ltb→lt c 0x80 one)) (omega arith)
        (continuation-zero c c rest refl) (not_excluded 0 c h refl refl) h)
  | inr wide ↦ elim (Bool-cases (ltb c 0x800)) [
    | inl two ↦
        rw (wide, two)
          (next_character-ok (0xc0 + c / 64) (c / 64) 1 c ((0x80 + c % 64) ∷ rest) rest
            (lead_two c (ground arith) (ltb→lt c 0x800 two)) (omega arith)
            (continuation-step 0 (c / 64) (0x80 + c % 64) rest (omega arith)
              ∙ continuation-zero _ c rest (omega arith))
            (not_excluded 1 c h refl refl) h)
    | inr wider ↦ elim (Bool-cases (ltb c 0x10000)) [
      | inl three ↦
          rw (wide, wider, three)
            (next_character-ok (0xe0 + c / 4096) (c / 4096) 2 c
              ((0x80 + c / 64 % 64) ∷ (0x80 + c % 64) ∷ rest) rest
              (lead_three c (ltb→lt c 0x10000 three)) (omega arith)
              (continuation-step 1 (c / 4096) (0x80 + c / 64 % 64) ((0x80 + c % 64) ∷ rest)
                  (omega arith)
                ∙ continuation-step 0 _ (0x80 + c % 64) rest (omega arith)
                ∙ continuation-zero _ c rest (omega arith))
              (not_excluded 2 c h wider refl) h)
      | inr widest ↦
          let (below, surrogate) = in_range c h in
          rw (wide, wider, widest)
            (next_character-ok (0xf0 + c / 262144) (c / 262144) 3 c
              ((0x80 + c / 4096 % 64) ∷ (0x80 + c / 64 % 64) ∷ (0x80 + c % 64) ∷ rest) rest
              (lead_four c below) (omega arith)
              (continuation-step 2 (c / 262144) (0x80 + c / 4096 % 64) _ (omega arith)
                ∙ continuation-step 1 _ (0x80 + c / 64 % 64) _ (omega arith)
                ∙ continuation-step 0 _ (0x80 + c % 64) rest (omega arith)
                ∙ continuation-zero _ c rest (omega arith))
              (not_excluded 3 c h refl widest) h)
    ]
  ]
]
