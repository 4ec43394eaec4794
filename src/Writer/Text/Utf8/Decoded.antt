-- ===== src/Writer/Text/Utf8/Decoded.antt =====
-- What the loop accepts, and the equivalence.
use mmxisf.Base.{
  ℕ, zero, suc, ◌+◌, ◌*◌, ◌/◌, ◌%◌, ◌^◌, ◌≤◌, ◌<◌, ◌≡◌, refl, sym, ap, ap₂, ◌∙◌, subst, ◌↔◌, ◌⊎◌,
  inl, inr, Bool, true, false, ◌&&◌, Option, none, some, List, [], ◌∷◌, ◌++◌, arith, ltb, leb, ◌==◌,
  lt→ltb, ge→ltb, Bool-cases, length, all, length-append, All,
}
use mmxisf.Base.Text.{Bytes}
use mmxisf.Writer.Text.{
  lead_byte, continuation, is_excluded, is_xml_character, accept_character, continue_character,
  next_character, utf8_loop, is_valid_xml_utf8,
}
use mmxisf.Writer.Text.Utf8.Characters.{IsXmlCharacter, characters_iff}
use mmxisf.Writer.Text.Utf8.{utf8, utf8_text, next_character-utf8}

-- The classes of lead bytes.
lead_byte-cases :
    (lead start count : ℕ)
    → lead_byte lead ≡ some (start, count)
    → ((lead < 0x80) × (start ≡ lead) × (count ≡ 0))
      ⊎ (((0xc2 ≤ lead) × (lead ≤ 0xdf) × (start ≡ lead % 2 ^ 5) × (count ≡ 1))
          ⊎ (((0xe0 ≤ lead) × (lead ≤ 0xef) × (start ≡ lead % 2 ^ 4) × (count ≡ 2))
              ⊎ ((0xf0 ≤ lead) × (lead ≤ 0xf4) × (start ≡ lead % 2 ^ 3) × (count ≡ 3))))
unfolding lead_byte
lead_byte-cases lead start count h = elim (Bool-cases (ltb lead 0x80)) [
  | inl one ↦ inl (ground arith, ground arith, ground arith)
  | inr a ↦ elim (Bool-cases (leb 0xc2 lead && leb lead 0xdf)) [
    | inl two ↦ inr (inl (ground arith, ground arith, ground arith, ground arith))
    | inr b ↦ elim (Bool-cases (leb 0xe0 lead && leb lead 0xef)) [
      | inl three ↦ inr (inr (inl (ground arith, ground arith, ground arith, ground arith)))
      | inr c ↦ inr (inr (inr (ground arith, ground arith, ground arith, ground arith)))
    ]
  ]
]

continuation-parts :
    (count start : ℕ) (text : Bytes) {r : ℕ × Bytes}
    → continuation (suc count) start text ≡ some r
    → (byte : ℕ) × (behind : Bytes) × (text ≡ byte ∷ behind)
      × (byte / 2 ^ 6 ≡ 2)
      × (continuation count (start * 2 ^ 6 + byte % 2 ^ 6) behind ≡ some r)
unfolding continuation
continuation-parts count start [] h = cc
continuation-parts count start (byte ∷ text) h = elim (Bool-cases (byte / 2 ^ 6 == 2)) [
  | inl high ↦ (byte, text, refl, ground arith, rw high at h)
  | inr low ↦ cc (rw low at h)
]

continuation-end :
    (c d : ℕ) (text rest : Bytes) → continuation 0 c text ≡ some (d, rest) → (c ≡ d) × (text ≡ rest)
unfolding continuation
continuation-end c d text rest h = ground arith

accept_character-parts :
    (count : ℕ) (found : Option (ℕ × Bytes)) {rest : Bytes}
    → accept_character count found ≡ some rest
    → (c : ℕ) × (found ≡ some (c, rest))
      × (is_excluded count c ≡ false)
      × (is_xml_character c ≡ true)
unfolding accept_character
accept_character-parts count none h = cc
accept_character-parts count (some (c, rest)) h = (c, ground arith, ground arith, ground arith)

continue_character-parts :
    (text : Bytes) (found : Option (ℕ × ℕ)) {rest : Bytes}
    → continue_character text found ≡ some rest
    → (start : ℕ) × (count : ℕ) × (found ≡ some (start, count))
      × (accept_character count (continuation count start text) ≡ some rest)
unfolding continue_character
continue_character-parts text none h = cc
continue_character-parts text (some (start, count)) h = (start, count, refl, ground arith)

excluded-two : (c : ℕ) → is_excluded 2 c ≡ false → 0x800 ≤ c
unfolding is_excluded
excluded-two c h = ground arith

excluded-three : (c : ℕ) → is_excluded 3 c ≡ false → (0x10000 ≤ c) × (c ≤ 0x10ffff)
unfolding is_excluded
excluded-three c h = (ground arith, ground arith)

-- The bytes of a character are its form.
utf8-one : (lead c : ℕ) → lead < 0x80 → lead ≡ c → utf8 c ≡ lead ∷ []
utf8-one lead c h e = rw (lt→ltb c 0x80 (omega arith)) (ap (λ x. x ∷ []) (sym e))

utf8-two :
    (lead b c : ℕ)
    → 0xc2 ≤ lead
    → lead ≤ 0xdf
    → b / 2 ^ 6 ≡ 2
    → lead % 2 ^ 5 * 2 ^ 6 + b % 2 ^ 6 ≡ c
    → utf8 c ≡ lead ∷ b ∷ []
utf8-two lead b c h k p e =
    rw (ge→ltb c 0x80 (omega arith), lt→ltb c 0x800 (omega arith))
      (ap₂ (λ x y. x ∷ y ∷ []) (sym (omega arith)) (sym (omega arith)))

utf8-three :
    (lead b1 b2 c : ℕ)
    → 0xe0 ≤ lead
    → lead ≤ 0xef
    → b1 / 2 ^ 6 ≡ 2
    → b2 / 2 ^ 6 ≡ 2
    → (lead % 2 ^ 4 * 2 ^ 6 + b1 % 2 ^ 6) * 2 ^ 6 + b2 % 2 ^ 6 ≡ c
    → 0x800 ≤ c
    → utf8 c ≡ lead ∷ b1 ∷ b2 ∷ []
utf8-three lead b1 b2 c h k p q e low =
    let first : 0xe0 + c / 4096 ≡ lead = omega arith in
    let second : 0x80 + c / 64 % 64 ≡ b1 = omega arith in
    let third : 0x80 + c % 64 ≡ b2 = omega arith in
    rw (ge→ltb c 0x80 (omega arith), ge→ltb c 0x800 low, lt→ltb c 0x10000 (omega arith))
      (ap₂ ◌∷◌ first (ap₂ ◌∷◌ second (ap (λ y. y ∷ []) third)))

utf8-four :
    (lead b1 b2 b3 c : ℕ)
    → 0xf0 ≤ lead
    → lead ≤ 0xf4
    → b1 / 2 ^ 6 ≡ 2
    → b2 / 2 ^ 6 ≡ 2
    → b3 / 2 ^ 6 ≡ 2
    → ((lead % 2 ^ 3 * 2 ^ 6 + b1 % 2 ^ 6) * 2 ^ 6 + b2 % 2 ^ 6) * 2 ^ 6 + b3 % 2 ^ 6 ≡ c
    → 0x10000 ≤ c
    → utf8 c ≡ lead ∷ b1 ∷ b2 ∷ b3 ∷ []
utf8-four lead b1 b2 b3 c h k p q r e low =
    let first : 0xf0 + c / 262144 ≡ lead = omega arith in
    let second : 0x80 + c / 4096 % 64 ≡ b1 = omega arith in
    let third : 0x80 + c / 64 % 64 ≡ b2 = omega arith in
    let fourth : 0x80 + c % 64 ≡ b3 = omega arith in
    rw (ge→ltb c 0x80 (omega arith), ge→ltb c 0x800 (omega arith), ge→ltb c 0x10000 low)
      (ap₂ ◌∷◌ first (ap₂ ◌∷◌ second (ap₂ ◌∷◌ third (ap (λ y. y ∷ []) fourth))))

-- A round takes the form of one character.
next_character-parts :
    (lead : ℕ) (text : Bytes) {rest : Bytes}
    → next_character (lead ∷ text) ≡ some rest
    → (c : ℕ) × (is_xml_character c ≡ true) × (lead ∷ text ≡ utf8 c ++ rest)
unfolding next_character
next_character-parts lead text {rest} h =
    let (start, count, leads, accepts) = continue_character-parts text (lead_byte lead) h in
    let (c, continues, allowed, character) =
      accept_character-parts count (continuation count start text) accepts in
    (
      c,
      character,
      elim (lead_byte-cases lead start count leads) [
        | inl (low, at, none_left) ↦
            let (same, last) =
              continuation-end start c text rest
                (subst (λ n. continuation n start text ≡ some (c, rest)) none_left continues) in
            ap (◌∷◌ lead) last
            ∙ ap (λ form. form ++ rest) (sym (utf8-one lead c low (sym at ∙ same)))
        | inr (inl (lo, hi, at, one_left)) ↦
            let (b, behind, shape, high, runs) =
              continuation-parts 0 start text
                (subst (λ n. continuation n start text ≡ some (c, rest)) one_left continues) in
            let (same, last) = continuation-end _ c behind rest runs in
            ap (◌∷◌ lead) (shape ∙ ap (◌∷◌ b) last)
            ∙ ap (λ form. form ++ rest)
                (sym
                  (utf8-two lead b c lo hi high (ap (λ s. s * 2 ^ 6 + b % 2 ^ 6) (sym at) ∙ same)))
        | inr (inr (inl (lo, hi, at, two_left))) ↦
            let (b1, behind1, shape1, high1, runs1) =
              continuation-parts 1 start text
                (subst (λ n. continuation n start text ≡ some (c, rest)) two_left continues) in
            let (b2, behind2, shape2, high2, runs2) = continuation-parts 0 _ behind1 runs1 in
            let (same, last) = continuation-end _ c behind2 rest runs2 in
            ap (◌∷◌ lead) (shape1 ∙ ap (◌∷◌ b1) (shape2 ∙ ap (◌∷◌ b2) last))
            ∙ ap (λ form. form ++ rest)
                (sym (
                  utf8-three lead b1 b2 c lo hi high1 high2
                    (ap (λ s. (s * 2 ^ 6 + b1 % 2 ^ 6) * 2 ^ 6 + b2 % 2 ^ 6) (sym at) ∙ same)
                    (excluded-two c (subst (λ n. is_excluded n c ≡ false) two_left allowed))))
        | inr (inr (inr (lo, hi, at, three_left))) ↦
            let (b1, behind1, shape1, high1, runs1) =
              continuation-parts 2 start text
                (subst (λ n. continuation n start text ≡ some (c, rest)) three_left continues) in
            let (b2, behind2, shape2, high2, runs2) = continuation-parts 1 _ behind1 runs1 in
            let (b3, behind3, shape3, high3, runs3) = continuation-parts 0 _ behind2 runs2 in
            let (same, last) = continuation-end _ c behind3 rest runs3 in
            let (low, top) =
              excluded-three c (subst (λ n. is_excluded n c ≡ false) three_left allowed) in
            ap (◌∷◌ lead) (shape1 ∙ ap (◌∷◌ b1) (shape2 ∙ ap (◌∷◌ b2) (shape3 ∙ ap (◌∷◌ b3) last)))
            ∙ ap (λ form. form ++ rest)
                (sym (
                  utf8-four lead b1 b2 b3 c lo hi high1 high2 high3
                    (ap (λ s. ((s * 2 ^ 6 + b1 % 2 ^ 6) * 2 ^ 6 + b2 % 2 ^ 6) * 2 ^ 6 + b3 % 2 ^ 6)
                        (sym at)
                      ∙ same)
                    low))
      ],
    )

utf8_loop-parts :
    (fuel lead : ℕ) (text : Bytes)
    → utf8_loop (suc fuel) (lead ∷ text) ≡ true
    → (rest : Bytes) × (next_character (lead ∷ text) ≡ some rest) × (utf8_loop fuel rest ≡ true)
unfolding utf8_loop
utf8_loop-parts fuel lead text h = found (next_character (lead ∷ text)) refl h
  where
    found :
        (o : Option Bytes)
        → next_character (lead ∷ text) ≡ o
        → elim o [ none ↦ false | some rest ↦ utf8_loop fuel rest ] ≡ true
        → (rest : Bytes) × (next_character (lead ∷ text) ≡ some rest) × (utf8_loop fuel rest ≡ true)
    found none e h = cc
    found (some rest) e h = (rest, e, h)

-- The characters of an accepted text.
abbrev pub IsUtf8 : Bytes → Type 0
IsUtf8 text =
    (characters : List ℕ) × (all is_xml_character characters ≡ true) × (text ≡ utf8_text characters)

utf8_loop-IsUtf8 : (fuel : ℕ) (text : Bytes) → utf8_loop fuel text ≡ true → IsUtf8 text
unfolding utf8_loop
utf8_loop-IsUtf8 fuel [] h = ([], refl, refl)
utf8_loop-IsUtf8 zero (lead ∷ text) h = cc
utf8_loop-IsUtf8 (suc fuel) (lead ∷ text) h =
    let (rest, reads, loops) = utf8_loop-parts fuel lead text h in
    let (c, character, shape) = next_character-parts lead text reads in
    let (characters, good, same) = utf8_loop-IsUtf8 fuel rest loops in
    (c ∷ characters, rw character good, shape ∙ ap (λ form. utf8 c ++ form) same)

utf8-cons : (c : ℕ) → (lead : ℕ) × (tail : Bytes) × (utf8 c ≡ lead ∷ tail)
utf8-cons c = elim (Bool-cases (ltb c 0x80)) [
  | inl one ↦ (c, [], rw one refl)
  | inr a ↦ elim (Bool-cases (ltb c 0x800)) [
    | inl two ↦ (0xc0 + c / 64, (0x80 + c % 64) ∷ [], rw (a, two) refl)
    | inr b ↦ elim (Bool-cases (ltb c 0x10000)) [
      | inl three ↦
          (0xe0 + c / 4096, (0x80 + c / 64 % 64) ∷ (0x80 + c % 64) ∷ [], rw (a, b, three) refl)
      | inr d ↦ (
        0xf0 + c / 262144,
        (0x80 + c / 4096 % 64) ∷ (0x80 + c / 64 % 64) ∷ (0x80 + c % 64) ∷ [],
        rw (a, b, d) refl,
      )
    ]
  ]
]

utf8_loop-step :
    (fuel lead : ℕ) (text rest : Bytes)
    → next_character (lead ∷ text) ≡ some rest
    → utf8_loop (suc fuel) (lead ∷ text) ≡ utf8_loop fuel rest
unfolding utf8_loop
utf8_loop-step fuel lead text rest h =
    ap (λ o. elim o [ none ↦ false | some rest ↦ utf8_loop fuel rest ]) h

utf8_text-accepted :
    (characters : List ℕ) (fuel : ℕ)
    → all is_xml_character characters ≡ true
    → length (utf8_text characters) ≤ fuel
    → utf8_loop fuel (utf8_text characters) ≡ true
unfolding utf8_loop
utf8_text-accepted [] fuel h room = refl
utf8_text-accepted (c ∷ characters) zero h room =
    let (lead, tail, shape) = utf8-cons c in
    let size : length (utf8_text (c ∷ characters)) ≡ suc (length (tail ++ utf8_text characters)) =
      ap (λ form. length (form ++ utf8_text characters)) shape in
    absurd (omega (arith, size))
utf8_text-accepted (c ∷ characters) (suc fuel) h room =
    let (lead, tail, shape) = utf8-cons c in
    let rest = utf8_text characters in
    let (character, good) = and_parts (is_xml_character c) (all is_xml_character characters) h in
    let size : length (utf8 c ++ rest) ≡ suc (length tail + length rest) =
      ap (λ form. length (form ++ rest)) shape ∙ ap suc (length-append tail rest) in
    ap (λ form. utf8_loop (suc fuel) (form ++ rest)) shape
    ∙ utf8_loop-step fuel lead (tail ++ rest) rest (
        ap (λ form. next_character (form ++ rest)) (sym shape)
        ∙ next_character-utf8 c rest character)
    ∙ utf8_text-accepted characters fuel good (omega (arith, size))
  where
    and_parts : (a b : Bool) → a && b ≡ true → (a ≡ true) × (b ≡ true)
    and_parts a b h = (ground arith, ground arith)

-- The UTF-8 forms of characters that XML allows.
abbrev pub IsXmlUtf8 : Bytes → Type 0
IsXmlUtf8 text =
    (characters : List ℕ) × All IsXmlCharacter characters × (text ≡ utf8_text characters)

-- A text is accepted exactly when it is the UTF-8 form of characters that XML allows.
pub is_valid_xml_utf8_iff : (text : Bytes) → is_valid_xml_utf8 text ≡ true ↔ IsXmlUtf8 text
unfolding is_valid_xml_utf8
is_valid_xml_utf8_iff text = (
  λ h.
      let (characters, good, same) = utf8_loop-IsUtf8 (length text) text h in
      (characters, (characters_iff characters).0 good, same),
  λ (characters, good, same).
      ap (utf8_loop (length text)) same
      ∙ utf8_text-accepted characters (length text) ((characters_iff characters).1 good)
          (omega (arith, ap length same)),
)
