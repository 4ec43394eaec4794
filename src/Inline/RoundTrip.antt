-- ===== src/Inline/RoundTrip.antt =====
-- A text in base 64 or base 16 is decoded to the bytes that it encodes.
pub mod Base16
pub mod Base64
use Prim.Native.String.{String}
use mmxisf.Base.{
  ℕ, ◌+◌, ◌-◌, ◌*◌, ◌/◌, ◌%◌, ◌^◌, ◌≤◌, ◌<◌, ◌≡◌, refl, ap, ◌∙◌, inl, inr, Bool, true, false, not,
  ◌&&◌, Option, none, some, List, [], ◌∷◌, ◌++◌, arith, ltb, ◌==◌, if◌then◌else◌, Bool-cases,
  length, length-append, gt→leb,
}
use mmxisf.Base.Text.{Bytes}
use mmxisf.Base.Error.{Result, ok, err, ◌>>=◌, ◌>>◌}
use mmxisf.Base.Bits.{check_below, check_below_sound}
use mmxisf.Document.{ReaderOptions}
use mmxisf.Inline.{
  base64, InlineTarget, InlineDecoder, limit_of, base64_value, append_inline_byte, padding,
  decode_base64_quartet, push_quartet, decode_base64_character, is_blank, decode_character,
  decode_embedded_text,
}

-- The alphabet, and the text of a block in groups of three bytes.
abbrev pub base64_digit : ℕ → ℕ
base64_digit v =
    if ltb v 26
    then b'A' + v
    else if ltb v 52
    then b'a' + (v - 26)
    else if ltb v 62
    then b'0' + (v - 52)
    else if v == 62
    then b'+'
    else b'/'

abbrev pub base64_text : Bytes → Bytes
base64_text [] = []
base64_text (a ∷ []) = base64_digit (a / 4) ∷ base64_digit (a % 4 * 16) ∷ b'=' ∷ b'=' ∷ []
base64_text (a ∷ b ∷ []) =
    base64_digit (a / 4)
    ∷ base64_digit (a % 4 * 16 + b / 16)
    ∷ base64_digit (b % 16 * 4)
    ∷ b'='
    ∷ []
base64_text (a ∷ b ∷ c ∷ bytes) =
    base64_digit (a / 4)
    ∷ base64_digit (a % 4 * 16 + b / 16)
    ∷ base64_digit (b % 16 * 4 + c / 64)
    ∷ base64_digit (c % 64)
    ∷ base64_text bytes

-- The text between blanks.
abbrev pub without_blanks : Bytes → Bytes
without_blanks [] = []
without_blanks (c ∷ text) = if is_blank c then without_blanks text else c ∷ without_blanks text

>>=-ext :
    {A B : Type 0} (m : Result A) (f g : A → Result B)
    → ((a : A) → f a ≡ g a)
    → (m >>= f) ≡ (m >>= g)
>>=-ext (err e) f g h = refl
>>=-ext (ok a) f g h = h a

pub decode_embedded_text-blanks :
    (options : ReaderOptions) (state : InlineDecoder) (text : Bytes)
    → decode_embedded_text options state text
      ≡ decode_embedded_text options state (without_blanks text)
unfolding decode_embedded_text
decode_embedded_text-blanks options state [] = refl
decode_embedded_text-blanks options state (c ∷ text) = elim (Bool-cases (is_blank c)) [
  | inl blank ↦ rw blank (decode_embedded_text-blanks options state text)
  | inr visible ↦
      rw (visible, visible)
        (>>=-ext (decode_character options state c) _ _
          (λ decoded. decode_embedded_text-blanks options decoded text))
]

-- One visible character.
pub decode_embedded_text-step :
    (options : ReaderOptions) (state next : InlineDecoder) (c : ℕ) (text : Bytes)
    → is_blank c ≡ false
    → decode_character options state c ≡ ok next
    → decode_embedded_text options state (c ∷ text) ≡ decode_embedded_text options next text
unfolding decode_embedded_text
decode_embedded_text-step options state next c text visible decoded = rw (visible, decoded) refl

digit_ok : ℕ → Bool
digit_ok v =
    not (is_blank (base64_digit v))
    && not (base64_digit v == b'=')
    && elim (base64_value (base64_digit v)) [ none ↦ false | some w ↦ w == v ]

digits_ok : check_below 64 digit_ok ≡ true
unfolding digit_ok base64_value
digits_ok = refl

digit_facts :
    (v : ℕ)
    → v < 64
    → (is_blank (base64_digit v) ≡ false)
      × ((base64_digit v == b'=') ≡ false)
      × (base64_value (base64_digit v) ≡ some v)
unfolding digit_ok
digit_facts v h =
    let good : digit_ok v ≡ true = check_below_sound 64 digit_ok v digits_ok h in
    (parts (is_blank (base64_digit v)) (base64_digit v == b'=') (base64_value (base64_digit v))
      good)
  where
    parts :
        (a b : Bool) (o : Option ℕ)
        → not a && not b && elim o [ none ↦ false | some w ↦ w == v ] ≡ true
        → (a ≡ false) × (b ≡ false) × (o ≡ some v)
    parts a b o h = ground arith

pub append_inline_byte-ok :
    (options : ReaderOptions) (state : InlineDecoder) (value byte : ℕ)
    → length state.output < limit_of options state.target
    → value % 2 ^ 8 ≡ byte
    → append_inline_byte options state value
      ≡ ok (record state { output = state.output ++ byte ∷ [] })
unfolding append_inline_byte
append_inline_byte-ok options state value byte h e =
    rw (gt→leb (limit_of options state.target) (length state.output) h, e) refl

module _ (options : ReaderOptions) (target : InlineTarget) where
  -- Between two characters: the bytes so far, the characters so far, and the open quartet.
  abbrev running : Bytes → ℕ → List ℕ → InlineDecoder
  running output count quartet = record {
    target = target;
    embedded_encoding = base64;
    output = output;
    encoded_block_bytes = count;
    hex_high_nibble = none;
    base64_quartet = quartet;
    base64_complete = false;
  }

  digit-push :
      (output : Bytes) (count : ℕ) (quartet : List ℕ) (v : ℕ)
      → v < 64
      → count < options.max_encoded_block_bytes
      → decode_character options (running output count quartet) (base64_digit v)
        ≡ push_quartet options (running output (count + 1) quartet) quartet v
  unfolding decode_character decode_base64_character
  digit-push output count quartet v h below =
      let (visible, symbol, value) = digit_facts v h in
      rw (gt→leb options.max_encoded_block_bytes count below, symbol, value) refl

  padding-push :
      (output : Bytes) (count : ℕ) (quartet : List ℕ)
      → count < options.max_encoded_block_bytes
      → decode_character options (running output count quartet) b'='
        ≡ push_quartet options (running output (count + 1) quartet) quartet padding
  unfolding decode_character decode_base64_character
  padding-push output count quartet below =
      rw (gt→leb options.max_encoded_block_bytes count below) refl

  -- The first three characters of a quartet.
  quartet-start :
      (output : Bytes) (count v0 v1 c2 v2 : ℕ) (text : Bytes)
      → v0 < 64
      → v1 < 64
      → count + 3 ≤ options.max_encoded_block_bytes
      → is_blank c2 ≡ false
      → decode_character options (running output (count + 2) (v0 ∷ v1 ∷ [])) c2
        ≡ push_quartet options (running output (count + 3) (v0 ∷ v1 ∷ [])) (v0 ∷ v1 ∷ []) v2
      → decode_embedded_text options
          (running output count [])
          (base64_digit v0 ∷ base64_digit v1 ∷ c2 ∷ text)
        ≡ decode_embedded_text options (running output (count + 3) (v0 ∷ v1 ∷ v2 ∷ [])) text
  unfolding push_quartet
  quartet-start output count v0 v1 c2 v2 text h0 h1 below visible third =
      let e : count + 1 + 1 ≡ count + 2 = omega arith in
      decode_embedded_text-step options _ (running output (count + 1) (v0 ∷ [])) (base64_digit v0) _
        (digit_facts v0 h0).0 (digit-push output count [] v0 h0 (omega arith))
      ∙ decode_embedded_text-step options _ (running output (count + 2) (v0 ∷ v1 ∷ []))
          (base64_digit v1) _ (digit_facts v1 h1).0
          (digit-push output (count + 1) (v0 ∷ []) v1 h1 (omega arith)
            ∙ ap (λ n. ok (running output n (v0 ∷ v1 ∷ []))) e)
      ∙ decode_embedded_text-step options _ (running output (count + 3) (v0 ∷ v1 ∷ v2 ∷ [])) c2 _
          visible third

  not_padding : (v : ℕ) → v < 64 → (v == padding) ≡ false
  not_padding v h = ground arith

  longer : (output : Bytes) (byte : ℕ) → length (output ++ byte ∷ []) ≡ length output + 1
  longer output byte = length-append output (byte ∷ [])

  quartet-three :
      (output : Bytes) (count v0 v1 v2 v3 a b c : ℕ)
      → (v0 < 64) × (v1 < 64) × (v2 < 64) × (v3 < 64)
      → length output + 3 ≤ limit_of options target
      → (v0 * 2 ^ 2 + v1 / 2 ^ 4) % 2 ^ 8 ≡ a
      → (v1 * 2 ^ 4 + v2 / 2 ^ 2) % 2 ^ 8 ≡ b
      → (v2 * 2 ^ 6 + v3) % 2 ^ 8 ≡ c
      → push_quartet options (running output count (v0 ∷ v1 ∷ v2 ∷ [])) (v0 ∷ v1 ∷ v2 ∷ []) v3
        ≡ ok (running (((output ++ a ∷ []) ++ b ∷ []) ++ c ∷ []) count [])
  unfolding push_quartet decode_base64_quartet
  quartet-three output count v0 v1 v2 v3 a b c (h0, h1, h2, h3) room ea eb ec =
      let one = longer output a in
      let two = longer (output ++ a ∷ []) b in
      rw
        (
          not_padding v0 h0,
          not_padding v1 h1,
          append_inline_byte-ok options (running output count (v0 ∷ v1 ∷ v2 ∷ []))
              (v0 * 2 ^ 2 + v1 / 2 ^ 4) a (omega arith) ea,
          not_padding v2 h2,
          append_inline_byte-ok options (running (output ++ a ∷ []) count (v0 ∷ v1 ∷ v2 ∷ []))
              (v1 * 2 ^ 4 + v2 / 2 ^ 2) b (omega (arith, one)) eb,
          not_padding v3 h3,
          append_inline_byte-ok options
              (running ((output ++ a ∷ []) ++ b ∷ []) count (v0 ∷ v1 ∷ v2 ∷ [])) (v2 * 2 ^ 6 + v3) c
              (omega (arith, one, two)) ec,
        )
        refl

  -- The end of a text: one byte or two, and the padding.
  ended : Bytes → ℕ → InlineDecoder
  ended output count = record (running output count []) { base64_complete = true }

  quartet-two :
      (output : Bytes) (count v0 v1 v2 a b : ℕ)
      → (v0 < 64) × (v1 < 64) × (v2 < 64)
      → length output + 2 ≤ limit_of options target
      → v2 % 2 ^ 2 ≡ 0
      → (v0 * 2 ^ 2 + v1 / 2 ^ 4) % 2 ^ 8 ≡ a
      → (v1 * 2 ^ 4 + v2 / 2 ^ 2) % 2 ^ 8 ≡ b
      → push_quartet options (running output count (v0 ∷ v1 ∷ v2 ∷ [])) (v0 ∷ v1 ∷ v2 ∷ []) padding
        ≡ ok (ended ((output ++ a ∷ []) ++ b ∷ []) count)
  unfolding push_quartet decode_base64_quartet ended
  quartet-two output count v0 v1 v2 a b (h0, h1, h2) room clean ea eb =
      let one = longer output a in
      rw
        (
          not_padding v0 h0,
          not_padding v1 h1,
          append_inline_byte-ok options (running output count (v0 ∷ v1 ∷ v2 ∷ []))
              (v0 * 2 ^ 2 + v1 / 2 ^ 4) a (omega arith) ea,
          not_padding v2 h2,
          append_inline_byte-ok options (running (output ++ a ∷ []) count (v0 ∷ v1 ∷ v2 ∷ []))
              (v1 * 2 ^ 4 + v2 / 2 ^ 2) b (omega (arith, one)) eb,
          clean,
        )
        refl

  quartet-one :
      (output : Bytes) (count v0 v1 a : ℕ)
      → (v0 < 64) × (v1 < 64)
      → length output + 1 ≤ limit_of options target
      → v1 % 2 ^ 4 ≡ 0
      → (v0 * 2 ^ 2 + v1 / 2 ^ 4) % 2 ^ 8 ≡ a
      → push_quartet options
          (running output count (v0 ∷ v1 ∷ padding ∷ []))
          (v0 ∷ v1 ∷ padding ∷ [])
          padding
        ≡ ok (ended (output ++ a ∷ []) count)
  unfolding push_quartet decode_base64_quartet ended
  quartet-one output count v0 v1 a (h0, h1) room clean ea =
      rw
        (
          not_padding v0 h0,
          not_padding v1 h1,
          append_inline_byte-ok options (running output count (v0 ∷ v1 ∷ padding ∷ []))
              (v0 * 2 ^ 2 + v1 / 2 ^ 4) a (omega arith) ea,
          clean,
        )
        refl
