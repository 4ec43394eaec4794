-- ===== src/Inline/RoundTrip/Base16.antt =====
-- Base 16: the whole text.
use mmxisf.Base.{
  ℕ, ◌+◌, ◌-◌, ◌*◌, ◌/◌, ◌%◌, ◌^◌, ◌≤◌, ◌<◌, ◌≡◌, refl, sym, ap, ap₂, ◌∙◌, Bool, true, false, not,
  ◌&&◌, Option, none, some, [], ◌∷◌, ◌++◌, arith, ltb, ◌==◌, if◌then◌else◌, length, All,
  length-append, append-nil, snoc-append, gt→leb,
}
use mmxisf.Base.Text.{Bytes}
use mmxisf.Base.Error.{ok}
use mmxisf.Base.Bits.{check_below, check_below_sound}
use mmxisf.Document.{ReaderOptions}
use mmxisf.Inline.{
  InlineTarget, InlineDecoder, new_decoder, hex, limit_of, decode_embedded_text, decode_character,
  decode_hex_character, push_digit, push_nibble, nibble_of, is_blank, is_incomplete,
}
use mmxisf.Inline.RoundTrip.{
  without_blanks, decode_embedded_text-blanks, decode_embedded_text-step, append_inline_byte-ok,
}

abbrev pub base16_digit : ℕ → ℕ
base16_digit v = if ltb v 10 then b'0' + v else b'a' + (v - 10)

abbrev pub base16_text : Bytes → Bytes
base16_text [] = []
base16_text (a ∷ bytes) = base16_digit (a / 16) ∷ base16_digit (a % 16) ∷ base16_text bytes

digit_ok : ℕ → Bool
digit_ok v =
    not (is_blank (base16_digit v))
    && elim (nibble_of (base16_digit v)) [ none ↦ false | some w ↦ w == v ]

digits_ok : check_below 16 digit_ok ≡ true
unfolding digit_ok nibble_of
digits_ok = refl

digit_facts :
    (v : ℕ) → v < 16 → (is_blank (base16_digit v) ≡ false) × (nibble_of (base16_digit v) ≡ some v)
unfolding digit_ok
digit_facts v h =
    parts (is_blank (base16_digit v)) (nibble_of (base16_digit v))
      (check_below_sound 16 digit_ok v digits_ok h)
  where
    parts :
        (a : Bool) (o : Option ℕ)
        → not a && elim o [ none ↦ false | some w ↦ w == v ] ≡ true
        → (a ≡ false) × (o ≡ some v)
    parts a o h = ground arith

joined : (a : ℕ) → a < 256 → (a / 16 * 2 ^ 4 + a % 16) % 2 ^ 8 ≡ a
joined a h = omega arith

module _ (options : ReaderOptions) (target : InlineTarget) where
  abbrev running : Bytes → ℕ → Option ℕ → InlineDecoder
  running output count nibble = record {
    target = target;
    embedded_encoding = hex;
    output = output;
    encoded_block_bytes = count;
    hex_high_nibble = nibble;
    base64_quartet = [];
    base64_complete = false;
  }

  decode_hex_character-ok :
      (state : InlineDecoder) (c v : ℕ)
      → nibble_of c ≡ some v
      → decode_hex_character options state c ≡ push_nibble options state state.hex_high_nibble v
  unfolding decode_hex_character push_digit
  decode_hex_character-ok state c v e = ap (push_digit options state) e

  digit-push :
      (output : Bytes) (count : ℕ) (open_nibble : Option ℕ) (v : ℕ)
      → v < 16
      → count < options.max_encoded_block_bytes
      → decode_character options (running output count open_nibble) (base16_digit v)
        ≡ push_nibble options (running output (count + 1) open_nibble) open_nibble v
  unfolding decode_character
  digit-push output count open_nibble v h below =
      rw (gt→leb options.max_encoded_block_bytes count below) (
        decode_hex_character-ok (running output (count + 1) open_nibble) (base16_digit v) v
          (digit_facts v h).1)

  push_pair :
      (output : Bytes) (count a : ℕ)
      → a < 256
      → length output < limit_of options target
      → push_nibble options (running output count (some (a / 16))) (some (a / 16)) (a % 16)
        ≡ ok (running (output ++ a ∷ []) count none)
  unfolding push_nibble
  push_pair output count a ha room =
      rw
        (append_inline_byte-ok options (running output count (some (a / 16)))
          (a / 16 * 2 ^ 4 + a % 16) a room (joined a ha))
        refl

  pair :
      (output : Bytes) (count a : ℕ) (text : Bytes)
      → a < 256
      → length output < limit_of options target
      → count + 2 ≤ options.max_encoded_block_bytes
      → decode_embedded_text options
          (running output count none)
          (base16_digit (a / 16) ∷ base16_digit (a % 16) ∷ text)
        ≡ decode_embedded_text options (running (output ++ a ∷ []) (count + 2) none) text
  unfolding push_nibble
  pair output count a text ha room below =
      let e : count + 1 + 1 ≡ count + 2 = omega arith in
      decode_embedded_text-step options _ (running output (count + 1) (some (a / 16)))
        (base16_digit (a / 16)) _ (digit_facts (a / 16) (omega arith)).0
        (digit-push output count none (a / 16) (omega arith) (omega arith))
      ∙ decode_embedded_text-step options _ _ (base16_digit (a % 16)) text
          (digit_facts (a % 16) (omega arith)).0
          (digit-push output (count + 1) (some (a / 16)) (a % 16) (omega arith) (omega arith)
            ∙ ap
                (λ n.
                  push_nibble options (running output n (some (a / 16))) (some (a / 16)) (a % 16))
                e
            ∙ push_pair output (count + 2) a ha room)

  base16_text-decoded :
      (output : Bytes) (count : ℕ) (bytes : Bytes)
      → All (λ b. b < 256) bytes
      → length output + length bytes ≤ limit_of options target
      → count + 2 * length bytes ≤ options.max_encoded_block_bytes
      → decode_embedded_text options (running output count none) (base16_text bytes)
        ≡ ok (running (output ++ bytes) (count + 2 * length bytes) none)
  unfolding decode_embedded_text
  base16_text-decoded output count [] small room below =
      let e : count + 2 * 0 ≡ count = omega arith in
      ap₂ (λ o n. ok (running o n none)) (sym (append-nil output)) (sym e)
  base16_text-decoded output count (a ∷ bytes) (ha, small) room below =
      let e : count + 2 + 2 * length bytes ≡ count + 2 * length (a ∷ bytes) = omega arith in
      pair output count a (base16_text bytes) ha (omega arith) (omega arith)
      ∙ base16_text-decoded (output ++ a ∷ []) (count + 2) bytes small
          (omega (arith, length-append output (a ∷ []))) (omega arith)
      ∙ ap₂ (λ o n. ok (running o n none)) (snoc-append output a bytes) e

  -- A text in base 16, with blanks anywhere in it, is decoded to its bytes and leaves nothing open,
  -- when the limits on the text and on the block leave room.
  pub decode_embedded_text-base16 :
      (bytes text : Bytes)
      → All (λ b. b < 256) bytes
      → without_blanks text ≡ base16_text bytes
      → length bytes ≤ limit_of options target
      → 2 * length bytes ≤ options.max_encoded_block_bytes
      → (final : InlineDecoder) × (decode_embedded_text options (new_decoder target hex) text
          ≡ ok final)
        × (final.output ≡ bytes)
        × (is_incomplete final ≡ false)
  unfolding is_incomplete
  decode_embedded_text-base16 bytes text small shape room below = (
    running bytes (0 + 2 * length bytes) none,
    decode_embedded_text-blanks options (new_decoder target hex) text
        ∙ ap (decode_embedded_text options (new_decoder target hex)) shape
        ∙ base16_text-decoded [] 0 bytes small (omega arith) (omega arith),
    refl,
    refl,
  )
