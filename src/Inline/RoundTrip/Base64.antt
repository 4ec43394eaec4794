-- ===== src/Inline/RoundTrip/Base64.antt =====
-- Base 64: the whole text.
use mmxisf.Base.{
  ℕ, ◌+◌, ◌*◌, ◌/◌, ◌%◌, ◌^◌, ◌≤◌, ◌<◌, ◌≡◌, refl, sym, ap, ◌∙◌, false, [], ◌∷◌, ◌++◌, arith,
  length, All, length-append, append-nil, snoc-append,
}
use mmxisf.Base.Text.{Bytes}
use mmxisf.Base.Error.{Result, ok}
use mmxisf.Document.{ReaderOptions}
use mmxisf.Inline.{
  InlineTarget, InlineDecoder, new_decoder, base64, limit_of, padding, decode_embedded_text,
  push_quartet, is_incomplete,
}
use mmxisf.Inline.RoundTrip.{
  base64_digit, base64_text, without_blanks, decode_embedded_text-blanks, decode_embedded_text-step,
  digit_facts, running, ended, digit-push, padding-push, quartet-start, quartet-one, quartet-two,
  quartet-three,
}

first_byte :
    (a b : ℕ) → a < 256 → b < 256 → (a / 4 * 2 ^ 2 + (a % 4 * 16 + b / 16) / 2 ^ 4) % 2 ^ 8 ≡ a
first_byte a b h k = omega arith

second_byte :
    (a b c : ℕ)
    → a < 256
    → b < 256
    → c < 256
    → ((a % 4 * 16 + b / 16) * 2 ^ 4 + (b % 16 * 4 + c / 64) / 2 ^ 2) % 2 ^ 8 ≡ b
second_byte a b c h k l = omega arith

third_byte : (b c : ℕ) → b < 256 → c < 256 → ((b % 16 * 4 + c / 64) * 2 ^ 6 + c % 64) % 2 ^ 8 ≡ c
third_byte b c h k = omega arith

module _ (options : ReaderOptions) (target : InlineTarget) where
  -- What the decoder has at the end of a text.
  abbrev Decodes : Result InlineDecoder → Bytes → Type 0
  Decodes run bytes =
      (final : InlineDecoder) × (run ≡ ok final)
      × (final.output ≡ bytes)
      × (is_incomplete final ≡ false)

  decode_embedded_text-nil :
      (state : InlineDecoder) → decode_embedded_text options state [] ≡ ok state
  unfolding decode_embedded_text
  decode_embedded_text-nil state = refl

  -- A group of three bytes.
  group-three :
      (output : Bytes) (count a b c : ℕ) (text : Bytes)
      → (a < 256) × (b < 256) × (c < 256)
      → length output + 3 ≤ limit_of options target
      → count + 4 ≤ options.max_encoded_block_bytes
      → decode_embedded_text options (running options target output count []) (
          base64_digit (a / 4)
          ∷ base64_digit (a % 4 * 16 + b / 16)
          ∷ base64_digit (b % 16 * 4 + c / 64)
          ∷ base64_digit (c % 64)
          ∷ text)
        ≡ decode_embedded_text options
            (running options target (((output ++ a ∷ []) ++ b ∷ []) ++ c ∷ []) (count + 4) [])
            text
  group-three output count a b c text (ha, hb, hc) room below =
      let v0 = a / 4 in
      let v1 = a % 4 * 16 + b / 16 in
      let v2 = b % 16 * 4 + c / 64 in
      let v3 = c % 64 in
      let e : count + 2 + 1 ≡ count + 3 = omega arith in
      let f : count + 3 + 1 ≡ count + 4 = omega arith in
      quartet-start options target output count v0 v1 (base64_digit v2) v2 _ (omega arith)
        (omega arith) (omega arith) (digit_facts v2 (omega arith)).0
        (digit-push options target output (count + 2) (v0 ∷ v1 ∷ []) v2 (omega arith) (omega arith)
          ∙ ap
              (λ n.
                push_quartet options (running options target output n (v0 ∷ v1 ∷ [])) (v0 ∷ v1 ∷ [])
                  v2)
              e)
      ∙ decode_embedded_text-step options _ _ (base64_digit v3) text
          (digit_facts v3 (omega arith)).0
          (digit-push options target output (count + 3) (v0 ∷ v1 ∷ v2 ∷ []) v3 (omega arith)
              (omega arith)
            ∙ ap
                (λ n.
                  push_quartet options (running options target output n (v0 ∷ v1 ∷ v2 ∷ []))
                    (v0 ∷ v1 ∷ v2 ∷ []) v3)
                f
            ∙ quartet-three options target output (count + 4) v0 v1 v2 v3 a b c
                (omega arith, omega arith, omega arith, omega arith) room (first_byte a b ha hb)
                (second_byte a b c ha hb hc) (third_byte b c hb hc))

  -- Two bytes at the end, and one.
  group-two :
      (output : Bytes) (count a b : ℕ)
      → (a < 256) × (b < 256)
      → length output + 2 ≤ limit_of options target
      → count + 4 ≤ options.max_encoded_block_bytes
      → decode_embedded_text options
          (running options target output count [])
          (base64_text (a ∷ b ∷ []))
        ≡ ok (ended options target ((output ++ a ∷ []) ++ b ∷ []) (count + 4))
  group-two output count a b (ha, hb) room below =
      let v0 = a / 4 in
      let v1 = a % 4 * 16 + b / 16 in
      let v2 = b % 16 * 4 in
      let e : count + 2 + 1 ≡ count + 3 = omega arith in
      let f : count + 3 + 1 ≡ count + 4 = omega arith in
      quartet-start options target output count v0 v1 (base64_digit v2) v2 _ (omega arith)
        (omega arith) (omega arith) (digit_facts v2 (omega arith)).0
        (digit-push options target output (count + 2) (v0 ∷ v1 ∷ []) v2 (omega arith) (omega arith)
          ∙ ap
              (λ n.
                push_quartet options (running options target output n (v0 ∷ v1 ∷ [])) (v0 ∷ v1 ∷ [])
                  v2)
              e)
      ∙ decode_embedded_text-step options _ _ b'=' [] refl (
          padding-push options target output (count + 3) (v0 ∷ v1 ∷ v2 ∷ []) (omega arith)
          ∙ ap
              (λ n.
                push_quartet options (running options target output n (v0 ∷ v1 ∷ v2 ∷ []))
                  (v0 ∷ v1 ∷ v2 ∷ []) padding)
              f
          ∙ quartet-two options target output (count + 4) v0 v1 v2 a b
              (omega arith, omega arith, omega arith) room (omega arith) (first_byte a b ha hb)
              (second_last a b ha hb))
      ∙ decode_embedded_text-nil (ended options target ((output ++ a ∷ []) ++ b ∷ []) (count + 4))
    where
      second_last :
          (a b : ℕ)
          → a < 256
          → b < 256
          → ((a % 4 * 16 + b / 16) * 2 ^ 4 + b % 16 * 4 / 2 ^ 2) % 2 ^ 8 ≡ b
      second_last a b h k = omega arith

  group-one :
      (output : Bytes) (count a : ℕ)
      → a < 256
      → length output + 1 ≤ limit_of options target
      → count + 4 ≤ options.max_encoded_block_bytes
      → decode_embedded_text options (running options target output count []) (base64_text (a ∷ []))
        ≡ ok (ended options target (output ++ a ∷ []) (count + 4))
  group-one output count a ha room below =
      let v0 = a / 4 in
      let v1 = a % 4 * 16 in
      let e : count + 2 + 1 ≡ count + 3 = omega arith in
      let f : count + 3 + 1 ≡ count + 4 = omega arith in
      quartet-start options target output count v0 v1 b'=' padding _ (omega arith) (omega arith)
        (omega arith) refl
        (padding-push options target output (count + 2) (v0 ∷ v1 ∷ []) (omega arith)
          ∙ ap
              (λ n.
                push_quartet options (running options target output n (v0 ∷ v1 ∷ [])) (v0 ∷ v1 ∷ [])
                  padding)
              e)
      ∙ decode_embedded_text-step options _ _ b'=' [] refl (
          padding-push options target output (count + 3) (v0 ∷ v1 ∷ padding ∷ []) (omega arith)
          ∙ ap
              (λ n.
                push_quartet options (running options target output n (v0 ∷ v1 ∷ padding ∷ []))
                  (v0 ∷ v1 ∷ padding ∷ []) padding)
              f
          ∙ quartet-one options target output (count + 4) v0 v1 a (omega arith, omega arith) room
              (omega arith) (only_byte a ha))
      ∙ decode_embedded_text-nil (ended options target (output ++ a ∷ []) (count + 4))
    where
      only_byte : (a : ℕ) → a < 256 → (a / 4 * 2 ^ 2 + a % 4 * 16 / 2 ^ 4) % 2 ^ 8 ≡ a
      only_byte a h = omega arith

  base64_text-Decodes :
      (output : Bytes) (count : ℕ) (bytes : Bytes)
      → All (λ b. b < 256) bytes
      → length output + length bytes ≤ limit_of options target
      → count + length (base64_text bytes) ≤ options.max_encoded_block_bytes
      → Decodes
          (decode_embedded_text options
            (running options target output count [])
            (base64_text bytes))
          (output ++ bytes)
  unfolding ended is_incomplete
  base64_text-Decodes output count [] small room below = (
    running options target output count [],
    decode_embedded_text-nil (running options target output count []),
    sym (append-nil output),
    refl,
  )
  base64_text-Decodes output count (a ∷ []) (ha, t) room below = (
    ended options target (output ++ a ∷ []) (count + 4),
    group-one output count a ha (omega arith) (omega arith),
    refl,
    refl,
  )
  base64_text-Decodes output count (a ∷ b ∷ []) (ha, (hb, t)) room below = (
    ended options target ((output ++ a ∷ []) ++ b ∷ []) (count + 4),
    group-two output count a b (ha, hb) (omega arith) (omega arith),
    snoc-append output a (b ∷ []),
    refl,
  )
  base64_text-Decodes output count (a ∷ b ∷ c ∷ bytes) (ha, (hb, (hc, small))) room below =
      let longer = ((output ++ a ∷ []) ++ b ∷ []) ++ c ∷ [] in
      let size : length longer ≡ length output + 3 = omega (
        arith,
        length-append ((output ++ a ∷ []) ++ b ∷ []) (c ∷ []),
        length-append (output ++ a ∷ []) (b ∷ []),
        length-append output (a ∷ []),
      ) in
      let (final, runs, same, whole) =
        base64_text-Decodes longer (count + 4) bytes small (omega (arith, size)) (omega arith) in
      (
        final,
        group-three output count a b c (base64_text bytes) (ha, hb, hc) (omega arith) (omega arith)
            ∙ runs,
        same
            ∙ snoc-append ((output ++ a ∷ []) ++ b ∷ []) c bytes
            ∙ snoc-append (output ++ a ∷ []) b (c ∷ bytes)
            ∙ snoc-append output a (b ∷ c ∷ bytes),
        whole,
      )

  -- A text in base 64, with blanks anywhere in it, is decoded to its bytes and leaves nothing open,
  -- when the limits on the text and on the block leave room.
  pub decode_embedded_text-base64 :
      (bytes text : Bytes)
      → All (λ b. b < 256) bytes
      → without_blanks text ≡ base64_text bytes
      → length bytes ≤ limit_of options target
      → length (base64_text bytes) ≤ options.max_encoded_block_bytes
      → (final : InlineDecoder) × (decode_embedded_text options (new_decoder target base64) text
          ≡ ok final)
        × (final.output ≡ bytes)
        × (is_incomplete final ≡ false)
  decode_embedded_text-base64 bytes text small shape room below =
      let (final, runs, same, whole) =
        base64_text-Decodes [] 0 bytes small (omega arith) (omega arith) in
      (
        final,
        decode_embedded_text-blanks options (new_decoder target base64) text
            ∙ ap (decode_embedded_text options (new_decoder target base64)) shape
            ∙ runs,
        same,
        whole,
      )
