-- ===== src/Read/Fetch/Carried.antt =====
-- A block that its serialized bytes carry is returned, and only with the declared digest.
use mmxisf.Base.{
  ℕ, ◌<◌, ◌≡◌, refl, sym, ap, ◌∙◌, ◌⊎◌, inl, inr, Bool, true, false, ◌||◌, some, arith, Bool-cases,
  length, length-replicate,
}
use mmxisf.Base.Text.{Bytes, bytes_eq, bytes_eq_iff}
use mmxisf.Base.Error.{Result, ok, >>=-eq-ok, StopToken, Never}
use mmxisf.Buffer.Nested.{splice-all}
use mmxisf.Block.{
  CompressionCodec, none_codec, zlib, lz4, lz4hc, zstd, CompressionPlan, ChecksumPlan, Codecs,
}
use mmxisf.Block.Decode.{is_declared, verify_checksum}
use mmxisf.Block.Restore.{Encodes, decode_compressed_block-Encodes}
use mmxisf.Read.Fetch.{is_compressed, is_staged, zeros, keep_bytes, read_block}

-- The serialized bytes are the block, or its pieces as the library compresses them.
abbrev pub IsForm : Codecs → CompressionPlan → CompressionCodec → Bytes → Bytes → Type 0
IsForm lib compression none_codec serialized block = serialized ≡ block
IsForm lib compression codec serialized block =
    (0 < compression.item_size) × Encodes lib compression block 0 compression.subblocks serialized

-- The serialized bytes have the declared digest and carry the block.
abbrev pub Carries : Codecs → CompressionPlan → ChecksumPlan → Bytes → Bytes → Type 0
Carries lib compression checksum serialized block =
    (verify_checksum lib checksum serialized ≡ ok true)
    × IsForm lib compression compression.codec serialized block

pub IsForm-cases :
    (lib : Codecs) (compression : CompressionPlan) (codec : CompressionCodec)
    (serialized block : Bytes)
    → IsForm lib compression codec serialized block
    → ((is_compressed codec ≡ false) × (serialized ≡ block))
      ⊎ ((is_compressed codec ≡ true)
          × (0 < compression.item_size)
          × Encodes lib compression block 0 compression.subblocks serialized)
IsForm-cases lib compression none_codec serialized block form = inl (refl, form)
IsForm-cases lib compression zlib serialized block form = inr (refl, form.0, form.1)
IsForm-cases lib compression lz4 serialized block form = inr (refl, form.0, form.1)
IsForm-cases lib compression lz4hc serialized block form = inr (refl, form.0, form.1)
IsForm-cases lib compression zstd serialized block form = inr (refl, form.0, form.1)

-- `copy` fills a buffer of the right size with the serialized bytes.
abbrev pub Copies : (Bytes → Result ℕ × Bytes) → Bytes → Type 0
Copies copy serialized =
    (destination : Bytes)
    → length destination ≡ length serialized
    → copy destination ≡ (ok (length serialized), serialized)

pub zeros-same : (n : ℕ) (bytes : Bytes) → n ≡ length bytes → length (zeros n) ≡ length bytes
zeros-same n bytes e = length-replicate n 0 ∙ e

pub read_block-Carries :
    (lib : Codecs) (copy : Bytes → Result ℕ × Bytes) (compression : CompressionPlan)
    (checksum : ChecksumPlan) (serialized_bytes expected_bytes : ℕ) (serialized block : Bytes)
    (stop : StopToken)
    → Never stop
    → Copies copy serialized
    → serialized_bytes ≡ length serialized
    → expected_bytes ≡ length block
    → Carries lib compression checksum serialized block
    → read_block lib copy compression checksum serialized_bytes expected_bytes stop ≡ ok block
unfolding read_block
read_block-Carries lib copy compression checksum serialized_bytes expected_bytes serialized block
      stop never copies stored decoded (verified, form) =
    elim (IsForm-cases lib compression compression.codec serialized block form) [
      | inl (plain, same) ↦ elim (Bool-cases (is_declared checksum.algorithm)) [
        | inl declared ↦
            rw (plain, declared, copies (zeros serialized_bytes) (zeros-same _ _ stored), verified)
              (ap ok (
                splice-all (zeros expected_bytes) serialized
                  (ap length same ∙ sym (zeros-same _ _ decoded))
                ∙ same))
        | inr undeclared ↦
            rw
              (
                plain,
                undeclared,
                copies (zeros expected_bytes) (zeros-same _ _ (decoded ∙ ap length (sym same))),
              )
              (ap ok same)
      ]
      | inr (packed, pos, encodes) ↦
          rw
            (
              packed,
              copies (zeros serialized_bytes) (zeros-same _ _ stored),
              verified,
              decode_compressed_block-Encodes lib compression block serialized
                  (zeros expected_bytes) stop never pos encodes (zeros-same _ _ decoded),
            )
            refl
    ]

or_right : (a b : Bool) → b ≡ true → a || b ≡ true
or_right a b h = ground arith

verify_checksum-digest :
    (lib : Codecs) (checksum : ChecksumPlan) (serialized : Bytes) {verified : Bool}
    → is_declared checksum.algorithm ≡ true
    → verify_checksum lib checksum serialized ≡ ok verified
    → (actual : Bytes) × (lib.evp_digest checksum.algorithm serialized ≡ some actual)
      × (bytes_eq actual checksum.expected_digest ≡ true)
unfolding verify_checksum
verify_checksum-digest lib checksum serialized declared h = ground arith

-- A block with a declared checksum is only returned when the serialized bytes that were copied have
-- the declared digest, whatever the source answers.
pub read_block-digest :
    (lib : Codecs) (copy : Bytes → Result ℕ × Bytes) (compression : CompressionPlan)
    (checksum : ChecksumPlan) (serialized_bytes expected_bytes : ℕ) (stop : StopToken)
    {block : Bytes}
    → is_declared checksum.algorithm ≡ true
    → read_block lib copy compression checksum serialized_bytes expected_bytes stop ≡ ok block
    → (serialized : Bytes) × (keep_bytes (copy (zeros serialized_bytes)) ≡ ok serialized)
      × (lib.evp_digest checksum.algorithm serialized ≡ some checksum.expected_digest)
unfolding read_block
read_block-digest lib copy compression checksum serialized_bytes expected_bytes stop declared h =
    let (serialized, copied, rest) =
      >>=-eq-ok (keep_bytes (copy (zeros serialized_bytes))) _ (rw staged at h) in
    let (verified, verifies, decodes) =
      >>=-eq-ok (verify_checksum lib checksum serialized) _ rest in
    let (actual, digest, same) = verify_checksum-digest lib checksum serialized declared verifies in
    (serialized, copied, digest ∙ ap some ((bytes_eq_iff actual checksum.expected_digest).0 same))
  where
    staged : is_staged compression checksum ≡ true
    staged = or_right (is_compressed compression.codec) (is_declared checksum.algorithm) declared
