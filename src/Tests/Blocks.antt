-- ===== src/Tests/Blocks.antt =====
-- A shuffled block in two subblocks, with a codec that stores its input, and a digest of its size.
use mmxisf.Base.{
  ℕ, zero, suc, ◌%◌, ◌≤◌, ◌<◌, ◌≡◌, refl, sym, ap, ◌∙◌, subst, ◌≢◌, ◌⊎◌, true, false, Option, some,
  [], ◌∷◌, arith, length, replicate, All, length-replicate,
}
use mmxisf.Base.Text.{Bytes, codes, is_empty}
use mmxisf.Base.Error.{checksum_mismatch, ok, fail, StopToken, Never}
use mmxisf.Word.{checked_multiply, checked_add}
use mmxisf.Block.{
  CompressionCodec, lz4, CompressionSubblock, CompressionPlan, ChecksumAlgorithm, sha1,
  ChecksumPlan, Inflated, Codecs,
}
use mmxisf.Block.Decode.{decode_compressed_block, verify_checksum}
use mmxisf.Block.Restore.{Encodes, decode_compressed_block-Encodes}
use mmxisf.Block.Parse.{Extent, parse_compression_plan, parse_checksum_plan}
use mmxisf.Block.Parse.Limits.{IsPlain, IsCompressed, parse_compression_plan_sound}
use mmxisf.Document.{default_options}
use mmxisf.Shuffle.{shuffled_range}
use mmxisf.Writer.Checksum.{
  compute_checksum, checksum_name, print_digest, digest_size, IsDigest,
  compute_checksum-verify_checksum, compute_checksum-mismatch,
}

abbrev pub no_stop : StopToken
no_stop poll = false

pub no_stop-Never : Never no_stop
no_stop-Never poll = refl

abbrev stored_inflate : Bytes → Bytes → Option Inflated
stored_inflate input out =
    some (record {
      stream_end = true;
      consumed = length input;
      produced = length input;
      output = input;
    })

-- The codecs store their input; a digest repeats the number of bytes.
abbrev pub stored : Codecs
stored = record {
  inflate = stored_inflate;
  lz4_decompress_safe = λ input out. (some (length input), input);
  zstd_create = true;
  zstd_set_window_log = λ n. true;
  zstd_decompress = λ window input out. (some (length input), input);
  evp_digest = λ a bytes. some (replicate (digest_size a) (length bytes % 256));
}

abbrev pub block : Bytes
block = 1 ∷ 2 ∷ 3 ∷ 4 ∷ 5 ∷ []

abbrev pub shuffled_plan : CompressionPlan
shuffled_plan = record {
  codec = lz4;
  byte_shuffled = true;
  uncompressed_size = 5;
  item_size = 2;
  max_zstd_window_bytes = 1024;
  subblocks =
      record { compressed_size = 3; uncompressed_size = 3 }
      ∷ record { compressed_size = 2; uncompressed_size = 2 }
      ∷ [];
}

abbrev pub stream : Bytes
stream = 1 ∷ 3 ∷ 2 ∷ 4 ∷ 5 ∷ []

abbrev blank : Bytes
blank = 0 ∷ 0 ∷ 0 ∷ 0 ∷ 0 ∷ []

pub stream-Encodes : Encodes stored shuffled_plan block 0 shuffled_plan.subblocks stream
unfolding shuffled_range mmxisf.Shuffle.shuffle_loop mmxisf.Shuffle.plain_index
stream-Encodes = (
  1 ∷ 3 ∷ 2 ∷ [],
  1 ∷ 3 ∷ 2 ∷ [],
  4 ∷ 5 ∷ [],
  refl,
  refl,
  omega arith,
  refl,
  (omega arith, omega arith, λ out e. refl),
  refl,
  (
    4 ∷ 5 ∷ [],
    4 ∷ 5 ∷ [],
    [],
    refl,
    refl,
    omega arith,
    refl,
    (omega arith, omega arith, λ out e. refl),
    refl,
    (refl, refl),
  ),
)

decode_compressed_block-Encodes_example :
    decode_compressed_block stored stream shuffled_plan blank no_stop ≡ (ok 5, block)
decode_compressed_block-Encodes_example =
    decode_compressed_block-Encodes stored shuffled_plan block stream blank no_stop no_stop-Never
      (omega arith) stream-Encodes refl

abbrev extent : Extent
extent = record {
  serialized_bytes = 5;
  expected_bytes = some 8;
  item_size = 2;
  max_serialized_bytes = 100;
  max_decoded_bytes = 100;
}

abbrev parsed_plan : CompressionPlan
parsed_plan = record {
  codec = lz4;
  byte_shuffled = true;
  uncompressed_size = 8;
  item_size = 2;
  max_zstd_window_bytes = 268435456;
  subblocks =
      record { compressed_size = 3; uncompressed_size = 4 }
      ∷ record { compressed_size = 2; uncompressed_size = 4 }
      ∷ [];
}

plan_parsed :
    parse_compression_plan (codes "lz4+sh:8:2") (codes "3,4:2,4") default_options extent
    ≡ ok parsed_plan
unfolding parse_compression_plan mmxisf.Block.Parse.plan_of mmxisf.Block.Parse.parse_descriptor
    mmxisf.Block.Parse.codec_of mmxisf.Number.parse_unsigned mmxisf.Number.digits_value
    checked_multiply mmxisf.Block.Parse.plan_subblocks mmxisf.Block.Parse.add_subblocks
    mmxisf.Block.Parse.add_subblock mmxisf.Block.Parse.parse_subblock checked_add
plan_parsed = refl

parse_compression_plan_sound_example :
    (5 ≤ 100)
    × ((is_empty (codes "lz4+sh:8:2") ≡ true) × IsPlain extent parsed_plan
        ⊎ (is_empty (codes "lz4+sh:8:2") ≡ false) × IsCompressed default_options extent parsed_plan)
parse_compression_plan_sound_example =
    parse_compression_plan_sound (codes "lz4+sh:8:2") (codes "3,4:2,4") default_options extent
      plan_parsed

replicate-All : (n b : ℕ) → b < 256 → All (λ c. c < 256) (replicate n b)
replicate-All zero b h = tt
replicate-All (suc n) b h = (h, replicate-All n b h)

same_hash : {a b : Bytes} → some a ≡ some b → a ≡ b
same_hash e = cc

stored-IsDigest : IsDigest stored
stored-IsDigest = record {
  sized = λ a bytes e.
      ap length (sym (same_hash e)) ∙ length-replicate (digest_size a) (length bytes % 256);
  in_bytes = λ a bytes e.
      subst (All (λ b. b < 256)) (same_hash e)
        (replicate-All (digest_size a) (length bytes % 256) (omega arith));
}

abbrev descriptor : Bytes
descriptor = codes "sha-1:0505050505050505050505050505050505050505"

printed : compute_checksum stored block sha1 ≡ ok descriptor
unfolding compute_checksum checksum_name print_digest
printed = refl

not_none : sha1 ≢ ChecksumAlgorithm.none_algorithm
not_none e = cc

compute_checksum-verify_checksum_example :
    (plan : ChecksumPlan) × (parse_checksum_plan descriptor ≡ ok plan)
    × (verify_checksum stored plan block ≡ ok true)
compute_checksum-verify_checksum_example =
    compute_checksum-verify_checksum stored sha1 block stored-IsDigest not_none printed

other_digest : some (replicate {A = ℕ} 20 5) ≢ some (replicate 20 0)
other_digest e = cc

compute_checksum-mismatch_example :
    (plan : ChecksumPlan) × (parse_checksum_plan descriptor ≡ ok plan)
    × (verify_checksum stored plan [] ≡ fail checksum_mismatch "Block checksum verification failed")
compute_checksum-mismatch_example =
    compute_checksum-mismatch stored sha1 block [] (replicate 20 0) stored-IsDigest not_none printed
      refl other_digest
