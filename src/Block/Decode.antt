-- ===== src/Block/Decode.antt =====
-- `decompress_zlib`, `decompress_lz4`, `decompress_zstd`, `decompress_subblock`,
-- `verify_checksum` and `decode_compressed_block` of src/reader.cpp.
use mmxisf.Base.{
  ℕ, zero, suc, ◌+◌, ◌-◌, ◌/◌, ◌^◌, Bool, true, false, not, ◌||◌, none, some, List, [], ◌∷◌, ltb,
  ◌==◌, if◌then◌else◌, length,
}
use mmxisf.Base.Text.{Bytes, bytes_eq}
use mmxisf.Base.Error.{
  resource_limit, invalid_block, checksum_mismatch, invalid_argument, cancelled, internal_error,
  Result, ok, fail, StopToken,
}
use mmxisf.Buffer.{subspan, splice, resize, then_with}
use mmxisf.Shuffle.{scatter_unshuffled_bytes}
use mmxisf.Word.{is_power_of_two}
use mmxisf.Block.{
  CompressionCodec, none_codec, zlib, lz4, lz4hc, zstd, CompressionSubblock, CompressionPlan,
  ChecksumAlgorithm, none_algorithm, ChecksumPlan, Codecs,
}

-- `std::numeric_limits<uInt>::max()` and `std::numeric_limits<int>::max()`
abbrev pub uint_max : ℕ
uint_max = 2 ^ 32 - 1

abbrev pub int_max : ℕ
int_max = 2 ^ 31 - 1

-- The position of the highest bit, by halving; `fuel` bounds the number of bits.
unfoldable pub log2_floor : ℕ → ℕ → ℕ
log2_floor zero n = 0
log2_floor (suc fuel) n = let rest = 1 + log2_floor fuel (n / 2) in if ltb n 2 then 0 else rest

-- `std::bit_width(max_window_bytes) - 1U` of a word
unfoldable pub window_log : ℕ → ℕ
window_log max_window_bytes = log2_floor 64 max_window_bytes

-- `algorithm != ChecksumAlgorithm::none`
abbrev pub is_declared : ChecksumAlgorithm → Bool
is_declared none_algorithm = false
is_declared algorithm = true

module _ (lib : Codecs) where
  unfoldable pub decompress_zlib : Bytes → Bytes → Result ℕ × Bytes
  decompress_zlib input output =
      if ltb uint_max (length input) || ltb uint_max (length output)
      then (fail resource_limit "Zlib subblock exceeds the codec size limit", output)
      else elim (lib.inflate input output) [
        | none ↦ (fail internal_error "Unable to initialize the zlib decoder", output)
        | some after ↦
            if not after.stream_end
              || not (after.consumed == length input)
              || not (after.produced == length output)
            then (
              fail invalid_block "Invalid zlib stream or decompressed size mismatch",
              after.output,
            )
            else (ok after.produced, after.output)
      ]

  unfoldable pub decompress_lz4 : Bytes → Bytes → Result ℕ × Bytes
  decompress_lz4 input output =
      if ltb int_max (length input) || ltb int_max (length output)
      then (fail resource_limit "LZ4 subblock exceeds the codec size limit", output)
      else let (status, after) = lib.lz4_decompress_safe input output in
        elim status [
          | none ↦ (fail invalid_block "Invalid LZ4 block or decompressed size mismatch", after)
          | some produced ↦
              if not (produced == length output)
              then (fail invalid_block "Invalid LZ4 block or decompressed size mismatch", after)
              else (ok produced, after)
        ]

  unfoldable pub decompress_zstd : Bytes → Bytes → ℕ → Result ℕ × Bytes
  decompress_zstd input output max_window_bytes =
      if ltb max_window_bytes 1024 || not (is_power_of_two max_window_bytes)
      then (
        fail invalid_argument
            "Zstandard window limit must be a power of two of at least 1024 bytes",
        output,
      )
      else if not lib.zstd_create
      then (fail internal_error "Unable to initialize the Zstandard decoder", output)
      else if not (lib.zstd_set_window_log (window_log max_window_bytes))
      then (fail invalid_argument "Invalid Zstandard window limit", output)
      else let (status, after) = lib.zstd_decompress (window_log max_window_bytes) input output in
        elim status [
          | none ↦
              (fail invalid_block "Invalid Zstandard frame or decompressed size mismatch", after)
          | some produced ↦
              if not (produced == length output)
              then (
                fail invalid_block "Invalid Zstandard frame or decompressed size mismatch",
                after,
              )
              else (ok produced, after)
        ]

  unfoldable pub decompress_subblock : CompressionCodec → Bytes → Bytes → ℕ → Result ℕ × Bytes
  decompress_subblock zlib input output window = decompress_zlib input output
  decompress_subblock lz4 input output window = decompress_lz4 input output
  decompress_subblock lz4hc input output window = decompress_lz4 input output
  decompress_subblock zstd input output window = decompress_zstd input output window
  decompress_subblock none_codec input output window =
      (fail internal_error "Missing codec for compressed image block", output)

  unfoldable pub verify_checksum : ChecksumPlan → Bytes → Result Bool
  verify_checksum plan serialized =
      if not (is_declared plan.algorithm)
      then ok true
      else elim (lib.evp_digest plan.algorithm serialized) [
        | none ↦ fail internal_error "Checksum computation failed"
        | some actual ↦
            if not (bytes_eq actual plan.expected_digest)
            then fail checksum_mismatch "Block checksum verification failed"
            else ok true
      ]

  module _ (stop : StopToken) (plan : CompressionPlan) (serialized : Bytes) where
    -- One round of the loop: the decoder's buffer `shuffled` and the destination afterwards.
    unfoldable pub decode_subblock :
        CompressionSubblock → ℕ → Bytes → ℕ → ℕ → Bytes → Result Bytes × Bytes
    decode_subblock subblock round shuffled input_offset output_offset destination =
        let input = subspan serialized input_offset subblock.compressed_size in
        if stop (1 ∷ round ∷ [])
        then (fail cancelled "Block read was cancelled", destination)
        else if plan.byte_shuffled
        then (let (decoded, filled) =
              decompress_subblock plan.codec input (resize subblock.uncompressed_size shuffled)
                plan.max_zstd_window_bytes in
            then_with (decoded, destination)
              λ _ kept.
                then_with
                  (scatter_unshuffled_bytes filled kept plan.item_size output_offset
                    (λ poll. stop (2 ∷ round ∷ poll)))
                  λ _ scattered. (ok filled, scattered))
        else (let (decoded, filled) =
              decompress_subblock plan.codec input
                (subspan destination output_offset subblock.uncompressed_size)
                plan.max_zstd_window_bytes in
            then_with (decoded, splice destination output_offset filled)
              λ _ written. (ok shuffled, written))

    unfoldable pub decode_loop :
        List CompressionSubblock → ℕ → Bytes → ℕ → ℕ → Bytes → Result ℕ × Bytes
    decode_loop [] round shuffled input_offset output_offset destination =
        (ok output_offset, destination)
    decode_loop (subblock ∷ subblocks) round shuffled input_offset output_offset destination =
        then_with (decode_subblock subblock round shuffled input_offset output_offset destination)
          λ shuffled' destination'.
            decode_loop subblocks (round + 1) shuffled' (input_offset + subblock.compressed_size)
              (output_offset + subblock.uncompressed_size) destination'

  unfoldable pub decode_compressed_block :
      Bytes → CompressionPlan → Bytes → StopToken → Result ℕ × Bytes
  decode_compressed_block serialized plan destination stop =
      if stop (0 ∷ [])
      then (fail cancelled "Block read was cancelled", destination)
      else decode_loop stop plan serialized plan.subblocks 0 [] 0 0 destination
