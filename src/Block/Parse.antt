-- ===== src/Block/Parse.antt =====
-- `parse_checksum_plan` and `parse_compression_plan` of src/reader.cpp. A scan by `find` and
-- `substr` is the list of pieces between the separators.
pub mod Limits
pub mod Subblocks
use Prim.Native.Nat.{bit_or}
use mmxisf.Base.{
  ℕ, ◌+◌, ◌-◌, ◌*◌, ◌^◌, Bool, true, false, not, ◌&&◌, ◌||◌, Option, none, some, List, [], ◌∷◌,
  ◌++◌, ltb, leb, ◌==◌, if◌then◌else◌, length, get_or,
}
use mmxisf.Base.Text.{Bytes, codes, bytes_eq, is_empty, split_on}
use mmxisf.Base.Error.{
  resource_limit, unsupported_feature, invalid_block, overflow, Result, ok, fail, ◌>>=◌, ◌>>◌,
  reject_if,
}
use mmxisf.Word.{u64_max, checked_multiply, checked_add}
use mmxisf.Number.{parse_unsigned}
use mmxisf.Document.{ReaderOptions}
use mmxisf.Block.{
  CompressionCodec, none_codec, zlib, lz4, lz4hc, zstd, CompressionSubblock, CompressionPlan,
  default_compression_plan, ChecksumAlgorithm, none_algorithm, sha1, sha256, sha512, sha3_256,
  sha3_512, ChecksumPlan,
}

unfoldable pub lowercase_hex_value : ℕ → Option ℕ
lowercase_hex_value c =
    if leb b'0' c && leb c b'9'
    then some (c - b'0')
    else if leb b'a' c && leb c b'f'
    then some (c - b'a' + 10)
    else none

-- The algorithm of a name with the size of its digest.
unfoldable pub checksum_algorithm : Bytes → Option (ChecksumAlgorithm × ℕ)
checksum_algorithm algorithm =
    if bytes_eq algorithm (codes "sha-1") || bytes_eq algorithm (codes "sha1")
    then some (sha1, 20)
    else if bytes_eq algorithm (codes "sha-256") || bytes_eq algorithm (codes "sha256")
    then some (sha256, 32)
    else if bytes_eq algorithm (codes "sha-512") || bytes_eq algorithm (codes "sha512")
    then some (sha512, 64)
    else if bytes_eq algorithm (codes "sha3-256")
    then some (sha3_256, 32)
    else if bytes_eq algorithm (codes "sha3-512")
    then some (sha3_512, 64)
    else none

-- The loop over the pairs of digits.
unfoldable pub parse_digest : Bytes → Option Bytes
parse_digest [] = some []
parse_digest (c ∷ []) = none
parse_digest (c ∷ d ∷ rest) = elim (lowercase_hex_value c) [
  | none ↦ none
  | some high ↦ elim (lowercase_hex_value d) [
    | none ↦ none
    | some low ↦ elim (parse_digest rest) [
      | none ↦ none
      | some digest ↦ some (bit_or (high * 2 ^ 4) low ∷ digest)
    ]
  ]
]

-- Behind the two components of the descriptor.
unfoldable pub parse_digest_of : Bytes → Bytes → Result ChecksumPlan
parse_digest_of algorithm encoded_digest = elim (checksum_algorithm algorithm) [
  | none ↦ fail unsupported_feature "Unsupported block checksum algorithm"
  | some found ↦
      if not (length encoded_digest == found.1 * 2)
      then fail invalid_block "Checksum digest has an invalid length"
      else elim (parse_digest encoded_digest) [
        | none ↦ fail invalid_block "Checksum digest must use lowercase hexadecimal digits"
        | some digest ↦ ok (record { algorithm = found.0; expected_digest = digest })
      ]
]

-- With no separator, or a second one, the descriptor is refused.
unfoldable pub parse_checksum_parts : List Bytes → Result ChecksumPlan
parse_checksum_parts (algorithm ∷ encoded_digest ∷ []) = parse_digest_of algorithm encoded_digest
parse_checksum_parts _ = fail invalid_block "Invalid checksum descriptor"

unfoldable pub parse_checksum_plan : Bytes → Result ChecksumPlan
parse_checksum_plan checksum =
    if is_empty checksum
    then ok (record { algorithm = none_algorithm; expected_digest = [] })
    else parse_checksum_parts (split_on b':' checksum)

-- The codec of the first component, and whether it is byte-shuffled.
unfoldable pub codec_of : Bytes → Option (CompressionCodec × Bool)
codec_of token =
    if bytes_eq token (codes "zlib")
    then some (zlib, false)
    else if bytes_eq token (codes "zlib+sh")
    then some (zlib, true)
    else if bytes_eq token (codes "lz4")
    then some (lz4, false)
    else if bytes_eq token (codes "lz4+sh")
    then some (lz4, true)
    else if bytes_eq token (codes "lz4hc")
    then some (lz4hc, false)
    else if bytes_eq token (codes "lz4hc+sh")
    then some (lz4hc, true)
    else if bytes_eq token (codes "zstd")
    then some (zstd, false)
    else if bytes_eq token (codes "zstd+sh")
    then some (zstd, true)
    else none

-- One "compressed,uncompressed" pair with positive sizes.
unfoldable pub parse_subblock : List Bytes → Option CompressionSubblock
parse_subblock (compressed ∷ uncompressed ∷ []) = elim (parse_unsigned compressed) [
  | none ↦ none
  | some c ↦ elim (parse_unsigned uncompressed) [
    | none ↦ none
    | some u ↦
        if c == 0 || u == 0
        then none
        else some (record { compressed_size = c; uncompressed_size = u })
  ]
]
parse_subblock _ = none

-- The variables of the loop over the subblocks.
pub record Totals : Type 0 where
  pub total_compressed : ℕ
  pub total_uncompressed : ℕ
  pub subblocks : List CompressionSubblock

abbrev pub no_totals : Totals
no_totals = record { total_compressed = 0; total_uncompressed = 0; subblocks = [] }

-- One round of the loop.
unfoldable pub add_subblock : ℕ → Bytes → Totals → Result Totals
add_subblock max_subblocks piece totals =
    if leb max_subblocks (length totals.subblocks)
    then fail resource_limit "Compressed subblock count exceeds the configured limit"
    else elim (parse_subblock (split_on b',' piece)) [
      | none ↦ fail invalid_block "Invalid compression subblock descriptor"
      | some subblock ↦ elim (checked_add totals.total_compressed subblock.compressed_size) [
        | none ↦ fail overflow "Compression subblock sizes overflow"
        | some next_compressed ↦
            elim (checked_add totals.total_uncompressed subblock.uncompressed_size) [
              | none ↦ fail overflow "Compression subblock sizes overflow"
              | some next_uncompressed ↦ ok (record {
                total_compressed = next_compressed;
                total_uncompressed = next_uncompressed;
                subblocks = totals.subblocks ++ (subblock ∷ []);
              })
            ]
      ]
    ]

unfoldable pub add_subblocks : ℕ → List Bytes → Totals → Result Totals
add_subblocks max_subblocks [] totals = ok totals
add_subblocks max_subblocks (piece ∷ pieces) totals =
    add_subblock max_subblocks piece totals >>= λ next. add_subblocks max_subblocks pieces next

-- What a call of `parse_compression_plan` is given besides the two descriptors.
pub record Extent : Type 0 where
  pub serialized_bytes : ℕ
  pub expected_bytes : Option ℕ
  pub item_size : ℕ
  pub max_serialized_bytes : ℕ
  pub max_decoded_bytes : ℕ

-- `expected_bytes && bytes != *expected_bytes`
abbrev pub differs : Option ℕ → ℕ → Bool
differs none bytes = false
differs (some expected) bytes = not (bytes == expected)

abbrev pub is_none : Option ℕ → Bool
is_none none = true
is_none (some n) = false

abbrev pub value_or_zero : Option ℕ → ℕ
value_or_zero none = 0
value_or_zero (some n) = n

-- The branch for a block with no compression.
unfoldable pub plain_plan : Bytes → Extent → Result CompressionPlan
plain_plan subblocks e = do
  reject_if (not (is_empty subblocks)) invalid_block
      "Compression subblocks require a compression codec"
  reject_if (differs e.expected_bytes e.serialized_bytes) invalid_block
      "Block size does not match its declared typed extent"
  reject_if (ltb e.max_decoded_bytes e.serialized_bytes) resource_limit
      "Decoded block exceeds the configured limit"
  let plan = default_compression_plan
  ok (record plan { uncompressed_size = e.serialized_bytes })

-- The largest output that the decompression ratio allows.
abbrev pub maximum_output : ReaderOptions → Extent → ℕ
maximum_output options e =
    elim (checked_multiply e.serialized_bytes options.max_decompression_ratio) [
      | none ↦ u64_max
      | some product ↦ product
    ]

-- The checks of the descriptor's components, up to the subblocks.
unfoldable pub parse_descriptor : List Bytes → ReaderOptions → Extent → Result CompressionPlan
parse_descriptor tokens options e = do
  reject_if (ltb 3 (length tokens)) invalid_block "Compression descriptor has too many components"
  elim (codec_of (get_or tokens 0 [])) [
    | none ↦ fail unsupported_feature "Unsupported image compression codec"
    | some (codec, byte_shuffled) ↦
        let size = parse_unsigned (get_or tokens 1 []) in
        let uncompressed_size = value_or_zero size in
        let item = if byte_shuffled then parse_unsigned (get_or tokens 2 []) else some 1 in
        reject_if
          (not (length tokens == (if byte_shuffled then 3 else 2))
            || is_none size
            || uncompressed_size == 0)
          invalid_block "Invalid compression descriptor"
        >> reject_if (differs e.expected_bytes uncompressed_size) invalid_block
            "Declared uncompressed size does not match the typed extent"
        >> reject_if
            (byte_shuffled
              && (is_none item
                  || value_or_zero item == 0
                  || not (value_or_zero item == e.item_size)))
            invalid_block "Byte-shuffle item size does not match the typed element size"
        >> reject_if (e.serialized_bytes == 0) invalid_block "Compressed block cannot be empty"
        >> reject_if (ltb (maximum_output options e) uncompressed_size) resource_limit
            "Block exceeds the configured decompression ratio"
        >> reject_if (ltb e.max_decoded_bytes uncompressed_size || ltb u64_max uncompressed_size)
            resource_limit "Decoded block exceeds the configured limit"
        >> ok (record {
          codec = codec;
          byte_shuffled = byte_shuffled;
          uncompressed_size = uncompressed_size;
          item_size = value_or_zero item;
          max_zstd_window_bytes = options.max_zstd_window_bytes;
          subblocks = [];
        })
  ]

-- The subblocks of a compressed block: one for the whole block, or those of the attribute.
unfoldable pub plan_subblocks :
    Bytes → ReaderOptions → Extent → CompressionPlan → Result CompressionPlan
plan_subblocks subblocks options e plan =
    if is_empty subblocks
    then ok (record plan {
      subblocks =
          record {
            compressed_size = e.serialized_bytes;
            uncompressed_size = plan.uncompressed_size;
          }
          ∷ [];
    })
    else add_subblocks options.max_compressed_subblocks (split_on b':' subblocks) no_totals
      >>= λ totals.
          reject_if
            (not (totals.total_compressed == e.serialized_bytes)
              || not (totals.total_uncompressed == plan.uncompressed_size))
            invalid_block "Compression subblock totals do not match the block"
          >> ok (record plan { subblocks = totals.subblocks })

-- Behind the limits on the serialized size; the flag is `compression.empty()`.
unfoldable pub plan_of : Bool → Bytes → Bytes → ReaderOptions → Extent → Result CompressionPlan
plan_of true compression subblocks options e = plain_plan subblocks e
plan_of false compression subblocks options e =
    parse_descriptor (split_on b':' compression) options e >>= λ plan.
    plan_subblocks subblocks options e plan

unfoldable pub parse_compression_plan :
    Bytes → Bytes → ReaderOptions → Extent → Result CompressionPlan
parse_compression_plan compression subblocks options e = do
  reject_if (ltb e.max_serialized_bytes e.serialized_bytes) resource_limit
      "Serialized block exceeds the configured limit"
  reject_if (ltb u64_max e.serialized_bytes) resource_limit
      "Serialized block cannot fit in addressable memory"
  plan_of (is_empty compression) compression subblocks options e
