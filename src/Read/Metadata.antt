-- ===== src/Read/Metadata.antt =====
-- `Reader::Impl`, `read_property_block` and `read_icc_profile` of src/reader.cpp, and the checks on
-- the bytes of an ICC profile. An allocation does not fail, so that the `catch` clauses are left
-- out; the polls of a stop token are numbered in the order of the calls.
pub mod Returned
use mmxisf.Base.{
  ℕ, ◌+◌, ◌*◌, ◌^◌, Bool, true, not, ◌&&◌, ◌||◌, List, [], ◌∷◌, ltb, ◌==◌, if◌then◌else◌, length,
  get_or,
}
use mmxisf.Base.Text.{Bytes}
use mmxisf.Base.Error.{invalid_block, cancelled, Result, ok, ◌>>=◌, ◌>>◌, reject_if, StopToken}
use mmxisf.Document.{Document, ReaderOptions, ByteOrder}
use mmxisf.Document.Names.{ChecksumVerification, verified, not_declared}
use mmxisf.Pixels.{same_order, swap_byte_order_in_place}
use mmxisf.Block.{ChecksumPlan, Codecs}
use mmxisf.Block.Decode.{is_declared}
use mmxisf.Source.{ByteSource, stop_below}
use mmxisf.Plan.{PropertyReadPlan, IccProfileReadPlan, plan_icc_profile_read}
use mmxisf.Plan.Metadata.{plan_property_read}
use mmxisf.Plan.Image.{ByteOrderOutput, resolve_byte_order}
use mmxisf.Read.{copy_serialized_property, copy_serialized_icc_profile}
use mmxisf.Read.Fetch.{keep_bytes, read_block}
use Prim.Native.Nat.{bit_and}

-- An opened file.
pub record Reader : Type 0 where
  pub source : ByteSource
  pub options : ReaderOptions
  pub document : Document
  pub embedded_blocks : List Bytes
  pub inline_metadata_blocks : List Bytes
  pub inline_icc_profile_blocks : List Bytes
  pub embedded_thumbnail_blocks : List Bytes

abbrev pub verification_of : ChecksumPlan → ChecksumVerification
verification_of checksum = if is_declared checksum.algorithm then verified else not_declared

pub record PropertyReadOptions : Type 0 where
  pub byte_order : ByteOrderOutput

pub record RawPropertyBlock : Type 0 where
  pub byte_order : ByteOrder
  pub checksum_verification : ChecksumVerification
  pub bytes : Bytes

pub record RawIccProfile : Type 0 where
  pub checksum_verification : ChecksumVerification
  pub bytes : Bytes

unfoldable pub reorder_property : PropertyReadPlan → ByteOrder → Bytes → StopToken → Result Bytes
reorder_property plan order bytes stop =
    if not plan.layout.string_data
      && ltb 1 plan.layout.scalar_component_size
      && not (same_order order plan.property.byte_order)
    then keep_bytes (swap_byte_order_in_place bytes plan.layout.scalar_component_size stop)
    else ok bytes

-- The first argument but one is the byte order of the host.
unfoldable pub read_property_block :
    Codecs → ByteOrder → Reader → ℕ → PropertyReadOptions → StopToken → Result RawPropertyBlock
read_property_block lib native_endian reader metadata_index read_options stop = do
  plan ←
      plan_property_read reader.document reader.options reader.inline_metadata_blocks metadata_index
  reject_if (stop (0 ∷ [])) cancelled "Property block read was cancelled"
  order ← resolve_byte_order native_endian plan.property.byte_order read_options.byte_order
  block ←
      read_block lib
        (λ buffer. copy_serialized_property reader.source plan buffer (stop_below 1 stop))
        plan.compression plan.checksum plan.serialized_bytes plan.expected_bytes (stop_below 2 stop)
  bytes ← reorder_property plan order block (stop_below 3 stop)
  ok (record {
    byte_order = order;
    checksum_verification = verification_of plan.checksum;
    bytes = bytes;
  })

-- The 32-bit number of the four octets at the start, the highest first.
abbrev pub declared_size : Bytes → ℕ
declared_size bytes =
    get_or bytes 0 0 * 2 ^ 24
    + get_or bytes 1 0 * 2 ^ 16
    + get_or bytes 2 0 * 2 ^ 8
    + get_or bytes 3 0

unfoldable pub validate_icc_profile_bytes : Bytes → Result Bool
validate_icc_profile_bytes bytes = do
  reject_if (ltb (length bytes) 128) invalid_block
      "ICC profile is shorter than its mandatory header"
  reject_if (not (declared_size bytes == length bytes)) invalid_block
      "ICC profile size field does not match decoded bytes"
  reject_if
      (not (get_or bytes 36 0 == b'a')
        || not (get_or bytes 37 0 == b'c')
        || not (get_or bytes 38 0 == b's')
        || not (get_or bytes 39 0 == b'p'))
      invalid_block "ICC profile is missing the acsp signature"
  reject_if (bit_and (get_or bytes 47 0) 1 == 0) invalid_block
      "ICC profile embedded-profile flag is not set"
  ok true

-- `read_icc_profile` behind its plan.
unfoldable pub read_planned_profile :
    Codecs → Reader → StopToken → IccProfileReadPlan → Result RawIccProfile
read_planned_profile lib reader stop plan = do
  reject_if (stop (0 ∷ [])) cancelled "ICC profile read was cancelled"
  bytes ←
      read_block lib
        (λ buffer. copy_serialized_icc_profile reader.source plan buffer (stop_below 1 stop))
        plan.compression plan.checksum plan.serialized_bytes plan.expected_bytes (stop_below 2 stop)
  valid ← validate_icc_profile_bytes bytes
  ok (record { checksum_verification = verification_of plan.checksum; bytes = bytes })

unfoldable pub read_icc_profile : Codecs → Reader → ℕ → StopToken → Result RawIccProfile
read_icc_profile lib reader profile_index stop =
    plan_icc_profile_read reader.document reader.options reader.inline_icc_profile_blocks
      profile_index
    >>= read_planned_profile lib reader stop
