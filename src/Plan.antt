-- ===== src/Plan.antt =====
-- The read plans of src/reader.cpp: what `read_image`, `read_thumbnail`, `read_property` and
-- `read_icc_profile` check before they read a block. A pointer to an entry of the document is the
-- entry; the storage of embedded and inline blocks is a list indexed like the entries.
pub mod Metadata
pub mod Image
pub mod Sound
use Prim.Native.String.{String}
use mmxisf.Base.{
  ℕ, ◌-◌, Bool, true, false, not, ◌&&◌, ◌||◌, Option, none, some, List, ltb, if◌then◌else◌, length,
  get_elem?,
}
use mmxisf.Base.Text.{Bytes}
use mmxisf.Base.Error.{
  unsupported_feature, invalid_block, invalid_argument, internal_error, Result, ok, fail, ◌>>=◌,
  ◌>>◌, reject_if,
}
use mmxisf.Document.{
  Document, ReaderOptions, ImageInfo, MetadataEntry, IccProfileInfo, BlockLocation, BlockKind,
  attachment, embedded, inline_data, MetadataKind, property, ValueForm, data_block,
}
use mmxisf.Pixels.{endian_component_size}
use mmxisf.Property.{PropertyElementLayout}
use mmxisf.Block.{CompressionPlan, ChecksumPlan}
use mmxisf.Block.Parse.{parse_compression_plan, parse_checksum_plan}

pub record ImageReadPlan : Type 0 where
  pub image : ImageInfo
  pub embedded_block : Option Bytes
  pub channels : ℕ
  pub sample_count : ℕ
  pub sample_size : ℕ
  pub endian_component_size : ℕ
  pub expected_bytes : ℕ
  pub serialized_bytes : ℕ
  pub compression : CompressionPlan
  pub checksum : ChecksumPlan

pub record PropertyReadPlan : Type 0 where
  pub property : MetadataEntry
  pub inline_block : Option Bytes
  pub layout : PropertyElementLayout
  pub expected_bytes : ℕ
  pub serialized_bytes : ℕ
  pub compression : CompressionPlan
  pub checksum : ChecksumPlan

pub record IccProfileReadPlan : Type 0 where
  pub profile : IccProfileInfo
  pub inline_block : Option Bytes
  pub expected_bytes : ℕ
  pub serialized_bytes : ℕ
  pub compression : CompressionPlan
  pub checksum : ChecksumPlan

abbrev pub is_attachment : BlockKind → Bool
is_attachment attachment = true
is_attachment _ = false

abbrev pub is_embedded : BlockKind → Bool
is_embedded embedded = true
is_embedded _ = false

abbrev pub is_inline : BlockKind → Bool
is_inline inline_data = true
is_inline _ = false

abbrev pub is_block_property : MetadataKind → ValueForm → Bool
is_block_property property data_block = true
is_block_property _ _ = false

-- `offset > file_size || size > file_size - offset`
abbrev pub extends_beyond : BlockLocation → ℕ → Bool
extends_beyond block file_size =
    ltb file_size block.offset || ltb (file_size - block.offset) block.size

-- The inline block and the serialized size of a block that is inline or attached.
unfoldable pub locate_block :
    String → String → BlockLocation → List Bytes → ℕ → ℕ → Result (Option Bytes × ℕ)
locate_block inconsistent beyond block inline_blocks index file_size =
    if is_inline block.kind
    then elim (get_elem? inline_blocks index) [
      | none ↦ fail internal_error inconsistent
      | some inline_block ↦ ok (some inline_block, length inline_block)
    ]
    else if extends_beyond block file_size
    then fail invalid_block beyond
    else ok (none, block.size)

-- `plan_icc_profile_read` behind the bounds check.
unfoldable pub plan_icc_profile :
    Document → ReaderOptions → List Bytes → ℕ → IccProfileInfo → Result IccProfileReadPlan
plan_icc_profile document options inline_blocks profile_index profile = do
  reject_if (not (is_attachment profile.block.kind) && not (is_inline profile.block.kind))
      unsupported_feature "Only attachment and inline ICC profile blocks are readable"
  (inline_block, serialized_bytes) ←
      locate_block "Inline ICC profile storage is inconsistent"
        "ICC profile attachment range extends beyond the source" profile.block inline_blocks
        profile_index document.file_size
  compression ← parse_compression_plan profile.compression profile.subblocks options (record {
    serialized_bytes = serialized_bytes;
    expected_bytes = none;
    item_size = 1;
    max_serialized_bytes = options.max_serialized_icc_profile_bytes;
    max_decoded_bytes = options.max_decoded_icc_profile_bytes;
  })
  checksum ← parse_checksum_plan profile.checksum
  ok (record {
    profile = profile;
    inline_block = inline_block;
    expected_bytes = compression.uncompressed_size;
    serialized_bytes = serialized_bytes;
    compression = compression;
    checksum = checksum;
  })

unfoldable pub plan_icc_profile_read :
    Document → ReaderOptions → List Bytes → ℕ → Result IccProfileReadPlan
plan_icc_profile_read document options inline_blocks profile_index =
    elim (get_elem? document.icc_profiles profile_index) [
      | none ↦ fail invalid_argument "ICC profile index is outside the document"
      | some profile ↦ plan_icc_profile document options inline_blocks profile_index profile
    ]
