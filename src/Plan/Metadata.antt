-- ===== src/Plan/Metadata.antt =====
-- `plan_property_read` of src/reader.cpp.
use mmxisf.Base.{ℕ, not, ◌&&◌, Option, none, some, List, if◌then◌else◌, get_elem?}
use mmxisf.Base.Text.{Bytes}
use mmxisf.Base.Error.{
  unsupported_feature, invalid_block, invalid_argument, overflow, Result, ok, fail, ◌>>=◌,
}
use mmxisf.Word.{checked_multiply}
use mmxisf.Document.{Document, ReaderOptions, MetadataEntry}
use mmxisf.Property.{
  PropertyCategory, vector, matrix, classify_property_type, PropertyElementLayout,
  property_element_layout,
}
use mmxisf.Block.Parse.{parse_compression_plan, parse_checksum_plan}
use mmxisf.Plan.{PropertyReadPlan, is_attachment, is_inline, is_block_property, locate_block}

-- The number of elements of a container: its length, or its rows times its columns.
abbrev pub element_count : PropertyCategory → MetadataEntry → Option ℕ
element_count vector entry = entry.length_attribute
element_count matrix entry = elim entry.rows [
  | none ↦ none
  | some rows ↦ elim entry.columns [ none ↦ none | some columns ↦ checked_multiply rows columns ]
]
element_count _ entry = none

-- `typed_bytes`
unfoldable pub typed_extent : MetadataEntry → PropertyElementLayout → Result (Option ℕ)
typed_extent entry layout =
    if layout.string_data
    then ok none
    else elim (element_count (classify_property_type entry.type) entry) [
      | none ↦ fail invalid_block "Property typed extent is incomplete or overflows"
      | some count ↦ elim (checked_multiply count layout.element_size) [
        | none ↦ fail overflow "Property typed extent overflows its byte size"
        | some byte_count ↦ ok (some byte_count)
      ]
    ]

-- `plan_property_read` behind the lookup of the layout.
unfoldable pub plan_property :
    Document
    → ReaderOptions
    → List Bytes
    → ℕ
    → MetadataEntry
    → PropertyElementLayout
    → Result PropertyReadPlan
plan_property document options inline_blocks metadata_index entry layout = do
  typed_bytes ← typed_extent entry layout
  (inline_block, serialized_bytes) ←
      locate_block "Inline Property storage is inconsistent"
        "Property attachment range extends beyond the source" entry.block inline_blocks
        metadata_index document.file_size
  compression ← parse_compression_plan entry.compression entry.subblocks options (record {
    serialized_bytes = serialized_bytes;
    expected_bytes = typed_bytes;
    item_size = layout.element_size;
    max_serialized_bytes = options.max_serialized_property_bytes;
    max_decoded_bytes = options.max_decoded_property_bytes;
  })
  checksum ← parse_checksum_plan entry.checksum
  ok (record {
    property = entry;
    inline_block = inline_block;
    layout = layout;
    expected_bytes = compression.uncompressed_size;
    serialized_bytes = serialized_bytes;
    compression = compression;
    checksum = checksum;
  })

-- `plan_property_read` behind the bounds check.
unfoldable pub plan_property_entry :
    Document → ReaderOptions → List Bytes → ℕ → MetadataEntry → Result PropertyReadPlan
plan_property_entry document options inline_blocks metadata_index entry =
    if not (is_block_property entry.kind entry.value_form)
    then fail invalid_argument "Metadata entry is not a block-backed Property"
    else if not (is_attachment entry.block.kind) && not (is_inline entry.block.kind)
    then fail unsupported_feature "Only attachment and inline Property blocks are readable"
    else elim (property_element_layout entry.type) [
      | none ↦ fail unsupported_feature "Property binary element type is not supported"
      | some layout ↦ plan_property document options inline_blocks metadata_index entry layout
    ]

unfoldable pub plan_property_read :
    Document → ReaderOptions → List Bytes → ℕ → Result PropertyReadPlan
plan_property_read document options inline_blocks metadata_index =
    elim (get_elem? document.metadata metadata_index) [
      | none ↦ fail invalid_argument "Metadata index is outside the document"
      | some entry ↦ plan_property_entry document options inline_blocks metadata_index entry
    ]
