-- ===== src/Document/Names.antt =====
-- The functions `to_string` of src/reader.cpp, and `ancillary_kind`, which reads one of them back.
use Prim.Native.String.{String}
use mmxisf.Base.{
  ◌≡◌, refl, ap, ◌∙◌, ◌↔◌, Bool, true, Option, none, some, List, [], ◌∷◌, arith, if◌then◌else◌,
}
use mmxisf.Base.Text.{Bytes, codes, bytes_eq, contains, bytes_eq_iff}
use mmxisf.Base.Error.{
  ErrorCode, io_error, invalid_signature, invalid_preamble, header_too_large, malformed_xml,
  resource_limit, invalid_xisf, unsupported_feature, invalid_block, checksum_mismatch,
  invalid_argument, overflow, cancelled, internal_error,
}
use mmxisf.Document.{
  SampleFormat, uint8, uint16, uint32, uint64, float32, float64, complex32, complex64, unsupported,
  PixelStorage, planar, normal, ByteOrder, little, big, BlockKind, attachment, embedded,
  inline_data, external, unknown, ImageOrientation, identity, flip, rotate_90, rotate_90_flip,
  rotate_minus_90, rotate_minus_90_flip, rotate_180, rotate_180_flip, PixelOrigin, top_left,
  PixelTraversal, top_to_bottom_left_to_right, NominalChannelOrder, gray_then_alpha,
  red_green_blue_then_alpha, cie_l_a_b_then_alpha, MetadataScope, standalone, xisf_unit, image,
  ValueForm, attribute_value, character_data, data_block,
}

pub data ChecksumVerification : Type 0 where
  not_declared verified : ChecksumVerification

pub data CellValueForm : Type 0 where
  cell_attribute cell_character_data cell_data_block : CellValueForm

pub data AncillaryKind : Type 0 where
  rgb_working_space display_function color_filter_array resolution : AncillaryKind

unfoldable pub error_code_name : ErrorCode → String
error_code_name io_error = "io_error"
error_code_name invalid_signature = "invalid_signature"
error_code_name invalid_preamble = "invalid_preamble"
error_code_name header_too_large = "header_too_large"
error_code_name malformed_xml = "malformed_xml"
error_code_name resource_limit = "resource_limit"
error_code_name invalid_xisf = "invalid_xisf"
error_code_name unsupported_feature = "unsupported_feature"
error_code_name invalid_block = "invalid_block"
error_code_name checksum_mismatch = "checksum_mismatch"
error_code_name invalid_argument = "invalid_argument"
error_code_name overflow = "overflow"
error_code_name cancelled = "cancelled"
error_code_name internal_error = "internal_error"

unfoldable pub sample_format_name : SampleFormat → String
sample_format_name uint8 = "UInt8"
sample_format_name uint16 = "UInt16"
sample_format_name uint32 = "UInt32"
sample_format_name uint64 = "UInt64"
sample_format_name float32 = "Float32"
sample_format_name float64 = "Float64"
sample_format_name complex32 = "Complex32"
sample_format_name complex64 = "Complex64"
sample_format_name unsupported = "Unsupported"

unfoldable pub pixel_storage_name : PixelStorage → String
pixel_storage_name planar = "Planar"
pixel_storage_name normal = "Normal"

unfoldable pub byte_order_name : ByteOrder → String
byte_order_name little = "Little-endian"
byte_order_name big = "Big-endian"

unfoldable pub block_kind_name : BlockKind → String
block_kind_name attachment = "Attachment"
block_kind_name embedded = "Embedded"
block_kind_name inline_data = "Inline"
block_kind_name external = "External"
block_kind_name unknown = "Unknown"

unfoldable pub orientation_name : ImageOrientation → String
orientation_name identity = "0"
orientation_name flip = "flip"
orientation_name rotate_90 = "90"
orientation_name rotate_90_flip = "90;flip"
orientation_name rotate_minus_90 = "-90"
orientation_name rotate_minus_90_flip = "-90;flip"
orientation_name rotate_180 = "180"
orientation_name rotate_180_flip = "180;flip"

unfoldable pub pixel_origin_name : PixelOrigin → String
pixel_origin_name top_left = "Top-left"

unfoldable pub pixel_traversal_name : PixelTraversal → String
pixel_traversal_name top_to_bottom_left_to_right = "Top-to-bottom, left-to-right"

unfoldable pub channel_order_name : NominalChannelOrder → String
channel_order_name gray_then_alpha = "Gray, then alpha"
channel_order_name red_green_blue_then_alpha = "Red, green, blue, then alpha"
channel_order_name cie_l_a_b_then_alpha = "CIE L*, a*, b*, then alpha"

unfoldable pub verification_name : ChecksumVerification → String
verification_name verified = "Verified"
verification_name not_declared = "Not declared"

unfoldable pub metadata_scope_name : MetadataScope → String
metadata_scope_name standalone = "Standalone"
metadata_scope_name xisf_unit = "XISF unit"
metadata_scope_name image = "Image"

unfoldable pub value_form_name : ValueForm → String
value_form_name attribute_value = "Attribute"
value_form_name character_data = "Character data"
value_form_name data_block = "Data block"

unfoldable pub cell_value_form_name : CellValueForm → String
cell_value_form_name cell_attribute = "Attribute"
cell_value_form_name cell_character_data = "Character data"
cell_value_form_name cell_data_block = "Data block"

unfoldable pub ancillary_kind_name : AncillaryKind → String
ancillary_kind_name rgb_working_space = "RGBWorkingSpace"
ancillary_kind_name display_function = "DisplayFunction"
ancillary_kind_name color_filter_array = "ColorFilterArray"
ancillary_kind_name resolution = "Resolution"

unfoldable pub ancillary_kind : Bytes → Option AncillaryKind
ancillary_kind name =
    if bytes_eq name (codes "RGBWorkingSpace")
    then some rgb_working_space
    else if bytes_eq name (codes "DisplayFunction")
    then some display_function
    else if bytes_eq name (codes "ColorFilterArray")
    then some color_filter_array
    else if bytes_eq name (codes "Resolution")
    then some resolution
    else none

abbrev core_elements : List String
core_elements =
    "Property" ∷ "Structure" ∷ "Table" ∷ "Metadata" ∷ "Image" ∷ "FITSKeyword" ∷ "ICCProfile"
    ∷ "RGBWorkingSpace" ∷ "DisplayFunction" ∷ "ColorFilterArray" ∷ "Resolution" ∷ "Thumbnail"
    ∷ "Reference" ∷ []

unfoldable pub is_core_element : Bytes → Bool
is_core_element name = contains core_elements name

ancillary_kind-name :
    (kind : AncillaryKind) → ancillary_kind (codes (ancillary_kind_name kind)) ≡ some kind
unfolding ancillary_kind ancillary_kind_name
ancillary_kind-name rgb_working_space = refl
ancillary_kind-name display_function = refl
ancillary_kind-name color_filter_array = refl
ancillary_kind-name resolution = refl

name-ancillary_kind :
    (name : Bytes) (kind : AncillaryKind)
    → ancillary_kind name ≡ some kind
    → name ≡ codes (ancillary_kind_name kind)
unfolding ancillary_kind ancillary_kind_name
name-ancillary_kind name rgb_working_space h =
    ground (arith, bytes_eq_iff name (codes "RGBWorkingSpace"))
name-ancillary_kind name display_function h =
    ground (arith, bytes_eq_iff name (codes "DisplayFunction"))
name-ancillary_kind name color_filter_array h =
    ground (arith, bytes_eq_iff name (codes "ColorFilterArray"))
name-ancillary_kind name resolution h = ground (arith, bytes_eq_iff name (codes "Resolution"))

ancillary_kind-core :
    (kind : AncillaryKind) → is_core_element (codes (ancillary_kind_name kind)) ≡ true
unfolding is_core_element ancillary_kind_name contains
ancillary_kind-core rgb_working_space = refl
ancillary_kind-core display_function = refl
ancillary_kind-core color_filter_array = refl
ancillary_kind-core resolution = refl

-- An element's name is read as an ancillary kind exactly when it is the name that `to_string`
-- gives that kind, and every such name is that of a core element.
pub ancillary_kind_iff :
    (name : Bytes) (kind : AncillaryKind)
    → ((ancillary_kind name ≡ some kind) ↔ (name ≡ codes (ancillary_kind_name kind)))
      × (is_core_element (codes (ancillary_kind_name kind)) ≡ true)
ancillary_kind_iff name kind = (
  (name-ancillary_kind name kind, λ e. ap ancillary_kind e ∙ ancillary_kind-name kind),
  ancillary_kind-core kind,
)
