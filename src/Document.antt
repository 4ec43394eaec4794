-- ===== src/Document.antt =====
-- include/mmxisf/document.hpp and the options of include/mmxisf/reader.hpp: what a parsed header
-- holds. A `std::string` is its bytes; a `double` is the number that its bits spell, since the
-- modelled code only copies it.
pub mod Names
use mmxisf.Base.{ℕ, ◌*◌, Option, List}
use mmxisf.Base.Text.{Bytes}
use mmxisf.Base.Error.{◌>>=◌, ◌>>◌}

pub data SampleFormat : Type 0 where
  uint8 uint16 uint32 uint64 float32 float64 complex32 complex64 unsupported : SampleFormat

pub data PixelStorage : Type 0 where
  planar normal : PixelStorage

pub data ByteOrder : Type 0 where
  little big : ByteOrder

pub data BlockKind : Type 0 where
  attachment embedded inline_data external unknown : BlockKind

pub data ImageOrientation : Type 0 where
  identity flip rotate_90 rotate_90_flip rotate_minus_90 : ImageOrientation
  rotate_minus_90_flip rotate_180 rotate_180_flip : ImageOrientation

pub data PixelOrigin : Type 0 where
  top_left : PixelOrigin

pub data PixelTraversal : Type 0 where
  top_to_bottom_left_to_right : PixelTraversal

pub data NominalChannelOrder : Type 0 where
  gray_then_alpha red_green_blue_then_alpha cie_l_a_b_then_alpha : NominalChannelOrder

abbrev pub Double : Type 0
Double = ℕ

pub record BlockLocation : Type 0 where
  pub kind : BlockKind
  pub offset : ℕ
  pub size : ℕ
  pub raw : Bytes

-- `BlockLocation result;` with its `raw` set
abbrev pub unknown_location : Bytes → BlockLocation
unknown_location raw = record { kind = unknown; offset = 0; size = 0; raw = raw }

pub data MetadataKind : Type 0 where
  property fits_keyword : MetadataKind

pub data MetadataScope : Type 0 where
  standalone xisf_unit image : MetadataScope

pub data ValueForm : Type 0 where
  attribute_value character_data data_block : ValueForm

pub record MetadataEntry : Type 0 where
  pub kind : MetadataKind
  pub scope : MetadataScope
  pub value_form : ValueForm
  pub image_index : Option ℕ
  pub uid : Bytes
  pub name : Bytes
  pub type : Bytes
  pub value : Bytes
  pub comment : Bytes
  pub format : Bytes
  pub block : BlockLocation
  pub byte_order : ByteOrder
  pub compression : Bytes
  pub subblocks : Bytes
  pub checksum : Bytes
  pub length_attribute : Option ℕ
  pub rows : Option ℕ
  pub columns : Option ℕ

pub record IccProfileInfo : Type 0 where
  pub uid : Bytes
  pub image_index : Option ℕ
  pub block : BlockLocation
  pub compression : Bytes
  pub subblocks : Bytes
  pub checksum : Bytes

pub record ImageInfo : Type 0 where
  pub id : Bytes
  pub geometry : List ℕ
  pub sample_format : SampleFormat
  pub sample_format_name : Bytes
  pub color_space : Bytes
  pub orientation : Option ImageOrientation
  pub pixel_origin : PixelOrigin
  pub pixel_traversal : PixelTraversal
  pub nominal_channel_order : NominalChannelOrder
  pub lower_bound : Option Double
  pub upper_bound : Option Double
  pub pixel_storage : PixelStorage
  pub byte_order : ByteOrder
  pub block : BlockLocation
  pub compression : Bytes
  pub subblocks : Bytes
  pub checksum : Bytes

pub record ThumbnailInfo : Type 0 where
  pub uid : Bytes
  pub image_index : Option ℕ
  pub image : ImageInfo

-- The parts of a document that the read operations consult; tables, extension elements, ancillary
-- objects and the bindings are only handed out by accessors.
pub record Document : Type 0 where
  pub images : List ImageInfo
  pub metadata : List MetadataEntry
  pub file_size : ℕ
  pub header_length : ℕ
  pub icc_profiles : List IccProfileInfo
  pub thumbnails : List ThumbnailInfo

pub record ReaderOptions : Type 0 where
  pub max_header_bytes : ℕ
  pub max_xml_depth : ℕ
  pub max_xml_nodes : ℕ
  pub max_attributes_per_element : ℕ
  pub max_images : ℕ
  pub max_metadata_entries : ℕ
  pub max_metadata_value_bytes : ℕ
  pub max_extension_elements : ℕ
  pub max_extension_attributes : ℕ
  pub max_extension_bytes : ℕ
  pub max_ancillary_objects : ℕ
  pub max_ancillary_attributes : ℕ
  pub max_ancillary_bindings : ℕ
  pub max_ancillary_bytes : ℕ
  pub max_icc_profiles : ℕ
  pub max_icc_profile_bindings : ℕ
  pub max_serialized_icc_profile_bytes : ℕ
  pub max_decoded_icc_profile_bytes : ℕ
  pub max_thumbnails : ℕ
  pub max_thumbnail_bindings : ℕ
  pub max_thumbnail_dimension : ℕ
  pub max_serialized_thumbnail_bytes : ℕ
  pub max_decoded_thumbnail_bytes : ℕ
  pub max_table_structures : ℕ
  pub max_tables : ℕ
  pub max_table_fields : ℕ
  pub max_table_rows : ℕ
  pub max_table_cells : ℕ
  pub max_table_bindings : ℕ
  pub max_table_text_bytes : ℕ
  pub max_encoded_block_bytes : ℕ
  pub max_serialized_image_bytes : ℕ
  pub max_serialized_property_bytes : ℕ
  pub max_decoded_property_bytes : ℕ
  pub max_unused_space_bytes : ℕ
  pub max_compressed_subblocks : ℕ
  pub max_decompression_ratio : ℕ
  pub max_zstd_window_bytes : ℕ
  pub max_image_dimensions : ℕ
  pub max_inspected_channels : ℕ
  pub max_decoded_channels : ℕ
  pub max_samples_per_image : ℕ
  pub max_decoded_image_bytes : ℕ

-- `ReaderOptions{}`
abbrev pub default_options : ReaderOptions
default_options = record {
  max_header_bytes = 16 * 1024 * 1024;
  max_xml_depth = 64;
  max_xml_nodes = 250000;
  max_attributes_per_element = 256;
  max_images = 64;
  max_metadata_entries = 100000;
  max_metadata_value_bytes = 8 * 1024 * 1024;
  max_extension_elements = 4096;
  max_extension_attributes = 65536;
  max_extension_bytes = 4 * 1024 * 1024;
  max_ancillary_objects = 4096;
  max_ancillary_attributes = 65536;
  max_ancillary_bindings = 100000;
  max_ancillary_bytes = 4 * 1024 * 1024;
  max_icc_profiles = 4096;
  max_icc_profile_bindings = 100000;
  max_serialized_icc_profile_bytes = 64 * 1024 * 1024;
  max_decoded_icc_profile_bytes = 64 * 1024 * 1024;
  max_thumbnails = 256;
  max_thumbnail_bindings = 100000;
  max_thumbnail_dimension = 4096;
  max_serialized_thumbnail_bytes = 128 * 1024 * 1024;
  max_decoded_thumbnail_bytes = 128 * 1024 * 1024;
  max_table_structures = 256;
  max_tables = 256;
  max_table_fields = 4096;
  max_table_rows = 100000;
  max_table_cells = 1000000;
  max_table_bindings = 100000;
  max_table_text_bytes = 16 * 1024 * 1024;
  max_encoded_block_bytes = 256 * 1024 * 1024;
  max_serialized_image_bytes = 2 * 1024 * 1024 * 1024;
  max_serialized_property_bytes = 256 * 1024 * 1024;
  max_decoded_property_bytes = 256 * 1024 * 1024;
  max_unused_space_bytes = 64 * 1024 * 1024;
  max_compressed_subblocks = 65536;
  max_decompression_ratio = 65536;
  max_zstd_window_bytes = 256 * 1024 * 1024;
  max_image_dimensions = 8;
  max_inspected_channels = 64;
  max_decoded_channels = 16;
  max_samples_per_image = 536870912;
  max_decoded_image_bytes = 2 * 1024 * 1024 * 1024;
}
