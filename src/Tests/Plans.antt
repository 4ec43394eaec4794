-- ===== src/Tests/Plans.antt =====
-- A document with an image, a thumbnail, a property and an ICC profile, and their read plans.
use mmxisf.Base.{
  ◌≤◌, ◌<◌, ◌≡◌, refl, ◌⊎◌, true, false, Option, none, some, [], ◌∷◌, get_elem?, replicate,
}
use mmxisf.Base.Text.{Bytes, codes, contains}
use mmxisf.Base.Error.{ok}
use mmxisf.Word.{checked_multiply}
use mmxisf.Document.{
  Document, default_options, ImageInfo, MetadataEntry, IccProfileInfo, ThumbnailInfo, BlockLocation,
  attachment, embedded, inline_data, property, xisf_unit, data_block, uint16, planar, little,
  top_left, top_to_bottom_left_to_right, red_green_blue_then_alpha,
}
use mmxisf.Property.{property_element_layout, layout_of}
use mmxisf.Block.{
  CompressionPlan, none_codec, ChecksumPlan, none_algorithm, default_compression_plan,
}
use mmxisf.Plan.{
  ImageReadPlan, PropertyReadPlan, IccProfileReadPlan, is_embedded, is_block_property,
  plan_icc_profile_read,
}
use mmxisf.Plan.Image.{plan_image_read, plan_thumbnail_read}
use mmxisf.Plan.Metadata.{plan_property_read}
use mmxisf.Plan.Sound.Images.{IsSampled, plan_image_read_sound, plan_thumbnail_read_sound}
use mmxisf.Plan.Sound.Blocks.{
  IsLocated, IsTyped, plan_icc_profile_read_sound, plan_property_read_sound,
}

abbrev pub location : BlockLocation
location = record { kind = attachment; offset = 64; size = 12; raw = codes "attachment:64:12" }

abbrev pub embedded_location : BlockLocation
embedded_location = record { kind = embedded; offset = 0; size = 0; raw = codes "embedded" }

abbrev pub inline_location : BlockLocation
inline_location = record { kind = inline_data; offset = 0; size = 0; raw = codes "inline:hex" }

abbrev pub color_image : BlockLocation → ImageInfo
color_image block = record {
  id = codes "m31";
  geometry = 2 ∷ 1 ∷ 3 ∷ [];
  sample_format = uint16;
  sample_format_name = codes "UInt16";
  color_space = codes "RGB";
  orientation = none;
  pixel_origin = top_left;
  pixel_traversal = top_to_bottom_left_to_right;
  nominal_channel_order = red_green_blue_then_alpha;
  lower_bound = none;
  upper_bound = none;
  pixel_storage = planar;
  byte_order = little;
  block = block;
  compression = [];
  subblocks = [];
  checksum = [];
}

abbrev pub vector_entry : MetadataEntry
vector_entry = record {
  kind = property;
  scope = xisf_unit;
  value_form = data_block;
  image_index = none;
  uid = [];
  name = codes "Some:Vector";
  type = codes "I32Vector";
  value = [];
  comment = [];
  format = [];
  block = location;
  byte_order = little;
  compression = [];
  subblocks = [];
  checksum = [];
  length_attribute = some 3;
  rows = none;
  columns = none;
}

abbrev pub profile_info : IccProfileInfo
profile_info = record {
  uid = [];
  image_index = none;
  block = inline_location;
  compression = [];
  subblocks = [];
  checksum = [];
}

abbrev pub thumbnail_info : ThumbnailInfo
thumbnail_info = record { uid = []; image_index = none; image = color_image embedded_location }

abbrev pub sample_document : Document
sample_document = record {
  images = color_image location ∷ [];
  metadata = vector_entry ∷ [];
  file_size = 76;
  header_length = 40;
  icc_profiles = profile_info ∷ [];
  thumbnails = thumbnail_info ∷ [];
}

abbrev pub stored_bytes : Bytes
stored_bytes = replicate 12 7

abbrev pub plain_block : CompressionPlan
plain_block = let plan = default_compression_plan in record plan { uncompressed_size = 12 }

abbrev pub no_checksum : ChecksumPlan
no_checksum = record { algorithm = none_algorithm; expected_digest = [] }

abbrev pub image_plan : BlockLocation → Option Bytes → ImageReadPlan
image_plan block embedded_block = record {
  image = color_image block;
  embedded_block = embedded_block;
  channels = 3;
  sample_count = 6;
  sample_size = 2;
  endian_component_size = 2;
  expected_bytes = 12;
  serialized_bytes = 12;
  compression = plain_block;
  checksum = no_checksum;
}

pub image_planned :
    plan_image_read sample_document default_options ([] ∷ []) 0 ≡ ok (image_plan location none)
unfolding plan_image_read mmxisf.Plan.Image.plan_image mmxisf.Pixels.bytes_per_sample
    mmxisf.Pixels.endian_component_size mmxisf.Plan.Image.plan_image_samples
    mmxisf.Plan.Image.image_extent checked_multiply mmxisf.Plan.Image.plan_image_block
    mmxisf.Block.Parse.parse_compression_plan mmxisf.Block.Parse.plan_of
    mmxisf.Block.Parse.plain_plan mmxisf.Block.Parse.parse_checksum_plan
image_planned = refl

plan_image_read_sound_example :
    (get_elem? sample_document.images 0 ≡ some (color_image location))
    × IsSampled (color_image location) 76 ([] ∷ []) 0 (image_plan location none)
    × (3 ≤ 16)
    × (6 ≤ 536870912)
    × (12 ≤ 2147483648)
    × (12 ≤ 2147483648)
plan_image_read_sound_example =
    plan_image_read_sound sample_document default_options ([] ∷ []) 0 image_planned

pub thumbnail_planned :
    plan_thumbnail_read sample_document default_options (stored_bytes ∷ []) 0
    ≡ ok (image_plan embedded_location (some stored_bytes))
unfolding plan_thumbnail_read mmxisf.Plan.Image.plan_thumbnail mmxisf.Pixels.bytes_per_sample
    mmxisf.Pixels.endian_component_size mmxisf.Plan.Image.plan_thumbnail_samples
    mmxisf.Plan.Image.image_extent checked_multiply mmxisf.Plan.Image.plan_image_block
    mmxisf.Block.Parse.parse_compression_plan mmxisf.Block.Parse.plan_of
    mmxisf.Block.Parse.plain_plan mmxisf.Block.Parse.parse_checksum_plan
thumbnail_planned = refl

plan_thumbnail_read_sound_example :
    (thumbnail : ThumbnailInfo) × (get_elem? sample_document.thumbnails 0 ≡ some thumbnail)
    × IsSampled thumbnail.image 76
        (stored_bytes ∷ [])
        0
        (image_plan embedded_location (some stored_bytes))
    × ((is_embedded thumbnail.image.block.kind ≡ false) ⊎ (0 < 1))
    × (12 ≤ 134217728)
    × (12 ≤ 134217728)
plan_thumbnail_read_sound_example =
    plan_thumbnail_read_sound sample_document default_options (stored_bytes ∷ []) 0
      thumbnail_planned

abbrev pub vector_plan : PropertyReadPlan
vector_plan = record {
  property = vector_entry;
  inline_block = none;
  layout = layout_of 4 4 false;
  expected_bytes = 12;
  serialized_bytes = 12;
  compression = plain_block;
  checksum = no_checksum;
}

pub property_planned :
    plan_property_read sample_document default_options ([] ∷ []) 0 ≡ ok vector_plan
unfolding plan_property_read mmxisf.Plan.Metadata.plan_property_entry property_element_layout
    contains mmxisf.Plan.Metadata.plan_property mmxisf.Plan.Metadata.typed_extent
    mmxisf.Property.classify_property_type checked_multiply mmxisf.Plan.locate_block
    mmxisf.Block.Parse.parse_compression_plan mmxisf.Block.Parse.plan_of
    mmxisf.Block.Parse.plain_plan mmxisf.Block.Parse.parse_checksum_plan
property_planned = refl

plan_property_read_sound_example :
    (get_elem? sample_document.metadata 0 ≡ some vector_entry)
    × (is_block_property vector_entry.kind vector_entry.value_form ≡ true)
    × (property_element_layout (codes "I32Vector") ≡ some (layout_of 4 4 false))
    × IsLocated location ([] ∷ []) 0 76 none 12
    × IsTyped vector_entry (layout_of 4 4 false) 12
    × (12 ≡ vector_plan.compression.uncompressed_size)
    × (12 ≤ 268435456)
    × (12 ≤ 268435456)
plan_property_read_sound_example =
    plan_property_read_sound sample_document default_options ([] ∷ []) 0 property_planned

abbrev pub profile_plan : IccProfileReadPlan
profile_plan = record {
  profile = profile_info;
  inline_block = some stored_bytes;
  expected_bytes = 12;
  serialized_bytes = 12;
  compression = plain_block;
  checksum = no_checksum;
}

profile_planned :
    plan_icc_profile_read sample_document default_options (stored_bytes ∷ []) 0 ≡ ok profile_plan
unfolding plan_icc_profile_read mmxisf.Plan.plan_icc_profile mmxisf.Plan.locate_block
    mmxisf.Block.Parse.parse_compression_plan mmxisf.Block.Parse.plan_of
    mmxisf.Block.Parse.plain_plan mmxisf.Block.Parse.parse_checksum_plan
profile_planned = refl

plan_icc_profile_read_sound_example :
    (get_elem? sample_document.icc_profiles 0 ≡ some profile_info)
    × IsLocated inline_location (stored_bytes ∷ []) 0 76 (some stored_bytes) 12
    × (12 ≡ profile_plan.compression.uncompressed_size)
    × (12 ≤ 67108864)
    × (12 ≤ 67108864)
plan_icc_profile_read_sound_example =
    plan_icc_profile_read_sound sample_document default_options (stored_bytes ∷ []) 0
      profile_planned
