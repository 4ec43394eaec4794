-- ===== src/Plan/Image.antt =====
-- `plan_image_read`, `plan_thumbnail_read` and the output options of src/reader.cpp.
use Prim.Native.String.{String}
use mmxisf.Base.{
  ℕ, Bool, not, ◌&&◌, ◌||◌, Option, none, some, List, [], ltb, leb, ◌==◌, if◌then◌else◌, length,
  get_elem?, get_or,
}
use mmxisf.Base.Text.{Bytes, codes, bytes_eq}
use mmxisf.Base.Error.{
  resource_limit, unsupported_feature, invalid_block, invalid_argument, overflow, internal_error,
  Error, make_error, Result, ok, err, fail, ◌>>=◌, ◌>>◌, reject_if,
}
use mmxisf.Word.{u64_max, checked_multiply}
use mmxisf.Document.{
  Document, SampleFormat, ReaderOptions, ImageInfo, BlockKind, PixelStorage, planar, normal,
  ByteOrder,
}
use mmxisf.Pixels.{bytes_per_sample, endian_component_size}
use mmxisf.Block.Parse.{parse_compression_plan, parse_checksum_plan}
use mmxisf.Plan.{ImageReadPlan, is_attachment, is_embedded, extends_beyond}

-- `sample_count` and `expected_bytes`
unfoldable pub image_extent : List ℕ → ℕ → Option (ℕ × ℕ)
image_extent geometry sample_size =
    elim (checked_multiply (get_or geometry 0 0) (get_or geometry 1 0)) [
      | none ↦ none
      | some pixel_count ↦ elim (checked_multiply pixel_count (get_or geometry 2 0)) [
        | none ↦ none
        | some sample_count ↦ elim (checked_multiply sample_count sample_size) [
          | none ↦ none
          | some expected_bytes ↦ some (sample_count, expected_bytes)
        ]
      ]
    ]

-- The end of the image and of the thumbnail plan: the block, its compression and its checksum. The
-- storage of embedded blocks has an entry for every image.
unfoldable pub plan_image_block :
    String
    → ImageInfo
    → List Bytes
    → ℕ
    → ReaderOptions
    → ℕ
    → (ℕ × ℕ)
    → (ℕ × ℕ)
    → (ℕ × ℕ)
    → Result ImageReadPlan
plan_image_block beyond image embedded_blocks index options file_size limits sizes extent =
    let attached = is_attachment image.block.kind in
    let embedded_block = get_or embedded_blocks index [] in
    let serialized_bytes = if attached then image.block.size else length embedded_block in
    parse_compression_plan image.compression image.subblocks options (record {
      serialized_bytes = serialized_bytes;
      expected_bytes = some extent.1;
      item_size = sizes.0;
      max_serialized_bytes = limits.0;
      max_decoded_bytes = limits.1;
    })
    >>= λ compression. parse_checksum_plan image.checksum >>= λ checksum.
        reject_if (attached && extends_beyond image.block file_size) invalid_block beyond
        >> ok (record {
          image = image;
          embedded_block = if is_embedded image.block.kind then some embedded_block else none;
          channels = get_or image.geometry 2 0;
          sample_count = extent.0;
          sample_size = sizes.0;
          endian_component_size = sizes.1;
          expected_bytes = extent.1;
          serialized_bytes = serialized_bytes;
          compression = compression;
          checksum = checksum;
        })

-- `plan_image_read` behind the checks on the format of the image.
unfoldable pub plan_image_samples :
    Document → ReaderOptions → List Bytes → ℕ → ImageInfo → (ℕ × ℕ) → Result ImageReadPlan
plan_image_samples document options embedded_blocks image_index info sizes =
    if ltb options.max_decoded_channels (get_or info.geometry 2 0)
    then fail resource_limit "Image channel count exceeds the decode limit"
    else elim (image_extent info.geometry sizes.0) [
      | none ↦ fail overflow "Image geometry overflows the byte-size calculation"
      | some extent ↦
          if ltb options.max_samples_per_image extent.0
          then fail resource_limit "Image exceeds the configured sample-count limit"
          else if ltb options.max_decoded_image_bytes extent.1 || ltb u64_max extent.1
          then fail resource_limit "Image exceeds the configured decoded byte limit"
          else plan_image_block "Attachment range extends beyond the source" info embedded_blocks
              image_index options document.file_size
              (options.max_serialized_image_bytes, options.max_decoded_image_bytes) sizes extent
    ]

-- `bytes_per_sample` and `endian_component_size` of a format that has both
abbrev pub sample_sizes : SampleFormat → Option (ℕ × ℕ)
sample_sizes format = elim (bytes_per_sample format) [
  | none ↦ none
  | some sample_size ↦ elim (endian_component_size format) [
    | none ↦ none
    | some component_size ↦ some (sample_size, component_size)
  ]
]

abbrev pub is_readable : BlockKind → Bool
is_readable kind = is_attachment kind || is_embedded kind

-- `plan_image_read` behind the bounds check.
unfoldable pub plan_image :
    Document → ReaderOptions → List Bytes → ℕ → ImageInfo → Result ImageReadPlan
plan_image document options embedded_blocks image_index info = do
  reject_if (not (is_readable info.block.kind)) unsupported_feature
      "The reader only reads attachment and embedded image blocks"
  reject_if (not (length info.geometry == 3)) unsupported_feature
      "The current reader profile only reads 2-D images"
  reject_if (bytes_eq info.color_space (codes "CIELab")) unsupported_feature
      "CIELab conversion is outside the M2 reader profile"
  elim (sample_sizes info.sample_format) [
    | none ↦ fail unsupported_feature "The reader does not decode this image sample format"
    | some sizes ↦ plan_image_samples document options embedded_blocks image_index info sizes
  ]

abbrev outside_document : ℕ → Error
outside_document image_index =
    let error = make_error invalid_argument "Image index is outside the document" in
    record error { image_index = some image_index }

unfoldable pub plan_image_read : Document → ReaderOptions → List Bytes → ℕ → Result ImageReadPlan
plan_image_read document options embedded_blocks image_index =
    elim (get_elem? document.images image_index) [
      | none ↦ err (outside_document image_index)
      | some info ↦ plan_image document options embedded_blocks image_index info
    ]

-- `plan_thumbnail_read` behind the checks on the format of the thumbnail.
unfoldable pub plan_thumbnail_samples :
    Document → ReaderOptions → List Bytes → ℕ → ImageInfo → (ℕ × ℕ) → Result ImageReadPlan
plan_thumbnail_samples document options embedded_blocks thumbnail_index info sizes =
    elim (image_extent info.geometry sizes.0) [
      | none ↦ fail overflow "Thumbnail geometry overflows its byte size"
      | some extent ↦
          if ltb options.max_decoded_thumbnail_bytes extent.1 || ltb u64_max extent.1
          then fail resource_limit "Thumbnail exceeds the decoded byte limit"
          else if is_embedded info.block.kind && leb (length embedded_blocks) thumbnail_index
          then fail internal_error "Embedded Thumbnail storage is inconsistent"
          else plan_image_block "Thumbnail attachment extends beyond the source" info
              embedded_blocks thumbnail_index options document.file_size
              (options.max_serialized_thumbnail_bytes, options.max_decoded_thumbnail_bytes) sizes
              extent
    ]

-- `plan_thumbnail_read` behind the bounds check.
unfoldable pub plan_thumbnail :
    Document → ReaderOptions → List Bytes → ℕ → ImageInfo → Result ImageReadPlan
plan_thumbnail document options embedded_blocks thumbnail_index info = do
  reject_if (not (is_readable info.block.kind)) unsupported_feature
      "Only attachment and embedded Thumbnail blocks are readable"
  reject_if (not (length info.geometry == 3)) invalid_block
      "Thumbnail geometry is not two-dimensional"
  elim (sample_sizes info.sample_format) [
    | none ↦ fail unsupported_feature "Thumbnail sample format is not readable"
    | some sizes ↦
        plan_thumbnail_samples document options embedded_blocks thumbnail_index info sizes
  ]

unfoldable pub plan_thumbnail_read :
    Document → ReaderOptions → List Bytes → ℕ → Result ImageReadPlan
plan_thumbnail_read document options embedded_blocks thumbnail_index =
    elim (get_elem? document.thumbnails thumbnail_index) [
      | none ↦ fail invalid_argument "Thumbnail index is outside the document"
      | some thumbnail ↦
          plan_thumbnail document options embedded_blocks thumbnail_index thumbnail.image
    ]

pub data PixelStorageOutput : Type 0 where
  source_storage planar_output normal_output : PixelStorageOutput

pub data ByteOrderOutput : Type 0 where
  source_order native_order : ByteOrderOutput

-- A value outside the enumeration, which the source refuses, is no value here.
unfoldable pub resolve_pixel_storage : ImageReadPlan → PixelStorageOutput → Result PixelStorage
resolve_pixel_storage plan source_storage = ok plan.image.pixel_storage
resolve_pixel_storage plan planar_output = ok planar
resolve_pixel_storage plan normal_output = ok normal

-- The first argument is the order of the host.
unfoldable pub resolve_byte_order : ByteOrder → ByteOrder → ByteOrderOutput → Result ByteOrder
resolve_byte_order native_endian order source_order = ok order
resolve_byte_order native_endian order native_order = ok native_endian
