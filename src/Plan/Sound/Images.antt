-- ===== src/Plan/Sound/Images.antt =====
-- The plans of `plan_image_read` and `plan_thumbnail_read`.
use mmxisf.Base.{
  ℕ, ◌+◌, ◌*◌, ◌^◌, ◌≤◌, ◌<◌, ◌≡◌, sym, ap, ap₂, ◌∙◌, subst, ◌⊎◌, inl, inr, true, false, none, some,
  List, [], arith, length, get_elem?, get_or,
}
use mmxisf.Base.Text.{Bytes}
use mmxisf.Base.Error.{ok}
use mmxisf.Document.{Document, ReaderOptions, ImageInfo, ThumbnailInfo}
use mmxisf.Pixels.{bytes_per_sample, endian_component_size}
use mmxisf.Plan.{ImageReadPlan, is_attachment, is_embedded}
use mmxisf.Plan.Image.{
  image_extent, plan_image_block, plan_image_samples, sample_sizes, is_readable, plan_image,
  plan_image_read, plan_thumbnail_samples, plan_thumbnail, plan_thumbnail_read,
}
use mmxisf.Plan.Sound.{image_extent-exact, IsBlockPlan, plan_image_block-IsBlockPlan}

-- The plan reads exactly the samples of a two-dimensional image: as many as the axes say, each of
-- the format's size, from a block that lies in the source.
pub record IsSampled (info : ImageInfo) (file_size : ℕ) (embedded_blocks : List Bytes) (index : ℕ)
    (p : ImageReadPlan) : Type 0 where
  pub planned : p.image ≡ info
  pub two_dimensional : length info.geometry ≡ 3
  pub channels_eq : p.channels ≡ get_or info.geometry 2 0
  pub sample_size : bytes_per_sample info.sample_format ≡ some p.sample_size
  pub component_size : endian_component_size info.sample_format ≡ some p.endian_component_size
  pub count : get_or info.geometry 0 0 * get_or info.geometry 1 0 * p.channels ≡ p.sample_count
  pub bytes : p.sample_count * p.sample_size ≡ p.expected_bytes
  pub bytes-lt : p.expected_bytes < 2 ^ 64
  pub decoded : p.compression.uncompressed_size ≡ p.expected_bytes
  pub stored :
      (is_attachment info.block.kind ≡ true)
        × (p.serialized_bytes ≡ info.block.size)
        × (info.block.offset + info.block.size ≤ file_size)
        × (p.embedded_block ≡ none)
      ⊎ (is_embedded info.block.kind ≡ true)
        × (p.embedded_block ≡ some (get_or embedded_blocks index []))
        × (p.serialized_bytes ≡ length (get_or embedded_blocks index []))

-- What the guards before the block's plan establish.
IsSampled-block :
    (info : ImageInfo) (file_size : ℕ) (embedded_blocks : List Bytes) (index : ℕ)
    (limits sizes extent : ℕ × ℕ) {p : ImageReadPlan}
    → IsBlockPlan info embedded_blocks index file_size limits sizes extent p
    → length info.geometry ≡ 3
    → is_readable info.block.kind ≡ true
    → sample_sizes info.sample_format ≡ some sizes
    → image_extent info.geometry sizes.0 ≡ some extent
    → IsSampled info file_size embedded_blocks index p
IsSampled-block info file_size embedded_blocks index limits sizes extent {p} b three readable s x =
    let (count, bytes, small) = image_extent-exact info.geometry sizes.0 x in
    let kind : (is_attachment info.block.kind ≡ true) ⊎ (is_embedded info.block.kind ≡ true) =
      ground arith in
    record {
      planned = b.image_eq;
      two_dimensional = three;
      channels_eq = b.channels_eq;
      sample_size = ground (arith, b.sizes_eq);
      component_size = ground (arith, b.sizes_eq);
      count =
          ap (λ n. get_or info.geometry 0 0 * get_or info.geometry 1 0 * n) b.channels_eq
          ∙ count
          ∙ sym b.count_eq;
      bytes = ap₂ (λ m n. m * n) b.count_eq b.sizes_eq.0 ∙ bytes ∙ sym b.expected_eq;
      bytes-lt = omega (arith, b.expected_eq);
      decoded = b.decoded ∙ sym b.expected_eq;
      stored = elim kind [
        | inl at_source ↦
            let (size, inside, outside) = b.attached at_source in
            inl (at_source, size, inside, outside)
        | inr in_header ↦ let (block, size) = b.stored in_header in inr (in_header, block, size)
      ];
    }

plan_image_samples-parts :
    (document : Document) (options : ReaderOptions) (embedded_blocks : List Bytes) (index : ℕ)
    (info : ImageInfo) (sizes : ℕ × ℕ) {p : ImageReadPlan}
    → plan_image_samples document options embedded_blocks index info sizes ≡ ok p
    → (extent : ℕ × ℕ) × (image_extent info.geometry sizes.0 ≡ some extent)
      × (get_or info.geometry 2 0 ≤ options.max_decoded_channels)
      × (extent.0 ≤ options.max_samples_per_image)
      × (plan_image_block "Attachment range extends beyond the source" info embedded_blocks index
            options document.file_size
            (options.max_serialized_image_bytes, options.max_decoded_image_bytes)
            sizes
            extent
          ≡ ok p)
unfolding plan_image_samples
plan_image_samples-parts document options embedded_blocks index info sizes h = ground arith

plan_image-parts :
    (document : Document) (options : ReaderOptions) (embedded_blocks : List Bytes) (index : ℕ)
    (info : ImageInfo) {p : ImageReadPlan}
    → plan_image document options embedded_blocks index info ≡ ok p
    → (sizes : ℕ × ℕ) × (sample_sizes info.sample_format ≡ some sizes)
      × (is_readable info.block.kind ≡ true)
      × (length info.geometry ≡ 3)
      × (plan_image_samples document options embedded_blocks index info sizes ≡ ok p)
unfolding plan_image
plan_image-parts document options embedded_blocks index info h = ground arith

plan_thumbnail_samples-parts :
    (document : Document) (options : ReaderOptions) (embedded_blocks : List Bytes) (index : ℕ)
    (info : ImageInfo) (sizes : ℕ × ℕ) {p : ImageReadPlan}
    → plan_thumbnail_samples document options embedded_blocks index info sizes ≡ ok p
    → (extent : ℕ × ℕ) × (image_extent info.geometry sizes.0 ≡ some extent)
      × ((is_embedded info.block.kind ≡ false) ⊎ (index < length embedded_blocks))
      × (plan_image_block "Thumbnail attachment extends beyond the source" info embedded_blocks
            index options document.file_size
            (options.max_serialized_thumbnail_bytes, options.max_decoded_thumbnail_bytes)
            sizes
            extent
          ≡ ok p)
unfolding plan_thumbnail_samples
plan_thumbnail_samples-parts document options embedded_blocks index info sizes h = ground arith

plan_thumbnail-parts :
    (document : Document) (options : ReaderOptions) (embedded_blocks : List Bytes) (index : ℕ)
    (info : ImageInfo) {p : ImageReadPlan}
    → plan_thumbnail document options embedded_blocks index info ≡ ok p
    → (sizes : ℕ × ℕ) × (sample_sizes info.sample_format ≡ some sizes)
      × (is_readable info.block.kind ≡ true)
      × (length info.geometry ≡ 3)
      × (plan_thumbnail_samples document options embedded_blocks index info sizes ≡ ok p)
unfolding plan_thumbnail
plan_thumbnail-parts document options embedded_blocks index info h = ground arith

image_at :
    (document : Document) (options : ReaderOptions) (embedded_blocks : List Bytes) (index : ℕ)
    {p : ImageReadPlan}
    → plan_image_read document options embedded_blocks index ≡ ok p
    → (info : ImageInfo) × (get_elem? document.images index ≡ some info)
      × (plan_image document options embedded_blocks index info ≡ ok p)
unfolding plan_image_read
image_at document options embedded_blocks index h = ground arith

thumbnail_at :
    (document : Document) (options : ReaderOptions) (embedded_blocks : List Bytes) (index : ℕ)
    {p : ImageReadPlan}
    → plan_thumbnail_read document options embedded_blocks index ≡ ok p
    → (thumbnail : ThumbnailInfo) × (get_elem? document.thumbnails index ≡ some thumbnail)
      × (plan_thumbnail document options embedded_blocks index thumbnail.image ≡ ok p)
unfolding plan_thumbnail_read
thumbnail_at document options embedded_blocks index h = ground arith

-- A returned image plan is for the image at the index: its samples are counted exactly, without
-- overflow, are within every limit, and are read from a block that lies in the source; the decoded
-- size is the size of the samples.
pub plan_image_read_sound :
    (document : Document) (options : ReaderOptions) (embedded_blocks : List Bytes) (index : ℕ)
    {p : ImageReadPlan}
    → plan_image_read document options embedded_blocks index ≡ ok p
    → (get_elem? document.images index ≡ some p.image)
      × IsSampled p.image document.file_size embedded_blocks index p
      × (p.channels ≤ options.max_decoded_channels)
      × (p.sample_count ≤ options.max_samples_per_image)
      × (p.expected_bytes ≤ options.max_decoded_image_bytes)
      × (p.serialized_bytes ≤ options.max_serialized_image_bytes)
plan_image_read_sound document options embedded_blocks index {p} h =
    let (info, found, planned) = image_at document options embedded_blocks index h in
    let (sizes, s, readable, three, sampled) =
      plan_image-parts document options embedded_blocks index info planned in
    let (extent, x, channels-le, count-le, block) =
      plan_image_samples-parts document options embedded_blocks index info sizes sampled in
    let b =
      plan_image_block-IsBlockPlan _ info embedded_blocks index options document.file_size _ sizes
        extent block in
    let i =
      IsSampled-block info document.file_size embedded_blocks index _ sizes extent b three readable
        s x in
    (
      found ∙ ap some (sym b.image_eq),
      subst (λ image. IsSampled image document.file_size embedded_blocks index p) (sym b.image_eq)
          i,
      omega (arith, b.channels_eq),
      omega (arith, b.count_eq),
      omega (arith, b.expected_eq, b.decoded-le),
      b.serialized-le,
    )

-- A returned thumbnail plan is for the thumbnail at the index, with the same promises about its
-- samples, within the limits for thumbnails; an embedded block is one that is stored.
pub plan_thumbnail_read_sound :
    (document : Document) (options : ReaderOptions) (embedded_blocks : List Bytes) (index : ℕ)
    {p : ImageReadPlan}
    → plan_thumbnail_read document options embedded_blocks index ≡ ok p
    → (thumbnail : ThumbnailInfo) × (get_elem? document.thumbnails index ≡ some thumbnail)
      × IsSampled thumbnail.image document.file_size embedded_blocks index p
      × ((is_embedded thumbnail.image.block.kind ≡ false) ⊎ (index < length embedded_blocks))
      × (p.expected_bytes ≤ options.max_decoded_thumbnail_bytes)
      × (p.serialized_bytes ≤ options.max_serialized_thumbnail_bytes)
plan_thumbnail_read_sound document options embedded_blocks index {p} h =
    let (thumbnail, found, planned) = thumbnail_at document options embedded_blocks index h in
    let (sizes, s, readable, three, sampled) =
      plan_thumbnail-parts document options embedded_blocks index thumbnail.image planned in
    let (extent, x, inside, block) =
      plan_thumbnail_samples-parts document options embedded_blocks index thumbnail.image sizes
        sampled in
    let b =
      plan_image_block-IsBlockPlan _ thumbnail.image embedded_blocks index options
        document.file_size _ sizes extent block in
    let i =
      IsSampled-block thumbnail.image document.file_size embedded_blocks index _ sizes extent b
        three readable s x in
    (thumbnail, found, i, inside, omega (arith, b.expected_eq, b.decoded-le), b.serialized-le)
