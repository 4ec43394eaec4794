-- ===== src/Read/Image/Described.antt =====
-- The images that the read operations return are those of the document.
use mmxisf.Base.{
  ℕ, ◌≤◌, ◌≡◌, refl, sym, ap, ◌∙◌, subst, inl, inr, none, some, List, [], ◌∷◌, arith, if◌then◌else◌,
  length, get_or, length-replicate, ◌≢◌, ◌⊎◌, get_elem?,
}
use mmxisf.Base.Text.{Bytes, is_empty}
use mmxisf.Base.Error.{ok, StopToken, Never}
use mmxisf.Word.{u64_max}
use mmxisf.Buffer.Nested.{splice-all}
use mmxisf.Document.{PixelStorage, ByteOrder, ImageInfo, ThumbnailInfo}
use mmxisf.Block.{Codecs, ChecksumPlan, none_algorithm}
use mmxisf.Source.{Serves, stop_below}
use mmxisf.Plan.{ImageReadPlan}
use mmxisf.Plan.Image.{
  plan_image_read, plan_thumbnail_read, resolve_pixel_storage, resolve_byte_order,
}
use mmxisf.Plan.Sound.Images.{IsSampled, plan_image_read_sound, plan_thumbnail_read_sound}
use mmxisf.Read.{copy_serialized_image}
use mmxisf.Read.Copy.{copy_serialized_image-Located}
use mmxisf.Read.Fetch.{zeros}
use mmxisf.Read.Fetch.Carried.{read_block-Carries}
use mmxisf.Document.Names.{verified, not_declared, ChecksumVerification}
use mmxisf.Read.Metadata.{Reader, verification_of}
use mmxisf.Read.Metadata.Returned.{block_bytes}
use mmxisf.Read.Image.{
  ImageReadOptions, layout_of_plan, raw_image, read_image, read_thumbnail, RawImage,
}
use mmxisf.Read.Image.Rendered.{IsRendered}
use mmxisf.Read.Image.Stored.{Holds, IsSampled-Located, read_image_into-IsRendered}

-- A returned image has the axes, the format and the orientation of an image of the document.
pub record IsDescribed (info : ImageInfo) (image : RawImage) : Type 0 where
  pub axes : info.geometry ≡ image.width ∷ image.height ∷ image.channels ∷ []
  pub format : image.sample_format ≡ info.sample_format
  pub turned : image.orientation ≡ info.orientation
  pub origin : image.pixel_origin ≡ info.pixel_origin
  pub traversal : image.pixel_traversal ≡ info.pixel_traversal
  pub channel_order : image.nominal_channel_order ≡ info.nominal_channel_order

-- A checksum is verified when one is declared.
abbrev pub IsVerified : Bytes → ChecksumVerification → Type 0
IsVerified checksum verification =
    ((checksum ≡ []) × (verification ≡ not_declared))
    ⊎ ((checksum ≢ []) × (verification ≡ verified))

abbrev pub IsPlanVerified : ChecksumPlan → ChecksumVerification → Type 0
IsPlanVerified plan verification =
    ((plan.algorithm ≡ none_algorithm) × (verification ≡ not_declared))
    ⊎ ((plan.algorithm ≢ none_algorithm) × (verification ≡ verified))

three_axes :
    (axes : List ℕ)
    → length axes ≡ 3
    → axes ≡ get_or axes 0 0 ∷ get_or axes 1 0 ∷ get_or axes 2 0 ∷ []
three_axes [] h = absurd (omega arith)
three_axes (a ∷ []) h = absurd (omega arith)
three_axes (a ∷ b ∷ []) h = absurd (omega arith)
three_axes (a ∷ b ∷ c ∷ []) h = refl
three_axes (a ∷ b ∷ c ∷ d ∷ axes) h = absurd (omega arith)

declared-IsVerified :
    (checksum : Bytes) → IsVerified checksum (if is_empty checksum then not_declared else verified)
declared-IsVerified [] = inl (refl, refl)
declared-IsVerified (c ∷ cs) = inr (ground arith, refl)

verification_of-IsPlanVerified : (plan : ChecksumPlan) → IsPlanVerified plan (verification_of plan)
verification_of-IsPlanVerified plan = ground arith

IsSampled-IsDescribed :
    {info : ImageInfo} {file_size index : ℕ} {embedded_blocks : List Bytes} (plan : ImageReadPlan)
    (storage : PixelStorage) (order : ByteOrder) (verification : ChecksumVerification)
    (pixels : Bytes)
    → IsSampled info file_size embedded_blocks index plan
    → IsDescribed plan.image (raw_image plan storage order verification pixels)
IsSampled-IsDescribed {info} plan storage order verification pixels sampled = record {
  axes =
      three_axes plan.image.geometry
        (ap (λ i. length i.geometry) sampled.planned ∙ sampled.two_dimensional)
      ∙ ap (λ n. get_or plan.image.geometry 0 0 ∷ get_or plan.image.geometry 1 0 ∷ n ∷ [])
          (ap (λ i. get_or i.geometry 2 0) sampled.planned ∙ sym sampled.channels_eq);
  format = refl;
  turned = refl;
  origin = refl;
  traversal = refl;
  channel_order = refl;
}

module _ (lib : Codecs) (reader : Reader) (contents : Bytes)
    (serves : Serves reader.source contents) (small : length contents ≤ u64_max)
    (whole : reader.document.file_size ≡ length contents) where
  -- An image that the source's contents hold is returned: it has the axes, the format, the
  -- orientation and the bounds of the document's image, is verified when a checksum is declared, and
  -- its pixels are those of the block, rendered in the storage and byte order that the options resolve
  -- to. The source serves its contents, and stop is never requested.
  pub read_image-IsDescribed :
      (native_endian : ByteOrder) (index : ℕ) (read_options : ImageReadOptions) (stop : StopToken)
      (block : Bytes) {plan : ImageReadPlan}
      → Never stop
      → plan_image_read reader.document reader.options reader.embedded_blocks index ≡ ok plan
      → Holds lib contents plan block
      → (image : RawImage) × (read_image lib native_endian reader index read_options stop
          ≡ ok image)
        × (get_elem? reader.document.images index ≡ some plan.image)
        × IsDescribed plan.image image
        × (image.lower_bound ≡ plan.image.lower_bound)
        × (image.upper_bound ≡ plan.image.upper_bound)
        × IsVerified plan.image.checksum image.checksum_verification
        × (resolve_pixel_storage plan read_options.pixel_storage ≡ ok image.pixel_storage)
        × (resolve_byte_order native_endian plan.image.byte_order read_options.byte_order
            ≡ ok image.byte_order)
        × IsRendered (layout_of_plan plan image.pixel_storage image.byte_order) block image.pixels
  unfolding read_image
  read_image-IsDescribed native_endian index read_options stop block {plan} never planned holds =
      let size : length (zeros plan.expected_bytes) ≡ plan.expected_bytes =
        length-replicate plan.expected_bytes 0 in
      let (found, sampled, channels-le, samples-le, bytes-le, serialized-le) =
        plan_image_read_sound reader.document reader.options reader.embedded_blocks index planned in
      let (storage, order, pixels, stores, orders, reads, rendered) =
        read_image_into-IsRendered lib reader contents serves small whole native_endian index
          (zeros plan.expected_bytes) read_options (stop_below 1 stop) block
          (λ poll. never (1 ∷ poll)) planned holds (omega (arith, size)) in
      let verification : ChecksumVerification =
        if is_empty plan.image.checksum then not_declared else verified in
      (
        raw_image plan storage order verification pixels,
        rw
            (
              planned,
              never (0 ∷ []),
              stores,
              orders,
              reads,
              splice-all (zeros plan.expected_bytes) pixels
                  (rendered.same_length ∙ sampled.bytes ∙ sym size),
            )
            refl,
        found,
        IsSampled-IsDescribed plan storage order verification pixels sampled,
        refl,
        refl,
        declared-IsVerified plan.image.checksum,
        stores,
        orders,
        rendered,
      )

  -- A thumbnail that the source's contents hold is returned: it has the axes, the format and the
  -- orientation of the document's thumbnail, no bounds, the storage and byte order that are declared,
  -- and the bytes of the block, and it is verified when the plan has a digest. The source serves its
  -- contents, and stop is never requested.
  pub read_thumbnail-IsDescribed :
      (index : ℕ) (stop : StopToken) (block : Bytes) {plan : ImageReadPlan}
      → Never stop
      → plan_thumbnail_read reader.document reader.options reader.embedded_thumbnail_blocks index
        ≡ ok plan
      → Holds lib contents plan block
      → (thumbnail : ThumbnailInfo) × (image : RawImage) × (get_elem? reader.document.thumbnails
            index
          ≡ some thumbnail)
        × (read_thumbnail lib reader index stop ≡ ok image)
        × IsDescribed thumbnail.image image
        × (image.lower_bound ≡ none)
        × (image.upper_bound ≡ none)
        × IsPlanVerified plan.checksum image.checksum_verification
        × (image.pixel_storage ≡ thumbnail.image.pixel_storage)
        × (image.byte_order ≡ thumbnail.image.byte_order)
        × (image.pixels ≡ block)
  unfolding read_thumbnail
  read_thumbnail-IsDescribed index stop block {plan} never planned (decoded, carries) =
      let (thumbnail, found, sampled, within, bytes-le, serialized-le) =
        plan_thumbnail_read_sound reader.document reader.options reader.embedded_thumbnail_blocks
          index planned in
      let serialized =
        block_bytes contents plan.embedded_block plan.image.block.offset plan.serialized_bytes in
      let (size, located) = IsSampled-Located plan contents sampled whole in
      let fetched =
        read_block-Carries lib
          (λ buffer. copy_serialized_image reader.source plan buffer (stop_below 1 stop) index)
          plan.compression plan.checksum plan.serialized_bytes plan.expected_bytes serialized block
          (stop_below 2 stop) (λ poll. never (2 ∷ poll))
          (λ buffer same.
            copy_serialized_image-Located reader.source contents serves small (stop_below 1 stop)
              (λ poll. never (1 ∷ poll)) plan index serialized buffer size located same)
          size decoded carries in
      let image : RawImage =
        raw_image plan plan.image.pixel_storage plan.image.byte_order
          (verification_of plan.checksum) block in
      let described =
        IsSampled-IsDescribed plan plan.image.pixel_storage plan.image.byte_order
          (verification_of plan.checksum) block sampled in
      (
        thumbnail,
        record image { lower_bound = none; upper_bound = none },
        found,
        rw (planned, never (0 ∷ []), fetched) refl,
        subst (λ info. IsDescribed info (record image { lower_bound = none; upper_bound = none }))
            sampled.planned
            (record {
              axes = described.axes;
              format = refl;
              turned = refl;
              origin = refl;
              traversal = refl;
              channel_order = refl;
            }),
        refl,
        refl,
        verification_of-IsPlanVerified plan.checksum,
        ap (λ i. i.pixel_storage) sampled.planned,
        ap (λ i. i.byte_order) sampled.planned,
        refl,
      )
