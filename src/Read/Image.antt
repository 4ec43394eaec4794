-- ===== src/Read/Image.antt =====
-- `transform_pixel_storage`, `read_image_into`, `read_image` and `read_thumbnail` of src/reader.cpp.
pub mod Staged
pub mod Chunks
pub mod Rendered
pub mod Returned
pub mod Stored
pub mod Described
use mmxisf.Base.{
  ℕ, zero, suc, ◌+◌, ◌-◌, ◌*◌, ◌/◌, min, Bool, true, false, not, ◌&&◌, Option, none, [], ◌∷◌, ltb,
  if◌then◌else◌, length, get_or, take,
}
use mmxisf.Base.Text.{Bytes, is_empty}
use mmxisf.Base.Error.{
  invalid_argument, cancelled, Result, ok, fail, ◌>>=◌, ◌>>◌, reject_if, StopToken,
}
use mmxisf.Buffer.{splice, then_with}
use mmxisf.Buffer.Run.{write_run}
use mmxisf.Document.{
  SampleFormat, PixelStorage, planar, normal, ByteOrder, ImageOrientation, PixelOrigin,
  PixelTraversal, NominalChannelOrder, Double,
}
use mmxisf.Pixels.{
  Layout, pixel_count, output_index, input_byte, same_order, transform_pixel_storage_from_buffer,
  swap_byte_order_in_place,
}
use mmxisf.Block.{Codecs}
use mmxisf.Block.Decode.{verify_checksum, decode_compressed_block}
use mmxisf.Source.{ByteSource, below_call, stop_below}
use mmxisf.Plan.{ImageReadPlan}
use mmxisf.Plan.Image.{
  PixelStorageOutput, source_storage, ByteOrderOutput, source_order, plan_image_read,
  plan_thumbnail_read, resolve_pixel_storage, resolve_byte_order,
}
use mmxisf.Read.{read_chunk_bytes, read_serialized_chunk, copy_serialized_image}
use mmxisf.Read.Fetch.{is_compressed, is_staged, zeros, keep_bytes, read_block}
use mmxisf.Document.Names.{ChecksumVerification, verified, not_declared}
use mmxisf.Read.Metadata.{Reader, verification_of}

abbrev pub same_storage : PixelStorage → PixelStorage → Bool
same_storage planar planar = true
same_storage normal normal = true
same_storage _ _ = false

abbrev pub layout_of_plan : ImageReadPlan → PixelStorage → ByteOrder → Layout
layout_of_plan plan storage order = record {
  source_storage = plan.image.pixel_storage;
  source_order = plan.image.byte_order;
  output_storage = storage;
  output_order = order;
  sample_count = plan.sample_count;
  channels = plan.channels;
  sample_size = plan.sample_size;
  component_size = plan.endian_component_size;
}

-- The copy of the sample at `local_sample` of the staging buffer.
unfoldable pub copy_staged : Layout → Bytes → ℕ → ℕ → Bytes → Bytes
copy_staged l staging source_sample local_sample destination =
    let output =
      output_index l.source_storage l.output_storage (pixel_count l) l.channels
        (source_sample + local_sample) in
    let input_offset = local_sample * l.sample_size in
    let output_offset = output * l.sample_size in
    write_run (λ byte. output_offset + byte)
      (λ byte.
        get_or staging
          (input_offset
            + input_byte (same_order l.source_order l.output_order) l.component_size byte)
          0)
      l.sample_size 0 destination

unfoldable pub copy_chunk : Layout → Bytes → ℕ → ℕ → ℕ → Bytes → Bytes
copy_chunk l staging source_sample zero local_sample destination = destination
copy_chunk l staging source_sample (suc left) local_sample destination =
    copy_chunk l staging source_sample left (local_sample + 1)
      (copy_staged l staging source_sample local_sample destination)

-- `chunk_samples`
abbrev pub samples_in_chunk : ImageReadPlan → ℕ → ℕ
samples_in_chunk plan source_sample =
    min (read_chunk_bytes / plan.sample_size) (plan.sample_count - source_sample)

module _ (source : ByteSource) (plan : ImageReadPlan) (l : Layout) (stop : StopToken)
    (image_index : ℕ) where
  -- A round reads at least one sample, so the fuel is the number of samples.
  unfoldable pub transform_chunks : ℕ → ℕ → Bytes → Bytes → Result ℕ × Bytes
  transform_chunks zero source_sample staging destination = (ok plan.expected_bytes, destination)
  transform_chunks (suc fuel) source_sample staging destination =
      let chunk_samples = samples_in_chunk plan source_sample in
      let rest =
        (let (read, piece) =
            read_serialized_chunk (below_call source_sample source) plan
              (source_sample * plan.sample_size) (take (chunk_samples * plan.sample_size) staging)
              (stop_below 1 (stop_below source_sample stop)) image_index in
          let filled = splice staging 0 piece in
          then_with (read, destination)
            λ _ kept.
              transform_chunks fuel (source_sample + chunk_samples) filled
                (copy_chunk l filled source_sample chunk_samples 0 kept)) in
      if not (ltb source_sample plan.sample_count)
      then (ok plan.expected_bytes, destination)
      else if stop (source_sample ∷ 0 ∷ [])
      then (fail cancelled "Image read was cancelled", destination)
      else rest

unfoldable pub transform_pixel_storage :
    ByteSource → ImageReadPlan → Bytes → PixelStorage → ByteOrder → StopToken → ℕ → Result ℕ × Bytes
transform_pixel_storage source plan destination storage order stop image_index =
    transform_chunks source plan (layout_of_plan plan storage order) stop image_index
      plan.sample_count 0
      (zeros (min plan.expected_bytes (read_chunk_bytes / plan.sample_size * plan.sample_size)))
      destination

-- The last step of `read_image_into` for a storage that is not changed.
unfoldable pub reorder_image : ImageReadPlan → ByteOrder → StopToken → ℕ → Bytes → Result ℕ × Bytes
reorder_image plan order stop written output =
    if ltb 1 plan.sample_size && not (same_order order plan.image.byte_order)
    then swap_byte_order_in_place output plan.endian_component_size stop
    else (ok written, output)

module _ (lib : Codecs) (plan : ImageReadPlan) (storage : PixelStorage) (order : ByteOrder)
    (stop : StopToken) where
  -- What `read_image_into` does with serialized bytes that are verified.
  unfoldable pub write_serialized : Bytes → Bytes → Result ℕ × Bytes
  write_serialized serialized output =
      let l = layout_of_plan plan storage order in
      if is_compressed plan.compression.codec
      then (if not (same_storage storage plan.image.pixel_storage)
          then then_with
              (
                keep_bytes (
                    decode_compressed_block lib serialized plan.compression
                      (zeros plan.expected_bytes) (stop_below 2 stop)),
                output,
              )
              (λ source_pixels kept.
                transform_pixel_storage_from_buffer l source_pixels kept (stop_below 3 stop))
          else then_with
              (decode_compressed_block lib serialized plan.compression output (stop_below 2 stop))
              (λ _ decoded.
                reorder_image plan order (stop_below 3 stop) plan.expected_bytes decoded))
      else if not (same_storage storage plan.image.pixel_storage)
      then transform_pixel_storage_from_buffer l serialized output (stop_below 3 stop)
      else reorder_image plan order (stop_below 3 stop) plan.expected_bytes
          (splice output 0 serialized)

  -- `read_image_into` behind the choice of the output.
  unfoldable pub write_image : ByteSource → ℕ → Bytes → Result ℕ × Bytes
  write_image source image_index output =
      if is_staged plan.compression plan.checksum
      then then_with
          (
            (do
              serialized ← keep_bytes (
                  copy_serialized_image source plan (zeros plan.serialized_bytes)
                    (stop_below 1 stop) image_index)
              matches ← verify_checksum lib plan.checksum serialized
              ok serialized),
            output,
          )
          write_serialized
      else if not (same_storage storage plan.image.pixel_storage)
      then transform_pixel_storage source plan output storage order (stop_below 1 stop) image_index
      else then_with (copy_serialized_image source plan output (stop_below 1 stop) image_index)
          λ copied kept. reorder_image plan order (stop_below 3 stop) copied kept

pub record ImageReadOptions : Type 0 where
  pub pixel_storage : PixelStorageOutput
  pub byte_order : ByteOrderOutput

module _ (lib : Codecs) (native_endian : ByteOrder) (reader : Reader) where
  -- `read_image_into` behind its plan.
  unfoldable pub write_planned_image :
      ℕ → Bytes → ImageReadOptions → StopToken → ImageReadPlan → Result ℕ × Bytes
  write_planned_image image_index destination read_options stop plan =
      if ltb (length destination) plan.expected_bytes
      then (fail invalid_argument "Destination buffer is smaller than the image block", destination)
      else then_with (resolve_pixel_storage plan read_options.pixel_storage, destination)
          λ storage kept.
            then_with
              (resolve_byte_order native_endian plan.image.byte_order read_options.byte_order, kept)
              λ order kept.
                (let (written, output) =
                    write_image lib plan storage order stop reader.source image_index
                      (take plan.expected_bytes kept) in
                  (written, splice kept 0 output))

  unfoldable pub read_image_into : ℕ → Bytes → ImageReadOptions → StopToken → Result ℕ × Bytes
  read_image_into image_index destination read_options stop =
      then_with
        (
          plan_image_read reader.document reader.options reader.embedded_blocks image_index,
          destination,
        )
        λ plan kept. write_planned_image image_index kept read_options stop plan

pub record RawImage : Type 0 where
  pub width : ℕ
  pub height : ℕ
  pub channels : ℕ
  pub sample_format : SampleFormat
  pub orientation : Option ImageOrientation
  pub pixel_origin : PixelOrigin
  pub pixel_traversal : PixelTraversal
  pub nominal_channel_order : NominalChannelOrder
  pub lower_bound : Option Double
  pub upper_bound : Option Double
  pub pixel_storage : PixelStorage
  pub byte_order : ByteOrder
  pub checksum_verification : ChecksumVerification
  pub pixels : Bytes

-- The description of an image that a plan gives, around its pixels.
abbrev pub raw_image :
    ImageReadPlan → PixelStorage → ByteOrder → ChecksumVerification → Bytes → RawImage
raw_image plan storage order verification pixels = record {
  width = get_or plan.image.geometry 0 0;
  height = get_or plan.image.geometry 1 0;
  channels = plan.channels;
  sample_format = plan.image.sample_format;
  orientation = plan.image.orientation;
  pixel_origin = plan.image.pixel_origin;
  pixel_traversal = plan.image.pixel_traversal;
  nominal_channel_order = plan.image.nominal_channel_order;
  lower_bound = plan.image.lower_bound;
  upper_bound = plan.image.upper_bound;
  pixel_storage = storage;
  byte_order = order;
  checksum_verification = verification;
  pixels = pixels;
}

unfoldable pub read_image :
    Codecs → ByteOrder → Reader → ℕ → ImageReadOptions → StopToken → Result RawImage
read_image lib native_endian reader image_index read_options stop = do
  plan ← plan_image_read reader.document reader.options reader.embedded_blocks image_index
  reject_if (stop (0 ∷ [])) cancelled "Image read was cancelled"
  storage ← resolve_pixel_storage plan read_options.pixel_storage
  order ← resolve_byte_order native_endian plan.image.byte_order read_options.byte_order
  pixels ← keep_bytes (
      read_image_into lib native_endian reader image_index (zeros plan.expected_bytes) read_options
        (stop_below 1 stop))
  ok (
      raw_image plan storage order (if is_empty plan.image.checksum then not_declared else verified)
        pixels)

-- A thumbnail keeps no bounds.
unfoldable pub read_thumbnail : Codecs → Reader → ℕ → StopToken → Result RawImage
read_thumbnail lib reader thumbnail_index stop = do
  plan ←
      plan_thumbnail_read reader.document reader.options reader.embedded_thumbnail_blocks
        thumbnail_index
  reject_if (stop (0 ∷ [])) cancelled "Thumbnail read was cancelled"
  pixels ←
      read_block lib
        (λ buffer.
          copy_serialized_image reader.source plan buffer (stop_below 1 stop) thumbnail_index)
        plan.compression plan.checksum plan.serialized_bytes plan.expected_bytes (stop_below 2 stop)
  let image =
      raw_image plan plan.image.pixel_storage plan.image.byte_order (verification_of plan.checksum)
        pixels
  ok (record image { lower_bound = none; upper_bound = none })
