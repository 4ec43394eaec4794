-- ===== src/Read/Image/Stored.antt =====
-- The read operations for images return what is stored.
use mmxisf.Base.{
  ℕ, zero, suc, ◌*◌, ◌/◌, ◌≤◌, ◌<◌, ◌≡◌, refl, ap, subst, inl, inr, some, List, arith, ge→ltb,
  length, get_or, take, length-take,
}
use mmxisf.Base.Text.{Bytes}
use mmxisf.Base.Error.{ok, StopToken, Never}
use mmxisf.Word.{u64_max}
use mmxisf.Buffer.{splice}
use mmxisf.Document.{SampleFormat, PixelStorage, ByteOrder}
use mmxisf.Pixels.{bytes_per_sample, endian_component_size}
use mmxisf.Block.{Codecs}
use mmxisf.Source.{Serves}
use mmxisf.Plan.{ImageReadPlan}
use mmxisf.Plan.Image.{
  PixelStorageOutput, plan_image_read, resolve_pixel_storage, resolve_byte_order,
}
use mmxisf.Plan.Sound.Images.{IsSampled, plan_image_read_sound}
use mmxisf.Read.{Located}
use mmxisf.Read.Fetch.Carried.{Carries}
use mmxisf.Read.Metadata.{Reader}
use mmxisf.Read.Metadata.Returned.{block_bytes, block_bytes-Stored, resolve_byte_order-ok}
use mmxisf.Read.Image.{ImageReadOptions, layout_of_plan, write_planned_image, read_image_into}
use mmxisf.Read.Image.Rendered.{IsRendered, IsShaped}
use mmxisf.Read.Image.Returned.{write_image-Renders}

sample_shape :
    (format : SampleFormat) {size component : ℕ}
    → bytes_per_sample format ≡ some size
    → endian_component_size format ≡ some component
    → (components : ℕ) × (components * component ≡ size) × (0 < size) × (size ≤ 16)
unfolding bytes_per_sample endian_component_size
sample_shape SampleFormat.uint8 s c = (1, ground arith, ground arith, ground arith)
sample_shape SampleFormat.uint16 s c = (1, ground arith, ground arith, ground arith)
sample_shape SampleFormat.uint32 s c = (1, ground arith, ground arith, ground arith)
sample_shape SampleFormat.uint64 s c = (1, ground arith, ground arith, ground arith)
sample_shape SampleFormat.float32 s c = (1, ground arith, ground arith, ground arith)
sample_shape SampleFormat.float64 s c = (1, ground arith, ground arith, ground arith)
sample_shape SampleFormat.complex32 s c = (2, ground arith, ground arith, ground arith)
sample_shape SampleFormat.complex64 s c = (2, ground arith, ground arith, ground arith)
sample_shape SampleFormat.unsupported s c = cc

whole_pixels : (a c : ℕ) → a * c / c * c ≡ a * c
whole_pixels a zero = omega arith
whole_pixels a (suc c) = grind arith

IsSampled-IsShaped :
    {info : mmxisf.Document.ImageInfo} {file_size index : ℕ} {embedded_blocks : List Bytes}
    (plan : ImageReadPlan) (block : Bytes)
    → IsSampled info file_size embedded_blocks index plan
    → plan.expected_bytes ≡ length block
    → IsShaped plan block
IsSampled-IsShaped {info} plan block sampled whole =
    let (components, sample, positive, size-le) =
      sample_shape info.sample_format sampled.sample_size sampled.component_size in
    record {
      bytes = sampled.bytes;
      whole = whole;
      pixels =
          subst (λ n. n / plan.channels * plan.channels ≡ n) sampled.count
            (whole_pixels (get_or info.geometry 0 0 * get_or info.geometry 1 0) plan.channels);
      components = components;
      sample = sample;
      positive = positive;
      size-le = size-le;
    }

pub IsSampled-Located :
    {info : mmxisf.Document.ImageInfo} {file_size index : ℕ} {embedded_blocks : List Bytes}
    (plan : ImageReadPlan) (contents : Bytes)
    → IsSampled info file_size embedded_blocks index plan
    → file_size ≡ length contents
    → (plan.serialized_bytes
        ≡ length (
            block_bytes contents plan.embedded_block plan.image.block.offset plan.serialized_bytes))
      × Located contents plan.embedded_block plan.image.block.offset
          (block_bytes contents plan.embedded_block plan.image.block.offset plan.serialized_bytes)
IsSampled-Located {info} plan contents sampled whole = elim sampled.stored [
  | inl (kind, size, inside, none_kept) ↦ rw none_kept (
      block_bytes-Stored contents plan.image.block.offset plan.serialized_bytes
        (omega (arith, size, inside, ap (λ i. i.block.offset) sampled.planned)))
  | inr (kind, kept, size) ↦ rw kept (size, refl)
]

resolve_pixel_storage-ok :
    (plan : ImageReadPlan) (output : PixelStorageOutput)
    → (storage : PixelStorage) × (resolve_pixel_storage plan output ≡ ok storage)
unfolding resolve_pixel_storage
resolve_pixel_storage-ok plan PixelStorageOutput.source_storage = (plan.image.pixel_storage, refl)
resolve_pixel_storage-ok plan PixelStorageOutput.planar_output = (PixelStorage.planar, refl)
resolve_pixel_storage-ok plan PixelStorageOutput.normal_output = (PixelStorage.normal, refl)

-- The plan of an image whose block the source's contents hold.
abbrev pub Holds : Codecs → Bytes → ImageReadPlan → Bytes → Type 0
Holds lib contents plan block =
    (plan.expected_bytes ≡ length block)
    × Carries lib plan.compression plan.checksum
        (block_bytes contents plan.embedded_block plan.image.block.offset plan.serialized_bytes)
        block

module _ (lib : Codecs) (reader : Reader) (contents : Bytes)
    (serves : Serves reader.source contents) (small : length contents ≤ u64_max)
    (whole : reader.document.file_size ≡ length contents) where
  -- An image that the contents hold is written to the start of the destination, in the storage and
  -- the byte order that the options resolve to.
  pub read_image_into-IsRendered :
      (native_endian : ByteOrder) (index : ℕ) (destination : Bytes)
      (read_options : ImageReadOptions) (stop : StopToken) (block : Bytes) {plan : ImageReadPlan}
      → Never stop
      → plan_image_read reader.document reader.options reader.embedded_blocks index ≡ ok plan
      → Holds lib contents plan block
      → plan.expected_bytes ≤ length destination
      → (storage : PixelStorage) × (order : ByteOrder) × (out : Bytes) × (resolve_pixel_storage plan
            read_options.pixel_storage
          ≡ ok storage)
        × (resolve_byte_order native_endian plan.image.byte_order read_options.byte_order
            ≡ ok order)
        × (read_image_into lib native_endian reader index destination read_options stop
            ≡ (ok plan.expected_bytes, splice destination 0 out))
        × IsRendered (layout_of_plan plan storage order) block out
  unfolding read_image_into write_planned_image
  read_image_into-IsRendered native_endian index destination read_options stop block {plan} never
        planned (decoded, carries) fits =
      let (found, sampled, channels-le, samples-le, bytes-le, serialized-le) =
        plan_image_read_sound reader.document reader.options reader.embedded_blocks index planned in
      let shaped = IsSampled-IsShaped plan block sampled decoded in
      let (size, located) = IsSampled-Located plan contents sampled whole in
      let (storage, stores) = resolve_pixel_storage-ok plan read_options.pixel_storage in
      let (order, orders) =
        resolve_byte_order-ok native_endian plan.image.byte_order read_options.byte_order in
      let output_size : length (take plan.expected_bytes destination) ≡ length block =
        omega (arith, decoded, length-take plan.expected_bytes destination) in
      let (out, writes, rendered) =
        write_image-Renders lib plan block shaped storage order stop never reader.source contents
          serves small
          (block_bytes contents plan.embedded_block plan.image.block.offset plan.serialized_bytes)
          located size carries index (take plan.expected_bytes destination) output_size in
      (
        storage,
        order,
        out,
        stores,
        orders,
        rw (planned, ge→ltb (length destination) plan.expected_bytes fits, stores, orders, writes)
            refl,
        rendered,
      )
