-- ===== src/Plan/Sound.antt =====
-- What a read plan promises: the block lies inside the source, and the decoded size is the exact
-- typed extent, within the limits. The children are about the four operations.
pub mod Images
pub mod Blocks
use Prim.Native.String.{String}
use mmxisf.Base.{
  ℕ, ◌+◌, ◌*◌, ◌^◌, ◌≤◌, ◌<◌, ◌≡◌, ap, ◌∙◌, inl, inr, true, false, ◌&&◌, none, some, List, [],
  arith, if◌then◌else◌, length, get_or,
}
use mmxisf.Base.Text.{Bytes}
use mmxisf.Base.Error.{ok, ◌>>=◌, ◌>>◌}
use mmxisf.Word.{checked_multiply}
use mmxisf.Word.Checked.{checked_multiply_iff}
use mmxisf.Document.{ReaderOptions, ImageInfo, BlockKind}
use mmxisf.Pixels.{endian_component_size}
use mmxisf.Block.{CompressionPlan}
use mmxisf.Block.Parse.{Extent, differs, parse_compression_plan}
use mmxisf.Block.Parse.Limits.{parse_compression_plan_sound}
use mmxisf.Plan.{ImageReadPlan, is_attachment, is_embedded, extends_beyond}
use mmxisf.Plan.Image.{image_extent, plan_image_block}

-- The decoded size of a plan is that of the typed extent, if there is one, within the limit.
pub record IsWithin (e : Extent) (p : CompressionPlan) : Type 0 where
  pub exact : differs e.expected_bytes p.uncompressed_size ≡ false
  pub serialized-le : e.serialized_bytes ≤ e.max_serialized_bytes
  pub decoded-le : p.uncompressed_size ≤ e.max_decoded_bytes

pub parse_compression_plan-IsWithin :
    (compression subblocks : Bytes) (options : ReaderOptions) (e : Extent) {p : CompressionPlan}
    → parse_compression_plan compression subblocks options e ≡ ok p
    → IsWithin e p
parse_compression_plan-IsWithin compression subblocks options e {p} h =
    let (small, kinds) = parse_compression_plan_sound compression subblocks options e h in
    elim kinds [
      | inl (c, plain) ↦ record {
        exact = plain.as_expected;
        serialized-le = small;
        decoded-le = plain.decoded-le;
      }
      | inr (c, compressed) ↦ record {
        exact = compressed.descriptor.as_expected;
        serialized-le = small;
        decoded-le = compressed.descriptor.decoded-le;
      }
    ]

product-exact : (a b : ℕ) {r : ℕ} → checked_multiply a b ≡ some r → (a * b ≡ r) × (r < 2 ^ 64)
product-exact a b {r} = (checked_multiply_iff a b r).0

-- The products that an extent consists of.
image_extent-products :
    (geometry : List ℕ) (sample_size : ℕ) {extent : ℕ × ℕ}
    → image_extent geometry sample_size ≡ some extent
    → (pixels : ℕ) × (checked_multiply (get_or geometry 0 0) (get_or geometry 1 0) ≡ some pixels)
      × (checked_multiply pixels (get_or geometry 2 0) ≡ some extent.0)
      × (checked_multiply extent.0 sample_size ≡ some extent.1)
unfolding image_extent
image_extent-products geometry sample_size h = ground arith

pub image_extent-exact :
    (geometry : List ℕ) (sample_size : ℕ) {extent : ℕ × ℕ}
    → image_extent geometry sample_size ≡ some extent
    → (get_or geometry 0 0 * get_or geometry 1 0 * get_or geometry 2 0 ≡ extent.0)
      × (extent.0 * sample_size ≡ extent.1)
      × (extent.1 < 2 ^ 64)
image_extent-exact geometry sample_size {extent} h =
    let (pixels, first, second, third) = image_extent-products geometry sample_size h in
    let q = product-exact pixels (get_or geometry 2 0) second in
    let r = product-exact extent.0 sample_size third in
    (ap (λ n. n * get_or geometry 2 0) (product-exact _ _ first).0 ∙ q.0, r.0, r.1)

-- What `plan_image_block` was given, and what it found.
pub record IsBlockPlan (image : ImageInfo) (embedded_blocks : List Bytes) (index : ℕ)
    (file_size : ℕ) (limits : ℕ × ℕ) (sizes extent : ℕ × ℕ) (p : ImageReadPlan) : Type 0 where
  pub image_eq : p.image ≡ image
  pub channels_eq : p.channels ≡ get_or image.geometry 2 0
  pub count_eq : p.sample_count ≡ extent.0
  pub expected_eq : p.expected_bytes ≡ extent.1
  pub sizes_eq : (p.sample_size ≡ sizes.0) × (p.endian_component_size ≡ sizes.1)
  pub decoded : p.compression.uncompressed_size ≡ extent.1
  pub decoded-le : extent.1 ≤ limits.1
  pub serialized-le : p.serialized_bytes ≤ limits.0
  pub attached :
      is_attachment image.block.kind ≡ true
      → (p.serialized_bytes ≡ image.block.size)
        × (image.block.offset + image.block.size ≤ file_size)
        × (p.embedded_block ≡ none)
  pub stored :
      is_embedded image.block.kind ≡ true
      → (p.embedded_block ≡ some (get_or embedded_blocks index []))
        × (p.serialized_bytes ≡ length (get_or embedded_blocks index []))

-- The plans that a returned block plan is made of.
abbrev serialized_size : ImageInfo → List Bytes → ℕ → ℕ
serialized_size image embedded_blocks index =
    if is_attachment image.block.kind
    then image.block.size
    else length (get_or embedded_blocks index [])

abbrev image_block_extent : ImageInfo → List Bytes → ℕ → (ℕ × ℕ) → (ℕ × ℕ) → (ℕ × ℕ) → Extent
image_block_extent image embedded_blocks index limits sizes extent = record {
  serialized_bytes = serialized_size image embedded_blocks index;
  expected_bytes = some extent.1;
  item_size = sizes.0;
  max_serialized_bytes = limits.0;
  max_decoded_bytes = limits.1;
}

plan_image_block-parts :
    (beyond : String) (image : ImageInfo) (embedded_blocks : List Bytes) (index : ℕ)
    (options : ReaderOptions) (file_size : ℕ) (limits sizes extent : ℕ × ℕ) {p : ImageReadPlan}
    → plan_image_block beyond image embedded_blocks index options file_size limits sizes extent
      ≡ ok p
    → (parse_compression_plan image.compression image.subblocks options
          (image_block_extent image embedded_blocks index limits sizes extent)
        ≡ ok p.compression)
      × (is_attachment image.block.kind && extends_beyond image.block file_size ≡ false)
      × (p.serialized_bytes ≡ serialized_size image embedded_blocks index)
      × (p.embedded_block
          ≡ (if is_embedded image.block.kind then some (get_or embedded_blocks index []) else none))
      × (p.image ≡ image)
      × (p.channels ≡ get_or image.geometry 2 0)
      × (p.sample_count ≡ extent.0)
      × (p.expected_bytes ≡ extent.1)
      × (p.sample_size ≡ sizes.0)
      × (p.endian_component_size ≡ sizes.1)
unfolding plan_image_block
plan_image_block-parts beyond image embedded_blocks index options file_size limits sizes extent h =
    ground arith

not_both : (k : BlockKind) → is_embedded k ≡ true → is_attachment k ≡ false
not_both k h = ground arith

not_embedded : (k : BlockKind) → is_attachment k ≡ true → is_embedded k ≡ false
not_embedded k h = ground arith

pub plan_image_block-IsBlockPlan :
    (beyond : String) (image : ImageInfo) (embedded_blocks : List Bytes) (index : ℕ)
    (options : ReaderOptions) (file_size : ℕ) (limits sizes extent : ℕ × ℕ) {p : ImageReadPlan}
    → plan_image_block beyond image embedded_blocks index options file_size limits sizes extent
      ≡ ok p
    → IsBlockPlan image embedded_blocks index file_size limits sizes extent p
plan_image_block-IsBlockPlan beyond image embedded_blocks index options file_size limits sizes
      extent {p} h =
    let (
      parsed, inside, serialized, stored, image_eq, channels_eq, count_eq, expected_eq, size_eq,
      component_eq,
    ) =
      plan_image_block-parts beyond image embedded_blocks index options file_size limits sizes
        extent h in
    let within =
      parse_compression_plan-IsWithin image.compression image.subblocks options
        (image_block_extent image embedded_blocks index limits sizes extent) parsed in
    let decoded : p.compression.uncompressed_size ≡ extent.1 = ground (arith, within.exact) in
    record {
      image_eq = image_eq;
      channels_eq = channels_eq;
      count_eq = count_eq;
      expected_eq = expected_eq;
      sizes_eq = (size_eq, component_eq);
      decoded = decoded;
      decoded-le = omega (arith, decoded, within.decoded-le);
      serialized-le = omega (arith, serialized, within.serialized-le);
      attached = λ k. ground (arith, serialized, inside, stored, not_embedded image.block.kind k);
      stored = λ k. ground (arith, serialized, stored, not_both image.block.kind k);
    }
