-- ===== src/Tests/Reads.antt =====
-- The theorems on sources and read operations at concrete files.
use mmxisf.Base.{
  ◌+◌, ◌%◌, min, ◌≡◌, refl, none, some, [], ◌∷◌, ◌++◌, arith, length, take, drop, replicate,
}
use mmxisf.Base.Text.{Bytes, codes}
use mmxisf.Base.Error.{ok}
use mmxisf.Buffer.{splice}
use mmxisf.Document.{default_options, ThumbnailInfo, ByteOrder, big, PixelStorage, normal}
use mmxisf.Pixels.{transform_pixel_storage_from_buffer}
use mmxisf.Block.{none_algorithm, sha1, ChecksumPlan}
use mmxisf.Source.{ByteSource, Serves, fill_loop, exact_round, read_exact}
use mmxisf.Source.Served.{read_exact-fuel, read_exact-Stored}
use mmxisf.Plan.Image.{normal_output, native_order, resolve_pixel_storage, resolve_byte_order}
use mmxisf.Read.{read_chunk_bytes}
use mmxisf.Read.Fetch.{zeros, read_block}
use mmxisf.Read.Fetch.Carried.{read_block-digest}
use mmxisf.Document.Names.{not_declared}
use mmxisf.Read.Metadata.{
  Reader, verification_of, RawPropertyBlock, RawIccProfile, PropertyReadOptions,
  read_property_block, read_icc_profile, validate_icc_profile_bytes,
}
use mmxisf.Read.Metadata.Returned.{
  IsOrdered, read_property_block-Carries, IsIccProfile, read_icc_profile-IsIccProfile,
}
use mmxisf.Read.Image.{
  ImageReadOptions, layout_of_plan, transform_pixel_storage, read_image_into, read_image,
  read_thumbnail, RawImage,
}
use mmxisf.Read.Image.Chunks.{transform_pixel_storage-from_buffer}
use mmxisf.Read.Image.Rendered.{IsRendered}
use mmxisf.Read.Image.Stored.{read_image_into-IsRendered}
use mmxisf.Read.Image.Described.{
  IsDescribed, IsVerified, IsPlanVerified, read_image-IsDescribed, read_thumbnail-IsDescribed,
}
use mmxisf.Tests.Plans.{
  color_image, thumbnail_info, no_checksum, location, sample_document, stored_bytes, plain_block,
  image_plan, vector_plan, image_planned, thumbnail_planned, property_planned,
}
use mmxisf.Tests.Blocks.{no_stop, no_stop-Never, stored}

-- A source that never returns more than five bytes at once.
abbrev pub short_source : Bytes → ByteSource
short_source contents = record {
  size = ok (length contents);
  read_at = λ path offset span.
      let read = min 5 (length span) in (ok read, splice span 0 (take read (drop offset contents)));
}

pub short_source-Serves : (contents : Bytes) → Serves (short_source contents) contents
short_source-Serves contents path offset span some_span inside =
    (min 5 (length span), omega arith, omega arith, refl)

abbrev payload : Bytes
payload = 0 ∷ 1 ∷ 2 ∷ 3 ∷ 4 ∷ 5 ∷ 6 ∷ 7 ∷ 8 ∷ 9 ∷ 10 ∷ 11 ∷ []

abbrev contents : Bytes
contents = replicate 64 9 ++ payload

abbrev file : ByteSource
file = short_source contents

abbrev opened : Reader
opened = record {
  source = file;
  options = default_options;
  document = sample_document;
  embedded_blocks = [] ∷ [];
  inline_metadata_blocks = [] ∷ [];
  inline_icc_profile_blocks = stored_bytes ∷ [];
  embedded_thumbnail_blocks = stored_bytes ∷ [];
}

read_exact-fuel_example :
    fill_loop (exact_round file 64) 12 (12 + 9) 0 (zeros 12) ≡ read_exact file 64 (zeros 12)
read_exact-fuel_example = read_exact-fuel file 64 9 (zeros 12)

read_exact-Stored_example : read_exact file 64 (zeros 12) ≡ (ok 12, payload)
read_exact-Stored_example =
    read_exact-Stored file contents 64 payload (zeros 12) (short_source-Serves contents)
      (omega arith) (omega arith, refl) refl

abbrev as_normal : ImageReadOptions
as_normal = record { pixel_storage = normal_output; byte_order = native_order }

read_image_into-IsRendered_example :
    (storage : PixelStorage) × (order : ByteOrder) × (out : Bytes) × (ok normal ≡ ok storage)
    × (ok big ≡ ok order)
    × (read_image_into stored big opened 0 (zeros 20) as_normal no_stop
        ≡ (ok 12, splice (zeros 20) 0 out))
    × IsRendered (layout_of_plan (image_plan location none) storage order) payload out
unfolding resolve_pixel_storage resolve_byte_order mmxisf.Block.Decode.verify_checksum
read_image_into-IsRendered_example =
    read_image_into-IsRendered stored opened contents (short_source-Serves contents) (omega arith)
      refl big 0 (zeros 20) as_normal no_stop payload no_stop-Never image_planned
      (refl, (refl, refl)) (omega arith)

read_image-IsDescribed_example :
    (image : RawImage) × (read_image stored big opened 0 as_normal no_stop ≡ ok image)
    × (some (color_image location) ≡ some (color_image location))
    × IsDescribed (color_image location) image
    × (image.lower_bound ≡ none)
    × (image.upper_bound ≡ none)
    × IsVerified [] image.checksum_verification
    × (ok normal ≡ ok image.pixel_storage)
    × (ok big ≡ ok image.byte_order)
    × IsRendered
        (layout_of_plan (image_plan location none) image.pixel_storage image.byte_order)
        payload
        image.pixels
unfolding resolve_pixel_storage resolve_byte_order mmxisf.Block.Decode.verify_checksum
read_image-IsDescribed_example =
    read_image-IsDescribed stored opened contents (short_source-Serves contents) (omega arith) refl
      big 0 as_normal no_stop payload no_stop-Never image_planned (refl, (refl, refl))

read_thumbnail-IsDescribed_example :
    (thumbnail : ThumbnailInfo) × (image : RawImage) × (some thumbnail_info ≡ some thumbnail)
    × (read_thumbnail stored opened 0 no_stop ≡ ok image)
    × IsDescribed thumbnail.image image
    × (image.lower_bound ≡ none)
    × (image.upper_bound ≡ none)
    × IsPlanVerified no_checksum image.checksum_verification
    × (image.pixel_storage ≡ thumbnail.image.pixel_storage)
    × (image.byte_order ≡ thumbnail.image.byte_order)
    × (image.pixels ≡ stored_bytes)
unfolding mmxisf.Block.Decode.verify_checksum
read_thumbnail-IsDescribed_example =
    read_thumbnail-IsDescribed stored opened contents (short_source-Serves contents) (omega arith)
      refl 0 no_stop stored_bytes no_stop-Never thumbnail_planned (refl, (refl, refl))

abbrev native : PropertyReadOptions
native = record { byte_order = native_order }

read_property_block-Carries_example :
    (result : RawPropertyBlock) × (read_property_block stored big opened 0 native no_stop
      ≡ ok result)
    × (ok big ≡ ok result.byte_order)
    × (result.checksum_verification ≡ not_declared)
    × IsOrdered vector_plan result.byte_order payload result.bytes
unfolding resolve_byte_order mmxisf.Block.Decode.verify_checksum
read_property_block-Carries_example =
    read_property_block-Carries stored opened contents 0 no_stop payload big native
      (short_source-Serves contents) (omega arith) refl no_stop-Never property_planned refl
      (refl, refl)

-- A header of an ICC profile: its size, its signature and its flag.
abbrev profile_bytes : Bytes
profile_bytes =
    0 ∷ 0 ∷ 0 ∷ 128 ∷ (replicate 32 0 ++ (codes "acsp" ++ (replicate 7 0 ++ (1 ∷ replicate 80 0))))

abbrev with_profile : Reader
with_profile = record opened { inline_icc_profile_blocks = profile_bytes ∷ [] }

abbrev opened_profile : RawIccProfile
opened_profile = record { checksum_verification = not_declared; bytes = profile_bytes }

profile_returned : read_icc_profile stored with_profile 0 no_stop ≡ ok opened_profile
unfolding read_icc_profile mmxisf.Plan.plan_icc_profile_read mmxisf.Plan.plan_icc_profile
    mmxisf.Plan.locate_block mmxisf.Block.Parse.parse_compression_plan mmxisf.Block.Parse.plan_of
    mmxisf.Block.Parse.plain_plan mmxisf.Block.Parse.parse_checksum_plan
    mmxisf.Read.Metadata.read_planned_profile read_block mmxisf.Read.copy_serialized_icc_profile
    fill_loop mmxisf.Read.block_round validate_icc_profile_bytes
profile_returned = refl

read_icc_profile-IsIccProfile_example : IsIccProfile profile_bytes
read_icc_profile-IsIccProfile_example =
    read_icc_profile-IsIccProfile stored with_profile 0 no_stop profile_returned

abbrev sha1_checksum : ChecksumPlan
sha1_checksum = record { algorithm = sha1; expected_digest = replicate 20 12 }

returned :
    read_block stored (λ buffer. (ok 12, payload)) plain_block sha1_checksum 12 12 no_stop
    ≡ ok payload
unfolding read_block mmxisf.Block.Decode.verify_checksum
returned = refl

read_block-digest_example :
    (serialized : Bytes) × (ok payload ≡ ok serialized)
    × (some (replicate 20 (length serialized % 256)) ≡ some (replicate 20 12))
read_block-digest_example =
    read_block-digest stored (λ buffer. (ok 12, payload)) plain_block sha1_checksum 12 12 no_stop
      refl returned

transform_pixel_storage-from_buffer_example :
    transform_pixel_storage file (image_plan location none) (zeros 12) normal big no_stop 0
    ≡ transform_pixel_storage_from_buffer
        (layout_of_plan (image_plan location none) normal big)
        payload
        (zeros 12)
        no_stop
transform_pixel_storage-from_buffer_example =
    transform_pixel_storage-from_buffer file contents (short_source-Serves contents) (omega arith)
      no_stop no_stop-Never (image_plan location none) 0 payload (omega arith, refl) refl refl
      normal big (record { whole = refl; components = 1; sample = refl }) (omega arith) (zeros 12)
      no_stop no_stop-Never refl
