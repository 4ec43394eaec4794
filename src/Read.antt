-- ===== src/Read.antt =====
-- How the read operations of src/reader.cpp copy the serialized bytes of a block:
-- `read_serialized_chunk`, `copy_serialized_image`, `copy_serialized_property` and
-- `copy_serialized_icc_profile`.
pub mod Copy
pub mod Fetch
pub mod Metadata
pub mod Image
use Prim.Native.String.{String}
use mmxisf.Base.{ℕ, ◌+◌, ◌-◌, ◌*◌, min, ◌≡◌, Option, none, some, [], ◌∷◌, if◌then◌else◌, length}
use mmxisf.Base.Text.{Bytes}
use mmxisf.Base.Error.{cancelled, Result, ok, err, fail, ◌>>=◌, ◌>>◌, StopToken}
use mmxisf.Word.{u64}
use mmxisf.Buffer.{subspan, splice}
use mmxisf.Source.{ByteSource, Stored, below_call, stop_below, fill_loop, read_span}
use mmxisf.Plan.{ImageReadPlan, PropertyReadPlan, IccProfileReadPlan}

abbrev pub read_chunk_bytes : ℕ
read_chunk_bytes = 8 * 1024 * 1024

-- `std::min(kReadChunkBytes, expected - total)`
abbrev pub chunk_size : ℕ → ℕ → ℕ
chunk_size expected total = min read_chunk_bytes (expected - total)

-- `if (!error.image_index) error.image_index = image_index;`
abbrev pub with_image_index {ℓ} : {A : Type ℓ} → ℕ → Result A → Result A
with_image_index image_index (ok a) = ok a
with_image_index image_index (err error) = elim error.image_index [
  | none ↦ err (record error { image_index = some image_index })
  | some index ↦ err error
]

-- A round of `read_serialized_chunk` for a block whose bytes from `offset` are read.
unfoldable pub chunk_round : ByteSource → ℕ → StopToken → ℕ → ℕ → Bytes → Result ℕ × Bytes
chunk_round source offset stop image_index total destination =
    if stop (total ∷ [])
    then (fail cancelled "Image read was cancelled", destination)
    else let (read, filled) =
        read_span source (total ∷ []) (u64 (offset + total)) total (length destination - total)
          destination in
      (with_image_index image_index read, filled)

unfoldable pub read_serialized_chunk :
    ByteSource → ImageReadPlan → ℕ → Bytes → StopToken → ℕ → Result ℕ × Bytes
read_serialized_chunk source plan block_offset destination stop image_index =
    elim plan.embedded_block [
      | some block ↦ if stop [] then (fail cancelled "Image read was cancelled", destination) else (
        ok (length destination),
        splice destination 0 (subspan block block_offset (length destination)),
      )
      | none ↦
          fill_loop (chunk_round source (plan.image.block.offset + block_offset) stop image_index)
            (length destination) (length destination) 0 destination
    ]

-- A round of `copy_serialized_image`.
unfoldable pub image_round :
    ByteSource → ImageReadPlan → StopToken → ℕ → ℕ → Bytes → Result ℕ × Bytes
image_round source plan stop image_index total destination =
    let (read, piece) =
      read_serialized_chunk (below_call total source) plan total
        (subspan destination total (chunk_size plan.serialized_bytes total)) (stop_below total stop)
        image_index in
    (read, splice destination total piece)

unfoldable pub copy_serialized_image :
    ByteSource → ImageReadPlan → Bytes → StopToken → ℕ → Result ℕ × Bytes
copy_serialized_image source plan destination stop image_index =
    fill_loop (image_round source plan stop image_index) plan.serialized_bytes plan.serialized_bytes
      0 destination

-- A round of the loops that copy the block of a property and of an ICC profile.
unfoldable pub block_round :
    String → ByteSource → ℕ → Option Bytes → ℕ → StopToken → ℕ → Bytes → Result ℕ × Bytes
block_round message source offset inline_block expected stop total destination =
    let chunk = chunk_size expected total in
    if stop (total ∷ []) then (fail cancelled message, destination) else elim inline_block [
      | some block ↦ (ok chunk, splice destination total (subspan block total chunk))
      | none ↦ read_span source (total ∷ []) (u64 (offset + total)) total chunk destination
    ]

unfoldable pub copy_serialized_property :
    ByteSource → PropertyReadPlan → Bytes → StopToken → Result ℕ × Bytes
copy_serialized_property source plan destination stop =
    fill_loop
      (block_round "Property block read was cancelled" source plan.property.block.offset
        plan.inline_block plan.serialized_bytes stop)
      plan.serialized_bytes plan.serialized_bytes 0 destination

unfoldable pub copy_serialized_icc_profile :
    ByteSource → IccProfileReadPlan → Bytes → StopToken → Result ℕ × Bytes
copy_serialized_icc_profile source plan destination stop =
    fill_loop
      (block_round "ICC profile read was cancelled" source plan.profile.block.offset
        plan.inline_block plan.serialized_bytes stop)
      plan.serialized_bytes plan.serialized_bytes 0 destination

-- The serialized bytes of a block: those that the parser has kept, or those of the contents at the
-- block's offset.
abbrev pub Located : Bytes → Option Bytes → ℕ → Bytes → Type 0
Located contents (some block) offset input = block ≡ input
Located contents none offset input = Stored contents offset input
