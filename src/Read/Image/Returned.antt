-- ===== src/Read/Image/Returned.antt =====
-- What `read_image_into`, `read_image` and `read_thumbnail` return for an image that is stored.
use mmxisf.Base.{
  ℕ, ◌/◌, ◌≤◌, ◌<◌, ◌≡◌, sym, ap, ◌∙◌, subst, inl, inr, true, false, ◌∷◌, arith, Bool-cases, length,
}
use mmxisf.Base.Text.{Bytes}
use mmxisf.Base.Error.{Result, ok, StopToken, Never}
use mmxisf.Word.{u64_max}
use mmxisf.Buffer.Nested.{splice-all}
use mmxisf.Document.{PixelStorage, ByteOrder}
use mmxisf.Pixels.{transform_pixel_storage_from_buffer}
use mmxisf.Pixels.Transform.{transform-gathered}
use mmxisf.Block.{Codecs}
use mmxisf.Block.Restore.{decode_compressed_block-Encodes}
use mmxisf.Source.{ByteSource, Serves, stop_below}
use mmxisf.Plan.{ImageReadPlan}
use mmxisf.Read.{Located, read_chunk_bytes, copy_serialized_image}
use mmxisf.Read.Copy.{copy_serialized_image-Located}
use mmxisf.Read.Fetch.{is_compressed, is_staged, zeros}
use mmxisf.Read.Fetch.Carried.{IsForm, IsForm-cases, Carries, zeros-same}
use mmxisf.Read.Image.{same_storage, layout_of_plan, reorder_image, write_serialized, write_image}
use mmxisf.Read.Image.Chunks.{transform_pixel_storage-from_buffer}
use mmxisf.Read.Image.Rendered.{IsRendered, IsShaped, IsShaped-IsLayout, reorder_image-IsRendered}

same_storage-eq : (a b : PixelStorage) → same_storage a b ≡ true → a ≡ b
same_storage-eq a b h = ground arith

-- A write that returns the image's size and leaves it rendered.
abbrev pub Renders : ImageReadPlan → PixelStorage → ByteOrder → Bytes → Result ℕ × Bytes → Type 0
Renders plan storage order block run =
    (out : Bytes) × (run ≡ (ok plan.expected_bytes, out))
    × IsRendered (layout_of_plan plan storage order) block out

module _ (plan : ImageReadPlan) (block : Bytes) (shaped : IsShaped plan block)
    (storage : PixelStorage) (order : ByteOrder) (stop : StopToken) (never : Never stop) where
  transform-Renders :
      (output : Bytes)
      → length output ≡ length block
      → Renders plan storage order block (
          transform_pixel_storage_from_buffer (layout_of_plan plan storage order) block output stop)
  transform-Renders output same =
      let (out, runs, size, gathers) =
        transform-gathered (layout_of_plan plan storage order) block output stop
          (IsShaped-IsLayout plan block storage order shaped) never
          (same ∙ sym (shaped.bytes ∙ shaped.whole)) in
      (
        out,
        runs ∙ ap (λ n. (ok n, out)) shaped.bytes,
        record { same_length = size; byte = gathers },
      )

  reorder-Renders :
      same_storage storage plan.image.pixel_storage ≡ true
      → Renders plan storage order block (reorder_image plan order stop plan.expected_bytes block)
  reorder-Renders same =
      rw (same_storage-eq storage plan.image.pixel_storage same)
        (reorder_image-IsRendered plan block shaped order stop never)

module _ (lib : Codecs) (plan : ImageReadPlan) (block : Bytes) (shaped : IsShaped plan block)
    (storage : PixelStorage) (order : ByteOrder) (stop : StopToken) (never : Never stop) where
  write_serialized-Renders :
      (serialized output : Bytes)
      → IsForm lib plan.compression plan.compression.codec serialized block
      → length output ≡ length block
      → Renders plan storage order block
          (write_serialized lib plan storage order stop serialized output)
  unfolding write_serialized
  write_serialized-Renders serialized output form same =
      elim (IsForm-cases lib plan.compression plan.compression.codec serialized block form) [
        | inl (plain, at) ↦ elim (Bool-cases (same_storage storage plan.image.pixel_storage)) [
          | inl kept ↦
              rw (plain, kept, at, splice-all output block (sym same))
                (reorder-Renders plan block shaped storage order (stop_below 3 stop)
                  (λ poll. never (3 ∷ poll)) kept)
          | inr moved ↦
              rw (plain, moved, at)
                (transform-Renders plan block shaped storage order (stop_below 3 stop)
                  (λ poll. never (3 ∷ poll)) output same)
        ]
        | inr (packed, pos, encodes) ↦
            elim (Bool-cases (same_storage storage plan.image.pixel_storage)) [
              | inl kept ↦
                  rw
                    (
                      packed,
                      kept,
                      decode_compressed_block-Encodes lib plan.compression block serialized output
                          (stop_below 2 stop) (λ poll. never (2 ∷ poll)) pos encodes same,
                    )
                    (reorder-Renders plan block shaped storage order (stop_below 3 stop)
                      (λ poll. never (3 ∷ poll)) kept)
              | inr moved ↦
                  rw
                    (
                      packed,
                      moved,
                      decode_compressed_block-Encodes lib plan.compression block serialized
                          (zeros plan.expected_bytes) (stop_below 2 stop) (λ poll. never (2 ∷ poll))
                          pos encodes (zeros-same _ block shaped.whole),
                    )
                    (transform-Renders plan block shaped storage order (stop_below 3 stop)
                      (λ poll. never (3 ∷ poll)) output same)
            ]
      ]

  module _ (source : ByteSource) (contents : Bytes) (serves : Serves source contents)
      (small : length contents ≤ u64_max) (serialized : Bytes)
      (located : Located contents plan.embedded_block plan.image.block.offset serialized)
      (size : plan.serialized_bytes ≡ length serialized)
      (carries : Carries lib plan.compression plan.checksum serialized block)
      (image_index : ℕ) where
    copies :
        (destination : Bytes)
        → length destination ≡ length serialized
        → copy_serialized_image source plan destination (stop_below 1 stop) image_index
          ≡ (ok (length serialized), serialized)
    copies destination same =
        copy_serialized_image-Located source contents serves small (stop_below 1 stop)
          (λ poll. never (1 ∷ poll)) plan image_index serialized destination size located same

    -- A block that is neither compressed nor verified is its serialized bytes.
    plain_block : is_staged plan.compression plan.checksum ≡ false → serialized ≡ block
    plain_block unstaged =
        elim (IsForm-cases lib plan.compression plan.compression.codec serialized block carries.1) [
          | inl (plain, at) ↦ at
          | inr (packed, pos, encodes) ↦ absurd (clash packed)
        ]
      where
        clash : is_compressed plan.compression.codec ≡ true → ⊥
        clash packed = cc (rw packed at unstaged)

    chunks-positive : (n limit : ℕ) → 0 < n → n ≤ limit → 0 < limit / n
    chunks-positive n limit h k = grind arith

    pub write_image-Renders :
        (output : Bytes)
        → length output ≡ length block
        → Renders plan storage order block
            (write_image lib plan storage order stop source image_index output)
    unfolding write_image
    write_image-Renders output same = elim (Bool-cases (is_staged plan.compression plan.checksum)) [
      | inl staged ↦
          rw
            (staged, copies (zeros plan.serialized_bytes) (zeros-same _ serialized size), carries.0)
            (write_serialized-Renders serialized output carries.1 same)
      | inr unstaged ↦
          let at = plain_block unstaged in
          elim (Bool-cases (same_storage storage plan.image.pixel_storage)) [
            | inl kept ↦
                rw (unstaged, kept, copies output (same ∙ ap length (sym at)))
                  (rw at (
                    rw (← shaped.whole) (
                      reorder-Renders plan block shaped storage order (stop_below 3 stop)
                        (λ poll. never (3 ∷ poll)) kept)))
            | inr moved ↦
                rw
                  (
                    unstaged,
                    moved,
                    transform_pixel_storage-from_buffer source contents serves small
                        (stop_below 1 stop) (λ poll. never (1 ∷ poll)) plan image_index block
                        (subst (Located contents plan.embedded_block plan.image.block.offset) at
                          located)
                        shaped.bytes shaped.whole storage order
                        (IsShaped-IsLayout plan block storage order shaped)
                        (chunks-positive plan.sample_size read_chunk_bytes shaped.positive
                          (omega (arith, shaped.size-le)))
                        output stop never same,
                  )
                  (transform-Renders plan block shaped storage order stop never output same)
          ]
    ]
