-- ===== src/Read/Copy.antt =====
-- A copy of a block's serialized bytes is the block.
use mmxisf.Base.{
  ℕ, ◌+◌, ◌-◌, ◌≤◌, ◌<◌, min, ◌≡◌, refl, sym, ap, ◌∙◌, Option, none, some, [], ◌∷◌, arith, length,
}
use mmxisf.Base.Text.{Bytes}
use mmxisf.Base.Error.{Result, ok, StopToken, Never}
use mmxisf.Word.{u64_max, u64}
use Prim.Native.String.{String}
use mmxisf.Buffer.{subspan, splice, length-subspan}
use mmxisf.Buffer.Nested.{subspan-subspan, splice-all}
use mmxisf.Source.{ByteSource, Serves, Stored, below_call, stop_below, fill_loop}
use mmxisf.Source.Exact.{IsFaithful, fill_loop-input}
use mmxisf.Source.Served.{read_span-Stored}
use mmxisf.Plan.{ImageReadPlan, PropertyReadPlan, IccProfileReadPlan}
use mmxisf.Read.{
  read_chunk_bytes, chunk_size, chunk_round, read_serialized_chunk, image_round,
  copy_serialized_image, block_round, copy_serialized_property, copy_serialized_icc_profile,
  Located,
}

min_bounds :
    (limit left : ℕ) → 0 < limit → 0 < left → (0 < min limit left) × (min limit left ≤ left)
min_bounds limit left h k = ground arith

chunk_bounds :
    (expected total : ℕ)
    → total < expected
    → (0 < chunk_size expected total) × (total + chunk_size expected total ≤ expected)
chunk_bounds expected total h =
    let (pos, fits) = min_bounds read_chunk_bytes (expected - total) (omega arith) (omega arith) in
    (pos, omega arith)

u64-small : (n : ℕ) → n ≤ u64_max → u64 n ≡ n
u64-small n h = omega arith

module _ (source : ByteSource) (contents : Bytes) (serves : Serves source contents)
    (small : length contents ≤ u64_max) (stop : StopToken) (never : Never stop) where
  block_round-IsFaithful :
      (message : String) (offset : ℕ) (inline_block : Option Bytes) (input : Bytes)
      → Located contents inline_block offset input
      → IsFaithful input (block_round message source offset inline_block (length input) stop)
  unfolding block_round
  block_round-IsFaithful message offset (some block) input located total buffer more same =
      let (pos, fits) = chunk_bounds (length input) total more in
      (chunk_size (length input) total, pos, fits, rw (never (total ∷ []), located) refl)
  block_round-IsFaithful message offset none input located total buffer more same =
      let (pos, fits) = chunk_bounds (length input) total more in
      let (read, some_read, inside, reads) =
        read_span-Stored source contents serves (total ∷ []) offset total
          (chunk_size (length input) total) input buffer located same pos fits in
      (
        read,
        some_read,
        omega arith,
        rw (never (total ∷ []), u64-small (offset + total) (omega (arith, located.0))) reads,
      )

  pub copy_serialized_property-Located :
      (plan : PropertyReadPlan) (input destination : Bytes)
      → plan.serialized_bytes ≡ length input
      → Located contents plan.inline_block plan.property.block.offset input
      → length destination ≡ length input
      → copy_serialized_property source plan destination stop ≡ (ok (length input), input)
  unfolding copy_serialized_property
  copy_serialized_property-Located plan input destination size located same = rw size (
      fill_loop-input input _ destination
        (block_round-IsFaithful "Property block read was cancelled" plan.property.block.offset
          plan.inline_block input located)
        same)

  pub copy_serialized_icc_profile-Located :
      (plan : IccProfileReadPlan) (input destination : Bytes)
      → plan.serialized_bytes ≡ length input
      → Located contents plan.inline_block plan.profile.block.offset input
      → length destination ≡ length input
      → copy_serialized_icc_profile source plan destination stop ≡ (ok (length input), input)
  unfolding copy_serialized_icc_profile
  copy_serialized_icc_profile-Located plan input destination size located same = rw size (
      fill_loop-input input _ destination
        (block_round-IsFaithful "ICC profile read was cancelled" plan.profile.block.offset
          plan.inline_block input located)
        same)

  chunk_round-IsFaithful :
      (image_index offset : ℕ) (input : Bytes)
      → Stored contents offset input
      → IsFaithful input (chunk_round source offset stop image_index)
  unfolding chunk_round
  chunk_round-IsFaithful image_index offset input stored total buffer more same =
      let (read, some_read, inside, reads) =
        read_span-Stored source contents serves (total ∷ []) offset total (length buffer - total)
          input buffer stored same (omega arith) (omega arith) in
      (
        read,
        some_read,
        omega arith,
        rw (never (total ∷ []), u64-small (offset + total) (omega (arith, stored.0)), reads) refl,
      )

  Stored-subspan :
      (base total count : ℕ) (input : Bytes)
      → Stored contents base input
      → total + count ≤ length input
      → Stored contents (base + total) (subspan input total count)
  Stored-subspan base total count input stored fits =
      let size = length-subspan input total count fits in
      (
        omega (arith, size, stored.0),
        rw size (
            sym (subspan-subspan base (length input) total count contents fits)
            ∙ ap (λ bytes. subspan bytes total count) stored.1),
      )

  -- A chunk of the block, whichever kind it is of.
  pub read_serialized_chunk-Located :
      (plan : ImageReadPlan) (image_index total : ℕ) (input destination : Bytes)
      → Located contents plan.embedded_block plan.image.block.offset input
      → total + length destination ≤ length input
      → read_serialized_chunk source plan total destination stop image_index
        ≡ (ok (length destination), subspan input total (length destination))
  unfolding read_serialized_chunk
  read_serialized_chunk-Located plan image_index total input destination located fits =
      go plan.embedded_block refl located
    where
      n : ℕ
      n = length destination

      size : length (subspan input total n) ≡ n
      size = length-subspan input total n fits

      go :
          (block : Option Bytes)
          → plan.embedded_block ≡ block
          → Located contents block plan.image.block.offset input
          → read_serialized_chunk source plan total destination stop image_index
            ≡ (ok n, subspan input total n)
      go (some block) here kept =
          rw (here, never [], kept) (ap (λ bytes. (ok n, bytes)) (splice-all destination _ size))
      go none here stored = rw here (
          ap
            (λ k.
              fill_loop (chunk_round source (plan.image.block.offset + total) stop image_index) k k
                0 destination)
            (sym size)
          ∙ fill_loop-input (subspan input total n) _ destination
              (chunk_round-IsFaithful image_index (plan.image.block.offset + total)
                (subspan input total n)
                (Stored-subspan plan.image.block.offset total n input stored fits))
              (sym size)
          ∙ ap (λ k. (ok k, subspan input total n)) size)

module _ (source : ByteSource) (contents : Bytes) (serves : Serves source contents)
    (small : length contents ≤ u64_max) (stop : StopToken) (never : Never stop) where
  pub copy_serialized_image-Located :
      (plan : ImageReadPlan) (image_index : ℕ) (input destination : Bytes)
      → plan.serialized_bytes ≡ length input
      → Located contents plan.embedded_block plan.image.block.offset input
      → length destination ≡ length input
      → copy_serialized_image source plan destination stop image_index ≡ (ok (length input), input)
  unfolding copy_serialized_image image_round
  copy_serialized_image-Located plan image_index input destination size located same =
      ap (λ n. fill_loop (image_round source plan stop image_index) n n 0 destination) size
      ∙ fill_loop-input input (image_round source plan stop image_index) destination faithful same
    where
      faithful : IsFaithful input (image_round source plan stop image_index)
      faithful total buffer more full =
          let (pos, fits) = chunk_bounds (length input) total more in
          let chunk = chunk_size (length input) total in
          let span = subspan buffer total chunk in
          let available : length span ≡ chunk = length-subspan buffer total chunk (omega arith) in
          let reads =
            read_serialized_chunk-Located (below_call total source) contents
              (λ path. serves (total ∷ path)) small (stop_below total stop)
              (λ poll. never (total ∷ poll)) plan image_index total input span located
              (omega (arith, available)) in
          (
            chunk,
            pos,
            fits,
            ap (step total buffer) size
                ∙ ap (λ run. (run.0, splice buffer total run.1))
                    (reads ∙ ap (λ n. (ok n, subspan input total n)) available),
          )
        where
          step : ℕ → Bytes → ℕ → Result ℕ × Bytes
          step total buffer expected =
              let (read, piece) =
                read_serialized_chunk (below_call total source) plan total
                  (subspan buffer total (chunk_size expected total)) (stop_below total stop)
                  image_index in
              (read, splice buffer total piece)
