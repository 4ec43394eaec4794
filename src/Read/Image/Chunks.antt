-- ===== src/Read/Image/Chunks.antt =====
-- The transformation in chunks equals the transformation of the whole block.
use mmxisf.Base.{
  ℕ, zero, suc, ◌+◌, ◌-◌, ◌*◌, ◌/◌, ◌≤◌, ◌<◌, min, ◌≡◌, refl, sym, ap, ◌∙◌, inl, inr, [], ◌∷◌,
  arith, ltb, ltb→lt, Bool-cases, length, take, length-take, length-replicate, not_ltb→le,
}
use mmxisf.Base.Text.{Bytes}
use mmxisf.Base.Error.{ok, StopToken, Never}
use mmxisf.Word.{u64_max}
use mmxisf.Buffer.{subspan, splice, length-splice}
use mmxisf.Document.{PixelStorage, ByteOrder}
use mmxisf.Pixels.{Layout, finish_transform, transform_pixel_storage_from_buffer}
use mmxisf.Pixels.Transform.{IsLayout}
use mmxisf.Source.{ByteSource, Serves, below_call, stop_below}
use mmxisf.Plan.{ImageReadPlan}
use mmxisf.Read.{Located, read_chunk_bytes}
use mmxisf.Read.Copy.{read_serialized_chunk-Located}
use mmxisf.Read.Fetch.{zeros}
use mmxisf.Read.Image.{
  layout_of_plan, copy_chunk, samples_in_chunk, transform_chunks, transform_pixel_storage,
}
use mmxisf.Read.Image.Staged.{
  row-add, copy_samples, copy_samples-add, transform_loop-copy_samples, length-copy_samples,
  copy_chunk-copy_samples, fill-IsStaged,
}

chunk_positive : (limit count s : ℕ) → 0 < limit → s < count → 0 < min limit (count - s)
chunk_positive limit count s h k = ground arith

chunk_inside :
    (limit count s : ℕ)
    → s < count
    → (min limit (count - s) ≤ limit) × (s + min limit (count - s) ≤ count)
chunk_inside limit count s h = ground arith

chunk_fits :
    (c limit count size expected : ℕ)
    → c ≤ limit
    → c ≤ count
    → count * size ≡ expected
    → c * size ≤ min expected (limit * size)
chunk_fits c limit count size expected h k e = grind arith

rows-le : (a b s : ℕ) → a ≤ b → a * s ≤ b * s
rows-le a b s h = grind arith

module _ (source : ByteSource) (contents : Bytes) (serves : Serves source contents)
    (small : length contents ≤ u64_max) (stop : StopToken) (never : Never stop)
    (plan : ImageReadPlan) (image_index : ℕ) (block : Bytes)
    (located : Located contents plan.embedded_block plan.image.block.offset block)
    (bytes : plan.sample_count * plan.sample_size ≡ plan.expected_bytes)
    (whole : plan.expected_bytes ≡ length block) (storage : PixelStorage) (order : ByteOrder)
    (good : IsLayout (layout_of_plan plan storage order))
    (some_samples : 0 < read_chunk_bytes / plan.sample_size) where
  staging_size : ℕ
  staging_size = min plan.expected_bytes (read_chunk_bytes / plan.sample_size * plan.sample_size)

  transform_chunks-copy_samples :
      (fuel source_sample : ℕ) (staging destination : Bytes)
      → plan.sample_count ≤ source_sample + fuel
      → source_sample ≤ plan.sample_count
      → length staging ≡ staging_size
      → transform_chunks source plan
          (layout_of_plan plan storage order)
          stop
          image_index
          fuel
          source_sample
          staging
          destination
        ≡ (
          ok plan.expected_bytes,
          copy_samples
              (layout_of_plan plan storage order)
              block
              (plan.sample_count - source_sample)
              source_sample
              destination,
        )
  unfolding transform_chunks copy_samples staging_size
  transform_chunks-copy_samples zero source_sample staging destination h inside size =
      let e : plan.sample_count - source_sample ≡ 0 = omega arith in rw e refl
  transform_chunks-copy_samples (suc fuel) source_sample staging destination h inside size =
      elim (Bool-cases (ltb source_sample plan.sample_count)) [
        | inr done ↦
            let e : plan.sample_count - source_sample ≡ 0 =
              omega (arith, not_ltb→le source_sample plan.sample_count done) in
            rw (done, e) refl
        | inl more ↦
            let limit = read_chunk_bytes / plan.sample_size in
            let chunk_samples = samples_in_chunk plan source_sample in
            let start = source_sample * plan.sample_size in
            let left-lt = ltb→lt source_sample plan.sample_count more in
            let pos = chunk_positive limit plan.sample_count source_sample some_samples left-lt in
            let (within, end) = chunk_inside limit plan.sample_count source_sample left-lt in
            let fits =
              chunk_fits chunk_samples limit plan.sample_count plan.sample_size plan.expected_bytes
                within (omega arith) bytes in
            let span = take (chunk_samples * plan.sample_size) staging in
            let span_size : length span ≡ chunk_samples * plan.sample_size =
              omega (arith, size, length-take (chunk_samples * plan.sample_size) staging) in
            let covered =
              rows-le (source_sample + chunk_samples) plan.sample_count plan.sample_size end in
            let split = row-add source_sample chunk_samples plan.sample_size in
            let l = layout_of_plan plan storage order in
            let filled =
              splice staging 0 (subspan block start (chunk_samples * plan.sample_size)) in
            let copied = copy_chunk l filled source_sample chunk_samples 0 destination in
            let behind = plan.sample_count - (source_sample + chunk_samples) in
            let remaining : chunk_samples + behind ≡ plan.sample_count - source_sample =
              omega arith in
            let reads =
              read_serialized_chunk-Located (below_call source_sample source) contents
                (λ path. serves (source_sample ∷ path)) small
                (stop_below 1 (stop_below source_sample stop))
                (λ poll. never (source_sample ∷ 1 ∷ poll)) plan image_index start block span located
                (omega (arith, bytes, whole, covered, split, span_size))
              ∙ ap (λ n. (ok (length span), subspan block start n)) span_size in
            let staged =
              fill-IsStaged l block good staging source_sample chunk_samples
                (omega (arith, bytes, whole, covered)) (omega (arith, size, fits)) in
            rw (more, never (source_sample ∷ 0 ∷ []), reads)
              (transform_chunks-copy_samples fuel (source_sample + chunk_samples) filled copied
                  (omega arith) end (length-splice staging 0 _ ∙ size)
                ∙ ap
                    (λ d. (
                      ok plan.expected_bytes,
                      copy_samples l block behind (source_sample + chunk_samples) d,
                    ))
                    (copy_chunk-copy_samples l block good filled source_sample chunk_samples
                        chunk_samples 0 destination staged (omega arith)
                      ∙ ap (λ i. copy_samples l block chunk_samples i destination) (omega arith))
                ∙ ap (λ d. (ok plan.expected_bytes, d))
                    (sym (copy_samples-add l block chunk_samples behind source_sample destination)
                      ∙ ap (λ n. copy_samples l block n source_sample destination) remaining))
      ]

  -- In chunks or at once, the transformation writes the same bytes.
  pub transform_pixel_storage-from_buffer :
      (destination : Bytes) (other : StopToken)
      → Never other
      → length destination ≡ length block
      → transform_pixel_storage source plan destination storage order stop image_index
        ≡ transform_pixel_storage_from_buffer
            (layout_of_plan plan storage order)
            block
            destination
            other
  unfolding transform_pixel_storage transform_pixel_storage_from_buffer staging_size
  transform_pixel_storage-from_buffer destination other quiet same =
      transform_chunks-copy_samples plan.sample_count 0 (zeros staging_size) destination
        (omega arith) (omega arith) (length-replicate staging_size 0)
      ∙ ap (λ n. (ok plan.expected_bytes, copy_samples l block n 0 destination)) all_samples
      ∙ ap (λ n. (ok n, copy_samples l block plan.sample_count 0 destination))
          (whole ∙ sym same ∙ sym (length-copy_samples l block plan.sample_count 0 destination))
      ∙ ap finish_transform
          (sym (transform_loop-copy_samples l block other plan.sample_count 0 destination quiet))
    where
      l : Layout
      l = layout_of_plan plan storage order

      all_samples : plan.sample_count - 0 ≡ plan.sample_count
      all_samples = omega arith
