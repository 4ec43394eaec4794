-- ===== src/Read/Image/Staged.antt =====
-- A chunk of samples in the staging buffer, copied to its place (src/reader.cpp, the loops of
-- transform_pixel_storage).
use mmxisf.Base.{
  ℕ, zero, suc, ◌+◌, ◌*◌, ◌≤◌, ◌<◌, ◌≡◌, refl, ap, ap₂, ◌∙◌, true, [], ◌∷◌, arith, length, get_or,
  drop,
}
use mmxisf.Base.Index.{get_or-drop}
use mmxisf.Base.Text.{Bytes}
use mmxisf.Base.Error.{StopToken, Never}
use mmxisf.Buffer.{subspan, splice, length-subspan, get_or-splice_inside, get_or-take}
use mmxisf.Buffer.Run.{write_run-ext, length-write_run}
use mmxisf.Pixels.{Layout, input_byte, same_order, copy_sample, transform_loop}
use mmxisf.Pixels.Target.{input_byte_inverse}
use mmxisf.Pixels.Transform.{IsLayout}
use mmxisf.Read.Image.{copy_staged, copy_chunk}

row-lt : (a k n s : ℕ) → a < n → k < s → a * s + k < n * s
row-lt a k n s h g = grind arith

pub row-add : (a b s : ℕ) → (a + b) * s ≡ a * s + b * s
row-add a b s = grind arith

get_or-splice_at :
    (bytes piece : Bytes) (k : ℕ)
    → k < length piece
    → length piece ≤ length bytes
    → get_or (splice bytes 0 piece) k 0 ≡ get_or piece k 0
get_or-splice_at bytes piece k h fits =
    let e : 0 + k ≡ k = omega arith in
    rw e at (get_or-splice_inside bytes 0 piece k h (omega arith))

module _ (l : Layout) (block : Bytes) where
  -- The copies of the samples in turn.
  unfoldable pub copy_samples : ℕ → ℕ → Bytes → Bytes
  copy_samples zero index destination = destination
  copy_samples (suc left) index destination =
      copy_samples left (index + 1) (copy_sample l block index destination)

  pub copy_samples-add :
      (a b index : ℕ) (destination : Bytes)
      → copy_samples (a + b) index destination
        ≡ copy_samples b (index + a) (copy_samples a index destination)
  unfolding copy_samples
  copy_samples-add zero b index destination =
      let e : 0 + b ≡ b = omega arith in let f : index + 0 ≡ index = omega arith in rw (e, f) refl
  copy_samples-add (suc a) b index destination =
      let e : suc a + b ≡ suc (a + b) = omega arith in
      let f : index + suc a ≡ index + 1 + a = omega arith in
      rw (e, f) (copy_samples-add a b (index + 1) (copy_sample l block index destination))

  pub transform_loop-copy_samples :
      (stop : StopToken) (left index : ℕ) (destination : Bytes)
      → Never stop
      → transform_loop stop l block left index destination
        ≡ (true, copy_samples left index destination)
  unfolding transform_loop copy_samples
  transform_loop-copy_samples stop zero index destination never = refl
  transform_loop-copy_samples stop (suc left) index destination never = ground (
    arith,
    never (index ∷ []),
    transform_loop-copy_samples stop left (index + 1) (copy_sample l block index destination) never,
  )

  pub length-copy_samples :
      (left index : ℕ) (destination : Bytes)
      → length (copy_samples left index destination) ≡ length destination
  unfolding copy_samples copy_sample
  length-copy_samples zero index destination = refl
  length-copy_samples (suc left) index destination =
      length-copy_samples left (index + 1) (copy_sample l block index destination)
      ∙ length-write_run _ _ l.sample_size 0 destination

  -- The staging buffer holds the samples of the block from `source_sample` on.
  pub IsStaged : Bytes → ℕ → ℕ → Type 0
  IsStaged staging source_sample count =
      (local_sample k : ℕ)
      → local_sample < count
      → k < l.sample_size
      → get_or staging (local_sample * l.sample_size + k) 0
        ≡ get_or block ((source_sample + local_sample) * l.sample_size + k) 0

  module _ (good : IsLayout l) where
    copy_staged-copy_sample :
        (staging : Bytes) (source_sample count local_sample : ℕ) (destination : Bytes)
        → IsStaged staging source_sample count
        → local_sample < count
        → copy_staged l staging source_sample local_sample destination
          ≡ copy_sample l block (source_sample + local_sample) destination
    unfolding copy_staged copy_sample IsStaged
    copy_staged-copy_sample staging source_sample count local_sample destination staged h =
        write_run-ext _ _ _ l.sample_size 0 destination λ k p q.
          staged local_sample
            (input_byte (same_order l.source_order l.output_order) l.component_size k) h
            (rw good.sample at
              (input_byte_inverse (same_order l.source_order l.output_order) l.component_size
                good.components k (omega (arith, good.sample))).0)

    pub copy_chunk-copy_samples :
        (staging : Bytes) (source_sample count left local_sample : ℕ) (destination : Bytes)
        → IsStaged staging source_sample count
        → local_sample + left ≤ count
        → copy_chunk l staging source_sample left local_sample destination
          ≡ copy_samples left (source_sample + local_sample) destination
    unfolding copy_chunk copy_samples
    copy_chunk-copy_samples staging source_sample count zero local_sample destination staged h =
        refl
    copy_chunk-copy_samples staging source_sample count (suc left) local_sample destination staged
          h =
        copy_chunk-copy_samples staging source_sample count left (local_sample + 1)
          (copy_staged l staging source_sample local_sample destination) staged (omega arith)
        ∙ ap₂ (copy_samples left) (omega arith) (
            copy_staged-copy_sample staging source_sample count local_sample destination staged
              (omega arith))

    pub fill-IsStaged :
        (staging : Bytes) (source_sample count : ℕ)
        → (source_sample + count) * l.sample_size ≤ length block
        → count * l.sample_size ≤ length staging
        → IsStaged
            (splice staging 0
              (subspan block (source_sample * l.sample_size) (count * l.sample_size)))
            source_sample
            count
    unfolding IsStaged
    fill-IsStaged staging source_sample count inside fits local_sample k h g =
        let start = source_sample * l.sample_size in
        let bytes = count * l.sample_size in
        let at = local_sample * l.sample_size + k in
        let at-lt : at < bytes = row-lt local_sample k count l.sample_size h g in
        let end : start + bytes ≤ length block =
          omega (arith, row-add source_sample count l.sample_size) in
        let size = length-subspan block start bytes end in
        get_or-splice_at staging (subspan block start bytes) at (omega (arith, size))
          (omega (arith, size))
        ∙ get_or-take bytes at (drop start block) at-lt
        ∙ get_or-drop start at block 0
        ∙ ap (λ j. get_or block j 0)
            (omega (arith, row-add source_sample local_sample l.sample_size))
