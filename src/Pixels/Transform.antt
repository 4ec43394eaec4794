-- ===== src/Pixels/Transform.antt =====
-- The transformation by what each output byte is: a gather instead of the code's scatter.
use mmxisf.Base.{
  if◌then◌else◌, Bool, false, ◌-◌, ℕ, zero, suc, ◌+◌, ◌*◌, ◌/◌, ◌%◌, ◌≤◌, ◌<◌, ◌≡◌, refl, ap, ◌∙◌,
  subst, ℕ_discrete, true, [], ◌∷◌, arith, length, get_or,
}
use mmxisf.Base.Division.{split-div, split-mod, quotient-lt, remainder-lt, div-mod}
use mmxisf.Base.Text.{Bytes}
use mmxisf.Base.Error.{ok, StopToken, Never}
use mmxisf.Buffer.Run.{Fills, write_run-Fills}
use mmxisf.Pixels.{
  Layout, pixel_count, sample_of, output_index, input_byte, same_order, copy_sample, transform_loop,
  transform_pixel_storage_from_buffer,
}
use mmxisf.Pixels.Target.{output_index_inverse, coordinates-sample}

-- A plan's numbers: whole pixels, and samples of whole components.
pub record IsLayout (l : Layout) : Type 0 where
  pub whole : pixel_count l * l.channels ≡ l.sample_count
  pub components : ℕ
  pub sample : components * l.component_size ≡ l.sample_size

-- The byte that belongs at offset `j` of the output.
abbrev pub gathered : Layout → Bytes → ℕ → ℕ
gathered l source j =
    get_or source
      (output_index l.output_storage l.source_storage (pixel_count l) l.channels (j / l.sample_size)
          * l.sample_size
        + input_byte (same_order l.source_order l.output_order) l.component_size
            (j % l.sample_size))
      0

pub offset-lt : (i b s n : ℕ) → b < s → i < n → i * s + b < n * s
offset-lt i b s n hb hi = grind arith

module _ (l : Layout) (good : IsLayout l) (source : Bytes) where
  -- One sample is copied to its place, and nothing else is touched.
  copy_sample-Fills :
      (index : ℕ) (destination : Bytes)
      → index < l.sample_count
      → length destination ≡ l.sample_count * l.sample_size
      → Fills
          (gathered l source)
          (λ byte.
            output_index l.source_storage l.output_storage (pixel_count l) l.channels index
              * l.sample_size
            + byte)
          0
          (0 + l.sample_size)
          destination
          (copy_sample l source index destination)
  unfolding copy_sample
  copy_sample-Fills index destination h same =
      let (inside, back) =
        output_index_inverse (pixel_count l) l.channels l.source_storage l.output_storage index
          (rw good.whole h) in
      write_run-Fills (gathered l source) _ _ l.sample_size 0 destination (λ k p q. (
        rw same
            (offset-lt _ k l.sample_size l.sample_count (omega arith) (rw good.whole at inside)),
        rw
            (
              split-div _ k l.sample_size (omega arith),
              split-mod _ k l.sample_size (omega arith),
              back,
            )
            refl,
      ))

  pub transform_loop-Fills :
      (stop : StopToken)
      → Never stop
      → (left index : ℕ) (destination : Bytes) → index + left ≡ l.sample_count
      → length destination ≡ l.sample_count * l.sample_size
      → (result : Bytes) × (transform_loop stop l source left index destination ≡ (true, result))
        × (length result ≡ length destination)
        × ((j : ℕ)
            → get_or destination j 0 ≡ gathered l source j
            → get_or result j 0 ≡ gathered l source j)
        × ((i byte : ℕ)
            → index ≤ i
            → i < l.sample_count
            → byte < l.sample_size
            → let j =
                output_index l.source_storage l.output_storage (pixel_count l) l.channels i
                  * l.sample_size
                + byte in
              get_or result j 0 ≡ gathered l source j)
  unfolding transform_loop
  transform_loop-Fills stop never zero index destination end same =
      (destination, refl, refl, λ j h. h, λ i byte p q r. absurd (omega arith))
  transform_loop-Fills stop never (suc left) index destination end same =
      let one = copy_sample-Fills index destination (omega arith) same in
      let (result, runs, size, kept, placed) =
        transform_loop-Fills stop never left (index + 1) (copy_sample l source index destination)
          (omega arith) (one.same_length ∙ same) in
      (
        result,
        resume runs,
        size ∙ one.same_length,
        λ j h. kept j (one.kept j h),
        λ i byte p q r. elim (ℕ_discrete index i) [
          | yes here ↦ kept _ (rw (← here) (one.placed byte (omega arith) (omega arith)))
          | no later ↦ placed i byte (omega arith) q r
        ],
      )
    where
      resume :
          {result : Bytes}
          → transform_loop stop l source left (index + 1) (copy_sample l source index destination)
            ≡ (true, result)
          → transform_loop stop l source (suc left) index destination ≡ (true, result)
      resume runs = ground (arith, never (index ∷ []))

-- Every output byte is the gathered one, whatever the destination held.
pub transform-gathered :
    (l : Layout) (source destination : Bytes) (stop : StopToken)
    → IsLayout l
    → Never stop
    → length destination ≡ l.sample_count * l.sample_size
    → (result : Bytes) × (transform_pixel_storage_from_buffer l source destination stop
        ≡ (ok (l.sample_count * l.sample_size), result))
      × (length result ≡ l.sample_count * l.sample_size)
      × ((j : ℕ) → j < l.sample_count * l.sample_size → get_or result j 0 ≡ gathered l source j)
unfolding transform_pixel_storage_from_buffer
transform-gathered l source destination stop good never same =
    let (result, runs, size, kept, placed) =
      transform_loop-Fills l good source stop never l.sample_count 0 destination (omega arith)
        same in
    (
      result,
      rw runs (ap (λ n. (ok n, result)) (size ∙ same)),
      size ∙ same,
      λ j h.
          let (inside, back) =
            output_index_inverse (pixel_count l) l.channels l.output_storage l.source_storage
              (j / l.sample_size) (rw good.whole (quotient-lt j l.sample_size l.sample_count h)) in
          let at =
            placed _ (j % l.sample_size) (omega arith) (rw good.whole at inside)
              (remainder-lt j l.sample_size l.sample_count h) in
          rw (back, div-mod j l.sample_size) at at,
    )

-- One byte of a sample goes to its place, from the byte that the orders select.
transform_places_bytes :
    (l : Layout) (source destination : Bytes) (stop : StopToken) (channel pixel byte : ℕ)
    → IsLayout l
    → Never stop
    → length destination ≡ l.sample_count * l.sample_size
    → channel < l.channels
    → pixel < pixel_count l
    → byte < l.sample_size
    → (result : Bytes) × (transform_pixel_storage_from_buffer l source destination stop
        ≡ (ok (l.sample_count * l.sample_size), result))
      × (get_or result
            (sample_of l.output_storage (pixel_count l) l.channels channel pixel * l.sample_size
              + byte)
            0
          ≡ get_or source
              (sample_of l.source_storage (pixel_count l) l.channels channel pixel * l.sample_size
                + input_byte (same_order l.source_order l.output_order) l.component_size byte)
              0)
transform_places_bytes l source destination stop channel pixel byte good never same hc hp hb =
    let (result, runs, size, gather) =
      transform-gathered l source destination stop good never same in
    let (inside, at_channel, at_pixel) =
      coordinates-sample (pixel_count l) l.channels l.output_storage channel pixel hc hp in
    (
      result,
      runs,
      gather _ (offset-lt _ byte l.sample_size l.sample_count hb (rw good.whole at inside))
          ∙ (unfold output_index in
              rw (
                split-div (sample_of l.output_storage (pixel_count l) l.channels channel pixel) byte
                    l.sample_size hb,
                split-mod (sample_of l.output_storage (pixel_count l) l.channels channel pixel) byte
                    l.sample_size hb,
                at_channel,
                at_pixel,
              )),
    )

-- The byte that the swap of a component selects.
input_byte-component :
    (same : Bool) (size component k : ℕ)
    → k < size
    → input_byte same size (component * size + k)
      ≡ component * size + (if same then k else size - 1 - k)
unfolding input_byte
input_byte-component true size component k h = refl
input_byte-component false size component k h =
    rw (split-div component k size h, split-mod component k size h) (omega arith)

inside_sample : (c n k s : ℕ) → c < n → k < s → c * s + k < n * s
inside_sample c n k s h g = grind arith

-- Storage and byte order are changed sample by sample: the output holds, for each channel, pixel,
-- component of a sample and byte of the component, the byte of that channel, pixel and component
-- in the source, counted from the component's other end when the orders differ. The layout has
-- whole pixels and whole components, the destination has the image's size, and stop is never
-- requested.
pub transform_places_samples :
    (l : Layout) (source destination : Bytes) (stop : StopToken) (channel pixel component k : ℕ)
    (good : IsLayout l)
    → Never stop
    → length destination ≡ l.sample_count * l.sample_size
    → channel < l.channels
    → pixel < pixel_count l
    → component < good.components
    → k < l.component_size
    → (result : Bytes) × (transform_pixel_storage_from_buffer l source destination stop
        ≡ (ok (l.sample_count * l.sample_size), result))
      × (get_or result
            (sample_of l.output_storage (pixel_count l) l.channels channel pixel * l.sample_size
              + (component * l.component_size + k))
            0
          ≡ get_or source
              (sample_of l.source_storage (pixel_count l) l.channels channel pixel * l.sample_size
                + (component * l.component_size
                    + (if same_order l.source_order l.output_order
                        then k
                        else l.component_size - 1 - k)))
              0)
transform_places_samples l source destination stop channel pixel component k good never same hc hp
      ho hk =
    let inside = inside_sample component good.components k l.component_size ho hk in
    let (result, runs, byte) =
      transform_places_bytes l source destination stop channel pixel
        (component * l.component_size + k) good never same hc hp
        (subst (λ n. component * l.component_size + k < n) good.sample inside) in
    (
      result,
      runs,
      byte
          ∙ ap
              (λ b.
                get_or source
                  (sample_of l.source_storage (pixel_count l) l.channels channel pixel
                      * l.sample_size
                    + b)
                  0)
              (input_byte-component (same_order l.source_order l.output_order) l.component_size
                component k hk),
    )
