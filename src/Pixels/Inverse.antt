-- ===== src/Pixels/Inverse.antt =====
-- The transformation back: the layout with the storages and byte orders exchanged.
use mmxisf.Base.{ℕ, ◌+◌, ◌*◌, ◌/◌, ◌%◌, ◌<◌, ◌≡◌, sym, ap, ◌∙◌, subst, arith, length, get_or}
use mmxisf.Base.Division.{split-div, split-mod, quotient-lt, remainder-lt, div-mod}
use mmxisf.Base.Index.{list_ext}
use mmxisf.Base.Text.{Bytes}
use mmxisf.Base.Error.{ok, StopToken, Never}
use mmxisf.Document.{ByteOrder}
use mmxisf.Pixels.{
  Layout, pixel_count, output_index, input_byte, same_order, transform_pixel_storage_from_buffer,
}
use mmxisf.Pixels.Target.{output_index_inverse, input_byte_inverse}
use mmxisf.Pixels.Transform.{IsLayout, gathered, offset-lt, transform-gathered}

-- The layout of the way back.
abbrev pub inverse : Layout → Layout
inverse l = record l {
  source_storage = l.output_storage;
  source_order = l.output_order;
  output_storage = l.source_storage;
  output_order = l.source_order;
}

pub same_order_comm : (a b : ByteOrder) → same_order a b ≡ same_order b a
same_order_comm a b = ground arith

-- Where the way back reads the byte at `j`.
abbrev back_index : Layout → ℕ → ℕ
back_index l j =
    output_index l.source_storage l.output_storage (pixel_count l) l.channels (j / l.sample_size)
      * l.sample_size
    + input_byte (same_order l.output_order l.source_order) l.component_size (j % l.sample_size)

gathered-back_index :
    (l : Layout) (source : Bytes) (j : ℕ)
    → IsLayout l
    → j < l.sample_count * l.sample_size
    → (back_index l j < l.sample_count * l.sample_size)
      × (gathered l source (back_index l j) ≡ get_or source j 0)
gathered-back_index l source j good h =
    let (inside, again) =
      output_index_inverse (pixel_count l) l.channels l.source_storage l.output_storage
        (j / l.sample_size) (rw good.whole (quotient-lt j l.sample_size l.sample_count h)) in
    let (byte-lt, byte_again) =
      input_byte_inverse (same_order l.output_order l.source_order) l.component_size good.components
        (j % l.sample_size) (rw good.sample (remainder-lt j l.sample_size l.sample_count h)) in
    let byte-lt' = rw good.sample at byte-lt in
    (
      offset-lt _ _ l.sample_size l.sample_count byte-lt' (rw good.whole at inside),
      rw (
        split-div _ _ l.sample_size byte-lt',
        split-mod _ _ l.sample_size byte-lt',
        again,
        same_order_comm l.source_order l.output_order,
        byte_again,
        div-mod j l.sample_size,
      ),
    )

-- Transforming and transforming back restores every byte of the image: for a source and
-- destinations of the image's size, when stop is never requested.
pub transform-inverse :
    (l : Layout) (source first second : Bytes) (stop : StopToken)
    → IsLayout l
    → Never stop
    → length source ≡ l.sample_count * l.sample_size
    → length first ≡ l.sample_count * l.sample_size
    → length second ≡ l.sample_count * l.sample_size
    → (there : Bytes) × (transform_pixel_storage_from_buffer l source first stop
        ≡ (ok (l.sample_count * l.sample_size), there))
      × (transform_pixel_storage_from_buffer (inverse l) there second stop
          ≡ (ok (l.sample_count * l.sample_size), source))
transform-inverse l source first second stop good never s f d =
    let (there, runs, size, gather) = transform-gathered l source first stop good never f in
    let (back, returns, size', gather') =
      transform-gathered (inverse l) there second stop
        (record { whole = good.whole; components = good.components; sample = good.sample }) never
        d in
    let restored : back ≡ source = list_ext 0 back source (size' ∙ sym s) (λ j h.
      let h' = subst (λ n. j < n) size' h in
      let (inside, again) = gathered-back_index l source j good h' in
      gather' j h' ∙ gather _ inside ∙ again) in
    (there, runs, returns ∙ ap (λ bytes. (ok (l.sample_count * l.sample_size), bytes)) restored)
