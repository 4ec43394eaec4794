-- ===== src/Tests/Images.antt =====
-- A small image whose storage and byte order are changed.
use mmxisf.Base.{◌-◌, ◌+◌, ◌*◌, ◌≡◌, refl, false, [], ◌∷◌, arith, get_or, replicate}
use mmxisf.Base.Text.{Bytes}
use mmxisf.Base.Error.{ok, StopToken, Never}
use mmxisf.Document.{planar, normal, little, big}
use mmxisf.Pixels.{Layout, sample_of, transform_pixel_storage_from_buffer, swap_byte_order_in_place}
use mmxisf.Pixels.Transform.{IsLayout, transform_places_samples}
use mmxisf.Pixels.Inverse.{inverse, transform-inverse}
use mmxisf.Pixels.Swap.{IsSwapped, swap_byte_order-IsSwapped}

abbrev no_stop : StopToken
no_stop poll = false

no_stop-Never : Never no_stop
no_stop-Never poll = refl

-- Two pixels of three channels with samples of two bytes.
abbrev small : Layout
small = record {
  source_storage = planar;
  source_order = little;
  output_storage = normal;
  output_order = big;
  sample_count = 6;
  channels = 3;
  sample_size = 2;
  component_size = 2;
}

abbrev small_is_layout : IsLayout small
small_is_layout = record { whole = refl; components = 1; sample = refl }

abbrev samples : Bytes
samples = 1 ∷ 2 ∷ 3 ∷ 4 ∷ 5 ∷ 6 ∷ 7 ∷ 8 ∷ 9 ∷ 10 ∷ 11 ∷ 12 ∷ []

abbrev empty_samples : Bytes
empty_samples = replicate 12 0

transform_places_samples_example :
    (result : Bytes) × (transform_pixel_storage_from_buffer small samples empty_samples no_stop
      ≡ (ok 12, result))
    × (get_or result (sample_of normal 2 3 1 0 * 2 + (0 * 2 + 1)) 0
        ≡ get_or samples (sample_of planar 2 3 1 0 * 2 + (0 * 2 + (2 - 1 - 1))) 0)
transform_places_samples_example =
    transform_places_samples small samples empty_samples no_stop 1 0 0 1 small_is_layout
      no_stop-Never refl (omega arith) (omega arith) (omega arith) (omega arith)

transform-inverse_example :
    (there : Bytes) × (transform_pixel_storage_from_buffer small samples empty_samples no_stop
      ≡ (ok 12, there))
    × (transform_pixel_storage_from_buffer (inverse small) there empty_samples no_stop
        ≡ (ok 12, samples))
transform-inverse_example =
    transform-inverse small samples empty_samples empty_samples no_stop small_is_layout
      no_stop-Never refl refl refl

swap_byte_order-IsSwapped_example :
    (result : Bytes) × (swap_byte_order_in_place samples 4 no_stop ≡ (ok 12, result))
    × IsSwapped 4 0 3 samples result
swap_byte_order-IsSwapped_example = swap_byte_order-IsSwapped samples 4 no_stop no_stop-Never
