-- ===== src/Pixels.antt =====
-- Pixel bytes: `transform_pixel_storage_from_buffer` and `swap_byte_order_in_place` of
-- src/reader.cpp, and the sample sizes. A destination is returned beside the result.
pub mod Target
pub mod Transform
pub mod Inverse
pub mod Swap
use mathlib.Core.List.{reverse}
use mmxisf.Base.{
  ℕ, zero, suc, ◌+◌, ◌-◌, ◌*◌, ◌/◌, ◌%◌, ◌^◌, Bool, true, false, ◌&&◌, Option, none, some, [], ◌∷◌,
  ◌==◌, if◌then◌else◌, length, get_or,
}
use mmxisf.Base.Text.{Bytes}
use mmxisf.Base.Error.{cancelled, Result, ok, fail, ◌>>=◌, ◌>>◌, StopToken}
use mmxisf.Buffer.{subspan, splice}
use mmxisf.Buffer.Run.{write_run}
use mmxisf.Document.{
  SampleFormat, uint8, uint16, uint32, uint64, float32, float64, complex32, complex64, unsupported,
  PixelStorage, planar, normal, ByteOrder, little, big,
}

unfoldable pub bytes_per_sample : SampleFormat → Option ℕ
bytes_per_sample uint8 = some 1
bytes_per_sample uint16 = some 2
bytes_per_sample uint32 = some 4
bytes_per_sample uint64 = some 8
bytes_per_sample float32 = some 4
bytes_per_sample float64 = some 8
bytes_per_sample complex32 = some 8
bytes_per_sample complex64 = some 16
bytes_per_sample unsupported = none

unfoldable pub endian_component_size : SampleFormat → Option ℕ
endian_component_size uint8 = some 1
endian_component_size uint16 = some 2
endian_component_size uint32 = some 4
endian_component_size float32 = some 4
endian_component_size complex32 = some 4
endian_component_size uint64 = some 8
endian_component_size float64 = some 8
endian_component_size complex64 = some 8
endian_component_size unsupported = none

abbrev pub same_order : ByteOrder → ByteOrder → Bool
same_order little little = true
same_order big big = true
same_order _ _ = false

-- The channel and the pixel of a sample in a storage, and the sample of a channel and a pixel.
abbrev pub channel_of : PixelStorage → ℕ → ℕ → ℕ → ℕ
channel_of planar pixel_count channels index = index / pixel_count
channel_of normal pixel_count channels index = index % channels

abbrev pub pixel_of : PixelStorage → ℕ → ℕ → ℕ → ℕ
pixel_of planar pixel_count channels index = index % pixel_count
pixel_of normal pixel_count channels index = index / channels

abbrev pub sample_of : PixelStorage → ℕ → ℕ → ℕ → ℕ → ℕ
sample_of planar pixel_count channels channel pixel = channel * pixel_count + pixel
sample_of normal pixel_count channels channel pixel = pixel * channels + channel

unfoldable pub output_index : PixelStorage → PixelStorage → ℕ → ℕ → ℕ → ℕ
output_index source_storage output_storage pixel_count channels source_index =
    sample_of output_storage pixel_count channels
      (channel_of source_storage pixel_count channels source_index)
      (pixel_of source_storage pixel_count channels source_index)

-- The byte of the source sample that goes to `byte` of the output sample.
unfoldable pub input_byte : Bool → ℕ → ℕ → ℕ
input_byte same component_size byte =
    let component_offset = byte / component_size * component_size in
    if same then byte else component_offset + component_size - byte % component_size - 1

abbrev pub cancellation_interval : ℕ
cancellation_interval = 2 ^ 20

-- What the transformation reads of its plan, and the chosen output.
pub record Layout : Type 0 where
  pub source_storage : PixelStorage
  pub source_order : ByteOrder
  pub output_storage : PixelStorage
  pub output_order : ByteOrder
  pub sample_count : ℕ
  pub channels : ℕ
  pub sample_size : ℕ
  pub component_size : ℕ

abbrev pub pixel_count : Layout → ℕ
pixel_count l = l.sample_count / l.channels

-- The copy of one sample: the inner loop, as a run of writes.
unfoldable pub copy_sample : Layout → Bytes → ℕ → Bytes → Bytes
copy_sample l source source_index destination =
    let output =
      output_index l.source_storage l.output_storage (pixel_count l) l.channels source_index in
    let input_offset = source_index * l.sample_size in
    let output_offset = output * l.sample_size in
    write_run (λ byte. output_offset + byte)
      (λ byte.
        get_or source
          (input_offset
            + input_byte (same_order l.source_order l.output_order) l.component_size byte)
          0)
      l.sample_size 0 destination

-- The outer loop, with `left` samples to go; `false` is a cancellation.
unfoldable pub transform_loop : StopToken → Layout → Bytes → ℕ → ℕ → Bytes → Bool × Bytes
transform_loop stop l source zero source_index destination = (true, destination)
transform_loop stop l source (suc left) source_index destination =
    let rest =
      transform_loop stop l source left (source_index + 1)
        (copy_sample l source source_index destination) in
    if source_index % cancellation_interval == 0 && stop (source_index ∷ [])
    then (false, destination)
    else rest

abbrev pub finish_transform : Bool × Bytes → Result ℕ × Bytes
finish_transform (true, destination) = (ok (length destination), destination)
finish_transform (false, destination) = (fail cancelled "Image read was cancelled", destination)

unfoldable pub transform_pixel_storage_from_buffer :
    Layout → Bytes → Bytes → StopToken → Result ℕ × Bytes
transform_pixel_storage_from_buffer l source destination stop =
    finish_transform (transform_loop stop l source l.sample_count 0 destination)

-- `std::reverse` of each component in turn, `left` of them from `component` on.
unfoldable pub swap_loop : StopToken → ℕ → ℕ → ℕ → Bytes → Bool × Bytes
swap_loop stop component_size zero component destination = (true, destination)
swap_loop stop component_size (suc left) component destination =
    let begin = component * component_size in
    let rest =
      swap_loop stop component_size left (component + 1)
        (splice destination begin (reverse (subspan destination begin component_size))) in
    if component % cancellation_interval == 0 && stop (component ∷ [])
    then (false, destination)
    else rest

abbrev pub finish_swap : Bool × Bytes → Result ℕ × Bytes
finish_swap (true, destination) = (ok (length destination), destination)
finish_swap (false, destination) = (fail cancelled "Block read was cancelled", destination)

unfoldable pub swap_byte_order_in_place : Bytes → ℕ → StopToken → Result ℕ × Bytes
swap_byte_order_in_place destination component_size stop =
    finish_swap (swap_loop stop component_size (length destination / component_size) 0 destination)
