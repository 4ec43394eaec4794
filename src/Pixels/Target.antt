-- ===== src/Pixels/Target.antt =====
-- The map of samples between the storages is a bijection of the sample indices.
use mmxisf.Base.{ℕ, ◌+◌, ◌-◌, ◌*◌, ◌/◌, ◌%◌, ◌<◌, ◌≡◌, refl, Bool, true, false, arith}
use mmxisf.Document.{PixelStorage, planar, normal}
use mmxisf.Pixels.{channel_of, pixel_of, sample_of, output_index, input_byte}

row-div : (q r c : ℕ) → q < c → (r * c + q) / c ≡ r
row-div q r c h = grind arith

row-mod : (q r c : ℕ) → q < c → (r * c + q) % c ≡ q
row-mod q r c h = grind arith

row-lt : (q r c s n : ℕ) → q < c → r < s → s * c ≡ n → r * c + q < n
row-lt q r c s n hq hr h = grind arith

quotient-lt : (i c s n : ℕ) → i < n → s * c ≡ n → i / c < s
quotient-lt i c s n h e = grind arith

remainder-lt : (i c s n : ℕ) → i < n → s * c ≡ n → i % c < c
remainder-lt i c s n h e = grind arith

div-mod : (i c : ℕ) → i / c * c + i % c ≡ i
div-mod i c = grind arith

-- A sample of the image by channel and pixel.
pub record IsSample (pixels channels index : ℕ) (storage : PixelStorage) : Type 0 where
  pub channel-lt : channel_of storage pixels channels index < channels
  pub pixel-lt : pixel_of storage pixels channels index < pixels
  pub sample-of :
      sample_of storage pixels channels
        (channel_of storage pixels channels index)
        (pixel_of storage pixels channels index)
      ≡ index

module _ (pixels channels : ℕ) where
  pub coordinates_back :
      (storage : PixelStorage) (index : ℕ)
      → index < pixels * channels
      → IsSample pixels channels index storage
  coordinates_back planar index h = record {
    channel-lt = quotient-lt index pixels channels (pixels * channels) h (grind arith);
    pixel-lt = remainder-lt index pixels channels (pixels * channels) h (grind arith);
    sample-of = div-mod index pixels;
  }
  coordinates_back normal index h = record {
    channel-lt = remainder-lt index channels pixels (pixels * channels) h refl;
    pixel-lt = quotient-lt index channels pixels (pixels * channels) h refl;
    sample-of = div-mod index channels;
  }

  pub coordinates-sample :
      (storage : PixelStorage) (channel pixel : ℕ)
      → channel < channels
      → pixel < pixels
      → (sample_of storage pixels channels channel pixel < pixels * channels)
        × (channel_of storage pixels channels (sample_of storage pixels channels channel pixel)
            ≡ channel)
        × (pixel_of storage pixels channels (sample_of storage pixels channels channel pixel)
            ≡ pixel)
  coordinates-sample planar channel pixel hc hp = (
    row-lt pixel channel pixels channels (pixels * channels) hp hc (grind arith),
    row-div pixel channel pixels hp,
    row-mod pixel channel pixels hp,
  )
  coordinates-sample normal channel pixel hc hp = (
    row-lt channel pixel channels pixels (pixels * channels) hc hp refl,
    row-mod channel pixel channels hc,
    row-div channel pixel channels hc,
  )

-- Moving a sample to the other storage and back gives its index.
pub output_index_inverse :
    (pixels channels : ℕ) (source output : PixelStorage) (index : ℕ)
    → index < pixels * channels
    → (output_index source output pixels channels index < pixels * channels)
      × (output_index output source pixels channels
            (output_index source output pixels channels index)
          ≡ index)
unfolding output_index
output_index_inverse pixels channels source output index h =
    let at = coordinates_back pixels channels source index h in
    let (inside, channel, pixel) =
      coordinates-sample pixels channels output (channel_of source pixels channels index)
        (pixel_of source pixels channels index) at.channel-lt at.pixel-lt in
    (inside, rw (channel, pixel) at.sample-of)

flipped : (q r size : ℕ) → r < size → q * size + size - r - 1 ≡ q * size + (size - r - 1)
flipped q r size h = omega arith

-- The byte map of a component is its own inverse, and stays inside the sample.
pub input_byte_inverse :
    (same : Bool) (size components byte : ℕ)
    → byte < components * size
    → (input_byte same size byte < components * size)
      × (input_byte same size (input_byte same size byte) ≡ byte)
unfolding input_byte
input_byte_inverse true size components byte h = (h, refl)
input_byte_inverse false size components byte h =
    let r-lt : byte % size < size = remainder-lt byte size components (components * size) h refl in
    let back-lt : size - byte % size - 1 < size = omega arith in
    let inside =
      row-lt (size - byte % size - 1) (byte / size) size components (components * size) back-lt
        (quotient-lt byte size components (components * size) h refl) refl in
    rw
      (
        flipped (byte / size) (byte % size) size r-lt,
        row-div (size - byte % size - 1) (byte / size) size back-lt,
        row-mod (size - byte % size - 1) (byte / size) size back-lt,
      )
      (inside, omega (arith, div-mod byte size))
