-- ===== src/Block/Restore.antt =====
-- Decoding what was encoded: the decoder of src/reader.cpp against the byte stream that the writer
-- cuts into subblocks, shuffled or not, each compressed by itself.
use mmxisf.Base.{
  ℕ, ◌+◌, ◌≤◌, ◌<◌, ◌≡◌, refl, sym, ap, ◌∙◌, inl, inr, true, false, some, List, [], ◌∷◌, ◌++◌,
  arith, if◌then◌else◌, Bool-cases, length, drop,
}
use mmxisf.Base.Index.{take-append, drop-append}
use mmxisf.Base.Text.{Bytes}
use mmxisf.Base.Error.{Result, ok, ok-injective, StopToken, Never}
use mmxisf.Buffer.Nested.{drop-drop}
use mmxisf.Buffer.{
  subspan, splice, resize, then_with, length-resize, length-subspan, Restores-trans, Restores-eq,
  Restores, splice-Restores,
}
use mmxisf.Shuffle.{plain_index, shuffled_range, scatter_unshuffled_bytes}
use mmxisf.Shuffle.RoundTrip.{Unshuffles-eq, scatter-shuffled_range}
use mmxisf.Word.{is_power_of_two}
use mmxisf.Block.{
  CompressionCodec, none_codec, zlib, lz4, lz4hc, zstd, CompressionSubblock, CompressionPlan,
  Codecs,
}
use mmxisf.Block.Decode.{
  uint_max, int_max, window_log, decompress_zlib, decompress_lz4, decompress_zstd,
  decompress_subblock, decode_subblock, decode_loop, decode_compressed_block,
}

-- The library's decompressor turns `compressed` back into `plain`, within the codec's size limits.
abbrev pub Inverts : Codecs → CompressionCodec → ℕ → Bytes → Bytes → Type 0
Inverts lib none_codec window compressed plain = ⊥
Inverts lib zlib window compressed plain =
    (length compressed ≤ uint_max)
    × (length plain ≤ uint_max)
    × ((out : Bytes)
        → length out ≡ length plain
        → lib.inflate compressed out
          ≡ some (record {
            stream_end = true;
            consumed = length compressed;
            produced = length plain;
            output = plain;
          }))
Inverts lib zstd window compressed plain =
    (1024 ≤ window)
    × (is_power_of_two window ≡ true)
    × (lib.zstd_create ≡ true)
    × (lib.zstd_set_window_log (window_log window) ≡ true)
    × ((out : Bytes)
        → length out ≡ length plain
        → lib.zstd_decompress (window_log window) compressed out ≡ (some (length plain), plain))
Inverts lib _ window compressed plain =
    (length compressed ≤ int_max)
    × (length plain ≤ int_max)
    × ((out : Bytes)
        → length out ≡ length plain
        → lib.lz4_decompress_safe compressed out ≡ (some (length plain), plain))

-- The piece of the stream that a subblock carries.
abbrev pub stream_piece : CompressionPlan → Bytes → ℕ → ℕ → Result Bytes
stream_piece plan input offset size =
    if plan.byte_shuffled
    then shuffled_range input plan.item_size offset size
    else ok (subspan input offset size)

-- `serialized` holds the compressed pieces of `input` from `offset` on, one for each subblock.
abbrev pub Encodes :
    Codecs → CompressionPlan → Bytes → ℕ → List CompressionSubblock → Bytes → Type 0
Encodes lib plan input offset [] serialized = (offset ≡ length input) × (serialized ≡ [])
Encodes lib plan input offset (subblock ∷ subblocks) serialized =
    (plain : Bytes) × (compressed : Bytes) × (rest : Bytes) × (length compressed
      ≡ subblock.compressed_size)
    × (length plain ≡ subblock.uncompressed_size)
    × (offset + subblock.uncompressed_size ≤ length input)
    × (stream_piece plan input offset subblock.uncompressed_size ≡ ok plain)
    × Inverts lib plan.codec plan.max_zstd_window_bytes compressed plain
    × (serialized ≡ compressed ++ rest)
    × Encodes lib plan input (offset + subblock.uncompressed_size) subblocks rest

pub decompress_subblock-Inverts :
    (lib : Codecs) (codec : CompressionCodec) (window : ℕ) (compressed plain out : Bytes)
    → Inverts lib codec window compressed plain
    → length out ≡ length plain
    → decompress_subblock lib codec compressed out window ≡ (ok (length plain), plain)
unfolding decompress_subblock decompress_zlib decompress_lz4 decompress_zstd
decompress_subblock-Inverts lib none_codec window compressed plain out h e = absurd h
decompress_subblock-Inverts lib zlib window compressed plain out h e = ground (arith, h.2 out e)
decompress_subblock-Inverts lib lz4 window compressed plain out h e = ground (arith, h.2 out e)
decompress_subblock-Inverts lib lz4hc window compressed plain out h e = ground (arith, h.2 out e)
decompress_subblock-Inverts lib zstd window compressed plain out h e = ground (arith, h.4 out e)

-- Where a byte of the plan's stream stands in the block.
abbrev place : CompressionPlan → Bytes → ℕ → ℕ
place plan input g = if plan.byte_shuffled then plain_index (length input) plan.item_size g else g

resume {ℓ κ} :
    {A : Type ℓ} {B : Type κ} {m : Result A × Bytes} (f : A → Bytes → Result B × Bytes) {a : A}
    {bytes : Bytes} {r : Result B × Bytes}
    → m ≡ (ok a, bytes)
    → f a bytes ≡ r
    → then_with m f ≡ r
resume f e h = rw e h

module _ (lib : Codecs) (plan : CompressionPlan) (input : Bytes) (stop : StopToken)
    (never : Never stop) (pos : 0 < plan.item_size) where
  module _ (serialized plain compressed : Bytes) (subblock : CompressionSubblock)
      (round input_offset output_offset : ℕ) (shuffled destination : Bytes)
      (at : subspan serialized input_offset subblock.compressed_size ≡ compressed)
      (size : length plain ≡ subblock.uncompressed_size)
      (fits : output_offset + subblock.uncompressed_size ≤ length input)
      (same : length destination ≡ length input)
      (inverts : Inverts lib plan.codec plan.max_zstd_window_bytes compressed plain) where
    abbrev StepDone : Bytes → Bytes → Type 0
    StepDone shuffled' destination' =
        (decode_subblock lib stop plan serialized subblock round shuffled input_offset output_offset
            destination
          ≡ (ok shuffled', destination'))
        × Restores input (place plan input) output_offset
            (output_offset + subblock.uncompressed_size) destination destination'

    runs_shuffled :
        {count : ℕ} {result : Bytes}
        → plan.byte_shuffled ≡ true
        → scatter_unshuffled_bytes plain destination plan.item_size output_offset
            (λ poll. stop (2 ∷ round ∷ poll))
          ≡ (ok count, result)
        → decode_subblock lib stop plan serialized subblock round shuffled input_offset
            output_offset destination
          ≡ (ok plain, result)
    unfolding decode_subblock
    runs_shuffled mode scattered =
        rw
          (
            never (1 ∷ round ∷ []),
            mode,
            at,
            decompress_subblock-Inverts lib plan.codec plan.max_zstd_window_bytes compressed plain
                (resize subblock.uncompressed_size shuffled) inverts
                (length-resize subblock.uncompressed_size shuffled ∙ sym size),
          )
          (rw (scattered, then_with))

    runs_plain :
        plan.byte_shuffled ≡ false
        → decode_subblock lib stop plan serialized subblock round shuffled input_offset
            output_offset destination
          ≡ (ok shuffled, splice destination output_offset plain)
    unfolding decode_subblock
    runs_plain mode = rw (
      never (1 ∷ round ∷ []),
      mode,
      at,
      decompress_subblock-Inverts lib plan.codec plan.max_zstd_window_bytes compressed plain
          (subspan destination output_offset subblock.uncompressed_size) inverts
          (length-subspan destination output_offset subblock.uncompressed_size (omega arith)
            ∙ sym size),
    )

    step_shuffled :
        plan.byte_shuffled ≡ true
        → shuffled_range input plan.item_size output_offset subblock.uncompressed_size ≡ ok plain
        → (shuffled' : Bytes) × (destination' : Bytes) × StepDone shuffled' destination'
    step_shuffled mode piece =
        let (plain', result, ranged, scattered, restores) =
          scatter-shuffled_range (λ poll. stop (2 ∷ round ∷ poll)) input destination plan.item_size
            output_offset subblock.uncompressed_size (λ poll. never _) pos fits same in
        let e : plain' ≡ plain = ok-injective (sym ranged ∙ piece) in
        (plain, result, (runs_shuffled mode (rw e at scattered), rw mode restores))

    step_plain :
        plan.byte_shuffled ≡ false
        → subspan input output_offset subblock.uncompressed_size ≡ plain
        → (shuffled' : Bytes) × (destination' : Bytes) × StepDone shuffled' destination'
    step_plain mode piece = (
      shuffled,
      splice destination output_offset plain,
      (
        runs_plain mode,
        rw (mode, ← piece)
            (splice-Restores input destination output_offset subblock.uncompressed_size fits same),
      ),
    )

    step :
        stream_piece plan input output_offset subblock.uncompressed_size ≡ ok plain
        → (shuffled' : Bytes) × (destination' : Bytes) × StepDone shuffled' destination'
    step piece = elim (Bool-cases plan.byte_shuffled) [
      | inl mode ↦ step_shuffled mode (rw mode at piece)
      | inr mode ↦ step_plain mode (ok-injective (rw mode at piece))
    ]

  -- The loop from a subblock on, where the stream behind `input_offset` is what they encode.
  decode_loop-Restores :
      (serialized : Bytes) (subblocks : List CompressionSubblock)
      (round input_offset output_offset : ℕ) (tail shuffled destination : Bytes)
      → drop input_offset serialized ≡ tail
      → Encodes lib plan input output_offset subblocks tail
      → length destination ≡ length input
      → (result : Bytes) × (decode_loop lib stop plan serialized subblocks round shuffled
            input_offset output_offset destination
          ≡ (ok (length input), result))
        × Restores input (place plan input) output_offset (length input) destination result
  unfolding decode_loop
  decode_loop-Restores serialized [] round input_offset output_offset tail shuffled destination at
        (end, _) same =
      (
        destination,
        rw end,
        record { same_length = same; kept = λ j a. a; placed = λ g p q. absurd (omega arith) },
      )
  decode_loop-Restores serialized (subblock ∷ subblocks) round input_offset output_offset tail
        shuffled destination at
        (plain, compressed, rest, csize, size, fits, piece, inverts, shape, more) same =
      let here : subspan serialized input_offset subblock.compressed_size ≡ compressed =
        rw (at, shape, ← csize) (take-append compressed rest) in
      let (shuffled', destination', done) =
        step serialized plain compressed subblock round input_offset output_offset shuffled
          destination here size fits same inverts piece in
      let behind : drop (input_offset + subblock.compressed_size) serialized ≡ rest =
        drop-drop input_offset subblock.compressed_size serialized
        ∙ rw (at, shape, ← csize) (drop-append compressed rest) in
      let (result, loops, others) =
        decode_loop-Restores serialized subblocks (round + 1)
          (input_offset + subblock.compressed_size) (output_offset + subblock.uncompressed_size)
          rest shuffled' destination' behind more done.1.same_length in
      (
        result,
        resume _ done.0 loops,
        Restores-trans (output_offset + subblock.uncompressed_size) done.1 others,
      )

-- The decoder restores the block: whatever the cut into subblocks, shuffled or not, and whatever
-- the destination held, it returns the block's size and leaves the block's bytes, for a stream
-- whose pieces the library decompresses, when stop is never requested.
pub decode_compressed_block-Encodes :
    (lib : Codecs) (plan : CompressionPlan) (input serialized destination : Bytes)
    (stop : StopToken)
    → Never stop
    → 0 < plan.item_size
    → Encodes lib plan input 0 plan.subblocks serialized
    → length destination ≡ length input
    → decode_compressed_block lib serialized plan destination stop ≡ (ok (length input), input)
unfolding decode_compressed_block
decode_compressed_block-Encodes lib plan input serialized destination stop never pos encodes same =
    let (result, runs, restores) =
      decode_loop-Restores lib plan input stop never pos serialized plan.subblocks 0 0 0 serialized
        [] destination refl encodes same in
    rw (never (0 ∷ [])) (runs ∙ ap (λ bytes. (ok (length input), bytes)) (whole restores))
  where
    whole :
        {result : Bytes}
        → Restores input (place plan input) 0 (length input) destination result
        → result ≡ input
    whole r = elim (Bool-cases plan.byte_shuffled) [
      | inl mode ↦ Unshuffles-eq plan.item_size pos (rw mode at r)
      | inr mode ↦ Restores-eq (λ j h. (j, h, refl)) (rw mode at r)
    ]
