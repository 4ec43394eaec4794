-- ===== src/Shuffle.antt =====
-- Byte shuffling: `shuffled_range` of src/writer.cpp and `scatter_unshuffled_bytes` of
-- src/reader.cpp. A span is a list of bytes; a function that writes through a span returns it
-- with its result, on an error too.
pub mod Permute
pub mod RoundTrip
use mmxisf.Base.{
  ℕ, zero, suc, ◌+◌, ◌-◌, ◌*◌, ◌/◌, ◌%◌, ◌^◌, Bool, true, false, ◌&&◌, ◌||◌, [], ◌∷◌, ltb, ◌==◌,
  if◌then◌else◌, length, get_or, set,
}
use mmxisf.Base.Text.{Bytes}
use mmxisf.Base.Error.{Result, ok, invalid_argument, invalid_block, cancelled, fail, StopToken}

-- Where the byte at `global_offset` of the shuffled stream stands in the plain one.
unfoldable pub plain_index : ℕ → ℕ → ℕ → ℕ
plain_index size item_size global_offset =
    let item_count = size / item_size in
    let shuffled_prefix_size = item_count * item_size in
    if ltb global_offset shuffled_prefix_size
    then (let byte_index = global_offset / item_count in
        let item_index = global_offset % item_count in item_index * item_size + byte_index)
    else global_offset

-- The loop of `shuffled_range`, with `left` rounds left and `offset` the global offset.
unfoldable pub shuffle_loop : Bytes → ℕ → ℕ → ℕ → Bytes
shuffle_loop input item_size zero offset = []
shuffle_loop input item_size (suc left) offset =
    get_or input (plain_index (length input) item_size offset) 0
    ∷ shuffle_loop input item_size left (offset + 1)

unfoldable pub shuffled_range : Bytes → ℕ → ℕ → ℕ → Result Bytes
shuffled_range input item_size shuffled_offset shuffled_size =
    if item_size == 0
      || ltb (length input) shuffled_offset
      || ltb (length input - shuffled_offset) shuffled_size
    then fail invalid_argument "Writer byte shuffle has invalid item geometry"
    else ok (shuffle_loop input item_size shuffled_size shuffled_offset)

-- `kCancellationInterval`
abbrev pub cancellation_interval : ℕ
cancellation_interval = 2 ^ 20

-- The loop of `scatter_unshuffled_bytes` over the bytes that are left; `false` is a cancellation.
unfoldable pub scatter_loop : StopToken → ℕ → ℕ → Bytes → ℕ → Bytes → Bool × Bytes
scatter_loop stop item_size shuffled_offset [] local_offset output = (true, output)
scatter_loop stop item_size shuffled_offset (byte ∷ bytes) local_offset output =
    let rest =
      scatter_loop stop item_size shuffled_offset bytes (local_offset + 1) (
        set output (plain_index (length output) item_size (shuffled_offset + local_offset)) byte) in
    if local_offset % cancellation_interval == 0 && stop (local_offset ∷ [])
    then (false, output)
    else rest

-- The return behind the loop.
unfoldable pub finish_scatter : ℕ → Bool × Bytes → Result ℕ × Bytes
finish_scatter count (true, output) = (ok count, output)
finish_scatter count (false, output) = (fail cancelled "Block read was cancelled", output)

unfoldable pub scatter_unshuffled_bytes : Bytes → Bytes → ℕ → ℕ → StopToken → Result ℕ × Bytes
scatter_unshuffled_bytes shuffled output item_size shuffled_offset stop =
    if item_size == 0
      || ltb (length output) shuffled_offset
      || ltb (length output - shuffled_offset) (length shuffled)
    then (fail invalid_block "Invalid byte-shuffled block geometry", output)
    else finish_scatter (length shuffled)
        (scatter_loop stop item_size shuffled_offset shuffled 0 output)
