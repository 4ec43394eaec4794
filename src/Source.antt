-- ===== src/Source.antt =====
-- `ByteSource` of include/mmxisf/byte_source.hpp, which the caller implements, and `read_exact` of
-- src/reader.cpp. A source is a record of its two operations; a call of `read_at` is addressed by
-- the loop counters around it, so that a source may answer each call in its own way.
pub mod Exact
pub mod Served
use mmxisf.Base.{
  ℕ, zero, suc, ◌+◌, ◌-◌, ◌≤◌, ◌<◌, ◌≡◌, ◌||◌, List, [], ◌∷◌, ltb, ◌==◌, if◌then◌else◌, length,
  take, drop,
}
use mmxisf.Base.Text.{Bytes}
use mmxisf.Base.Error.{io_error, overflow, Result, ok, err, fail, ◌>>=◌, ◌>>◌, StopToken}
use mmxisf.Word.{u64_max}
use mmxisf.Buffer.{subspan, splice, then_with}

-- `read_at` is given the offset and the bytes of the destination span, and returns the bytes of the
-- span with its result.
pub record ByteSource : Type 0 where
  pub size : Result ℕ
  pub read_at : List ℕ → ℕ → Bytes → Result ℕ × Bytes

-- The source as a callee sees it whose calls are the ones below `call`.
abbrev pub below_call : ℕ → ByteSource → ByteSource
below_call call source = record source { read_at = λ path. source.read_at (call ∷ path) }

abbrev pub stop_below : ℕ → StopToken → StopToken
stop_below call stop = λ path. stop (call ∷ path)

-- `while (total < size)` around a round that is given `total` and the buffer, and returns the number
-- of bytes that it has read with the buffer. Every round reads a byte or returns an error, so the
-- fuel is the number of bytes to read.
unfoldable pub fill_loop : (ℕ → Bytes → Result ℕ × Bytes) → ℕ → ℕ → ℕ → Bytes → Result ℕ × Bytes
fill_loop round size zero total buffer = (ok total, buffer)
fill_loop round size (suc fuel) total buffer =
    let rest =
      then_with (round total buffer)
        λ read filled. fill_loop round size fuel (total + read) filled in
    if ltb total size then rest else (ok total, buffer)

-- The check of the count that `read_at` returned for a span of `available` bytes.
abbrev pub checked_read : ℕ → Result ℕ → Result ℕ
checked_read available (err e) = err e
checked_read available (ok read) =
    if read == 0 || ltb available read
    then fail io_error "ByteSource returned an invalid short read"
    else ok read

-- One call of `read_at` for the `count` bytes of the destination from `total`, and the check of what
-- it returned.
unfoldable pub read_span : ByteSource → List ℕ → ℕ → ℕ → ℕ → Bytes → Result ℕ × Bytes
read_span source path offset total count destination =
    let (read, span) = source.read_at path offset (subspan destination total count) in
    (checked_read count read, splice destination total span)

-- A round of `read_exact`.
unfoldable pub exact_round : ByteSource → ℕ → ℕ → Bytes → Result ℕ × Bytes
exact_round source offset total destination =
    if ltb (u64_max - total) offset
    then (fail overflow "ByteSource read offset overflows", destination)
    else read_span source (total ∷ []) (offset + total) total (length destination - total)
        destination

unfoldable pub read_exact : ByteSource → ℕ → Bytes → Result ℕ × Bytes
read_exact source offset destination =
    fill_loop (exact_round source offset) (length destination) (length destination) 0 destination

-- What a reader may rely on: inside the contents, `read_at` stores at least one byte of them at the
-- start of the span, perhaps fewer than were asked for, and leaves the rest of the span.
abbrev pub Serves : ByteSource → Bytes → Type 0
Serves source contents =
    (path : List ℕ) (offset : ℕ) (span : Bytes)
    → 0 < length span
    → offset + length span ≤ length contents
    → (read : ℕ) × (0 < read)
      × (read ≤ length span)
      × (source.read_at path offset span
          ≡ (ok read, splice span 0 (take read (drop offset contents))))

-- `input` stands in the contents from `base` on.
abbrev pub Stored : Bytes → ℕ → Bytes → Type 0
Stored contents base input =
    (base + length input ≤ length contents) × (subspan contents base (length input) ≡ input)
