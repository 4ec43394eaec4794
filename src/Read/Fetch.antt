-- ===== src/Read/Fetch.antt =====
-- The middle of `read_property_block`, `read_icc_profile` and `read_thumbnail` of src/reader.cpp,
-- which is the same in the three: copy the serialized bytes, verify their checksum, and decode
-- them. A new `std::vector` of bytes holds zeros.
pub mod Carried
use mmxisf.Base.{ℕ, Bool, true, false, ◌||◌, if◌then◌else◌, replicate}
use mmxisf.Base.Text.{Bytes}
use mmxisf.Base.Error.{Result, ok, err, ◌>>=◌, ◌>>◌, StopToken}
use mmxisf.Buffer.{splice}
use mmxisf.Block.{CompressionCodec, none_codec, CompressionPlan, ChecksumPlan, Codecs}
use mmxisf.Block.Decode.{is_declared, verify_checksum, decode_compressed_block}

abbrev pub is_compressed : CompressionCodec → Bool
is_compressed none_codec = false
is_compressed codec = true

-- `needs_serialized_staging`
abbrev pub is_staged : CompressionPlan → ChecksumPlan → Bool
is_staged compression checksum = is_compressed compression.codec || is_declared checksum.algorithm

abbrev pub zeros : ℕ → Bytes
zeros n = replicate n 0

-- The buffer behind a call that returned no error.
abbrev pub keep_bytes : Result ℕ × Bytes → Result Bytes
keep_bytes (ok n, bytes) = ok bytes
keep_bytes (err e, bytes) = err e

-- `copy` is the copy of the serialized bytes into a buffer.
unfoldable pub read_block :
    Codecs
    → (Bytes → Result ℕ × Bytes)
    → CompressionPlan
    → ChecksumPlan
    → ℕ
    → ℕ
    → StopToken
    → Result Bytes
read_block lib copy compression checksum serialized_bytes expected_bytes stop =
    if is_staged compression checksum
    then (do
      serialized ← keep_bytes (copy (zeros serialized_bytes))
      verified ← verify_checksum lib checksum serialized
      if is_compressed compression.codec
          then keep_bytes
              (decode_compressed_block lib serialized compression (zeros expected_bytes) stop)
          else ok (splice (zeros expected_bytes) 0 serialized))
    else keep_bytes (copy (zeros expected_bytes))
