-- ===== src/Block.antt =====
-- Data blocks: the compression and checksum plans of src/reader.cpp, and the decoder of a
-- compressed block. zlib, LZ4, Zstandard and OpenSSL are a record of functions.
pub mod Parse
pub mod Decode
pub mod Restore
use mmxisf.Base.{ℕ, Bool, false, Option, List, []}
use mmxisf.Base.Text.{Bytes}
use mmxisf.Base.Error.{◌>>=◌, ◌>>◌}

pub data CompressionCodec : Type 0 where
  none_codec zlib lz4 lz4hc zstd : CompressionCodec

pub record CompressionSubblock : Type 0 where
  pub compressed_size : ℕ
  pub uncompressed_size : ℕ

pub record CompressionPlan : Type 0 where
  pub codec : CompressionCodec
  pub byte_shuffled : Bool
  pub uncompressed_size : ℕ
  pub item_size : ℕ
  pub max_zstd_window_bytes : ℕ
  pub subblocks : List CompressionSubblock

-- `CompressionPlan plan;`
abbrev pub default_compression_plan : CompressionPlan
default_compression_plan = record {
  codec = none_codec;
  byte_shuffled = false;
  uncompressed_size = 0;
  item_size = 1;
  max_zstd_window_bytes = 0;
  subblocks = [];
}

pub data ChecksumAlgorithm : Type 0 where
  none_algorithm sha1 sha256 sha512 sha3_256 sha3_512 : ChecksumAlgorithm

pub record ChecksumPlan : Type 0 where
  pub algorithm : ChecksumAlgorithm
  pub expected_digest : Bytes

-- What an `inflate(&stream, Z_FINISH)` leaves: whether it returned `Z_STREAM_END`, `total_in`,
-- `total_out`, and the bytes of the output span.
pub record Inflated : Type 0 where
  pub stream_end : Bool
  pub consumed : ℕ
  pub produced : ℕ
  pub output : Bytes

-- The third-party functions. A decompressor is given the input and the bytes of the output span;
-- a `none` is a failed initialisation or an error code.
pub record Codecs : Type 0 where
  pub inflate : Bytes → Bytes → Option Inflated
  pub lz4_decompress_safe : Bytes → Bytes → Option ℕ × Bytes
  pub zstd_create : Bool
  pub zstd_set_window_log : ℕ → Bool
  pub zstd_decompress : ℕ → Bytes → Bytes → Option ℕ × Bytes
  pub evp_digest : ChecksumAlgorithm → Bytes → Option Bytes
