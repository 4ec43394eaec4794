-- ===== src/Open.antt =====
-- How src/reader.cpp opens a source: the preamble, the XML header and the unused space of the file.
-- The arguments of `parse_header` for the XML parser are handed on.
pub mod Zero
pub mod Opened
use mmxisf.Base.{
  ℕ, zero, suc, ◌+◌, ◌-◌, ◌*◌, ◌^◌, min, Bool, true, not, ◌||◌, List, [], ◌∷◌, ltb, ◌==◌,
  if◌then◌else◌, length, get_or, take, drop, all,
}
use mmxisf.Base.Text.{Bytes, codes, bytes_eq}
use mmxisf.Base.Error.{
  invalid_signature, invalid_preamble, header_too_large, resource_limit, invalid_block, Result, ok,
  ◌>>=◌, ◌>>◌, reject_if,
}
use mmxisf.Word.{u64}
use mmxisf.Buffer.{splice}
use mmxisf.Document.{ReaderOptions}
use mmxisf.Source.{ByteSource, below_call, read_exact}
use mmxisf.Read.Fetch.{zeros, keep_bytes}
use mmxisf.Header.{AttachedRange, XmlBuilder, ParsedHeader, parse_header}
use mmxisf.Read.Metadata.{Reader}

abbrev pub gap_buffer_bytes : ℕ
gap_buffer_bytes = 64 * 1024

abbrev pub is_zero : ℕ → Bool
is_zero value = value == 0

-- The loop of `validate_gap`: a round checks at least one byte, so the fuel is the size of the gap.
-- The buffer is handed on.
unfoldable pub gap_loop : ByteSource → ℕ → ℕ → ℕ → ℕ → Bytes → Result Bytes
gap_loop source offset size zero checked buffer = ok buffer
gap_loop source offset size (suc fuel) checked buffer =
    let chunk = min gap_buffer_bytes (size - checked) in
    let rest : Bytes → Result Bytes =
      λ filled. gap_loop source offset size fuel (checked + chunk) filled in
    if not (ltb checked size)
    then ok buffer
    else let (read, first) =
        read_exact (below_call checked source) (offset + checked) (take chunk buffer) in
      read >>= λ count.
      reject_if (not (all is_zero (take chunk (splice buffer 0 first)))) invalid_block
        "Unused monolithic file space must be zero-filled"
      >> rest (splice buffer 0 first)

-- The variables that `validate_gap` captures.
pub record GapState : Type 0 where
  pub validated_unused_bytes : ℕ
  pub buffer : Bytes

unfoldable pub validate_gap : ByteSource → ReaderOptions → ℕ → ℕ → GapState → Result GapState
validate_gap source options offset size state = do
  reject_if
      (ltb
        (options.max_unused_space_bytes
          - min state.validated_unused_bytes options.max_unused_space_bytes)
        size)
      resource_limit "Unused-space validation exceeds its byte budget"
  buffer ← gap_loop source offset size size 0 state.buffer
  ok (record {
    validated_unused_bytes = u64 (state.validated_unused_bytes + size);
    buffer = buffer;
  })

-- The loop over the attached ranges, and the gap behind the last; `round` numbers the gaps.
unfoldable pub validate_gaps :
    ByteSource → ReaderOptions → ℕ → List AttachedRange → ℕ → ℕ → GapState → Result Bool
validate_gaps source options file_size [] round cursor state =
    if ltb cursor file_size
    then (validate_gap (below_call round source) options cursor (file_size - cursor) state
        >>= λ valid. ok true)
    else ok true
validate_gaps source options file_size (range ∷ ranges) round cursor state =
    (if ltb cursor range.offset
      then validate_gap (below_call round source) options cursor (range.offset - cursor) state
      else ok state)
    >>= λ validated.
        validate_gaps source options file_size ranges (round + 1) (u64 (range.offset + range.size))
          validated

unfoldable pub validate_unused_spaces :
    ByteSource → ℕ → ℕ → List AttachedRange → ReaderOptions → Result Bool
validate_unused_spaces source header_end file_size attached_ranges options =
    validate_gaps source options file_size attached_ranges 0 header_end
      (record { validated_unused_bytes = 0; buffer = zeros gap_buffer_bytes })

-- The four bytes are combined without overlap.
abbrev pub read_le_u32 : Bytes → ℕ
read_le_u32 bytes =
    get_or bytes 0 0
    + get_or bytes 1 0 * 2 ^ 8
    + get_or bytes 2 0 * 2 ^ 16
    + get_or bytes 3 0 * 2 ^ 24

abbrev pub signature : Bytes
signature = codes "XISF0100"

-- The checks of the preamble, which give the length of the header.
unfoldable pub check_preamble : ReaderOptions → ℕ → Bytes → Result ℕ
check_preamble options source_size preamble = do
  reject_if (not (bytes_eq (take 8 preamble) signature)) invalid_signature
      "File does not have the XISF0100 signature"
  let header_length = read_le_u32 (drop 8 preamble)
  reject_if (not (all is_zero (drop 12 preamble))) invalid_preamble
      "Reserved XISF preamble bytes must be zero"
  reject_if (header_length == 0 || ltb options.max_header_bytes header_length) header_too_large
      "XISF XML header length is outside the configured limit"
  reject_if (ltb (source_size - 16) header_length) invalid_preamble
      "XISF XML header extends beyond the file"
  ok header_length

module _ (run_parser : Bytes → ReaderOptions → XmlBuilder)
    (check_tables : XmlBuilder → ReaderOptions → Result (Unit {0})) (source : ByteSource)
    (options : ReaderOptions) where
  -- `open_source` of a source that is not null, from its last part on; the reads are numbered.
  unfoldable pub open_payload : ℕ → ℕ → ParsedHeader → Result Reader
  open_payload source_size header_length parsed =
      validate_unused_spaces (below_call 2 source) (16 + header_length) source_size
        parsed.attached_ranges options
      >>= λ valid. ok (record {
        source = source;
        options = options;
        document = parsed.document;
        embedded_blocks = parsed.embedded_blocks;
        inline_metadata_blocks = parsed.inline_metadata_blocks;
        inline_icc_profile_blocks = parsed.inline_icc_profile_blocks;
        embedded_thumbnail_blocks = parsed.embedded_thumbnail_blocks;
      })

  unfoldable pub open_header : ℕ → ℕ → Result Reader
  open_header source_size header_length = do
    xml ← keep_bytes (read_exact (below_call 1 source) 16 (zeros header_length))
    parsed ← parse_header run_parser check_tables xml options source_size header_length
    open_payload source_size header_length parsed

  unfoldable pub open_preamble : ℕ → Bytes → Result Reader
  open_preamble source_size preamble =
      check_preamble options source_size preamble >>= open_header source_size

  unfoldable pub open_sized : ℕ → Result Reader
  open_sized source_size = do
    reject_if (ltb source_size 16) invalid_preamble "File is shorter than the XISF preamble"
    preamble ← keep_bytes (read_exact (below_call 0 source) 0 (zeros 16))
    open_preamble source_size preamble

  unfoldable pub open_source : Result Reader
  open_source = source.size >>= open_sized
