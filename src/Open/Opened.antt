-- ===== src/Open/Opened.antt =====
-- What an opened file is.
use mathlib.Core.List.{Perm}
use mmxisf.Base.{
  inl, inr, ℕ, zero, suc, ◌+◌, ◌-◌, ◌≤◌, ◌<◌, ◌≡◌, refl, sym, ap, ◌∙◌, subst, ◌⊎◌, Bool, true, List,
  [], ◌∷◌, arith, ltb, length, get_or, take, drop, all, length-take, length-replicate,
}
use mmxisf.Base.Text.{Bytes, codes, bytes_eq, bytes_eq_iff}
use mmxisf.Base.Error.{
  invalid_preamble, Result, ok, ◌>>=◌, >>=-eq-ok, reject_if-eq-ok, ok-injective,
}
use mmxisf.Word.{u64_max}
use mmxisf.Buffer.{subspan, length-subspan}
use mmxisf.Document.{ReaderOptions}
use mmxisf.Source.{ByteSource, Serves, below_call, read_exact}
use mmxisf.Source.Served.{read_exact-Stored}
use mmxisf.Read.Fetch.{zeros, keep_bytes}
use mmxisf.Read.Metadata.{Reader}
use mmxisf.Header.{
  AttachedRange, XmlBuilder, ParsedHeader, sort_ranges, parsed_header, parse_header,
}
use mmxisf.Header.Checked.{
  Covered, Covered-sort_ranges, sort_ranges-Perm, IsChain, IsComplete, parse_header-parts,
}
use mmxisf.Open.{
  is_zero, validate_unused_spaces, read_le_u32, signature, check_preamble, open_payload,
  open_header, open_preamble, open_sized, open_source,
}
use mmxisf.Open.Zero.{IsWithin, validate_unused_spaces-zero}

IsChain-IsWithin :
    (file_size start : ℕ) (ranges : List AttachedRange)
    → IsChain file_size start ranges
    → IsWithin file_size ranges
IsChain-IsWithin file_size start [] chain = tt
IsChain-IsWithin file_size start (range ∷ ranges) (apart, pos, end, others) =
    (end, IsChain-IsWithin file_size (range.offset + range.size) ranges others)

-- What the preamble of an opened file holds.
pub record IsPreamble (options : ReaderOptions) (contents : Bytes) (header_length : ℕ)
    : Type 0 where
  pub signed : take 8 contents ≡ signature
  pub length_field : header_length ≡ read_le_u32 (drop 8 (take 16 contents))
  pub reserved : all is_zero (drop 12 (take 16 contents)) ≡ true
  pub positive : 0 < header_length
  pub limited : header_length ≤ options.max_header_bytes
  pub inside : 16 + header_length ≤ length contents

check_preamble-parts :
    (options : ReaderOptions) (source_size : ℕ) (preamble : Bytes) {header_length : ℕ}
    → check_preamble options source_size preamble ≡ ok header_length
    → (bytes_eq (take 8 preamble) signature ≡ true)
      × (header_length ≡ read_le_u32 (drop 8 preamble))
      × (all is_zero (drop 12 preamble) ≡ true)
      × (0 < header_length)
      × (header_length ≤ options.max_header_bytes)
      × (header_length ≤ source_size - 16)
unfolding check_preamble
check_preamble-parts options source_size preamble h = ground arith

prefix : (n m : ℕ) (bytes : Bytes) → n ≤ m → take n (take m bytes) ≡ take n bytes
prefix zero m bytes h = refl
prefix (suc n) zero bytes h = absurd (omega arith)
prefix (suc n) (suc m) [] h = refl
prefix (suc n) (suc m) (b ∷ bs) h = ap (◌∷◌ b) (prefix n m bs (omega arith))

-- The reader of an opened file: the source and the options, the entries and the stored blocks that
-- the parser has collected, and the sizes of the file and of its header.
pub record IsReader (source : ByteSource) (options : ReaderOptions) (parsed : ParsedHeader)
    (reader : Reader) : Type 0 where
  pub same_source : reader.source ≡ source
  pub same_options : reader.options ≡ options
  pub document : reader.document ≡ parsed.document
  pub embedded : reader.embedded_blocks ≡ parsed.embedded_blocks
  pub inline_metadata : reader.inline_metadata_blocks ≡ parsed.inline_metadata_blocks
  pub inline_profiles : reader.inline_icc_profile_blocks ≡ parsed.inline_icc_profile_blocks
  pub embedded_thumbnails : reader.embedded_thumbnail_blocks ≡ parsed.embedded_thumbnail_blocks

pub record IsCollected (state : XmlBuilder) (file_size header_length : ℕ) (parsed : ParsedHeader)
    : Type 0 where
  pub images : parsed.document.images ≡ state.images
  pub metadata : parsed.document.metadata ≡ state.metadata
  pub icc_profiles : parsed.document.icc_profiles ≡ state.icc_profiles
  pub thumbnails : parsed.document.thumbnails ≡ state.thumbnails
  pub whole : parsed.document.file_size ≡ file_size
  pub header : parsed.document.header_length ≡ header_length
  pub embedded : parsed.embedded_blocks ≡ state.embedded_blocks
  pub inline_metadata : parsed.inline_metadata_blocks ≡ state.inline_metadata_blocks
  pub inline_profiles : parsed.inline_icc_profile_blocks ≡ state.inline_icc_profile_blocks
  pub embedded_thumbnails : parsed.embedded_thumbnail_blocks ≡ state.embedded_thumbnail_blocks
  pub sorted : parsed.attached_ranges ≡ sort_ranges state.attached_ranges

parsed_header-IsCollected :
    (state : XmlBuilder) (file_size header_length : ℕ) (parsed : ParsedHeader)
    → parsed_header state file_size header_length ≡ parsed
    → IsCollected state file_size header_length parsed
unfolding parsed_header
parsed_header-IsCollected state file_size header_length parsed same =
    let e = sym same in
    record {
      images = ap (λ p. p.document.images) e;
      metadata = ap (λ p. p.document.metadata) e;
      icc_profiles = ap (λ p. p.document.icc_profiles) e;
      thumbnails = ap (λ p. p.document.thumbnails) e;
      whole = ap (λ p. p.document.file_size) e;
      header = ap (λ p. p.document.header_length) e;
      embedded = ap (λ p. p.embedded_blocks) e;
      inline_metadata = ap (λ p. p.inline_metadata_blocks) e;
      inline_profiles = ap (λ p. p.inline_icc_profile_blocks) e;
      embedded_thumbnails = ap (λ p. p.embedded_thumbnail_blocks) e;
      sorted = ap (λ p. p.attached_ranges) e;
    }

module _ (run_parser : Bytes → ReaderOptions → XmlBuilder)
    (check_tables : XmlBuilder → ReaderOptions → Result (Unit {0})) (source : ByteSource)
    (options : ReaderOptions) where
  open_payload-parts :
      (source_size header_length : ℕ) (parsed : ParsedHeader) {reader : Reader}
      → open_payload run_parser check_tables source options source_size header_length parsed
        ≡ ok reader
      → (valid : Bool) × (validate_unused_spaces
            (below_call 2 source)
            (16 + header_length)
            source_size
            parsed.attached_ranges
            options
          ≡ ok valid)
        × IsReader source options parsed reader
  unfolding open_payload
  open_payload-parts source_size header_length parsed h =
      let (valid, validates, opened) =
        >>=-eq-ok
          (validate_unused_spaces (below_call 2 source) (16 + header_length) source_size
            parsed.attached_ranges options)
          _ h in
      let built = sym (ok-injective opened) in
      (
        valid,
        validates,
        record {
          same_source = ap (λ r. r.source) built;
          same_options = ap (λ r. r.options) built;
          document = ap (λ r. r.document) built;
          embedded = ap (λ r. r.embedded_blocks) built;
          inline_metadata = ap (λ r. r.inline_metadata_blocks) built;
          inline_profiles = ap (λ r. r.inline_icc_profile_blocks) built;
          embedded_thumbnails = ap (λ r. r.embedded_thumbnail_blocks) built;
        },
      )

  open_header-parts :
      (contents : Bytes) (header_length : ℕ) {reader : Reader}
      → Serves source contents
      → length contents ≤ u64_max
      → 16 + header_length ≤ length contents
      → open_header run_parser check_tables source options (length contents) header_length
        ≡ ok reader
      → (parsed : ParsedHeader) × (parse_header run_parser check_tables
            (subspan contents 16 header_length)
            options
            (length contents)
            header_length
          ≡ ok parsed)
        × (open_payload run_parser check_tables source options
              (length contents)
              header_length
              parsed
            ≡ ok reader)
  unfolding open_header
  open_header-parts contents header_length serves small inside h =
      let size : length (subspan contents 16 header_length) ≡ header_length =
        length-subspan contents 16 header_length inside in
      let reads =
        read_exact-Stored (below_call 1 source) contents 16 (subspan contents 16 header_length)
          (zeros header_length) (λ path. serves (1 ∷ path)) small
          (omega (arith, size), ap (subspan contents 16) size)
          (length-replicate header_length 0 ∙ sym size) in
      >>=-eq-ok
        (parse_header run_parser check_tables (subspan contents 16 header_length) options
          (length contents) header_length)
        (open_payload run_parser check_tables source options (length contents) header_length)
        (rw reads at h)

  open_source-parts :
      (contents : Bytes) {reader : Reader}
      → Serves source contents
      → source.size ≡ ok (length contents)
      → length contents ≤ u64_max
      → open_source run_parser check_tables source options ≡ ok reader
      → (header_length : ℕ) × (16 ≤ length contents)
        × (check_preamble options (length contents) (take 16 contents) ≡ ok header_length)
        × (open_header run_parser check_tables source options (length contents) header_length
            ≡ ok reader)
  unfolding open_source open_sized open_preamble
  open_source-parts contents {reader} serves sized small h =
      let sized_run : open_sized run_parser check_tables source options (length contents)
          ≡ ok reader =
        subst (λ r. (r >>= open_sized run_parser check_tables source options) ≡ ok reader) sized
          h in
      let (long, reads_on) =
        reject_if-eq-ok (ltb (length contents) 16) invalid_preamble
          "File is shorter than the XISF preamble"
          (keep_bytes (read_exact (below_call 0 source) 0 (zeros 16))
            >>= open_preamble run_parser check_tables source options (length contents))
          sized_run in
      let enough : 16 ≤ length contents = ground arith in
      let size : length (take 16 contents) ≡ 16 = omega (arith, length-take 16 contents) in
      let reads =
        read_exact-Stored (below_call 0 source) contents 0 (take 16 contents) (zeros 16)
          (λ path. serves (0 ∷ path)) small (omega (arith, size), ap (λ n. take n contents) size)
          (sym size) in
      let (header_length, checked, opened) =
        >>=-eq-ok (check_preamble options (length contents) (take 16 contents))
          (open_header run_parser check_tables source options (length contents))
          (rw reads at reads_on) in
      (header_length, enough, checked, opened)

-- What was opened: the preamble is the format's; the header that it announces begins with an XML
-- declaration and leaves the parser in a complete state, whose parts are the document's; the attached
-- ranges of that state, sorted, stand one behind the other behind the header; and every byte of the
-- file behind the header is in one of the ranges or zero. The source serves its contents, and the
-- parser and the checks of the tables are any.
pub open_source_sound :
    (run_parser : Bytes → ReaderOptions → XmlBuilder)
    (check_tables : XmlBuilder → ReaderOptions → Result (Unit {0})) (source : ByteSource)
    (options : ReaderOptions) (contents : Bytes) {reader : Reader}
    → Serves source contents
    → source.size ≡ ok (length contents)
    → length contents ≤ u64_max
    → open_source run_parser check_tables source options ≡ ok reader
    → (header_length : ℕ) × (state : XmlBuilder) × (parsed : ParsedHeader) × IsPreamble options
        contents header_length
      × (take 5 (subspan contents 16 header_length) ≡ codes "<?xml")
      × (state ≡ run_parser (subspan contents 16 header_length) options)
      × IsComplete state
      × IsCollected state (length contents) header_length parsed
      × IsReader source options parsed reader
      × Perm (sort_ranges state.attached_ranges) state.attached_ranges
      × IsChain (length contents) (16 + header_length) (sort_ranges state.attached_ranges)
      × ((j : ℕ)
          → 16 + header_length ≤ j
          → j < length contents
          → Covered state.attached_ranges j ⊎ (get_or contents j 0 ≡ 0))
open_source_sound run_parser check_tables source options contents serves sized small h =
    let (header_length, long, checked, opened) =
      open_source-parts run_parser check_tables source options contents serves sized small h in
    let (signed, field, reserved, positive, limited, within) =
      check_preamble-parts options (length contents) (take 16 contents) checked in
    let inside : 16 + header_length ≤ length contents = omega arith in
    let (parsed, parses, payload) =
      open_header-parts run_parser check_tables source options contents header_length serves small
        inside opened in
    let xml = subspan contents 16 header_length in
    let state = run_parser xml options in
    let (starts, complete, chain, same) =
      parse_header-parts run_parser check_tables xml options (length contents) header_length small
        parses in
    let collected = parsed_header-IsCollected state (length contents) header_length parsed same in
    let (valid, validates, built) =
      open_payload-parts run_parser check_tables source options (length contents) header_length
        parsed payload in
    let zeros =
      validate_unused_spaces-zero (below_call 2 source) contents (16 + header_length)
        (sort_ranges state.attached_ranges) options (λ path. serves (2 ∷ path)) small
        (IsChain-IsWithin (length contents) (16 + header_length) (sort_ranges state.attached_ranges)
          chain)
        (rw collected.sorted at validates) in
    (
      header_length,
      state,
      parsed,
      record {
        signed =
            sym (prefix 8 16 contents (omega arith))
            ∙ (bytes_eq_iff (take 8 (take 16 contents)) signature).0 signed;
        length_field = field;
        reserved = reserved;
        positive = positive;
        limited = limited;
        inside = inside;
      },
      starts,
      refl,
      complete,
      collected,
      built,
      sort_ranges-Perm state.attached_ranges,
      chain,
      λ j behind below. elim (zeros j behind below) [
        | inl covered ↦ inl (Covered-sort_ranges state.attached_ranges j covered)
        | inr zero_byte ↦ inr zero_byte
      ],
    )
