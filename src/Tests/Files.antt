-- ===== src/Tests/Files.antt =====
-- The theorem on opened files at a small file.
use mathlib.Core.List.{Perm}
use mmxisf.Base.{none, take, ℕ, ◌+◌, ◌≤◌, ◌<◌, ◌≡◌, refl, ◌⊎◌, true, [], ◌∷◌, ◌++◌, arith, get_or}
use mmxisf.Base.Text.{Bytes, codes}
use mmxisf.Base.Error.{Result, ok}
use mmxisf.Document.{default_options, ReaderOptions}
use mmxisf.Buffer.{subspan}
use mmxisf.Read.Metadata.{Reader}
use mmxisf.Header.{XmlBuilder, ParsedHeader, sort_ranges}
use mmxisf.Header.Checked.{IsComplete, IsChain, Covered}
use mmxisf.Open.{open_source}
use mmxisf.Open.Opened.{IsPreamble, IsCollected, IsReader, open_source_sound}
use mmxisf.Tests.Plans.{sample_document}
use mmxisf.Tests.Reads.{short_source, short_source-Serves}

-- The signature, a header of seven bytes, a zero, two blocks of two bytes, and two zeros.
abbrev small_file : Bytes
small_file =
    codes "XISF0100"
    ++ (7 ∷ 0 ∷ 0 ∷ 0 ∷ 0 ∷ 0 ∷ 0 ∷ 0 ∷ [])
    ++ codes "<?xml?>"
    ++ (0 ∷ 1 ∷ 2 ∷ 3 ∷ 4 ∷ 0 ∷ 0 ∷ [])

-- The state of the parser behind a header with two images' worth of ranges.
abbrev small_state : XmlBuilder
small_state = record {
  images = sample_document.images;
  embedded_blocks = [];
  inline_metadata_blocks = [];
  inline_icc_profile_blocks = [];
  thumbnails = sample_document.thumbnails;
  embedded_thumbnail_blocks = [];
  thumbnail_uids = (codes "small", 0) ∷ [];
  attached_ranges = record { offset = 26; size = 2 } ∷ record { offset = 24; size = 2 } ∷ [];
  metadata = sample_document.metadata;
  error = none;
  saw_root = true;
  root_closed = true;
  saw_xml_declaration = true;
  icc_profiles = sample_document.icc_profiles;
  metadata_count = 1;
  saw_creation_time = true;
  saw_creator_application = true;
  core_uids = codes "small" ∷ codes "profile" ∷ [];
  references = codes "profile" ∷ [];
  references_from_thumbnails = codes "profile" ∷ [];
}

abbrev parser : Bytes → ReaderOptions → XmlBuilder
parser xml options = small_state

abbrev no_tables : XmlBuilder → ReaderOptions → Result (Unit {0})
no_tables state options = ok tt

abbrev small_reader : Reader
small_reader = record {
  source = short_source small_file;
  options = default_options;
  document = record sample_document { file_size = 30; header_length = 7 };
  embedded_blocks = [];
  inline_metadata_blocks = [];
  inline_icc_profile_blocks = [];
  embedded_thumbnail_blocks = [];
}

opens : open_source parser no_tables (short_source small_file) default_options ≡ ok small_reader
unfolding open_source mmxisf.Open.open_sized mmxisf.Source.read_exact mmxisf.Source.fill_loop
    mmxisf.Source.exact_round mmxisf.Source.read_span mmxisf.Open.open_preamble
    mmxisf.Open.check_preamble mmxisf.Open.open_header mmxisf.Open.open_payload
    mmxisf.Open.validate_unused_spaces mmxisf.Open.validate_gaps mmxisf.Open.validate_gap
    mmxisf.Open.gap_loop mmxisf.Header.parse_header mmxisf.Header.check_builder
    mmxisf.Header.check_error mmxisf.Header.has_uid mmxisf.Header.sort_ranges
    mmxisf.Header.insert_range mmxisf.Header.check_ranges mmxisf.Header.parsed_header
opens = refl

open_source_sound_example :
    (header_length : ℕ) × (state : XmlBuilder) × (parsed : ParsedHeader) × IsPreamble
      default_options small_file header_length
    × (take 5 (subspan small_file 16 header_length) ≡ codes "<?xml")
    × (state ≡ small_state)
    × IsComplete state
    × IsCollected state 30 header_length parsed
    × IsReader (short_source small_file) default_options parsed small_reader
    × Perm (sort_ranges state.attached_ranges) state.attached_ranges
    × IsChain 30 (16 + header_length) (sort_ranges state.attached_ranges)
    × ((j : ℕ)
        → 16 + header_length ≤ j
        → j < 30
        → Covered state.attached_ranges j ⊎ (get_or small_file j 0 ≡ 0))
open_source_sound_example =
    open_source_sound parser no_tables (short_source small_file) default_options small_file
      (short_source-Serves small_file) refl (omega arith) opens
