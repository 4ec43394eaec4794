-- ===== src/Header.antt =====
-- `parse_header` of src/reader.cpp: the checks of the parsed XML, the attached ranges and the document.
-- The run of the XML parser with its handlers, which leaves the state `XmlBuilder`, and the checks of
-- the tables and bindings, which the document does not keep here, are arguments.
pub mod Checked
use mmxisf.Base.{
  ℕ, ◌+◌, ◌-◌, Bool, true, false, not, ◌||◌, Option, none, some, List, [], ◌∷◌, map, ltb, ◌==◌,
  if◌then◌else◌, take, all,
}
use mmxisf.Base.Text.{Bytes, codes, bytes_eq}
use mmxisf.Base.Error.{invalid_xisf, invalid_block, Error, Result, ok, err, ◌>>=◌, ◌>>◌, reject_if}
use mmxisf.Word.{u64}
use mmxisf.Document.{
  ImageInfo, MetadataEntry, IccProfileInfo, ThumbnailInfo, Document, ReaderOptions,
}

pub record AttachedRange : Type 0 where
  pub offset : ℕ
  pub size : ℕ

-- The part of the parser's state that `parse_header` reads, less the tables and the bindings.
pub record XmlBuilder : Type 0 where
  pub images : List ImageInfo
  pub embedded_blocks : List Bytes
  pub inline_metadata_blocks : List Bytes
  pub inline_icc_profile_blocks : List Bytes
  pub thumbnails : List ThumbnailInfo
  pub embedded_thumbnail_blocks : List Bytes
  pub thumbnail_uids : List (Bytes × ℕ)
  pub attached_ranges : List AttachedRange
  pub metadata : List MetadataEntry
  pub error : Option Error
  pub saw_root : Bool
  pub root_closed : Bool
  pub saw_xml_declaration : Bool
  pub icc_profiles : List IccProfileInfo
  pub metadata_count : ℕ
  pub saw_creation_time : Bool
  pub saw_creator_application : Bool
  pub core_uids : List Bytes
  pub references : List Bytes
  pub references_from_thumbnails : List Bytes

pub record ParsedHeader : Type 0 where
  pub document : Document
  pub embedded_blocks : List Bytes
  pub inline_metadata_blocks : List Bytes
  pub inline_icc_profile_blocks : List Bytes
  pub embedded_thumbnail_blocks : List Bytes
  pub attached_ranges : List AttachedRange

-- `contains` of a set of names
unfoldable pub has_uid : List Bytes → Bytes → Bool
has_uid [] reference = false
has_uid (uid ∷ uids) reference = bytes_eq uid reference || has_uid uids reference

unfoldable pub check_error : Option Error → Result (Unit {0})
check_error none = ok tt
check_error (some error) = err error

unfoldable pub check_builder : XmlBuilder → Result (Unit {0})
check_builder state = do
  check_error state.error
  reject_if (not state.saw_xml_declaration) invalid_xisf
      "XISF header is missing its XML declaration"
  reject_if (not state.saw_root || not state.root_closed) invalid_xisf
      "Incomplete XISF root element"
  reject_if (not (state.metadata_count == 1)) invalid_xisf
      "XISF header must contain exactly one Metadata element"
  reject_if (not state.saw_creation_time || not state.saw_creator_application) invalid_xisf
      "Metadata must define XISF:CreationTime and XISF:CreatorApplication"
  reject_if (not (all (has_uid state.core_uids) state.references)) invalid_xisf
      "Reference points to an undefined core element uid"
  reject_if
      (not (
        all (λ reference. not (has_uid (map (λ entry. entry.0) state.thumbnail_uids) reference))
          state.references_from_thumbnails))
      invalid_xisf "Thumbnail cannot contain a Reference to another Thumbnail"
  ok tt

-- `std::sort` by the offsets. The order of ranges with one offset, which it leaves open, does not
-- matter: two of them are refused, as an empty range or as an overlap.
unfoldable pub insert_range : AttachedRange → List AttachedRange → List AttachedRange
insert_range range [] = range ∷ []
insert_range range (other ∷ others) =
    let rest = insert_range range others in
    if ltb other.offset range.offset then other ∷ rest else range ∷ other ∷ others

unfoldable pub sort_ranges : List AttachedRange → List AttachedRange
sort_ranges [] = []
sort_ranges (range ∷ ranges) = insert_range range (sort_ranges ranges)

-- The loop over the sorted ranges.
unfoldable pub check_ranges : ℕ → ℕ → List AttachedRange → ℕ → Result Bool
check_ranges header_end file_size [] previous_end = ok true
check_ranges header_end file_size (range ∷ ranges) previous_end = do
  reject_if
      (range.size == 0
        || ltb range.offset header_end
        || ltb file_size range.offset
        || ltb (file_size - range.offset) range.size)
      invalid_block "Attachment range is outside the file payload"
  reject_if (ltb range.offset previous_end) invalid_block "Attached data blocks overlap"
  check_ranges header_end file_size ranges (u64 (range.offset + range.size))

unfoldable pub parsed_header : XmlBuilder → ℕ → ℕ → ParsedHeader
parsed_header state file_size header_length = record {
  document = record {
    images = state.images;
    metadata = state.metadata;
    file_size = file_size;
    header_length = header_length;
    icc_profiles = state.icc_profiles;
    thumbnails = state.thumbnails;
  };
  embedded_blocks = state.embedded_blocks;
  inline_metadata_blocks = state.inline_metadata_blocks;
  inline_icc_profile_blocks = state.inline_icc_profile_blocks;
  embedded_thumbnail_blocks = state.embedded_thumbnail_blocks;
  attached_ranges = sort_ranges state.attached_ranges;
}

-- The 32-bit length of the header does not overflow the 64-bit end.
unfoldable pub parse_header :
    (Bytes → ReaderOptions → XmlBuilder)
    → (XmlBuilder → ReaderOptions → Result (Unit {0}))
    → Bytes
    → ReaderOptions
    → ℕ
    → ℕ
    → Result ParsedHeader
parse_header run_parser check_tables xml options file_size header_length = do
  reject_if (not (bytes_eq (take 5 xml) (codes "<?xml"))) invalid_xisf
      "XISF header must begin with an XML declaration"
  let state = run_parser xml options
  check_builder state
  check_tables state options
  ordered ←
      check_ranges (16 + header_length) file_size (sort_ranges state.attached_ranges)
        (16 + header_length)
  ok (parsed_header state file_size header_length)
