-- ===== src/Header/Checked.antt =====
-- What `parse_header` has checked when it returns.
use mathlib.Core.List.{Perm}
use mathlib.Core.List.Perm
use mmxisf.Base.{
  ℕ, ◌+◌, ◌-◌, ◌≤◌, ◌<◌, ◌≡◌, refl, sym, subst, ◌↔◌, ◌⊎◌, inl, inr, Bool, true, false, not, ◌||◌,
  none, List, [], ◌∷◌, map, arith, ltb, ◌==◌, Bool-cases, and-eq-true, take, all, All, IsOneOf,
}
use mmxisf.Base.Text.{Bytes, codes, bytes_eq, bytes_eq_iff}
use mmxisf.Base.Error.{
  invalid_xisf, invalid_block, Result, ok, >>=-eq-ok, reject_if-eq-ok, ok-injective,
}
use mmxisf.Word.{u64_max, u64}
use mmxisf.Document.{ReaderOptions}
use mmxisf.Header.{
  AttachedRange, XmlBuilder, ParsedHeader, has_uid, check_error, check_builder, insert_range,
  sort_ranges, check_ranges, parsed_header, parse_header,
}

has_uid_iff :
    (uids : List Bytes) (reference : Bytes)
    → (has_uid uids reference ≡ true) ↔ IsOneOf uids reference
unfolding has_uid
has_uid_iff [] reference = (λ h. cc, λ h. absurd h)
has_uid_iff (uid ∷ uids) reference =
    let (to, from) = has_uid_iff uids reference in
    let (same, back) = bytes_eq_iff uid reference in
    (
      λ h. elim (Bool-cases (bytes_eq uid reference)) [
        | inl e ↦ inl (sym (same e))
        | inr differ ↦ inr (to (rw differ at h))
      ],
      λ h. elim h [ inl e ↦ rw (back (sym e)) refl | inr later ↦ ground (arith, from later) ],
    )

all-All {ℓ} :
    {A : Type ℓ} (test : A → Bool) (P : A → Type 0) (xs : List A)
    → ((x : A) → test x ≡ true → P x)
    → all test xs ≡ true
    → All P xs
all-All test P [] holds h = tt
all-All test P (x ∷ xs) holds h =
    let (first, rest) = and-eq-true (test x) (all test xs) h in
    (holds x first, all-All test P xs holds rest)

-- A header that the parser has read to its end: declared, with a closed root and one Metadata element
-- that names its time and application, and with references that point to core elements, those in
-- thumbnails to none of the thumbnails.
pub record IsComplete (state : XmlBuilder) : Type 0 where
  pub accepted : state.error ≡ none
  pub declared : state.saw_xml_declaration ≡ true
  pub rooted : state.saw_root ≡ true
  pub closed : state.root_closed ≡ true
  pub one_metadata : state.metadata_count ≡ 1
  pub timed : state.saw_creation_time ≡ true
  pub named : state.saw_creator_application ≡ true
  pub defined : All (IsOneOf state.core_uids) state.references
  pub apart :
      All
        (λ reference. ¬ IsOneOf (map (λ entry. entry.0) state.thumbnail_uids) reference)
        state.references_from_thumbnails

check_builder-parts :
    (state : XmlBuilder) {valid : Unit {0}}
    → check_builder state ≡ ok valid
    → (state.error ≡ none)
      × (state.saw_xml_declaration ≡ true)
      × (state.saw_root ≡ true)
      × (state.root_closed ≡ true)
      × (state.metadata_count ≡ 1)
      × (state.saw_creation_time ≡ true)
      × (state.saw_creator_application ≡ true)
      × (all (has_uid state.core_uids) state.references ≡ true)
      × (all
            (λ reference. not (has_uid (map (λ entry. entry.0) state.thumbnail_uids) reference))
            state.references_from_thumbnails
          ≡ true)
unfolding check_builder check_error
check_builder-parts state h = ground arith

not-eq-true : (b : Bool) → not b ≡ true → b ≡ false
not-eq-true b h = ground arith

check_builder-IsComplete :
    (state : XmlBuilder) {valid : Unit {0}} → check_builder state ≡ ok valid → IsComplete state
check_builder-IsComplete state h =
    let (accepted, declared, rooted, closed, one, timed, named, defined, apart) =
      check_builder-parts state h in
    let uids = map (λ entry. entry.0) state.thumbnail_uids in
    record {
      accepted = accepted;
      declared = declared;
      rooted = rooted;
      closed = closed;
      one_metadata = one;
      timed = timed;
      named = named;
      defined =
          all-All (has_uid state.core_uids) (IsOneOf state.core_uids) state.references
            (λ reference found. (has_uid_iff state.core_uids reference).0 found) defined;
      apart =
          all-All (λ reference. not (has_uid uids reference))
            (λ reference. ¬ IsOneOf uids reference) state.references_from_thumbnails
            (λ reference absent found. cc (absent, (has_uid_iff uids reference).1 found)) apart;
    }

-- The byte lies in one of the ranges.
abbrev pub Covered : List AttachedRange → ℕ → Type 0
Covered [] j = ⊥
Covered (range ∷ ranges) j =
    ((range.offset ≤ j) × (j < range.offset + range.size)) ⊎ Covered ranges j

insert_range-Perm :
    (range : AttachedRange) (ranges : List AttachedRange)
    → Perm (insert_range range ranges) (range ∷ ranges)
unfolding insert_range
insert_range-Perm range [] = Perm.refl (range ∷ [])
insert_range-Perm range (other ∷ others) = elim (Bool-cases (ltb other.offset range.offset)) [
  | inl before ↦
      rw before (
        Perm.trans (Perm.cons other (insert_range-Perm range others))
          (Perm.swap range other others))
  | inr behind ↦ rw behind (Perm.refl (range ∷ other ∷ others))
]

pub sort_ranges-Perm : (ranges : List AttachedRange) → Perm (sort_ranges ranges) ranges
unfolding sort_ranges
sort_ranges-Perm [] = Perm.refl []
sort_ranges-Perm (range ∷ ranges) =
    Perm.trans (insert_range-Perm range (sort_ranges ranges))
      (Perm.cons range (sort_ranges-Perm ranges))

Covered-insert_range :
    (range : AttachedRange) (ranges : List AttachedRange) (j : ℕ)
    → Covered (insert_range range ranges) j
    → Covered (range ∷ ranges) j
unfolding insert_range
Covered-insert_range range [] j h = h
Covered-insert_range range (other ∷ others) j h =
    elim (Bool-cases (ltb other.offset range.offset)) [
      | inr behind ↦ rw behind at h
      | inl before ↦ elim (rw before at h) [
        | inl first ↦ inr (inl first)
        | inr later ↦ elim (Covered-insert_range range others j later) [
          | inl here ↦ inl here
          | inr rest ↦ inr (inr rest)
        ]
      ]
    ]

pub Covered-sort_ranges :
    (ranges : List AttachedRange) (j : ℕ) → Covered (sort_ranges ranges) j → Covered ranges j
unfolding sort_ranges
Covered-sort_ranges [] j h = h
Covered-sort_ranges (range ∷ ranges) j h =
    elim (Covered-insert_range range (sort_ranges ranges) j h) [
      | inl here ↦ inl here
      | inr rest ↦ inr (Covered-sort_ranges ranges j rest)
    ]

-- The ranges stand one behind the other between `start` and the end of the file.
abbrev pub IsChain : ℕ → ℕ → List AttachedRange → Type 0
IsChain file_size start [] = Unit
IsChain file_size start (range ∷ ranges) =
    (start ≤ range.offset)
    × (0 < range.size)
    × (range.offset + range.size ≤ file_size)
    × IsChain file_size (range.offset + range.size) ranges

-- Accepted ranges do not overlap and lie in the payload.
check_ranges-IsChain :
    (header_end file_size : ℕ) (ranges : List AttachedRange) (previous_end : ℕ) {valid : Bool}
    → file_size ≤ u64_max
    → check_ranges header_end file_size ranges previous_end ≡ ok valid
    → IsChain file_size previous_end ranges
unfolding check_ranges
check_ranges-IsChain header_end file_size [] previous_end small h = tt
check_ranges-IsChain header_end file_size (range ∷ ranges) previous_end {valid} small h =
    let (inside, rest) =
      reject_if-eq-ok outside invalid_block "Attachment range is outside the file payload" _ h in
    let (apart, others) =
      reject_if-eq-ok (ltb range.offset previous_end) invalid_block "Attached data blocks overlap"
        (check_ranges header_end file_size ranges (u64 (range.offset + range.size))) rest in
    let end-le : range.offset + range.size ≤ file_size = ground arith in
    let exact : u64 (range.offset + range.size) ≡ range.offset + range.size = omega arith in
    (
      ground arith,
      ground arith,
      end-le,
      check_ranges-IsChain header_end file_size ranges (range.offset + range.size) small
          (subst (λ n. check_ranges header_end file_size ranges n ≡ ok valid) exact others),
    )
  where
    outside : Bool
    outside =
        range.size == 0
        || ltb range.offset header_end
        || ltb file_size range.offset
        || ltb (file_size - range.offset) range.size

-- The parts of a header that was parsed.
pub parse_header-parts :
    (run_parser : Bytes → ReaderOptions → XmlBuilder)
    (check_tables : XmlBuilder → ReaderOptions → Result (Unit {0})) (xml : Bytes)
    (options : ReaderOptions) (file_size header_length : ℕ) {parsed : ParsedHeader}
    → file_size ≤ u64_max
    → parse_header run_parser check_tables xml options file_size header_length ≡ ok parsed
    → (take 5 xml ≡ codes "<?xml")
      × IsComplete (run_parser xml options)
      × IsChain file_size
          (16 + header_length)
          (sort_ranges (run_parser xml options).attached_ranges)
      × (parsed_header (run_parser xml options) file_size header_length ≡ parsed)
unfolding parse_header
parse_header-parts run_parser check_tables xml options file_size header_length small h =
    let state = run_parser xml options in
    let (starts, after) =
      reject_if-eq-ok (not (bytes_eq (take 5 xml) (codes "<?xml"))) invalid_xisf
        "XISF header must begin with an XML declaration" _ h in
    let (checked, builder, tables) = >>=-eq-ok (check_builder state) _ after in
    let (valid, tabled, ranges) = >>=-eq-ok (check_tables state options) _ tables in
    let (sorted, ordered, parses) =
      >>=-eq-ok
        (check_ranges (16 + header_length) file_size (sort_ranges state.attached_ranges)
          (16 + header_length))
        _ ranges in
    (
      (bytes_eq_iff (take 5 xml) (codes "<?xml")).0 (ground arith),
      check_builder-IsComplete state builder,
      check_ranges-IsChain (16 + header_length) file_size (sort_ranges state.attached_ranges)
          (16 + header_length) small ordered,
      ok-injective parses,
    )
