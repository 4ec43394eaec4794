-- ===== src/Plan/Sound/Blocks.antt =====
-- The plans of `plan_icc_profile_read` and `plan_property_read`.
use mmxisf.Base.{
  refl, ℕ, ◌+◌, ◌*◌, ◌≤◌, ◌≡◌, sym, ap, ◌∙◌, subst, ◌⊎◌, inl, inr, true, false, ◌||◌, Option, none,
  some, List, arith, Bool-cases, length, get_elem?,
}
use mmxisf.Base.Text.{Bytes}
use mmxisf.Base.Error.{ok}
use mmxisf.Word.{checked_multiply}
use mmxisf.Word.Checked.{checked_multiply_iff}
use mmxisf.Document.{Document, ReaderOptions, MetadataEntry, IccProfileInfo, BlockLocation}
use mmxisf.Property.{
  PropertyCategory, vector, matrix, scalar_or_complex, string, time_point, unknown,
  classify_property_type, PropertyElementLayout, property_element_layout,
}
use mmxisf.Block.Parse.{Extent, differs, parse_compression_plan}
use Prim.Native.String.{String}
use mmxisf.Plan.{
  PropertyReadPlan, IccProfileReadPlan, is_attachment, is_inline, is_block_property, locate_block,
  plan_icc_profile, plan_icc_profile_read,
}
use mmxisf.Plan.Metadata.{
  element_count, typed_extent, plan_property, plan_property_entry, plan_property_read,
}
use mmxisf.Plan.Sound.{parse_compression_plan-IsWithin}

-- The serialized bytes are those of the inline block that is stored, or lie in the source.
abbrev pub IsLocated : BlockLocation → List Bytes → ℕ → ℕ → Option Bytes → ℕ → Type 0
IsLocated block inline_blocks index file_size inline_block serialized_bytes =
    ((is_inline block.kind ≡ true)
      × ((stored : Bytes) × (get_elem? inline_blocks index ≡ some stored)
          × (inline_block ≡ some stored)
          × (serialized_bytes ≡ length stored)))
    ⊎ ((is_inline block.kind ≡ false)
        × (inline_block ≡ none)
        × (serialized_bytes ≡ block.size)
        × (block.offset + block.size ≤ file_size))

locate_block-IsLocated :
    (inconsistent beyond : String) (block : BlockLocation) (inline_blocks : List Bytes)
    (index file_size : ℕ) {inline_block : Option Bytes} {serialized_bytes : ℕ}
    → locate_block inconsistent beyond block inline_blocks index file_size
      ≡ ok (inline_block, serialized_bytes)
    → IsLocated block inline_blocks index file_size inline_block serialized_bytes
unfolding locate_block
locate_block-IsLocated inconsistent beyond block inline_blocks index file_size h =
    elim (Bool-cases (is_inline block.kind)) [
      | inl in_header ↦ inl (in_header, ground arith)
      | inr at_source ↦ inr (at_source, ground arith, ground arith, ground arith)
    ]

icc_profile_extent : ReaderOptions → ℕ → Extent
icc_profile_extent options serialized_bytes = record {
  serialized_bytes = serialized_bytes;
  expected_bytes = none;
  item_size = 1;
  max_serialized_bytes = options.max_serialized_icc_profile_bytes;
  max_decoded_bytes = options.max_decoded_icc_profile_bytes;
}

plan_icc_profile-parts :
    (document : Document) (options : ReaderOptions) (inline_blocks : List Bytes) (index : ℕ)
    (profile : IccProfileInfo) {p : IccProfileReadPlan}
    → plan_icc_profile document options inline_blocks index profile ≡ ok p
    → (p.profile ≡ profile)
      × (p.expected_bytes ≡ p.compression.uncompressed_size)
      × (is_attachment profile.block.kind || is_inline profile.block.kind ≡ true)
      × (locate_block "Inline ICC profile storage is inconsistent"
            "ICC profile attachment range extends beyond the source" profile.block inline_blocks
            index document.file_size
          ≡ ok (p.inline_block, p.serialized_bytes))
      × (parse_compression_plan profile.compression profile.subblocks options
            (icc_profile_extent options p.serialized_bytes)
          ≡ ok p.compression)
unfolding plan_icc_profile icc_profile_extent
plan_icc_profile-parts document options inline_blocks index profile h = ground arith

icc_profile_at :
    (document : Document) (options : ReaderOptions) (inline_blocks : List Bytes) (index : ℕ)
    {p : IccProfileReadPlan}
    → plan_icc_profile_read document options inline_blocks index ≡ ok p
    → (profile : IccProfileInfo) × (get_elem? document.icc_profiles index ≡ some profile)
      × (plan_icc_profile document options inline_blocks index profile ≡ ok p)
unfolding plan_icc_profile_read
icc_profile_at document options inline_blocks index h = ground arith

-- A returned ICC profile plan is for the profile at the index, reads its inline block or a range of
-- the source, and stays within the limits on its serialized and on its decoded size.
pub plan_icc_profile_read_sound :
    (document : Document) (options : ReaderOptions) (inline_blocks : List Bytes) (index : ℕ)
    {p : IccProfileReadPlan}
    → plan_icc_profile_read document options inline_blocks index ≡ ok p
    → (get_elem? document.icc_profiles index ≡ some p.profile)
      × IsLocated p.profile.block inline_blocks index document.file_size p.inline_block
          p.serialized_bytes
      × (p.expected_bytes ≡ p.compression.uncompressed_size)
      × (p.serialized_bytes ≤ options.max_serialized_icc_profile_bytes)
      × (p.expected_bytes ≤ options.max_decoded_icc_profile_bytes)
unfolding icc_profile_extent
plan_icc_profile_read_sound document options inline_blocks index {p} h =
    let (profile, found, planned) = icc_profile_at document options inline_blocks index h in
    let (profile_eq, expected, kind, located, parsed) =
      plan_icc_profile-parts document options inline_blocks index profile planned in
    let l =
      locate_block-IsLocated _ _ profile.block inline_blocks index document.file_size located in
    let w =
      parse_compression_plan-IsWithin profile.compression profile.subblocks options
        (icc_profile_extent options p.serialized_bytes) parsed in
    (
      found ∙ ap some (sym profile_eq),
      subst
          (λ q.
            IsLocated q.block inline_blocks index document.file_size p.inline_block
              p.serialized_bytes)
          (sym profile_eq) l,
      expected,
      w.serialized-le,
      omega (arith, expected, w.decoded-le),
    )

property_extent : ReaderOptions → PropertyElementLayout → Option ℕ → ℕ → Extent
property_extent options layout typed_bytes serialized_bytes = record {
  serialized_bytes = serialized_bytes;
  expected_bytes = typed_bytes;
  item_size = layout.element_size;
  max_serialized_bytes = options.max_serialized_property_bytes;
  max_decoded_bytes = options.max_decoded_property_bytes;
}

plan_property-parts :
    (document : Document) (options : ReaderOptions) (inline_blocks : List Bytes) (index : ℕ)
    (entry : MetadataEntry) (layout : PropertyElementLayout) {p : PropertyReadPlan}
    → plan_property document options inline_blocks index entry layout ≡ ok p
    → (typed_bytes : Option ℕ) × (typed_extent entry layout ≡ ok typed_bytes)
      × (p.property ≡ entry)
      × (p.layout ≡ layout)
      × (p.expected_bytes ≡ p.compression.uncompressed_size)
      × (locate_block "Inline Property storage is inconsistent"
            "Property attachment range extends beyond the source" entry.block inline_blocks index
            document.file_size
          ≡ ok (p.inline_block, p.serialized_bytes))
      × (parse_compression_plan entry.compression entry.subblocks options
            (property_extent options layout typed_bytes p.serialized_bytes)
          ≡ ok p.compression)
unfolding plan_property property_extent
plan_property-parts document options inline_blocks index entry layout h = ground arith

property_at :
    (document : Document) (options : ReaderOptions) (inline_blocks : List Bytes) (index : ℕ)
    {p : PropertyReadPlan}
    → plan_property_read document options inline_blocks index ≡ ok p
    → (entry : MetadataEntry) × (layout : PropertyElementLayout) × (get_elem? document.metadata
          index
        ≡ some entry)
      × (is_block_property entry.kind entry.value_form ≡ true)
      × (property_element_layout entry.type ≡ some layout)
      × (plan_property document options inline_blocks index entry layout ≡ ok p)
unfolding plan_property_read plan_property_entry
property_at document options inline_blocks index h = ground arith

-- The number of elements of a vector is its length, that of a matrix its rows times its columns.
abbrev pub IsCount : PropertyCategory → MetadataEntry → ℕ → Type 0
IsCount category entry count =
    ((category ≡ vector) × (entry.length_attribute ≡ some count))
    ⊎ ((category ≡ matrix)
        × ((rows : ℕ) × (columns : ℕ) × (entry.rows ≡ some rows)
            × (entry.columns ≡ some columns)
            × (rows * columns ≡ count)))

-- The typed extent of a container is its number of elements times their size.
pub IsTyped : MetadataEntry → PropertyElementLayout → ℕ → Type 0
IsTyped entry layout bytes =
    (layout.string_data ≡ true)
    ⊎ ((count : ℕ) × IsCount (classify_property_type entry.type) entry count
        × (count * layout.element_size ≡ bytes))

product-exact : (a b : ℕ) {r : ℕ} → checked_multiply a b ≡ some r → a * b ≡ r
product-exact a b {r} h = ((checked_multiply_iff a b r).0 h).0

element_count-parts :
    (entry : MetadataEntry) {count : ℕ}
    → element_count matrix entry ≡ some count
    → (rows : ℕ) × (columns : ℕ) × (entry.rows ≡ some rows)
      × (entry.columns ≡ some columns)
      × (checked_multiply rows columns ≡ some count)
element_count-parts entry h = ground arith

element_count-IsCount :
    (category : PropertyCategory) (entry : MetadataEntry) {count : ℕ}
    → element_count category entry ≡ some count
    → IsCount category entry count
element_count-IsCount vector entry h = inl (refl, h)
element_count-IsCount matrix entry h =
    let (rows, columns, found_rows, found_columns, product) = element_count-parts entry h in
    inr (refl, (rows, columns, found_rows, found_columns, product-exact rows columns product))
element_count-IsCount scalar_or_complex entry h = cc
element_count-IsCount string entry h = cc
element_count-IsCount time_point entry h = cc
element_count-IsCount unknown entry h = cc

typed_extent-parts :
    (entry : MetadataEntry) (layout : PropertyElementLayout) {typed_bytes : Option ℕ}
    → typed_extent entry layout ≡ ok typed_bytes
    → layout.string_data ≡ false
    → (count : ℕ) × (bytes : ℕ) × (element_count (classify_property_type entry.type) entry
        ≡ some count)
      × (checked_multiply count layout.element_size ≡ some bytes)
      × (typed_bytes ≡ some bytes)
unfolding typed_extent
typed_extent-parts entry layout h s = ground arith

differs-some : (o : Option ℕ) (n bytes : ℕ) → o ≡ some bytes → differs o n ≡ false → bytes ≡ n
differs-some o n bytes e h = ground arith

typed_extent-IsTyped :
    (entry : MetadataEntry) (layout : PropertyElementLayout) {typed_bytes : Option ℕ} (n : ℕ)
    → typed_extent entry layout ≡ ok typed_bytes
    → differs typed_bytes n ≡ false
    → IsTyped entry layout n
unfolding IsTyped
typed_extent-IsTyped entry layout {typed_bytes} n h same = elim (Bool-cases layout.string_data) [
  | inl is_string ↦ inl is_string
  | inr container ↦
      let (count, bytes, counted, product, typed) = typed_extent-parts entry layout h container in
      inr (
        count,
        element_count-IsCount _ entry counted,
        product-exact _ _ product ∙ differs-some typed_bytes n bytes typed same,
      )
]

-- A returned property plan is for the block-backed property at the index, with the layout of its
-- type; it reads the inline block or a range of the source, the decoded size of a container is
-- exactly that of its elements, and the limits are kept.
pub plan_property_read_sound :
    (document : Document) (options : ReaderOptions) (inline_blocks : List Bytes) (index : ℕ)
    {p : PropertyReadPlan}
    → plan_property_read document options inline_blocks index ≡ ok p
    → (get_elem? document.metadata index ≡ some p.property)
      × (is_block_property p.property.kind p.property.value_form ≡ true)
      × (property_element_layout p.property.type ≡ some p.layout)
      × IsLocated p.property.block inline_blocks index document.file_size p.inline_block
          p.serialized_bytes
      × IsTyped p.property p.layout p.expected_bytes
      × (p.expected_bytes ≡ p.compression.uncompressed_size)
      × (p.serialized_bytes ≤ options.max_serialized_property_bytes)
      × (p.expected_bytes ≤ options.max_decoded_property_bytes)
unfolding property_extent
plan_property_read_sound document options inline_blocks index {p} h =
    let (entry, layout, found, kind, typed, planned) =
      property_at document options inline_blocks index h in
    let (typed_bytes, extent, entry_eq, layout_eq, expected, located, parsed) =
      plan_property-parts document options inline_blocks index entry layout planned in
    let l = locate_block-IsLocated _ _ entry.block inline_blocks index document.file_size located in
    let w =
      parse_compression_plan-IsWithin entry.compression entry.subblocks options
        (property_extent options layout typed_bytes p.serialized_bytes) parsed in
    let t = typed_extent-IsTyped entry layout _ extent w.exact in
    (
      found ∙ ap some (sym entry_eq),
      subst (λ q. is_block_property q.kind q.value_form ≡ true) (sym entry_eq) kind,
      ap (λ q. property_element_layout q.type) entry_eq ∙ typed ∙ ap some (sym layout_eq),
      subst
          (λ q.
            IsLocated q.block inline_blocks index document.file_size p.inline_block
              p.serialized_bytes)
          (sym entry_eq) l,
      moved (sym entry_eq) (sym layout_eq) (sym expected) t,
      expected,
      w.serialized-le,
      omega (arith, expected, w.decoded-le),
    )
  where
    moved :
        {entry q : MetadataEntry} {layout r : PropertyElementLayout} {m n : ℕ}
        → entry ≡ q
        → layout ≡ r
        → m ≡ n
        → IsTyped entry layout m
        → IsTyped q r n
    moved {entry} {q} {layout} {r} {m} {n} a b c t =
        subst (λ k. IsTyped q r k) c
          (subst (λ l. IsTyped q l m) b (subst (λ e. IsTyped e layout m) a t))
