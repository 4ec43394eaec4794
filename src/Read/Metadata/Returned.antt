-- ===== src/Read/Metadata/Returned.antt =====
-- What the read operations for properties and ICC profiles return.
use mmxisf.Base.{
  ℕ, ◌+◌, ◌*◌, ◌∙◌, ◌/◌, ◌%◌, ◌≤◌, ◌<◌, ◌≡◌, refl, sym, ap, subst, ◌⊎◌, inl, inr, Bool, true, false,
  Option, none, some, List, [], ◌∷◌, arith, ◌==◌, ltb, ltb→lt, not_ltb→le, ◌≢◌, Bool-cases, length,
  get_or,
}
use mmxisf.Base.Text.{Bytes}
use mmxisf.Base.Error.{
  Result, ok, ◌>>=◌, >>=-eq-ok, reject_if-eq-ok, ok-injective, StopToken, Never,
}
use mmxisf.Word.{u64_max}
use Prim.Native.Nat.{bit_and}
use mmxisf.Base.Bits.{bit_and-low_mask}
use mmxisf.Buffer.{subspan, length-subspan}
use mmxisf.Document.{ByteOrder, BlockLocation}
use mmxisf.Pixels.{same_order}
use mmxisf.Pixels.Swap.{IsSwapped, swap_byte_order-IsSwapped}
use mmxisf.Block.{Codecs}
use mmxisf.Source.{Serves, Stored, stop_below}
use mmxisf.Plan.{PropertyReadPlan, IccProfileReadPlan, plan_icc_profile_read}
use mmxisf.Plan.Metadata.{plan_property_read}
use mmxisf.Plan.Image.{ByteOrderOutput, resolve_byte_order}
use mmxisf.Plan.Sound.Blocks.{IsLocated, plan_property_read_sound, plan_icc_profile_read_sound}
use mmxisf.Read.{Located, copy_serialized_property, copy_serialized_icc_profile}
use mmxisf.Read.Copy.{copy_serialized_property-Located, copy_serialized_icc_profile-Located}
use mmxisf.Read.Fetch.{read_block}
use mmxisf.Read.Fetch.Carried.{Carries, read_block-Carries}
use mmxisf.Read.Metadata.{
  Reader, verification_of, PropertyReadOptions, RawPropertyBlock, RawIccProfile, declared_size,
  reorder_property, read_property_block, validate_icc_profile_bytes, read_planned_profile,
  read_icc_profile,
}

-- The serialized bytes that a plan finds in the contents of the source.
abbrev pub block_bytes : Bytes → Option Bytes → ℕ → ℕ → Bytes
block_bytes contents (some block) offset size = block
block_bytes contents none offset size = subspan contents offset size

pub block_bytes-Stored :
    (contents : Bytes) (offset size : ℕ)
    → offset + size ≤ length contents
    → (size ≡ length (subspan contents offset size))
      × Stored contents offset (subspan contents offset size)
block_bytes-Stored contents offset size h =
    let same = length-subspan contents offset size h in
    (sym same, (omega (arith, same), ap (subspan contents offset) same))

pub block_bytes-Located :
    (contents : Bytes) (block : BlockLocation) (inline_blocks : List Bytes) (index file_size : ℕ)
    (inline_block : Option Bytes) (serialized_bytes : ℕ)
    → IsLocated block inline_blocks index file_size inline_block serialized_bytes
    → file_size ≡ length contents
    → (serialized_bytes ≡ length (block_bytes contents inline_block block.offset serialized_bytes))
      × Located contents inline_block block.offset
          (block_bytes contents inline_block block.offset serialized_bytes)
block_bytes-Located contents block inline_blocks index file_size none size
      (inl (kind, (stored, found, here, count))) whole =
    cc
block_bytes-Located contents block inline_blocks index file_size (some b) size
      (inl (kind, (stored, found, here, count))) whole =
    (cc, refl)
block_bytes-Located contents block inline_blocks index file_size (some b) size
      (inr (kind, no_block, count, inside)) whole =
    cc
block_bytes-Located contents block inline_blocks index file_size none size
      (inr (kind, no_block, count, inside)) whole =
    block_bytes-Stored contents block.offset size (omega arith)

pub resolve_byte_order-ok :
    (native_endian order : ByteOrder) (output : ByteOrderOutput)
    → (resolved : ByteOrder) × (resolve_byte_order native_endian order output ≡ ok resolved)
unfolding resolve_byte_order
resolve_byte_order-ok native_endian order ByteOrderOutput.source_order = (order, refl)
resolve_byte_order-ok native_endian order ByteOrderOutput.native_order = (native_endian, refl)

-- A string, components of one byte and an unchanged byte order leave the bytes of the block;
-- otherwise each component is reversed.
abbrev pub IsOrdered : PropertyReadPlan → ByteOrder → Bytes → Bytes → Type 0
IsOrdered plan order block bytes =
    (((plan.layout.string_data ≡ true)
        ⊎ (plan.layout.scalar_component_size ≤ 1)
        ⊎ (order ≡ plan.property.byte_order))
      × (bytes ≡ block))
    ⊎ ((plan.layout.string_data ≡ false)
        × (1 < plan.layout.scalar_component_size)
        × (order ≢ plan.property.byte_order)
        × IsSwapped plan.layout.scalar_component_size 0
            (length block / plan.layout.scalar_component_size) block bytes)

same_order-cases :
    (a b : ByteOrder) → ((same_order a b ≡ true) × (a ≡ b)) ⊎ ((same_order a b ≡ false) × (a ≢ b))
same_order-cases a b = ground arith

reorder_property-IsOrdered :
    (plan : PropertyReadPlan) (order : ByteOrder) (block : Bytes) (stop : StopToken)
    → Never stop
    → (bytes : Bytes) × (reorder_property plan order block stop ≡ ok bytes)
      × IsOrdered plan order block bytes
unfolding reorder_property
reorder_property-IsOrdered plan order block stop never = elim (Bool-cases plan.layout.string_data) [
  | inl text ↦ (block, rw text refl, inl (inl text, refl))
  | inr items ↦ elim (Bool-cases (ltb 1 plan.layout.scalar_component_size)) [
    | inr narrow ↦ (block, rw (items, narrow) refl, inl (inr (inl (not_ltb→le _ _ narrow)), refl))
    | inl wide ↦ elim (same_order-cases order plan.property.byte_order) [
      | inl (same, e) ↦ (block, rw (items, wide, same) refl, inl (inr (inr e), refl))
      | inr (differ, ne) ↦
          let (bytes, runs, swapped) =
            swap_byte_order-IsSwapped block plan.layout.scalar_component_size stop never in
          (bytes, rw (items, wide, differ, runs) refl, inr (items, ltb→lt _ _ wide, ne, swapped))
    ]
  ]
]

module _ (lib : Codecs) (reader : Reader) (contents : Bytes) (index : ℕ) (stop : StopToken)
    (block : Bytes) where
  -- A property of an opened file is returned in the resolved byte order: a string, components of one
  -- byte and an unchanged order leave the bytes of the block, otherwise each component is reversed. The
  -- source serves its contents, in which the plan finds a block that decodes to `block`, and stop is
  -- never requested.
  pub read_property_block-Carries :
      (native_endian : ByteOrder) (read_options : PropertyReadOptions) {plan : PropertyReadPlan}
      → Serves reader.source contents
      → length contents ≤ u64_max
      → reader.document.file_size ≡ length contents
      → Never stop
      → plan_property_read reader.document reader.options reader.inline_metadata_blocks index
        ≡ ok plan
      → plan.expected_bytes ≡ length block
      → Carries lib plan.compression plan.checksum
          (block_bytes contents plan.inline_block plan.property.block.offset plan.serialized_bytes)
          block
      → (result : RawPropertyBlock) × (read_property_block lib native_endian reader index
            read_options stop
          ≡ ok result)
        × (resolve_byte_order native_endian plan.property.byte_order read_options.byte_order
            ≡ ok result.byte_order)
        × (result.checksum_verification ≡ verification_of plan.checksum)
        × IsOrdered plan result.byte_order block result.bytes
  unfolding read_property_block
  read_property_block-Carries native_endian read_options {plan} serves small whole never planned
        decoded carries =
      let serialized =
        block_bytes contents plan.inline_block plan.property.block.offset plan.serialized_bytes in
      let (found, kind, typed, located, extent, expected, small_block, small_bytes) =
        plan_property_read_sound reader.document reader.options reader.inline_metadata_blocks index
          planned in
      let (size, stands) =
        block_bytes-Located contents plan.property.block reader.inline_metadata_blocks index
          reader.document.file_size plan.inline_block plan.serialized_bytes located whole in
      let (order, resolves) =
        resolve_byte_order-ok native_endian plan.property.byte_order read_options.byte_order in
      let fetched =
        read_block-Carries lib
          (λ buffer. copy_serialized_property reader.source plan buffer (stop_below 1 stop))
          plan.compression plan.checksum plan.serialized_bytes plan.expected_bytes serialized block
          (stop_below 2 stop) (λ poll. never (2 ∷ poll))
          (λ buffer same.
            copy_serialized_property-Located reader.source contents serves small (stop_below 1 stop)
              (λ poll. never (1 ∷ poll)) plan serialized buffer size stands same)
          size decoded carries in
      let (bytes, reorders, ordered) =
        reorder_property-IsOrdered plan order block (stop_below 3 stop)
          (λ poll. never (3 ∷ poll)) in
      (
        record {
          byte_order = order;
          checksum_verification = verification_of plan.checksum;
          bytes = bytes;
        },
        rw (planned, never (0 ∷ []), resolves, fetched, reorders) refl,
        resolves,
        refl,
        ordered,
      )

  -- A stored ICC profile is returned when it is well-formed.
  pub read_icc_profile-Carries :
      {plan : IccProfileReadPlan}
      → Serves reader.source contents
      → length contents ≤ u64_max
      → reader.document.file_size ≡ length contents
      → Never stop
      → plan_icc_profile_read reader.document reader.options reader.inline_icc_profile_blocks index
        ≡ ok plan
      → plan.expected_bytes ≡ length block
      → Carries lib plan.compression plan.checksum
          (block_bytes contents plan.inline_block plan.profile.block.offset plan.serialized_bytes)
          block
      → read_icc_profile lib reader index stop ≡ (
          validate_icc_profile_bytes block >>= λ valid.
          ok (record { checksum_verification = verification_of plan.checksum; bytes = block }))
  unfolding read_icc_profile read_planned_profile
  read_icc_profile-Carries {plan} serves small whole never planned decoded carries =
      let serialized =
        block_bytes contents plan.inline_block plan.profile.block.offset plan.serialized_bytes in
      let (found, located, expected, small_block, small_bytes) =
        plan_icc_profile_read_sound reader.document reader.options reader.inline_icc_profile_blocks
          index planned in
      let (size, stands) =
        block_bytes-Located contents plan.profile.block reader.inline_icc_profile_blocks index
          reader.document.file_size plan.inline_block plan.serialized_bytes located whole in
      let fetched =
        read_block-Carries lib
          (λ buffer. copy_serialized_icc_profile reader.source plan buffer (stop_below 1 stop))
          plan.compression plan.checksum plan.serialized_bytes plan.expected_bytes serialized block
          (stop_below 2 stop) (λ poll. never (2 ∷ poll))
          (λ buffer same.
            copy_serialized_icc_profile-Located reader.source contents serves small
              (stop_below 1 stop) (λ poll. never (1 ∷ poll)) plan serialized buffer size stands
              same)
          size decoded carries in
      rw (planned, never (0 ∷ []), fetched) refl

-- What the reader checks of the header of an ICC profile.
pub record IsIccProfile (bytes : Bytes) : Type 0 where
  pub header : 128 ≤ length bytes
  pub size_field :
      ((get_or bytes 0 0 * 256 + get_or bytes 1 0) * 256 + get_or bytes 2 0) * 256
        + get_or bytes 3 0
      ≡ length bytes
  pub acsp :
      (get_or bytes 36 0 ≡ b'a')
      × (get_or bytes 37 0 ≡ b'c')
      × (get_or bytes 38 0 ≡ b's')
      × (get_or bytes 39 0 ≡ b'p')
  pub embedded_flag : get_or bytes 47 0 % 2 ≡ 1

-- The first octets are read with the highest first.
declared_size-octets :
    (bytes : Bytes)
    → declared_size bytes
      ≡ ((get_or bytes 0 0 * 256 + get_or bytes 1 0) * 256 + get_or bytes 2 0) * 256
        + get_or bytes 3 0
declared_size-octets bytes = omega arith

validate_icc_profile-size :
    (bytes : Bytes) {valid : Bool}
    → validate_icc_profile_bytes bytes ≡ ok valid
    → declared_size bytes ≡ length bytes
unfolding validate_icc_profile_bytes
validate_icc_profile-size bytes h = ground arith

embedded_bit : (octet : ℕ) → (bit_and octet 1 == 0) ≡ false → octet % 2 ≡ 1
embedded_bit octet h = omega (arith, bit_and-low_mask 1 octet, remainder h)
  where
    remainder : (bit_and octet 1 == 0) ≡ false → 0 < bit_and octet 1
    remainder h = ground arith

validate_icc_profile-flag :
    (bytes : Bytes) {valid : Bool}
    → validate_icc_profile_bytes bytes ≡ ok valid
    → (bit_and (get_or bytes 47 0) 1 == 0) ≡ false
unfolding validate_icc_profile_bytes
validate_icc_profile-flag bytes h = ground arith

accepted-IsIccProfile :
    (bytes : Bytes) {valid : Bool}
    → validate_icc_profile_bytes bytes ≡ ok valid
    → IsIccProfile bytes
unfolding validate_icc_profile_bytes
accepted-IsIccProfile bytes h = record {
  header = ground arith;
  size_field = sym (declared_size-octets bytes) ∙ validate_icc_profile-size bytes h;
  acsp = (ground arith, ground arith, ground arith, ground arith);
  embedded_flag = embedded_bit (get_or bytes 47 0) (validate_icc_profile-flag bytes h);
}

read_planned_profile-IsIccProfile :
    (lib : Codecs) (reader : Reader) (stop : StopToken) (plan : IccProfileReadPlan)
    {profile : RawIccProfile}
    → read_planned_profile lib reader stop plan ≡ ok profile
    → IsIccProfile profile.bytes
unfolding read_planned_profile
read_planned_profile-IsIccProfile lib reader stop plan h =
    let accept : Bytes → Result RawIccProfile = λ bytes.
      validate_icc_profile_bytes bytes >>= λ valid.
      ok (record { checksum_verification = verification_of plan.checksum; bytes = bytes }) in
    let fetch =
      read_block lib
        (λ buffer. copy_serialized_icc_profile reader.source plan buffer (stop_below 1 stop))
        plan.compression plan.checksum plan.serialized_bytes plan.expected_bytes
        (stop_below 2 stop) in
    let (going, fetches) = reject_if-eq-ok (stop (0 ∷ [])) _ _ (fetch >>= accept) h in
    let (bytes, fetched, checked) = >>=-eq-ok fetch accept fetches in
    let (valid, validates, returned) =
      >>=-eq-ok (validate_icc_profile_bytes bytes)
        (λ valid.
          ok (record { checksum_verification = verification_of plan.checksum; bytes = bytes }))
        checked in
    subst IsIccProfile (ap (λ p. p.bytes) (ok-injective returned))
      (accepted-IsIccProfile bytes validates)

-- A profile that is returned is well-formed, whatever the source holds and answers.
pub read_icc_profile-IsIccProfile :
    (lib : Codecs) (reader : Reader) (index : ℕ) (stop : StopToken) {profile : RawIccProfile}
    → read_icc_profile lib reader index stop ≡ ok profile
    → IsIccProfile profile.bytes
unfolding read_icc_profile
read_icc_profile-IsIccProfile lib reader index stop h =
    let (plan, planned, reads) =
      >>=-eq-ok
        (plan_icc_profile_read reader.document reader.options reader.inline_icc_profile_blocks
          index)
        (read_planned_profile lib reader stop) h in
    read_planned_profile-IsIccProfile lib reader stop plan reads
