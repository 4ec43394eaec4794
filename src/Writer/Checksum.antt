-- ===== src/Writer/Checksum.antt =====
-- `checksum_name` and `compute_checksum` of src/writer.cpp, and the descriptor's way back through
-- `parse_checksum_plan` of src/reader.cpp.
use Prim.Native.Nat.{bit_and, bit_or}
use mmxisf.Base.Bits.{check_below, check_below_sound}
use mmxisf.Base.{
  ℕ, ◌*◌, ◌/◌, ◌^◌, ◌<◌, ◌≡◌, refl, sym, ap, ◌∙◌, ◌≢◌, Bool, true, false, not, ◌&&◌, none, some, [],
  ◌∷◌, ◌++◌, arith, ◌==◌, if◌then◌else◌, length, get_or, All,
}
use mmxisf.Base.Text.{
  Bytes, codes, bytes_eq, is_empty, split_on, bytes_eq_iff, bytes_eq_refl, Lacks, split_on-Lacks,
  split_on-append,
}
use mmxisf.Base.Error.{checksum_mismatch, invalid_argument, internal_error, Result, ok, fail}
use mmxisf.Block.{
  ChecksumAlgorithm, none_algorithm, sha1, sha256, sha512, sha3_256, sha3_512, ChecksumPlan, Codecs,
}
use mmxisf.Block.Decode.{verify_checksum, is_declared}
use mmxisf.Block.Parse.{
  lowercase_hex_value, checksum_algorithm, parse_digest, parse_digest_of, parse_checksum_parts,
  parse_checksum_plan,
}

unfoldable pub checksum_name : ChecksumAlgorithm → Bytes
checksum_name none_algorithm = []
checksum_name sha1 = codes "sha-1"
checksum_name sha256 = codes "sha-256"
checksum_name sha512 = codes "sha-512"
checksum_name sha3_256 = codes "sha3-256"
checksum_name sha3_512 = codes "sha3-512"

-- `digits[n]`
abbrev pub hex_digit : ℕ → ℕ
hex_digit n = get_or (codes "0123456789abcdef") n 0

unfoldable pub print_digest : Bytes → Bytes
print_digest [] = []
print_digest (b ∷ bs) = hex_digit (b / 2 ^ 4) ∷ hex_digit (bit_and b 0x0f) ∷ print_digest bs

unfoldable pub compute_checksum : Codecs → Bytes → ChecksumAlgorithm → Result Bytes
compute_checksum lib bytes algorithm =
    if is_empty (checksum_name algorithm)
    then fail invalid_argument "Writer checksum algorithm is invalid"
    else elim (lib.evp_digest algorithm bytes) [
      | none ↦ fail internal_error "Writer checksum computation failed"
      | some hash ↦ ok (checksum_name algorithm ++ (b':' ∷ print_digest hash))
    ]

abbrev pub digest_size : ChecksumAlgorithm → ℕ
digest_size none_algorithm = 0
digest_size sha1 = 20
digest_size sha256 = 32
digest_size sha512 = 64
digest_size sha3_256 = 32
digest_size sha3_512 = 64

-- One byte against its two digits.
hex_pair : ℕ → Bool
hex_pair b = elim (lowercase_hex_value (hex_digit (b / 2 ^ 4))) [
  | none ↦ false
  | some high ↦ elim (lowercase_hex_value (hex_digit (bit_and b 0x0f))) [
    | none ↦ false
    | some low ↦
        bit_or (high * 2 ^ 4) low == b
        && not (hex_digit (b / 2 ^ 4) == b':')
        && not (hex_digit (bit_and b 0x0f) == b':')
  ]
]

hex_pairs : check_below 256 hex_pair ≡ true
unfolding hex_pair lowercase_hex_value
hex_pairs = refl

hex_pair_inversion :
    (b : ℕ)
    → hex_pair b ≡ true
    → (high : ℕ) × (low : ℕ) × (lowercase_hex_value (hex_digit (b / 2 ^ 4)) ≡ some high)
      × (lowercase_hex_value (hex_digit (bit_and b 0x0f)) ≡ some low)
      × (bit_or (high * 2 ^ 4) low ≡ b)
      × ((hex_digit (b / 2 ^ 4) == b':') ≡ false)
      × ((hex_digit (bit_and b 0x0f) == b':') ≡ false)
unfolding hex_pair
hex_pair_inversion b h = ground arith

hex_pair-true : (b : ℕ) → b < 256 → hex_pair b ≡ true
hex_pair-true b = check_below_sound 256 hex_pair b hex_pairs

parse_digest-print_digest :
    (hash : Bytes) → All (λ b. b < 256) hash → parse_digest (print_digest hash) ≡ some hash
unfolding parse_digest print_digest
parse_digest-print_digest [] h = refl
parse_digest-print_digest (b ∷ bs) h =
    let (high, low, first, second, joined, _, _) = hex_pair_inversion b (hex_pair-true b h.0) in
    ground (arith, first, second, parse_digest-print_digest bs h.1, joined)

length-print_digest : (hash : Bytes) → length (print_digest hash) ≡ length hash * 2
unfolding print_digest
length-print_digest [] = omega arith
length-print_digest (b ∷ bs) = omega (arith, length-print_digest bs)

print_digest-Lacks : (hash : Bytes) → All (λ b. b < 256) hash → Lacks b':' (print_digest hash)
unfolding print_digest
print_digest-Lacks [] h = tt
print_digest-Lacks (b ∷ bs) h =
    let (_, _, _, _, _, first, second) = hex_pair_inversion b (hex_pair-true b h.0) in
    (first, (second, print_digest-Lacks bs h.1))

name-Lacks : (a : ChecksumAlgorithm) → Lacks b':' (checksum_name a)
unfolding checksum_name
name-Lacks none_algorithm = tt
name-Lacks sha1 = ground arith
name-Lacks sha256 = ground arith
name-Lacks sha512 = ground arith
name-Lacks sha3_256 = ground arith
name-Lacks sha3_512 = ground arith

name_found :
    (a : ChecksumAlgorithm)
    → a ≢ none_algorithm
    → (checksum_algorithm (checksum_name a) ≡ some (a, digest_size a))
      × (is_empty (checksum_name a) ≡ false)
unfolding checksum_name checksum_algorithm
name_found none_algorithm h = absurd (h refl)
name_found sha1 h = (refl, refl)
name_found sha256 h = (refl, refl)
name_found sha512 h = (refl, refl)
name_found sha3_256 h = (refl, refl)
name_found sha3_512 h = (refl, refl)

is_empty-append_cons : (a b : Bytes) (c : ℕ) → is_empty (a ++ (c ∷ b)) ≡ false
is_empty-append_cons [] b c = refl
is_empty-append_cons (x ∷ a) b c = refl

descriptor_parts :
    (a : ChecksumAlgorithm) (hash : Bytes)
    → All (λ b. b < 256) hash
    → split_on b':' (checksum_name a ++ (b':' ∷ print_digest hash))
      ≡ checksum_name a ∷ print_digest hash ∷ []
descriptor_parts a hash h =
    split_on-append b':' (checksum_name a) (print_digest hash) (name-Lacks a)
    ∙ ap (◌∷◌ (checksum_name a))
        (split_on-Lacks b':' (print_digest hash) (print_digest-Lacks hash h))

parse_printed_parts :
    (a : ChecksumAlgorithm) (hash : Bytes)
    → a ≢ none_algorithm
    → length hash ≡ digest_size a
    → All (λ b. b < 256) hash
    → parse_digest_of (checksum_name a) (print_digest hash)
      ≡ ok (record { algorithm = a; expected_digest = hash })
unfolding parse_digest_of
parse_printed_parts a hash ne size h =
    ground
      (arith, (name_found a ne).0, length-print_digest hash, size, parse_digest-print_digest hash h)

-- A printed descriptor is read back as its algorithm and digest.
parse_printed :
    (a : ChecksumAlgorithm) (hash : Bytes)
    → a ≢ none_algorithm
    → length hash ≡ digest_size a
    → All (λ b. b < 256) hash
    → parse_checksum_plan (checksum_name a ++ (b':' ∷ print_digest hash))
      ≡ ok (record { algorithm = a; expected_digest = hash })
unfolding parse_checksum_plan parse_checksum_parts
parse_printed a hash ne size h =
    rw (is_empty-append_cons (checksum_name a) (print_digest hash) b':', descriptor_parts a hash h)
      (parse_printed_parts a hash ne size h)

declared : (a : ChecksumAlgorithm) → a ≢ none_algorithm → is_declared a ≡ true
declared none_algorithm h = absurd (h refl)
declared _ h = refl

bytes_ne : (a b : Bytes) → a ≢ b → bytes_eq a b ≡ false
bytes_ne a b h = ground (arith, bytes_eq_iff a b)

-- The library's digests have the algorithm's size and hold bytes.
pub record IsDigest (lib : Codecs) : Type 0 where
  pub sized :
      (a : ChecksumAlgorithm) (bytes : Bytes) {hash : Bytes}
      → lib.evp_digest a bytes ≡ some hash
      → length hash ≡ digest_size a
  pub in_bytes :
      (a : ChecksumAlgorithm) (bytes : Bytes) {hash : Bytes}
      → lib.evp_digest a bytes ≡ some hash
      → All (λ b. b < 256) hash

compute_checksum_inversion :
    (lib : Codecs) (a : ChecksumAlgorithm) (bytes : Bytes) {descriptor : Bytes}
    → compute_checksum lib bytes a ≡ ok descriptor
    → (hash : Bytes) × (lib.evp_digest a bytes ≡ some hash)
      × (descriptor ≡ checksum_name a ++ (b':' ∷ print_digest hash))
unfolding compute_checksum
compute_checksum_inversion lib a bytes e = ground arith

module _ (lib : Codecs) (a : ChecksumAlgorithm) (ne : a ≢ none_algorithm) (hash : Bytes) where
  abbrev plan_for : ChecksumPlan
  plan_for = record { algorithm = a; expected_digest = hash }

  accepts :
      (bytes : Bytes)
      → lib.evp_digest a bytes ≡ some hash
      → verify_checksum lib plan_for bytes ≡ ok true
  unfolding verify_checksum
  accepts bytes found = ground (arith, declared a ne, found, bytes_eq_refl hash)

  refuses :
      (bytes hash' : Bytes)
      → lib.evp_digest a bytes ≡ some hash'
      → hash' ≢ hash
      → verify_checksum lib plan_for bytes
        ≡ fail checksum_mismatch "Block checksum verification failed"
  unfolding verify_checksum
  refuses bytes hash' found differ =
      ground (arith, declared a ne, found, bytes_ne hash' hash differ)

-- The checksum that the writer prints for a block is read back by the reader and accepted for that
-- block: for an algorithm other than `none` and a digest library that keeps the sizes.
pub compute_checksum-verify_checksum :
    (lib : Codecs) (a : ChecksumAlgorithm) (bytes : Bytes) {descriptor : Bytes}
    → IsDigest lib
    → a ≢ none_algorithm
    → compute_checksum lib bytes a ≡ ok descriptor
    → (plan : ChecksumPlan) × (parse_checksum_plan descriptor ≡ ok plan)
      × (verify_checksum lib plan bytes ≡ ok true)
compute_checksum-verify_checksum lib a bytes {descriptor} good ne e =
    let (hash, digest, printed) = compute_checksum_inversion lib a bytes e in
    (
      plan_for lib a ne hash,
      ap parse_checksum_plan printed
          ∙ parse_printed a hash ne (good.sized a bytes digest) (good.in_bytes a bytes digest),
      accepts lib a ne hash bytes digest,
    )

-- The checksum that the writer prints for a block is refused by the reader, as a mismatch, for every
-- block with another digest: for an algorithm other than `none` and a digest library that keeps
-- the sizes.
pub compute_checksum-mismatch :
    (lib : Codecs) (a : ChecksumAlgorithm) (bytes other hash : Bytes) {descriptor : Bytes}
    → IsDigest lib
    → a ≢ none_algorithm
    → compute_checksum lib bytes a ≡ ok descriptor
    → lib.evp_digest a other ≡ some hash
    → lib.evp_digest a bytes ≢ some hash
    → (plan : ChecksumPlan) × (parse_checksum_plan descriptor ≡ ok plan)
      × (verify_checksum lib plan other
          ≡ fail checksum_mismatch "Block checksum verification failed")
compute_checksum-mismatch lib a bytes other hash' {descriptor} good ne e found differ =
    let (hash, digest, printed) = compute_checksum_inversion lib a bytes e in
    (
      plan_for lib a ne hash,
      ap parse_checksum_plan printed
          ∙ parse_printed a hash ne (good.sized a bytes digest) (good.in_bytes a bytes digest),
      refuses lib a ne hash other hash' found (λ same. differ (digest ∙ ap some (sym same))),
    )
