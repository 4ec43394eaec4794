-- ===== src/Block/Parse/Limits.antt =====
-- What a compression plan that `parse_compression_plan` returns promises the decoder.
use mmxisf.Base.{
  ℕ, ◌*◌, ◌≤◌, ◌<◌, max, ◌≡◌, refl, sym, ◌∙◌, subst, ◌≢◌, ◌⊎◌, inl, inr, Bool, true, false, Option,
  none, some, List, [], ◌∷◌, arith, Bool-cases, length, get_or, All,
}
use mmxisf.Base.Text.{Bytes, is_empty, split_on}
use mmxisf.Base.Error.{ok, >>=-eq-ok, ok-injective}
use mmxisf.Word.{u64_max, checked_multiply}
use mmxisf.Word.Checked.{checked_multiply_iff}
use mmxisf.Word.Checked.{checked_multiply-none}
use mmxisf.Document.{ReaderOptions}
use mmxisf.Block.{CompressionCodec, none_codec, CompressionSubblock, CompressionPlan}
use mmxisf.Block.Parse.{
  codec_of, parse_descriptor, plain_plan, plan_subblocks, plan_of, parse_compression_plan, Extent,
  differs, maximum_output, add_subblocks, no_totals,
}
use mmxisf.Block.Parse.Subblocks.{
  compressed_sum, uncompressed_sum, IsPositive, IsTotal, add_subblocks-IsTotal,
}

codec_of-ne-none :
    (token : Bytes) {codec : CompressionCodec} {byte_shuffled : Bool}
    → codec_of token ≡ some (codec, byte_shuffled)
    → codec ≢ none_codec
unfolding codec_of
codec_of-ne-none token e = ground arith

-- The components agree with the typed extent and the limits.
pub record IsDescriptor (options : ReaderOptions) (e : Extent) (p : CompressionPlan) : Type 0 where
  pub codec-ne-none : p.codec ≢ none_codec
  pub uncompressed-pos : 0 < p.uncompressed_size
  pub serialized-pos : 0 < e.serialized_bytes
  pub as_expected : differs e.expected_bytes p.uncompressed_size ≡ false
  pub item : (p.byte_shuffled ≡ false) ⊎ (p.item_size ≡ e.item_size) × (0 < p.item_size)
  pub ratio : p.uncompressed_size ≤ e.serialized_bytes * options.max_decompression_ratio
  pub decoded-le : p.uncompressed_size ≤ e.max_decoded_bytes

saturated-le :
    (o : Option ℕ) (a b n : ℕ)
    → checked_multiply a b ≡ o
    → n ≤ elim o [ none ↦ u64_max | some product ↦ product ]
    → n ≤ u64_max
    → n ≤ a * b
saturated-le none a b n e h small = omega (arith, checked_multiply-none a b e)
saturated-le (some product) a b n e h small = omega (arith, (checked_multiply_iff a b product).0 e)

maximum_output-le :
    (options : ReaderOptions) (e : Extent) (n : ℕ)
    → n ≤ maximum_output options e
    → n ≤ u64_max
    → n ≤ e.serialized_bytes * options.max_decompression_ratio
maximum_output-le options e n =
    saturated-le (checked_multiply e.serialized_bytes options.max_decompression_ratio) _ _ n refl

shuffled_item :
    (tokens : List Bytes) (options : ReaderOptions) (e : Extent) {p : CompressionPlan}
    → parse_descriptor tokens options e ≡ ok p
    → (p.byte_shuffled ≡ false) ⊎ (p.item_size ≡ e.item_size) × (0 < p.item_size)
unfolding parse_descriptor
shuffled_item tokens options e {p} h = elim (Bool-cases p.byte_shuffled) [
  | inl shuffled ↦ inr (ground arith)
  | inr plain ↦ inl plain
]

parse_descriptor-IsDescriptor :
    (tokens : List Bytes) (options : ReaderOptions) (e : Extent) {p : CompressionPlan}
    → parse_descriptor tokens options e ≡ ok p
    → IsDescriptor options e p
unfolding parse_descriptor
parse_descriptor-IsDescriptor tokens options e {p} h = record {
  codec-ne-none = ground (
    arith,
    codec_of-ne-none (get_or tokens 0 []) {codec = p.codec} {byte_shuffled = p.byte_shuffled},
  );
  uncompressed-pos = ground arith;
  serialized-pos = ground arith;
  as_expected = ground arith;
  item = shuffled_item tokens options e h;
  ratio = ground (arith, maximum_output-le options e p.uncompressed_size);
  decoded-le = ground arith;
}

-- The plan of a block that is not compressed.
pub record IsPlain (e : Extent) (p : CompressionPlan) : Type 0 where
  pub no_codec : p.codec ≡ none_codec
  pub not_shuffled : p.byte_shuffled ≡ false
  pub no_subblocks : p.subblocks ≡ []
  pub whole : p.uncompressed_size ≡ e.serialized_bytes
  pub as_expected : differs e.expected_bytes p.uncompressed_size ≡ false
  pub decoded-le : p.uncompressed_size ≤ e.max_decoded_bytes

-- The plan of a compressed block: its subblocks are positive and add up to the serialized size and
-- to the declared size, which keeps the typed extent, the ratio and the limit.
pub record IsCompressed (options : ReaderOptions) (e : Extent) (p : CompressionPlan) : Type 0 where
  pub descriptor : IsDescriptor options e p
  pub compressed_total : compressed_sum p.subblocks ≡ e.serialized_bytes
  pub uncompressed_total : uncompressed_sum p.subblocks ≡ p.uncompressed_size
  pub positive : All IsPositive p.subblocks
  pub count-le : length p.subblocks ≤ max 1 options.max_compressed_subblocks

plain_plan-IsPlain :
    (subblocks : Bytes) (e : Extent) {p : CompressionPlan}
    → plain_plan subblocks e ≡ ok p
    → IsPlain e p
unfolding plain_plan
plain_plan-IsPlain subblocks e h = ground arith

no_totals-IsTotal : (max_subblocks : ℕ) → IsTotal max_subblocks no_totals
no_totals-IsTotal max_subblocks = ground arith

-- The plan with other subblocks keeps what its descriptor promises.
IsDescriptor-subblocks :
    {options : ReaderOptions} {e : Extent} (plan : CompressionPlan)
    (blocks : List CompressionSubblock)
    → IsDescriptor options e plan
    → IsDescriptor options e (record plan { subblocks = blocks })
IsDescriptor-subblocks plan blocks d = record {
  codec-ne-none = d.codec-ne-none;
  uncompressed-pos = d.uncompressed-pos;
  serialized-pos = d.serialized-pos;
  as_expected = d.as_expected;
  item = d.item;
  ratio = d.ratio;
  decoded-le = d.decoded-le;
}

plan_subblocks-IsCompressed :
    (subblocks : Bytes) (options : ReaderOptions) (e : Extent) (plan : CompressionPlan)
    {p : CompressionPlan}
    → IsDescriptor options e plan
    → plan_subblocks subblocks options e plan ≡ ok p
    → IsCompressed options e p
unfolding plan_subblocks
plan_subblocks-IsCompressed [] options e plan d h =
    subst (IsCompressed options e) (ok-injective h) (record {
      descriptor = IsDescriptor-subblocks plan _ d;
      compressed_total = omega arith;
      uncompressed_total = omega arith;
      positive = ((d.serialized-pos, d.uncompressed-pos), tt);
      count-le = omega arith;
    })
plan_subblocks-IsCompressed (c ∷ cs) options e plan {p} d h =
    let (totals, run, rest) =
      >>=-eq-ok (add_subblocks options.max_compressed_subblocks (split_on b':' (c ∷ cs)) no_totals)
        _ h in
    let done : (totals.total_compressed ≡ e.serialized_bytes)
        × (totals.total_uncompressed ≡ plan.uncompressed_size)
        × (record plan { subblocks = totals.subblocks } ≡ p) =
      ground (arith, rest) in
    let t =
      add_subblocks-IsTotal options.max_compressed_subblocks _ no_totals (no_totals-IsTotal _)
        run in
    subst (IsCompressed options e) done.2 (record {
      descriptor = IsDescriptor-subblocks plan totals.subblocks d;
      compressed_total = sym t.compressed_total ∙ done.0;
      uncompressed_total = sym t.uncompressed_total ∙ done.1;
      positive = t.positive;
      count-le = omega (arith, t.count-le);
    })

plan_of_sound :
    (empty : Bool) (compression subblocks : Bytes) (options : ReaderOptions) (e : Extent)
    {p : CompressionPlan}
    → plan_of empty compression subblocks options e ≡ ok p
    → (empty ≡ true) × IsPlain e p ⊎ (empty ≡ false) × IsCompressed options e p
unfolding plan_of
plan_of_sound true compression subblocks options e h = inl (refl, plain_plan-IsPlain subblocks e h)
plan_of_sound false compression subblocks options e h =
    let (plan, parsed, rest) =
      >>=-eq-ok (parse_descriptor (split_on b':' compression) options e) _ h in
    inr (
      refl,
      plan_subblocks-IsCompressed subblocks options e plan
          (parse_descriptor-IsDescriptor (split_on b':' compression) options e parsed) rest,
    )

-- A returned plan is that of an uncompressed or of a compressed block, within every limit.
pub parse_compression_plan_sound :
    (compression subblocks : Bytes) (options : ReaderOptions) (e : Extent) {p : CompressionPlan}
    → parse_compression_plan compression subblocks options e ≡ ok p
    → (e.serialized_bytes ≤ e.max_serialized_bytes)
      × ((is_empty compression ≡ true) × IsPlain e p
          ⊎ (is_empty compression ≡ false) × IsCompressed options e p)
unfolding parse_compression_plan
parse_compression_plan_sound compression subblocks options e {p} h =
    let passed : (e.serialized_bytes ≤ e.max_serialized_bytes)
        × (plan_of (is_empty compression) compression subblocks options e ≡ ok p) =
      ground arith in
    (passed.0, plan_of_sound (is_empty compression) compression subblocks options e passed.1)
