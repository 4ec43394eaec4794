-- ===== src/Block/Parse/Subblocks.antt =====
-- The loop over the subblock pairs keeps the totals exact.
use mmxisf.Base.{
  ℕ, ◌+◌, ◌^◌, ◌≤◌, ◌<◌, ◌≡◌, subst, some, List, [], ◌∷◌, ◌++◌, arith, length, All, length-append,
}
use mmxisf.Base.Text.{Bytes, split_on}
use mmxisf.Base.Error.{ok, >>=-eq-ok, ok-injective}
use mmxisf.Word.{checked_add}
use mmxisf.Word.Checked.{checked_add_iff}
use mmxisf.Block.{CompressionSubblock}
use mmxisf.Block.Parse.{parse_subblock, Totals, add_subblock, add_subblocks}

abbrev pub compressed_sum : List CompressionSubblock → ℕ
compressed_sum [] = 0
compressed_sum (b ∷ bs) = b.compressed_size + compressed_sum bs

abbrev pub uncompressed_sum : List CompressionSubblock → ℕ
uncompressed_sum [] = 0
uncompressed_sum (b ∷ bs) = b.uncompressed_size + uncompressed_sum bs

abbrev pub IsPositive : CompressionSubblock → Type 0
IsPositive b = (0 < b.compressed_size) × (0 < b.uncompressed_size)

compressed_sum-append :
    (a b : List CompressionSubblock) → compressed_sum (a ++ b) ≡ compressed_sum a + compressed_sum b
compressed_sum-append [] b = omega arith
compressed_sum-append (x ∷ a) b = omega (arith, compressed_sum-append a b)

uncompressed_sum-append :
    (a b : List CompressionSubblock)
    → uncompressed_sum (a ++ b) ≡ uncompressed_sum a + uncompressed_sum b
uncompressed_sum-append [] b = omega arith
uncompressed_sum-append (x ∷ a) b = omega (arith, uncompressed_sum-append a b)

All-append {ℓ κ} :
    {A : Type ℓ} (P : A → Type κ) (xs ys : List A) → All P xs → All P ys → All P (xs ++ ys)
All-append P [] ys h k = k
All-append P (x ∷ xs) ys h k = (h.0, All-append P xs ys h.1 k)

-- The totals are those of the subblocks read so far, in 64 bits.
pub record IsTotal (max_subblocks : ℕ) (t : Totals) : Type 0 where
  pub compressed_total : t.total_compressed ≡ compressed_sum t.subblocks
  pub uncompressed_total : t.total_uncompressed ≡ uncompressed_sum t.subblocks
  pub compressed-lt : t.total_compressed < 2 ^ 64
  pub uncompressed-lt : t.total_uncompressed < 2 ^ 64
  pub positive : All IsPositive t.subblocks
  pub count-le : length t.subblocks ≤ max_subblocks

parse_subblock-IsPositive :
    (pieces : List Bytes) {b : CompressionSubblock} → parse_subblock pieces ≡ some b → IsPositive b
unfolding parse_subblock
parse_subblock-IsPositive [] e = cc
parse_subblock-IsPositive (a ∷ []) e = cc
parse_subblock-IsPositive (a ∷ b ∷ []) e = ground arith
parse_subblock-IsPositive (a ∷ b ∷ c ∷ r) e = cc

-- What a successful round has read.
add_subblock_inversion :
    (max_subblocks : ℕ) (piece : Bytes) (t : Totals) {u : Totals}
    → add_subblock max_subblocks piece t ≡ ok u
    → (b : CompressionSubblock) × (parse_subblock (split_on b',' piece) ≡ some b)
      × (length t.subblocks < max_subblocks)
      × (checked_add t.total_compressed b.compressed_size ≡ some u.total_compressed)
      × (checked_add t.total_uncompressed b.uncompressed_size ≡ some u.total_uncompressed)
      × (u.subblocks ≡ t.subblocks ++ (b ∷ []))
unfolding add_subblock
add_subblock_inversion max_subblocks piece t e = ground arith

add_subblock-IsTotal :
    (max_subblocks : ℕ) (piece : Bytes) (t : Totals) {u : Totals}
    → IsTotal max_subblocks t
    → add_subblock max_subblocks piece t ≡ ok u
    → IsTotal max_subblocks u
add_subblock-IsTotal max_subblocks piece t {u} h e =
    let (b, parsed, room, c, d, pushed) = add_subblock_inversion max_subblocks piece t e in
    let (c-eq, c-lt) = (checked_add_iff _ _ _ h.compressed-lt).0 c in
    let (d-eq, d-lt) = (checked_add_iff _ _ _ h.uncompressed-lt).0 d in
    record {
      compressed_total = rw (pushed, compressed_sum-append t.subblocks (b ∷ [])) (omega arith);
      uncompressed_total = rw (pushed, uncompressed_sum-append t.subblocks (b ∷ [])) (omega arith);
      compressed-lt = c-lt;
      uncompressed-lt = d-lt;
      positive = rw pushed (
          All-append IsPositive t.subblocks (b ∷ []) h.positive
            (parse_subblock-IsPositive _ parsed, tt));
      count-le = rw pushed (omega (arith, length-append t.subblocks (b ∷ [])));
    }

pub add_subblocks-IsTotal :
    (max_subblocks : ℕ) (pieces : List Bytes) (t : Totals) {u : Totals}
    → IsTotal max_subblocks t
    → add_subblocks max_subblocks pieces t ≡ ok u
    → IsTotal max_subblocks u
unfolding add_subblocks
add_subblocks-IsTotal max_subblocks [] t h e = subst (IsTotal max_subblocks) (ok-injective e) h
add_subblocks-IsTotal max_subblocks (piece ∷ pieces) t h e =
    let (next, one, rest) = >>=-eq-ok (add_subblock max_subblocks piece t) _ e in
    add_subblocks-IsTotal max_subblocks pieces next
      (add_subblock-IsTotal max_subblocks piece t h one) rest
