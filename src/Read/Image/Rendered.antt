-- ===== src/Read/Image/Rendered.antt =====
-- What an image's bytes become in the output: the same on every path of `read_image_into`.
use mmxisf.Base.{
  ℕ, ◌+◌, ◌-◌, ◌*◌, ◌/◌, ◌%◌, ◌≤◌, ◌<◌, ◌≡◌, refl, sym, ap, ap₂, ◌∙◌, subst, inl, inr, Bool, true,
  false, arith, ltb, Bool-cases, length, get_or, not_ltb→le,
}
use mmxisf.Base.Division.{split-div, split-mod, quotient-lt, div-mod}
use mmxisf.Base.Text.{Bytes}
use mmxisf.Base.Error.{ok, StopToken, Never}
use mmxisf.Document.{PixelStorage, ByteOrder}
use mmxisf.Pixels.{Layout, output_index, input_byte, same_order}
use mmxisf.Pixels.Target.{coordinates_back}
use mmxisf.Pixels.Swap.{IsSwapped, swap_byte_order-IsSwapped}
use mmxisf.Pixels.Transform.{IsLayout, gathered}
use mmxisf.Pixels.Inverse.{same_order_comm}
use mmxisf.Plan.{ImageReadPlan}
use mmxisf.Read.Image.{layout_of_plan, reorder_image}

-- Every byte of the output is the one that the layout assigns to its place.
pub record IsRendered (l : Layout) (block out : Bytes) : Type 0 where
  pub same_length : length out ≡ l.sample_count * l.sample_size
  pub byte : (j : ℕ) → j < l.sample_count * l.sample_size → get_or out j 0 ≡ gathered l block j

-- A plan whose numbers belong together.
pub record IsShaped (plan : ImageReadPlan) (block : Bytes) : Type 0 where
  pub bytes : plan.sample_count * plan.sample_size ≡ plan.expected_bytes
  pub whole : plan.expected_bytes ≡ length block
  pub pixels : plan.sample_count / plan.channels * plan.channels ≡ plan.sample_count
  pub components : ℕ
  pub sample : components * plan.endian_component_size ≡ plan.sample_size
  pub positive : 0 < plan.sample_size
  pub size-le : plan.sample_size ≤ 16

pub IsShaped-IsLayout :
    (plan : ImageReadPlan) (block : Bytes) (storage : PixelStorage) (order : ByteOrder)
    → IsShaped plan block
    → IsLayout (layout_of_plan plan storage order)
IsShaped-IsLayout plan block storage order shaped = record {
  whole = shaped.pixels;
  components = shaped.components;
  sample = shaped.sample;
}

output_index-same :
    (storage : PixelStorage) (pixels channels index : ℕ)
    → index < pixels * channels
    → output_index storage storage pixels channels index ≡ index
unfolding output_index
output_index-same storage pixels channels index h =
    (coordinates_back pixels channels storage index h).sample-of

below_divisor : (b s : ℕ) → 0 < s → b % s < s
below_divisor b s h = grind arith

product_assoc : (a b c : ℕ) → a * (b * c) ≡ a * b * c
product_assoc a b c = grind arith

exact-div : (a s : ℕ) → 0 < s → a * s / s ≡ a
exact-div a s h = grind arith

regroup : (i n q s r : ℕ) → i * (n * s) + (q * s + r) ≡ (i * n + q) * s + r
regroup i n q s r = grind arith

-- The mirrored byte of a sample is the mirrored byte of a component.
mirrored :
    (j n s : ℕ)
    → 0 < s
    → j / (n * s) * (n * s) + input_byte false s (j % (n * s)) ≡ j / s * s + (s - j % s - 1)
unfolding input_byte
mirrored j n s pos =
    ap (λ b. i * (n * s) + b) (behind (q * s) r s r-lt)
    ∙ regroup i n q s (s - r - 1)
    ∙ sym (ap₂ (λ a b. a * s + (s - b - 1)) quotient remainder)
  where
    i : ℕ
    i = j / (n * s)

    q : ℕ
    q = j % (n * s) / s

    r : ℕ
    r = j % (n * s) % s

    r-lt : r < s
    r-lt = below_divisor (j % (n * s)) s pos

    behind : (a r s : ℕ) → r < s → a + s - r - 1 ≡ a + (s - r - 1)
    behind a r s h = omega arith

    at : j ≡ (i * n + q) * s + r
    at =
        sym (div-mod j (n * s))
        ∙ ap (λ b. i * (n * s) + b) (sym (div-mod (j % (n * s)) s))
        ∙ regroup i n q s r

    quotient : j / s ≡ i * n + q
    quotient = ap (λ x. x / s) at ∙ split-div (i * n + q) r s r-lt

    remainder : j % s ≡ r
    remainder = ap (λ x. x % s) at ∙ split-mod (i * n + q) r s r-lt

module _ (plan : ImageReadPlan) (block : Bytes) (shaped : IsShaped plan block)
    (order : ByteOrder) where
  abbrev same_layout : Layout
  same_layout = layout_of_plan plan plan.image.pixel_storage order

  component-positive : 0 < plan.endian_component_size
  component-positive =
      positive_factor shaped.components plan.endian_component_size
        (subst (λ n. 0 < n) (sym shaped.sample) shaped.positive)
    where
      positive_factor : (a b : ℕ) → 0 < a * b → 0 < b
      positive_factor a b h = grind arith

  -- In the storage of the block a byte keeps its sample.
  gathered-same :
      (j : ℕ)
      → j < plan.sample_count * plan.sample_size
      → gathered same_layout block j
        ≡ get_or block
            (j / plan.sample_size * plan.sample_size
              + input_byte
                  (same_order plan.image.byte_order order)
                  plan.endian_component_size
                  (j % plan.sample_size))
            0
  gathered-same j h =
      ap
        (λ i.
          get_or block
            (i * plan.sample_size
              + input_byte (same_order plan.image.byte_order order) plan.endian_component_size
                  (j % plan.sample_size))
            0)
        (output_index-same plan.image.pixel_storage (plan.sample_count / plan.channels)
          plan.channels (j / plan.sample_size)
          (rw shaped.pixels (quotient-lt j plan.sample_size plan.sample_count h)))

  kept-IsRendered :
      ((b : ℕ)
        → b < plan.sample_size
        → input_byte (same_order plan.image.byte_order order) plan.endian_component_size b ≡ b)
      → IsRendered same_layout block block
  kept-IsRendered keeps = record {
    same_length = sym (shaped.bytes ∙ shaped.whole);
    byte = λ j h. sym (
        gathered-same j h
        ∙ ap (λ b. get_or block (j / plan.sample_size * plan.sample_size + b) 0)
            (keeps (j % plan.sample_size) (below_divisor j plan.sample_size shaped.positive))
        ∙ ap (λ k. get_or block k 0) (div-mod j plan.sample_size));
  }

  swapped-IsRendered :
      (out : Bytes)
      → same_order plan.image.byte_order order ≡ false
      → IsSwapped plan.endian_component_size 0 (length block / plan.endian_component_size) block out
      → IsRendered same_layout block out
  swapped-IsRendered out differ swapped = record {
    same_length = swapped.same_length ∙ sym (shaped.bytes ∙ shaped.whole);
    byte = swapped_byte;
  }
    where
      s : ℕ
      s = plan.endian_component_size

      size : length block ≡ plan.sample_count * shaped.components * s
      size =
          sym (shaped.bytes ∙ shaped.whole)
          ∙ ap (λ n. plan.sample_count * n) (sym shaped.sample)
          ∙ product_assoc plan.sample_count shaped.components s

      inside :
          (j : ℕ)
          → j < plan.sample_count * plan.sample_size
          → get_or out (j / s * s + j % s) 0 ≡ get_or block (j / s * s + (s - j % s - 1)) 0
      inside j h =
          swapped.inside (j / s) (j % s) (omega arith)
            (subst (λ n. j / s < n)
              (sym (
                ap (λ n. n / s) size
                ∙ exact-div (plan.sample_count * shaped.components) s component-positive))
              (quotient-lt j s (plan.sample_count * shaped.components)
                (subst (λ n. j < n) (shaped.bytes ∙ shaped.whole ∙ size) h)))
            (below_divisor j s component-positive)

      there :
          (j : ℕ)
          → get_or block
              (j / plan.sample_size * plan.sample_size
                + input_byte (same_order plan.image.byte_order order) s (j % plan.sample_size))
              0
            ≡ get_or block
                (j / (shaped.components * s) * (shaped.components * s)
                  + input_byte false s (j % (shaped.components * s)))
                0
      there j =
          ap₂ (λ t n. get_or block (j / n * n + input_byte t s (j % n)) 0) differ
            (sym shaped.sample)

      swapped_byte :
          (j : ℕ)
          → j < plan.sample_count * plan.sample_size
          → get_or out j 0 ≡ gathered same_layout block j
      swapped_byte j h =
          ap (λ k. get_or out k 0) (sym (div-mod j s))
          ∙ inside j h
          ∙ ap (λ k. get_or block k 0) (sym (mirrored j shaped.components s component-positive))
          ∙ sym (gathered-same j h ∙ there j)

  single-component :
      plan.sample_size ≤ 1
      → (b : ℕ) → b < plan.sample_size
      → input_byte (same_order plan.image.byte_order order) plan.endian_component_size b ≡ b
  unfolding input_byte
  single-component small b h =
      go (same_order plan.image.byte_order order) plan.endian_component_size one_byte b
        (omega arith)
    where
      factor : (a b : ℕ) → 0 < a * b → a * b ≤ 1 → b ≡ 1
      factor a b h k = grind arith

      one_byte : plan.endian_component_size ≡ 1
      one_byte =
          factor shaped.components plan.endian_component_size
            (omega (arith, shaped.sample, shaped.positive)) (omega (arith, shaped.sample))

      go : (t : Bool) (s : ℕ) → s ≡ 1 → (b : ℕ) → b ≡ 0 → input_byte t s b ≡ b
      go true s one b zero_b = refl
      go false s one b zero_b = rw (zero_b, one) refl

  pub reorder_image-IsRendered :
      (stop : StopToken)
      → Never stop
      → (out : Bytes) × (reorder_image plan order stop plan.expected_bytes block
          ≡ (ok plan.expected_bytes, out))
        × IsRendered same_layout block out
  unfolding reorder_image input_byte
  reorder_image-IsRendered stop never = elim (Bool-cases (ltb 1 plan.sample_size)) [
    | inr small ↦ (
      block,
      rw small refl,
      kept-IsRendered (single-component (not_ltb→le 1 plan.sample_size small)),
    )
    | inl wide ↦ elim (Bool-cases (same_order plan.image.byte_order order)) [
      | inl same ↦ (
        block,
        rw (wide, same_order_comm order plan.image.byte_order, same) refl,
        kept-IsRendered (λ b h. same_byte same b),
      )
      | inr differ ↦
          let (out, runs, swapped) =
            swap_byte_order-IsSwapped block plan.endian_component_size stop never in
          (
            out,
            rw (wide, same_order_comm order plan.image.byte_order, differ, runs, shaped.whole) refl,
            swapped-IsRendered out differ swapped,
          )
    ]
  ]
    where
      same_byte :
          same_order plan.image.byte_order order ≡ true
          → (b : ℕ)
          → input_byte (same_order plan.image.byte_order order) plan.endian_component_size b ≡ b
      same_byte same b = rw same refl
