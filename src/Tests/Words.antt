-- ===== src/Tests/Words.antt =====
-- Words, numbers and the tables of types at concrete inputs.
use mmxisf.Base.{◌+◌, ◌*◌, ◌%◌, ◌^◌, ◌≤◌, ◌<◌, ◌≡◌, refl, ◌↔◌, ◌⊎◌, true, false, some, arith}
use mmxisf.Base.Text.{codes}
use mmxisf.Base.Error.{ok}
use mmxisf.Word.{checked_multiply, checked_add, align_up, align_by}
use mmxisf.Word.Checked.{checked_multiply_iff, checked_add_iff}
use mmxisf.Word.Align.{align_up-least}
use mmxisf.Number.{parse_unsigned, to_decimal}
use mmxisf.Number.RoundTrip.{parse_unsigned-to_decimal}
use mmxisf.Property.{
  classify_property_type, vector, matrix, PropertyElementLayout, property_element_layout,
}
use mmxisf.Property.Layout.{container_iff_elements}
use mmxisf.Document.Names.{
  resolution, ancillary_kind, ancillary_kind_name, is_core_element, ancillary_kind_iff,
}

checked_multiply_iff_example :
    (checked_multiply 4294967296 4294967295 ≡ some 18446744069414584320)
    ↔ ((4294967296 * 4294967295 ≡ 18446744069414584320) × (18446744069414584320 < 2 ^ 64))
checked_multiply_iff_example = checked_multiply_iff 4294967296 4294967295 18446744069414584320

checked_add_iff_example :
    (checked_add 18446744073709551610 5 ≡ some 18446744073709551615)
    ↔ ((18446744073709551610 + 5 ≡ 18446744073709551615) × (18446744073709551615 < 2 ^ 64))
checked_add_iff_example = checked_add_iff 18446744073709551610 5 18446744073709551615 (omega arith)

aligned_up : align_up 4097 (2 ^ 12) ≡ ok 8192
unfolding align_up align_by checked_add
aligned_up = refl

align_up-least_example :
    (8192 % 2 ^ 12 ≡ 0) × (4097 ≤ 8192) × (8192 < 4097 + 2 ^ 12) × (8192 < 2 ^ 64)
align_up-least_example = align_up-least 4097 12 (omega arith) aligned_up

parse_unsigned-to_decimal_example :
    parse_unsigned (to_decimal 18446744073709551615) ≡ some 18446744073709551615
parse_unsigned-to_decimal_example = parse_unsigned-to_decimal 18446744073709551615 (omega arith)

container_iff_elements_example :
    ((classify_property_type (codes "C64Matrix") ≡ vector)
      ⊎ (classify_property_type (codes "C64Matrix") ≡ matrix))
    ↔ ((l : PropertyElementLayout) × (property_element_layout (codes "C64Matrix") ≡ some l)
        × (l.string_data ≡ false)
        × (0 < l.scalar_component_size)
        × (0 < l.element_size)
        × (l.element_size % l.scalar_component_size ≡ 0))
container_iff_elements_example = container_iff_elements (codes "C64Matrix")

ancillary_kind_iff_example :
    ((ancillary_kind (codes "Resolution") ≡ some resolution)
      ↔ (codes "Resolution" ≡ codes (ancillary_kind_name resolution)))
    × (is_core_element (codes (ancillary_kind_name resolution)) ≡ true)
ancillary_kind_iff_example = ancillary_kind_iff (codes "Resolution") resolution
