-- ===== src/Tests/Texts.antt =====
-- Attribute and property texts at concrete inputs.
use mmxisf.Base.{
  inl, inr, false, ◌≤◌, ◌≡◌, refl, ◌≢◌, ◌↔◌, true, [], ◌∷◌, ◌++◌, map, arith, all, All,
}
use mmxisf.Base.Text.{Bytes, codes, split_on, join}
use mmxisf.Base.Error.{ok}
use mmxisf.Number.{to_decimal}
use mmxisf.Document.{attachment}
use mmxisf.Location.{parse_geometry, parse_location}
use mmxisf.Location.RoundTrip.{IsAxis, parse_geometry_iff, parse_location-attachment}
use mmxisf.Property.{classify_property_type, scalar_or_complex}
use mmxisf.Value.{is_valid_integer_value, trim_xml_whitespace}
use mmxisf.Value.Integer.{IntegerWidth, w16}
use mmxisf.Value.Integer.Literal.{IsInteger, is_valid_integer_value_iff}
use mmxisf.Value.Scalar.{
  classify_property_value_kind, other, unsigned_integer, is_valid_scalar_or_complex_value,
}
use mmxisf.Value.Scalar.Kinds.{value_kind_iff_scalar}
use mmxisf.Value.Scalar.Integers.{IsIntegerName, scalar_integers_iff, integer_types_iff_names}
use mmxisf.Identifier.{is_valid_unique_id, is_valid_property_identifier}
use mmxisf.Identifier.Components.{property_identifier_iff_components}
use mmxisf.Time.{is_valid_time_point_value}
use mmxisf.Time.Accepted.{IsUtcText, canonical_iff_time_point}
use mmxisf.Writer.Time.{is_canonical_utc_time}

parse_geometry_iff_example : (All IsAxis (640 ∷ 480 ∷ 3 ∷ []) × (2 ≤ 3) × (3 ≤ 9)) ↔ (
    (text : Bytes) × (parse_geometry text ≡ ok (640 ∷ 480 ∷ 3 ∷ []))
    × (parse_geometry (join b':' (map to_decimal (640 ∷ 480 ∷ 3 ∷ []))) ≡ ok (640 ∷ 480 ∷ 3 ∷ [])))
parse_geometry_iff_example = parse_geometry_iff 640 (480 ∷ 3 ∷ [])

printed_location :
    codes "attachment:4096:123"
    ≡ codes "attachment:" ++ (to_decimal 4096 ++ (b':' ∷ to_decimal 123))
unfolding to_decimal mmxisf.Number.decimal_onto
printed_location = refl

parse_location-attachment_example :
    parse_location (codes "attachment:4096:123")
    ≡ record { kind = attachment; offset = 4096; size = 123; raw = codes "attachment:4096:123" }
parse_location-attachment_example =
    parse_location-attachment 4096 123 (omega arith) (omega arith) (codes "attachment:4096:123")
      printed_location

is_valid_integer_value_iff_example :
    (is_valid_integer_value (codes " -32768 ") true 16 ≡ true)
    ↔ IsInteger true w16 (trim_xml_whitespace (codes " -32768 "))
is_valid_integer_value_iff_example = is_valid_integer_value_iff (codes " -32768 ") true w16

scalar_integers_iff_example :
    (is_valid_scalar_or_complex_value (codes "UShort") (codes " 0xffff ") ≡ true)
    ↔ IsInteger false w16 (trim_xml_whitespace (codes " 0xffff "))
scalar_integers_iff_example =
    scalar_integers_iff false w16 (codes "UShort") (codes " 0xffff ") (inr (inl refl))

integer_types_iff_names_example :
    (classify_property_value_kind (codes "UInt64") ≡ unsigned_integer)
    ↔ ((width : IntegerWidth) × IsIntegerName false width (codes "UInt64"))
integer_types_iff_names_example = integer_types_iff_names (codes "UInt64") false

value_kind_iff_scalar_example :
    (classify_property_value_kind (codes "Quad") ≢ other)
    ↔ (classify_property_type (codes "Quad") ≡ scalar_or_complex)
value_kind_iff_scalar_example = value_kind_iff_scalar (codes "Quad")

property_identifier_iff_components_example :
    (is_valid_property_identifier (codes "PCL:Unit_1") ≡ true)
    ↔ (all is_valid_unique_id (split_on b':' (codes "PCL:Unit_1")) ≡ true)
property_identifier_iff_components_example = property_identifier_iff_components (codes "PCL:Unit_1")

leap_second : is_canonical_utc_time (codes "2016-12-31T23:59:60Z") ≡ true
unfolding is_canonical_utc_time mmxisf.Writer.Time.are_valid_numbers mmxisf.Writer.Time.parse_digits
    mmxisf.Writer.Time.digits_loop mmxisf.Writer.Time.is_valid_utc
leap_second = refl

canonical_iff_time_point_example : (is_canonical_utc_time (codes "2016-12-31T23:59:60Z") ≡ true) ↔ (
    IsUtcText (codes "2016-12-31T23:59:60Z")
    × (is_valid_time_point_value (codes "2016-12-31T23:59:60Z") ≡ true))
canonical_iff_time_point_example = canonical_iff_time_point (codes "2016-12-31T23:59:60Z")
