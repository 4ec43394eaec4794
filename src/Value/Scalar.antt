-- ===== src/Value/Scalar.antt =====
-- `is_valid_scalar_or_complex_value` of src/reader.cpp: the check that a property's type selects.
pub mod Kinds
pub mod Integers
use Prim.Native.String.{String}
use mmxisf.Base.{ℕ, Bool, true, false, ◌||◌, List, [], ◌∷◌, if◌then◌else◌}
use mmxisf.Base.Text.{Bytes, codes, bytes_eq, contains}
use mmxisf.Base.Error.{◌>>=◌, ◌>>◌}
use mmxisf.Value.{trim_xml_whitespace, is_valid_integer_value}
use mmxisf.Value.Floating.{is_valid_floating_point_value, is_valid_complex_value}

pub data PropertyValueKind : Type 0 where
  boolean signed_integer unsigned_integer floating_point complex other : PropertyValueKind

abbrev pub signed_integer_types : List String
signed_integer_types = "Int8" ∷ "Int16" ∷ "Short" ∷ "Int32" ∷ "Int" ∷ "Int64" ∷ "Int128" ∷ []

abbrev pub unsigned_integer_types : List String
unsigned_integer_types =
    "UInt8" ∷ "Byte" ∷ "UInt16" ∷ "UShort" ∷ "UInt32" ∷ "UInt" ∷ "UInt64" ∷ "UInt128" ∷ []

abbrev pub floating_point_types : List String
floating_point_types = "Float32" ∷ "Float" ∷ "Float64" ∷ "Double" ∷ "Float128" ∷ "Quad" ∷ []

abbrev pub complex_types : List String
complex_types = "Complex32" ∷ "Complex64" ∷ "Complex" ∷ "Complex128" ∷ []

unfoldable pub classify_property_value_kind : Bytes → PropertyValueKind
classify_property_value_kind type =
    if bytes_eq type (codes "Boolean")
    then boolean
    else if contains signed_integer_types type
    then signed_integer
    else if contains unsigned_integer_types type
    then unsigned_integer
    else if contains floating_point_types type
    then floating_point
    else if contains complex_types type
    then complex
    else other

abbrev pub eight_bit : List String
eight_bit = "Int8" ∷ "UInt8" ∷ "Byte" ∷ []

abbrev pub sixteen_bit : List String
sixteen_bit = "Int16" ∷ "Short" ∷ "UInt16" ∷ "UShort" ∷ []

abbrev pub thirty_two_bit : List String
thirty_two_bit = "Int32" ∷ "Int" ∷ "UInt32" ∷ "UInt" ∷ []

unfoldable pub integer_bit_width : Bytes → ℕ
integer_bit_width type =
    if contains eight_bit type
    then 8
    else if contains sixteen_bit type
    then 16
    else if contains thirty_two_bit type
    then 32
    else if bytes_eq type (codes "Int64") || bytes_eq type (codes "UInt64")
    then 64
    else if bytes_eq type (codes "Int128") || bytes_eq type (codes "UInt128")
    then 128
    else 0

abbrev pub boolean_values : List String
boolean_values = "true" ∷ "false" ∷ "0" ∷ "1" ∷ []

abbrev pub is_valid_value_of : PropertyValueKind → Bytes → Bytes → Bool
is_valid_value_of boolean type value = contains boolean_values (trim_xml_whitespace value)
is_valid_value_of signed_integer type value =
    is_valid_integer_value value true (integer_bit_width type)
is_valid_value_of unsigned_integer type value =
    is_valid_integer_value value false (integer_bit_width type)
is_valid_value_of floating_point type value = is_valid_floating_point_value value
is_valid_value_of complex type value = is_valid_complex_value value
is_valid_value_of other type value = false

unfoldable pub is_valid_scalar_or_complex_value : Bytes → Bytes → Bool
is_valid_scalar_or_complex_value type value =
    is_valid_value_of (classify_property_value_kind type) type value
