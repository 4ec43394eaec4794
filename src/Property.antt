-- ===== src/Property.antt =====
-- src/property_types.hpp: the categories of property types and the layout of their elements.
pub mod Layout
use Prim.Native.String.{String}
use mmxisf.Base.{ℕ, Bool, true, false, ◌||◌, Option, none, some, List, [], ◌∷◌, if◌then◌else◌}
use mmxisf.Base.Text.{Bytes, codes, bytes_eq, contains}
use mmxisf.Base.Error.{◌>>=◌, ◌>>◌}

pub data PropertyCategory : Type 0 where
  scalar_or_complex string time_point vector matrix unknown : PropertyCategory

abbrev pub scalar_and_complex : List String
scalar_and_complex =
    "Boolean" ∷ "Int8" ∷ "UInt8" ∷ "Byte" ∷ "Int16" ∷ "Short" ∷ "UInt16" ∷ "UShort" ∷ "Int32"
    ∷ "Int" ∷ "UInt32" ∷ "UInt" ∷ "Int64" ∷ "Int128" ∷ "UInt64" ∷ "UInt128" ∷ "Float32" ∷ "Float"
    ∷ "Float64" ∷ "Double" ∷ "Float128" ∷ "Quad" ∷ "Complex32" ∷ "Complex64" ∷ "Complex"
    ∷ "Complex128" ∷ []

abbrev pub vectors : List String
vectors =
    "I8Vector" ∷ "UI8Vector" ∷ "ByteArray" ∷ "I16Vector" ∷ "UI16Vector" ∷ "I32Vector" ∷ "IVector"
    ∷ "UI32Vector" ∷ "UIVector" ∷ "I64Vector" ∷ "UI64Vector" ∷ "I128Vector" ∷ "UI128Vector"
    ∷ "F32Vector" ∷ "F64Vector" ∷ "Vector" ∷ "F128Vector" ∷ "C32Vector" ∷ "C64Vector" ∷ "C128Vector"
    ∷ []

abbrev pub matrices : List String
matrices =
    "I8Matrix" ∷ "UI8Matrix" ∷ "ByteMatrix" ∷ "I16Matrix" ∷ "UI16Matrix" ∷ "I32Matrix" ∷ "IMatrix"
    ∷ "UI32Matrix" ∷ "UIMatrix" ∷ "I64Matrix" ∷ "UI64Matrix" ∷ "I128Matrix" ∷ "UI128Matrix"
    ∷ "F32Matrix" ∷ "F64Matrix" ∷ "Matrix" ∷ "F128Matrix" ∷ "C32Matrix" ∷ "C64Matrix" ∷ "C128Matrix"
    ∷ []

unfoldable pub classify_property_type : Bytes → PropertyCategory
classify_property_type type =
    if contains scalar_and_complex type
    then scalar_or_complex
    else if bytes_eq type (codes "String")
    then string
    else if bytes_eq type (codes "TimePoint")
    then time_point
    else if contains vectors type
    then vector
    else if contains matrices type
    then matrix
    else unknown

pub record PropertyElementLayout : Type 0 where
  pub element_size : ℕ
  pub scalar_component_size : ℕ
  pub string_data : Bool

abbrev pub layout_of : ℕ → ℕ → Bool → PropertyElementLayout
layout_of size component is_string = record {
  element_size = size;
  scalar_component_size = component;
  string_data = is_string;
}

abbrev pub one_byte : List String
one_byte = "I8Vector" ∷ "UI8Vector" ∷ "ByteArray" ∷ "I8Matrix" ∷ "UI8Matrix" ∷ "ByteMatrix" ∷ []

abbrev pub two_byte : List String
two_byte = "I16Vector" ∷ "UI16Vector" ∷ "I16Matrix" ∷ "UI16Matrix" ∷ []

abbrev pub four_byte : List String
four_byte =
    "I32Vector" ∷ "IVector" ∷ "UI32Vector" ∷ "UIVector" ∷ "F32Vector" ∷ "I32Matrix" ∷ "IMatrix"
    ∷ "UI32Matrix" ∷ "UIMatrix" ∷ "F32Matrix" ∷ []

abbrev pub eight_byte : List String
eight_byte =
    "I64Vector" ∷ "UI64Vector" ∷ "F64Vector" ∷ "Vector" ∷ "I64Matrix" ∷ "UI64Matrix" ∷ "F64Matrix"
    ∷ "Matrix" ∷ []

abbrev pub sixteen_byte : List String
sixteen_byte =
    "I128Vector" ∷ "UI128Vector" ∷ "F128Vector" ∷ "I128Matrix" ∷ "UI128Matrix" ∷ "F128Matrix" ∷ []

unfoldable pub property_element_layout : Bytes → Option PropertyElementLayout
property_element_layout type =
    if bytes_eq type (codes "String")
    then some (layout_of 1 1 true)
    else if contains one_byte type
    then some (layout_of 1 1 false)
    else if contains two_byte type
    then some (layout_of 2 2 false)
    else if contains four_byte type
    then some (layout_of 4 4 false)
    else if contains eight_byte type
    then some (layout_of 8 8 false)
    else if contains sixteen_byte type
    then some (layout_of 16 16 false)
    else if bytes_eq type (codes "C32Vector") || bytes_eq type (codes "C32Matrix")
    then some (layout_of 8 4 false)
    else if bytes_eq type (codes "C64Vector") || bytes_eq type (codes "C64Matrix")
    then some (layout_of 16 8 false)
    else if bytes_eq type (codes "C128Vector") || bytes_eq type (codes "C128Matrix")
    then some (layout_of 32 16 false)
    else none
