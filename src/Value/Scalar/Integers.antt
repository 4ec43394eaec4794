-- ===== src/Value/Scalar/Integers.antt =====
-- The names of the integer types, and the literals that are accepted for them.
use mmxisf.Base.{
  IsOneOf, List, [], ◌∷◌, ◌++◌, All, if◌then◌else◌, subst, ◌≡◌, refl, sym, ap, ◌∙◌, ◌↔◌, inl, inr,
  Bool, true, false, ◌||◌, arith, Bool-cases, all,
}
use mmxisf.Base.Text.{Bytes, codes, bytes_eq, contains-all, contains, bytes_eq_iff}
use mmxisf.Value.{trim_xml_whitespace, is_valid_integer_value}
use mmxisf.Value.Integer.{IntegerWidth, w8, w16, w32, w64, w128, bits}
use mmxisf.Value.Integer.Literal.{IsInteger, is_valid_integer_value_iff}
use mmxisf.Value.Scalar.{
  PropertyValueKind, signed_integer, unsigned_integer, signed_integer_types, unsigned_integer_types,
  classify_property_value_kind, integer_bit_width, is_valid_scalar_or_complex_value,
}
use mmxisf.Number.{to_decimal}

-- The short names of integer types.
abbrev pub short_names : Bool → IntegerWidth → List Bytes
short_names true w16 = codes "Short" ∷ []
short_names true w32 = codes "Int" ∷ []
short_names true _ = []
short_names false w8 = codes "Byte" ∷ []
short_names false w16 = codes "UShort" ∷ []
short_names false w32 = codes "UInt" ∷ []
short_names false _ = []

-- The names of the integer types of a width: one spells the number of bits out.
abbrev pub integer_names : Bool → IntegerWidth → List Bytes
integer_names is_signed width =
    ((if is_signed then codes "Int" else codes "UInt") ++ to_decimal (bits width))
    ∷ short_names is_signed width

abbrev pub IsIntegerName : Bool → IntegerWidth → Bytes → Type 0
IsIntegerName is_signed width type = IsOneOf (integer_names is_signed width) type

abbrev pub IsIntegerKind : PropertyValueKind → Bool → Type 0
IsIntegerKind kind true = kind ≡ signed_integer
IsIntegerKind kind false = kind ≡ unsigned_integer

-- What the code's tables say of a name.
IsClassified : Bool → IntegerWidth → Bytes → Type 0
IsClassified is_signed width type =
    IsIntegerKind (classify_property_value_kind type) is_signed
    × (integer_bit_width type ≡ bits width)

All-IsOneOf :
    (P : Bytes → Type 0) (names : List Bytes) (type : Bytes)
    → All P names
    → IsOneOf names type
    → P type
All-IsOneOf P [] type holds none_is = absurd none_is
All-IsOneOf P (name ∷ names) type (h, hs) (inl e) = subst P (sym e) h
All-IsOneOf P (name ∷ names) type (h, hs) (inr later) = All-IsOneOf P names type hs later

names-IsClassified :
    (is_signed : Bool) (width : IntegerWidth)
    → All (IsClassified is_signed width) (integer_names is_signed width)
unfolding IsClassified classify_property_value_kind integer_bit_width contains to_decimal
    mmxisf.Number.decimal_onto
names-IsClassified true w8 = ((refl, refl), tt)
names-IsClassified true w16 = ((refl, refl), ((refl, refl), tt))
names-IsClassified true w32 = ((refl, refl), ((refl, refl), tt))
names-IsClassified true w64 = ((refl, refl), tt)
names-IsClassified true w128 = ((refl, refl), tt)
names-IsClassified false w8 = ((refl, refl), ((refl, refl), tt))
names-IsClassified false w16 = ((refl, refl), ((refl, refl), tt))
names-IsClassified false w32 = ((refl, refl), ((refl, refl), tt))
names-IsClassified false w64 = ((refl, refl), tt)
names-IsClassified false w128 = ((refl, refl), tt)

integer_check :
    (type value : Bytes) (is_signed : Bool)
    → IsIntegerKind (classify_property_value_kind type) is_signed
    → is_valid_scalar_or_complex_value type value
      ≡ is_valid_integer_value value is_signed (integer_bit_width type)
unfolding is_valid_scalar_or_complex_value
integer_check type value true h = rw h refl
integer_check type value false h = rw h refl

-- A value of an integer type is accepted exactly when, without the whitespace around it, it is an
-- integer literal of the sign and width that the type's name stands for: `Int` or `UInt` with the
-- number of bits, or one of the short names.
pub scalar_integers_iff :
    (is_signed : Bool) (width : IntegerWidth) (type value : Bytes)
    → IsIntegerName is_signed width type
    → (is_valid_scalar_or_complex_value type value ≡ true)
      ↔ IsInteger is_signed width (trim_xml_whitespace value)
unfolding IsClassified
scalar_integers_iff is_signed width type value named =
    let (kind, e) =
      All-IsOneOf (IsClassified is_signed width) (integer_names is_signed width) type
        (names-IsClassified is_signed width) named in
    let check =
      integer_check type value is_signed kind ∙ ap (is_valid_integer_value value is_signed) e in
    let exact = is_valid_integer_value_iff value is_signed width in
    (λ v. exact.0 (sym check ∙ v), λ v. check ∙ exact.1 v)

is_one_of : List Bytes → Bytes → Bool
is_one_of [] type = false
is_one_of (name ∷ names) type = bytes_eq type name || is_one_of names type

is_one_of_sound :
    (names : List Bytes) (type : Bytes) → is_one_of names type ≡ true → IsOneOf names type
unfolding is_one_of
is_one_of_sound [] type h = cc
is_one_of_sound (name ∷ names) type h = elim (Bool-cases (bytes_eq type name)) [
  | inl same ↦ inl ((bytes_eq_iff type name).0 same)
  | inr differ ↦ inr (is_one_of_sound names type (rw differ at h))
]

has_width : Bool → Bytes → Bool
has_width is_signed type =
    is_one_of (integer_names is_signed w8) type
    || is_one_of (integer_names is_signed w16) type
    || is_one_of (integer_names is_signed w32) type
    || is_one_of (integer_names is_signed w64) type
    || is_one_of (integer_names is_signed w128) type

has_width_sound :
    (is_signed : Bool) (type : Bytes)
    → has_width is_signed type ≡ true
    → (width : IntegerWidth) × IsIntegerName is_signed width type
unfolding has_width
has_width_sound is_signed type h = elim (Bool-cases (is_one_of (integer_names is_signed w8) type)) [
  | inl e ↦ (w8, is_one_of_sound (integer_names is_signed w8) type e)
  | inr a ↦ elim (Bool-cases (is_one_of (integer_names is_signed w16) type)) [
    | inl e ↦ (w16, is_one_of_sound (integer_names is_signed w16) type e)
    | inr b ↦ elim (Bool-cases (is_one_of (integer_names is_signed w32) type)) [
      | inl e ↦ (w32, is_one_of_sound (integer_names is_signed w32) type e)
      | inr c ↦ elim (Bool-cases (is_one_of (integer_names is_signed w64) type)) [
        | inl e ↦ (w64, is_one_of_sound (integer_names is_signed w64) type e)
        | inr d ↦ (w128, is_one_of_sound (integer_names is_signed w128) type (rw (a, b, c, d) at h))
      ]
    ]
  ]
]

signed-widths : all (λ name. has_width true (codes name)) signed_integer_types ≡ true
unfolding has_width is_one_of to_decimal mmxisf.Number.decimal_onto
signed-widths = refl

unsigned-widths : all (λ name. has_width false (codes name)) unsigned_integer_types ≡ true
unfolding has_width is_one_of to_decimal mmxisf.Number.decimal_onto
unsigned-widths = refl

kind-has_width :
    (type : Bytes) (is_signed : Bool)
    → IsIntegerKind (classify_property_value_kind type) is_signed
    → has_width is_signed type ≡ true
unfolding classify_property_value_kind
kind-has_width type true h =
    contains-all (has_width true) signed_integer_types type signed-widths (ground arith)
kind-has_width type false h =
    contains-all (has_width false) unsigned_integer_types type unsigned-widths (ground arith)

-- A type is classified as a signed or as an unsigned integer exactly when its name is one of the
-- names of that sign and some width.
pub integer_types_iff_names :
    (type : Bytes) (is_signed : Bool)
    → IsIntegerKind (classify_property_value_kind type) is_signed
      ↔ ((width : IntegerWidth) × IsIntegerName is_signed width type)
unfolding IsClassified
integer_types_iff_names type is_signed = (
  λ kind. has_width_sound is_signed type (kind-has_width type is_signed kind),
  λ (width, named).
      (All-IsOneOf (IsClassified is_signed width) (integer_names is_signed width) type
        (names-IsClassified is_signed width) named).0,
)
