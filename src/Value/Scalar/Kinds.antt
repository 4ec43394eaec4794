-- ===== src/Value/Scalar/Kinds.antt =====
-- The tables of scalar types agree.
use mmxisf.Base.{◌≡◌, refl, ap, ◌∙◌, ◌≢◌, ◌↔◌, Bool, true, false, arith, all}
use mmxisf.Base.Text.{Bytes, codes, bytes_eq, contains-all, contains, bytes_eq_iff}
use mmxisf.Property.{scalar_or_complex, scalar_and_complex, classify_property_type}
use mmxisf.Value.Scalar.{
  PropertyValueKind, other, signed_integer_types, unsigned_integer_types, floating_point_types,
  complex_types, classify_property_value_kind,
}

is_known : PropertyValueKind → Bool
is_known other = false
is_known _ = true

has_kind : Bytes → Bool
has_kind type = is_known (classify_property_value_kind type)

scalar-kinds : all (λ name. has_kind (codes name)) scalar_and_complex ≡ true
unfolding has_kind is_known classify_property_value_kind contains
scalar-kinds = refl

in_table : Bytes → Bool
in_table type = contains scalar_and_complex type

tables :
    (all (λ name. in_table (codes name)) signed_integer_types ≡ true)
    × (all (λ name. in_table (codes name)) unsigned_integer_types ≡ true)
    × (all (λ name. in_table (codes name)) floating_point_types ≡ true)
    × (all (λ name. in_table (codes name)) complex_types ≡ true)
    × (in_table (codes "Boolean") ≡ true)
unfolding in_table contains
tables = (refl, refl, refl, refl, refl)

boolean-table : (type : Bytes) → bytes_eq type (codes "Boolean") ≡ true → in_table type ≡ true
boolean-table type h = ap in_table ((bytes_eq_iff type (codes "Boolean")).0 h) ∙ tables.4

kind-table : (type : Bytes) → has_kind type ≡ true → in_table type ≡ true
unfolding has_kind is_known classify_property_value_kind
kind-table type h = ground (
  arith,
  contains-all in_table signed_integer_types type tables.0,
  contains-all in_table unsigned_integer_types type tables.1,
  contains-all in_table floating_point_types type tables.2,
  contains-all in_table complex_types type tables.3,
  boolean-table type,
)

table-kind : (type : Bytes) → in_table type ≡ true → has_kind type ≡ true
unfolding in_table
table-kind type h = contains-all has_kind scalar_and_complex type scalar-kinds h

table-category :
    (type : Bytes) → (in_table type ≡ true) ↔ (classify_property_type type ≡ scalar_or_complex)
unfolding in_table classify_property_type
table-category type = ground arith

kind-known : (type : Bytes) → (has_kind type ≡ true) ↔ (classify_property_value_kind type ≢ other)
unfolding has_kind is_known
kind-known type = known_iff (classify_property_value_kind type)
  where
    known_iff : (kind : PropertyValueKind) → (is_known kind ≡ true) ↔ (kind ≢ other)
    known_iff kind = ground arith

-- The two tables of scalar types agree: a type has a value check exactly when it is classified as a
-- scalar or complex type.
pub value_kind_iff_scalar :
    (type : Bytes)
    → (classify_property_value_kind type ≢ other)
      ↔ (classify_property_type type ≡ scalar_or_complex)
value_kind_iff_scalar type = (
  λ k. (table-category type).0 (kind-table type ((kind-known type).1 k)),
  λ c. (kind-known type).0 (table-kind type ((table-category type).1 c)),
)
