-- ===== src/Property/Layout.antt =====
-- The table of layouts agrees with the categories: it has an entry for every vector and matrix
-- type and for no other type but `String`.
use mmxisf.Base.{
  ◌%◌, ◌<◌, ◌≡◌, refl, ap, ◌∙◌, ◌↔◌, ◌⊎◌, Bool, true, false, not, ◌&&◌, Option, none, some, arith,
  ltb, ◌==◌, all,
}
use mmxisf.Base.Text.{Bytes, codes, bytes_eq, contains-all, contains, bytes_eq_iff}
use mmxisf.Property.{
  PropertyCategory, vector, matrix, vectors, matrices, classify_property_type,
  PropertyElementLayout, property_element_layout, one_byte, two_byte, four_byte, eight_byte,
  sixteen_byte,
}

abbrev is_element : Option PropertyElementLayout → Bool
is_element none = false
is_element (some l) =
    not l.string_data
    && ltb 0 l.scalar_component_size
    && ltb 0 l.element_size
    && l.element_size % l.scalar_component_size == 0

abbrev is_container : PropertyCategory → Bool
is_container vector = true
is_container matrix = true
is_container _ = false

-- The layout of a type has elements of whole components.
has_elements : Bytes → Bool
has_elements type = is_element (property_element_layout type)

-- The type is a container.
contains_elements : Bytes → Bool
contains_elements type = is_container (classify_property_type type)

vectors-elements : all (λ name. has_elements (codes name)) vectors ≡ true
unfolding has_elements property_element_layout contains
vectors-elements = refl

matrices-elements : all (λ name. has_elements (codes name)) matrices ≡ true
unfolding has_elements property_element_layout contains
matrices-elements = refl

one_byte-container : all (λ name. contains_elements (codes name)) one_byte ≡ true
unfolding contains_elements classify_property_type contains
one_byte-container = refl

two_byte-container : all (λ name. contains_elements (codes name)) two_byte ≡ true
unfolding contains_elements classify_property_type contains
two_byte-container = refl

four_byte-container : all (λ name. contains_elements (codes name)) four_byte ≡ true
unfolding contains_elements classify_property_type contains
four_byte-container = refl

eight_byte-container : all (λ name. contains_elements (codes name)) eight_byte ≡ true
unfolding contains_elements classify_property_type contains
eight_byte-container = refl

sixteen_byte-container : all (λ name. contains_elements (codes name)) sixteen_byte ≡ true
unfolding contains_elements classify_property_type contains
sixteen_byte-container = refl

complex-container :
    (contains_elements (codes "C32Vector") ≡ true)
    × (contains_elements (codes "C32Matrix") ≡ true)
    × (contains_elements (codes "C64Vector") ≡ true)
    × (contains_elements (codes "C64Matrix") ≡ true)
    × (contains_elements (codes "C128Vector") ≡ true)
    × (contains_elements (codes "C128Matrix") ≡ true)
unfolding contains_elements classify_property_type contains
complex-container = (refl, refl, refl, refl, refl, refl)

-- A text that equals a container's name is a container.
by_name :
    (name : Bytes) (type : Bytes)
    → contains_elements name ≡ true
    → bytes_eq type name ≡ true
    → contains_elements type ≡ true
by_name name type h same = ap contains_elements ((bytes_eq_iff type name).0 same) ∙ h

container-elements : (type : Bytes) → contains_elements type ≡ true → has_elements type ≡ true
unfolding contains_elements classify_property_type
container-elements type h = ground (
  arith,
  contains-all has_elements vectors type vectors-elements,
  contains-all has_elements matrices type matrices-elements,
)

elements-container : (type : Bytes) → has_elements type ≡ true → contains_elements type ≡ true
unfolding has_elements property_element_layout
elements-container type h = ground (
  arith,
  contains-all contains_elements one_byte type one_byte-container,
  contains-all contains_elements two_byte type two_byte-container,
  contains-all contains_elements four_byte type four_byte-container,
  contains-all contains_elements eight_byte type eight_byte-container,
  contains-all contains_elements sixteen_byte type sixteen_byte-container,
  by_name (codes "C32Vector") type complex-container.0,
  by_name (codes "C32Matrix") type complex-container.1,
  by_name (codes "C64Vector") type complex-container.2,
  by_name (codes "C64Matrix") type complex-container.3,
  by_name (codes "C128Vector") type complex-container.4,
  by_name (codes "C128Matrix") type complex-container.5,
)

elements_of :
    (type : Bytes)
    → has_elements type ≡ true
    → (l : PropertyElementLayout) × (property_element_layout type ≡ some l)
      × (l.string_data ≡ false)
      × (0 < l.scalar_component_size)
      × (0 < l.element_size)
      × (l.element_size % l.scalar_component_size ≡ 0)
unfolding has_elements
elements_of type h = ground arith

of_elements :
    (type : Bytes) (l : PropertyElementLayout)
    → property_element_layout type ≡ some l
    → l.string_data ≡ false
    → 0 < l.scalar_component_size
    → 0 < l.element_size
    → l.element_size % l.scalar_component_size ≡ 0
    → has_elements type ≡ true
unfolding has_elements
of_elements type l e s c n m = ground arith

container_of :
    (type : Bytes)
    → contains_elements type ≡ true
    → (classify_property_type type ≡ vector) ⊎ (classify_property_type type ≡ matrix)
unfolding contains_elements
container_of type h = ground arith

of_container :
    (type : Bytes)
    → (classify_property_type type ≡ vector) ⊎ (classify_property_type type ≡ matrix)
    → contains_elements type ≡ true
unfolding contains_elements
of_container type h = ground arith

-- A property type is a vector or a matrix exactly when its layout is that of an array of elements,
-- which are then whole positive numbers of positive components.
pub container_iff_elements :
    (type : Bytes)
    → ((classify_property_type type ≡ vector) ⊎ (classify_property_type type ≡ matrix)) ↔ (
        (l : PropertyElementLayout) × (property_element_layout type ≡ some l)
        × (l.string_data ≡ false)
        × (0 < l.scalar_component_size)
        × (0 < l.element_size)
        × (l.element_size % l.scalar_component_size ≡ 0))
container_iff_elements type = (
  λ h. elements_of type (container-elements type (of_container type h)),
  λ (l, e, s, c, n, m). container_of type (elements-container type (of_elements type l e s c n m)),
)
