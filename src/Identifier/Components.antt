-- ===== src/Identifier/Components.antt =====
-- A property identifier is a sequence of unique identifiers.
use mmxisf.Base.{
  ℕ, ◌≡◌, refl, sym, ◌∙◌, ◌↔◌, inl, inr, Bool, true, false, ◌&&◌, List, [], ◌∷◌, arith, ◌==◌,
  Bool-cases, all,
}
use mmxisf.Base.Text.{Bytes, put, split_on}
use mmxisf.Identifier.{
  is_start, is_continue, is_valid_unique_id, identifier_loop, is_valid_property_identifier,
}

-- The rest of a component and the components behind it.
are_behind : List Bytes → Bool
are_behind [] = true
are_behind (rest ∷ components) = all is_continue rest && all is_valid_unique_id components

split_on-cons :
    (s : ℕ) (text : Bytes)
    → (piece : Bytes) × (pieces : List Bytes) × (split_on s text ≡ piece ∷ pieces)
split_on-cons s [] = ([], [], refl)
split_on-cons s (c ∷ cs) = elim (Bool-cases (c == s)) [
  | inl same ↦ ([], split_on s cs, rw same refl)
  | inr other ↦
      let (piece, pieces, e) = split_on-cons s cs in (c ∷ piece, pieces, rw (other, e) refl)
]

-- A character that is not a separator belongs to the first piece.
character_step :
    (c : ℕ) (pieces : List Bytes) (rest : Bool)
    → (piece : Bytes) × (more : List Bytes) × (pieces ≡ piece ∷ more)
    → rest ≡ are_behind pieces
    → (is_continue c && rest ≡ are_behind (put c pieces))
      × (is_start c && rest ≡ all is_valid_unique_id (put c pieces))
unfolding are_behind is_valid_unique_id
character_step c [] rest (piece, more, e) h = cc
character_step c (piece ∷ more) rest n h = ground arith

loop_components :
    (text : Bytes)
    → (identifier_loop false text ≡ are_behind (split_on b':' text))
      × (identifier_loop true text ≡ all is_valid_unique_id (split_on b':' text))
unfolding are_behind is_valid_unique_id identifier_loop
loop_components [] = ground arith
loop_components (c ∷ cs) =
    let (behind, components) = loop_components cs in
    elim (Bool-cases (c == b':')) [
      | inl same ↦ rw same (components, refl)
      | inr other ↦ rw other (
          character_step c (split_on b':' cs) (identifier_loop false cs) (split_on-cons b':' cs)
            behind)
    ]

-- A property identifier is accepted exactly when the components between its colons are unique
-- identifiers.
pub property_identifier_iff_components :
    (value : Bytes)
    → (is_valid_property_identifier value ≡ true)
      ↔ (all is_valid_unique_id (split_on b':' value) ≡ true)
unfolding is_valid_property_identifier is_valid_unique_id
property_identifier_iff_components [] = ground arith
property_identifier_iff_components (c ∷ cs) =
    let e = (loop_components (c ∷ cs)).1 in (λ h. sym e ∙ h, λ h. e ∙ h)
