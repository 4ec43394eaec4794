-- ===== src/Identifier.antt =====
-- The names that src/reader.cpp accepts: unique identifiers, FITS keywords and property
-- identifiers. A `char` above 127 is negative in the source, outside every range, here as there.
pub mod Components
use mmxisf.Base.{
  ℕ, Bool, true, false, not, ◌&&◌, ◌||◌, [], ◌∷◌, leb, ◌==◌, if◌then◌else◌, length, all,
}
use mmxisf.Base.Text.{Bytes, is_empty}
use mmxisf.Base.Error.{◌>>=◌, ◌>>◌}

abbrev pub is_ascii_letter : ℕ → Bool
is_ascii_letter c = leb b'A' c && leb c b'Z' || leb b'a' c && leb c b'z'

abbrev pub is_start : ℕ → Bool
is_start c = c == b'_' || is_ascii_letter c

abbrev pub is_continue : ℕ → Bool
is_continue c = is_start c || leb b'0' c && leb c b'9'

unfoldable pub is_valid_unique_id : Bytes → Bool
is_valid_unique_id [] = false
is_valid_unique_id (c ∷ cs) = if not (is_start c) then false else all is_continue cs

abbrev pub is_keyword_character : ℕ → Bool
is_keyword_character c =
    leb b'A' c && leb c b'Z' || leb b'0' c && leb c b'9' || c == b'_' || c == b'-'

unfoldable pub is_valid_fits_keyword_name : Bytes → Bool
is_valid_fits_keyword_name value =
    not (is_empty value) && leb (length value) 8 && all is_keyword_character value

-- The loop over the characters.
unfoldable pub identifier_loop : Bool → Bytes → Bool
identifier_loop expect_start [] = not expect_start
identifier_loop expect_start (c ∷ cs) =
    let rest = identifier_loop (c == b':') cs in
    if c == b':'
    then not expect_start && rest
    else if expect_start
    then is_start c && rest
    else is_continue c && rest

unfoldable pub is_valid_property_identifier : Bytes → Bool
is_valid_property_identifier value = if is_empty value then false else identifier_loop true value
