-- ===== src/Base/Text.antt =====
-- `std::string_view` as a list of bytes, and the operations of it that the sources use.
use Prim.Native.Nat.{ℕ}
use Prim.Native.Char.{code}
use Prim.Native.String.{String}
use mathlib.Core.Path.{◌≡◌, refl, ap, ◌∙◌}
use mathlib.Core.Logic.{◌↔◌, inl, inr}
use mathlib.Core.Bool.{Bool, true, false, ◌&&◌, ◌||◌}
use mathlib.Core.List.{List, [], ◌∷◌, ◌++◌}
use mathlib.Core.Option.{Option, none, some}
use native.Mathlib.Omega.{arith}
use mmxisf.Base.Tests.{◌==◌, if◌then◌else◌, Bool-cases, and-eq-true}
use mmxisf.Base.Lists.{All, all}

abbrev pub Bytes : Type 0
Bytes = List ℕ

-- A string literal, which is ASCII in the sources.
abbrev pub codes : String → Bytes
codes String.[] = []
codes (String.◌∷◌ c s) = code c ∷ codes s

abbrev pub bytes_eq : Bytes → Bytes → Bool
bytes_eq [] [] = true
bytes_eq [] (y ∷ ys) = false
bytes_eq (x ∷ xs) [] = false
bytes_eq (x ∷ xs) (y ∷ ys) = x == y && bytes_eq xs ys

abbrev pub is_empty : Bytes → Bool
is_empty [] = true
is_empty (x ∷ xs) = false

-- `starts_with`, with the text behind the prefix
abbrev pub strip_prefix : Bytes → Bytes → Option Bytes
strip_prefix [] text = some text
strip_prefix (p ∷ ps) [] = none
strip_prefix (p ∷ ps) (c ∷ cs) = if p == c then strip_prefix ps cs else none

-- `std::find` over an array of names
unfoldable pub contains : List String → Bytes → Bool
contains [] text = false
contains (name ∷ names) text = bytes_eq text (codes name) || contains names text

-- The text before the first separator and the text behind it.
abbrev pub cut : ℕ → Bytes → Option (Bytes × Bytes)
cut separator [] = none
cut separator (c ∷ cs) =
    if c == separator
    then some ([], cs)
    else elim (cut separator cs) [ none ↦ none | some parts ↦ some (c ∷ parts.0, parts.1) ]

-- One step of the tokens in front of those of the rest.
abbrev pub put : ℕ → List Bytes → List Bytes
put c [] = (c ∷ []) ∷ []
put c (token ∷ tokens) = (c ∷ token) ∷ tokens

-- The pieces that a scan by `find(separator, start)` meets in turn, up to the end of the text.
abbrev pub split_on : ℕ → Bytes → List Bytes
split_on separator [] = [] ∷ []
split_on separator (c ∷ cs) =
    if c == separator then [] ∷ split_on separator cs else put c (split_on separator cs)

-- The pieces with the separator between them.
abbrev pub join : ℕ → List Bytes → Bytes
join separator [] = []
join separator (token ∷ []) = token
join separator (token ∷ next ∷ tokens) = token ++ (separator ∷ join separator (next ∷ tokens))

pub bytes_eq_iff : (a b : Bytes) → (bytes_eq a b ≡ true) ↔ (a ≡ b)
bytes_eq_iff [] [] = ground arith
bytes_eq_iff [] (y ∷ b) = ground arith
bytes_eq_iff (x ∷ a) [] = ground arith
bytes_eq_iff (x ∷ a) (y ∷ b) = ground (arith, bytes_eq_iff a b)

pub bytes_eq_refl : (a : Bytes) → bytes_eq a a ≡ true
bytes_eq_refl a = (bytes_eq_iff a a).1 refl

-- No byte of the text is `separator`.
abbrev pub Lacks : ℕ → Bytes → Type 0
Lacks separator = All (λ c. (c == separator) ≡ false)

pub split_on-Lacks : (s : ℕ) (text : Bytes) → Lacks s text → split_on s text ≡ text ∷ []
split_on-Lacks s [] h = refl
split_on-Lacks s (c ∷ cs) h = rw (h.0, split_on-Lacks s cs h.1)

pub split_on-append :
    (s : ℕ) (token rest : Bytes)
    → Lacks s token
    → split_on s (token ++ (s ∷ rest)) ≡ token ∷ split_on s rest
split_on-append s [] rest h = ground arith
split_on-append s (c ∷ cs) rest h = rw (h.0, split_on-append s cs rest h.1)

-- A printed list of pieces is scanned as those pieces.
pub split_on-join :
    (s : ℕ) (token : Bytes) (tokens : List Bytes)
    → Lacks s token
    → All (Lacks s) tokens
    → split_on s (join s (token ∷ tokens)) ≡ token ∷ tokens
split_on-join s token [] h hs = split_on-Lacks s token h
split_on-join s token (next ∷ tokens) h hs =
    rw (split_on-append s token (join s (next ∷ tokens)) h, split_on-join s next tokens hs.0 hs.1)

pub cut-append :
    (s : ℕ) (head tail : Bytes) → Lacks s head → cut s (head ++ (s ∷ tail)) ≡ some (head, tail)
cut-append s [] tail h = ground arith
cut-append s (c ∷ cs) tail h = rw (h.0, cut-append s cs tail h.1)

pub strip_prefix-append : (prefix text : Bytes) → strip_prefix prefix (prefix ++ text) ≡ some text
strip_prefix-append [] text = refl
strip_prefix-append (c ∷ cs) text = ground (arith, strip_prefix-append cs text)

-- A test that each name passes is passed by a text found among them.
pub contains-all :
    (test : Bytes → Bool) (names : List String) (text : Bytes)
    → all (λ name. test (codes name)) names ≡ true
    → contains names text ≡ true
    → test text ≡ true
unfolding contains
contains-all test [] text h e = cc
contains-all test (name ∷ names) text h e = elim (Bool-cases (bytes_eq text (codes name))) [
  | inl same ↦
      ap test ((bytes_eq_iff text (codes name)).0 same)
      ∙ (and-eq-true (test (codes name)) (all (λ name. test (codes name)) names) h).0
  | inr other ↦
      contains-all test names text
        (and-eq-true (test (codes name)) (all (λ name. test (codes name)) names) h).1 (ground arith)
]
