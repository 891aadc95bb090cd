-- ===== src/Text.antt =====
-- The functions of Go's package strings that the code calls, over texts as lists of code points.
pub mod Split
pub mod Decimal
pub mod Base64
pub mod Chars
pub mod Hex
use Prim.Native.Char.{code}
use routecat.Prelude.{
  Bool, List, Option, String, [], false, if◌then◌else◌, leb, ltb, none, reverse, some, true, ℕ,
  ◌&&◌, ◌+◌, ◌==◌, ◌||◌, ◌∷◌,
}

abbrev pub Text : Type 0
Text = List ℕ

-- The code points of a literal.
abbrev pub codes : String → Text
codes String.[] = []
codes (String.◌∷◌ c s) = code c ∷ codes s

abbrev pub newline : ℕ
newline = 10

-- unicode.IsSpace
unfoldable pub is_space : ℕ → Bool
is_space c =
    leb 9 c && leb c 13
    || c == 32
    || c == 0x85
    || c == 0xa0
    || c == 0x1680
    || leb 0x2000 c && leb c 0x200a
    || c == 0x2028
    || c == 0x2029
    || c == 0x202f
    || c == 0x205f
    || c == 0x3000

unfoldable pub trim_left : Text → Text
unfolding is_space
trim_left [] = []
trim_left (c ∷ s) = let rest = trim_left s in if is_space c then rest else c ∷ s

-- strings.TrimSpace
unfoldable pub trim_space : Text → Text
unfolding trim_left
trim_space s = reverse (trim_left (reverse (trim_left s)))

-- What is left of a text behind a prefix.
unfoldable pub after_prefix : Text → Text → Option Text
after_prefix [] s = some s
after_prefix (p ∷ ps) [] = none
after_prefix (p ∷ ps) (c ∷ s) = if p == c then after_prefix ps s else none

abbrev is_some : Option Text → Bool
is_some none = false
is_some (some s) = true

-- strings.HasPrefix
unfoldable pub has_prefix : Text → Text → Bool
unfolding after_prefix
has_prefix s p = is_some (after_prefix p s)

-- strings.HasSuffix
unfoldable pub has_suffix : Text → Text → Bool
unfolding has_prefix
has_suffix s p = has_prefix (reverse s) (reverse p)

-- strings.TrimPrefix
unfoldable pub trim_prefix : Text → Text → Text
unfolding after_prefix
trim_prefix s p = elim (after_prefix p s) [ none ↦ s | some rest ↦ rest ]

-- strings.Contains
unfoldable pub contains : Text → Text → Bool
unfolding has_prefix
contains [] p = has_prefix [] p
contains (c ∷ s) p = has_prefix (c ∷ s) p || contains s p

abbrev cons_first : ℕ → List Text → List Text
cons_first c [] = (c ∷ []) ∷ []
cons_first c (line ∷ lines) = (c ∷ line) ∷ lines

-- strings.Split at a separator of one character
unfoldable pub split : ℕ → Text → List Text
split sep [] = [] ∷ []
split sep (c ∷ s) = let rest = split sep s in if c == sep then [] ∷ rest else cons_first c rest

-- strings.SplitN(s, sep, 2), where it finds the separator
unfoldable pub split_two : ℕ → Text → Option (Text × Text)
split_two sep [] = none
split_two sep (c ∷ s) =
    let rest = split_two sep s in
    if c == sep
    then some ([], s)
    else (elim rest [ none ↦ none | some (left, right) ↦ some (c ∷ left, right) ])

abbrev pub utf8_width : ℕ → ℕ
utf8_width c = if ltb c 0x80 then 1 else if ltb c 0x800 then 2 else if ltb c 0x10000 then 3 else 4

-- Go's len(s) counts the bytes of the UTF-8 form.
unfoldable pub byte_length : Text → ℕ
byte_length [] = 0
byte_length (c ∷ s) = utf8_width c + byte_length s

unfoldable pub is_nil : Text → Bool
is_nil [] = true
is_nil (c ∷ s) = false

unfoldable pub text_eq : Text → Text → Bool
text_eq [] [] = true
text_eq [] (d ∷ t) = false
text_eq (c ∷ s) [] = false
text_eq (c ∷ s) (d ∷ t) = c == d && text_eq s t
