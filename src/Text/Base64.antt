-- ===== src/Text/Base64.antt =====
-- The package encoding/base64, on bytes as numbers below 256: StdEncoding and RawURLEncoding.
pub mod Symbols
pub mod RoundTrip
pub mod Foreign
use routecat.Prelude.{
  Bool, List, [], false, if◌then◌else◌, leb, ltb, true, ℕ, ◌%◌, ◌&&◌, ◌*◌, ◌+◌, ◌-◌, ◌/◌, ◌==◌,
  ◌||◌, ◌∷◌,
}
use routecat.Text.{Text}

pub data Encoding : Type 0 where
  -- with `+` and `/`, padded with `=`
  std : Encoding
  -- with `-` and `_`, without padding
  raw_url : Encoding

abbrev pub char_62 : Encoding → ℕ
char_62 std = b'+'
char_62 raw_url = b'-'

abbrev pub char_63 : Encoding → ℕ
char_63 std = b'/'
char_63 raw_url = b'_'

-- The alphabet: A to Z, a to z, 0 to 9 and the two characters of the encoding.
unfoldable pub base64_char : Encoding → ℕ → ℕ
base64_char e n =
    if ltb n 26
    then 65 + n
    else if ltb n 52
    then 71 + n
    else if ltb n 62
    then n - 4
    else if n == 62
    then char_62 e
    else char_63 e

abbrev pub padding_char : ℕ
padding_char = b'='

abbrev pub ends : Encoding → Text → Text
ends std s = s
ends raw_url s = []

-- EncodeToString
unfoldable pub base64_encode : Encoding → List ℕ → Text
base64_encode e [] = []
base64_encode e (a ∷ []) =
    base64_char e (a / 4) ∷ base64_char e (a % 4 * 16) ∷ ends e (padding_char ∷ padding_char ∷ [])
base64_encode e (a ∷ b ∷ []) =
    base64_char e (a / 4)
    ∷ base64_char e (a % 4 * 16 + b / 16)
    ∷ base64_char e (b % 16 * 4)
    ∷ ends e (padding_char ∷ [])
base64_encode e (a ∷ b ∷ c ∷ bs) =
    base64_char e (a / 4)
    ∷ base64_char e (a % 4 * 16 + b / 16)
    ∷ base64_char e (b % 16 * 4 + c / 64)
    ∷ base64_char e (c % 64)
    ∷ base64_encode e bs

-- What the decoder sees in a character.
pub data Symbol : Type 0 where
  digit : ℕ → Symbol
  padding : Symbol
  other : Symbol

abbrev pub padding_symbol : Encoding → Symbol
padding_symbol std = padding
padding_symbol raw_url = other

unfoldable pub symbol_of : Encoding → ℕ → Symbol
symbol_of e c =
    if leb 65 c && leb c 90
    then digit (c - 65)
    else if leb 97 c && leb c 122
    then digit (c - 71)
    else if leb 48 c && leb c 57
    then digit (c + 4)
    else if c == char_62 e
    then digit 62
    else if c == char_63 e
    then digit 63
    else if c == padding_char
    then padding_symbol e
    else other

abbrev pub is_newline : ℕ → Bool
is_newline c = c == 10 || c == 13

-- The decoder passes over line ends.
unfoldable pub symbols : Encoding → Text → List Symbol
unfolding symbol_of
symbols e [] = []
symbols e (c ∷ s) = let rest = symbols e s in if is_newline c then rest else symbol_of e c ∷ rest

abbrev pub byte_1 : ℕ → ℕ → ℕ
byte_1 p q = p * 4 + q / 16

abbrev pub byte_2 : ℕ → ℕ → ℕ
byte_2 q r = q % 16 * 16 + r / 4

abbrev pub byte_3 : ℕ → ℕ → ℕ
byte_3 r s = r % 4 * 64 + s

-- The end of the text inside a group of four characters.
abbrev cut_off : Encoding → List ℕ → List ℕ × Bool
cut_off std bytes = ([], false)
cut_off raw_url bytes = (bytes, true)

abbrev at_end : List Symbol → Bool
at_end [] = true
at_end (x ∷ xs) = false

-- The bytes before the first error, and whether there was none. A group that padding ends keeps its
-- bytes also where something follows it.
unfoldable pub decode_symbols : Encoding → List Symbol → List ℕ × Bool
decode_symbols e [] = ([], true)
decode_symbols e (digit p ∷ digit q ∷ []) = cut_off e (byte_1 p q ∷ [])
decode_symbols e (digit p ∷ digit q ∷ digit r ∷ []) = cut_off e (byte_1 p q ∷ byte_2 q r ∷ [])
decode_symbols e (digit p ∷ digit q ∷ digit r ∷ digit s ∷ xs) =
    let rest = decode_symbols e xs in (byte_1 p q ∷ byte_2 q r ∷ byte_3 r s ∷ rest.0, rest.1)
decode_symbols e (digit p ∷ digit q ∷ digit r ∷ padding ∷ xs) =
    (byte_1 p q ∷ byte_2 q r ∷ [], at_end xs)
decode_symbols e (digit p ∷ digit q ∷ padding ∷ padding ∷ xs) = (byte_1 p q ∷ [], at_end xs)
decode_symbols e _ = ([], false)

-- DecodeString
unfoldable pub base64_decode : Encoding → Text → List ℕ × Bool
unfolding decode_symbols symbols
base64_decode e s = decode_symbols e (symbols e s)
