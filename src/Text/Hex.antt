-- ===== src/Text/Hex.antt =====
-- The package encoding/hex, on bytes as numbers below 256.
use routecat.Text.Chars.{Scalars}
use routecat.Prelude.{
  All, Bool, List, Option, [], ap, arith, false, if◌then◌else◌, leb, ltb, none, refl, some, true, ℕ,
  ◌%◌, ◌&&◌, ◌*◌, ◌+◌, ◌-◌, ◌/◌, ◌<◌, ◌∷◌, ◌≡◌,
}
use routecat.Text.{Text}

unfoldable pub hex_digit : ℕ → ℕ
hex_digit n = if ltb n 10 then 48 + n else 87 + n

-- hex.EncodeToString
unfoldable pub hex_encode : List ℕ → Text
unfolding hex_digit
hex_encode [] = []
hex_encode (b ∷ bs) = hex_digit (b / 16) ∷ hex_digit (b % 16) ∷ hex_encode bs

unfoldable pub hex_value : ℕ → Option ℕ
hex_value c =
    if leb 48 c && leb c 57
    then some (c - 48)
    else if leb 97 c && leb c 102
    then some (c - 87)
    else if leb 65 c && leb c 70
    then some (c - 55)
    else none

abbrev hex_byte : Option ℕ → Option ℕ → Option ℕ
hex_byte none low = none
hex_byte (some h) none = none
hex_byte (some h) (some l) = some (16 * h + l)

-- hex.DecodeString: the bytes before the first error, and whether there was none.
unfoldable pub hex_decode : Text → List ℕ × Bool
unfolding hex_value
hex_decode [] = ([], true)
hex_decode (c ∷ []) = ([], false)
hex_decode (c ∷ d ∷ s) =
    let rest = hex_decode s in
    elim (hex_byte (hex_value c) (hex_value d)) [
      | none ↦ ([], false)
      | some b ↦ (b ∷ rest.0, rest.1)
    ]

abbrev pub Bytes : List ℕ → Type 0
Bytes = All (λ b. b < 256)

hex_value-digit : (n : ℕ) → n < 16 → hex_value (hex_digit n) ≡ some n
unfolding hex_value hex_digit
hex_value-digit n h = ground arith

hex_byte-digits :
    (b : ℕ)
    → b < 256
    → hex_byte (hex_value (hex_digit (b / 16))) (hex_value (hex_digit (b % 16))) ≡ some b
hex_byte-digits b h =
    rw (hex_value-digit (b / 16) (omega (arith, h)), hex_value-digit (b % 16) (omega arith))
      (ap some (omega arith))

pub hex_decode-encode : (bs : List ℕ) → Bytes bs → hex_decode (hex_encode bs) ≡ (bs, true)
unfolding hex_decode hex_encode
hex_decode-encode [] h = refl
hex_decode-encode (b ∷ bs) h = rw (hex_decode, hex_byte-digits b h.0, hex_decode-encode bs h.1) refl

pub hex_encode-Scalars : (bs : List ℕ) → Bytes bs → Scalars (hex_encode bs)
unfolding hex_encode hex_digit
hex_encode-Scalars [] h = tt
hex_encode-Scalars (b ∷ bs) h = (ground (arith, h.0), (ground arith, hex_encode-Scalars bs h.1))
