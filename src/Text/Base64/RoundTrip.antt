-- ===== src/Text/Base64/RoundTrip.antt =====
-- Proofs about a decoder on the texts of its own encoder (encoding/base64).
-- The bytes of a group, from its digits.
use routecat.Prelude.{List, [], arith, refl, true, ℕ, ◌%◌, ◌*◌, ◌+◌, ◌/◌, ◌<◌, ◌∷◌, ◌≡◌}
use routecat.Text.{Text}
use routecat.Text.Hex.{Bytes}
use routecat.Text.Base64.{
  Encoding, Symbol, base64_decode, base64_encode, byte_1, byte_2, decode_symbols, digit, ends,
  padding_char, raw_url, std, symbols,
}
use routecat.Text.Base64.Symbols.{
  group_chars, pair_chars, seen, single_chars, symbol_of-base64_char, symbols-group, symbols-pair,
  symbols-single,
}

bytes_of_group :
    (a b c : ℕ)
    → a < 256
    → b < 256
    → c < 256
    → (a / 4 * 4 + (a % 4 * 16 + b / 16) / 16 ≡ a)
      × ((a % 4 * 16 + b / 16) % 16 * 16 + (b % 16 * 4 + c / 64) / 4 ≡ b)
      × ((b % 16 * 4 + c / 64) % 4 * 64 + c % 64 ≡ c)
bytes_of_group a b c ha hb hc = (omega arith, omega arith, omega arith)

module _ (e : Encoding) where
  own : (n : ℕ) → n < 64 → seen e e n ≡ digit n
  own = symbol_of-base64_char e

  group_digits :
      (a b c : ℕ) (s : Text)
      → a < 256
      → b < 256
      → c < 256
      → symbols e (group_chars e a b c s)
        ≡ digit (a / 4)
          ∷ digit (a % 4 * 16 + b / 16)
          ∷ digit (b % 16 * 4 + c / 64)
          ∷ digit (c % 64)
          ∷ symbols e s
  group_digits a b c s ha hb hc =
      rw
        (
          symbols-group e e a b c s ha hb hc,
          own (a / 4) (omega arith),
          own (a % 4 * 16 + b / 16) (omega arith),
          own (b % 16 * 4 + c / 64) (omega arith),
          own (c % 64) (omega arith),
        )
        refl

  pair_digits :
      (a b : ℕ) (s : Text)
      → a < 256
      → b < 256
      → symbols e (pair_chars e a b s)
        ≡ digit (a / 4) ∷ digit (a % 4 * 16 + b / 16) ∷ digit (b % 16 * 4) ∷ symbols e s
  pair_digits a b s ha hb =
      rw
        (
          symbols-pair e e a b s ha hb,
          own (a / 4) (omega arith),
          own (a % 4 * 16 + b / 16) (omega arith),
          own (b % 16 * 4) (omega arith),
        )
        refl

  single_digits :
      (a : ℕ) (s : Text)
      → a < 256
      → symbols e (single_chars e a s) ≡ digit (a / 4) ∷ digit (a % 4 * 16) ∷ symbols e s
  single_digits a s ha =
      rw (symbols-single e e a s ha, own (a / 4) (omega arith), own (a % 4 * 16) (omega arith)) refl

pub decode_symbols-group :
    (e : Encoding) (a b c : ℕ) (xs : List Symbol)
    → a < 256
    → b < 256
    → c < 256
    → let rest = decode_symbols e xs in
      decode_symbols e (
        digit (a / 4)
        ∷ digit (a % 4 * 16 + b / 16)
        ∷ digit (b % 16 * 4 + c / 64)
        ∷ digit (c % 64)
        ∷ xs)
      ≡ (a ∷ b ∷ c ∷ rest.0, rest.1)
unfolding decode_symbols
decode_symbols-group e a b c xs ha hb hc =
    let (pa, pb, pc) = bytes_of_group a b c ha hb hc in rw (pa, pb, pc) refl

bytes_of_pair :
    (a b : ℕ)
    → a < 256
    → b < 256
    → (byte_1 (a / 4) (a % 4 * 16 + b / 16) ≡ a) × (byte_2 (a % 4 * 16 + b / 16) (b % 16 * 4) ≡ b)
bytes_of_pair a b ha hb = (omega arith, omega arith)

decode_symbols-pair :
    (e : Encoding) (a b : ℕ)
    → a < 256
    → b < 256
    → decode_symbols e (
        digit (a / 4)
        ∷ digit (a % 4 * 16 + b / 16)
        ∷ digit (b % 16 * 4)
        ∷ symbols e (ends e (padding_char ∷ [])))
      ≡ (a ∷ b ∷ [], true)
unfolding decode_symbols symbols
decode_symbols-pair std a b ha hb = let (pa, pb) = bytes_of_pair a b ha hb in rw (pa, pb) refl
decode_symbols-pair raw_url a b ha hb = let (pa, pb) = bytes_of_pair a b ha hb in rw (pa, pb) refl

byte_of_single : (a : ℕ) → a < 256 → byte_1 (a / 4) (a % 4 * 16) ≡ a
byte_of_single a ha = omega arith

decode_symbols-single :
    (e : Encoding) (a : ℕ)
    → a < 256
    → decode_symbols e
        (digit (a / 4) ∷ digit (a % 4 * 16) ∷ symbols e (ends e (padding_char ∷ padding_char ∷ [])))
      ≡ (a ∷ [], true)
unfolding decode_symbols symbols
decode_symbols-single std a ha = rw (byte_of_single a ha) refl
decode_symbols-single raw_url a ha = rw (byte_of_single a ha) refl

pub base64_decode-encode :
    (e : Encoding) (bs : List ℕ) → Bytes bs → base64_decode e (base64_encode e bs) ≡ (bs, true)
unfolding base64_decode base64_encode
base64_decode-encode e [] h = refl
base64_decode-encode e (a ∷ []) h = rw (single_digits e a _ h.0, decode_symbols-single e a h.0) refl
base64_decode-encode e (a ∷ b ∷ []) h =
    rw (pair_digits e a b _ h.0 h.1.0, decode_symbols-pair e a b h.0 h.1.0) refl
base64_decode-encode e (a ∷ b ∷ c ∷ bs) h =
    rw
      (
        group_digits e a b c _ h.0 h.1.0 h.1.1.0,
        decode_symbols-group e a b c _ h.0 h.1.0 h.1.1.0,
        base64_decode-encode e bs h.1.1.1,
      )
      refl
