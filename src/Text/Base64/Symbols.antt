-- ===== src/Text/Base64/Symbols.antt =====
-- Proofs about what a decoder of Text.Base64 sees of the groups that an encoder writes.
use routecat.Prelude.{arith, false, refl, ℕ, ◌%◌, ◌*◌, ◌+◌, ◌/◌, ◌<◌, ◌∷◌, ◌≡◌}
use routecat.Text.{Text}
use routecat.Text.Base64.{
  Encoding, Symbol, base64_char, digit, is_newline, raw_url, std, symbol_of, symbols,
}

pub symbol_of-base64_char :
    (e : Encoding) (n : ℕ) → n < 64 → symbol_of e (base64_char e n) ≡ digit n
unfolding symbol_of base64_char
symbol_of-base64_char std n h = ground arith
symbol_of-base64_char raw_url n h = ground arith

not_newline : (e : Encoding) (n : ℕ) → n < 64 → is_newline (base64_char e n) ≡ false
unfolding base64_char
not_newline std n h = ground arith
not_newline raw_url n h = ground arith

symbols-base64_char :
    (e d : Encoding) (n : ℕ) (s : Text)
    → n < 64
    → symbols d (base64_char e n ∷ s) ≡ symbol_of d (base64_char e n) ∷ symbols d s
unfolding symbols
symbols-base64_char e d n s h = rw (symbols, not_newline e n h) refl

abbrev pub group_chars : Encoding → ℕ → ℕ → ℕ → Text → Text
group_chars e a b c s =
    base64_char e (a / 4)
    ∷ base64_char e (a % 4 * 16 + b / 16)
    ∷ base64_char e (b % 16 * 4 + c / 64)
    ∷ base64_char e (c % 64)
    ∷ s

abbrev pub pair_chars : Encoding → ℕ → ℕ → Text → Text
pair_chars e a b s =
    base64_char e (a / 4) ∷ base64_char e (a % 4 * 16 + b / 16) ∷ base64_char e (b % 16 * 4) ∷ s

abbrev pub single_chars : Encoding → ℕ → Text → Text
single_chars e a s = base64_char e (a / 4) ∷ base64_char e (a % 4 * 16) ∷ s

-- The decoder `d` on the texts of the encoder `e`.
module _ (e d : Encoding) where
  abbrev pub seen : ℕ → Symbol
  seen n = symbol_of d (base64_char e n)

  pub symbols-group :
      (a b c : ℕ) (s : Text)
      → a < 256
      → b < 256
      → c < 256
      → symbols d (group_chars e a b c s)
        ≡ seen (a / 4)
          ∷ seen (a % 4 * 16 + b / 16)
          ∷ seen (b % 16 * 4 + c / 64)
          ∷ seen (c % 64)
          ∷ symbols d s
  symbols-group a b c s ha hb hc =
      rw
        (
          symbols-base64_char e d (a / 4) _ (omega arith),
          symbols-base64_char e d (a % 4 * 16 + b / 16) _ (omega arith),
          symbols-base64_char e d (b % 16 * 4 + c / 64) _ (omega arith),
          symbols-base64_char e d (c % 64) _ (omega arith),
        )
        refl

  pub symbols-pair :
      (a b : ℕ) (s : Text)
      → a < 256
      → b < 256
      → symbols d (pair_chars e a b s)
        ≡ seen (a / 4) ∷ seen (a % 4 * 16 + b / 16) ∷ seen (b % 16 * 4) ∷ symbols d s
  symbols-pair a b s ha hb =
      rw
        (
          symbols-base64_char e d (a / 4) _ (omega arith),
          symbols-base64_char e d (a % 4 * 16 + b / 16) _ (omega arith),
          symbols-base64_char e d (b % 16 * 4) _ (omega arith),
        )
        refl

  pub symbols-single :
      (a : ℕ) (s : Text)
      → a < 256
      → symbols d (single_chars e a s) ≡ seen (a / 4) ∷ seen (a % 4 * 16) ∷ symbols d s
  symbols-single a s ha =
      rw
        (
          symbols-base64_char e d (a / 4) _ (omega arith),
          symbols-base64_char e d (a % 4 * 16) _ (omega arith),
        )
        refl
