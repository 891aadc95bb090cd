-- ===== src/Text/Base64/Foreign.antt =====
-- Proofs about RawURLEncoding's decoder on the texts of StdEncoding (encoding/base64).
use routecat.Prelude.{
  Bool, Bool-cases, List, [], ap, arith, false, inl, inr, ltb, refl, true, ℕ, ◌%◌, ◌*◌, ◌+◌, ◌/◌,
  ◌<◌, ◌∙◌, ◌∷◌, ◌≡◌, ◌⊎◌,
}
use routecat.Text.{Text}
use routecat.Text.Hex.{Bytes}
use routecat.Text.Base64.{
  Symbol, base64_char, base64_decode, base64_encode, decode_symbols, digit, other, padding_char,
  raw_url, std, symbol_of, symbols,
}
use routecat.Text.Base64.Symbols.{
  group_chars, pair_chars, seen, single_chars, symbols-group, symbols-pair, symbols-single,
}
use routecat.Text.Base64.RoundTrip.{decode_symbols-group}

digit_or_other : (n : ℕ) → n < 64 → (seen std raw_url n ≡ digit n) ⊎ (seen std raw_url n ≡ other)
unfolding symbol_of base64_char
digit_or_other n h = elim (Bool-cases (ltb n 62)) [
  | inl small ↦ inl (ground arith)
  | inr large ↦ inr (ground arith)
]

-- The other decoder fails, or reads the same bytes.
abbrev pub FailsOrReads : List ℕ → List ℕ × Bool → Type 0
FailsOrReads bs out = (out.1 ≡ false) ⊎ (out ≡ (bs, true))

abbrev MayBe : Symbol → ℕ → Type 0
MayBe x n = (x ≡ digit n) ⊎ (x ≡ other)

refuses-padding :
    (x y : Symbol) (p q : ℕ) (xs : List Symbol)
    → MayBe x p
    → MayBe y q
    → (decode_symbols raw_url (x ∷ y ∷ other ∷ xs)).1 ≡ false
unfolding decode_symbols
refuses-padding x y p q xs (inr e) hy = rw e refl
refuses-padding x y p q xs (inl e) (inr f) = rw (e, f) refl
refuses-padding x y p q xs (inl e) (inl f) = rw (e, f) refl

refuses-pair :
    (x y z : Symbol) (p q r : ℕ) (xs : List Symbol)
    → MayBe x p
    → MayBe y q
    → MayBe z r
    → (decode_symbols raw_url (x ∷ y ∷ z ∷ other ∷ xs)).1 ≡ false
unfolding decode_symbols
refuses-pair x y z p q r xs hx hy (inr g) = rw g (refuses-padding x y p q (other ∷ xs) hx hy)
refuses-pair x y z p q r xs (inr e) hy (inl g) = rw e refl
refuses-pair x y z p q r xs (inl e) (inr f) (inl g) = rw (e, f) refl
refuses-pair x y z p q r xs (inl e) (inl f) (inl g) = rw (e, f, g) refl

reads-group :
    (x y z w : Symbol) (p q r s : ℕ) (xs : List Symbol)
    → MayBe x p
    → MayBe y q
    → MayBe z r
    → MayBe w s
    → ((decode_symbols raw_url (x ∷ y ∷ z ∷ w ∷ xs)).1 ≡ false)
      ⊎ (decode_symbols raw_url (x ∷ y ∷ z ∷ w ∷ xs)
          ≡ decode_symbols raw_url (digit p ∷ digit q ∷ digit r ∷ digit s ∷ xs))
unfolding decode_symbols
reads-group x y z w p q r s xs hx hy hz (inr k) = inl (rw k (refuses-pair x y z p q r xs hx hy hz))
reads-group x y z w p q r s xs hx hy (inr g) (inl k) =
    inl (rw g (refuses-padding x y p q (w ∷ xs) hx hy))
reads-group x y z w p q r s xs (inr e) hy (inl g) (inl k) = inl (rw e refl)
reads-group x y z w p q r s xs (inl e) (inr f) (inl g) (inl k) = inl (rw (e, f) refl)
reads-group x y z w p q r s xs (inl e) (inl f) (inl g) (inl k) = inr (rw (e, f, g, k) refl)

by_symbols :
    (bs : List ℕ) (s : Text) (xs : List Symbol)
    → symbols raw_url s ≡ xs
    → FailsOrReads bs (decode_symbols raw_url xs)
    → FailsOrReads bs (base64_decode raw_url s)
unfolding base64_decode
by_symbols bs s xs e h = rw e h

after_group :
    (a b c : ℕ) (bs : List ℕ) (xs : List Symbol)
    → a < 256
    → b < 256
    → c < 256
    → FailsOrReads bs (decode_symbols raw_url xs)
    → FailsOrReads (a ∷ b ∷ c ∷ bs) (
        decode_symbols raw_url (
          digit (a / 4)
          ∷ digit (a % 4 * 16 + b / 16)
          ∷ digit (b % 16 * 4 + c / 64)
          ∷ digit (c % 64)
          ∷ xs))
after_group a b c bs xs ha hb hc (inl fails) =
    inl (rw (decode_symbols-group raw_url a b c xs ha hb hc) fails)
after_group a b c bs xs ha hb hc (inr reads) =
    inr (rw (decode_symbols-group raw_url a b c xs ha hb hc, reads) refl)

reads_nothing : FailsOrReads [] (base64_decode raw_url [])
unfolding base64_decode decode_symbols symbols
reads_nothing = inr refl

group_reads :
    (a b c : ℕ) (bs : List ℕ) (s : Text)
    → a < 256
    → b < 256
    → c < 256
    → FailsOrReads bs (base64_decode raw_url s)
    → FailsOrReads (a ∷ b ∷ c ∷ bs) (base64_decode raw_url (group_chars std a b c s))
unfolding base64_decode
group_reads a b c bs s ha hb hc ih =
    by_symbols _ (group_chars std a b c s) _ (symbols-group std raw_url a b c s ha hb hc)
      (elim (reads-group _ _ _ _ _ _ _ _ (symbols raw_url s) (digit_or_other (a / 4) (omega arith))
        (digit_or_other (a % 4 * 16 + b / 16) (omega arith))
        (digit_or_other (b % 16 * 4 + c / 64) (omega arith))
        (digit_or_other (c % 64) (omega arith))) [
          | inl fails ↦ inl fails
          | inr same ↦ rw same (after_group a b c bs _ ha hb hc ih)
        ])

one_padding : symbols raw_url (padding_char ∷ []) ≡ other ∷ []
unfolding symbols
one_padding = refl

two_paddings : symbols raw_url (padding_char ∷ padding_char ∷ []) ≡ other ∷ other ∷ []
unfolding symbols
two_paddings = refl

pair_refused :
    (a b : ℕ)
    → a < 256
    → b < 256
    → (decode_symbols raw_url (
        seen std raw_url (a / 4)
        ∷ seen std raw_url (a % 4 * 16 + b / 16)
        ∷ seen std raw_url (b % 16 * 4)
        ∷ other
        ∷ [])).1
      ≡ false
pair_refused a b ha hb =
    refuses-pair _ _ _ _ _ _ [] (digit_or_other (a / 4) (omega arith))
      (digit_or_other (a % 4 * 16 + b / 16) (omega arith))
      (digit_or_other (b % 16 * 4) (omega arith))

single_refused :
    (a : ℕ)
    → a < 256
    → (decode_symbols raw_url
        (seen std raw_url (a / 4) ∷ seen std raw_url (a % 4 * 16) ∷ other ∷ other ∷ [])).1
      ≡ false
single_refused a ha =
    refuses-padding _ _ _ _ (other ∷ []) (digit_or_other (a / 4) (omega arith))
      (digit_or_other (a % 4 * 16) (omega arith))

pub raw_url_decode-std :
    (bs : List ℕ) → Bytes bs → FailsOrReads bs (base64_decode raw_url (base64_encode std bs))
unfolding base64_encode
raw_url_decode-std [] h = reads_nothing
raw_url_decode-std (a ∷ []) h =
    by_symbols _ (single_chars std a (padding_char ∷ padding_char ∷ [])) _
      (symbols-single std raw_url a _ h.0
        ∙ ap (λ xs. seen std raw_url (a / 4) ∷ seen std raw_url (a % 4 * 16) ∷ xs) two_paddings)
      (inl (single_refused a h.0))
raw_url_decode-std (a ∷ b ∷ []) h =
    by_symbols _ (pair_chars std a b (padding_char ∷ [])) _
      (symbols-pair std raw_url a b _ h.0 h.1.0
        ∙ ap
            (λ xs.
              seen std raw_url (a / 4)
              ∷ seen std raw_url (a % 4 * 16 + b / 16)
              ∷ seen std raw_url (b % 16 * 4)
              ∷ xs)
            one_padding)
      (inl (pair_refused a b h.0 h.1.0))
raw_url_decode-std (a ∷ b ∷ c ∷ bs) h =
    group_reads a b c bs _ h.0 h.1.0 h.1.1.0 (raw_url_decode-std bs h.1.1.1)
