-- ===== src/Text/Chars.antt =====
-- Go's conversion of code points to a string.
use routecat.Prelude.{
  All, Bool, Bool-cases, String, [], arith, false, inl, inr, ltb, refl, true, ℕ, ◌&&◌, ◌||◌, ◌∷◌,
  ◌≡◌,
}
use routecat.Text.{Text, codes}
use Prim.Native.Char.{Char, IsScalar, char, code}
use Prim.Native.Nat.{Ordering, compare}

-- The numbers that are Unicode scalar values.
abbrev pub is_scalar : ℕ → Bool
is_scalar n = ltb n 55296 || ltb 57343 n && ltb n 1114112

pub IsScalar-test : (n : ℕ) → is_scalar n ≡ true → IsScalar n
IsScalar-test n h = elim (Bool-cases (ltb n 55296)) [
  | inl small ↦ let e : compare n 55296 ≡ Ordering.lt = ground arith in rw e tt
  | inr large ↦
      let e : compare n 55296 ≡ Ordering.gt = ground arith in
      let f : compare 57343 n ≡ Ordering.lt = ground arith in
      let g : compare n 1114112 ≡ Ordering.lt = ground arith in rw (e, f, g) tt
]

abbrev pub char_if : (n : ℕ) (scalar : Bool) → (scalar ≡ true → IsScalar n) → Char
char_if n true p = char n (p refl)
char_if n false p = char 0xfffd tt

-- Any other number becomes U+FFFD.
abbrev pub char_of : ℕ → Char
char_of n = char_if n (is_scalar n) (IsScalar-test n)

abbrev pub of_codes : Text → String
of_codes [] = String.[]
of_codes (c ∷ s) = String.◌∷◌ (char_of c) (of_codes s)

abbrev pub Scalars : Text → Type 0
Scalars = All (λ c. is_scalar c ≡ true)

code-char_if :
    (n : ℕ) (scalar : Bool) (p : scalar ≡ true → IsScalar n)
    → scalar ≡ true
    → code (char_if n scalar p) ≡ n
code-char_if n true p h = refl
code-char_if n false p h = cc h

-- The code points of the string are those it was made of.
pub codes-of_codes : (s : Text) → Scalars s → codes (of_codes s) ≡ s
codes-of_codes [] h = refl
codes-of_codes (c ∷ s) h =
    rw (code-char_if c (is_scalar c) (IsScalar-test c) h.0, codes-of_codes s h.1) refl
