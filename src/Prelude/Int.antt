-- ===== src/Prelude/Int.antt =====
-- Go's signed integers. `ℤ` is the mathematical integer, `wrap64` the value of a 64-bit result.
use Prim.Native.Nat.{ℕ, suc, ◌+◌, ◌-◌, ◌*◌, ◌/◌, ◌%◌, ◌^◌, ◌≤◌, ◌<◌}
use mathlib.Core.Path.{◌≡◌}
use mathlib.Core.Bool.{Bool}
use mathlib.Core.List.{List, [], ◌∷◌}
use native.Mathlib.Omega.{arith}
use routecat.Prelude.Tests.{ltb, leb, if◌then◌else◌}

-- `negsuc n` is -(n + 1).
pub data ℤ : Type 0 where
  pos : ℕ → ℤ
  negsuc : ℕ → ℤ

abbrev pub pos_part : ℤ → ℕ
pos_part (pos n) = n
pos_part (negsuc n) = 0

abbrev pub neg_part : ℤ → ℕ
neg_part (pos n) = 0
neg_part (negsuc n) = suc n

-- a - b, as an integer.
abbrev pub sub_ℕ : ℕ → ℕ → ℤ
sub_ℕ a b = if leb b a then pos (a - b) else negsuc (b - a - 1)

infixl 65 ◌+ℤ◌ ◌-ℤ◌
infix 50 ◌≤ℤ◌ ◌<ℤ◌
unfoldable pub ◌+ℤ◌ : ℤ → ℤ → ℤ
a +ℤ b = sub_ℕ (pos_part a + pos_part b) (neg_part a + neg_part b)

unfoldable pub ◌-ℤ◌ : ℤ → ℤ → ℤ
a -ℤ b = sub_ℕ (pos_part a + neg_part b) (neg_part a + pos_part b)

abbrev pub ◌≤ℤ◌ : ℤ → ℤ → Type 0
a ≤ℤ b = pos_part a + neg_part b ≤ pos_part b + neg_part a

abbrev pub ◌<ℤ◌ : ℤ → ℤ → Type 0
a <ℤ b = pos_part a + neg_part b < pos_part b + neg_part a

abbrev pub ltb_ℤ : ℤ → ℤ → Bool
ltb_ℤ a b = ltb (pos_part a + neg_part b) (pos_part b + neg_part a)

abbrev pub leb_ℤ : ℤ → ℤ → Bool
leb_ℤ a b = leb (pos_part a + neg_part b) (pos_part b + neg_part a)

pub +ℤ_parts :
    (a b : ℤ)
    → pos_part (a +ℤ b) + neg_part a + neg_part b ≡ neg_part (a +ℤ b) + pos_part a + pos_part b
unfolding ◌+ℤ◌
+ℤ_parts a b = ground arith

pub -ℤ_parts :
    (a b : ℤ)
    → pos_part (a -ℤ b) + neg_part a + pos_part b ≡ neg_part (a -ℤ b) + pos_part a + neg_part b
unfolding ◌-ℤ◌
-ℤ_parts a b = ground arith

pub eq_of_parts : (a b : ℤ) → pos_part a + neg_part b ≡ pos_part b + neg_part a → a ≡ b
eq_of_parts a b h = ground arith

pub ruleset int_laws = (arith, +ℤ_parts, -ℤ_parts, eq_of_parts)

-- The bit pattern of an int64, and the integer that a bit pattern stands for.
abbrev pub to_u64 : ℤ → ℕ
to_u64 (pos n) = n % 2 ^ 64
to_u64 (negsuc n) = 2 ^ 64 - 1 - n % 2 ^ 64

abbrev pub of_u64 : ℕ → ℤ
of_u64 u = if ltb u (2 ^ 63) then pos u else negsuc (2 ^ 64 - 1 - u)

-- The value that int64 arithmetic leaves of an integer.
unfoldable pub wrap64 : ℤ → ℤ
wrap64 z = of_u64 (to_u64 z)

abbrev pub IsInt64 : ℤ → Type 0
IsInt64 z = (pos_part z < 2 ^ 63) × (neg_part z ≤ 2 ^ 63)

-- In range nothing wraps.
pub wrap64_in_range : (z : ℤ) → IsInt64 z → wrap64 z ≡ z
unfolding wrap64
wrap64_in_range (pos n) h = ground arith
wrap64_in_range (negsuc n) h = ground arith

-- An integer between two of int64 is one.
pub IsInt64-between :
    (z : ℤ) (m n : ℕ) → pos 0 ≤ℤ z +ℤ pos m → z ≤ℤ pos n → m < 2 ^ 63 → n < 2 ^ 63 → IsInt64 z
unfolding ◌+ℤ◌
IsInt64-between (pos k) m n low high hm hn = ground arith
IsInt64-between (negsuc k) m n low high hm hn = ground arith

pub pos-+ℤ : (a b : ℕ) → pos a +ℤ pos b ≡ pos (a + b)
unfolding ◌+ℤ◌
pos-+ℤ a b = ground arith

-- Go's `/` by a positive constant on int64: it truncates towards zero.
unfoldable pub quot_ℤ : ℤ → ℕ → ℤ
quot_ℤ (pos n) d = pos (n / d)
quot_ℤ (negsuc n) d = sub_ℕ 0 (suc n / d)

-- int64 multiplication by a nonnegative constant, before it wraps.
unfoldable pub scale_ℤ : ℤ → ℕ → ℤ
scale_ℤ (pos n) d = pos (n * d)
scale_ℤ (negsuc n) d = sub_ℕ 0 (suc n * d)

-- `SUM(column) … WHERE …` over the rows of a table.
module _ {A : Type 0} where
  unfoldable pub sum_where : (A → Bool) → (A → ℤ) → List A → ℤ
  sum_where p f [] = pos 0
  sum_where p f (x ∷ xs) = (if p x then f x else pos 0) +ℤ sum_where p f xs
