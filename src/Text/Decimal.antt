-- ===== src/Text/Decimal.antt =====
-- The verb %d of the package fmt for an int64: what Sprintf writes and Sscanf reads.
use routecat.Prelude.{
  Bool, Bool-cases, Option, [], ap, arith, if◌then◌else◌, inl, inr, leb, ltb, none, refl, some, suc,
  zero, ℕ, ◌%◌, ◌&&◌, ◌*◌, ◌+◌, ◌-◌, ◌/◌, ◌<◌, ◌==◌, ◌^◌, ◌∙◌, ◌∷◌, ◌≡◌, ◌≤◌,
}
use routecat.Prelude.Int.{IsInt64, negsuc, pos, sub_ℕ, ℤ}
use routecat.Text.{Text, is_space}

unfoldable pub decimal_fuel : ℕ → ℕ → Text → Text
decimal_fuel zero n rest = rest
decimal_fuel (suc fuel) n rest =
    let higher = decimal_fuel fuel (n / 10) ((48 + n % 10) ∷ rest) in
    if ltb n 10 then (48 + n) ∷ rest else higher

-- An int64 has at most 19 digits.
abbrev pub decimal : ℕ → Text
decimal n = decimal_fuel 19 n []

-- Sprintf("%d", z)
unfoldable pub sprint_int : ℤ → Text
unfolding decimal_fuel
sprint_int (pos n) = decimal n
sprint_int (negsuc n) = b'-' ∷ decimal (suc n)

abbrev is_digit : ℕ → Bool
is_digit c = leb 48 c && leb c 57

-- The digits at the start of a text, behind those that are read.
unfoldable pub read_digits : ℕ → Text → ℕ
read_digits n [] = n
read_digits n (c ∷ s) =
    let rest = read_digits (n * 10 + (c - 48)) s in if is_digit c then rest else n

-- At least one digit.
unfoldable pub read_ℕ : Text → Option ℕ
unfolding read_digits
read_ℕ [] = none
read_ℕ (c ∷ s) = let n = read_digits 0 (c ∷ s) in if is_digit c then some n else none

-- A line end in front of the number is an error.
unfoldable pub skip_space : Text → Option Text
skip_space [] = some []
skip_space (c ∷ s) =
    let rest = skip_space s in if c == 10 then none else if is_space c then rest else some (c ∷ s)

-- strconv.ParseInt refuses what is out of range.
abbrev positive : Option ℕ → Option ℤ
positive none = none
positive (some n) = if ltb n (2 ^ 63) then some (pos n) else none

abbrev negative : Option ℕ → Option ℤ
negative none = none
negative (some n) = if leb n (2 ^ 63) then some (sub_ℕ 0 n) else none

unfoldable pub signed : Text → Option ℤ
unfolding read_ℕ
signed [] = none
signed (c ∷ s) =
    if c == b'-'
    then negative (read_ℕ s)
    else if c == b'+'
    then positive (read_ℕ s)
    else positive (read_ℕ (c ∷ s))

-- Sscanf(s, "%d", …): the number, if it is read.
unfoldable pub sscan_int : Text → Option ℤ
unfolding skip_space signed
sscan_int s = elim (skip_space s) [ none ↦ none | some rest ↦ signed rest ]

abbrev pow_10 : ℕ → ℕ
pow_10 zero = 1
pow_10 (suc k) = 10 * pow_10 k

read_digits-decimal :
    (fuel n : ℕ) (rest : Text)
    → n < pow_10 (suc fuel)
    → read_digits 0 (decimal_fuel (suc fuel) n rest) ≡ read_digits n rest
unfolding read_digits decimal_fuel
read_digits-decimal zero n rest h = ground arith
read_digits-decimal (suc fuel) n rest h = elim (Bool-cases (ltb n 10)) [
  | inl one_digit ↦ ground arith
  | inr more ↦
      rw
        (
          decimal_fuel,
          more,
          read_digits-decimal fuel (n / 10) ((48 + n % 10) ∷ rest) (omega (arith, h)),
        )
        (ground arith)
]

-- A written number starts with a digit.
abbrev Starts : Text → Type 0
Starts [] = ⊥
Starts (c ∷ s) = (48 ≤ c) × (c ≤ 57)

decimal-Starts :
    (fuel n : ℕ) (rest : Text) → n < pow_10 (suc fuel) → Starts (decimal_fuel (suc fuel) n rest)
unfolding decimal_fuel
decimal-Starts zero n rest h = ground arith
decimal-Starts (suc fuel) n rest h =
    ground (arith, decimal-Starts fuel (n / 10) ((48 + n % 10) ∷ rest))

read_ℕ-Starts : (s : Text) → Starts s → read_ℕ s ≡ some (read_digits 0 s)
unfolding read_ℕ
read_ℕ-Starts [] h = elim h [ ]
read_ℕ-Starts (c ∷ s) h = ground arith

read_ℕ-decimal : (n : ℕ) → n ≤ 2 ^ 63 → read_ℕ (decimal n) ≡ some n
unfolding read_digits
read_ℕ-decimal n h =
    read_ℕ-Starts (decimal n) (decimal-Starts 18 n [] (omega (arith, h)))
    ∙ ap some (read_digits-decimal 18 n [] (omega (arith, h)))

signed-Starts : (s : Text) → Starts s → sscan_int s ≡ positive (read_ℕ s)
unfolding sscan_int skip_space signed is_space
signed-Starts [] h = elim h [ ]
signed-Starts (c ∷ s) h = ground arith

sscan_int-minus : (s : Text) → sscan_int (b'-' ∷ s) ≡ negative (read_ℕ s)
unfolding sscan_int skip_space signed is_space
sscan_int-minus s = refl

-- What is written is read again.
pub sscan_int-sprint_int : (z : ℤ) → IsInt64 z → sscan_int (sprint_int z) ≡ some z
unfolding sprint_int sscan_int
sscan_int-sprint_int (pos n) h =
    rw
      (
        signed-Starts (decimal n) (decimal-Starts 18 n [] (omega (arith, h.0))),
        read_ℕ-decimal n (omega (arith, h.0)),
      )
      (ground (arith, h.0))
sscan_int-sprint_int (negsuc n) h =
    sscan_int-minus (decimal (suc n)) ∙ rw (read_ℕ-decimal (suc n) h.1) (ground (arith, h.1))
