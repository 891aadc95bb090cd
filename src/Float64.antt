-- ===== src/Float64.antt =====
-- Go's float64, as internal/billing/billing.go and internal/gateway/gateway.go use it: an interface of
-- the operations, and the laws of IEEE 754 arithmetic that the theorems rely on.
pub mod FixedPoint
use routecat.Prelude.{Bool, true, ℕ, ◌*◌, ◌<◌, ◌^◌, ◌≡◌, ◌≤◌}
use routecat.Prelude.Int.{pos, ℤ, ◌≤ℤ◌}

pub record Float64 : Type 1 where
  pub F : Type 0
  -- float64(n)
  pub of_int : ℤ → F
  -- the literal n / 10 ^ k
  pub lit : ℕ → ℕ → F
  pub add : F → F → F
  pub sub : F → F → F
  pub mul : F → F → F
  pub div : F → F → F
  -- x <= y
  pub le : F → F → Bool
  -- int64(x): it truncates
  pub to_int : F → ℤ

-- Integers up to here are exact.
abbrev pub max_exact : ℕ
max_exact = 2 ^ 53

-- On nonnegative numbers: the order, monotone rounding, and exact results where they fit a mantissa.
pub record FloatLaws (fl : Float64) : Type 0 where
  pub le_refl : (x : fl.F) → fl.le x x ≡ true
  pub le_trans : (x y z : fl.F) → fl.le x y ≡ true → fl.le y z ≡ true → fl.le x z ≡ true
  pub of_int_mono : (a b : ℕ) → a ≤ b → fl.le (fl.of_int (pos a)) (fl.of_int (pos b)) ≡ true
  pub to_int-of_int : (a : ℕ) → a ≤ max_exact → fl.to_int (fl.of_int (pos a)) ≡ pos a
  pub to_int_mono :
      (x y : fl.F)
      → fl.le x y ≡ true
      → fl.le y (fl.of_int (pos max_exact)) ≡ true
      → fl.to_int x ≤ℤ fl.to_int y
  pub mul_mono :
      (x y z w : fl.F)
      → fl.le (fl.of_int (pos 0)) x ≡ true
      → fl.le x y ≡ true
      → fl.le (fl.of_int (pos 0)) z ≡ true
      → fl.le z w ≡ true
      → fl.le (fl.mul x z) (fl.mul y w) ≡ true
  pub div_mono :
      (x y : fl.F) (b : ℕ)
      → 0 < b
      → fl.le (fl.of_int (pos 0)) x ≡ true
      → fl.le x y ≡ true
      → fl.le (fl.div x (fl.of_int (pos b))) (fl.div y (fl.of_int (pos b))) ≡ true
  pub mul_exact :
      (a b : ℕ)
      → a * b ≤ max_exact
      → fl.mul (fl.of_int (pos a)) (fl.of_int (pos b)) ≡ fl.of_int (pos (a * b))
  pub div_exact :
      (a b : ℕ)
      → 0 < b
      → a * b ≤ max_exact
      → fl.div (fl.of_int (pos (a * b))) (fl.of_int (pos b)) ≡ fl.of_int (pos a)
  -- Each operation has a relative error of at most 2 ^ -53, so a product with the rounded quotient
  -- m / t exceeds m by less than one unit, and the conversion drops that.
  pub scale_back :
      (m t : ℕ)
      → 0 < t
      → m ≤ t
      → t ≤ max_exact
      → fl.to_int (fl.mul (fl.of_int (pos t)) (fl.div (fl.of_int (pos m)) (fl.of_int (pos t))))
        ≤ℤ pos m
  pub quotient_nonneg :
      (m t : ℕ)
      → 0 < t
      → fl.le (fl.of_int (pos 0)) (fl.div (fl.of_int (pos m)) (fl.of_int (pos t))) ≡ true
  pub scaled_exact :
      (m t : ℕ)
      → 0 < t
      → m ≤ t
      → t ≤ max_exact
      → fl.le
          (fl.mul (fl.of_int (pos t)) (fl.div (fl.of_int (pos m)) (fl.of_int (pos t))))
          (fl.of_int (pos max_exact))
        ≡ true
