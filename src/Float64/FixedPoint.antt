-- ===== src/Float64/FixedPoint.antt =====
-- A number type that meets the laws of Float64: nonnegative multiples of 10 ^ -12, rounded down.
use native.Mathlib.Nat.{
  div-mul-le_self, mul-div-le, le-div_iff_mul-le, le_trans, mul-le-mul, mul-le-mul_right,
  mul-div_cancel, mul_assoc, div-eq_of_eq-mul_left, div-le_of_le-mul,
}
use routecat.Prelude.{ap, arith, leb, true, ℕ, ◌*◌, ◌+◌, ◌-◌, ◌/◌, ◌<◌, ◌^◌, ◌≡◌, ◌≤◌}
use routecat.Prelude.Int.{negsuc, pos, ℤ}
use routecat.Float64.{Float64, FloatLaws}

abbrev pub unit : ℕ
unit = 1000000000000

abbrev fixed_of_int : ℤ → ℕ
fixed_of_int (pos n) = n * unit
fixed_of_int (negsuc n) = 0

abbrev pub fixed_point : Float64
fixed_point = record {
  F = ℕ;
  of_int = fixed_of_int;
  lit = λ n k. n * unit / 10 ^ k;
  add = λ x y. x + y;
  sub = λ x y. x - y;
  mul = λ x y. x * y / unit;
  div = λ x y. x * unit / y;
  le = leb;
  to_int = λ x. pos (x / unit);
}

unit_pos : 0 < unit
unit_pos = omega arith

div_mono : {x y : ℕ} (b : ℕ) → 0 < b → x ≤ y → x / b ≤ y / b
div_mono {x} {y} b p h = (le-div_iff_mul-le p).1 (le_trans (div-mul-le_self x b) h)

fixed_mul_mono : (x y z w : ℕ) → x ≤ y → z ≤ w → x * z / unit ≤ y * w / unit
fixed_mul_mono x y z w h k = div_mono unit (omega arith) (mul-le-mul h k)

fixed_div_mono : (x y b : ℕ) → 0 < b → x ≤ y → x * unit / (b * unit) ≤ y * unit / (b * unit)
fixed_div_mono x y b p h = div_mono (b * unit) (omega arith) (mul-le-mul_right unit h)

fixed_mul_exact : (a b : ℕ) → a * unit * (b * unit) / unit ≡ a * b * unit
fixed_mul_exact a b =
    rw (← mul_assoc (a * unit) b unit, mul-div_cancel (a * unit * b) unit_pos) (omega arith)

fixed_div_exact : (a b : ℕ) → 0 < b → a * b * unit * unit / (b * unit) ≡ a * unit
fixed_div_exact a b p =
    div-eq_of_eq-mul_left {n = b * unit} {m = a * b * unit * unit} {k = a * unit} (omega arith)
      (omega arith)

fixed_scale_back : (m t : ℕ) → 0 < t → t * unit * (m * unit * unit / (t * unit)) / unit ≤ m * unit
fixed_scale_back m t p =
    div-le_of_le-mul unit (omega (arith, mul-div-le (m * unit * unit) (t * unit)))

fixed_scaled : (m t : ℕ) → 0 < t → t * unit * (m * unit * unit / (t * unit)) / unit / unit ≤ m
fixed_scaled m t p = div-le_of_le-mul unit (omega (arith, fixed_scale_back m t p))

to_leb : (a b : ℕ) → a ≤ b → leb a b ≡ true
to_leb a b h = ground arith

of_leb : (a b : ℕ) → leb a b ≡ true → a ≤ b
of_leb a b h = ground arith

pub fixed_point-FloatLaws : FloatLaws fixed_point
fixed_point-FloatLaws = record {
  le_refl = λ x. to_leb x x (omega arith);
  le_trans = λ x y z h k. to_leb x z (le_trans (of_leb x y h) (of_leb y z k));
  of_int_mono = λ a b h. to_leb (a * unit) (b * unit) (mul-le-mul_right unit h);
  to_int-of_int = λ a h. ap pos (mul-div_cancel a {n = unit} (omega arith));
  to_int_mono = λ x y h k. omega (arith, div_mono unit unit_pos (of_leb x y h));
  mul_mono = λ x y z w hx h hz k. to_leb _ _ (fixed_mul_mono x y z w (of_leb x y h) (of_leb z w k));
  div_mono = λ x y b p hx h. to_leb _ _ (fixed_div_mono x y b p (of_leb x y h));
  mul_exact = λ a b h. fixed_mul_exact a b;
  div_exact = λ a b p h. fixed_div_exact a b p;
  scale_back = λ m t p h k. omega (arith, fixed_scaled m t p);
  quotient_nonneg = λ m t p. to_leb _ _ (omega arith);
  scaled_exact = λ m t p h k.
      to_leb _ _ (le_trans (fixed_scale_back m t p) (mul-le-mul_right unit (le_trans h k)));
}
