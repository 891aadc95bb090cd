-- ===== src/Billing/Split.antt =====
-- Proofs about `Calculate` in internal/billing/billing.go.
use routecat.Prelude.{String, arith, false, true, ℕ, ◌*◌, ◌≡◌, ◌≤◌}
use routecat.Prelude.Int.{
  IsInt64-between, eq_of_parts, int_laws, pos, wrap64, wrap64_in_range, ℤ, ◌+ℤ◌, ◌-ℤ◌, ◌≤ℤ◌,
}
use routecat.Float64.{Float64, FloatLaws, max_exact}
use routecat.Billing.{Engine, calculate, fee_msats, gross_usd, total_msats, zero_usd}

divided :
    (n : ℕ) (fee : ℤ)
    → (pos 0 ≤ℤ fee) × (fee ≤ℤ pos n)
    → n * 100 ≤ max_exact
    → (pos 0 ≤ℤ wrap64 (pos n -ℤ fee)) × (pos 0 ≤ℤ fee) × (wrap64 (pos n -ℤ fee) +ℤ fee ≡ pos n)
divided n fee (low, high) small =
    rw
      (wrap64_in_range (pos n -ℤ fee)
        (IsInt64-between _ 0 n (omega int_laws) (omega int_laws) (omega arith) (omega arith)))
      (omega int_laws, low, eq_of_parts _ _ (omega int_laws))

module _ (fl : Float64) (laws : FloatLaws fl) where
  abbrev Le : fl.F → fl.F → Type 0
  Le x y = fl.le x y ≡ true

  abbrev int : ℕ → fl.F
  int n = fl.of_int (pos n)

  module _ (fee_pct : fl.F) (n : ℕ) (low : Le (int 0) fee_pct) (high : Le fee_pct (int 100)) where
    abbrev share : fl.F
    share = fl.mul (int n) fee_pct

    share_nonneg : Le (int 0) share
    share_nonneg = rw (laws.mul_exact 0 0 (omega arith)) at (
        laws.mul_mono (int 0) (int n) (int 0) fee_pct (laws.le_refl (int 0))
          (laws.of_int_mono 0 n (omega arith)) (laws.le_refl (int 0)) low)

    share_bounded : n * 100 ≤ max_exact → Le share (int (n * 100))
    share_bounded small = rw (laws.mul_exact n 100 small) at (
        laws.mul_mono (int n) (int n) fee_pct (int 100) (laws.of_int_mono 0 n (omega arith))
          (laws.le_refl (int n)) low high)

    per_cent_nonneg : Le (int 0) (fl.div share (int 100))
    per_cent_nonneg =
        rw (laws.div_exact 0 100 (omega arith) (omega arith)) at
          (laws.div_mono (int 0) share 100 (omega arith) (laws.le_refl (int 0)) share_nonneg)

    per_cent_bounded : n * 100 ≤ max_exact → Le (fl.div share (int 100)) (int n)
    per_cent_bounded small =
        rw (laws.div_exact n 100 (omega arith) small) at
          (laws.div_mono share (int (n * 100)) 100 (omega arith) share_nonneg (share_bounded small))

  -- A fee of 0 to 100 percent is between nothing and the whole.
  pub fee_msats_bounds :
      (fee_pct : fl.F) (n : ℕ)
      → fl.le (zero_usd fl) fee_pct ≡ true
      → fl.le fee_pct (fl.of_int (pos 100)) ≡ true
      → n * 100 ≤ max_exact
      → (pos 0 ≤ℤ fee_msats fl fee_pct (pos n)) × (fee_msats fl fee_pct (pos n) ≤ℤ pos n)
  unfolding fee_msats
  fee_msats_bounds fee_pct n low high small =
      let in_range : Le (int n) (int max_exact) = laws.of_int_mono n max_exact (omega arith) in
      let below = per_cent_bounded fee_pct n low high small in
      let above = per_cent_nonneg fee_pct n low high in
      (
        rw (laws.to_int-of_int 0 (omega arith)) at
            (laws.to_int_mono _ _ above (laws.le_trans _ _ _ below in_range)),
        rw (laws.to_int-of_int n (omega arith)) at (laws.to_int_mono _ _ below in_range),
      )

  -- With a positive price and a fee of 0 to 100 percent, a total of `n` msats whose hundredfold is an
  -- exact float is split without loss: earnings and fee are not negative and add up to it.
  pub calculate_split :
      (e : Engine fl.F) (model : String) (tokens_in tokens_out : ℤ) (btc : fl.F) (n : ℕ)
      → fl.le btc (zero_usd fl) ≡ false
      → fl.le (zero_usd fl) e.fee_pct ≡ true
      → fl.le e.fee_pct (fl.of_int (pos 100)) ≡ true
      → total_msats fl (gross_usd fl e model tokens_in tokens_out) btc ≡ pos n
      → n * 100 ≤ max_exact
      → let (gross, provider, fee) = calculate fl e model tokens_in tokens_out btc in
        (pos 0 ≤ℤ provider) × (pos 0 ≤ℤ fee) × (provider +ℤ fee ≡ pos n)
  unfolding calculate
  calculate_split e model tokens_in tokens_out btc n priced low high total small =
      rw (priced, total)
        (divided n (fee_msats fl e.fee_pct (pos n)) (fee_msats_bounds e.fee_pct n low high small)
          small)
