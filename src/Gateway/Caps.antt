-- ===== src/Gateway/Caps.antt =====
-- internal/gateway/gateway.go: the limits on what one job may report and earn.
use routecat.Prelude.{
  Bool-cases, arith, false, if◌then◌else◌, inl, inr, leb, refl, ℕ, ◌+◌, ◌<◌, ◌≡◌, ◌≤◌,
}
use routecat.Prelude.Int.{
  IsInt64-between, eq_of_parts, int_laws, ltb_ℤ, pos, pos-+ℤ, wrap64, wrap64_in_range, ℤ, ◌+ℤ◌,
  ◌-ℤ◌, ◌≤ℤ◌,
}
use routecat.Float64.{Float64, FloatLaws, max_exact}

abbrev pub max_tokens_per_field : ℤ
max_tokens_per_field = pos 100000

abbrev pub max_total_tokens_per_job : ℤ
max_total_tokens_per_job = pos 200000

abbrev pub max_earnings_per_job_msats : ℤ
max_earnings_per_job_msats = pos 200000

-- if n < 0 { n = 0 }
abbrev at_least_zero : ℤ → ℤ
at_least_zero n = if ltb_ℤ n (pos 0) then pos 0 else n

abbrev at_most_field : ℤ → ℤ
at_most_field n = if ltb_ℤ max_tokens_per_field n then max_tokens_per_field else n

-- What is left of a reported count.
abbrev pub clamp_field : ℤ → ℤ
clamp_field n = at_most_field (at_least_zero n)

pub clamp_field_bounds :
    (n : ℤ) → (pos 0 ≤ℤ clamp_field n) × (clamp_field n ≤ℤ max_tokens_per_field)
clamp_field_bounds n = ground arith

not_above : (z : ℤ) → z ≤ℤ max_total_tokens_per_job → ltb_ℤ max_total_tokens_per_job z ≡ false
not_above z h = ground arith

-- The sum of two cut counts does not wrap, and is not above the total.
clamped_sum :
    (m n : ℤ) → ltb_ℤ max_total_tokens_per_job (wrap64 (clamp_field m +ℤ clamp_field n)) ≡ false
clamped_sum m n =
    let (low_m, high_m) = clamp_field_bounds m in
    let (low_n, high_n) = clamp_field_bounds n in
    below (clamp_field m) (clamp_field n) low_m high_m low_n high_n
  where
    below :
        (a b : ℤ)
        → pos 0 ≤ℤ a
        → a ≤ℤ max_tokens_per_field
        → pos 0 ≤ℤ b
        → b ≤ℤ max_tokens_per_field
        → ltb_ℤ max_total_tokens_per_job (wrap64 (a +ℤ b)) ≡ false
    below a b la ha lb hb =
        rw
          (wrap64_in_range (a +ℤ b) (
            IsInt64-between _ 0 200000 (omega int_laws) (omega int_laws) (omega arith)
              (omega arith)))
          (not_above _ (omega int_laws))

-- What capping promises of the parts `p` and `f`, from the parts that it was given.
abbrev pub IsCapped : ℕ → ℕ → ℤ × ℤ → Type 0
IsCapped provider fee (p, f) =
    (pos 0 ≤ℤ p)
    × (pos 0 ≤ℤ f)
    × (p +ℤ f ≡ (if leb (provider + fee) 200000 then pos (provider + fee) else pos 200000))
    × (provider + fee ≤ 200000 → (p ≡ pos provider) × (f ≡ pos fee))

above_limit :
    (s : ℤ) (provider fee : ℕ)
    → 200000 < provider + fee
    → (pos 0 ≤ℤ s) × (s ≤ℤ pos 200000)
    → IsCapped provider fee (s, wrap64 (max_earnings_per_job_msats -ℤ s))
above_limit s provider fee over (low, high) =
    rw
      (
        wrap64_in_range (max_earnings_per_job_msats -ℤ s) (
            IsInt64-between _ 0 200000 (omega int_laws) (omega int_laws) (omega arith)
              (omega arith)),
        le-false (provider + fee) 200000 over,
      )
      (low, omega int_laws, eq_of_parts _ _ (omega int_laws), λ under. absurd (omega arith))
  where
    le-false : (a b : ℕ) → b < a → leb a b ≡ false
    le-false a b h = ground arith

below_limit :
    (provider fee : ℕ) → provider + fee ≤ 200000 → IsCapped provider fee (pos provider, pos fee)
below_limit provider fee under =
    rw (pos-+ℤ provider fee) (omega arith, omega arith, ground arith, λ h. (refl, refl))

module _ (fl : Float64) where
  -- The last step, on two counts whose sum is above the total.
  abbrev scale_tokens : ℤ → ℤ → ℤ × ℤ
  scale_tokens a b =
      let ratio = fl.div (fl.of_int max_total_tokens_per_job) (fl.of_int (wrap64 (a +ℤ b))) in
      (fl.to_int (fl.mul (fl.of_int a) ratio), fl.to_int (fl.mul (fl.of_int b) ratio))

  unfoldable pub cap_tokens : ℤ → ℤ → ℤ × ℤ
  cap_tokens tokens_in tokens_out =
      let a = clamp_field tokens_in in
      let b = clamp_field tokens_out in
      if ltb_ℤ max_total_tokens_per_job (wrap64 (a +ℤ b)) then scale_tokens a b else (a, b)

  unfoldable pub cap_earnings : ℤ → ℤ → ℤ × ℤ
  cap_earnings provider fee =
      let total = wrap64 (provider +ℤ fee) in
      if ltb_ℤ max_earnings_per_job_msats total
      then (let scale = fl.div (fl.of_int max_earnings_per_job_msats) (fl.of_int total) in
          let scaled = fl.to_int (fl.mul (fl.of_int provider) scale) in
          (scaled, wrap64 (max_earnings_per_job_msats -ℤ scaled)))
      else (provider, fee)

  -- Whatever a node reports, each count is cut to between 0 and 100,000, and the step that scales the
  -- two counts down never runs.
  pub cap_tokens_lem :
      (tokens_in tokens_out : ℤ)
      → (cap_tokens tokens_in tokens_out ≡ (clamp_field tokens_in, clamp_field tokens_out))
        × (pos 0 ≤ℤ clamp_field tokens_in)
        × (clamp_field tokens_in ≤ℤ max_tokens_per_field)
        × (pos 0 ≤ℤ clamp_field tokens_out)
        × (clamp_field tokens_out ≤ℤ max_tokens_per_field)
  unfolding cap_tokens
  cap_tokens_lem tokens_in tokens_out = (
    rw (clamped_sum tokens_in tokens_out),
    (clamp_field_bounds tokens_in).0,
    (clamp_field_bounds tokens_in).1,
    (clamp_field_bounds tokens_out).0,
    (clamp_field_bounds tokens_out).1,
  )

  -- The provider's part of a total `t` above the limit, scaled down.
  scaled_bounds :
      FloatLaws fl
      → (p t : ℕ) → p ≤ t
      → 200000 < t
      → t ≤ max_exact
      → let scale = fl.div (fl.of_int max_earnings_per_job_msats) (fl.of_int (pos t)) in
        let scaled = fl.to_int (fl.mul (fl.of_int (pos p)) scale) in
        (pos 0 ≤ℤ scaled) × (scaled ≤ℤ pos 200000)
  scaled_bounds laws p t below over small =
      let int : ℕ → fl.F = λ n. fl.of_int (pos n) in
      let scale = fl.div (int 200000) (int t) in
      let nonneg = laws.quotient_nonneg 200000 t (omega arith) in
      let high =
        laws.mul_mono (int p) (int t) scale scale (laws.of_int_mono 0 p (omega arith))
          (laws.of_int_mono p t below) nonneg (laws.le_refl scale) in
      let whole = laws.scaled_exact 200000 t (omega arith) (omega arith) small in
      let low = rw (laws.mul_exact 0 0 (omega arith)) at (
        laws.mul_mono (int 0) (int p) (int 0) scale (laws.le_refl (int 0))
          (laws.of_int_mono 0 p (omega arith)) (laws.le_refl (int 0)) nonneg) in
      let least = laws.to_int_mono _ _ low (laws.le_trans _ _ _ high whole) in
      let most = laws.to_int_mono _ _ high whole in
      let back = laws.scale_back 200000 t (omega arith) (omega arith) small in
      (rw (laws.to_int-of_int 0 (omega arith)) at least, omega (arith, most, back))

  -- From nonnegative parts whose sum is in the exact range, capping leaves nonnegative parts, and
  -- their sum is the smaller of the sum and 200,000 msats; up to that limit nothing changes.
  pub cap_earnings_lem :
      FloatLaws fl
      → (provider fee : ℕ) → provider + fee ≤ max_exact
      → IsCapped provider fee (cap_earnings (pos provider) (pos fee))
  unfolding cap_earnings
  cap_earnings_lem laws provider fee small =
      rw (pos-+ℤ provider fee, wrap64_in_range (pos (provider + fee)) (omega arith, omega arith))
        (elim (Bool-cases (ltb_ℤ max_earnings_per_job_msats (pos (provider + fee)))) [
          | inl over ↦ rw over (
              above_limit _ provider fee (ground arith)
                (scaled_bounds laws provider (provider + fee) (omega arith) (ground arith) small))
          | inr under ↦ rw under (below_limit provider fee (ground arith))
        ])
