-- ===== src/Lightning/Cap.antt =====
-- The hourly cap of internal/lightning/payout.go.
use routecat.Lightning.Client.{Client}
use routecat.Lightning.Balance.{wrap64-IsInt64}
use routecat.Lightning.Rounds.{Keeps, process_payouts-keeps}
use routecat.Prelude.{List, String, [], ap, arith, refl, some, sym, ℕ, ◌<◌, ◌^◌, ◌∙◌, ◌∷◌, ◌≡◌, ◌≤◌}
use routecat.Prelude.Int.{
  IsInt64, eq_of_parts, int_laws, negsuc, pos, quot_ℤ, wrap64, ℤ, ◌+ℤ◌, ◌≤ℤ◌,
}
use routecat.Store.Tables.{Db, Node}
use routecat.Lightning.Payout.{PayoutEngine, Round, amount_due, begin_hour, process_payouts, settle}

-- Satoshis in the log of a round.
unfoldable pub paid_sats : List (String × ℤ) → ℤ
paid_sats [] = pos 0
paid_sats (p ∷ ps) = p.1 +ℤ paid_sats ps

-- The largest cap for which the sums of the code cannot wrap.
abbrev pub largest_cap : ℕ
largest_cap = 2 ^ 62

-- In the middle of a round that began with `start` spent: the counter and the round's copy agree,
-- are what has been paid, and are within the cap.
abbrev Within : {W : Type 0} → ℕ → ℤ → Round W → Type 0
Within cap start r =
    (r.engine.max_per_hour ≡ pos cap)
    × (r.engine.spent_this_hour ≡ r.spent)
    × (start +ℤ paid_sats r.paid ≡ r.spent)
    × (pos 0 ≤ℤ r.spent)
    × (r.spent ≤ℤ pos cap)

-- An amount that passes the tests is not negative, and fits under the cap.
amount_due_fits :
    (cap : ℕ) (spent balance payout : ℤ) (n : Node)
    → 0 < cap
    → cap ≤ largest_cap
    → pos 0 ≤ℤ spent
    → spent ≤ℤ pos cap
    → IsInt64 balance
    → amount_due (pos cap) spent n balance ≡ some payout
    → (pos 0 ≤ℤ payout)
      × (wrap64 (spent +ℤ payout) ≡ spent +ℤ payout)
      × (spent +ℤ payout ≤ℤ pos cap)
unfolding amount_due quot_ℤ wrap64 ◌+ℤ◌
amount_due_fits cap (pos s) (pos b) payout n some_cap small low high fits due = ground arith
amount_due_fits cap (pos s) (negsuc b) payout n some_cap small low high fits due = ground arith
amount_due_fits cap (negsuc s) balance payout n some_cap small low high fits due = ground arith

+ℤ_zero : (a : ℤ) → a +ℤ pos 0 ≡ a
+ℤ_zero a = eq_of_parts _ _ (omega int_laws)

+ℤ-swap : (a b c : ℤ) → a +ℤ (b +ℤ c) ≡ (a +ℤ c) +ℤ b
+ℤ-swap a b c = eq_of_parts _ _ (omega int_laws)

module _ {W : Type 0} (cap : ℕ) (some_cap : 0 < cap) (small : cap ≤ largest_cap) (start : ℤ) where
  settle-Within :
      (n : Node) (payout : ℤ) (hash : String) (now : ℕ) (r : Round W)
      → Within cap start r
      → (pos 0 ≤ℤ payout)
        × (wrap64 (r.spent +ℤ payout) ≡ r.spent +ℤ payout)
        × (r.spent +ℤ payout ≤ℤ pos cap)
      → Within cap start (settle n payout hash now r)
  unfolding settle paid_sats
  settle-Within n payout hash now r (m, c, s, low, high) (nonneg, exact, fits) =
      rw (c, exact) (m, refl, sum, omega int_laws, fits)
    where
      sum : start +ℤ (payout +ℤ paid_sats r.paid) ≡ r.spent +ℤ payout
      sum = +ℤ-swap start payout (paid_sats r.paid) ∙ ap (λ z. z +ℤ payout) s

  Within-Keeps : Keeps (Within {W = W} cap start)
  Within-Keeps = record {
    queried = λ r db same w. w;
    answered = λ r world w. w;
    settled = λ n payout balance hash now r e due w. settle-Within n payout hash now r w (
        amount_due_fits cap r.spent balance payout n some_cap small w.3 w.4
          (rw e (wrap64-IsInt64 _)) (rw w.0 at due));
  }

-- From here on the counter is what has been spent in the hour.
abbrev pub HourWithin : {W : Type 0} → ℕ → PayoutEngine W → Type 0
HourWithin cap pe =
    (pe.max_per_hour ≡ pos cap) × (pos 0 ≤ℤ pe.spent_this_hour) × (pe.spent_this_hour ≤ℤ pos cap)

module _ {W : Type 0} (ln : Client W) (now : ℕ) (cap : ℕ) (some_cap : 0 < cap)
    (small : cap ≤ largest_cap) where
  begin_hour-HourWithin :
      (pe : PayoutEngine W) → HourWithin cap pe → HourWithin cap (begin_hour now pe)
  unfolding begin_hour paid_sats
  begin_hour-HourWithin pe h = ground arith

  -- With a cap of 1 to 2 ^ 62 sats and a counter between 0 and the cap, whatever the network
  -- answers and whatever statements fail: the round pays exactly what the counter grows by after
  -- its reset, and the counter stays within the cap.
  pub process_payouts_cap :
      (pe : PayoutEngine W) (db : Db) (world : W)
      → HourWithin cap pe
      → let r = process_payouts ln now pe db world in
        HourWithin cap r.engine
        × ((begin_hour now pe).spent_this_hour +ℤ paid_sats r.paid ≡ r.engine.spent_this_hour)
  unfolding paid_sats
  process_payouts_cap pe db world h =
      let start = (begin_hour now pe).spent_this_hour in
      let (m, low, high) = begin_hour-HourWithin pe h in
      let (m', c, sum, low', high') =
        process_payouts-keeps (Within cap start) (Within-Keeps cap some_cap small start) ln now pe
          db world (m, refl, +ℤ_zero start, low, high) in
      ((m', rw c low', rw c high'), sum ∙ sym c)
