-- ===== src/Store/Deduct.antt =====
-- Proofs about `DeductBalance` in internal/store/sqlite.go, whatever statements fail.
use routecat.Prelude.{String, arith, refl, ◌≡◌}
use routecat.Prelude.Int.{ltb_ℤ, ℤ, ◌≤ℤ◌}
use routecat.Store.Tables.{Db, Tables}
use routecat.Store.Sql.{Result, commit, err, insufficient_balance, ok, outcome, raise}
use routecat.Store.Ensures.{
  Ensures, Ensures-if, Ensures-pure, Ensures-raise, Ensures-select, Ensures-transaction,
  Ensures-write,
}
use routecat.Store.Users.{deduct_balance, read_balance, subtract_balance}

-- What a deduction that began at `t` has done, by how it ended.
abbrev pub Deducted : String → ℤ → Tables → Result (Unit {0}) × Tables → Type 0
Deducted key amount t (ok _, u) =
    (current : ℤ) × (read_balance key t ≡ ok current)
    × (amount ≤ℤ current)
    × (u ≡ subtract_balance key amount t)
Deducted key amount t (err e, u) = u ≡ t

pub deduct_balance-Ensures :
    (key : String) (amount : ℤ) (t : Tables)
    → Ensures (deduct_balance key amount) t (λ r u. Deducted key amount t (r, u))
unfolding deduct_balance
deduct_balance-Ensures key amount t = Ensures-transaction _ refl (
    Ensures-select (read_balance key) _ refl
      (λ current found.
        Ensures-if (ltb_ℤ current amount) (raise _) _
          (λ short. Ensures-raise (insufficient_balance current amount) refl)
          λ covered.
            Ensures-write (subtract_balance key amount) _ refl
              (Ensures-pure (commit tt) (refl, (current, found, ground arith, refl))))
      (λ e missing. refl))

-- A deduction is atomic: with any statement of the transaction failing, it succeeds, and then the
-- balance covered the amount and exactly the amount left that key's row, or it reports an error and
-- every table is as before.
pub deduct_balance-Deducted :
    (key : String) (amount : ℤ) (db : Db)
    → Deducted key amount db.tables (outcome (deduct_balance key amount) db)
deduct_balance-Deducted key amount db = (deduct_balance-Ensures key amount db.tables).at db.faults
