-- ===== src/Lightning/Balance.antt =====
-- What `NodeBalance` of internal/store/sqlite.go answers, whatever statements fail.
use routecat.Prelude.{String, arith, refl, ◌≡◌}
use routecat.Prelude.Int.{IsInt64, negsuc, pos, wrap64, ℤ, ◌-ℤ◌}
use routecat.Store.Tables.{Tables}
use routecat.Store.Sql.{Result, err, ok}
use routecat.Store.Ensures.{Ensures, Ensures-pure, Ensures-select}
use routecat.Store.Jobs.{earned_total}
use routecat.Store.Payouts.{node_balance, paid_total}

-- An answer is what is earned less what is paid, as an int64; no table changes.
abbrev pub Unpaid : String → Tables → Result ℤ → Tables → Type 0
Unpaid node_id t (ok b) u = (b ≡ wrap64 (earned_total node_id t -ℤ paid_total node_id t)) × (u ≡ t)
Unpaid node_id t (err e) u = u ≡ t

pub node_balance-Unpaid :
    (node_id : String) (t : Tables) → Ensures (node_balance node_id) t (Unpaid node_id t)
unfolding node_balance
node_balance-Unpaid node_id t =
    Ensures-select _ _ refl
      (λ a e. Ensures-select _ _ refl (λ b e'. Ensures-pure _ (cc (e, e'), refl)) (λ x e'. refl))
      (λ x e. refl)

pub wrap64-IsInt64 : (z : ℤ) → IsInt64 (wrap64 z)
unfolding wrap64
wrap64-IsInt64 (pos n) = ground arith
wrap64-IsInt64 (negsuc n) = ground arith
