-- ===== src/Store/Payouts.antt =====
-- internal/store/sqlite.go: Lightning payouts to providers, and what a node is still owed.
use routecat.Prelude.{
  Bool, List, String, [], false, filter, if◌then◌else◌, leb, length, not, some, str_eq, suc, take,
  true, ℕ, ◌&&◌, ◌++◌, ◌∷◌,
}
use routecat.Prelude.Int.{leb_ℤ, scale_ℤ, sum_where, wrap64, ℤ, ◌-ℤ◌}
use routecat.Store.Tables.{Node, Payout, PayoutStatus, Tables}
use routecat.Store.Sql.{Sql, ok, pure, select, statement, ◌>>=◌}
use routecat.Store.Jobs.{earned_total}

-- status IN ('sent','confirmed')
abbrev pub is_paid : PayoutStatus → Bool
is_paid PayoutStatus.sent = true
is_paid PayoutStatus.confirmed = true
is_paid PayoutStatus.pending = false
is_paid PayoutStatus.failed = false

abbrev pub paid_to : String → Payout → Bool
paid_to node_id p = str_eq p.node_id node_id && is_paid p.status

-- COALESCE(SUM(amount_msats),0) of a node's payouts
abbrev pub paid_total : String → Tables → ℤ
paid_total node_id t = sum_where (paid_to node_id) (λ p. p.amount_msats) t.payouts

-- The unpaid balance of a node, in msats.
unfoldable pub node_balance : String → Sql ℤ
node_balance node_id = do
  earned ← select (λ t. ok (earned_total node_id t))
  paid ← select (λ t. ok (paid_total node_id t))
  pure (wrap64 (earned -ℤ paid))

-- INTEGER PRIMARY KEY AUTOINCREMENT: rows are never deleted, so the next id is one past their number
abbrev next_id : List Payout → ℕ
next_id ps = suc (length ps)

-- INSERT INTO payouts; created_at is CURRENT_TIMESTAMP
abbrev pub insert_payout : String → ℤ → String → PayoutStatus → ℕ → Tables → Tables
insert_payout node_id amount hash status now t = record t {
  payouts =
      t.payouts
      ++ record {
        id = next_id t.payouts;
        node_id = node_id;
        amount_msats = amount;
        payment_hash = hash;
        status = status;
        created_at = now;
        confirmed_at = some now;
      }
        ∷ [];
}

unfoldable pub record_payout : String → ℤ → String → PayoutStatus → ℕ → Sql (Unit {0})
record_payout node_id amount hash status now =
    statement (λ t. (ok tt, insert_payout node_id amount hash status now t))

abbrev is_confirmed : PayoutStatus → Bool
is_confirmed PayoutStatus.confirmed = true
is_confirmed PayoutStatus.sent = false
is_confirmed PayoutStatus.pending = false
is_confirmed PayoutStatus.failed = false

abbrev confirmed_to : String → Payout → Bool
confirmed_to node_id p = str_eq p.node_id node_id && is_confirmed p.status

-- ORDER BY created_at DESC, by insertion
insert_latest_payout : Payout → List Payout → List Payout
insert_latest_payout p [] = p ∷ []
insert_latest_payout p (x ∷ xs) =
    if leb x.created_at p.created_at then p ∷ x ∷ xs else x ∷ insert_latest_payout p xs

latest_payouts : List Payout → List Payout
unfolding insert_latest_payout
latest_payouts [] = []
latest_payouts (p ∷ ps) = insert_latest_payout p (latest_payouts ps)

unfoldable pub node_withdraw_history : String → ℕ → Sql (List Payout)
unfolding latest_payouts
node_withdraw_history node_id limit =
    select (λ t. ok (take limit (latest_payouts (filter (confirmed_to node_id) t.payouts))))

-- What `pending_payouts` selects: an address, and a balance of at least the threshold in sats.
abbrev pub is_due : Tables → Node → Bool
is_due t n =
    not (str_eq n.lightning_addr "")
    && leb_ℤ (scale_ℤ n.redeem_threshold 1000) (earned_total n.node_id t -ℤ paid_total n.node_id t)

unfoldable pub pending_payouts : Sql (List Node)
pending_payouts = select (λ t. ok (filter (is_due t) t.nodes))
