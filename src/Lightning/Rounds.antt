-- ===== src/Lightning/Rounds.antt =====
-- The induction principle for the rounds of internal/lightning/payout.go: what holds at the start, is
-- kept by queries and by the network, and by each payment of an amount that is due, holds at the end.
use routecat.Prelude.{
  Bool-cases, List, Option, String, [], if◌then◌else◌, inl, inr, none, refl, some, str_eq, ℕ, ◌∷◌,
  ◌≡◌,
}
use routecat.Prelude.Int.{wrap64, ℤ, ◌-ℤ◌}
use routecat.Store.Tables.{Db, Node, Tables}
use routecat.Store.Sql.{Result, err, ok}
use routecat.Store.Ensures.{Ensures, Ensures-read}
use routecat.Store.Jobs.{earned_total}
use routecat.Store.Payouts.{node_balance, paid_total, pending_payouts}
use routecat.Lightning.Client.{Client}
use routecat.Lightning.Payout.{
  PayoutEngine, Round, amount_due, open_round, pay_node, pay_nodes, process_payouts, send_payout,
  settle,
}
use routecat.Lightning.Balance.{Unpaid, node_balance-Unpaid}

pending_payouts-reads : (t : Tables) → Ensures pending_payouts t (λ answer u. u ≡ t)
unfolding pending_payouts
pending_payouts-reads t = Ensures-read _ refl refl

pub record Keeps {W : Type 0} (P : Round W → Type 0) : Type 1 where
  pub queried : (r : Round W) (db : Db) → db.tables ≡ r.db.tables → P r → P (record r { db = db })
  pub answered : (r : Round W) (w : W) → P r → P (record r { world = w })
  pub settled :
      (n : Node) (payout balance : ℤ) (hash : String) (now : ℕ) (r : Round W)
      → balance ≡ wrap64 (earned_total n.node_id r.db.tables -ℤ paid_total n.node_id r.db.tables)
      → amount_due r.engine.max_per_hour r.spent n balance ≡ some payout
      → P r
      → P (settle n payout hash now r)

module _ {W : Type 0} (P : Round W → Type 0) (k : Keeps P) (ln : Client W) (now : ℕ) where
  send_payout-keeps :
      (n : Node) (payout balance : ℤ) (r : Round W)
      → balance ≡ wrap64 (earned_total n.node_id r.db.tables -ℤ paid_total n.node_id r.db.tables)
      → amount_due r.engine.max_per_hour r.spent n balance ≡ some payout
      → P r
      → P (send_payout ln n payout now r)
  unfolding send_payout
  send_payout-keeps n payout balance r e due p =
      let out = ln.pay_address n.lightning_addr payout r.world in ending out (k.answered r out.1 p)
    where
      ending :
          (reply : Option String × W)
          → P (record r { world = reply.1 })
          → P (elim reply.0 [
            | none ↦ record r { world = reply.1 }
            | some hash ↦
                if str_eq hash ""
                then record r { world = reply.1 }
                else settle n payout hash now (record r { world = reply.1 })
          ])
      ending (none, w) q = q
      ending (some hash, w) q = elim (Bool-cases (str_eq hash "")) [
        | inl empty ↦ rw empty q
        | inr given ↦
            rw given (k.settled n payout balance hash now (record r { world = w }) e due q)
      ]

  pay_node-keeps : (n : Node) (r : Round W) → P r → P (pay_node ln now n r)
  unfolding pay_node
  pay_node-keeps n r p =
      let out = node_balance n.node_id r.db in
      ending out.0 out.1 ((node_balance-Unpaid n.node_id r.db.tables).at r.db.faults)
    where
      paying :
          (balance : ℤ) (r' : Round W) (due : Option ℤ)
          → balance
            ≡ wrap64 (earned_total n.node_id r'.db.tables -ℤ paid_total n.node_id r'.db.tables)
          → amount_due r'.engine.max_per_hour r'.spent n balance ≡ due
          → P r'
          → P (elim due [ none ↦ r' | some payout ↦ send_payout ln n payout now r' ])
      paying balance r' none e is q = q
      paying balance r' (some payout) e is q = send_payout-keeps n payout balance r' e is q

      ending :
          (answer : Result ℤ) (db : Db)
          → Unpaid n.node_id r.db.tables answer db.tables
          → let r' = record r { db = db } in
            P (elim answer [
              | err e ↦ r'
              | ok balance ↦ elim (amount_due r'.engine.max_per_hour r'.spent n balance) [
                | none ↦ r'
                | some payout ↦ send_payout ln n payout now r'
              ]
            ])
      ending (err e) db same = k.queried r db same p
      ending (ok balance) db (e, same) =
          paying balance (record r { db = db }) _ (rw same e) refl (k.queried r db same p)

  pay_nodes-keeps : (ns : List Node) (r : Round W) → P r → P (pay_nodes ln now ns r)
  unfolding pay_nodes
  pay_nodes-keeps [] r p = p
  pay_nodes-keeps (n ∷ ns) r p = pay_nodes-keeps ns _ (pay_node-keeps n r p)

  pub process_payouts-keeps :
      (pe : PayoutEngine W) (db : Db) (world : W)
      → P (open_round now pe db world)
      → P (process_payouts ln now pe db world)
  unfolding process_payouts
  process_payouts-keeps pe db world p =
      let out = pending_payouts db in
      ending out.0 out.1 ((pending_payouts-reads db.tables).at db.faults)
    where
      ending :
          (answer : Result (List Node)) (db' : Db)
          → db'.tables ≡ db.tables
          → let r' = record (open_round now pe db world) { db = db' } in
            P (elim answer [ err e ↦ r' | ok nodes ↦ pay_nodes ln now nodes r' ])
      ending (err e) db' same = k.queried (open_round now pe db world) db' same p
      ending (ok nodes) db' same =
          pay_nodes-keeps nodes _ (k.queried (open_round now pe db world) db' same p)
