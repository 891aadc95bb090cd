-- ===== src/Lightning/Invoices.antt =====
-- internal/lightning/invoices.go: the watcher, which credits the invoices that have been paid.
use routecat.Text.{byte_length, codes}
use routecat.Prelude.{List, Option, String, [], if◌then◌else◌, ltb, none, not, some, ℕ, ◌∷◌}
use routecat.Store.Tables.{Db, Invoice}
use routecat.Store.Sql.{err, ok}
use routecat.Store.Invoices.{credit_invoice, expire_old_invoices, pending_invoices}
use routecat.Gateway.State.{Exit, log_prefix, panics, returns}
use routecat.Lightning.Client.{Client}

-- The log line of a credit takes six characters of the key and its last four.
abbrev pub key_log : String → Exit
key_log user_key = if ltb (byte_length (codes user_key)) 4 then panics else log_prefix user_key 6

module _ {W : Type 0} where
  unfoldable pub check_one : Client W → Invoice → Db × W → Exit × (Db × W)
  check_one ln inv (db, world) =
      let (answer, world') = ln.check_invoice inv.payment_hash world in
      elim answer [
        | none ↦ (log_prefix inv.payment_hash 8, (db, world'))
        | some paid ↦
            if not paid
            then (returns, (db, world'))
            else (let (r, db') = credit_invoice inv.payment_hash db in
                elim r [
                  | err e ↦ (log_prefix inv.payment_hash 8, (db', world'))
                  | ok now_credited ↦
                      (if now_credited then key_log inv.user_key else returns, (db', world'))
                ])
      ]

  -- A panic ends the loop, and with it the process.
  unfoldable pub check_all : Client W → List Invoice → Db × W → Exit × (Db × W)
  unfolding check_one
  check_all ln [] s = (returns, s)
  check_all ln (inv ∷ invs) s =
      let (exit, s') = check_one ln inv s in
      let rest = check_all ln invs s' in elim exit [ panics ↦ (panics, s') | returns ↦ rest ]

  -- One tick of the loop: first the overdue invoices expire, then the pending ones are looked up.
  unfoldable pub watch_tick : Option (Client W) → ℕ → Db × W → Exit × (Db × W)
  unfolding check_all
  watch_tick none now s = (returns, s)
  watch_tick (some ln) now (db, world) =
      let (_, expired_db) = expire_old_invoices now db in
      let (answer, db') = pending_invoices expired_db in
      elim answer [
        | err e ↦ (returns, (db', world))
        | ok invoices ↦ check_all ln invoices (db', world)
      ]
