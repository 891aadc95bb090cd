-- ===== src/Lightning/Watching.antt =====
-- A tick of internal/lightning/invoices.go, whatever the network answers.
use routecat.Store.Conservation.{credits-Leaves, expires-Leaves}
use routecat.Store.Books.{IsBalanced, Leaves, plus_zero}
use routecat.Prelude.{
  Bool, List, Option, String, [], false, if◌then◌else◌, none, not, refl, some, true, ℕ, ◌∷◌, ◌≡◌,
}
use routecat.Store.Tables.{Db, Invoice, Tables}
use routecat.Store.Sql.{Result, err, ok}
use routecat.Store.Ensures.{Ensures, Ensures-mono, Ensures-read}
use routecat.Store.Invoices.{credit_invoice, expire_old_invoices, pending_invoices}
use routecat.Lightning.Client.{Client}
use routecat.Gateway.State.{Exit, log_prefix, panics, returns}
use routecat.Lightning.Invoices.{check_all, check_one, key_log, watch_tick}
use routecat.Prelude.Int.{pos, ℤ}

pending_invoices-reads : (t : Tables) → Ensures pending_invoices t (λ answer u. u ≡ t)
unfolding pending_invoices
pending_invoices-reads t = Ensures-read _ refl refl

module _ {W : Type 0} (P : Tables → Type 0)
    (kept : (hash : String) (t : Tables) → P t → Ensures (credit_invoice hash) t (λ _ u. P u))
    (ln : Client W) where
  check_one-keeps :
      (inv : Invoice) (db : Db) (world : W)
      → P db.tables
      → P (check_one ln inv (db, world)).1.0.tables
  unfolding check_one
  check_one-keeps inv db world p =
      ending (ln.check_invoice inv.payment_hash world).0
        ((kept inv.payment_hash db.tables p).at db.faults)
    where
      credited_db : Db
      credited_db = (credit_invoice inv.payment_hash db).1

      crediting :
          (r : Result Bool) (s : Db × W)
          → P s.0.tables
          → let out : Exit × (Db × W) = elim r [
            | err e ↦ (log_prefix inv.payment_hash 8, s)
            | ok now_credited ↦ (if now_credited then key_log inv.user_key else returns, s)
          ] in
            P out.1.0.tables
      crediting (ok b) s q = q
      crediting (err e) s q = q

      ending :
          (answer : Option Bool)
          → P credited_db.tables
          → let world' = (ln.check_invoice inv.payment_hash world).1 in
            let out : Exit × (Db × W) = elim answer [
              | none ↦ (log_prefix inv.payment_hash 8, (db, world'))
              | some paid ↦
                  if not paid
                  then (returns, (db, world'))
                  else (let (r, db') = credit_invoice inv.payment_hash db in
                      elim r [
                        | err e ↦ (log_prefix inv.payment_hash 8, (db', world'))
                        | ok now_credited ↦
                            (if now_credited then key_log inv.user_key else returns, (db', world'))
                      ])
            ] in
            P out.1.0.tables
      ending none q = p
      ending (some false) q = p
      ending (some true) q = crediting (credit_invoice inv.payment_hash db).0 (credited_db, _) q

  check_all-keeps :
      (invs : List Invoice) (db : Db) (world : W)
      → P db.tables
      → P (check_all ln invs (db, world)).1.0.tables
  unfolding check_all
  check_all-keeps [] db world p = p
  check_all-keeps (inv ∷ invs) db world p =
      let (exit, (db', world')) = check_one ln inv (db, world) in
      let before = check_one-keeps inv db world p in
      stops exit (db', world') (check_all ln invs (db', world')) before
        (check_all-keeps invs db' world' before)
    where
      stops :
          (exit : Exit) (s : Db × W) (rest : Exit × (Db × W))
          → P s.0.tables
          → P rest.1.0.tables
          → let out : Exit × (Db × W) = elim exit [ panics ↦ (panics, s) | returns ↦ rest ] in
            P out.1.0.tables
      stops panics s rest q q' = q
      stops returns s rest q q' = q'

  -- What holds of the tables once the overdue invoices have expired holds at the end of the tick.
  pub watch_tick-keeps :
      (now : ℕ) (db : Db) (world : W)
      → P (expire_old_invoices now db).1.tables
      → P (watch_tick (some ln) now (db, world)).1.0.tables
  unfolding watch_tick
  watch_tick-keeps now db world p =
      let expired_db = (expire_old_invoices now db).1 in
      let out = pending_invoices expired_db in
      ending out.0 out.1 ((pending_invoices-reads expired_db.tables).at expired_db.faults)
    where
      ending :
          (answer : Result (List Invoice)) (db' : Db)
          → db'.tables ≡ (expire_old_invoices now db).1.tables
          → let out : Exit × (Db × W) = elim answer [
            | err e ↦ (returns, (db', world))
            | ok invoices ↦ check_all ln invoices (db', world)
          ] in
            P out.1.0.tables
      ending (err e) db' same = rw same p
      ending (ok invoices) db' same = check_all-keeps invoices db' world (rw same p)

module _ {W : Type 0} where
  -- A tick keeps the users' books balanced, whatever statements fail, also if it panics.
  pub watch_tick-IsBalanced :
      (ln : Option (Client W)) (now : ℕ) (spent : ℤ) (db : Db) (world : W)
      → IsBalanced db.tables spent
      → IsBalanced (watch_tick ln now (db, world)).1.0.tables spent
  unfolding watch_tick
  watch_tick-IsBalanced none now spent db world b = b
  watch_tick-IsBalanced (some ln) now spent db world b =
      watch_tick-keeps (λ t. IsBalanced t spent)
        (λ hash t b'. Ensures-mono _ forget (credits-Leaves spent t b' hash)) ln now db world
        ((Ensures-mono _ forget (expires-Leaves spent db.tables b now)).at db.faults)
    where
      forget :
          {A : Type 0} (r : Result A) (u : Tables) → Leaves spent (pos 0) r u → IsBalanced u spent
      forget (ok a) u q = rw plus_zero at q
      forget (err e) u q = q
