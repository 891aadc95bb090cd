-- ===== src/Lightning/Panics.antt =====
-- Proofs about the log lines of internal/lightning/invoices.go, which slice hashes and keys.
use routecat.Prelude.{
  All, Bool, Bool-cases, List, Option, String, [], arith, filter, inl, inr, none, refl, some,
  update_where, ℕ, ◌<◌, ◌∷◌, ◌≡◌, ◌≤◌,
}
use routecat.Text.{byte_length, codes}
use routecat.Store.Tables.{Db, Invoice, Tables}
use routecat.Store.Sql.{Result, err, ok, select, statement}
use routecat.Store.Ensures.{Ensures, Ensures-read, Ensures-statement}
use routecat.Store.Invoices.{
  expire_old_invoices, expire_overdue, is_overdue, is_pending, pending_invoices, set_expired,
}
use routecat.Gateway.State.{Exit, log_prefix, panics, returns}
use routecat.Lightning.Client.{Client}
use routecat.Lightning.Invoices.{check_all, check_one, key_log, watch_tick}

-- The log lines of the loop can be written.
pub record Loggable (inv : Invoice) : Type 0 where
  pub hash_long : 8 ≤ byte_length (codes inv.payment_hash)
  pub key_long : 6 ≤ byte_length (codes inv.user_key)

log_prefix-returns : (s : String) (n : ℕ) → n ≤ byte_length (codes s) → log_prefix s n ≡ returns
log_prefix-returns s n h = ground arith

log_prefix-panics : (s : String) (n : ℕ) → byte_length (codes s) < n → log_prefix s n ≡ panics
log_prefix-panics s n h = ground arith

key_log-returns : (s : String) → 6 ≤ byte_length (codes s) → key_log s ≡ returns
key_log-returns s h = ground arith

module _ {W : Type 0} (ln : Client W) where
  pub check_one-returns :
      (inv : Invoice) (db : Db) (world : W)
      → Loggable inv
      → (check_one ln inv (db, world)).0 ≡ returns
  unfolding check_one
  check_one-returns inv db world l = ground (
    arith,
    log_prefix-returns inv.payment_hash 8 l.hash_long,
    key_log-returns inv.user_key l.key_long,
  )

  check_all-returns :
      (invs : List Invoice) (db : Db) (world : W)
      → All Loggable invs
      → (check_all ln invs (db, world)).0 ≡ returns
  unfolding check_all
  check_all-returns [] db world l = refl
  check_all-returns (inv ∷ invs) db world l =
      let (_, (db', world')) = check_one ln inv (db, world) in
      rw (check_all, check_one-returns inv db world l.0) (check_all-returns invs db' world' l.1)

  check_one-panics :
      (inv : Invoice) (db : Db) (world : W)
      → byte_length (codes inv.payment_hash) < 8
      → (ln.check_invoice inv.payment_hash world).0 ≡ none
      → (check_one ln inv (db, world)).0 ≡ panics
  unfolding check_one
  check_one-panics inv db world short unknown =
      rw (check_one, unknown) (log_prefix-panics inv.payment_hash 8 short)

  check_all-panics :
      (inv : Invoice) (invs : List Invoice) (db : Db) (world : W)
      → byte_length (codes inv.payment_hash) < 8
      → (ln.check_invoice inv.payment_hash world).0 ≡ none
      → (check_all ln (inv ∷ invs) (db, world)).0 ≡ panics
  unfolding check_all
  check_all-panics inv invs db world short unknown =
      rw (check_all, check_one-panics inv db world short unknown) refl

pub filter-Loggable :
    (p : Invoice → Bool) (invs : List Invoice) → All Loggable invs → All Loggable (filter p invs)
unfolding filter
filter-Loggable p [] l = tt
filter-Loggable p (inv ∷ invs) l = elim (Bool-cases (p inv)) [
  | inl e ↦ rw e (l.0, filter-Loggable p invs l.1)
  | inr e ↦ rw e (filter-Loggable p invs l.1)
]

set_expired-Loggable : (inv : Invoice) → Loggable inv → Loggable (set_expired inv)
set_expired-Loggable inv l = record { hash_long = l.hash_long; key_long = l.key_long }

pub expired-Loggable :
    (now : ℕ) (invs : List Invoice)
    → All Loggable invs
    → All Loggable (update_where (is_overdue now) set_expired invs)
unfolding update_where
expired-Loggable now [] l = tt
expired-Loggable now (inv ∷ invs) l = elim (Bool-cases (is_overdue now inv)) [
  | inl e ↦ rw e (set_expired-Loggable inv l.0, expired-Loggable now invs l.1)
  | inr e ↦ rw e (l.0, expired-Loggable now invs l.1)
]

-- What the tick reads after the overdue invoices have expired.
abbrev Read : Result (List Invoice) → Tables → Type 0
Read (ok invs) t = All Loggable invs
Read (err e) t = Unit

pending_invoices-Loggable : (t : Tables) → All Loggable t.invoices → Ensures pending_invoices t Read
unfolding pending_invoices
pending_invoices-Loggable t l = Ensures-read _ tt (filter-Loggable _ t.invoices l)

expire_old_invoices-Loggable :
    (now : ℕ) (t : Tables)
    → All Loggable t.invoices
    → Ensures (expire_old_invoices now) t (λ r u. All Loggable u.invoices)
unfolding expire_old_invoices
expire_old_invoices-Loggable now t l = Ensures-statement _ l (expired-Loggable now t.invoices l)

module _ {W : Type 0} where
  -- If every stored invoice has a payment hash of at least eight bytes and a key of at least six, a
  -- tick runs to its end, whatever the network answers and whatever statements fail.
  pub watch_tick-returns :
      (ln : Option (Client W)) (now : ℕ) (db : Db) (world : W)
      → All Loggable db.tables.invoices
      → (watch_tick ln now (db, world)).0 ≡ returns
  unfolding watch_tick
  watch_tick-returns none now db world l = refl
  watch_tick-returns (some ln) now db world l =
      let expired_db = (expire_old_invoices now db).1 in
      let out = pending_invoices expired_db in
      ending out.0 out.1 (
        (pending_invoices-Loggable expired_db.tables
            ((expire_old_invoices-Loggable now db.tables l).at db.faults)).at
          expired_db.faults)
    where
      ending :
          (answer : Result (List Invoice)) (db' : Db)
          → Read answer db'.tables
          → let out : Exit × (Db × W) = elim answer [
            | err e ↦ (returns, (db', world))
            | ok invoices ↦ check_all ln invoices (db', world)
          ] in
            out.0 ≡ returns
      ending (ok invoices) db' good = check_all-returns ln invoices db' world good
      ending (err e) db' good = refl

  -- The tick panics if the first invoice that is pending and not overdue has a payment hash of fewer
  -- than eight bytes and the client has an error on it.
  pub watch_tick-panics :
      (ln : Client W) (now : ℕ) (inv : Invoice) (invs : List Invoice) (t : Tables) (world : W)
      → filter (λ i. is_pending i.status) (expire_overdue now t).invoices ≡ inv ∷ invs
      → byte_length (codes inv.payment_hash) < 8
      → (ln.check_invoice inv.payment_hash world).0 ≡ none
      → (watch_tick (some ln) now (record { tables = t; faults = [] }, world)).0 ≡ panics
  unfolding watch_tick expire_old_invoices pending_invoices select statement
  watch_tick-panics ln now inv invs t world first short unknown =
      rw first (check_all-panics ln inv invs _ world short unknown)
