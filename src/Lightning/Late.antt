-- ===== src/Lightning/Late.antt =====
-- Proofs about the overdue invoices of a tick of internal/lightning/invoices.go.
use routecat.Prelude.{
  Bool, Bool-cases, List, Option-cases, String, arith, eq_iff, false, find, find-some,
  find-update_where, inl, inr, refl, some, true, ℕ, ◌∷◌, ◌≡◌,
}
use routecat.Store.Tables.{Db, Invoice, InvoiceStatus, Tables}
use routecat.Store.Sql.{Result, err, ok, statement}
use routecat.Store.Ensures.{Ensures, Ensures-mono}
use routecat.Store.Invoices.{
  credit_invoice, expire_old_invoices, expire_overdue, has_hash, is_overdue, is_pending,
  read_invoice, set_credited, set_expired,
}
use routecat.Store.Credit.{Credited, Found, credit_invoice-Ensures}
use routecat.Lightning.Client.{Client}
use routecat.Lightning.Invoices.{watch_tick}
use routecat.Lightning.Watching.{watch_tick-keeps}

expired-Found :
    (hash : String) (now : ℕ) (inv : Invoice) (t : Tables)
    → Found hash inv t
    → is_overdue now inv ≡ true
    → Found hash (set_expired inv) (expire_overdue now t)
expired-Found hash now inv t found overdue =
    rw (find-update_where (has_hash hash) (is_overdue now) set_expired (λ x. refl), found)
      (ground arith)

-- An invoice that is not pending is left alone by every crediting.
pub credit_invoice-Found :
    (hash : String) (inv : Invoice)
    → is_pending inv.status ≡ false
    → (other : String) (t : Tables) → Found hash inv t
    → Ensures (credit_invoice other) t (λ _ u. Found hash inv u)
credit_invoice-Found hash inv settled other t found =
    Ensures-mono _ kept (credit_invoice-Ensures other t)
  where
    same_hash : has_hash other inv ≡ true → hash ≡ other
    same_hash hit =
        let own = find-some (has_hash hash) inv t.invoices found in
        ground (arith, eq_iff inv.payment_hash other, eq_iff inv.payment_hash hash)

    elsewhere :
        (inv' : Invoice)
        → read_invoice other t ≡ ok inv'
        → inv'.status ≡ InvoiceStatus.pending
        → has_hash other inv ≡ false
    elsewhere inv' read pending' = elim (Bool-cases (has_hash other inv)) [
      | inr apart ↦ apart
      | inl hit ↦
          (let again : Found other inv t = rw (same_hash hit) at found in
            ground (arith, rw (again, read_invoice) at read))
    ]

    kept : (r : Result Bool) (u : Tables) → Credited other t (r, u) → Found hash inv u
    kept (ok true) u (inv', read, pending', wrote) =
        rw
          (
            wrote,
            find-update_where (has_hash hash) (has_hash other) set_credited (λ x. refl),
            found,
          )
          (ground (arith, elsewhere inv' read pending'))
    kept (ok false) u (inv', read, not_pending, same) = rw same found
    kept (err e) u same = rw same found

-- If the statement that expires invoices does not fail, an invoice that is overdue when a tick
-- begins ends it expired, even if the client reports it paid.
pub watch_tick_late :
    {W : Type 0} (ln : Client W) (now : ℕ) (hash : String) (inv : Invoice) (t : Tables)
    (fs : List Bool) (world : W)
    → read_invoice hash t ≡ ok inv
    → is_overdue now inv ≡ true
    → let db : Db = record { tables = t; faults = false ∷ fs } in
      read_invoice hash (watch_tick (some ln) now (db, world)).1.0.tables ≡ ok (set_expired inv)
unfolding expire_old_invoices statement
watch_tick_late ln now hash inv t fs world read overdue =
    let found : Found hash inv t = elim (Option-cases (find (has_hash hash) t.invoices)) [
      | inl missing ↦ ground arith
      | inr (x, e) ↦ ground arith
    ] in
    let kept =
      watch_tick-keeps (Found hash (set_expired inv))
        (credit_invoice-Found hash (set_expired inv) refl) ln now
        (record { tables = t; faults = false ∷ fs }) world
        (expired-Found hash now inv t found overdue) in
    rw (read_invoice, kept) refl
