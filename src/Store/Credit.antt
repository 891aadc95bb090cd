-- ===== src/Store/Credit.antt =====
-- Proofs about `CreditInvoice` in internal/store/sqlite.go, whatever statements fail.
use routecat.Store.Users.{add_balance}
use routecat.Prelude.{
  Bool, Bool-cases, Option-cases, String, [], arith, false, find, inl, inr, none, not, refl, some,
  true, ◌≡◌, ◌≢◌,
}
use routecat.Store.Tables.{Db, Invoice, InvoiceStatus, Tables}
use routecat.Store.Sql.{Result, err, leave, no_rows, ok, outcome, pure, sql}
use routecat.Store.Ensures.{
  Ensures, Ensures-if, Ensures-pure, Ensures-select, Ensures-transaction, Ensures-write,
}
use routecat.Store.Invoices.{credit_invoice, has_hash, is_pending, mark_credited, read_invoice}

is_pending-true : (s : InvoiceStatus) → not (is_pending s) ≡ false → s ≡ InvoiceStatus.pending
is_pending-true s h = ground arith

is_pending-false : (s : InvoiceStatus) → not (is_pending s) ≡ true → s ≢ InvoiceStatus.pending
is_pending-false s h = ground arith

-- What a crediting that began at `t` has done, by how it ended.
abbrev pub Credited : String → Tables → Result Bool × Tables → Type 0
Credited hash t (ok true, u) =
    (inv : Invoice) × (read_invoice hash t ≡ ok inv)
    × (inv.status ≡ InvoiceStatus.pending)
    × (u ≡ add_balance inv.user_key inv.amount_msats (mark_credited hash t))
Credited hash t (ok false, u) =
    (inv : Invoice) × (read_invoice hash t ≡ ok inv)
    × (inv.status ≢ InvoiceStatus.pending)
    × (u ≡ t)
Credited hash t (err e, u) = u ≡ t

pub credit_invoice-Ensures :
    (hash : String) (t : Tables) → Ensures (credit_invoice hash) t (λ r u. Credited hash t (r, u))
unfolding credit_invoice
credit_invoice-Ensures hash t = Ensures-transaction _ refl (
    Ensures-select (read_invoice hash) _ refl
      (λ inv found.
        Ensures-if (not (is_pending inv.status)) (pure _) _
          (λ settled.
            Ensures-pure (leave false) (inv, found, is_pending-false inv.status settled, refl))
          λ open_still. Ensures-write (mark_credited hash) _ refl (
            Ensures-write (add_balance inv.user_key inv.amount_msats) _ refl
              (Ensures-pure _ (refl, (inv, found, is_pending-true inv.status open_still, refl)))))
      (λ e missing. refl))

-- Crediting is atomic: with any statement of the transaction failing, it credits a pending invoice
-- and adds its amount to its user's balance, both or neither; it returns `false` on an invoice that
-- is settled and then writes nothing, and with an error every table is as before.
pub credit_invoice-Credited :
    (hash : String) (db : Db) → Credited hash db.tables (outcome (credit_invoice hash) db)
credit_invoice-Credited hash db = (credit_invoice-Ensures hash db.tables).at db.faults

-- A database on which no statement fails.
abbrev pub quiet : Tables → Db
quiet t = record { tables = t; faults = [] }

-- The row that a hash finds.
abbrev pub Found : String → Invoice → Tables → Type 0
Found hash inv t = find (has_hash hash) t.invoices ≡ some inv

pub credit_invoice-pending :
    (hash : String) (inv : Invoice) (t : Tables)
    → Found hash inv t
    → inv.status ≡ InvoiceStatus.pending
    → credit_invoice hash (quiet t)
      ≡ (ok true, quiet (add_balance inv.user_key inv.amount_msats (mark_credited hash t)))
unfolding credit_invoice sql
credit_invoice-pending hash inv t found open_still = ground arith

pub credit_invoice-settled :
    (hash : String) (inv : Invoice) (t : Tables)
    → Found hash inv t
    → is_pending inv.status ≡ false
    → credit_invoice hash (quiet t) ≡ (ok false, quiet t)
unfolding credit_invoice sql
credit_invoice-settled hash inv t found settled = ground arith

pub credit_invoice-unknown :
    (hash : String) (t : Tables)
    → find (has_hash hash) t.invoices ≡ none
    → credit_invoice hash (quiet t) ≡ (err no_rows, quiet t)
unfolding credit_invoice sql
credit_invoice-unknown hash t missing = ground arith

pending_status : (s : InvoiceStatus) → is_pending s ≡ true → s ≡ InvoiceStatus.pending
pending_status s h = ground arith

pub credit_invoice-quiet :
    (hash : String) (t : Tables) → (credit_invoice hash (quiet t)).1.faults ≡ []
credit_invoice-quiet hash t = elim (Option-cases (find (has_hash hash) t.invoices)) [
  | inl missing ↦ rw (credit_invoice-unknown hash t missing) refl
  | inr (inv, found) ↦ elim (Bool-cases (is_pending inv.status)) [
    | inl open_still ↦
        rw (credit_invoice-pending hash inv t found (pending_status inv.status open_still)) refl
    | inr settled ↦ rw (credit_invoice-settled hash inv t found settled) refl
  ]
]
