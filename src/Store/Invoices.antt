-- ===== src/Store/Invoices.antt =====
-- internal/store/sqlite.go: Lightning invoices for user top-ups.
use routecat.Prelude.{
  Bool, List, String, [], count, false, filter, find, if◌then◌else◌, ltb, none, not, some, str_eq,
  true, update_where, ℕ, ◌&&◌, ◌++◌, ◌+◌, ◌∷◌,
}
use routecat.Prelude.Int.{ℤ}
use routecat.Store.Tables.{Invoice, InvoiceStatus, Tables}
use routecat.Store.Sql.{
  Ending, Result, Sql, commit, constraint, err, leave, no_rows, ok, pure, select, statement,
  transaction, ◌>>=◌, ◌>>◌,
}
use routecat.Store.Users.{add_balance}

abbrev pub has_hash : String → Invoice → Bool
has_hash hash inv = str_eq inv.payment_hash hash

abbrev pub is_pending : InvoiceStatus → Bool
is_pending InvoiceStatus.pending = true
is_pending InvoiceStatus.credited = false
is_pending InvoiceStatus.expired = false

-- INSERT INTO invoices; the payment hash is the primary key, created_at is CURRENT_TIMESTAMP
abbrev insert_invoice : Invoice → Tables → Result (Unit {0}) × Tables
insert_invoice inv t = elim (find (has_hash inv.payment_hash) t.invoices) [
  | none ↦ (ok tt, record t { invoices = t.invoices ++ inv ∷ [] })
  | some _ ↦ (err constraint, t)
]

unfoldable pub create_invoice : String → String → ℤ → String → ℕ → Sql (Unit {0})
create_invoice hash user_key amount bolt11 now = statement (
    insert_invoice (record {
      payment_hash = hash;
      user_key = user_key;
      amount_msats = amount;
      bolt11 = bolt11;
      status = InvoiceStatus.pending;
      created_at = now;
    }))

abbrev pub set_credited : Invoice → Invoice
set_credited inv = record inv { status = InvoiceStatus.credited }

abbrev pub set_expired : Invoice → Invoice
set_expired inv = record inv { status = InvoiceStatus.expired }

-- UPDATE invoices SET status='credited' WHERE payment_hash=?
abbrev pub mark_credited : String → Tables → Tables
mark_credited hash t = record t { invoices = update_where (has_hash hash) set_credited t.invoices }

-- SELECT status, user_key, amount_msats FROM invoices WHERE payment_hash=?
abbrev pub read_invoice : String → Tables → Result Invoice
read_invoice hash t = elim (find (has_hash hash) t.invoices) [
  | none ↦ err no_rows
  | some inv ↦ ok inv
]

credit_body : String → Sql (Ending Bool)
credit_body hash = do
  inv ← select (read_invoice hash)
  if not (is_pending inv.status) then pure (leave false) else (do
    statement (λ t. (ok tt, mark_credited hash t))
    statement (λ t. (ok tt, add_balance inv.user_key inv.amount_msats t))
    pure (commit true))

-- `true` if the invoice was credited now, `false` if it was credited or had expired before.
unfoldable pub credit_invoice : String → Sql Bool
unfolding credit_body
credit_invoice hash = transaction (credit_body hash)

-- SELECT … FROM invoices WHERE status='pending'
unfoldable pub pending_invoices : Sql (List Invoice)
pending_invoices = select (λ t. ok (filter (λ inv. is_pending inv.status) t.invoices))

abbrev pub expiry_seconds : ℕ
expiry_seconds = 600

-- created_at < datetime('now', '-10 minutes')
abbrev pub is_overdue : ℕ → Invoice → Bool
is_overdue now inv = is_pending inv.status && ltb (inv.created_at + expiry_seconds) now

-- UPDATE invoices SET status='expired' WHERE status='pending' AND created_at < …
abbrev pub expire_overdue : ℕ → Tables → Tables
expire_overdue now t = record t { invoices = update_where (is_overdue now) set_expired t.invoices }

-- The number of invoices that expired now.
unfoldable pub expire_old_invoices : ℕ → Sql ℕ
expire_old_invoices now =
    statement (λ t. (ok (count (is_overdue now) t.invoices), expire_overdue now t))
