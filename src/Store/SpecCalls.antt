-- ===== src/Store/SpecCalls.antt =====
-- Lemmas about the calls of Store.Spec, for internal/store/sqlite.go: when each has its effect.
-- When each call of the specification has its effect.
use mathlib.Core.Option.{map as option_map}
use routecat.Prelude.{Option, String, ap, arith, false, find, none, refl, some, ℕ, ◌≡◌, ◌≢◌}
use routecat.Prelude.Int.{ltb_ℤ, pos, ℤ, ◌+ℤ◌, ◌-ℤ◌, ◌≤ℤ◌}
use routecat.Store.Tables.{ApiKey, Invoice, InvoiceStatus, Tables}
use routecat.Store.Sql.{err, no_rows, ok}
use routecat.Store.Users.{has_key, read_balance}
use routecat.Store.Invoices.{is_pending, set_credited}
use routecat.Store.Books.{credits, deducts, registers, tops_up}
use routecat.Store.Spec.{Accounts, adjust, balances, new_invoice, put, spec_call}

module _ (a : Accounts) where
  pub spec_registers :
      (key user_id name : String) (quota : ℤ)
      → a.balance key ≡ none
      → spec_call (registers key user_id name quota) a
        ≡ some (record a { balance = put key (pos 0) a.balance })
  unfolding spec_call
  spec_registers key user_id name quota h = rw (spec_call, h) refl

  pub spec_deducts :
      (key : String) (amount current : ℤ)
      → a.balance key ≡ some current
      → amount ≤ℤ current
      → spec_call (deducts key amount) a
        ≡ some (record a { balance = adjust key (λ b. b -ℤ amount) a.balance })
  unfolding spec_call
  spec_deducts key amount current h covered =
      let enough : ltb_ℤ current amount ≡ false = ground arith in rw (spec_call, h, enough) refl

  pub spec_credits :
      (hash : String) (inv : Invoice)
      → a.invoice hash ≡ some inv
      → inv.status ≡ InvoiceStatus.pending
      → spec_call (credits hash) a
        ≡ some (record {
          balance = adjust inv.user_key (λ b. b +ℤ inv.amount_msats) a.balance;
          invoice = adjust hash set_credited a.invoice;
        })
  unfolding spec_call
  spec_credits hash inv h open_still = rw (spec_call, h, open_still) refl

  pub spec_credits_settled :
      (hash : String) (inv : Invoice)
      → a.invoice hash ≡ some inv
      → inv.status ≢ InvoiceStatus.pending
      → spec_call (credits hash) a ≡ some a
  unfolding spec_call
  spec_credits_settled hash inv h settled =
      let closed : is_pending inv.status ≡ false = not_pending inv.status settled in
      rw (spec_call, h, closed) refl
    where
      not_pending : (s : InvoiceStatus) → s ≢ InvoiceStatus.pending → is_pending s ≡ false
      not_pending InvoiceStatus.pending h = elim (h refl) [ ]
      not_pending InvoiceStatus.credited h = refl
      not_pending InvoiceStatus.expired h = refl

  pub spec_tops_up :
      (key hash : String) (amount : ℤ) (bolt11 : String) (now : ℕ) (b : ℤ)
      → a.balance key ≡ some b
      → a.invoice hash ≡ none
      → spec_call (tops_up key hash amount bolt11 now) a
        ≡ some (record a { invoice = put hash (new_invoice key hash amount bolt11 now) a.invoice })
  unfolding spec_call
  spec_tops_up key hash amount bolt11 now b h fresh = rw (spec_call, h, fresh) refl

pub balance_of_read :
    (key : String) (t : Tables) (current : ℤ)
    → read_balance key t ≡ ok current
    → balances t.api_keys key ≡ some current
balance_of_read key t current = known (find (has_key key) t.api_keys)
  where
    known :
        (o : Option ApiKey)
        → (elim o [ none ↦ err no_rows | some row ↦ ok row.balance_msats ]) ≡ ok current
        → option_map (λ row. row.balance_msats) o ≡ some current
    known none e = cc e
    known (some row) e = ap some (ok_inj e)
      where
        ok_inj : ok row.balance_msats ≡ ok current → row.balance_msats ≡ current
        ok_inj h = cc h
