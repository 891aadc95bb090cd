-- ===== src/Store/Spec.antt =====
-- What internal/store/sqlite.go promises of the users' accounts and invoices: two maps and an
-- operation for each call, without rows, statements or transactions.
use mathlib.Core.Option.{map as option_map}
use routecat.Prelude.{
  List, Option, String, [], find, if◌then◌else◌, none, some, str_eq, ℕ, ◌∷◌, ◌≡◌, ◌⊎◌,
}
use routecat.Prelude.Int.{ltb_ℤ, pos, ℤ, ◌+ℤ◌, ◌-ℤ◌}
use routecat.Store.Tables.{ApiKey, Invoice, InvoiceStatus, Tables}
use routecat.Store.Users.{has_key}
use routecat.Store.Invoices.{has_hash, is_overdue, is_pending, set_credited, set_expired}
use routecat.Store.Books.{AccountCall, credits, deducts, expires, registers, tops_up}

pub record Accounts : Type 0 where
  -- in msats, by key
  pub balance : String → Option ℤ
  -- by payment hash
  pub invoice : String → Option Invoice

-- A map with one more entry.
unfoldable pub put : {V : Type 0} → String → V → (String → Option V) → String → Option V
put key v m k = if str_eq k key then some v else m k

-- A map with one entry changed, where it is.
unfoldable pub adjust : {V : Type 0} → String → (V → V) → (String → Option V) → String → Option V
adjust key f m k = option_map (λ v. if str_eq k key then f v else v) (m k)

abbrev pub new_invoice : String → String → ℤ → String → ℕ → Invoice
new_invoice key hash amount bolt11 now = record {
  payment_hash = hash;
  user_key = key;
  amount_msats = amount;
  bolt11 = bolt11;
  status = InvoiceStatus.pending;
  created_at = now;
}

-- What a call makes of the accounts, or none where it must be refused.
unfoldable pub spec_call : AccountCall → Accounts → Option Accounts
spec_call (registers key user_id name quota) a = elim (a.balance key) [
  | some _ ↦ none
  | none ↦ some (record a { balance = put key (pos 0) a.balance })
]
spec_call (tops_up key hash amount bolt11 now) a = elim (a.balance key) [
  | none ↦ none
  | some _ ↦ elim (a.invoice hash) [
    | some _ ↦ none
    | none ↦
        some (record a { invoice = put hash (new_invoice key hash amount bolt11 now) a.invoice })
  ]
]
spec_call (credits hash) a = elim (a.invoice hash) [
  | none ↦ none
  | some inv ↦
      if is_pending inv.status
      then some (record {
        balance = adjust inv.user_key (λ b. b +ℤ inv.amount_msats) a.balance;
        invoice = adjust hash set_credited a.invoice;
      })
      else some a
]
spec_call (expires now) a = some (record a {
  invoice = λ hash.
      option_map (λ inv. if is_overdue now inv then set_expired inv else inv) (a.invoice hash);
})
spec_call (deducts key amount) a = elim (a.balance key) [
  | none ↦ none
  | some current ↦
      if ltb_ℤ current amount
      then none
      else some (record a { balance = adjust key (λ b. b -ℤ amount) a.balance })
]

-- The accounts that the tables hold.
abbrev pub balances : List ApiKey → String → Option ℤ
balances rows key = option_map (λ row. row.balance_msats) (find (has_key key) rows)

abbrev pub invoices_by_hash : List Invoice → String → Option Invoice
invoices_by_hash invs hash = find (has_hash hash) invs

abbrev pub accounts : Tables → Accounts
accounts t = record { balance = balances t.api_keys; invoice = invoices_by_hash t.invoices }

-- From `a` the calls may lead to `b`: each has its effect, or is refused and has none.
abbrev pub Follows : List AccountCall → Accounts → Accounts → Type 0
Follows [] a b = a ≡ b
Follows (c ∷ cs) a b =
    (next : Accounts) × ((spec_call c a ≡ some next) ⊎ (next ≡ a)) × Follows cs next b
