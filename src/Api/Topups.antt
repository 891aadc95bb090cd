-- ===== src/Api/Topups.antt =====
-- Proofs about the top-ups of internal/api/api.go.
use routecat.Prelude.{String, [], find, none, some, true, ℕ, ◌++◌, ◌∷◌, ◌≡◌}
use routecat.Prelude.Int.{pos, scale_ℤ, ℤ, ◌≤ℤ◌}
use routecat.Http.{Status, bearer_key, decoded, success}
use routecat.Store.Tables.{Db, Invoice, InvoiceStatus, Tables}
use routecat.Store.Sql.{Result, err, ok}
use routecat.Store.Ensures.{Ensures}
use routecat.Store.Invoices.{has_hash}
use routecat.Store.Accounts.{exists_key}
use routecat.Gateway.State.{seconds}
use routecat.Lightning.Client.{Client}
use routecat.Api.Accounts.{TopUpRequest}

-- What a top-up has done, by its answer: the invoice that it has stored, or nothing.
abbrev pub ToppedUp : TopUpRequest → ℕ → Tables → Status → Tables → Type 0
ToppedUp req now t Status.success u =
    (user_key : String) × (sats : ℤ) × (hash : String) × (bolt11 : String) × (bearer_key
        req.authorization
      ≡ some user_key)
    × (exists_key user_key t.api_keys ≡ true)
    × (req.body ≡ decoded sats)
    × (pos 10 ≤ℤ sats)
    × (sats ≤ℤ pos 100000)
    × (find (has_hash hash) t.invoices ≡ none)
    × (u ≡ record t {
      invoices =
          t.invoices
          ++ record {
            payment_hash = hash;
            user_key = user_key;
            amount_msats = scale_ℤ sats 1000;
            bolt11 = bolt11;
            status = InvoiceStatus.pending;
            created_at = seconds now;
          }
            ∷ [];
    })
ToppedUp req now t Status.created u = ⊥
ToppedUp req now t status u = u ≡ t

abbrev Stores : Invoice → Tables → Result (Unit {0}) → Tables → Type 0
Stores inv t (ok _) u =
    (find (has_hash inv.payment_hash) t.invoices ≡ none)
    × (u ≡ record t { invoices = t.invoices ++ inv ∷ [] })
Stores inv t (err e) u = u ≡ t

abbrev issued : String → ℤ → String → String → ℕ → Invoice
issued user_key amount hash bolt11 now = record {
  payment_hash = hash;
  user_key = user_key;
  amount_msats = amount;
  bolt11 = bolt11;
  status = InvoiceStatus.pending;
  created_at = now;
}

module _ {W : Type 0} (req : TopUpRequest) (now : ℕ) (t : Tables) where
  abbrev Outcome : Status × (Db × W) → Type 0
  Outcome out = ToppedUp req now t out.0 out.1.0.tables
