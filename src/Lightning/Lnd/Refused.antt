-- ===== src/Lightning/Lnd/Refused.antt =====
-- Proofs about a top-up where LND refuses to make an invoice (internal/lightning/lightning.go and
-- invoices.go, internal/api/api.go).
use routecat.Prelude.{String, [], some, ℕ, ◌++◌, ◌∷◌}
use routecat.Prelude.Int.{scale_ℤ, wrap64, ℤ}
use routecat.Text.{Text, codes}
use routecat.Lightning.Lnd.{HttpRequest, LndClient, Transport, lnd_request}
use routecat.Lightning.Lnd.Invoicing.{invoice_payload}
use routecat.Store.Tables.{Invoice, InvoiceStatus, Tables}
use routecat.Gateway.State.{seconds}
use routecat.Lightning.Client.{Client}

module _ {W : Type 0} (net : Transport W) (c : LndClient) where
  -- The request for a new invoice.
  abbrev pub create_request : ℤ → Text → HttpRequest
  create_request sats memo =
      lnd_request c "POST" (codes "/v1/invoices") (some (invoice_payload sats memo))

  -- The invoice that is stored then.
  abbrev pub nameless : String → ℤ → ℕ → Invoice
  nameless user_key sats now = record {
    payment_hash = "";
    user_key = user_key;
    amount_msats = wrap64 (scale_ℤ sats 1000);
    bolt11 = "";
    status = InvoiceStatus.pending;
    created_at = seconds now;
  }

  abbrev pub with_nameless : String → ℤ → ℕ → Tables → Tables
  with_nameless user_key sats now t = record t {
    invoices = t.invoices ++ nameless user_key sats now ∷ [];
  }
