-- ===== src/Lightning/Lnd/Invoicing.antt =====
-- internal/lightning/lightning.go: CreateInvoice and CheckInvoice, and LNDClient as a Client.
use mathlib.Core.Option.{map as option_map}
use routecat.Prelude.{Bool, Option, String, inl, inr, none, some, ◌++◌, ◌==◌, ◌||◌, ◌⊎◌}
use routecat.Prelude.Int.{ℤ}
use routecat.Text.{Text, codes, text_eq}
use routecat.Text.Chars.{of_codes}
use routecat.Text.Decimal.{sprint_int}
use routecat.Lightning.Hashes.{b64_to_hex}
use routecat.Lightning.Client.{Client}
use routecat.Lightning.LndIo.{
  Io, LndError, bad_json, demand, give_back, http_error, or_fail, ◌>>=◌, ◌>>◌,
}
use routecat.Lightning.Lnd.{LndClient, Transport, do_request, excerpt, get_balance}
use routecat.Lightning.Lnd.Paying.{lnd_pay_address}

-- The memo is written into the JSON as it is.
unfoldable pub invoice_payload : ℤ → Text → Text
unfolding sprint_int
invoice_payload sats memo =
    codes "{\"value\":\""
    ++ sprint_int sats
    ++ codes "\",\"memo\":\""
    ++ memo
    ++ codes "\",\"expiry\":\"600\"}"

abbrev pub without_error : {A : Type 0} → LndError ⊎ A → Option A
without_error (inl e) = none
without_error (inr a) = some a

abbrev pub strings : Text × Text → String × String
strings (s, t) = (of_codes s, of_codes t)

module _ {W : Type 0} (net : Transport W) where
  -- The invoice and its payment hash. The status of the response is not looked at.
  unfoldable pub lnd_create_invoice : LndClient → ℤ → Text → Io W (Text × Text)
  unfolding do_request invoice_payload b64_to_hex
  lnd_create_invoice c sats memo = do
    resp ← do_request net c "POST" (codes "/v1/invoices") (some (invoice_payload sats memo))
    (bolt11, r_hash) ← or_fail bad_json (net.decode_new_invoice resp.body)
    give_back (bolt11, b64_to_hex r_hash)

  unfoldable pub lnd_check_invoice : LndClient → Text → Io W Bool
  unfolding do_request excerpt text_eq
  lnd_check_invoice c hash = do
    resp ← do_request net c "GET" (codes "/v1/invoice/" ++ hash) none
    demand (resp.status_code == 200) (http_error resp.status_code (excerpt 100 resp.body))
    (settled, state) ← or_fail bad_json (net.decode_lookup resp.body)
    give_back (settled || text_eq state (codes "SETTLED"))

  -- The interface that the payout engine, the watcher and the API use.
  unfoldable pub lnd_client : LndClient → Client W
  unfolding lnd_pay_address get_balance lnd_create_invoice lnd_check_invoice
  lnd_client c = record {
    pay_address = λ address sats w.
        let (r, w') = lnd_pay_address net c (codes address) sats w in
        (option_map of_codes (without_error r), w');
    get_balance = λ w. let (r, w') = get_balance net c w in (without_error r, w');
    create_invoice = λ sats memo w.
        let (r, w') = lnd_create_invoice c sats (codes memo) w in
        (option_map strings (without_error r), w');
    check_invoice =
        λ hash w. let (r, w') = lnd_check_invoice c (codes hash) w in (without_error r, w');
  }
