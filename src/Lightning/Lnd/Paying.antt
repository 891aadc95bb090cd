-- ===== src/Lightning/Lnd/Paying.antt =====
-- internal/lightning/lightning.go: PayAddress and payInvoice.
use routecat.Prelude.{Bool, [], false, if◌then◌else◌, none, not, some, ◌++◌, ◌==◌, ◌||◌}
use routecat.Prelude.Int.{ltb_ℤ, scale_ℤ, wrap64, ℤ}
use routecat.Text.{Text, codes, contains, is_nil, split_two}
use routecat.Text.Decimal.{sprint_int}
use routecat.Lightning.Hashes.{b64_to_hex}
use routecat.Lightning.LndIo.{
  Io, bad_json, demand, empty_invoice, give_back, http_error, invalid_address, or_fail,
  out_of_range, payment_error, unreadable_payment, ◌>>=◌, ◌>>◌,
}
use routecat.Lightning.Lnd.{
  HttpRequest, HttpResponse, LndClient, Lnurl, Transport, do_request, excerpt, send_request,
}

-- The request of httpClient.Get, of a client with a timeout of 10 seconds.
unfoldable pub get_request : Text → HttpRequest
get_request url = record {
  method = "GET";
  url = url;
  body = none;
  macaroon = none;
  is_json = false;
  timeout = 10;
  skip_verify = false;
}

unfoldable pub payment_payload : Text → Text
payment_payload bolt11 =
    codes "{\"payment_request\":\"" ++ bolt11 ++ codes "\",\"fee_limit\":{\"fixed\":\"50\"}}"

unfoldable pub lnurl_url : Text → Text → Text
lnurl_url user domain = codes "https://" ++ domain ++ codes "/.well-known/lnurlp/" ++ user

unfoldable pub invoice_url : Text → ℤ → Text
unfolding sprint_int contains
invoice_url callback msats =
    let sep = if contains callback (codes "?") then codes "&" else codes "?" in
    callback ++ sep ++ codes "amount=" ++ sprint_int msats

-- The amount is within the bounds of the address.
abbrev pub in_range : Lnurl → ℤ → Bool
in_range lnurl msats = not (ltb_ℤ msats lnurl.min_sendable || ltb_ℤ lnurl.max_sendable msats)

module _ {W : Type 0} (net : Transport W) where
  -- httpClient.Get
  unfoldable pub http_get : Text → Io W HttpResponse
  unfolding send_request get_request
  http_get url = send_request net (get_request url)

  -- The hash of the payment, as hexadecimal, empty where LND gives none.
  unfoldable pub pay_invoice : LndClient → Text → Io W Text
  unfolding do_request payment_payload excerpt b64_to_hex
  pay_invoice c bolt11 = do
    resp ←
        do_request net c "POST" (codes "/v1/channels/transactions") (some (payment_payload bolt11))
    demand (resp.status_code == 200) (http_error resp.status_code (excerpt 200 resp.body))
    (hash, refusal) ←
        or_fail (unreadable_payment (excerpt 200 resp.body)) (net.decode_payment resp.body)
    demand (is_nil refusal) (payment_error refusal)
    give_back (if is_nil hash then [] else b64_to_hex hash)

  -- An address is resolved, an invoice over the amount fetched, and the invoice paid.
  unfoldable pub lnd_pay_address : LndClient → Text → ℤ → Io W Text
  unfolding http_get pay_invoice lnurl_url invoice_url split_two is_nil
  lnd_pay_address c address sats = do
    (user, domain) ← or_fail (invalid_address address) (split_two b'@' address)
    resp ← http_get (lnurl_url user domain)
    lnurl ← or_fail bad_json (net.decode_lnurl resp.body)
    let msats = wrap64 (scale_ℤ sats 1000)
    demand (in_range lnurl msats) (out_of_range sats lnurl.min_sendable lnurl.max_sendable)
    resp2 ← http_get (invoice_url lnurl.callback msats)
    bolt11 ← or_fail bad_json (net.decode_bolt11 resp2.body)
    demand (not (is_nil bolt11)) (empty_invoice address)
    pay_invoice c bolt11
