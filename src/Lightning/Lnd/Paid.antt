-- ===== src/Lightning/Lnd/Paid.antt =====
-- Proofs about PayAddress of internal/lightning/lightning.go: which payments it asks LND for.
use routecat.Prelude.{
  ==→eq, All, Bool, List, [], ap, arith, false, if◌then◌else◌, inl, inr, not, refl, some, true, ◌∙◌,
  ◌∷◌, ◌≡◌, ◌⊎◌,
}
use routecat.Prelude.Int.{scale_ℤ, wrap64, ℤ, ◌≤ℤ◌}
use routecat.Text.{Text, codes, is_nil, split_two}
use routecat.Lightning.Hashes.{b64_to_hex}
use routecat.Lightning.LndIo.{LndError, ◌>>◌}
use routecat.Lightning.Lnd.{
  HttpRequest, HttpResponse, LndClient, Lnurl, Transport, do_request, lnd_request,
}
use routecat.Lightning.Lnd.Paying.{
  get_request, http_get, in_range, invoice_url, lnd_pay_address, lnurl_url, pay_invoice,
  payment_payload,
}
use routecat.Lightning.Lnd.Logged.{After-send, Answers, logged}
use routecat.Lightning.LndIo.After.{
  After, After-bind, After-demand, After-give_back, After-or_fail, Post,
}

is_nil-nil : (s : Text) → is_nil s ≡ true → s ≡ []
unfolding is_nil
is_nil-nil [] e = refl
is_nil-nil (c ∷ s) e = cc e

is_false : (b : Bool) → not b ≡ true → b ≡ false
is_false true e = cc e
is_false false e = refl

in_range-bounds :
    (lnurl : Lnurl) (msats : ℤ)
    → in_range lnurl msats ≡ true
    → (lnurl.min_sendable ≤ℤ msats) × (msats ≤ℤ lnurl.max_sendable)
in_range-bounds lnurl msats h = ground arith

module _ {W : Type 0} (net : Transport W) (c : LndClient) (address : Text) (sats : ℤ) where
  abbrev msats : ℤ
  msats = wrap64 (scale_ℤ sats 1000)

  -- The request that lets LND pay an invoice.
  abbrev pub pay_request : Text → HttpRequest
  pay_request bolt11 =
      lnd_request c "POST" (codes "/v1/channels/transactions") (some (payment_payload bolt11))

  -- The invoice is the one that the address's server gave for the amount, which is within the bounds
  -- that the server set, and `log` the requests until then.
  pub record Invoiced (bolt11 : Text) (start : W) (log : List HttpRequest) (w : W) : Type 0 where
    pub user : Text
    pub domain : Text
    pub parts : split_two b'@' address ≡ some (user, domain)
    pub resolved : HttpResponse
    pub lnurl : Lnurl
    pub between : W
    pub resolves : Answers net (get_request (lnurl_url user domain)) start resolved between
    pub bounds : net.decode_lnurl resolved.body ≡ some lnurl
    pub least : lnurl.min_sendable ≤ℤ msats
    pub most : msats ≤ℤ lnurl.max_sendable
    pub fetched : HttpResponse
    pub fetches : Answers net (get_request (invoice_url lnurl.callback msats)) between fetched w
    pub invoice : net.decode_bolt11 fetched.body ≡ some bolt11
    pub given : is_nil bolt11 ≡ false
    pub requests :
        log
        ≡ get_request (invoice_url lnurl.callback msats) ∷ get_request (lnurl_url user domain) ∷ []

  abbrev pub IsGet : HttpRequest → Type 0
  IsGet req = req.method ≡ "GET"

  -- LND was asked to pay the invoice, once, as the last request.
  pub record Asked (start : W) (log : List HttpRequest) : Type 0 where
    pub bolt11 : Text
    pub before : List HttpRequest
    pub at_that : W
    pub invoiced : Invoiced bolt11 start before at_that
    pub requests : log ≡ pay_request bolt11 ∷ before

  -- LND was asked to pay, and answered that it has.
  pub record Paid (start : W) (hash : Text) (log : List HttpRequest) (w : W) : Type 0 where
    pub bolt11 : Text
    pub before : List HttpRequest
    pub at_that : W
    pub invoiced : Invoiced bolt11 start before at_that
    pub requests : log ≡ pay_request bolt11 ∷ before
    pub answer : HttpResponse
    pub answers : Answers net (pay_request bolt11) at_that answer w
    pub status : answer.status_code ≡ 200
    pub base64_hash : Text
    pub accepted : net.decode_payment answer.body ≡ some (base64_hash, [])
    pub in_hex : hash ≡ (if is_nil base64_hash then [] else b64_to_hex base64_hash)

  -- Without a hash: only GET requests were sent, or the payment last.
  abbrev pub Stopped : W → List HttpRequest → Type 0
  Stopped start log = All IsGet log ⊎ Asked start log

  abbrev pub Ended : W → LndError ⊎ Text → List HttpRequest → W → Type 0
  Ended start (inl e) log w = Stopped start log
  Ended start (inr hash) log w = Paid start hash log w

  Invoiced-gets :
      {bolt11 : Text} {start w : W} {log : List HttpRequest}
      → Invoiced bolt11 start log w
      → All IsGet log
  unfolding get_request
  Invoiced-gets i = rw i.requests (refl, (refl, tt))

  pay_invoice-Paid :
      (bolt11 : Text) (start w : W) (log : List HttpRequest)
      → Invoiced bolt11 start log w
      → After
          (pay_invoice (logged net) c bolt11)
          (λ hash (log', w'). Paid start hash log' w')
          (λ e (log', w'). Stopped start log')
          (log, w)
  unfolding pay_invoice ◌>>◌ do_request
  pay_invoice-Paid bolt11 start w log i = After-bind _ _ (
      After-send net _ log w (inl (Invoiced-gets i)) (λ w'. asked)
        (λ resp w' came. After-bind _ _ (
          After-demand _ _ (λ _. asked)
            (λ fine. After-bind _ _ (
              After-or_fail _ _ (λ _. asked)
                (λ (hash, refusal) read. After-bind _ _ (
                  After-demand _ _ (λ _. asked)
                    (λ accepts. After-give_back _ (record {
                      bolt11 = bolt11;
                      before = log;
                      at_that = w;
                      invoiced = i;
                      requests = refl;
                      answer = resp;
                      answers = came;
                      status = ==→eq _ _ fine;
                      base64_hash = hash;
                      accepted = read ∙ ap (λ t. some (hash, t)) (is_nil-nil refusal accepts);
                      in_hex = refl;
                    })))))))))
    where
      asked : Stopped start (pay_request bolt11 ∷ log)
      asked =
          inr (record { bolt11 = bolt11; before = log; at_that = w; invoiced = i; requests = refl })

  -- PayAddress sends at most one payment request to LND, as its last request: for an invoice that the
  -- server of the address gave for just the amount, which is within the server's bounds. A hash comes
  -- back only if LND has answered that request with status 200 and without a payment error, and is the
  -- hexadecimal form of LND's.
  pub lnd_pay_address-Ended :
      (w : W)
      → let (r, (log, w')) = lnd_pay_address (logged net) c address sats ([], w) in Ended w r log w'
  unfolding lnd_pay_address http_get ◌>>◌
  lnd_pay_address-Ended w = ending _ _ (After.holds paying)
    where
      ending :
          (r : LndError ⊎ Text) (s : List HttpRequest × W)
          → Post (λ hash (log, w'). Paid w hash log w') (λ e (log, w'). Stopped w log) r s
          → Ended w r s.0 s.1
      ending (inl e) s h = h
      ending (inr hash) s h = h

      paying :
          After
            (lnd_pay_address (logged net) c address sats)
            (λ hash (log, w'). Paid w hash log w')
            (λ e (log, w'). Stopped w log)
            ([], w)
      paying = After-bind _ _ (
          After-or_fail _ _ (λ _. inl tt)
            (λ (user, domain) parts. After-bind _ _ (
              After-send net _ [] w (inl tt) (λ _. inl (refl, tt))
                (λ resolved between resolves. After-bind _ _ (
                  After-or_fail _ _ (λ _. inl (refl, tt))
                    (λ lnurl bounds. After-bind _ _ (
                      After-demand _ _ (λ _. inl (refl, tt))
                        (λ inside. After-bind _ _ (
                          After-send net _ _ between (inl (refl, tt)) (λ _. inl (refl, (refl, tt)))
                            (λ fetched at_that fetches. After-bind _ _ (
                              After-or_fail _ _ (λ _. inl (refl, (refl, tt)))
                                (λ bolt11 invoice. After-bind _ _ (
                                  After-demand _ _ (λ _. inl (refl, (refl, tt)))
                                    (λ given. pay_invoice-Paid bolt11 w at_that _ (record {
                                      user = user;
                                      domain = domain;
                                      parts = parts;
                                      resolved = resolved;
                                      lnurl = lnurl;
                                      between = between;
                                      resolves = resolves;
                                      bounds = bounds;
                                      least = (in_range-bounds lnurl msats inside).0;
                                      most = (in_range-bounds lnurl msats inside).1;
                                      fetched = fetched;
                                      fetches = fetches;
                                      invoice = invoice;
                                      given = is_false (is_nil bolt11) given;
                                      requests = refl;
                                    })))))))))))))))
