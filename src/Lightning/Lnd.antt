-- ===== src/Lightning/Lnd.antt =====
-- internal/lightning/lightning.go: LNDClient, which speaks to a Lightning node over its REST API. The
-- network and the JSON decoders are parameters.
use routecat.Lightning.LndIo.{
  Io, LndError, bad_json, give_back, no_macaroon, no_response, or_fail, ◌>>=◌, ◌>>◌,
}
pub mod Paying
pub mod Logged
pub mod Paid
pub mod Lost
pub mod Refused
pub mod Settled
pub mod Invoicing
use routecat.Prelude.{
  Bool, List, Option, String, false, if◌then◌else◌, inl, inr, length, ltb, none, some, take, true,
  ℕ, ◌++◌, ◌⊎◌,
}
use routecat.Prelude.Int.{pos, ℤ}
use routecat.Text.{Text, codes, contains}
use routecat.Text.Hex.{hex_encode}
use routecat.Text.Decimal.{sscan_int}

-- A request as http.NewRequest builds it, with the settings of the http.Client that sends it.
pub record HttpRequest : Type 0 where
  pub method : String
  pub url : Text
  pub body : Option Text
  -- the header Grpc-Metadata-macaroon
  pub macaroon : Option Text
  -- the header Content-Type is application/json
  pub is_json : Bool
  -- in seconds
  pub timeout : ℕ
  pub skip_verify : Bool

-- The body is what can be read of it.
pub record HttpResponse : Type 0 where
  pub status_code : ℕ
  pub body : List ℕ

-- The answer to GET /.well-known/lnurlp/, in millisats.
pub record Lnurl : Type 0 where
  pub callback : Text
  pub min_sendable : ℤ
  pub max_sendable : ℤ

-- What the client uses of net/http and of encoding/json.
pub record Transport (W : Type 0) : Type 0 where
  -- http.NewRequest accepts the method and the URL
  pub accepts : String → Text → Bool
  -- none where no response comes
  pub send : HttpRequest → W → Option HttpResponse × W
  -- local_balance.sat
  pub decode_balance : List ℕ → Option Text
  pub decode_lnurl : List ℕ → Option Lnurl
  -- pr
  pub decode_bolt11 : List ℕ → Option Text
  -- payment_request and r_hash
  pub decode_new_invoice : List ℕ → Option (Text × Text)
  -- settled and state
  pub decode_lookup : List ℕ → Option (Bool × Text)
  -- payment_hash and payment_error
  pub decode_payment : List ℕ → Option (Text × Text)

pub record LndClient : Type 0 where
  pub base_url : Text
  pub macaroon : Text
  pub timeout : ℕ
  pub skip_verify : Bool

-- min
abbrev pub min_int : ℕ → ℕ → ℕ
min_int a b = if ltb a b then a else b

-- body[:min(len(body), n)]
unfoldable pub excerpt : ℕ → List ℕ → List ℕ
excerpt n body = take (min_int (length body) n) body

-- The path of a custom certificate changes nothing.
unfoldable pub new_lnd : (Text → Option (List ℕ)) → Text → Text → Text → LndError ⊎ LndClient
new_lnd read_file addr macaroon_path tls_path = elim (read_file macaroon_path) [
  | none ↦ inl no_macaroon
  | some bytes ↦
      let with_port = if contains addr (codes ":") then addr else addr ++ codes ":8080" in
      inr (record {
        base_url = codes "https" ++ codes "://" ++ with_port;
        macaroon = hex_encode bytes;
        timeout = 30;
        skip_verify = true;
      })
]

unfoldable pub lnd_request : LndClient → String → Text → Option Text → HttpRequest
lnd_request c method path payload = record {
  method = method;
  url = c.base_url ++ path;
  body = payload;
  macaroon = some c.macaroon;
  is_json = (elim payload [ none ↦ false | some p ↦ true ]);
  timeout = c.timeout;
  skip_verify = c.skip_verify;
}

module _ {W : Type 0} (net : Transport W) where
  -- http.NewRequest and Client.Do
  unfoldable pub send_request : HttpRequest → Io W HttpResponse
  send_request req w =
      if net.accepts req.method req.url
      then (let (resp, w') = net.send req w in
          elim resp [ none ↦ (inl no_response, w') | some r ↦ (inr r, w') ])
      else (inl no_response, w)

  -- The method `do`.
  unfoldable pub do_request : LndClient → String → Text → Option Text → Io W HttpResponse
  unfolding send_request lnd_request
  do_request c method path payload = send_request (lnd_request c method path payload)

  -- The number in a text, 0 where none can be scanned.
  abbrev pub scanned : Text → ℤ
  scanned s = elim (sscan_int s) [ none ↦ pos 0 | some n ↦ n ]

  unfoldable pub get_balance : LndClient → Io W ℤ
  unfolding do_request
  get_balance c = do
    resp ← do_request c "GET" (codes "/v1/balance/channels") none
    sat ← or_fail bad_json (net.decode_balance resp.body)
    give_back (scanned sat)
