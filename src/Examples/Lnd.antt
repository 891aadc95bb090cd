-- ===== src/Examples/Lnd.antt =====
-- Runs of LNDClient, of the payout engine and the watcher with it, and of the account calls.
use routecat.Prelude.{
  List, [], arith, if◌then◌else◌, inr, none, refl, some, str_eq, suc, true, ℕ, ◌∷◌, ◌≡◌,
}
use routecat.Prelude.Int.{pos, scale_ℤ, wrap64}
use routecat.Text.{codes, contains, is_nil, is_space, split_two}
use routecat.Text.Hex.{hex_decode, hex_encode}
use routecat.Text.Base64.{base64_decode, base64_encode, std}
use routecat.Text.Decimal.{sprint_int, sscan_int}
use routecat.Lightning.Hashes.{b64_to_hex, b64_to_hex-faithful, hex_to_b64_url}
use routecat.Lightning.LndIo.{io}
use routecat.Lightning.Lnd.{HttpRequest, LndClient, Transport, get_balance, new_lnd}
use routecat.Lightning.Lnd.Paying.{get_request, invoice_url, lnd_pay_address}
use routecat.Lightning.Lnd.Invoicing.{lnd_client}
use routecat.Lightning.Lnd.Logged.{logged}
use routecat.Lightning.Lnd.Paid.{Ended, lnd_pay_address-Ended}
use routecat.Lightning.Lnd.Settled.{Looked, check_one-Looked}
use routecat.Lightning.Payout.{Round}
use routecat.Lightning.Invoices.{check_one}
use routecat.Examples.Data.{invoice_row, market, market_db}
use routecat.Store.Tables.{Tables}

-- A network that counts its requests: every GET is answered, and no POST.
abbrev pub lossy : Transport ℕ
lossy = record {
  accepts = λ method url. true;
  send = λ req w.
      if str_eq req.method "GET"
      then (some (record { status_code = 200; body = [] }), suc w)
      else (none, suc w);
  decode_balance = λ body. some (codes " 42");
  decode_lnurl = λ body. some (record {
    callback = codes "https://p.example/cb?u=bob";
    min_sendable = pos 1000;
    max_sendable = pos 100000000;
  });
  decode_bolt11 = λ body. some (codes "lnbc1");
  decode_new_invoice = λ body. none;
  decode_lookup = λ body. some (true, []);
  decode_payment = λ body. none;
}

-- LND answers every request with an error.
abbrev refusing : Transport ℕ
refusing = record lossy {
  send = λ req w. (some (record { status_code = 500; body = codes "{\"code\":2}" }), suc w);
  decode_new_invoice = λ body. some ([], []);
}

-- LND pays, and gives the hash of three bytes.
abbrev paying : Transport ℕ
paying = record lossy {
  send = λ req w. (some (record { status_code = 200; body = [] }), suc w);
  decode_payment = λ body. some (codes "q80B", []);
}

abbrev lnd : LndClient
lnd = record {
  base_url = codes "https://lnd.example:8080";
  macaroon = codes "0201";
  timeout = 30;
  skip_verify = true;
}

get_balance_run : (get_balance lossy lnd 0) ≡ (inr (pos 42), 1)
unfolding get_balance io sscan_int is_space
get_balance_run = refl

new_lnd_run :
    new_lnd (λ path. some (2 ∷ 171 ∷ [])) (codes "umbrel") (codes "mac") (codes "tls")
    ≡ inr (record {
      base_url = codes "https://umbrel:8080";
      macaroon = codes "02ab";
      timeout = 30;
      skip_verify = true;
    })
unfolding new_lnd hex_encode contains
new_lnd_run = refl

paid_run :
    (lnd_pay_address paying lnd (codes "bob@ln.example") (pos 150) 0) ≡ (inr (codes "abcd01"), 3)
unfolding lnd_pay_address io is_nil split_two wrap64 scale_ℤ b64_to_hex base64_decode hex_encode
paid_run = refl

invoice_url_run :
    invoice_url (codes "https://p.example/cb?u=bob") (pos 150000)
    ≡ codes "https://p.example/cb?u=bob&amount=150000"
unfolding invoice_url sprint_int contains
invoice_url_run = refl

abbrev some_hash : List ℕ
some_hash = 1 ∷ 255 ∷ 0 ∷ 62 ∷ []

b64_to_hex-faithful_example :
    (b64_to_hex (base64_encode std some_hash) ≡ hex_encode some_hash)
    × (b64_to_hex (hex_to_b64_url (hex_encode some_hash)) ≡ hex_encode some_hash)
    × (hex_decode (hex_encode some_hash) ≡ (some_hash, true))
b64_to_hex-faithful_example =
    b64_to_hex-faithful some_hash (omega arith, (omega arith, (omega arith, (omega arith, tt))))

lnd_pay_address-Ended_example :
    let (r, (log, w')) =
      lnd_pay_address (logged paying) lnd (codes "bob@ln.example") (pos 150) ([], 0) in
    Ended paying lnd (codes "bob@ln.example") (pos 150) 0 r log w'
lnd_pay_address-Ended_example =
    lnd_pay_address-Ended paying lnd (codes "bob@ln.example") (pos 150) 0

check_one-Looked_example :
    Looked lossy lnd invoice_row market 0
      (check_one (lnd_client lossy lnd) invoice_row (market_db, 0)).1.0.tables
check_one-Looked_example = check_one-Looked lossy lnd invoice_row market_db 0

abbrev round : Round (List HttpRequest × ℕ)
round = record {
  engine = record { ln = none; max_per_hour = pos 0; spent_this_hour = pos 0; hour_start = 0 };
  spent = pos 0;
  db = market_db;
  world = ([], 0);
  paid = [];
}

abbrev sent_then : List HttpRequest
sent_then =
    get_request (codes "https://p.example/cb?u=bob&amount=150000")
    ∷ get_request (codes "https://ln.example/.well-known/lnurlp/bob")
    ∷ []

abbrev no_invoices : Tables
no_invoices = record market { invoices = [] }
