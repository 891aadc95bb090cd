-- ===== src/Lightning/Lnd/Logged.antt =====
-- A network that keeps a log of the requests, and proofs about what LNDClient
-- (internal/lightning/lightning.go) sends.
use routecat.Prelude.{Bool-cases, List, Option, inl, inr, none, refl, some, ◌∷◌, ◌≡◌, ◌⊎◌}
use routecat.Lightning.LndIo.{LndError, no_response}
use routecat.Lightning.LndIo.After.{After, Post}
use routecat.Lightning.Lnd.{HttpRequest, HttpResponse, Transport, send_request}

module _ {W : Type 0} (net : Transport W) where
  -- The log has the last request first.
  abbrev pub logged : Transport (List HttpRequest × W)
  logged = record {
    accepts = net.accepts;
    send = λ req (log, w). let (r, w') = net.send req w in (r, (req ∷ log, w'));
    decode_balance = net.decode_balance;
    decode_lnurl = net.decode_lnurl;
    decode_bolt11 = net.decode_bolt11;
    decode_new_invoice = net.decode_new_invoice;
    decode_lookup = net.decode_lookup;
    decode_payment = net.decode_payment;
  }

  -- The request was sent, and this came back.
  abbrev pub Answers : HttpRequest → W → HttpResponse → W → Type 0
  Answers req w r w' = net.send req w ≡ (some r, w')

  pub After-send :
      (req : HttpRequest) (log : List HttpRequest) (w : W)
      {Q : HttpResponse → List HttpRequest × W → Type 0}
      {E : LndError → List HttpRequest × W → Type 0}
      → E no_response (log, w)
      → ((w' : W) → E no_response (req ∷ log, w'))
      → ((r : HttpResponse) (w' : W) → Answers req w r w' → Q r (req ∷ log, w'))
      → After (send_request logged req) Q E (log, w)
  unfolding send_request
  After-send req log w {Q} {E} refused silent answered =
      elim (Bool-cases (net.accepts req.method req.url)) [
        | inr e ↦ record { holds = rw e refused }
        | inl e ↦ record { holds = rw e (came (net.send req w).0 (net.send req w).1 refl) }
      ]
    where
      came :
          (resp : Option HttpResponse) (w' : W)
          → net.send req w ≡ (resp, w')
          → let out : (LndError ⊎ HttpResponse) × (List HttpRequest × W) = elim resp [
            | none ↦ (inl no_response, (req ∷ log, w'))
            | some r ↦ (inr r, (req ∷ log, w'))
          ] in
            Post Q E out.0 out.1
      came none w' e = silent w'
      came (some r) w' e = answered r w' e
