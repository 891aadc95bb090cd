-- ===== src/Lightning/Lnd/Settled.antt =====
-- Proofs about the watcher with LNDClient (internal/lightning/invoices.go and lightning.go).
use routecat.Prelude.{
  ==→eq, Bool, Bool-cases, Option, String, [], arith, false, if◌then◌else◌, inl, inr, none, not,
  refl, some, true, ◌++◌, ◌||◌, ◌∷◌, ◌≡◌, ◌⊎◌,
}
use routecat.Text.{Text, codes, text_eq}
use routecat.Lightning.LndIo.{LndError, no_response, ◌>>◌}
use routecat.Lightning.LndIo.After.{
  After, After-bind, After-demand, After-give_back, After-or_fail, Post,
}
use routecat.Lightning.Lnd.{
  HttpRequest, HttpResponse, LndClient, Transport, do_request, lnd_request, send_request,
}
use routecat.Lightning.Lnd.Invoicing.{lnd_check_invoice, lnd_client, without_error}
use routecat.Lightning.Invoices.{check_one, key_log}
use routecat.Store.Tables.{Db, Invoice, Tables}
use routecat.Store.Sql.{Result, err, ok}
use routecat.Store.Invoices.{credit_invoice}
use routecat.Store.Credit.{Credited, credit_invoice-Credited}
use routecat.Gateway.State.{Exit, log_prefix, returns}

module _ {W : Type 0} (net : Transport W) where
  pub After-request :
      (req : HttpRequest) (w : W) {Q : HttpResponse → W → Type 0} {E : LndError → W → Type 0}
      → ((w' : W) → E no_response w')
      → ((r : HttpResponse) (w' : W) → net.send req w ≡ (some r, w') → Q r w')
      → After (send_request net req) Q E w
  unfolding send_request
  After-request req w {Q} {E} silent answered = elim (Bool-cases (net.accepts req.method req.url)) [
    | inr e ↦ record { holds = rw e (silent w) }
    | inl e ↦ record { holds = rw e (came (net.send req w).0 (net.send req w).1 refl) }
  ]
    where
      came :
          (resp : Option HttpResponse) (w' : W)
          → net.send req w ≡ (resp, w')
          → let out : (LndError ⊎ HttpResponse) × W = elim resp [
            | none ↦ (inl no_response, w')
            | some r ↦ (inr r, w')
          ] in
            Post Q E out.0 out.1
      came none w' e = silent w'
      came (some r) w' e = answered r w' e

  -- The request for the state of an invoice.
  abbrev pub lookup_request : LndClient → Text → HttpRequest
  lookup_request c hash = lnd_request c "GET" (codes "/v1/invoice/" ++ hash) none

  -- LND says, with status 200, that the invoice is settled.
  pub record Reported (c : LndClient) (hash : Text) (w : W) : Type 0 where
    pub answer : HttpResponse
    pub after : W
    pub answers : net.send (lookup_request c hash) w ≡ (some answer, after)
    pub status : answer.status_code ≡ 200
    pub settled : Bool
    pub state : Text
    pub says : net.decode_lookup answer.body ≡ some (settled, state)
    pub is_settled : (settled ≡ true) ⊎ (state ≡ codes "SETTLED")

  text_eq→≡ : (s t : Text) → text_eq s t ≡ true → s ≡ t
  unfolding text_eq
  text_eq→≡ [] [] e = refl
  text_eq→≡ [] (d ∷ t) e = cc e
  text_eq→≡ (c ∷ s) [] e = cc e
  text_eq→≡ (c ∷ s) (d ∷ t) e = ground (arith, text_eq→≡ s t)

  settled_or :
      (settled : Bool) (state : Text)
      → (settled || text_eq state (codes "SETTLED")) ≡ true
      → (settled ≡ true) ⊎ (state ≡ codes "SETTLED")
  settled_or true state e = inl refl
  settled_or false state e = inr (text_eq→≡ state (codes "SETTLED") e)

  lnd_check_invoice-Reported :
      (c : LndClient) (hash : Text) (w : W)
      → After
          (lnd_check_invoice net c hash)
          (λ paid w'. paid ≡ true → Reported c hash w)
          (λ e w'. Unit {0})
          w
  unfolding lnd_check_invoice do_request ◌>>◌
  lnd_check_invoice-Reported c hash w = After-bind _ _ (
      After-request _ w (λ _. tt)
        (λ answer after came. After-bind _ _ (
          After-demand _ _ (λ _. tt)
            (λ fine. After-bind _ _ (
              After-or_fail _ _ (λ _. tt)
                (λ (settled, state) read. After-give_back _ (λ paid. record {
                  answer = answer;
                  after = after;
                  answers = came;
                  status = ==→eq _ _ fine;
                  settled = settled;
                  state = state;
                  says = read;
                  is_settled = settled_or settled state paid;
                })))))))

  -- What a look at an invoice has done: nothing, or what crediting it does, and then LND has reported
  -- it as settled.
  abbrev pub Looked : LndClient → Invoice → Tables → W → Tables → Type 0
  Looked c inv t w u =
      (u ≡ t)
      ⊎ (Reported c (codes inv.payment_hash) w
          × ((r : Result Bool) × Credited inv.payment_hash t (r, u)))

  -- The watcher changes a user's account only where LND has answered the lookup of the invoice with
  -- status 200 and as settled, and then it does what crediting the invoice does; with every other
  -- answer, and where no answer comes, no table changes.
  pub check_one-Looked :
      (c : LndClient) (inv : Invoice) (db : Db) (w : W)
      → Looked c inv db.tables w (check_one (lnd_client net c) inv (db, w)).1.0.tables
  unfolding check_one lnd_client
  check_one-Looked c inv db w =
      seen _ _ (After.holds (lnd_check_invoice-Reported c (codes inv.payment_hash) w))
    where
      hash : String
      hash = inv.payment_hash

      wrote :
          (r : Result Bool) (db' : Db) (w' : W)
          → Reported c (codes hash) w
          → Credited hash db.tables (r, db'.tables)
          → let out : Exit × (Db × W) = elim r [
            | err e ↦ (log_prefix hash 8, (db', w'))
            | ok now_credited ↦ (if now_credited then key_log inv.user_key else returns, (db', w'))
          ] in
            Looked c inv db.tables w out.1.0.tables
      wrote (err e) db' w' said did = inl did
      wrote (ok x) db' w' said did = inr (said, (ok x, did))

      seen :
          (r : LndError ⊎ Bool) (w' : W)
          → Post (λ paid w'. paid ≡ true → Reported c (codes hash) w) (λ e w'. Unit {0}) r w'
          → let out : Exit × (Db × W) = elim (without_error r) [
            | none ↦ (log_prefix hash 8, (db, w'))
            | some paid ↦
                if not paid
                then (returns, (db, w'))
                else (let (r, db') = credit_invoice hash db in
                    elim r [
                      | err e ↦ (log_prefix hash 8, (db', w'))
                      | ok now_credited ↦
                          (if now_credited then key_log inv.user_key else returns, (db', w'))
                    ])
          ] in
            Looked c inv db.tables w out.1.0.tables
      seen (inl e) w' h = inl refl
      seen (inr false) w' h = inl refl
      seen (inr true) w' h = wrote _ _ w' (h refl) (credit_invoice-Credited hash db)
