-- ===== src/Store/Simulation.antt =====
-- Lemmas about each account call of internal/store/sqlite.go on the maps of Store.Spec.
-- What a call has done to the accounts, by how it ended.
use mathlib.Core.Option.{map as option_map}
use routecat.Prelude.{
  Bool, Option, Option-cases, String, [], ap, arith, false, find, inl, inr, none, refl, some, sym,
  true, ℕ, ◌++◌, ◌∙◌, ◌∷◌, ◌≡◌,
}
use routecat.Prelude.Int.{pos, ℤ, ◌+ℤ◌, ◌-ℤ◌}
use routecat.Store.Tables.{ApiKey, Invoice, Tables}
use routecat.Store.Sql.{Result, constraint, err, ok, ◌>>◌}
use routecat.Store.Users.{
  add_balance, create_user_key, deduct_balance, has_key, minus_balance, plus_balance,
}
use routecat.Store.Invoices.{
  create_invoice, credit_invoice, expire_old_invoices, has_hash, is_overdue, mark_credited,
  set_credited, set_expired,
}
use routecat.Store.Books.{
  AccountCall, Validated, credits, deducts, expires, registers, top_up, tops_up,
  validate_user_key-Ensures,
}
use routecat.Store.Ensures.{Ensures, Ensures-bind, Ensures-mono, Ensures-statement, Then}
use routecat.Store.Accounts.{exists_key, exists_key-find}
use routecat.Store.Deduct.{Deducted, deduct_balance-Ensures}
use routecat.Store.Credit.{Credited, credit_invoice-Ensures}
use routecat.Store.Spec.{accounts, adjust, balances, invoices_by_hash, new_invoice, spec_call}
use routecat.Store.Views.{find-update_all, rows-append, rows-update, view-append, view-update}
use routecat.Store.SpecCalls.{
  balance_of_read, spec_credits, spec_credits_settled, spec_deducts, spec_registers, spec_tops_up,
}

abbrev pub Simulates : {A : Type 0} → AccountCall → Tables → Result A → Tables → Type 0
Simulates c t (ok _) u = spec_call c (accounts t) ≡ some (accounts u)
Simulates c t (err e) u = accounts u ≡ accounts t

module _ (t : Tables) where
  pub registers-Simulates :
      (key user_id name : String) (quota : ℤ)
      → Ensures
          (create_user_key key user_id name quota)
          t
          (Simulates (registers key user_id name quota) t)
  unfolding create_user_key
  registers-Simulates key user_id name quota =
      Ensures-statement _ refl (inserted (find (has_key key) t.api_keys) refl)
    where
      row : ApiKey
      row = record {
        key = key;
        user_id = user_id;
        name = name;
        quota_daily = quota;
        balance_msats = pos 0;
      }

      inserted :
          (o : Option ApiKey)
          → find (has_key key) t.api_keys ≡ o
          → let out : Result (Unit {0}) × Tables = elim o [
            | none ↦ (ok tt, record t { api_keys = t.api_keys ++ row ∷ [] })
            | some _ ↦ (err constraint, t)
          ] in
            Simulates (registers key user_id name quota) t out.0 out.1
      inserted none e =
          spec_registers (accounts t) key user_id name quota
            (ap (option_map (λ (r : ApiKey). r.balance_msats)) e)
          ∙ ap
              (λ (b : String → Option ℤ).
                some (record { balance = b; invoice = invoices_by_hash t.invoices }))
              (sym (view-append (λ r. r.key) (λ r. r.balance_msats) row t.api_keys e))
      inserted (some _) e = refl

  pub deducts-Simulates :
      (key : String) (amount : ℤ)
      → Ensures (deduct_balance key amount) t (Simulates (deducts key amount) t)
  deducts-Simulates key amount = Ensures-mono _ kept (deduct_balance-Ensures key amount t)
    where
      kept :
          (r : Result (Unit {0})) (u : Tables)
          → Deducted key amount t (r, u)
          → Simulates (deducts key amount) t r u
      kept (ok x) u (current, found, covered, same_u) =
          spec_deducts (accounts t) key amount current (balance_of_read key t current found) covered
          ∙ rw same_u (
              ap
                (λ (b : String → Option ℤ).
                  some (record { balance = b; invoice = invoices_by_hash t.invoices }))
                (sym (
                  view-update (λ r. r.key) (λ r. r.balance_msats) key (minus_balance amount)
                    (λ b. b -ℤ amount) t.api_keys (λ r. refl) (λ r. refl))))
      kept (err e) u same_u = ap accounts same_u

  -- A credit, seen on the maps.
  accounts-credit :
      (hash key : String) (amount : ℤ)
      → accounts (add_balance key amount (mark_credited hash t)) ≡ record {
        balance = adjust key (λ b. b +ℤ amount) (balances t.api_keys);
        invoice = adjust hash set_credited (invoices_by_hash t.invoices);
      }
  accounts-credit hash key amount i = record {
    balance =
        view-update (λ r. r.key) (λ r. r.balance_msats) key (plus_balance amount) (λ b. b +ℤ amount)
          t.api_keys (λ r. refl) (λ r. refl) i;
    invoice = rows-update (λ x. x.payment_hash) hash set_credited t.invoices (λ x. refl) i;
  }

  pub credits-Simulates :
      (hash : String) → Ensures (credit_invoice hash) t (Simulates (credits hash) t)
  credits-Simulates hash = Ensures-mono _ kept (credit_invoice-Ensures hash t)
    where
      kept :
          (r : Result Bool) (u : Tables) → Credited hash t (r, u) → Simulates (credits hash) t r u
      kept (ok true) u (inv, found, open_still, same_u) =
          spec_credits (accounts t) hash inv (ground arith) open_still
          ∙ ap some
              (sym (accounts-credit hash inv.user_key inv.amount_msats) ∙ ap accounts (sym same_u))
      kept (ok false) u (inv, found, settled, same_u) =
          spec_credits_settled (accounts t) hash inv (ground arith) settled
          ∙ ap some (ap accounts (sym same_u))
      kept (err e) u same_u = ap accounts same_u

  pub expires-Simulates :
      (now : ℕ) → Ensures (expire_old_invoices now) t (Simulates (expires now) t)
  unfolding expire_old_invoices spec_call
  expires-Simulates now = Ensures-statement _ refl (
      ap
        (λ (f : String → Option Invoice).
          some (record { balance = balances t.api_keys; invoice = f }))
        (λ i hash.
          sym (find-update_all (has_hash hash) (is_overdue now) set_expired t.invoices (λ x. refl))
            i))

  invoices-Simulates :
      (key hash : String) (amount : ℤ) (bolt11 : String) (now : ℕ)
      → exists_key key t.api_keys ≡ true
      → Ensures
          (create_invoice hash key amount bolt11 now)
          t
          (Simulates (tops_up key hash amount bolt11 now) t)
  unfolding create_invoice
  invoices-Simulates key hash amount bolt11 now known =
      Ensures-statement _ refl (inserted (find (has_hash hash) t.invoices) refl)
    where
      inv : Invoice
      inv = new_invoice key hash amount bolt11 now

      owner : (b : ℤ) × (balances t.api_keys key ≡ some b)
      owner = elim (Option-cases (find (has_key key) t.api_keys)) [
        | inl missing ↦ cc (known, exists_key-find key t.api_keys missing)
        | inr (row, found) ↦
            (row.balance_msats, ap (option_map (λ (r : ApiKey). r.balance_msats)) found)
      ]

      inserted :
          (o : Option Invoice)
          → find (has_hash hash) t.invoices ≡ o
          → let out : Result (Unit {0}) × Tables = elim o [
            | none ↦ (ok tt, record t { invoices = t.invoices ++ inv ∷ [] })
            | some _ ↦ (err constraint, t)
          ] in
            Simulates (tops_up key hash amount bolt11 now) t out.0 out.1
      inserted none e =
          spec_tops_up (accounts t) key hash amount bolt11 now owner.0 owner.1 e
          ∙ ap
              (λ (f : String → Option Invoice).
                some (record { balance = balances t.api_keys; invoice = f }))
              (sym (rows-append (λ x. x.payment_hash) inv t.invoices e))
      inserted (some _) e = refl

  pub tops_up-Simulates :
      (key hash : String) (amount : ℤ) (bolt11 : String) (now : ℕ)
      → Ensures
          (top_up key hash amount bolt11 now)
          t
          (Simulates (tops_up key hash amount bolt11 now) t)
  unfolding top_up ◌>>◌
  tops_up-Simulates key hash amount bolt11 now =
      Ensures-bind _ _ (Ensures-mono _ stored (validate_user_key-Ensures key now t))
    where
      stored :
          (r : Result (String × ℤ)) (u : Tables)
          → Validated key t r u
          → Then
              (λ _. create_invoice hash key amount bolt11 now)
              (Simulates (tops_up key hash amount bolt11 now) t)
              r
              u
      stored (ok x) u (known, same_u) =
          rw same_u (invoices-Simulates key hash amount bolt11 now known)
      stored (err e) u same_u = ap accounts same_u
