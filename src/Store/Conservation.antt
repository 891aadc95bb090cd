-- ===== src/Store/Conservation.antt =====
-- Proofs about the books of the users' accounts in internal/store/sqlite.go.
use routecat.Prelude.{
  Bool, List, Option, String, [], arith, false, find, none, refl, some, true, ℕ, ◌++◌, ◌∷◌, ◌≡◌,
}
use routecat.Prelude.Int.{int_laws, pos, ℤ, ◌+ℤ◌}
use routecat.Store.Tables.{ApiKey, Db, Invoice, InvoiceStatus, Tables}
use routecat.Store.Sql.{Result, constraint, err, ok, ◌>>◌}
use routecat.Store.Ensures.{Ensures, Ensures-bind, Ensures-mono, Ensures-statement, Then}
use routecat.Store.Users.{
  add_balance, create_user_key, deduct_balance, has_key, minus_balance, plus_balance,
}
use routecat.Store.Invoices.{
  create_invoice, credit_invoice, expire_old_invoices, has_hash, is_overdue, mark_credited,
  set_credited, set_expired,
}
use routecat.Store.Deduct.{Deducted, deduct_balance-Ensures}
use routecat.Store.Credit.{Credited, credit_invoice-Ensures}
use routecat.Store.Owners.{
  Owned-append, Owned-find, Owned-register, Owned-settle, Owned-update, append-HashesUnique,
  credited_total-append, find-exists_hash,
}
use routecat.Store.Accounts.{
  append-KeysUnique, credited_total-expire, credited_total-mark, exists_key, exists_key-find,
  total_balance-append, total_balance-update, update-HashesUnique, update-KeysUnique,
}
use routecat.Store.Books.{
  AccountCall, IsBalanced, Keeps, Leaves, Validated, account_call, account_run, credits, deducts,
  expires, ignore-Keeps, plus_zero, read_balance-exists, registers, top_up, tops_up,
  validate_user_key-Ensures,
}

module _ (spent : ℤ) (t : Tables) (b : IsBalanced t spent) where
  same : IsBalanced t (spent +ℤ pos 0)
  same = rw plus_zero b

  registers-Leaves :
      (key user_id name : String) (quota : ℤ)
      → Ensures (create_user_key key user_id name quota) t (Leaves spent (pos 0))
  unfolding create_user_key
  registers-Leaves key user_id name quota =
      Ensures-statement _ b (inserted (find (has_key key) t.api_keys) refl)
    where
      row : ApiKey
      row = record {
        key = key;
        user_id = user_id;
        name = name;
        quota_daily = quota;
        balance_msats = pos 0;
      }

      inserted :
          (o : Option ApiKey)
          → find (has_key key) t.api_keys ≡ o
          → let out : Result (Unit {0}) × Tables = elim o [
            | none ↦ (ok tt, record t { api_keys = t.api_keys ++ row ∷ [] })
            | some _ ↦ (err constraint, t)
          ] in
            Leaves spent (pos 0) out.0 out.1
      inserted none e = record {
        keys = append-KeysUnique t.api_keys row b.keys (exists_key-find key t.api_keys e);
        hashes = b.hashes;
        owned = Owned-register row t.api_keys t.invoices b.owned;
        sums = rw total_balance-append (grind (int_laws, b.sums));
      }
      inserted (some _) e = b

  pub credits-Leaves : (hash : String) → Ensures (credit_invoice hash) t (Leaves spent (pos 0))
  credits-Leaves hash = Ensures-mono _ kept (credit_invoice-Ensures hash t)
    where
      paid_in :
          (u : Tables) (inv : Invoice)
          → find (has_hash hash) t.invoices ≡ some inv
          → inv.status ≡ InvoiceStatus.pending
          → u ≡ add_balance inv.user_key inv.amount_msats (mark_credited hash t)
          → IsBalanced u (spent +ℤ pos 0)
      paid_in u inv found open_still same_u = rw same_u (record {
        keys =
            update-KeysUnique inv.user_key (plus_balance inv.amount_msats) (λ r. refl) t.api_keys
              b.keys;
        hashes = update-HashesUnique (has_hash hash) set_credited (λ i. refl) t.invoices b.hashes;
        owned =
            Owned-update inv.user_key (plus_balance inv.amount_msats) (λ r. refl) t.api_keys _
              (Owned-settle (has_hash hash) set_credited (λ i. refl) t.api_keys t.invoices b.owned);
        sums =
            rw
              (
                (total_balance-update inv.user_key inv.amount_msats t.api_keys b.keys
                    (Owned-find hash t.api_keys t.invoices inv b.owned found)).0,
                credited_total-mark hash t.invoices inv b.hashes found open_still,
              )
              (grind (int_laws, b.sums));
      })

      kept : (r : Result Bool) (u : Tables) → Credited hash t (r, u) → Leaves spent (pos 0) r u
      kept (ok true) u (inv, found, open_still, same_u) =
          paid_in u inv (ground arith) open_still same_u
      kept (ok false) u (inv, found, settled, same_u) = rw same_u same
      kept (err e) u same_u = rw same_u b

  pub expires-Leaves : (now : ℕ) → Ensures (expire_old_invoices now) t (Leaves spent (pos 0))
  unfolding expire_old_invoices
  expires-Leaves now = Ensures-statement _ b (record {
    keys = b.keys;
    hashes = update-HashesUnique (is_overdue now) set_expired (λ i. refl) t.invoices b.hashes;
    owned = Owned-settle (is_overdue now) set_expired (λ i. refl) t.api_keys t.invoices b.owned;
    sums = rw (credited_total-expire, plus_zero) b.sums;
  })

  deducts-Leaves :
      (key : String) (amount : ℤ) → Ensures (deduct_balance key amount) t (Leaves spent amount)
  deducts-Leaves key amount = Ensures-mono _ kept (deduct_balance-Ensures key amount t)
    where
      kept :
          (r : Result (Unit {0})) (u : Tables)
          → Deducted key amount t (r, u)
          → Leaves spent amount r u
      kept (ok x) u (current, found, covered, same_u) =
          let known : exists_key key t.api_keys ≡ true = read_balance-exists key t current found in
          rw same_u (record {
            keys = update-KeysUnique key (minus_balance amount) (λ r. refl) t.api_keys b.keys;
            hashes = b.hashes;
            owned =
                Owned-update key (minus_balance amount) (λ r. refl) t.api_keys t.invoices b.owned;
            sums =
                rw (total_balance-update key amount t.api_keys b.keys known).1
                  (grind (int_laws, b.sums));
          })
      kept (err e) u same_u = rw same_u b

  invoices-Leaves :
      (hash key : String) (amount : ℤ) (bolt11 : String) (now : ℕ)
      → exists_key key t.api_keys ≡ true
      → Ensures (create_invoice hash key amount bolt11 now) t (Leaves spent (pos 0))
  unfolding create_invoice
  invoices-Leaves hash key amount bolt11 now known =
      Ensures-statement _ b (inserted (find (has_hash hash) t.invoices) refl)
    where
      inv : Invoice
      inv = record {
        payment_hash = hash;
        user_key = key;
        amount_msats = amount;
        bolt11 = bolt11;
        status = InvoiceStatus.pending;
        created_at = now;
      }

      inserted :
          (o : Option Invoice)
          → find (has_hash hash) t.invoices ≡ o
          → let out : Result (Unit {0}) × Tables = elim o [
            | none ↦ (ok tt, record t { invoices = t.invoices ++ inv ∷ [] })
            | some _ ↦ (err constraint, t)
          ] in
            Leaves spent (pos 0) out.0 out.1
      inserted none e = record {
        keys = b.keys;
        hashes = append-HashesUnique t.invoices inv b.hashes (find-exists_hash hash t.invoices e);
        owned = Owned-append t.api_keys t.invoices inv b.owned known;
        sums = rw (credited_total-append t.invoices inv refl, plus_zero) b.sums;
      }
      inserted (some _) e = b

  tops_up-Leaves :
      (key hash : String) (amount : ℤ) (bolt11 : String) (now : ℕ)
      → Ensures (top_up key hash amount bolt11 now) t (Leaves spent (pos 0))
  unfolding top_up ◌>>◌
  tops_up-Leaves key hash amount bolt11 now =
      Ensures-bind _ _ (Ensures-mono _ stored (validate_user_key-Ensures key now t))
    where
      stored :
          (r : Result (String × ℤ)) (u : Tables)
          → Validated key t r u
          → Then (λ _. create_invoice hash key amount bolt11 now) (Leaves spent (pos 0)) r u
      stored (ok a) u (known, same_u) = rw same_u (invoices-Leaves hash key amount bolt11 now known)
      stored (err e) u same_u = rw same_u b

  call-Keeps : (c : AccountCall) → Ensures (account_call c) t (Keeps spent)
  unfolding account_call
  call-Keeps (registers key user_id name quota) =
      ignore-Keeps spent (pos 0) _ (registers-Leaves key user_id name quota)
  call-Keeps (tops_up key hash amount bolt11 now) =
      ignore-Keeps spent (pos 0) _ (tops_up-Leaves key hash amount bolt11 now)
  call-Keeps (credits hash) = ignore-Keeps spent (pos 0) _ (credits-Leaves hash)
  call-Keeps (expires now) = ignore-Keeps spent (pos 0) _ (expires-Leaves now)
  call-Keeps (deducts key amount) = ignore-Keeps spent amount _ (deducts-Leaves key amount)

-- From balanced books any history of calls, with any statements failing, leaves balanced books: keys
-- and hashes stay unique, and what the users hold plus what they have spent is the sum of the
-- invoices credited.
pub account_run-IsBalanced :
    (cs : List AccountCall) (spent : ℤ) (db : Db)
    → IsBalanced db.tables spent
    → let (spent', db') = account_run cs spent db in IsBalanced db'.tables spent'
unfolding account_run
account_run-IsBalanced [] spent db b = b
account_run-IsBalanced (c ∷ cs) spent db b =
    account_run-IsBalanced cs _ _ (after _ _ ((call-Keeps spent db.tables b c).at db.faults))
  where
    after :
        (r : Result ℤ) (u : Tables)
        → Keeps spent r u
        → IsBalanced u (spent +ℤ (elim r [ ok more ↦ more | err e ↦ pos 0 ]))
    after (ok more) u k = k
    after (err e) u k = rw plus_zero k
