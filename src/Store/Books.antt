-- ===== src/Store/Books.antt =====
-- The calls of internal/store/sqlite.go that change user accounts, as histories, and what balanced
-- books are.
use routecat.Prelude.{
  List, Option-cases, String, [], arith, find, inl, inr, refl, true, ℕ, ◌∷◌, ◌≡◌,
}
use routecat.Prelude.Int.{int_laws, pos, ℤ, ◌+ℤ◌}
use routecat.Store.Tables.{Db, Tables}
use routecat.Store.Sql.{Result, Sql, err, ok, pure, ◌>>◌}
use routecat.Store.Ensures.{
  Ensures, Ensures-bind, Ensures-mono, Ensures-or_zero, Ensures-pure, Ensures-read, Ensures-select,
  Then,
}
use routecat.Store.Users.{
  create_user_key, deduct_balance, has_key, read_balance, user_quota, validate_user_key,
}
use routecat.Store.Invoices.{create_invoice, credit_invoice, expire_old_invoices}
use routecat.Store.Owners.{Owned}
use routecat.Store.Accounts.{
  HashesUnique, KeysUnique, credited_total, exists_key, exists_key-find-some, total_balance,
}

-- The calls that change user accounts. A top-up stores an invoice for a key that it has validated,
-- as HandleTopUp of internal/api/api.go does.
pub data AccountCall : Type 0 where
  registers : String → String → String → ℤ → AccountCall
  tops_up : String → String → ℤ → String → ℕ → AccountCall
  credits : String → AccountCall
  expires : ℕ → AccountCall
  deducts : String → ℤ → AccountCall

-- What the users hold, and what they have spent, is what their credited invoices paid in.
pub record IsBalanced (t : Tables) (spent : ℤ) : Type 0 where
  pub keys : KeysUnique t.api_keys
  pub hashes : HashesUnique t.invoices
  pub owned : Owned t.api_keys t.invoices
  pub sums : total_balance t.api_keys +ℤ spent ≡ credited_total t.invoices

unfoldable pub top_up : String → String → ℤ → String → ℕ → Sql (Unit {0})
top_up key hash amount bolt11 now = do
  validate_user_key key now
  create_invoice hash key amount bolt11 now

abbrev pub ignore : {A : Type 0} → ℤ → Sql A → Sql ℤ
ignore spent m = do m; pure spent

-- A call, which returns how much it spent.
unfoldable pub account_call : AccountCall → Sql ℤ
account_call (registers key user_id name quota) =
    ignore (pos 0) (create_user_key key user_id name quota)
account_call (tops_up key hash amount bolt11 now) =
    ignore (pos 0) (top_up key hash amount bolt11 now)
account_call (credits hash) = ignore (pos 0) (credit_invoice hash)
account_call (expires now) = ignore (pos 0) (expire_old_invoices now)
account_call (deducts key amount) = ignore amount (deduct_balance key amount)

-- The caller goes on after an error.
unfoldable pub account_run : List AccountCall → ℤ → Db → ℤ × Db
account_run [] spent db = (spent, db)
account_run (c ∷ cs) spent db =
    let (r, db') = account_call c db in
    account_run cs (spent +ℤ (elim r [ ok more ↦ more | err e ↦ pos 0 ])) db'

abbrev pub Keeps : ℤ → Result ℤ → Tables → Type 0
Keeps spent (ok more) u = IsBalanced u (spent +ℤ more)
Keeps spent (err e) u = IsBalanced u spent

pub plus_zero : (a : ℤ) → a +ℤ pos 0 ≡ a
plus_zero a = omega int_laws

-- A call that returns a value of no interest and keeps the books, spending `cost` if it succeeds.
abbrev pub Leaves : {A : Type 0} → ℤ → ℤ → Result A → Tables → Type 0
Leaves spent cost (ok a) u = IsBalanced u (spent +ℤ cost)
Leaves spent cost (err e) u = IsBalanced u spent

pub ignore-Keeps :
    {A : Type 0} (spent cost : ℤ) (m : Sql A) {t : Tables}
    → Ensures m t (Leaves spent cost)
    → Ensures (ignore cost m) t (Keeps spent)
unfolding ◌>>◌
ignore-Keeps {A} spent cost m h = Ensures-bind m _ (Ensures-mono m weaken h)
  where
    weaken :
        (r : Result A) (u : Tables)
        → Leaves spent cost r u
        → Then (λ _. pure cost) (Keeps spent) r u
    weaken (ok a) u q = Ensures-pure cost q
    weaken (err e) u q = q

pub read_balance-exists :
    (key : String) (t : Tables) (current : ℤ)
    → read_balance key t ≡ ok current
    → exists_key key t.api_keys ≡ true
read_balance-exists key t current e = elim (Option-cases (find (has_key key) t.api_keys)) [
  | inl missing ↦ ground arith
  | inr (row, found) ↦ exists_key-find-some key t.api_keys {row = row} found
]

-- Validating a key reads only, and succeeds for registered keys alone.
abbrev pub Validated : String → Tables → Result (String × ℤ) → Tables → Type 0
Validated key t (ok _) u = (exists_key key t.api_keys ≡ true) × (u ≡ t)
Validated key t (err e) u = u ≡ t

pub validate_user_key-Ensures :
    (key : String) (now : ℕ) (t : Tables) → Ensures (validate_user_key key now) t (Validated key t)
unfolding validate_user_key
validate_user_key-Ensures key now t =
    Ensures-select (user_quota key) _ refl
      (λ a found. Ensures-bind _ _ (
        Ensures-or_zero (pos 0) _ (
          Ensures-read _ (Ensures-pure _ (known a found, refl))
            (Ensures-pure _ (known a found, refl)))))
      (λ e missing. refl)
  where
    known : (a : String × ℤ) → user_quota key t ≡ ok a → exists_key key t.api_keys ≡ true
    known a found = elim (Option-cases (find (has_key key) t.api_keys)) [
      | inl missing ↦ ground arith
      | inr (row, e) ↦ exists_key-find-some key t.api_keys {row = row} e
    ]
