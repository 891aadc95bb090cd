-- ===== src/Store/Accounts.antt =====
-- Lemmas about the rows of api_keys and invoices (internal/store/sqlite.go) under the updates of
-- internal/store/sqlite.go: keys stay unique, and what each update does to the sums.
use routecat.Prelude.{
  Bool, Bool-cases, List, String, [], arith, eq_iff, false, find, inl, inr, none, refl, some, true,
  update_where, ℕ, ◌++◌, ◌||◌, ◌∷◌, ◌≡◌,
}
use routecat.Prelude.Int.{eq_of_parts, int_laws, pos, ℤ, ◌+ℤ◌, ◌-ℤ◌}
use routecat.Store.Tables.{ApiKey, Invoice, InvoiceStatus}
use routecat.Store.Users.{has_key, minus_balance, plus_balance}
use routecat.Store.Invoices.{has_hash, is_overdue, set_credited, set_expired}

abbrev pub exists_key : String → List ApiKey → Bool
exists_key k [] = false
exists_key k (row ∷ rows) = has_key k row || exists_key k rows

abbrev pub KeysUnique : List ApiKey → Type 0
KeysUnique [] = Unit
KeysUnique (row ∷ rows) = (exists_key row.key rows ≡ false) × KeysUnique rows

abbrev pub total_balance : List ApiKey → ℤ
total_balance [] = pos 0
total_balance (row ∷ rows) = row.balance_msats +ℤ total_balance rows

abbrev pub exists_hash : String → List Invoice → Bool
exists_hash h [] = false
exists_hash h (inv ∷ invs) = has_hash h inv || exists_hash h invs

abbrev pub HashesUnique : List Invoice → Type 0
HashesUnique [] = Unit
HashesUnique (inv ∷ invs) = (exists_hash inv.payment_hash invs ≡ false) × HashesUnique invs

abbrev pub credited_amount : Invoice → ℤ
credited_amount inv = amount_if inv.status
  where
    amount_if : InvoiceStatus → ℤ
    amount_if InvoiceStatus.credited = inv.amount_msats
    amount_if InvoiceStatus.pending = pos 0
    amount_if InvoiceStatus.expired = pos 0

abbrev pub credited_total : List Invoice → ℤ
credited_total [] = pos 0
credited_total (inv ∷ invs) = credited_amount inv +ℤ credited_total invs

pub exists_key-find :
    (k : String) (rows : List ApiKey) → find (has_key k) rows ≡ none → exists_key k rows ≡ false
unfolding find
exists_key-find k [] h = refl
exists_key-find k (row ∷ rows) h = ground (arith, exists_key-find k rows)

pub exists_key-find-some :
    (k : String) (rows : List ApiKey) {row : ApiKey}
    → find (has_key k) rows ≡ some row
    → exists_key k rows ≡ true
unfolding find
exists_key-find-some k [] h = cc
exists_key-find-some k (x ∷ rows) {row} h = ground (arith, exists_key-find-some k rows {row = row})

module _ (k : String) (f : ApiKey → ApiKey)
    (same_key : (row : ApiKey) → (f row).key ≡ row.key) where
  pub update-absent :
      (rows : List ApiKey) → exists_key k rows ≡ false → update_where (has_key k) f rows ≡ rows
  unfolding update_where
  update-absent [] h = refl
  update-absent (row ∷ rows) h = ground (arith, update-absent rows)

  pub exists_key-update :
      (j : String) (rows : List ApiKey)
      → exists_key j (update_where (has_key k) f rows) ≡ exists_key j rows
  unfolding update_where
  exists_key-update j [] = refl
  exists_key-update j (row ∷ rows) = ground (arith, exists_key-update j rows, same_key row)

  pub update-KeysUnique :
      (rows : List ApiKey) → KeysUnique rows → KeysUnique (update_where (has_key k) f rows)
  unfolding update_where
  update-KeysUnique [] h = tt
  update-KeysUnique (row ∷ rows) h =
      ground (arith, update-KeysUnique rows h.1, exists_key-update row.key rows, same_key row)

pub exists_key-append :
    (j : String) (rows : List ApiKey) (row : ApiKey)
    → exists_key j (rows ++ row ∷ []) ≡ (exists_key j rows || has_key j row)
exists_key-append j [] row = ground arith
exists_key-append j (x ∷ rows) row = ground (arith, exists_key-append j rows row)

pub append-KeysUnique :
    (rows : List ApiKey) (row : ApiKey)
    → KeysUnique rows
    → exists_key row.key rows ≡ false
    → KeysUnique (rows ++ row ∷ [])
append-KeysUnique [] row h e = ground arith
append-KeysUnique (x ∷ rows) row h e = ground (
  arith,
  append-KeysUnique rows row h.1,
  exists_key-append x.key rows row,
  eq_iff row.key x.key,
  eq_iff x.key row.key,
)

pub total_balance-append :
    (rows : List ApiKey) (row : ApiKey)
    → total_balance (rows ++ row ∷ []) ≡ total_balance rows +ℤ row.balance_msats
total_balance-append [] row = omega int_laws
total_balance-append (x ∷ rows) row = grind (int_laws, total_balance-append rows row)

-- A change of one row's balance moves the sum by that change.
pub total_balance-update :
    (k : String) (amount : ℤ) (rows : List ApiKey)
    → KeysUnique rows
    → exists_key k rows ≡ true
    → (total_balance (update_where (has_key k) (plus_balance amount) rows)
        ≡ total_balance rows +ℤ amount)
      × (total_balance (update_where (has_key k) (minus_balance amount) rows)
          ≡ total_balance rows -ℤ amount)
unfolding update_where
total_balance-update k amount [] u h = cc
total_balance-update k amount (row ∷ rows) u h = elim (Bool-cases (has_key k row)) [
  | inl hit ↦
      let same : row.key ≡ k = (eq_iff row.key k).0 hit in
      let gone : exists_key k rows ≡ false = rw (← same) u.0 in
      rw
        (
          hit,
          update-absent k (plus_balance amount) (λ r. refl) rows gone,
          update-absent k (minus_balance amount) (λ r. refl) rows gone,
        )
        (eq_of_parts _ _ (omega int_laws), eq_of_parts _ _ (omega int_laws))
  | inr miss ↦
      let ih = total_balance-update k amount rows u.1 (ground arith) in
      rw (miss, ih.0, ih.1) (omega int_laws, omega int_laws)
]

-- Marking the one pending invoice of a hash as credited raises the credited sum by its amount.
pub exists_hash-find :
    (h : String) (invs : List Invoice) → exists_hash h invs ≡ false → find (has_hash h) invs ≡ none
unfolding find
exists_hash-find h [] e = refl
exists_hash-find h (inv ∷ invs) e = ground (arith, exists_hash-find h invs)

pub exists_hash-update :
    (p : Invoice → Bool) (f : Invoice → Invoice)
    → ((inv : Invoice) → (f inv).payment_hash ≡ inv.payment_hash)
    → (h : String) (invs : List Invoice)
    → exists_hash h (update_where p f invs) ≡ exists_hash h invs
unfolding update_where
exists_hash-update p f same h [] = refl
exists_hash-update p f same h (inv ∷ invs) =
    ground (arith, exists_hash-update p f same h invs, same inv)

pub update-HashesUnique :
    (p : Invoice → Bool) (f : Invoice → Invoice)
    → ((inv : Invoice) → (f inv).payment_hash ≡ inv.payment_hash)
    → (invs : List Invoice) → HashesUnique invs
    → HashesUnique (update_where p f invs)
unfolding update_where
update-HashesUnique p f same [] u = tt
update-HashesUnique p f same (inv ∷ invs) u = ground (
  arith,
  update-HashesUnique p f same invs u.1,
  exists_hash-update p f same inv.payment_hash invs,
  same inv,
)

update_hash-absent :
    (h : String) (f : Invoice → Invoice) (invs : List Invoice)
    → exists_hash h invs ≡ false
    → update_where (has_hash h) f invs ≡ invs
unfolding update_where
update_hash-absent h f [] e = refl
update_hash-absent h f (inv ∷ invs) e = ground (arith, update_hash-absent h f invs)

pub credited_total-mark :
    (h : String) (invs : List Invoice) (inv : Invoice)
    → HashesUnique invs
    → find (has_hash h) invs ≡ some inv
    → inv.status ≡ InvoiceStatus.pending
    → credited_total (update_where (has_hash h) set_credited invs)
      ≡ credited_total invs +ℤ inv.amount_msats
unfolding update_where find
credited_total-mark h [] inv u e open_still = cc
credited_total-mark h (x ∷ invs) inv u e open_still = elim (Bool-cases (has_hash h x)) [
  | inl hit ↦
      let same : x.payment_hash ≡ h = (eq_iff x.payment_hash h).0 hit in
      let it : x ≡ inv = ground arith in
      rw (hit, update_hash-absent h set_credited invs (rw (← same) u.0)) (grind (int_laws, it))
  | inr miss ↦
      rw (miss, credited_total-mark h invs inv u.1 (ground arith) open_still) (omega int_laws)
]

pub credited_total-expire :
    (now : ℕ) (invs : List Invoice)
    → credited_total (update_where (is_overdue now) set_expired invs) ≡ credited_total invs
unfolding update_where
credited_total-expire now [] = refl
credited_total-expire now (inv ∷ invs) = ground (arith, credited_total-expire now invs)
