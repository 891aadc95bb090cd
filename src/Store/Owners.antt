-- ===== src/Store/Owners.antt =====
-- Lemmas about the owners of invoices (internal/store/sqlite.go): each invoice belongs to a
-- registered key, and stays so.
use routecat.Prelude.{
  Bool, List, String, [], arith, eq_iff, false, find, none, refl, some, true, update_where, ◌++◌,
  ◌||◌, ◌∙◌, ◌∷◌, ◌≡◌,
}
use routecat.Prelude.Int.{int_laws}
use routecat.Store.Tables.{ApiKey, Invoice, InvoiceStatus}
use routecat.Store.Users.{has_key}
use routecat.Store.Invoices.{has_hash}
use routecat.Store.Accounts.{
  HashesUnique, credited_total, exists_hash, exists_key, exists_key-append, exists_key-update,
}

-- Every invoice belongs to a registered key.
abbrev pub Owned : List ApiKey → List Invoice → Type 0
Owned rows [] = Unit
Owned rows (inv ∷ invs) = (exists_key inv.user_key rows ≡ true) × Owned rows invs

pub Owned-update :
    (k : String) (f : ApiKey → ApiKey)
    → ((row : ApiKey) → (f row).key ≡ row.key)
    → (rows : List ApiKey) (invs : List Invoice) → Owned rows invs
    → Owned (update_where (has_key k) f rows) invs
Owned-update k f same rows [] o = tt
Owned-update k f same rows (inv ∷ invs) o =
    (exists_key-update k f same inv.user_key rows ∙ o.0, Owned-update k f same rows invs o.1)

pub Owned-register :
    (row : ApiKey) (rows : List ApiKey) (invs : List Invoice)
    → Owned rows invs
    → Owned (rows ++ row ∷ []) invs
Owned-register row rows [] o = tt
Owned-register row rows (inv ∷ invs) o =
    (ground (arith, exists_key-append inv.user_key rows row, o.0), Owned-register row rows invs o.1)

pub Owned-append :
    (rows : List ApiKey) (invs : List Invoice) (inv : Invoice)
    → Owned rows invs
    → exists_key inv.user_key rows ≡ true
    → Owned rows (invs ++ inv ∷ [])
Owned-append rows [] inv o h = (h, tt)
Owned-append rows (x ∷ invs) inv o h = (o.0, Owned-append rows invs inv o.1 h)

pub Owned-settle :
    (p : Invoice → Bool) (f : Invoice → Invoice)
    → ((inv : Invoice) → (f inv).user_key ≡ inv.user_key)
    → (rows : List ApiKey) (invs : List Invoice) → Owned rows invs
    → Owned rows (update_where p f invs)
unfolding update_where
Owned-settle p f same rows [] o = tt
Owned-settle p f same rows (inv ∷ invs) o =
    ground (arith, Owned-settle p f same rows invs o.1, same inv, o.0)

pub Owned-find :
    (h : String) (rows : List ApiKey) (invs : List Invoice) (inv : Invoice)
    → Owned rows invs
    → find (has_hash h) invs ≡ some inv
    → exists_key inv.user_key rows ≡ true
unfolding find
Owned-find h rows [] inv o e = cc
Owned-find h rows (x ∷ invs) inv o e = ground (arith, Owned-find h rows invs inv o.1)

pub exists_hash-append :
    (h : String) (invs : List Invoice) (inv : Invoice)
    → exists_hash h (invs ++ inv ∷ []) ≡ (exists_hash h invs || has_hash h inv)
exists_hash-append h [] inv = ground arith
exists_hash-append h (x ∷ invs) inv = ground (arith, exists_hash-append h invs inv)

pub find-exists_hash :
    (h : String) (invs : List Invoice) → find (has_hash h) invs ≡ none → exists_hash h invs ≡ false
unfolding find
find-exists_hash h [] e = refl
find-exists_hash h (x ∷ invs) e = ground (arith, find-exists_hash h invs)

pub append-HashesUnique :
    (invs : List Invoice) (inv : Invoice)
    → HashesUnique invs
    → exists_hash inv.payment_hash invs ≡ false
    → HashesUnique (invs ++ inv ∷ [])
append-HashesUnique [] inv u e = (refl, tt)
append-HashesUnique (x ∷ invs) inv u e = ground (
  arith,
  append-HashesUnique invs inv u.1,
  exists_hash-append x.payment_hash invs inv,
  eq_iff inv.payment_hash x.payment_hash,
  eq_iff x.payment_hash inv.payment_hash,
)

pub credited_total-append :
    (invs : List Invoice) (inv : Invoice)
    → inv.status ≡ InvoiceStatus.pending
    → credited_total (invs ++ inv ∷ []) ≡ credited_total invs
credited_total-append [] inv e = grind (int_laws, e)
credited_total-append (x ∷ invs) inv e = grind (int_laws, credited_total-append invs inv e)
