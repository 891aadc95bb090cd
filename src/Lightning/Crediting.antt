-- ===== src/Lightning/Crediting.antt =====
-- Proofs about the paid invoices of a tick of internal/lightning/invoices.go.
use routecat.Prelude.{
  All, Any, Bool, Bool-cases, List, Option-cases, String, [], ap, arith, eq_iff, false, filter,
  find, find-some, find-update_where, inl, inr, refl, some, str_eq, true, ℕ, ◌∙◌, ◌∷◌, ◌≡◌, ◌≢◌,
  ◌⊎◌,
}
use routecat.Store.Tables.{Db, Invoice, InvoiceStatus, Tables}
use routecat.Store.Sql.{Result, err, ok, select, statement}
use routecat.Store.Invoices.{
  credit_invoice, expire_old_invoices, expire_overdue, has_hash, is_overdue, is_pending,
  pending_invoices, read_invoice, set_credited, set_expired,
}
use routecat.Lightning.Client.{Client}
use routecat.Lightning.Invoices.{check_all, check_one, watch_tick}
use routecat.Store.Ensures.{Ensures-mono}
use routecat.Store.Credit.{
  Credited, Found, credit_invoice-Ensures, credit_invoice-pending, credit_invoice-quiet, quiet,
}
use routecat.Lightning.Late.{credit_invoice-Found}
use routecat.Lightning.Panics.{Loggable, check_one-returns, expired-Loggable, filter-Loggable}

module _ {W : Type 0} (ln : Client W) (hash : String) (inv : Invoice) where
  check_one-paid :
      (i : Invoice) (db : Db) (world : W)
      → (ln.check_invoice i.payment_hash world).0 ≡ some true
      → (check_one ln i (db, world)).1.0 ≡ (credit_invoice i.payment_hash db).1
  unfolding check_one
  check_one-paid i db world e = ground arith

  check_one-other :
      (i : Invoice) (db : Db) (world : W)
      → ((check_one ln i (db, world)).1.0 ≡ db)
        ⊎ ((check_one ln i (db, world)).1.0 ≡ (credit_invoice i.payment_hash db).1)
  unfolding check_one
  check_one-other i db world = ground arith

  -- The invoice waits on the list, or has been credited.
  abbrev Waiting : List Invoice → Tables → Type 0
  Waiting invs t = Found hash inv t × Any (λ i. i.payment_hash ≡ hash) invs

  abbrev Paid : Tables → Type 0
  Paid t = Found hash (set_credited inv) t

  credited-Paid :
      (t : Tables)
      → Found hash inv t
      → inv.status ≡ InvoiceStatus.pending
      → Paid (credit_invoice hash (quiet t)).1.tables
  credited-Paid t found open_still =
      let own = find-some (has_hash hash) inv t.invoices found in
      rw (credit_invoice-pending hash inv t found open_still) (
        find-update_where (has_hash hash) (has_hash hash) set_credited (λ x. refl) t.invoices
        ∙ rw (found, own) refl)

  other-Found :
      (other : String) (t : Tables)
      → Found hash inv t
      → other ≢ hash
      → Found hash inv (credit_invoice other (quiet t)).1.tables
  other-Found other t found apart =
      (Ensures-mono {Q = λ r u. Found hash inv u} _ kept (credit_invoice-Ensures other t)).at []
    where
      own : has_hash hash inv ≡ true
      own = find-some (has_hash hash) inv t.invoices found

      miss : has_hash other inv ≡ false
      miss = ground (arith, own, eq_iff inv.payment_hash other, eq_iff inv.payment_hash hash)

      kept : (r : Result Bool) (u : Tables) → Credited other t (r, u) → Found hash inv u
      kept (ok true) u (inv', read, pending', wrote) =
          rw
            (
              wrote,
              find-update_where (has_hash hash) (has_hash other) set_credited (λ x. refl),
              found,
            )
            (rw miss refl)
      kept (ok false) u (inv', read, not_pending, same) = rw same found
      kept (err e) u same = rw same found

  credit_invoice-Paid :
      (other : String) (t : Tables) → Paid t → Paid (credit_invoice other (quiet t)).1.tables
  credit_invoice-Paid other t paid =
      (credit_invoice-Found hash (set_credited inv) refl other t paid).at []

  -- The database after one look-up.
  abbrev look_up : Invoice → Tables → W → Db
  look_up i t world = (check_one ln i (quiet t, world)).1.0

  look_up-quiet : (i : Invoice) (t : Tables) (world : W) → (look_up i t world).faults ≡ []
  look_up-quiet i t world = elim (check_one-other i (quiet t) world) [
    | inl same ↦ ap (λ (d : Db). d.faults) same
    | inr credited_now ↦
        ap (λ (d : Db). d.faults) credited_now ∙ credit_invoice-quiet i.payment_hash t
  ]

  look_up-Paid : (i : Invoice) (t : Tables) (world : W) → Paid t → Paid (look_up i t world).tables
  look_up-Paid i t world paid = elim (check_one-other i (quiet t) world) [
    | inl same ↦ rw same paid
    | inr credited_now ↦ rw credited_now (credit_invoice-Paid i.payment_hash t paid)
  ]

  look_up-Found :
      (i : Invoice) (t : Tables) (world : W)
      → Found hash inv t
      → i.payment_hash ≢ hash
      → Found hash inv (look_up i t world).tables
  look_up-Found i t world found apart = elim (check_one-other i (quiet t) world) [
    | inl same ↦ rw same found
    | inr credited_now ↦ rw credited_now (other-Found i.payment_hash t found apart)
  ]

  module _ (paying : (world : W) → (ln.check_invoice hash world).0 ≡ some true)
      (open_still : inv.status ≡ InvoiceStatus.pending) where
    look_up-now :
        (i : Invoice) (t : Tables) (world : W)
        → Found hash inv t
        → i.payment_hash ≡ hash
        → Paid (look_up i t world).tables
    look_up-now i t world found same =
        rw (check_one-paid i (quiet t) world (rw same (paying world)), same)
          (credited-Paid t found open_still)

    look_up-Waiting :
        (i : Invoice) (invs : List Invoice) (t : Tables) (world : W)
        → Waiting (i ∷ invs) t ⊎ Paid t
        → Waiting invs (look_up i t world).tables ⊎ Paid (look_up i t world).tables
    look_up-Waiting i invs t world (inr paid) = inr (look_up-Paid i t world paid)
    look_up-Waiting i invs t world (inl (found, inl same)) = inr (look_up-now i t world found same)
    look_up-Waiting i invs t world (inl (found, inr there)) =
        elim (Bool-cases (str_eq i.payment_hash hash)) [
          | inl hit ↦ inr (look_up-now i t world found ((eq_iff i.payment_hash hash).0 hit))
          | inr miss ↦ inl (
            look_up-Found i t world found
                (λ e. ground (arith, miss, (eq_iff i.payment_hash hash).1 e)),
            there,
          )
        ]

    check_all-Paid :
        (invs : List Invoice) (t : Tables) (world : W)
        → All Loggable invs
        → Waiting invs t ⊎ Paid t
        → Paid (check_all ln invs (quiet t, world)).1.0.tables
    unfolding check_all
    check_all-Paid [] t world l (inl (found, none_left)) = absurd none_left
    check_all-Paid [] t world l (inr paid) = paid
    check_all-Paid (i ∷ invs) t world l h =
        let out = check_one ln i (quiet t, world) in
        let still : out.1.0 ≡ quiet out.1.0.tables =
          ap (λ (fs : List Bool). record { tables = out.1.0.tables; faults = fs })
            (look_up-quiet i t world) in
        let rest =
          check_all-Paid invs out.1.0.tables out.1.1 l.1 (look_up-Waiting i invs t world h) in
        rw (check_all, check_one-returns ln i (quiet t) world l.0)
          (ap
              (λ (d : Db).
                find (has_hash hash) (check_all ln invs (d, out.1.1)).1.0.tables.invoices)
              still
            ∙ rest)

    listed :
        (invs : List Invoice)
        → find (has_hash hash) invs ≡ some inv
        → Any (λ i. i.payment_hash ≡ hash) (filter (λ i. is_pending i.status) invs)
    unfolding find filter
    listed [] e = cc e
    listed (i ∷ invs) e = elim (Bool-cases (has_hash hash i)) [
      | inl hit ↦
          let here : is_pending i.status ≡ true = ground arith in
          rw here (inl ((eq_iff i.payment_hash hash).0 hit))
      | inr miss ↦
          let rest = listed invs (rw miss at e) in
          elim (Bool-cases (is_pending i.status)) [
            | inl waits ↦ rw waits (inr rest)
            | inr settled ↦ rw settled rest
          ]
    ]

    -- If the client reports an invoice paid whenever it is asked, every stored invoice can be logged and
    -- no statement fails: a tick credits the invoice if it is pending and not overdue.
    pub watch_tick-credits :
        (now : ℕ) (t : Tables) (world : W)
        → All Loggable t.invoices
        → read_invoice hash t ≡ ok inv
        → is_overdue now inv ≡ false
        → read_invoice hash
            (watch_tick (some ln) now (record { tables = t; faults = [] }, world)).1.0.tables
          ≡ ok (set_credited inv)
    unfolding watch_tick expire_old_invoices pending_invoices select statement
    watch_tick-credits now t world l read in_time =
        let found : Found hash inv t = elim (Option-cases (find (has_hash hash) t.invoices)) [
          | inl missing ↦ ground arith
          | inr (x, e) ↦ ground arith
        ] in
        let kept : Found hash inv (expire_overdue now t) =
          find-update_where (has_hash hash) (is_overdue now) set_expired (λ x. refl) t.invoices
          ∙ rw (found, in_time) refl in
        let paid =
          check_all-Paid (filter (λ i. is_pending i.status) (expire_overdue now t).invoices)
            (expire_overdue now t) world
            (filter-Loggable (λ i. is_pending i.status) _ (expired-Loggable now t.invoices l))
            (inl (kept, listed (expire_overdue now t).invoices kept)) in
        rw (read_invoice, paid) refl
