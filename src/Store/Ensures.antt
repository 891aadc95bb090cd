-- ===== src/Store/Ensures.antt =====
-- Postconditions of actions on the store (internal/store/sqlite.go) that hold whatever statements
-- fail: one rule for each way to build an action.
use routecat.Prelude.{Bool, Bool-cases, List, false, if◌then◌else◌, inl, inr, refl, true, ◌≡◌}
use routecat.Store.Tables.{Db, Tables}
use routecat.Store.Sql.{
  Ending, Error, Result, Sql, commit, drop_first, err, fails_first, finish, leave, ok, or_zero,
  pure, raise, select, sql_fault, statement, transaction, ◌>>=◌, ◌>>◌,
}

-- From the tables `t`, with any statements failing, `m` ends in a result and tables that satisfy `Q`.
pub record Ensures {A : Type 0} (m : Sql A) (t : Tables) (Q : Result A → Tables → Type 0)
    : Type 0 where
  pub at :
      (fs : List Bool)
      → let db : Db = record { tables = t; faults = fs } in Q (m db).0 (m db).1.tables

-- What the first action must ensure for the rest of a `do` block.
abbrev pub Then :
    {A B : Type 0} → (A → Sql B) → (Result B → Tables → Type 0) → Result A → Tables → Type 0
Then f Q (ok a) t = Ensures (f a) t Q
Then f Q (err e) t = Q (err e) t

-- What a transaction's body must ensure: nothing of it stays unless it is committed.
abbrev pub AtEnd :
    {A : Type 0} → Tables → (Result A → Tables → Type 0) → Result (Ending A) → Tables → Type 0
AtEnd saved Q (ok (commit a)) t = Q (err sql_fault) saved × Q (ok a) t
AtEnd saved Q (ok (leave a)) t = Q (ok a) saved
AtEnd saved Q (err e) t = Q (err e) saved

-- `v, _ := query()`
abbrev pub OrZero : {A : Type 0} → A → (Result A → Tables → Type 0) → Result A → Tables → Type 0
OrZero zero_value Q (ok a) t = Q (ok a) t
OrZero zero_value Q (err e) t = Q (ok zero_value) t

finish_lem :
    {A : Type 0} (Q : Result A → Tables → Type 0) (saved : Tables) (r : Result (Ending A)) (db : Db)
    → AtEnd saved Q r db.tables
    → Q (finish saved r db).0 (finish saved r db).1.tables
unfolding finish
finish_lem Q saved (ok (commit a)) db q = elim (Bool-cases (fails_first db.faults)) [
  | inl e ↦ rw e q.0
  | inr e ↦ rw e q.1
]
finish_lem Q saved (ok (leave a)) db q = q
finish_lem Q saved (err e) db q = q

bind_lem :
    {A B : Type 0} (Q : Result B → Tables → Type 0) (r : Result A) (f : A → Sql B) (db : Db)
    → Then f Q r db.tables
    → let out : Result B × Db = elim r [ ok a ↦ f a db | err e ↦ (err e, db) ] in
      Q out.0 out.1.tables
bind_lem Q (ok a) f db h = h.at db.faults
bind_lem Q (err e) f db h = h

module _ {A : Type 0} {Q : Result A → Tables → Type 0} {t : Tables} where
  pub Ensures-pure : (a : A) → Q (ok a) t → Ensures (pure a) t Q
  unfolding pure
  Ensures-pure a q = record { at = λ fs. q }

  pub Ensures-raise : (e : Error) → Q (err e) t → Ensures (raise e) t Q
  unfolding raise
  Ensures-raise e q = record { at = λ fs. q }

  pub Ensures-statement :
      (run : Tables → Result A × Tables)
      → Q (err sql_fault) t
      → Q (run t).0 (run t).1
      → Ensures (statement run) t Q
  unfolding statement
  Ensures-statement run q p = record {
    at = λ fs. elim (Bool-cases (fails_first fs)) [ inl e ↦ rw e q | inr e ↦ rw e p ];
  }

  pub Ensures-or_zero :
      (zero_value : A) (m : Sql A)
      → Ensures m t (OrZero zero_value Q)
      → Ensures (or_zero zero_value m) t Q
  unfolding or_zero
  Ensures-or_zero z m h = record { at = λ fs. ending _ _ (h.at fs) }
    where
      ending :
          (r : Result A) (db : Db)
          → OrZero z Q r db.tables
          → let out : Result A × Db = elim r [ ok a ↦ (ok a, db) | err e ↦ (ok z, db) ] in
            Q out.0 out.1.tables
      ending (ok a) db q = q
      ending (err e) db q = q

  pub Ensures-transaction :
      (body : Sql (Ending A))
      → Q (err sql_fault) t
      → Ensures body t (AtEnd t Q)
      → Ensures (transaction body) t Q
  unfolding transaction
  Ensures-transaction body q h = record {
    at = λ fs. elim (Bool-cases (fails_first fs)) [
      | inl e ↦ rw e q
      | inr e ↦ rw e (finish_lem Q t _ _ (h.at (drop_first fs)))
    ];
  }

module _ {A B : Type 0} {Q : Result B → Tables → Type 0} {t : Tables} where
  pub Ensures-bind : (m : Sql A) (f : A → Sql B) → Ensures m t (Then f Q) → Ensures (m >>= f) t Q
  unfolding ◌>>=◌
  Ensures-bind m f h = record { at = λ fs. bind_lem Q _ f _ (h.at fs) }

module _ {A B : Type 0} {Q : Result B → Tables → Type 0} {t : Tables} where
  -- A SELECT, with the value that it found or the error that it had.
  pub Ensures-select :
      (read : Tables → Result A) (f : A → Sql B)
      → Q (err sql_fault) t
      → ((a : A) → read t ≡ ok a → Ensures (f a) t Q)
      → ((e : Error) → read t ≡ err e → Q (err e) t)
      → Ensures (select read >>= f) t Q
  unfolding select
  Ensures-select read f q found missing =
      Ensures-bind _ f (Ensures-statement _ q (split (read t) refl))
    where
      split : (r : Result A) → read t ≡ r → Then f Q r t
      split (ok a) e = found a e
      split (err x) e = missing x e

-- A SELECT alone.
pub Ensures-read :
    {A : Type 0} {Q : Result A → Tables → Type 0} {t : Tables} (read : Tables → Result A)
    → Q (err sql_fault) t
    → Q (read t) t
    → Ensures (select read) t Q
unfolding select
Ensures-read read q h = Ensures-statement _ q h

module _ {B : Type 0} {Q : Result B → Tables → Type 0} {t : Tables} where
  -- A write that has no error of its own.
  pub Ensures-write :
      (write : Tables → Tables) (k : Sql B)
      → Q (err sql_fault) t
      → Ensures k (write t) Q
      → Ensures (statement (λ u. (ok tt, write u)) >> k) t Q
  unfolding ◌>>◌
  Ensures-write write k q h = Ensures-bind _ _ (Ensures-statement _ q h)

module _ {B : Type 0} {Q : Result B → Tables → Type 0} {t : Tables} where
  pub Ensures-if :
      (b : Bool) (m n : Sql B)
      → (b ≡ true → Ensures m t Q)
      → (b ≡ false → Ensures n t Q)
      → Ensures (if b then m else n) t Q
  Ensures-if true m n km kn = km refl
  Ensures-if false m n km kn = kn refl

-- A postcondition may be weakened.
pub Ensures-mono :
    {A : Type 0} {P Q : Result A → Tables → Type 0} (m : Sql A) {t : Tables}
    → ((r : Result A) (u : Tables) → P r u → Q r u)
    → Ensures m t P
    → Ensures m t Q
Ensures-mono m f h = record { at = λ fs. f _ _ (h.at fs) }
