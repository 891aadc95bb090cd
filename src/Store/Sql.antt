-- ===== src/Store/Sql.antt =====
-- internal/store/sqlite.go: what every query goes through. A query is an action on the handle that
-- returns a value or a Go error; `transaction` is Begin, Commit and the deferred Rollback.
use routecat.Prelude.{Bool, List, [], false, if◌then◌else◌, ◌∷◌}
use routecat.Prelude.Int.{ℤ}
use routecat.Store.Tables.{Db, Tables}

pub data Error : Type 0 where
  -- the statement did not execute
  sql_fault : Error
  -- `sql.ErrNoRows`
  no_rows : Error
  -- a PRIMARY KEY or UNIQUE constraint
  constraint : Error
  -- `insufficient balance`, with the balance and the amount
  insufficient_balance : ℤ → ℤ → Error

pub data Result (A : Type 0) : Type 0 where
  ok : A → Result A
  err : Error → Result A

abbrev pub Sql : Type 0 → Type 0
Sql A = Db → Result A × Db

abbrev pub drop_first : List Bool → List Bool
drop_first [] = []
drop_first (f ∷ fs) = fs

abbrev pub fails_first : List Bool → Bool
fails_first [] = false
fails_first (f ∷ fs) = f

-- One statement: it fails for a reason of its own and changes nothing, or runs.
unfoldable pub statement : {A : Type 0} → (Tables → Result A × Tables) → Sql A
statement run db =
    let rest = drop_first db.faults in
    if fails_first db.faults
    then (err sql_fault, record { tables = db.tables; faults = rest })
    else (let (r, t) = run db.tables in (r, record { tables = t; faults = rest }))

-- A SELECT changes no table.
unfoldable pub select : {A : Type 0} → (Tables → Result A) → Sql A
select read = statement (λ t. (read t, t))

infixl 5 ◌>>=◌ ◌>>◌
unfoldable pub ◌>>=◌ : {A B : Type 0} → Sql A → (A → Sql B) → Sql B
◌>>=◌ m f db = let (r, db') = m db in elim r [ ok a ↦ f a db' | err e ↦ (err e, db') ]

unfoldable pub ◌>>◌ : {A B : Type 0} → Sql A → Sql B → Sql B
m >> k = m >>= λ _. k

unfoldable pub pure : {A : Type 0} → A → Sql A
pure a db = (ok a, db)

unfoldable pub raise : {A : Type 0} → Error → Sql A
raise e db = (err e, db)

-- `v, _ := query()`: on an error the variable keeps its zero value.
unfoldable pub or_zero : {A : Type 0} → A → Sql A → Sql A
or_zero zero_value m db =
    let (r, db') = m db in elim r [ ok a ↦ (ok a, db') | err e ↦ (ok zero_value, db') ]

-- How a transaction's body ends when it has no error: by `tx.Commit()`, or by a plain return, after
-- which the deferred Rollback undoes its writes.
pub data Ending (A : Type 0) : Type 0 where
  commit : A → Ending A
  leave : A → Ending A

unfoldable pub finish : {A : Type 0} → Tables → Result (Ending A) → Db → Result A × Db
finish saved (ok (commit a)) db =
    let rest = drop_first db.faults in
    if fails_first db.faults
    then (err sql_fault, record { tables = saved; faults = rest })
    else (ok a, record { tables = db.tables; faults = rest })
finish saved (ok (leave a)) db = (ok a, record { tables = saved; faults = db.faults })
finish saved (err e) db = (err e, record { tables = saved; faults = db.faults })

-- The handle has one connection, so a transaction runs alone.
unfoldable pub transaction : {A : Type 0} → Sql (Ending A) → Sql A
unfolding finish
transaction body db =
    let rest = drop_first db.faults in
    if fails_first db.faults
    then (err sql_fault, record { tables = db.tables; faults = rest })
    else (let (r, db') = body (record { tables = db.tables; faults = rest }) in
        finish db.tables r db')

-- The result of an action, and the tables that it leaves.
abbrev pub outcome : {A : Type 0} → Sql A → Db → Result A × Tables
outcome m db = let (r, db') = m db in (r, db'.tables)

-- All of the above at once, for proofs and tests that run a query.
unfoldable pub sql : Unit {0}
unfolding statement select ◌>>=◌ ◌>>◌ pure raise or_zero finish transaction
sql = tt
