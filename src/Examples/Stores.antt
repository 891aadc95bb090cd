-- ===== src/Examples/Stores.antt =====
-- Runs of the store.
use routecat.Prelude.{List, [], refl, ◌∷◌}
use routecat.Prelude.Int.{pos, ◌+ℤ◌}
use routecat.Store.Tables.{Db, empty_tables}
use routecat.Store.Sql.{outcome}
use routecat.Store.Users.{deduct_balance}
use routecat.Store.Invoices.{credit_invoice}
use routecat.Store.Deduct.{Deducted, deduct_balance-Deducted}
use routecat.Store.Credit.{Credited, credit_invoice-Credited}
use routecat.Store.Books.{
  AccountCall, IsBalanced, account_run, credits, deducts, registers, tops_up,
}
use routecat.Store.Conservation.{account_run-IsBalanced}
use routecat.Examples.Data.{market, market_db}

deduct_balance-Deducted_example :
    Deducted "rc_alice" (pos 3000) market (outcome (deduct_balance "rc_alice" (pos 3000)) market_db)
deduct_balance-Deducted_example = deduct_balance-Deducted "rc_alice" (pos 3000) market_db

credit_invoice-Credited_example :
    Credited "aabbccdd" market (outcome (credit_invoice "aabbccdd") market_db)
credit_invoice-Credited_example = credit_invoice-Credited "aabbccdd" market_db

-- A user registers, tops up, is credited and spends.
abbrev calls : List AccountCall
calls =
    registers "rc_bob" "u2" "bob" (pos 10)
    ∷ tops_up "rc_bob" "ddeeff00" (pos 10000) "lnbc3" 200
    ∷ credits "ddeeff00"
    ∷ deducts "rc_bob" (pos 4000)
    ∷ []

abbrev empty_db : Db
empty_db = record { tables = empty_tables; faults = [] }

empty-IsBalanced : IsBalanced empty_tables (pos 0)
unfolding ◌+ℤ◌
empty-IsBalanced = record { keys = tt; hashes = tt; owned = tt; sums = refl }

account_run-IsBalanced_example :
    let (spent, db) = account_run calls (pos 0) empty_db in IsBalanced db.tables spent
account_run-IsBalanced_example = account_run-IsBalanced calls (pos 0) empty_db empty-IsBalanced
