-- ===== src/Examples/Payments.antt =====
-- Runs of the payout engine and of the watcher of invoices.
use routecat.Lightning.Crediting.{watch_tick-credits}
use routecat.Prelude.{[], arith, false, find, refl, some, ◌∷◌, ◌≡◌}
use routecat.Prelude.Int.{negsuc, pos, ◌+ℤ◌}
use routecat.Text.{byte_length}
use routecat.Store.Tables.{Db, Invoice, Tables}
use routecat.Store.Sql.{ok}
use routecat.Store.Invoices.{read_invoice, set_credited, set_expired}
use routecat.Store.Books.{IsBalanced}
use routecat.Gateway.State.{returns}
use routecat.Lightning.Payout.{PayoutEngine, begin_hour, process_payouts}
use routecat.Lightning.Cap.{HourWithin, paid_sats, process_payouts_cap}
use routecat.Lightning.Invoices.{watch_tick}
use routecat.Lightning.Watching.{watch_tick-IsBalanced}
use routecat.Lightning.Panics.{watch_tick-returns}
use routecat.Lightning.Late.{watch_tick_late}
use routecat.Examples.Data.{invoice_row, kind_client, market, market_db}

abbrev payouts : PayoutEngine (Unit {0})
payouts = record {
  ln = some kind_client;
  max_per_hour = pos 1000;
  spent_this_hour = pos 10;
  hour_start = 0;
}

process_payouts_cap_example :
    let r = process_payouts kind_client 5 payouts market_db tt in
    HourWithin 1000 r.engine
    × ((begin_hour 5 payouts).spent_this_hour +ℤ paid_sats r.paid ≡ r.engine.spent_this_hour)
process_payouts_cap_example =
    process_payouts_cap kind_client 5 1000 (omega arith) (omega arith) payouts market_db tt
      (refl, omega arith, omega arith)

market-IsBalanced : IsBalanced market (negsuc 4999)
unfolding ◌+ℤ◌
market-IsBalanced = record {
  keys = (refl, tt);
  hashes = (refl, tt);
  owned = (refl, tt);
  sums = refl;
}

watch_tick-IsBalanced_example :
    IsBalanced (watch_tick (some kind_client) 101 (market_db, tt)).1.0.tables (negsuc 4999)
watch_tick-IsBalanced_example =
    watch_tick-IsBalanced (some kind_client) 101 (negsuc 4999) market_db tt market-IsBalanced

watch_tick-returns_example : (watch_tick (some kind_client) 101 (market_db, tt)).0 ≡ returns
unfolding byte_length
watch_tick-returns_example =
    watch_tick-returns (some kind_client) 101 market_db tt
      (record { hash_long = omega arith; key_long = omega arith }, tt)

-- An invoice without a payment hash, as LND's error answers leave it.
abbrev blank_invoice : Invoice
blank_invoice = record invoice_row { payment_hash = "" }

abbrev blank_market : Tables
blank_market = record market { invoices = blank_invoice ∷ [] }

watch_tick_late_example :
    let db : Db = record { tables = market; faults = false ∷ [] } in
    read_invoice "aabbccdd" (watch_tick (some kind_client) 800 (db, tt)).1.0.tables
    ≡ ok (set_expired invoice_row)
unfolding find
watch_tick_late_example =
    watch_tick_late kind_client 800 "aabbccdd" invoice_row market [] tt refl refl

watch_tick-credits_example :
    read_invoice "aabbccdd"
      (watch_tick (some kind_client) 101 (record { tables = market; faults = [] }, tt)).1.0.tables
    ≡ ok (set_credited invoice_row)
unfolding find byte_length
watch_tick-credits_example =
    watch_tick-credits kind_client "aabbccdd" invoice_row (λ w. refl) refl 101 market tt
      (record { hash_long = omega arith; key_long = omega arith }, tt) refl refl
