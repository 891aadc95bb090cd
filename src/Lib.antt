-- ===== src/Lib.antt =====
-- RouteCat: a gateway that sells inference on the graphics cards of providers for bitcoin. A model of
-- its code in Go, with theorems about it.
--
-- A buyer registers a key, tops it up over Lightning and sends chats (internal/api). The router picks a
-- connected node for the model (internal/router); the gateway assigns the job, streams what the node
-- sends and, when the node reports the end, records the job and deducts its price from the buyer
-- (internal/gateway, internal/billing). The payout engine pays the nodes what they have earned, and a
-- watcher credits the invoices that buyers have paid (internal/lightning). All of them keep their
-- books in SQLite (internal/store).
--
-- Which file models what. A function of the code has the same name here in snake case.
--   Middleware: internal/gateway/middleware.go, in front of every handler. Forwarding is a proof.
--   Store: internal/store/sqlite.go. Tables has the rows, Sql the way a query runs: an action on the
--     database handle that may fail at each statement, as the environment chooses (`faults`), and
--     transactions that are undone. Users, Invoices, Jobs, Payouts and Nodes are the queries. Ensures
--     has the rules for postconditions; Spec is what the account calls promise, on two maps. Deduct,
--     Credit, Accounts, Owners, Books, Conservation, Views, SpecCalls, Simulation, Refinement and
--     Audit are proofs.
--   Router: internal/router/router.go. Selection, Models and Order are proofs; Order has the snapshot of
--     the nodes as a quotient that forgets their order.
--   RateLimiter: internal/gateway/middleware.go. History, Exact and Window are proofs.
--   Float64: the operations of Go's float64 as an interface, with laws of IEEE 754 arithmetic as
--     hypotheses. FixedPoint is a type of numbers that meets them.
--   Billing: internal/billing/billing.go and btcprice.go. Pricing has the table of prices, Split is a
--     proof.
--   Text, Http: the functions of Go's strings, encoding/hex, encoding/base64, fmt and net/http that the
--     code calls. Text.Split and the children of Text.Base64 are proofs.
--   Server: internal/gateway/server.go, the routes behind the middleware. Guarded and Bypass are proofs.
--   Main: cmd/routecat/main.go, and the constructors that it calls. Events is what the running program
--     does, one handler or tick at a time, in any order. Capped and Histories are proofs.
--   Gateway: internal/gateway/gateway.go and types.go. State has the gateway; Slots the counters of the
--     users; Caps and Usage the limits and the token counts; Jobs and Done the handlers of a job;
--     Expiry the cleanup; Register and Address the registration and the request proxy; Nodes the
--     connections' state and Messages their messages, the read loop and the end. Sessions,
--     SessionInvariant, Pending, Sound, Handlers, Assigned, Cleanup, Reachable, Expiring, Race, Ownership,
--     Takeover, Admission, Settlement, Price, Unpriced, Unordered, Compensation and Connections are
--     proofs.
--   Lightning: internal/lightning. Client is the interface of lightning.go; LndIo, Lnd, Lnd.Paying,
--     Lnd.Invoicing and Hashes are its LNDClient; Payout is payout.go and Invoices is invoices.go. In
--     LndIo, After and Runs are rules for proofs. Balance, Rounds, Cap, Solvency, Watching, Crediting,
--     Late and Panics are proofs, and so are Lnd.Logged, Paid, Lost, Settled and Refused, where
--     the engine, the watcher and the top-ups run with LNDClient.
--   Api: internal/api/api.go. Accounts has the keys, top-ups and balances, Chat the completions, Public
--     the statistics, the audit log and the models. Topups, Terms, Admission, Prices and Sound are
--     proofs.
--   Examples: small runs of the program.
--
-- How the model reads the code. Numbers of type int and int64 are integers, wrapped to 64 bits where
-- the code computes; times are natural numbers, in nanoseconds in the gateway and in seconds in the
-- database. Maps are association lists; where the code iterates over a map the order of the list is one
-- of the possible orders. Each handler is one step, as its mutexes make the access to each map; the
-- assignment of a job is divided at the send. A slice expression that is out of range panics, and
-- the panic of a background loop ends the process. The loops are recursions on lists and need no fuel,
-- but for the digits of %d, which has fuel for the 19 digits of an int64.
--
-- Parameters: the JSON decoders, the network (who answers which HTTP request, and whether a message to a
-- node can be sent), the macaroon's file, random keys and ids, the clock, and which SQL statements fail.
--
-- Not modelled: opening the database and its schema's SQL, flags and signals, listening on the port,
-- and the embedded pages, which are calls of libraries; the tickers, of which one tick is a step; the
-- bodies of answers; and interleavings inside a handler, other than around the send of a job.
pub mod Prelude
pub mod Store
pub mod Router
pub mod RateLimiter
pub mod Float64
pub mod Billing
pub mod Text
pub mod Gateway
pub mod Lightning
pub mod Http
pub mod Api
pub mod Examples
pub mod Middleware
pub mod Main
pub mod Server
