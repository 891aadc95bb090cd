-- ===== src/Gateway/Reachable.antt =====
-- The gateway of internal/gateway/gateway.go over any history of its handlers.
use routecat.Prelude.{Bool, List, String, [], arith, false, none, refl, ℕ, ◌≡◌}
use routecat.Prelude.Dict.{Dict, lookup}
use routecat.Float64.{Float64}
use routecat.Text.{Text}
use routecat.Store.Tables.{Db}
use routecat.Billing.{Engine}
use routecat.Gateway.State.{Gateway, NodeConn, Outgoing, returns}
use routecat.Gateway.Usage.{Unmarshal}
use routecat.Gateway.Done.{handle_proxy_done}
use routecat.Gateway.Jobs.{assign_job, handle_proxy_chunk, handle_reject}
use routecat.Gateway.Expiry.{cleanup_jobs}
use routecat.Gateway.Sound.{Sound, is_closed}
use routecat.Gateway.Handlers.{
  assign_job-Sound, handle_proxy_chunk-Sound, handle_proxy_done-Sound, handle_reject-Sound,
}
use routecat.Gateway.Cleanup.{cleanup_jobs-Sound}

abbrev pub start : (F : Type 0) → Db → Gateway F
start F db = record {
  nodes = [];
  pending_jobs = [];
  user_jobs = [];
  closed = [];
  sent = [];
  db = db;
}

-- One handler, run to its end: the nodes, the clock, the network and the BTC price choose. Job ids are
-- random UUIDs, so an assignment comes with an id that no job before it has had.
pub data Step (fl : Float64) (unmarshal : Unmarshal) (g h : Gateway fl.F) : Type 0 where
  assigning :
      (delivered : Bool) (node_id job_id model user_key : String) (body : Text) (free_tier : Bool)
      (now : ℕ)
      → lookup job_id g.pending_jobs ≡ none
      → is_closed job_id g.closed ≡ false
      → h ≡ (assign_job delivered node_id job_id model user_key body free_tier now g).1
      → Step fl unmarshal g h
  rejecting : (nc : NodeConn fl.F) (id : String) → h ≡ handle_reject nc id g → Step fl unmarshal g h
  streaming :
      (nc : NodeConn fl.F) (id : String) (chunk : Text)
      → h ≡ handle_proxy_chunk nc id chunk g
      → Step fl unmarshal g h
  finishing :
      (engine : Engine fl.F) (nc : NodeConn fl.F) (id : String) (now : ℕ)
      → h ≡ (handle_proxy_done fl unmarshal engine nc id now g).1
      → Step fl unmarshal g h
  cleaning :
      (engine : Engine fl.F) (now : ℕ)
      → (cleanup_jobs fl unmarshal engine now g).0 ≡ returns
      → h ≡ (cleanup_jobs fl unmarshal engine now g).1
      → Step fl unmarshal g h
  -- What the other handlers change: the connections, the messages, the database.
  elsewhere :
      (nodes : Dict (NodeConn fl.F)) (messages : List (String × Outgoing fl.F)) (db : Db)
      → h ≡ record g { nodes = nodes; sent = messages; db = db }
      → Step fl unmarshal g h

pub data Reach (fl : Float64) (unmarshal : Unmarshal) (g : Gateway fl.F)
    : Gateway fl.F → Type 0 where
  here : Reach fl unmarshal g g
  next :
      {h k : Gateway fl.F} → Reach fl unmarshal g h → Step fl unmarshal h k → Reach fl unmarshal g k

module _ (fl : Float64) (unmarshal : Unmarshal) where
  Step-Sound : (g h : Gateway fl.F) → Step fl unmarshal g h → Sound g → Sound h
  Step-Sound g h
        (assigning delivered node_id job_id model user_key body free_tier now fresh open_still e)
        s =
      rw e (
        assign_job-Sound delivered node_id job_id model user_key body free_tier now g s fresh
          open_still)
  Step-Sound g h (rejecting nc id e) s = rw e (handle_reject-Sound g s nc id)
  Step-Sound g h (streaming nc id chunk e) s = rw e (handle_proxy_chunk-Sound g s nc id chunk)
  Step-Sound g h (finishing engine nc id now e) s =
      rw e (handle_proxy_done-Sound fl unmarshal engine nc id now g s)
  Step-Sound g h (cleaning engine now returned e) s =
      rw e (cleanup_jobs-Sound fl unmarshal engine now g s returned)
  Step-Sound g h (elsewhere nodes messages db e) s = rw e s

  pub Sound-start : (db : Db) → Sound (start fl.F db)
  unfolding lookup
  Sound-start db = record {
    once = tt;
    slots = λ key. refl;
    few = λ key. omega arith;
    gone = λ id h. refl;
    closed_once = tt;
  }

  -- After any history of handlers, each run to its end, in which every job has an id of its own
  -- and no cleanup panics: each user's counter is the number of that user's jobs in flight and at
  -- most three, no channel has been closed twice, and no closed job is in flight.
  pub Reach-Sound : (db : Db) {g : Gateway fl.F} → Reach fl unmarshal (start fl.F db) g → Sound g
  Reach-Sound db here = Sound-start db
  Reach-Sound db (next r st) = Step-Sound _ _ st (Reach-Sound db r)
