-- ===== src/Gateway/Ownership.antt =====
-- Which node may act on a job or a registration in internal/gateway/gateway.go, and which may not.
use routecat.Store.Ensures.{Ensures, Ensures-read}
use routecat.Prelude.{
  Bool-cases, Option, Option-cases, String, arith, eq_iff, false, find, if◌then◌else◌, inl, inr,
  none, refl, some, str_eq, str_eq_refl, ℕ, ◌∷◌, ◌≡◌, ◌≢◌,
}
use routecat.Prelude.Dict.{erase, lookup, lookup-erase}
use routecat.Text.{Text}
use routecat.Http.{Status, forbidden, success}
use routecat.Float64.{Float64}
use routecat.Billing.{Engine}
use routecat.Store.Tables.{Db, Node, Tables}
use routecat.Store.Sql.{Result, err, ok}
use routecat.Store.Nodes.{has_api_key, node_by_api_key}
use routecat.Gateway.State.{Gateway, NodeConn, PendingJob, returns}
use routecat.Gateway.Slots.{decr_user_jobs}
use routecat.Gateway.Usage.{Unmarshal}
use routecat.Gateway.Done.{handle_proxy_done}
use routecat.Gateway.Jobs.{handle_proxy_chunk, handle_reject}
use routecat.Gateway.Register.{handle_job_proxy, path_job_id, proxy_body, proxy_job, proxy_key}

node_by_api_key-found :
    (api_key : String) (t : Tables)
    → Ensures
        (node_by_api_key api_key)
        t
        (λ r u. (n : Node) → r ≡ ok n → find (has_api_key api_key) t.nodes ≡ some n)
unfolding node_by_api_key
node_by_api_key-found api_key t =
    Ensures-read _ (λ n e. cc e)
      (λ n e. elim (Option-cases (find (has_api_key api_key) t.nodes)) [
        | inl missing ↦ ground arith
        | inr (row, there) ↦ ground arith
      ])

-- The node of a key, whose job's body it may have.
abbrev pub Owner : String → PendingJob → Db → Text → Type 0
Owner api_key job db body =
    (node : Node) × (find (has_api_key api_key) db.tables.nodes ≡ some node)
    × (node.node_id ≡ job.node_id)
    × (body ≡ job.buyer_body)

proxy_body-Owner :
    (api_key : String) (job : PendingJob) (db : Db) (body : Text)
    → (proxy_body api_key job db).0 ≡ (success, some body)
    → Owner api_key job db body
unfolding proxy_body
proxy_body-Owner api_key job db body e =
    ending (node_by_api_key api_key db).0 (node_by_api_key api_key db).1
      ((node_by_api_key-found api_key db.tables).at db.faults) e
  where
    ending :
        (r : Result Node) (db' : Db)
        → ((n : Node) → r ≡ ok n → find (has_api_key api_key) db.tables.nodes ≡ some n)
        → let out : (Status × Option Text) × Db = elim r [
          | err e ↦ ((forbidden, none), db')
          | ok node ↦ (
            if str_eq node.node_id job.node_id
                then (success, some job.buyer_body)
                else (forbidden, none),
            db',
          )
        ] in
          out.0 ≡ (success, some body) → Owner api_key job db body
    ending (err x) db' found e' = ground arith
    ending (ok node) db' found e' =
        (node, found node refl, ground (arith, eq_iff node.node_id job.node_id), ground arith)

-- A node that a job is not assigned to cannot add to its stream or end it. But it can reject it: the
-- job is dropped, its channel is closed and its user's slot is released.
pub foreign_node :
    (fl : Float64) (unmarshal : Unmarshal) (engine : Engine fl.F) (nc : NodeConn fl.F) (id : String)
    (chunk : Text) (now : ℕ) (g : Gateway fl.F) (job : PendingJob)
    → lookup id g.pending_jobs ≡ some job
    → job.node_id ≢ nc.node_id
    → (handle_proxy_chunk nc id chunk g ≡ g)
      × (handle_proxy_done fl unmarshal engine nc id now g ≡ (returns, g))
      × (handle_reject nc id g ≡ record g {
        pending_jobs = erase id g.pending_jobs;
        user_jobs = decr_user_jobs job.user_key g.user_jobs;
        closed = id ∷ g.closed;
      })
      × (lookup id (handle_reject nc id g).pending_jobs ≡ none)
unfolding handle_proxy_chunk handle_proxy_done handle_reject
foreign_node fl unmarshal engine nc id chunk now g job there foreign =
    let apart : str_eq job.node_id nc.node_id ≡ false =
      ground (arith, eq_iff job.node_id nc.node_id) in
    (
      rw (handle_proxy_chunk, there, apart) refl,
      rw (handle_proxy_done, there, apart) refl,
      rw (handle_reject, there) refl,
      rw (handle_reject, there, lookup-erase, str_eq_refl id) refl,
    )

module _ {F : Type 0} where
  -- A buyer's request is handed out only to the owner of an API key whose node the job is assigned
  -- to, and it is that job's request.
  pub handle_job_proxy-Owner :
      (authorization query_key path : String) (g : Gateway F) (body : Text)
      → (handle_job_proxy authorization query_key path g).0 ≡ (success, some body)
      → (job_id : String) × (job : PendingJob) × (path_job_id path ≡ some job_id)
        × (lookup job_id g.pending_jobs ≡ some job)
        × Owner (proxy_key authorization query_key) job g.db body
  unfolding handle_job_proxy
  handle_job_proxy-Owner authorization query_key path g body e =
      let key = proxy_key authorization query_key in
      elim (Bool-cases (str_eq key "")) [
        | inl empty ↦ absurd (cc (rw (handle_job_proxy, empty) at e))
        | inr given ↦ elim (Option-cases (path_job_id path)) [
          | inl short ↦ absurd (cc (rw (handle_job_proxy, given, short) at e))
          | inr (job_id, cut) ↦ elim (Option-cases (lookup job_id g.pending_jobs)) [
            | inl missing ↦ absurd (cc (rw (handle_job_proxy, given, cut, proxy_job, missing) at e))
            | inr (job, there) ↦ (
              job_id,
              job,
              cut,
              there,
              proxy_body-Owner key job g.db body
                  (rw (handle_job_proxy, given, cut, proxy_job, there) at e),
            )
          ]
        ]
      ]
