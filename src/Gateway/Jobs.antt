-- ===== src/Gateway/Jobs.antt =====
-- internal/gateway/gateway.go: a job's way through the gateway, from its assignment to the node's
-- report that it is done. Each handler takes the current time and returns how it ends.
use routecat.Prelude.{
  Bool, Option, String, [], if◌then◌else◌, length, ltb, none, not, some, str_eq, ℕ, ◌++◌, ◌∷◌,
}
use routecat.Prelude.Dict.{erase, insert, lookup}
use routecat.Text.{Text}
use routecat.Gateway.State.{Gateway, NodeConn, Outgoing, PendingJob, assigns}
use routecat.Gateway.Slots.{decr_user_jobs, incr_user_jobs}
use routecat.Gateway.Usage.{usage_line}

pub data AssignError : Type 0 where
  too_many_concurrent : AssignError
  no_node : AssignError
  send_failed : AssignError

abbrev pub response_capacity : ℕ
response_capacity = 64

-- The job after a chunk: its usage line, and the chunk if the channel has room.
abbrev pub with_chunk : Text → PendingJob → PendingJob
with_chunk chunk job = record job {
  last_chunk = elim (usage_line chunk) [ none ↦ job.last_chunk | some line ↦ line ];
  response_ch =
      if ltb (length job.response_ch) response_capacity
      then job.response_ch ++ chunk ∷ []
      else job.response_ch;
}

module _ {F : Type 0} where
  abbrev pub forget_job : String → Gateway F → Gateway F
  forget_job job_id g = record g { pending_jobs = erase job_id g.pending_jobs }

  abbrev pub release_slot : String → Gateway F → Gateway F
  release_slot user_key g = record g { user_jobs = decr_user_jobs user_key g.user_jobs }

  abbrev pub close_done : String → Gateway F → Gateway F
  close_done job_id g = record g { closed = job_id ∷ g.closed }

  abbrev pub push_sent : String → Outgoing F → Gateway F → Gateway F
  push_sent node_id msg g = record g { sent = (node_id, msg) ∷ g.sent }

  -- AssignJob up to the moment at which it sends to the node: a slot, the node, the pending entry.
  unfoldable pub begin_assign :
      String
      → String
      → String
      → String
      → Text
      → Bool
      → ℕ
      → Gateway F
      → Option AssignError × Gateway F
  begin_assign node_id job_id model user_key body free_tier now g =
      let (granted, counts) = incr_user_jobs user_key g.user_jobs in
      if not granted
      then (some too_many_concurrent, g)
      else (let taken = record g { user_jobs = counts } in
          elim (lookup node_id g.nodes) [
            | none ↦ (some no_node, release_slot user_key taken)
            | some nc ↦ (
              none,
              record taken {
                pending_jobs =
                    insert job_id
                      (record {
                        job_id = job_id;
                        node_id = node_id;
                        user_key = user_key;
                        model = model;
                        buyer_body = body;
                        response_ch = [];
                        free_tier = free_tier;
                        started_at = now;
                        last_chunk = [];
                      })
                      taken.pending_jobs;
              },
            )
          ])

  -- The rest of AssignJob: whether the send succeeded is the network's choice.
  unfoldable pub end_assign :
      Bool → String → String → String → String → Gateway F → Option AssignError × Gateway F
  end_assign delivered node_id job_id model user_key g =
      if delivered
      then (none, push_sent node_id (assigns job_id model) g)
      else (some send_failed, release_slot user_key (forget_job job_id g))

  unfoldable pub assign_job :
      Bool
      → String
      → String
      → String
      → String
      → Text
      → Bool
      → ℕ
      → Gateway F
      → Option AssignError × Gateway F
  unfolding begin_assign end_assign
  assign_job delivered node_id job_id model user_key body free_tier now g =
      let (refused, g') = begin_assign node_id job_id model user_key body free_tier now g in
      elim refused [
        | some e ↦ (some e, g')
        | none ↦ end_assign delivered node_id job_id model user_key g'
      ]

  -- It only logs.
  unfoldable pub handle_accept : NodeConn F → String → Gateway F → Gateway F
  handle_accept nc job_id g = g

  unfoldable pub handle_reject : NodeConn F → String → Gateway F → Gateway F
  handle_reject nc job_id g = elim (lookup job_id g.pending_jobs) [
    | none ↦ g
    | some job ↦ release_slot job.user_key (forget_job job_id (close_done job_id g))
  ]

  unfoldable pub handle_proxy_chunk : NodeConn F → String → Text → Gateway F → Gateway F
  handle_proxy_chunk nc job_id chunk g = elim (lookup job_id g.pending_jobs) [
    | none ↦ g
    | some job ↦
        if not (str_eq job.node_id nc.node_id)
        then g
        else record g { pending_jobs = insert job_id (with_chunk chunk job) g.pending_jobs }
  ]
