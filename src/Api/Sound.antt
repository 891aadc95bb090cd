-- ===== src/Api/Sound.antt =====
-- Proofs about the chat handler of internal/api/api.go and the counters of the gateway.
use routecat.Prelude.{
  Bool, Bool-cases, Option, String, false, if◌then◌else◌, inl, inr, none, not, some, str_eq, true,
  ℕ, ◌≡◌,
}
use routecat.Prelude.Int.{ℤ}
use routecat.Prelude.Dict.{lookup}
use routecat.Http.{
  Body, Status, bearer_key, decoded, invalid_json, method_not_allowed, service_unavailable,
  too_many_requests, unauthorized, unreadable,
}
use routecat.Router.{route_request}
use routecat.Store.Tables.{Db}
use routecat.Store.Sql.{Result, err, ok}
use routecat.Gateway.State.{Gateway}
use routecat.Gateway.Nodes.{live_node_infos}
use routecat.Gateway.Jobs.{assign_job}
use routecat.Gateway.Sound.{Sound, is_closed}
use routecat.Gateway.Handlers.{assign_job-Sound}
use routecat.Api.Chat.{
  ChatBody, ChatRequest, admit, assign_status, check_user, handle_chat_completions, read_chat,
  start_job, with_db,
}

module _ {F : Type 0} (delivered : Bool) (job_id : String) (now : ℕ) (g : Gateway F) (s : Sound g)
    (fresh : lookup job_id g.pending_jobs ≡ none)
    (open_still : is_closed job_id g.closed ≡ false) where
  start_job-Sound :
      (user_key : String) (free_tier : Bool) (chat : ChatBody) (db : Db)
      → Sound (start_job delivered job_id user_key free_tier chat now (with_db db g)).1
  unfolding start_job
  start_job-Sound user_key free_tier chat db =
      routed (route_request chat.model (some (live_node_infos (with_db db g))))
    where
      routed :
          (o : Option String)
          → let out : Status × Gateway F = elim o [
            | none ↦ (service_unavailable, with_db db g)
            | some node_id ↦
                let (refusal, g') =
                  assign_job delivered node_id job_id chat.model user_key chat.raw free_tier now
                    (with_db db g) in
                (assign_status refusal, g')
          ] in
            Sound out.1
      routed none = s
      routed (some node_id) =
          assign_job-Sound delivered node_id job_id chat.model user_key chat.raw free_tier now
            (with_db db g) s fresh open_still

  read_chat-Sound :
      (user_key : String) (free_tier : Bool) (body : Body ChatBody) (db : Db)
      → Sound (read_chat delivered job_id user_key free_tier body now (with_db db g)).1
  unfolding read_chat
  read_chat-Sound user_key free_tier unreadable db = s
  read_chat-Sound user_key free_tier invalid_json db = s
  read_chat-Sound user_key free_tier (decoded chat) db = elim (Bool-cases (str_eq chat.model "")) [
    | inl empty ↦ rw empty s
    | inr named ↦ rw named (start_job-Sound user_key free_tier chat db)
  ]

  -- An id that no job has had is enough.
  pub handle_chat_completions-Sound :
      (req : ChatRequest) → Sound (handle_chat_completions delivered job_id req now g).1
  unfolding handle_chat_completions
  handle_chat_completions-Sound req = posted req.is_post (bearer_key req.authorization)
    where
      admitted :
          (user_key : String) (db' : Db) (o : Option Bool)
          → let out : Status × Gateway F = elim o [
            | none ↦ (too_many_requests, with_db db' g)
            | some free_tier ↦
                read_chat delivered job_id user_key free_tier req.body now (with_db db' g)
          ] in
            Sound out.1
      admitted user_key db' none = s
      admitted user_key db' (some free_tier) = read_chat-Sound user_key free_tier req.body db'

      checked :
          (user_key : String) (db' : Db) (r : Result (ℤ × ℤ))
          → let out : Status × Gateway F = elim r [
            | err e ↦ (unauthorized, with_db db' g)
            | ok (remaining, balance) ↦ elim (admit req.playground remaining balance) [
              | none ↦ (too_many_requests, with_db db' g)
              | some free_tier ↦
                  read_chat delivered job_id user_key free_tier req.body now (with_db db' g)
            ]
          ] in
            Sound out.1
      checked user_key db' (err e) = s
      checked user_key db' (ok (remaining, balance)) =
          admitted user_key db' (admit req.playground remaining balance)

      posted :
          (b : Bool) (key : Option String)
          → let out : Status × Gateway F = if not b then (method_not_allowed, g) else (elim key [
            | none ↦ (unauthorized, g)
            | some user_key ↦
                let (r, db') = check_user user_key now g.db in
                elim r [
                  | err e ↦ (unauthorized, with_db db' g)
                  | ok (remaining, balance) ↦ elim (admit req.playground remaining balance) [
                    | none ↦ (too_many_requests, with_db db' g)
                    | some free_tier ↦
                        read_chat delivered job_id user_key free_tier req.body now (with_db db' g)
                  ]
                ]
          ]) in
            Sound out.1
      posted false key = s
      posted true none = s
      posted true (some user_key) =
          let (r, db') = check_user user_key now g.db in checked user_key db' r
