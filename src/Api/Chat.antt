-- ===== src/Api/Chat.antt =====
-- internal/api/api.go: the completions of chats.
use routecat.Prelude.{
  Bool, List, Option, String, [], false, if◌then◌else◌, none, not, some, str_eq, true, ℕ, ◌&&◌, ◌∷◌,
}
use routecat.Prelude.Int.{ltb_ℤ, pos, ℤ}
use routecat.Text.{Text}
use routecat.Http.{
  Body, Status, bad_gateway, bad_request, bearer_key, decoded, invalid_json, method_not_allowed,
  service_unavailable, success, too_many_requests, unauthorized, unreadable,
}
use routecat.Router.{route_request}
use routecat.Store.Tables.{Db}
use routecat.Store.Sql.{Sql, err, ok, or_zero, pure, ◌>>=◌}
use routecat.Store.Users.{user_balance, validate_user_key}
use routecat.Gateway.State.{Gateway, seconds}
use routecat.Gateway.Nodes.{live_node_infos}
use routecat.Gateway.Jobs.{AssignError, assign_job, no_node, send_failed, too_many_concurrent}

-- What the handler reads of a body: the model; the body itself goes to the node.
pub record ChatBody : Type 0 where
  pub model : String
  pub raw : Text

pub record ChatRequest : Type 0 where
  pub is_post : Bool
  pub authorization : String
  -- X-Playground: true
  pub playground : Bool
  pub body : Body ChatBody

-- Whether a request is served on the free tier, or the refusal.
unfoldable pub admit : Bool → ℤ → ℤ → Option Bool
admit playground remaining balance =
    if playground && ltb_ℤ (pos 0) remaining
    then some true
    else if ltb_ℤ (pos 0) balance
    then some false
    else none

-- The user's key is validated, and the balance read: an error of the latter leaves it at 0.
unfoldable pub check_user : String → ℕ → Sql (ℤ × ℤ)
check_user user_key now = do
  (user_id, remaining) ← validate_user_key user_key (seconds now)
  balance ← or_zero (pos 0) (user_balance user_key)
  pure (remaining, balance)

-- The answer to an assignment.
abbrev pub assign_status : Option AssignError → Status
assign_status none = success
assign_status (some too_many_concurrent) = too_many_requests
assign_status (some no_node) = bad_gateway
assign_status (some send_failed) = bad_gateway

module _ {F : Type 0} where
  abbrev pub with_db : Db → Gateway F → Gateway F
  with_db db g = record g { db = db }

  -- A node for the model, and the job for it. The router sees the live nodes of the gateway, and
  -- `node_id` is its answer.
  unfoldable pub start_job :
      Bool → String → String → Bool → ChatBody → ℕ → Gateway F → Status × Gateway F
  start_job delivered job_id user_key free_tier chat now g =
      elim (route_request chat.model (some (live_node_infos g))) [
        | none ↦ (service_unavailable, g)
        | some node_id ↦
            let (refusal, g') =
              assign_job delivered node_id job_id chat.model user_key chat.raw free_tier now g in
            (assign_status refusal, g')
      ]

  unfoldable pub read_chat :
      Bool → String → String → Bool → Body ChatBody → ℕ → Gateway F → Status × Gateway F
  unfolding start_job
  read_chat delivered job_id user_key free_tier unreadable now g = (bad_request, g)
  read_chat delivered job_id user_key free_tier invalid_json now g = (bad_request, g)
  read_chat delivered job_id user_key free_tier (decoded chat) now g =
      if str_eq chat.model ""
      then (bad_request, g)
      else start_job delivered job_id user_key free_tier chat now g

  -- HandleChatCompletions up to the streaming of the response. The id of the job is a random UUID, and
  -- whether the node gets its message is the network's choice.
  unfoldable pub handle_chat_completions :
      Bool → String → ChatRequest → ℕ → Gateway F → Status × Gateway F
  unfolding read_chat admit check_user
  handle_chat_completions delivered job_id req now g =
      if not req.is_post then (method_not_allowed, g) else (elim (bearer_key req.authorization) [
        | none ↦ (unauthorized, g)
        | some user_key ↦
            let (r, db') = check_user user_key now g.db in
            elim r [
              | err e ↦ (unauthorized, with_db db' g)
              | ok (remaining, balance) ↦ elim (admit req.playground remaining balance) [
                | none ↦ (too_many_requests, with_db db' g)
                | some free_tier ↦
                    read_chat delivered job_id user_key free_tier req.body now (with_db db' g)
              ]
            ]
      ])

-- What the select of the streaming loop picks.
pub data StreamEvent : Type 0 where
  chunk_ready job_done buyer_gone : StreamEvent

-- The chunks that reach the buyer, of those that come through the channel. A chunk that is picked
-- when the channel is empty is one that is still to come.
unfoldable pub stream_response : List StreamEvent → List Text → List Text
stream_response [] chunks = []
stream_response (job_done ∷ events) chunks = []
stream_response (buyer_gone ∷ events) chunks = []
stream_response (chunk_ready ∷ events) [] = []
stream_response (chunk_ready ∷ events) (c ∷ chunks) = c ∷ stream_response events chunks
