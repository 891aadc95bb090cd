-- ===== src/Api/Admission.antt =====
-- Proofs about the admission of chats in internal/api/api.go.
use routecat.Prelude.{Bool, String, some, true, ℕ, ◌≡◌}
use routecat.Store.Accounts.{exists_key}
use routecat.Gateway.State.{Gateway}
use routecat.Api.Chat.{ChatBody, ChatRequest}
use routecat.Prelude.Dict.{lookup}
use routecat.Http.{Status, bearer_key, decoded, success}
use routecat.Router.{route_request}
use routecat.Gateway.Nodes.{live_node_infos}
use routecat.Gateway.Handlers.{new_job}
use routecat.Api.Terms.{Terms}
use routecat.Gateway.Assigned.{Assigned}

module _ {F : Type 0} (delivered : Bool) (job_id : String) (req : ChatRequest) (now : ℕ)
    (g : Gateway F) where
  -- A served chat: its job is pending, for the registered user of the key and the node that the router
  -- has chosen.
  abbrev pub Served : Gateway F → Type 0
  Served h =
      (user_key : String) × (chat : ChatBody) × (node_id : String) × (free_tier : Bool)
      × (bearer_key req.authorization ≡ some user_key)
      × (exists_key user_key g.db.tables.api_keys ≡ true)
      × Terms req.playground free_tier user_key g.db.tables
      × (req.body ≡ decoded chat)
      × (route_request chat.model (some (live_node_infos g)) ≡ some node_id)
      × (lookup job_id h.pending_jobs
          ≡ some (new_job node_id job_id chat.model user_key chat.raw free_tier now))

  abbrev Answered : Status × Gateway F → Type 0
  Answered (Status.success, h) = Served h
  Answered (status, h) = Unit
