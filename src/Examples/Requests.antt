-- ===== src/Examples/Requests.antt =====
-- Runs of the HTTP handlers.
use routecat.Prelude.{String, [], arith, false, find, refl, some, true, ◌∷◌, ◌≡◌}
use routecat.Prelude.Int.{pos}
use routecat.Prelude.Dict.{lookup}
use routecat.Http.{created, decoded}
use routecat.Store.Tables.{Node}
use routecat.Store.Sql.{sql}
use routecat.Store.Nodes.{has_node_id, node_by_api_key}
use routecat.Gateway.State.{PendingJob}
use routecat.Gateway.Register.{
  RegisterPayload, RegisterRequest, handle_job_proxy, handle_register, path_job_id, proxy_key,
}
use routecat.Gateway.Admission.{Registered, handle_register-Registered}
use routecat.Gateway.Ownership.{Owner, handle_job_proxy-Owner}
use routecat.Gateway.Takeover.{handle_register_takes_over}
use routecat.Gateway.Address.{is_valid_lightning_address}
use routecat.Api.Accounts.{TopUpRequest}
use routecat.Api.Chat.{ChatRequest}
use routecat.Examples.Data.{live, market, market_db, node_row}

abbrev top_up_request : TopUpRequest
top_up_request = record {
  is_post = true;
  authorization = "Bearer rc_alice";
  body = decoded (pos 1000);
}

abbrev pub chat_request : ChatRequest
chat_request = record {
  is_post = true;
  authorization = "Bearer rc_alice";
  playground = false;
  body = decoded (record { model = "phi4-mini"; raw = 123 ∷ [] });
}

abbrev payload : RegisterPayload
payload = record {
  node_id = "node-0001";
  api_key = "nk-9";
  gpu = "RTX";
  gpu_vendor = "nvidia";
  vram_total_mb = pos 8000;
  vram_free_mb = pos 8000;
  vram_exact = true;
  models = [];
  ollama_url = "";
  region = "eu";
  wallet = "";
  referral_code = "";
  lightning_address = "eve@ln.example";
  redeem_threshold = pos 100;
  free_tier_pct = pos 0;
  version = "1";
}

abbrev register_request : RegisterRequest
register_request = record { is_post = true; authorization = "Bearer nk-9"; body = decoded payload }

handle_register-Registered_example :
    Registered register_request 7 market
      (handle_register register_request 7 market_db).0
      (handle_register register_request 7 market_db).1.tables
handle_register-Registered_example = handle_register-Registered register_request 7 market_db

-- The node of the market is taken over with a key of another.
handle_register_takes_over_example :
    let out = handle_register register_request 7 market_db in
    (out.0 ≡ created)
    × ((n : Node) × (find (has_node_id "node-0001") out.1.tables.nodes ≡ some n)
        × (n.api_key ≡ "nk-1")
        × (n.lightning_addr ≡ "eve@ln.example"))
unfolding find is_valid_lightning_address
handle_register_takes_over_example =
    handle_register_takes_over payload 7 market node_row "Bearer nk-9" refl refl (omega arith) refl

abbrev proxy_path : String
proxy_path = "/v1/gateway/jobs/j1/proxy/request"

handle_job_proxy-Owner_example :
    (job_id : String) × (job : PendingJob) × (path_job_id proxy_path ≡ some job_id)
    × (lookup job_id live.pending_jobs ≡ some job)
    × Owner (proxy_key "Bearer nk-1" "") job market_db (123 ∷ [])
unfolding handle_job_proxy lookup node_by_api_key sql find
handle_job_proxy-Owner_example =
    handle_job_proxy-Owner "Bearer nk-1" "" proxy_path live (123 ∷ []) refl
