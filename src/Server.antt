-- ===== src/Server.antt =====
-- internal/gateway/server.go: the routes of the HTTP server, behind the middleware. http.ServeMux is
-- part of Go's library.
use routecat.Prelude.{
  Bool, List, Option, [], false, if◌then◌else◌, none, not, some, true, ℕ, ◌&&◌, ◌*◌, ◌==◌, ◌||◌,
  ◌∷◌,
}
use routecat.Text.{Text, codes, has_prefix, is_nil, split, text_eq}
use routecat.Http.{Status, not_implemented}
use routecat.RateLimiter.{RateLimiter}
use routecat.Middleware.{Arrival, Passage, rejected, security_middleware}
use routecat.Gateway.State.{second}
pub mod Guarded
pub mod Bypass

-- The handlers, and a redirect to the clean form of a path.
pub data Route : Type 0 where
  register ws job_proxy withdraw : Route
  chat_completions models stats audit register_user top_up balance : Route
  frontend redirected : Route

-- An element of a path that path.Clean would take out.
abbrev is_dots : Text → Bool
is_dots s = text_eq s (codes ".") || text_eq s (codes "..")

-- Elements behind the first slash: none is empty, but the last may be, and none is `.` or `..`.
unfoldable pub clean_elements : List Text → Bool
clean_elements [] = true
clean_elements (s ∷ []) = not (is_dots s)
clean_elements (s ∷ rest) =
    let clean = clean_elements rest in not (is_nil s) && not (is_dots s) && clean

-- The path is its own clean form.
unfoldable pub is_clean : Text → Bool
unfolding clean_elements
is_clean [] = false
is_clean (c ∷ s) = c == b'/' && clean_elements (split b'/' s)

-- The patterns without a slash at the end, which match one path.
abbrev pub exact_routes : List (Text × Route)
exact_routes =
    (codes "/v1/gateway/register", register)
    ∷ (codes "/v1/gateway/ws", ws)
    ∷ (codes "/v1/provider/withdraw-ecash", withdraw)
    ∷ (codes "/v1/chat/completions", chat_completions)
    ∷ (codes "/v1/models", models)
    ∷ (codes "/v1/stats", stats)
    ∷ (codes "/v1/audit", audit)
    ∷ (codes "/v1/auth/register", register_user)
    ∷ (codes "/v1/auth/topup", top_up)
    ∷ (codes "/v1/auth/balance", balance)
    ∷ []

unfoldable pub exact_route : Text → List (Text × Route) → Option Route
exact_route path [] = none
exact_route path ((pattern, route) ∷ routes) =
    if text_eq path pattern then some route else exact_route path routes

-- ServeMux: the pattern `/v1/gateway/jobs/` matches the paths that start with it, `/` what is left.
unfoldable pub mux_route : Text → Route
unfolding exact_route is_clean
mux_route path =
    if not (is_clean path) || text_eq path (codes "/v1/gateway/jobs")
    then redirected
    else (elim (exact_route path exact_routes) [
      | some route ↦ route
      | none ↦ if has_prefix path (codes "/v1/gateway/jobs/") then job_proxy else frontend
    ])

-- HandleWithdraw
unfoldable pub handle_withdraw : Status
handle_withdraw = not_implemented

abbrev pub max_body_bytes : ℕ
max_body_bytes = 1048576

-- NewRateLimiter
unfoldable pub new_rate_limiter : ℕ → ℕ → RateLimiter
new_rate_limiter limit window = record { requests = []; limit = limit; window = window }

-- NewServer: 60 requests a minute for an address.
unfoldable pub server_limiter : RateLimiter
unfolding new_rate_limiter
server_limiter = new_rate_limiter 60 (60 * second)

-- A request through the middleware and the mux: refused, or at a handler as the middleware lets it on.
unfoldable pub serve : Arrival → ℕ → RateLimiter → Option (Route × Passage) × RateLimiter
unfolding mux_route security_middleware
serve r now rl =
    let (passage, rl') = security_middleware max_body_bytes r now rl in
    (elim passage [ rejected ↦ none | p ↦ some (mux_route r.path, p) ], rl')
