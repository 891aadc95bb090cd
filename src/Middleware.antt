-- ===== src/Middleware.antt =====
-- internal/gateway/middleware.go: the middleware in front of every handler.
pub mod Forwarding
use routecat.Prelude.{Bool, String, if◌then◌else◌, ltb, not, str_eq, ℕ, ◌||◌}
use routecat.Text.{Text, codes, has_prefix, has_suffix, text_eq}
use routecat.RateLimiter.{RateLimiter, allow}

pub record Arrival : Type 0 where
  pub path : Text
  pub remote_addr : String
  -- X-Real-Ip, empty if it is missing
  pub real_ip : String

abbrev pub sender : Arrival → String
sender r = if str_eq r.real_ip "" then r.remote_addr else r.real_ip

-- The pages that may be read without limit.
unfoldable pub is_public : Text → Bool
is_public path =
    text_eq path (codes "/")
    || text_eq path (codes "/v1/models")
    || text_eq path (codes "/v1/stats")
    || text_eq path (codes "/v1/audit")
    || has_prefix path (codes "/docs/")
    || has_prefix path (codes "/locales/")
    || has_suffix path (codes ".svg")
    || has_suffix path (codes ".png")
    || has_suffix path (codes ".css")
    || has_suffix path (codes ".js")
    || has_suffix path (codes ".json")

-- What becomes of a request: it goes on as it came; or with a bound on its body, if there is one, and
-- the security headers; or it is refused.
pub data Passage : Type 0 where
  untouched : Passage
  guarded : Bool → Passage
  rejected : Passage

unfoldable pub security_middleware : ℕ → Arrival → ℕ → RateLimiter → Passage × RateLimiter
unfolding is_public
security_middleware max_body_bytes r now rl =
    let (allowed, rl') = allow rl (sender r) now in
    if is_public r.path
    then (untouched, rl)
    else if not allowed
    then (rejected, rl')
    else (guarded (ltb 0 max_body_bytes), rl')
