-- ===== src/Server/Bypass.antt =====
-- Proofs about paths that the middleware takes for static files (internal/gateway/server.go and
-- middleware.go).
use routecat.Prelude.{◌++◌}
use routecat.Text.{Text, codes}
use routecat.RateLimiter.{RateLimiter}

abbrev pub job_path : Text → Text
job_path rest = codes "/v1/gateway/jobs/" ++ rest
