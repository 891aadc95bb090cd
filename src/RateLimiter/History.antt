-- ===== src/RateLimiter/History.antt =====
-- Histories of calls of the rate limiter of internal/gateway/middleware.go.
use routecat.Prelude.{Bool, List, String, [], false, if◌then◌else◌, str_eq, ℕ, ◌&&◌, ◌++◌, ◌∷◌, ◌≤◌}
use routecat.RateLimiter.{RateLimiter, allow, cleanup}

-- A request by an address, or a run of the cleanup.
pub data Call : Type 0 where
  asks : String → Call
  cleans : Call

abbrev pub is_granted : String → Call → Bool → Bool
is_granted ip (asks other) answer = str_eq other ip && answer
is_granted ip cleans answer = false

abbrev pub respond : RateLimiter → ℕ × Call → Bool × RateLimiter
respond rl (now, asks ip) = allow rl ip now
respond rl (now, cleans) = (false, cleanup rl now)

-- The state after a history, and the times at which requests of `ip` were allowed.
unfoldable pub serve : String → List (ℕ × Call) → List ℕ → RateLimiter → List ℕ × RateLimiter
serve ip [] granted rl = (granted, rl)
serve ip ((now, c) ∷ cs) granted rl =
    let (answer, rl') = respond rl (now, c) in
    serve ip cs (if is_granted ip c answer then granted ++ now ∷ [] else granted) rl'

-- The clock does not run backwards.
abbrev pub Forward : ℕ → List (ℕ × Call) → Type 0
Forward t [] = Unit
Forward t ((now, c) ∷ cs) = (t ≤ now) × Forward now cs

abbrev pub last_time : ℕ → List (ℕ × Call) → ℕ
last_time t [] = t
last_time t ((now, c) ∷ cs) = last_time now cs
