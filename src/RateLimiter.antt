-- ===== src/RateLimiter.antt =====
-- internal/gateway/middleware.go: the sliding-window rate limiter, and the registration limit of
-- internal/api/api.go, which runs the same code inline. Times are nanoseconds since the epoch.
pub mod History
pub mod Exact
pub mod Window
use routecat.Prelude.{
  Bool, List, Option, String, [], false, filter, if◌then◌else◌, leb, length, ltb, none, some, true,
  ℕ, ◌++◌, ◌+◌, ◌∷◌,
}
use routecat.Prelude.Dict.{Dict, insert, lookup}

pub record RateLimiter : Type 0 where
  pub requests : Dict (List ℕ)
  pub limit : ℕ
  pub window : ℕ

-- t.After(cutoff), with cutoff = now - window
abbrev pub is_recent : ℕ → ℕ → ℕ → Bool
is_recent window now t = ltb now (t + window)

-- valid := reqs[:0], with the loop that appends to it; a missing key is a nil slice
unfoldable pub valid_requests : ℕ → ℕ → Option (List ℕ) → List ℕ
valid_requests window now none = []
valid_requests window now (some reqs) = filter (is_recent window now) reqs

unfoldable pub allow : RateLimiter → String → ℕ → Bool × RateLimiter
unfolding valid_requests
allow rl ip now =
    let valid = valid_requests rl.window now (lookup ip rl.requests) in
    if leb rl.limit (length valid)
    then (false, record rl { requests = insert ip valid rl.requests })
    else (true, record rl { requests = insert ip (valid ++ now ∷ []) rl.requests })

abbrev is_empty : List ℕ → Bool
is_empty [] = true
is_empty (t ∷ ts) = false

-- The loop of the cleanup over the entries of the map.
unfoldable pub sweep : ℕ → ℕ → Dict (List ℕ) → Dict (List ℕ)
sweep window now [] = []
sweep window now ((ip, reqs) ∷ entries) =
    let valid = filter (is_recent window now) reqs in
    if is_empty valid then sweep window now entries else (ip, valid) ∷ sweep window now entries

unfoldable pub cleanup : RateLimiter → ℕ → RateLimiter
unfolding sweep
cleanup rl now = record rl { requests = sweep rl.window now rl.requests }
