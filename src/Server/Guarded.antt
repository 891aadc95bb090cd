-- ===== src/Server/Guarded.antt =====
-- Proofs about which requests reach a handler without the limits (internal/gateway/server.go and
-- middleware.go).
use routecat.Prelude.{
  All, Bool, Bool-cases, List, Option, [], ap, arith, false, if◌then◌else◌, inl, inr, none, not,
  refl, some, true, ℕ, ◌||◌, ◌∷◌, ◌≡◌, ◌⊎◌,
}
use routecat.Text.{Text, codes, has_prefix, has_suffix, text_eq}
use routecat.Middleware.{
  Arrival, Passage, guarded, is_public, rejected, security_middleware, sender, untouched,
}
use routecat.Server.{
  Route, audit, balance, chat_completions, exact_route, exact_routes, frontend, is_clean, job_proxy,
  max_body_bytes, models, mux_route, redirected, register, register_user, serve, stats, top_up,
  withdraw, ws,
}
use routecat.RateLimiter.{RateLimiter, allow}

-- The handlers that a request may reach without limits.
abbrev pub is_open : Route → Bool
is_open register = false
is_open ws = false
is_open withdraw = false
is_open chat_completions = false
is_open register_user = false
is_open top_up = false
is_open balance = false
is_open models = true
is_open stats = true
is_open audit = true
is_open frontend = true
is_open job_proxy = true
is_open redirected = true

text_eq-≡ : (s t : Text) → text_eq s t ≡ true → s ≡ t
unfolding text_eq
text_eq-≡ [] [] e = refl
text_eq-≡ [] (d ∷ t) e = cc e
text_eq-≡ (c ∷ s) [] e = cc e
text_eq-≡ (c ∷ s) (d ∷ t) e = ground (arith, text_eq-≡ s t)

-- A pattern of a closed handler is not a public path.
abbrev Closed : Text × Route → Type 0
Closed (pattern, route) = is_open route ≡ false → is_public pattern ≡ false

exact_routes-Closed : All Closed exact_routes
unfolding is_public text_eq has_prefix has_suffix
exact_routes-Closed = (
  λ _. refl,
  (
    λ _. refl,
    (
      λ _. refl,
      (λ _. refl, (λ h. cc h, (λ h. cc h, (λ h. cc h, (λ _. refl, (λ _. refl, (λ _. refl, tt))))))),
    ),
  ),
)

exact_route-Closed :
    (path : Text) (routes : List (Text × Route)) (route : Route)
    → All Closed routes
    → exact_route path routes ≡ some route
    → is_open route ≡ false
    → is_public path ≡ false
unfolding exact_route
exact_route-Closed path [] route all e closed = cc e
exact_route-Closed path ((pattern, r) ∷ routes) route all e closed =
    elim (Bool-cases (text_eq path pattern)) [
      | inl hit ↦
          let same : path ≡ pattern = text_eq-≡ path pattern hit in
          let it : r ≡ route = ground arith in rw same (all.0 (rw it closed))
      | inr miss ↦ exact_route-Closed path routes route all.1 (ground arith) closed
    ]

mux_route-Closed : (path : Text) → is_open (mux_route path) ≡ false → is_public path ≡ false
unfolding mux_route
mux_route-Closed path =
    known (not (is_clean path) || text_eq path (codes "/v1/gateway/jobs"))
      (exact_route path exact_routes) refl
  where
    other :
        (b : Bool) → is_open (if b then job_proxy else frontend) ≡ false → is_public path ≡ false
    other true h = cc h
    other false h = cc h

    known :
        (b : Bool) (o : Option Route)
        → exact_route path exact_routes ≡ o
        → is_open (
            if b then redirected else (elim o [
              | some route ↦ route
              | none ↦ if has_prefix path (codes "/v1/gateway/jobs/") then job_proxy else frontend
            ]))
          ≡ false
        → is_public path ≡ false
    known true o e h = cc h
    known false none e h = other (has_prefix path (codes "/v1/gateway/jobs/")) h
    known false (some route) e h =
        exact_route-Closed path exact_routes route exact_routes-Closed e h

-- What becomes of a request: it is refused for too many requests, or it reaches a handler, with a bound
-- on its body and counted by the limiter, or else an open one.
abbrev pub Served : Arrival → ℕ → RateLimiter → Option (Route × Passage) → Type 0
Served r now rl none = (allow rl (sender r) now).0 ≡ false
Served r now rl (some (route, p)) =
    (is_open route ≡ true) ⊎ ((p ≡ guarded true) × ((allow rl (sender r) now).0 ≡ true))

-- What the middleware has seen of a request that it passes on.
abbrev Passed : Arrival → ℕ → RateLimiter → Passage → Type 0
Passed r now rl untouched = is_public r.path ≡ true
Passed r now rl (guarded bounded) = (bounded ≡ true) × ((allow rl (sender r) now).0 ≡ true)
Passed r now rl rejected = (allow rl (sender r) now).0 ≡ false

security_middleware-Passed :
    (r : Arrival) (now : ℕ) (rl : RateLimiter)
    → Passed r now rl (security_middleware max_body_bytes r now rl).0
unfolding security_middleware
security_middleware-Passed r now rl = known (is_public r.path) (allow rl (sender r) now).0 refl refl
  where
    known :
        (public allowed : Bool)
        → is_public r.path ≡ public
        → (allow rl (sender r) now).0 ≡ allowed
        → let out : Passage × RateLimiter =
            if public
            then (untouched, rl)
            else if not allowed
            then (rejected, (allow rl (sender r) now).1)
            else (guarded true, (allow rl (sender r) now).1) in
          Passed r now rl out.0
    known true allowed e f = e
    known false true e f = (refl, f)
    known false false e f = f

-- Registration, top-ups, balances, chats, withdrawals and the nodes' registrations and connections are
-- reached only by requests that the rate limiter has allowed and whose body is bounded. The open
-- handlers, among them the one that gives a node the body of its job, may be reached without.
pub serve-Served : (r : Arrival) (now : ℕ) (rl : RateLimiter) → Served r now rl (serve r now rl).0
unfolding serve
serve-Served r now rl = reached _ (security_middleware-Passed r now rl)
  where
    open_or :
        (b : Bool)
        → is_open (mux_route r.path) ≡ b
        → is_public r.path ≡ true
        → is_open (mux_route r.path) ≡ true
    open_or true e h = e
    open_or false e h = cc (h, mux_route-Closed r.path e)

    reached :
        (p : Passage)
        → Passed r now rl p
        → Served r now rl (elim p [ rejected ↦ none | q ↦ some (mux_route r.path, q) ])
    reached untouched h = inl (open_or (is_open (mux_route r.path)) refl h)
    reached (guarded bounded) h = inr (ap guarded h.0, h.1)
    reached rejected h = h
