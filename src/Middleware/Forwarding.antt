-- ===== src/Middleware/Forwarding.antt =====
-- Proofs about the middleware of internal/gateway/middleware.go over histories of requests.
use routecat.Prelude.{
  Bool, Bool-cases, List, String, [], arith, count, false, if◌then◌else◌, inl, inr, ltb, not, refl,
  str_eq, true, ℕ, ◌&&◌, ◌++◌, ◌∷◌, ◌≡◌, ◌≤◌,
}
use routecat.RateLimiter.{RateLimiter, allow, cleanup, is_recent}
use routecat.RateLimiter.History.{Call, Forward, asks, cleans, last_time, serve}
use routecat.RateLimiter.Window.{fresh, window_limit}
use routecat.Middleware.{
  Arrival, Passage, guarded, is_public, rejected, security_middleware, sender, untouched,
}

-- A request, or a run of the limiter's cleanup.
pub data Visit : Type 0 where
  arrives : Arrival → Visit
  sweeps : Visit

abbrev pub is_guarded : Passage → Bool
is_guarded untouched = false
is_guarded (guarded bounded) = true
is_guarded rejected = false

abbrev receive : ℕ → RateLimiter → ℕ × Visit → Passage × RateLimiter
receive max rl (now, arrives r) = security_middleware max r now rl
receive max rl (now, sweeps) = (rejected, cleanup rl now)

abbrev is_passed : String → Visit → Passage → Bool
is_passed ip (arrives r) p = str_eq (sender r) ip && is_guarded p
is_passed ip sweeps p = false

-- The limiter after a history, and the times at which requests of `ip` passed it; public pages pass by.
unfoldable pub forward : ℕ → String → List (ℕ × Visit) → List ℕ → RateLimiter → List ℕ × RateLimiter
forward max ip [] passed rl = (passed, rl)
forward max ip ((now, v) ∷ vs) passed rl =
    let (p, rl') = receive max rl (now, v) in
    forward max ip vs (if is_passed ip v p then passed ++ now ∷ [] else passed) rl'

-- The calls of the limiter.
abbrev calls_of : List (ℕ × Visit) → List (ℕ × Call)
calls_of [] = []
calls_of ((now, sweeps) ∷ vs) = (now, cleans) ∷ calls_of vs
calls_of ((now, arrives r) ∷ vs) =
    if is_public r.path then calls_of vs else (now, asks (sender r)) ∷ calls_of vs

-- The clock does not run backwards.
abbrev pub Onward : ℕ → List (ℕ × Visit) → Type 0
Onward t [] = Unit
Onward t ((now, v) ∷ vs) = (t ≤ now) × Onward now vs

abbrev pub final_time : ℕ → List (ℕ × Visit) → ℕ
final_time t [] = t
final_time t ((now, v) ∷ vs) = final_time now vs

and_false : (b : Bool) → (b && false) ≡ false
and_false true = refl
and_false false = refl

security_middleware-public :
    (max : ℕ) (r : Arrival) (now : ℕ) (rl : RateLimiter)
    → is_public r.path ≡ true
    → security_middleware max r now rl ≡ (untouched, rl)
unfolding security_middleware
security_middleware-public max r now rl e = rw (security_middleware, e) refl

security_middleware-limited :
    (max : ℕ) (r : Arrival) (now : ℕ) (rl : RateLimiter)
    → is_public r.path ≡ false
    → (is_guarded (security_middleware max r now rl).0 ≡ (allow rl (sender r) now).0)
      × ((security_middleware max r now rl).1 ≡ (allow rl (sender r) now).1)
unfolding security_middleware
security_middleware-limited max r now rl e =
    rw (security_middleware, e) (answer (allow rl (sender r) now).0 (allow rl (sender r) now).1)
  where
    answer :
        (allowed : Bool) (rl' : RateLimiter)
        → let out : Passage × RateLimiter =
            if not allowed then (rejected, rl') else (guarded (ltb 0 max), rl') in
          (is_guarded out.0 ≡ allowed) × (out.1 ≡ rl')
    answer true rl' = (refl, refl)
    answer false rl' = (refl, refl)

forward-serve :
    (max : ℕ) (ip : String) (vs : List (ℕ × Visit)) (passed : List ℕ) (rl : RateLimiter)
    → forward max ip vs passed rl ≡ serve ip (calls_of vs) passed rl
unfolding forward serve
forward-serve max ip [] passed rl = refl
forward-serve max ip ((now, sweeps) ∷ vs) passed rl =
    forward-serve max ip vs passed (cleanup rl now)
forward-serve max ip ((now, arrives r) ∷ vs) passed rl = elim (Bool-cases (is_public r.path)) [
  | inl open_page ↦
      rw
        (
          security_middleware-public max r now rl open_page,
          open_page,
          and_false (str_eq (sender r) ip),
        )
        (forward-serve max ip vs passed rl)
  | inr limited ↦
      let (answer, state) = security_middleware-limited max r now rl limited in
      rw (answer, state, limited) (forward-serve max ip vs _ _)
]

Onward-Forward :
    (t s : ℕ) (vs : List (ℕ × Visit))
    → t ≤ s
    → Onward s vs
    → Forward t (calls_of vs) × (last_time t (calls_of vs) ≤ final_time s vs)
Onward-Forward t s [] le h = (tt, le)
Onward-Forward t s ((now, sweeps) ∷ vs) le h =
    let (f, l) = Onward-Forward now now vs (omega arith) h.1 in ((omega (arith, h.0), f), l)
Onward-Forward t s ((now, arrives r) ∷ vs) le h = elim (Bool-cases (is_public r.path)) [
  | inl open_page ↦ rw open_page (Onward-Forward t now vs (omega (arith, h.0)) h.1)
  | inr limited ↦
      let (f, l) = Onward-Forward now now vs (omega arith) h.1 in
      rw limited ((omega (arith, h.0), f), l)
]

-- Behind a new limiter, after any history of requests whose times do not fall, and for each sender: of
-- all its requests that the middleware has let through, those for public pages apart, at most `limit`
-- lie in the window that ends at any time from now on.
pub forward_limit :
    (max limit window : ℕ) (ip : String) (vs : List (ℕ × Visit)) (x : ℕ)
    → Onward 0 vs
    → final_time 0 vs ≤ x
    → count (is_recent window x) (forward max ip vs [] (fresh limit window)).0 ≤ limit
forward_limit max limit window ip vs x h later =
    let (f, l) = Onward-Forward 0 0 vs (omega arith) h in
    rw forward-serve (window_limit limit window ip (calls_of vs) x f (omega (arith, l)))
