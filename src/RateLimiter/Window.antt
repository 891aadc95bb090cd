-- ===== src/RateLimiter/Window.antt =====
-- What the rate limiter of internal/gateway/middleware.go promises over histories of calls.
use routecat.Prelude.{
  List, String, [], ap, arith, count, if◌then◌else◌, leb, length, length-filter, not, refl, str_eq,
  ℕ, ◌&&◌, ◌++◌, ◌∙◌, ◌∷◌, ◌≡◌, ◌≤◌,
}
use routecat.Prelude.Dict.{lookup}
use routecat.RateLimiter.{RateLimiter, allow, cleanup, is_recent}
use routecat.RateLimiter.History.{Call, Forward, asks, cleans, last_time, serve}
use routecat.RateLimiter.Exact.{IsExact, length-filter-le, respond-IsExact, stored, valid-filter}

serve-IsExact :
    (ip : String) (cs : List (ℕ × Call)) (t : ℕ) (granted : List ℕ) (rl : RateLimiter)
    → Forward t cs
    → IsExact ip t granted rl
    → let (granted', rl') = serve ip cs granted rl in IsExact ip (last_time t cs) granted' rl'
unfolding serve
serve-IsExact ip [] t granted rl f h = h
serve-IsExact ip ((now, c) ∷ cs) t granted rl f h =
    serve-IsExact ip cs now _ _ f.1 (respond-IsExact ip t now granted rl f.0 c h)

abbrev pub fresh : ℕ → ℕ → RateLimiter
fresh limit window = record { requests = []; limit = limit; window = window }

fixed :
    (ip : String) (cs : List (ℕ × Call)) (granted : List ℕ) (rl : RateLimiter)
    → ((serve ip cs granted rl).1.limit ≡ rl.limit)
      × ((serve ip cs granted rl).1.window ≡ rl.window)
unfolding serve allow cleanup
fixed ip [] granted rl = (refl, refl)
fixed ip ((now, cleans) ∷ cs) granted rl = fixed ip cs granted (cleanup rl now)
fixed ip ((now, asks other) ∷ cs) granted rl =
    let rest =
      fixed ip cs
        (if str_eq other ip && (allow rl other now).0 then granted ++ now ∷ [] else granted)
        (allow rl other now).1 in
    (rest.0 ∙ ground arith, rest.1 ∙ ground arith)

fresh-IsExact :
    (limit window : ℕ) (ip : String) (cs : List (ℕ × Call))
    → Forward 0 cs
    → let (granted, rl) = serve ip cs [] (fresh limit window) in
      IsExact ip (last_time 0 cs) granted rl
unfolding lookup
fresh-IsExact limit window ip cs f =
    serve-IsExact ip cs 0 [] (fresh limit window) f
      (record { once = tt; same = λ y ly. refl; few = omega arith })

allow-granted :
    (ip : String) (t now : ℕ) (granted : List ℕ) (rl : RateLimiter)
    → IsExact ip t granted rl
    → t ≤ now
    → (allow rl ip now).0 ≡ not (leb rl.limit (count (is_recent rl.window now) granted))
unfolding allow
allow-granted ip t now granted rl h le = ground (
  arith,
  ap length (valid-filter ip rl now),
  ap length (h.same now le),
  length-filter (is_recent rl.window now) granted,
)

few_granted :
    (ip : String) (t x : ℕ) (granted : List ℕ) (rl : RateLimiter)
    → IsExact ip t granted rl
    → t ≤ x
    → count (is_recent rl.window x) granted ≤ rl.limit
few_granted ip t x granted rl h le = omega (
  arith,
  length-filter (is_recent rl.window x) granted,
  ap length (h.same x le),
  length-filter-le (is_recent rl.window x) (stored ip rl),
  h.few,
)

-- From a new limiter, after any history whose times do not fall, and for each address: of all its
-- requests allowed so far, at most `limit` lie in the window that ends at any time from now on.
pub window_limit :
    (limit window : ℕ) (ip : String) (cs : List (ℕ × Call)) (x : ℕ)
    → Forward 0 cs
    → last_time 0 cs ≤ x
    → count (is_recent window x) (serve ip cs [] (fresh limit window)).0 ≤ limit
unfolding lookup
window_limit limit window ip cs x f later =
    let start = fresh limit window in
    let h =
      serve-IsExact ip cs 0 [] start f
        (record { once = tt; same = λ y ly. refl; few = omega arith }) in
    let (same_limit, same_window) = fixed ip cs [] start in
    rw same_window at (rw same_limit at (few_granted ip _ x _ _ h later))

-- From a new limiter, after any history whose times do not fall, a request is allowed exactly if fewer
-- than `limit` of the allowed requests of its address lie in the window that ends at it.
pub allow_exact :
    (limit window : ℕ) (ip : String) (cs : List (ℕ × Call)) (now : ℕ)
    → Forward 0 cs
    → last_time 0 cs ≤ now
    → let (granted, rl) = serve ip cs [] (fresh limit window) in
      (allow rl ip now).0 ≡ not (leb limit (count (is_recent window now) granted))
allow_exact limit window ip cs now f later =
    let start = fresh limit window in
    let h = fresh-IsExact limit window ip cs f in
    let (same_limit, same_window) = fixed ip cs [] start in
    rw same_window at (rw same_limit at (allow-granted ip _ now _ _ h later))
