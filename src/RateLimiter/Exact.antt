-- ===== src/RateLimiter/Exact.antt =====
-- The invariant of the rate limiter of internal/gateway/middleware.go: its stored times show the
-- recent ones of all allowed requests.
use routecat.Prelude.{
  Bool, Bool-cases, List, Option, Option-cases, String, [], ap, arith, count-le-length, eq_iff,
  false, filter, filter-append, filter-filter, if◌then◌else◌, inl, inr, leb, length, length-append,
  length-filter, none, refl, some, str_eq, str_eq_refl, true, ℕ, ◌++◌, ◌<◌, ◌∙◌, ◌∷◌, ◌≡◌, ◌≤◌,
}
use routecat.Prelude.Dict.{Dict, KeysOnce, insert, insert-KeysOnce, lookup, lookup-insert}
use routecat.RateLimiter.{RateLimiter, allow, cleanup, is_recent, sweep, valid_requests}
use routecat.RateLimiter.History.{Call, asks, cleans, is_granted, respond}

abbrev pub or_nil : Option (List ℕ) → List ℕ
or_nil none = []
or_nil (some reqs) = reqs

abbrev pub stored : String → RateLimiter → List ℕ
stored ip rl = or_nil (lookup ip rl.requests)

-- At every time from `t` on, the stored times of `ip` show the same recent requests as all of its
-- allowed ones, and there are at most `limit` of them.
pub record IsExact (ip : String) (t : ℕ) (granted : List ℕ) (rl : RateLimiter) : Type 0 where
  pub once : KeysOnce rl.requests
  pub same :
      (x : ℕ)
      → t ≤ x
      → filter (is_recent rl.window x) (stored ip rl) ≡ filter (is_recent rl.window x) granted
  pub few : length (stored ip rl) ≤ rl.limit

is_recent_mono :
    (window now x t : ℕ) → now ≤ x → is_recent window x t ≡ true → is_recent window now t ≡ true
is_recent_mono window now x t le h = ground arith

pub valid-filter :
    (ip : String) (rl : RateLimiter) (now : ℕ)
    → valid_requests rl.window now (lookup ip rl.requests)
      ≡ filter (is_recent rl.window now) (stored ip rl)
unfolding valid_requests filter
valid-filter ip rl now = elim (Option-cases (lookup ip rl.requests)) [
  | inl e ↦ ground arith
  | inr (reqs, e) ↦ ground arith
]

refilter :
    (window now x : ℕ) (ts : List ℕ)
    → now ≤ x
    → filter (is_recent window x) (filter (is_recent window now) ts)
      ≡ filter (is_recent window x) ts
refilter window now x ts le =
    filter-filter (is_recent window now) (is_recent window x)
      (λ t. is_recent_mono window now x t le) ts

lookup-sweep-none :
    (window now : ℕ) (ip : String) (d : Dict (List ℕ))
    → lookup ip d ≡ none
    → lookup ip (sweep window now d) ≡ none
unfolding sweep lookup
lookup-sweep-none window now ip [] e = refl
lookup-sweep-none window now ip ((j, reqs) ∷ d) e =
    ground (arith, lookup-sweep-none window now ip d)

sweep-KeysOnce : (window now : ℕ) (d : Dict (List ℕ)) → KeysOnce d → KeysOnce (sweep window now d)
unfolding sweep
sweep-KeysOnce window now [] h = tt
sweep-KeysOnce window now ((j, reqs) ∷ d) h =
    ground (arith, sweep-KeysOnce window now d h.1, lookup-sweep-none window now j d)

-- The cleanup leaves of each address what its next request would keep.
or_nil-sweep :
    (window now : ℕ) (ip : String) (d : Dict (List ℕ))
    → KeysOnce d
    → or_nil (lookup ip (sweep window now d)) ≡ filter (is_recent window now) (or_nil (lookup ip d))
unfolding sweep lookup filter
or_nil-sweep window now ip [] h = refl
or_nil-sweep window now ip ((j, reqs) ∷ d) h =
    ground (arith, or_nil-sweep window now ip d h.1, lookup-sweep-none window now ip d, eq_iff j ip)

pub length-filter-le : (p : ℕ → Bool) (ts : List ℕ) → length (filter p ts) ≤ length ts
length-filter-le p ts = omega (arith, length-filter p ts, count-le-length p ts)

module _ (ip : String) (t now : ℕ) (granted : List ℕ) (rl : RateLimiter) (le : t ≤ now) where
  -- A write of another address's entry.
  other-IsExact :
      (other : String) (reqs : List ℕ)
      → str_eq other ip ≡ false
      → IsExact ip t granted rl
      → IsExact ip now granted (record rl { requests = insert other reqs rl.requests })
  other-IsExact other reqs ne h = record {
    once = insert-KeysOnce other reqs rl.requests h.once;
    same = λ x lx. rw (lookup-insert, ne) (h.same x (omega arith));
    few = rw (lookup-insert, ne) h.few;
  }

  -- A refused request leaves the recent times.
  refused-IsExact :
      IsExact ip t granted rl
      → IsExact ip now granted (record rl {
        requests = insert ip (filter (is_recent rl.window now) (stored ip rl)) rl.requests;
      })
  refused-IsExact h = record {
    once = insert-KeysOnce ip _ rl.requests h.once;
    same = λ x lx.
        rw (lookup-insert, str_eq_refl ip)
          (refilter rl.window now x (stored ip rl) lx ∙ h.same x (omega arith));
    few =
        rw (lookup-insert, str_eq_refl ip)
          (omega (arith, length-filter-le (is_recent rl.window now) (stored ip rl), h.few));
  }

  -- An allowed one adds its own.
  allowed-IsExact :
      IsExact ip t granted rl
      → length (filter (is_recent rl.window now) (stored ip rl)) < rl.limit
      → IsExact ip now (granted ++ now ∷ []) (record rl {
        requests =
            insert ip (filter (is_recent rl.window now) (stored ip rl) ++ now ∷ []) rl.requests;
      })
  allowed-IsExact h room = record {
    once = insert-KeysOnce ip _ rl.requests h.once;
    same = λ x lx.
        rw (lookup-insert, str_eq_refl ip)
          (rw
            (
              filter-append (is_recent rl.window x)
                  (filter (is_recent rl.window now) (stored ip rl)) (now ∷ []),
              filter-append (is_recent rl.window x) granted (now ∷ []),
            )
            (ap (λ (ts : List ℕ). ts ++ filter (is_recent rl.window x) (now ∷ []))
              (refilter rl.window now x (stored ip rl) lx ∙ h.same x (omega arith))));
    few = rw (lookup-insert, str_eq_refl ip) (rw length-append (omega arith));
  }

  cleaned-IsExact : IsExact ip t granted rl → IsExact ip now granted (cleanup rl now)
  unfolding cleanup
  cleaned-IsExact h = record {
    once = sweep-KeysOnce rl.window now rl.requests h.once;
    same = λ x lx.
        rw (or_nil-sweep rl.window now ip rl.requests h.once)
          (refilter rl.window now x (stored ip rl) lx ∙ h.same x (omega arith));
    few =
        rw (or_nil-sweep rl.window now ip rl.requests h.once)
          (omega (arith, length-filter-le (is_recent rl.window now) (stored ip rl), h.few));
  }

  pub respond-IsExact :
      (c : Call)
      → IsExact ip t granted rl
      → let (answer, rl') = respond rl (now, c) in
        IsExact ip now (if is_granted ip c answer then granted ++ now ∷ [] else granted) rl'
  unfolding allow
  respond-IsExact cleans h = cleaned-IsExact h
  respond-IsExact (asks other) h = elim (Bool-cases (str_eq other ip)) [
    | inr ne ↦
        elim (Bool-cases
          (leb rl.limit (length (valid_requests rl.window now (lookup other rl.requests))))) [
            | inl full ↦ rw (ne, full) (other-IsExact other _ ne h)
            | inr room ↦ rw (ne, room) (other-IsExact other _ ne h)
          ]
    | inl eq ↦
        let named : other ≡ ip = (eq_iff other ip).0 eq in
        rw named
          (elim (Bool-cases
            (leb rl.limit (length (filter (is_recent rl.window now) (stored ip rl))))) [
              | inl full ↦ rw (str_eq_refl ip, valid-filter ip rl now, full) (refused-IsExact h)
              | inr room ↦
                  rw (str_eq_refl ip, valid-filter ip rl now, room)
                    (allowed-IsExact h (ground arith))
            ])
  ]
