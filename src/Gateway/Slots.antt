-- ===== src/Gateway/Slots.antt =====
-- internal/gateway/gateway.go: the number of active jobs of each user key.
use routecat.Prelude.{
  Bool, Option, String, ap, arith, eq_iff, false, if◌then◌else◌, leb, ltb, none, some, str_eq,
  str_eq_refl, true, ℕ, ◌&&◌, ◌+◌, ◌-◌, ◌==◌, ◌≡◌,
}
use routecat.Prelude.Dict.{Dict, erase, insert, lookup, lookup-erase, lookup-insert}

abbrev pub max_concurrent_per_user : ℕ
max_concurrent_per_user = 3

abbrev or_none : Option ℕ → ℕ
or_none none = 0
or_none (some n) = n

-- g.userJobs[key]: a missing key reads as 0
abbrev pub active_jobs : String → Dict ℕ → ℕ
active_jobs key d = or_none (lookup key d)

-- Whether a slot was free, and the counters.
unfoldable pub incr_user_jobs : String → Dict ℕ → Bool × Dict ℕ
incr_user_jobs key d =
    if leb max_concurrent_per_user (active_jobs key d)
    then (false, d)
    else (true, insert key (active_jobs key d + 1) d)

-- if g.userJobs[key] == 0 { delete(g.userJobs, key) }
drop_idle : String → Dict ℕ → Dict ℕ
drop_idle key d = if active_jobs key d == 0 then erase key d else d

unfoldable pub decr_user_jobs : String → Dict ℕ → Dict ℕ
unfolding drop_idle
decr_user_jobs key d =
    drop_idle key (if ltb 0 (active_jobs key d) then insert key (active_jobs key d - 1) d else d)

module _ (key other : String) (d : Dict ℕ) where
  -- A slot is taken exactly if fewer than three are, and then that key has one more and no other
  -- key changes.
  pub active_jobs-incr :
      ((incr_user_jobs key d).0 ≡ ltb (active_jobs key d) max_concurrent_per_user)
      × (active_jobs other (incr_user_jobs key d).1 ≡ (
          if str_eq key other && (incr_user_jobs key d).0
          then active_jobs other d + 1
          else active_jobs other d))
  unfolding incr_user_jobs
  active_jobs-incr = ground (
    arith,
    eq_iff key other,
    ap (λ (k : String). lookup k d) {x = key} {y = other},
    lookup-insert key other (active_jobs key d + 1) d,
  )

  -- A release gives one slot of that key back, if it holds any, and no other key changes.
  pub active_jobs-decr :
      active_jobs other (decr_user_jobs key d)
      ≡ (if str_eq key other then active_jobs other d - 1 else active_jobs other d)
  unfolding decr_user_jobs
  active_jobs-decr =
      let taken = insert key (active_jobs key d - 1) d in
      ground (
        arith,
        eq_iff key other,
        str_eq_refl key,
        lookup-insert key key (active_jobs key d - 1) d,
        lookup-insert key other (active_jobs key d - 1) d,
        lookup-erase key other taken,
        lookup-erase key other d,
      )
