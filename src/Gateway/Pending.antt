-- ===== src/Gateway/Pending.antt =====
-- Lemmas about the map of pending jobs of internal/gateway/gateway.go: how many jobs of a user it
-- holds, under each update.
use routecat.Prelude.{
  Bool, Bool-cases, String, [], arith, eq_iff, false, filter, inl, inr, none, refl, some, str_eq,
  true, ℕ, ◌+◌, ◌∷◌, ◌≡◌, ◌⊎◌,
}
use routecat.Prelude.Dict.{Dict, KeysOnce, erase, insert, lookup}
use routecat.Gateway.State.{PendingJob}
use routecat.Gateway.Expiry.{expired_jobs, live_jobs}

abbrev pub one_if : Bool → ℕ
one_if true = 1
one_if false = 0

-- The pending jobs of a user key.
abbrev pub pending_of : String → Dict PendingJob → ℕ
pending_of key [] = 0
pending_of key ((id, job) ∷ jobs) = one_if (str_eq job.user_key key) + pending_of key jobs

pub pending_of-erase-none :
    (key id : String) (d : Dict PendingJob)
    → lookup id d ≡ none
    → pending_of key (erase id d) ≡ pending_of key d
unfolding lookup erase
pending_of-erase-none key id [] e = refl
pending_of-erase-none key id ((j, x) ∷ d) e = ground (arith, pending_of-erase-none key id d)

pub pending_of-erase :
    (key id : String) (job : PendingJob) (d : Dict PendingJob)
    → KeysOnce d
    → lookup id d ≡ some job
    → pending_of key d ≡ one_if (str_eq job.user_key key) + pending_of key (erase id d)
unfolding lookup erase
pending_of-erase key id job [] u e = cc
pending_of-erase key id job ((j, x) ∷ d) u e = elim (Bool-cases (str_eq j id)) [
  | inl hit ↦
      let same : j ≡ id = (eq_iff j id).0 hit in
      let it : x ≡ job = ground arith in
      rw (hit, it) (ground (arith, pending_of-erase-none key id d (rw (← same) u.0)))
  | inr miss ↦ rw miss (ground (arith, pending_of-erase key id job d u.1))
]

pub pending_of-insert :
    (key id : String) (job : PendingJob) (d : Dict PendingJob)
    → lookup id d ≡ none
    → pending_of key (insert id job d) ≡ one_if (str_eq job.user_key key) + pending_of key d
unfolding insert
pending_of-insert key id job d e = ground (arith, pending_of-erase-none key id d e)

-- A new value of an entry for the same user.
pub pending_of-update :
    (key id : String) (job new : PendingJob) (d : Dict PendingJob)
    → KeysOnce d
    → lookup id d ≡ some job
    → new.user_key ≡ job.user_key
    → pending_of key (insert id new d) ≡ pending_of key d
unfolding insert
pending_of-update key id job new d u e same = ground (arith, pending_of-erase key id job d u e)

pub pending_of-split :
    (key : String) (now : ℕ) (d : Dict PendingJob)
    → pending_of key d ≡ pending_of key (expired_jobs now d) + pending_of key (live_jobs now d)
unfolding expired_jobs live_jobs filter
pending_of-split key now [] = refl
pending_of-split key now ((j, x) ∷ d) = ground (arith, pending_of-split key now d)

pub lookup-live_none :
    (id : String) (now : ℕ) (d : Dict PendingJob)
    → lookup id d ≡ none
    → lookup id (live_jobs now d) ≡ none
unfolding live_jobs lookup filter
lookup-live_none id now [] e = refl
lookup-live_none id now ((j, x) ∷ d) e = ground (arith, lookup-live_none id now d)

pub live_jobs-KeysOnce : (now : ℕ) (d : Dict PendingJob) → KeysOnce d → KeysOnce (live_jobs now d)
unfolding live_jobs filter
live_jobs-KeysOnce now [] u = tt
live_jobs-KeysOnce now ((j, x) ∷ d) u =
    ground (arith, live_jobs-KeysOnce now d u.1, lookup-live_none j now d)

pub lookup-expired_none :
    (id : String) (now : ℕ) (d : Dict PendingJob)
    → lookup id d ≡ none
    → lookup id (expired_jobs now d) ≡ none
unfolding expired_jobs lookup filter
lookup-expired_none id now [] e = refl
lookup-expired_none id now ((j, x) ∷ d) e = ground (arith, lookup-expired_none id now d)

pub expired_jobs-KeysOnce :
    (now : ℕ) (d : Dict PendingJob) → KeysOnce d → KeysOnce (expired_jobs now d)
unfolding expired_jobs filter
expired_jobs-KeysOnce now [] u = tt
expired_jobs-KeysOnce now ((j, x) ∷ d) u =
    ground (arith, expired_jobs-KeysOnce now d u.1, lookup-expired_none j now d)

-- An id is not both expired and live.
pub expired-not-live :
    (id : String) (now : ℕ) (d : Dict PendingJob)
    → KeysOnce d
    → (lookup id (expired_jobs now d) ≡ none) ⊎ (lookup id (live_jobs now d) ≡ none)
unfolding expired_jobs live_jobs lookup filter
expired-not-live id now [] u = inl refl
expired-not-live id now ((j, x) ∷ d) u = ground (
  arith,
  eq_iff j id,
  expired-not-live id now d u.1,
  lookup-expired_none id now d,
  lookup-live_none id now d,
)
