-- ===== src/Store/Audit.antt =====
-- Proofs about the public log of internal/store/sqlite.go.
use routecat.Prelude.{
  All, Any, Bool-cases, List, [], ap, arith, filter, inl, inr, leb, length, map, refl, suc, take,
  true, zero, ℕ, ◌∷◌, ◌≡◌, ◌≤◌,
}
use routecat.Store.Tables.{Job, Tables}
use routecat.Store.Sql.{Result, err, ok}
use routecat.Store.Ensures.{Ensures, Ensures-read}
use routecat.Store.Jobs.{AuditJob, anonymise, insert_latest, is_complete, latest_first, recent_jobs}

-- The latest first.
abbrev pub Latest : List AuditJob → Type 0
Latest [] = Unit
Latest (r ∷ rs) = All (λ s. s.timestamp ≤ r.timestamp) rs × Latest rs

-- The row of a completed job, which names no user and no node.
abbrev pub IsAudited : Tables → AuditJob → Type 0
IsAudited t r = Any (λ j. (r ≡ anonymise j) × (is_complete j.status ≡ true)) t.jobs

abbrev LatestJobs : List Job → Type 0
LatestJobs [] = Unit
LatestJobs (j ∷ js) = All (λ k. k.started_at ≤ j.started_at) js × LatestJobs js

All-insert_latest :
    (P : Job → Type 0) (j : Job) (js : List Job) → P j → All P js → All P (insert_latest j js)
unfolding insert_latest
All-insert_latest P j [] p ps = (p, tt)
All-insert_latest P j (x ∷ xs) p ps = elim (Bool-cases (leb x.started_at j.started_at)) [
  | inl e ↦ rw e (p, ps)
  | inr e ↦ rw e (ps.0, All-insert_latest P j xs p ps.1)
]

All-latest_first : (P : Job → Type 0) (js : List Job) → All P js → All P (latest_first js)
unfolding latest_first
All-latest_first P [] ps = tt
All-latest_first P (j ∷ js) ps =
    All-insert_latest P j (latest_first js) ps.0 (All-latest_first P js ps.1)

below :
    (a b : ℕ) (js : List Job)
    → a ≤ b
    → All (λ k. k.started_at ≤ a) js
    → All (λ k. k.started_at ≤ b) js
below a b [] le h = tt
below a b (j ∷ js) le h = (omega (arith, h.0), below a b js le h.1)

insert_latest-LatestJobs :
    (j : Job) (js : List Job) → LatestJobs js → LatestJobs (insert_latest j js)
unfolding insert_latest
insert_latest-LatestJobs j [] h = (tt, tt)
insert_latest-LatestJobs j (x ∷ xs) h = elim (Bool-cases (leb x.started_at j.started_at)) [
  | inl e ↦ rw e ((ground arith, below x.started_at j.started_at xs (ground arith) h.0), h)
  | inr e ↦ rw e (
    All-insert_latest (λ k. k.started_at ≤ x.started_at) j xs (ground arith) h.0,
    insert_latest-LatestJobs j xs h.1,
  )
]

latest_first-LatestJobs : (js : List Job) → LatestJobs (latest_first js)
unfolding latest_first
latest_first-LatestJobs [] = tt
latest_first-LatestJobs (j ∷ js) =
    insert_latest-LatestJobs j (latest_first js) (latest_first-LatestJobs js)

All-take : {A : Type 0} (P : A → Type 0) (n : ℕ) (xs : List A) → All P xs → All P (take n xs)
All-take P zero xs h = tt
All-take P (suc n) [] h = tt
All-take P (suc n) (x ∷ xs) h = (h.0, All-take P n xs h.1)

length-take-le : {A : Type 0} (n : ℕ) (xs : List A) → length (take n xs) ≤ n
length-take-le zero xs = omega arith
length-take-le (suc n) [] = omega arith
length-take-le (suc n) (x ∷ xs) = omega (arith, length-take-le n xs)

take-LatestJobs : (n : ℕ) (js : List Job) → LatestJobs js → LatestJobs (take n js)
take-LatestJobs zero js h = tt
take-LatestJobs (suc n) [] h = tt
take-LatestJobs (suc n) (j ∷ js) h = (All-take _ n js h.0, take-LatestJobs n js h.1)

All-map :
    {A B : Type 0} (P : B → Type 0) (f : A → B) (xs : List A)
    → All (λ x. P (f x)) xs
    → All P (map f xs)
All-map P f [] h = tt
All-map P f (x ∷ xs) h = (h.0, All-map P f xs h.1)

anonymise-Latest : (js : List Job) → LatestJobs js → Latest (map anonymise js)
anonymise-Latest [] h = tt
anonymise-Latest (j ∷ js) h =
    (All-map (λ s. s.timestamp ≤ j.started_at) anonymise js h.0, anonymise-Latest js h.1)

completed-IsAudited :
    (t : Tables) (js : List Job)
    → ((r : AuditJob)
        → Any (λ j. (r ≡ anonymise j) × (is_complete j.status ≡ true)) js
        → IsAudited t r)
    → All (λ j. IsAudited t (anonymise j)) (filter (λ j. is_complete j.status) js)
unfolding filter
completed-IsAudited t [] sub = tt
completed-IsAudited t (j ∷ js) sub = elim (Bool-cases (is_complete j.status)) [
  | inl e ↦
      rw e
        (sub (anonymise j) (inl (refl, e)), completed-IsAudited t js (λ r there. sub r (inr there)))
  | inr e ↦ rw e (completed-IsAudited t js (λ r there. sub r (inr there)))
]

length-map : {A B : Type 0} (f : A → B) (xs : List A) → length (map f xs) ≡ length xs
length-map f [] = refl
length-map f (x ∷ xs) = ap suc (length-map f xs)

-- The log has at most as many rows as asked for, the latest first, and each is the row of a completed
-- job of the table.
abbrev pub Audited : ℕ → Tables → Result (List AuditJob) → Type 0
Audited limit t (err e) = Unit
Audited limit t (ok rows) = (length rows ≤ limit) × Latest rows × All (IsAudited t) rows

-- What the public log shows, whether the query fails or not: at most `limit` rows, the latest first,
-- each of a completed job of the table, without the keys of users and the ids of nodes.
pub recent_jobs-Audited :
    (limit : ℕ) (t : Tables) → Ensures (recent_jobs limit) t (λ r u. Audited limit t r × (u ≡ t))
unfolding recent_jobs
recent_jobs-Audited limit t =
    let done = filter (λ j. is_complete j.status) t.jobs in
    let shown = take limit (latest_first done) in
    Ensures-read _ (tt, refl)
      (
        (
          rw length-map (length-take-le limit (latest_first done)),
          anonymise-Latest shown (take-LatestJobs limit _ (latest_first-LatestJobs done)),
          All-map (IsAudited t) anonymise shown (
              All-take _ limit _
                (All-latest_first _ done (completed-IsAudited t t.jobs (λ r there. there)))),
        ),
        refl,
      )
