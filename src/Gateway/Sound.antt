-- ===== src/Gateway/Sound.antt =====
-- The invariant of the gateway of internal/gateway/gateway.go, and its handlers one by one.
use routecat.Prelude.{
  Bool, List, String, [], arith, eq_iff, false, none, refl, some, str_eq, sym, true, ℕ, ◌||◌, ◌∙◌,
  ◌∷◌, ◌≡◌, ◌≤◌,
}
use routecat.Prelude.Dict.{
  Dict, KeysOnce, erase, erase-KeysOnce, insert, insert-KeysOnce, lookup, lookup-erase,
  lookup-insert,
}
use routecat.Gateway.State.{Gateway, PendingJob}
use routecat.Gateway.Slots.{
  active_jobs, active_jobs-decr, active_jobs-incr, decr_user_jobs, incr_user_jobs,
  max_concurrent_per_user,
}
use routecat.Gateway.Pending.{pending_of, pending_of-erase, pending_of-insert, pending_of-update}

abbrev pub is_closed : String → List String → Bool
is_closed id [] = false
is_closed id (c ∷ cs) = str_eq c id || is_closed id cs

-- No DoneCh is closed twice: Go would panic.
abbrev pub ClosedOnce : List String → Type 0
ClosedOnce [] = Unit
ClosedOnce (c ∷ cs) = (is_closed c cs ≡ false) × ClosedOnce cs

-- Each user's counter is the number of that user's pending jobs, and at most three; a job whose
-- channel is closed is no longer pending, and no channel has been closed twice.
pub record IsSound (pending : Dict PendingJob) (counts : Dict ℕ) (closed : List String)
    : Type 0 where
  pub once : KeysOnce pending
  pub slots : (key : String) → active_jobs key counts ≡ pending_of key pending
  pub few : (key : String) → active_jobs key counts ≤ max_concurrent_per_user
  pub gone : (id : String) → is_closed id closed ≡ true → lookup id pending ≡ none
  pub closed_once : ClosedOnce closed

abbrev pub Sound : {F : Type 0} → Gateway F → Type 0
Sound g = IsSound g.pending_jobs g.user_jobs g.closed

module _ (pending : Dict PendingJob) (counts : Dict ℕ) (closed : List String)
    (s : IsSound pending counts closed) where
  -- A job that is pending leaves the map, its channel is closed and its slot is released.
  pub retire-IsSound :
      (id : String) (job : PendingJob)
      → lookup id pending ≡ some job
      → IsSound (erase id pending) (decr_user_jobs job.user_key counts) (id ∷ closed)
  retire-IsSound id job e = record {
    once = erase-KeysOnce id pending s.once;
    slots = λ key. ground (
      arith,
      active_jobs-decr job.user_key key counts,
      pending_of-erase key id job pending s.once e,
      s.slots key,
    );
    few = λ key. ground (arith, active_jobs-decr job.user_key key counts, s.few key);
    gone = λ other h. rw lookup-erase (ground (arith, s.gone other));
    closed_once = (open_still (is_closed id closed) refl, s.closed_once);
  }
    where
      open_still : (b : Bool) → is_closed id closed ≡ b → is_closed id closed ≡ false
      open_still true h = cc (s.gone id h)
      open_still false h = h

  -- A job whose send failed leaves the map and its slot is released.
  pub forget-IsSound :
      (id : String) (job : PendingJob)
      → lookup id pending ≡ some job
      → IsSound (erase id pending) (decr_user_jobs job.user_key counts) closed
  forget-IsSound id job e = record {
    once = (retire-IsSound id job e).once;
    slots = (retire-IsSound id job e).slots;
    few = (retire-IsSound id job e).few;
    gone = λ other h. rw lookup-erase (ground (arith, s.gone other));
    closed_once = s.closed_once;
  }

  -- A job with a new id is added for a user who has a slot free.
  pub admit-IsSound :
      (id : String) (job : PendingJob)
      → lookup id pending ≡ none
      → is_closed id closed ≡ false
      → (incr_user_jobs job.user_key counts).0 ≡ true
      → IsSound (insert id job pending) (incr_user_jobs job.user_key counts).1 closed
  admit-IsSound id job e open_still granted = record {
    once = insert-KeysOnce id job pending s.once;
    slots = λ key. ground (
      arith,
      active_jobs-incr job.user_key key counts,
      pending_of-insert key id job pending e,
      s.slots key,
    );
    few = λ key.
        ground
          (arith, active_jobs-incr job.user_key key counts, eq_iff job.user_key key, s.few key);
    gone = λ other h. rw lookup-insert (ground (arith, s.gone other, eq_iff id other));
    closed_once = s.closed_once;
  }

  -- A slot that was taken is given back.
  pub give_back-IsSound :
      (key : String)
      → (incr_user_jobs key counts).0 ≡ true
      → IsSound pending (decr_user_jobs key (incr_user_jobs key counts).1) closed
  give_back-IsSound key granted = record {
    once = s.once;
    slots = λ other. ground (
      arith,
      active_jobs-decr key other (incr_user_jobs key counts).1,
      active_jobs-incr key other counts,
      s.slots other,
    );
    few = λ other. ground (
      arith,
      active_jobs-decr key other (incr_user_jobs key counts).1,
      active_jobs-incr key other counts,
      s.few other,
    );
    gone = s.gone;
    closed_once = s.closed_once;
  }

  -- An entry gets a new value for the same user.
  pub update-IsSound :
      (id : String) (job new : PendingJob)
      → lookup id pending ≡ some job
      → new.user_key ≡ job.user_key
      → IsSound (insert id new pending) counts closed
  update-IsSound id job new e same = record {
    once = insert-KeysOnce id new pending s.once;
    slots = λ key. s.slots key ∙ sym (pending_of-update key id job new pending s.once e same);
    few = s.few;
    gone = λ other h. rw lookup-insert (ground (arith, s.gone other, eq_iff id other));
    closed_once = s.closed_once;
  }
