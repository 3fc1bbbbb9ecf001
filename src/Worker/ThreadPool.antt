-- ===== src/Worker/ThreadPool.antt =====
-- src/Worker/ThreadPool.h and ThreadPool.cpp: the queue of jobs, its worker threads and their
-- shutdown. A worker that has found nothing to do still holds the mutex until `cv.wait` puts it to
-- sleep, so it has a state of its own, `committing`. The destructor does not take the mutex, and
-- its change of `active` and its `notify_all` are one step. A job that throws a `std::exception`
-- ends like one that returns.
pub mod Queue
pub mod Shutdown
pub mod Wakeups
pub mod Draining
use kv_database.Prelude.{
  ℕ, zero, suc, ◌≡◌, ◌≢◌, Bool, true, false, Option, none, some, List, [], ◌∷◌, ◌++◌, if◌then◌else◌,
  get_elem?, set, replicate,
}

-- Where a worker is: before the lock, about to sleep, asleep, in a job, or returned.
pub data Thread (J : Type 0) : Type 0 where
  ready committing asleep ended : Thread J
  working : J → Thread J

-- How a worker alone ends: asleep on the condition variable, or returned. The last one is not of the
-- program: the model has used up its fuel.
pub data WorkerEnd : Type 0 where
  at_rest returned unfinished : WorkerEnd

pub record ThreadPool (J : Type 0) : Type 0 where
  pub jobs : List J
  pub threads : List (Thread J)
  pub active : Bool

module _ {J : Type 0} where
  unfoldable pub new : ℕ → ThreadPool J
  new size = record { jobs = []; threads = replicate size ready; active = true }

  -- What a worker does that has the lock: it takes the first job, returns, or goes to sleep.
  unfoldable pub look_at : List J → Bool → Thread J × List J
  look_at [] active = (if active then committing else ended, [])
  look_at (job ∷ jobs) active = (working job, jobs)

  unfoldable pub look : ℕ → ThreadPool J → ThreadPool J
  unfolding look_at
  look i p =
      let (t, jobs) = look_at p.jobs p.active in
      record p { jobs = jobs; threads = set p.threads i t }

  unfoldable pub sleep : ℕ → ThreadPool J → ThreadPool J
  sleep i p = record p { threads = set p.threads i asleep }

  -- The end of a job, and the end of a sleep.
  unfoldable pub again : ℕ → ThreadPool J → ThreadPool J
  again i p = record p { threads = set p.threads i ready }

  -- `notify_one` wakes the first sleeper; the standard leaves the choice open.
  unfoldable pub wake_one : List (Thread J) → List (Thread J)
  wake_one [] = []
  wake_one (asleep ∷ ts) = ready ∷ ts
  wake_one (ready ∷ ts) = ready ∷ wake_one ts
  wake_one (committing ∷ ts) = committing ∷ wake_one ts
  wake_one (ended ∷ ts) = ended ∷ wake_one ts
  wake_one (working job ∷ ts) = working job ∷ wake_one ts

  unfoldable pub woken : Thread J → Thread J
  woken asleep = ready
  woken ready = ready
  woken committing = committing
  woken ended = ended
  woken (working job) = working job

  -- `notify_all`.
  unfoldable pub wake_all : List (Thread J) → List (Thread J)
  unfolding woken
  wake_all [] = []
  wake_all (t ∷ ts) = woken t ∷ wake_all ts

  unfoldable pub accept_job : J → ThreadPool J → ThreadPool J
  unfolding wake_one
  accept_job job p = record p { jobs = p.jobs ++ job ∷ []; threads = wake_one p.threads }

  -- The destructor, up to the joins.
  unfoldable pub shut_down : ThreadPool J → ThreadPool J
  unfolding wake_all
  shut_down p = record p { active = false; threads = wake_all p.threads }

  abbrev pub At : ℕ → Thread J → ThreadPool J → Type 0
  At i t p = get_elem? p.threads i ≡ some t

  -- Nobody holds the mutex.
  abbrev pub IsFree : ThreadPool J → Type 0
  IsFree p = (i : ℕ) → get_elem? p.threads i ≢ some committing

  pub data Step (a b : ThreadPool J) : Type 0 where
    accepts : (job : J) → IsFree a → b ≡ accept_job job a → Step a b
    looks : (i : ℕ) → IsFree a → At i ready a → b ≡ look i a → Step a b
    sleeps : (i : ℕ) → At i committing a → b ≡ sleep i a → Step a b
    -- perhaps for no reason
    wakes : (i : ℕ) → At i asleep a → b ≡ again i a → Step a b
    finishes : (i : ℕ) (job : J) → At i (working job) a → b ≡ again i a → Step a b
    shuts_down : b ≡ shut_down a → Step a b

  pub data Reach (a : ThreadPool J) : ThreadPool J → Type 0 where
    here : Reach a a
    next : {b c : ThreadPool J} → Reach a b → Step b c → Reach a c

  -- A worker alone with the queue: the jobs that it runs, and how it ends.
  unfoldable pub run_worker : ℕ → List J → Bool → List J × WorkerEnd
  run_worker zero jobs active = ([], unfinished)
  run_worker (suc fuel) [] active = ([], if active then at_rest else returned)
  run_worker (suc fuel) (job ∷ jobs) active =
      let (done, ending) = run_worker fuel jobs active in (job ∷ done, ending)
