-- ===== src/Worker/ThreadPool/Wakeups.antt =====
-- src/Worker/ThreadPool.cpp, `acceptJob` and the wait of the workers: no wake-up is lost while the
-- pool is active.
use kv_database.Prelude.{
  ℕ, zero, suc, ◌<◌, ◌≡◌, ◌≢◌, refl, ap, ◌⊎◌, inl, inr, Bool, true, false, List, [], ◌∷◌, arith,
  All, All-replicate, All-set, length, length-set, get_elem?, set, some, length-replicate,
}
use kv_database.Worker.ThreadPool.{
  Thread, ready, committing, asleep, ended, working, ThreadPool, new, look_at, look, sleep, again,
  wake_one, accept_job, shut_down, At, IsFree, Step, accepts, looks, sleeps, wakes, finishes,
  shuts_down, Reach, here, next,
}

module _ {J : Type 0} where
  abbrev IsOpen : Thread J → Type 0
  IsOpen ended = ⊥
  IsOpen ready = Unit
  IsOpen committing = Unit
  IsOpen asleep = Unit
  IsOpen (working job) = Unit

  -- About to look at the queue, now or after a job.
  abbrev pub IsAwake : Thread J → Type 0
  IsAwake ready = Unit
  IsAwake (working job) = Unit
  IsAwake ended = ⊥
  IsAwake committing = ⊥
  IsAwake asleep = ⊥

  abbrev pub SomeAwake : List (Thread J) → Type 0
  SomeAwake [] = ⊥
  SomeAwake (t ∷ ts) = IsAwake t ⊎ SomeAwake ts

  SomeAwake-set :
      (ts : List (Thread J)) (i : ℕ) (old t : Thread J)
      → get_elem? ts i ≡ some old
      → IsAwake t
      → SomeAwake (set ts i t)
  SomeAwake-set [] i old t at awake = absurd (ground arith)
  SomeAwake-set (u ∷ ts) zero old t at awake = inl awake
  SomeAwake-set (u ∷ ts) (suc i) old t at awake = inr (SomeAwake-set ts i old t at awake)

  -- The one that goes to sleep was not awake.
  SomeAwake-sleep :
      (ts : List (Thread J)) (i : ℕ) (t : Thread J)
      → get_elem? ts i ≡ some committing
      → SomeAwake ts
      → SomeAwake (set ts i t)
  SomeAwake-sleep [] i t at h = absurd h
  SomeAwake-sleep (u ∷ ts) zero t at (inr h) = inr h
  SomeAwake-sleep (committing ∷ ts) zero t at (inl h) = absurd h
  SomeAwake-sleep (ready ∷ ts) zero t at (inl h) = absurd (cc at)
  SomeAwake-sleep (asleep ∷ ts) zero t at (inl h) = absurd h
  SomeAwake-sleep (ended ∷ ts) zero t at (inl h) = absurd h
  SomeAwake-sleep (working job ∷ ts) zero t at (inl h) = absurd (cc at)
  SomeAwake-sleep (u ∷ ts) (suc i) t at (inl h) = inl h
  SomeAwake-sleep (u ∷ ts) (suc i) t at (inr h) = inr (SomeAwake-sleep ts i t at h)

  All-wake_one : (ts : List (Thread J)) → All IsOpen ts → All IsOpen (wake_one ts)
  unfolding wake_one
  All-wake_one [] h = tt
  All-wake_one (asleep ∷ ts) h = (tt, h.1)
  All-wake_one (ready ∷ ts) h = (tt, All-wake_one ts h.1)
  All-wake_one (committing ∷ ts) h = (tt, All-wake_one ts h.1)
  All-wake_one (ended ∷ ts) h = absurd h.0
  All-wake_one (working job ∷ ts) h = (tt, All-wake_one ts h.1)

  length-wake_one : (ts : List (Thread J)) → length (wake_one ts) ≡ length ts
  unfolding wake_one
  length-wake_one [] = refl
  length-wake_one (asleep ∷ ts) = refl
  length-wake_one (ready ∷ ts) = ap suc (length-wake_one ts)
  length-wake_one (committing ∷ ts) = ap suc (length-wake_one ts)
  length-wake_one (ended ∷ ts) = ap suc (length-wake_one ts)
  length-wake_one (working job ∷ ts) = ap suc (length-wake_one ts)

  -- Where no worker is about to sleep, `notify_one` leaves one awake.
  SomeAwake-wake_one :
      (ts : List (Thread J))
      → zero < length ts
      → All IsOpen ts
      → ((i : ℕ) → get_elem? ts i ≢ some committing)
      → SomeAwake (wake_one ts)
  unfolding wake_one
  SomeAwake-wake_one [] some_worker h free = absurd (omega (arith, some_worker))
  SomeAwake-wake_one (asleep ∷ ts) some_worker h free = inl tt
  SomeAwake-wake_one (ready ∷ ts) some_worker h free = inl tt
  SomeAwake-wake_one (committing ∷ ts) some_worker h free = absurd (free zero refl)
  SomeAwake-wake_one (ended ∷ ts) some_worker h free = absurd h.0
  SomeAwake-wake_one (working job ∷ ts) some_worker h free = inl tt

  -- The pool has workers, none has returned, and one is awake if a job waits.
  record Serves (p : ThreadPool J) : Type 0 where
    pub some_worker : zero < length p.threads
    pub all_open : All IsOpen p.threads
    pub attended : (p.jobs ≡ []) ⊎ SomeAwake p.threads

  set-Serves :
      (p : ThreadPool J) (i : ℕ) (old t : Thread J) (jobs : List J) (active : Bool)
      → At i old p
      → IsOpen t
      → Serves p
      → (jobs ≡ []) ⊎ SomeAwake (set p.threads i t)
      → Serves (record { jobs = jobs; threads = set p.threads i t; active = active })
  set-Serves p i old t jobs active at all_open h attended = record {
    some_worker = rw (length-set p.threads i t) h.some_worker;
    all_open = All-set IsOpen p.threads i t all_open h.all_open;
    attended = attended;
  }

  look-Serves :
      (jobs : List J) (i : ℕ) (p : ThreadPool J)
      → p.jobs ≡ jobs
      → p.active ≡ true
      → At i ready p
      → Serves p
      → Serves (look i p)
  unfolding look look_at
  look-Serves [] i p e active at h =
      rw (e, active) (set-Serves p i ready committing [] true at tt h (inl refl))
  look-Serves (job ∷ jobs) i p e active at h = rw e (
      set-Serves p i ready (working job) jobs p.active at tt h
        (inr (SomeAwake-set p.threads i ready (working job) at tt)))

  again-Serves :
      (i : ℕ) (old : Thread J) (p : ThreadPool J) → At i old p → Serves p → Serves (again i p)
  unfolding again
  again-Serves i old p at h =
      set-Serves p i old ready p.jobs p.active at tt h
        (inr (SomeAwake-set p.threads i old ready at tt))

  sleep-Serves : (i : ℕ) (p : ThreadPool J) → At i committing p → Serves p → Serves (sleep i p)
  unfolding sleep
  sleep-Serves i p at h =
      set-Serves p i committing asleep p.jobs p.active at tt h (elim h.attended [
        | inl none_waits ↦ inl none_waits
        | inr awake ↦ inr (SomeAwake-sleep p.threads i asleep at awake)
      ])

  accept_job-Serves : (job : J) (p : ThreadPool J) → IsFree p → Serves p → Serves (accept_job job p)
  unfolding accept_job
  accept_job-Serves job p free h = record {
    some_worker = rw (length-wake_one p.threads) h.some_worker;
    all_open = All-wake_one p.threads h.all_open;
    attended = inr (SomeAwake-wake_one p.threads h.some_worker h.all_open free);
  }

  shut_down-active : (a b : ThreadPool J) → b ≡ shut_down a → b.active ≢ true
  unfolding shut_down
  shut_down-active a b e active = let h : false ≡ true = rw e at active in absurd (cc h)

  -- A pool that is active after a step was active before it.
  Step-active : {a b : ThreadPool J} → Step a b → b.active ≡ true → a.active ≡ true
  unfolding accept_job look sleep again shut_down
  Step-active (accepts job free e) active = rw e at active
  Step-active (looks i free at e) active = rw e at active
  Step-active (sleeps i at e) active = rw e at active
  Step-active (wakes i at e) active = rw e at active
  Step-active (finishes i job at e) active = rw e at active
  Step-active {a} {b} (shuts_down e) active = absurd (shut_down-active a b e active)

  Step-Serves : {a b : ThreadPool J} → Step a b → b.active ≡ true → Serves a → Serves b
  Step-Serves {a} (accepts job free e) active h = rw e (accept_job-Serves job a free h)
  Step-Serves {a} (looks i free at e) active h =
      rw e (look-Serves a.jobs i a refl (Step-active (looks i free at e) active) at h)
  Step-Serves {a} (sleeps i at e) active h = rw e (sleep-Serves i a at h)
  Step-Serves {a} (wakes i at e) active h = rw e (again-Serves i asleep a at h)
  Step-Serves {a} (finishes i job at e) active h = rw e (again-Serves i (working job) a at h)
  Step-Serves {a} {b} (shuts_down e) active h = absurd (shut_down-active a b e active)

  Reach-Serves : {a b : ThreadPool J} → Reach a b → b.active ≡ true → Serves a → Serves b
  Reach-Serves here active h = h
  Reach-Serves (next r st) active h =
      Step-Serves st active (Reach-Serves r (Step-active st active) h)

  -- In any run of a new pool with workers, as long as it is active, some worker is awake, that is
  -- before its look at the queue or in a job, whenever a job waits: no wake-up of acceptJob is
  -- lost.
  pub Reach-awake :
      (size : ℕ) {b : ThreadPool J}
      → zero < size
      → Reach (new size) b
      → b.active ≡ true
      → b.jobs ≢ []
      → SomeAwake b.threads
  unfolding new
  Reach-awake size {b} some_worker r active waits =
      let h = Reach-Serves r active (record {
        some_worker = rw (length-replicate {A = Thread J} size ready) some_worker;
        all_open = All-replicate IsOpen size ready tt;
        attended = inl refl;
      }) in
      elim h.attended [ inl e ↦ absurd (waits e) | inr awake ↦ awake ]
