-- ===== src/Worker/ThreadPool/Draining.antt =====
-- src/Worker/ThreadPool.cpp, the destructor at a moment when no worker is about to sleep.
use kv_database.Prelude.{
  ℕ, zero, suc, ◌≡◌, ◌≢◌, refl, false, some, List, [], ◌∷◌, All, All-set, All-get_elem?, get_elem?,
}
use kv_database.Worker.ThreadPool.{
  Thread, ready, committing, asleep, ended, working, ThreadPool, look_at, look, again, wake_one,
  woken, wake_all, accept_job, shut_down, IsFree, Step, accepts, looks, sleeps, wakes, finishes,
  shuts_down, Reach, here, next,
}

module _ {J : Type 0} where
  -- Before a look at the queue, in a job, or returned.
  abbrev pub IsGoing : Thread J → Type 0
  IsGoing ready = Unit
  IsGoing (working job) = Unit
  IsGoing ended = Unit
  IsGoing committing = ⊥
  IsGoing asleep = ⊥

  All-woken :
      (ts : List (Thread J))
      → ((i : ℕ) → get_elem? ts i ≢ some committing)
      → All IsGoing (wake_all ts)
  unfolding wake_all woken
  All-woken [] free = tt
  All-woken (asleep ∷ ts) free = (tt, All-woken ts (λ i. free (suc i)))
  All-woken (ready ∷ ts) free = (tt, All-woken ts (λ i. free (suc i)))
  All-woken (committing ∷ ts) free = absurd (free zero refl)
  All-woken (ended ∷ ts) free = (tt, All-woken ts (λ i. free (suc i)))
  All-woken (working job ∷ ts) free = (tt, All-woken ts (λ i. free (suc i)))

  All-wake_one : (ts : List (Thread J)) → All IsGoing ts → All IsGoing (wake_one ts)
  unfolding wake_one
  All-wake_one [] h = tt
  All-wake_one (asleep ∷ ts) h = absurd h.0
  All-wake_one (ready ∷ ts) h = (tt, All-wake_one ts h.1)
  All-wake_one (committing ∷ ts) h = absurd h.0
  All-wake_one (ended ∷ ts) h = (tt, All-wake_one ts h.1)
  All-wake_one (working job ∷ ts) h = (tt, All-wake_one ts h.1)

  All-wake_all : (ts : List (Thread J)) → All IsGoing ts → All IsGoing (wake_all ts)
  unfolding wake_all woken
  All-wake_all [] h = tt
  All-wake_all (asleep ∷ ts) h = absurd h.0
  All-wake_all (ready ∷ ts) h = (tt, All-wake_all ts h.1)
  All-wake_all (committing ∷ ts) h = absurd h.0
  All-wake_all (ended ∷ ts) h = (tt, All-wake_all ts h.1)
  All-wake_all (working job ∷ ts) h = (tt, All-wake_all ts h.1)

  -- The pool is shut down, and all its workers go on to their end.
  pub record Drains (p : ThreadPool J) : Type 0 where
    pub inactive : p.active ≡ false
    pub going : All IsGoing p.threads

  look-Drains :
      (jobs : List J) (i : ℕ) (p : ThreadPool J) → p.jobs ≡ jobs → Drains p → Drains (look i p)
  unfolding look look_at
  look-Drains [] i p e h = record {
    inactive = h.inactive;
    going = rw (e, h.inactive) (All-set IsGoing p.threads i ended tt h.going);
  }
  look-Drains (job ∷ jobs) i p e h = record {
    inactive = h.inactive;
    going = rw e (All-set IsGoing p.threads i (working job) tt h.going);
  }

  again-Drains : (i : ℕ) (p : ThreadPool J) → Drains p → Drains (again i p)
  unfolding again
  again-Drains i p h = record {
    inactive = h.inactive;
    going = All-set IsGoing p.threads i ready tt h.going;
  }

  accept_job-Drains : (job : J) (p : ThreadPool J) → Drains p → Drains (accept_job job p)
  unfolding accept_job
  accept_job-Drains job p h = record {
    inactive = h.inactive;
    going = All-wake_one p.threads h.going;
  }

  shut_down-Drains : (p : ThreadPool J) → All IsGoing (wake_all p.threads) → Drains (shut_down p)
  unfolding shut_down
  shut_down-Drains p h = record { inactive = refl; going = h }

  Step-Drains : {a b : ThreadPool J} → Step a b → Drains a → Drains b
  Step-Drains {a} (accepts job free e) h = rw e (accept_job-Drains job a h)
  Step-Drains {a} (looks i free at e) h = rw e (look-Drains a.jobs i a refl h)
  Step-Drains {a} (sleeps i at e) h =
      absurd (All-get_elem? IsGoing a.threads i committing at h.going)
  Step-Drains {a} (wakes i at e) h = rw e (again-Drains i a h)
  Step-Drains {a} (finishes i job at e) h = rw e (again-Drains i a h)
  Step-Drains {a} (shuts_down e) h = rw e (shut_down-Drains a (All-wake_all a.threads h.going))

  -- If the shutdown comes when no worker is about to sleep, then in any run after it the pool
  -- stays inactive and no worker is asleep or about to sleep: each is before its look at the
  -- queue, in a job, or has returned.
  pub Reach-Drains :
      (a : ThreadPool J) {b : ThreadPool J} → IsFree a → Reach (shut_down a) b → Drains b
  Reach-Drains a free here = shut_down-Drains a (All-woken a.threads free)
  Reach-Drains a free (next r st) = Step-Drains st (Reach-Drains a free r)
