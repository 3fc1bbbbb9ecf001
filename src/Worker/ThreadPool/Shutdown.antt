-- ===== src/Worker/ThreadPool/Shutdown.antt =====
-- src/Worker/ThreadPool.cpp, the destructor: what the workers still do, and whom it wakes.
use mathlib.Core.Option.{some-injective}
use kv_database.Prelude.{
  ◌≢◌, sym, ap, ◌∙◌, if◌then◌else◌, set, get_elem?-set_other, ℕ, zero, suc, ◌<◌, ◌≡◌, refl, Bool,
  true, false, some, List, [], ◌∷◌, arith, get_elem?, get_elem?-set, length,
}
use kv_database.Worker.ThreadPool.{
  Thread, ready, committing, asleep, working, ThreadPool, woken, wake_all, shut_down, look, sleep,
  again, At, at_rest, returned, run_worker, Step, accepts, looks, sleeps, wakes, finishes,
  shuts_down, Reach, here, next,
}

module _ {J : Type 0} where
  -- With more fuel than jobs a worker alone runs all waiting jobs in order, and then returns if
  -- the pool was shut down and sleeps on the condition variable if not.
  pub run_worker-drains :
      (fuel : ℕ) (jobs : List J) (active : Bool)
      → length jobs < fuel
      → run_worker fuel jobs active ≡ (jobs, if active then at_rest else returned)
  unfolding run_worker
  run_worker-drains zero jobs active h = absurd (omega arith)
  run_worker-drains (suc fuel) [] true h = refl
  run_worker-drains (suc fuel) [] false h = refl
  run_worker-drains (suc fuel) (job ∷ jobs) active h =
      rw (run_worker-drains fuel jobs active (omega arith))

  get_elem?-wake_all :
      (ts : List (Thread J)) (i : ℕ) (t : Thread J)
      → get_elem? ts i ≡ some t
      → get_elem? (wake_all ts) i ≡ some (woken t)
  unfolding wake_all
  get_elem?-wake_all [] i t h = ground arith
  get_elem?-wake_all (u ∷ ts) zero t h = ground arith
  get_elem?-wake_all (u ∷ ts) (suc i) t h = get_elem?-wake_all ts i t h

  -- What the workers do by themselves: no new job, no wake-up without a reason, no second shutdown.
  abbrev pub IsOwn : {a b : ThreadPool J} → Step a b → Type 0
  IsOwn (accepts job free e) = ⊥
  IsOwn (looks i free t e) = Unit
  IsOwn (sleeps i t e) = Unit
  IsOwn (wakes i t e) = ⊥
  IsOwn (finishes i job t e) = Unit
  IsOwn (shuts_down e) = ⊥

  abbrev pub AreOwn : {a b : ThreadPool J} → Reach a b → Type 0
  AreOwn here = Unit
  AreOwn (next r st) = AreOwn r × IsOwn st

  -- A worker sleeps in a pool that is shut down.
  record IsLost (j : ℕ) (p : ThreadPool J) : Type 0 where
    asleep : At j asleep p
    inactive : p.active ≡ false

  set-IsLost :
      (j i : ℕ) (p : ThreadPool J) (jobs : List J) (old t : Thread J)
      → IsLost j p
      → At i old p
      → old ≢ asleep
      → IsLost j (record p { jobs = jobs; threads = set p.threads i t })
  set-IsLost j i p jobs old t h at other = record {
    asleep =
        get_elem?-set_other p.threads i j asleep t
          (λ e.
            other
              (some-injective _ _ (sym at ∙ ap (λ (k : ℕ). get_elem? p.threads k) e ∙ h.asleep)))
          h.asleep;
    inactive = h.inactive;
  }

  Step-IsLost : {a b : ThreadPool J} (j : ℕ) (st : Step a b) → IsOwn st → IsLost j a → IsLost j b
  unfolding look sleep again
  Step-IsLost j (accepts job free e) own h = absurd own
  Step-IsLost {a} j (looks i free t e) own h = rw e (set-IsLost j i a _ ready _ h t (λ x. cc))
  Step-IsLost {a} j (sleeps i t e) own h =
      rw e (set-IsLost j i a a.jobs committing asleep h t (λ x. cc))
  Step-IsLost j (wakes i t e) own h = absurd own
  Step-IsLost {a} j (finishes i job t e) own h =
      rw e (set-IsLost j i a a.jobs (working job) ready h t (λ x. cc))
  Step-IsLost j (shuts_down e) own h = absurd own

  Reach-IsLost : {a b : ThreadPool J} (j : ℕ) (r : Reach a b) → AreOwn r → IsLost j a → IsLost j b
  Reach-IsLost j here own h = h
  Reach-IsLost j (next r st) own h = Step-IsLost j st own.1 (Reach-IsLost j r own.0 h)

  -- From any state in which a worker is about to sleep, a run leads through a shutdown, which does
  -- not wait for the mutex, to a state in which that worker sleeps; and as long as the workers do
  -- no more than look, go to sleep and finish jobs, it sleeps in a pool that is shut down.
  pub shut_down-misses :
      {p q : ThreadPool J} (j : ℕ)
      → At j committing p
      → (r : Reach (sleep j (shut_down p)) q) → AreOwn r
      → Reach p (sleep j (shut_down p)) × At j asleep q × (q.active ≡ false)
  unfolding shut_down sleep woken
  shut_down-misses {p} j at r own =
      let still = get_elem?-wake_all p.threads j committing at in
      let lost = Reach-IsLost j r own (record {
        asleep = get_elem?-set (wake_all p.threads) j committing asleep still;
        inactive = refl;
      }) in
      (next (next here (shuts_down refl)) (sleeps j still refl), lost.asleep, lost.inactive)
