-- ===== src/Worker/ThreadPool/Queue.antt =====
-- src/Worker/ThreadPool.cpp, the queue over runs of the pool: what is accepted and what is taken.
use kv_database.Prelude.{
  get_elem?, get_elem?-set, Option, none, some, Bool-cases, inl, inr, ◌≡◌, refl, ap, sym, ◌∙◌, ℕ,
  List, [], ◌∷◌, ◌++◌, append-nil, append_assoc,
}
use kv_database.Worker.ThreadPool.{
  Thread, ready, committing, asleep, ended, working, At, ThreadPool, look_at, look, sleep, again,
  accept_job, shut_down, Step, accepts, looks, sleeps, wakes, finishes, shuts_down, Reach, here,
  next,
}

module _ {J : Type 0} where
  abbrev pub step_accepted : {a b : ThreadPool J} → Step a b → List J
  step_accepted (accepts job free e) = job ∷ []
  step_accepted (looks i free t e) = []
  step_accepted (sleeps i t e) = []
  step_accepted (wakes i t e) = []
  step_accepted (finishes i job t e) = []
  step_accepted (shuts_down e) = []

  -- The job that a worker is in.
  abbrev pub job_of : Option (Thread J) → List J
  job_of (some (working job)) = job ∷ []
  job_of (some ready) = []
  job_of (some committing) = []
  job_of (some asleep) = []
  job_of (some ended) = []
  job_of none = []

  abbrev pub step_taken : {a b : ThreadPool J} → Step a b → List J
  step_taken (accepts job free e) = []
  step_taken {a} {b} (looks i free t e) = job_of (get_elem? b.threads i)
  step_taken (sleeps i t e) = []
  step_taken (wakes i t e) = []
  step_taken (finishes i job t e) = []
  step_taken (shuts_down e) = []

  -- The jobs in the order in which they were accepted, and in which workers came to be in them.
  abbrev pub accepted : {a b : ThreadPool J} → Reach a b → List J
  accepted here = []
  accepted (next r st) = accepted r ++ step_accepted st

  abbrev pub taken : {a b : ThreadPool J} → Reach a b → List J
  taken here = []
  taken (next r st) = taken r ++ step_taken st

  look-jobs :
      (jobs : List J) (i : ℕ) (p : ThreadPool J)
      → p.jobs ≡ jobs
      → At i ready p
      → jobs ≡ job_of (get_elem? (look i p).threads i) ++ (look i p).jobs
  unfolding look look_at
  look-jobs [] i p e at = elim (Bool-cases p.active) [
    | inl on ↦ rw (e, look_at, on, get_elem?-set p.threads i ready committing at) refl
    | inr off ↦ rw (e, look_at, off, get_elem?-set p.threads i ready ended at) refl
  ]
  look-jobs (job ∷ jobs) i p e at =
      rw (e, look_at, get_elem?-set p.threads i ready (working job) at) refl

  Step-jobs :
      {a b : ThreadPool J} → (st : Step a b) → a.jobs ++ step_accepted st ≡ step_taken st ++ b.jobs
  unfolding sleep again accept_job shut_down
  Step-jobs (accepts job free e) = rw e
  Step-jobs {a} (looks i free t e) = rw (e, append-nil a.jobs) (look-jobs a.jobs i a refl t)
  Step-jobs {a} (sleeps i t e) = rw (e, append-nil a.jobs)
  Step-jobs {a} (wakes i t e) = rw (e, append-nil a.jobs)
  Step-jobs {a} (finishes i job t e) = rw (e, append-nil a.jobs)
  Step-jobs {a} (shuts_down e) = rw (e, append-nil a.jobs)

  -- In any run of a pool that starts without jobs, shutdown included, the accepted jobs, in their
  -- order, are those that workers came to be in by a look at the queue, in that order, and then
  -- those that wait: each goes to one worker once, first in first out.
  pub accepted-taken :
      {a b : ThreadPool J} (r : Reach a b) → a.jobs ≡ [] → accepted r ≡ taken r ++ b.jobs
  accepted-taken here e = sym e
  accepted-taken (next {b} {c} r st) e =
      ap (λ (js : List J). js ++ step_accepted st) (accepted-taken r e)
      ∙ append_assoc (taken r) b.jobs (step_accepted st)
      ∙ ap (λ (js : List J). taken r ++ js) (Step-jobs st)
      ∙ sym (append_assoc (taken r) (step_taken st) c.jobs)
