-- ===== src/Tests/Polling.antt =====
-- A kernel with one readable descriptor, and a run of its reports and jobs.
use kv_database.Prelude.{
  ℕ, ◌≡◌, refl, sym, ap, ◌∙◌, ◌⊎◌, true, false, Option, none, some, List, [], ◌∷◌, ◌==◌,
  if◌then◌else◌, arith, NoRepeat, All, contains, Bool-cases, inl, inr,
}
use mathlib.Core.Path.{subst}
use mathlib.Core.Option.{some-injective}
use kv_database.EventLoop.{readable}
use kv_database.EventLoop.Epoll.{
  Epoll, is_registered, is_reading, epoll_in, epoll_oneshot, add, rearm, wait, entries_of, io_event,
}
use kv_database.EventLoop.Epoll.OneShot.{
  OneShot, Flight, IsMuted, Reach, here, next, adds, reports, rearms, descriptors,
}
use kv_database.EventLoop.Epoll.OneShot.Exclusive.{Reach-Exclusive}
use kv_database.Tests.Service.{Kernel, set_interest, set_interest-same}

-- The descriptor 5 has input whenever it is watched for it.
instance abbrev polling : Epoll Kernel
polling = record {
  ctl_add = λ fd events k. set_interest fd (some events) k;
  ctl_del = λ fd k. set_interest fd none k;
  ctl_mod = λ fd events k. (is_registered (k fd), set_interest fd (some events) k);
  epoll_wait = λ k.
      if is_reading (k 5)
      then (set_interest 5 (some epoll_oneshot) k, some ((5, epoll_in) ∷ []))
      else (k, some []);
  interest = λ fd k. k fd;
  ctl_del-interest = λ fd k. set_interest-same fd none k;
  ctl_mod-interest = λ fd events k e. set_interest-same fd (some events) k;
}

only : (fd : ℕ) → contains fd (5 ∷ []) ≡ true → 5 ≡ fd
only fd inside = ground (arith, inside)

nowhere : (fd : ℕ) → contains fd [] ≡ true → ⊥
nowhere fd inside = cc

-- What a wait answers.
polled :
    (k : Kernel)
    → ((is_reading (k 5) ≡ true)
        × (polling.epoll_wait k
            ≡ (set_interest 5 (some epoll_oneshot) k, some ((5, epoll_in) ∷ []))))
      ⊎ (polling.epoll_wait k ≡ (k, some []))
polled k = elim (Bool-cases (is_reading (k 5))) [
  | inl e ↦ inl (e, rw e refl)
  | inr e ↦ inr (rw e refl)
]

-- The reports of a wait: that of the descriptor 5, or none.
answers :
    (k : Kernel) (ready : List (ℕ × ℕ)) (fd : ℕ)
    → (polling.epoll_wait k).1 ≡ some ready
    → contains fd (descriptors ready) ≡ true
    → (is_reading (k 5) ≡ true)
      × (5 ≡ fd)
      × (polling.epoll_wait k ≡ (set_interest 5 (some epoll_oneshot) k, some ((5, epoll_in) ∷ [])))
answers k ready fd e inside = elim (polled k) [
  | inl (on, run) ↦
      let same =
        some-injective _ _ (sym e ∙ ap (λ (r : Kernel × Option (List (ℕ × ℕ))). r.1) run) in
      (
        on,
        only fd (subst (λ (r : List (ℕ × ℕ)). contains fd (descriptors r) ≡ true) same inside),
        run,
      )
  | inr run ↦
      let same =
        some-injective _ _ (sym e ∙ ap (λ (r : Kernel × Option (List (ℕ × ℕ))). r.1) run) in
      absurd
        (nowhere fd (subst (λ (r : List (ℕ × ℕ)). contains fd (descriptors r) ≡ true) same inside))
]

polling-OneShot : OneShot Kernel
polling-OneShot = record {
  reported = λ k ready fd e inside.
      let (on, same, run) = answers k ready fd e inside in
      subst (λ (d : ℕ). is_reading (k d) ≡ true) same on;
  once = λ k ready e. elim (polled k) [
    | inl (on, run) ↦
        subst (λ (r : List (ℕ × ℕ)). NoRepeat (descriptors r))
          (some-injective _ _ (sym (ap (λ (r : Kernel × Option (List (ℕ × ℕ))). r.1) run) ∙ e))
          (refl, tt)
    | inr run ↦
        subst (λ (r : List (ℕ × ℕ)). NoRepeat (descriptors r))
          (some-injective _ _ (sym (ap (λ (r : Kernel × Option (List (ℕ × ℕ))). r.1) run) ∙ e)) tt
  ];
  disabled = λ k ready fd e inside once.
      let (on, same, run) = answers k ready fd e inside in
      subst (λ (d : ℕ). is_reading ((polling.epoll_wait k).0 d) ≡ false) same (rw run refl);
  wait-once = λ k fd once. elim (polled k) [
    | inl (on, run) ↦
        rw run (elim (Bool-cases (5 == fd)) [ inl same ↦ rw same refl | inr other ↦ rw other once ])
    | inr run ↦ rw run once
  ];
  ctl_add-same = λ fd events k. inl (set_interest-same fd (some events) k);
  ctl_mod-same = λ fd events k. inl (set_interest-same fd (some events) k);
  wait-reading = λ k fd e. elim (polled k) [
    | inl (on, run) ↦
        rw run (elim (Bool-cases (5 == fd)) [ inl same ↦ rw same refl | inr other ↦ rw other e ])
    | inr run ↦ rw run e
  ];
  ctl_add-other = λ fd other events k apart. rw apart refl;
  ctl_del-other = λ fd other k apart. rw apart refl;
  ctl_mod-other = λ fd other events k apart. rw apart refl;
}

abbrev start : Flight Kernel
start = record { kernel = λ fd. none; jobs = [] }

abbrev accepted : Flight Kernel
accepted = record { kernel = add 5 start.kernel; jobs = [] }

abbrev reported : Flight Kernel
reported = record { kernel = (wait accepted.kernel).0; jobs = 5 ∷ [] }

abbrev answered : Flight Kernel
answered = record { kernel = (rearm 5 reported.kernel).1; jobs = [] }

abbrev again : Flight Kernel
again = record { kernel = (wait answered.kernel).0; jobs = 5 ∷ [] }

-- The socket 5 is accepted, reported, answered and reported again.
run : Reach start again
unfolding add rearm wait entries_of io_event
run =
    next
      (next
        (next (next here (adds 5 refl refl))
          (reports (record { socket = 5; event = readable } ∷ []) refl refl))
        (rearms [] [] 5 refl refl))
      (reports (record { socket = 5; event = readable } ∷ []) refl refl)

Reach-Exclusive_example : NoRepeat again.jobs × All (IsMuted again.kernel) again.jobs
Reach-Exclusive_example = Reach-Exclusive polling-OneShot start again refl (λ sock. refl) run
