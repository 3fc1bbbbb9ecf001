-- ===== src/Worker/Background/Ends.antt =====
-- src/Worker/SnapshotScheduler.cpp and UserSessionBackgroundWorker.cpp, the end of the thread once the
-- destructor has begun.
use kv_database.Prelude.{
  ap, ℕ, suc, ◌+◌, ◌≤◌, ◌≡◌, ◌≢◌, ◌⊎◌, inl, inr, refl, Bool, true, false, arith,
}
use mathlib.Core.Path.{subst}
use kv_database.Worker.Background.{
  Place, checking, looking, committing, asleep, woken, starting, working, returned, Teardown, alive,
  cleared, notified, joined, Background, new, next_place, calls_of, advance, time_out, clear,
  roused, notify, join, Own, advances, times_out, Moves, acts, wakes, Destroys, clears, notifies,
  joins, Reach, here, moves, destroys,
}

-- The steps that a thread still has that reads a false `active`.
abbrev pub rank : Place → ℕ
rank checking = 1
rank looking = 2
rank committing = 4
rank asleep = 3
rank woken = 1
rank starting = 3
rank working = 2
rank returned = 0

-- What the destructor has done shows in the state.
abbrev pub IsOrderly : Teardown → Bool → Place → Type 0
IsOrderly alive active place = active ≡ true
IsOrderly cleared active place = active ≡ false
IsOrderly notified active place = active ≡ false
IsOrderly joined active place = (active ≡ false) × (place ≡ returned)

abbrev pub Orderly : Background → Type 0
Orderly b = IsOrderly b.teardown b.active b.place

next_place-Orderly :
    (t : Teardown) (active : Bool) (p q : Place)
    → p ≢ returned
    → IsOrderly t active p
    → IsOrderly t active q
next_place-Orderly alive active p q going h = h
next_place-Orderly cleared active p q going h = h
next_place-Orderly notified active p q going h = h
next_place-Orderly joined active p q going h = absurd (going h.1)

next_place-rank :
    (p : Place)
    → p ≢ returned
    → (suc (rank (next_place false p)) ≤ rank p)
      × (calls_of p + calls_of (next_place false p) ≡ calls_of p)
unfolding next_place calls_of
next_place-rank checking going = (omega arith, refl)
next_place-rank looking going = (omega arith, refl)
next_place-rank committing going = (omega arith, refl)
next_place-rank asleep going = (omega arith, refl)
next_place-rank woken going = (omega arith, refl)
next_place-rank starting going = (omega arith, refl)
next_place-rank working going = (omega arith, refl)
next_place-rank returned going = absurd (going refl)

rank-roused : (p : Place) → rank (roused p) ≤ rank p
unfolding roused
rank-roused checking = omega arith
rank-roused looking = omega arith
rank-roused committing = omega arith
rank-roused asleep = omega arith
rank-roused woken = omega arith
rank-roused starting = omega arith
rank-roused working = omega arith
rank-roused returned = omega arith

rank-4 : (p : Place) → rank p ≤ 4
rank-4 checking = omega arith
rank-4 looking = omega arith
rank-4 committing = omega arith
rank-4 asleep = omega arith
rank-4 woken = omega arith
rank-4 starting = omega arith
rank-4 working = omega arith
rank-4 returned = omega arith

Moves-Orderly : {a b : Background} → Orderly a → Moves a b → Orderly b
unfolding advance time_out
Moves-Orderly {a} h (acts (advances going awake e)) =
    rw e (next_place-Orderly a.teardown a.active a.place _ going h)
Moves-Orderly {a} h (acts (times_out at e)) =
    rw e (next_place-Orderly a.teardown a.active a.place _ (λ r. ground (arith, at, r)) h)
Moves-Orderly {a} h (wakes at e) =
    rw e (next_place-Orderly a.teardown a.active a.place _ (λ r. ground (arith, at, r)) h)

Destroys-Orderly : {a b : Background} → Orderly a → Destroys a b → Orderly b
unfolding clear notify join
Destroys-Orderly h (clears at e) = rw e refl
Destroys-Orderly {a} h (notifies at e) =
    rw e (subst (λ (t : Teardown). IsOrderly t a.active a.place) at h)
Destroys-Orderly {a} h (joins at done e) =
    rw e (subst (λ (t : Teardown). IsOrderly t a.active a.place) at h, done)

Reach-Orderly : {a b : Background} {n : ℕ} → Orderly a → Reach a n b → Orderly b
Reach-Orderly h here = h
Reach-Orderly h (moves n b c r m) = Moves-Orderly (Reach-Orderly h r) m
Reach-Orderly h (destroys n b c r d) = Destroys-Orderly (Reach-Orderly h r) d

calls_of-roused : (p : Place) → calls_of (roused p) ≡ calls_of p
unfolding roused calls_of
calls_of-roused checking = refl
calls_of-roused looking = refl
calls_of-roused committing = refl
calls_of-roused asleep = refl
calls_of-roused woken = refl
calls_of-roused starting = refl
calls_of-roused working = refl
calls_of-roused returned = refl

-- The thread is on its way: `n` steps since `a`, and no work but what was about to begin.
record Falls (a : Background) (n : ℕ) (b : Background) : Type 0 where
  inactive : b.active ≡ false
  bounded : n + rank b.place ≤ rank a.place
  last_call : b.calls + calls_of b.place ≡ a.calls + calls_of a.place

advance-Falls :
    {a b : Background} {n : ℕ} → Falls a n b → b.place ≢ returned → Falls a (suc n) (advance b)
unfolding advance
advance-Falls {a} {b} {n} f going =
    let step = next_place-rank b.place going in
    rw f.inactive (record {
      inactive = refl;
      bounded = omega (arith, step.0, f.bounded);
      last_call = omega (arith, step.1, f.last_call);
    })

Moves-Falls : {a b c : Background} {n : ℕ} → Falls a n b → Moves b c → Falls a (suc n) c
unfolding time_out calls_of
Moves-Falls f (acts (advances going awake e)) = rw e (advance-Falls f going)
Moves-Falls {a} {b} {c} {n} f (acts (times_out at e)) = rw e (record {
  inactive = f.inactive;
  bounded = ground (arith, at, f.bounded);
  last_call = omega (arith, ap calls_of at, f.last_call);
})
Moves-Falls f (wakes at e) = rw e (advance-Falls f (λ r. ground (arith, at, r)))

Destroys-Falls : {a b c : Background} {n : ℕ} → Falls a n b → Destroys b c → Falls a n c
unfolding clear notify join
Destroys-Falls f (clears at e) =
    rw e (record { inactive = refl; bounded = f.bounded; last_call = f.last_call })
Destroys-Falls {a} {b} f (notifies at e) = rw e (record {
  inactive = f.inactive;
  bounded = omega (arith, f.bounded, rank-roused b.place);
  last_call = omega (arith, f.last_call, calls_of-roused b.place);
})
Destroys-Falls f (joins at done e) =
    rw e (record { inactive = f.inactive; bounded = f.bounded; last_call = f.last_call })

Reach-Falls : {a b : Background} {n : ℕ} → a.active ≡ false → Reach a n b → Falls a n b
Reach-Falls stopped here = record { inactive = stopped; bounded = omega arith; last_call = refl }
Reach-Falls stopped (moves n b c r m) = Moves-Falls (Reach-Falls stopped r) m
Reach-Falls stopped (destroys n b c r d) = Destroys-Falls (Reach-Falls stopped r) d

Place-cases : (p : Place) → (p ≡ returned) ⊎ ((p ≡ asleep) ⊎ ((p ≢ returned) × (p ≢ asleep)))
Place-cases checking = inr (inr (λ e. cc, λ e. cc))
Place-cases looking = inr (inr (λ e. cc, λ e. cc))
Place-cases committing = inr (inr (λ e. cc, λ e. cc))
Place-cases asleep = inr (inl refl)
Place-cases woken = inr (inr (λ e. cc, λ e. cc))
Place-cases starting = inr (inr (λ e. cc, λ e. cc))
Place-cases working = inr (inr (λ e. cc, λ e. cc))
Place-cases returned = inl refl

-- The thread has returned, or goes on without help.
abbrev pub GoesOn : Background → Type 0
GoesOn b = (b.place ≡ returned) ⊎ ((c : Background) × Own b c)

goes_on : (b : Background) → GoesOn b
goes_on b = elim (Place-cases b.place) [
  | inl e ↦ inl e
  | inr (inl at) ↦ inr (time_out b, times_out at refl)
  | inr (inr (going, awake)) ↦ inr (advance b, advances going awake refl)
]

-- The join has returned only if the thread has.
abbrev pub IsJoined : Teardown → Place → Type 0
IsJoined alive place = Unit
IsJoined cleared place = Unit
IsJoined notified place = Unit
IsJoined joined place = place ≡ returned

Orderly-IsJoined :
    (t : Teardown) (active : Bool) (place : Place) → IsOrderly t active place → IsJoined t place
Orderly-IsJoined alive active place h = tt
Orderly-IsJoined cleared active place h = tt
Orderly-IsJoined notified active place h = tt
Orderly-IsJoined joined active place h = h.1

Orderly-inactive :
    (t : Teardown) (active : Bool) (place : Place)
    → t ≢ alive
    → IsOrderly t active place
    → active ≡ false
Orderly-inactive alive active place begun h = absurd (begun refl)
Orderly-inactive cleared active place begun h = h
Orderly-inactive notified active place begun h = h
Orderly-inactive joined active place begun h = h.0

-- In any run of the thread of the scheduler or of the session sweeper, once its destructor has
-- begun, at any moment, the thread makes at most four more steps; it begins no further call of its
-- work but the one that is due if it has read a true active behind its wait; it has returned or
-- has a step of its own to make, without a wake-up; and if the join has returned, the thread has.
pub Reach-ends :
    (m n : ℕ) (a b : Background)
    → Reach new m a
    → a.teardown ≢ alive
    → Reach a n b
    → (n ≤ 4)
      × (b.calls + calls_of b.place ≡ a.calls + calls_of a.place)
      × IsJoined b.teardown b.place
      × GoesOn b
unfolding new
Reach-ends m n a b before begun after =
    let orderly = Reach-Orderly refl before in
    let falls = Reach-Falls (Orderly-inactive a.teardown a.active a.place begun orderly) after in
    (
      omega (arith, falls.bounded, rank-4 a.place),
      falls.last_call,
      Orderly-IsJoined b.teardown b.active b.place (Reach-Orderly orderly after),
      goes_on b,
    )

-- The destructor clears `active` and notifies while the thread is about to sleep: the thread sleeps
-- all the same, and only the end of the interval or a wake-up without a reason goes on.
pub notify-misses :
    (a : Background)
    → a.place ≡ committing
    → a.teardown ≡ alive
    → Reach a 1 (advance (notify (clear a))) × ((advance (notify (clear a))).place ≡ asleep)
unfolding clear notify roused advance next_place
notify-misses a at begun = (
  moves 0 _ _ (destroys 0 _ _ (destroys 0 _ _ here (clears begun refl)) (notifies refl refl))
      (acts (advances (λ e. ground (arith, at, e)) (λ e. ground (arith, at, e)) refl)),
  rw at refl,
)
