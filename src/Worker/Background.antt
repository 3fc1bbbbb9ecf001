-- ===== src/Worker/Background.antt =====
-- src/Worker/SnapshotScheduler.cpp and UserSessionBackgroundWorker.cpp: the thread of an interval and
-- its destructor, which have one protocol in both files. Each reading of `active` is a step, and so
-- is each change that the destructor makes; it does not take the mutex of the wait. A thread that has
-- read a true `active` still runs for a moment before the wait puts it to sleep, and is then
-- `committing`. A wake-up is a notification or has no reason; an interval that is over is a step of
-- its own. The work that the thread calls returns.
pub mod Ends
use kv_database.Prelude.{ℕ, suc, ◌+◌, ◌≡◌, ◌≢◌, Bool, true, false, if◌then◌else◌}

-- Where the thread is: at the condition of the loop, at the predicate of the wait, about to sleep,
-- asleep, behind the wait, between its reading of `active` and its work, at work, or returned.
pub data Place : Type 0 where
  checking looking committing asleep woken starting working returned : Place

-- How far the destructor is.
pub data Teardown : Type 0 where
  alive cleared notified joined : Teardown

pub record Background : Type 0 where
  pub active : Bool
  pub place : Place
  pub teardown : Teardown
  -- how often the thread has begun its work
  pub calls : ℕ

-- The constructor starts the thread.
unfoldable pub new : Background
new = record { active = true; place = checking; teardown = alive; calls = 0 }

-- `run`, one step: the next place, by the reading of `active`.
unfoldable pub next_place : Bool → Place → Place
next_place active checking = if active then looking else returned
next_place active looking = if active then committing else woken
next_place active committing = asleep
next_place active asleep = looking
next_place active woken = if active then starting else returned
next_place active starting = working
next_place active working = checking
next_place active returned = returned

-- The work is begun.
unfoldable pub calls_of : Place → ℕ
calls_of checking = 0
calls_of looking = 0
calls_of committing = 0
calls_of asleep = 0
calls_of woken = 0
calls_of starting = 1
calls_of working = 0
calls_of returned = 0

unfoldable pub advance : Background → Background
unfolding next_place calls_of
advance b = record b { place = next_place b.active b.place; calls = calls_of b.place + b.calls }

-- The interval is over.
unfoldable pub time_out : Background → Background
time_out b = record b { place = woken }

-- `active = false`
unfoldable pub clear : Background → Background
clear b = record b { active = false; teardown = cleared }

unfoldable pub roused : Place → Place
roused checking = checking
roused looking = looking
roused committing = committing
roused asleep = looking
roused woken = woken
roused starting = starting
roused working = working
roused returned = returned

-- `notify_all`
unfoldable pub notify : Background → Background
unfolding roused
notify b = record b { place = roused b.place; teardown = notified }

-- The join returns.
unfoldable pub join : Background → Background
join b = record b { teardown = joined }

-- A step that the thread makes without help: its code goes on, or the interval is over.
pub data Own (a b : Background) : Type 0 where
  advances : a.place ≢ returned → a.place ≢ asleep → b ≡ advance a → Own a b
  times_out : a.place ≡ asleep → b ≡ time_out a → Own a b

-- A step of the thread: perhaps a wake-up without a reason.
pub data Moves (a b : Background) : Type 0 where
  acts : Own a b → Moves a b
  wakes : a.place ≡ asleep → b ≡ advance a → Moves a b

-- A step of the destructor.
pub data Destroys (a b : Background) : Type 0 where
  clears : a.teardown ≡ alive → b ≡ clear a → Destroys a b
  notifies : a.teardown ≡ cleared → b ≡ notify a → Destroys a b
  joins : a.teardown ≡ notified → a.place ≡ returned → b ≡ join a → Destroys a b

-- A run, with the number of the thread's steps in it.
pub data Reach (a : Background) : ℕ → Background → Type 0 where
  here : Reach a 0 a
  moves : (n : ℕ) (b c : Background) → Reach a n b → Moves b c → Reach a (suc n) c
  destroys : (n : ℕ) (b c : Background) → Reach a n b → Destroys b c → Reach a n c
