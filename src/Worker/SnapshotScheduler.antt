-- ===== src/Worker/SnapshotScheduler.antt =====
-- src/Worker/SnapshotScheduler.h and SnapshotScheduler.cpp: the thread that takes a snapshot every
-- interval. Its callback is `createSnapshot`, and an exception of the callback leaves the thread's
-- function, which ends the process. A round holds the two readings of `active`, before and after
-- the wait, and what the operating system answers to the snapshot.
use kv_database.Prelude.{ℕ, inl, inr, Bool-cases, Bool, List, [], ◌∷◌, if◌then◌else◌}
use kv_database.Result.{Result, ok, fault, Fault}
use kv_database.HashMap.{HashMap}
use kv_database.Persistence.{Persistence, create_snapshot}
use kv_database.Persistence.Durable.{IsDurable, IsRestorable}
use kv_database.Persistence.Snapshot.{create_snapshot-IsRestorable, create_snapshot-cases}

-- The interval in minutes: the default argument of the constructor.
abbrev pub default_interval : ℕ
default_interval = 5

pub record Round : Type 0 where
  pub active : Bool
  pub active_after : Bool
  pub rdb_opens : Bool
  pub resizes : Bool
  pub reopens : Bool

-- Where the thread is after the rounds: asleep, returned, or ended by an exception.
pub data Ending : Type 0 where
  waiting returned : Ending
  terminated : Fault → Ending

-- The rest of the loop behind a snapshot.
abbrev pub go_on :
    (Persistence → Ending × Persistence) → Result (Unit {0}) × Persistence → Ending × Persistence
go_on rest (ok done, p) = rest p
go_on rest (fault e, p) = (terminated e, p)

-- `run`, over a map that stays as it is.
unfoldable pub run : List Round → HashMap → Persistence → Ending × Persistence
run [] m p = (waiting, p)
run (r ∷ rounds) m p =
    let rest = λ (p' : Persistence). run rounds m p' in
    if r.active
    then if r.active_after
      then go_on rest (create_snapshot r.rdb_opens r.resizes r.reopens m p)
      else (returned, p)
    else (returned, p)

-- Where the process goes on the database is durable; where it ended the files restore the map.
abbrev pub Leaves : HashMap → Ending × Persistence → Type 0
Leaves m (waiting, p) = IsDurable m p
Leaves m (returned, p) = IsDurable m p
Leaves m (terminated e, p) = IsRestorable m p

-- Over a map that does not change and a durable database, whatever the rounds of the scheduler
-- read and whatever the system answers to their snapshots, the database is durable where the
-- thread waits or has returned, and the files still restore the map where an exception has ended
-- the thread.
pub run-Leaves :
    (rounds : List Round) (m : HashMap) (p : Persistence)
    → IsDurable m p
    → Leaves m (run rounds m p)
unfolding run
run-Leaves [] m p d = d
run-Leaves (r ∷ rounds) m p d = elim (Bool-cases r.active) [
  | inr e ↦ rw e d
  | inl e ↦ elim (Bool-cases r.active_after) [
    | inr e' ↦ rw (e, e') d
    | inl e' ↦ elim (create_snapshot-cases m p d r.rdb_opens r.resizes r.reopens) [
      | inl (p', done, kept) ↦ rw (e, e', done) (run-Leaves rounds m p' kept)
      | inr (x, thrown) ↦
          rw (e, e', thrown) (create_snapshot-IsRestorable m p d r.rdb_opens r.resizes r.reopens)
    ]
  ]
]
