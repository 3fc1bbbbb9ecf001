-- ===== src/System.antt =====
-- The threads of src/Server/Server.cpp with those of src/Worker over one server: each event is a
-- round of a loop, the job of a connection, a sweep of the sessions, a snapshot or the stop, in
-- any order. A job runs as one step here, and so does a snapshot; kv_database.Persistence.Races is
-- about what lies between their critical sections. The workers may run the waiting jobs in any
-- order.
pub mod Kept
pub mod Sound
pub mod Served
pub mod Life
use kv_database.Prelude.{ℕ, ◌≡◌, true, Bool, Option, List, [], ◌∷◌, ◌++◌}
use kv_database.Result.{ok}
use kv_database.Persistence.{Persistence, create_snapshot}
use kv_database.UserSession.{SessionKey, SockAddr}
use kv_database.EventLoop.{EventLoop, EventLoopEntry}
use kv_database.Server.{Server, Recv, message_handler}
use kv_database.Server.Loop.{event_round, accept_client, sweep_sessions, stop}

module _ {L : Type 0} ⦃loop : EventLoop L⦄ where
  -- The constructors name what the operating system answers in the event.
  pub data Step (s s' : Server L) : Type 0 where
    -- a round of `acceptClients`, which may have read `running` before a stop
    accepts :
        (accepted : Option (ℕ × SockAddr)) (now_global now_private now : ℕ) (non_blocking : Bool)
        → s' ≡ (accept_client accepted now_global now_private now non_blocking s).1
        → Step s s'
    -- a round of `runEventLoop`
    polls : (wait : L → L × Option (List EventLoopEntry)) → s' ≡ event_round wait s → Step s s'
    -- a worker takes a waiting job and runs it
    works :
        (received : Recv) (now ref : ℕ) (before after : List ℕ)
        → s.jobs ≡ before ++ ref ∷ after
        → message_handler received now ref (record s { jobs = before ++ after }) ≡ ok s'
        → Step s s'
    -- `UserSessionBackgroundWorker::run` after its interval
    sweeps : (clock : SessionKey → ℕ) → s' ≡ sweep_sessions clock s → Step s s'
    -- `SnapshotScheduler::run` after its interval, with a snapshot that succeeds
    snapshots :
        (p : Persistence)
        → create_snapshot true true true s.hash_map s.pers ≡ (ok tt, p)
        → s' ≡ record s { pers = p }
        → Step s s'
    stops : s' ≡ stop s → Step s s'

  pub data Reach (s : Server L) : Server L → Type 0 where
    here : Reach s s
    next : {t u : Server L} → Reach s t → Step t u → Reach s u
