-- ===== src/System/Sound.antt =====
-- src/Server/Server.cpp, what every thread keeps of the server: the connection map and the jobs
-- lead to objects, the files restore the map, the sessions have distinct keys, the limiter keeps
-- its count.
use kv_database.Prelude.{ℕ, ◌≡◌, true, List, [], ◌∷◌, ◌++◌, All-without}
use kv_database.Result.{ok}
use kv_database.Persistence.{Persistence, create_snapshot}
use kv_database.Persistence.Durable.{IsDurable}
use kv_database.Persistence.Snapshot.{create_snapshot-IsDurable}
use kv_database.UserSession.{SessionKey, cleanup_expired_sessions, close_all_sessions}
use kv_database.UserSession.Expiry.{cleanup-IsUnique}
use kv_database.EventLoop.{EventLoop}
use kv_database.Server.{Server}
use kv_database.Server.Entries.{HasObject}
use kv_database.Server.Loop.{on_session_expired, report_expired, sweep_sessions, stop}
use kv_database.Server.Stable.{event_round-Keeps, accept_client-Keeps, message_handler-Keeps}
use kv_database.Server.Links.{IsLinked, IsLinked-Stable}
use kv_database.System.Kept.{IsTidy, IsKept, IsKept-Stable, IsTidy-Stable}
use kv_database.System.{Step, accepts, polls, works, sweeps, snapshots, stops, Reach, here, next}

module _ {L : Type 0} ⦃loop : EventLoop L⦄ where
  pub record IsSound (limit : ℕ) (s : Server L) : Type 0 where
    pub linked : IsLinked s
    pub durable : IsDurable s.hash_map s.pers
    pub tidy : IsTidy limit s

  module _ (limit : ℕ) where
    -- Three kept predicates are kept together.
    module _ {s t : Server L} (h : IsSound limit s) (links : IsLinked s → IsLinked t)
        (files : IsKept s → IsKept t) (rest : IsTidy limit s → IsTidy limit t) where
      together : IsSound limit t
      together = record { linked = links h.linked; durable = files h.durable; tidy = rest h.tidy }

    report_expired-IsSound :
        (socks : List ℕ) (s : Server L) → IsSound limit s → IsSound limit (report_expired socks s)
    unfolding report_expired on_session_expired
    report_expired-IsSound [] s h = h
    report_expired-IsSound (sock ∷ rest) s h =
        report_expired-IsSound rest (on_session_expired sock s) (record {
          linked = record { links = h.linked.links; jobs = h.linked.jobs };
          durable = h.durable;
          tidy = record { unique = h.tidy.unique; counted = h.tidy.counted };
        })

    sweep_sessions-IsSound :
        (clock : SessionKey → ℕ) (s : Server L)
        → IsSound limit s
        → IsSound limit (sweep_sessions clock s)
    unfolding sweep_sessions
    sweep_sessions-IsSound clock s h =
        report_expired-IsSound (cleanup_expired_sessions clock s.sessions).0
          (record s { sessions = (cleanup_expired_sessions clock s.sessions).1 })
          (record {
            linked = record { links = h.linked.links; jobs = h.linked.jobs };
            durable = h.durable;
            tidy = record {
              unique = cleanup-IsUnique clock s.sessions h.tidy.unique;
              counted = h.tidy.counted;
            };
          })

    snapshot-IsSound :
        (p : Persistence) (s : Server L)
        → create_snapshot true true true s.hash_map s.pers ≡ (ok tt, p)
        → IsSound limit s
        → IsSound limit (record s { pers = p })
    snapshot-IsSound p s run h =
        let (p', run', kept, empty) = create_snapshot-IsDurable s.hash_map s.pers h.durable in
        let same : p' ≡ p = cc in
        record {
          linked = record { links = h.linked.links; jobs = h.linked.jobs };
          durable = rw same at kept;
          tidy = record { unique = h.tidy.unique; counted = h.tidy.counted };
        }

    stop-IsSound : (s : Server L) → IsSound limit s → IsSound limit (stop s)
    unfolding stop close_all_sessions
    stop-IsSound s h = record {
      linked = record { links = tt; jobs = h.linked.jobs };
      durable = h.durable;
      tidy = record { unique = tt; counted = h.tidy.counted };
    }

    -- The state in which a job runs: it is off the queue.
    taken-IsSound :
        (before after : List ℕ) (ref : ℕ) (s : Server L)
        → s.jobs ≡ before ++ ref ∷ after
        → IsSound limit s
        → IsSound limit (record s { jobs = before ++ after })
    taken-IsSound before after ref s e h = record {
      linked = record {
        links = h.linked.links;
        jobs = All-without (HasObject s.objects) before after ref (rw e at h.linked.jobs);
      };
      durable = h.durable;
      tidy = record { unique = h.tidy.unique; counted = h.tidy.counted };
    }

    pub Step-IsSound : {s t : Server L} → Step s t → IsSound limit s → IsSound limit t
    Step-IsSound {s} (accepts accepted a b c d e) h = rw e (
        together h (accept_client-Keeps IsLinked IsLinked-Stable.rounds accepted a b c d s)
          (accept_client-Keeps IsKept IsKept-Stable.rounds accepted a b c d s)
          (accept_client-Keeps (IsTidy limit) (IsTidy-Stable limit).rounds accepted a b c d s))
    Step-IsSound {s} (polls wait e) h = rw e (
        together h (event_round-Keeps IsLinked IsLinked-Stable.rounds wait s)
          (event_round-Keeps IsKept IsKept-Stable.rounds wait s)
          (event_round-Keeps (IsTidy limit) (IsTidy-Stable limit).rounds wait s))
    Step-IsSound {s} {t} (works received now ref before after e run) h =
        let s' = record s { jobs = before ++ after } in
        together (taken-IsSound before after ref s e h)
          (λ x. message_handler-Keeps IsLinked IsLinked-Stable received now ref s' x t run)
          (λ x. message_handler-Keeps IsKept IsKept-Stable received now ref s' x t run)
          (λ x.
            message_handler-Keeps (IsTidy limit) (IsTidy-Stable limit) received now ref s' x t run)
    Step-IsSound {s} (sweeps clock e) h = rw e (sweep_sessions-IsSound clock s h)
    Step-IsSound {s} (snapshots p run e) h = rw e (snapshot-IsSound p s run h)
    Step-IsSound {s} (stops e) h = rw e (stop-IsSound s h)

    -- Over any run of the threads, in any order of their events and with snapshots that succeed, a
    -- sound state stays so: each entry of the connection map leads to an object of its socket and
    -- each job to an object, the database is durable, the sessions have distinct keys, and the
    -- limiter keeps its limit and a count within it.
    pub Reach-IsSound : {s t : Server L} → IsSound limit s → Reach s t → IsSound limit t
    Reach-IsSound h here = h
    Reach-IsSound h (next r st) = Step-IsSound st (Reach-IsSound h r)
