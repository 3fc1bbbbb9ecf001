-- ===== src/System/Served.antt =====
-- The server from the clients' side, over all its threads: the complete messages that the jobs
-- handle, the map that their writes make, and the responses.
use kv_database.Prelude.{
  Bool, false, ℕ, ◌≡◌, refl, ap, sym, ◌∙◌, true, List, [], ◌∷◌, ◌++◌, Bytes, append_assoc,
}
use kv_database.HashMap.{new, default_capacity}
use kv_database.HashMap.Map.{Map, view, IsValid}
use kv_database.Persistence.{load_data_on_startup}
use kv_database.Persistence.Records.{Record, replay, replay-append, replay_congr}
use kv_database.Persistence.Log.{Loads, Loads-congr}
use kv_database.Persistence.Durable.{restart-Loads}
use kv_database.UserSession.{SessionKey, SockAddr, cleanup_expired_sessions}
use kv_database.EventLoop.{EventLoop}
use kv_database.Server.{Server}
use kv_database.Server.Handler.{close_connection-Leaves}
use kv_database.Server.Loop.{on_session_expired, report_expired, sweep_sessions, register, stop}
use kv_database.Server.Stable.{StableRounds, event_round-Keeps, accept_client-Keeps}
use kv_database.Server.Writes.{all_writes, all_writes-append}
use kv_database.System.{Step, accepts, polls, works, sweeps, snapshots, stops, Reach, here, next}
use kv_database.System.Sound.{IsSound, Reach-IsSound}
use kv_database.Server.Answers.{
  responses, responses_congr, responses-append, job_messages, Answers, quiet-Answers,
  message_handler-Answers,
}

module _ {L : Type 0} ⦃loop : EventLoop L⦄ where
  -- The loops leave the map and the responses alone.
  pub record Same (s t : Server L) : Type 0 where
    pub hash_map : t.hash_map ≡ s.hash_map
    pub sent : t.sent ≡ s.sent

  register-Same :
      (sock : ℕ) (addr : SockAddr) (now : ℕ) (non_blocking : Bool) (s : Server L)
      → Same s (register sock addr now non_blocking s)
  unfolding register
  register-Same sock addr now false s = record { hash_map = refl; sent = refl }
  register-Same sock addr now true s = record { hash_map = refl; sent = refl }

  Same-StableRounds : (s : Server L) → StableRounds (Same s)
  Same-StableRounds s = record {
    closes = λ sock t h.
        let l = close_connection-Leaves sock t in
        record { hash_map = l.hash_map ∙ h.hash_map; sent = l.sent ∙ h.sent };
    polls = λ l t h. record { hash_map = h.hash_map; sent = h.sent };
    clears = λ t h. record { hash_map = h.hash_map; sent = h.sent };
    hands_out = λ sock ref t e h. record { hash_map = h.hash_map; sent = h.sent };
    limits = λ ip now_global now_private t h. record { hash_map = h.hash_map; sent = h.sent };
    refuses = λ sock t h. record { hash_map = h.hash_map; sent = h.sent };
    registers = λ sock addr now non_blocking t h.
        let r = register-Same sock addr now non_blocking t in
        record { hash_map = r.hash_map ∙ h.hash_map; sent = r.sent ∙ h.sent };
  }

  report_expired-Same :
      (socks : List ℕ) (s t : Server L) → Same s t → Same s (report_expired socks t)
  unfolding report_expired on_session_expired
  report_expired-Same [] s t h = h
  report_expired-Same (sock ∷ rest) s t h =
      report_expired-Same rest s (on_session_expired sock t)
        (record { hash_map = h.hash_map; sent = h.sent })

  sweep_sessions-Same : (clock : SessionKey → ℕ) (s : Server L) → Same s (sweep_sessions clock s)
  unfolding sweep_sessions
  sweep_sessions-Same clock s =
      report_expired-Same (cleanup_expired_sessions clock s.sessions).0 s
        (record s { sessions = (cleanup_expired_sessions clock s.sessions).1 })
        (record { hash_map = refl; sent = refl })

  Same-Answers : {s t : Server L} → Same s t → Answers [] s t
  Same-Answers {s} {t} h = quiet-Answers s t h.hash_map h.sent

  abbrev pub step_messages : {s t : Server L} → Step s t → List (ℕ × Bytes)
  step_messages (accepts accepted a b c d e) = []
  step_messages (polls wait e) = []
  step_messages {s} (works received now ref before after e run) =
      job_messages received ref (record s { jobs = before ++ after })
  step_messages (sweeps clock e) = []
  step_messages (snapshots p run e) = []
  step_messages (stops e) = []

  -- The complete messages, with the sockets of their clients, in the order in which they were handled.
  abbrev pub messages : {s t : Server L} → Reach s t → List (ℕ × Bytes)
  messages here = []
  messages (next r st) = messages r ++ step_messages st

  pub Step-Answers :
      {s t : Server L} (st : Step s t) → IsValid s.hash_map → Answers (step_messages st) s t
  unfolding stop
  Step-Answers {s} (accepts accepted a b c d e) valid = Same-Answers (
      rw e (
        accept_client-Keeps (Same s) (Same-StableRounds s) accepted a b c d s
          (record { hash_map = refl; sent = refl })))
  Step-Answers {s} (polls wait e) valid = Same-Answers (
      rw e (
        event_round-Keeps (Same s) (Same-StableRounds s) wait s
          (record { hash_map = refl; sent = refl })))
  Step-Answers {s} {t} (works received now ref before after e run) valid =
      let a =
        message_handler-Answers received now ref (record s { jobs = before ++ after }) valid t
          run in
      record { reads = a.reads; answered = a.answered }
  Step-Answers {s} (sweeps clock e) valid = Same-Answers (rw e (sweep_sessions-Same clock s))
  Step-Answers (snapshots p run e) valid =
      Same-Answers (rw e (record { hash_map = refl; sent = refl }))
  Step-Answers (stops e) valid = Same-Answers (rw e (record { hash_map = refl; sent = refl }))

  pub trans-Answers :
      (ms ns : List (ℕ × Bytes)) (s t u : Server L)
      → Answers ms s t
      → Answers ns t u
      → Answers (ms ++ ns) s u
  trans-Answers ms ns s t u h k = record {
    reads = λ q.
        k.reads q
        ∙ replay_congr (all_writes ns) _ _ h.reads q
        ∙ ap (λ (f : Map). f q)
            (sym (replay-append (all_writes ms) (all_writes ns) (view s.hash_map)))
        ∙ ap (λ (rs : List Record). replay rs (view s.hash_map) q) (sym (all_writes-append ms ns));
    answered =
        k.answered
        ∙ ap (λ (sent : List (ℕ × Bytes)). sent ++ responses ns (view t.hash_map)) h.answered
        ∙ append_assoc s.sent (responses ms (view s.hash_map)) (responses ns (view t.hash_map))
        ∙ ap (λ (rest : List (ℕ × Bytes)). s.sent ++ (responses ms (view s.hash_map) ++ rest))
            (responses_congr ns _ _ h.reads)
        ∙ ap (λ (rest : List (ℕ × Bytes)). s.sent ++ rest)
            (sym (responses-append ms ns (view s.hash_map)));
  }

  -- Over any run of the threads from a sound state, in any order of their events and with
  -- snapshots that succeed, the map at the end is what the writes of the complete messages that
  -- were handled, in that order, make of the map at the start, and the responses sent are those of
  -- these messages in that order, each to the socket of its connection and right for the map that
  -- the messages before it make: the value of a GET, if it is there and not empty, in the line for
  -- a value, and otherwise the fixed line of its case.
  pub Reach-Answers :
      (limit : ℕ) {s t : Server L} (r : Reach s t) → IsSound limit s → Answers (messages r) s t
  Reach-Answers limit {s} here h = quiet-Answers s s refl refl
  Reach-Answers limit {s} {t = last} (next {t = middle} r st) h =
      trans-Answers (messages r) (step_messages st) s middle last (Reach-Answers limit r h)
        (Step-Answers st (Reach-IsSound limit h r).durable.valid)

  -- Over any run of the threads from a sound state with snapshots that succeed, loading the files
  -- at the end into an empty map returns a valid map that is what the writes of the handled
  -- messages make of the map at the start.
  pub Reach-restart :
      (limit : ℕ) {s t : Server L} (r : Reach s t)
      → IsSound limit s
      → Loads
          (replay (all_writes (messages r)) (view s.hash_map))
          (load_data_on_startup true true t.pers (new default_capacity))
  Reach-restart limit {s} {t} r h =
      Loads-congr (replay (all_writes (messages r)) (view s.hash_map))
        (restart-Loads (view t.hash_map) t.pers (Reach-IsSound limit h r).durable.restorable)
        (Reach-Answers limit r h).reads
