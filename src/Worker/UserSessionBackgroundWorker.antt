-- ===== src/Worker/UserSessionBackgroundWorker.antt =====
-- src/Worker/UserSessionBackgroundWorker.h and UserSessionBackgroundWorker.cpp: the thread that
-- sweeps the sessions every interval. A round holds the two readings of `active`, before and after
-- the wait, and the clock of the sweep.
use kv_database.Prelude.{
  ℕ, ◌≡◌, refl, ap, ◌∙◌, Bool, true, false, Option, List, [], ◌∷◌, ◌++◌, if◌then◌else◌, Bool-cases,
  inl, inr,
}
use kv_database.UserSession.{
  SessionKey, UserSession, Sessions, find_session, cleanup_expired_sessions,
}
use kv_database.UserSession.Table.{IsUnique}
use kv_database.UserSession.Expiry.{unless_expired, find-cleanup, cleanup-IsUnique}

-- The interval in minutes: the default argument of the constructor.
abbrev pub default_interval : ℕ
default_interval = 1

pub record Round : Type 0 where
  pub active : Bool
  pub active_after : Bool
  pub clock : SessionKey → ℕ

-- `run` over a table that no one else changes: the sockets that were handed out, in order, whether the
-- thread has returned, and the table.
unfoldable pub run : List Round → Sessions → List ℕ × Bool × Sessions
run [] sessions = ([], false, sessions)
run (r ∷ rounds) sessions =
    let (expired, kept) = cleanup_expired_sessions r.clock sessions in
    let (later, returned, left) = run rounds kept in
    if r.active
    then if r.active_after then (expired ++ later, returned, left) else ([], true, sessions)
    else ([], true, sessions)

-- The session of a key under the sweeps of the rounds before the first that reads a stop.
unfoldable pub survives : List Round → SessionKey → Option UserSession → Option UserSession
survives [] q s = s
survives (r ∷ rounds) q s =
    let rest = survives rounds q (unless_expired (r.clock q) s) in
    if r.active then if r.active_after then rest else s else s

-- Over a table of unique keys that no one else changes, the rounds of the background worker leave
-- at each key the session that was there if no sweep before the first reading of a stop finds it
-- expired, and nothing if one does.
pub find-run :
    (rounds : List Round) (q : SessionKey) (sessions : Sessions)
    → IsUnique sessions
    → find_session q (run rounds sessions).2 ≡ survives rounds q (find_session q sessions)
unfolding run survives
find-run [] q sessions u = refl
find-run (r ∷ rounds) q sessions u =
    let rest =
      find-run rounds q (cleanup_expired_sessions r.clock sessions).1
        (cleanup-IsUnique r.clock sessions u) in
    elim (Bool-cases r.active) [
      | inr e ↦ rw e
      | inl e ↦ elim (Bool-cases r.active_after) [
        | inr e' ↦ rw (e, e')
        | inl e' ↦ rw (e, e') (rest ∙ ap (survives rounds q) (find-cleanup r.clock q sessions u))
      ]
    ]
