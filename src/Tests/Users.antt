-- ===== src/Tests/Users.antt =====
-- The sessions of two clients.
use kv_database.Prelude.{ℕ, ◌≡◌, refl, ◌*◌, ◌↔◌, arith, [], ◌∷◌, none}
use kv_database.Limiter.{nano}
use kv_database.UserSession.{
  SessionKey, SockAddr, UserSession, Sessions, key_of, find_session, add_session, is_expired,
  cleanup_expired_sessions,
}
use kv_database.UserSession.Table.{IsUnique}
use kv_database.UserSession.Expiry.{Holds, Expired, cleanup-exact, add_session-stale}

abbrev home : SockAddr
home = record { s_addr = 1; sin_port = 2 }

abbrev office : SockAddr
office = record { s_addr = 3; sin_port = 4 }

abbrev session : ℕ → UserSession
session socket = record {
  user_socket = socket;
  last_activity_time = 0;
  session_maximum_idle_time = 240;
  cached_ip_str = [];
  cached_port_str = [];
}

abbrev sessions : Sessions
sessions = (key_of home, session 5) ∷ (key_of office, session 6) ∷ []

sessions-IsUnique : IsUnique sessions
unfolding find_session
sessions-IsUnique = (ground arith, (refl, tt))

-- Five minutes.
abbrev late : SessionKey → ℕ
late key = 300 * nano

cleanup-exact_example : Holds 6 (cleanup_expired_sessions late sessions).0 ↔ Expired late 6 sessions
cleanup-exact_example = cleanup-exact late 6 sessions sessions-IsUnique

add_session-stale_example :
    let added = (add_session 9 home 240 (200 * nano) sessions).1 in
    let (handed, kept) = cleanup_expired_sessions late added in
    Holds 5 handed × (find_session (key_of home) kept ≡ none)
unfolding find_session is_expired
add_session-stale_example =
    add_session-stale late 9 home 240 (200 * nano) (session 5) sessions sessions-IsUnique
      (ground arith) (ground arith)
