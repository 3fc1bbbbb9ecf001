-- ===== src/Server/Loop.antt =====
-- src/Server/Server.cpp, the threads around the handler: `acceptClients`, `runEventLoop`,
-- `onSessionExpired` and `stop`, each round of a loop as one step.
use kv_database.Prelude.{
  ℕ, Bool, true, false, not, Option, none, some, List, [], ◌∷◌, ◌++◌, ◌==◌, if◌then◌else◌, length,
}
use kv_database.Limiter.{is_allowed}
use kv_database.UserSession.{
  SessionKey, cleanup_expired_sessions, SockAddr, default_max_idle, add_session, remove_session,
  close_all_sessions,
}
use kv_database.EventLoop.{EventLoop, EventLoopEntry, readable}
use kv_database.Server.{Server, find_connection, close_connection}

-- `connections[sock] = …`
unfoldable pub set_connection : ℕ → ℕ → List (ℕ × ℕ) → List (ℕ × ℕ)
set_connection sock ref [] = (sock, ref) ∷ []
set_connection sock ref ((s, c) ∷ rest) =
    if s == sock then (s, ref) ∷ rest else (s, c) ∷ set_connection sock ref rest

-- The sockets of the map.
unfoldable pub sockets : List (ℕ × ℕ) → List ℕ
sockets [] = []
sockets ((s, c) ∷ rest) = s ∷ sockets rest

module _ {L : Type 0} ⦃loop : EventLoop L⦄ where
  -- `onSessionExpired`, the callback of the session manager.
  unfoldable pub on_session_expired : ℕ → Server L → Server L
  on_session_expired sock s = record s { expired_sockets = s.expired_sockets ++ sock ∷ [] }

  unfoldable pub report_expired : List ℕ → Server L → Server L
  unfolding on_session_expired
  report_expired [] s = s
  report_expired (sock ∷ rest) s = report_expired rest (on_session_expired sock s)

  -- `cleanup_expired_sessions` on the server's table, with `onSessionExpired` as its callback.
  unfoldable pub sweep_sessions : (SessionKey → ℕ) → Server L → Server L
  unfolding report_expired
  sweep_sessions clock s =
      let (expired, kept) = cleanup_expired_sessions clock s.sessions in
      report_expired expired (record s { sessions = kept })

  unfoldable pub close_all : List ℕ → Server L → Server L
  close_all [] s = s
  close_all (sock ∷ rest) s = close_all rest (close_connection sock s)

  -- The start of a round of `runEventLoop`: the expired sockets are taken out and closed.
  unfoldable pub close_expired : Server L → Server L
  unfolding close_all
  close_expired s = close_all s.expired_sockets (record s { expired_sockets = [] })

  -- A ready socket becomes a job if it has a connection; any other event closes the socket.
  unfoldable pub dispatch : EventLoopEntry → Server L → Server L
  dispatch entry s = elim entry.event [
    | readable ↦ elim (find_connection entry.socket s.connections) [
      | none ↦ s
      | some ref ↦ record s { jobs = s.jobs ++ ref ∷ [] }
    ]
    | _ ↦ close_connection entry.socket s
  ]

  unfoldable pub dispatch_all : List EventLoopEntry → Server L → Server L
  unfolding dispatch
  dispatch_all [] s = s
  dispatch_all (entry ∷ rest) s = dispatch_all rest (dispatch entry s)

  -- A round of `runEventLoop` behind its test of `running`, with what `wait` did to the loop and the
  -- events that it gave, `none` for -1.
  unfoldable pub live_round : (L → L × Option (List EventLoopEntry)) → Server L → Server L
  unfolding close_expired dispatch_all
  live_round wait s =
      let swept = close_expired s in
      let (l, events) = wait swept.event_loop in
      let waited = record swept { event_loop = l } in
      elim events [ none ↦ waited | some entries ↦ dispatch_all entries waited ]

  unfoldable pub event_round : (L → L × Option (List EventLoopEntry)) → Server L → Server L
  unfolding live_round
  event_round wait s = if s.running then live_round wait s else s

  -- The connection of an accepted socket: its session, its object and its registration.
  unfoldable pub register : ℕ → SockAddr → ℕ → Bool → Server L → Server L
  register sock addr now non_blocking s =
      let (key, sessions) = add_session sock addr default_max_idle now s.sessions in
      if non_blocking
      then record s {
        sessions = sessions;
        objects =
            s.objects ++ record { socket = sock; session_key = key; command_buffer = [] } ∷ [];
        connections = set_connection sock (length s.objects) s.connections;
        event_loop = loop.add sock s.event_loop;
      }
      else record s { sessions = remove_session key sessions; closed = s.closed ++ sock ∷ [] }

  -- A round of `acceptClients` behind its test of `running`, with what `accept` returned, and whether
  -- the loop goes on. The rate limit comes first; a socket accepted after a stop stays open.
  unfoldable pub accept_client :
      Option (ℕ × SockAddr) → ℕ → ℕ → ℕ → Bool → Server L → Bool × Server L
  unfolding register
  accept_client none now_global now_private now non_blocking s = (false, s)
  accept_client (some (sock, addr)) now_global now_private now non_blocking s =
      let (allowed, rt) = is_allowed addr.s_addr now_global now_private s.rt in
      let s' = record s { rt = rt } in
      if not allowed
      then (true, record s' { closed = s.closed ++ sock ∷ [] })
      else if not s.running
      then (false, s')
      else (true, register sock addr now non_blocking s')

  -- `stop`, up to the join of the event loop's thread.
  unfoldable pub stop : Server L → Server L
  unfolding sockets
  stop s = record s {
    running = false;
    closed = s.closed ++ sockets s.connections ++ s.server_socket ∷ [];
    connections = [];
    sessions = close_all_sessions s.sessions;
  }

  -- `~Server`, before the members are destroyed.
  unfoldable pub destroy_server : Server L → Server L
  unfolding stop
  destroy_server = stop
