-- ===== src/Server/Stable.antt =====
-- src/Server/Server.cpp, the changes of state that its threads are made of: what each of them
-- keeps, a round of a loop and the job of a connection keep too.
use kv_database.Prelude.{
  ℕ, ◌≡◌, refl, Bool, true, false, not, Option, none, some, List, [], ◌∷◌, ◌++◌, Bytes,
  if◌then◌else◌, Bool-cases, Option-cases, inl, inr, length, get_elem?, get_elem?-set, set, ltb,
}
use mathlib.Core.Path.{subst}
use kv_database.Result.{Result, ok, fault, ◌>>=◌, ok-injective}
use kv_database.UserSession.{SockAddr, update_activity}
use kv_database.Limiter.{is_allowed}
use kv_database.EventLoop.{EventLoop, EventLoopEntry, IoEvent, readable, writable, hang_up, error}
use kv_database.Server.{
  Connection, Server, Recv, bytes, would_block, recv_error, Outcome, max_command_buffer_length,
  has_newline, find_connection, run_message, close_connection, rearm_socket, handle_message,
  check_buffer, with_received, receive, handle_connection, message_handler,
}
use kv_database.Server.Loop.{
  close_all, close_expired, dispatch, dispatch_all, live_round, event_round, register,
  accept_client,
}

module _ {L : Type 0} ⦃loop : EventLoop L⦄ where
  -- The server when a command has been run and answered.
  abbrev pub served : ℕ → ℕ → Connection → Outcome → Server L → Server L
  served now ref conn done s = record s {
    hash_map = done.hash_map;
    pers = done.pers;
    sessions = update_activity conn.session_key now s.sessions;
    objects = set s.objects ref (record conn { command_buffer = [] });
    sent = s.sent ++ (conn.socket, done.response) ∷ [];
  }

  -- The changes of the two loops keep `P`.
  pub record StableRounds (P : Server L → Type 0) : Type 0 where
    pub closes : (sock : ℕ) (s : Server L) → P s → P (close_connection sock s)
    pub polls : (l : L) (s : Server L) → P s → P (record s { event_loop = l })
    pub clears : (s : Server L) → P s → P (record s { expired_sockets = [] })
    pub hands_out :
        (sock ref : ℕ) (s : Server L)
        → find_connection sock s.connections ≡ some ref
        → P s
        → P (record s { jobs = s.jobs ++ ref ∷ [] })
    pub limits :
        (ip now_global now_private : ℕ) (s : Server L)
        → P s
        → P (record s { rt = (is_allowed ip now_global now_private s.rt).1 })
    pub refuses : (sock : ℕ) (s : Server L) → P s → P (record s { closed = s.closed ++ sock ∷ [] })
    pub registers :
        (sock : ℕ) (addr : SockAddr) (now : ℕ) (non_blocking : Bool) (s : Server L)
        → P s
        → P (register sock addr now non_blocking s)

  -- So do those of a job.
  pub record Stable (P : Server L → Type 0) : Type 0 where
    pub rounds : StableRounds P
    pub replaces :
        (ref : ℕ) (c c' : Connection) (s : Server L)
        → get_elem? s.objects ref ≡ some c
        → c'.socket ≡ c.socket
        → P s
        → P (record s { objects = set s.objects ref c' })
    pub serves :
        (now ref : ℕ) (conn : Connection) (done : Outcome) (s : Server L)
        → get_elem? s.objects ref ≡ some conn
        → run_message conn.command_buffer s.hash_map s.pers ≡ ok done
        → P s
        → P (served now ref conn done s)

  module _ (P : Server L → Type 0) (stable : StableRounds P) where
    close_all-Keeps : (socks : List ℕ) (s : Server L) → P s → P (close_all socks s)
    unfolding close_all
    close_all-Keeps [] s h = h
    close_all-Keeps (sock ∷ rest) s h =
        close_all-Keeps rest (close_connection sock s) (stable.closes sock s h)

    event-Keeps :
        (entry : EventLoopEntry) (event : IoEvent) (s : Server L)
        → entry.event ≡ event
        → P s
        → P (dispatch entry s)
    unfolding dispatch
    event-Keeps entry readable s is_event h =
        elim (Option-cases (find_connection entry.socket s.connections)) [
          | inl e ↦ rw (is_event, e, dispatch) h
          | inr (ref, e) ↦ rw (is_event, e, dispatch) (stable.hands_out entry.socket ref s e h)
        ]
    event-Keeps entry writable s is_event h = rw is_event (stable.closes entry.socket s h)
    event-Keeps entry hang_up s is_event h = rw is_event (stable.closes entry.socket s h)
    event-Keeps entry error s is_event h = rw is_event (stable.closes entry.socket s h)

    dispatch_all-Keeps :
        (entries : List EventLoopEntry) (s : Server L) → P s → P (dispatch_all entries s)
    unfolding dispatch_all
    dispatch_all-Keeps [] s h = h
    dispatch_all-Keeps (entry ∷ rest) s h =
        dispatch_all-Keeps rest (dispatch entry s) (event-Keeps entry entry.event s refl h)

    live_round-Keeps :
        (wait : L → L × Option (List EventLoopEntry)) (s : Server L) → P s → P (live_round wait s)
    unfolding live_round close_expired
    live_round-Keeps wait s h =
        let swept = close_all s.expired_sockets (record s { expired_sockets = [] }) in
        let c =
          close_all-Keeps s.expired_sockets (record s { expired_sockets = [] })
            (stable.clears s h) in
        let w = stable.polls (wait swept.event_loop).0 swept c in
        let waited = record swept { event_loop = (wait swept.event_loop).0 } in
        elim (Option-cases (wait swept.event_loop).1) [
          | inl e ↦ rw (e, live_round) w
          | inr (entries, e) ↦ rw (e, live_round) (dispatch_all-Keeps entries waited w)
        ]

    either-Keeps : (b : Bool) (x y : Server L) → P x → P y → P (if b then x else y)
    either-Keeps true x y hx hy = hx
    either-Keeps false x y hx hy = hy

    either_reply-Keeps :
        (b : Bool) (x y : Bool × Server L) → P x.1 → P y.1 → P (if b then x else y).1
    either_reply-Keeps true x y hx hy = hx
    either_reply-Keeps false x y hx hy = hy

    pub event_round-Keeps :
        (wait : L → L × Option (List EventLoopEntry)) (s : Server L) → P s → P (event_round wait s)
    unfolding event_round
    event_round-Keeps wait s h =
        either-Keeps s.running (live_round wait s) s (live_round-Keeps wait s h) h

    pub accept_client-Keeps :
        (accepted : Option (ℕ × SockAddr)) (now_global now_private now : ℕ) (non_blocking : Bool)
        (s : Server L)
        → P s
        → P (accept_client accepted now_global now_private now non_blocking s).1
    unfolding accept_client
    accept_client-Keeps none now_global now_private now non_blocking s h = h
    accept_client-Keeps (some (sock, addr)) now_global now_private now non_blocking s h =
        let (allowed, rt) = is_allowed addr.s_addr now_global now_private s.rt in
        let s' = record s { rt = rt } in
        let h' = stable.limits addr.s_addr now_global now_private s h in
        either_reply-Keeps (not allowed) _ _ (stable.refuses sock s' h') (
          either_reply-Keeps (not s.running) _ _ h'
            (stable.registers sock addr now non_blocking s' h'))

  module _ (P : Server L → Type 0) (stable : Stable P) where
    rearm_socket-Keeps : (sock : ℕ) (s : Server L) → P s → P (rearm_socket sock s)
    unfolding rearm_socket
    rearm_socket-Keeps sock s h =
        let s' = record s { event_loop = (loop.rearm sock s.event_loop).1 } in
        let h' = stable.rounds.polls (loop.rearm sock s.event_loop).1 s h in
        elim (Bool-cases (loop.rearm sock s.event_loop).0) [
          | inl e ↦ rw e h'
          | inr e ↦ rw e (stable.rounds.closes sock s' h')
        ]

    -- If the call returned, its state has `P`.
    abbrev pub Keeps : Result (Server L) → Type 0
    Keeps r = (after : Server L) → r ≡ ok after → P after

    ok-Keeps : (s : Server L) → P s → Keeps (ok s)
    ok-Keeps s h after e = subst P (ok-injective e) h

    then-Keeps :
        (r : Result Outcome) (f : Outcome → Result (Server L))
        → ((done : Outcome) → r ≡ ok done → Keeps (f done))
        → Keeps (r >>= f)
    then-Keeps (ok done) f h after e = h done refl after e
    then-Keeps (fault x) f h after e = absurd (cc e)

    handle_message-Keeps :
        (now ref : ℕ) (conn : Connection) (s : Server L)
        → get_elem? s.objects ref ≡ some conn
        → P s
        → Keeps (handle_message now ref conn s)
    unfolding handle_message
    handle_message-Keeps now ref conn s e h =
        then-Keeps (run_message conn.command_buffer s.hash_map s.pers) _ (λ done run. ok-Keeps _ (
          rearm_socket-Keeps conn.socket (served now ref conn done s)
            (stable.serves now ref conn done s e run h)))

    check_buffer-Keeps :
        (now ref : ℕ) (conn : Connection) (s : Server L)
        → get_elem? s.objects ref ≡ some conn
        → P s
        → Keeps (check_buffer now ref conn s)
    unfolding check_buffer
    check_buffer-Keeps now ref conn s e h =
        elim (Bool-cases (ltb max_command_buffer_length (length conn.command_buffer))) [
          | inl x ↦ rw x (ok-Keeps _ (stable.rounds.closes conn.socket s h))
          | inr x ↦ elim (Bool-cases (has_newline conn.command_buffer)) [
            | inl y ↦ rw (x, y) (handle_message-Keeps now ref conn s e h)
            | inr y ↦ rw (x, y) (ok-Keeps _ (rearm_socket-Keeps conn.socket s h))
          ]
        ]

    receive-Keeps :
        (now ref : ℕ) (conn : Connection) (received : Bytes) (s : Server L)
        → get_elem? s.objects ref ≡ some conn
        → P s
        → Keeps (receive now ref conn received s)
    unfolding receive
    receive-Keeps now ref conn received s e h =
        check_buffer-Keeps now ref (with_received conn received) _
          (get_elem?-set s.objects ref conn (with_received conn received) e)
          (stable.replaces ref conn (with_received conn received) s e refl h)

    handle_connection-Keeps :
        (received : Recv) (now ref : ℕ) (conn : Connection) (s : Server L)
        → get_elem? s.objects ref ≡ some conn
        → P s
        → Keeps (handle_connection received now ref conn s)
    unfolding handle_connection
    handle_connection-Keeps (bytes []) now ref conn s e h =
        ok-Keeps _ (stable.rounds.closes conn.socket s h)
    handle_connection-Keeps (bytes (b ∷ received)) now ref conn s e h =
        receive-Keeps now ref conn (b ∷ received) s e h
    handle_connection-Keeps would_block now ref conn s e h =
        ok-Keeps _ (rearm_socket-Keeps conn.socket s h)
    handle_connection-Keeps recv_error now ref conn s e h =
        ok-Keeps _ (stable.rounds.closes conn.socket s h)

    pub message_handler-Keeps :
        (received : Recv) (now ref : ℕ) (s : Server L)
        → P s
        → Keeps (message_handler received now ref s)
    unfolding message_handler
    message_handler-Keeps received now ref s h = elim (Option-cases (get_elem? s.objects ref)) [
      | inl e ↦ rw (e, message_handler) (ok-Keeps s h)
      | inr (conn, e) ↦
          rw (e, message_handler) (handle_connection-Keeps received now ref conn s e h)
    ]
