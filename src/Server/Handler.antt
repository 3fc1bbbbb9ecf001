-- ===== src/Server/Handler.antt =====
-- src/Server/Server.cpp, `messageHandler` and the teardown of a connection: each path through a
-- job, and what becomes of its socket.
use kv_database.Prelude.{
  ℕ, ◌≡◌, refl, ap, ◌∙◌, ◌⊎◌, true, false, List, [], ◌∷◌, ◌++◌, Bytes, Option, none, some,
  Bool-cases, inl, inr, length, get_elem?, ltb,
}
use kv_database.Result.{Result, ok}
use kv_database.Persistence.Durable.{IsDurable}
use kv_database.UserSession.Expiry.{Holds}
use kv_database.EventLoop.{EventLoop}
use kv_database.Server.{
  Connection, Server, Recv, bytes, would_block, recv_error, max_command_buffer_length, has_newline,
  drop_entry, connection_of, close_connection, rearm_socket, handle_message, check_buffer,
  with_received, receive, handle_connection, message_handler,
}
use kv_database.Server.Command.{run_message-Serves}

pub Holds-last : (sock : ℕ) (xs : List ℕ) → Holds sock (xs ++ sock ∷ [])
Holds-last sock [] = inl refl
Holds-last sock (x ∷ xs) = inr (Holds-last sock xs)

module _ {L : Type 0} ⦃loop : EventLoop L⦄ where
  -- What the teardown and the re-arming of a socket leave alone.
  pub record Leaves (s s' : Server L) : Type 0 where
    pub hash_map : s'.hash_map ≡ s.hash_map
    pub pers : s'.pers ≡ s.pers
    pub objects : s'.objects ≡ s.objects
    pub sent : s'.sent ≡ s.sent

  drop_entry-Leaves :
      (sock : ℕ) (o : Option Connection) (s : Server L) → Leaves s (drop_entry sock o s)
  unfolding drop_entry
  drop_entry-Leaves sock none s = record {
    hash_map = refl;
    pers = refl;
    objects = refl;
    sent = refl;
  }
  drop_entry-Leaves sock (some c) s = record {
    hash_map = refl;
    pers = refl;
    objects = refl;
    sent = refl;
  }

  pub close_connection-Leaves : (sock : ℕ) (s : Server L) → Leaves s (close_connection sock s)
  unfolding close_connection
  close_connection-Leaves sock s =
      let d =
        drop_entry-Leaves sock (connection_of sock s)
          (record s { event_loop = loop.remove sock s.event_loop }) in
      record { hash_map = d.hash_map; pers = d.pers; objects = d.objects; sent = d.sent }

  pub rearm_socket-Leaves : (sock : ℕ) (s : Server L) → Leaves s (rearm_socket sock s)
  unfolding rearm_socket
  rearm_socket-Leaves sock s =
      let s' = record s { event_loop = (loop.rearm sock s.event_loop).1 } in
      elim (Bool-cases (loop.rearm sock s.event_loop).0) [
        | inl e ↦ rw e (record { hash_map = refl; pers = refl; objects = refl; sent = refl })
        | inr e ↦
            let c = close_connection-Leaves sock s' in
            rw e
              (record { hash_map = c.hash_map; pers = c.pers; objects = c.objects; sent = c.sent })
      ]

  -- The next event of the socket will be reported, or the socket is closed and no longer watched.
  abbrev pub IsAnswered : ℕ → Server L → Type 0
  IsAnswered sock s =
      (loop.armed sock s.event_loop ≡ true)
      ⊎ ((loop.watched sock s.event_loop ≡ false) × Holds sock s.closed)

  event_loop-drop_entry :
      (sock : ℕ) (o : Option Connection) (s : Server L)
      → (drop_entry sock o s).event_loop ≡ s.event_loop
  unfolding drop_entry
  event_loop-drop_entry sock none s = refl
  event_loop-drop_entry sock (some c) s = refl

  close_connection-IsAnswered :
      (sock : ℕ) (s : Server L) → IsAnswered sock (close_connection sock s)
  unfolding close_connection
  close_connection-IsAnswered sock s =
      let s' = record s { event_loop = loop.remove sock s.event_loop } in
      inr (
        ap (loop.watched sock) (event_loop-drop_entry sock (connection_of sock s) s')
            ∙ loop.remove-watched sock s.event_loop,
        Holds-last sock s.closed,
      )

  rearm_socket-IsAnswered : (sock : ℕ) (s : Server L) → IsAnswered sock (rearm_socket sock s)
  unfolding rearm_socket
  rearm_socket-IsAnswered sock s = elim (Bool-cases (loop.rearm sock s.event_loop).0) [
    | inl e ↦ rw e (inl (loop.rearm-armed sock s.event_loop e))
    | inr e ↦ rw e (close_connection-IsAnswered sock _)
  ]

  -- The handler returned, the database is durable and the socket is not forgotten.
  pub record Handles (sock : ℕ) (r : Result (Server L)) : Type 0 where
    pub after : Server L
    pub returns : r ≡ ok after
    pub durable : IsDurable after.hash_map after.pers
    pub answered : IsAnswered sock after

  closes-Handles :
      (sock : ℕ) (s : Server L)
      → IsDurable s.hash_map s.pers
      → Handles sock (ok (close_connection sock s))
  closes-Handles sock s d =
      let l = close_connection-Leaves sock s in
      record {
        after = close_connection sock s;
        returns = refl;
        durable = rw (l.hash_map, l.pers) d;
        answered = close_connection-IsAnswered sock s;
      }

  rearms-Handles :
      (sock : ℕ) (s : Server L)
      → IsDurable s.hash_map s.pers
      → Handles sock (ok (rearm_socket sock s))
  rearms-Handles sock s d =
      let l = rearm_socket-Leaves sock s in
      record {
        after = rearm_socket sock s;
        returns = refl;
        durable = rw (l.hash_map, l.pers) d;
        answered = rearm_socket-IsAnswered sock s;
      }

  handle_message-Handles :
      (now ref : ℕ) (conn : Connection) (s : Server L)
      → IsDurable s.hash_map s.pers
      → Handles conn.socket (handle_message now ref conn s)
  unfolding handle_message
  handle_message-Handles now ref conn s d =
      let r = run_message-Serves conn.command_buffer s.hash_map s.pers d in
      rw r.returns (rearms-Handles conn.socket _ r.durable)

  check_buffer-Handles :
      (now ref : ℕ) (conn : Connection) (s : Server L)
      → IsDurable s.hash_map s.pers
      → Handles conn.socket (check_buffer now ref conn s)
  unfolding check_buffer
  check_buffer-Handles now ref conn s d =
      elim (Bool-cases (ltb max_command_buffer_length (length conn.command_buffer))) [
        | inl e ↦ rw e (closes-Handles conn.socket s d)
        | inr e ↦ elim (Bool-cases (has_newline conn.command_buffer)) [
          | inl e' ↦ rw (e, e') (handle_message-Handles now ref conn s d)
          | inr e' ↦ rw (e, e') (rearms-Handles conn.socket s d)
        ]
      ]

  receive-Handles :
      (now ref : ℕ) (conn : Connection) (received : Bytes) (s : Server L)
      → IsDurable s.hash_map s.pers
      → Handles conn.socket (receive now ref conn received s)
  unfolding receive
  receive-Handles now ref conn received s d =
      check_buffer-Handles now ref (with_received conn received) _ d

  handle_connection-Handles :
      (received : Recv) (now ref : ℕ) (conn : Connection) (s : Server L)
      → IsDurable s.hash_map s.pers
      → Handles conn.socket (handle_connection received now ref conn s)
  unfolding handle_connection
  handle_connection-Handles (bytes []) now ref conn s d = closes-Handles conn.socket s d
  handle_connection-Handles (bytes (b ∷ received)) now ref conn s d =
      receive-Handles now ref conn (b ∷ received) s d
  handle_connection-Handles would_block now ref conn s d = rearms-Handles conn.socket s d
  handle_connection-Handles recv_error now ref conn s d = closes-Handles conn.socket s d

  -- Whatever recv returns, the job of a connection object on a durable database returns, keeps the
  -- database durable, and leaves the socket armed, or closed and no longer watched.
  pub message_handler-Handles :
      (received : Recv) (now ref : ℕ) (conn : Connection) (s : Server L)
      → get_elem? s.objects ref ≡ some conn
      → IsDurable s.hash_map s.pers
      → Handles conn.socket (message_handler received now ref s)
  unfolding message_handler
  message_handler-Handles received now ref conn s e d =
      rw (e, message_handler) (handle_connection-Handles received now ref conn s d)
