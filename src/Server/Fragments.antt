-- ===== src/Server/Fragments.antt =====
-- src/Server/Server.cpp, fragmentation: a request that arrives in two pieces, and one that arrives
-- whole.
use kv_database.Prelude.{
  ℕ, ◌≤◌, ◌≡◌, ◌≢◌, refl, ap, sym, ◌∙◌, false, List, [], ◌∷◌, ◌++◌, Bytes, some, Bool-cases, inl,
  inr, length, get_elem?, get_elem?-set, set, set-set, le→ltb-false, ltb, append_assoc,
}
use kv_database.Result.{Result, ok}
use kv_database.Persistence.Durable.{IsDurable}
use kv_database.Server.Command.{run_message-Serves}
use kv_database.EventLoop.{EventLoop}
use kv_database.Server.{
  Connection, Server, bytes, max_command_buffer_length, has_newline, rearm_socket, handle_message,
  check_buffer, with_received, receive, handle_connection, message_handler,
}
use kv_database.Server.Handler.{Leaves, rearm_socket-Leaves, close_connection-Leaves}

module _ {L : Type 0} ⦃loop : EventLoop L⦄ where
  -- What a client and a restart can tell of two states: the database, the connection objects and the
  -- responses.
  pub record SameService (r r' : Result (Server L)) : Type 0 where
    pub left : Server L
    pub right : Server L
    pub left_returns : r ≡ ok left
    pub right_returns : r' ≡ ok right
    pub hash_map : left.hash_map ≡ right.hash_map
    pub pers : left.pers ≡ right.pers
    pub objects : left.objects ≡ right.objects
    pub sent : left.sent ≡ right.sent

  -- Two states that agree in this way.
  pub record Agree (s s' : Server L) : Type 0 where
    pub hash_map : s.hash_map ≡ s'.hash_map
    pub pers : s.pers ≡ s'.pers
    pub objects : s.objects ≡ s'.objects
    pub sent : s.sent ≡ s'.sent

  leave-SameService :
      {s s' a b : Server L} → Agree s s' → Leaves s a → Leaves s' b → SameService (ok a) (ok b)
  leave-SameService {a = a} {b = b} g la lb = record {
    left = a;
    right = b;
    left_returns = refl;
    right_returns = refl;
    hash_map = la.hash_map ∙ g.hash_map ∙ sym lb.hash_map;
    pers = la.pers ∙ g.pers ∙ sym lb.pers;
    objects = la.objects ∙ g.objects ∙ sym lb.objects;
    sent = la.sent ∙ g.sent ∙ sym lb.sent;
  }

  handle_message-SameService :
      (now ref : ℕ) (conn : Connection) (s s' : Server L)
      → IsDurable s'.hash_map s'.pers
      → Agree s s'
      → SameService (handle_message now ref conn s) (handle_message now ref conn s')
  unfolding handle_message
  handle_message-SameService now ref conn s s' d g =
      let r = run_message-Serves conn.command_buffer s'.hash_map s'.pers d in
      rw (g.hash_map, g.pers, r.returns)
        (leave-SameService
          (record {
            hash_map = refl;
            pers = refl;
            objects =
                ap (λ (o : List Connection). set o ref (record conn { command_buffer = [] }))
                  g.objects;
            sent = ap (λ (t : List (ℕ × Bytes)). t ++ (conn.socket, r.done.response) ∷ []) g.sent;
          })
          (rearm_socket-Leaves conn.socket _) (rearm_socket-Leaves conn.socket _))

  check_buffer-SameService :
      (now ref : ℕ) (conn : Connection) (s s' : Server L)
      → IsDurable s'.hash_map s'.pers
      → Agree s s'
      → SameService (check_buffer now ref conn s) (check_buffer now ref conn s')
  unfolding check_buffer
  check_buffer-SameService now ref conn s s' d g =
      elim (Bool-cases (ltb max_command_buffer_length (length conn.command_buffer))) [
        | inl e ↦ rw e (
            leave-SameService g (close_connection-Leaves conn.socket s)
              (close_connection-Leaves conn.socket s'))
        | inr e ↦ elim (Bool-cases (has_newline conn.command_buffer)) [
          | inl e' ↦ rw (e, e') (handle_message-SameService now ref conn s s' d g)
          | inr e' ↦
              rw (e, e')
                (leave-SameService g (rearm_socket-Leaves conn.socket s)
                  (rearm_socket-Leaves conn.socket s'))
        ]
      ]

  -- The first piece of a request: it is kept and the socket is armed again.
  abbrev pub kept : ℕ → Connection → Bytes → Server L → Server L
  kept ref conn a s =
      rearm_socket conn.socket (record s { objects = set s.objects ref (with_received conn a) })

  pub keep_piece :
      (now ref : ℕ) (conn : Connection) (x : ℕ) (a : Bytes) (s : Server L)
      → get_elem? s.objects ref ≡ some conn
      → has_newline (conn.command_buffer ++ x ∷ a) ≡ false
      → length (conn.command_buffer ++ x ∷ a) ≤ max_command_buffer_length
      → message_handler (bytes (x ∷ a)) now ref s ≡ ok (kept ref conn (x ∷ a) s)
  unfolding message_handler handle_connection receive check_buffer
  keep_piece now ref conn x a s e line short =
      rw (e, message_handler, le→ltb-false max_command_buffer_length _ short, line)

  pub kept-object :
      (ref : ℕ) (conn : Connection) (a : Bytes) (s : Server L)
      → get_elem? s.objects ref ≡ some conn
      → get_elem? (kept ref conn a s).objects ref ≡ some (with_received conn a)
  kept-object ref conn a s e =
      let l =
        rearm_socket-Leaves conn.socket
          (record s { objects = set s.objects ref (with_received conn a) }) in
      ap (λ (o : List Connection). get_elem? o ref) l.objects
      ∙ get_elem?-set s.objects ref conn (with_received conn a) e

  receive-kept :
      (now ref : ℕ) (conn : Connection) (a b : Bytes) (s : Server L)
      → IsDurable s.hash_map s.pers
      → SameService
          (receive now ref (with_received conn a) b (kept ref conn a s))
          (receive now ref conn (a ++ b) s)
  unfolding receive
  receive-kept now ref conn a b s d =
      let l =
        rearm_socket-Leaves conn.socket
          (record s { objects = set s.objects ref (with_received conn a) }) in
      let whole = with_received conn (a ++ b) in
      rw (append_assoc conn.command_buffer a b) (
        check_buffer-SameService now ref whole
          (record (kept ref conn a s) { objects = set (kept ref conn a s).objects ref whole })
          (record s { objects = set s.objects ref whole }) d
          (record {
            hash_map = l.hash_map;
            pers = l.pers;
            objects =
                ap (λ (o : List Connection). set o ref whole) l.objects
                ∙ set-set s.objects ref (with_received conn a) whole;
            sent = l.sent;
          }))

  second_piece :
      (now ref : ℕ) (conn : Connection) (x : ℕ) (a : Bytes) (y : ℕ) (b : Bytes) (s : Server L)
      → get_elem? s.objects ref ≡ some conn
      → IsDurable s.hash_map s.pers
      → SameService
          (message_handler (bytes (y ∷ b)) now ref (kept ref conn (x ∷ a) s))
          (message_handler (bytes ((x ∷ a) ++ y ∷ b)) now ref s)
  unfolding message_handler handle_connection
  second_piece now ref conn x a y b s e d =
      rw (kept-object ref conn (x ∷ a) s e, message_handler)
        (rw (e, message_handler) (receive-kept now ref conn (x ∷ a) (y ∷ b) s d))

  -- On a durable database, a first piece that is not empty and leaves the buffer without a newline
  -- and within its limit is only kept; after a second piece that is not empty the database, the
  -- connection objects and the responses are as if both pieces had arrived as one.
  pub fragments :
      (now now' ref : ℕ) (conn : Connection) (a b : Bytes) (s : Server L)
      → get_elem? s.objects ref ≡ some conn
      → IsDurable s.hash_map s.pers
      → a ≢ []
      → b ≢ []
      → has_newline (conn.command_buffer ++ a) ≡ false
      → length (conn.command_buffer ++ a) ≤ max_command_buffer_length
      → (message_handler (bytes a) now ref s ≡ ok (kept ref conn a s))
        × SameService
            (message_handler (bytes b) now' ref (kept ref conn a s))
            (message_handler (bytes (a ++ b)) now' ref s)
  fragments now now' ref conn [] b s e d ha hb line short = absurd (ha refl)
  fragments now now' ref conn (x ∷ a) [] s e d ha hb line short = absurd (hb refl)
  fragments now now' ref conn (x ∷ a) (y ∷ b) s e d ha hb line short =
      (keep_piece now ref conn x a s e line short, second_piece now' ref conn x a y b s e d)
