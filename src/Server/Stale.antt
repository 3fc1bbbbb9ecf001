-- ===== src/Server/Stale.antt =====
-- src/Server/Server.cpp, a job that waits while its socket is closed and the number of the socket
-- is given to a new client: the job holds the old connection object and reads from the number.
use kv_database.Prelude.{
  get_elem?-append, get_elem?-set-last, ℕ, ◌≤◌, ◌≡◌, ap, ◌∙◌, true, false, some, List, [], ◌∷◌,
  ◌++◌, Bytes, length, get_elem?, set,
}
use kv_database.Result.{ok}
use kv_database.UserSession.{SockAddr}
use kv_database.EventLoop.{EventLoop}
use kv_database.Server.{
  Connection, Server, bytes, find_connection, max_command_buffer_length, has_newline,
  close_connection, with_received, message_handler,
}
use kv_database.Server.Handler.{close_connection-Leaves, rearm_socket-Leaves}
use kv_database.Server.Fragments.{kept, keep_piece, kept-object}
use kv_database.Server.Loop.{register}
use kv_database.Server.Rounds.{fresh, find-set_connection, add_session-key}

module _ {L : Type 0} ⦃loop : EventLoop L⦄ where
  -- The socket of `conn` is closed, and its number is registered again.
  abbrev pub reuse : ℕ → SockAddr → Connection → Server L → Server L
  reuse now addr conn s = register conn.socket addr now true (close_connection conn.socket s)

module _ {L : Type 0} ⦃loop : EventLoop L⦄ (ref now : ℕ) (addr : SockAddr) (conn : Connection)
    (s : Server L) (found : get_elem? s.objects ref ≡ some conn) where
  abbrev reused : Server L
  reused = reuse now addr conn s

  reused-objects : reused.objects ≡ s.objects ++ fresh conn.socket addr ∷ []
  unfolding register
  reused-objects =
      let l = close_connection-Leaves conn.socket s in
      rw (add_session-key conn.socket addr now (close_connection conn.socket s).sessions)
        (ap (λ (o : List Connection). o ++ fresh conn.socket addr ∷ []) l.objects)

  reused-found : get_elem? reused.objects ref ≡ some conn
  reused-found =
      ap (λ (o : List Connection). get_elem? o ref) reused-objects
      ∙ get_elem?-append s.objects (fresh conn.socket addr ∷ []) ref conn found

  reused-find : find_connection conn.socket reused.connections ≡ some (length s.objects)
  unfolding register
  reused-find =
      let l = close_connection-Leaves conn.socket s in
      find-set_connection conn.socket (length (close_connection conn.socket s).objects)
        (close_connection conn.socket s).connections
      ∙ ap (λ (o : List Connection). some (length o)) l.objects

  -- If the socket of a connection object is closed and its number registered for a new client
  -- while a job of the object waits, the job puts what it reads from that number, if this leaves
  -- an incomplete line within the limit, into the old object, while the connection map leads to
  -- the new one, which stays empty.
  pub message_handler-reused :
      (later x : ℕ) (a : Bytes)
      → has_newline (conn.command_buffer ++ x ∷ a) ≡ false
      → length (conn.command_buffer ++ x ∷ a) ≤ max_command_buffer_length
      → (after : Server L) × (message_handler (bytes (x ∷ a)) later ref (reuse now addr conn s)
          ≡ ok after)
        × (find_connection conn.socket (reuse now addr conn s).connections
            ≡ some (length s.objects))
        × (get_elem? after.objects (length s.objects) ≡ some (fresh conn.socket addr))
        × (get_elem? after.objects ref ≡ some (with_received conn (x ∷ a)))
  message_handler-reused later x a line short =
      let piece = with_received conn (x ∷ a) in
      let l =
        rearm_socket-Leaves conn.socket
          (record reused { objects = set reused.objects ref piece }) in
      (
        kept ref conn (x ∷ a) reused,
        keep_piece later ref conn x a reused reused-found line short,
        reused-find,
        ap (λ (o : List Connection). get_elem? o (length s.objects)) l.objects
            ∙ ap (λ (o : List Connection). get_elem? (set o ref piece) (length s.objects))
                reused-objects
            ∙ get_elem?-set-last s.objects ref conn (fresh conn.socket addr) piece found,
        kept-object ref conn (x ∷ a) reused reused-found,
      )
