-- ===== src/Server/Rounds.antt =====
-- src/Server/Server.cpp, `acceptClients` and the sweep of `runEventLoop`: what becomes of a socket.
use kv_database.Prelude.{
  suc, ◌+◌, All, All-map, length-append, get_elem?-last, ℕ, ◌≡◌, refl, ap, sym, ◌∙◌, ◌⊎◌, inl, inr,
  Bool, true, false, Option, none, some, List, [], ◌∷◌, ◌++◌, arith, Bool-cases, length, get_elem?,
  ==_iff, append_assoc, append-nil,
}
use kv_database.UserSession.{SockAddr, key_of, default_max_idle, add_session, Sessions}
use kv_database.UserSession.Expiry.{Holds}
use kv_database.Limiter.{is_allowed}
use kv_database.EventLoop.{EventLoop, EventLoopEntry}
use kv_database.Server.{
  Connection, Server, find_connection, drop_entry, connection_of, close_connection,
}
use kv_database.Server.Handler.{Holds-last}
use kv_database.Server.Loop.{
  set_connection, close_all, close_expired, register, accept_client, sockets, stop, event_round,
}

pub find-set_connection :
    (sock ref : ℕ) (cs : List (ℕ × ℕ))
    → find_connection sock (set_connection sock ref cs) ≡ some ref
unfolding find_connection set_connection
find-set_connection sock ref [] = ground (arith, ==_iff sock sock)
find-set_connection sock ref ((k, c) ∷ cs) =
    ground (arith, ==_iff sock sock, find-set_connection sock ref cs)

pub add_session-key :
    (sock : ℕ) (addr : SockAddr) (now : ℕ) (sessions : Sessions)
    → (add_session sock addr default_max_idle now sessions).0 ≡ key_of addr
unfolding add_session
add_session-key sock addr now sessions = ground arith

length-sockets : (cs : List (ℕ × ℕ)) → length (sockets cs) ≡ length cs
unfolding sockets
length-sockets [] = refl
length-sockets ((k, c) ∷ cs) = ap suc (length-sockets cs)

length-closed :
    (closed : List ℕ) (cs : List (ℕ × ℕ)) (sock : ℕ)
    → length (closed ++ sockets cs ++ sock ∷ []) ≡ length closed + length cs + 1
length-closed closed cs sock = omega (
  arith,
  length-append (closed ++ sockets cs) (sock ∷ []),
  length-append closed (sockets cs),
  length-sockets cs,
)

sockets-Holds : (cs : List (ℕ × ℕ)) → All (λ e. Holds e.0 (sockets cs)) cs
unfolding sockets
sockets-Holds [] = tt
sockets-Holds ((k, c) ∷ cs) =
    (inl refl, All-map (λ e. Holds e.0 (sockets cs)) _ cs (λ e h. inr h) (sockets-Holds cs))

Holds-left : (sock : ℕ) (xs ys : List ℕ) → Holds sock xs → Holds sock (xs ++ ys)
Holds-left sock [] ys h = absurd h
Holds-left sock (x ∷ xs) ys (inl same) = inl same
Holds-left sock (x ∷ xs) ys (inr h) = inr (Holds-left sock xs ys h)

Holds-middle : (sock : ℕ) (xs ys zs : List ℕ) → Holds sock ys → Holds sock (xs ++ ys ++ zs)
Holds-middle sock [] ys zs h = Holds-left sock ys zs h
Holds-middle sock (x ∷ xs) ys zs h = inr (Holds-middle sock xs ys zs h)

-- A new connection object of the address.
abbrev pub fresh : ℕ → SockAddr → Connection
fresh sock addr = record { socket = sock; session_key = key_of addr; command_buffer = [] }

module _ {L : Type 0} ⦃loop : EventLoop L⦄ where
  -- The socket is closed, or the map leads from it to a new connection object.
  abbrev pub IsSettled : ℕ → SockAddr → Server L → Type 0
  IsSettled sock addr s =
      Holds sock s.closed
      ⊎ ((ref : ℕ) × (find_connection sock s.connections ≡ some ref)
          × (get_elem? s.objects ref ≡ some (fresh sock addr)))

  register-IsSettled :
      (sock : ℕ) (addr : SockAddr) (now : ℕ) (non_blocking : Bool) (s : Server L)
      → IsSettled sock addr (register sock addr now non_blocking s)
  unfolding register
  register-IsSettled sock addr now false s = inl (Holds-last sock s.closed)
  register-IsSettled sock addr now true s = inr (
    length s.objects,
    find-set_connection sock (length s.objects) s.connections,
    rw (add_session-key sock addr now s.sessions) (get_elem?-last s.objects (fresh sock addr)),
  )

  -- While the server runs, a socket that accept returned is closed or the connection map leads
  -- from it to a new connection object, on each branch, and the loop goes on.
  pub accept_client-IsSettled :
      (sock : ℕ) (addr : SockAddr) (now_global now_private now : ℕ) (non_blocking : Bool)
      (s : Server L)
      → s.running ≡ true
      → let (goes_on, s') =
          accept_client (some (sock, addr)) now_global now_private now non_blocking s in
        (goes_on ≡ true) × IsSettled sock addr s'
  unfolding accept_client
  accept_client-IsSettled sock addr now_global now_private now non_blocking s running =
      let checked = is_allowed addr.s_addr now_global now_private s.rt in
      elim (Bool-cases checked.0) [
        | inr e ↦ rw e (refl, inl (Holds-last sock s.closed))
        | inl e ↦
            rw (e, running)
              (
                refl,
                register-IsSettled sock addr now non_blocking
                    (record s { rt = checked.1; running = true }),
              )
      ]

  -- What a sweep changes beside the map of connections, the sessions and the event loop.
  pub record Closes (socks : List ℕ) (s s' : Server L) : Type 0 where
    pub closed : s'.closed ≡ s.closed ++ socks
    pub expired_sockets : s'.expired_sockets ≡ s.expired_sockets
    pub hash_map : s'.hash_map ≡ s.hash_map
    pub pers : s'.pers ≡ s.pers
    pub jobs : s'.jobs ≡ s.jobs

  drop_entry-Closes :
      (sock : ℕ) (o : Option Connection) (s : Server L) → Closes [] s (drop_entry sock o s)
  unfolding drop_entry
  drop_entry-Closes sock none s = record {
    closed = sym (append-nil s.closed);
    expired_sockets = refl;
    hash_map = refl;
    pers = refl;
    jobs = refl;
  }
  drop_entry-Closes sock (some c) s = record {
    closed = sym (append-nil s.closed);
    expired_sockets = refl;
    hash_map = refl;
    pers = refl;
    jobs = refl;
  }

  close_connection-Closes :
      (sock : ℕ) (s : Server L) → Closes (sock ∷ []) s (close_connection sock s)
  unfolding close_connection
  close_connection-Closes sock s =
      let s' = record s { event_loop = loop.remove sock s.event_loop } in
      let d = drop_entry-Closes sock (connection_of sock s) s' in
      record {
        closed = refl;
        expired_sockets = d.expired_sockets;
        hash_map = d.hash_map;
        pers = d.pers;
        jobs = d.jobs;
      }

  close_all-Closes : (socks : List ℕ) (s : Server L) → Closes socks s (close_all socks s)
  unfolding close_all
  close_all-Closes [] s = record {
    closed = sym (append-nil s.closed);
    expired_sockets = refl;
    hash_map = refl;
    pers = refl;
    jobs = refl;
  }
  close_all-Closes (sock ∷ rest) s =
      let one = close_connection-Closes sock s in
      let others = close_all-Closes rest (close_connection sock s) in
      record {
        closed =
            others.closed
            ∙ ap (λ (socks : List ℕ). socks ++ rest) one.closed
            ∙ append_assoc s.closed (sock ∷ []) rest;
        expired_sockets = others.expired_sockets ∙ one.expired_sockets;
        hash_map = others.hash_map ∙ one.hash_map;
        pers = others.pers ∙ one.pers;
        jobs = others.jobs ∙ one.jobs;
      }

  -- The start of a round of the event loop closes exactly the sockets that were handed out as
  -- expired, in order, empties their list and touches neither the database nor the jobs.
  pub close_expired-Closes :
      (s : Server L)
      → Closes s.expired_sockets (record s { expired_sockets = [] }) (close_expired s)
        × ((close_expired s).expired_sockets ≡ [])
  unfolding close_expired
  close_expired-Closes s =
      let c = close_all-Closes s.expired_sockets (record s { expired_sockets = [] }) in
      (c, c.expired_sockets)

  -- After a stop each socket of the connection map and the listening socket are closed, with one
  -- call for each entry of the map and one more, the map is empty, and a round of the event loop
  -- changes nothing.
  pub stop-Closes :
      (wait : L → L × Option (List EventLoopEntry)) (s : Server L)
      → All (λ e. Holds e.0 (stop s).closed) s.connections
        × Holds s.server_socket (stop s).closed
        × (length (stop s).closed ≡ length s.closed + length s.connections + 1)
        × ((stop s).connections ≡ [])
        × (event_round wait (stop s) ≡ stop s)
  unfolding stop event_round
  stop-Closes wait s = (
    All-map (λ e. Holds e.0 (sockets s.connections)) _ s.connections
        (λ e. Holds-middle e.0 s.closed (sockets s.connections) (s.server_socket ∷ []))
        (sockets-Holds s.connections),
    Holds-last s.server_socket (s.closed ++ sockets s.connections),
    length-closed s.closed s.connections s.server_socket,
    refl,
    refl,
  )
