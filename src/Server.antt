-- ===== src/Server.antt =====
-- src/Server/Server.h and Server.cpp: the server's state, the handler of client messages, the loop
-- that dispatches events, the acceptance and the teardown of connections. A
-- `shared_ptr<Connection>` is an index into `objects`, so that a job and the connection map share
-- one object, which stays when the map drops it. Sockets are numbers. What the system calls return
-- (`recv`, `accept`, the clock, `setNonBlocking`) is an argument; what is sent and which sockets
-- are closed is recorded in the order of the calls. Lines written to `std::cout` are left out.
pub mod Loop
pub mod Start
pub mod Command
pub mod Handler
pub mod Fragments
pub mod Protocol
pub mod Rounds
pub mod Stale
pub mod Links
pub mod Entries
pub mod Stable
pub mod Writes
pub mod Commits
pub mod Responses
pub mod Interleaved
pub mod Answers
use kv_database.Prelude.{
  ℕ, ◌+◌, Bool, true, false, not, Option, none, some, List, [], ◌∷◌, ◌++◌, Bytes, ltb, ◌==◌, ◌===◌,
  if◌then◌else◌, length, get_elem?, set, codes, insert_word, get_word, delete_word, newline,
}
use kv_database.Result.{Result, ok, ◌>>=◌}
use kv_database.HashMap
use kv_database.HashMap.{HashMap, default_capacity}
use kv_database.Persistence.{Persistence, append_to_log, load_data_on_startup}
use kv_database.Stream.{read_word}
use kv_database.Limiter.{RateLimiter, is_allowed}
use kv_database.UserSession.{
  SessionKey, SockAddr, Sessions, add_session, update_activity, remove_session, close_all_sessions,
}
use kv_database.EventLoop.{EventLoop, EventLoopEntry, IoEvent, readable}

-- src/UserSession/Connection.h
pub record Connection : Type 0 where
  pub socket : ℕ
  pub session_key : SessionKey
  pub command_buffer : Bytes

pub record Server (L : Type 0) : Type 0 where
  pub running : Bool
  pub server_socket : ℕ
  pub hash_map : HashMap
  pub pers : Persistence
  pub rt : RateLimiter
  pub sessions : Sessions
  -- the connection objects, and the map from sockets to them
  pub objects : List Connection
  pub connections : List (ℕ × ℕ)
  pub event_loop : L
  pub expired_sockets : List ℕ
  -- the jobs that were handed to the thread pool: `messageHandler` on a connection object
  pub jobs : List ℕ
  -- the responses and the calls of `CloseSocket` so far
  pub sent : List (ℕ × Bytes)
  pub closed : List ℕ

abbrev pub max_command_buffer_length : ℕ
max_command_buffer_length = 2024

-- The answer of `recv`: bytes (none if the client hung up), EWOULDBLOCK, or another error.
pub data Recv : Type 0 where
  bytes : Bytes → Recv
  would_block : Recv
  recv_error : Recv

unfoldable pub find_connection : ℕ → List (ℕ × ℕ) → Option ℕ
find_connection sock [] = none
find_connection sock ((s, c) ∷ rest) = if s == sock then some c else find_connection sock rest

unfoldable pub erase_connection : ℕ → List (ℕ × ℕ) → List (ℕ × ℕ)
erase_connection sock [] = []
erase_connection sock ((s, c) ∷ rest) =
    if s == sock then rest else (s, c) ∷ erase_connection sock rest

-- `commandBuffer.find('\n') != npos`
unfoldable pub has_newline : Bytes → Bool
has_newline [] = false
has_newline (c ∷ s) = if c == newline then true else has_newline s

abbrev pub insert_response : Bytes
insert_response = codes "Insert command was successful" ++ newline ∷ []

abbrev pub empty_value_response : Bytes
empty_value_response = codes "Empty Value Recieved, Try again" ++ newline ∷ []

abbrev pub delete_response : Bytes
delete_response = codes "Delete command was successful" ++ newline ∷ []

abbrev pub unknown_response : Bytes
unknown_response = codes "No command was received" ++ newline ∷ []

abbrev pub missing_response : Bytes
missing_response = codes "Get command was successful but key dont exist" ++ newline ∷ []

-- `""` from the map stands for a missing key.
abbrev pub get_response : Bytes → Bytes
get_response [] = missing_response
get_response (c ∷ v) = codes "Get command was successful: " ++ (c ∷ v) ++ newline ∷ []

-- What a command does to the map and the files, and its response.
pub record Outcome : Type 0 where
  pub hash_map : HashMap
  pub pers : Persistence
  pub response : Bytes

-- INSERT, with the value that the stream has behind the key.
unfoldable pub insert_command : Bytes → Bytes → HashMap → Persistence → Result Outcome
insert_command key [] m p = ok (record { hash_map = m; pers = p; response = empty_value_response })
insert_command key (c ∷ v) m p = do
  m' ← HashMap.insert m key (c ∷ v)
  ok (record {
    hash_map = m';
    pers = append_to_log insert_word key (c ∷ v) p;
    response = insert_response;
  })

unfoldable pub get_command : Bytes → HashMap → Persistence → Result Outcome
get_command key m p = do
  result_get ← HashMap.get m key
  ok (record { hash_map = m; pers = p; response = get_response result_get })

unfoldable pub delete_command : Bytes → HashMap → Persistence → Result Outcome
delete_command key m p = do
  m' ← HashMap.remove m key
  ok (record {
    hash_map = m';
    pers = append_to_log delete_word key [] p;
    response = delete_response;
  })

-- The command word, the key and, for an INSERT, the value are the first words of the message.
unfoldable pub run_message : Bytes → HashMap → Persistence → Result Outcome
unfolding insert_command get_command delete_command
run_message message m p =
    let (command, iss) = read_word message in
    let (key, iss') = read_word iss in
    let (value, iss'') = read_word iss' in
    if command === insert_word
    then insert_command key value m p
    else if command === get_word
    then get_command key m p
    else if command === delete_word
    then delete_command key m p
    else ok (record { hash_map = m; pers = p; response = unknown_response })

-- The connection object after `commandBuffer.append`.
abbrev pub with_received : Connection → Bytes → Connection
with_received conn received = record conn { command_buffer = conn.command_buffer ++ received }

module _ {L : Type 0} ⦃loop : EventLoop L⦄ where
  -- The session and the map entry go if the map has the socket.
  unfoldable pub drop_entry : ℕ → Option Connection → Server L → Server L
  drop_entry sock none s = s
  drop_entry sock (some c) s = record s {
    sessions = remove_session c.session_key s.sessions;
    connections = erase_connection sock s.connections;
  }

  abbrev pub connection_of : ℕ → Server L → Option Connection
  connection_of sock s = elim (find_connection sock s.connections) [
    | none ↦ none
    | some c ↦ get_elem? s.objects c
  ]

  unfoldable pub close_connection : ℕ → Server L → Server L
  unfolding drop_entry
  close_connection sock s =
      let s' = record s { event_loop = loop.remove sock s.event_loop } in
      let dropped = drop_entry sock (connection_of sock s') s' in
      record dropped { closed = s.closed ++ sock ∷ [] }

  unfoldable pub rearm_socket : ℕ → Server L → Server L
  rearm_socket sock s =
      let (armed, l) = loop.rearm sock s.event_loop in
      let s' = record s { event_loop = l } in if armed then s' else close_connection sock s'

  -- A complete message: the session is refreshed, the buffer emptied, the command run and answered.
  unfoldable pub handle_message : ℕ → ℕ → Connection → Server L → Result (Server L)
  handle_message now ref conn s = do
    done ← run_message conn.command_buffer s.hash_map s.pers
    ok (
        rearm_socket conn.socket (record s {
          hash_map = done.hash_map;
          pers = done.pers;
          sessions = update_activity conn.session_key now s.sessions;
          objects = set s.objects ref (record conn { command_buffer = [] });
          sent = s.sent ++ (conn.socket, done.response) ∷ [];
        }))

  -- The tests of the buffer: too long, incomplete, or complete.
  unfoldable pub check_buffer : ℕ → ℕ → Connection → Server L → Result (Server L)
  check_buffer now ref conn s =
      if ltb max_command_buffer_length (length conn.command_buffer)
      then ok (close_connection conn.socket s)
      else if has_newline conn.command_buffer
      then handle_message now ref conn s
      else ok (rearm_socket conn.socket s)

  -- Bytes that arrived are added to the buffer of the connection.
  unfoldable pub receive : ℕ → ℕ → Connection → Bytes → Server L → Result (Server L)
  receive now ref conn received s =
      let conn' = with_received conn received in
      check_buffer now ref conn' (record s { objects = set s.objects ref conn' })

  unfoldable pub handle_connection : Recv → ℕ → ℕ → Connection → Server L → Result (Server L)
  handle_connection (bytes []) now ref conn s = ok (close_connection conn.socket s)
  handle_connection (bytes (b ∷ received)) now ref conn s = receive now ref conn (b ∷ received) s
  handle_connection would_block now ref conn s = ok (rearm_socket conn.socket s)
  handle_connection recv_error now ref conn s = ok (close_connection conn.socket s)

  -- `messageHandler`, the job of a connection object.
  unfoldable pub message_handler : Recv → ℕ → ℕ → Server L → Result (Server L)
  message_handler received now ref s = elim (get_elem? s.objects ref) [
    | none ↦ ok s
    | some conn ↦ handle_connection received now ref conn s
  ]
