-- ===== src/Server/Start.antt =====
-- src/Server/Server.cpp, the constructor and `start`. What is left out: `makeEventLoop` is the
-- state `l` of a loop, the port plays no part, and the threads are the events of
-- kv_database.System. An exception ends the program, so the state that it leaves is that of the
-- files alone.
use kv_database.Prelude.{ℕ, Bool, true, Option, none, some, [], if◌then◌else◌, Bytes}
use kv_database.Result.{Result, ok, fault, socket_failed, bind_failed, listen_failed, ◌>>=◌}
use kv_database.HashMap
use kv_database.HashMap.{default_capacity}
use kv_database.Persistence.{Persistence, construct, load_data_on_startup}
use kv_database.Limiter.{default_limiter}
use kv_database.Server.{Server}

module _ {L : Type 0} where
  -- The members as their constructors leave them, and the listening socket.
  unfoldable pub with_socket : Option ℕ → L → ℕ → Persistence → Result (Server L)
  with_socket none l now p = fault socket_failed
  with_socket (some sock) l now p = ok (record {
    running = true;
    server_socket = sock;
    hash_map = HashMap.new default_capacity;
    pers = p;
    rt = default_limiter now;
    sessions = [];
    objects = [];
    connections = [];
    event_loop = l;
    expired_sockets = [];
    jobs = [];
    sent = [];
    closed = [];
  })

  -- The constructor over the files that it finds, with the answer of `socket`.
  unfoldable pub create : Bool → Option Bytes → Option Bytes → Option ℕ → L → ℕ → Result (Server L)
  unfolding with_socket
  create opens aof rdb socket l now = do p ← construct opens aof rdb; with_socket socket l now p

  -- `start`, with the answers of `bind`, `listen` and of opening the files.
  unfoldable pub start : Bool → Bool → Bool → Bool → Server L → Result (Server L)
  start binds listens rdb_opens aof_opens s =
      if binds
      then if listens
        then (do
          m ← load_data_on_startup rdb_opens aof_opens s.pers s.hash_map
          ok (record s { hash_map = m }))
        else fault listen_failed
      else fault bind_failed
