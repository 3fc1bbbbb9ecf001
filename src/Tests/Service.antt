-- ===== src/Tests/Service.antt =====
-- The handler of messages on a server with one connection, over an epoll instance that is a
-- function from descriptors to their event masks.
use kv_database.Prelude.{
  ℕ, ◌≡◌, refl, true, Option, none, some, [], ◌∷◌, ◌++◌, arith, Bytes, codes, ◌==◌, ==_iff,
  if◌then◌else◌, newline,
}
use kv_database.Result.{ok}
use kv_database.EventLoop.Epoll.{Epoll, is_registered, epoll_event_loop}
use kv_database.Limiter.{default_limiter}
use kv_database.Server.{Connection, Server, bytes, message_handler, has_newline}
use kv_database.Server.Handler.{Handles, message_handler-Handles}
use kv_database.Server.Fragments.{SameService, kept, fragments}
use kv_database.Tests.Samples.{first_map, first_files, first-IsDurable}

abbrev pub Kernel : Type 0
Kernel = ℕ → Option ℕ

abbrev pub set_interest : ℕ → Option ℕ → Kernel → Kernel
set_interest fd events k j = if fd == j then events else k j

pub set_interest-same :
    (fd : ℕ) (events : Option ℕ) (k : Kernel) → set_interest fd events k fd ≡ events
set_interest-same fd events k = rw ((==_iff fd fd).1 refl)

instance abbrev pub kernel_epoll : Epoll Kernel
kernel_epoll = record {
  ctl_add = λ fd events k. set_interest fd (some events) k;
  ctl_del = λ fd k. set_interest fd none k;
  ctl_mod = λ fd events k. (is_registered (k fd), set_interest fd (some events) k);
  epoll_wait = λ k. (k, some []);
  interest = λ fd k. k fd;
  ctl_del-interest = λ fd k. set_interest-same fd none k;
  ctl_mod-interest = λ fd events k e. set_interest-same fd (some events) k;
}

abbrev pub client : Connection
client = record {
  socket = 5;
  session_key = record { raw_ip = 1; raw_port = 2 };
  command_buffer = [];
}

abbrev pub server : Server Kernel
server = record {
  running = true;
  server_socket = 3;
  hash_map = first_map;
  pers = first_files;
  rt = default_limiter 0;
  sessions = [];
  objects = client ∷ [];
  connections = (5, 0) ∷ [];
  event_loop = λ j. none;
  expired_sockets = [];
  jobs = [];
  sent = [];
  closed = [];
}

abbrev front : Bytes
front = codes "INSERT name "

abbrev back : Bytes
back = codes "Ada" ++ newline ∷ []

message_handler-Handles_example : Handles 5 (message_handler (bytes back) 0 0 server)
message_handler-Handles_example =
    message_handler-Handles (bytes back) 0 0 client server refl first-IsDurable

fragments_example :
    (message_handler (bytes front) 0 0 server ≡ ok (kept 0 client front server))
    × SameService
        (message_handler (bytes back) 1 0 (kept 0 client front server))
        (message_handler (bytes (front ++ back)) 1 0 server)
unfolding has_newline
fragments_example =
    fragments 0 1 0 client front back server refl first-IsDurable (λ e. cc) (λ e. cc) refl
      (omega arith)
