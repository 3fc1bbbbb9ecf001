-- ===== src/Tests/Systems.antt =====
-- The threads over one server, its life over a restart, and how the program is asked to stop.
use kv_database.Prelude.{
  All, length, ◌+◌, ◌≡◌, refl, ◌↔◌, true, false, Option, none, some, List, [], ◌∷◌, ◌++◌, arith,
  Bytes, codes, newline, get_elem?,
}
use kv_database.Result.{ok}
use kv_database.Persistence.{construct, load_data_on_startup}
use kv_database.Persistence.Records.{replay}
use kv_database.Persistence.Recovery.{no_keys}
use kv_database.Persistence.Lifecycle.{at_rest}
use kv_database.Limiter.{default_limiter}
use kv_database.UserSession.{SockAddr, add_session}
use kv_database.EventLoop.{EventLoopEntry, readable}
use kv_database.EventLoop.Epoll.{epoll_event_loop}
use kv_database.Server.{run_message, Server, bytes, message_handler}
use kv_database.Server.Handler.{Handles, message_handler-Handles}
use kv_database.Server.Start.{create, start, with_socket}
use kv_database.Server.Rounds.{fresh, stop-Closes}
use kv_database.UserSession.Expiry.{Holds}
use kv_database.Program.{word, main, AsksToStop, main-stops}
use kv_database.Worker.SnapshotScheduler
use kv_database.Worker.SnapshotScheduler.{Leaves, run-Leaves}
use kv_database.Server.Loop.{
  stop, accept_client, event_round, register, set_connection, live_round, close_expired,
  dispatch_all, dispatch,
}
use kv_database.Server.Commits.{stored, commit, run_message-commit}
use kv_database.Server.Writes.{all_writes, message_writes}
use kv_database.Server.Answers.{Answers, job_messages}
use kv_database.System.{Reach, here, next, works, stops, accepts, polls}
use kv_database.System.Sound.{IsSound, Reach-IsSound}
use kv_database.System.Served.{messages, Reach-Answers}
use kv_database.System.Life.{
  Alive-Remembers, default_limit, boot, Boots, Alive, born, moves, reborn-Boots,
}
use kv_database.Tests.Samples.{first_map, first_map-IsValid, first_files, first-IsDurable}
use kv_database.Tests.Service.{Kernel, kernel_epoll, client, server}
use kv_database.Limiter.{
  is_allowed, is_allowed_global, count_request, reset_window, is_allowed_private, consume, refill,
  cap_tokens,
}
use kv_database.Stream.{lines}
use kv_database.Prelude.Int.{◌+ℤ◌}
use kv_database.Server.{find_connection, has_newline}

-- The job of the only client waits.
abbrev waiting : Server Kernel
waiting = record server { jobs = 0 ∷ [] }

abbrev request : Bytes
request = codes "INSERT name Ada" ++ newline ∷ []

abbrev handled : Handles 5 (message_handler (bytes request) 4 0 server)
handled = message_handler-Handles (bytes request) 4 0 client server refl first-IsDurable

-- A worker handles the request, and the server is stopped.
abbrev run : Reach waiting (stop handled.after)
run = next (next here (works (bytes request) 4 0 [] [] refl handled.returns)) (stops refl)

waiting-IsSound : IsSound default_limit waiting
unfolding default_limiter
waiting-IsSound = record {
  linked = record { links = ((client, refl, refl), tt); jobs = ((client, refl), tt) };
  durable = first-IsDurable;
  tidy = record { unique = tt; counted = record { limited = refl; counted = omega arith } };
}

Reach-IsSound_example : IsSound default_limit (stop handled.after)
Reach-IsSound_example = Reach-IsSound default_limit waiting-IsSound run

Reach-Answers_example : Answers (messages run) waiting (stop handled.after)
Reach-Answers_example = Reach-Answers default_limit run waiting-IsSound

-- The first start, a client, its request, and a stop of the process.
abbrev started : Server Kernel
started = record server { objects = []; connections = [] }

starts : boot none none 3 (λ j. none) 0 ≡ ok started
unfolding create start with_socket construct load_data_on_startup lines
starts = refl

abbrev caller : SockAddr
caller = record { s_addr = 9; sin_port = 10 }

abbrev joined : Server Kernel
joined = (accept_client (some (6, caller)) 1 2 3 true started).1

abbrev one_event : Kernel → Kernel × Option (List EventLoopEntry)
one_event k = (k, some (record { socket = 6; event = readable } ∷ []))

abbrev ready_to_serve : Server Kernel
ready_to_serve = event_round one_event joined

polled : Alive [] ready_to_serve
polled =
    moves (moves (born 3 (λ j. none) 0 starts) (accepts (some (6, caller)) 1 2 3 true refl) refl)
      (polls one_event refl) refl

serves_caller :
    (ready_to_serve.jobs ≡ 0 ∷ []) × (get_elem? ready_to_serve.objects 0 ≡ some (fresh 6 caller))
unfolding accept_client register set_connection is_allowed event_round live_round close_expired
    dispatch_all dispatch find_connection is_allowed_global count_request reset_window
    default_limiter is_allowed_private consume refill cap_tokens ◌+ℤ◌ add_session
serves_caller = (refl, refl)

abbrev replied :
    Handles 6 (message_handler (bytes request) 4 0 (record ready_to_serve { jobs = [] }))
replied =
    message_handler-Handles (bytes request) 4 0 (fresh 6 caller)
      (record ready_to_serve { jobs = [] }) serves_caller.1 (Alive-Remembers polled).sound.durable

served_one : Alive ((6, request) ∷ []) replied.after
unfolding job_messages event_round accept_client is_allowed is_allowed_global count_request
    reset_window default_limiter is_allowed_private consume refill cap_tokens ◌+ℤ◌ find_connection
    set_connection has_newline
served_one = moves polled (works (bytes request) 4 0 [] [] serves_caller.0 replied.returns) refl

reborn-Boots_example :
    Boots
      (replay (all_writes ((6, request) ∷ [])) no_keys)
      (boot {L = Kernel} replied.after.pers.aof replied.after.pers.rdb 3 (λ j. none) 9)
reborn-Boots_example = reborn-Boots replied.after.pers 3 (λ j. none) 9 served_one (at_rest refl)

main-stops_example :
    ((main (word (codes "stop") ∷ []) started).running ≡ false)
    ↔ AsksToStop true (word (codes "stop") ∷ [])
main-stops_example = main-stops (word (codes "stop") ∷ []) started refl

stop-Closes_example :
    All (λ e. Holds e.0 (stop server).closed) server.connections
    × Holds server.server_socket (stop server).closed
    × (length (stop server).closed ≡ length server.closed + length server.connections + 1)
    × ((stop server).connections ≡ [])
    × (event_round one_event (stop server) ≡ stop server)
stop-Closes_example = stop-Closes one_event server

-- A scheduler's round whose snapshot fails to write its file.
run-Leaves_example :
    let round : SnapshotScheduler.Round = record {
      active = true;
      active_after = true;
      rdb_opens = false;
      resizes = true;
      reopens = true;
    } in
    Leaves first_map (SnapshotScheduler.run (round ∷ []) first_map first_files)
run-Leaves_example = run-Leaves _ first_map first_files first-IsDurable

run_message-commit_example :
    stored (run_message request first_map first_files)
    ≡ commit (message_writes request) first_map first_files
run_message-commit_example = run_message-commit request first_map first_files first_map-IsValid
