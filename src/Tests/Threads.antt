-- ===== src/Tests/Threads.antt =====
-- The thread pool with two workers and the rounds of the server's threads.
use kv_database.Prelude.{
  get_elem?, ℕ, zero, suc, ◌≡◌, refl, true, false, some, List, [], ◌∷◌, ◌++◌, arith,
}
use kv_database.EventLoop.Epoll.{epoll_event_loop}
use kv_database.UserSession.{SockAddr}
use kv_database.Result.{ok}
use kv_database.Server.Stale.{reuse, message_handler-reused}
use kv_database.Server.{with_received, find_connection, has_newline, bytes, message_handler, Server}
use kv_database.Server.Loop.{accept_client, close_expired}
use kv_database.Server.Rounds.{
  fresh, IsSettled, accept_client-IsSettled, Closes, close_expired-Closes,
}
use kv_database.Worker.ThreadPool.{
  ready, committing, asleep, returned, ThreadPool, new, accept_job, wake_one, look, At, shut_down,
  sleep, Reach, here, next, accepts, looks, run_worker, IsFree,
}
use kv_database.Worker.ThreadPool.{wake_all, woken}
use kv_database.Worker.ThreadPool.Draining.{Drains, Reach-Drains}
use kv_database.Worker.ThreadPool.Wakeups.{SomeAwake, Reach-awake}
use kv_database.Worker.ThreadPool.Queue.{accepted, taken, accepted-taken}
use kv_database.Worker.ThreadPool.Shutdown.{run_worker-drains, shut_down-misses}
use kv_database.EventLoop.Iocp.{nothing, Port, has_context}
use kv_database.Prelude.{==_iff}
use kv_database.Tests.Service.{Kernel, kernel_epoll, client, server}

abbrev pool : ThreadPool ℕ
pool = record { jobs = []; threads = ready ∷ ready ∷ []; active = true }

abbrev busy_pool : ThreadPool ℕ
busy_pool = record { jobs = 7 ∷ []; threads = ready ∷ ready ∷ []; active = true }

ready-IsFree :
    (jobs : List ℕ) → IsFree (record { jobs = jobs; threads = ready ∷ ready ∷ []; active = true })
ready-IsFree jobs zero = λ e. cc
ready-IsFree jobs (suc zero) = λ e. cc
ready-IsFree jobs (suc (suc i)) = λ e. cc

busy-accept_job : busy_pool ≡ accept_job 7 pool
unfolding accept_job wake_one
busy-accept_job = refl

-- A job is accepted and the second worker takes it.
abbrev run : Reach pool (look 1 busy_pool)
run =
    next (next here (accepts 7 (ready-IsFree []) busy-accept_job))
      (looks 1 (ready-IsFree (7 ∷ [])) refl refl)

accepted-taken_example : accepted run ≡ taken run ++ (look 1 busy_pool).jobs
accepted-taken_example = accepted-taken run refl

-- The job is accepted and no worker has taken it.
accepting : Reach (new 2) busy_pool
unfolding new
accepting = next here (accepts 7 (ready-IsFree []) busy-accept_job)

Reach-awake_example : SomeAwake busy_pool.threads
Reach-awake_example = Reach-awake 2 (omega arith) accepting refl (λ e. cc)

-- The pool is shut down while a job waits, and the second worker takes the job.
draining : Reach (shut_down busy_pool) (look 1 (shut_down busy_pool))
unfolding shut_down wake_all woken
draining = next here (looks 1 (ready-IsFree (7 ∷ [])) refl refl)

Reach-Drains_example : Drains (look 1 (shut_down busy_pool))
Reach-Drains_example = Reach-Drains busy_pool (ready-IsFree (7 ∷ [])) draining

run_worker-drains_example : run_worker {J = ℕ} 3 (7 ∷ 8 ∷ []) false ≡ (7 ∷ 8 ∷ [], returned)
run_worker-drains_example = run_worker-drains 3 (7 ∷ 8 ∷ []) false (omega arith)

abbrev resting_pool : ThreadPool ℕ
resting_pool = record { jobs = []; threads = asleep ∷ committing ∷ []; active = true }

-- The first worker is woken and returns, the second one sleeps.
abbrev missed_pool : ThreadPool ℕ
missed_pool = sleep 1 (shut_down resting_pool)

missed_pool-IsFree : IsFree missed_pool
unfolding shut_down sleep wake_all woken
missed_pool-IsFree zero = λ e. cc
missed_pool-IsFree (suc zero) = λ e. cc
missed_pool-IsFree (suc (suc i)) = λ e. cc

first_returns : Reach missed_pool (look 0 missed_pool)
unfolding shut_down sleep wake_all woken
first_returns = next here (looks 0 missed_pool-IsFree refl refl)

shut_down-misses_example :
    Reach resting_pool missed_pool
    × At 1 asleep (look 0 missed_pool)
    × ((look 0 missed_pool).active ≡ false)
unfolding first_returns
shut_down-misses_example =
    shut_down-misses {p = resting_pool} {q = look 0 missed_pool} 1 refl first_returns (tt, tt)

abbrev caller : SockAddr
caller = record { s_addr = 9; sin_port = 10 }

accept_client-IsSettled_example :
    let (goes_on, s') = accept_client (some (6, caller)) 1 2 3 true server in
    (goes_on ≡ true) × IsSettled 6 caller s'
accept_client-IsSettled_example = accept_client-IsSettled 6 caller 1 2 3 true server refl

abbrev expiring : Server Kernel
expiring = record server { expired_sockets = 5 ∷ 8 ∷ [] }

close_expired-Closes_example :
    Closes (5 ∷ 8 ∷ []) (record expiring { expired_sockets = [] }) (close_expired expiring)
    × ((close_expired expiring).expired_sockets ≡ [])
close_expired-Closes_example = close_expired-Closes expiring

listed : (sock : ℕ) (k : List ℕ) → has_context sock (sock ∷ k) ≡ true
unfolding has_context
listed sock k = rw ((==_iff sock sock).1 refl)

-- A completion port as the list of the sockets with a receive that was posted and has not ended.
instance abbrev listed_port : Port (List ℕ)
listed_port = record {
  associate = λ sock k. k;
  post_recv = λ sock k. (true, sock ∷ k);
  dequeue = λ k. (nothing, k);
  pending = λ sock k. has_context sock k;
  post_recv-pending = λ sock k e. listed sock k;
}

-- The socket 5 is given to `caller` while a job of `client` waits.
message_handler-reused_example :
    (after : Server Kernel) × (message_handler
        (bytes (b'G' ∷ []))
        4
        0
        (reuse {L = Kernel} 2 caller client server)
      ≡ ok after)
    × (find_connection 5 (reuse {L = Kernel} 2 caller client server).connections ≡ some 1)
    × (get_elem? after.objects 1 ≡ some (fresh 5 caller))
    × (get_elem? after.objects 0 ≡ some (with_received client (b'G' ∷ [])))
unfolding has_newline
message_handler-reused_example =
    message_handler-reused 0 2 caller client server refl 4 (b'G') [] refl (omega arith)
