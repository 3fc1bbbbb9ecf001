-- ===== src/Server/Links.antt =====
-- src/Server/Server.cpp, where the map `connections` and the jobs lead, over the changes of state.
use kv_database.Prelude.{
  get_elem?-last, ℕ, ◌≡◌, refl, Bool, true, false, Option, none, some, List, [], ◌∷◌, ◌++◌, length,
  get_elem?, set, All, All-append,
}
use kv_database.Result.{ok}
use kv_database.UserSession.{SockAddr, default_max_idle, add_session}
use kv_database.EventLoop.{EventLoop, EventLoopEntry}
use kv_database.Persistence.Durable.{IsDurable}
use kv_database.Server.{
  Connection, Server, Recv, find_connection, drop_entry, connection_of, close_connection,
  message_handler,
}
use kv_database.Server.Loop.{event_round, register, accept_client}
use kv_database.Server.Handler.{message_handler-Handles}
use kv_database.Server.Entries.{
  HasObject, IsLink, find_connection-IsLink, erase_connection-IsLink, set_connection-IsLink,
  links-append, jobs-append, set-links, set-jobs,
}
use kv_database.Server.Stable.{
  Stable, event_round-Keeps, accept_client-Keeps, message_handler-Keeps,
}

module _ {L : Type 0} ⦃loop : EventLoop L⦄ where
  -- Each entry of the map leads to an object of its socket, and each job to an object.
  pub record IsLinked (s : Server L) : Type 0 where
    pub links : All (IsLink s.objects) s.connections
    pub jobs : All (HasObject s.objects) s.jobs

  drop_entry-IsLinked :
      (sock : ℕ) (o : Option Connection) (s : Server L)
      → IsLinked s
      → IsLinked (drop_entry sock o s)
  unfolding drop_entry
  drop_entry-IsLinked sock none s h = h
  drop_entry-IsLinked sock (some c) s h = record {
    links = erase_connection-IsLink s.objects sock s.connections h.links;
    jobs = h.jobs;
  }

  pub close_connection-IsLinked :
      (sock : ℕ) (s : Server L) → IsLinked s → IsLinked (close_connection sock s)
  unfolding close_connection
  close_connection-IsLinked sock s h =
      let s' = record s { event_loop = loop.remove sock s.event_loop } in
      let d =
        drop_entry-IsLinked sock (connection_of sock s) s'
          (record { links = h.links; jobs = h.jobs }) in
      record { links = d.links; jobs = d.jobs }

  hand_out-IsLinked :
      (sock ref : ℕ) (s : Server L)
      → find_connection sock s.connections ≡ some ref
      → IsLinked s
      → IsLinked (record s { jobs = s.jobs ++ ref ∷ [] })
  hand_out-IsLinked sock ref s e h = record {
    links = h.links;
    jobs =
        All-append _ s.jobs (ref ∷ []) h.jobs
          (find_connection-IsLink s.objects sock ref s.connections h.links e, tt);
  }

  replace-IsLinked :
      (ref : ℕ) (c c' : Connection) (s : Server L)
      → get_elem? s.objects ref ≡ some c
      → c'.socket ≡ c.socket
      → IsLinked s
      → IsLinked (record s { objects = set s.objects ref c' })
  replace-IsLinked ref c c' s e same h = record {
    links = set-links s.objects ref c c' s.connections e same h.links;
    jobs = set-jobs s.objects ref c' s.jobs h.jobs;
  }

  register-IsLinked :
      (sock : ℕ) (addr : SockAddr) (now : ℕ) (non_blocking : Bool) (s : Server L)
      → IsLinked s
      → IsLinked (register sock addr now non_blocking s)
  unfolding register
  register-IsLinked sock addr now false s h = record { links = h.links; jobs = h.jobs }
  register-IsLinked sock addr now true s h =
      let conn : Connection = record {
        socket = sock;
        session_key = (add_session sock addr default_max_idle now s.sessions).0;
        command_buffer = [];
      } in
      record {
        links =
            set_connection-IsLink (s.objects ++ conn ∷ []) sock (length s.objects) s.connections
              (links-append s.objects (conn ∷ []) s.connections h.links)
              (conn, get_elem?-last s.objects conn, refl);
        jobs = jobs-append s.objects (conn ∷ []) s.jobs h.jobs;
      }

  pub IsLinked-Stable : Stable IsLinked
  IsLinked-Stable = record {
    rounds = record {
      closes = close_connection-IsLinked;
      polls = λ l s h. record { links = h.links; jobs = h.jobs };
      clears = λ s h. record { links = h.links; jobs = h.jobs };
      hands_out = hand_out-IsLinked;
      limits = λ ip now_global now_private s h. record { links = h.links; jobs = h.jobs };
      refuses = λ sock s h. record { links = h.links; jobs = h.jobs };
      registers = register-IsLinked;
    };
    replaces = replace-IsLinked;
    serves = λ now ref conn done s e run h.
        let r = replace-IsLinked ref conn (record conn { command_buffer = [] }) s e refl h in
        record { links = r.links; jobs = r.jobs };
  }

  pub event_round-IsLinked :
      (wait : L → L × Option (List EventLoopEntry)) (s : Server L)
      → IsLinked s
      → IsLinked (event_round wait s)
  event_round-IsLinked = event_round-Keeps IsLinked IsLinked-Stable.rounds

  pub accept_client-IsLinked :
      (accepted : Option (ℕ × SockAddr)) (now_global now_private now : ℕ) (non_blocking : Bool)
      (s : Server L)
      → IsLinked s
      → IsLinked (accept_client accepted now_global now_private now non_blocking s).1
  accept_client-IsLinked = accept_client-Keeps IsLinked IsLinked-Stable.rounds

  -- The job of an object on a durable database returns, and leaves it durable and the links whole.
  pub message_handler-IsLinked :
      (received : Recv) (now ref : ℕ) (conn : Connection) (s : Server L)
      → get_elem? s.objects ref ≡ some conn
      → IsDurable s.hash_map s.pers
      → IsLinked s
      → (after : Server L) × (message_handler received now ref s ≡ ok after)
        × IsLinked after
        × IsDurable after.hash_map after.pers
  message_handler-IsLinked received now ref conn s e d h =
      let r = message_handler-Handles received now ref conn s e d in
      (
        r.after,
        r.returns,
        message_handler-Keeps IsLinked IsLinked-Stable received now ref s h r.after r.returns,
        r.durable,
      )
