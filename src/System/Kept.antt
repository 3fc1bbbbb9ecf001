-- ===== src/System/Kept.antt =====
-- src/Server/Server.cpp, what every part of a thread keeps of the server: the database is durable,
-- the sessions have distinct keys, and the limiter keeps its count.
use kv_database.Prelude.{ℕ, ◌≡◌, sym, ◌∙◌, Bool, true, false, Option, none, some}
use mathlib.Core.Path.{subst}
use kv_database.Result.{ok, ok-injective}
use kv_database.Persistence.Durable.{IsDurable}
use kv_database.UserSession.{SockAddr, default_max_idle}
use kv_database.UserSession.Table.{
  IsUnique, add_session-IsUnique, update_activity-IsUnique, remove_session-IsUnique,
}
use kv_database.Limiter.Window.{IsCounted, is_allowed-IsCounted}
use kv_database.EventLoop.{EventLoop}
use kv_database.Server.{
  Connection, Server, Outcome, drop_entry, connection_of, close_connection, run_message,
}
use kv_database.Server.Command.{run_message-Serves}
use kv_database.Server.Handler.{close_connection-Leaves}
use kv_database.Server.Loop.{register}
use kv_database.Server.Stable.{Stable}

module _ {L : Type 0} ⦃loop : EventLoop L⦄ where
  -- The sessions have distinct keys, and the limiter's count is within its limit.
  pub record IsTidy (limit : ℕ) (s : Server L) : Type 0 where
    pub unique : IsUnique s.sessions
    pub counted : IsCounted limit s.rt

  abbrev pub IsKept : Server L → Type 0
  IsKept s = IsDurable s.hash_map s.pers

  close_connection-IsKept : (sock : ℕ) (s : Server L) → IsKept s → IsKept (close_connection sock s)
  close_connection-IsKept sock s h =
      let l = close_connection-Leaves sock s in rw (l.hash_map, l.pers) h

  register-IsKept :
      (sock : ℕ) (addr : SockAddr) (now : ℕ) (non_blocking : Bool) (s : Server L)
      → IsKept s
      → IsKept (register sock addr now non_blocking s)
  unfolding register
  register-IsKept sock addr now false s h = h
  register-IsKept sock addr now true s h = h

  serves-IsKept :
      (conn : Connection) (done : Outcome) (s : Server L)
      → run_message conn.command_buffer s.hash_map s.pers ≡ ok done
      → IsKept s
      → IsDurable done.hash_map done.pers
  serves-IsKept conn done s run h =
      let r = run_message-Serves conn.command_buffer s.hash_map s.pers h in
      subst (λ (o : Outcome). IsDurable o.hash_map o.pers) (ok-injective (sym r.returns ∙ run))
        r.durable

  pub IsKept-Stable : Stable IsKept
  IsKept-Stable = record {
    rounds = record {
      closes = close_connection-IsKept;
      polls = λ l s h. h;
      clears = λ s h. h;
      hands_out = λ sock ref s e h. h;
      limits = λ ip now_global now_private s h. h;
      refuses = λ sock s h. h;
      registers = register-IsKept;
    };
    replaces = λ ref c c' s e same h. h;
    serves = λ now ref conn done s e run h. serves-IsKept conn done s run h;
  }

  module _ (limit : ℕ) where
    drop_entry-IsTidy :
        (sock : ℕ) (o : Option Connection) (s : Server L)
        → IsTidy limit s
        → IsTidy limit (drop_entry sock o s)
    unfolding drop_entry
    drop_entry-IsTidy sock none s h = h
    drop_entry-IsTidy sock (some c) s h = record {
      unique = remove_session-IsUnique c.session_key s.sessions h.unique;
      counted = h.counted;
    }

    close_connection-IsTidy :
        (sock : ℕ) (s : Server L) → IsTidy limit s → IsTidy limit (close_connection sock s)
    unfolding close_connection
    close_connection-IsTidy sock s h =
        let s' = record s { event_loop = loop.remove sock s.event_loop } in
        let d =
          drop_entry-IsTidy sock (connection_of sock s) s'
            (record { unique = h.unique; counted = h.counted }) in
        record { unique = d.unique; counted = d.counted }

    register-IsTidy :
        (sock : ℕ) (addr : SockAddr) (now : ℕ) (non_blocking : Bool) (s : Server L)
        → IsTidy limit s
        → IsTidy limit (register sock addr now non_blocking s)
    unfolding register
    register-IsTidy sock addr now false s h = record {
      unique =
          remove_session-IsUnique _ _
            (add_session-IsUnique sock addr default_max_idle now s.sessions h.unique);
      counted = h.counted;
    }
    register-IsTidy sock addr now true s h = record {
      unique = add_session-IsUnique sock addr default_max_idle now s.sessions h.unique;
      counted = h.counted;
    }

    pub IsTidy-Stable : Stable (IsTidy limit)
    IsTidy-Stable = record {
      rounds = record {
        closes = close_connection-IsTidy;
        polls = λ l s h. record { unique = h.unique; counted = h.counted };
        clears = λ s h. record { unique = h.unique; counted = h.counted };
        hands_out = λ sock ref s e h. record { unique = h.unique; counted = h.counted };
        limits = λ ip now_global now_private s h. record {
          unique = h.unique;
          counted = is_allowed-IsCounted limit ip now_global now_private s.rt h.counted;
        };
        refuses = λ sock s h. record { unique = h.unique; counted = h.counted };
        registers = register-IsTidy;
      };
      replaces = λ ref c c' s e same h. record { unique = h.unique; counted = h.counted };
      serves = λ now ref conn done s e run h. record {
        unique = update_activity-IsUnique conn.session_key now s.sessions h.unique;
        counted = h.counted;
      };
    }
