-- ===== src/EventLoop/Epoll/OneShot.antt =====
-- src/Networking/EpollEventLoop.cpp with the jobs that src/Server/Server.cpp makes of its reports: why
-- no two workers have the same socket. `runEventLoop` hands each report to a worker, `rearmSocket` and
-- `closeConnection` end a job, and expired sockets are removed under it.
pub mod Exclusive
use kv_database.Prelude.{
  ℕ, ◌≡◌, refl, sym, ap, ◌⊎◌, ◌∙◌, inl, inr, Bool, true, false, Option, none, some, List, [], ◌∷◌,
  ◌++◌, arith, ◌==◌, ==_iff, if◌then◌else◌, Bool-cases, Option-cases, contains-apart, contains,
  NoRepeat, contains-append, NoRepeat-append, contains-without, NoRepeat-without, All, All-contains,
}
use mathlib.Core.Path.{subst}
use mathlib.Core.Option.{some-injective}
use kv_database.EventLoop.{EventLoopEntry}
use kv_database.EventLoop.Epoll.{
  Epoll, is_reading, read_once, has_bit, epoll_oneshot, entries_of, add, remove, rearm, wait,
}

abbrev pub sockets_of : List EventLoopEntry → List ℕ
sockets_of [] = []
sockets_of (e ∷ es) = e.socket ∷ sockets_of es

abbrev pub descriptors : List (ℕ × ℕ) → List ℕ
descriptors [] = []
descriptors ((fd, events) ∷ rest) = fd ∷ descriptors rest

-- A descriptor that is registered has the bit EPOLLONESHOT.
abbrev pub is_once : Option ℕ → Bool
is_once none = true
is_once (some events) = has_bit events epoll_oneshot

-- What the manual pages say of EPOLLONESHOT and of calls for another descriptor.
pub record OneShot (K : Type 0) ⦃epoll : Epoll K⦄ : Type 0 where
  -- only a descriptor that is watched for input is reported, and once
  pub reported :
      (k : K) (ready : List (ℕ × ℕ)) (fd : ℕ)
      → (epoll.epoll_wait k).1 ≡ some ready
      → contains fd (descriptors ready) ≡ true
      → is_reading (epoll.interest fd k) ≡ true
  pub once :
      (k : K) (ready : List (ℕ × ℕ))
      → (epoll.epoll_wait k).1 ≡ some ready
      → NoRepeat (descriptors ready)
  -- "the file descriptor is disabled" after its report, if EPOLLONESHOT is set
  pub disabled :
      (k : K) (ready : List (ℕ × ℕ)) (fd : ℕ)
      → (epoll.epoll_wait k).1 ≡ some ready
      → contains fd (descriptors ready) ≡ true
      → is_once (epoll.interest fd k) ≡ true
      → is_reading (epoll.interest fd (epoll.epoll_wait k).0) ≡ false
  -- a wait keeps that bit
  pub wait-once :
      (k : K) (fd : ℕ)
      → is_once (epoll.interest fd k) ≡ true
      → is_once (epoll.interest fd (epoll.epoll_wait k).0) ≡ true
  -- EPOLL_CTL_ADD and EPOLL_CTL_MOD set the events, or fail
  pub ctl_add-same :
      (fd events : ℕ) (k : K)
      → (epoll.interest fd (epoll.ctl_add fd events k) ≡ some events)
        ⊎ (epoll.interest fd (epoll.ctl_add fd events k) ≡ epoll.interest fd k)
  pub ctl_mod-same :
      (fd events : ℕ) (k : K)
      → (epoll.interest fd (epoll.ctl_mod fd events k).1 ≡ some events)
        ⊎ (epoll.interest fd (epoll.ctl_mod fd events k).1 ≡ epoll.interest fd k)
  -- a wait enables no descriptor
  pub wait-reading :
      (k : K) (fd : ℕ)
      → is_reading (epoll.interest fd k) ≡ false
      → is_reading (epoll.interest fd (epoll.epoll_wait k).0) ≡ false
  pub ctl_add-other :
      (fd other events : ℕ) (k : K)
      → (fd == other) ≡ false
      → epoll.interest other (epoll.ctl_add fd events k) ≡ epoll.interest other k
  pub ctl_del-other :
      (fd other : ℕ) (k : K)
      → (fd == other) ≡ false
      → epoll.interest other (epoll.ctl_del fd k) ≡ epoll.interest other k
  pub ctl_mod-other :
      (fd other events : ℕ) (k : K)
      → (fd == other) ≡ false
      → epoll.interest other (epoll.ctl_mod fd events k).1 ≡ epoll.interest other k

-- The kernel's instance, and the sockets whose jobs wait for a worker or are in one.
pub record Flight (K : Type 0) : Type 0 where
  pub kernel : K
  pub jobs : List ℕ

module _ {K : Type 0} ⦃epoll : Epoll K⦄ where
  pub data Step (a b : Flight K) : Type 0 where
    -- `acceptClients`: the number of a new socket is not that of a job
    adds :
        (sock : ℕ)
        → contains sock a.jobs ≡ false
        → b ≡ record a { kernel = add sock a.kernel }
        → Step a b
    -- `runEventLoop`
    reports :
        (entries : List EventLoopEntry)
        → (wait a.kernel).1 ≡ some entries
        → b ≡ record { kernel = (wait a.kernel).0; jobs = sockets_of entries ++ a.jobs }
        → Step a b
    fails : (wait a.kernel).1 ≡ none → b ≡ record a { kernel = (wait a.kernel).0 } → Step a b
    -- `rearmSocket` and `closeConnection`, at the end of a job
    rearms :
        (before after : List ℕ) (sock : ℕ)
        → a.jobs ≡ before ++ sock ∷ after
        → b ≡ record { kernel = (rearm sock a.kernel).1; jobs = before ++ after }
        → Step a b
    closes :
        (before after : List ℕ) (sock : ℕ)
        → a.jobs ≡ before ++ sock ∷ after
        → b ≡ record { kernel = remove sock a.kernel; jobs = before ++ after }
        → Step a b
    -- a job that throws, and a report for which there is no connection
    ends :
        (before after : List ℕ) (sock : ℕ)
        → a.jobs ≡ before ++ sock ∷ after
        → b ≡ record a { jobs = before ++ after }
        → Step a b
    -- an expired session
    expires : (sock : ℕ) → b ≡ record a { kernel = remove sock a.kernel } → Step a b

  pub data Reach (a : Flight K) : Flight K → Type 0 where
    here : Reach a a
    next : {b c : Flight K} → Reach a b → Step b c → Reach a c

  abbrev pub IsMuted : K → ℕ → Type 0
  IsMuted k sock = is_reading (epoll.interest sock k) ≡ false
