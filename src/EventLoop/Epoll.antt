-- ===== src/EventLoop/Epoll.antt =====
-- src/Networking/EpollEventLoop.h and EpollEventLoop.cpp: the Linux event loop, over the kernel's
-- epoll instance, which is a parameter. Its state is what the file descriptor `epollFd` names.
pub mod OneShot
use kv_database.Prelude.{
  ℕ, ◌/◌, ◌%◌, ◌^◌, ◌+◌, ◌≡◌, Bool, true, false, ◌||◌, Option, none, some, List, [], ◌∷◌, ◌==◌,
  if◌then◌else◌,
}
use kv_database.EventLoop.{IoEvent, readable, writable, hang_up, error, EventLoopEntry, EventLoop}

-- The bits of <sys/epoll.h>.
abbrev pub epoll_in : ℕ
epoll_in = 1

abbrev pub epoll_err : ℕ
epoll_err = 8

abbrev pub epoll_hup : ℕ
epoll_hup = 16

abbrev pub epoll_rdhup : ℕ
epoll_rdhup = 2 ^ 13

abbrev pub epoll_oneshot : ℕ
epoll_oneshot = 2 ^ 30

-- `events & bit`.
abbrev pub has_bit : ℕ → ℕ → Bool
has_bit events bit = events / bit % 2 == 1

-- The system calls of an epoll instance, and what their manual pages say. `interest` is the event mask
-- of a descriptor, `none` if it is not in the interest list. `epoll_wait` answers `none` for -1.
pub record Epoll (K : Type 0) : Type 0 where
  pub ctl_add : ℕ → ℕ → K → K
  pub ctl_del : ℕ → K → K
  pub ctl_mod : ℕ → ℕ → K → Bool × K
  pub epoll_wait : K → K × Option (List (ℕ × ℕ))
  pub interest : ℕ → K → Option ℕ
  -- EPOLL_CTL_DEL: "remove (deregister) the target file descriptor"
  pub ctl_del-interest : (fd : ℕ) (k : K) → interest fd (ctl_del fd k) ≡ none
  -- EPOLL_CTL_MOD: "change the settings associated with fd to the new settings"
  pub ctl_mod-interest :
      (fd events : ℕ) (k : K)
      → (ctl_mod fd events k).0 ≡ true
      → interest fd (ctl_mod fd events k).1 ≡ some events

-- `EPOLLIN | EPOLLONESHOT`
abbrev pub read_once : ℕ
read_once = epoll_in + epoll_oneshot

-- The reported bits as an event of the interface: a hang-up comes first, then an error.
unfoldable pub io_event : ℕ → IoEvent
io_event events =
    if has_bit events epoll_hup || has_bit events epoll_rdhup
    then hang_up
    else if has_bit events epoll_err
    then error
    else if has_bit events epoll_in
    then readable
    else writable

abbrev pub is_registered : Option ℕ → Bool
is_registered none = false
is_registered (some events) = true

-- The descriptor is watched for input: a one-shot report clears the bit.
abbrev pub is_reading : Option ℕ → Bool
is_reading none = false
is_reading (some events) = has_bit events epoll_in

unfoldable pub entries_of : List (ℕ × ℕ) → List EventLoopEntry
unfolding io_event
entries_of [] = []
entries_of ((fd, events) ∷ rest) = record { socket = fd; event = io_event events } ∷ entries_of rest

module _ {K : Type 0} ⦃epoll : Epoll K⦄ where
  unfoldable pub add : ℕ → K → K
  add sock k = epoll.ctl_add sock read_once k

  unfoldable pub remove : ℕ → K → K
  remove sock k = epoll.ctl_del sock k

  unfoldable pub rearm : ℕ → K → Bool × K
  rearm sock k = epoll.ctl_mod sock read_once k

  -- `wait`: the state after it, and the entries that it put into `out`, `none` for -1.
  unfoldable pub wait : K → K × Option (List EventLoopEntry)
  unfolding entries_of
  wait k =
      let (k', events) = epoll.epoll_wait k in
      elim events [ none ↦ (k', none) | some ready ↦ (k', some (entries_of ready)) ]

  pub remove-unwatched :
      (sock : ℕ) (k : K) → is_registered (epoll.interest sock (remove sock k)) ≡ false
  unfolding remove
  remove-unwatched sock k = rw (epoll.ctl_del-interest sock k)

  pub rearm-reading :
      (sock : ℕ) (k : K)
      → (rearm sock k).0 ≡ true
      → is_reading (epoll.interest sock (rearm sock k).1) ≡ true
  unfolding rearm
  rearm-reading sock k e = rw (epoll.ctl_mod-interest sock read_once k e)

  -- The loop keeps what the interface promises.
  instance unfoldable pub epoll_event_loop : EventLoop K
  epoll_event_loop = record {
    add = add;
    remove = remove;
    rearm = rearm;
    watched = λ sock k. is_registered (epoll.interest sock k);
    armed = λ sock k. is_reading (epoll.interest sock k);
    remove-watched = remove-unwatched;
    rearm-armed = rearm-reading;
  }
