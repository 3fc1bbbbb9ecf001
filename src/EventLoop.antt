-- ===== src/EventLoop.antt =====
-- src/Networking/EventLoop.h: the interface of the event loops, over a state `L` of the loop and of
-- the kernel behind it. What the server relies on are the laws; `watched` and `armed` say what the
-- kernel does for a socket.
pub mod Epoll
pub mod Iocp
use kv_database.Prelude.{ℕ, Bool, true, false, ◌≡◌}

pub data IoEvent : Type 0 where
  readable writable hang_up error : IoEvent

pub record EventLoopEntry : Type 0 where
  pub socket : ℕ
  pub event : IoEvent

pub record EventLoop (L : Type 0) : Type 0 where
  pub add : ℕ → L → L
  pub remove : ℕ → L → L
  pub rearm : ℕ → L → Bool × L
  -- the socket is registered, and its next event will be reported
  pub watched : ℕ → L → Bool
  pub armed : ℕ → L → Bool
  pub remove-watched : (sock : ℕ) (l : L) → watched sock (remove sock l) ≡ false
  pub rearm-armed :
      (sock : ℕ) (l : L) → (rearm sock l).0 ≡ true → armed sock (rearm sock l).1 ≡ true
