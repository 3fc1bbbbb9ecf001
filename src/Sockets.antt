-- ===== src/Sockets.antt =====
-- src/Networking/NetworkTypes.h, its POSIX half and its Windows half, and what src/Server/Server.cpp makes of the
-- results of `recv`. The results of the system calls are arguments.
use kv_database.Prelude.{
  ℕ, ◌+◌, ◌/◌, ◌%◌, ◌^◌, ◌≡◌, refl, Bool, true, false, Option, none, some, ◌==◌, Bytes, arith,
  if◌then◌else◌,
}
use kv_database.Prelude.Int.{ℤ, pos, negsuc}
use kv_database.Server.{Recv, bytes, would_block, recv_error}

-- `errno` after a call that failed.
pub data Errno : Type 0 where
  ewouldblock eagain other : Errno

-- `wouldBlock`.
unfoldable pub is_would_block : Errno → Bool
is_would_block ewouldblock = true
is_would_block eagain = true
is_would_block other = false

-- O_NONBLOCK of <fcntl.h>.
abbrev pub o_nonblock : ℕ
o_nonblock = 2 ^ 11

-- `flags | O_NONBLOCK`.
unfoldable pub with_nonblock : ℕ → ℕ
with_nonblock flags = if flags / o_nonblock % 2 == 1 then flags else flags + o_nonblock

-- `setNonBlocking`: the answer of F_GETFL (`none` for -1), and whether F_SETFL accepts new flags.
unfoldable pub set_non_blocking : Option ℕ → (ℕ → Bool) → Bool
unfolding with_nonblock
set_non_blocking none accepts = false
set_non_blocking (some flags) accepts = accepts (with_nonblock flags)

-- The outcome of `recv` in `messageHandler`: some bytes, perhaps none, or -1 and `errno`.
unfoldable pub recv_outcome : Option Bytes → Errno → Recv
unfolding is_would_block
recv_outcome (some received) e = bytes received
recv_outcome none e = if is_would_block e then would_block else recv_error

-- WSAEWOULDBLOCK of <winsock2.h>.
abbrev pub wsa_would_block : ℕ
wsa_would_block = 10035

-- The Windows half of `wouldBlock`, of what `WSAGetLastError` answers.
unfoldable pub is_would_block_wsa : ℕ → Bool
is_would_block_wsa last_error = last_error == wsa_would_block

abbrev pub succeeded : ℤ → Bool
succeeded (pos n) = n == 0
succeeded (negsuc n) = false

-- The Windows half of `setNonBlocking`: what `ioctlsocket` with FIONBIO answers to a mode.
unfoldable pub set_non_blocking_wsa : (ℕ → ℤ) → Bool
set_non_blocking_wsa ioctlsocket = succeeded (ioctlsocket 1)

-- The outcome of `recv` on Windows.
unfoldable pub recv_outcome_wsa : Option Bytes → ℕ → Recv
unfolding is_would_block_wsa
recv_outcome_wsa (some received) e = bytes received
recv_outcome_wsa none e = if is_would_block_wsa e then would_block else recv_error

-- Where the two systems give the same reason, the handler sees the same outcome.
recv_outcome-recv_outcome_wsa :
    (answer : Option Bytes) (e : Errno) (last_error : ℕ)
    → is_would_block e ≡ is_would_block_wsa last_error
    → recv_outcome answer e ≡ recv_outcome_wsa answer last_error
unfolding recv_outcome recv_outcome_wsa
recv_outcome-recv_outcome_wsa (some received) e last_error same = refl
recv_outcome-recv_outcome_wsa none e last_error same = rw same refl

-- The flags that are set have the bit O_NONBLOCK, and the other bits as they were.
pub with_nonblock-bits :
    (flags : ℕ)
    → (with_nonblock flags / o_nonblock % 2 ≡ 1)
      × (with_nonblock flags % o_nonblock ≡ flags % o_nonblock)
      × (with_nonblock flags / 2 ^ 12 ≡ flags / 2 ^ 12)
unfolding with_nonblock
with_nonblock-bits flags = ground arith
