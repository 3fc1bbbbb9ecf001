-- ===== src/UserSession.antt =====
-- src/UserSession/UserSession.h and UserSession.cpp: the sessions, keyed by address and port. A
-- reading of `steady_clock` is a number of nanoseconds, an idle time a number of seconds. The
-- `shared_mutex` makes each method one step: `add_session` takes it twice, but only the accept
-- thread adds sessions, so none is added in between. Closing a socket is the server's business, so
-- the destructor of a session has no effect.
pub mod Table
pub mod Expiry
use kv_database.Prelude.{
  ℕ, zero, suc, ◌+◌, ◌-◌, ◌*◌, ◌/◌, ◌%◌, ◌^◌, Bool, true, false, ◌&&◌, Option, none, some, List, [],
  ◌∷◌, ◌++◌, Bytes, ltb, leb, ◌==◌, if◌then◌else◌,
}
use Prim.Native.Nat.{bit_xor}
use kv_database.Limiter.{nano}

pub record SessionKey : Type 0 where
  pub raw_ip : ℕ
  pub raw_port : ℕ

-- `SessionKey::operator==`.
abbrev pub same_key : SessionKey → SessionKey → Bool
same_key a b = a.raw_ip == b.raw_ip && a.raw_port == b.raw_port

-- `sockaddr_in`, in network byte order as the key has it.
pub record SockAddr : Type 0 where
  pub s_addr : ℕ
  pub sin_port : ℕ

pub record UserSession : Type 0 where
  pub user_socket : ℕ
  pub last_activity_time : ℕ
  pub session_maximum_idle_time : ℕ
  pub cached_ip_str : Bytes
  pub cached_port_str : Bytes

-- `SessionKeyHasher`, over the `std::hash` of the two fields. A `size_t` has 64 bits.
module _ (hash_ip hash_port : ℕ → ℕ) where
  unfoldable pub hash_key : SessionKey → ℕ
  hash_key key = bit_xor (hash_ip key.raw_ip) (hash_port key.raw_port * 2 % 2 ^ 64)

-- The map `users_sessions`, in the order in which it is walked.
abbrev pub Sessions : Type 0
Sessions = List (SessionKey × UserSession)

-- The default `max_idle` of `add_session`.
abbrev pub default_max_idle : ℕ
default_max_idle = 240

unfoldable pub find_session : SessionKey → Sessions → Option UserSession
find_session key [] = none
find_session key ((k, s) ∷ rest) = if same_key k key then some s else find_session key rest

unfoldable pub erase_session : SessionKey → Sessions → Sessions
erase_session key [] = []
erase_session key ((k, s) ∷ rest) =
    let rest' = erase_session key rest in if same_key k key then rest' else (k, s) ∷ rest'

-- `add_session` makes the key of the address.
abbrev pub key_of : SockAddr → SessionKey
key_of addr = record { raw_ip = addr.s_addr; raw_port = addr.sin_port }

-- The digits of a number below 10 ^ 5, as `std::to_string` and `inet_ntop` write them.
unfoldable pub decimal : ℕ → ℕ → Bytes
decimal zero n = []
decimal (suc digits) n =
    let front = decimal digits (n / 10) in
    if ltb n 10 then (b'0' + n) ∷ [] else front ++ (b'0' + n % 10) ∷ []

-- `ntohs` on a little-endian machine.
abbrev pub ntohs : ℕ → ℕ
ntohs port = port % 256 * 256 + port / 256

-- `inet_ntop(AF_INET, …)`: the four bytes of the address, the first in memory first.
unfoldable pub dotted : ℕ → Bytes
unfolding decimal
dotted a =
    decimal 3 (a % 256)
    ++ b'.' ∷ decimal 3 (a / 2 ^ 8 % 256)
    ++ b'.' ∷ decimal 3 (a / 2 ^ 16 % 256)
    ++ b'.' ∷ decimal 3 (a / 2 ^ 24 % 256)

-- The constructor of `UserSession`.
unfoldable pub new_session : ℕ → SockAddr → ℕ → ℕ → UserSession
unfolding dotted
new_session socket addr max_idle now = record {
  user_socket = socket;
  last_activity_time = now;
  session_maximum_idle_time = max_idle;
  cached_ip_str = dotted addr.s_addr;
  cached_port_str = decimal 5 (ntohs addr.sin_port);
}

-- `add_session` returns the key; a session that exists is left as it is.
unfoldable pub add_session : ℕ → SockAddr → ℕ → ℕ → Sessions → SessionKey × Sessions
unfolding find_session new_session
add_session socket addr max_idle now sessions = elim (find_session (key_of addr) sessions) [
  | some s ↦ (key_of addr, sessions)
  | none ↦ (key_of addr, (key_of addr, new_session socket addr max_idle now) ∷ sessions)
]

-- `update_last_activity_time` on the session of the key, if there is one.
-- `update_last_activity_time`
abbrev pub touched : ℕ → UserSession → UserSession
touched now s = record s { last_activity_time = now }

unfoldable pub update_activity : SessionKey → ℕ → Sessions → Sessions
update_activity key now [] = []
update_activity key now ((k, s) ∷ rest) =
    if same_key k key then (k, touched now s) ∷ rest else (k, s) ∷ update_activity key now rest

unfoldable pub remove_session : SessionKey → Sessions → Sessions
unfolding erase_session
remove_session = erase_session

-- The difference of two readings may be negative: it is then not above the idle time.
unfoldable pub is_expired : ℕ → UserSession → Bool
is_expired now s = ltb (s.session_maximum_idle_time * nano) (now - s.last_activity_time)

-- The loop reads the clock at each session. It hands the sockets of the expired sessions, in the order
-- of the walk, to `on_session_expired`, and erases the sessions.
module _ (clock : SessionKey → ℕ) where
  unfoldable pub cleanup_expired_sessions : Sessions → List ℕ × Sessions
  cleanup_expired_sessions [] = ([], [])
  cleanup_expired_sessions ((k, s) ∷ rest) =
      let (expired, kept) = cleanup_expired_sessions rest in
      if is_expired (clock k) s then (s.user_socket ∷ expired, kept) else (expired, (k, s) ∷ kept)

unfoldable pub close_all_sessions : Sessions → Sessions
close_all_sessions sessions = []
