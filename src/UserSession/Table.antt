-- ===== src/UserSession/Table.antt =====
-- The methods of src/UserSession/UserSession.cpp as operations on a map from keys to sessions.
use kv_database.Prelude.{ℕ, ◌≡◌, ap, true, [], ◌∷◌, arith, Option, none, some, if◌then◌else◌, ◌↔◌}
use kv_database.UserSession.{
  hash_key, SessionKey, SockAddr, UserSession, Sessions, same_key, key_of, find_session,
  erase_session, new_session, add_session, update_activity, remove_session,
}

pub same_key_iff : (a b : SessionKey) → (same_key a b ≡ true) ↔ (a ≡ b)
same_key_iff a b = ground arith

-- Keys that the map takes for equal have one hash, as `std::unordered_map` requires.
hash_key-same_key :
    (hash_ip hash_port : ℕ → ℕ) (a b : SessionKey)
    → same_key a b ≡ true
    → hash_key hash_ip hash_port a ≡ hash_key hash_ip hash_port b
hash_key-same_key hash_ip hash_port a b same =
    ap (hash_key hash_ip hash_port) ((same_key_iff a b).0 same)

-- No key occurs twice.
abbrev pub IsUnique : Sessions → Type 0
IsUnique [] = Unit
IsUnique ((k, s) ∷ rest) = (find_session k rest ≡ none) × IsUnique rest

-- What `add_session` leaves at the key: the session that was there, or else the new one.
abbrev pub or_new : UserSession → Option UserSession → UserSession
or_new new none = new
or_new new (some old) = old

-- add_session keeps the session of its key if there is one and makes it if not, and changes no
-- other key.
pub find-add_session :
    (socket : ℕ) (addr : SockAddr) (max_idle now : ℕ) (q : SessionKey) (sessions : Sessions)
    → find_session q (add_session socket addr max_idle now sessions).1 ≡ (
        if same_key (key_of addr) q
        then some
            (or_new (new_session socket addr max_idle now) (find_session (key_of addr) sessions))
        else find_session q sessions)
unfolding add_session
find-add_session socket addr max_idle now q sessions =
    ground (arith, same_key_iff (key_of addr) q, ap (λ (k : SessionKey). find_session k sessions))

pub add_session-IsUnique :
    (socket : ℕ) (addr : SockAddr) (max_idle now : ℕ) (sessions : Sessions)
    → IsUnique sessions
    → IsUnique (add_session socket addr max_idle now sessions).1
unfolding add_session
add_session-IsUnique socket addr max_idle now sessions u = ground arith

abbrev pub touched : ℕ → Option UserSession → Option UserSession
touched now none = none
touched now (some s) = some (record s { last_activity_time = now })

pub find-update_activity :
    (key : SessionKey) (now : ℕ) (q : SessionKey) (sessions : Sessions)
    → find_session q (update_activity key now sessions)
      ≡ (if same_key key q then touched now (find_session q sessions) else find_session q sessions)
unfolding find_session update_activity
find-update_activity key now q [] = ground arith
find-update_activity key now q ((k, s) ∷ rest) = ground (
  arith,
  find-update_activity key now q rest,
  same_key_iff k key,
  same_key_iff k q,
  same_key_iff key q,
)

pub update_activity-IsUnique :
    (key : SessionKey) (now : ℕ) (sessions : Sessions)
    → IsUnique sessions
    → IsUnique (update_activity key now sessions)
unfolding update_activity
update_activity-IsUnique key now [] u = tt
update_activity-IsUnique key now ((k, s) ∷ rest) u =
    ground (arith, update_activity-IsUnique key now rest, find-update_activity key now k rest)

pub find-remove_session :
    (key q : SessionKey) (sessions : Sessions)
    → find_session q (remove_session key sessions)
      ≡ (if same_key key q then none else find_session q sessions)
unfolding remove_session find_session erase_session
find-remove_session key q [] = ground arith
find-remove_session key q ((k, s) ∷ rest) = ground (
  arith,
  find-remove_session key q rest,
  same_key_iff k key,
  same_key_iff k q,
  same_key_iff key q,
)

pub remove_session-IsUnique :
    (key : SessionKey) (sessions : Sessions)
    → IsUnique sessions
    → IsUnique (remove_session key sessions)
unfolding remove_session erase_session
remove_session-IsUnique key [] u = tt
remove_session-IsUnique key ((k, s) ∷ rest) u =
    ground (arith, remove_session-IsUnique key rest, find-remove_session key k rest)
