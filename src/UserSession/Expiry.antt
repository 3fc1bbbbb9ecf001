-- ===== src/UserSession/Expiry.antt =====
-- src/UserSession/UserSession.cpp, `cleanup_expired_sessions`: which sessions end, and whose
-- sockets are handed to the server.
use kv_database.Prelude.{
  ℕ, ◌+◌, ◌*◌, ◌≤◌, ◌≡◌, refl, ap, ◌∙◌, ◌⊎◌, ◌↔◌, true, List, [], ◌∷◌, arith, Option, none, some,
  if◌then◌else◌, Bool-cases, inl, inr,
}
use kv_database.Limiter.{nano}
use kv_database.UserSession.{
  SessionKey, SockAddr, UserSession, Sessions, same_key, key_of, find_session, add_session,
  update_activity, is_expired, cleanup_expired_sessions,
}
use kv_database.UserSession.Table.{
  same_key_iff, IsUnique, find-update_activity, update_activity-IsUnique,
}

-- The session is still there after a sweep at `now`.
abbrev pub unless_expired : ℕ → Option UserSession → Option UserSession
unless_expired now none = none
unless_expired now (some s) = if is_expired now s then none else some s

-- The socket is in the list.
abbrev pub Holds : ℕ → List ℕ → Type 0
Holds socket [] = ⊥
Holds socket (x ∷ xs) = (x ≡ socket) ⊎ Holds socket xs

module _ (clock : SessionKey → ℕ) where
  -- In a table of unique keys a sweep leaves at each key the session that was there, unless that
  -- session has expired.
  pub find-cleanup :
      (q : SessionKey) (sessions : Sessions)
      → IsUnique sessions
      → find_session q (cleanup_expired_sessions clock sessions).1
        ≡ unless_expired (clock q) (find_session q sessions)
  unfolding cleanup_expired_sessions find_session
  find-cleanup q [] u = refl
  find-cleanup q ((k, s) ∷ rest) u = ground (
    arith,
    find-cleanup q rest u.1,
    same_key_iff k q,
    ap (λ (j : SessionKey). find_session j rest),
    ap (λ (j : SessionKey). clock j),
  )

  pub cleanup-IsUnique :
      (sessions : Sessions)
      → IsUnique sessions
      → IsUnique (cleanup_expired_sessions clock sessions).1
  unfolding cleanup_expired_sessions
  cleanup-IsUnique [] u = tt
  cleanup-IsUnique ((k, s) ∷ rest) u =
      ground (arith, cleanup-IsUnique rest u.1, find-cleanup k rest u.1)

  cleanup-reports :
      (q : SessionKey) (s : UserSession) (sessions : Sessions)
      → find_session q sessions ≡ some s
      → is_expired (clock q) s ≡ true
      → Holds s.user_socket (cleanup_expired_sessions clock sessions).0
  unfolding cleanup_expired_sessions find_session
  cleanup-reports q s [] found old = ground arith
  cleanup-reports q s ((k, t) ∷ rest) found old =
      let later = cleanup-reports q s rest in
      elim (Bool-cases (same_key k q)) [
        | inl e ↦
            let here : is_expired (clock k) t ≡ true =
              ground (arith, e, found, old, same_key_iff k q, ap (λ (j : SessionKey). clock j)) in
            rw here (inl (ground (arith, e, found)))
        | inr e ↦
            let h = later (rw e at found) old in
            elim (Bool-cases (is_expired (clock k) t)) [ inl x ↦ rw x (inr h) | inr x ↦ rw x h ]
      ]

  find-later :
      (k q : SessionKey) (t s : UserSession) (rest : Sessions)
      → find_session k rest ≡ none
      → find_session q rest ≡ some s
      → find_session q ((k, t) ∷ rest) ≡ some s
  unfolding find_session
  find-later k q t s rest absent found =
      ground (arith, same_key_iff k q, ap (λ (j : SessionKey). find_session j rest))

  -- The socket is that of a session that has expired.
  abbrev pub Expired : ℕ → Sessions → Type 0
  Expired socket sessions =
      (q : SessionKey) × (s : UserSession) × (find_session q sessions ≡ some s)
      × (is_expired (clock q) s ≡ true)
      × (s.user_socket ≡ socket)

  cleanup-only :
      (socket : ℕ) (sessions : Sessions)
      → IsUnique sessions
      → Holds socket (cleanup_expired_sessions clock sessions).0
      → Expired socket sessions
  unfolding cleanup_expired_sessions find_session
  cleanup-only socket [] u h = absurd h
  cleanup-only socket ((k, t) ∷ rest) u h =
      let behind : Holds socket (cleanup_expired_sessions clock rest).0
          → Expired socket ((k, t) ∷ rest) =
        λ h'.
          let (q, s, found, old, same) = cleanup-only socket rest u.1 h' in
          (q, s, find-later k q t s rest u.0 found, old, same) in
      elim (Bool-cases (is_expired (clock k) t)) [
        | inl e ↦ elim (rw e at h) [
          | inl same ↦ (k, t, rw ((same_key_iff k k).1 refl), e, same)
          | inr h' ↦ behind h'
        ]
        | inr e ↦ behind (rw e at h)
      ]

  -- In a table of unique keys the sockets that a sweep hands to the server are those of the
  -- expired sessions, no more and no less.
  pub cleanup-exact :
      (socket : ℕ) (sessions : Sessions)
      → IsUnique sessions
      → Holds socket (cleanup_expired_sessions clock sessions).0 ↔ Expired socket sessions
  cleanup-exact socket sessions u =
      (cleanup-only socket sessions u, λ x. rw (← x.4) (cleanup-reports x.0 x.1 sessions x.2 x.3))

-- In a table of unique keys a session whose activity was recorded survives each sweep within its
-- idle time, with the new time of activity.
pub update_activity-survives :
    (clock : SessionKey → ℕ) (q : SessionKey) (now : ℕ) (s : UserSession) (sessions : Sessions)
    → IsUnique sessions
    → find_session q sessions ≡ some s
    → clock q ≤ now + s.session_maximum_idle_time * nano
    → find_session q (cleanup_expired_sessions clock (update_activity q now sessions)).1
      ≡ some (record s { last_activity_time = now })
unfolding is_expired
update_activity-survives clock q now s sessions u found within =
    find-cleanup clock q (update_activity q now sessions)
      (update_activity-IsUnique q now sessions u)
    ∙ rw (find-update_activity q now q sessions, (same_key_iff q q).1 refl, found) (ground arith)

-- In a table of unique keys, if a key has an expired session, a client that comes back under it
-- gets none of its own: the next sweep hands out the old socket and leaves nothing at the key.
pub add_session-stale :
    (clock : SessionKey → ℕ) (socket : ℕ) (addr : SockAddr) (max_idle now : ℕ) (s : UserSession)
    (sessions : Sessions)
    → IsUnique sessions
    → find_session (key_of addr) sessions ≡ some s
    → is_expired (clock (key_of addr)) s ≡ true
    → let added = (add_session socket addr max_idle now sessions).1 in
      let (handed, kept) = cleanup_expired_sessions clock added in
      Holds s.user_socket handed × (find_session (key_of addr) kept ≡ none)
unfolding add_session
add_session-stale clock socket addr max_idle now s sessions u found old =
    rw (found, add_session)
      (
        cleanup-reports clock (key_of addr) s sessions found old,
        find-cleanup clock (key_of addr) sessions u ∙ rw (found, old),
      )
