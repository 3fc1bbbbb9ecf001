-- ===== src/Limiter/Trace.antt =====
-- src/Limit/Limiter.cpp, runs of requests: the quota of one IP among all clients.
use kv_database.Prelude.{
  ℕ, ◌+◌, ◌*◌, ◌≤◌, ◌≡◌, refl, ap, Bool, true, false, List, [], ◌∷◌, arith, ◌==◌, Bool-cases, inl,
  inr, if◌then◌else◌,
}
use native.Mathlib.Nat.{mul-le-mul_right, zero-add}
use kv_database.Limiter.{
  nano, RateLimiter, Request, is_allowed_global, find_record, is_allowed, serve,
}
use kv_database.Limiter.Bucket.{granted}
use kv_database.Limiter.Quota.{
  IsReady, Pays, wait-IsReady, wait-Pays, same-IsReady, same-Pays, private-IsReady, private-Pays,
  window-leaves,
}

-- The requests of `ip` that were let through.
abbrev pub granted_to : ℕ → List Request → List Bool → ℕ
granted_to ip [] replies = 0
granted_to ip (q ∷ trace) [] = 0
granted_to ip (q ∷ trace) (b ∷ replies) =
    (if q.ip == ip then granted b else 0) + granted_to ip trace replies

-- The bucket's clock readings do not go back, from `now` to `end`.
abbrev pub IsOrdered : ℕ → List Request → ℕ → Type 0
IsOrdered now [] end = now ≤ end
IsOrdered now (q ∷ trace) end = (now ≤ q.now_private) × IsOrdered q.now_private trace end

if_same : (b : Bool) → ◌≡◌ {A = ℕ} (if b then 0 else 0) 0
if_same true = refl
if_same false = refl

module _ (max_tokens rate ip : ℕ) where
  abbrev Ready : ℕ → RateLimiter → Type 0
  Ready now l = IsReady max_tokens rate ip now l

  abbrev Paid : ℕ → ℕ → ℕ → RateLimiter → Type 0
  Paid grants now end l = Pays max_tokens rate ip grants now end l

  -- A check of any request.
  module _ (q : Request) (now : ℕ) (l : RateLimiter) (h : now ≤ q.now_private)
      (i : Ready now l) where
    abbrev next : Bool × RateLimiter
    next = is_allowed q.ip q.now_global q.now_private l

    abbrev window : RateLimiter
    window = (is_allowed_global q.now_global l).1

    window-IsReady : Ready now window
    window-IsReady =
        let (m, r, rs) = window-leaves max_tokens rate ip q.now_global l in
        same-IsReady max_tokens rate ip m r (ap (find_record ip) rs) i

    window-Pays : {grants end : ℕ} → Paid grants now end window → Paid grants now end l
    window-Pays =
        let (m, r, rs) = window-leaves max_tokens rate ip q.now_global l in
        same-Pays max_tokens rate ip m r (ap (find_record ip) rs)

    next-IsReady : Ready q.now_private next.1
    unfolding is_allowed
    next-IsReady = elim (Bool-cases (is_allowed_global q.now_global l).0) [
      | inr e ↦ rw e (wait-IsReady max_tokens rate ip h window-IsReady)
      | inl e ↦
          rw e (private-IsReady max_tokens rate ip q.ip now q.now_private window h window-IsReady)
    ]

    next-Pays :
        {grants end : ℕ}
        → Paid grants q.now_private end next.1
        → Paid ((if q.ip == ip then granted next.0 else 0) + grants) now end l
    unfolding is_allowed
    next-Pays {grants} p = elim (Bool-cases (is_allowed_global q.now_global l).0) [
      | inr e ↦ rw e (
          rw (if_same (q.ip == ip), zero-add grants)
            (window-Pays (wait-Pays max_tokens rate ip h (rw e at p))))
      | inl e ↦ rw e (
          window-Pays (
            private-Pays max_tokens rate ip q.ip now q.now_private window h window-IsReady
              (rw e at p)))
    ]

  start-Pays : {now end : ℕ} {l : RateLimiter} → now ≤ end → Ready now l → Paid 0 now end l
  start-Pays h i =
      let t = mul-le-mul_right rate h in
      record {
        known = λ r e.
            let (filled, past) = i.ready r e in
            let u = mul-le-mul_right rate past in omega (arith, t, u);
        capped = omega (arith, t);
      }

  serve-Pays :
      (trace : List Request) {now end : ℕ} (l : RateLimiter)
      → Ready now l
      → IsOrdered now trace end
      → Paid (granted_to ip trace (serve trace l).0) now end l
  unfolding serve
  serve-Pays [] l i o = start-Pays o i
  serve-Pays (q ∷ trace) {now} l i o =
      next-Pays q now l o.0 i (serve-Pays trace _ (next-IsReady q now l o.0 i) o.1)

  -- With clock readings that do not go back from a first time to a last, an IP with no bucket or
  -- one that is neither overdrawn nor overfull nor of the future is granted, over any run of
  -- requests of all clients, no more than a full bucket and what the rate adds in that time.
  pub serve-quota :
      (trace : List Request) (now end : ℕ) (l : RateLimiter)
      → Ready now l
      → IsOrdered now trace end
      → nano * granted_to ip trace (serve trace l).0 + now * rate ≤ max_tokens + end * rate
  serve-quota trace now end l i o = (serve-Pays trace l i o).capped
