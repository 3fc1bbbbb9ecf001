-- ===== src/Limiter/Window.antt =====
-- src/Limit/Limiter.cpp, `isAllowedGlobal`: the window for all requests, over runs of requests.
use kv_database.Prelude.{
  ℕ, ◌+◌, ◌-◌, ◌*◌, ◌/◌, ◌≤◌, ◌≡◌, refl, ◌∙◌, Bool, true, false, List, [], ◌∷◌, arith, leb, leb→le,
  leb-false, Bool-cases, inl, inr,
}
use native.Mathlib.Nat.{mul-le-mul_left}
use kv_database.Limiter.{
  nano, RateLimiter, Request, reset_window, count_request, is_allowed_global, is_allowed_private,
  is_allowed, serve,
}
use kv_database.Limiter.Bucket.{granted}

granted_le : (b : Bool) → granted b ≤ 1
granted_le true = omega arith
granted_le false = omega arith

-- The requests that were let through.
abbrev pub total : List Bool → ℕ
total [] = 0
total (b ∷ replies) = granted b + total replies

-- What checks may do to the window under a limit: the counter stays within it, and what they grant is
-- counted or paid for by the time since the window began.
pub record Counts (limit : ℕ) (l l' : RateLimiter) (grants : ℕ) : Type 0 where
  pub limited : l'.max_requests_global ≡ limit
  pub counted : l'.global_count ≤ limit
  pub paid :
      nano * grants + nano * l.global_count + limit * l.global_window_start
      ≤ nano * l'.global_count + limit * l'.global_window_start

-- The counter does not pass the limit, so it stays in the range of an `int`.
pub record IsCounted (limit : ℕ) (l : RateLimiter) : Type 0 where
  pub limited : l.max_requests_global ≡ limit
  pub counted : l.global_count ≤ limit

Counts-IsCounted :
    {limit grants : ℕ} {l l' : RateLimiter} → Counts limit l l' grants → IsCounted limit l'
Counts-IsCounted c = record { limited = c.limited; counted = c.counted }

Counts-trans :
    {limit a b c : ℕ} {l m r : RateLimiter}
    → a + b ≡ c
    → Counts limit l m a
    → Counts limit m r b
    → Counts limit l r c
Counts-trans e p q = record { limited = q.limited; counted = q.counted; paid = omega arith }

module _ (limit : ℕ) where
  -- A new window begins a second after the old one or later.
  reset_window-Counts :
      (now : ℕ) (l : RateLimiter) → IsCounted limit l → Counts limit l (reset_window now l) 0
  unfolding reset_window
  reset_window-Counts now l c = elim (Bool-cases (leb 1 ((now - l.global_window_start) / nano))) [
    | inr e ↦ rw e (record { limited = c.limited; counted = c.counted; paid = omega arith })
    | inl e ↦
        let later : l.global_window_start + nano ≤ now = omega (arith, leb→le _ _ e) in
        let scaled = mul-le-mul_left limit later in
        rw e (record { limited = c.limited; counted = omega arith; paid = omega arith })
  ]

  count_request-Counts :
      (w : RateLimiter)
      → IsCounted limit w
      → Counts limit w (count_request w).1 (granted (count_request w).0)
  unfolding count_request
  count_request-Counts w c = elim (Bool-cases (leb w.max_requests_global w.global_count)) [
    | inl e ↦ rw e (record { limited = c.limited; counted = c.counted; paid = omega arith })
    | inr e ↦ rw e (record {
      limited = c.limited;
      counted = omega (arith, leb-false _ _ e);
      paid = omega arith;
    })
  ]

  is_allowed_global-Counts :
      (now : ℕ) (l : RateLimiter)
      → IsCounted limit l
      → Counts limit l (is_allowed_global now l).1 (granted (is_allowed_global now l).0)
  unfolding is_allowed_global
  is_allowed_global-Counts now l c =
      let w = reset_window-Counts now l c in
      Counts-trans (omega arith) w (count_request-Counts (reset_window now l) (Counts-IsCounted w))

  -- A check that leaves the window alone may refuse what the window let through.
  refusal-Counts :
      {l w : RateLimiter}
      → Counts limit l w 1
      → (r : Bool × RateLimiter) → r.1.max_requests_global ≡ w.max_requests_global
      → r.1.global_count ≡ w.global_count
      → r.1.global_window_start ≡ w.global_window_start
      → Counts limit l r.1 (granted r.0)
  refusal-Counts g r same_limit same_count same_start = record {
    limited = same_limit ∙ g.limited;
    counted = rw same_count g.counted;
    paid = rw (same_count, same_start) (omega (arith, g.paid, granted_le r.0));
  }

  is_allowed-Counts :
      (q : Request) (l : RateLimiter)
      → IsCounted limit l
      → let r = is_allowed q.ip q.now_global q.now_private l in Counts limit l r.1 (granted r.0)
  unfolding is_allowed
  is_allowed-Counts q l c =
      let g = is_allowed_global-Counts q.now_global l c in
      elim (Bool-cases (is_allowed_global q.now_global l).0) [
        | inr e ↦ rw e (rw e at g)
        | inl e ↦ rw e (
            unfold is_allowed_private in
            refusal-Counts (rw e at g)
              (is_allowed_private q.ip q.now_private (is_allowed_global q.now_global l).1) refl refl
              refl)
      ]

  pub is_allowed-IsCounted :
      (ip now_global now_private : ℕ) (l : RateLimiter)
      → IsCounted limit l
      → IsCounted limit (is_allowed ip now_global now_private l).1
  is_allowed-IsCounted ip now_global now_private l c = Counts-IsCounted (
      is_allowed-Counts (record { ip = ip; now_global = now_global; now_private = now_private }) l
        c)

  -- From a counter within the limit, any run of requests keeps it there, and each granted request
  -- is counted or paid for by windows that have passed.
  pub serve-Counts :
      (trace : List Request) (l : RateLimiter)
      → IsCounted limit l
      → Counts limit l (serve trace l).1 (total (serve trace l).0)
  unfolding serve
  serve-Counts [] l c = record { limited = c.limited; counted = c.counted; paid = omega arith }
  serve-Counts (q ∷ rest) l c =
      let one = is_allowed-Counts q l c in
      Counts-trans refl one (serve-Counts rest _ (Counts-IsCounted one))

  -- From a counter within the limit, over any run of requests, whatever the clock reads, what is
  -- granted is at most the limit for each second from the start of the first window to that of the
  -- last, and the limit once more.
  pub serve-rate :
      (trace : List Request) (l : RateLimiter)
      → IsCounted limit l
      → let (replies, l') = serve trace l in
        nano * total replies + limit * l.global_window_start
        ≤ limit * nano + limit * l'.global_window_start
  serve-rate trace l c =
      let s = serve-Counts trace l c in
      let room = mul-le-mul_left nano s.counted in omega (arith, s.paid)
