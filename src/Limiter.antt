-- ===== src/Limiter.antt =====
-- src/Limit/Limiter.h and Limiter.cpp: a token bucket for each IP and a window for all requests. A
-- reading of `steady_clock` is a number of nanoseconds. The `double`s are exact fixed-point
-- numbers: tokens are counted in units of 10 ^ -9, so that `seconds * refillRate`, at a whole
-- number of tokens per second, is the elapsed nanoseconds times the rate. Rounding of `double` is
-- not modelled. The mutexes make each of the two checks one step; the clock is read before the
-- lock is taken, so a reading may lie before the one that the record holds, and the elapsed time
-- may be negative.
pub mod Bucket
pub mod Window
pub mod Quota
pub mod Trace
use kv_database.Prelude.{
  ℕ, suc, ◌+◌, ◌-◌, ◌*◌, ◌/◌, ◌^◌, Bool, true, false, Option, none, some, List, [], ◌∷◌, ltb, leb,
  ◌==◌, if◌then◌else◌,
}
use kv_database.Prelude.Int.{ℤ, pos, sub_ℕ, ◌+ℤ◌, ◌-ℤ◌, ltb_ℤ}

-- One second in nanoseconds, and one token in the units of the model.
abbrev pub nano : ℕ
nano = 10 ^ 9

pub record IpRecord : Type 0 where
  pub tokens : ℤ
  pub last_refill : ℕ

pub record RateLimiter : Type 0 where
  pub ip_records : List (ℕ × IpRecord)
  pub global_count : ℕ
  pub global_window_start : ℕ
  pub max_tokens : ℕ
  pub refill_rate : ℕ
  pub max_requests_global : ℕ

-- The constructor; the server uses its default arguments.
unfoldable pub new : ℕ → ℕ → ℕ → ℕ → RateLimiter
new max_tokens refill_rate global_limit now = record {
  ip_records = [];
  global_count = 0;
  global_window_start = now;
  max_tokens = max_tokens;
  refill_rate = refill_rate;
  max_requests_global = global_limit;
}

unfoldable pub default_limiter : ℕ → RateLimiter
unfolding new
default_limiter now = new (10 * nano) 5 1000 now

-- `elapsed >= 1` in whole seconds: a negative difference, here 0, is below 1 too.
unfoldable pub reset_window : ℕ → RateLimiter → RateLimiter
reset_window now l =
    if leb 1 ((now - l.global_window_start) / nano)
    then record l { global_count = 0; global_window_start = now }
    else l

-- The rest of `isAllowedGlobal`: a request is refused at the limit and counted below it.
unfoldable pub count_request : RateLimiter → Bool × RateLimiter
count_request l =
    if leb l.max_requests_global l.global_count
    then (false, l)
    else (true, record l { global_count = l.global_count + 1 })

unfoldable pub is_allowed_global : ℕ → RateLimiter → Bool × RateLimiter
is_allowed_global now l = count_request (reset_window now l)

unfoldable pub find_record : ℕ → List (ℕ × IpRecord) → Option IpRecord
find_record ip [] = none
find_record ip ((i, r) ∷ rest) = if i == ip then some r else find_record ip rest

-- The record of the map is written through the reference.
unfoldable pub set_record : ℕ → IpRecord → List (ℕ × IpRecord) → List (ℕ × IpRecord)
set_record ip new_record [] = (ip, new_record) ∷ []
set_record ip new_record ((i, r) ∷ rest) =
    if i == ip then (i, new_record) ∷ rest else (i, r) ∷ set_record ip new_record rest

-- `try_emplace`: the record of the IP, a full bucket where it had none.
unfoldable pub emplaced : ℕ → ℕ → RateLimiter → IpRecord
unfolding find_record
emplaced ip now l = elim (find_record ip l.ip_records) [
  | some r ↦ r
  | none ↦ record { tokens = pos l.max_tokens; last_refill = now }
]

-- `if (record.tokens > maxTokens) record.tokens = maxTokens`.
unfoldable pub cap_tokens : ℕ → ℤ → ℤ
cap_tokens max_tokens tokens = if ltb_ℤ (pos max_tokens) tokens then pos max_tokens else tokens

-- `tokens += seconds * refillRate`, no more than the bucket holds, and the new time.
unfoldable pub refill : ℕ → ℕ → ℕ → IpRecord → IpRecord
refill max_tokens refill_rate now r = record {
  tokens =
      cap_tokens max_tokens (r.tokens +ℤ sub_ℕ (now * refill_rate) (r.last_refill * refill_rate));
  last_refill = now;
}

-- The end of `isAllowedPrivate`: a token is taken if there is one.
unfoldable pub consume : IpRecord → Bool × IpRecord
consume r =
    if ltb_ℤ r.tokens (pos nano)
    then (false, r)
    else (true, record r { tokens = r.tokens -ℤ pos nano })

unfoldable pub is_allowed_private : ℕ → ℕ → RateLimiter → Bool × RateLimiter
unfolding emplaced
is_allowed_private ip now l =
    let (allowed, r) = consume (refill l.max_tokens l.refill_rate now (emplaced ip now l)) in
    (allowed, record l { ip_records = set_record ip r l.ip_records })

-- `isAllowedGlobal() && isAllowedPrivate(ip)`, each with its own reading of the clock.
unfoldable pub is_allowed : ℕ → ℕ → ℕ → RateLimiter → Bool × RateLimiter
is_allowed ip now_global now_private l =
    let (passed, w) = is_allowed_global now_global l in
    if passed then is_allowed_private ip now_private w else (false, w)

-- A request with the two readings of the clock.
pub record Request : Type 0 where
  pub ip : ℕ
  pub now_global : ℕ
  pub now_private : ℕ

-- The calls of `isAllowed` in the order of their critical sections.
unfoldable pub serve : List Request → RateLimiter → List Bool × RateLimiter
serve [] l = ([], l)
serve (q ∷ rest) l =
    let (allowed, l') = is_allowed q.ip q.now_global q.now_private l in
    let (replies, l'') = serve rest l' in (allowed ∷ replies, l'')
