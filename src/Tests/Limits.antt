-- ===== src/Tests/Limits.antt =====
-- The limiter with the server's settings, on three requests of two clients.
use kv_database.Prelude.{ℕ, refl, ◌+◌, ◌*◌, ◌≤◌, arith, List, [], ◌∷◌}
use kv_database.Prelude.Int.{pos}
use kv_database.Limiter.{nano, IpRecord, RateLimiter, Request, find_record, serve}
use kv_database.Limiter.Window.{total, IsCounted, serve-rate}
use kv_database.Limiter.Quota.{IsReady}
use kv_database.Limiter.Trace.{granted_to, serve-quota}

abbrev limiter : RateLimiter
limiter = record {
  ip_records = [];
  global_count = 0;
  global_window_start = 0;
  max_tokens = 10 * nano;
  refill_rate = 5;
  max_requests_global = 1000;
}

abbrev request : ℕ → ℕ → Request
request ip now = record { ip = ip; now_global = now; now_private = now }

abbrev trace : List Request
trace = request 7 10 ∷ request 8 20 ∷ request 7 nano ∷ []

abbrev half_full : IpRecord
half_full = record { tokens = pos (5 * nano); last_refill = 0 }

limiter-IsCounted : IsCounted 1000 limiter
limiter-IsCounted = record { limited = refl; counted = omega arith }

limiter-IsReady : IsReady (10 * nano) 5 7 0 limiter
unfolding find_record
limiter-IsReady = record { max = refl; rate_set = refl; ready = λ r e. absurd (ground arith) }

serve-rate_example :
    nano * total (serve trace limiter).0 + 1000 * limiter.global_window_start
    ≤ 1000 * nano + 1000 * (serve trace limiter).1.global_window_start
serve-rate_example = serve-rate 1000 trace limiter limiter-IsCounted

serve-quota_example :
    nano * granted_to 7 trace (serve trace limiter).0 + 0 * 5 ≤ 10 * nano + nano * 5
serve-quota_example =
    serve-quota (10 * nano) 5 7 trace 0 nano limiter limiter-IsReady
      (omega arith, (omega arith, (omega arith, omega arith)))
