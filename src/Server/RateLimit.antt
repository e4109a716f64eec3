-- ===== src/Server/RateLimit.antt =====
-- The rate limiter per address, internal/server/ratelimit.go. The token bucket of the package
-- x/time/rate is a parameter. Times are nanoseconds, a request or a run of `cleanup` is one step,
-- and the counters of the metrics are left out.
pub mod Table
pub mod Isolation
use gghstats.Base.{
  ℕ, ◌+◌, ◌-◌, ◌*◌, Bool, true, false, not, ltb, if◌then◌else◌, List, [], ◌∷◌, ◌++◌, Option, none,
  some,
}
use gghstats.Base.Text.{Text, text_eq}
use gghstats.Store.Table.{find_row, upsert, update_where, delete_where}
use gghstats.Server.Proxies.{Net, Request, client_ip}
use gghstats.Server.Access.{MiddlewareSkip, Verdict, pass, too_many_requests, skip_matches}

-- `rate.NewLimiter(rl.rate, rl.burst)` and the method `Allow` at a time.
pub record Limiter (Bucket : Type 0) : Type 0 where
  pub full : Bucket
  pub allow : ℕ → Bucket → Bool × Bucket

pub record RateLimiterEntry (Bucket : Type 0) : Type 0 where
  pub ip : Text
  pub limiter : Bucket
  pub last_seen : ℕ

-- `maxIdle`, five minutes.
abbrev pub max_idle : ℕ
max_idle = 300 * 1000000000

unfoldable pub is_ip : {Bucket : Type 0} → Text → RateLimiterEntry Bucket → Bool
is_ip ip e = text_eq e.ip ip

unfoldable pub touch : {Bucket : Type 0} → ℕ → RateLimiterEntry Bucket → RateLimiterEntry Bucket
touch now e = record e { last_seen = now }

unfoldable pub set_limiter :
    {Bucket : Type 0} → Bucket → RateLimiterEntry Bucket → RateLimiterEntry Bucket
set_limiter b e = record e { limiter = b }

unfoldable pub is_idle : {Bucket : Type 0} → ℕ → RateLimiterEntry Bucket → Bool
is_idle now e = ltb max_idle (now - e.last_seen)

unfoldable pub cleanup :
    {Bucket : Type 0} → ℕ → List (RateLimiterEntry Bucket) → List (RateLimiterEntry Bucket)
cleanup now limiters = delete_where (is_idle now) limiters

pub data Event : Type 0 where
  arrival : ℕ → Request → Event
  tick : ℕ → Event

abbrev pub verdict_of : Bool → Verdict
verdict_of true = pass
verdict_of false = too_many_requests

module _ {Ip Cidr Bucket : Type 0} (net : Net Ip Cidr) (trusted : Option (List Cidr))
    (rate : Limiter Bucket) where
  unfoldable pub get_or_create :
      ℕ → Text → List (RateLimiterEntry Bucket) → List (RateLimiterEntry Bucket)
  get_or_create now ip limiters =
      upsert (is_ip ip) (touch now) (record { ip = ip; limiter = rate.full; last_seen = now })
        limiters

  -- The bucket of the entry that `getOrCreate` returns.
  unfoldable pub bucket_at : Text → List (RateLimiterEntry Bucket) → Bucket
  bucket_at ip limiters = elim (find_row (is_ip ip) limiters) [
    | none ↦ rate.full
    | some e ↦ e.limiter
  ]

  unfoldable pub rate_limit_middleware :
      MiddlewareSkip
      → ℕ
      → Request
      → List (RateLimiterEntry Bucket)
      → Verdict × List (RateLimiterEntry Bucket)
  rate_limit_middleware skip now r limiters =
      let ip = client_ip net trusted r in
      let present = get_or_create now ip limiters in
      let asked = rate.allow now (bucket_at ip present) in
      if skip_matches skip r.path
      then (pass, limiters)
      else (verdict_of asked.0, update_where (is_ip ip) (set_limiter asked.1) present)

  unfoldable pub limiters_after :
      MiddlewareSkip → List Event → List (RateLimiterEntry Bucket) → List (RateLimiterEntry Bucket)
  limiters_after skip [] limiters = limiters
  limiters_after skip (arrival now r ∷ events) limiters =
      limiters_after skip events (rate_limit_middleware skip now r limiters).1
  limiters_after skip (tick now ∷ events) limiters =
      limiters_after skip events (cleanup now limiters)

  -- The verdict on each request, in order.
  unfoldable pub serve_all :
      MiddlewareSkip → List Event → List (RateLimiterEntry Bucket) → List (Request × Verdict)
  serve_all skip [] limiters = []
  serve_all skip (arrival now r ∷ events) limiters =
      let served = rate_limit_middleware skip now r limiters in
      (r, served.0) ∷ serve_all skip events served.1
  serve_all skip (tick now ∷ events) limiters = serve_all skip events (cleanup now limiters)
