-- ===== src/Server/RateLimit.antt =====
-- server/internal/oauth/ratelimit.go. Tokens are counted in nanoseconds of refill, so that one
-- token is `interval` of them: the quotients of float64 are exact here. `now` is the monotonic
-- clock that each call reads.
pub mod Levels
pub mod Progress
use funcbox.Prelude.{
  ℕ, suc, ◌+◌, ◌-◌, ◌*◌, ◌%◌, min, ◌≡◌, Bool, true, false, Bytes, str_eq, List, [], ◌∷◌, ◌==◌, ltb,
  Option, none, some, if◌then◌else◌,
}
use funcbox.Prelude.Maps.{Map, get, put, remove, keys}

-- time.Second in nanoseconds
abbrev pub second : ℕ
second = 1000000000

abbrev pub register_rate_burst : ℕ
register_rate_burst = 20

abbrev pub register_rate_refill_interval : ℕ
register_rate_refill_interval = 6 * second

abbrev pub register_bucket_idle_evict : ℕ
register_bucket_idle_evict = 30 * 60 * second

pub record Bucket : Type 0 where
  pub tokens : ℕ
  pub last_seen : ℕ

pub record IpRateLimiter : Type 0 where
  pub burst : ℕ
  pub interval : ℕ
  pub buckets : Map Bucket
  pub calls : ℕ

unfoldable pub new_ip_rate_limiter : ℕ → ℕ → IpRateLimiter
new_ip_rate_limiter burst interval = record {
  burst = burst;
  interval = interval;
  buckets = [];
  calls = 0;
}

-- l.burst, in nanoseconds of refill
unfoldable pub full : IpRateLimiter → ℕ
full l = l.burst * l.interval

-- The tokens that the call finds in the bucket.
unfoldable pub refill : ℕ → ℕ → Option Bucket → ℕ
refill limit now none = limit
refill limit now (some b) = min limit (b.tokens + (now - b.last_seen))

unfoldable pub is_idle : ℕ → Option Bucket → Bool
is_idle now none = false
is_idle now (some b) = ltb register_bucket_idle_evict (now - b.last_seen)

-- The loop that ranges over the map while it deletes from it.
unfoldable pub sweep : ℕ → List Bytes → Map Bucket → Map Bucket
unfolding is_idle get remove
sweep now [] m = m
sweep now (k ∷ ks) m = sweep now ks (if is_idle now (get k m) then remove k m else m)

unfoldable pub swept : ℕ → ℕ → Map Bucket → Map Bucket
unfolding sweep
swept calls now m = if calls % 1000 == 0 then sweep now (keys m) m else m

-- allow: the bucket of the key is stored before the sweep and its token taken after it.
unfoldable pub allow : Bytes → ℕ → IpRateLimiter → IpRateLimiter × Bool
unfolding full refill swept put get
allow key now l =
    let tokens : ℕ = refill (full l) now (get key l.buckets) in
    let calls : ℕ = suc l.calls in
    let buckets : Map Bucket =
      swept calls now (put key (record { tokens = tokens; last_seen = now }) l.buckets) in
    if ltb tokens l.interval then (record l { buckets = buckets; calls = calls }, false) else (
      record l {
        buckets = put key (record { tokens = tokens - l.interval; last_seen = now }) buckets;
        calls = calls;
      },
      true,
    )
