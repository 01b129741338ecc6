-- ===== src/Server/RateLimit/Progress.antt =====
-- Whether a key that waits or repeats refused calls is allowed in the end (ratelimit.go).
use funcbox.Prelude.{ℕ, ◌-◌, ◌≤◌, min, Bytes}
use funcbox.Server.RateLimit.{IpRateLimiter, full}
use funcbox.Server.RateLimit.Levels.{level}

-- From `now` on the key has what was refilled since `start`, or more.
abbrev Refilled : Bytes → ℕ → ℕ → IpRateLimiter → Type 0
Refilled key start now l = (t : ℕ) → now ≤ t → min (full l) (t - start) ≤ level key t l
