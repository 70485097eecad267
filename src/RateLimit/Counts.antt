-- ===== src/RateLimit/Counts.antt =====
-- What `CheckRateLimit` of lib/ws/ratelimiter/inmemory.go counts.
use etherpad_go.Prelude.{ℕ, ◌≤◌, List, [], ◌∷◌, Text, text_eq, if◌then◌else◌}
use etherpad_go.RateLimit.{CommitRateLimiting, RateLimiter, check_rate_limit}

-- The attempts made so far, each with its address and its time, the first one first.
unfoldable pub after_all : CommitRateLimiting → List (Text × ℕ) → RateLimiter → RateLimiter
after_all limiting [] limiter = limiter
after_all limiting ((ip, now) ∷ attempts) limiter =
    after_all limiting attempts (check_rate_limit limiting ip now limiter).1

-- The times of the attempts from an address.
unfoldable pub times_of : Text → List (Text × ℕ) → List ℕ
times_of ip [] = []
times_of ip ((ip', now) ∷ attempts) =
    let rest = times_of ip attempts in if text_eq ip ip' then now ∷ rest else rest

-- No attempt is later than a time.
unfoldable pub UpTo : ℕ → List (Text × ℕ) → Type 0
UpTo t [] = Unit {0}
UpTo t ((ip, now) ∷ attempts) = (now ≤ t) × UpTo t attempts
