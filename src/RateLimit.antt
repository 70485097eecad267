-- ===== src/RateLimit.antt =====
-- lib/ws/ratelimiter/inmemory.go: how often an address may commit. Times are seconds, and an event is the
-- time of an attempt.
pub mod Counts
use etherpad_go.Prelude.{
  ℕ, zero, suc, ◌+◌, ◌*◌, ◌-◌, ◌/◌, ◌%◌, ◌≤◌, ◌<◌, min, Bool, true, false, not, ◌&&◌, ◌||◌, Option,
  none, some, List, [], ◌∷◌, ◌++◌, map, Text, text_eq, codes, if◌then◌else◌, ltb, leb, ◌==◌, length,
  is_some, ◌≡◌, ◌≢◌, ◌↔◌, ◌⊎◌, inl, inr, refl, sym, ap, ◌∙◌, subst, arith, tests, Bool-cases,
  text_eq_refl, text_eq→eq, Option-cases, ltb→lt, lt→ltb, leb→le, le→leb, ==_iff,
}

pub record CommitRateLimiting : Type 0 where
  pub duration : ℕ
  pub points : ℕ
  pub load_test : Bool

abbrev pub RateLimiter : Type 0
RateLimiter = List (Text × List ℕ)

-- A missing address has no events.
unfoldable pub events_of : Text → RateLimiter → List ℕ
events_of ip [] = []
events_of ip ((ip', events) ∷ limiter) = if text_eq ip ip' then events else events_of ip limiter

unfoldable pub put_events : Text → List ℕ → RateLimiter → RateLimiter
put_events ip events [] = (ip, events) ∷ []
put_events ip events ((ip', old) ∷ limiter) =
    let rest = put_events ip events limiter in
    if text_eq ip ip' then (ip', events) ∷ limiter else (ip', old) ∷ rest

-- The loop that drops old events.
unfoldable pub since : ℕ → List ℕ → List ℕ
since cutoff [] = []
since cutoff (event ∷ events) =
    let rest = since cutoff events in if leb cutoff event then event ∷ rest else rest

unfoldable pub events_after : CommitRateLimiting → ℕ → List ℕ → List ℕ
events_after limiting now events = since (now - limiting.duration) events ++ now ∷ []

-- The Boolean is false for `ErrRateLimitExceeded`.
unfoldable pub check_rate_limit : CommitRateLimiting → Text → ℕ → RateLimiter → Bool × RateLimiter
check_rate_limit limiting ip now limiter =
    let events = events_after limiting now (events_of ip limiter) in
    if limiting.load_test
    then (true, limiter)
    else (leb (length events) limiting.points, put_events ip events limiter)
