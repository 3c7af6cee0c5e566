-- ===== src/Github/RateLimit.antt =====
-- src/github/rate_limit.rs: what the daemon knows of a credential's rate limit. Parsing a header is
-- http's and std's, and a header is what it parses to.
use gcit.Base.{
  ℕ, ◌+◌, ◌-◌, ◌*◌, Option, none, some, is_some, ltb, ◌==◌, ◌||◌, or_else, if◌then◌else◌,
}
use gcit.State.Types.{DateTime}
use gcit.Poll.Strategy.{Duration}

-- A minute, in nanoseconds.
abbrev pub poll_interval : Duration
poll_interval = 60000000000

abbrev pub first_failure_reset_window : Duration
first_failure_reset_window = poll_interval

-- `Snapshot`
pub record RateLimitState : Type 0 where
  pub remaining : Option ℕ
  pub limit : Option ℕ
  pub reset : Option DateTime
  pub observed_at : Option DateTime

abbrev pub new : RateLimitState
new = record { remaining = none; limit = none; reset = none; observed_at = none }

unfoldable pub observe_full : DateTime → ℕ → ℕ → DateTime → RateLimitState → RateLimitState
observe_full now limit remaining reset s = record {
  remaining = some remaining;
  limit = some limit;
  reset = some reset;
  observed_at = some now;
}

unfoldable pub observe_headers :
    DateTime → Option ℕ → Option DateTime → Option ℕ → RateLimitState → RateLimitState
observe_headers now remaining reset limit s =
    if is_some remaining || is_some reset || is_some limit
    then record {
      remaining = or_else remaining s.remaining;
      limit = or_else limit s.limit;
      reset = or_else reset s.reset;
      observed_at = some now;
    }
    else s

unfoldable pub clamp_pessimistic : DateTime → RateLimitState → RateLimitState
clamp_pessimistic now s = if is_some s.observed_at then s else record {
  remaining = some 0;
  limit = some 0;
  reset = some (now + first_failure_reset_window);
  observed_at = some now;
}

-- Until the reset, where that is to come.
abbrev pub until_reset : DateTime → Option DateTime → Option Duration
until_reset now none = none
until_reset now (some reset) = if ltb now reset then some (reset - now) else none

abbrev pub defer_remaining : DateTime → Option DateTime → Option ℕ → Option Duration
defer_remaining now reset none = some poll_interval
defer_remaining now reset (some remaining) = if remaining == 0 then until_reset now reset else none

-- `now - observed_at` stops at 0, where the source's is negative and as little above the bound.
abbrev pub defer_observed : DateTime → RateLimitState → Option DateTime → Option Duration
defer_observed now s none = some poll_interval
defer_observed now s (some observed_at) =
    if ltb (poll_interval * 2) (now - observed_at)
    then some poll_interval
    else defer_remaining now s.reset s.remaining

-- How long a request is put off; `none` lets it through.
unfoldable pub should_defer : DateTime → RateLimitState → Option Duration
should_defer now s = defer_observed now s s.observed_at
