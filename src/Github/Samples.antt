-- ===== src/Github/Samples.antt =====
-- A bucket after a minute, and two responses.
use gcit.Base.{ℕ, ◌<◌, none, some, [], ◌≡◌, refl, inl, if◌then◌else◌}
use gcit.Poll.Strategy.{Duration}
use gcit.Mail.{Bytes, ascii}
use gcit.Github.RateLimit.{
  RateLimitState, poll_interval, new, observe_full, observe_headers, clamp_pessimistic,
  should_defer,
}
use gcit.Github.Errors.{
  StatusContext, classify_status, retryability, retry_after, permanent, transient,
}
use gcit.Github.Deferral.{
  LetsThrough, should_defer-LetsThrough, is_hopeless, retryability-classify_status,
  retry_after-classify_status,
}

abbrev minute : Duration
minute = poll_interval

-- A poll, and a response that says that 41 requests are left.
abbrev observed : RateLimitState
observed = observe_headers 20 (some 41) none none (observe_full 10 5000 42 1000 new)

should_defer-LetsThrough_example : LetsThrough minute observed
unfolding should_defer observe_full observe_headers
should_defer-LetsThrough_example = should_defer-LetsThrough minute observed refl

-- The first poll fails: requests wait for the next one, and a second failure changes nothing.
clamped : should_defer 7 (clamp_pessimistic 6 (clamp_pessimistic 5 new)) ≡ some 59999999998
unfolding should_defer clamp_pessimistic
clamped = refl

abbrev digits : ℕ → Bytes
digits n = []

abbrev too_many : StatusContext
too_many = record {
  status = 429;
  message = [];
  rate_limit_remaining = none;
  rate_limit_reset = some 500;
  credential = ascii "pat";
  repo = ascii "o/r";
  workflow = ascii "ci.yml";
}

retryability-classify_status_example :
    retryability (classify_status digits 100 too_many)
    ≡ (if is_hopeless too_many then permanent else transient)
retryability-classify_status_example = retryability-classify_status digits 100 too_many

retry_after-classify_status_example :
    (d : Duration) × ((retry_after 100 (classify_status digits 100 too_many) ≡ some d) × (0 < d))
retry_after-classify_status_example = retry_after-classify_status digits 100 too_many (inl refl)
