-- ===== src/Github/Deferral.antt =====
-- src/github/rate_limit.rs and src/github/error: when `should_defer` lets a request through, and
-- which errors are worth another attempt.
use gcit.Base.{
  ℕ, zero, suc, Bool-cases, ap, sym, ◌∙◌, ◌+◌, ◌-◌, ◌*◌, ◌≤◌, ◌<◌, Bool, true, Option, none, some,
  ltb, ◌==◌, ◌&&◌, ◌||◌, ◌≡◌, refl, arith, if◌then◌else◌, ◌⊎◌, inl, inr, not, subst,
}
use gcit.State.Types.{DateTime}
use gcit.Poll.Strategy.{Duration}
use gcit.Mail.{Bytes}
use gcit.Github.RateLimit.{
  RateLimitState, poll_interval, should_defer, until_reset, defer_remaining, defer_observed,
}
use gcit.Github.Errors.{
  rate_limited, transient, permanent, retryability, retry_after, StatusContext, classify_status,
  is_exhausted, message_indicates_dispatch_invalid, resolve_reset,
}

-- What is known lets a request through: an observation of the last two minutes, and a request that
-- remains or a reset that is not to come.
abbrev pub LetsThrough : DateTime → RateLimitState → Type 0
LetsThrough now s =
    (observed_at : DateTime) × ((s.observed_at ≡ some observed_at)
      × (now ≤ observed_at + poll_interval * 2)
      × ((remaining : ℕ) × ((s.remaining ≡ some remaining)
            × ((0 < remaining) ⊎ ((reset : DateTime) → s.reset ≡ some reset → reset ≤ now)))))

until_reset-past :
    (now : DateTime) (r : Option DateTime)
    → until_reset now r ≡ none
    → (reset : DateTime) → r ≡ some reset
    → reset ≤ now
until_reset-past now none h reset e = absurd (ground (arith, e))
until_reset-past now (some r) h reset e = ground (arith, h, e)

defer_remaining-known :
    (now : DateTime) (reset : Option DateTime) (r : Option ℕ)
    → defer_remaining now reset r ≡ none
    → (remaining : ℕ) × ((r ≡ some remaining)
        × ((0 < remaining) ⊎ ((t : DateTime) → reset ≡ some t → t ≤ now)))
defer_remaining-known now reset none h = absurd (ground (arith, h))
defer_remaining-known now reset (some zero) h = (zero, (refl, inr (until_reset-past now reset h)))
defer_remaining-known now reset (some (suc n)) h = (suc n, (refl, inl (omega arith)))

-- Where `should_defer` lets a request through, the limits were observed in the last two minutes,
-- and of the requests some remain or the reset, where it is known, has passed.
pub should_defer-LetsThrough :
    (now : DateTime) (s : RateLimitState) → should_defer now s ≡ none → LetsThrough now s
unfolding should_defer
should_defer-LetsThrough now s h = known s.observed_at refl h
  where
    known :
        (o : Option DateTime)
        → s.observed_at ≡ o
        → defer_observed now s o ≡ none
        → LetsThrough now s
    known none e h = absurd (ground (arith, h))
    known (some at) e h = elim (Bool-cases (ltb (poll_interval * 2) (now - at))) [
      | inl stale ↦ absurd (ground (arith, h, stale))
      | inr fresh ↦ (
        at,
        (
          e,
          ground (arith, fresh),
          defer_remaining-known now s.reset s.remaining (
              ap (λ b. if b then some poll_interval else defer_remaining now s.reset s.remaining)
                (sym fresh)
              ∙ h),
        ),
      )
    ]

-- The statuses that another attempt cannot change.
abbrev pub is_hopeless : StatusContext → Bool
is_hopeless ctx =
    (ctx.status == 401)
    || (ctx.status == 404)
    || ((ctx.status == 403) && not (is_exhausted ctx.rate_limit_remaining))
    || ((ctx.status == 422) && message_indicates_dispatch_invalid ctx.message)

module _ (show : ℕ → Bytes) where
  -- Whatever the response is, the error that it is classified as is permanent for a 401, a 404, a
  -- 403 that does not say that no requests remain, and a 422 whose message names the inputs; and
  -- it is transient for every other status.
  pub retryability-classify_status :
      (now : DateTime) (ctx : StatusContext)
      → retryability (classify_status show now ctx)
        ≡ (if is_hopeless ctx then permanent else transient)
  unfolding classify_status retryability
  retryability-classify_status now ctx = ground arith

  -- A response that the rate limit refused.
  abbrev pub IsRefused : StatusContext → Type 0
  IsRefused ctx =
      (ctx.status ≡ 429) ⊎ ((ctx.status ≡ 403) × (is_exhausted ctx.rate_limit_remaining ≡ true))

  wait-positive :
      (now : DateTime) (credential : Bytes) (r : Option DateTime)
      → (d : Duration) × ((retry_after now (rate_limited credential (resolve_reset now r)) ≡ some d)
          × (0 < d))
  unfolding retry_after
  wait-positive now credential none = (now + 60000000000 - now, (ground arith, omega arith))
  wait-positive now credential (some t) = elim (Bool-cases (ltb now t)) [
    | inl e ↦ (t - now, (ground (arith, e), ground (arith, e)))
    | inr e ↦ (now + 60000000000 - now, (ground (arith, e), omega arith))
  ]

  classify_status-refused :
      (now : DateTime) (ctx : StatusContext)
      → IsRefused ctx
      → classify_status show now ctx
        ≡ rate_limited ctx.credential (resolve_reset now ctx.rate_limit_reset)
  unfolding classify_status
  classify_status-refused now ctx (inl e) = ground (arith, e)
  classify_status-refused now ctx (inr (e, exhausted)) = ground (arith, e, exhausted)

  -- For a 429, and for a 403 that says that no requests remain, the error, asked at the instant
  -- of its classification, asks for a wait that is not zero, whatever reset the response carries.
  pub retry_after-classify_status :
      (now : DateTime) (ctx : StatusContext)
      → IsRefused ctx
      → (d : Duration) × ((retry_after now (classify_status show now ctx) ≡ some d) × (0 < d))
  retry_after-classify_status now ctx refused =
      subst (λ e. (d : Duration) × ((retry_after now e ≡ some d) × (0 < d)))
        (sym (classify_status-refused now ctx refused))
        (wait-positive now ctx.credential ctx.rate_limit_reset)
