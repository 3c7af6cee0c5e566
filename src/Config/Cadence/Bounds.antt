-- ===== src/Config/Cadence/Bounds.antt =====
-- src/config/validate/cadence.rs and `EffectivePoll::compute`: the range of what a task polls with.
use gcit.Base.{
  ◌≤◌, ◌==◌, Bool, true, Option, none, some, List, ◌≡◌, refl, ltb, arith, ◌⊎◌, inl, inr, if_ind,
  unwrap_or, or_else, ◌||◌,
}
use gcit.Mail.{Bytes, ascii}
use gcit.Poll.Strategy.{
  Duration, PollStrategy, github_api, grokmirror, ls_remote, PollOverride, EffectivePoll, compute,
  default_interval,
}
use gcit.Config.Cadence.{
  Spanned, RawPoll, ConfigError, Collected, min_interval, max_interval, and_then_collect, bounded,
  zero_or_bounded, parse_bounded_duration, collect_poll, parse_interval, parse_cooldown,
  parse_jitter, validate_poll_override, validate_poll_defaults,
}

abbrev pub IsWithin : Duration → Duration → Duration → Type 0
IsWithin least most d = (least ≤ d) × (d ≤ most)

-- 15 seconds to a day.
abbrev pub IsInterval : Duration → Type 0
IsInterval d = IsWithin min_interval max_interval d

abbrev pub IsCooldown : Duration → Type 0
IsCooldown d = (d ≡ 0) ⊎ IsInterval d

abbrev pub OnSome {ℓ κ} : {A : Type ℓ} → (A → Type κ) → Option A → Type κ
OnSome P none = Unit
OnSome P (some a) = P a

pub record IsInRange {F64 : Type 0} (in_jitter : F64 → Bool) (e : EffectivePoll F64) : Type 0 where
  pub source_interval : IsInterval e.source_interval
  pub job_interval : IsInterval e.job_interval
  pub jitter : in_jitter e.jitter ≡ true
  pub cooldown : IsCooldown e.cooldown

and_then_collect-OnSome {ℓ κ μ} :
    {A : Type ℓ} {B : Type κ} (P : B → Type μ) (f : A → List ConfigError → Collected (Option B))
    → ((a : A) (errors : List ConfigError) → OnSome P (f a errors).0)
    → (o : Option A) (errors : List ConfigError) → OnSome P (and_then_collect f o errors).0
and_then_collect-OnSome P f h none errors = tt
and_then_collect-OnSome P f h (some a) errors = h a errors

unwrap_or-OnSome {ℓ κ} :
    {A : Type ℓ} (P : A → Type κ) (o : Option A) (a : A) → OnSome P o → P a → P (unwrap_or o a)
unwrap_or-OnSome P none a _ h = h
unwrap_or-OnSome P (some b) a h _ = h

or_else-OnSome {ℓ κ} :
    {A : Type ℓ} (P : A → Type κ) (o p : Option A)
    → OnSome P o
    → OnSome P p
    → OnSome P (or_else o p)
or_else-OnSome P none p _ h = h
or_else-OnSome P (some b) p h _ = h

default_interval-IsInterval : (s : PollStrategy) → IsInterval (default_interval s)
unfolding default_interval
default_interval-IsInterval github_api = (omega arith, omega arith)
default_interval-IsInterval grokmirror = (omega arith, omega arith)
default_interval-IsInterval ls_remote = (omega arith, omega arith)

module _ (parse_duration : Bytes → Option Duration) (source : Bytes) (flow : Option Bytes) where
  bounded-OnSome :
      (field : Bytes) (least most : Duration) (s : Spanned Bytes) (errors : List ConfigError)
      (d : Option Duration)
      → OnSome
          (IsWithin least most)
          (bounded parse_duration source flow field least most s errors d).0
  bounded-OnSome field least most s errors none = tt
  bounded-OnSome field least most s errors (some d) =
      if_ind (λ (r : Collected (Option Duration)). OnSome (IsWithin least most) r.0)
        (ltb d least || ltb most d) (λ _. tt) (λ h. (ground (arith, h), ground (arith, h)))

  zero_or_bounded-OnSome :
      (field : Bytes) (s : Spanned Bytes) (errors : List ConfigError) (d : Option Duration)
      → OnSome IsCooldown (zero_or_bounded parse_duration source flow field s errors d).0
  zero_or_bounded-OnSome field s errors none = tt
  zero_or_bounded-OnSome field s errors (some d) =
      if_ind (λ (r : Collected (Option Duration)). OnSome IsCooldown r.0) (d == 0) (λ _. inl refl)
        (λ _.
          if_ind (λ (r : Collected (Option Duration)). OnSome IsCooldown r.0)
            (ltb d min_interval || ltb max_interval d) (λ _. tt)
            (λ h. inr (ground (arith, h), ground (arith, h))))

  parse_jitter-OnSome :
      {F64 : Type 0}
      → (in_jitter : F64 → Bool) (print : F64 → Bytes) (field : Bytes) (s : Spanned F64)
        (errors : List ConfigError)
      → OnSome
          (λ j. in_jitter j ≡ true)
          (parse_jitter parse_duration source flow in_jitter print field s errors).0
  unfolding parse_jitter
  parse_jitter-OnSome {F64 = F64} in_jitter print field s errors =
      if_ind (λ (r : Collected (Option F64)). OnSome (λ j. in_jitter j ≡ true) r.0)
        (in_jitter s.value) (λ h. h) (λ _. tt)

-- The ranges of the fields that are set.
pub record IsChecked {F64 : Type 0} (in_jitter : F64 → Bool) (p : PollOverride F64) : Type 0 where
  pub source_interval : OnSome IsInterval p.source_interval
  pub job_interval : OnSome IsInterval p.job_interval
  pub jitter : OnSome (λ j. in_jitter j ≡ true) p.jitter
  pub cooldown : OnSome IsCooldown p.cooldown

module _ (parse_duration : Bytes → Option Duration) {F64 : Type 0} (in_jitter : F64 → Bool)
    (print : F64 → Bytes) (source : Bytes) where
  collect_poll-IsChecked :
      (flow : Option Bytes) (prefix : Bytes) (raw : RawPoll F64) (errors : List ConfigError)
      → IsChecked in_jitter
          (collect_poll parse_duration in_jitter print source flow prefix raw errors).0
  unfolding collect_poll parse_interval parse_bounded_duration parse_cooldown
  collect_poll-IsChecked flow prefix raw errors = record {
    source_interval =
        and_then_collect-OnSome IsInterval _
          (λ s es.
            bounded-OnSome parse_duration source flow _ min_interval max_interval s es
              (parse_duration s.value))
          raw.source_interval _;
    job_interval =
        and_then_collect-OnSome IsInterval _
          (λ s es.
            bounded-OnSome parse_duration source flow _ min_interval max_interval s es
              (parse_duration s.value))
          raw.job_interval _;
    jitter =
        and_then_collect-OnSome (λ j. in_jitter j ≡ true) _
          (λ s es. parse_jitter-OnSome parse_duration source flow in_jitter print _ s es) raw.jitter
          _;
    cooldown =
        and_then_collect-OnSome IsCooldown _
          (λ s es.
            zero_or_bounded-OnSome parse_duration source flow _ s es (parse_duration s.value))
          raw.cooldown _;
  }

  -- The effective interval of a task and its interval for jobs are between 15 seconds and a day,
  -- its cooldown is zero or in that range, and its jitter is in its own, whatever the
  -- configuration says, where the default jitter is in its range.
  pub compute-IsInRange :
      (default_jitter : F64)
      → in_jitter default_jitter ≡ true
      → (poll : RawPoll F64) (flow_poll : RawPoll F64) (flow_name : Bytes) (strategy : PollStrategy)
        (errors flow_errors : List ConfigError)
      → IsInRange in_jitter (
          compute
            (validate_poll_defaults parse_duration in_jitter print source default_jitter poll
              errors).0
            (validate_poll_override parse_duration in_jitter print source flow_name flow_poll
              flow_errors).0
            strategy)
  unfolding compute validate_poll_defaults validate_poll_override
  compute-IsInRange default_jitter h poll flow_poll flow_name strategy errors flow_errors =
      let defaults = collect_poll-IsChecked none (ascii "poll.") poll errors in
      let own =
        collect_poll-IsChecked (some flow_name) (ascii "flow.poll.") flow_poll flow_errors in
      record {
        source_interval =
            unwrap_or-OnSome IsInterval _ _
              (or_else-OnSome IsInterval _ _ own.source_interval defaults.source_interval)
              (default_interval-IsInterval strategy);
        job_interval =
            unwrap_or-OnSome IsInterval _ _ own.job_interval
              (unwrap_or-OnSome IsInterval _ _ defaults.job_interval (omega arith, omega arith));
        jitter =
            unwrap_or-OnSome (λ j. in_jitter j ≡ true) _ _ own.jitter
              (unwrap_or-OnSome (λ j. in_jitter j ≡ true) _ _ defaults.jitter h);
        cooldown =
            unwrap_or-OnSome IsCooldown _ _ own.cooldown
              (unwrap_or-OnSome IsCooldown _ _ defaults.cooldown (inr (omega arith, omega arith)));
      }
