-- ===== src/Config/Cadence/Errors.antt =====
-- src/config/validate/cadence.rs: a value that is not taken is reported.
use mathlib.Core.Option
use gcit.Base.{
  ℕ, ◌≤◌, ◌==◌, Bool, Option, none, some, List, [], ◌∷◌, ◌++◌, length, length-append, ◌≡◌, refl, ap,
  ltb, ◌||◌, arith, if_ind,
}
use gcit.Mail.{Bytes}
use gcit.Poll.Strategy.{Duration}
use gcit.Config.Cadence.{
  Spanned, RawPoll, ConfigError, Collected, min_interval, max_interval, and_then_collect, bounded,
  zero_or_bounded, parse_bounded_duration, parse_interval, parse_cooldown, parse_jitter,
  collect_poll, validate_poll_override,
}

-- No error is lost, and where none is added the value is the one that the field asks for.
record IsHonest {ℓ} {A : Type ℓ} (asked : Option A) (errors : List ConfigError)
    (r : Collected (Option A)) : Type ℓ where
  grows : length errors ≤ length r.1
  honored : length r.1 ≡ length errors → r.0 ≡ asked

added-IsHonest {ℓ} :
    {A : Type ℓ}
    → (asked : Option A) (errors : List ConfigError) (e : ConfigError)
    → IsHonest asked errors (none, errors ++ (e ∷ []))
added-IsHonest asked errors e = record {
  grows = omega (arith, length-append errors (e ∷ []));
  honored = λ h. absurd (omega (arith, h, length-append errors (e ∷ [])));
}

kept-IsHonest {ℓ} :
    {A : Type ℓ} → (a : Option A) (errors : List ConfigError) → IsHonest a errors (a, errors)
kept-IsHonest a errors = record { grows = omega arith; honored = λ _. refl }

squeezed :
    {a b c d e : ℕ} → a ≤ b → b ≤ c → c ≤ d → d ≤ e → e ≡ a → (b ≡ a) × (c ≡ b) × (d ≡ c) × (e ≡ d)
squeezed ab bc cd de ea = (
  omega (arith, ab, bc, cd, de, ea),
  omega (arith, ab, bc, cd, de, ea),
  omega (arith, ab, bc, cd, de, ea),
  omega (arith, ab, bc, cd, de, ea),
)

-- What a field asks for.
abbrev pub read : (Bytes → Option Duration) → Option (Spanned Bytes) → Option Duration
read parse_duration none = none
read parse_duration (some s) = parse_duration s.value

module _ (parse_duration : Bytes → Option Duration) (source : Bytes) (flow : Option Bytes) where
  bounded-IsHonest :
      (field : Bytes) (least most : Duration) (s : Spanned Bytes) (errors : List ConfigError)
      (d : Option Duration)
      → IsHonest d errors (bounded parse_duration source flow field least most s errors d)
  bounded-IsHonest field least most s errors none = added-IsHonest none errors _
  bounded-IsHonest field least most s errors (some d) =
      if_ind (IsHonest (some d) errors) (ltb d least || ltb most d)
        (λ _. added-IsHonest (some d) errors _) (λ _. kept-IsHonest (some d) errors)

  zero_or_bounded-IsHonest :
      (field : Bytes) (s : Spanned Bytes) (errors : List ConfigError) (d : Option Duration)
      → IsHonest d errors (zero_or_bounded parse_duration source flow field s errors d)
  zero_or_bounded-IsHonest field s errors none = added-IsHonest none errors _
  zero_or_bounded-IsHonest field s errors (some d) =
      if_ind (IsHonest (some d) errors) (d == 0)
        (λ h. record { grows = omega arith; honored = λ _. ap some (ground (arith, h)) })
        (λ _.
          if_ind (IsHonest (some d) errors) (ltb d min_interval || ltb max_interval d)
            (λ _. added-IsHonest (some d) errors _) (λ _. kept-IsHonest (some d) errors))

  parse_interval-IsHonest :
      (field : Bytes) (raw : Option (Spanned Bytes)) (errors : List ConfigError)
      → IsHonest
          (read parse_duration raw)
          errors
          (and_then_collect (parse_interval parse_duration source flow field) raw errors)
  unfolding parse_interval parse_bounded_duration
  parse_interval-IsHonest field none errors = kept-IsHonest none errors
  parse_interval-IsHonest field (some s) errors =
      bounded-IsHonest field min_interval max_interval s errors (parse_duration s.value)

  parse_cooldown-IsHonest :
      (field : Bytes) (raw : Option (Spanned Bytes)) (errors : List ConfigError)
      → IsHonest
          (read parse_duration raw)
          errors
          (and_then_collect (parse_cooldown parse_duration source flow field) raw errors)
  unfolding parse_cooldown
  parse_cooldown-IsHonest field none errors = kept-IsHonest none errors
  parse_cooldown-IsHonest field (some s) errors =
      zero_or_bounded-IsHonest field s errors (parse_duration s.value)

  parse_jitter-IsHonest :
      {F64 : Type 0}
      → (in_jitter : F64 → Bool) (print : F64 → Bytes) (field : Bytes) (raw : Option (Spanned F64))
        (errors : List ConfigError)
      → IsHonest (Option.map (λ s. s.value) raw) errors (
          and_then_collect
            (parse_jitter parse_duration source flow in_jitter print field)
            raw
            errors)
  unfolding parse_jitter
  parse_jitter-IsHonest in_jitter print field none errors = kept-IsHonest none errors
  parse_jitter-IsHonest in_jitter print field (some s) errors =
      if_ind (IsHonest (some s.value) errors) (in_jitter s.value)
        (λ _. kept-IsHonest (some s.value) errors) (λ _. added-IsHonest (some s.value) errors _)

module _ (parse_duration : Bytes → Option Duration) {F64 : Type 0} (in_jitter : F64 → Bool)
    (print : F64 → Bytes) (source : Bytes) where
  -- Where the overrides of a flow add no error, each of them is what its field asks for: the
  -- duration that its text is, the jitter as it stands, and nothing where the field is missing.
  pub validate_poll_override_honored :
      (flow_name : Bytes) (raw : RawPoll F64) (errors : List ConfigError)
      → (validate_poll_override parse_duration in_jitter print source flow_name raw errors).1
        ≡ errors
      → let poll =
          (validate_poll_override parse_duration in_jitter print source flow_name raw errors).0 in
        (poll.source_interval ≡ read parse_duration raw.source_interval)
        × (poll.job_interval ≡ read parse_duration raw.job_interval)
        × (poll.jitter ≡ Option.map (λ s. s.value) raw.jitter)
        × (poll.cooldown ≡ read parse_duration raw.cooldown)
  unfolding validate_poll_override collect_poll
  validate_poll_override_honored flow_name raw errors h =
      let interval =
        parse_interval-IsHonest parse_duration source (some flow_name) _ raw.source_interval
          errors in
      let job =
        parse_interval-IsHonest parse_duration source (some flow_name) _ raw.job_interval _ in
      let jitter =
        parse_jitter-IsHonest parse_duration source (some flow_name) in_jitter print _ raw.jitter
          _ in
      let cooldown =
        parse_cooldown-IsHonest parse_duration source (some flow_name) _ raw.cooldown _ in
      let same = squeezed interval.grows job.grows jitter.grows cooldown.grows (ap length h) in
      (interval.honored same.0, job.honored same.1, jitter.honored same.2, cooldown.honored same.3)
