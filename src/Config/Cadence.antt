-- ===== src/Config/Cadence.antt =====
-- src/config/validate/cadence.rs: the intervals, the jitter and the timeout of the configuration, and
-- the errors on the way, each list of them the one given with more at its end. `parse_duration` is
-- humantime's; of `f64` there is the test of the range, the default and how one is printed. The path
-- and the texts of an error are left out, and so is the warning about `http.max_concurrent`.
pub mod Bounds
pub mod Errors
mod Samples
use mathlib.Core.Option
use gcit.Base.{
  ℕ, ◌+◌, ◌*◌, min, Bool, Option, none, some, List, [], ◌∷◌, ◌++◌, length, take, ◌==◌, ◌||◌, ltb,
  unwrap_or, if◌then◌else◌,
}
use gcit.Mail.{Bytes, ascii}
use gcit.Poll.Strategy.{Duration, seconds, PollDefaults, PollOverride}

abbrev pub min_interval : Duration
min_interval = seconds 15

abbrev pub max_interval : Duration
max_interval = seconds (24 * 60 * 60)

abbrev pub min_http_timeout : Duration
min_http_timeout = seconds 1

abbrev pub max_http_timeout : Duration
max_http_timeout = seconds 300

abbrev pub default_cooldown : Duration
default_cooldown = seconds (5 * 60)

-- `start` is where the span of the value starts.
pub record Spanned {ℓ} (A : Type ℓ) : Type ℓ where
  pub value : A
  pub start : ℕ

pub data ConfigError : Type 0 where
  parse : (line : ℕ) → ConfigError
  validate : (lines : List ℕ) (flow : Option Bytes) (field value : Bytes) → ConfigError

unfoldable pub count_lines : Bytes → ℕ
count_lines [] = 0
count_lines (b ∷ s) = if b == 10 then 1 + count_lines s else count_lines s

unfoldable pub byte_offset_to_line : Bytes → ℕ → ℕ
unfolding count_lines
byte_offset_to_line source offset = 1 + count_lines (take (min offset (length source)) source)

abbrev pub span_line {ℓ} : {A : Type ℓ} → Bytes → Spanned A → ℕ
span_line source s = byte_offset_to_line source s.start

abbrev or_line_one : List ℕ → List ℕ
or_line_one [] = 1 ∷ []
or_line_one (line ∷ lines) = line ∷ lines

abbrev pub validate_err : List ℕ → Option Bytes → Bytes → Bytes → ConfigError
validate_err lines = validate (or_line_one lines)

-- What a step gives, and the errors so far.
abbrev pub Collected {ℓ} : Type ℓ → Type ℓ
Collected A = A × List ConfigError

pub record RawPoll (F64 : Type 0) : Type 0 where
  pub source_interval : Option (Spanned Bytes)
  pub job_interval : Option (Spanned Bytes)
  pub jitter : Option (Spanned F64)
  pub cooldown : Option (Spanned Bytes)

-- `raw.as_ref().and_then(..)`
abbrev pub and_then_collect {ℓ κ} :
    {A : Type ℓ} {B : Type κ}
    → (A → List ConfigError → Collected (Option B))
    → Option A
    → List ConfigError
    → Collected (Option B)
and_then_collect f none errors = (none, errors)
and_then_collect f (some a) errors = f a errors

module _ (parse_duration : Bytes → Option Duration) (source : Bytes) (flow : Option Bytes) where
  abbrev refuse : Bytes → Spanned Bytes → List ConfigError → Collected (Option Duration)
  refuse field s errors =
      (none, errors ++ (validate_err (span_line source s ∷ []) flow field s.value ∷ []))

  abbrev not_parsed : Spanned Bytes → List ConfigError → Collected (Option Duration)
  not_parsed s errors = (none, errors ++ (parse (span_line source s) ∷ []))

  -- The match on what `parse_duration` gives.
  abbrev pub bounded :
      Bytes
      → Duration
      → Duration
      → Spanned Bytes
      → List ConfigError
      → Option Duration
      → Collected (Option Duration)
  bounded field least most s errors none = not_parsed s errors
  bounded field least most s errors (some d) =
      if ltb d least || ltb most d then refuse field s errors else (some d, errors)

  unfoldable pub parse_bounded_duration :
      Bytes → Duration → Duration → Spanned Bytes → List ConfigError → Collected (Option Duration)
  parse_bounded_duration field least most s errors =
      bounded field least most s errors (parse_duration s.value)

  unfoldable pub parse_interval :
      Bytes → Spanned Bytes → List ConfigError → Collected (Option Duration)
  unfolding parse_bounded_duration
  parse_interval field = parse_bounded_duration field min_interval max_interval

  abbrev pub zero_or_bounded :
      Bytes → Spanned Bytes → List ConfigError → Option Duration → Collected (Option Duration)
  zero_or_bounded field s errors none = not_parsed s errors
  zero_or_bounded field s errors (some d) =
      if d == 0
      then (some 0, errors)
      else if ltb d min_interval || ltb max_interval d
      then refuse field s errors
      else (some d, errors)

  unfoldable pub parse_cooldown :
      Bytes → Spanned Bytes → List ConfigError → Collected (Option Duration)
  parse_cooldown field s errors = zero_or_bounded field s errors (parse_duration s.value)

  module _ {F64 : Type 0} (in_jitter : F64 → Bool) (print : F64 → Bytes) where
    unfoldable pub parse_jitter : Bytes → Spanned F64 → List ConfigError → Collected (Option F64)
    parse_jitter field s errors = if in_jitter s.value then (some s.value, errors) else (
      none,
      errors ++ (validate_err (span_line source s ∷ []) flow field (print s.value) ∷ []),
    )

-- The four fields of one table, in their order; `prefix` is the table's name and a dot.
module _ (parse_duration : Bytes → Option Duration) {F64 : Type 0} (in_jitter : F64 → Bool)
    (print : F64 → Bytes) (source : Bytes) where
  unfoldable pub collect_poll :
      Option Bytes → Bytes → RawPoll F64 → List ConfigError → Collected (PollOverride F64)
  unfolding parse_interval parse_jitter parse_cooldown byte_offset_to_line
  collect_poll flow prefix raw errors =
      let source_interval =
        and_then_collect
          (parse_interval parse_duration source flow (prefix ++ ascii "source_interval"))
          raw.source_interval errors in
      let job_interval =
        and_then_collect
          (parse_interval parse_duration source flow (prefix ++ ascii "job_interval"))
          raw.job_interval source_interval.1 in
      let jitter =
        and_then_collect
          (parse_jitter parse_duration source flow in_jitter print (prefix ++ ascii "jitter"))
          raw.jitter job_interval.1 in
      let cooldown =
        and_then_collect (parse_cooldown parse_duration source flow (prefix ++ ascii "cooldown"))
          raw.cooldown jitter.1 in
      (
        record {
          source_interval = source_interval.0;
          job_interval = job_interval.0;
          jitter = jitter.0;
          cooldown = cooldown.0;
        },
        cooldown.1,
      )

  unfoldable pub validate_poll_override :
      Bytes → RawPoll F64 → List ConfigError → Collected (PollOverride F64)
  unfolding collect_poll
  validate_poll_override flow_name = collect_poll (some flow_name) (ascii "flow.poll.")

  abbrev pub or_default : F64 → PollOverride F64 → PollDefaults F64
  or_default default_jitter p = record {
    source_interval = p.source_interval;
    job_interval = unwrap_or p.job_interval (seconds 30);
    jitter = unwrap_or p.jitter default_jitter;
    cooldown = unwrap_or p.cooldown default_cooldown;
  }

  unfoldable pub validate_poll_defaults :
      F64 → RawPoll F64 → List ConfigError → Collected (PollDefaults F64)
  unfolding collect_poll
  validate_poll_defaults default_jitter raw errors =
      let poll = collect_poll none (ascii "poll.") raw errors in
      (or_default default_jitter poll.0, poll.1)

-- The timeout of `HttpConfig`.
unfoldable pub validate_http :
    (Bytes → Option Duration)
    → Bytes
    → Option (Spanned Bytes)
    → List ConfigError
    → Collected Duration
unfolding parse_bounded_duration byte_offset_to_line
validate_http parse_duration source request_timeout errors =
    let timeout =
      and_then_collect
        (parse_bounded_duration parse_duration source none (ascii "http.request_timeout")
          min_http_timeout max_http_timeout)
        request_timeout errors in
    (unwrap_or timeout.0 (seconds 30), timeout.1)
