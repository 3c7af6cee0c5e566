-- ===== src/Config/Cadence/Samples.antt =====
-- A configuration, with durations that are read as their number of seconds. A jitter is in thousandths.
use gcit.Base.{
  ℕ, ◌+◌, ◌*◌, ◌-◌, Bool, Option, none, some, [], ◌∷◌, leb, ◌≡◌, refl, if◌then◌else◌, any, not,
  ◌&&◌,
}
use gcit.Mail.{Bytes, ascii}
use gcit.Poll.Strategy.{Duration, seconds, grokmirror, compute}
use gcit.Config.Cadence.{
  RawPoll, parse, validate, validate_poll_defaults, validate_poll_override, validate_http,
  byte_offset_to_line,
}
use gcit.Config.Cadence.Bounds.{IsInRange, compute-IsInRange}
use gcit.Config.Cadence.Errors.{validate_poll_override_honored}

abbrev digits : ℕ → Bytes → ℕ
digits n [] = n
digits n (c ∷ s) = digits (n * 10 + (c - 48)) s

-- What stands for humantime: digits alone.
abbrev to_duration : Bytes → Option Duration
to_duration s =
    if any (λ c. not (leb 48 c && leb c 57)) s then none else some (seconds (digits 0 s))

abbrev in_jitter : ℕ → Bool
in_jitter j = leb j 500

abbrev print : ℕ → Bytes
print j = ascii "j"

abbrev source : Bytes
source = ascii "a\nb\nc\n"

abbrev poll : RawPoll ℕ
poll = record {
  source_interval = none;
  job_interval = some (record { value = ascii "5"; start = 2 });
  jitter = none;
  cooldown = some (record { value = ascii "0"; start = 4 });
}

abbrev flow_poll : RawPoll ℕ
flow_poll = record {
  source_interval = some (record { value = ascii "90"; start = 0 });
  job_interval = none;
  jitter = some (record { value = 200; start = 2 });
  cooldown = some (record { value = ascii "600"; start = 4 });
}

compute-IsInRange_example : IsInRange in_jitter (
    compute
      (validate_poll_defaults to_duration in_jitter print source 100 poll []).0
      (validate_poll_override to_duration in_jitter print source (ascii "docs") flow_poll []).0
      grokmirror)
compute-IsInRange_example =
    compute-IsInRange to_duration in_jitter print source 100 refl poll flow_poll (ascii "docs")
      grokmirror [] []

silent :
    (validate_poll_override to_duration in_jitter print source (ascii "docs") flow_poll []).1 ≡ []
unfolding validate_poll_override byte_offset_to_line any
silent = refl

validate_poll_override_honored_example :
    let found =
      (validate_poll_override to_duration in_jitter print source (ascii "docs") flow_poll []).0 in
    (found.source_interval ≡ some (seconds 90))
    × (found.job_interval ≡ none)
    × (found.jitter ≡ some 200)
    × (found.cooldown ≡ some (seconds 600))
unfolding any
validate_poll_override_honored_example =
    validate_poll_override_honored to_duration in_jitter print source (ascii "docs") flow_poll []
      silent

-- The interval for jobs is too short: it is reported on its line, and the default stays.
too_short :
    (validate_poll_defaults to_duration in_jitter print source 100 poll []).1
    ≡ (validate (2 ∷ []) none (ascii "poll.job_interval") (ascii "5") ∷ [])
unfolding validate_poll_defaults byte_offset_to_line any
too_short = refl

-- No duration.
no_duration :
    validate_http to_duration source (some (record { value = ascii "5x"; start = 40 })) []
    ≡ (seconds 30, parse 4 ∷ [])
unfolding validate_http byte_offset_to_line any
no_duration = refl
