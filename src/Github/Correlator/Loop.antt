-- ===== src/Github/Correlator/Loop.antt =====
-- src/github/correlator.rs: the loop of `correlate`.
use gcit.Base.{
  ◌+◌, ◌-◌, min, Bool, true, false, Option, none, some, List, [], ◌∷◌, ◌++◌, ltb, leb,
  if◌then◌else◌,
}
use mathlib.Core.Option
use gcit.Base.Results.{Result, ok, err}
use gcit.Poll.Strategy.{Duration}
use gcit.RateBucket.{Instant}
use gcit.Mail.{Bytes, ascii}
use gcit.Github.Errors.{GithubErrorKind, retryability, transient, permanent}
use gcit.Github.Requests.{split_repo, is_empty}
use gcit.Github.Pages.{Pages, failed}
use gcit.Github.Correlator.{
  normal_timeout, drain_timeout, max_pages_per_poll, Run, CorrelateParams, CorrelationOutcome,
  CorrelationError, duplicate_match, timeout, github, outcome_of, run_to_summary, ScanResult,
  no_match, single_match, duplicates, judge, collect_matches, collect_newest,
}

-- One round: whether the token is cancelled where the deadline is computed, the clock there and at the
-- check, the token where a timeout is reported, and what the server replies to a path, or the error of a
-- path that is no URI;
-- then the clock before the sleep and what the backoff gives.
pub record Round : Type 0 where
  pub cancelled : Bool
  pub onset_at : Instant
  pub checked_at : Instant
  pub cancelled_late : Bool
  pub get : Bytes → Pages Run
  pub slept_at : Instant
  pub next_delay : Duration

abbrev pub with_branch : Bytes → Bytes → Bytes
with_branch branch path = if is_empty branch then path else path ++ ascii "&branch=" ++ branch

abbrev pub with_sha : Option Bytes → Bytes → Bytes
with_sha none path = path
with_sha (some sha) path = path ++ ascii "&head_sha=" ++ sha

unfoldable pub runs_path : CorrelateParams → Option Bytes → Bytes × Bytes → Bytes
runs_path p head_sha (owner, repo) = with_sha head_sha (
    with_branch p.branch (
      ascii "/repos/"
      ++ owner
      ++ ascii "/"
      ++ repo
      ++ ascii "/actions/workflows/"
      ++ p.workflow
      ++ ascii "/runs?event=workflow_dispatch&per_page=100"))

-- The first page, and with it those that it leads to.
unfoldable pub list_runs : CorrelateParams → Option Bytes → Round → Pages Run
unfolding runs_path split_repo
list_runs p head_sha r = elim (split_repo p.repo) [
  | err e ↦ failed e
  | ok parts ↦ r.get (runs_path p head_sha parts)
]

-- `drain_start.get_or_insert_with(Instant::now)`
abbrev pub onset : Round → Option Instant → Option Instant
onset r none = if r.cancelled then some r.onset_at else none
onset r (some start) = some start

abbrev pub drain_deadline : Instant → Option Instant → Instant
drain_deadline normal none = normal
drain_deadline normal (some start) = min normal (start + drain_timeout)

-- `drain` is the onset after this round has looked at the token.
unfoldable pub compute_effective_deadline : Round → Instant → Option Instant → Instant
compute_effective_deadline r normal drain =
    if r.cancelled then drain_deadline normal drain else normal

-- A failed scan ends the correlation, or is as good as no match.
unfoldable pub on_scan_error : GithubErrorKind → Result CorrelationError (Option CorrelationOutcome)
unfolding retryability
on_scan_error e = elim (retryability e) [ transient ↦ ok none | permanent ↦ err (github e) ]

unfoldable pub on_matches :
    CorrelateParams → ScanResult → Result CorrelationError (Option CorrelationOutcome)
unfolding run_to_summary
on_matches p no_match = ok none
on_matches p (single_match run) = ok (some (outcome_of run))
on_matches p (duplicates ids) = err (duplicate_match p.repo p.workflow p.gcit_run_id ids)

unfoldable pub on_named :
    CorrelateParams
    → Result GithubErrorKind (List Run)
    → Result CorrelationError (Option CorrelationOutcome)
unfolding on_scan_error on_matches
on_named p (err e) = on_scan_error e
on_named p (ok matches) = on_matches p (judge matches)

unfoldable pub scan_name_match :
    CorrelateParams → Round → Result CorrelationError (Option CorrelationOutcome)
unfolding collect_matches list_runs on_named
scan_name_match p r =
    on_named p (collect_matches p (max_pages_per_poll - 1) [] (list_runs p none r))

unfoldable pub on_newest :
    Result GithubErrorKind (Option Run) → Result CorrelationError (Option CorrelationOutcome)
unfolding on_scan_error run_to_summary
on_newest (err e) = on_scan_error e
on_newest (ok newest) = ok (Option.map outcome_of newest)

unfoldable pub scan_head_sha_fallback :
    CorrelateParams → Round → Result CorrelationError (Option CorrelationOutcome)
unfolding collect_newest list_runs on_newest
scan_head_sha_fallback p r =
    on_newest (collect_newest p (max_pages_per_poll - 1) none (list_runs p (some p.head_sha) r))

-- `matches!(run_name_configured, Some(false) | None)`
abbrev pub may_fall_back : Option Bool → Bool
may_fall_back none = true
may_fall_back (some configured) = if configured then false else true

-- What ends the loop: `none` goes on to the sleep.
abbrev pub ends :
    Result CorrelationError (Option CorrelationOutcome)
    → Option (Result CorrelationError CorrelationOutcome)
ends (err e) = some (err e)
ends (ok none) = none
ends (ok (some outcome)) = some (ok outcome)

abbrev pub or_fall_back :
    Bool
    → Result CorrelationError (Option CorrelationOutcome)
    → Option (Result CorrelationError CorrelationOutcome)
    → Option (Result CorrelationError CorrelationOutcome)
or_fall_back may fallback (some done) = some done
or_fall_back may fallback none = if may then ends fallback else none

-- The body of the loop, up to the sleep.
unfoldable pub correlate_round :
    CorrelateParams
    → Instant
    → Option Instant
    → Round
    → Option (Result CorrelationError CorrelationOutcome)
unfolding compute_effective_deadline scan_name_match scan_head_sha_fallback
correlate_round p normal_deadline drain r =
    if leb (compute_effective_deadline r normal_deadline drain) r.checked_at
    then some (
        err (
          timeout p.repo p.workflow p.gcit_run_id
            (if r.cancelled_late then drain_timeout else normal_timeout)))
    else or_fall_back (may_fall_back p.run_name_configured) (scan_head_sha_fallback p r)
        (ends (scan_name_match p r))

-- `none` where the rounds are over and the loop is not.
unfoldable pub correlate_loop :
    CorrelateParams
    → Instant
    → List Round
    → Option Instant
    → Option (Result CorrelationError CorrelationOutcome)
unfolding correlate_round
correlate_loop p normal_deadline [] drain = none
correlate_loop p normal_deadline (r ∷ rounds) drain =
    elim (correlate_round p normal_deadline (onset r drain) r) [
      | some done ↦ some done
      | none ↦ correlate_loop p normal_deadline rounds (onset r drain)
    ]

unfoldable pub correlate :
    CorrelateParams → Instant → List Round → Option (Result CorrelationError CorrelationOutcome)
unfolding correlate_loop
correlate p started rounds = correlate_loop p (started + normal_timeout) rounds none

-- `sleep_for` of `sleep_with_cancel_awareness`
unfoldable pub sleep_for : Duration → Instant → Instant → Duration
sleep_for next_delay effective_deadline now =
    if ltb now effective_deadline then min next_delay (effective_deadline - now) else 0

-- When a sleep that is not cancelled is over.
unfoldable pub sleep_with_cancel_awareness : Round → Instant → Instant
unfolding sleep_for
sleep_with_cancel_awareness r effective_deadline =
    r.slept_at + sleep_for r.next_delay effective_deadline r.slept_at
