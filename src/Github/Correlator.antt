-- ===== src/Github/Correlator.antt =====
-- src/github/correlator.rs: how the run that a dispatch started is found. Each round of the loop is
-- given what the clocks, the token and the server say in it. `run_id_text` prints a run's UUID.
pub mod Loop
pub mod Scan
pub mod Verdict
pub mod Found
pub mod Deadline
mod Samples
use Prim.Native.String.{String}
use gcit.Base.{
  ℕ, ◌+◌, ◌-◌, ◌*◌, Bool, true, false, Option, none, some, List, [], ◌∷◌, ◌++◌, map, filter, ltb,
  leb, ◌==◌, if◌then◌else◌, zero, suc,
}
use mathlib.Core.Option
use gcit.Base.Results.{Result, ok, err, map_ok, ℤ, to_unsigned}
use gcit.State.Types.{DateTime}
use gcit.Poll.Strategy.{Duration}
use gcit.RateBucket.{Instant}
use gcit.Mail.{Bytes, ascii, starts_with}
use gcit.Github.Errors.{
  GithubErrorKind, unknown, contains, retryability, Retryability, transient, permanent,
}
use gcit.Github.Values.{from_api, status_from_api, RunSummary}
use gcit.Github.Pages.{Pages, failed, last, more}

-- Seconds, in nanoseconds.
abbrev pub seconds : ℕ → Duration
seconds n = n * 1000000000

abbrev pub normal_timeout : Duration
normal_timeout = seconds 300

abbrev pub drain_timeout : Duration
drain_timeout = seconds 30

abbrev pub poll_interval_initial : Duration
poll_interval_initial = seconds 5

abbrev pub max_pages_per_poll : ℕ
max_pages_per_poll = 5

abbrev pub clock_skew_buffer : Duration
clock_skew_buffer = seconds 120

-- What of a `Run` of octocrab is read.
pub record Run : Type 0 where
  pub id : ℕ
  pub name : Bytes
  pub status : String
  pub conclusion : Option String
  pub html_url : String
  pub run_number : ℤ
  pub created_at : DateTime
  pub updated_at : DateTime

-- `gcit_run_id` is the text of the UUID.
pub record CorrelateParams : Type 0 where
  pub repo : Bytes
  pub workflow : Bytes
  pub gcit_run_id : Bytes
  pub branch : Bytes
  pub head_sha : Bytes
  pub dispatched_at : DateTime
  pub run_name_configured : Option Bool

pub record CorrelationOutcome : Type 0 where
  pub run_id : ℕ
  pub summary : RunSummary

pub data CorrelationError : Type 0 where
  duplicate_match : (repo workflow gcit_run_id : Bytes) (run_ids : List ℕ) → CorrelationError
  timeout : (repo workflow gcit_run_id : Bytes) → Duration → CorrelationError
  github : GithubErrorKind → CorrelationError

unfoldable pub run_to_summary : Run → RunSummary
unfolding from_api status_from_api
run_to_summary run = record {
  run_id = run.id;
  run_url = run.html_url;
  run_number = to_unsigned run.run_number;
  run_attempt = 1;
  status = status_from_api run.status;
  conclusion = Option.map from_api run.conclusion;
  started_at = some run.created_at;
  completed_at = some run.updated_at;
  jobs = [];
}

unfoldable pub outcome_of : Run → CorrelationOutcome
unfolding run_to_summary
outcome_of run = record { run_id = run.id; summary = run_to_summary run }

-- `name.contains("gcit-<uuid>")`
unfoldable pub is_named : CorrelateParams → Run → Bool
unfolding contains
is_named p run = contains (ascii "gcit-" ++ p.gcit_run_id) run.name

pub data ScanResult : Type 0 where
  no_match : ScanResult
  single_match : Run → ScanResult
  duplicates : List ℕ → ScanResult

abbrev pub judge : List Run → ScanResult
judge [] = no_match
judge (run ∷ []) = single_match run
judge (run ∷ other ∷ rest) = duplicates (map (λ r. r.id) (run ∷ other ∷ rest))

-- The loop of `scan_runs_for_match`; `left` counts the pages that may follow this one.
unfoldable pub collect_matches :
    CorrelateParams → ℕ → List Run → Pages Run → Result GithubErrorKind (List Run)
unfolding is_named
collect_matches p left matches (failed e) = err e
collect_matches p left matches (last items) = ok (matches ++ filter (is_named p) items)
collect_matches p zero matches (more items rest) = ok (matches ++ filter (is_named p) items)
collect_matches p (suc left) matches (more items rest) =
    collect_matches p left (matches ++ filter (is_named p) items) rest

-- The run so far, and one more of a page.
abbrev pub newer : Option Run → Run → Run
newer none run = run
newer (some prev) run = if ltb prev.created_at run.created_at then run else prev

-- A run from before the cutoff is passed over. A cutoff before the earliest instant is that instant.
abbrev pub cutoff : CorrelateParams → DateTime
cutoff p = p.dispatched_at - clock_skew_buffer

unfoldable pub consider : CorrelateParams → Option Run → Run → Option Run
consider p newest run = if ltb run.created_at (cutoff p) then newest else some (newer newest run)

unfoldable pub newest_of : CorrelateParams → Option Run → List Run → Option Run
unfolding consider
newest_of p newest [] = newest
newest_of p newest (run ∷ runs) = newest_of p (consider p newest run) runs

-- The loop of `scan_runs_for_fallback`.
unfoldable pub collect_newest :
    CorrelateParams → ℕ → Option Run → Pages Run → Result GithubErrorKind (Option Run)
unfolding newest_of
collect_newest p left newest (failed e) = err e
collect_newest p left newest (last items) = ok (newest_of p newest items)
collect_newest p zero newest (more items rest) = ok (newest_of p newest items)
collect_newest p (suc left) newest (more items rest) =
    collect_newest p left (newest_of p newest items) rest
