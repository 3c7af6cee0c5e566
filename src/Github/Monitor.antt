-- ===== src/Github/Monitor.antt =====
-- src/github/monitor.rs: how a run is followed to its end. Each round of the loop is given what the
-- clocks, the token, the server and the receiver say in it. `show` prints a run's id.
pub mod Listed
pub mod Capped
pub mod Stream
use Prim.Native.String.{String}
use gcit.Base.{
  ℕ, zero, suc, ◌-◌, max, Bool, true, false, Option, none, some, List, [], ◌∷◌, ◌++◌, leb,
  if◌then◌else◌, length,
}
use gcit.Base.Results.{Result, ok, err}
use gcit.Poll.Strategy.{Duration}
use gcit.Mail.{Bytes, ascii}
use gcit.Github.Errors.{GithubErrorKind, retryability, Retryability, transient, permanent}
use gcit.Github.Values.{JobResult, RunSummary, is_terminal}
use gcit.Github.Jobs.{Job, job_to_result}
use gcit.Github.Pages.{Pages, last, more}
use gcit.Github.Requests.{split_repo}
use gcit.Github.Correlator.{Run, run_to_summary}

abbrev pub max_jobs_per_run : ℕ
max_jobs_per_run = 1000

abbrev pub max_jobs_pages : ℕ
max_jobs_pages = 10

pub record MonitorParams : Type 0 where
  pub repo : Bytes
  pub workflow : Bytes
  pub run_id : ℕ
  pub job_interval : Duration

pub data MonitorEvent : Type 0 where
  update : RunSummary → MonitorEvent
  done : RunSummary → MonitorEvent

pub data MonitorOutcome : Type 0 where
  terminated receiver_dropped drained_mid_run : MonitorOutcome
  failed : GithubErrorKind → MonitorOutcome

-- One round: whether the request is put off, and whether the token is cancelled meanwhile; what the
-- server replies to a path; whether the receiver takes the event; and whether the token is cancelled
-- before the next tick of the interval.
pub record Round : Type 0 where
  pub defer : Option Duration
  pub defer_cancelled : Bool
  pub get_run : Bytes → Result GithubErrorKind Run
  pub get_jobs : Bytes → Pages Job
  pub receiver_alive : Bool
  pub tick_cancelled : Bool

-- The jobs of a page, and whether the cap is met.
unfoldable pub push_jobs : List Job → List JobResult → List JobResult × Bool
unfolding job_to_result
push_jobs [] out = (out, false)
push_jobs (job ∷ items) out =
    let more = out ++ (job_to_result job ∷ []) in
    let rest = push_jobs items more in
    if leb max_jobs_per_run (length more) then (more, true) else rest

-- The loop over the pages; `left` counts those that may follow this one.
unfoldable pub collect_jobs :
    ℕ → List JobResult → Pages Job → Result GithubErrorKind (List JobResult)
unfolding push_jobs
collect_jobs left out (Pages.failed e) = err e
collect_jobs left out (last items) = ok (push_jobs items out).0
collect_jobs zero out (more items rest) = ok (push_jobs items out).0
collect_jobs (suc left) out (more items rest) =
    let others = collect_jobs left (push_jobs items out).0 rest in
    if (push_jobs items out).1 then ok (push_jobs items out).0 else others

-- `iter().map(|j| j.run_attempt).max().unwrap_or(attempt)`
abbrev pub max_attempt : List JobResult → ℕ → ℕ
max_attempt [] attempt = attempt
max_attempt (job ∷ jobs) attempt = max job.run_attempt (max_attempt jobs job.run_attempt)

abbrev pub with_jobs : List JobResult → RunSummary → RunSummary
with_jobs jobs summary = record summary {
  run_attempt = max_attempt jobs summary.run_attempt;
  jobs = jobs;
}

unfoldable pub with_all_jobs :
    Result GithubErrorKind Run
    → Result GithubErrorKind (List JobResult)
    → Result GithubErrorKind RunSummary
unfolding run_to_summary
with_all_jobs (err e) jobs = err e
with_all_jobs (ok run) (err e) = err e
with_all_jobs (ok run) (ok jobs) = ok (with_jobs jobs (run_to_summary run))

-- `if let Some(wait) = rate_limit.should_defer()`, where the wait is cancelled.
abbrev pub stops_waiting : Round → Bool
stops_waiting r = elim r.defer [ none ↦ false | some wait ↦ r.defer_cancelled ]

-- What a round sends, and how it ends the loop where it does.
unfoldable pub on_summary : Round → RunSummary → Option MonitorEvent × Option MonitorOutcome
on_summary r summary =
    let event = if is_terminal summary.status then done summary else update summary in
    if r.receiver_alive
    then if is_terminal summary.status
      then (some event, some terminated)
      else (some event, if r.tick_cancelled then some drained_mid_run else none)
    else (none, some receiver_dropped)

unfoldable pub on_poll :
    Round → Result GithubErrorKind RunSummary → Option MonitorEvent × Option MonitorOutcome
unfolding on_summary retryability
on_poll r (ok summary) = on_summary r summary
on_poll r (err e) = elim (retryability e) [
  | transient ↦ (none, if r.tick_cancelled then some drained_mid_run else none)
  | permanent ↦ (none, some (MonitorOutcome.failed e))
]

abbrev pub send_event :
    Option MonitorEvent
    → List MonitorEvent × Option MonitorOutcome
    → List MonitorEvent × Option MonitorOutcome
send_event none (events, outcome) = (events, outcome)
send_event (some event) (events, outcome) = (event ∷ events, outcome)

module _ (show : ℕ → Bytes) where
  unfoldable pub run_path : MonitorParams → Bytes × Bytes → Bytes
  run_path p (owner, repo) =
      ascii "/repos/" ++ owner ++ ascii "/" ++ repo ++ ascii "/actions/runs/" ++ show p.run_id

  unfoldable pub jobs_path : MonitorParams → Bytes × Bytes → Bytes
  unfolding run_path
  jobs_path p parts = run_path p parts ++ ascii "/jobs?filter=latest&per_page=100"

  unfoldable pub list_jobs_of :
      MonitorParams
      → Round
      → Result GithubErrorKind (Bytes × Bytes)
      → Result GithubErrorKind (List JobResult)
  unfolding jobs_path collect_jobs
  list_jobs_of p r (err e) = err e
  list_jobs_of p r (ok parts) =
      collect_jobs (max_jobs_pages - 1) [] (r.get_jobs (jobs_path p parts))

  unfoldable pub list_all_jobs : MonitorParams → Round → Result GithubErrorKind (List JobResult)
  unfolding split_repo list_jobs_of
  list_all_jobs p r = list_jobs_of p r (split_repo p.repo)

  unfoldable pub poll_run_of :
      MonitorParams
      → Round
      → Result GithubErrorKind (Bytes × Bytes)
      → Result GithubErrorKind RunSummary
  unfolding run_path list_all_jobs with_all_jobs
  poll_run_of p r (err e) = err e
  poll_run_of p r (ok parts) = with_all_jobs (r.get_run (run_path p parts)) (list_all_jobs p r)

  unfoldable pub poll_one : MonitorParams → Round → Result GithubErrorKind RunSummary
  unfolding split_repo poll_run_of
  poll_one p r = poll_run_of p r (split_repo p.repo)

  unfoldable pub monitor_round : MonitorParams → Round → Option MonitorEvent × Option MonitorOutcome
  unfolding on_poll poll_one
  monitor_round p r =
      if stops_waiting r then (none, some drained_mid_run) else on_poll r (poll_one p r)

  -- The events that are sent, and the outcome: `none` where the rounds are over and the loop is not.
  unfoldable pub monitor_run :
      MonitorParams → List Round → List MonitorEvent × Option MonitorOutcome
  unfolding monitor_round
  monitor_run p [] = ([], none)
  monitor_run p (r ∷ rounds) =
      let rest = monitor_run p rounds in
      send_event (monitor_round p r).0
        (elim (monitor_round p r).1 [ some outcome ↦ ([], some outcome) | none ↦ rest ])
