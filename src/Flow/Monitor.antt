-- ===== src/Flow/Monitor.antt =====
-- src/flow/monitor.rs: the task that follows a run, tells the notifiers and reports its end. The clock
-- is read once, where the summary has no time of completion.
pub mod Finish
pub mod Unique
pub mod Jobs
use Prim.Native.String.{String}
use mathlib.Core.Option
use gcit.Base.{
  ℕ, Bool, true, false, not, ◌&&◌, ◌==◌, Option, none, some, is_some, unwrap_or, List, [], ◌∷◌,
  ◌++◌, map, any, filter, if◌then◌else◌,
}
use gcit.State.Types.{DateTime, StateUpdate, run_finished}
use gcit.Poll.Strategy.{Duration}
use gcit.Mail.{Bytes}
use gcit.Github.Values.{JobResult, RunSummary, to_api}
use gcit.Github.Monitor.{MonitorEvent, update, done, MonitorOutcome, Round, monitor_run}
use gcit.Flow.{RunContext, Effect, on_job_complete, on_run_complete, send, spawn_fan_out}

-- The clients that the task hands on are left out.
pub record MonitorParams (Notifier ObjectId : Type 0) : Type 0 where
  pub flow_name : String
  pub repo : Bytes
  pub workflow : Bytes
  pub run_id : ℕ
  pub job_interval : Duration
  pub notifiers : List Notifier
  pub run_context : RunContext ObjectId

-- The ids of the jobs that have been announced, and what the task has done.
pub record Watcher (Notifier ObjectId : Type 0) : Type 0 where
  pub completed_jobs : List ℕ
  pub log : List (Effect Notifier ObjectId)

abbrev pub contains_id : ℕ → List ℕ → Bool
contains_id i = any (λ j. j == i)

unfoldable pub is_newly_terminal : List ℕ → JobResult → Bool
unfolding any
is_newly_terminal completed job = is_some job.conclusion && not (contains_id job.job_id completed)

unfoldable pub conclusion_text : RunSummary → String
unfolding to_api
conclusion_text summary = unwrap_or (Option.map to_api summary.conclusion) "unknown"

module _ {Notifier ObjectId : Type 0} where
  -- The fan-outs of one listing, job by job.
  unfoldable pub job_calls :
      List Notifier → RunContext ObjectId → List JobResult → List (Effect Notifier ObjectId)
  job_calls notifiers ctx [] = []
  job_calls notifiers ctx (job ∷ jobs) =
      spawn_fan_out notifiers (λ n. on_job_complete n ctx job) ++ job_calls notifiers ctx jobs

  unfoldable pub announce :
      List Notifier
      → RunContext ObjectId
      → List JobResult
      → Watcher Notifier ObjectId
      → Watcher Notifier ObjectId
  unfolding job_calls
  announce notifiers ctx [] w = w
  announce notifiers ctx (job ∷ jobs) w = record {
    completed_jobs = w.completed_jobs ++ map (λ j. j.job_id) (job ∷ jobs);
    log = w.log ++ job_calls notifiers ctx (job ∷ jobs);
  }

  unfoldable pub fan_out_job_completes :
      List Notifier
      → RunContext ObjectId
      → RunSummary
      → Watcher Notifier ObjectId
      → Watcher Notifier ObjectId
  unfolding announce filter is_newly_terminal
  fan_out_job_completes notifiers ctx summary w =
      announce notifiers ctx (filter (is_newly_terminal w.completed_jobs) summary.jobs) w

  -- `finished_at` is the clock, and `alive` whether the state writer is there.
  unfoldable pub finish_run_monitor :
      MonitorParams Notifier ObjectId
      → DateTime
      → Bool
      → RunSummary
      → Watcher Notifier ObjectId
      → Watcher Notifier ObjectId
  unfolding conclusion_text
  finish_run_monitor p finished_at alive summary w = record w {
    log =
        (w.log ++ spawn_fan_out p.notifiers (λ n. on_run_complete n p.run_context summary))
        ++ (if alive
            then send (
                run_finished p.flow_name p.run_id (conclusion_text summary)
                  (unwrap_or summary.completed_at finished_at))
              ∷ []
            else []);
  }

  -- The loop over the events of the source, up to the first `Done`.
  unfoldable pub run_monitor_with_source :
      MonitorParams Notifier ObjectId
      → DateTime
      → Bool
      → List MonitorEvent
      → Watcher Notifier ObjectId
      → Watcher Notifier ObjectId
  unfolding fan_out_job_completes finish_run_monitor
  run_monitor_with_source p finished_at alive [] w = w
  run_monitor_with_source p finished_at alive (update summary ∷ events) w =
      run_monitor_with_source p finished_at alive events
        (fan_out_job_completes p.notifiers p.run_context summary w)
  run_monitor_with_source p finished_at alive (done summary ∷ events) w =
      finish_run_monitor p finished_at alive summary
        (fan_out_job_completes p.notifiers p.run_context summary w)

  -- What the source is asked to follow.
  abbrev pub gh_params : MonitorParams Notifier ObjectId → gcit.Github.Monitor.MonitorParams
  gh_params p = record {
    repo = p.repo;
    workflow = p.workflow;
    run_id = p.run_id;
    job_interval = p.job_interval;
  }

  unfoldable pub run_monitor :
      (ℕ → Bytes)
      → MonitorParams Notifier ObjectId
      → DateTime
      → Bool
      → List Round
      → List (Effect Notifier ObjectId)
  unfolding run_monitor_with_source monitor_run
  run_monitor show p finished_at alive rounds =
      (run_monitor_with_source p finished_at alive (monitor_run show (gh_params p) rounds).0
        (record { completed_jobs = []; log = [] })).log
