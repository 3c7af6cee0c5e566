-- ===== src/Flow/Dispatcher.antt =====
-- src/flow/dispatcher/handle.rs: what a trigger leads to. The printers of ids and errors, the executor
-- and the rendering of a template are parameters; the clients are left out.
pub mod Executor
pub mod Loop
pub mod Handled
pub mod Triggers
use Prim.Native.String.{String, ◌++◌ as append}
use gcit.Base.{ℕ, Bool, true, false, Option, none, some, List, [], ◌∷◌, ◌++◌, take, if◌then◌else◌}
use gcit.Base.Dict.{Dict, Entry}
use gcit.Base.Results.{Result, ok, err, map_ok}
use gcit.State.Types.{DateTime, run_started}
use gcit.Poll.Strategy.{Duration}
use gcit.Mail.{Bytes, ascii}
use gcit.Github.Errors.{GithubErrorKind, rate_limited}
use gcit.Github.Requests.{ref_to_branch}
use gcit.Github.Values.{RunSummary, RunStatus, queued}
use gcit.Github.Correlator.{CorrelationOutcome, CorrelationError, duplicate_match, timeout, github}
use gcit.Github.Dispatcher.{DispatchOutcome, DispatchParams, render_inputs}
use gcit.Flow.{TriggerSignal, RunContext, Effect, on_run_start, send, spawn_fan_out}
use gcit.Flow.Monitor.{MonitorParams}

-- `ActionConfig::GithubWorkflowDispatch`, and `ActionFields`, which has the same fields.
pub record ActionFields : Type 0 where
  pub repo : Bytes
  pub workflow : Bytes
  pub ref_name : Bytes
  pub inputs : Dict Bytes

pub record FlowDispatchParams (Notifier : Type 0) : Type 0 where
  pub flow_name : String
  pub flow_description : Option String
  pub url : String
  pub ref_name : String
  pub action : ActionFields
  pub job_interval : Duration
  pub notifiers : List Notifier

pub data ExecuteOutcome : Type 0 where
  success : (dispatch : DispatchOutcome) (correlation : CorrelationOutcome) → ExecuteOutcome
  dispatch_failed : GithubErrorKind → ExecuteOutcome
  correlate_failed : CorrelationError → ExecuteOutcome

pub record DispatchError : Type 0 where
  pub kind : String
  pub message : String
  pub retry_at : Option DateTime

-- What a trigger meets: the UUID that is drawn, two readings of the clock, and the state writer.
pub record Handling : Type 0 where
  pub gcit_run_id : Bytes
  pub trigger_dispatched_at : DateTime
  pub run_started_at : DateTime
  pub writer_alive : Bool

abbrev pub reset_of : GithubErrorKind → Option DateTime
reset_of (rate_limited credential reset) = some reset
reset_of _ = none

abbrev pub correlation_reset_of : CorrelationError → Option DateTime
correlation_reset_of (github e) = reset_of e
correlation_reset_of (duplicate_match _ _ _ _) = none
correlation_reset_of (timeout _ _ _ _) = none

abbrev pub from_message : String → String → DispatchError
from_message kind message = record { kind = kind; message = message; retry_at = none }

abbrev pub empty_run_summary : ℕ → RunSummary
empty_run_summary run_id = record {
  run_id = run_id;
  run_url = "";
  run_number = 0;
  run_attempt = 1;
  status = queued;
  conclusion = none;
  started_at = none;
  completed_at = none;
  jobs = [];
}

abbrev pub from_github_error : (GithubErrorKind → String) → String → GithubErrorKind → DispatchError
from_github_error show_github stage e = record {
  kind = stage;
  message = append stage (append ": " (show_github e));
  retry_at = reset_of e;
}

abbrev pub from_correlation_error :
    (CorrelationError → String) → String → CorrelationError → DispatchError
from_correlation_error show_correlation stage e = record {
  kind = stage;
  message = append stage (append ": " (show_correlation e));
  retry_at = correlation_reset_of e;
}

-- What a handled trigger has done, and its end: the monitor that is spawned, or the error.
abbrev pub Outcome : Type 0 → Type 0 → Type 0
Outcome Notifier ObjectId =
    List (Effect Notifier ObjectId) × Result DispatchError (MonitorParams Notifier ObjectId)

module _ {Notifier ObjectId : Type 0} (hex : ObjectId → Bytes) where
  unfoldable pub build_run_context :
      FlowDispatchParams Notifier
      → TriggerSignal ObjectId
      → (repo workflow gcit_run_id : Bytes) → DateTime
      → ℕ
      → String
      → RunContext ObjectId
  build_run_context params trigger repo workflow gcit_run_id dispatched_at run_id run_url = record {
    flow_name = params.flow_name;
    flow_description = params.flow_description;
    source = record {
      url = params.url;
      ref_name = params.ref_name;
      sha = trigger.observed_sha;
      sha_short = take 12 (hex trigger.observed_sha);
    };
    action = record {
      repo = repo;
      workflow = workflow;
      run_id = run_id;
      run_url = run_url;
      dispatched_at = dispatched_at;
    };
    gcit_run_id = gcit_run_id;
  }

  unfoldable pub final_run_context :
      FlowDispatchParams Notifier
      → TriggerSignal ObjectId
      → DispatchOutcome
      → CorrelationOutcome
      → RunContext ObjectId
  unfolding build_run_context
  final_run_context params trigger outcome correlation =
      build_run_context params trigger outcome.repo outcome.workflow outcome.gcit_run_id
        outcome.dispatched_at correlation.run_id correlation.summary.run_url

  unfoldable pub monitor_params :
      FlowDispatchParams Notifier
      → TriggerSignal ObjectId
      → DispatchOutcome
      → CorrelationOutcome
      → MonitorParams Notifier ObjectId
  unfolding final_run_context
  monitor_params params trigger outcome correlation = record {
    flow_name = params.flow_name;
    repo = outcome.repo;
    workflow = outcome.workflow;
    run_id = correlation.run_id;
    job_interval = params.job_interval;
    notifiers = params.notifiers;
    run_context = final_run_context params trigger outcome correlation;
  }

  -- `show_github` and `show_correlation` are the texts of the errors, and `render_template` renders one
  -- template or fails with a text.
  module _ (show_github : GithubErrorKind → String) (show_correlation : CorrelationError → String)
      (render_template : RunContext ObjectId → RunSummary → Bytes → Result String Bytes) where
    -- The run is reported first. If the state writer has gone, nothing else is done.
    unfoldable pub on_executed :
        FlowDispatchParams Notifier
        → TriggerSignal ObjectId
        → Handling
        → ExecuteOutcome
        → Outcome Notifier ObjectId
    unfolding final_run_context monitor_params
    on_executed params trigger h (dispatch_failed e) =
        ([], err (from_github_error show_github "dispatch" e))
    on_executed params trigger h (correlate_failed e) =
        ([], err (from_correlation_error show_correlation "correlate" e))
    on_executed params trigger h (success outcome correlation) =
        if h.writer_alive
        then (
          send (run_started params.flow_name correlation.run_id h.run_started_at)
              ∷ spawn_fan_out params.notifiers
                  (λ n. on_run_start n (final_run_context params trigger outcome correlation)),
          ok (monitor_params params trigger outcome correlation),
        )
        else ([], err (from_message "state_writer" "state writer dropped"))

    unfoldable pub on_rendered :
        FlowDispatchParams Notifier
        → TriggerSignal ObjectId
        → Handling
        → (DispatchParams → (branch head_sha : Bytes) → ExecuteOutcome)
        → Result String (Dict Bytes)
        → Outcome Notifier ObjectId
    unfolding on_executed ref_to_branch
    on_rendered params trigger h execute (err e) =
        ([], err (from_message "input_render" (append "input render failed: " e)))
    on_rendered params trigger h execute (ok rendered_inputs) = on_executed params trigger h (
        execute
          (record {
            repo = params.action.repo;
            workflow = params.action.workflow;
            ref_name = params.action.ref_name;
            gcit_run_id = h.gcit_run_id;
            rendered_inputs = rendered_inputs;
          })
          (ref_to_branch params.action.ref_name) (hex trigger.observed_sha))

    unfoldable pub handle_trigger :
        FlowDispatchParams Notifier
        → TriggerSignal ObjectId
        → Handling
        → (DispatchParams → (branch head_sha : Bytes) → ExecuteOutcome)
        → Outcome Notifier ObjectId
    unfolding on_rendered render_inputs build_run_context
    handle_trigger params trigger h execute = on_rendered params trigger h execute (
        render_inputs (λ ctx. render_template ctx (empty_run_summary 0))
          (build_run_context params trigger params.action.repo params.action.workflow h.gcit_run_id
            h.trigger_dispatched_at 0 "")
          params.action.inputs)
