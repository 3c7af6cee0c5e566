-- ===== src/Flow/Dispatcher/Loop.antt =====
-- src/flow/dispatcher/loop_.rs: the loop of a flow's dispatcher. A finished monitor is only taken out of
-- the set, and the drain of the monitors waits at most 30 s: both change nothing else.
use Prim.Native.String.{String}
use gcit.Base.{List, [], ◌∷◌, ◌++◌}
use gcit.Base.Dict.{Dict}
use gcit.Base.Results.{Result, ok, err}
use gcit.LastError.{FlowLastError, record_last_error}
use gcit.State.Types.{DateTime}
use gcit.Mail.{Bytes}
use gcit.Github.Errors.{GithubErrorKind}
use gcit.Github.Values.{RunSummary}
use gcit.Github.Correlator.{CorrelationError}
use gcit.Github.Dispatcher.{DispatchParams}
use gcit.Flow.{TriggerSignal, RunContext, Effect}
use gcit.Flow.Monitor.{MonitorParams}
use gcit.Flow.Dispatcher.{FlowDispatchParams, ExecuteOutcome, Handling, Outcome, handle_trigger}

-- A trigger of the channel, what it meets, and the clock where an error is recorded.
pub record Received (ObjectId : Type 0) : Type 0 where
  pub trigger : TriggerSignal ObjectId
  pub handling : Handling
  pub execute : DispatchParams → (branch head_sha : Bytes) → ExecuteOutcome
  pub error_at : DateTime

-- What the select of the loop takes: the token, with the triggers that are still in the channel; a
-- finished monitor; or the channel.
pub data Select (ObjectId : Type 0) : Type 0 where
  cancelled : (pending : List (Received ObjectId)) → Select ObjectId
  finished : Select ObjectId
  received : Received ObjectId → Select ObjectId
  closed : Select ObjectId

pub record Dispatcher (Notifier ObjectId : Type 0) : Type 0 where
  pub last_errors : Dict FlowLastError
  pub log : List (Effect Notifier ObjectId)
  pub monitors : List (MonitorParams Notifier ObjectId)

module _ {Notifier ObjectId : Type 0} (hex : ObjectId → Bytes)
    (show_github : GithubErrorKind → String) (show_correlation : CorrelationError → String)
    (render_template : RunContext ObjectId → RunSummary → Bytes → Result String Bytes)
    (params : FlowDispatchParams Notifier) where
  -- What a handled trigger leaves: the monitor is spawned, or the error is recorded.
  unfoldable pub after_trigger :
      DateTime
      → Outcome Notifier ObjectId
      → Dispatcher Notifier ObjectId
      → Dispatcher Notifier ObjectId
  unfolding record_last_error
  after_trigger error_at (log, ok monitor) d = record d {
    log = d.log ++ log;
    monitors = d.monitors ++ (monitor ∷ []);
  }
  after_trigger error_at (log, err e) d = record d {
    last_errors =
        record_last_error error_at params.flow_name e.kind e.message e.retry_at d.last_errors;
    log = d.log ++ log;
  }

  unfoldable pub outcome_for : Received ObjectId → Outcome Notifier ObjectId
  unfolding handle_trigger
  outcome_for r =
      handle_trigger hex show_github show_correlation render_template params r.trigger r.handling
        r.execute

  unfoldable pub drain_pending_triggers :
      List (Received ObjectId) → Dispatcher Notifier ObjectId → Dispatcher Notifier ObjectId
  unfolding after_trigger outcome_for
  drain_pending_triggers [] d = d
  drain_pending_triggers (r ∷ pending) d =
      drain_pending_triggers pending (after_trigger r.error_at (outcome_for r) d)

  unfoldable pub run_with_executor :
      List (Select ObjectId) → Dispatcher Notifier ObjectId → Dispatcher Notifier ObjectId
  unfolding drain_pending_triggers
  run_with_executor [] d = d
  run_with_executor (cancelled pending ∷ selects) d = drain_pending_triggers pending d
  run_with_executor (finished ∷ selects) d = run_with_executor selects d
  run_with_executor (received r ∷ selects) d =
      run_with_executor selects (after_trigger r.error_at (outcome_for r) d)
  run_with_executor (closed ∷ selects) d = d
