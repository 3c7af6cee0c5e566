-- ===== src/Flow/Dispatcher/Triggers.antt =====
-- src/flow/dispatcher/loop_.rs: what becomes of the triggers of a flow.
use Prim.Native.String.{String}
use gcit.Base.{
  Option, some, List, [], ◌∷◌, ◌++◌, append-nil, append_assoc, str_eq_refl, if◌then◌else◌, ◌≡◌,
  refl, sym, ap, ◌∙◌, subst,
}
use gcit.Base.Dict.{Dict, lookup, lookup-insert}
use gcit.Base.Results.{Result, ok, err}
use gcit.LastError.{FlowLastError, record_last_error}
use gcit.State.Types.{DateTime}
use gcit.Mail.{Bytes}
use gcit.Github.Errors.{GithubErrorKind}
use gcit.Github.Values.{RunSummary}
use gcit.Github.Correlator.{CorrelationError}
use gcit.Flow.{RunContext, Effect}
use gcit.Flow.Monitor.{MonitorParams}
use gcit.Flow.Dispatcher.{FlowDispatchParams, Outcome}
use gcit.Flow.Dispatcher.Loop.{
  Received, Select, cancelled, finished, received, closed, Dispatcher, after_trigger, outcome_for,
  drain_pending_triggers, run_with_executor,
}

-- The triggers that the loop takes out of its channel.
unfoldable pub triggers_of : {ObjectId : Type 0} → List (Select ObjectId) → List (Received ObjectId)
triggers_of [] = []
triggers_of (cancelled pending ∷ selects) = pending
triggers_of (finished ∷ selects) = triggers_of selects
triggers_of (received r ∷ selects) = r ∷ triggers_of selects
triggers_of (closed ∷ selects) = []

lookup-record_last_error :
    (flow kind message : String) (at : DateTime) (retry_at : Option DateTime)
    (m : Dict FlowLastError)
    → lookup flow (record_last_error at flow kind message retry_at m)
      ≡ some (record { at = at; kind = kind; message = message; retry_at = retry_at })
unfolding record_last_error
lookup-record_last_error flow kind message at retry_at m =
    let entry : FlowLastError = record {
      at = at;
      kind = kind;
      message = message;
      retry_at = retry_at;
    } in
    lookup-insert flow flow entry m
    ∙ ap (λ b. if b then some entry else lookup flow m) (str_eq_refl flow)

module _ {Notifier ObjectId : Type 0} where
  -- The monitor that an outcome spawns.
  abbrev pub spawned : Outcome Notifier ObjectId → List (MonitorParams Notifier ObjectId)
  spawned (log, ok monitor) = monitor ∷ []
  spawned (log, err e) = []

  -- The entry of the flow's last error after an outcome.
  abbrev pub entry_after :
      DateTime → Outcome Notifier ObjectId → Option FlowLastError → Option FlowLastError
  entry_after at (log, ok monitor) entry = entry
  entry_after at (log, err e) entry =
      some (record { at = at; kind = e.kind; message = e.message; retry_at = e.retry_at })

module _ {Notifier ObjectId : Type 0} (hex : ObjectId → Bytes)
    (show_github : GithubErrorKind → String) (show_correlation : CorrelationError → String)
    (render_template : RunContext ObjectId → RunSummary → Bytes → Result String Bytes)
    (params : FlowDispatchParams Notifier) where
  abbrev outcome : Received ObjectId → Outcome Notifier ObjectId
  unfolding outcome_for
  outcome = outcome_for hex show_github show_correlation render_template params

  -- What is done for a list of triggers, the monitors that they spawn, and the last error that is left.
  unfoldable pub done_for : List (Received ObjectId) → List (Effect Notifier ObjectId)
  unfolding outcome
  done_for [] = []
  done_for (r ∷ rs) = (outcome r).0 ++ done_for rs

  unfoldable pub spawned_for : List (Received ObjectId) → List (MonitorParams Notifier ObjectId)
  unfolding outcome
  spawned_for [] = []
  spawned_for (r ∷ rs) = spawned (outcome r) ++ spawned_for rs

  unfoldable pub error_after :
      List (Received ObjectId) → Option FlowLastError → Option FlowLastError
  unfolding outcome
  error_after [] entry = entry
  error_after (r ∷ rs) entry = error_after rs (entry_after r.error_at (outcome r) entry)

  run_with_executor-eq-drain :
      (selects : List (Select ObjectId)) (d : Dispatcher Notifier ObjectId)
      → run_with_executor hex show_github show_correlation render_template params selects d
        ≡ drain_pending_triggers hex show_github show_correlation render_template params
            (triggers_of selects)
            d
  unfolding run_with_executor drain_pending_triggers triggers_of
  run_with_executor-eq-drain [] d = refl
  run_with_executor-eq-drain (cancelled pending ∷ selects) d = refl
  run_with_executor-eq-drain (finished ∷ selects) d = run_with_executor-eq-drain selects d
  run_with_executor-eq-drain (received r ∷ selects) d = run_with_executor-eq-drain selects _
  run_with_executor-eq-drain (closed ∷ selects) d = refl

  -- What the loop leaves, from what it found.
  pub record Leaves (rs : List (Received ObjectId)) (d after : Dispatcher Notifier ObjectId)
      : Type 0 where
    pub log_eq : after.log ≡ d.log ++ done_for rs
    pub monitors_eq : after.monitors ≡ d.monitors ++ spawned_for rs
    pub error_eq :
        lookup params.flow_name after.last_errors
        ≡ error_after rs (lookup params.flow_name d.last_errors)

  after_trigger-Leaves :
      (at : DateTime) (o : Outcome Notifier ObjectId) (d : Dispatcher Notifier ObjectId)
      → ((after_trigger hex show_github show_correlation render_template params at o d).log
          ≡ d.log ++ o.0)
        × ((after_trigger hex show_github show_correlation render_template params at o d).monitors
            ≡ d.monitors ++ spawned o)
        × (lookup params.flow_name
              (after_trigger hex show_github show_correlation render_template params at o
                d).last_errors
            ≡ entry_after at o (lookup params.flow_name d.last_errors))
  unfolding after_trigger
  after_trigger-Leaves at (log, ok monitor) d = (refl, refl, refl)
  after_trigger-Leaves at (log, err e) d = (
    refl,
    sym (append-nil d.monitors),
    lookup-record_last_error params.flow_name e.kind e.message at e.retry_at d.last_errors,
  )

  drain_pending_triggers-Leaves :
      (rs : List (Received ObjectId)) (d : Dispatcher Notifier ObjectId)
      → Leaves rs d
          (drain_pending_triggers hex show_github show_correlation render_template params rs d)
  unfolding drain_pending_triggers done_for spawned_for error_after outcome outcome_for
  drain_pending_triggers-Leaves [] d = record {
    log_eq = sym (append-nil d.log);
    monitors_eq = sym (append-nil d.monitors);
    error_eq = refl;
  }
  drain_pending_triggers-Leaves (r ∷ rs) d =
      let first = after_trigger-Leaves r.error_at (outcome r) d in
      let rest = drain_pending_triggers-Leaves rs (
        after_trigger hex show_github show_correlation render_template params r.error_at (outcome r)
          d) in
      record {
        log_eq =
            rest.log_eq
            ∙ ap (λ l. l ++ done_for rs) first.0
            ∙ append_assoc d.log (outcome r).0 (done_for rs);
        monitors_eq =
            rest.monitors_eq
            ∙ ap (λ l. l ++ spawned_for rs) first.1
            ∙ append_assoc d.monitors (spawned (outcome r)) (spawned_for rs);
        error_eq = rest.error_eq ∙ ap (error_after rs) first.2;
      }

  -- A dispatcher's loop handles, in order, every trigger that it receives before it is cancelled
  -- or its channel closes, and those that were pending when it was cancelled: its calls are
  -- theirs, its monitors those of the triggers that succeed, and its flow's last error that of
  -- the last trigger to fail.
  pub run_with_executor-Leaves :
      (selects : List (Select ObjectId)) (d : Dispatcher Notifier ObjectId)
      → Leaves
          (triggers_of selects)
          d
          (run_with_executor hex show_github show_correlation render_template params selects d)
  run_with_executor-Leaves selects d =
      subst (Leaves (triggers_of selects) d) (sym (run_with_executor-eq-drain selects d))
        (drain_pending_triggers-Leaves (triggers_of selects) d)
