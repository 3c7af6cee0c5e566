-- ===== src/Flow/Dispatcher/Handled.antt =====
-- src/flow/dispatcher/handle.rs, src/flow/monitor.rs, src/state/apply.rs: a trigger from its dispatch to
-- the entry of its run in the state.
use Prim.Native.String.{String}
use gcit.Base.{
  ℕ, true, false, Option, some, unwrap_or, List, [], ◌∷◌, ◌++◌, any, if_ind, str_eq_refl, ◌≡◌, refl,
  ap, ◌∙◌, subst,
}
use gcit.Base.Dict.{Dict, lookup}
use gcit.Base.Results.{Result, ok, err}
use gcit.State.Types.{DateTime, FlowState, default_flow, State, run_started, run_finished}
use gcit.State.Apply.{has_id, conclude, cap_notified, apply_all}
use gcit.State.Machine.{run_flow}
use gcit.State.PerFlow.Refinement.{lookup-apply_all}
use gcit.State.Runs.Lifecycle.{opened, finish_run-start_run}
use gcit.Mail.{Bytes}
use gcit.Github.Errors.{GithubErrorKind}
use gcit.Github.Values.{Conclusion, to_api, RunSummary, is_terminal}
use gcit.Github.Correlator.{CorrelationError}
use gcit.Github.Dispatcher.{DispatchParams}
use gcit.Github.Monitor.{MonitorOutcome, Round, monitor_run}
use gcit.Github.Monitor.Stream.{is_terminated, EndsAt}
use gcit.Flow.{TriggerSignal, RunContext, Effect, on_run_complete, send, spawn_fan_out}
use gcit.Flow.Monitor.{MonitorParams, gh_params, run_monitor}
use gcit.Flow.Monitor.Finish.{
  updates_of, updates_of-append, updates_of-run_start, updates_of-run_complete, Finishes, silent,
  reported, run_monitor-Finishes,
}
use gcit.Flow.Dispatcher.{
  FlowDispatchParams, ExecuteOutcome, success, dispatch_failed, correlate_failed, DispatchError,
  Handling, Outcome, final_run_context, monitor_params, on_executed, on_rendered, handle_trigger,
}

module _ {Notifier ObjectId : Type 0} where
  -- A monitor that is spawned follows the run that was reported.
  data Handled (params : FlowDispatchParams Notifier) (h : Handling)
      : Outcome Notifier ObjectId → Type 0 where
    started :
        (log : List (Effect Notifier ObjectId)) (monitor : MonitorParams Notifier ObjectId)
        → updates_of log ≡ run_started params.flow_name monitor.run_id h.run_started_at ∷ []
        → monitor.flow_name ≡ params.flow_name
        → Handled params h (log, ok monitor)
    refused : (e : DispatchError) → Handled params h ([], err e)

  module _ (hex : ObjectId → Bytes) (show_github : GithubErrorKind → String)
      (show_correlation : CorrelationError → String)
      (render_template : RunContext ObjectId → RunSummary → Bytes → Result String Bytes)
      (params : FlowDispatchParams Notifier) (trigger : TriggerSignal ObjectId) (h : Handling) where
    on_executed-Handled :
        (outcome : ExecuteOutcome)
        → Handled params h
            (on_executed hex show_github show_correlation render_template params trigger h outcome)
    unfolding on_executed updates_of monitor_params
    on_executed-Handled (dispatch_failed e) = refused _
    on_executed-Handled (correlate_failed e) = refused _
    on_executed-Handled (success outcome correlation) =
        if_ind (Handled params h) h.writer_alive
          (λ _.
            started _ _
              (ap (λ l. run_started params.flow_name correlation.run_id h.run_started_at ∷ l)
                (updates_of-run_start params.notifiers
                  (final_run_context hex params trigger outcome correlation)))
              refl)
          (λ _. refused _)

    on_rendered-Handled :
        (execute : DispatchParams → (branch head_sha : Bytes) → ExecuteOutcome)
        (r : Result String (Dict Bytes))
        → Handled params h (
            on_rendered hex show_github show_correlation render_template params trigger h execute r)
    unfolding on_rendered
    on_rendered-Handled execute (err e) = refused _
    on_rendered-Handled execute (ok inputs) = on_executed-Handled (execute _ _ _)

    handle_trigger-Handled :
        (execute : DispatchParams → (branch head_sha : Bytes) → ExecuteOutcome)
        → Handled params h (
            handle_trigger hex show_github show_correlation render_template params trigger h
              execute)
    unfolding handle_trigger
    handle_trigger-Handled execute = on_rendered-Handled execute _

  -- The updates of a monitor whose source says that the run has ended.
  data Reports (p : MonitorParams Notifier ObjectId) (finished_at : DateTime)
      (At : RunSummary → Type 0) : List (Effect Notifier ObjectId) → Type 0 where
    reports :
        (log : List (Effect Notifier ObjectId)) (summary : RunSummary)
        → is_terminal summary.status ≡ true
        → At summary
        → updates_of log
          ≡ run_finished p.flow_name p.run_id
              (to_api (unwrap_or summary.conclusion Conclusion.unknown))
              (unwrap_or summary.completed_at finished_at)
            ∷ []
        → Reports p finished_at At log

  Finishes-Reports :
      (p : MonitorParams Notifier ObjectId) (finished_at : DateTime) (At : RunSummary → Type 0)
      (o : Option MonitorOutcome) (log : List (Effect Notifier ObjectId))
      → Finishes p finished_at At o log
      → is_terminated o ≡ true
      → Reports p finished_at At log
  unfolding updates_of
  Finishes-Reports p finished_at At o log (silent _ _ running e) ended =
      absurd (cc (running, ended))
  Finishes-Reports p finished_at At _ _
        (reported before summary conclusion terminal at quiet decoded text) ended =
      let calls : List (Effect Notifier ObjectId) =
        spawn_fan_out p.notifiers (λ n. on_run_complete n p.run_context summary) in
      let end : List (Effect Notifier ObjectId) =
        send (
          run_finished p.flow_name p.run_id conclusion (unwrap_or summary.completed_at finished_at))
        ∷ [] in
      reports _ summary terminal at (
        updates_of-append (before ++ calls) end
        ∙ ap (λ l. l ++ updates_of end)
            (updates_of-append before calls
              ∙ ap (λ l. l ++ updates_of calls) quiet
              ∙ updates_of-run_complete p.notifiers p.run_context summary)
        ∙ ap
            (λ c.
              run_finished p.flow_name p.run_id c (unwrap_or summary.completed_at finished_at) ∷ [])
            text)

module _ {ObjectId : Type 0} (to_hex : ObjectId → String) where
  -- A run that starts and ends, in the entry of its flow.
  run_flow-run :
      (flow : String) (run_id : ℕ) (at ended : DateTime) (conclusion : String)
      (e : Option FlowState)
      → any (has_id run_id) (unwrap_or e default_flow).active_runs ≡ false
      → run_flow to_hex flow
          (run_started flow run_id at ∷ run_finished flow run_id conclusion ended ∷ [])
          e
        ≡ some (record (unwrap_or e default_flow) {
          notified_runs = cap_notified (
              (unwrap_or e default_flow).notified_runs
              ++ (conclude conclusion ended (opened run_id at) ∷ []));
        })
  unfolding run_flow
  run_flow-run flow run_id at ended conclusion e fresh =
      rw (str_eq_refl flow)
        (ap some (finish_run-start_run run_id at ended conclusion (unwrap_or e default_flow) fresh))

-- The entry of a flow, as a new run's end leaves it: the run is the last of the notified ones, with the
-- text of the conclusion of its last summary; `At` is what holds of that.
pub data Recorded (flow : String) (run_id : ℕ) (started_at finished_at : DateTime)
    (At : RunSummary → Type 0) (before after : Option FlowState) : Type 0 where
  recorded :
      (summary : RunSummary)
      → is_terminal summary.status ≡ true
      → At summary
      → after
        ≡ some (record (unwrap_or before default_flow) {
          notified_runs = cap_notified (
              (unwrap_or before default_flow).notified_runs
              ++ (conclude
                    (to_api (unwrap_or summary.conclusion Conclusion.unknown))
                    (unwrap_or summary.completed_at finished_at)
                    (opened run_id started_at)
                  ∷ []));
        })
      → Recorded flow run_id started_at finished_at At before after

module _ {Notifier ObjectId : Type 0} (to_hex : ObjectId → String) (s : State)
    (params : FlowDispatchParams Notifier) (h : Handling) (finished_at : DateTime) where
  Recorded_lem :
      (At : RunSummary → Type 0) (log watched : List (Effect Notifier ObjectId))
      (monitor : MonitorParams Notifier ObjectId)
      → Handled params h (log, ok monitor)
      → Reports monitor finished_at At watched
      → any
          (has_id monitor.run_id)
          (unwrap_or (lookup params.flow_name s.flows) default_flow).active_runs
        ≡ false
      → Recorded params.flow_name monitor.run_id h.run_started_at finished_at At
          (lookup params.flow_name s.flows)
          (lookup params.flow_name (apply_all to_hex s (updates_of (log ++ watched))).flows)
  Recorded_lem At log watched monitor (started _ _ start named) (reports _ summary terminal at end)
        fresh =
      let conclusion : String = to_api (unwrap_or summary.conclusion Conclusion.unknown) in
      let ended : DateTime = unwrap_or summary.completed_at finished_at in
      let updates : updates_of (log ++ watched)
          ≡ run_started params.flow_name monitor.run_id h.run_started_at
            ∷ run_finished params.flow_name monitor.run_id conclusion ended
            ∷ [] =
        updates_of-append log watched ∙ cc (start, end, named) in
      recorded summary terminal at (
        lookup-apply_all to_hex s (updates_of (log ++ watched)) params.flow_name
        ∙ ap (λ us. run_flow to_hex params.flow_name us (lookup params.flow_name s.flows)) updates
        ∙ run_flow-run to_hex params.flow_name monitor.run_id h.run_started_at ended conclusion
            (lookup params.flow_name s.flows) fresh)

  -- Where a trigger is handled and its monitor's source says that the run has ended, the updates
  -- that the two send, applied to a state in which the run is not active for its flow, leave the
  -- flow's entry with the run as its last notified one before the cap: started when the trigger
  -- was handled, with the conclusion, or `unknown` where there is none, and the time of
  -- completion, or the monitor's clock where there is none, that the first round polls in which
  -- the run has ended.
  pub handle_trigger-Recorded :
      (hex : ObjectId → Bytes) (show_github : GithubErrorKind → String)
      (show_correlation : CorrelationError → String)
      (render_template : RunContext ObjectId → RunSummary → Bytes → Result String Bytes)
      (trigger : TriggerSignal ObjectId)
      (execute : DispatchParams → (branch head_sha : Bytes) → ExecuteOutcome)
      (log : List (Effect Notifier ObjectId)) (monitor : MonitorParams Notifier ObjectId)
      (show : ℕ → Bytes) (rounds : List Round)
      → handle_trigger hex show_github show_correlation render_template params trigger h execute
        ≡ (log, ok monitor)
      → is_terminated (monitor_run show (gh_params monitor) rounds).1 ≡ true
      → any
          (has_id monitor.run_id)
          (unwrap_or (lookup params.flow_name s.flows) default_flow).active_runs
        ≡ false
      → Recorded params.flow_name monitor.run_id h.run_started_at finished_at
          (EndsAt show (gh_params monitor) rounds)
          (lookup params.flow_name s.flows)
          (lookup params.flow_name
            (apply_all to_hex s
              (updates_of (log ++ run_monitor show monitor finished_at true rounds))).flows)
  handle_trigger-Recorded hex show_github show_correlation render_template trigger execute log
        monitor show rounds handled ended fresh =
      Recorded_lem _ log (run_monitor show monitor finished_at true rounds) monitor
        (subst (Handled params h) handled (
          handle_trigger-Handled hex show_github show_correlation render_template params trigger h
            execute))
        (Finishes-Reports monitor finished_at _ (monitor_run show (gh_params monitor) rounds).1
          (run_monitor show monitor finished_at true rounds)
          (run_monitor-Finishes show monitor finished_at rounds) ended)
        fresh
