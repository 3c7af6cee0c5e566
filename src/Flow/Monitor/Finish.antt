-- ===== src/Flow/Monitor/Finish.antt =====
-- src/flow/monitor.rs: what the task tells the state writer.
use Prim.Native.String.{String}
use mathlib.Core.Option
use gcit.Base.{
  ℕ, true, false, Option, none, some, unwrap_or, List, [], ◌∷◌, ◌++◌, append-nil, filter, ◌≡◌, refl,
  ap, ◌∙◌,
}
use gcit.State.Types.{DateTime, StateUpdate, run_finished}
use gcit.Mail.{Bytes}
use gcit.Github.Values.{
  Conclusion, from_api, to_api, from_api-to_api, JobResult, RunSummary, is_terminal,
}
use gcit.Github.Monitor.{MonitorEvent, MonitorOutcome, terminated, Round, monitor_run}
use gcit.Github.Monitor.Stream.{
  Stream, over, next, finish, is_terminated, EndsAt, monitor_run-Stream,
}
use gcit.Flow.{
  RunContext, Effect, on_run_start, on_job_complete, on_run_complete, send, spawn_fan_out,
}
use gcit.Flow.Monitor.{
  MonitorParams, Watcher, is_newly_terminal, conclusion_text, job_calls, announce,
  fan_out_job_completes, finish_run_monitor, run_monitor_with_source, gh_params, run_monitor,
}

conclusion_text-from_api :
    (summary : RunSummary)
    → from_api (conclusion_text summary) ≡ unwrap_or summary.conclusion Conclusion.unknown
unfolding conclusion_text from_api
conclusion_text-from_api summary = by_conclusion summary.conclusion
  where
    by_conclusion :
        (c : Option Conclusion)
        → from_api (unwrap_or (Option.map to_api c) "unknown") ≡ unwrap_or c Conclusion.unknown
    by_conclusion none = refl
    by_conclusion (some c) = from_api-to_api c

conclusion_text-to_api :
    (summary : RunSummary)
    → conclusion_text summary ≡ to_api (unwrap_or summary.conclusion Conclusion.unknown)
unfolding conclusion_text to_api
conclusion_text-to_api summary = by_conclusion summary.conclusion
  where
    by_conclusion :
        (c : Option Conclusion)
        → unwrap_or (Option.map to_api c) "unknown" ≡ to_api (unwrap_or c Conclusion.unknown)
    by_conclusion none = refl
    by_conclusion (some c) = refl

module _ {Notifier ObjectId : Type 0} where
  -- What is sent to the state writer.
  unfoldable pub updates_of : List (Effect Notifier ObjectId) → List (StateUpdate ObjectId)
  updates_of [] = []
  updates_of (send u ∷ log) = u ∷ updates_of log
  updates_of (on_run_start _ _ ∷ log) = updates_of log
  updates_of (on_job_complete _ _ _ ∷ log) = updates_of log
  updates_of (on_run_complete _ _ _ ∷ log) = updates_of log

  pub updates_of-append :
      (xs ys : List (Effect Notifier ObjectId))
      → updates_of (xs ++ ys) ≡ updates_of xs ++ updates_of ys
  unfolding updates_of
  updates_of-append [] ys = refl
  updates_of-append (send u ∷ xs) ys = ap (λ l. u ∷ l) (updates_of-append xs ys)
  updates_of-append (on_run_start _ _ ∷ xs) ys = updates_of-append xs ys
  updates_of-append (on_job_complete _ _ _ ∷ xs) ys = updates_of-append xs ys
  updates_of-append (on_run_complete _ _ _ ∷ xs) ys = updates_of-append xs ys

  updates_of-job_complete :
      (ns : List Notifier) (ctx : RunContext ObjectId) (job : JobResult)
      → updates_of (spawn_fan_out ns (λ n. on_job_complete n ctx job)) ≡ []
  unfolding updates_of
  updates_of-job_complete [] ctx job = refl
  updates_of-job_complete (n ∷ ns) ctx job = updates_of-job_complete ns ctx job

  pub updates_of-run_complete :
      (ns : List Notifier) (ctx : RunContext ObjectId) (summary : RunSummary)
      → updates_of (spawn_fan_out ns (λ n. on_run_complete n ctx summary)) ≡ []
  unfolding updates_of
  updates_of-run_complete [] ctx summary = refl
  updates_of-run_complete (n ∷ ns) ctx summary = updates_of-run_complete ns ctx summary

  pub updates_of-run_start :
      (ns : List Notifier) (ctx : RunContext ObjectId)
      → updates_of (spawn_fan_out ns (λ n. on_run_start n ctx)) ≡ []
  unfolding updates_of
  updates_of-run_start [] ctx = refl
  updates_of-run_start (n ∷ ns) ctx = updates_of-run_start ns ctx

  updates_of-job_calls :
      (ns : List Notifier) (ctx : RunContext ObjectId) (jobs : List JobResult)
      → updates_of (job_calls ns ctx jobs) ≡ []
  unfolding updates_of job_calls
  updates_of-job_calls ns ctx [] = refl
  updates_of-job_calls ns ctx (job ∷ jobs) =
      updates_of-append (spawn_fan_out ns (λ n. on_job_complete n ctx job)) (job_calls ns ctx jobs)
      ∙ cc (
        updates_of-job_complete ns ctx job,
        updates_of-job_calls ns ctx jobs,
        append-nil {A = StateUpdate ObjectId} [],
      )

  updates_of-announce :
      (ns : List Notifier) (ctx : RunContext ObjectId) (jobs : List JobResult)
      (w : Watcher Notifier ObjectId)
      → updates_of (announce ns ctx jobs w).log ≡ updates_of w.log
  unfolding announce
  updates_of-announce ns ctx [] w = refl
  updates_of-announce ns ctx (job ∷ jobs) w =
      updates_of-append w.log (job_calls ns ctx (job ∷ jobs))
      ∙ ap (λ l. updates_of w.log ++ l) (updates_of-job_calls ns ctx (job ∷ jobs))
      ∙ append-nil (updates_of w.log)

  -- What the task has done by its end, for the outcome of the events' source: the run's end is told
  -- last, and only where the source says that it has ended.
  -- `At` is what holds of the summary of that end.
  pub data Finishes (p : MonitorParams Notifier ObjectId) (finished_at : DateTime)
      (At : RunSummary → Type 0)
      : Option MonitorOutcome → List (Effect Notifier ObjectId) → Type 0 where
    silent :
        (o : Option MonitorOutcome) (log : List (Effect Notifier ObjectId))
        → is_terminated o ≡ false
        → updates_of log ≡ []
        → Finishes p finished_at At o log
    reported :
        (before : List (Effect Notifier ObjectId)) (summary : RunSummary) (conclusion : String)
        → is_terminal summary.status ≡ true
        → At summary
        → updates_of before ≡ []
        → from_api conclusion ≡ unwrap_or summary.conclusion Conclusion.unknown
        → conclusion ≡ to_api (unwrap_or summary.conclusion Conclusion.unknown)
        → Finishes p finished_at At (some terminated) (
            (before ++ spawn_fan_out p.notifiers (λ n. on_run_complete n p.run_context summary))
            ++ (send (
                  run_finished p.flow_name p.run_id conclusion
                    (unwrap_or summary.completed_at finished_at))
                ∷ []))

  run_monitor_with_source-Finishes :
      (p : MonitorParams Notifier ObjectId) (finished_at : DateTime) (At : RunSummary → Type 0)
      (events : List MonitorEvent) (o : Option MonitorOutcome)
      → Stream At events o
      → (w : Watcher Notifier ObjectId) → updates_of w.log ≡ []
      → Finishes p finished_at At o (run_monitor_with_source p finished_at true events w).log
  unfolding run_monitor_with_source fan_out_job_completes finish_run_monitor
  run_monitor_with_source-Finishes p finished_at At _ _ (over o h) w e = silent o w.log h e
  run_monitor_with_source-Finishes p finished_at At _ _ (next summary events o h s) w e =
      run_monitor_with_source-Finishes p finished_at At events o s
        (fan_out_job_completes p.notifiers p.run_context summary w)
        (updates_of-announce p.notifiers p.run_context
            (filter (is_newly_terminal w.completed_jobs) summary.jobs) w
          ∙ e)
  run_monitor_with_source-Finishes p finished_at At _ _ (finish summary h at) w e =
      reported (fan_out_job_completes p.notifiers p.run_context summary w).log summary
        (conclusion_text summary) h at
        (updates_of-announce p.notifiers p.run_context
            (filter (is_newly_terminal w.completed_jobs) summary.jobs) w
          ∙ e)
        (conclusion_text-from_api summary) (conclusion_text-to_api summary)

  -- Where the state writer is there, a monitor sends one update if its source says that the run
  -- has ended, after the calls for a terminal run and as the last thing that it does, both with
  -- the summary that the first round polls in which the run has ended; the conclusion of the
  -- update is the text of that summary's, or `unknown` where it has none, and is read back as it;
  -- and no update is sent in every other case.
  pub run_monitor-Finishes :
      (show : ℕ → Bytes) (p : MonitorParams Notifier ObjectId) (finished_at : DateTime)
      (rounds : List Round)
      → Finishes p finished_at
          (EndsAt show (gh_params p) rounds)
          (monitor_run show (gh_params p) rounds).1
          (run_monitor show p finished_at true rounds)
  unfolding run_monitor updates_of
  run_monitor-Finishes show p finished_at rounds =
      run_monitor_with_source-Finishes p finished_at _ (monitor_run show (gh_params p) rounds).0
        (monitor_run show (gh_params p) rounds).1 (monitor_run-Stream show (gh_params p) rounds)
        (record { completed_jobs = []; log = [] }) refl
