-- ===== src/Flow/Samples.antt =====
-- A flow with two notifiers, a trigger, and the run that it starts.
use Prim.Native.String.{String}
use gcit.Base.{ℕ, true, false, none, some, List, [], ◌∷◌, ◌++◌, any, ◌≡◌, refl}
use gcit.Base.Dict.{lookup, insert}
use gcit.Base.Results.{Result, ok, pos}
use gcit.State.Types.{default_state, run_started}
use gcit.State.Apply.{apply_all}
use gcit.Mail.{Bytes, ascii}
use gcit.Github.Errors.{GithubErrorKind, rate_limited}
use gcit.Github.Values.{RunSummary}
use gcit.Github.Pages.{last}
use gcit.Github.Jobs.{Job, job_to_result, success}
use gcit.Github.Correlator.{Run, CorrelationError, run_to_summary}
use gcit.Github.Dispatcher.{DispatchParams}
use gcit.Github.Monitor.{Round, monitor_run, poll_one, with_jobs, terminated}
use gcit.Github.Monitor.Stream.{EndsAt}
use gcit.Github.Monitor.Capped.{Polled, poll_one-Polled}
use gcit.Flow.{TriggerSignal, RunContext, Effect, on_run_start, send}
use gcit.Flow.Monitor.{MonitorParams, gh_params, run_monitor}
use gcit.Flow.Monitor.Finish.{Finishes, run_monitor-Finishes, updates_of}
use gcit.Flow.Monitor.Jobs.{listings, AnnouncedOnce, run_monitor-AnnouncedOnce}
use gcit.Flow.Dispatcher.{
  FlowDispatchParams, ExecuteOutcome, dispatch_failed, Handling, monitor_params, handle_trigger,
}
use gcit.Flow.Dispatcher.Handled.{Recorded, handle_trigger-Recorded}
use gcit.Flow.Dispatcher.Loop.{Received, Select, received, cancelled, Dispatcher, run_with_executor}
use gcit.Flow.Dispatcher.Triggers.{triggers_of, Leaves, run_with_executor-Leaves}

abbrev show : ℕ → Bytes
show n = ascii "42"

abbrev hex : ℕ → Bytes
hex sha = ascii "ab"

abbrev to_hex : ℕ → String
to_hex sha = "ab"

abbrev show_github : GithubErrorKind → String
show_github e = "refused"

abbrev show_correlation : CorrelationError → String
show_correlation e = "lost"

abbrev render_template : RunContext ℕ → RunSummary → Bytes → Result String Bytes
render_template ctx summary template = ok template

-- The notifiers are numbers, as are the ids of git objects.
abbrev flow : FlowDispatchParams ℕ
flow = record {
  flow_name = "builder";
  flow_description = none;
  url = "https://example.com/r.git";
  ref_name = "refs/heads/main";
  action = record {
    repo = ascii "o/r";
    workflow = ascii "ci.yml";
    ref_name = ascii "refs/heads/main";
    inputs = record { key = "sha"; value = ascii "ab" } ∷ [];
  };
  job_interval = 30000000000;
  notifiers = 1 ∷ 2 ∷ [];
}

abbrev trigger : TriggerSignal ℕ
trigger = record { observed_sha = 5; observed_at = 10 }

abbrev handling : Handling
handling = record {
  gcit_run_id = ascii "7";
  trigger_dispatched_at = 11;
  run_started_at = 13;
  writer_alive = true;
}

abbrev run_in : String → Run
run_in status = record {
  id = 42;
  name = ascii "gcit-7";
  status = status;
  conclusion = some "failure";
  html_url = "https://example.com/42";
  run_number = pos 3;
  created_at = 12;
  updated_at = 40;
}

abbrev job_of : ℕ → Job
job_of id = record {
  id = id;
  name = "build";
  html_url = "";
  conclusion = some success;
  started_at = 14;
  completed_at = some 20;
  steps = [];
  run_attempt = 1;
}

abbrev round_of : String → List Job → Round
round_of status jobs = record {
  defer = none;
  defer_cancelled = false;
  get_run = λ path. ok (run_in status);
  get_jobs = λ path. last jobs;
  receiver_alive = true;
  tick_cancelled = false;
}

abbrev running : Job
running = record (job_of 2) { conclusion = none }

abbrev rounds : List Round
rounds =
    round_of "in_progress" (job_of 1 ∷ running ∷ [])
    ∷ round_of "completed" (job_of 1 ∷ job_of 2 ∷ [])
    ∷ []

abbrev execute_at_once : DispatchParams → (branch head_sha : Bytes) → ExecuteOutcome
unfolding run_to_summary
execute_at_once p branch head_sha =
    ExecuteOutcome.success
      (record {
        gcit_run_id = p.gcit_run_id;
        dispatched_at = 12;
        repo = p.repo;
        workflow = p.workflow;
        ref_name = p.ref_name;
      })
      (record { run_id = 42; summary = run_to_summary (run_in "queued") })

abbrev monitor : MonitorParams ℕ ℕ
unfolding monitor_params execute_at_once
monitor =
    monitor_params hex flow trigger
      (record {
        gcit_run_id = ascii "7";
        dispatched_at = 12;
        repo = ascii "o/r";
        workflow = ascii "ci.yml";
        ref_name = ascii "refs/heads/main";
      })
      (record { run_id = 42; summary = run_to_summary (run_in "queued") })

abbrev start_effects : List (Effect ℕ ℕ)
unfolding monitor
start_effects =
    send (run_started "builder" 42 13)
    ∷ on_run_start 1 monitor.run_context
    ∷ on_run_start 2 monitor.run_context
    ∷ []

is_handled :
    handle_trigger hex show_github show_correlation render_template flow trigger handling
      execute_at_once
    ≡ (start_effects, ok monitor)
unfolding handle_trigger execute_at_once start_effects monitor
is_handled = refl

-- The trigger's run is the only one of its flow, and has ended.
handle_trigger-Recorded_example :
    Recorded "builder" 42 13 50 (EndsAt show (gh_params monitor) rounds) none (
      lookup "builder"
        (apply_all to_hex default_state
          (updates_of (start_effects ++ run_monitor show monitor 50 true rounds))).flows)
unfolding lookup monitor monitor_run any
handle_trigger-Recorded_example =
    handle_trigger-Recorded to_hex default_state flow handling 50 hex show_github show_correlation
      render_template trigger execute_at_once start_effects monitor show rounds is_handled refl refl

run_monitor-Finishes_example :
    Finishes monitor 50
      (EndsAt show (gh_params monitor) rounds)
      (some terminated)
      (run_monitor show monitor 50 true rounds)
unfolding monitor_run monitor
run_monitor-Finishes_example = run_monitor-Finishes show monitor 50 rounds

-- Job 1 is announced in the first round, and job 2 in the second.
run_monitor-AnnouncedOnce_example :
    AnnouncedOnce monitor
      (listings (monitor_run show (gh_params monitor) rounds).0)
      (run_monitor show monitor 50 true rounds)
unfolding monitor_run monitor listings any
run_monitor-AnnouncedOnce_example =
    run_monitor-AnnouncedOnce show monitor 50 true rounds
      ((refl, (refl, tt)), ((refl, (refl, tt)), tt))

-- A round with two jobs, whose attempt is the run's.
poll_one-Polled_example :
    Polled show (gh_params monitor) (round_of "completed" (job_of 1 ∷ job_of 2 ∷ [])) (
      ok (
        with_jobs
          (job_to_result (job_of 1) ∷ job_to_result (job_of 2) ∷ [])
          (run_to_summary (run_in "completed"))))
unfolding poll_one monitor job_to_result run_to_summary
poll_one-Polled_example =
    poll_one-Polled show (gh_params monitor) (round_of "completed" (job_of 1 ∷ job_of 2 ∷ []))

-- One trigger is handled, and two more when the token is cancelled; the last of those is refused.
abbrev accepting : Received ℕ
unfolding execute_at_once
accepting = record {
  trigger = trigger;
  handling = handling;
  execute = execute_at_once;
  error_at = 14;
}

abbrev refusing : Received ℕ
refusing = record {
  trigger = trigger;
  handling = handling;
  execute = λ p branch head_sha. dispatch_failed (rate_limited (ascii "pat") 99);
  error_at = 60;
}

abbrev selects : List (Select ℕ)
unfolding accepting
selects = received accepting ∷ cancelled (accepting ∷ refusing ∷ []) ∷ received accepting ∷ []

abbrev idle : Dispatcher ℕ ℕ
idle = record { last_errors = []; log = []; monitors = [] }

run_with_executor-Leaves_example :
    Leaves hex show_github show_correlation render_template flow
      (triggers_of selects)
      idle
      (run_with_executor hex show_github show_correlation render_template flow selects idle)
run_with_executor-Leaves_example =
    run_with_executor-Leaves hex show_github show_correlation render_template flow selects idle

-- The reset is kept with the error.
refused_last :
    lookup "builder"
      (run_with_executor hex show_github show_correlation render_template flow selects
        idle).last_errors
    ≡ some
        (record { at = 60; kind = "dispatch"; message = "dispatch: refused"; retry_at = some 99 })
unfolding run_with_executor selects accepting execute_at_once lookup insert
refused_last = refl
