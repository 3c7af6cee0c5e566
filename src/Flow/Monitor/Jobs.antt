-- ===== src/Flow/Monitor/Jobs.antt =====
-- src/flow/monitor.rs: which jobs are announced to the notifiers.
use mathlib.Core.List.{map-append}
use gcit.Base.{
  ℕ, Bool, true, is_some, List, [], ◌∷◌, ◌++◌, append-nil, append_assoc, filter, if_ind, ◌≡◌, refl,
  sym, ap, ◌∙◌, subst, All, All-append, All-map,
}
use gcit.State.Types.{DateTime}
use gcit.Mail.{Bytes}
use gcit.Github.Values.{JobResult, RunSummary}
use gcit.Github.Monitor.{MonitorEvent, update, done, Round, monitor_run}
use gcit.Flow.{
  RunContext, Effect, on_run_start, on_job_complete, on_run_complete, send, spawn_fan_out,
}
use gcit.Flow.Monitor.{
  MonitorParams, Watcher, is_newly_terminal, job_calls, announce, fan_out_job_completes,
  finish_run_monitor, run_monitor_with_source, gh_params, run_monitor,
}
use gcit.Flow.Monitor.Unique.{
  job_ids, IsUnique, IsUnique-append, IsUnique-filter, filter-fresh, filter-concluded, IsAnnounced,
  filter-IsAnnounced, contains_id-left,
}

module _ {Notifier ObjectId : Type 0} where
  -- The log without the calls for jobs.
  unfoldable pub without_jobs : List (Effect Notifier ObjectId) → List (Effect Notifier ObjectId)
  without_jobs [] = []
  without_jobs (on_job_complete _ _ _ ∷ log) = without_jobs log
  without_jobs (send u ∷ log) = send u ∷ without_jobs log
  without_jobs (on_run_start n ctx ∷ log) = on_run_start n ctx ∷ without_jobs log
  without_jobs (on_run_complete n ctx s ∷ log) = on_run_complete n ctx s ∷ without_jobs log

  job_calls-append :
      (ns : List Notifier) (ctx : RunContext ObjectId) (xs ys : List JobResult)
      → job_calls ns ctx (xs ++ ys) ≡ job_calls ns ctx xs ++ job_calls ns ctx ys
  unfolding job_calls
  job_calls-append ns ctx [] ys = refl
  job_calls-append ns ctx (job ∷ xs) ys =
      let calls : List (Effect Notifier ObjectId) =
        spawn_fan_out ns (λ n. on_job_complete n ctx job) in
      ap (λ l. calls ++ l) (job_calls-append ns ctx xs ys)
      ∙ sym (append_assoc calls (job_calls ns ctx xs) (job_calls ns ctx ys))

  announce-eq :
      (ns : List Notifier) (ctx : RunContext ObjectId) (jobs : List JobResult)
      (w : Watcher Notifier ObjectId)
      → announce ns ctx jobs w ≡ record {
        completed_jobs = w.completed_jobs ++ job_ids jobs;
        log = w.log ++ job_calls ns ctx jobs;
      }
  unfolding announce job_calls
  announce-eq ns ctx [] w = cc (append-nil w.completed_jobs, append-nil w.log)
  announce-eq ns ctx (job ∷ jobs) w = refl

  -- The jobs that have been announced after some listings.
  record Announces (ns : List Notifier) (ctx : RunContext ObjectId) (seen : List RunSummary)
      (w : Watcher Notifier ObjectId) (jobs : List JobResult) : Type 0 where
    log_eq : w.log ≡ job_calls ns ctx jobs
    ids_eq : w.completed_jobs ≡ job_ids jobs
    unique : IsUnique w.completed_jobs
    concluded : All (λ j. is_some j.conclusion ≡ true) jobs
    complete : All (λ s. All (IsAnnounced w.completed_jobs) s.jobs) seen

  fan_out_job_completes-Announces :
      (ns : List Notifier) (ctx : RunContext ObjectId) (seen : List RunSummary)
      (w : Watcher Notifier ObjectId) (jobs : List JobResult) (summary : RunSummary)
      → IsUnique (job_ids summary.jobs)
      → Announces ns ctx seen w jobs
      → Announces ns ctx
          (seen ++ (summary ∷ []))
          (fan_out_job_completes ns ctx summary w)
          (jobs ++ filter (is_newly_terminal w.completed_jobs) summary.jobs)
  unfolding fan_out_job_completes
  fan_out_job_completes-Announces ns ctx seen w jobs summary u a =
      subst (λ x. Announces ns ctx (seen ++ (summary ∷ [])) x (jobs ++ newly))
        (sym (announce-eq ns ctx newly w))
        record {
          log_eq =
              ap (λ l. l ++ job_calls ns ctx newly) a.log_eq
              ∙ sym (job_calls-append ns ctx jobs newly);
          ids_eq =
              ap (λ l. l ++ job_ids newly) a.ids_eq ∙ sym (map-append (λ j. j.job_id) jobs newly);
          unique =
              IsUnique-append w.completed_jobs (job_ids newly) a.unique
                (IsUnique-filter (is_newly_terminal w.completed_jobs) summary.jobs u)
                (filter-fresh w.completed_jobs summary.jobs);
          concluded =
              All-append _ jobs newly a.concluded (filter-concluded w.completed_jobs summary.jobs);
          complete =
              All-append _ seen (summary ∷ [])
                (All-map
                  (λ s h.
                    All-map
                      (λ j f e. contains_id-left j.job_id w.completed_jobs (job_ids newly) (f e))
                      s.jobs h)
                  seen a.complete)
                (filter-IsAnnounced w.completed_jobs summary.jobs, tt);
        }
    where
      newly : List JobResult
      newly = filter (is_newly_terminal w.completed_jobs) summary.jobs

-- The listings that the task has looked at.
unfoldable pub listings : List MonitorEvent → List RunSummary
listings [] = []
listings (update summary ∷ events) = summary ∷ listings events
listings (done summary ∷ events) = summary ∷ []

module _ {Notifier ObjectId : Type 0} where
  without_jobs-end :
      (ns : List Notifier) (ctx : RunContext ObjectId) (summary : RunSummary)
      (rest : List (Effect Notifier ObjectId))
      → without_jobs rest ≡ rest
      → without_jobs (spawn_fan_out ns (λ n. on_run_complete n ctx summary) ++ rest)
        ≡ spawn_fan_out ns (λ n. on_run_complete n ctx summary) ++ rest
  unfolding without_jobs
  without_jobs-end [] ctx summary rest h = h
  without_jobs-end (n ∷ ns) ctx summary rest h =
      ap (λ l. on_run_complete n ctx summary ∷ l) (without_jobs-end ns ctx summary rest h)

  -- The log starts with the calls for the jobs, and has no others.
  pub data AnnouncedOnce (p : MonitorParams Notifier ObjectId) (seen : List RunSummary)
      : List (Effect Notifier ObjectId) → Type 0 where
    announced_once :
        (jobs : List JobResult) (rest : List (Effect Notifier ObjectId))
        → IsUnique (job_ids jobs)
        → All (λ j. is_some j.conclusion ≡ true) jobs
        → All (λ s. All (IsAnnounced (job_ids jobs)) s.jobs) seen
        → without_jobs rest ≡ rest
        → AnnouncedOnce p seen (job_calls p.notifiers p.run_context jobs ++ rest)

  Announces-AnnouncedOnce :
      (p : MonitorParams Notifier ObjectId) (seen : List RunSummary) (w : Watcher Notifier ObjectId)
      (jobs : List JobResult) (rest : List (Effect Notifier ObjectId))
      → Announces p.notifiers p.run_context seen w jobs
      → without_jobs rest ≡ rest
      → AnnouncedOnce p seen (w.log ++ rest)
  Announces-AnnouncedOnce p seen w jobs rest a h =
      subst (λ l. AnnouncedOnce p seen (l ++ rest)) (sym a.log_eq)
        (announced_once jobs rest (subst IsUnique a.ids_eq a.unique) a.concluded
          (subst (λ ids. All (λ s. All (IsAnnounced ids) s.jobs) seen) a.ids_eq a.complete) h)

  run_monitor_with_source-AnnouncedOnce :
      (p : MonitorParams Notifier ObjectId) (finished_at : DateTime) (alive : Bool)
      (events : List MonitorEvent) (seen : List RunSummary) (w : Watcher Notifier ObjectId)
      (jobs : List JobResult)
      → All (λ s. IsUnique (job_ids s.jobs)) (listings events)
      → Announces p.notifiers p.run_context seen w jobs
      → AnnouncedOnce p
          (seen ++ listings events)
          (run_monitor_with_source p finished_at alive events w).log
  unfolding run_monitor_with_source listings finish_run_monitor without_jobs
  run_monitor_with_source-AnnouncedOnce p finished_at alive [] seen w jobs u a =
      subst (λ l. AnnouncedOnce p (seen ++ []) l) (append-nil w.log)
        (subst (λ l. AnnouncedOnce p l (w.log ++ [])) (sym (append-nil seen))
          (Announces-AnnouncedOnce p seen w jobs [] a refl))
  run_monitor_with_source-AnnouncedOnce p finished_at alive (update summary ∷ events) seen w jobs u
        a =
      subst
        (λ l.
          AnnouncedOnce p l
            (run_monitor_with_source p finished_at alive (update summary ∷ events) w).log)
        (append_assoc seen (summary ∷ []) (listings events))
        (run_monitor_with_source-AnnouncedOnce p finished_at alive events (seen ++ (summary ∷ []))
          (fan_out_job_completes p.notifiers p.run_context summary w) _ u.1
          (fan_out_job_completes-Announces p.notifiers p.run_context seen w jobs summary u.0 a))
  run_monitor_with_source-AnnouncedOnce p finished_at alive (done summary ∷ events) seen w jobs u
        a =
      subst (AnnouncedOnce p (seen ++ (summary ∷ [])))
        (sym (
          append_assoc (fan_out_job_completes p.notifiers p.run_context summary w).log
            (spawn_fan_out p.notifiers (λ n. on_run_complete n p.run_context summary)) _))
        (Announces-AnnouncedOnce p (seen ++ (summary ∷ []))
          (fan_out_job_completes p.notifiers p.run_context summary w) _ _
          (fan_out_job_completes-Announces p.notifiers p.run_context seen w jobs summary u.0 a)
          (without_jobs-end p.notifiers p.run_context summary _ (
            if_ind (λ (l : List (Effect Notifier ObjectId)). without_jobs l ≡ l) alive (λ _. refl)
              (λ _. refl))))

  -- Where no listing has a job id twice, the calls of a monitor begin with those for jobs, each
  -- job once for every notifier, and have no other calls for jobs: only jobs that have concluded
  -- are announced, and every job that some listing shows as concluded is.
  pub run_monitor-AnnouncedOnce :
      (show : ℕ → Bytes) (p : MonitorParams Notifier ObjectId) (finished_at : DateTime)
      (alive : Bool) (rounds : List Round)
      → All (λ s. IsUnique (job_ids s.jobs)) (listings (monitor_run show (gh_params p) rounds).0)
      → AnnouncedOnce p
          (listings (monitor_run show (gh_params p) rounds).0)
          (run_monitor show p finished_at alive rounds)
  unfolding run_monitor job_calls
  run_monitor-AnnouncedOnce show p finished_at alive rounds u =
      run_monitor_with_source-AnnouncedOnce p finished_at alive
        (monitor_run show (gh_params p) rounds).0 [] (record { completed_jobs = []; log = [] }) [] u
        record { log_eq = refl; ids_eq = refl; unique = tt; concluded = tt; complete = tt }
