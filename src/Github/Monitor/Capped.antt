-- ===== src/Github/Monitor/Capped.antt =====
-- src/github/monitor.rs: what a round polls.
use gcit.Base.{ℕ, ◌-◌, ◌≤◌, List, [], map, length, take, length-take, ◌≡◌, refl, sym, subst, arith}
use gcit.Base.Results.{Result, ok, err}
use gcit.Mail.{Bytes}
use gcit.Github.Errors.{GithubErrorKind}
use gcit.Github.Values.{JobResult, RunSummary}
use gcit.Github.Jobs.{Job, job_to_result}
use gcit.Github.Pages.{Pages}
use gcit.Github.Requests.{split_repo}
use gcit.Github.Correlator.{Run, run_to_summary}
use gcit.Github.Monitor.{
  max_jobs_per_run, max_jobs_pages, MonitorParams, Round, jobs_path, list_all_jobs, run_path,
  with_all_jobs, poll_run_of, list_jobs_of, poll_one,
}
use gcit.Github.Monitor.Listed.{
  Reads, Fails, IsHighest, max_attempt-IsHighest, cap, Collects, collected, broken,
  collect_jobs-Collects,
}

module _ (show : ℕ → Bytes) where
  -- The pages of the jobs, as the server answers the round.
  abbrev pub job_pages : MonitorParams → Round → Bytes × Bytes → Pages Job
  job_pages p r parts = r.get_jobs (jobs_path show p parts)

  -- What a round reads.
  pub data Polled (p : MonitorParams) (r : Round) : Result GithubErrorKind RunSummary → Type 0 where
    polled :
        (parts : Bytes × Bytes) (run : Run) (all : List Job) (jobs : List JobResult) (attempt : ℕ)
        → split_repo p.repo ≡ ok parts
        → r.get_run (run_path show p parts) ≡ ok run
        → Reads 0 (max_jobs_pages - 1) (job_pages p r parts) all
        → jobs ≡ take max_jobs_per_run (map job_to_result all)
        → length jobs ≤ max_jobs_per_run
        → IsHighest (run_to_summary run).run_attempt jobs attempt
        → Polled p r (ok (record (run_to_summary run) { run_attempt = attempt; jobs = jobs }))
    no_repo : (e : GithubErrorKind) → split_repo p.repo ≡ err e → Polled p r (err e)
    no_run :
        (parts : Bytes × Bytes) (e : GithubErrorKind)
        → split_repo p.repo ≡ ok parts
        → r.get_run (run_path show p parts) ≡ err e
        → Polled p r (err e)
    no_jobs :
        (parts : Bytes × Bytes) (run : Run) (e : GithubErrorKind)
        → split_repo p.repo ≡ ok parts
        → r.get_run (run_path show p parts) ≡ ok run
        → Fails e 0 (max_jobs_pages - 1) (job_pages p r parts)
        → Polled p r (err e)

  with_all_jobs-Polled :
      (p : MonitorParams) (r : Round) (parts : Bytes × Bytes)
      → split_repo p.repo ≡ ok parts
      → (run : Result GithubErrorKind Run) → r.get_run (run_path show p parts) ≡ run
      → (jobs : Result GithubErrorKind (List JobResult))
      → Collects [] (max_jobs_pages - 1) (job_pages p r parts) jobs
      → Polled p r (with_all_jobs run jobs)
  unfolding with_all_jobs
  with_all_jobs-Polled p r parts s (err e) h jobs c = no_run parts e s h
  with_all_jobs-Polled p r parts s (ok run) h _ (broken e fails) = no_jobs parts run e s h fails
  with_all_jobs-Polled p r parts s (ok run) h _ (collected all reads) =
      polled parts run all (cap (map job_to_result all)) _ s h reads refl
        (omega (arith, length-take max_jobs_per_run (map job_to_result all)))
        (max_attempt-IsHighest (cap (map job_to_result all)) (run_to_summary run).run_attempt)

  -- A poll of a run succeeds where the repository's name is well-formed, the run can be read, and
  -- each page of its jobs up to the last one, the tenth, or the one with the thousandth job: it
  -- gives the run with the first thousand of those jobs and the highest attempt of them, or its
  -- own where there are none. In every other case it gives the error of the first of these that
  -- fails.
  pub poll_one-Polled : (p : MonitorParams) (r : Round) → Polled p r (poll_one show p r)
  unfolding poll_one poll_run_of list_all_jobs list_jobs_of
  poll_one-Polled p r = by_parts (split_repo p.repo) refl
    where
      by_parts :
          (o : Result GithubErrorKind (Bytes × Bytes))
          → split_repo p.repo ≡ o
          → Polled p r (poll_run_of show p r o)
      by_parts (err e) h = no_repo e h
      by_parts (ok parts) h =
          subst
            (λ x.
              Polled p r
                (with_all_jobs (r.get_run (run_path show p parts)) (list_jobs_of show p r x)))
            (sym h)
            (with_all_jobs-Polled p r parts h (r.get_run (run_path show p parts)) refl
              (list_jobs_of show p r (ok parts))
              (collect_jobs-Collects (max_jobs_pages - 1) [] (job_pages p r parts) (omega arith)))
