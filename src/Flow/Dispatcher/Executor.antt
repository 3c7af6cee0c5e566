-- ===== src/Flow/Dispatcher/Executor.antt =====
-- src/flow/dispatcher/executor.rs: the executor of production, a dispatch and then a correlation. `none`
-- where the attempts or the rounds are over before it is done.
use gcit.Base.{ℕ, Bool, Option, none, some, List}
use gcit.Base.Results.{Result, ok, err}
use gcit.RateBucket.{Instant}
use gcit.Mail.{Bytes}
use gcit.Github.Errors.{GithubErrorKind}
use gcit.Github.Dispatcher.{DispatchOutcome, DispatchParams, Client, Attempt, dispatch_with_retry}
use gcit.Github.Correlator.{CorrelateParams, CorrelationOutcome, CorrelationError}
use gcit.Github.Correlator.Loop.{Round, correlate}
use gcit.Flow.Dispatcher.{ExecuteOutcome, success, dispatch_failed, correlate_failed}

abbrev pub dispatch_max_attempts : ℕ
dispatch_max_attempts = 3

unfoldable pub correlate_params : DispatchOutcome → (branch head_sha : Bytes) → CorrelateParams
correlate_params outcome branch head_sha = record {
  repo = outcome.repo;
  workflow = outcome.workflow;
  gcit_run_id = outcome.gcit_run_id;
  branch = branch;
  head_sha = head_sha;
  dispatched_at = outcome.dispatched_at;
  run_name_configured = none;
}

unfoldable pub on_correlated :
    DispatchOutcome → Option (Result CorrelationError CorrelationOutcome) → Option ExecuteOutcome
on_correlated outcome none = none
on_correlated outcome (some (err e)) = some (correlate_failed e)
on_correlated outcome (some (ok correlation)) = some (success outcome correlation)

-- When the correlation starts, and its rounds.
pub record Search : Type 0 where
  pub started : Instant
  pub rounds : List Round

unfoldable pub on_dispatched :
    (branch head_sha : Bytes)
    → Search
    → Option (Result GithubErrorKind DispatchOutcome)
    → Option ExecuteOutcome
unfolding on_correlated correlate_params correlate
on_dispatched branch head_sha search none = none
on_dispatched branch head_sha search (some (err e)) = some (dispatch_failed e)
on_dispatched branch head_sha search (some (ok outcome)) =
    on_correlated outcome
      (correlate (correlate_params outcome branch head_sha) search.started search.rounds)

module _ (show : ℕ → Bytes) (is_uri : Bytes → Bool) where
  unfoldable pub execute :
      Client
      → ℕ
      → List Attempt
      → Search
      → DispatchParams
      → (branch head_sha : Bytes) → Option ExecuteOutcome
  unfolding on_dispatched dispatch_with_retry
  execute c max_attempts attempts search params branch head_sha =
      on_dispatched branch head_sha search
        (dispatch_with_retry show is_uri c params max_attempts attempts)
