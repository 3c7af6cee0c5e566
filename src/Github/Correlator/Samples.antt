-- ===== src/Github/Correlator/Samples.antt =====
-- A correlation that finds its run in the second round, and one that finds none.
use gcit.Base.{
  ℕ, zero, suc, ◌+◌, true, false, none, some, List, [], ◌∷◌, length, filter, is_some, ◌≡◌, refl,
  arith,
}
use gcit.Base.Results.{ok, pos}
use gcit.RateBucket.{Instant}
use gcit.Mail.{ascii}
use gcit.Github.Pages.{last}
use gcit.Github.Correlator.{
  Run, CorrelateParams, outcome_of, seconds, normal_timeout, poll_interval_initial,
}
use gcit.Github.Correlator.Loop.{Round, correlate, sleep_with_cancel_awareness}
use gcit.Github.Correlator.Found.{Ends, correlate-Ends}
use gcit.Github.Correlator.Deadline.{Paced, over, round, correlate-some}

abbrev params : CorrelateParams
params = record {
  repo = ascii "o/r";
  workflow = ascii "ci.yml";
  gcit_run_id = ascii "7";
  branch = ascii "main";
  head_sha = ascii "ab";
  dispatched_at = seconds 1000;
  run_name_configured = none;
}

abbrev named : Run
named = record {
  id = 42;
  name = ascii "x gcit-7";
  status = "queued";
  conclusion = none;
  html_url = "";
  run_number = pos 3;
  created_at = seconds 1001;
  updated_at = seconds 1001;
}

abbrev other : Run
other = record {
  id = 41;
  name = ascii "nightly";
  status = "queued";
  conclusion = none;
  html_url = "";
  run_number = pos 2;
  created_at = seconds 500;
  updated_at = seconds 500;
}

abbrev round_at : Instant → List Run → Round
round_at at runs = record {
  cancelled = false;
  onset_at = at;
  checked_at = at;
  cancelled_late = false;
  get = λ path. last runs;
  slept_at = at;
  next_delay = poll_interval_initial;
}

abbrev rounds : List Round
rounds = round_at (seconds 0) (other ∷ []) ∷ round_at (seconds 5) (named ∷ other ∷ []) ∷ []

correlate-Ends_example : Ends params (0 + normal_timeout) rounds (ok (outcome_of named))
unfolding correlate outcome_of filter
correlate-Ends_example = correlate-Ends params 0 rounds (ok (outcome_of named)) refl

-- The run of the commit, where none has the name. It is a hundred seconds older than the dispatch.
correlate_by_commit :
    correlate params 0 (round_at 0 (record other { created_at = seconds 900 } ∷ []) ∷ [])
    ≡ some (ok (outcome_of (record other { created_at = seconds 900 })))
unfolding correlate outcome_of filter
correlate_by_commit = refl

-- The name decides, though it is said not to be configured: another run of the commit is newer.
correlate_by_name_anyway :
    correlate
      (record params { run_name_configured = some false })
      0
      (round_at 0 (record other { created_at = seconds 1002 } ∷ named ∷ []) ∷ [])
    ≡ some (ok (outcome_of named))
unfolding correlate outcome_of filter
correlate_by_name_anyway = refl

-- Rounds that find nothing, each as soon as its sleep is over.
abbrev idle : ℕ → Instant → List Round
unfolding sleep_with_cancel_awareness
idle zero at = []
idle (suc n) at =
    round_at at [] ∷ idle n (sleep_with_cancel_awareness (round_at at []) normal_timeout)

idle-Paced : (n : ℕ) (at : Instant) → Paced normal_timeout at (idle n at)
unfolding idle
idle-Paced zero at = over
idle-Paced (suc n) at =
    round (round_at at []) (idle n (sleep_with_cancel_awareness (round_at at []) normal_timeout))
      refl (omega arith) (omega arith) (omega arith)
      (idle-Paced n (sleep_with_cancel_awareness (round_at at []) normal_timeout))

length-idle : (n : ℕ) (at : Instant) → length (idle n at) ≡ n
unfolding idle
length-idle zero at = refl
length-idle (suc n) at =
    omega (arith, length-idle n (sleep_with_cancel_awareness (round_at at []) normal_timeout))

correlate-some_example : is_some (correlate params 0 (idle 61 0)) ≡ true
correlate-some_example =
    correlate-some params 0 (idle 61 0) (idle-Paced 61 0) (omega (arith, length-idle 61 0))
