-- ===== src/Github/Dispatcher/Samples.antt =====
-- Dispatches of one workflow.
use gcit.Base.{
  ℕ, Bool, true, false, none, some, is_some, List, [], ◌∷◌, ◌++◌, ◌≡◌, refl, arith, inr,
}
use gcit.Base.Dict.{lookup}
use gcit.Base.Results.{err}
use gcit.Mail.{Bytes, ascii}
use gcit.Github.Errors.{rate_limited, github}
use gcit.Github.RateLimit.{RateLimitState}
use gcit.Github.Dispatcher.{
  DispatchParams, Client, Headers, Reply, responded, elapsed, Attempt, dispatch,
  dispatch_with_retry, build_inputs_payload,
}
use gcit.Github.Dispatcher.Retry.{dispatch_with_retry-some}

abbrev show : ℕ → Bytes
show n = []

abbrev is_uri : Bytes → Bool
is_uri s = true

abbrev client : Client
client = record { credential = ascii "pat"; request_timeout = 30000000000 }

abbrev params : DispatchParams
params = record {
  repo = ascii "o/r";
  workflow = ascii "ci.yml";
  ref_name = ascii "refs/heads/main";
  gcit_run_id = ascii "7";
  rendered_inputs =
      record { key = "gcit_run_id"; value = ascii "forged" }
      ∷ record { key = "sha"; value = ascii "ab" }
      ∷ [];
}

-- The run's id takes the place of an input of that name.
payload :
    lookup "gcit_run_id" (build_inputs_payload params.rendered_inputs params.gcit_run_id)
    ≡ some (ascii "7")
unfolding build_inputs_payload lookup
payload = refl

abbrev plenty : RateLimitState
plenty = record { remaining = some 100; limit = some 5000; reset = some 900; observed_at = some 10 }

abbrev attempt : Reply → Attempt
attempt reply = record {
  rate_limit = plenty;
  started_at = 20;
  wait_cancelled = false;
  dispatched_at = 21;
  reply = λ request. reply;
  observed_at = 22;
  classified_at = 23;
  snapshot_at = 24;
  delay = 5000000000;
  adjusted_at = 25;
}

abbrev headers : Headers
headers = record { remaining = some 0; reset = some 600; limit = none }

-- A 403 whose headers say that nothing remains is a refusal by the rate limit.
refused :
    dispatch show is_uri client params (attempt (responded headers 403 (github 403 [])))
    ≡ err (rate_limited (ascii "pat") 600)
unfolding dispatch
refused = refl

abbrev accepted : Attempt
accepted = attempt (responded headers 204 (github 204 []))

abbrev attempts : List Attempt
attempts = attempt elapsed ∷ accepted ∷ []

-- The fourth timeout is the last.
dispatch_with_retry-some_example :
    is_some (
      dispatch_with_retry show is_uri client params 3 (
        (attempt elapsed ∷ attempt elapsed ∷ attempt elapsed ∷ [])
        ++ (attempt elapsed ∷ accepted ∷ [])))
    ≡ true
unfolding dispatch
dispatch_with_retry-some_example =
    dispatch_with_retry-some show is_uri client params 3
      (attempt elapsed ∷ attempt elapsed ∷ attempt elapsed ∷ []) (attempt elapsed) (accepted ∷ [])
      (inr (refl, omega arith))
