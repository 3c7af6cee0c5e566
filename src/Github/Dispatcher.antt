-- ===== src/Github/Dispatcher.antt =====
-- src/github/dispatcher.rs: the request that starts a run, and how often it is tried. The state of the
-- rate limit is shared with other tasks: each attempt is given it as it finds it. `show` prints a
-- status, and `is_uri` is what http accepts as a URI, whose reason to refuse one is left out of the
-- text of the error. The wait for the bucket only delays.
pub mod Retry
mod Samples
use Prim.Native.String.{String}
use gcit.Base.{
  ℕ, zero, suc, ◌+◌, max, Bool, true, false, ◌&&◌, Option, none, some, List, [], ◌∷◌, ◌++◌, leb,
  ltb, if◌then◌else◌,
}
use gcit.Base.Dict.{Dict, Entry, insert}
use gcit.Base.Results.{Result, ok, err, map_ok}
use gcit.State.Types.{DateTime}
use gcit.Poll.Strategy.{Duration}
use gcit.Mail.{Bytes, ascii}
use gcit.Github.Errors.{
  GithubErrorKind, forbidden, rate_limited, unknown, cancelled, timeout, OctocrabError, classify,
  retryability, Retryability, transient, permanent, retry_after, resolve_reset, is_exhausted,
}
use gcit.Github.RateLimit.{RateLimitState, observe_headers, should_defer}
use gcit.Github.Requests.{split_repo}

abbrev pub gcit_run_id_input : String
gcit_run_id_input = "gcit_run_id"

-- The id of the run is the text of its UUID.
pub record DispatchOutcome : Type 0 where
  pub gcit_run_id : Bytes
  pub dispatched_at : DateTime
  pub repo : Bytes
  pub workflow : Bytes
  pub ref_name : Bytes

pub record DispatchParams : Type 0 where
  pub repo : Bytes
  pub workflow : Bytes
  pub ref_name : Bytes
  pub gcit_run_id : Bytes
  pub rendered_inputs : Dict Bytes

-- `render_template` renders one template or fails with a text.
unfoldable pub render_inputs :
    {C : Type 0} → (C → Bytes → Result String Bytes) → C → Dict Bytes → Result String (Dict Bytes)
render_inputs render_template ctx [] = ok []
render_inputs render_template ctx (entry ∷ inputs) =
    let rest = render_inputs render_template ctx inputs in
    elim (render_template ctx entry.value) [
      | err e ↦ err e
      | ok value ↦ map_ok (λ others. record { key = entry.key; value = value } ∷ others) rest
    ]

-- The loop of inserts copies the inputs.
unfoldable pub build_inputs_payload : Dict Bytes → Bytes → Dict Bytes
unfolding insert
build_inputs_payload rendered_inputs gcit_run_id =
    insert gcit_run_id_input gcit_run_id rendered_inputs

-- What of the client is read.
pub record Client : Type 0 where
  pub credential : Bytes
  pub request_timeout : Duration

pub record Headers : Type 0 where
  pub remaining : Option ℕ
  pub reset : Option DateTime
  pub limit : Option ℕ

-- A response, with what octocrab makes of one that is no success; or no response.
pub data Reply : Type 0 where
  responded : Headers → (status : ℕ) → OctocrabError → Reply
  unsent : OctocrabError → Reply
  elapsed : Reply

pub record Request : Type 0 where
  pub uri : Bytes
  pub ref_name : Bytes
  pub inputs : Dict Bytes

-- One attempt: the rate limit as it is found, the clock there, whether the token is cancelled in the
-- wait, the clock at the dispatch, the answer to a request and the clocks after it; then the delay that
-- the backoff has drawn, and the clock where that is adjusted.
pub record Attempt : Type 0 where
  pub rate_limit : RateLimitState
  pub started_at : DateTime
  pub wait_cancelled : Bool
  pub dispatched_at : DateTime
  pub reply : Request → Reply
  pub observed_at : DateTime
  pub classified_at : DateTime
  pub snapshot_at : DateTime
  pub delay : Duration
  pub adjusted_at : DateTime

unfoldable pub wait_for_rate_limit_or_cancel : Attempt → Result GithubErrorKind (Unit {0})
unfolding should_defer
wait_for_rate_limit_or_cancel a = elim (should_defer a.started_at a.rate_limit) [
  | none ↦ ok tt
  | some wait ↦ if a.wait_cancelled then err cancelled else ok tt
]

-- A 403 is a refusal by the rate limit where no request is left.
unfoldable pub reclassify_403_via_snapshot :
    DateTime → RateLimitState → GithubErrorKind → GithubErrorKind
reclassify_403_via_snapshot now s (forbidden credential) =
    if is_exhausted s.remaining
    then rate_limited credential (resolve_reset now s.reset)
    else forbidden credential
reclassify_403_via_snapshot now s e = e

unfoldable pub observe_response : Headers → Attempt → RateLimitState
unfolding observe_headers
observe_response h a = observe_headers a.observed_at h.remaining h.reset h.limit a.rate_limit

-- `StatusCode::is_success`
abbrev pub is_success : ℕ → Bool
is_success status = leb 200 status && ltb status 300

unfoldable pub dispatch_outcome : DispatchParams → Attempt → DispatchOutcome
dispatch_outcome p a = record {
  gcit_run_id = p.gcit_run_id;
  dispatched_at = a.dispatched_at;
  repo = p.repo;
  workflow = p.workflow;
  ref_name = p.ref_name;
}

-- The delays that the backoff still has, and the one that it gives.
abbrev pub drawn_delay : ℕ → Attempt → Option Duration
drawn_delay zero a = none
drawn_delay (suc left) a = some a.delay

abbrev pub delays_left : ℕ → ℕ
delays_left zero = zero
delays_left (suc left) = left

-- The closure of `adjust`.
unfoldable pub adjust : Option Duration → Option Duration → Option Duration
adjust (some after) (some d) = some (max after d)
adjust (some after) none = some after
adjust none d = d

-- What is done with an attempt's result: `some` ends the retries.
unfoldable pub decide :
    ℕ
    → Attempt
    → Result GithubErrorKind DispatchOutcome
    → Option (Result GithubErrorKind DispatchOutcome)
unfolding adjust retry_after retryability
decide left a (ok outcome) = some (ok outcome)
decide left a (err e) = elim (retryability e) [
  | permanent ↦ some (err e)
  | transient ↦ elim (adjust (retry_after a.adjusted_at e) (drawn_delay left a)) [
    | none ↦ some (err e)
    | some wait ↦ none
  ]
]

module _ (show : ℕ → Bytes) (is_uri : Bytes → Bool) where
  unfoldable pub dispatch_route : DispatchParams → Bytes × Bytes → Bytes
  dispatch_route p (owner, repo) =
      ascii "/repos/"
      ++ owner
      ++ ascii "/"
      ++ repo
      ++ ascii "/actions/workflows/"
      ++ p.workflow
      ++ ascii "/dispatches"

  unfoldable pub build_dispatch_uri : DispatchParams → Bytes × Bytes → Result GithubErrorKind Bytes
  unfolding dispatch_route
  build_dispatch_uri p parts =
      if is_uri (dispatch_route p parts)
      then ok (dispatch_route p parts)
      else err (unknown (ascii "dispatcher route URI invalid"))

  unfoldable pub classify_error :
      Client → DispatchParams → Attempt → RateLimitState → OctocrabError → GithubErrorKind
  unfolding reclassify_403_via_snapshot classify
  classify_error c p a s e =
      reclassify_403_via_snapshot a.snapshot_at s
        (classify show a.classified_at c.credential p.repo p.workflow none none e)

  unfoldable pub on_reply :
      Client → DispatchParams → Attempt → Reply → Result GithubErrorKind DispatchOutcome
  unfolding classify_error observe_response dispatch_outcome
  on_reply c p a (responded h status e) =
      if is_success status
      then ok (dispatch_outcome p a)
      else err (classify_error c p a (observe_response h a) e)
  on_reply c p a (unsent e) = err (classify_error c p a a.rate_limit e)
  on_reply c p a elapsed = err (timeout c.request_timeout)

  unfoldable pub send_dispatch_request :
      Client
      → DispatchParams
      → Attempt
      → Result GithubErrorKind Bytes
      → Result GithubErrorKind DispatchOutcome
  unfolding on_reply build_inputs_payload
  send_dispatch_request c p a (err e) = err e
  send_dispatch_request c p a (ok uri) = on_reply c p a (
      a.reply (record {
        uri = uri;
        ref_name = p.ref_name;
        inputs = build_inputs_payload p.rendered_inputs p.gcit_run_id;
      }))

  abbrev pub after_wait :
      Client
      → DispatchParams
      → Attempt
      → Bytes × Bytes
      → Result GithubErrorKind (Unit {0})
      → Result GithubErrorKind DispatchOutcome
  unfolding send_dispatch_request build_dispatch_uri
  after_wait c p a parts (err e) = err e
  after_wait c p a parts (ok _) = send_dispatch_request c p a (build_dispatch_uri p parts)

  unfoldable pub dispatch_parts :
      Client
      → DispatchParams
      → Attempt
      → Result GithubErrorKind (Bytes × Bytes)
      → Result GithubErrorKind DispatchOutcome
  unfolding after_wait wait_for_rate_limit_or_cancel
  dispatch_parts c p a (err e) = err e
  dispatch_parts c p a (ok parts) = after_wait c p a parts (wait_for_rate_limit_or_cancel a)

  unfoldable pub dispatch :
      Client → DispatchParams → Attempt → Result GithubErrorKind DispatchOutcome
  unfolding dispatch_parts split_repo
  dispatch c p a = dispatch_parts c p a (split_repo p.repo)

  -- `none` where the attempts are over and the retries are not.
  unfoldable pub dispatch_with_retry :
      Client → DispatchParams → ℕ → List Attempt → Option (Result GithubErrorKind DispatchOutcome)
  unfolding decide dispatch
  dispatch_with_retry c p max_attempts [] = none
  dispatch_with_retry c p max_attempts (a ∷ attempts) =
      let rest = dispatch_with_retry c p (delays_left max_attempts) attempts in
      elim (decide max_attempts a (dispatch c p a)) [ some done ↦ some done | none ↦ rest ]
