-- ===== src/Poll/Loop.antt =====
-- src/flow/poll/loop_.rs: the loop of a flow's poll task, over a list of rounds. The jitter of the
-- sleep is left out: a round says only whether the sleep was cancelled.
pub mod Messages
pub mod Summary
pub mod Spacing
pub mod Suppression
use Prim.Native.String.{◌++◌ as append}
use mathlib.Core.Option
use gcit.Base.{
  ℕ, ◌+◌, ◌-◌, String, Bool, true, false, Option, none, some, List, [], ◌∷◌, if◌then◌else◌, ltb,
  leb, ◌&&◌,
}
use gcit.Base.Dict.{remove}
use gcit.LastError.{record_last_error}
use gcit.State.Types.{DateTime, StateUpdate, poll_observation, poll_timestamp}
use gcit.Poll.Strategy.{Duration, PollStrategy, compare_sha}
use gcit.Poll.Executor.{
  PollOutcome, refreshed, unborn_ref, unchanged, PollResult, ok, failed, Upstream, poll_one,
}
use gcit.Poll.Send.{
  TriggerSend, SendOutcome, is_sent, Poller, send_state, send_trigger_then_observation,
}

-- `now - t` stops at 0, which `now < t` rules out.
unfoldable pub is_cooled_down : Option DateTime → DateTime → Duration → Bool
is_cooled_down none now cooldown = true
is_cooled_down (some t) now cooldown = if ltb now t then true else leb cooldown (now - t)

-- What of `PollParams` the loop reads.
pub record PollParams : Type 0 where
  pub flow_name : String
  pub url : String
  pub ref_name : String
  pub strategy : PollStrategy
  pub cooldown : Duration
  pub has_rate_bucket : Bool

unfoldable pub unborn_ref_message : PollParams → String
unborn_ref_message p = append "ref " (
    append p.ref_name (
      append " not found at " (
        append p.url (
          append
            " — verify the ref exists upstream, wait if it's still being pushed, or update flow."
            (append p.flow_name ".source.ref")))))

-- What happens to the task in one round of the loop.
pub record Round (ObjectId : Type 0) : Type 0 where
  pub sleep_cancelled : Bool
  pub rate_cancelled : Bool
  pub upstream : Upstream ObjectId
  pub now : DateTime
  pub trigger_send : TriggerSend
  pub writer_alive : Bool
  -- The clock when an error is recorded.
  pub error_at : DateTime

pub data CycleAction : Type 0 where
  continue return : CycleAction

abbrev pub is_return : CycleAction → Bool
is_return return = true
is_return continue = false

module _ {ObjectId : Type 0} where
  unfoldable pub maybe_clear_last_error : PollParams → Poller ObjectId → Poller ObjectId
  maybe_clear_last_error p t =
      if t.last_error_cleared
      then t
      else record t { last_errors = remove p.flow_name t.last_errors; last_error_cleared = true }

  unfoldable pub note_error : PollParams → DateTime → String → Poller ObjectId → Poller ObjectId
  note_error p at message t = record t {
    last_errors = record_last_error at p.flow_name "git_poll_failed" message none t.last_errors;
    last_error_cleared = false;
  }

  unfoldable pub finish_cycle : PollParams → Poller ObjectId × Bool → Poller ObjectId × CycleAction
  unfolding maybe_clear_last_error
  finish_cycle p (t, going) = if going then (maybe_clear_last_error p t, continue) else (t, return)

  unfoldable pub handle_unchanged :
      PollParams → Round ObjectId → Poller ObjectId → Poller ObjectId × CycleAction
  unfolding finish_cycle send_state
  handle_unchanged p r t =
      finish_cycle p (send_state r.writer_alive (poll_timestamp p.flow_name r.now) t)

  unfoldable pub after_unborn :
      PollParams → Round ObjectId → Poller ObjectId × Bool → Poller ObjectId × CycleAction
  unfolding note_error
  after_unborn p r (t, alive) =
      if alive then (note_error p r.error_at (unborn_ref_message p) t, continue) else (t, return)

  unfoldable pub handle_unborn_ref :
      PollParams → Round ObjectId → Poller ObjectId → Poller ObjectId × CycleAction
  unfolding after_unborn send_state
  handle_unborn_ref p r t =
      after_unborn p r (send_state r.writer_alive (poll_timestamp p.flow_name r.now) t)

  -- After the trigger and its observation.
  unfoldable pub after_dispatch :
      PollParams
      → ObjectId
      → DateTime
      → Poller ObjectId × SendOutcome
      → Poller ObjectId × CycleAction
  unfolding finish_cycle
  after_dispatch p sha now (t, outcome) = finish_cycle p (
      if is_sent outcome
      then (record t { last_dispatched_at = some now; last_sha = some sha }, true)
      else (t, false))

  -- After an observation with no trigger.
  unfoldable pub after_baseline :
      PollParams → ObjectId → Poller ObjectId × Bool → Poller ObjectId × CycleAction
  unfolding finish_cycle
  after_baseline p sha (t, alive) =
      finish_cycle p (if alive then (record t { last_sha = some sha }, true) else (t, false))

-- `same` is the equality of object ids, and `from_std` is `chrono::Duration::from_std(…).ok()`.
module _ {ObjectId : Type 0} (same : Discrete ObjectId)
    (from_std : Duration → Option Duration) where
  unfoldable pub handle_refreshed :
      PollParams → Round ObjectId → ObjectId → Poller ObjectId → Poller ObjectId × CycleAction
  unfolding compare_sha is_cooled_down send_state send_trigger_then_observation finish_cycle
      after_dispatch after_baseline
  handle_refreshed p r sha t =
      let diff = compare_sha same t.last_sha sha in
      if diff.trigger
      then if is_cooled_down t.last_dispatched_at r.now p.cooldown
        then after_dispatch p diff.observed r.now (
            send_trigger_then_observation (some (sha, r.now))
              (poll_observation p.flow_name sha r.now (some r.now)
                (Option.map (λ d. r.now + d) (from_std p.cooldown)))
              r.trigger_send r.writer_alive t)
        else finish_cycle p (send_state r.writer_alive (poll_timestamp p.flow_name r.now) t)
      else after_baseline p diff.observed
          (send_state r.writer_alive (poll_observation p.flow_name sha r.now none none) t)

  abbrev pub handle_outcome :
      PollParams
      → Round ObjectId
      → PollResult ObjectId
      → Poller ObjectId
      → Poller ObjectId × CycleAction
  handle_outcome p r PollResult.cancelled t = (t, return)
  handle_outcome p r (failed message) t = (note_error p r.error_at message t, continue)
  handle_outcome p r (ok (refreshed sha)) t = handle_refreshed p r sha t
  handle_outcome p r (ok unchanged) t = handle_unchanged p r t
  handle_outcome p r (ok unborn_ref) t = handle_unborn_ref p r t

  -- One round of the loop.
  unfoldable pub poll_round :
      PollParams → Round ObjectId → Poller ObjectId → Poller ObjectId × CycleAction
  poll_round p r t =
      if r.sleep_cancelled
      then (t, return)
      else if p.has_rate_bucket && r.rate_cancelled
      then (t, return)
      else let (result, cached) = poll_one p.strategy t.fingerprint r.upstream in
        handle_outcome p r result (record t { fingerprint = cached })

  -- The loop ends where a round returns; else it goes on with the next round.
  unfoldable pub run_with_executor :
      PollParams → List (Round ObjectId) → Poller ObjectId → Poller ObjectId × CycleAction
  run_with_executor p [] t = (t, continue)
  run_with_executor p (r ∷ rs) t =
      let (t', action) = poll_round p r t in
      let rest = run_with_executor p rs t' in if is_return action then (t', return) else rest
