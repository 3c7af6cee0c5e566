-- ===== src/Poll/Loop/Spacing.antt =====
-- src/flow/poll/loop_.rs: when a task dispatches, what it sends with a dispatch, and how its variables
-- stand to the state.
use mathlib.Core.Option
use gcit.Base.{String, Option, List, [], ◌++◌, ◌≡◌, sym, ap, ◌∙◌, subst, true, false, none, not}
use gcit.Base.Dict.{lookup}
use gcit.State.Types.{State}
use gcit.State.Apply.{apply_all}
use gcit.State.Latest.{
  field_of, resolve, latest, sha_verdict, dispatch_verdict, apply_all_last_writer,
}
use gcit.Poll.Strategy.{Duration}
use gcit.Poll.Send.{Poller}
use gcit.Poll.Loop.{PollParams, Round, CycleAction, continue, return, is_return, run_with_executor}
use gcit.Poll.Loop.Messages.{IsSpaced, trigger_times, updates, IsAnnounced}
use gcit.Poll.Loop.Summary.{Sends, Summary, run_Summary}

module _ {ObjectId : Type 0} (to_hex : ObjectId → String) (p : PollParams) (t : Poller ObjectId)
    (fresh : t.log ≡ []) where
  -- Of a task that had sent nothing, a summary counts the whole log.
  whole_log :
      (out : Poller ObjectId × CycleAction)
      → Summary to_hex p t out
      → Sends to_hex p t out.0.log out.0 (not (is_return out.1))
  whole_log (t', continue) (new, s) =
      let e = s.log_is ∙ ap (λ k. k ++ new) fresh in
      subst (λ l. Sends to_hex p t l t' true) (sym e) s
  whole_log (t', return) (new, s) =
      let e = s.log_is ∙ ap (λ k. k ++ new) fresh in
      subst (λ l. Sends to_hex p t l t' false) (sym e) s

module _ {ObjectId : Type 0} (same : Discrete ObjectId) (from_std : Duration → Option Duration)
    (p : PollParams) (rs : List (Round ObjectId)) (t : Poller ObjectId) (fresh : t.log ≡ []) where
  abbrev out : Poller ObjectId × CycleAction
  out = run_with_executor same from_std p rs t

  sends : (to_hex : ObjectId → String) → Sends to_hex p t out.0.log out.0 (not (is_return out.1))
  sends to_hex = whole_log to_hex p t fresh out (run_Summary to_hex p same from_std rs t)

  -- The times at which a task that had sent nothing dispatches, whatever its remote and its
  -- channels do: each is at least the cooldown after the one before, the first after the time
  -- that the task was started with, or the clock was set back behind that one.
  pub run_with_executor-IsSpaced :
      IsSpaced p.cooldown t.last_dispatched_at (trigger_times out.0.log)
  run_with_executor-IsSpaced = (sends (λ _. "")).spaced

  -- In all that a task that had sent nothing sends, an observation that arms the cooldown stands
  -- directly behind the trigger with its sha and its time.
  pub run_with_executor-IsAnnounced : IsAnnounced none out.0.log
  run_with_executor-IsAnnounced = (sends (λ _. "")).announced

  -- Started, with nothing sent, from what the state holds for its flow, a task that is still
  -- running has in its variables what the state holds once the updates that it sent are applied:
  -- the last sha and the time of the last dispatch.
  pub run_with_executor_coherent :
      (to_hex : ObjectId → String) (s : State)
      → field_of (λ f. f.last_sha) (lookup p.flow_name s.flows) ≡ Option.map to_hex t.last_sha
      → field_of (λ f. f.last_dispatched_at) (lookup p.flow_name s.flows) ≡ t.last_dispatched_at
      → is_return out.1 ≡ false
      → let s' = apply_all to_hex s (updates out.0.log) in
        (field_of (λ f. f.last_sha) (lookup p.flow_name s'.flows)
          ≡ Option.map to_hex out.0.last_sha)
        × (field_of (λ f. f.last_dispatched_at) (lookup p.flow_name s'.flows)
            ≡ out.0.last_dispatched_at)
  run_with_executor_coherent to_hex s sha dispatched running =
      let facts = apply_all_last_writer to_hex s (updates out.0.log) p.flow_name in
      let going = ap not running in
      (
        facts.0
            ∙ ap (resolve (latest (sha_verdict to_hex) p.flow_name (updates out.0.log))) sha
            ∙ sym ((sends to_hex).sha_is going),
        facts.2
            ∙ ap (resolve (latest dispatch_verdict p.flow_name (updates out.0.log))) dispatched
            ∙ sym ((sends to_hex).dispatched_is going),
      )
