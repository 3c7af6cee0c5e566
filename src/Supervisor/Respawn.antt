-- ===== src/Supervisor/Respawn.antt =====
-- src/flow/supervisor/respawn: what the exit of a task does, and how a flow that panicked is
-- started again. A request that a spawned timer will send after its delay stands in `asleep`; the
-- daemon's shutdown, which drops the timers, is left out.
pub mod Counts
pub mod Gate
use gcit.Base.{
  ℕ, String, Bool, true, false, Option, none, some, List, [], ◌∷◌, ◌++◌, ◌+◌, ◌-◌, ◌==◌, leb,
  if◌then◌else◌, find, str_eq, map,
}
use gcit.Base.Dict.{Dict, Entry, lookup, insert, remove, contains_key}
use gcit.State.Types.{DateTime}
use gcit.LastError.{record_last_error}
use gcit.Supervisor.Types.{
  FlowHandle, FlowExit, FlowRegistry, RespawnRequest, Supervisor, cancel_token, FlowConfig,
}
use gcit.Supervisor.Flows.{Setup, spawn_flow}

abbrev pub respawn_max_attempts : ℕ
respawn_max_attempts = 30

pub data RespawnDecision : Type 0 where
  unexpected_join_error cancelled clean_exit panic_duplicate panic_first : RespawnDecision

-- `Result<FlowExit, JoinError>`
pub data Joined : Type 0 where
  exited : FlowExit → Joined
  join_error : (is_cancelled : Bool) → Joined

unfoldable pub decide_respawn : Joined → Bool → RespawnDecision
decide_respawn (join_error is_cancelled) already_respawning =
    if is_cancelled then cancelled else unexpected_join_error
decide_respawn (exited exit) already_respawning = elim exit.panic [
  | none ↦ clean_exit
  | some _ ↦ if already_respawning then panic_duplicate else panic_first
]

-- One exit less to wait for; the entry goes with the last of them.
unfoldable pub count_exit : String → Dict ℕ → Dict ℕ
count_exit flow m = elim (lookup flow m) [
  | none ↦ m
  | some count ↦ if (count - 1) == 0 then remove flow m else insert flow (count - 1) m
]

unfoldable pub observe_exit : String → Supervisor → Supervisor
unfolding count_exit
observe_exit flow d = record d {
  registry = record d.registry { pending_exits = count_exit flow d.registry.pending_exits };
}

abbrev pub drop_handle : String → Supervisor → Supervisor
drop_handle flow d = record d {
  registry = record d.registry { handles = remove flow d.registry.handles };
}

-- `handles.remove(flow)`, and the token of what was there is cancelled.
abbrev pub cancel_handle : String → Option FlowHandle → Supervisor → Supervisor
cancel_handle flow none d = d
cancel_handle flow (some handle) d = cancel_token handle.cancel (drop_handle flow d)

unfoldable pub cancel_flow : String → Supervisor → Supervisor
cancel_flow flow d = cancel_handle flow (lookup flow d.registry.handles) d

abbrev pub mark_respawning : String → Supervisor → Supervisor
mark_respawning flow d = record d {
  registry = record d.registry { respawning_flows = insert flow tt d.registry.respawning_flows };
}

abbrev pub schedule : RespawnRequest → Supervisor → Supervisor
schedule req d = record d { asleep = d.asleep ++ (req ∷ []) }

-- The first panic of a flow: record it, cancel the sibling, and ask for a respawn.
unfoldable pub first_panic : DateTime → String → String → Supervisor → Supervisor
unfolding record_last_error cancel_flow
first_panic now flow message d =
    let noted : Supervisor = record d {
      last_errors = record_last_error now flow "panic" message none d.last_errors;
    } in
    schedule (record { flow = flow; attempts = 0 }) (cancel_flow flow (mark_respawning flow noted))

abbrev pub on_first_panic : DateTime → String → Option String → Supervisor → Supervisor
on_first_panic now flow none d = d
on_first_panic now flow (some message) d = first_panic now flow message d

abbrev pub act_on_exit : DateTime → FlowExit → RespawnDecision → Supervisor → Supervisor
act_on_exit now exit clean_exit d = drop_handle exit.flow d
act_on_exit now exit panic_first d = on_first_panic now exit.flow exit.panic d
act_on_exit now exit unexpected_join_error d = d
act_on_exit now exit cancelled d = d
act_on_exit now exit panic_duplicate d = d

-- The task has left the `JoinSet` before.
unfoldable pub handle_flow_exit : DateTime → Joined → Supervisor → Supervisor
unfolding decide_respawn observe_exit first_panic
handle_flow_exit now (join_error is_cancelled) d = d
handle_flow_exit now (exited exit) d =
    let counted = observe_exit exit.flow d in
    act_on_exit now exit
      (decide_respawn (exited exit) (contains_key exit.flow counted.registry.respawning_flows))
      counted

-- `flow_names` follows the handles.
abbrev pub publish_names : Supervisor → Supervisor
publish_names d = record d { flow_names = map (λ e. e.key) d.registry.handles }

module _ {Rest Destination : Type 0} where
  unfoldable pub spawn_found :
      Setup → Option (FlowConfig Rest Destination) → Supervisor → Supervisor
  unfolding spawn_flow
  spawn_found setup none d = d
  spawn_found setup (some config) d =
      if config.enabled then publish_names (spawn_flow setup config d) else d

  -- Past the gate.
  unfoldable pub respawn :
      Setup → List (FlowConfig Rest Destination) → String → Supervisor → Supervisor
  unfolding spawn_found
  respawn setup flows flow d =
      let cleared : Supervisor = record d {
        registry = record d.registry { respawning_flows = remove flow d.registry.respawning_flows };
      } in
      if contains_key flow cleared.registry.handles
      then cleared
      else spawn_found setup (find (λ f. str_eq f.name flow) flows) cleared

  unfoldable pub handle_respawn_request :
      Setup → List (FlowConfig Rest Destination) → RespawnRequest → Supervisor → Supervisor
  unfolding respawn
  handle_respawn_request setup flows req d =
      if contains_key req.flow d.registry.pending_exits
      then if leb respawn_max_attempts req.attempts
        then respawn setup flows req.flow d
        else schedule (record { flow = req.flow; attempts = req.attempts + 1 }) d
      else respawn setup flows req.flow d
