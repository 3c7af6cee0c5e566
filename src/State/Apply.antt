-- ===== src/State/Apply.antt =====
-- src/state/apply.rs: `State::apply` and its five handlers. The warnings that the handlers log are
-- left out.
use gcit.Base.{
  ℕ, ◌-◌, String, Bool, Option, none, some, List, [], ◌∷◌, ◌++◌, ltb, ◌==◌, if◌then◌else◌, is_some,
  length, drop, any, extract,
}
use gcit.Base.Dict.{lookup, insert, remove, modify_or}
use gcit.State.Types.{
  DateTime, notified_runs_cap, RunState, FlowState, default_flow, State, StateUpdate,
  poll_observation, poll_timestamp, run_started, run_finished, flow_removed,
}

abbrev pub has_id : ℕ → RunState → Bool
has_id run_id r = r.run_id == run_id

-- What `apply_poll_observation` writes into the flow's entry.
unfoldable pub observe :
    String → DateTime → Option DateTime → Option DateTime → FlowState → FlowState
observe sha at dispatched until entry = record entry {
  last_sha = some sha;
  last_poll_at = some at;
  last_dispatched_at = if is_some dispatched then dispatched else entry.last_dispatched_at;
  cooldown_until = if is_some until then until else entry.cooldown_until;
}

unfoldable pub apply_poll_observation :
    String → String → DateTime → Option DateTime → Option DateTime → State → State
unfolding observe
apply_poll_observation flow sha at dispatched until s = record s {
  flows = modify_or default_flow (observe sha at dispatched until) flow s.flows;
}

abbrev pub touch : DateTime → FlowState → FlowState
touch at entry = record entry { last_poll_at = some at }

unfoldable pub apply_poll_timestamp : String → DateTime → State → State
apply_poll_timestamp flow at s = record s { flows = modify_or default_flow (touch at) flow s.flows }

-- A run that is already active is not appended again.
unfoldable pub start_run : ℕ → DateTime → FlowState → FlowState
start_run run_id at entry =
    let run : RunState = record {
      run_id = run_id;
      started_at = at;
      conclusion = none;
      completed_at = none;
    } in
    if any (has_id run_id) entry.active_runs
    then entry
    else record entry { active_runs = entry.active_runs ++ (run ∷ []) }

unfoldable pub apply_run_started : String → ℕ → DateTime → State → State
unfolding start_run
apply_run_started flow run_id at s = record s {
  flows = modify_or default_flow (start_run run_id at) flow s.flows;
}

-- The oldest entries are drained once the list is longer than the cap.
unfoldable pub cap_notified : List RunState → List RunState
cap_notified runs =
    if ltb notified_runs_cap (length runs)
    then drop (length runs - notified_runs_cap) runs
    else runs

abbrev pub conclude : String → DateTime → RunState → RunState
conclude conclusion at run = record run { conclusion = some conclusion; completed_at = some at }

-- The entry of a known flow after `RunFinished`; `none` stands for a run that is not active.
abbrev pub move_run : String → DateTime → FlowState → Option (RunState × List RunState) → FlowState
move_run conclusion at entry none = entry
move_run conclusion at entry (some (run, rest)) = record entry {
  active_runs = rest;
  notified_runs = cap_notified (entry.notified_runs ++ (conclude conclusion at run ∷ []));
}

unfoldable pub finish_run : ℕ → String → DateTime → FlowState → FlowState
finish_run run_id conclusion at entry =
    move_run conclusion at entry (extract (has_id run_id) entry.active_runs)

unfoldable pub apply_run_finished : String → ℕ → String → DateTime → State → State
unfolding finish_run
apply_run_finished flow run_id conclusion at s = elim (lookup flow s.flows) [
  | none ↦ s
  | some entry ↦ record s { flows = insert flow (finish_run run_id conclusion at entry) s.flows }
]

unfoldable pub apply_flow_removed : String → State → State
apply_flow_removed flow s = record s { flows = remove flow s.flows }

module _ {ObjectId : Type 0} (to_hex : ObjectId → String) where
  unfoldable pub apply : State → StateUpdate ObjectId → State
  unfolding apply_poll_observation apply_poll_timestamp apply_run_started apply_run_finished
      apply_flow_removed
  apply s (poll_observation flow sha at dispatched until) =
      apply_poll_observation flow (to_hex sha) at dispatched until s
  apply s (poll_timestamp flow at) = apply_poll_timestamp flow at s
  apply s (run_started flow run_id at) = apply_run_started flow run_id at s
  apply s (run_finished flow run_id conclusion at) = apply_run_finished flow run_id conclusion at s
  apply s (flow_removed flow) = apply_flow_removed flow s

  -- The writer applies the updates of its channel in order.
  unfoldable pub apply_all : State → List (StateUpdate ObjectId) → State
  apply_all s [] = s
  apply_all s (u ∷ us) = apply_all (apply s u) us
