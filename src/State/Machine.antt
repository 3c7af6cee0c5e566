-- ===== src/State/Machine.antt =====
-- The specification of src/state/apply.rs: one machine for each flow, over an entry that may be
-- missing, with no map around it.
use gcit.Base.{String, Option, none, some, List, [], ◌∷◌, if◌then◌else◌, unwrap_or, str_eq}
use gcit.State.Types.{
  FlowState, default_flow, StateUpdate, poll_observation, poll_timestamp, run_started, run_finished,
  flow_removed,
}
use gcit.State.Apply.{observe, touch, start_run, finish_run}

module _ {ObjectId : Type 0} where
  -- The flow that an update names.
  abbrev pub flow_of : StateUpdate ObjectId → String
  flow_of (poll_observation flow _ _ _ _) = flow
  flow_of (poll_timestamp flow _) = flow
  flow_of (run_started flow _ _) = flow
  flow_of (run_finished flow _ _ _) = flow
  flow_of (flow_removed flow) = flow

module _ {ObjectId : Type 0} (to_hex : ObjectId → String) where
  abbrev pub step_flow : StateUpdate ObjectId → Option FlowState → Option FlowState
  step_flow (poll_observation _ sha at dispatched until) e =
      some (observe (to_hex sha) at dispatched until (unwrap_or e default_flow))
  step_flow (poll_timestamp _ at) e = some (touch at (unwrap_or e default_flow))
  step_flow (run_started _ run_id at) e = some (start_run run_id at (unwrap_or e default_flow))
  step_flow (run_finished _ run_id conclusion at) none = none
  step_flow (run_finished _ run_id conclusion at) (some entry) =
      some (finish_run run_id conclusion at entry)
  step_flow (flow_removed _) e = none

  -- The updates that name the flow, in order.
  unfoldable pub run_flow :
      String → List (StateUpdate ObjectId) → Option FlowState → Option FlowState
  run_flow g [] e = e
  run_flow g (u ∷ us) e = run_flow g us (if str_eq (flow_of u) g then step_flow u e else e)
