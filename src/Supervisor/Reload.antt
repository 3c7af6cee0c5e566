-- ===== src/Supervisor/Reload.antt =====
-- src/flow/supervisor/reload/apply.rs: what a reload does to the running flows. The maps' order is
-- left out: the actions come one for each name, in some order. The notifications of systemd and the
-- pool of credentials are left out; `sent_removed` lists the `FlowRemoved` that the writer is sent.
pub mod Action
pub mod Handles
pub mod Settle
pub mod Plan
pub mod Stale
use gcit.Base.{
  ℕ, String, Bool, true, false, Option, none, some, List, [], ◌∷◌, ◌++◌, ◌*◌, length, ltb, map,
  if◌then◌else◌,
}
use gcit.Base.Dict.{Dict, lookup, insert, remove, contains_key}
use gcit.State.Types.{DateTime}
use gcit.LastError.{record_last_error}
use gcit.Supervisor.Types.{FlowHandle, FlowRegistry, Task, Supervisor, FlowConfig, cancel_token}
use gcit.Supervisor.Flows.{Setup, spawn_flow}
use gcit.Supervisor.Respawn.{publish_names}
use gcit.Supervisor.Reload.Action.{Serde, ReloadAction, by_name, compute_reload_actions}

pub record ReloadPlan : Type 0 where
  pub to_keep : Dict (Unit {0})
  pub url_resets : List String
  pub removed_flows : List String

-- The plan so far, the handles not yet spoken of, and the supervisor.
pub record Planning : Type 0 where
  pub plan : ReloadPlan
  pub drained : Dict FlowHandle
  pub supervisor : Supervisor

-- `if let Some(handle) = drained.remove(name) { handle.cancel.cancel() }`
abbrev pub cancel_found : Option FlowHandle → Supervisor → Supervisor
cancel_found none d = d
cancel_found (some handle) d = cancel_token handle.cancel d

unfoldable pub cancel_drained : String → Planning → Planning
cancel_drained name p = record p {
  drained = remove name p.drained;
  supervisor = cancel_found (lookup name p.drained) p.supervisor;
}

-- `if let Some(handle) = drained.remove(name) { registry.handles.insert(name, handle) }`
abbrev pub keep_found : String → Option FlowHandle → Supervisor → Supervisor
keep_found name none d = d
keep_found name (some handle) d = record d {
  registry = record d.registry { handles = insert name handle d.registry.handles };
}

abbrev pub forget_respawn : String → Supervisor → Supervisor
forget_respawn name d = record d {
  registry = record d.registry { respawning_flows = remove name d.registry.respawning_flows };
}

unfoldable pub plan_removed : String → Planning → Planning
plan_removed name p = record p {
  plan = record p.plan { removed_flows = p.plan.removed_flows ++ (name ∷ []) };
  supervisor = forget_respawn name p.supervisor;
}

unfoldable pub plan_reset : String → Bool → Planning → Planning
plan_reset name url_changed p = record p {
  plan = record p.plan {
    url_resets = if url_changed then p.plan.url_resets ++ (name ∷ []) else p.plan.url_resets;
  };
  supervisor = forget_respawn name p.supervisor;
}

unfoldable pub plan_keep : String → Planning → Planning
plan_keep name p = record p {
  plan = record p.plan { to_keep = insert name tt p.plan.to_keep };
  drained = remove name p.drained;
  supervisor = keep_found name (lookup name p.drained) p.supervisor;
}

unfoldable pub apply_action : ReloadAction → Planning → Planning
unfolding plan_keep plan_removed plan_reset cancel_drained
apply_action (ReloadAction.keep name) p = plan_keep name p
apply_action (ReloadAction.remove name true) p = plan_removed name (cancel_drained name p)
apply_action (ReloadAction.remove name false) p = plan_removed name p
apply_action (ReloadAction.disable name url_changed) p =
    plan_reset name url_changed (cancel_drained name p)
apply_action (ReloadAction.restart name url_changed) p =
    plan_reset name url_changed (cancel_drained name p)
apply_action (ReloadAction.spawn _) p = p

unfoldable pub apply_actions : List ReloadAction → Planning → Planning
apply_actions [] p = p
apply_actions (a ∷ actions) p = apply_actions actions (apply_action a p)

-- `for (_name, handle) in drained { handle.cancel.cancel() }`
unfoldable pub cancel_all : Dict FlowHandle → Supervisor → Supervisor
cancel_all [] d = d
cancel_all (e ∷ m) d = cancel_all m (cancel_token e.value.cancel d)

abbrev pub take_handles : Supervisor → Planning
take_handles d = record {
  plan = record { to_keep = []; url_resets = []; removed_flows = [] };
  drained = d.registry.handles;
  supervisor = record d { registry = record d.registry { handles = [] } };
}

abbrev pub finish_planning : Planning → ReloadPlan × Supervisor
unfolding cancel_all
finish_planning p = (p.plan, cancel_all p.drained p.supervisor)

unfoldable pub apply_actions_to_registry : List ReloadAction → Supervisor → ReloadPlan × Supervisor
unfolding apply_actions finish_planning
apply_actions_to_registry actions d = finish_planning (apply_actions actions (take_handles d))

-- The tasks that exit in the drain, each known by its place among the tasks that are left; the list
-- ends where the drain times out.
unfoldable pub remove_at {ℓ} : {A : Type ℓ} → ℕ → List A → List A
remove_at n [] = []
remove_at ℕ.zero (x ∷ xs) = xs
remove_at (ℕ.suc n) (x ∷ xs) = x ∷ remove_at n xs

unfoldable pub drain_until_kept : ℕ → List ℕ → List Task → List Task
unfolding remove_at
drain_until_kept kept_task_count [] tasks = tasks
drain_until_kept kept_task_count (n ∷ exits) tasks =
    let rest = drain_until_kept kept_task_count exits (remove_at n tasks) in
    if ltb kept_task_count (length tasks) then rest else tasks

module _ {Rest Destination : Type 0} where
  unfoldable pub spawn_new_generation :
      (String → Setup)
      → Dict (Unit {0})
      → List (FlowConfig Rest Destination)
      → Supervisor
      → Supervisor
  unfolding spawn_flow
  spawn_new_generation setup to_keep [] d = d
  spawn_new_generation setup to_keep (flow ∷ flows) d = spawn_new_generation setup to_keep flows (
      if flow.enabled
      then if contains_key flow.name to_keep
        then d
        else spawn_flow (setup flow.name) flow (forget_respawn flow.name d)
      else d)

-- `config::load`: the flows of the new file, or the errors, joined.
pub data Loaded (Rest Destination : Type 0) : Type 0 where
  invalid : (at : DateTime) (errors : String) → Loaded Rest Destination
  valid : (flows : List (FlowConfig Rest Destination)) → Loaded Rest Destination

abbrev pub reload_synthetic_key : String
reload_synthetic_key = "(reload)"

unfoldable pub finalize_reload : Supervisor → Supervisor
finalize_reload d =
    publish_names (record d { last_errors = remove reload_synthetic_key d.last_errors })

module _ {Rest Destination : Type 0} (serde : Serde Rest Destination) where
  unfoldable pub compute_actions :
      List (FlowConfig Rest Destination)
      → List (FlowConfig Rest Destination)
      → FlowRegistry
      → List ReloadAction
  unfolding by_name compute_reload_actions
  compute_actions old new registry =
      compute_reload_actions serde (by_name old []) (by_name new []) registry.handles

  -- After the plan: the drain, the removals, the new tasks.
  unfoldable pub carry_out :
      (String → Setup)
      → List ℕ
      → List (FlowConfig Rest Destination)
      → ReloadPlan × Supervisor
      → Supervisor
  unfolding drain_until_kept spawn_new_generation finalize_reload
  carry_out setup exits new (plan, d) =
      let drained : Supervisor = record d {
        tasks = drain_until_kept (length plan.to_keep * 2) exits d.tasks;
        sent_removed = d.sent_removed ++ plan.removed_flows ++ plan.url_resets;
      } in
      finalize_reload (spawn_new_generation setup plan.to_keep new drained)

  -- The configuration in force, and the supervisor.
  unfoldable pub run_reload :
      (String → Setup)
      → List ℕ
      → Loaded Rest Destination
      → List (FlowConfig Rest Destination) × Supervisor
      → List (FlowConfig Rest Destination) × Supervisor
  unfolding record_last_error compute_actions apply_actions_to_registry carry_out
  run_reload setup exits (invalid at errors) (old, d) = (
    old,
    record d {
      last_errors =
          record_last_error at reload_synthetic_key "config_reload" errors none d.last_errors;
    },
  )
  run_reload setup exits (valid new) (old, d) = (
    new,
    carry_out setup exits new (apply_actions_to_registry (compute_actions old new d.registry) d),
  )
