-- ===== src/Supervisor/Reload/Stale.antt =====
-- src/flow/supervisor/reload/apply.rs: the counts of the exits to come, across a reload.
use gcit.Base.{
  ℕ, ◌+◌, ◌<◌, String, true, false, Option, none, some, List, [], ◌∷◌, ◌≡◌, arith, eq_iff, if_ind,
}
use gcit.Base.Dict.{Dict, lookup, contains_key, lookup-modify_or}
use gcit.Supervisor.Types.{FlowHandle, Supervisor, FlowConfig}
use gcit.Supervisor.Flows.{
  Setup, spawn_flow, spawn_tasks, spawn_with, spawn_after, record_setup_failure_and_skip, add_pair,
}
use gcit.Supervisor.Respawn.{respawn_max_attempts, schedule, handle_respawn_request}
use gcit.Supervisor.Reload.{
  Planning, cancel_found, keep_found, apply_action, apply_actions, cancel_all, take_handles,
  apply_actions_to_registry, plan_keep, plan_removed, plan_reset, cancel_drained, finish_planning,
  forget_respawn, spawn_new_generation, finalize_reload, carry_out, run_reload, valid, invalid,
  Loaded, compute_actions,
}
use gcit.Supervisor.Reload.Action.{Serde, ReloadAction}

abbrev Awaits : String → Supervisor → Type 0
Awaits flow d = contains_key flow d.registry.pending_exits ≡ true

module _ (flow : String) where
  cancel_found-Awaits :
      (h : Option FlowHandle) (d : Supervisor) → Awaits flow d → Awaits flow (cancel_found h d)
  cancel_found-Awaits none d w = w
  cancel_found-Awaits (some h) d w = w

  keep_found-Awaits :
      (name : String) (h : Option FlowHandle) (d : Supervisor)
      → Awaits flow d
      → Awaits flow (keep_found name h d)
  keep_found-Awaits name none d w = w
  keep_found-Awaits name (some h) d w = w

  apply_action-Awaits :
      (a : ReloadAction) (p : Planning)
      → Awaits flow p.supervisor
      → Awaits flow (apply_action a p).supervisor
  unfolding apply_action plan_keep plan_removed plan_reset cancel_drained
  apply_action-Awaits (ReloadAction.keep name) p w =
      keep_found-Awaits name (lookup name p.drained) p.supervisor w
  apply_action-Awaits (ReloadAction.remove name true) p w =
      cancel_found-Awaits (lookup name p.drained) p.supervisor w
  apply_action-Awaits (ReloadAction.remove name false) p w = w
  apply_action-Awaits (ReloadAction.disable name c) p w =
      cancel_found-Awaits (lookup name p.drained) p.supervisor w
  apply_action-Awaits (ReloadAction.restart name c) p w =
      cancel_found-Awaits (lookup name p.drained) p.supervisor w
  apply_action-Awaits (ReloadAction.spawn name) p w = w

  apply_actions-Awaits :
      (actions : List ReloadAction) (p : Planning)
      → Awaits flow p.supervisor
      → Awaits flow (apply_actions actions p).supervisor
  unfolding apply_actions
  apply_actions-Awaits [] p w = w
  apply_actions-Awaits (a ∷ actions) p w =
      apply_actions-Awaits actions (apply_action a p) (apply_action-Awaits a p w)

  cancel_all-Awaits :
      (m : Dict FlowHandle) (d : Supervisor) → Awaits flow d → Awaits flow (cancel_all m d)
  unfolding cancel_all
  cancel_all-Awaits [] d w = w
  cancel_all-Awaits (e ∷ m) d w = cancel_all-Awaits m _ w

  apply_actions_to_registry-Awaits :
      (actions : List ReloadAction) (d : Supervisor)
      → Awaits flow d
      → Awaits flow (apply_actions_to_registry actions d).1
  unfolding apply_actions_to_registry finish_planning
  apply_actions_to_registry-Awaits actions d w =
      let p = apply_actions actions (take_handles d) in
      cancel_all-Awaits p.drained p.supervisor (apply_actions-Awaits actions (take_handles d) w)

  spawn_tasks-Awaits :
      (name : String) (d : Supervisor) → Awaits flow d → Awaits flow (spawn_tasks name d)
  unfolding spawn_tasks contains_key
  spawn_tasks-Awaits name d w =
      ground
        (arith, eq_iff name flow, w, lookup-modify_or 0 add_pair name flow d.registry.pending_exits)

  spawn_with-Awaits :
      (at : ℕ) (name : String) (c : Option String) (d : Supervisor)
      → Awaits flow d
      → Awaits flow (spawn_with at name c d)
  unfolding spawn_with record_setup_failure_and_skip
  spawn_with-Awaits at name none d w = spawn_tasks-Awaits name d w
  spawn_with-Awaits at name (some _) d w = w

  spawn_after-Awaits :
      (setup : Setup) (name : String) (n : Option String) (d : Supervisor)
      → Awaits flow d
      → Awaits flow (spawn_after setup name n d)
  unfolding record_setup_failure_and_skip
  spawn_after-Awaits setup name none d w =
      spawn_with-Awaits setup.error_at name setup.credentials d w
  spawn_after-Awaits setup name (some _) d w = w

module _ {Rest Destination : Type 0} (flow : String) where
  spawn_flow-Awaits :
      (setup : Setup) (config : FlowConfig Rest Destination) (d : Supervisor)
      → Awaits flow d
      → Awaits flow (spawn_flow setup config d)
  unfolding spawn_flow
  spawn_flow-Awaits setup config d w = spawn_after-Awaits flow setup config.name setup.notifiers d w

  spawn_new_generation-Awaits :
      (setup : String → Setup) (to_keep : Dict (Unit {0}))
      (flows : List (FlowConfig Rest Destination)) (d : Supervisor)
      → Awaits flow d
      → Awaits flow (spawn_new_generation setup to_keep flows d)
  unfolding spawn_new_generation
  spawn_new_generation-Awaits setup to_keep [] d w = w
  spawn_new_generation-Awaits setup to_keep (f ∷ flows) d w =
      spawn_new_generation-Awaits setup to_keep flows _ (
        if_ind (Awaits flow) f.enabled
          (λ _.
            if_ind (Awaits flow) (contains_key f.name to_keep) (λ _. w)
              (λ _. spawn_flow-Awaits (setup f.name) f (forget_respawn f.name d) w))
          (λ _. w))

  run_reload-Awaits :
      (serde : Serde Rest Destination) (setup : String → Setup) (exits : List ℕ)
      (loaded : Loaded Rest Destination) (old : List (FlowConfig Rest Destination)) (d : Supervisor)
      → Awaits flow d
      → Awaits flow (run_reload serde setup exits loaded (old, d)).1
  unfolding run_reload carry_out finalize_reload
  run_reload-Awaits serde setup exits (invalid at errors) old d w = w
  run_reload-Awaits serde setup exits (valid new) old d w =
      spawn_new_generation-Awaits setup _ new _
        (apply_actions_to_registry-Awaits flow (compute_actions serde old new d.registry) d w)

  -- A flow whose exits the registry waits for before a reload is waited for after it, whatever
  -- the reload does and whichever tasks exit in its drain: a request of fewer than thirty
  -- attempts that comes then is put off, also where no task of the flow is left.
  pub run_reload_stale :
      (serde : Serde Rest Destination) (setup : String → Setup) (exits : List ℕ)
      (loaded : Loaded Rest Destination) (old : List (FlowConfig Rest Destination)) (d : Supervisor)
      (attempts : ℕ)
      → contains_key flow d.registry.pending_exits ≡ true
      → attempts < respawn_max_attempts
      → let (flows, d') = run_reload serde setup exits loaded (old, d) in
        handle_respawn_request (setup flow) flows (record { flow = flow; attempts = attempts }) d'
        ≡ schedule (record { flow = flow; attempts = attempts + 1 }) d'
  unfolding handle_respawn_request
  run_reload_stale serde setup exits loaded old d attempts w few =
      let awaited = run_reload-Awaits serde setup exits loaded old d w in
      ground (arith, awaited, few)
