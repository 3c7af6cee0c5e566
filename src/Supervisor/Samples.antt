-- ===== src/Supervisor/Samples.antt =====
-- One flow that is started, panics and is reloaded, and the supervisor's theorems at it.
use gcit.Base.{
  ℕ, true, none, some, [], ◌∷◌, ◌++◌, ◌≡◌, refl, arith, filter, if◌then◌else◌, ◌&&◌, ltb,
}
use gcit.Base.Dict.{lookup, contains_key, insert, remove, modify_or}
use gcit.Supervisor.Types.{poll, dispatcher, new_registry, Task, Supervisor, FlowConfig, running}
use gcit.Supervisor.Flows.{Setup, spawn_tasks, spawn_with, spawn_flow}
use gcit.Supervisor.Respawn.{
  handle_flow_exit, exited, handle_respawn_request, respawn, schedule, respawn_max_attempts,
  observe_exit, count_exit,
}
use gcit.Supervisor.Respawn.Counts.{IsCounted}
use gcit.Supervisor.Respawn.Gate.{
  spawns, exits, Reach, here, next, Reach-IsCounted, handle_respawn_request_gate, panic_of,
  RespawnedOnce, handle_flow_exit_both_panic,
}
use gcit.Supervisor.Reload.{
  run_reload, valid, apply_actions_to_registry, compute_actions, drain_until_kept,
  spawn_new_generation, remove_at, carry_out, finalize_reload, apply_actions, apply_action,
  cancel_all,
}
use gcit.Supervisor.Reload.Action.{Serde, by_name, compute_reload_actions}
use gcit.Supervisor.Reload.Stale.{run_reload_stale}
use gcit.Supervisor.Reload.Handles.{Settled}
use gcit.Supervisor.Reload.Plan.{keeps, compute_actions-Settled}

abbrev idle : Supervisor
idle = record {
  registry = new_registry;
  tasks = [];
  next_token = 0;
  cancelled = [];
  last_errors = [];
  asleep = [];
  flow_names = [];
  sent_removed = [];
}

abbrev ready : Setup
ready = record { notifiers = none; credentials = none; error_at = 0 }

abbrev kernel : FlowConfig ℕ ℕ
kernel = record {
  name = "kernel";
  enabled = true;
  url = "https://a.example/k";
  rest = 1;
  destination = [];
}

-- The same flow at another URL.
abbrev moved : FlowConfig ℕ ℕ
moved = record kernel { url = "https://b.example/k" }

abbrev serde : Serde ℕ ℕ
serde = record {
  flow_diff = λ url rest. some url;
  destination_json = λ d. some "mail";
  sort = λ texts. texts;
}

idle-IsCounted : IsCounted idle
unfolding lookup running filter
idle-IsCounted flow = refl

abbrev started : Supervisor
started = spawn_flow ready kernel idle

abbrev poll_task : Task
poll_task = record { flow = "kernel"; role = poll; token = 0 }

abbrev dispatcher_task : Task
dispatcher_task = record { flow = "kernel"; role = dispatcher; token = 0 }

-- The poll task panics and the dispatcher goes on.
abbrev half : Supervisor
half =
    handle_flow_exit 10 (exited (panic_of "kernel" poll "boom"))
      (record started { tasks = [] ++ (dispatcher_task ∷ []) })

half-Reach : Reach ℕ ℕ idle half
unfolding spawn_flow spawn_with spawn_tasks running filter
half-Reach =
    next (next here (spawns ready kernel (omega arith)))
      (exits 10 (panic_of "kernel" poll "boom") [] poll_task (dispatcher_task ∷ []) refl refl)

Reach-IsCounted_example : IsCounted half
Reach-IsCounted_example = Reach-IsCounted half-Reach idle-IsCounted

handle_respawn_request_gate_example :
    handle_respawn_request ready (kernel ∷ []) (record { flow = "kernel"; attempts = 0 }) half ≡ (
      if ltb 0 (running "kernel" half.tasks) && ltb 0 respawn_max_attempts
      then schedule (record { flow = "kernel"; attempts = 1 }) half
      else respawn ready (kernel ∷ []) "kernel" half)
handle_respawn_request_gate_example =
    handle_respawn_request_gate ready (kernel ∷ []) (record { flow = "kernel"; attempts = 0 }) half
      (Reach-IsCounted half-Reach idle-IsCounted)

abbrev live : Supervisor
live = spawn_tasks "kernel" idle

handle_flow_exit_both_panic_example :
    RespawnedOnce 10 "kernel" "boom"
      (record { cancel = 0 })
      live
      (handle_flow_exit 11
        (exited (panic_of "kernel" dispatcher "cancelled"))
        (handle_flow_exit 10 (exited (panic_of "kernel" poll "boom")) live))
unfolding spawn_tasks lookup insert remove
handle_flow_exit_both_panic_example =
    handle_flow_exit_both_panic 10 11 "kernel" "boom" "cancelled" poll dispatcher
      (record { cancel = 0 }) live refl refl

compute_actions-Settled_example :
    Settled "kernel"
      (record { cancel = 0 })
      (keeps serde
        (lookup "kernel" (by_name (moved ∷ []) []))
        (lookup "kernel" (by_name (kernel ∷ []) [])))
      (apply_actions_to_registry
        (compute_actions serde (kernel ∷ []) (moved ∷ []) live.registry)
        live).1
unfolding spawn_tasks lookup insert remove
compute_actions-Settled_example =
    compute_actions-Settled serde (kernel ∷ []) (moved ∷ []) live "kernel" (record { cancel = 0 })
      refl

-- A reload with the flow moved: both old tasks exit in the drain.
abbrev reloaded : Supervisor
reloaded = (run_reload serde (λ _. ready) (0 ∷ 0 ∷ []) (valid (moved ∷ [])) (kernel ∷ [], live)).1

run_reload_stale_example :
    handle_respawn_request ready (moved ∷ []) (record { flow = "kernel"; attempts = 0 }) reloaded
    ≡ schedule (record { flow = "kernel"; attempts = 1 }) reloaded
unfolding spawn_tasks contains_key lookup insert remove modify_or run_reload
run_reload_stale_example =
    run_reload_stale "kernel" serde (λ _. ready) (0 ∷ 0 ∷ []) (valid (moved ∷ [])) (kernel ∷ [])
      live 0 refl (omega arith)

program : Unit {0}
unfolding run_reload spawn_tasks spawn_with spawn_flow contains_key lookup insert remove modify_or
    filter running apply_actions_to_registry compute_actions drain_until_kept spawn_new_generation
    remove_at carry_out finalize_reload apply_actions apply_action cancel_all by_name
    compute_reload_actions handle_flow_exit observe_exit count_exit
program = tt

-- The two new tasks exit too: no task is left, and two exits are waited for.
abbrev quiet : Supervisor
quiet = handle_flow_exit 21 (exited (record { flow = "kernel"; role = dispatcher; panic = none })) (
    handle_flow_exit 20 (exited (record { flow = "kernel"; role = poll; panic = none }))
      (record reloaded { tasks = [] }))

reloaded_tasks : running "kernel" reloaded.tasks ≡ 2
unfolding program
reloaded_tasks = refl

quiet_waits : lookup "kernel" quiet.registry.pending_exits ≡ some 2
unfolding program
quiet_waits = refl
