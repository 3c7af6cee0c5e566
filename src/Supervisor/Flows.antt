-- ===== src/Supervisor/Flows.antt =====
-- src/flow/supervisor/flows/mod.rs: how a flow's two tasks are spawned. The notifiers, the
-- credentials and the parameters of the tasks rest on other crates: `Setup` says what becomes of
-- them.
use Prim.Native.String.{◌++◌ as append}
use gcit.Base.{ℕ, String, Option, none, some, List, [], ◌∷◌, ◌++◌, ◌+◌, ◌%◌, if◌then◌else◌}
use gcit.Base.Dict.{insert, modify_or}
use gcit.State.Types.{DateTime}
use gcit.LastError.{record_last_error}
use gcit.Supervisor.Types.{FlowRole, poll, dispatcher, FlowExit, Task, Supervisor, FlowConfig}

-- What building the notifiers and getting the credentials of a flow gives: an error, or `none`
-- where they are there; and the clock when an error is recorded.
pub record Setup : Type 0 where
  pub notifiers : Option String
  pub credentials : Option String
  pub error_at : DateTime

-- `flow_exit_from_result`: a task that unwound carries its panic message.
abbrev pub flow_exit_from_result : Option String → String → FlowRole → FlowExit
flow_exit_from_result none flow role = record { flow = flow; role = role; panic = none }
flow_exit_from_result (some message) flow role = record {
  flow = flow;
  role = role;
  panic = some message;
}

unfoldable pub record_setup_failure_and_skip :
    DateTime → String → String → String → Supervisor → Supervisor
unfolding record_last_error
record_setup_failure_and_skip at flow kind err d = record d {
  last_errors =
      record_last_error at flow kind (append "flow `" (append flow (append "`: " err))) none
        d.last_errors;
}

-- `pending_exits[flow] += 2`, in a `u8`.
abbrev pub add_pair : ℕ → ℕ
add_pair n = (n + 2) % 256

-- The poll task, the dispatcher task, the handle with their token, and the two exits to come.
unfoldable pub spawn_tasks : String → Supervisor → Supervisor
spawn_tasks flow d =
    let token = d.next_token in
    let poll_task : Task = record { flow = flow; role = poll; token = token } in
    let dispatcher_task : Task = record { flow = flow; role = dispatcher; token = token } in
    record d {
      next_token = token + 1;
      tasks = d.tasks ++ (poll_task ∷ dispatcher_task ∷ []);
      registry = record d.registry {
        handles = insert flow (record { cancel = token }) d.registry.handles;
        pending_exits = modify_or 0 add_pair flow d.registry.pending_exits;
      };
    }

-- After the notifiers: the credentials.
unfoldable pub spawn_with : DateTime → String → Option String → Supervisor → Supervisor
unfolding spawn_tasks
spawn_with at flow (some e) d = record_setup_failure_and_skip at flow "credential" e d
spawn_with at flow none d = spawn_tasks flow d

abbrev pub spawn_after : Setup → String → Option String → Supervisor → Supervisor
spawn_after setup flow (some e) d =
    record_setup_failure_and_skip setup.error_at flow "notifier_setup" e d
spawn_after setup flow none d = spawn_with setup.error_at flow setup.credentials d

module _ {Rest Destination : Type 0} where
  unfoldable pub spawn_flow : Setup → FlowConfig Rest Destination → Supervisor → Supervisor
  spawn_flow setup flow d = spawn_after setup flow.name setup.notifiers d

  unfoldable pub spawn_initial_flows :
      (String → Setup) → List (FlowConfig Rest Destination) → Supervisor → Supervisor
  unfolding spawn_flow
  spawn_initial_flows setup [] d = d
  spawn_initial_flows setup (flow ∷ flows) d =
      spawn_initial_flows setup flows
        (if flow.enabled then spawn_flow (setup flow.name) flow d else d)
