-- ===== src/Supervisor/Respawn/Gate.antt =====
-- src/flow/supervisor/respawn: when a request is put off, and what two panics of one flow come to.
use gcit.Base.{
  ◌+◌, ◌<◌, String, none, some, List, [], ◌∷◌, ◌++◌, ◌≡◌, refl, sym, ap, ◌∙◌, if◌then◌else◌, ◌&&◌,
  ltb, arith, str_eq_refl, is_some, subst,
}
use gcit.Base.Dict.{Dict, insert, remove, lookup, contains_key, lookup-insert, lookup-remove}
use gcit.State.Types.{DateTime}
use gcit.LastError.{record_last_error}
use gcit.Supervisor.Types.{
  FlowRole, FlowHandle, FlowExit, Task, RespawnRequest, Supervisor, FlowConfig, running,
}
use gcit.Supervisor.Flows.{Setup, spawn_flow}
use gcit.Supervisor.Respawn.{
  respawn_max_attempts, schedule, exited, handle_flow_exit, handle_respawn_request, respawn,
  observe_exit, cancel_handle, cancel_flow, mark_respawning, first_panic, act_on_exit,
  decide_respawn, panic_duplicate, panic_first,
}
use gcit.Supervisor.Respawn.Counts.{
  IsCounted, handle_flow_exit-IsCounted, handle_respawn_request-IsCounted, spawn_flow-IsCounted,
}

-- One event of the supervisor's loop, reloads and control commands left out: a flow is spawned, a
-- running task exits, or a request that is due comes back. A `u8` has room for the pair to come.
pub data Step (Rest Destination : Type 0) : Supervisor → Supervisor → Type 0 where
  spawns :
      {d : Supervisor} (setup : Setup) (flow : FlowConfig Rest Destination)
      → running flow.name d.tasks < 254
      → Step Rest Destination d (spawn_flow setup flow d)
  exits :
      {d : Supervisor} (now : DateTime) (exit : FlowExit) (before : List Task) (t : Task)
      (after : List Task)
      → t.flow ≡ exit.flow
      → d.tasks ≡ before ++ (t ∷ after)
      → Step Rest Destination d
          (handle_flow_exit now (exited exit) (record d { tasks = before ++ after }))
  wakes :
      {d : Supervisor} (setup : Setup) (flows : List (FlowConfig Rest Destination))
      (before : List RespawnRequest) (req : RespawnRequest) (after : List RespawnRequest)
      → d.asleep ≡ before ++ (req ∷ after)
      → ((g : String) → running g d.tasks < 254)
      → Step Rest Destination d
          (handle_respawn_request setup flows req (record d { asleep = before ++ after }))

pub data Reach (Rest Destination : Type 0) (d : Supervisor) : Supervisor → Type 0 where
  here : Reach Rest Destination d d
  next :
      {d' d'' : Supervisor}
      → Reach Rest Destination d d'
      → Step Rest Destination d' d''
      → Reach Rest Destination d d''

Step-IsCounted :
    {Rest Destination : Type 0} {d d' : Supervisor}
    → Step Rest Destination d d'
    → IsCounted d
    → IsCounted d'
Step-IsCounted (spawns setup flow room) counted = spawn_flow-IsCounted setup flow _ room counted
Step-IsCounted (exits now exit before t after same e) counted =
    handle_flow_exit-IsCounted now exit before t after _ same e counted
Step-IsCounted (wakes setup flows before req after e room) counted =
    handle_respawn_request-IsCounted setup flows req _ room counted

-- Where the registry counts, for each flow, as many exits to come as tasks of it run, with no
-- entry where none does, it still does after any flows are spawned, any running tasks exit or
-- panic and any requests wake, with no reload between and fewer than 254 tasks of each flow where
-- a task may be spawned.
pub Reach-IsCounted :
    {Rest Destination : Type 0} {d d' : Supervisor}
    → Reach Rest Destination d d'
    → IsCounted d
    → IsCounted d'
Reach-IsCounted here counted = counted
Reach-IsCounted (next r s) counted = Step-IsCounted s (Reach-IsCounted r counted)

module _ {Rest Destination : Type 0} where
  -- Where the counts are those of the running tasks, a respawn request of fewer than thirty
  -- attempts is put off, with one attempt more, as long as a task of its flow runs; and in every
  -- other case it goes through.
  pub handle_respawn_request_gate :
      (setup : Setup) (flows : List (FlowConfig Rest Destination)) (req : RespawnRequest)
      (d : Supervisor)
      → IsCounted d
      → handle_respawn_request setup flows req d ≡ (
          if ltb 0 (running req.flow d.tasks) && ltb req.attempts respawn_max_attempts
          then schedule (record { flow = req.flow; attempts = req.attempts + 1 }) d
          else respawn setup flows req.flow d)
  unfolding handle_respawn_request contains_key
  handle_respawn_request_gate setup flows req d counted = ground (arith, counted req.flow)

abbrev pub panic_of : String → FlowRole → String → FlowExit
panic_of flow role message = record { flow = flow; role = role; panic = some message }

after_first : DateTime → String → String → FlowHandle → Supervisor → Supervisor
unfolding observe_exit record_last_error
after_first now flow message handle d =
    let counted = observe_exit flow d in
    schedule (record { flow = flow; attempts = 0 })
      (cancel_handle flow (some handle) (
        mark_respawning flow (record counted {
          last_errors = record_last_error now flow "panic" message none d.last_errors;
        })))

first_panic_lem :
    (now : DateTime) (flow message : String) (role : FlowRole) (handle : FlowHandle)
    (d : Supervisor)
    → lookup flow d.registry.handles ≡ some handle
    → lookup flow d.registry.respawning_flows ≡ none
    → handle_flow_exit now (exited (panic_of flow role message)) d
      ≡ after_first now flow message handle d
unfolding handle_flow_exit after_first decide_respawn first_panic cancel_flow contains_key
first_panic_lem now flow message role handle d live calm =
    ap
      (λ r.
        act_on_exit now (panic_of flow role message)
          (if is_some r then panic_duplicate else panic_first) (observe_exit flow d))
      calm
    ∙ ap
        (λ h.
          schedule (record { flow = flow; attempts = 0 })
            (cancel_handle flow h (
              mark_respawning flow (record (observe_exit flow d) {
                last_errors = record_last_error now flow "panic" message none d.last_errors;
              }))))
        live

cascade_lem :
    (now : DateTime) (flow message : String) (role : FlowRole) (d : Supervisor)
    → lookup flow d.registry.respawning_flows ≡ some tt
    → handle_flow_exit now (exited (panic_of flow role message)) d ≡ observe_exit flow d
unfolding handle_flow_exit observe_exit decide_respawn contains_key
cascade_lem now flow message role d busy =
    ap
      (λ r.
        act_on_exit now (panic_of flow role message)
          (if is_some r then panic_duplicate else panic_first) (observe_exit flow d))
      busy

lookup-insert_self {ℓ} :
    {V : Type ℓ} (k : String) (v : V) (m : Dict V) → lookup k (insert k v m) ≡ some v
lookup-insert_self k v m =
    lookup-insert k k v m ∙ ap (λ b. if b then some v else lookup k m) (str_eq_refl k)

lookup-remove_self {ℓ} : {V : Type ℓ} (k : String) (m : Dict V) → lookup k (remove k m) ≡ none
lookup-remove_self k m =
    lookup-remove k k m ∙ ap (λ b. if b then none else lookup k m) (str_eq_refl k)

-- What two panics of one flow leave of it.
abbrev pub RespawnedOnce :
    DateTime → String → String → FlowHandle → Supervisor → Supervisor → Type 0
RespawnedOnce now flow root_cause handle d d' =
    (d'.asleep ≡ d.asleep ++ (record { flow = flow; attempts = 0 } ∷ []))
    × (d'.cancelled ≡ handle.cancel ∷ d.cancelled)
    × (lookup flow d'.registry.handles ≡ none)
    × (lookup flow d'.last_errors
        ≡ some (record { at = now; kind = "panic"; message = root_cause; retry_at = none }))

-- Where both tasks of a flow panic, one after the other, the flow having a handle and no respawn
-- pending, one request is scheduled, the handle is gone and its token cancelled once, and the
-- last error is the first panic.
pub handle_flow_exit_both_panic :
    (now later : DateTime) (flow root_cause cascade : String) (one other : FlowRole)
    (handle : FlowHandle) (d : Supervisor)
    → lookup flow d.registry.handles ≡ some handle
    → lookup flow d.registry.respawning_flows ≡ none
    → RespawnedOnce now flow root_cause handle d (
        handle_flow_exit later
          (exited (panic_of flow other cascade))
          (handle_flow_exit now (exited (panic_of flow one root_cause)) d))
unfolding after_first observe_exit record_last_error
handle_flow_exit_both_panic now later flow root_cause cascade one other handle d live calm =
    subst (RespawnedOnce now flow root_cause handle d)
      (sym (
        ap (handle_flow_exit later (exited (panic_of flow other cascade)))
          (first_panic_lem now flow root_cause one handle d live calm)
        ∙ cascade_lem later flow cascade other (after_first now flow root_cause handle d)
            (lookup-insert_self flow tt d.registry.respawning_flows)))
      (
        refl,
        refl,
        lookup-remove_self flow d.registry.handles,
        lookup-insert_self flow _ d.last_errors,
      )
