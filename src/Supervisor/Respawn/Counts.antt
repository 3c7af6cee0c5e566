-- ===== src/Supervisor/Respawn/Counts.antt =====
-- src/flow/supervisor: the exits that the registry waits for, and the tasks that run.
use gcit.Base.{
  ℕ, suc, ◌+◌, ◌<◌, String, Option, none, some, List, [], ◌∷◌, ◌++◌, ◌≡◌, ap, ◌∙◌, subst,
  if◌then◌else◌, str_eq, eq_iff, arith, filter, ◌==◌, inl, inr, Bool-cases, find, str_eq_refl,
  if_ind, leb,
}
use gcit.Base.Dict.{Dict, lookup, contains_key, lookup-insert, lookup-remove, lookup-modify_or}
use gcit.State.Types.{DateTime}
use gcit.LastError.{record_last_error}
use gcit.Supervisor.Types.{
  FlowExit, FlowHandle, FlowRegistry, Task, RespawnRequest, Supervisor, FlowConfig, running,
  dispatcher, poll,
}
use gcit.Supervisor.Flows.{
  Setup, spawn_tasks, spawn_flow, add_pair, spawn_with, spawn_after, record_setup_failure_and_skip,
}
use gcit.Supervisor.Respawn.{
  count_exit, observe_exit, cancel_flow, first_panic, handle_flow_exit, exited, act_on_exit,
  RespawnDecision, unexpected_join_error, cancelled, clean_exit, panic_duplicate, panic_first,
  respawn, handle_respawn_request, decide_respawn, respawn_max_attempts, cancel_handle,
  on_first_panic, mark_respawning, spawn_found,
}

-- What the registry holds for a flow with so many tasks: no entry where there are none.
abbrev pub entry_of : ℕ → Option ℕ
entry_of n = if n == 0 then none else some n

abbrev pub Counted : FlowRegistry → List Task → Type 0
Counted r tasks = (flow : String) → lookup flow r.pending_exits ≡ entry_of (running flow tasks)

abbrev pub IsCounted : Supervisor → Type 0
IsCounted d = Counted d.registry d.tasks

pub running-append :
    (flow : String) (xs ys : List Task)
    → running flow (xs ++ ys) ≡ running flow xs + running flow ys
unfolding running filter
running-append flow [] ys = omega arith
running-append flow (x ∷ xs) ys = ground (arith, running-append flow xs ys)

running-pair :
    (flow g : String) (token : ℕ)
    → running g (
        record { flow = flow; role = poll; token = token }
        ∷ record { flow = flow; role = dispatcher; token = token }
        ∷ [])
      ≡ (if str_eq flow g then 2 else 0)
unfolding running filter
running-pair flow g token = ground arith

running-cons :
    (t : Task) (g : String) (ts : List Task)
    → running g (t ∷ ts) ≡ (if str_eq t.flow g then suc (running g ts) else running g ts)
unfolding running filter
running-cons t g ts = ground arith

pub spawn_tasks-IsCounted :
    (flow : String) (d : Supervisor)
    → running flow d.tasks < 254
    → IsCounted d
    → IsCounted (spawn_tasks flow d)
unfolding spawn_tasks
spawn_tasks-IsCounted flow d room counted g = ground (
  arith,
  eq_iff flow g,
  counted flow,
  counted g,
  lookup-modify_or 0 add_pair flow g d.registry.pending_exits,
  running-append g d.tasks (
      record { flow = flow; role = poll; token = d.next_token }
      ∷ record { flow = flow; role = dispatcher; token = d.next_token }
      ∷ []),
  running-pair flow g d.next_token,
)

lookup-count_exit :
    (flow g : String) (n : ℕ) (m : Dict ℕ)
    → lookup flow m ≡ entry_of (suc n)
    → lookup g (count_exit flow m) ≡ (if str_eq flow g then entry_of n else lookup g m)
unfolding count_exit
lookup-count_exit flow g n m e =
    ground (arith, eq_iff flow g, e, lookup-remove flow g m, lookup-insert flow g n m)

running-remove :
    (before : List Task) (t : Task) (after : List Task) (g : String)
    → running g (before ++ (t ∷ after))
      ≡ (if str_eq t.flow g then suc (running g (before ++ after)) else running g (before ++ after))
running-remove before t after g = ground (
  arith,
  running-append g before (t ∷ after),
  running-append g before after,
  running-cons t g after,
)

running-remove_self :
    (before : List Task) (t : Task) (after : List Task)
    → running t.flow (before ++ (t ∷ after)) ≡ suc (running t.flow (before ++ after))
running-remove_self before t after =
    ground (arith, running-remove before t after t.flow, str_eq_refl t.flow)

-- A task that leaves takes one exit with it.
pub observe_exit-Counted :
    (before : List Task) (t : Task) (after : List Task) (d : Supervisor)
    → Counted d.registry (before ++ (t ∷ after))
    → Counted (observe_exit t.flow d).registry (before ++ after)
unfolding observe_exit
observe_exit-Counted before t after d counted g =
    let left = running t.flow (before ++ after) in
    let counts : lookup t.flow d.registry.pending_exits ≡ entry_of (suc left) =
      counted t.flow ∙ ap entry_of (running-remove_self before t after) in
    let step = lookup-count_exit t.flow g left d.registry.pending_exits counts in
    elim (Bool-cases (str_eq t.flow g)) [
      | inl e ↦ ground (arith, e, step, eq_iff t.flow g)
      | inr e ↦
          step
          ∙ ap (λ b. if b then entry_of left else lookup g d.registry.pending_exits) e
          ∙ counted g
          ∙ ap entry_of (
              running-remove before t after g
              ∙ ap
                  (λ b.
                    if b then suc (running g (before ++ after)) else running g (before ++ after))
                  e)
    ]

cancel_handle-IsCounted :
    (flow : String) (h : Option FlowHandle) (d : Supervisor)
    → IsCounted d
    → IsCounted (cancel_handle flow h d)
cancel_handle-IsCounted flow none d counted = counted
cancel_handle-IsCounted flow (some h) d counted = counted

on_first_panic-IsCounted :
    (now : DateTime) (flow : String) (panic : Option String) (d : Supervisor)
    → IsCounted d
    → IsCounted (on_first_panic now flow panic d)
unfolding first_panic cancel_flow
on_first_panic-IsCounted now flow none d counted = counted
on_first_panic-IsCounted now flow (some message) d counted =
    cancel_handle-IsCounted flow (lookup flow d.registry.handles)
      (mark_respawning flow
        (record d { last_errors = record_last_error now flow "panic" message none d.last_errors }))
      counted

-- What else an exit does to the registry leaves the counts alone.
act_on_exit-IsCounted :
    (now : DateTime) (exit : FlowExit) (decision : RespawnDecision) (d : Supervisor)
    → IsCounted d
    → IsCounted (act_on_exit now exit decision d)
act_on_exit-IsCounted now exit clean_exit d counted = counted
act_on_exit-IsCounted now exit unexpected_join_error d counted = counted
act_on_exit-IsCounted now exit cancelled d counted = counted
act_on_exit-IsCounted now exit panic_duplicate d counted = counted
act_on_exit-IsCounted now exit panic_first d counted =
    on_first_panic-IsCounted now exit.flow exit.panic d counted

-- The exit of a task that was running.
pub handle_flow_exit-IsCounted :
    (now : DateTime) (exit : FlowExit) (before : List Task) (t : Task) (after : List Task)
    (d : Supervisor)
    → t.flow ≡ exit.flow
    → d.tasks ≡ before ++ (t ∷ after)
    → IsCounted d
    → IsCounted (handle_flow_exit now (exited exit) (record d { tasks = before ++ after }))
unfolding handle_flow_exit observe_exit
handle_flow_exit-IsCounted now exit before t after d same e counted =
    let left : Supervisor = record d { tasks = before ++ after } in
    act_on_exit-IsCounted now exit
      (decide_respawn (exited exit) (contains_key exit.flow left.registry.respawning_flows))
      (observe_exit exit.flow left)
      (subst (λ flow. IsCounted (observe_exit flow left)) same
        (observe_exit-Counted before t after left (subst (Counted d.registry) e counted)))

spawn_with-IsCounted :
    (at : DateTime) (flow : String) (credentials : Option String) (d : Supervisor)
    → running flow d.tasks < 254
    → IsCounted d
    → IsCounted (spawn_with at flow credentials d)
unfolding spawn_with record_setup_failure_and_skip
spawn_with-IsCounted at flow none d room counted = spawn_tasks-IsCounted flow d room counted
spawn_with-IsCounted at flow (some _) d room counted = counted

spawn_after-IsCounted :
    (setup : Setup) (flow : String) (notifiers : Option String) (d : Supervisor)
    → running flow d.tasks < 254
    → IsCounted d
    → IsCounted (spawn_after setup flow notifiers d)
unfolding record_setup_failure_and_skip
spawn_after-IsCounted setup flow none d room counted =
    spawn_with-IsCounted setup.error_at flow setup.credentials d room counted
spawn_after-IsCounted setup flow (some _) d room counted = counted

pub spawn_flow-IsCounted :
    {Rest Destination : Type 0} (setup : Setup) (flow : FlowConfig Rest Destination)
    (d : Supervisor)
    → running flow.name d.tasks < 254
    → IsCounted d
    → IsCounted (spawn_flow setup flow d)
unfolding spawn_flow
spawn_flow-IsCounted setup flow d room counted =
    spawn_after-IsCounted setup flow.name setup.notifiers d room counted

spawn_found-IsCounted :
    {Rest Destination : Type 0} (setup : Setup) (found : Option (FlowConfig Rest Destination))
    (d : Supervisor)
    → ((g : String) → running g d.tasks < 254)
    → IsCounted d
    → IsCounted (spawn_found setup found d)
unfolding spawn_found
spawn_found-IsCounted setup none d room counted = counted
spawn_found-IsCounted setup (some config) d room counted =
    if_ind IsCounted config.enabled
      (λ _. spawn_flow-IsCounted setup config d (room config.name) counted) (λ _. counted)

respawn-IsCounted :
    {Rest Destination : Type 0} (setup : Setup) (flows : List (FlowConfig Rest Destination))
    (flow : String) (d : Supervisor)
    → ((g : String) → running g d.tasks < 254)
    → IsCounted d
    → IsCounted (respawn setup flows flow d)
unfolding respawn
respawn-IsCounted setup flows flow d room counted =
    if_ind IsCounted (contains_key flow d.registry.handles) (λ _. counted)
      (λ _. spawn_found-IsCounted setup (find (λ f. str_eq f.name flow) flows) _ room counted)

pub handle_respawn_request-IsCounted :
    {Rest Destination : Type 0} (setup : Setup) (flows : List (FlowConfig Rest Destination))
    (req : RespawnRequest) (d : Supervisor)
    → ((g : String) → running g d.tasks < 254)
    → IsCounted d
    → IsCounted (handle_respawn_request setup flows req d)
unfolding handle_respawn_request
handle_respawn_request-IsCounted setup flows req d room counted =
    if_ind IsCounted (contains_key req.flow d.registry.pending_exits)
      (λ _.
        if_ind IsCounted (leb respawn_max_attempts req.attempts)
          (λ _. respawn-IsCounted setup flows req.flow d room counted) (λ _. counted))
      (λ _. respawn-IsCounted setup flows req.flow d room counted)
