-- ===== src/State/Runs/Invariant.antt =====
-- What holds of a flow's entry between two updates.
use gcit.Base.{
  ℕ, ◌-◌, ◌≤◌, ltb, if_ind, String, Bool, true, Option, none, some, List, [], ◌∷◌, ◌≡◌, refl, subst,
  is_some, str_eq, arith, length, length-drop, All, All-append, All-drop, any, unwrap_or, sym,
}
use gcit.Base.Search.{Extract, found, extract-Extract}
use gcit.Base.Dict.{lookup}
use gcit.State.Types.{
  DateTime, notified_runs_cap, RunState, FlowState, default_flow, State, StateUpdate,
  poll_observation, poll_timestamp, run_started, run_finished, flow_removed,
}
use gcit.State.Apply.{has_id, observe, start_run, cap_notified, move_run, finish_run, apply_all}
use gcit.State.Machine.{flow_of, step_flow, run_flow}
use gcit.State.PerFlow.Refinement.{lookup-apply_all}
use gcit.State.Runs.Distinct.{IsDistinct, IsDistinct-push, IsDistinct-remove, All-remove}

abbrev pub IsOpen : RunState → Type 0
IsOpen r = (r.conclusion ≡ none) × (r.completed_at ≡ none)

abbrev pub IsDone : RunState → Type 0
IsDone r = (is_some r.conclusion ≡ true) × (is_some r.completed_at ≡ true)

pub record IsValid (f : FlowState) : Type 0 where
  pub distinct : IsDistinct f.active_runs
  pub active_open : All IsOpen f.active_runs
  pub notified_done : All IsDone f.notified_runs
  pub capped : length f.notified_runs ≤ notified_runs_cap

default_flow-IsValid : IsValid default_flow
default_flow-IsValid = record {
  distinct = tt;
  active_open = tt;
  notified_done = tt;
  capped = omega arith;
}

pub cap_notified_bounded : (rs : List RunState) → length (cap_notified rs) ≤ notified_runs_cap
unfolding cap_notified
cap_notified_bounded rs = ground (arith, length-drop (length rs - 100) rs)

cap_notified-All {ℓ} :
    (P : RunState → Type ℓ) (rs : List RunState) → All P rs → All P (cap_notified rs)
unfolding cap_notified
cap_notified-All P rs h =
    if_ind (All P) (ltb notified_runs_cap (length rs)) (λ _. All-drop P _ rs h) (λ _. h)

start_run-IsValid :
    (run_id : ℕ) (at : DateTime) (f : FlowState) → IsValid f → IsValid (start_run run_id at f)
unfolding start_run
start_run-IsValid run_id at f v =
    if_ind IsValid (any (has_id run_id) f.active_runs) (λ _. v)
      λ fresh. record {
        distinct = IsDistinct-push f.active_runs _ fresh v.distinct;
        active_open = All-append IsOpen f.active_runs _ v.active_open ((refl, refl), tt);
        notified_done = v.notified_done;
        capped = v.capped;
      }

move_run-IsValid :
    (conclusion : String) (at : DateTime) (f : FlowState) (p : RunState → Bool)
    (o : Option (RunState × List RunState))
    → Extract p f.active_runs o
    → IsValid f
    → IsValid (move_run conclusion at f o)
move_run-IsValid conclusion at f p none x v = v
move_run-IsValid conclusion at f p (some _) (found before r after clear passes e) v =
    let open' = All-remove IsOpen before r after (subst (All IsOpen) e v.active_open) in
    record {
      distinct = (IsDistinct-remove before r after (subst IsDistinct e v.distinct)).0;
      active_open = open'.1;
      notified_done =
          cap_notified-All IsDone _
            (All-append IsDone f.notified_runs _ v.notified_done ((refl, refl), tt));
      capped = cap_notified_bounded _;
    }

-- A missing entry is valid.
abbrev pub IsValidEntry : Option FlowState → Type 0
IsValidEntry none = Unit
IsValidEntry (some f) = IsValid f

entry-IsValid : (e : Option FlowState) → IsValidEntry e → IsValid (unwrap_or e default_flow)
entry-IsValid none v = default_flow-IsValid
entry-IsValid (some f) v = v

module _ {ObjectId : Type 0} (to_hex : ObjectId → String) where
  step_flow-IsValid :
      (u : StateUpdate ObjectId) (e : Option FlowState)
      → IsValidEntry e
      → IsValidEntry (step_flow to_hex u e)
  unfolding observe finish_run
  step_flow-IsValid (poll_observation _ sha at _ _) e v =
      let w = entry-IsValid e v in
      record {
        distinct = w.distinct;
        active_open = w.active_open;
        notified_done = w.notified_done;
        capped = w.capped;
      }
  step_flow-IsValid (poll_timestamp _ at) e v =
      let w = entry-IsValid e v in
      record {
        distinct = w.distinct;
        active_open = w.active_open;
        notified_done = w.notified_done;
        capped = w.capped;
      }
  step_flow-IsValid (run_started _ run_id at) e v =
      start_run-IsValid run_id at _ (entry-IsValid e v)
  step_flow-IsValid (run_finished _ run_id conclusion at) none v = tt
  step_flow-IsValid (run_finished _ run_id conclusion at) (some f) v =
      move_run-IsValid conclusion at f (has_id run_id) _
        (extract-Extract (has_id run_id) f.active_runs) v
  step_flow-IsValid (flow_removed _) e v = tt

  run_flow-IsValid :
      (g : String) (us : List (StateUpdate ObjectId)) (e : Option FlowState)
      → IsValidEntry e
      → IsValidEntry (run_flow to_hex g us e)
  unfolding run_flow
  run_flow-IsValid g [] e v = v
  run_flow-IsValid g (u ∷ us) e v =
      run_flow-IsValid g us _
        (if_ind IsValidEntry (str_eq (flow_of u) g) (λ _. step_flow-IsValid u e v) (λ _. v))

  -- Applied to a state whose entry for a flow is missing or valid, any updates leave that entry
  -- missing or valid: no run id twice among the active runs, none of them concluded, every
  -- notified run with its conclusion and its time, and at most a hundred of those.
  pub apply_all-IsValid :
      (s : State) (us : List (StateUpdate ObjectId)) (g : String)
      → IsValidEntry (lookup g s.flows)
      → IsValidEntry (lookup g (apply_all to_hex s us).flows)
  apply_all-IsValid s us g v =
      subst IsValidEntry (sym (lookup-apply_all to_hex s us g)) (run_flow-IsValid g us _ v)
