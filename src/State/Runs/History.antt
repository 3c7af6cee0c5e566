-- ===== src/State/Runs/History.antt =====
-- src/state/apply.rs: the notified runs with their cap, against a machine with none.
use gcit.Base.{
  ℕ, zero, suc, ◌+◌, ◌-◌, ◌≤◌, String, Option, none, some, List, [], ◌∷◌, ◌++◌, ◌≡◌, refl, sym, ap,
  ◌∙◌, arith, length, drop, length-append, length-drop, ◌≡⟨◌⟩◌, ◌∎, if◌then◌else◌, str_eq, extract,
  unwrap_or,
}
use gcit.Base.Dict.{lookup}
use gcit.State.Types.{
  DateTime, RunState, FlowState, default_flow, State, StateUpdate, poll_observation, poll_timestamp,
  run_started, run_finished, flow_removed,
}
use gcit.State.Apply.{
  has_id, observe, start_run, conclude, cap_notified, move_run, finish_run, apply_all,
}
use gcit.State.Machine.{flow_of, step_flow, run_flow}
use gcit.State.PerFlow.Refinement.{lookup-apply_all}

module _ {ℓ} {A : Type ℓ} where
  drop-nil : (n : ℕ) → drop {A = A} n [] ≡ []
  drop-nil zero = refl
  drop-nil (suc n) = refl

  drop-drop : (m n : ℕ) (xs : List A) → drop m (drop n xs) ≡ drop (n + m) xs
  drop-drop m zero xs = ground arith
  drop-drop m (suc n) [] = ground (arith, drop-nil m, drop-nil (suc n + m))
  drop-drop m (suc n) (x ∷ xs) =
      let e : suc (n + m) ≡ suc n + m = omega arith in
      drop-drop m n xs ∙ ap (λ k. drop k (x ∷ xs)) e

  drop-append : (n : ℕ) (xs ys : List A) → n ≤ length xs → drop n (xs ++ ys) ≡ drop n xs ++ ys
  drop-append zero xs ys h = refl
  drop-append (suc n) [] ys h = absurd (omega arith)
  drop-append (suc n) (x ∷ xs) ys h = drop-append n xs ys (omega arith)

cap_notified-eq-drop : (rs : List RunState) → cap_notified rs ≡ drop (length rs - 100) rs
unfolding cap_notified
cap_notified-eq-drop rs = ground arith

-- A list that was capped before more is appended ends in the same hundred.
cap_notified-append :
    (rs more : List RunState) → cap_notified (cap_notified rs ++ more) ≡ cap_notified (rs ++ more)
cap_notified-append rs more =
    let k : ℕ = length rs - 100 in
    cap_notified (cap_notified rs ++ more)
    ≡⟨ ap (λ l. cap_notified (l ++ more)) (cap_notified-eq-drop rs) ⟩
      cap_notified (drop k rs ++ more)
    ≡⟨ ap cap_notified (sym (drop-append k rs more (omega arith))) ⟩
      cap_notified (drop k (rs ++ more))
    ≡⟨ cap_notified-eq-drop (drop k (rs ++ more)) ⟩
      drop (length (drop k (rs ++ more)) - 100) (drop k (rs ++ more))
    ≡⟨ drop-drop _ k (rs ++ more) ⟩ drop (k + (length (drop k (rs ++ more)) - 100)) (rs ++ more)
    ≡⟨ ap (λ n. drop n (rs ++ more))
        (omega (arith, length-drop k (rs ++ more), length-append rs more)) ⟩
      drop (length (rs ++ more) - 100) (rs ++ more)
    ≡⟨ sym (cap_notified-eq-drop (rs ++ more)) ⟩ cap_notified (rs ++ more) ∎

-- The machine that forgets no run.
abbrev pub keep_run : String → DateTime → FlowState → Option (RunState × List RunState) → FlowState
keep_run conclusion at f none = f
keep_run conclusion at f (some (run, rest)) = record f {
  active_runs = rest;
  notified_runs = f.notified_runs ++ (conclude conclusion at run ∷ []);
}

abbrev pub capped : FlowState → FlowState
capped f = record f { notified_runs = cap_notified f.notified_runs }

abbrev pub capped_entry : Option FlowState → Option FlowState
capped_entry none = none
capped_entry (some f) = some (capped f)

move_run-capped :
    (conclusion : String) (at : DateTime) (f : FlowState) (o : Option (RunState × List RunState))
    → move_run conclusion at (capped f) o ≡ capped (keep_run conclusion at f o)
move_run-capped conclusion at f none = refl
move_run-capped conclusion at f (some (run, rest)) =
    ap (λ l. record f { active_runs = rest; notified_runs = l })
      (cap_notified-append f.notified_runs (conclude conclusion at run ∷ []))

unwrap_or-capped :
    (e : Option FlowState)
    → unwrap_or (capped_entry e) default_flow ≡ capped (unwrap_or e default_flow)
unfolding cap_notified
unwrap_or-capped none = refl
unwrap_or-capped (some f) = refl

module _ {ObjectId : Type 0} (to_hex : ObjectId → String) where
  abbrev pub keep_flow : StateUpdate ObjectId → Option FlowState → Option FlowState
  keep_flow (run_finished _ run_id conclusion at) (some f) =
      some (keep_run conclusion at f (extract (has_id run_id) f.active_runs))
  keep_flow u e = step_flow to_hex u e

  pub keep_all : String → List (StateUpdate ObjectId) → Option FlowState → Option FlowState
  keep_all g [] e = e
  keep_all g (u ∷ us) e = keep_all g us (if str_eq (flow_of u) g then keep_flow u e else e)

  step_flow-capped :
      (u : StateUpdate ObjectId) (e : Option FlowState)
      → step_flow to_hex u (capped_entry e) ≡ capped_entry (keep_flow u e)
  unfolding observe start_run finish_run
  step_flow-capped (run_finished _ run_id conclusion at) none = refl
  step_flow-capped (run_finished _ run_id conclusion at) (some f) =
      ap some (move_run-capped conclusion at f (extract (has_id run_id) f.active_runs))
  step_flow-capped (poll_observation _ sha at dispatched until) e = rw (unwrap_or-capped e)
  step_flow-capped (poll_timestamp _ at) e = rw (unwrap_or-capped e)
  step_flow-capped (run_started _ run_id at) e = rw (unwrap_or-capped e) (ground arith)
  step_flow-capped (flow_removed _) e = refl

  run_flow-capped :
      (g : String) (us : List (StateUpdate ObjectId)) (e : Option FlowState)
      → run_flow to_hex g us (capped_entry e) ≡ capped_entry (keep_all g us e)
  unfolding run_flow keep_all
  run_flow-capped g [] e = refl
  run_flow-capped g (u ∷ us) e =
      ground
        (arith, step_flow-capped u e, run_flow-capped g us e, run_flow-capped g us (keep_flow u e))

  -- From a state with no entry for the flow, any updates leave the entry that a machine with no
  -- cap would have, but for the notified runs: of those it has the last hundred, in the same
  -- order.
  pub apply_all_keeps_last :
      (s : State) (us : List (StateUpdate ObjectId)) (g : String)
      → lookup g s.flows ≡ none
      → lookup g (apply_all to_hex s us).flows ≡ capped_entry (keep_all g us none)
  apply_all_keeps_last s us g new =
      lookup-apply_all to_hex s us g ∙ ap (run_flow to_hex g us) new ∙ run_flow-capped g us none
