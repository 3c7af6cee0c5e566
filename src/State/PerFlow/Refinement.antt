-- ===== src/State/PerFlow/Refinement.antt =====
-- src/state/apply.rs: `State::apply` against the machines of the single flows.
use gcit.Base.{
  String, Option, List, [], ◌∷◌, ◌≡◌, refl, sym, ◌∙◌, ap, if◌then◌else◌, str_eq, eq_iff, arith,
  filter, inl, inr, Option-cases,
}
use gcit.Base.Dict.{lookup, lookup-insert, lookup-remove, lookup-modify_or}
use gcit.State.Types.{
  FlowState, default_flow, State, StateUpdate, poll_observation, poll_timestamp, run_started,
  run_finished, flow_removed,
}
use gcit.State.Apply.{observe, touch, start_run, finish_run, apply, apply_all}
use gcit.State.Machine.{flow_of, step_flow, run_flow}

module _ {ObjectId : Type 0} (to_hex : ObjectId → String) where
  -- One update changes the entry of the flow that it names, as that flow's own machine does, and
  -- the entry of no other flow.
  pub lookup-apply :
      (s : State) (u : StateUpdate ObjectId) (g : String)
      → lookup g (apply to_hex s u).flows
        ≡ (if str_eq (flow_of u) g then step_flow to_hex u (lookup g s.flows) else lookup g s.flows)
  unfolding apply
  lookup-apply s (poll_observation f sha at dispatched until) g = ground (
    arith,
    eq_iff f g,
    lookup-modify_or default_flow (observe (to_hex sha) at dispatched until) f g s.flows,
  )
  lookup-apply s (poll_timestamp f at) g =
      ground (arith, eq_iff f g, lookup-modify_or default_flow (touch at) f g s.flows)
  lookup-apply s (run_started f run_id at) g =
      ground (arith, eq_iff f g, lookup-modify_or default_flow (start_run run_id at) f g s.flows)
  lookup-apply s (run_finished f run_id conclusion at) g = elim (Option-cases (lookup f s.flows)) [
    | inl e ↦ ground (arith, eq_iff f g, e)
    | inr (entry, e) ↦
        ground
          (arith, eq_iff f g, e, lookup-insert f g (finish_run run_id conclusion at entry) s.flows)
  ]
  lookup-apply s (flow_removed f) g = ground (arith, eq_iff f g, lookup-remove f g s.flows)

  pub lookup-apply_all :
      (s : State) (us : List (StateUpdate ObjectId)) (g : String)
      → lookup g (apply_all to_hex s us).flows ≡ run_flow to_hex g us (lookup g s.flows)
  unfolding apply_all run_flow
  lookup-apply_all s [] g = refl
  lookup-apply_all s (u ∷ us) g =
      lookup-apply_all (apply to_hex s u) us g ∙ ap (run_flow to_hex g us) (lookup-apply s u g)

  run_flow-filter :
      (g : String) (us : List (StateUpdate ObjectId)) (e : Option FlowState)
      → run_flow to_hex g (filter (λ u. str_eq (flow_of u) g) us) e ≡ run_flow to_hex g us e
  unfolding run_flow filter
  run_flow-filter g [] e = refl
  run_flow-filter g (u ∷ us) e =
      ground (arith, run_flow-filter g us e, run_flow-filter g us (step_flow to_hex u e))

  -- What any updates make of a flow's entry is what those of them that name the flow make of it.
  pub apply_all-filter :
      (s : State) (us : List (StateUpdate ObjectId)) (g : String)
      → lookup g (apply_all to_hex s us).flows
        ≡ lookup g (apply_all to_hex s (filter (λ u. str_eq (flow_of u) g) us)).flows
  apply_all-filter s us g =
      lookup-apply_all s us g
      ∙ sym (run_flow-filter g us (lookup g s.flows))
      ∙ sym (lookup-apply_all s (filter (λ u. str_eq (flow_of u) g) us) g)
