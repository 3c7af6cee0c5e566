-- ===== src/Supervisor/Reload/Settle.antt =====
-- src/flow/supervisor/reload/apply.rs: a flow with a handle, as the actions are gone through.
use gcit.Base.{
  ◌||◌, String, Bool, true, false, some, List, [], ◌∷◌, ◌≡◌, refl, sym, ap, ◌∙◌, subst, All, str_eq,
  eq_iff, any, Bool-cases, inl, inr,
}
use gcit.Base.Dict.{Dict, lookup}
use gcit.Supervisor.Types.{FlowHandle, Supervisor}
use gcit.Supervisor.Reload.{
  Planning, cancel_found, apply_action, apply_actions, cancel_all, take_handles,
  apply_actions_to_registry, plan_keep, plan_removed, plan_reset, cancel_drained, finish_planning,
}
use gcit.Supervisor.Reload.Action.{ReloadAction}
use gcit.Supervisor.Reload.Handles.{
  clash, cancel_found-grows, Settled, Suits, Done, At, cancel_drained-Done, cancel_drained-At,
  cancel_drained-Stays, plan_keep-Done, plan_keep-At, plan_keep-Stays,
}

module _ (flow : String) (h : FlowHandle) (kept : Bool) where
  -- The action speaks of the flow.
  abbrev pub speaks : ReloadAction → Bool
  speaks (ReloadAction.keep name) = str_eq name flow
  speaks (ReloadAction.remove name _) = str_eq name flow
  speaks (ReloadAction.disable name _) = str_eq name flow
  speaks (ReloadAction.restart name _) = str_eq name flow
  speaks (ReloadAction.spawn name) = str_eq name flow

  cancel_named-Done :
      (name : String) (p : Planning)
      → str_eq name flow ≡ true
      → kept ≡ false
      → At flow h kept p
      → Done flow h kept (cancel_drained name p)
  cancel_named-Done name p e k at =
      subst (λ n. Done flow h kept (cancel_drained n p)) (sym ((eq_iff name flow).0 e))
        (cancel_drained-Done flow h kept p k at)

  keep_named-Done :
      (name : String) (p : Planning)
      → str_eq name flow ≡ true
      → kept ≡ true
      → At flow h kept p
      → Done flow h kept (plan_keep name p)
  keep_named-Done name p e k at =
      subst (λ n. Done flow h kept (plan_keep n p)) (sym ((eq_iff name flow).0 e))
        (plan_keep-Done flow h kept p k at)

  apply_action-Done :
      (a : ReloadAction) (p : Planning)
      → Suits flow h kept a
      → speaks a ≡ true
      → At flow h kept p
      → Done flow h kept (apply_action a p)
  unfolding apply_action plan_removed plan_reset
  apply_action-Done (ReloadAction.keep name) p s e at = keep_named-Done name p e (s e) at
  apply_action-Done (ReloadAction.remove name true) p s e at = cancel_named-Done name p e (s e) at
  apply_action-Done (ReloadAction.remove name false) p s e at = clash (str_eq name flow) e s
  apply_action-Done (ReloadAction.disable name _) p s e at = cancel_named-Done name p e (s e) at
  apply_action-Done (ReloadAction.restart name _) p s e at = cancel_named-Done name p e (s e) at
  apply_action-Done (ReloadAction.spawn name) p s e at = clash (str_eq name flow) e s

  apply_action-At :
      (a : ReloadAction) (p : Planning)
      → speaks a ≡ false
      → At flow h kept p
      → At flow h kept (apply_action a p)
  unfolding apply_action plan_removed plan_reset
  apply_action-At (ReloadAction.keep name) p e at = plan_keep-At flow h kept name p e at
  apply_action-At (ReloadAction.remove name true) p e at = cancel_drained-At flow h kept name p e at
  apply_action-At (ReloadAction.remove name false) p e at = at
  apply_action-At (ReloadAction.disable name _) p e at = cancel_drained-At flow h kept name p e at
  apply_action-At (ReloadAction.restart name _) p e at = cancel_drained-At flow h kept name p e at
  apply_action-At (ReloadAction.spawn name) p e at = at

  apply_action-Stays :
      (a : ReloadAction) (p : Planning)
      → speaks a ≡ false
      → Done flow h kept p
      → Done flow h kept (apply_action a p)
  unfolding apply_action plan_removed plan_reset
  apply_action-Stays (ReloadAction.keep name) p e done = plan_keep-Stays flow h kept name p e done
  apply_action-Stays (ReloadAction.remove name true) p e done =
      cancel_drained-Stays flow h kept name p e done
  apply_action-Stays (ReloadAction.remove name false) p e done = done
  apply_action-Stays (ReloadAction.disable name _) p e done =
      cancel_drained-Stays flow h kept name p e done
  apply_action-Stays (ReloadAction.restart name _) p e done =
      cancel_drained-Stays flow h kept name p e done
  apply_action-Stays (ReloadAction.spawn name) p e done = done

  apply_actions-Stays :
      (actions : List ReloadAction) (p : Planning)
      → All (Suits flow h kept) actions
      → Done flow h kept p
      → Done flow h kept (apply_actions actions p)
  unfolding apply_actions
  apply_actions-Stays [] p s done = done
  apply_actions-Stays (a ∷ actions) p s done =
      apply_actions-Stays actions (apply_action a p) s.1 (elim (Bool-cases (speaks a)) [
        | inl e ↦ apply_action-Done a p s.0 e (inr done)
        | inr e ↦ apply_action-Stays a p e done
      ])

  apply_actions-Done :
      (actions : List ReloadAction) (p : Planning)
      → All (Suits flow h kept) actions
      → At flow h kept p
      → any speaks actions ≡ true
      → Done flow h kept (apply_actions actions p)
  unfolding apply_actions any
  apply_actions-Done [] p s at found = clash false found refl
  apply_actions-Done (a ∷ actions) p s at found = elim (Bool-cases (speaks a)) [
    | inl e ↦ apply_actions-Stays actions (apply_action a p) s.1 (apply_action-Done a p s.0 e at)
    | inr e ↦
        apply_actions-Done actions (apply_action a p) s.1 (apply_action-At a p e at)
          (ap (λ b. b || any speaks actions) (sym e) ∙ found)
  ]

  cancel_all-Settled :
      (m : Dict FlowHandle) (d : Supervisor)
      → Settled flow h kept d
      → Settled flow h kept (cancel_all m d)
  unfolding cancel_all
  cancel_all-Settled [] d s = s
  cancel_all-Settled (e ∷ m) d s =
      cancel_all-Settled m (cancel_found (some e.value) d)
        (s.0, λ k. cancel_found-grows h.cancel (some e.value) d (s.1 k))

  pub apply_actions_to_registry-Settled :
      (actions : List ReloadAction) (d : Supervisor)
      → All (Suits flow h kept) actions
      → any speaks actions ≡ true
      → lookup flow d.registry.handles ≡ some h
      → Settled flow h kept (apply_actions_to_registry actions d).1
  unfolding apply_actions_to_registry finish_planning lookup
  apply_actions_to_registry-Settled actions d s found e =
      let p = apply_actions actions (take_handles d) in
      cancel_all-Settled p.drained p.supervisor
        (apply_actions-Done actions (take_handles d) s (inl (e, refl)) found).1
