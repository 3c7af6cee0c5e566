-- ===== src/Supervisor/Reload/Plan.antt =====
-- Which handles a reload keeps, by the old configuration and the new one.
use gcit.Base.{
  String, Bool, true, false, Option, none, some, List, [], ◌∷◌, ◌≡◌, refl, sym, ap, subst,
  if◌then◌else◌, arith, All, str_eq, str_eq_refl, eq_iff, any, ◌||◌, if_ind, Bool-cases, inl, inr,
  is_some,
}
use gcit.Base.Dict.{Dict, lookup, insert, contains_key, lookup-insert}
use gcit.Supervisor.Types.{FlowHandle, Supervisor, FlowConfig}
use gcit.Supervisor.Reload.{apply_actions_to_registry, compute_actions}
use gcit.Supervisor.Reload.Action.{
  Serde, ReloadAction, flow_config_unchanged, action_for, by_name, extend, push_action, actions_of,
  compute_reload_actions,
}
use gcit.Supervisor.Reload.Handles.{Settled, Suits}
use gcit.Supervisor.Reload.Settle.{speaks, apply_actions_to_registry-Settled}

module _ {Rest Destination : Type 0} (serde : Serde Rest Destination) where
  -- A running flow goes on as it is where it is in both configurations, unchanged and enabled.
  abbrev pub keeps :
      Option (FlowConfig Rest Destination) → Option (FlowConfig Rest Destination) → Bool
  keeps (some new) (some old) = if new.enabled then flow_config_unchanged serde old new else false
  keeps (some new) none = false
  keeps none _ = false

  module _ (flow : String) (h : FlowHandle) (kept : Bool) where
    abbrev SuitsAny : Option ReloadAction → Type 0
    SuitsAny none = Unit
    SuitsAny (some a) = Suits flow h kept a

    -- The action, which there is, speaks of the flow and suits it.
    abbrev Apt : Option ReloadAction → Type 0
    Apt none = false ≡ true
    Apt (some a) = Suits flow h kept a × (speaks flow h kept a ≡ true)

    action_for-SuitsAny :
        (name : String) (new old : Option (FlowConfig Rest Destination)) (live : Bool)
        → str_eq name flow ≡ false
        → SuitsAny (action_for serde name new old live)
    unfolding action_for
    action_for-SuitsAny name none (some old) true e = λ e'. absurd (ground (arith, e, e'))
    action_for-SuitsAny name none (some old) false e = e
    action_for-SuitsAny name none none true e = λ e'. absurd (ground (arith, e, e'))
    action_for-SuitsAny name none none false e = tt
    action_for-SuitsAny name (some new) (some old) true e =
        if_ind SuitsAny new.enabled
          (λ _.
            if_ind SuitsAny (flow_config_unchanged serde old new)
              (λ _ e'. absurd (ground (arith, e, e'))) (λ _ e'. absurd (ground (arith, e, e'))))
          (λ _ e'. absurd (ground (arith, e, e')))
    action_for-SuitsAny name (some new) none true e =
        if_ind SuitsAny new.enabled (λ _ e'. absurd (ground (arith, e, e')))
          (λ _ e'. absurd (ground (arith, e, e')))
    action_for-SuitsAny name (some new) old false e = if_ind SuitsAny new.enabled (λ _. e) (λ _. tt)

    action_for-Apt :
        (new old : Option (FlowConfig Rest Destination))
        → kept ≡ keeps new old
        → Apt (action_for serde flow new old true)
    unfolding action_for
    action_for-Apt none (some old) k = (λ _. k, str_eq_refl flow)
    action_for-Apt none none k = (λ _. k, str_eq_refl flow)
    action_for-Apt (some new) none k =
        if_ind Apt new.enabled (λ _. (λ _. k, str_eq_refl flow)) (λ _. (λ _. k, str_eq_refl flow))
    action_for-Apt (some new) (some old) k =
        if_ind Apt new.enabled
          (λ on.
            if_ind Apt (flow_config_unchanged serde old new)
              (λ same. (λ _. ground (arith, k, on, same), str_eq_refl flow))
              (λ same. (λ _. ground (arith, k, on, same), str_eq_refl flow)))
          (λ off. (λ _. ground (arith, k, off), str_eq_refl flow))

    push-All :
        (o : Option ReloadAction) (actions : List ReloadAction)
        → SuitsAny o
        → All (Suits flow h kept) actions
        → All (Suits flow h kept) (push_action o actions)
    push-All none actions s rest = rest
    push-All (some a) actions s rest = (s, rest)

    Apt-SuitsAny : (o : Option ReloadAction) → Apt o → SuitsAny o
    Apt-SuitsAny none s = tt
    Apt-SuitsAny (some a) s = s.0

    push-speaks_here :
        (o : Option ReloadAction) (actions : List ReloadAction)
        → Apt o
        → any (speaks flow h kept) (push_action o actions) ≡ true
    unfolding any
    push-speaks_here none actions s = absurd (ground (arith, s))
    push-speaks_here (some a) actions s = ap (λ b. b || any (speaks flow h kept) actions) s.1

    push-speaks_there :
        (o : Option ReloadAction) (actions : List ReloadAction)
        → any (speaks flow h kept) actions ≡ true
        → any (speaks flow h kept) (push_action o actions) ≡ true
    unfolding any
    push-speaks_there none actions s = s
    push-speaks_there (some a) actions s = ground (arith, s)

-- Every key of a map is a name that is gone through.
module _ (flow : String) where
  extend-keeps :
      {V : Type 0} (m : Dict V) (names : Dict (Unit {0}))
      → contains_key flow names ≡ true
      → contains_key flow (extend m names) ≡ true
  unfolding extend contains_key
  extend-keeps [] names e = e
  extend-keeps (x ∷ m) names e =
      extend-keeps m (insert x.key tt names) (ground (arith, e, lookup-insert x.key flow tt names))

  extend-adds :
      {V : Type 0} (m : Dict V) (names : Dict (Unit {0}))
      → contains_key flow m ≡ true
      → contains_key flow (extend m names) ≡ true
  unfolding extend contains_key lookup
  extend-adds [] names e = absurd (ground (arith, e))
  extend-adds (x ∷ m) names e = elim (Bool-cases (str_eq x.key flow)) [
    | inl here ↦
        extend-keeps m (insert x.key tt names)
          (ground (arith, here, lookup-insert x.key flow tt names))
    | inr there ↦ extend-adds m (insert x.key tt names) (ground (arith, there, e))
  ]

module _ {Rest Destination : Type 0} (serde : Serde Rest Destination)
    (old new : Dict (FlowConfig Rest Destination)) (live : Dict FlowHandle) (flow : String)
    (h : FlowHandle) (running : contains_key flow live ≡ true) where
  abbrev kept : Bool
  kept = keeps serde (lookup flow new) (lookup flow old)

  abbrev action_of : String → Option ReloadAction
  action_of name =
      action_for serde name (lookup name new) (lookup name old) (contains_key name live)

  action_of-Apt : (name : String) → str_eq name flow ≡ true → Apt serde flow h kept (action_of name)
  action_of-Apt name e =
      subst (λ n. Apt serde flow h kept (action_of n)) (sym ((eq_iff name flow).0 e))
        (subst
          (λ b. Apt serde flow h kept (action_for serde flow (lookup flow new) (lookup flow old) b))
          (sym running) (action_for-Apt serde flow h kept (lookup flow new) (lookup flow old) refl))

  actions_of-Suits :
      (names : Dict (Unit {0})) → All (Suits flow h kept) (actions_of serde old new live names)
  unfolding actions_of
  actions_of-Suits [] = tt
  actions_of-Suits (e ∷ names) =
      push-All serde flow h kept (action_of e.key) _
        (elim (Bool-cases (str_eq e.key flow)) [
          | inl here ↦ Apt-SuitsAny serde flow h kept (action_of e.key) (action_of-Apt e.key here)
          | inr there ↦ action_for-SuitsAny serde flow h kept e.key _ _ _ there
        ])
        (actions_of-Suits names)

  actions_of-speaks :
      (names : Dict (Unit {0}))
      → contains_key flow names ≡ true
      → any (speaks flow h kept) (actions_of serde old new live names) ≡ true
  unfolding actions_of contains_key lookup
  actions_of-speaks [] e = absurd (ground (arith, e))
  actions_of-speaks (x ∷ names) e = elim (Bool-cases (str_eq x.key flow)) [
    | inl here ↦ push-speaks_here serde flow h kept (action_of x.key) _ (action_of-Apt x.key here)
    | inr there ↦
        push-speaks_there serde flow h kept (action_of x.key) _
          (actions_of-speaks names (ground (arith, there, e)))
  ]

-- What a reload makes of a flow that has a handle, whatever the two configurations and the other
-- flows: the handle stays where the flow is in both, unchanged and enabled, and in every other
-- case it is gone from the registry and its token is cancelled.
pub compute_actions-Settled :
    {Rest Destination : Type 0} (serde : Serde Rest Destination)
    (old new : List (FlowConfig Rest Destination)) (d : Supervisor) (flow : String) (h : FlowHandle)
    → lookup flow d.registry.handles ≡ some h
    → Settled flow h
        (keeps serde (lookup flow (by_name new [])) (lookup flow (by_name old [])))
        (apply_actions_to_registry (compute_actions serde old new d.registry) d).1
unfolding compute_actions compute_reload_actions contains_key
compute_actions-Settled serde old new d flow h e =
    let live = d.registry.handles in
    let running : contains_key flow live ≡ true = ap is_some e in
    let names = extend live (extend (by_name new []) (extend (by_name old []) [])) in
    apply_actions_to_registry-Settled flow h
      (keeps serde (lookup flow (by_name new [])) (lookup flow (by_name old []))) _ d
      (actions_of-Suits serde (by_name old []) (by_name new []) live flow h running names)
      (actions_of-speaks serde (by_name old []) (by_name new []) live flow h running names
        (extend-adds flow live _ running))
      e
