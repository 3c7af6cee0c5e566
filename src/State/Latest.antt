-- ===== src/State/Latest.antt =====
-- src/state/apply.rs: what the scalar fields of a flow hold after any sequence of updates.
use gcit.Base.{
  String, Option, none, some, List, [], ◌∷◌, ◌++◌, sym, ◌≡◌, refl, ◌∙◌, ap, if◌then◌else◌, str_eq,
  arith,
}
use gcit.Base.Dict.{lookup}
use gcit.State.Types.{
  DateTime, FlowState, State, StateUpdate, poll_observation, poll_timestamp, flow_removed,
}
use gcit.State.Apply.{observe, start_run, finish_run, apply_all}
use gcit.State.Machine.{flow_of, step_flow, run_flow}
use gcit.State.PerFlow.Refinement.{lookup-apply_all}

-- What one update says of a field: nothing, that it is cleared, or its new value.
pub data Verdict {ℓ} (X : Type ℓ) : Type ℓ where
  silent : Verdict X
  cleared : Verdict X
  seen : X → Verdict X

module _ {ℓ} {X : Type ℓ} where
  abbrev pub resolve : Verdict X → Option X → Option X
  resolve silent o = o
  resolve cleared _ = none
  resolve (seen x) _ = some x

  -- The later verdict decides, unless it is silent.
  abbrev pub override : Verdict X → Verdict X → Verdict X
  override silent v = v
  override cleared _ = cleared
  override (seen x) _ = seen x

  abbrev pub of_option : Option X → Verdict X
  of_option none = silent
  of_option (some x) = seen x

  -- A field of an entry that may be missing.
  abbrev pub field_of : (FlowState → Option X) → Option FlowState → Option X
  field_of get none = none
  field_of get (some e) = get e

  pub resolve-override :
      (w v : Verdict X) (o : Option X) → resolve w (resolve v o) ≡ resolve (override w v) o
  resolve-override silent v o = refl
  resolve-override cleared v o = refl
  resolve-override (seen x) v o = refl

module _ {ℓ} {X : Type ℓ} where
  override_assoc : (a b c : Verdict X) → override a (override b c) ≡ override (override a b) c
  override_assoc silent b c = refl
  override_assoc cleared b c = refl
  override_assoc (seen x) b c = refl

  override-silent : (a : Verdict X) → override a silent ≡ a
  override-silent silent = refl
  override-silent cleared = refl
  override-silent (seen x) = refl

module _ {ObjectId : Type 0} where
  -- The last update of the flow that is not silent.
  unfoldable pub latest {ℓ} :
      {X : Type ℓ}
      → (StateUpdate ObjectId → Verdict X)
      → String
      → List (StateUpdate ObjectId)
      → Verdict X
  latest v g [] = silent
  latest v g (u ∷ us) = override (latest v g us) (if str_eq (flow_of u) g then v u else silent)

  pub latest-append {ℓ} :
      {X : Type ℓ} (v : StateUpdate ObjectId → Verdict X) (g : String)
      (us vs : List (StateUpdate ObjectId))
      → latest v g (us ++ vs) ≡ override (latest v g vs) (latest v g us)
  unfolding latest
  latest-append v g [] vs = sym (override-silent (latest v g vs))
  latest-append v g (u ∷ us) vs =
      ap (λ w. override w (if str_eq (flow_of u) g then v u else silent)) (latest-append v g us vs)
      ∙ sym (
          override_assoc (latest v g vs) (latest v g us)
            (if str_eq (flow_of u) g then v u else silent))

  abbrev pub sha_verdict : (ObjectId → String) → StateUpdate ObjectId → Verdict String
  sha_verdict to_hex (poll_observation _ sha _ _ _) = seen (to_hex sha)
  sha_verdict to_hex (flow_removed _) = cleared
  sha_verdict to_hex _ = silent

  abbrev pub poll_verdict : StateUpdate ObjectId → Verdict DateTime
  poll_verdict (poll_observation _ _ at _ _) = seen at
  poll_verdict (poll_timestamp _ at) = seen at
  poll_verdict (flow_removed _) = cleared
  poll_verdict _ = silent

  abbrev pub dispatch_verdict : StateUpdate ObjectId → Verdict DateTime
  dispatch_verdict (poll_observation _ _ _ dispatched _) = of_option dispatched
  dispatch_verdict (flow_removed _) = cleared
  dispatch_verdict _ = silent

  abbrev pub cooldown_verdict : StateUpdate ObjectId → Verdict DateTime
  cooldown_verdict (poll_observation _ _ _ _ until) = of_option until
  cooldown_verdict (flow_removed _) = cleared
  cooldown_verdict _ = silent

module _ {ObjectId : Type 0} (to_hex : ObjectId → String) where
  -- A field that every update treats by its verdict has the value of the last verdict.
  field-run_flow {ℓ} :
      {X : Type ℓ} (get : FlowState → Option X) (v : StateUpdate ObjectId → Verdict X)
      → ((u : StateUpdate ObjectId) (e : Option FlowState)
          → field_of get (step_flow to_hex u e) ≡ resolve (v u) (field_of get e))
      → (g : String) (us : List (StateUpdate ObjectId)) (e : Option FlowState)
      → field_of get (run_flow to_hex g us e) ≡ resolve (latest v g us) (field_of get e)
  unfolding run_flow latest
  field-run_flow get v step g [] e = refl
  field-run_flow get v step g (u ∷ us) e =
      field-run_flow get v step g us (if str_eq (flow_of u) g then step_flow to_hex u e else e)
      ∙ ground (arith, step u e, resolve-override (latest v g us) (v u) (field_of get e))

  step-sha :
      (u : StateUpdate ObjectId) (e : Option FlowState)
      → field_of (λ f. f.last_sha) (step_flow to_hex u e)
        ≡ resolve (sha_verdict to_hex u) (field_of (λ f. f.last_sha) e)
  unfolding observe start_run finish_run
  step-sha (poll_observation _ _ _ _ _) e = ground arith
  step-sha u e = ground arith

  step-poll_at :
      (u : StateUpdate ObjectId) (e : Option FlowState)
      → field_of (λ f. f.last_poll_at) (step_flow to_hex u e)
        ≡ resolve (poll_verdict u) (field_of (λ f. f.last_poll_at) e)
  unfolding observe start_run finish_run
  step-poll_at (poll_observation _ _ _ _ _) e = ground arith
  step-poll_at u e = ground arith

  step-dispatched_at :
      (u : StateUpdate ObjectId) (e : Option FlowState)
      → field_of (λ f. f.last_dispatched_at) (step_flow to_hex u e)
        ≡ resolve (dispatch_verdict u) (field_of (λ f. f.last_dispatched_at) e)
  unfolding observe start_run finish_run
  step-dispatched_at (poll_observation _ _ _ _ _) e = ground arith
  step-dispatched_at u e = ground arith

  step-cooldown_until :
      (u : StateUpdate ObjectId) (e : Option FlowState)
      → field_of (λ f. f.cooldown_until) (step_flow to_hex u e)
        ≡ resolve (cooldown_verdict u) (field_of (λ f. f.cooldown_until) e)
  unfolding observe start_run finish_run
  step-cooldown_until (poll_observation _ _ _ _ _) e = ground arith
  step-cooldown_until u e = ground arith

  module _ (s : State) (us : List (StateUpdate ObjectId)) (g : String) where
    abbrev before : Option FlowState
    before = lookup g s.flows

    abbrev after : Option FlowState
    after = lookup g (apply_all to_hex s us).flows

    field-apply_all {ℓ} :
        {X : Type ℓ} (get : FlowState → Option X) (v : StateUpdate ObjectId → Verdict X)
        → ((u : StateUpdate ObjectId) (e : Option FlowState)
            → field_of get (step_flow to_hex u e) ≡ resolve (v u) (field_of get e))
        → field_of get after ≡ resolve (latest v g us) (field_of get before)
    field-apply_all get v step =
        ap (field_of get) (lookup-apply_all to_hex s us g) ∙ field-run_flow get v step g us before

    -- After any updates, each scalar field of a flow holds what the last update of that flow that
    -- speaks of the field said: the sha of the last observation, the time of the last poll of
    -- either kind, and the two times of the cooldown clock each from the last observation that
    -- carried it. A removal clears them all, and what no update speaks of stays as it was.
    pub apply_all_last_writer :
        (field_of (λ f. f.last_sha) after
          ≡ resolve (latest (sha_verdict to_hex) g us) (field_of (λ f. f.last_sha) before))
        × (field_of (λ f. f.last_poll_at) after
            ≡ resolve (latest poll_verdict g us) (field_of (λ f. f.last_poll_at) before))
        × (field_of (λ f. f.last_dispatched_at) after
            ≡ resolve (latest dispatch_verdict g us) (field_of (λ f. f.last_dispatched_at) before))
        × (field_of (λ f. f.cooldown_until) after
            ≡ resolve (latest cooldown_verdict g us) (field_of (λ f. f.cooldown_until) before))
    apply_all_last_writer = (
      field-apply_all (λ f. f.last_sha) (sha_verdict to_hex) step-sha,
      field-apply_all (λ f. f.last_poll_at) poll_verdict step-poll_at,
      field-apply_all (λ f. f.last_dispatched_at) dispatch_verdict step-dispatched_at,
      field-apply_all (λ f. f.cooldown_until) cooldown_verdict step-cooldown_until,
    )
