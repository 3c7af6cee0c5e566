-- ===== src/Supervisor/Reload/Handles.antt =====
-- What a reload makes of one flow's handle.
use gcit.Base.{
  ℕ, ◌==◌, ==_refl, ◌||◌, String, Bool, true, false, Option, none, some, ◌≡◌, refl, sym, ap, ◌∙◌,
  subst, if◌then◌else◌, arith, str_eq, str_eq_refl, any, ◌⊎◌, inl, inr,
}
use gcit.Base.Dict.{Dict, lookup, remove, lookup-insert, lookup-remove}
use gcit.Supervisor.Types.{FlowHandle, Supervisor}
use gcit.Supervisor.Reload.{Planning, cancel_found, keep_found, plan_keep, cancel_drained}
use gcit.Supervisor.Reload.Action.{ReloadAction}

abbrev pub IsCancelled : ℕ → Supervisor → Type 0
IsCancelled token d = any (λ t. t == token) d.cancelled ≡ true

cancel_found-handles :
    (o : Option FlowHandle) (d : Supervisor)
    → (cancel_found o d).registry.handles ≡ d.registry.handles
cancel_found-handles none d = refl
cancel_found-handles (some h) d = refl

pub cancel_found-grows :
    (token : ℕ) (o : Option FlowHandle) (d : Supervisor)
    → IsCancelled token d
    → IsCancelled token (cancel_found o d)
unfolding any
cancel_found-grows token none d c = c
cancel_found-grows token (some h) d c = ground (arith, c)

cancel_found-IsCancelled :
    (h : FlowHandle) (o : Option FlowHandle) (d : Supervisor)
    → o ≡ some h
    → IsCancelled h.cancel (cancel_found o d)
unfolding any
cancel_found-IsCancelled h o d e =
    subst (λ x. IsCancelled h.cancel (cancel_found x d)) (sym e)
      (ap (λ b. b || any (λ t. t == h.cancel) d.cancelled) (==_refl h.cancel))

keep_found-cancelled :
    (name : String) (o : Option FlowHandle) (d : Supervisor)
    → (keep_found name o d).cancelled ≡ d.cancelled
keep_found-cancelled name none d = refl
keep_found-cancelled name (some h) d = refl

keep_found-handles_other :
    (name flow : String) (o : Option FlowHandle) (d : Supervisor)
    → str_eq name flow ≡ false
    → lookup flow (keep_found name o d).registry.handles ≡ lookup flow d.registry.handles
keep_found-handles_other name flow none d e = refl
keep_found-handles_other name flow (some h) d e =
    lookup-insert name flow h d.registry.handles
    ∙ ap (λ b. if b then some h else lookup flow d.registry.handles) e

keep_found-handles_self :
    (flow : String) (h : FlowHandle) (o : Option FlowHandle) (d : Supervisor)
    → o ≡ some h
    → lookup flow (keep_found flow o d).registry.handles ≡ some h
keep_found-handles_self flow h o d e =
    subst (λ x. lookup flow (keep_found flow x d).registry.handles ≡ some h) (sym e)
      (lookup-insert flow flow h d.registry.handles
        ∙ ap (λ b. if b then some h else lookup flow d.registry.handles) (str_eq_refl flow))

lookup-remove_self {ℓ} : {V : Type ℓ} (k : String) (m : Dict V) → lookup k (remove k m) ≡ none
lookup-remove_self k m =
    lookup-remove k k m ∙ ap (λ b. if b then none else lookup k m) (str_eq_refl k)

lookup-remove_other {ℓ} :
    {V : Type ℓ} (k j : String) (m : Dict V)
    → str_eq k j ≡ false
    → lookup j (remove k m) ≡ lookup j m
lookup-remove_other k j m e = lookup-remove k j m ∙ ap (λ b. if b then none else lookup j m) e

pub clash {ℓ} : {A : Type ℓ} (b : Bool) → b ≡ true → b ≡ false → A
clash b e n = absurd (ground (arith, e, n))

-- One flow, its handle before the reload, and whether the reload keeps it.
module _ (flow : String) (h : FlowHandle) (kept : Bool) where
  -- No action has spoken of the flow yet.
  abbrev pub Fresh : Planning → Type 0
  Fresh p = (lookup flow p.drained ≡ some h) × (lookup flow p.supervisor.registry.handles ≡ none)

  abbrev pub Settled : Supervisor → Type 0
  Settled d =
      (lookup flow d.registry.handles ≡ (if kept then some h else none))
      × (kept ≡ false → IsCancelled h.cancel d)

  abbrev pub Done : Planning → Type 0
  Done p = (lookup flow p.drained ≡ none) × Settled p.supervisor

  -- The action suits what becomes of the flow, which has a handle.
  abbrev pub Suits : ReloadAction → Type 0
  Suits (ReloadAction.keep name) = str_eq name flow ≡ true → kept ≡ true
  Suits (ReloadAction.remove name true) = str_eq name flow ≡ true → kept ≡ false
  Suits (ReloadAction.remove name false) = str_eq name flow ≡ false
  Suits (ReloadAction.disable name _) = str_eq name flow ≡ true → kept ≡ false
  Suits (ReloadAction.restart name _) = str_eq name flow ≡ true → kept ≡ false
  Suits (ReloadAction.spawn name) = str_eq name flow ≡ false

  cancel_drained-Done_first : (p : Planning) → kept ≡ false → Fresh p → Done (cancel_drained flow p)
  unfolding cancel_drained
  cancel_drained-Done_first p k (e, free) = (
    lookup-remove_self flow p.drained,
    (
      ap (lookup flow) (cancel_found-handles (lookup flow p.drained) p.supervisor)
          ∙ free
          ∙ ap (λ b. if b then some h else none) (sym k),
      λ _. cancel_found-IsCancelled h (lookup flow p.drained) p.supervisor e,
    ),
  )

  cancel_drained-Done_again : (p : Planning) → Done p → Done (cancel_drained flow p)
  unfolding cancel_drained
  cancel_drained-Done_again p (gone, (held, c)) = (
    lookup-remove_self flow p.drained,
    (
      ap (lookup flow) (cancel_found-handles (lookup flow p.drained) p.supervisor) ∙ held,
      λ k. cancel_found-grows h.cancel (lookup flow p.drained) p.supervisor (c k),
    ),
  )

  abbrev pub At : Planning → Type 0
  At p = Fresh p ⊎ Done p

  pub cancel_drained-Done : (p : Planning) → kept ≡ false → At p → Done (cancel_drained flow p)
  cancel_drained-Done p k (inl fresh) = cancel_drained-Done_first p k fresh
  cancel_drained-Done p k (inr done) = cancel_drained-Done_again p done

  pub cancel_drained-Stays :
      (name : String) (p : Planning)
      → str_eq name flow ≡ false
      → Done p
      → Done (cancel_drained name p)
  unfolding cancel_drained
  cancel_drained-Stays name p other (gone, (held, c)) = (
    lookup-remove_other name flow p.drained other ∙ gone,
    (
      ap (lookup flow) (cancel_found-handles (lookup name p.drained) p.supervisor) ∙ held,
      λ k. cancel_found-grows h.cancel (lookup name p.drained) p.supervisor (c k),
    ),
  )

  pub cancel_drained-At :
      (name : String) (p : Planning) → str_eq name flow ≡ false → At p → At (cancel_drained name p)
  unfolding cancel_drained
  cancel_drained-At name p other (inl (e, free)) = inl (
    lookup-remove_other name flow p.drained other ∙ e,
    ap (lookup flow) (cancel_found-handles (lookup name p.drained) p.supervisor) ∙ free,
  )
  cancel_drained-At name p other (inr done) = inr (cancel_drained-Stays name p other done)

  -- A second `keep` of the flow finds no handle.
  keep_found-handles_again :
      (o : Option FlowHandle) (d : Supervisor)
      → o ≡ none
      → lookup flow (keep_found flow o d).registry.handles ≡ lookup flow d.registry.handles
  keep_found-handles_again o d e = ap (λ x. lookup flow (keep_found flow x d).registry.handles) e

  pub plan_keep-Done : (p : Planning) → kept ≡ true → At p → Done (plan_keep flow p)
  unfolding plan_keep
  plan_keep-Done p k (inl (e, free)) = (
    lookup-remove_self flow p.drained,
    (
      keep_found-handles_self flow h (lookup flow p.drained) p.supervisor e
          ∙ ap (λ b. if b then some h else none) (sym k),
      λ n. clash kept k n,
    ),
  )
  plan_keep-Done p k (inr (gone, (held, c))) = (
    lookup-remove_self flow p.drained,
    (
      keep_found-handles_again (lookup flow p.drained) p.supervisor gone ∙ held,
      λ n. clash kept k n,
    ),
  )

  pub plan_keep-Stays :
      (name : String) (p : Planning) → str_eq name flow ≡ false → Done p → Done (plan_keep name p)
  unfolding plan_keep
  plan_keep-Stays name p other (gone, (held, c)) = (
    lookup-remove_other name flow p.drained other ∙ gone,
    (
      keep_found-handles_other name flow (lookup name p.drained) p.supervisor other ∙ held,
      λ k.
          ap (any (λ t. t == h.cancel))
            (keep_found-cancelled name (lookup name p.drained) p.supervisor)
          ∙ c k,
    ),
  )

  pub plan_keep-At :
      (name : String) (p : Planning) → str_eq name flow ≡ false → At p → At (plan_keep name p)
  unfolding plan_keep
  plan_keep-At name p other (inl (e, free)) = inl (
    lookup-remove_other name flow p.drained other ∙ e,
    keep_found-handles_other name flow (lookup name p.drained) p.supervisor other ∙ free,
  )
  plan_keep-At name p other (inr done) = inr (plan_keep-Stays name p other done)
