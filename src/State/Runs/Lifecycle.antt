-- ===== src/State/Runs/Lifecycle.antt =====
-- One run from its start to its end.
use gcit.Base.{
  ℕ, String, false, Option, none, some, List, [], ◌∷◌, ◌++◌, ◌≡◌, refl, subst, arith, any,
  any-append, extract, ==_refl,
}
use gcit.Base.Search.{Extract, absent, found, extract-Extract}
use gcit.State.Types.{DateTime, RunState, FlowState}
use gcit.State.Apply.{has_id, start_run, conclude, cap_notified, move_run, finish_run}
use gcit.State.Runs.Distinct.{IsDistinct, IsDistinct-remove}
use gcit.State.Runs.Invariant.{IsValid}

abbrev pub opened : ℕ → DateTime → RunState
opened run_id at = record {
  run_id = run_id;
  started_at = at;
  conclusion = none;
  completed_at = none;
}

extract-absent :
    (run_id : ℕ) (rs : List RunState)
    → any (has_id run_id) rs ≡ false
    → extract (has_id run_id) rs ≡ none
unfolding any extract
extract-absent run_id [] h = refl
extract-absent run_id (r ∷ rs) h = ground (arith, extract-absent run_id rs)

extract-push :
    (run_id : ℕ) (at : DateTime) (rs : List RunState)
    → any (has_id run_id) rs ≡ false
    → extract (has_id run_id) (rs ++ (opened run_id at ∷ [])) ≡ some (opened run_id at, rs)
unfolding any extract
extract-push run_id at [] h = ground (arith, ==_refl run_id)
extract-push run_id at (r ∷ rs) h = ground (arith, extract-push run_id at rs)

-- A run that is started, not being active, and finished leaves the active runs as they were, and
-- is the last of the notified runs before the cap, with the times and the conclusion of the two
-- updates.
pub finish_run-start_run :
    (run_id : ℕ) (started ended : DateTime) (conclusion : String) (f : FlowState)
    → any (has_id run_id) f.active_runs ≡ false
    → finish_run run_id conclusion ended (start_run run_id started f) ≡ record f {
      notified_runs =
          cap_notified
            (f.notified_runs ++ (conclude conclusion ended (opened run_id started) ∷ []));
    }
unfolding finish_run start_run
finish_run-start_run run_id started ended conclusion f h =
    rw (h) (rw (extract-push run_id started f.active_runs h))

-- A run that is not active is not finished again.
pub finish_run-absent :
    (run_id : ℕ) (at : DateTime) (conclusion : String) (f : FlowState)
    → any (has_id run_id) f.active_runs ≡ false
    → finish_run run_id conclusion at f ≡ f
unfolding finish_run
finish_run-absent run_id at conclusion f h = rw (extract-absent run_id f.active_runs h)

move_run-gone :
    (run_id : ℕ) (conclusion : String) (at : DateTime) (f : FlowState)
    (o : Option (RunState × List RunState))
    → Extract (has_id run_id) f.active_runs o
    → IsDistinct f.active_runs
    → any (has_id run_id) (move_run conclusion at f o).active_runs ≡ false
move_run-gone run_id conclusion at f none (absent h) d = h
move_run-gone run_id conclusion at f (some _) (found before r after clear passes e) d =
    let (rest, gone) = IsDistinct-remove before r after (subst IsDistinct e d) in
    let same : r.run_id ≡ run_id = ground (arith, passes) in
    subst (λ i. any (has_id i) (before ++ after) ≡ false) same gone

-- In a valid entry a second `RunFinished` for a run changes nothing, whatever it carries.
pub finish_run_once :
    (run_id : ℕ) (c c' : String) (t t' : DateTime) (f : FlowState)
    → IsValid f
    → finish_run run_id c' t' (finish_run run_id c t f) ≡ finish_run run_id c t f
finish_run_once run_id c c' t t' f v = finish_run-absent run_id t' c' _ gone
  where
    gone : any (has_id run_id) (finish_run run_id c t f).active_runs ≡ false
    gone =
        unfold finish_run in
        move_run-gone run_id c t f _ (extract-Extract (has_id run_id) f.active_runs) v.distinct

-- Starting a run that is active changes nothing: the first start's time stays.
pub start_run_once :
    (run_id : ℕ) (t t' : DateTime) (f : FlowState)
    → start_run run_id t' (start_run run_id t f) ≡ start_run run_id t f
unfolding start_run any
start_run_once run_id t t' f =
    ground (arith, any-append (has_id run_id) f.active_runs (opened run_id t ∷ []), ==_refl run_id)
