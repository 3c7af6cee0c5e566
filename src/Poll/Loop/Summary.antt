-- ===== src/Poll/Loop/Summary.antt =====
-- What the poll task has sent, against its variables and the time between its dispatches.
use mathlib.Core.Option
use gcit.Base.{
  ◌&&◌, String, Bool, true, false, Option, none, some, List, [], ◌∷◌, ◌++◌, append-nil,
  append_assoc, ◌≡◌, refl, sym, ap, ◌∙◌, subst, if_ind, arith, if◌then◌else◌, str_eq_refl,
}
use gcit.State.Types.{DateTime, StateUpdate, poll_observation, poll_timestamp}
use gcit.State.Latest.{
  Verdict, resolve, resolve-override, latest, latest-append, sha_verdict, dispatch_verdict,
}
use gcit.Poll.Strategy.{Duration, compare_sha}
use gcit.Poll.Executor.{refreshed, unborn_ref, unchanged, PollResult, ok, failed, poll_one}
use gcit.Poll.Send.{
  TriggerSend, cancel_fired, delivered, receiver_dropped, Message, trigger, update, Poller,
  send_state, send_trigger_then_observation,
}
use gcit.Poll.Loop.{
  is_cooled_down, PollParams, Round, CycleAction, continue, return, is_return,
  maybe_clear_last_error, note_error, finish_cycle, handle_unchanged, after_unborn,
  handle_unborn_ref, after_dispatch, after_baseline, handle_refreshed, handle_outcome, poll_round,
  run_with_executor,
}
use gcit.Poll.Loop.Messages.{
  IsSpaced, last_time, IsSpaced-append, last_time-append, trigger_times, updates,
  trigger_times-append, updates-append, IsAnnounced, IsAnnounced-append,
}

is_cooled_down_lem :
    (prev : Option DateTime) (now : DateTime) (cooldown : Duration)
    → is_cooled_down prev now cooldown ≡ true
    → IsSpaced cooldown prev (now ∷ [])
unfolding is_cooled_down
is_cooled_down_lem none now cooldown h = tt
is_cooled_down_lem (some t) now cooldown h = ground arith

module _ {ObjectId : Type 0} (to_hex : ObjectId → String) (p : PollParams) where
  -- What is so of the messages `new` that are sent while the task goes from `t` to `t'`.
  pub record Sends (t : Poller ObjectId) (new : List (Message ObjectId)) (t' : Poller ObjectId)
      (going : Bool) : Type 0 where
    pub log_is : t'.log ≡ t.log ++ new
    pub spaced : IsSpaced p.cooldown t.last_dispatched_at (trigger_times new)
    pub announced : IsAnnounced none new
    pub times_is :
        going ≡ true → t'.last_dispatched_at ≡ last_time t.last_dispatched_at (trigger_times new)
    pub sha_is :
        going ≡ true
        → Option.map to_hex t'.last_sha
          ≡ resolve
              (latest (sha_verdict to_hex) p.flow_name (updates new))
              (Option.map to_hex t.last_sha)
    pub dispatched_is :
        going ≡ true
        → t'.last_dispatched_at
          ≡ resolve (latest dispatch_verdict p.flow_name (updates new)) t.last_dispatched_at

  abbrev pub Summary : Poller ObjectId → Poller ObjectId × CycleAction → Type 0
  Summary t (t', continue) = (new : List (Message ObjectId)) × Sends t new t' true
  Summary t (t', return) = (new : List (Message ObjectId)) × Sends t new t' false

  -- A round that sends nothing and changes no variable that is persisted.
  quiet :
      (t t' : Poller ObjectId) (going : Bool)
      → t'.log ≡ t.log
      → t'.last_sha ≡ t.last_sha
      → t'.last_dispatched_at ≡ t.last_dispatched_at
      → Sends t [] t' going
  unfolding latest
  quiet t t' going log sha dispatched = record {
    log_is = log ∙ sym (append-nil t.log);
    spaced = tt;
    announced = tt;
    times_is = λ _. dispatched;
    sha_is = λ _. ap (Option.map to_hex) sha;
    dispatched_is = λ _. dispatched;
  }

  -- A liveness stamp.
  stamped :
      (t t' : Poller ObjectId) (at : DateTime) (going : Bool)
      → t'.log ≡ t.log ++ (update (poll_timestamp p.flow_name at) ∷ [])
      → t'.last_sha ≡ t.last_sha
      → t'.last_dispatched_at ≡ t.last_dispatched_at
      → Sends t (update (poll_timestamp p.flow_name at) ∷ []) t' going
  unfolding latest
  stamped t t' at going log sha dispatched = record {
    log_is = log;
    spaced = tt;
    announced = (tt, tt);
    times_is = λ _. dispatched;
    sha_is = λ _. rw (str_eq_refl p.flow_name) (ap (Option.map to_hex) sha);
    dispatched_is = λ _. rw (str_eq_refl p.flow_name) dispatched;
  }

  -- An observation with no trigger: the variable follows it.
  observed :
      (t t' : Poller ObjectId) (sha : ObjectId) (at : DateTime)
      → t'.log ≡ t.log ++ (update (poll_observation p.flow_name sha at none none) ∷ [])
      → t'.last_sha ≡ some sha
      → t'.last_dispatched_at ≡ t.last_dispatched_at
      → Sends t (update (poll_observation p.flow_name sha at none none) ∷ []) t' true
  unfolding latest
  observed t t' sha at log new dispatched = record {
    log_is = log;
    spaced = tt;
    announced = (tt, tt);
    times_is = λ _. dispatched;
    sha_is = λ _. rw (str_eq_refl p.flow_name) (ap (Option.map to_hex) new);
    dispatched_is = λ _. rw (str_eq_refl p.flow_name) dispatched;
  }

  -- A trigger and its observation.
  dispatched :
      (t t' : Poller ObjectId) (sha : ObjectId) (at : DateTime) (until : Option DateTime)
      → is_cooled_down t.last_dispatched_at at p.cooldown ≡ true
      → t'.log
        ≡ t.log
          ++ (trigger sha at ∷ update (poll_observation p.flow_name sha at (some at) until) ∷ [])
      → t'.last_sha ≡ some sha
      → t'.last_dispatched_at ≡ some at
      → Sends t
          (trigger sha at ∷ update (poll_observation p.flow_name sha at (some at) until) ∷ [])
          t'
          true
  unfolding latest
  dispatched t t' sha at until cool log new now = record {
    log_is = log;
    spaced = is_cooled_down_lem t.last_dispatched_at at p.cooldown cool;
    announced = (tt, (refl, tt));
    times_is = λ _. now;
    sha_is = λ _. rw (str_eq_refl p.flow_name) (ap (Option.map to_hex) new);
    dispatched_is = λ _. rw (str_eq_refl p.flow_name) now;
  }

  -- A trigger whose observation the state writer did not take.
  stranded :
      (t t' : Poller ObjectId) (sha : ObjectId) (at : DateTime)
      → is_cooled_down t.last_dispatched_at at p.cooldown ≡ true
      → t'.log ≡ t.log ++ (trigger sha at ∷ [])
      → Sends t (trigger sha at ∷ []) t' false
  stranded t t' sha at cool log = record {
    log_is = log;
    spaced = is_cooled_down_lem t.last_dispatched_at at p.cooldown cool;
    announced = (tt, tt);
    times_is = λ e. cc;
    sha_is = λ e. cc;
    dispatched_is = λ e. cc;
  }

  -- Clearing the last error is no message.
  cleared_Summary :
      (t t' : Poller ObjectId) (new : List (Message ObjectId))
      → Sends t new t' true
      → Summary t (maybe_clear_last_error p t', continue)
  unfolding maybe_clear_last_error
  cleared_Summary t t' new s =
      if_ind (λ t''. Summary t (t'', continue)) t'.last_error_cleared (λ _. (new, s))
        λ _. (
          new,
          record {
            log_is = s.log_is;
            spaced = s.spaced;
            announced = s.announced;
            times_is = s.times_is;
            sha_is = s.sha_is;
            dispatched_is = s.dispatched_is;
          },
        )

  stamp_Summary :
      (t : Poller ObjectId) (at : DateTime) (alive : Bool)
      → Summary t (finish_cycle p (send_state alive (poll_timestamp p.flow_name at) t))
  unfolding finish_cycle send_state
  stamp_Summary t at true = cleared_Summary t _ _ (stamped t _ at true refl refl refl)
  stamp_Summary t at false = ([], quiet t t false refl refl refl)

  unborn_Summary : (t : Poller ObjectId) (r : Round ObjectId) → Summary t (handle_unborn_ref p r t)
  unfolding handle_unborn_ref
  unborn_Summary t r = go r.writer_alive
    where
      go :
          (alive : Bool)
          → Summary t (after_unborn p r (send_state alive (poll_timestamp p.flow_name r.now) t))
      go true = (_, stamped t _ r.now true refl refl refl)
      go false = ([], quiet t t false refl refl refl)

  baseline_Summary :
      (t : Poller ObjectId) (r : Round ObjectId) (sha : ObjectId) (alive : Bool)
      → Summary t (
          after_baseline p sha
            (send_state alive (poll_observation p.flow_name sha r.now none none) t))
  unfolding after_baseline send_state
  baseline_Summary t r sha true = cleared_Summary t _ _ (observed t _ sha r.now refl refl refl)
  baseline_Summary t r sha false = ([], quiet t t false refl refl refl)

  dispatch_Summary :
      (t : Poller ObjectId) (at : DateTime) (sha : ObjectId) (until : Option DateTime)
      (way : TriggerSend) (alive : Bool)
      → is_cooled_down t.last_dispatched_at at p.cooldown ≡ true
      → Summary t (
          after_dispatch p sha at (
            send_trigger_then_observation
              (some (sha, at))
              (poll_observation p.flow_name sha at (some at) until)
              way
              alive
              t))
  unfolding after_dispatch send_trigger_then_observation
  dispatch_Summary t at sha until cancel_fired alive cool = ([], quiet t t false refl refl refl)
  dispatch_Summary t at sha until receiver_dropped alive cool = ([], quiet t t false refl refl refl)
  dispatch_Summary t at sha until delivered true cool =
      cleared_Summary t _ _ (dispatched t _ sha at until cool (append_assoc t.log _ _) refl refl)
  dispatch_Summary t at sha until delivered false cool = (_, stranded t _ sha at cool refl)

  module _ (same : Discrete ObjectId) (from_std : Duration → Option Duration) where
    refreshed_Summary :
        (t : Poller ObjectId) (r : Round ObjectId) (sha : ObjectId)
        → Summary t (handle_refreshed same from_std p r sha t)
    unfolding handle_refreshed
    refreshed_Summary t r sha =
        if_ind (Summary t) (compare_sha same t.last_sha sha).trigger
          (λ _.
            if_ind (Summary t) (is_cooled_down t.last_dispatched_at r.now p.cooldown)
              (dispatch_Summary t r.now sha _ r.trigger_send r.writer_alive)
              (λ _. stamp_Summary t r.now r.writer_alive))
          (λ _. baseline_Summary t r sha r.writer_alive)

    outcome_Summary :
        (t : Poller ObjectId) (r : Round ObjectId) (result : PollResult ObjectId)
        → Summary t (handle_outcome same from_std p r result t)
    unfolding note_error handle_unchanged
    outcome_Summary t r PollResult.cancelled = ([], quiet t t false refl refl refl)
    outcome_Summary t r (failed message) = ([], quiet t _ true refl refl refl)
    outcome_Summary t r (ok (refreshed sha)) = refreshed_Summary t r sha
    outcome_Summary t r (ok unchanged) = stamp_Summary t r.now r.writer_alive
    outcome_Summary t r (ok unborn_ref) = unborn_Summary t r

    -- The cached fingerprint is no part of a summary.
    with_fingerprint :
        (t : Poller ObjectId) (cached : Option String) (out : Poller ObjectId × CycleAction)
        → Summary (record t { fingerprint = cached }) out
        → Summary t out
    with_fingerprint t cached (t', continue) (new, s) = (
      new,
      record {
        log_is = s.log_is;
        spaced = s.spaced;
        announced = s.announced;
        times_is = s.times_is;
        sha_is = s.sha_is;
        dispatched_is = s.dispatched_is;
      },
    )
    with_fingerprint t cached (t', return) (new, s) = (
      new,
      record {
        log_is = s.log_is;
        spaced = s.spaced;
        announced = s.announced;
        times_is = s.times_is;
        sha_is = s.sha_is;
        dispatched_is = s.dispatched_is;
      },
    )

    round_Summary :
        (t : Poller ObjectId) (r : Round ObjectId) → Summary t (poll_round same from_std p r t)
    unfolding poll_round
    round_Summary t r =
        if_ind (Summary t) r.sleep_cancelled (λ _. ([], quiet t t false refl refl refl))
          λ _.
            if_ind (Summary t) (p.has_rate_bucket && r.rate_cancelled)
              (λ _. ([], quiet t t false refl refl refl))
              (λ _.
                with_fingerprint t _ _
                  (outcome_Summary _ r (poll_one p.strategy t.fingerprint r.upstream).0))

    -- Two parts of a run, the first of which goes on.
    join :
        (t t' t'' : Poller ObjectId) (ms ns : List (Message ObjectId)) (going : Bool)
        → Sends t ms t' true
        → Sends t' ns t'' going
        → Sends t (ms ++ ns) t'' going
    join t t' t'' ms ns going a b = record {
      log_is = b.log_is ∙ ap (λ l. l ++ ns) a.log_is ∙ append_assoc t.log ms ns;
      spaced = rw (trigger_times-append ms ns) (
          IsSpaced-append p.cooldown t.last_dispatched_at (trigger_times ms) (trigger_times ns)
            a.spaced
            (subst (λ d. IsSpaced p.cooldown d (trigger_times ns)) (a.times_is refl) b.spaced));
      announced = IsAnnounced-append none ms ns a.announced b.announced;
      times_is = λ g.
          b.times_is g
          ∙ ap (λ d. last_time d (trigger_times ns)) (a.times_is refl)
          ∙ sym (last_time-append t.last_dispatched_at (trigger_times ms) (trigger_times ns))
          ∙ ap (last_time t.last_dispatched_at) (sym (trigger_times-append ms ns));
      sha_is = λ g. b.sha_is g ∙ chain (sha_verdict to_hex) _ _ (a.sha_is refl);
      dispatched_is = λ g. b.dispatched_is g ∙ chain dispatch_verdict _ _ (a.dispatched_is refl);
    }
      where
        chain :
            {X : Type 0} (v : StateUpdate ObjectId → Verdict X) (x y : Option X)
            → y ≡ resolve (latest v p.flow_name (updates ms)) x
            → resolve (latest v p.flow_name (updates ns)) y
              ≡ resolve (latest v p.flow_name (updates (ms ++ ns))) x
        chain v x y e =
            ap (resolve (latest v p.flow_name (updates ns))) e
            ∙ resolve-override (latest v p.flow_name (updates ns))
                (latest v p.flow_name (updates ms)) x
            ∙ ap (λ w. resolve w x)
                (sym (latest-append v p.flow_name (updates ms) (updates ns))
                  ∙ ap (latest v p.flow_name) (sym (updates-append ms ns)))

    pub run_Summary :
        (rs : List (Round ObjectId)) (t : Poller ObjectId)
        → Summary t (run_with_executor same from_std p rs t)
    unfolding run_with_executor
    run_Summary [] t = ([], quiet t t true refl refl refl)
    run_Summary (r ∷ rs) t =
        go (poll_round same from_std p r t) (round_Summary t r)
          (run_Summary rs (poll_round same from_std p r t).0)
      where
        go :
            (out : Poller ObjectId × CycleAction)
            → Summary t out
            → Summary out.0 (run_with_executor same from_std p rs out.0)
            → Summary t (
                let rest = run_with_executor same from_std p rs out.0 in
                if is_return out.1 then (out.0, return) else rest)
        go (t', return) a b = a
        go (t', continue) (ms, a) b = later (run_with_executor same from_std p rs t') b
          where
            later : (out : Poller ObjectId × CycleAction) → Summary t' out → Summary t out
            later (t'', continue) (ns, b) = (ms ++ ns, join t t' t'' ms ns true a b)
            later (t'', return) (ns, b) = (ms ++ ns, join t t' t'' ms ns false a b)
