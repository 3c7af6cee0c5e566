-- ===== src/Poll/Loop/Suppression.antt =====
-- A dispatch that the cooldown holds back, and what becomes of it.
use mathlib.Core.Option
use gcit.Base.{
  ◌+◌, String, Bool, true, false, Option, none, some, List, [], ◌∷◌, ◌++◌, append-nil, append_assoc,
  ◌≡◌, ◌≢◌, refl, ap, ◌∙◌, if_ind, arith, ◌&&◌, str_eq_refl, All,
}
use gcit.State.Types.{StateUpdate, poll_observation, poll_timestamp}
use gcit.Poll.Strategy.{Duration, grokmirror}
use gcit.Poll.Executor.{
  refreshed, PollResult, ok, Upstream, poll_one, replied, error, fingerprint, is_prev, of_reply,
}
use gcit.Poll.Send.{delivered, trigger, update, Poller}
use gcit.Poll.Loop.{
  is_cooled_down, PollParams, Round, CycleAction, continue, is_return, note_error, handle_unchanged,
  handle_unborn_ref, handle_refreshed, handle_outcome, poll_round, run_with_executor,
}
use gcit.Poll.Loop.Messages.{trigger_times, trigger_times-append}

module _ {ObjectId : Type 0} (same : Discrete ObjectId) (from_std : Duration → Option Duration)
    (p : PollParams) (r : Round ObjectId) (sha prev : ObjectId) (t : Poller ObjectId) where
  -- While the cooldown runs, a new sha sends a liveness stamp and leaves the last sha as it was.
  pub handle_refreshed_suppressed :
      t.last_sha ≡ some prev
      → prev ≢ sha
      → is_cooled_down t.last_dispatched_at r.now p.cooldown ≡ false
      → r.writer_alive ≡ true
      → let t' = (handle_refreshed same from_std p r sha t).0 in
        (t'.last_sha ≡ some prev)
        × (t'.last_dispatched_at ≡ t.last_dispatched_at)
        × (t'.log ≡ t.log ++ (update (poll_timestamp p.flow_name r.now) ∷ []))
        × (t'.fingerprint ≡ t.fingerprint)
        × ((handle_refreshed same from_std p r sha t).1 ≡ continue)
  unfolding handle_refreshed
  handle_refreshed_suppressed last new hot alive = ground (arith, same prev sha)

  -- Once the cooldown is over, a new sha is dispatched.
  abbrev pub armed : StateUpdate ObjectId
  armed =
      poll_observation p.flow_name sha r.now (some r.now)
        (Option.map (λ d. r.now + d) (from_std p.cooldown))

  handle_refreshed_fires :
      t.last_sha ≡ some prev
      → prev ≢ sha
      → is_cooled_down t.last_dispatched_at r.now p.cooldown ≡ true
      → r.trigger_send ≡ delivered
      → r.writer_alive ≡ true
      → ((handle_refreshed same from_std p r sha t).0.last_sha ≡ some sha)
        × ((handle_refreshed same from_std p r sha t).0.last_dispatched_at ≡ some r.now)
        × ((handle_refreshed same from_std p r sha t).0.log
            ≡ t.log ++ (trigger sha r.now ∷ update armed ∷ []))
  unfolding handle_refreshed
  handle_refreshed_fires last new cool taken alive =
      ground (arith, same prev sha, append_assoc t.log (trigger sha r.now ∷ []) (update armed ∷ []))

module _ {ObjectId : Type 0} (same : Discrete ObjectId) (from_std : Duration → Option Duration)
    (p : PollParams) where
  abbrev is_refreshed : PollResult ObjectId → Bool
  is_refreshed (ok (refreshed _)) = true
  is_refreshed _ = false

  -- With the fingerprint that is cached, the ref is not looked up.
  poll_one_same_fingerprint :
      (fp : String) (up : Upstream ObjectId)
      → up.manifest ≡ replied (fingerprint fp)
      → (is_refreshed (poll_one grokmirror (some fp) up).0 ≡ false)
        × ((poll_one grokmirror (some fp) up).1 ≡ some fp)
  unfolding poll_one
  poll_one_same_fingerprint fp up e = ground (arith, str_eq_refl fp)

  handle_outcome_silent :
      (r : Round ObjectId) (result : PollResult ObjectId) (t : Poller ObjectId)
      → is_refreshed result ≡ false
      → (trigger_times (handle_outcome same from_std p r result t).0.log ≡ trigger_times t.log)
        × ((handle_outcome same from_std p r result t).0.fingerprint ≡ t.fingerprint)
  unfolding note_error handle_unchanged handle_unborn_ref
  handle_outcome_silent r result t h = ground (
    arith,
    append-nil (trigger_times t.log),
    trigger_times-append t.log (update (poll_timestamp p.flow_name r.now) ∷ []),
  )

  round_silent :
      (fp : String) (r : Round ObjectId) (t : Poller ObjectId)
      → p.strategy ≡ grokmirror
      → r.upstream.manifest ≡ replied (fingerprint fp)
      → t.fingerprint ≡ some fp
      → (trigger_times (poll_round same from_std p r t).0.log ≡ trigger_times t.log)
        × ((poll_round same from_std p r t).0.fingerprint ≡ some fp)
  unfolding poll_round
  round_silent fp r t grok e cached =
      if_ind P r.sleep_cancelled (λ _. (refl, cached))
        λ _.
          if_ind P (p.has_rate_bucket && r.rate_cancelled) (λ _. (refl, cached))
            λ _.
              let s = handle_outcome_silent r polled.0 (record t { fingerprint = polled.1 }) q.0 in
              (s.0, s.1 ∙ q.1)
    where
      P : Poller ObjectId × CycleAction → Type 0
      P o = (trigger_times o.0.log ≡ trigger_times t.log) × (o.0.fingerprint ≡ some fp)

      polled : PollResult ObjectId × Option String
      polled = poll_one p.strategy t.fingerprint r.upstream

      q : (is_refreshed polled.0 ≡ false) × (polled.1 ≡ some fp)
      q = rw (grok, cached) (poll_one_same_fingerprint fp r.upstream e)

  -- While the manifest shows the cached fingerprint, nothing is dispatched.
  run_silent :
      (fp : String) (rs : List (Round ObjectId)) (t : Poller ObjectId)
      → p.strategy ≡ grokmirror
      → All (λ r. r.upstream.manifest ≡ replied (fingerprint fp)) rs
      → t.fingerprint ≡ some fp
      → trigger_times (run_with_executor same from_std p rs t).0.log ≡ trigger_times t.log
  unfolding run_with_executor
  run_silent fp [] t grok h cached = refl
  run_silent fp (r ∷ rs) t grok h cached =
      let (now, kept) = round_silent fp r t grok h.0 cached in
      if_ind (λ (o : Poller ObjectId × CycleAction). trigger_times o.0.log ≡ trigger_times t.log)
        (is_return (poll_round same from_std p r t).1) (λ _. now)
        (λ _. run_silent fp rs (poll_round same from_std p r t).0 grok h.1 kept ∙ now)

  -- A poll that gets as far as the manifest, which shows `fp`.
  pub record Reaches (fp : String) (r : Round ObjectId) : Type 0 where
    pub awake : r.sleep_cancelled ≡ false
    pub admitted : r.rate_cancelled ≡ false
    pub reqwest : r.upstream.has_reqwest ≡ true
    pub base : r.upstream.has_base_url ≡ true
    pub path : r.upstream.repo_path_error ≡ none
    pub shows : r.upstream.manifest ≡ replied (fingerprint fp)

  poll_one_resolves :
      (fp : String) (r : Round ObjectId) (cached : Option String)
      → Reaches fp r
      → is_prev cached fp ≡ false
      → poll_one grokmirror cached r.upstream ≡ (of_reply r.upstream.ls_remote_reply, some fp)
  unfolding poll_one
  poll_one_resolves fp r cached h moved = ground arith

  poll_round_resolves :
      (fp : String) (r : Round ObjectId) (t : Poller ObjectId)
      → p.strategy ≡ grokmirror
      → Reaches fp r
      → is_prev t.fingerprint fp ≡ false
      → poll_round same from_std p r t
        ≡ handle_outcome same from_std p r
            (of_reply r.upstream.ls_remote_reply)
            (record t { fingerprint = some fp })
  unfolding poll_round
  poll_round_resolves fp r t grok h moved =
      ground (arith, poll_one_resolves fp r t.fingerprint h moved)

  module _ (fp : String) (r : Round ObjectId) (rs : List (Round ObjectId)) (t : Poller ObjectId)
      (grok : p.strategy ≡ grokmirror) (reaches : Reaches fp r)
      (moved : is_prev t.fingerprint fp ≡ false)
      (shown : All
        (λ (r' : Round ObjectId). r'.upstream.manifest ≡ replied (fingerprint fp))
        rs) where
    after_first :
        trigger_times (poll_round same from_std p r t).0.log ≡ trigger_times t.log
        → (poll_round same from_std p r t).0.fingerprint ≡ some fp
        → trigger_times (run_with_executor same from_std p (r ∷ rs) t).0.log ≡ trigger_times t.log
    unfolding run_with_executor
    after_first now kept =
        if_ind (λ (o : Poller ObjectId × CycleAction). trigger_times o.0.log ≡ trigger_times t.log)
          (is_return (poll_round same from_std p r t).1) (λ _. now)
          (λ _. run_silent fp rs (poll_round same from_std p r t).0 grok shown kept ∙ now)

    -- Under the grokmirror strategy a new fingerprint is remembered though resolving the ref
    -- failed: as long as the manifest goes on showing it, the task dispatches nothing, whatever
    -- the ref is.
    pub run_with_executor_lost_to_error :
        (message : String)
        → r.upstream.ls_remote_reply ≡ error message
        → trigger_times (run_with_executor same from_std p (r ∷ rs) t).0.log ≡ trigger_times t.log
    unfolding note_error
    run_with_executor_lost_to_error message e =
        after_first (rw (poll_round_resolves fp r t grok reaches moved) (rw e refl))
          (rw (poll_round_resolves fp r t grok reaches moved) (rw e refl))

    -- Under the grokmirror strategy a new sha that the cooldown holds back is not dispatched when
    -- the cooldown is over, as long as the manifest goes on showing the fingerprint of that poll.
    pub run_with_executor_lost_to_cooldown :
        (prev sha : ObjectId)
        → r.upstream.ls_remote_reply ≡ replied (refreshed sha)
        → t.last_sha ≡ some prev
        → prev ≢ sha
        → is_cooled_down t.last_dispatched_at r.now p.cooldown ≡ false
        → r.writer_alive ≡ true
        → trigger_times (run_with_executor same from_std p (r ∷ rs) t).0.log ≡ trigger_times t.log
    run_with_executor_lost_to_cooldown prev sha e last new hot alive =
        after_first
          (rw resolved (
            ap trigger_times held.2
            ∙ trigger_times-append t.log _
            ∙ append-nil (trigger_times t.log)))
          (rw resolved held.3)
      where
        cached : Poller ObjectId
        cached = record t { fingerprint = some fp }

        resolved : poll_round same from_std p r t ≡ handle_refreshed same from_std p r sha cached
        resolved =
            poll_round_resolves fp r t grok reaches moved
            ∙ ap (λ reply. handle_outcome same from_std p r (of_reply reply) cached) e

        held :
            let t' = (handle_refreshed same from_std p r sha cached).0 in
            (t'.last_sha ≡ some prev)
            × (t'.last_dispatched_at ≡ t.last_dispatched_at)
            × (t'.log ≡ t.log ++ (update (poll_timestamp p.flow_name r.now) ∷ []))
            × (t'.fingerprint ≡ some fp)
            × ((handle_refreshed same from_std p r sha cached).1 ≡ continue)
        held = handle_refreshed_suppressed same from_std p r sha prev cached last new hot alive

module _ {ObjectId : Type 0} (same : Discrete ObjectId) (from_std : Duration → Option Duration)
    (p : PollParams) (r r' : Round ObjectId) (prev sha sha' : ObjectId) (t : Poller ObjectId) where
  -- A new sha that the cooldown holds back is not forgotten: when the next poll that resolves the
  -- ref comes after the cooldown, the dispatcher and the writer take what is sent, and the sha
  -- that it finds differs from the last one that was observed, that sha is dispatched with its
  -- observation.
  pub handle_refreshed_again :
      t.last_sha ≡ some prev
      → prev ≢ sha
      → is_cooled_down t.last_dispatched_at r.now p.cooldown ≡ false
      → r.writer_alive ≡ true
      → prev ≢ sha'
      → is_cooled_down t.last_dispatched_at r'.now p.cooldown ≡ true
      → r'.trigger_send ≡ delivered
      → r'.writer_alive ≡ true
      → let t' = (handle_refreshed same from_std p r sha t).0 in
        let t'' = (handle_refreshed same from_std p r' sha' t').0 in
        (t''.last_sha ≡ some sha')
        × (t''.last_dispatched_at ≡ some r'.now)
        × (t''.log
            ≡ t'.log ++ (trigger sha' r'.now ∷ update (armed same from_std p r' sha' prev t') ∷ []))
  handle_refreshed_again last new hot alive new' cool taken alive' =
      let held = handle_refreshed_suppressed same from_std p r sha prev t last new hot alive in
      handle_refreshed_fires same from_std p r' sha' prev _ held.0 new'
        (ap (λ d. is_cooled_down d r'.now p.cooldown) held.1 ∙ cool) taken alive'
