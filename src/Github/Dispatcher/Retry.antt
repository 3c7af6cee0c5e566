-- ===== src/Github/Dispatcher/Retry.antt =====
-- src/github/dispatcher.rs: when the retries of a dispatch end.
use gcit.Base.{
  ℕ, zero, suc, ◌-◌, ◌≤◌, Bool, true, false, Option, none, some, is_some, List, [], ◌∷◌, ◌++◌,
  length, All, if_ind, ltb, ◌≡◌, refl, sym, subst, arith, ◌⊎◌, inl, inr,
}
use gcit.Base.Results.{Result, ok, err}
use gcit.Mail.{Bytes}
use gcit.Poll.Strategy.{Duration}
use gcit.Github.Errors.{
  GithubErrorKind, unauthorized, forbidden, workflow_not_found, dispatch_invalid, rate_limited,
  server_error, timeout, transport, unknown, cancelled, body_too_large, retryability, transient,
  permanent, retry_after,
}
use gcit.Github.Dispatcher.{
  DispatchOutcome, DispatchParams, Client, Attempt, dispatch, drawn_delay, delays_left, adjust,
  decide, dispatch_with_retry,
}

-- The only kind that asks for a wait.
abbrev pub is_rate_limited : GithubErrorKind → Bool
is_rate_limited (rate_limited _ _) = true
is_rate_limited (unauthorized _) = false
is_rate_limited (forbidden _) = false
is_rate_limited (workflow_not_found _ _) = false
is_rate_limited (dispatch_invalid _) = false
is_rate_limited (server_error _ _) = false
is_rate_limited (timeout _) = false
is_rate_limited (transport _) = false
is_rate_limited (unknown _) = false
is_rate_limited cancelled = false
is_rate_limited (body_too_large _ _) = false

-- A result that ends the retries, after as many as were made: it is a success, or no retry can help, or
-- the retries are used up and the rate limit does not ask for another.
abbrev pub IsFinal : (max_attempts made : ℕ) → Result GithubErrorKind DispatchOutcome → Type 0
IsFinal max_attempts made (ok outcome) = Unit
IsFinal max_attempts made (err e) =
    (retryability e ≡ permanent) ⊎ ((is_rate_limited e ≡ false) × (max_attempts ≤ made))

-- A failure that is tried again.
abbrev pub IsTransient : Result GithubErrorKind DispatchOutcome → Type 0
IsTransient r = (e : GithubErrorKind) × ((r ≡ err e) × (retryability e ≡ transient))

data Verdict (left : ℕ) (r : Result GithubErrorKind DispatchOutcome)
    : Option (Result GithubErrorKind DispatchOutcome) → Type 0 where
  stops : IsFinal left 0 r → Verdict left r (some r)
  again :
      (e : GithubErrorKind)
      → r ≡ err e
      → retryability e ≡ transient
      → (is_rate_limited e ≡ true) ⊎ (1 ≤ left)
      → Verdict left r none

decide-Verdict :
    (left : ℕ) (a : Attempt) (r : Result GithubErrorKind DispatchOutcome)
    → Verdict left r (decide left a r)
unfolding decide adjust retry_after retryability
decide-Verdict left a (ok outcome) = stops tt
decide-Verdict left a (err (unauthorized _)) = stops (inl refl)
decide-Verdict left a (err (forbidden _)) = stops (inl refl)
decide-Verdict left a (err (workflow_not_found _ _)) = stops (inl refl)
decide-Verdict left a (err (dispatch_invalid _)) = stops (inl refl)
decide-Verdict left a (err cancelled) = stops (inl refl)
decide-Verdict left a (err (body_too_large _ _)) = stops (inl refl)
decide-Verdict zero a (err (server_error _ _)) = stops (inr (refl, omega arith))
decide-Verdict (suc left) a (err (server_error s m)) =
    again (server_error s m) refl refl (inr (omega arith))
decide-Verdict zero a (err (timeout _)) = stops (inr (refl, omega arith))
decide-Verdict (suc left) a (err (timeout d)) = again (timeout d) refl refl (inr (omega arith))
decide-Verdict zero a (err (transport _)) = stops (inr (refl, omega arith))
decide-Verdict (suc left) a (err (transport m)) = again (transport m) refl refl (inr (omega arith))
decide-Verdict zero a (err (unknown _)) = stops (inr (refl, omega arith))
decide-Verdict (suc left) a (err (unknown m)) = again (unknown m) refl refl (inr (omega arith))
decide-Verdict left a (err (rate_limited credential reset)) =
    if_ind
      (λ o.
        Verdict left (err (rate_limited credential reset)) (elim (adjust o (drawn_delay left a)) [
          | none ↦ some (err (rate_limited credential reset))
          | some wait ↦ none
        ]))
      (ltb a.adjusted_at reset) (λ _. waits (reset - a.adjusted_at) (drawn_delay left a))
      (λ _. waits 0 (drawn_delay left a))
  where
    waits :
        (wait : Duration) (d : Option Duration)
        → Verdict left (err (rate_limited credential reset)) (elim (adjust (some wait) d) [
          | none ↦ some (err (rate_limited credential reset))
          | some wait ↦ none
        ])
    waits wait none = again (rate_limited credential reset) refl refl (inl refl)
    waits wait (some d) = again (rate_limited credential reset) refl refl (inl refl)

Final_back :
    (left made : ℕ) (r : Result GithubErrorKind DispatchOutcome)
    → IsFinal left (suc made) r
    → IsFinal (delays_left left) made r
Final_back left made (ok outcome) h = tt
Final_back left made (err e) (inl h) = inl h
Final_back zero made (err e) (inr (h, le)) = inr (h, omega arith)
Final_back (suc left) made (err e) (inr (h, le)) = inr (h, omega arith)

Final_stops :
    (left : ℕ) (r : Result GithubErrorKind DispatchOutcome)
    (o : Option (Result GithubErrorKind DispatchOutcome))
    → Verdict left r o
    → IsFinal left 0 r
    → o ≡ some r
Final_stops left r _ (stops _) h = refl
Final_stops left (ok outcome) _ (again e eq t h) _ = absurd (cc eq)
Final_stops left (err e') _ (again e eq t h) (inl p) = absurd (cc (eq, t, p))
Final_stops left (err e') _ (again e eq t (inl limited)) (inr (p, le)) =
    absurd (cc (eq, limited, p))
Final_stops left (err e') _ (again e eq t (inr room)) (inr (p, le)) = absurd (omega arith)

module _ (show : ℕ → Bytes) (is_uri : Bytes → Bool) (c : Client) (p : DispatchParams) where
  -- How a dispatch ends: with the result of its last attempt, all those before having failed and been
  -- tried again.
  pub data Retried (max_attempts : ℕ) (attempts : List Attempt)
      : Result GithubErrorKind DispatchOutcome → Type 0 where
    retried :
        (before : List Attempt) (a : Attempt) (after : List Attempt)
        → attempts ≡ before ++ (a ∷ after)
        → All (λ b. IsTransient (dispatch show is_uri c p b)) before
        → IsFinal max_attempts (length before) (dispatch show is_uri c p a)
        → Retried max_attempts attempts (dispatch show is_uri c p a)

  -- A dispatch has returned by the first attempt that succeeds, fails for good, or fails
  -- otherwise than by a refusal of the rate limit once as many retries have been made as are
  -- allowed.
  pub dispatch_with_retry-some :
      (max_attempts : ℕ) (before : List Attempt) (a : Attempt) (after : List Attempt)
      → IsFinal max_attempts (length before) (dispatch show is_uri c p a)
      → is_some (dispatch_with_retry show is_uri c p max_attempts (before ++ (a ∷ after))) ≡ true
  unfolding dispatch_with_retry
  dispatch_with_retry-some max_attempts [] a after final =
      subst
        (λ o.
          is_some (elim o [
            | some x ↦ some x
            | none ↦ dispatch_with_retry show is_uri c p (delays_left max_attempts) after
          ])
          ≡ true)
        (sym (
          Final_stops max_attempts _ _ (decide-Verdict max_attempts a (dispatch show is_uri c p a))
            final))
        refl
  dispatch_with_retry-some max_attempts (b ∷ before) a after final =
      elim (decide max_attempts b (dispatch show is_uri c p b))
        as (λ o.
          is_some (elim o [
            | some x ↦ some x
            | none ↦
                dispatch_with_retry show is_uri c p (delays_left max_attempts)
                  (before ++ (a ∷ after))
          ])
          ≡ true) [
            | some x ↦ refl
            | none ↦
                dispatch_with_retry-some (delays_left max_attempts) before a after
                  (Final_back max_attempts (length before) (dispatch show is_uri c p a) final)
          ]
