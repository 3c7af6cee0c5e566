-- ===== src/Github/Correlator/Found.antt =====
-- src/github/correlator.rs: how a correlation ends.
use gcit.Base.{
  ◌+◌, ◌≤◌, ◌<◌, Bool, true, false, Option, none, some, List, [], ◌∷◌, ◌++◌, filter, map, ◌≡◌, refl,
  ap, subst, arith, leb, if◌then◌else◌, if_ind, leb→le, ◌⊎◌, inl, inr,
}
use gcit.Base.Results.{Result, ok, err}
use gcit.RateBucket.{Instant}
use gcit.Poll.Strategy.{Duration}
use gcit.Mail.{Bytes}
use gcit.Github.Errors.{GithubErrorKind, retryability, permanent}
use gcit.Github.Correlator.{
  Run, CorrelateParams, CorrelationOutcome, CorrelationError, outcome_of, is_named, duplicate_match,
  timeout, github, normal_timeout,
}
use gcit.Github.Correlator.Loop.{
  Round, scan_name_match, scan_head_sha_fallback, may_fall_back, ends, or_fall_back,
  correlate_round, correlate_loop, correlate, compute_effective_deadline, onset,
}
use gcit.Github.Correlator.Scan.{IsNewest}
use gcit.Github.Correlator.Verdict.{
  listing, NoName, Named, one, nobody, many, broken, Newest, newest_run, nothing, unreadable,
  scan_name_match-Named, scan_head_sha_fallback-Newest,
}

-- How a round that is the last one ends the correlation.
pub data Ended (p : CorrelateParams) (deadline : Instant) (r : Round)
    : Result CorrelationError CorrelationOutcome → Type 0 where
  by_name :
      (items : List Run) (run : Run)
      → r.checked_at < deadline
      → listing p none r ≡ ok items
      → filter (is_named p) items ≡ run ∷ []
      → Ended p deadline r (ok (outcome_of run))
  by_commit :
      (items : List Run) (run : Run)
      → r.checked_at < deadline
      → may_fall_back p.run_name_configured ≡ true
      → NoName p r
      → listing p (some p.head_sha) r ≡ ok items
      → IsNewest p items run
      → Ended p deadline r (ok (outcome_of run))
  ambiguous :
      (items : List Run) (run other : Run) (rest : List Run)
      → listing p none r ≡ ok items
      → filter (is_named p) items ≡ run ∷ other ∷ rest
      → Ended p deadline r (
          err (
            duplicate_match p.repo p.workflow p.gcit_run_id (map (λ r. r.id) (run ∷ other ∷ rest))))
  refused :
      (head_sha : Option Bytes) (e : GithubErrorKind)
      → listing p head_sha r ≡ err e
      → retryability e ≡ permanent
      → Ended p deadline r (err (github e))
  late :
      (waited : Duration)
      → (r.cancelled ≡ true) ⊎ (deadline ≤ r.checked_at)
      → Ended p deadline r (err (timeout p.repo p.workflow p.gcit_run_id waited))

module _ (p : CorrelateParams) (deadline : Instant) (r : Round) where
  abbrev Decided : Option (Result CorrelationError CorrelationOutcome) → Type 0
  Decided none = Unit
  Decided (some result) = Ended p deadline r result

  fall_back-Ended :
      r.checked_at < deadline
      → NoName p r
      → (may : Bool) → may_fall_back p.run_name_configured ≡ may
      → (x : Result CorrelationError (Option CorrelationOutcome)) → Newest p r x
      → Decided (if may then ends x else none)
  fall_back-Ended lt unnamed false _ x h = tt
  fall_back-Ended lt unnamed true may _ (newest_run items run e is_newest) =
      by_commit items run lt may unnamed e is_newest
  fall_back-Ended lt unnamed true may _ nothing = tt
  fall_back-Ended lt unnamed true may _ (unreadable e h t) = refused (some p.head_sha) e h t

  or_fall_back-Ended :
      r.checked_at < deadline
      → (x : Result CorrelationError (Option CorrelationOutcome)) → Named p r x
      → Decided
          (or_fall_back (may_fall_back p.run_name_configured) (scan_head_sha_fallback p r) (ends x))
  or_fall_back-Ended lt _ (one items run e named) = by_name items run lt e named
  or_fall_back-Ended lt _ (nobody unnamed) =
      fall_back-Ended lt unnamed (may_fall_back p.run_name_configured) refl
        (scan_head_sha_fallback p r) (scan_head_sha_fallback-Newest p r)
  or_fall_back-Ended lt _ (many items run other rest e named) =
      ambiguous items run other rest e named
  or_fall_back-Ended lt _ (broken e h t) = refused none e h t

  compute_effective_deadline_le :
      (drain : Option Instant) → compute_effective_deadline r deadline drain ≤ deadline
  unfolding compute_effective_deadline
  compute_effective_deadline_le none =
      if_ind (λ d. d ≤ deadline) r.cancelled (λ _. omega arith) (λ _. omega arith)
  compute_effective_deadline_le (some start) =
      if_ind (λ d. d ≤ deadline) r.cancelled (λ _. omega arith) (λ _. omega arith)

  deadline_cases :
      (drain : Option Instant)
      → compute_effective_deadline r deadline drain ≤ r.checked_at
      → (r.cancelled ≡ true) ⊎ (deadline ≤ r.checked_at)
  unfolding compute_effective_deadline
  deadline_cases drain =
      if_ind (λ d. d ≤ r.checked_at → (r.cancelled ≡ true) ⊎ (deadline ≤ r.checked_at)) r.cancelled
        (λ cancelled _. inl cancelled) (λ _ le. inr le)

  correlate_round-Ended : (drain : Option Instant) → Decided (correlate_round p deadline drain r)
  unfolding correlate_round
  correlate_round-Ended drain =
      if_ind Decided (leb (compute_effective_deadline r deadline drain) r.checked_at)
        (λ is_late. late _ (deadline_cases drain (leb→le _ _ is_late)))
        (λ in_time.
          or_fall_back-Ended (ground (arith, in_time, compute_effective_deadline_le drain))
            (scan_name_match p r) (scan_name_match-Named p r))

-- The rounds up to the last one, which ends the correlation.
pub data Ends (p : CorrelateParams) (deadline : Instant) (rounds : List Round)
    (result : Result CorrelationError CorrelationOutcome) : Type 0 where
  at_round :
      (before : List Round) (r : Round) (after : List Round)
      → rounds ≡ before ++ (r ∷ after)
      → Ended p deadline r result
      → Ends p deadline rounds result

correlate_loop-Ends :
    (p : CorrelateParams) (deadline : Instant) (rounds : List Round) (drain : Option Instant)
    → (result : Result CorrelationError CorrelationOutcome)
    → correlate_loop p deadline rounds drain ≡ some result
    → Ends p deadline rounds result
unfolding correlate_loop
correlate_loop-Ends p deadline [] drain result e = absurd (cc e)
correlate_loop-Ends p deadline (r ∷ rounds) drain result e =
    step (correlate_loop-Ends p deadline rounds (onset r drain) result)
      (correlate_round p deadline (onset r drain) r)
      (correlate_round-Ended p deadline r (onset r drain)) e
  where
    later : Ends p deadline rounds result → Ends p deadline (r ∷ rounds) result
    later (at_round before last after e h) = at_round (r ∷ before) last after (ap (λ l. r ∷ l) e) h

    step :
        (correlate_loop p deadline rounds (onset r drain) ≡ some result
          → Ends p deadline rounds result)
        → (o : Option (Result CorrelationError CorrelationOutcome)) → Decided p deadline r o
        → (elim o [
          | some done ↦ some done
          | none ↦ correlate_loop p deadline rounds (onset r drain)
        ])
          ≡ some result
        → Ends p deadline (r ∷ rounds) result
    step rest none h e = later (rest e)
    step rest (some done) h e = at_round [] r rounds refl (subst (Ended p deadline r) (cc e) h)

-- A correlation that returns does so in one of its rounds, in one of five ways. A listing is what
-- its first five pages hold. Before the deadline of 300 s it gives the only run of the listing
-- with the name; or, where the name is not known to be configured and no run has it or the
-- listing cannot be read for now, the first of the newest runs of the commit that are not older
-- than two minutes before the dispatch. Or it gives an error: for two or more runs with the name,
-- their ids in order; for a listing that fails for good, the failure; or a timeout, where the
-- token is cancelled or the deadline has come.
pub correlate-Ends :
    (p : CorrelateParams) (started : Instant) (rounds : List Round)
    → (result : Result CorrelationError CorrelationOutcome)
    → correlate p started rounds ≡ some result
    → Ends p (started + normal_timeout) rounds result
unfolding correlate
correlate-Ends p started rounds result =
    correlate_loop-Ends p (started + normal_timeout) rounds none result
