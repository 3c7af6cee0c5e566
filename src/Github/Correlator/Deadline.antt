-- ===== src/Github/Correlator/Deadline.antt =====
-- src/github/correlator.rs: how many rounds a correlation takes.
use gcit.Base.{
  ℕ, zero, suc, ◌+◌, ◌*◌, ◌≤◌, ◌<◌, min, Bool, true, false, Option, none, some, List, [], ◌∷◌,
  length, is_some, ◌≡◌, refl, ap, arith, ltb, leb, if◌then◌else◌, if_ind, ltb→lt,
}
use gcit.RateBucket.{Instant}
use gcit.Github.Correlator.{CorrelateParams, poll_interval_initial, normal_timeout}
use gcit.Github.Correlator.Loop.{
  Round, correlate_round, correlate_loop, correlate, compute_effective_deadline, onset,
  drain_deadline, sleep_for, sleep_with_cancel_awareness,
}

-- Rounds whose token is not cancelled, where the first is not before `at`, the clock goes forward, each
-- sleep lasts as long as it was asked to, and the backoff gives no delay below its minimum.
pub data Paced (deadline : Instant) : Instant → List Round → Type 0 where
  over : {at : Instant} → Paced deadline at []
  round :
      {at : Instant} (r : Round) (rounds : List Round)
      → r.cancelled ≡ false
      → at ≤ r.checked_at
      → r.checked_at ≤ r.slept_at
      → poll_interval_initial ≤ r.next_delay
      → Paced deadline (sleep_with_cancel_awareness r deadline) rounds
      → Paced deadline at (r ∷ rounds)

sleep_with_cancel_awareness_ge :
    (r : Round) (deadline at : Instant)
    → at ≤ r.slept_at
    → poll_interval_initial ≤ r.next_delay
    → min (at + poll_interval_initial) deadline ≤ sleep_with_cancel_awareness r deadline
unfolding sleep_with_cancel_awareness sleep_for
sleep_with_cancel_awareness_ge r deadline at le slow =
    if_ind (λ d. min (at + poll_interval_initial) deadline ≤ r.slept_at + d)
      (ltb r.slept_at deadline) (λ early. omega (arith, ltb→lt _ _ early))
      (λ is_late. ground (arith, is_late))

compute_effective_deadline-eq :
    (r : Round) (deadline : Instant) (drain : Option Instant)
    → r.cancelled ≡ false
    → compute_effective_deadline r deadline drain ≡ deadline
unfolding compute_effective_deadline
compute_effective_deadline-eq r deadline drain going =
    ap (λ b. if b then drain_deadline deadline drain else deadline) going

is_some-if {ℓ} :
    {A : Type ℓ} (b : Bool) (x : A) (o : Option A)
    → b ≡ true
    → is_some (if b then some x else o) ≡ true
is_some-if true x o _ = refl
is_some-if false x o h = absurd (cc h)

correlate_round-some :
    (p : CorrelateParams) (deadline : Instant) (drain : Option Instant) (r : Round)
    → r.cancelled ≡ false
    → deadline ≤ r.checked_at
    → is_some (correlate_round p deadline drain r) ≡ true
unfolding correlate_round
correlate_round-some p deadline drain r going is_late =
    is_some-if (leb (compute_effective_deadline r deadline drain) r.checked_at) _ _
      (ground (arith, is_late, compute_effective_deadline-eq r deadline drain going))

-- A round that ends the loop, or the rounds after it.
correlate_loop-or_later :
    (p : CorrelateParams) (deadline : Instant) (r : Round) (rounds : List Round)
    (drain : Option Instant)
    → (is_some (correlate_round p deadline (onset r drain) r) ≡ false
        → is_some (correlate_loop p deadline rounds (onset r drain)) ≡ true)
    → is_some (correlate_loop p deadline (r ∷ rounds) drain) ≡ true
unfolding correlate_loop
correlate_loop-or_later p deadline r rounds drain =
    elim (correlate_round p deadline (onset r drain) r)
      as (λ o.
        (is_some o ≡ false → is_some (correlate_loop p deadline rounds (onset r drain)) ≡ true)
        → is_some (elim o [
          | some done ↦ some done
          | none ↦ correlate_loop p deadline rounds (onset r drain)
        ])
          ≡ true) [ some done ↦ λ _. refl | none ↦ λ h. h refl ]

correlate_loop-some :
    (p : CorrelateParams) (deadline : Instant) (left : ℕ) (at : Instant) (rounds : List Round)
    (drain : Option Instant)
    → Paced deadline at rounds
    → deadline ≤ at + left * poll_interval_initial
    → left < length rounds
    → is_some (correlate_loop p deadline rounds drain) ≡ true
correlate_loop-some p deadline left at _ drain over near enough = absurd (omega arith)
correlate_loop-some p deadline zero at _ drain (round r rounds going later _ _ _) near enough =
    correlate_loop-or_later p deadline r rounds drain (λ none_yet.
      absurd (cc (none_yet, correlate_round-some p deadline (onset r drain) r going (omega arith))))
correlate_loop-some p deadline (suc left) at _ drain (round r rounds going later forward slow paced)
      near enough =
    correlate_loop-or_later p deadline r rounds drain (λ _.
      correlate_loop-some p deadline left (sleep_with_cancel_awareness r deadline) rounds
        (onset r drain) paced
        (omega (arith, sleep_with_cancel_awareness_ge r deadline at (omega arith) slow))
        (omega arith))

-- A correlation whose token is not cancelled returns within 61 rounds, where the clock goes
-- forward, each sleep lasts as long as it was asked to, and the backoff gives no delay below 5 s.
pub correlate-some :
    (p : CorrelateParams) (started : Instant) (rounds : List Round)
    → Paced (started + normal_timeout) started rounds
    → 60 < length rounds
    → is_some (correlate p started rounds) ≡ true
unfolding correlate
correlate-some p started rounds paced enough =
    correlate_loop-some p (started + normal_timeout) 60 started rounds none paced (omega arith)
      enough
