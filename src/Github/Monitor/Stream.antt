-- ===== src/Github/Monitor/Stream.antt =====
-- src/github/monitor.rs: the events that a monitor sends.
use gcit.Base.{
  ℕ, Bool, true, false, Option, none, some, List, [], ◌∷◌, ◌≡◌, refl, if◌then◌else◌, if_ind,
}
use gcit.Base.Results.{Result, ok, err}
use gcit.Mail.{Bytes}
use gcit.Github.Errors.{GithubErrorKind, Retryability, retryability, transient, permanent}
use gcit.Github.Values.{RunSummary, is_terminal}
use gcit.Github.Monitor.{
  MonitorParams, MonitorEvent, update, done, MonitorOutcome, terminated, receiver_dropped,
  drained_mid_run, Round, stops_waiting, on_summary, on_poll, poll_one, monitor_round, send_event,
  monitor_run,
}

abbrev pub is_terminated : Option MonitorOutcome → Bool
is_terminated none = false
is_terminated (some terminated) = true
is_terminated (some receiver_dropped) = false
is_terminated (some drained_mid_run) = false
is_terminated (some (MonitorOutcome.failed _)) = false

-- Updates of a run that goes on, then its end where the outcome says so; `At` is what holds of the
-- summary that it ends with.
pub data Stream (At : RunSummary → Type 0)
    : List MonitorEvent → Option MonitorOutcome → Type 0 where
  over : (o : Option MonitorOutcome) → is_terminated o ≡ false → Stream At [] o
  next :
      (summary : RunSummary) (events : List MonitorEvent) (o : Option MonitorOutcome)
      → is_terminal summary.status ≡ false
      → Stream At events o
      → Stream At (update summary ∷ events) o
  finish :
      (summary : RunSummary)
      → is_terminal summary.status ≡ true
      → At summary
      → Stream At (done summary ∷ []) (some terminated)

Stream-map :
    (At At' : RunSummary → Type 0)
    → ((summary : RunSummary) → At summary → At' summary)
    → (events : List MonitorEvent) (o : Option MonitorOutcome) → Stream At events o
    → Stream At' events o
Stream-map At At' f _ _ (over o h) = over o h
Stream-map At At' f _ _ (next summary events o h s) =
    next summary events o h (Stream-map At At' f events o s)
Stream-map At At' f _ _ (finish summary h at) = finish summary h (f summary at)

-- What a round polls leaves the loop going: a run that goes on, or a failure for now.
abbrev pub IsOpen : Result GithubErrorKind RunSummary → Type 0
IsOpen (ok summary) = is_terminal summary.status ≡ false
IsOpen (err e) = retryability e ≡ transient

-- The first round in which the run has ended polls this summary, after rounds that leave the loop going.
pub data EndsAt (show : ℕ → Bytes) (p : MonitorParams) : List Round → RunSummary → Type 0 where
  here :
      (r : Round) (rounds : List Round) (summary : RunSummary)
      → poll_one show p r ≡ ok summary
      → is_terminal summary.status ≡ true
      → EndsAt show p (r ∷ rounds) summary
  later :
      (r : Round) (rounds : List Round) (summary : RunSummary)
      → IsOpen (poll_one show p r)
      → EndsAt show p rounds summary
      → EndsAt show p (r ∷ rounds) summary

-- What one round may send, and how it may end, for what it polls.
data Turn (x : Result GithubErrorKind RunSummary)
    : Option MonitorEvent × Option MonitorOutcome → Type 0 where
  broken_off : (o : MonitorOutcome) → is_terminated (some o) ≡ false → Turn x (none, some o)
  quiet : IsOpen x → Turn x (none, none)
  progress :
      (summary : RunSummary) (o : Option MonitorOutcome)
      → is_terminal summary.status ≡ false
      → is_terminated o ≡ false
      → IsOpen x
      → Turn x (some (update summary), o)
  conclusive :
      (summary : RunSummary)
      → is_terminal summary.status ≡ true
      → x ≡ ok summary
      → Turn x (some (done summary), some terminated)

tick_is_not_terminated :
    (b : Bool) → is_terminated (if b then some drained_mid_run else none) ≡ false
tick_is_not_terminated true = refl
tick_is_not_terminated false = refl

on_summary-Turn : (r : Round) (summary : RunSummary) → Turn (ok summary) (on_summary r summary)
unfolding on_summary
on_summary-Turn r summary =
    if_ind (Turn (ok summary)) r.receiver_alive (λ _. by_status (is_terminal summary.status) refl)
      (λ _. broken_off receiver_dropped refl)
  where
    by_status :
        (b : Bool)
        → is_terminal summary.status ≡ b
        → Turn (ok summary) (
            if b then (some (if b then done summary else update summary), some terminated) else (
              some (if b then done summary else update summary),
              if r.tick_cancelled then some drained_mid_run else none,
            ))
    by_status true h = conclusive summary h refl
    by_status false h = progress summary _ h (tick_is_not_terminated r.tick_cancelled) h

on_tick-Turn :
    (x : Result GithubErrorKind RunSummary) (b : Bool)
    → IsOpen x
    → Turn x (none, if b then some drained_mid_run else none)
on_tick-Turn x true h = broken_off drained_mid_run refl
on_tick-Turn x false h = quiet h

on_error-Turn :
    (r : Round) (e : GithubErrorKind) (kind : Retryability)
    → retryability e ≡ kind
    → Turn (err e) (elim kind [
      | transient ↦ (none, if r.tick_cancelled then some drained_mid_run else none)
      | permanent ↦ (none, some (MonitorOutcome.failed e))
    ])
on_error-Turn r e transient h = on_tick-Turn (err e) r.tick_cancelled h
on_error-Turn r e permanent h = broken_off (MonitorOutcome.failed e) refl

on_poll-Turn : (r : Round) (x : Result GithubErrorKind RunSummary) → Turn x (on_poll r x)
unfolding on_poll
on_poll-Turn r (ok summary) = on_summary-Turn r summary
on_poll-Turn r (err e) = on_error-Turn r e (retryability e) refl

module _ (show : ℕ → Bytes) (p : MonitorParams) where
  monitor_round-Turn : (r : Round) → Turn (poll_one show p r) (monitor_round show p r)
  unfolding monitor_round
  monitor_round-Turn r =
      if_ind (Turn (poll_one show p r)) (stops_waiting r) (λ _. broken_off drained_mid_run refl)
        (λ _. on_poll-Turn r (poll_one show p r))

  extend :
      (r : Round) (rounds : List Round) (turn : Option MonitorEvent × Option MonitorOutcome)
      → Turn (poll_one show p r) turn
      → (rest : List MonitorEvent × Option MonitorOutcome)
      → Stream (EndsAt show p rounds) rest.0 rest.1
      → let all =
          send_event turn.0 (elim turn.1 [ some outcome ↦ ([], some outcome) | none ↦ rest ]) in
        Stream (EndsAt show p (r ∷ rounds)) all.0 all.1
  extend r rounds _ (quiet goes_on) rest s =
      Stream-map _ _ (λ summary. later r rounds summary goes_on) rest.0 rest.1 s
  extend r rounds _ (broken_off o h) rest s = over (some o) h
  extend r rounds _ (progress summary none h e goes_on) rest s =
      next summary rest.0 rest.1 h
        (Stream-map _ _ (λ summary. later r rounds summary goes_on) rest.0 rest.1 s)
  extend r rounds _ (progress summary (some o) h e goes_on) rest s =
      next summary [] (some o) h (over (some o) e)
  extend r rounds _ (conclusive summary h polled) rest s =
      finish summary h (here r rounds summary polled h)

  pub monitor_run-Stream :
      (rounds : List Round)
      → Stream (EndsAt show p rounds) (monitor_run show p rounds).0 (monitor_run show p rounds).1
  unfolding monitor_run
  monitor_run-Stream [] = over none refl
  monitor_run-Stream (r ∷ rounds) =
      extend r rounds (monitor_round show p r) (monitor_round-Turn r) (monitor_run show p rounds)
        (monitor_run-Stream rounds)
