-- ===== src/Poll/Loop/Messages.antt =====
-- What can be read off the messages that a poll task has sent.
use gcit.Base.{◌+◌, ◌≤◌, ◌<◌, Option, none, some, List, [], ◌∷◌, ◌++◌, ◌≡◌, refl, ap, ◌⊎◌}
use gcit.State.Types.{DateTime, StateUpdate, poll_observation}
use gcit.Poll.Strategy.{Duration}
use gcit.Poll.Send.{Message, trigger, update}

-- Each dispatch is a cooldown after the one before it, or the clock was set back behind that one.
abbrev pub IsSpaced : Duration → Option DateTime → List DateTime → Type 0
IsSpaced cooldown prev [] = Unit
IsSpaced cooldown none (at ∷ rest) = IsSpaced cooldown (some at) rest
IsSpaced cooldown (some t) (at ∷ rest) =
    ((at < t) ⊎ (t + cooldown ≤ at)) × IsSpaced cooldown (some at) rest

abbrev pub last_time : Option DateTime → List DateTime → Option DateTime
last_time prev [] = prev
last_time prev (at ∷ rest) = last_time (some at) rest

pub IsSpaced-append :
    (cooldown : Duration) (prev : Option DateTime) (xs ys : List DateTime)
    → IsSpaced cooldown prev xs
    → IsSpaced cooldown (last_time prev xs) ys
    → IsSpaced cooldown prev (xs ++ ys)
IsSpaced-append cooldown prev [] ys hx hy = hy
IsSpaced-append cooldown none (x ∷ xs) ys hx hy = IsSpaced-append cooldown (some x) xs ys hx hy
IsSpaced-append cooldown (some t) (x ∷ xs) ys hx hy =
    (hx.0, IsSpaced-append cooldown (some x) xs ys hx.1 hy)

pub last_time-append :
    (prev : Option DateTime) (xs ys : List DateTime)
    → last_time prev (xs ++ ys) ≡ last_time (last_time prev xs) ys
last_time-append prev [] ys = refl
last_time-append prev (x ∷ xs) ys = last_time-append (some x) xs ys

module _ {ObjectId : Type 0} where
  abbrev pub trigger_times : List (Message ObjectId) → List DateTime
  trigger_times [] = []
  trigger_times (trigger sha at ∷ ms) = at ∷ trigger_times ms
  trigger_times (update u ∷ ms) = trigger_times ms

  abbrev pub updates : List (Message ObjectId) → List (StateUpdate ObjectId)
  updates [] = []
  updates (trigger sha at ∷ ms) = updates ms
  updates (update u ∷ ms) = u ∷ updates ms

  pub trigger_times-append :
      (ms ns : List (Message ObjectId))
      → trigger_times (ms ++ ns) ≡ trigger_times ms ++ trigger_times ns
  trigger_times-append [] ns = refl
  trigger_times-append (trigger sha at ∷ ms) ns = ap (λ l. at ∷ l) (trigger_times-append ms ns)
  trigger_times-append (update u ∷ ms) ns = trigger_times-append ms ns

  pub updates-append :
      (ms ns : List (Message ObjectId)) → updates (ms ++ ns) ≡ updates ms ++ updates ns
  updates-append [] ns = refl
  updates-append (trigger sha at ∷ ms) ns = updates-append ms ns
  updates-append (update u ∷ ms) ns = ap (λ l. u ∷ l) (updates-append ms ns)

  -- An observation that arms the cooldown stands directly behind its trigger.
  abbrev pub IsBehind : Option (Message ObjectId) → Message ObjectId → Type 0
  IsBehind prev (update (poll_observation _ sha _ (some at) _)) = prev ≡ some (trigger sha at)
  IsBehind prev _ = Unit

  abbrev pub IsAnnounced : Option (Message ObjectId) → List (Message ObjectId) → Type 0
  IsAnnounced prev [] = Unit
  IsAnnounced prev (m ∷ ms) = IsBehind prev m × IsAnnounced (some m) ms

  IsBehind-weaken :
      (prev : Option (Message ObjectId)) (m : Message ObjectId) → IsBehind none m → IsBehind prev m
  IsBehind-weaken prev (update (poll_observation _ sha _ (some at) _)) h = cc
  IsBehind-weaken prev (update (poll_observation _ sha _ none _)) h = tt
  IsBehind-weaken prev (update _) h = tt
  IsBehind-weaken prev (trigger _ _) h = tt

  IsAnnounced-weaken :
      (prev : Option (Message ObjectId)) (ms : List (Message ObjectId))
      → IsAnnounced none ms
      → IsAnnounced prev ms
  IsAnnounced-weaken prev [] h = tt
  IsAnnounced-weaken prev (m ∷ ms) h = (IsBehind-weaken prev m h.0, h.1)

  pub IsAnnounced-append :
      (prev : Option (Message ObjectId)) (ms ns : List (Message ObjectId))
      → IsAnnounced prev ms
      → IsAnnounced none ns
      → IsAnnounced prev (ms ++ ns)
  IsAnnounced-append prev [] ns hm hn = IsAnnounced-weaken prev ns hn
  IsAnnounced-append prev (m ∷ ms) ns hm hn = (hm.0, IsAnnounced-append (some m) ms ns hm.1 hn)
