-- ===== src/RateBucket/Spacing.antt =====
-- src/git/rate_bucket.rs: the time between the slots of a bucket.
use gcit.Base.{
  ◌+◌, ◌≤◌, ◌<◌, false, Option, none, some, List, [], ◌∷◌, ◌++◌, ltb, ◌≡◌, arith, if_ind,
}
use gcit.Poll.Strategy.{Duration}
use gcit.RateBucket.{
  Instant, RateBucket, new, target, reserve, later, wake, try_acquire, Section, reserves, wakes,
  tries, granted, enter, slots,
}

-- The next slot may be `t` where the last slot, if there is one, is the interval before it.
abbrev pub IsFree : Duration → Option Instant → Instant → Type 0
IsFree interval none t = Unit
IsFree interval (some prev) t = prev + interval ≤ t

-- Each slot is at least the interval after the one before it.
abbrev pub IsSpaced : Duration → Option Instant → List Instant → Type 0
IsSpaced interval last [] = Unit
IsSpaced interval last (t ∷ ts) = IsFree interval last t × IsSpaced interval (some t) ts

-- What the bucket remembers is no earlier than the last slot.
abbrev Covers : Option Instant → Option Instant → Type 0
Covers none last = Unit
Covers (some t) none = t < t
Covers (some t) (some prev) = t ≤ prev

target-IsFree :
    (b : RateBucket) (now : Instant) (given last : Option Instant)
    → Covers given last
    → IsFree b.min_interval given (target b now last)
target-IsFree b now none last c = tt
target-IsFree b now (some t) none c = absurd (omega (arith, c))
target-IsFree b now (some t) (some prev) c = ground (arith, c)

later-Covers :
    (now : Instant) (given last : Option Instant)
    → Covers given last
    → Covers given (later now last)
later-Covers now none last c = tt
later-Covers now (some t) none c = c
later-Covers now (some t) (some prev) c = ground (arith, c)

-- A `try_acquire`, before sections that keep the spacing.
tries-IsSpaced :
    (rest : List Section) (now : Instant) (interval : Duration) (last given : Option Instant)
    → Covers given last
    → ((b : RateBucket) (g : Option Instant)
        → Covers g b.last
        → IsSpaced b.min_interval g (slots rest b))
    → IsSpaced interval given
        (slots (tries now ∷ rest) (record { min_interval = interval; last = last }))
unfolding slots enter try_acquire
tries-IsSpaced rest now interval none none c ih =
    (tt, ih (record { min_interval = interval; last = some now }) (some now) (omega arith))
tries-IsSpaced rest now interval none (some t) c ih = absurd (omega (arith, c))
tries-IsSpaced rest now interval (some prev) given c ih =
    let b : RateBucket = record { min_interval = interval; last = some prev } in
    if_ind (λ r. IsSpaced interval given (let (b', out) = granted now r in out ++ slots rest b'))
      (ltb now (prev + interval)) (λ _. ih b given c)
      (λ e. (free given prev c e, ih (record b { last = some now }) (some now) (omega arith)))
  where
    free :
        (given : Option Instant) (prev : Instant)
        → Covers given (some prev)
        → ltb now (prev + interval) ≡ false
        → IsFree interval given now
    free none prev c e = tt
    free (some t) prev c e = ground (arith, c, e)

slots-IsSpaced_from :
    (sections : List Section) (b : RateBucket) (given : Option Instant)
    → Covers given b.last
    → IsSpaced b.min_interval given (slots sections b)
unfolding slots enter reserve wake
slots-IsSpaced_from [] b given c = tt
slots-IsSpaced_from (reserves now ∷ rest) b given c = (
  target-IsFree b now given b.last c,
  slots-IsSpaced_from rest (reserve now b).0 (some (target b now b.last)) (omega arith),
)
slots-IsSpaced_from (wakes now ∷ rest) b given c =
    slots-IsSpaced_from rest (wake now b) given (later-Covers now given b.last c)
slots-IsSpaced_from (tries now ∷ rest) b given c =
    tries-IsSpaced rest now b.min_interval b.last given c (slots-IsSpaced_from rest)

-- The slots that a new bucket gives, to tasks that reserve and sleep and to tasks that only try,
-- in any interleaving and whatever the clock says: each is at least the interval after the one
-- before it.
pub slots-IsSpaced :
    (min_interval : Duration) (sections : List Section)
    → IsSpaced min_interval none (slots sections (new min_interval))
slots-IsSpaced min_interval sections = slots-IsSpaced_from sections (new min_interval) none tt
