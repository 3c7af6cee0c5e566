-- ===== src/RateBucket.antt =====
-- src/git/rate_bucket.rs: a bucket that spaces the requests of many tasks. `last` is behind a mutex,
-- so that what happens is a sequence of the critical sections of `acquire` and `try_acquire`, each
-- with what the clock says in it.
pub mod Spacing
pub mod Samples
use gcit.Base.{ℕ, ◌+◌, ◌-◌, Bool, Option, none, some, List, [], ◌∷◌, ◌++◌, ltb, if◌then◌else◌}
use gcit.Poll.Strategy.{Duration}

-- An instant is a number of nanoseconds.
abbrev pub Instant : Type 0
Instant = ℕ

pub record RateBucket : Type 0 where
  pub min_interval : Duration
  pub last : Option Instant

abbrev pub new : Duration → RateBucket
new min_interval = record { min_interval = min_interval; last = none }

-- The slot that a task reserves: the earliest free instant, or now.
abbrev pub target : RateBucket → Instant → Option Instant → Instant
target b now none = now
target b now (some prev) =
    let earliest = prev + b.min_interval in if ltb now earliest then earliest else now

-- The first critical section of `acquire`: the instant until which the task sleeps.
unfoldable pub reserve : Instant → RateBucket → RateBucket × Instant
reserve now b =
    let reserved_at = target b now b.last in (record b { last = some reserved_at }, reserved_at)

-- The second, after the sleep.
abbrev pub later : Instant → Option Instant → Option Instant
later now none = none
later now (some prev) = if ltb prev now then some now else some prev

unfoldable pub wake : Instant → RateBucket → RateBucket
wake now b = record b { last = later now b.last }

-- `none` is `Ok`, and `some` the time to wait.
abbrev pub attempt : Instant → RateBucket → Option Instant → RateBucket × Option Duration
attempt now b none = (record b { last = some now }, none)
attempt now b (some prev) =
    let target = prev + b.min_interval in
    if ltb now target then (b, some (target - now)) else (record b { last = some now }, none)

unfoldable pub try_acquire : Instant → RateBucket → RateBucket × Option Duration
try_acquire now b = attempt now b b.last

-- A critical section of some task.
pub data Section : Type 0 where
  reserves : (now : Instant) → Section
  wakes : (now : Instant) → Section
  tries : (now : Instant) → Section

abbrev pub granted : Instant → RateBucket × Option Duration → RateBucket × List Instant
granted now (b, none) = (b, now ∷ [])
granted now (b, some wait) = (b, [])

-- A section, and the slots that it gives: the instant that a task sleeps until, or now.
unfoldable pub enter : Section → RateBucket → RateBucket × List Instant
unfolding reserve wake try_acquire
enter (reserves now) b = let (b', slot) = reserve now b in (b', slot ∷ [])
enter (wakes now) b = (wake now b, [])
enter (tries now) b = granted now (try_acquire now b)

-- The slots of a sequence of sections, in their order.
unfoldable pub slots : List Section → RateBucket → List Instant
unfolding enter
slots [] b = []
slots (s ∷ ss) b = let (b', given) = enter s b in given ++ slots ss b'
