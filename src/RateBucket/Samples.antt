-- ===== src/RateBucket/Samples.antt =====
-- Three tasks at one bucket, and the theorem at them.
use gcit.Base.{List, [], ◌∷◌, ◌≡◌, refl, none}
use gcit.RateBucket.{new, Section, reserves, wakes, tries, slots, enter, reserve, wake, try_acquire}
use gcit.RateBucket.Spacing.{IsSpaced, slots-IsSpaced}

-- Two tasks reserve at once, the first wakes late, and a third tries too early and in time.
abbrev contention : List Section
contention =
    reserves 1000 ∷ reserves 1000 ∷ wakes 1010 ∷ tries 1300 ∷ tries 1500 ∷ reserves 1600 ∷ []

spaced_by_contention : slots contention (new 250) ≡ 1000 ∷ 1250 ∷ 1500 ∷ 1750 ∷ []
unfolding slots enter reserve wake try_acquire
spaced_by_contention = refl

slots-IsSpaced_example : IsSpaced 250 none (slots contention (new 250))
slots-IsSpaced_example = slots-IsSpaced 250 contention
