-- ===== src/Flow/Monitor/Unique.antt =====
-- src/flow/monitor.rs: the ids of the jobs that a listing adds.
use gcit.Base.{
  ℕ, Bool, true, false, ◌==◌, ==_refl, is_some, List, [], ◌∷◌, ◌++◌, map, any, any-append, filter,
  if_ind, ◌≡◌, refl, arith, All, All-map,
}
use gcit.Github.Values.{JobResult}
use gcit.Flow.Monitor.{contains_id, is_newly_terminal}

abbrev pub job_ids : List JobResult → List ℕ
job_ids jobs = map (λ j. j.job_id) jobs

-- No id twice.
abbrev pub IsUnique : List ℕ → Type 0
IsUnique [] = Unit
IsUnique (i ∷ ids) = (contains_id i ids ≡ false) × IsUnique ids

contains_id-apart :
    (i : ℕ) (ids : List ℕ) → All (λ j. (i == j) ≡ false) ids → contains_id i ids ≡ false
unfolding any
contains_id-apart i [] h = refl
contains_id-apart i (j ∷ ids) h = ground (arith, contains_id-apart i ids h.1, h.0)

pub IsUnique-append :
    (xs ys : List ℕ)
    → IsUnique xs
    → IsUnique ys
    → All (λ y. contains_id y xs ≡ false) ys
    → IsUnique (xs ++ ys)
unfolding any
IsUnique-append [] ys u v h = v
IsUnique-append (x ∷ xs) ys u v h = (
  ground (
    arith,
    u.0,
    any-append (λ j. j == x) xs ys,
    contains_id-apart x ys (All-map (λ y e. ground (arith, e)) ys h),
  ),
  IsUnique-append xs ys u.1 v (All-map (λ y e. ground (arith, e)) ys h),
)

module _ (q : JobResult → Bool) where
  contains_id-filter :
      (i : ℕ) (jobs : List JobResult)
      → contains_id i (job_ids jobs) ≡ false
      → contains_id i (job_ids (filter q jobs)) ≡ false
  unfolding any filter
  contains_id-filter i [] h = refl
  contains_id-filter i (job ∷ jobs) h = ground (arith, h, contains_id-filter i jobs)

  pub IsUnique-filter :
      (jobs : List JobResult) → IsUnique (job_ids jobs) → IsUnique (job_ids (filter q jobs))
  unfolding filter
  IsUnique-filter [] u = tt
  IsUnique-filter (job ∷ jobs) u =
      if_ind (λ l. IsUnique (job_ids l)) (q job)
        (λ _. (contains_id-filter job.job_id jobs u.0, IsUnique-filter jobs u.1))
        (λ _. IsUnique-filter jobs u.1)

module _ (completed : List ℕ) where
  pub filter-fresh :
      (jobs : List JobResult)
      → All
          (λ i. contains_id i completed ≡ false)
          (job_ids (filter (is_newly_terminal completed) jobs))
  unfolding filter is_newly_terminal
  filter-fresh [] = tt
  filter-fresh (job ∷ jobs) =
      if_ind (λ l. All (λ i. contains_id i completed ≡ false) (job_ids l))
        (is_newly_terminal completed job) (λ h. (ground (arith, h), filter-fresh jobs))
        (λ _. filter-fresh jobs)

  pub filter-concluded :
      (jobs : List JobResult)
      → All (λ j. is_some j.conclusion ≡ true) (filter (is_newly_terminal completed) jobs)
  unfolding filter is_newly_terminal
  filter-concluded [] = tt
  filter-concluded (job ∷ jobs) =
      if_ind (All (λ j. is_some j.conclusion ≡ true)) (is_newly_terminal completed job)
        (λ h. (ground (arith, h), filter-concluded jobs)) (λ _. filter-concluded jobs)

-- The job is among the announced ones if it has concluded.
abbrev pub IsAnnounced : List ℕ → JobResult → Type 0
IsAnnounced ids job = is_some job.conclusion ≡ true → contains_id job.job_id ids ≡ true

pub contains_id-left :
    (i : ℕ) (xs ys : List ℕ) → contains_id i xs ≡ true → contains_id i (xs ++ ys) ≡ true
contains_id-left i xs ys h = ground (arith, h, any-append (λ j. j == i) xs ys)

contains_id-insert :
    (i j : ℕ) (xs ys : List ℕ)
    → contains_id i (xs ++ ys) ≡ true
    → contains_id i (xs ++ (j ∷ ys)) ≡ true
unfolding any
contains_id-insert i j xs ys h =
    ground (arith, h, any-append (λ k. k == i) xs ys, any-append (λ k. k == i) xs (j ∷ ys))

contains_id-here : (i : ℕ) (xs ys : List ℕ) → contains_id i (xs ++ (i ∷ ys)) ≡ true
unfolding any
contains_id-here i xs ys = ground (arith, any-append (λ k. k == i) xs (i ∷ ys), ==_refl i)

pub filter-IsAnnounced :
    (completed : List ℕ) (jobs : List JobResult)
    → All (IsAnnounced (completed ++ job_ids (filter (is_newly_terminal completed) jobs))) jobs
unfolding filter is_newly_terminal
filter-IsAnnounced completed [] = tt
filter-IsAnnounced completed (job ∷ jobs) =
    let rest : List ℕ = job_ids (filter (is_newly_terminal completed) jobs) in
    if_ind (λ l. All (IsAnnounced (completed ++ job_ids l)) (job ∷ jobs))
      (is_newly_terminal completed job)
      (λ _. (
        λ _. contains_id-here job.job_id completed rest,
        All-map
            (λ j h concluded. contains_id-insert j.job_id job.job_id completed rest (h concluded))
            jobs (filter-IsAnnounced completed jobs),
      ))
      (λ old. (
        λ concluded. contains_id-left job.job_id completed rest (ground (arith, old, concluded)),
        filter-IsAnnounced completed jobs,
      ))
