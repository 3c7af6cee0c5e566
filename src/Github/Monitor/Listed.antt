-- ===== src/Github/Monitor/Listed.antt =====
-- src/github/monitor.rs: the jobs that the pages of a listing give.
use mathlib.Core.List.{map-append}
use gcit.Base.{
  ℕ, zero, suc, ◌+◌, ◌==◌, any, All, All-map, ◌≤◌, ◌<◌, Bool, true, false, List, [], ◌∷◌, ◌++◌, map,
  append-nil, append_assoc, length, take, take_whole, take-append, length-append, ◌≡◌, refl, sym,
  ap, ◌∙◌, subst, arith, leb, leb→le, if_ind, if◌then◌else◌,
}
use gcit.Base.Results.{Result, ok, err}
use gcit.Github.Errors.{GithubErrorKind}
use gcit.Github.Values.{JobResult}
use gcit.Github.Jobs.{Job, job_to_result}
use gcit.Github.Pages.{Pages, failed, last, more}
use gcit.Github.Monitor.{max_jobs_per_run, push_jobs, collect_jobs, max_attempt}

-- The items of the pages that are read, each of them answered, where `before` jobs were listed already:
-- up to the last page, the cap on pages or the cap on jobs.
pub data Reads : (before left : ℕ) → Pages Job → List Job → Type 0 where
  to_the_end : (before left : ℕ) (items : List Job) → Reads before left (last items) items
  to_page_cap :
      (before : ℕ) (items : List Job) (rest : Pages Job) → Reads before zero (more items rest) items
  to_job_cap :
      (before left : ℕ) (items : List Job) (rest : Pages Job)
      → max_jobs_per_run ≤ before + length items
      → Reads before (suc left) (more items rest) items
  page :
      (before left : ℕ) (items others : List Job) (rest : Pages Job)
      → before + length items < max_jobs_per_run
      → Reads (before + length items) left rest others
      → Reads before (suc left) (more items rest) (items ++ others)

-- The request for a page fails before a cap is met.
pub data Fails (e : GithubErrorKind) : (before left : ℕ) → Pages Job → Type 0 where
  request : (before left : ℕ) → Fails e before left (failed e)
  page :
      (before left : ℕ) (items : List Job) (rest : Pages Job)
      → before + length items < max_jobs_per_run
      → Fails e (before + length items) left rest
      → Fails e before (suc left) (more items rest)

-- The attempt of a summary with these jobs, of a run with that one.
abbrev pub IsHighest : ℕ → List JobResult → ℕ → Type 0
IsHighest attempt [] n = n ≡ attempt
IsHighest attempt (job ∷ jobs) n =
    All (λ j. j.run_attempt ≤ n) (job ∷ jobs) × (any (λ j. j.run_attempt == n) (job ∷ jobs) ≡ true)

max_attempt_upper :
    (jobs : List JobResult) (attempt : ℕ) → All (λ j. j.run_attempt ≤ max_attempt jobs attempt) jobs
max_attempt_upper [] attempt = tt
max_attempt_upper (job ∷ jobs) attempt =
    (omega arith, All-map (λ j h. omega (arith, h)) jobs (max_attempt_upper jobs job.run_attempt))

max_attempt_met :
    (job : JobResult) (jobs : List JobResult) (attempt : ℕ)
    → any (λ j. j.run_attempt == max_attempt (job ∷ jobs) attempt) (job ∷ jobs) ≡ true
unfolding any
max_attempt_met job [] attempt = ground arith
max_attempt_met job (other ∷ jobs) attempt =
    ground (arith, max_attempt_met other jobs job.run_attempt)

pub max_attempt-IsHighest :
    (jobs : List JobResult) (attempt : ℕ) → IsHighest attempt jobs (max_attempt jobs attempt)
max_attempt-IsHighest [] attempt = refl
max_attempt-IsHighest (job ∷ jobs) attempt =
    (max_attempt_upper (job ∷ jobs) attempt, max_attempt_met job jobs attempt)

abbrev pub cap : List JobResult → List JobResult
cap = take max_jobs_per_run

-- What is left of all the jobs, and whether the cap is met.
abbrev pushed : List JobResult → List JobResult × Bool
pushed all = (cap all, leb max_jobs_per_run (length all))

pushed_room : (out : List JobResult) → length out < max_jobs_per_run → (out, false) ≡ pushed out
pushed_room out h =
    let few : leb max_jobs_per_run (length out) ≡ false = ground arith in
    cc (take_whole max_jobs_per_run out (omega arith), few)

pushed_full :
    (out others : List JobResult)
    → length out ≡ max_jobs_per_run
    → (out, true) ≡ pushed (out ++ others)
pushed_full out others h =
    let full : leb max_jobs_per_run (length (out ++ others)) ≡ true =
      ground (arith, length-append out others) in
    cc (
      take-append max_jobs_per_run out others (omega arith),
      take_whole max_jobs_per_run out (omega arith),
      full,
    )

push_jobs-eq :
    (items : List Job) (out : List JobResult)
    → length out < max_jobs_per_run
    → push_jobs items out ≡ pushed (out ++ map job_to_result items)
unfolding push_jobs
push_jobs-eq [] out h = pushed_room out h ∙ ap pushed (sym (append-nil out))
push_jobs-eq (job ∷ items) out h =
    if_ind (λ r. r ≡ pushed (out ++ map job_to_result (job ∷ items)))
      (leb max_jobs_per_run (length (out ++ (job_to_result job ∷ []))))
      (λ full.
        pushed_full (out ++ (job_to_result job ∷ [])) (map job_to_result items)
          (omega (arith, leb→le _ _ full, length-append out (job_to_result job ∷ [])))
        ∙ ap pushed (append_assoc out (job_to_result job ∷ []) (map job_to_result items)))
      (λ room.
        push_jobs-eq items (out ++ (job_to_result job ∷ [])) (ground (arith, room))
        ∙ ap pushed (append_assoc out (job_to_result job ∷ []) (map job_to_result items)))

length-map-job_to_result : (items : List Job) → length (map job_to_result items) ≡ length items
length-map-job_to_result [] = refl
length-map-job_to_result (job ∷ items) = ap suc (length-map-job_to_result items)

length-jobs :
    (out : List JobResult) (items : List Job)
    → length (out ++ map job_to_result items) ≡ length out + length items
length-jobs out items =
    omega (arith, length-append out (map job_to_result items), length-map-job_to_result items)

pub data Collects (out : List JobResult) (left : ℕ) (pages : Pages Job)
    : Result GithubErrorKind (List JobResult) → Type 0 where
  collected :
      (all : List Job)
      → Reads (length out) left pages all
      → Collects out left pages (ok (cap (out ++ map job_to_result all)))
  broken : (e : GithubErrorKind) → Fails e (length out) left pages → Collects out left pages (err e)

-- All that is read of the last page.
collected_here :
    (out : List JobResult) (left : ℕ) (pages : Pages Job) (items : List Job)
    → length out < max_jobs_per_run
    → Reads (length out) left pages items
    → Collects out left pages (ok (push_jobs items out).0)
collected_here out left pages items h reads =
    subst (λ x. Collects out left pages (ok x.0)) (sym (push_jobs-eq items out h))
      (collected items reads)

-- One page more, before the others.
page-Collects :
    (out : List JobResult) (left : ℕ) (items : List Job) (rest : Pages Job)
    (result : Result GithubErrorKind (List JobResult))
    → length out + length items < max_jobs_per_run
    → Collects (out ++ map job_to_result items) left rest result
    → Collects out (suc left) (more items rest) result
page-Collects out left items rest _ lt (collected others reads) =
    subst (λ l. Collects out (suc left) (more items rest) (ok (cap l)))
      (ap (λ l. out ++ l) (map-append job_to_result items others)
        ∙ sym (append_assoc out (map job_to_result items) (map job_to_result others)))
      (collected (items ++ others) (
        page _ left items others rest lt
          (subst (λ n. Reads n left rest others) (length-jobs out items) reads)))
page-Collects out left items rest _ lt (broken e fails) = broken e (
    Fails.page _ left items rest lt
      (subst (λ n. Fails e n left rest) (length-jobs out items) fails))

pub collect_jobs-Collects :
    (left : ℕ) (out : List JobResult) (pages : Pages Job)
    → length out < max_jobs_per_run
    → Collects out left pages (collect_jobs left out pages)
unfolding collect_jobs
collect_jobs-Collects zero out (failed e) h = broken e (request _ _)
collect_jobs-Collects (suc left) out (failed e) h = broken e (request _ _)
collect_jobs-Collects zero out (last items) h =
    collected_here out zero (last items) items h (to_the_end _ _ items)
collect_jobs-Collects (suc left) out (last items) h =
    collected_here out (suc left) (last items) items h (to_the_end _ _ items)
collect_jobs-Collects zero out (more items rest) h =
    collected_here out zero (more items rest) items h (to_page_cap _ items rest)
collect_jobs-Collects (suc left) out (more items rest) h =
    subst
      (λ x.
        Collects out (suc left) (more items rest)
          (if x.1 then ok x.0 else collect_jobs left x.0 rest))
      (sym (push_jobs-eq items out h))
      (if_ind (Collects out (suc left) (more items rest)) (leb max_jobs_per_run (length first))
        (λ full.
          collected items
            (to_job_cap _ left items rest (omega (arith, leb→le _ _ full, length-jobs out items))))
        (λ room.
          let few : length first < max_jobs_per_run = ground (arith, room) in
          page-Collects out left items rest _ (omega (arith, few, length-jobs out items)) (
            subst (λ l. Collects first left rest (collect_jobs left l rest))
              (sym (take_whole max_jobs_per_run first (omega (arith, few))))
              (collect_jobs-Collects left first rest few))))
  where
    first : List JobResult
    first = out ++ map job_to_result items
