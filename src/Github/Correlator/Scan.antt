-- ===== src/Github/Correlator/Scan.antt =====
-- src/github/correlator.rs: what the two scans find in a listing.
use gcit.Base.{
  ℕ, ◌≤◌, ◌<◌, zero, suc, Bool, Option, none, some, List, [], ◌∷◌, ◌++◌, append-nil, append_assoc,
  filter, ◌≡◌, refl, sym, ap, ◌∙◌, subst, arith, ltb, All, All-append, All-map, if_ind, ltb→lt,
}
use gcit.Base.Results.{Result, ok, err, map_ok}
use gcit.Github.Errors.{GithubErrorKind}
use gcit.Github.Pages.{Pages, failed, last, more, read}
use gcit.Github.Correlator.{
  Run, CorrelateParams, is_named, collect_matches, collect_newest, newest_of, consider, cutoff,
}

filter-append {ℓ} :
    {A : Type ℓ} (f : A → Bool) (xs ys : List A) → filter f (xs ++ ys) ≡ filter f xs ++ filter f ys
unfolding filter
filter-append f [] ys = refl
filter-append f (x ∷ xs) ys = ground (arith, filter-append f xs ys)

-- The loop over the pages collects the named runs of all that it reads.
pub collect_matches-eq-filter :
    (p : CorrelateParams) (left : ℕ) (matches : List Run) (pages : Pages Run)
    → collect_matches p left matches pages
      ≡ map_ok (λ items. matches ++ filter (is_named p) items) (read left pages)
unfolding collect_matches read
collect_matches-eq-filter p zero matches (failed e) = refl
collect_matches-eq-filter p (suc left) matches (failed e) = refl
collect_matches-eq-filter p zero matches (last items) = refl
collect_matches-eq-filter p (suc left) matches (last items) = refl
collect_matches-eq-filter p zero matches (more items rest) = refl
collect_matches-eq-filter p (suc left) matches (more items rest) =
    collect_matches-eq-filter p left (matches ++ filter (is_named p) items) rest
    ∙ regroup (read left rest)
  where
    regroup :
        (r : Result GithubErrorKind (List Run))
        → map_ok (λ others. (matches ++ filter (is_named p) items) ++ filter (is_named p) others) r
          ≡ map_ok
              (λ all. matches ++ filter (is_named p) all)
              (map_ok (λ others. items ++ others) r)
    regroup (err e) = refl
    regroup (ok others) = ap ok (
        append_assoc matches (filter (is_named p) items) (filter (is_named p) others)
        ∙ ap (λ l. matches ++ l) (sym (filter-append (is_named p) items others)))

newest_of-append :
    (p : CorrelateParams) (newest : Option Run) (xs ys : List Run)
    → newest_of p newest (xs ++ ys) ≡ newest_of p (newest_of p newest xs) ys
unfolding newest_of
newest_of-append p newest [] ys = refl
newest_of-append p newest (x ∷ xs) ys = newest_of-append p (consider p newest x) xs ys

pub collect_newest-eq-newest_of :
    (p : CorrelateParams) (left : ℕ) (newest : Option Run) (pages : Pages Run)
    → collect_newest p left newest pages ≡ map_ok (newest_of p newest) (read left pages)
unfolding collect_newest read
collect_newest-eq-newest_of p zero newest (failed e) = refl
collect_newest-eq-newest_of p (suc left) newest (failed e) = refl
collect_newest-eq-newest_of p zero newest (last items) = refl
collect_newest-eq-newest_of p (suc left) newest (last items) = refl
collect_newest-eq-newest_of p zero newest (more items rest) = refl
collect_newest-eq-newest_of p (suc left) newest (more items rest) =
    collect_newest-eq-newest_of p left (newest_of p newest items) rest ∙ regroup (read left rest)
  where
    regroup :
        (r : Result GithubErrorKind (List Run))
        → map_ok (newest_of p (newest_of p newest items)) r
          ≡ map_ok (newest_of p newest) (map_ok (λ others. items ++ others) r)
    regroup (err e) = refl
    regroup (ok others) = ap ok (sym (newest_of-append p newest items others))

-- A run of the last two minutes before the dispatch, or of after it.
abbrev pub IsRecent : CorrelateParams → Run → Type 0
IsRecent p run = cutoff p ≤ run.created_at

-- The run is the first of the newest recent runs of the list.
pub data IsNewest (p : CorrelateParams) : List Run → Run → Type 0 where
  newest :
      (before : List Run) (run : Run) (after : List Run)
      → IsRecent p run
      → All (λ r. IsRecent p r → r.created_at < run.created_at) before
      → All (λ r. IsRecent p r → r.created_at ≤ run.created_at) after
      → IsNewest p (before ++ (run ∷ after)) run

-- What is remembered of the runs seen so far.
abbrev Remembers : CorrelateParams → List Run → Option Run → Type 0
Remembers p seen none = All (λ r. r.created_at < cutoff p) seen
Remembers p seen (some run) = IsNewest p seen run

module _ (p : CorrelateParams) where
  IsNewest-snoc :
      (seen : List Run) (run other : Run)
      → IsNewest p seen run
      → (IsRecent p other → other.created_at ≤ run.created_at)
      → IsNewest p (seen ++ (other ∷ [])) run
  IsNewest-snoc seen run other (newest before r after is_recent earlier later) h =
      subst (λ l. IsNewest p l run) (sym (append_assoc before (run ∷ after) (other ∷ [])))
        (newest before run (after ++ (other ∷ [])) is_recent earlier
          (All-append _ after (other ∷ []) later (h, tt)))

  seen-earlier :
      (seen : List Run) (run other : Run)
      → IsNewest p seen run
      → run.created_at < other.created_at
      → All (λ r. IsRecent p r → r.created_at < other.created_at) seen
  seen-earlier seen run other (newest before r after is_recent earlier later) lt =
      All-append _ before (run ∷ after)
        (All-map (λ r h recent. omega (arith, h recent)) before earlier)
        (λ _. lt, All-map (λ r h recent. omega (arith, h recent)) after later)

  consider-Remembers :
      (seen : List Run) (kept : Option Run) (run : Run)
      → Remembers p seen kept
      → Remembers p (seen ++ (run ∷ [])) (consider p kept run)
  unfolding consider
  consider-Remembers seen none run old =
      if_ind (Remembers p (seen ++ (run ∷ []))) (ltb run.created_at (cutoff p))
        (λ is_old.
          All-append (λ r. r.created_at < cutoff p) seen (run ∷ []) old (ltb→lt _ _ is_old, tt))
        (λ recent.
          newest seen run [] (ground (arith, recent))
            (All-map (λ r lt is_recent. omega arith) seen old) tt)
  consider-Remembers seen (some prev) run h =
      if_ind (Remembers p (seen ++ (run ∷ []))) (ltb run.created_at (cutoff p))
        (λ is_old. IsNewest-snoc seen prev run h (λ recent. omega (arith, ltb→lt _ _ is_old)))
        (λ recent.
          if_ind (λ r. IsNewest p (seen ++ (run ∷ [])) r) (ltb prev.created_at run.created_at)
            (λ lt.
              newest seen run [] (ground (arith, recent))
                (seen-earlier seen prev run h (ltb→lt _ _ lt)) tt)
            (λ le. IsNewest-snoc seen prev run h (λ _. ground (arith, le))))

  newest_of-Remembers :
      (seen : List Run) (kept : Option Run) (runs : List Run)
      → Remembers p seen kept
      → Remembers p (seen ++ runs) (newest_of p kept runs)
  unfolding newest_of
  newest_of-Remembers seen kept [] h = subst (λ l. Remembers p l kept) (sym (append-nil seen)) h
  newest_of-Remembers seen kept (run ∷ runs) h =
      subst (λ l. Remembers p l (newest_of p (consider p kept run) runs))
        (append_assoc seen (run ∷ []) runs)
        (newest_of-Remembers (seen ++ (run ∷ [])) (consider p kept run) runs
          (consider-Remembers seen kept run h))

  pub newest_of-IsNewest :
      (runs : List Run) (run : Run) → newest_of p none runs ≡ some run → IsNewest p runs run
  newest_of-IsNewest runs run e = subst (Remembers p runs) e (newest_of-Remembers [] none runs tt)
