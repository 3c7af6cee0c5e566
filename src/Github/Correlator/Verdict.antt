-- ===== src/Github/Correlator/Verdict.antt =====
-- src/github/correlator.rs: what each of the two scans makes of a round.
use gcit.Base.{◌-◌, Option, none, some, List, [], ◌∷◌, ◌++◌, filter, map, ◌≡◌, refl, sym, subst}
use gcit.Base.Results.{Result, ok, err, map_ok}
use gcit.Mail.{Bytes}
use gcit.Github.Errors.{GithubErrorKind, retryability, transient, permanent}
use gcit.Github.Pages.{read}
use gcit.Github.Correlator.{
  Run, CorrelateParams, CorrelationOutcome, CorrelationError, outcome_of, is_named, duplicate_match,
  github, newest_of, max_pages_per_poll, judge,
}
use gcit.Github.Correlator.Loop.{
  Round, list_runs, scan_name_match, scan_head_sha_fallback, on_named, on_newest, on_scan_error,
  on_matches,
}
use gcit.Github.Correlator.Scan.{
  IsNewest, collect_matches-eq-filter, collect_newest-eq-newest_of, newest_of-IsNewest,
}

-- What a round reads of the listing, all runs of the workflow or those of one commit.
unfoldable pub listing : CorrelateParams → Option Bytes → Round → Result GithubErrorKind (List Run)
unfolding read list_runs
listing p head_sha r = read (max_pages_per_poll - 1) (list_runs p head_sha r)

-- No run of the name is listed, or the listing cannot be read for now.
pub data NoName (p : CorrelateParams) (r : Round) : Type 0 where
  unlisted :
      (items : List Run) → listing p none r ≡ ok items → filter (is_named p) items ≡ [] → NoName p r
  unread :
      (e : GithubErrorKind) → listing p none r ≡ err e → retryability e ≡ transient → NoName p r

-- What a scan by name makes of a round.
pub data Named (p : CorrelateParams) (r : Round)
    : Result CorrelationError (Option CorrelationOutcome) → Type 0 where
  one :
      (items : List Run) (run : Run)
      → listing p none r ≡ ok items
      → filter (is_named p) items ≡ run ∷ []
      → Named p r (ok (some (outcome_of run)))
  nobody : NoName p r → Named p r (ok none)
  many :
      (items : List Run) (run other : Run) (rest : List Run)
      → listing p none r ≡ ok items
      → filter (is_named p) items ≡ run ∷ other ∷ rest
      → Named p r (
          err (
            duplicate_match p.repo p.workflow p.gcit_run_id (map (λ r. r.id) (run ∷ other ∷ rest))))
  broken :
      (e : GithubErrorKind)
      → listing p none r ≡ err e
      → retryability e ≡ permanent
      → Named p r (err (github e))

Named-on_scan_error :
    (p : CorrelateParams) (r : Round) (e : GithubErrorKind)
    → listing p none r ≡ err e
    → Named p r (on_scan_error e)
unfolding on_scan_error
Named-on_scan_error p r e h =
    elim (retryability e)
        as (λ x.
          retryability e ≡ x
          → Named p r (elim x [ transient ↦ ok none | permanent ↦ err (github e) ])) [
            | transient ↦ λ t. nobody (unread e h t)
            | permanent ↦ λ t. broken e h t
          ]
      refl

Named-judge :
    (p : CorrelateParams) (r : Round) (items matches : List Run)
    → listing p none r ≡ ok items
    → filter (is_named p) items ≡ matches
    → Named p r (on_matches p (judge matches))
unfolding on_matches
Named-judge p r items [] h e = nobody (unlisted items h e)
Named-judge p r items (run ∷ []) h e = one items run h e
Named-judge p r items (run ∷ other ∷ rest) h e = many items run other rest h e

pub scan_name_match-Named : (p : CorrelateParams) (r : Round) → Named p r (scan_name_match p r)
unfolding scan_name_match on_named read listing
scan_name_match-Named p r =
    subst (λ c. Named p r (on_named p c))
      (sym (collect_matches-eq-filter p (max_pages_per_poll - 1) [] (list_runs p none r)))
      (judged (listing p none r) refl)
  where
    judged :
        (l : Result GithubErrorKind (List Run))
        → listing p none r ≡ l
        → Named p r (on_named p (map_ok (λ items. [] ++ filter (is_named p) items) l))
    judged (err e) h = Named-on_scan_error p r e h
    judged (ok items) h = Named-judge p r items (filter (is_named p) items) h refl

-- What a scan by commit makes of a round.
pub data Newest (p : CorrelateParams) (r : Round)
    : Result CorrelationError (Option CorrelationOutcome) → Type 0 where
  newest_run :
      (items : List Run) (run : Run)
      → listing p (some p.head_sha) r ≡ ok items
      → IsNewest p items run
      → Newest p r (ok (some (outcome_of run)))
  nothing : Newest p r (ok none)
  unreadable :
      (e : GithubErrorKind)
      → listing p (some p.head_sha) r ≡ err e
      → retryability e ≡ permanent
      → Newest p r (err (github e))

pub scan_head_sha_fallback-Newest :
    (p : CorrelateParams) (r : Round) → Newest p r (scan_head_sha_fallback p r)
unfolding scan_head_sha_fallback on_newest on_scan_error read listing
scan_head_sha_fallback-Newest p r =
    subst (λ c. Newest p r (on_newest c))
      (sym (
        collect_newest-eq-newest_of p (max_pages_per_poll - 1) none
          (list_runs p (some p.head_sha) r)))
      (judged (listing p (some p.head_sha) r) refl)
  where
    failing :
        (e : GithubErrorKind) → listing p (some p.head_sha) r ≡ err e → Newest p r (on_scan_error e)
    failing e h =
        elim (retryability e)
            as (λ x.
              retryability e ≡ x
              → Newest p r (elim x [ transient ↦ ok none | permanent ↦ err (github e) ])) [
                | transient ↦ λ t. nothing
                | permanent ↦ λ t. unreadable e h t
              ]
          refl

    kept :
        (items : List Run) (o : Option Run)
        → listing p (some p.head_sha) r ≡ ok items
        → newest_of p none items ≡ o
        → Newest p r (on_newest (ok o))
    kept items none h e = nothing
    kept items (some run) h e = newest_run items run h (newest_of-IsNewest p items run e)

    judged :
        (l : Result GithubErrorKind (List Run))
        → listing p (some p.head_sha) r ≡ l
        → Newest p r (on_newest (map_ok (newest_of p none) l))
    judged (err e) h = failing e h
    judged (ok items) h = kept items (newest_of p none items) h refl
