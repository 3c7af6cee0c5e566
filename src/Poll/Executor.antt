-- ===== src/Poll/Executor.antt =====
-- src/flow/poll/executor.rs: one poll of the remote, by the flow's strategy. What the network, the
-- URL parser and the handles give is `Upstream`: each awaited request is cancelled, fails with a
-- message, or replies.
use Prim.Native.String.{◌++◌ as append}
use gcit.Base.{String, Bool, false, Option, none, some, if◌then◌else◌, str_eq}
use gcit.Poll.Strategy.{PollStrategy, github_api, grokmirror, ls_remote}

-- src/git/mod.rs
pub data PollOutcome (ObjectId : Type 0) : Type 0 where
  refreshed : ObjectId → PollOutcome ObjectId
  unborn_ref : PollOutcome ObjectId
  unchanged : PollOutcome ObjectId

-- `Result<PollOutcome, PollCycleError>`
pub data PollResult (ObjectId : Type 0) : Type 0 where
  ok : PollOutcome ObjectId → PollResult ObjectId
  cancelled : PollResult ObjectId
  failed : String → PollResult ObjectId

pub data Reply (A : Type 0) : Type 0 where
  cancelled : Reply A
  error : String → Reply A
  replied : A → Reply A

-- `grokmirror::lookup_fingerprint`
pub data ManifestLookup : Type 0 where
  fingerprint : String → ManifestLookup
  repo_not_in_manifest : ManifestLookup
  lookup_error : String → ManifestLookup

pub record Upstream (ObjectId : Type 0) : Type 0 where
  pub has_octo : Bool
  -- The error of `split_github_repo`, if any.
  pub github_url_error : Option String
  pub github : Reply (PollOutcome ObjectId)
  pub has_reqwest : Bool
  pub has_base_url : Bool
  -- The error of `extract_repo_path_from_url`, if any.
  pub repo_path_error : Option String
  pub manifest : Reply ManifestLookup
  pub ls_remote_reply : Reply (PollOutcome ObjectId)

abbrev pub is_prev : Option String → String → Bool
is_prev none fp = false
is_prev (some prev) fp = str_eq prev fp

module _ {ObjectId : Type 0} where
  abbrev pub of_reply : Reply (PollOutcome ObjectId) → PollResult ObjectId
  of_reply Reply.cancelled = PollResult.cancelled
  of_reply (error e) = failed e
  of_reply (replied o) = ok o

  abbrev poll_github : Upstream ObjectId → PollResult ObjectId
  poll_github up =
      if up.has_octo
      then elim up.github_url_error [
        | some e ↦ failed (append "github URL parse: " e)
        | none ↦ of_reply up.github
      ]
      else failed "github_api strategy requires Octocrab handle"

  -- The new fingerprint is stored before the ref is resolved.
  abbrev poll_manifest :
      Option String → Upstream ObjectId → Reply ManifestLookup → PollResult ObjectId × Option String
  poll_manifest cached up Reply.cancelled = (PollResult.cancelled, cached)
  poll_manifest cached up (error e) = (failed e, cached)
  poll_manifest cached up (replied (fingerprint fp)) =
      ((if is_prev cached fp then ok unchanged else of_reply up.ls_remote_reply), some fp)
  poll_manifest cached up (replied repo_not_in_manifest) = (ok unborn_ref, cached)
  poll_manifest cached up (replied (lookup_error e)) =
      (failed (append "grokmirror lookup: " e), cached)

  abbrev poll_grokmirror : Option String → Upstream ObjectId → PollResult ObjectId × Option String
  poll_grokmirror cached up =
      if up.has_reqwest
      then if up.has_base_url
        then elim up.repo_path_error [
          | some e ↦ (failed (append "grokmirror repo path: " e), cached)
          | none ↦ poll_manifest cached up up.manifest
        ]
        else (failed "grokmirror URL must carry a host", cached)
      else (failed "grokmirror strategy requires reqwest handle", cached)

  -- The result, and the cached fingerprint afterwards.
  unfoldable pub poll_one :
      PollStrategy → Option String → Upstream ObjectId → PollResult ObjectId × Option String
  poll_one github_api cached up = (poll_github up, cached)
  poll_one grokmirror cached up = poll_grokmirror cached up
  poll_one ls_remote cached up = (of_reply up.ls_remote_reply, cached)
