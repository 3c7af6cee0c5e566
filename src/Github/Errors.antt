-- ===== src/Github/Errors.antt =====
-- src/github/error: what the status of a response means, and whether the request is tried again.
-- `show` prints a status. The messages are bytes; an error of octocrab is what `classify` reads of it.
use gcit.Base.{
  ℕ, ◌+◌, ◌-◌, Bool, false, Option, none, some, [], ◌∷◌, ◌++◌, map, ltb, leb, ◌==◌, ◌&&◌, ◌||◌,
  if◌then◌else◌,
}
use gcit.State.Types.{DateTime}
use gcit.Poll.Strategy.{Duration}
use gcit.Mail.{Bytes, ascii, starts_with}

pub data Retryability : Type 0 where
  transient permanent : Retryability

pub data GithubErrorKind : Type 0 where
  unauthorized : (credential : Bytes) → GithubErrorKind
  forbidden : (credential : Bytes) → GithubErrorKind
  workflow_not_found : (repo workflow : Bytes) → GithubErrorKind
  dispatch_invalid : (workflow : Bytes) → GithubErrorKind
  rate_limited : (credential : Bytes) (reset : DateTime) → GithubErrorKind
  server_error : (status max_attempts : ℕ) → GithubErrorKind
  timeout : Duration → GithubErrorKind
  transport : (source : Bytes) → GithubErrorKind
  unknown : (source : Bytes) → GithubErrorKind
  cancelled : GithubErrorKind
  body_too_large : (declared : Option ℕ) (limit : ℕ) → GithubErrorKind

abbrev pub server_error_max_attempts : ℕ
server_error_max_attempts = 6

unfoldable pub retryability : GithubErrorKind → Retryability
retryability (unauthorized _) = permanent
retryability (forbidden _) = permanent
retryability (workflow_not_found _ _) = permanent
retryability (dispatch_invalid _) = permanent
retryability cancelled = permanent
retryability (body_too_large _ _) = permanent
retryability (server_error _ _) = transient
retryability (timeout _) = transient
retryability (rate_limited _ _) = transient
retryability (transport _) = transient
retryability (unknown _) = transient

unfoldable pub retry_after : DateTime → GithubErrorKind → Option Duration
retry_after now (rate_limited credential reset) =
    if ltb now reset then some (reset - now) else some 0
retry_after now (unauthorized _) = none
retry_after now (forbidden _) = none
retry_after now (workflow_not_found _ _) = none
retry_after now (dispatch_invalid _) = none
retry_after now cancelled = none
retry_after now (body_too_large _ _) = none
retry_after now (server_error _ _) = none
retry_after now (timeout _) = none
retry_after now (transport _) = none
retry_after now (unknown _) = none

-- `to_ascii_lowercase`
abbrev pub lowercase : ℕ → ℕ
lowercase c = if leb 65 c && leb c 90 then c + 32 else c

unfoldable pub contains : Bytes → Bytes → Bool
unfolding starts_with
contains p [] = starts_with p []
contains p (c ∷ s) = starts_with p (c ∷ s) || contains p s

unfoldable pub message_indicates_dispatch_invalid : Bytes → Bool
unfolding contains
message_indicates_dispatch_invalid message =
    let lower = map lowercase message in
    contains (ascii "unexpected inputs") lower || contains (ascii "gcit_run_id") lower

-- A minute in nanoseconds, where the reset is missing or past.
abbrev pub resolve_reset : DateTime → Option DateTime → DateTime
resolve_reset now none = now + 60000000000
resolve_reset now (some r) = if ltb now r then r else now + 60000000000

pub record StatusContext : Type 0 where
  pub status : ℕ
  pub message : Bytes
  pub rate_limit_remaining : Option ℕ
  pub rate_limit_reset : Option DateTime
  pub credential : Bytes
  pub repo : Bytes
  pub workflow : Bytes

-- `rate_limit_remaining == Some(0)`
abbrev pub is_exhausted : Option ℕ → Bool
is_exhausted none = false
is_exhausted (some remaining) = remaining == 0

-- `octocrab::Error`: a response that is an error, an error on the way, or another; those two as text.
pub data OctocrabError : Type 0 where
  github : (status : ℕ) (message : Bytes) → OctocrabError
  wire other : (err : Bytes) → OctocrabError

module _ (show : ℕ → Bytes) where
  unfoldable pub classify_status : DateTime → StatusContext → GithubErrorKind
  unfolding message_indicates_dispatch_invalid
  classify_status now ctx =
      if ctx.status == 401
      then unauthorized ctx.credential
      else if ctx.status == 403
      then if is_exhausted ctx.rate_limit_remaining
        then rate_limited ctx.credential (resolve_reset now ctx.rate_limit_reset)
        else forbidden ctx.credential
      else if ctx.status == 404
      then workflow_not_found ctx.repo ctx.workflow
      else if ctx.status == 422
      then if message_indicates_dispatch_invalid ctx.message
        then dispatch_invalid ctx.workflow
        else unknown
            (ascii "github 422 on " ++ ctx.repo ++ (47 ∷ ctx.workflow) ++ ascii ": " ++ ctx.message)
      else if ctx.status == 429
      then rate_limited ctx.credential (resolve_reset now ctx.rate_limit_reset)
      else if leb 500 ctx.status && ltb ctx.status 600
      then server_error ctx.status server_error_max_attempts
      else unknown (ascii "uncategorised github status " ++ show ctx.status)

  -- `classify`, for an error of octocrab.
  unfoldable pub classify :
      DateTime
      → (credential repo workflow : Bytes) → Option ℕ
      → Option DateTime
      → OctocrabError
      → GithubErrorKind
  unfolding classify_status
  classify now credential repo workflow remaining reset (github status message) =
      classify_status now (record {
        status = status;
        message = message;
        rate_limit_remaining = remaining;
        rate_limit_reset = reset;
        credential = credential;
        repo = repo;
        workflow = workflow;
      })
  classify now credential repo workflow remaining reset (wire err) =
      transport (ascii "octocrab transport error: " ++ err)
  classify now credential repo workflow remaining reset (other err) =
      unknown (ascii "octocrab error: " ++ err)
