-- ===== src/Github/Values.antt =====
-- src/github/mod.rs: what the API says of a run, its jobs and its steps.
use Prim.Native.String.{String}
use gcit.Base.{ℕ, Bool, true, false, Option, List, str_eq, if◌then◌else◌, ◌≡◌, refl}
use gcit.State.Types.{DateTime}

pub data Conclusion : Type 0 where
  success skipped neutral failure timed_out cancelled action_required unknown : Conclusion

unfoldable pub from_api : String → Conclusion
from_api s =
    if str_eq s "success"
    then success
    else if str_eq s "skipped"
    then skipped
    else if str_eq s "neutral"
    then neutral
    else if str_eq s "failure"
    then failure
    else if str_eq s "timed_out"
    then timed_out
    else if str_eq s "cancelled"
    then cancelled
    else if str_eq s "action_required"
    then action_required
    else unknown

unfoldable pub to_api : Conclusion → String
to_api success = "success"
to_api skipped = "skipped"
to_api neutral = "neutral"
to_api failure = "failure"
to_api timed_out = "timed_out"
to_api cancelled = "cancelled"
to_api action_required = "action_required"
to_api unknown = "unknown"

pub data RunStatus : Type 0 where
  queued in_progress completed waiting unknown : RunStatus

unfoldable pub status_from_api : String → RunStatus
status_from_api s =
    if str_eq s "queued"
    then queued
    else if str_eq s "in_progress"
    then in_progress
    else if str_eq s "completed"
    then completed
    else if str_eq s "waiting"
    then waiting
    else RunStatus.unknown

abbrev pub is_terminal : RunStatus → Bool
is_terminal completed = true
is_terminal queued = false
is_terminal in_progress = false
is_terminal waiting = false
is_terminal RunStatus.unknown = false

pub record StepResult : Type 0 where
  pub name : String
  pub number : ℕ
  pub conclusion : Option Conclusion
  pub started_at : Option DateTime
  pub completed_at : Option DateTime

pub record JobResult : Type 0 where
  pub job_id : ℕ
  pub name : String
  pub html_url : String
  pub conclusion : Option Conclusion
  pub started_at : Option DateTime
  pub completed_at : Option DateTime
  pub steps : List StepResult
  pub run_attempt : ℕ

pub record RunSummary : Type 0 where
  pub run_id : ℕ
  pub run_url : String
  pub run_number : ℕ
  pub run_attempt : ℕ
  pub status : RunStatus
  pub conclusion : Option Conclusion
  pub started_at : Option DateTime
  pub completed_at : Option DateTime
  pub jobs : List JobResult

-- The text of a conclusion is read back as that conclusion.
pub from_api-to_api : (c : Conclusion) → from_api (to_api c) ≡ c
unfolding from_api to_api
from_api-to_api success = refl
from_api-to_api skipped = refl
from_api-to_api neutral = refl
from_api-to_api failure = refl
from_api-to_api timed_out = refl
from_api-to_api cancelled = refl
from_api-to_api action_required = refl
from_api-to_api unknown = refl
