-- ===== src/Github/Jobs.antt =====
-- src/github/correlator.rs: what octocrab reads of a job and its steps, as the program's own values.
use Prim.Native.String.{String}
use mathlib.Core.Option
use gcit.Base.{ℕ, ◌^◌, Option, some, List, map, ltb, if◌then◌else◌}
use gcit.Base.Results.{ℤ, pos, negsuc}
use gcit.State.Types.{DateTime}
use gcit.Github.Values.{Conclusion, StepResult, JobResult}

-- `octocrab::models::workflows::Conclusion`: the variants that the code names, and any other.
pub data ApiConclusion : Type 0 where
  action_required cancelled failure neutral skipped success timed_out other : ApiConclusion

unfoldable pub map_conclusion : ApiConclusion → Conclusion
map_conclusion action_required = Conclusion.action_required
map_conclusion cancelled = Conclusion.cancelled
map_conclusion failure = Conclusion.failure
map_conclusion neutral = Conclusion.neutral
map_conclusion skipped = Conclusion.skipped
map_conclusion success = Conclusion.success
map_conclusion timed_out = Conclusion.timed_out
map_conclusion other = Conclusion.unknown

-- What of octocrab's `Step` and `Job` is read.
pub record Step : Type 0 where
  pub name : String
  pub number : ℤ
  pub conclusion : Option ApiConclusion
  pub started_at : Option DateTime
  pub completed_at : Option DateTime

pub record Job : Type 0 where
  pub id : ℕ
  pub name : String
  pub html_url : String
  pub conclusion : Option ApiConclusion
  pub started_at : DateTime
  pub completed_at : Option DateTime
  pub steps : List Step
  pub run_attempt : ℕ

-- `u32::try_from(i).unwrap_or(0)`
abbrev pub to_u32 : ℤ → ℕ
to_u32 (pos n) = if ltb n (2 ^ 32) then n else 0
to_u32 (negsuc n) = 0

unfoldable pub step_to_result : Step → StepResult
unfolding map_conclusion
step_to_result step = record {
  name = step.name;
  number = to_u32 step.number;
  conclusion = Option.map map_conclusion step.conclusion;
  started_at = step.started_at;
  completed_at = step.completed_at;
}

unfoldable pub job_to_result : Job → JobResult
unfolding step_to_result map_conclusion
job_to_result job = record {
  job_id = job.id;
  name = job.name;
  html_url = job.html_url;
  conclusion = Option.map map_conclusion job.conclusion;
  started_at = some job.started_at;
  completed_at = job.completed_at;
  steps = map step_to_result job.steps;
  run_attempt = job.run_attempt;
}
