-- ===== src/Flow.antt =====
-- src/flow/mod.rs, src/notify/mod.rs: a trigger, what the notifiers are told of a run, and what the
-- tasks of a flow do. The type of git object ids and that of notifiers are parameters; the texts that
-- other systems read are bytes.
pub mod Monitor
pub mod Dispatcher
mod Samples
use Prim.Native.String.{String}
use gcit.Base.{ℕ, Option, List, map}
use gcit.State.Types.{DateTime, StateUpdate}
use gcit.Mail.{Bytes}
use gcit.Github.Values.{JobResult, RunSummary}

pub record TriggerSignal (ObjectId : Type 0) : Type 0 where
  pub observed_sha : ObjectId
  pub observed_at : DateTime

pub record SourceInfo (ObjectId : Type 0) : Type 0 where
  pub url : String
  pub ref_name : String
  pub sha : ObjectId
  pub sha_short : Bytes

pub record ActionInfo : Type 0 where
  pub repo : Bytes
  pub workflow : Bytes
  pub run_id : ℕ
  pub run_url : String
  pub dispatched_at : DateTime

pub record RunContext (ObjectId : Type 0) : Type 0 where
  pub flow_name : String
  pub flow_description : Option String
  pub source : SourceInfo ObjectId
  pub action : ActionInfo
  pub gcit_run_id : Bytes

-- What is done outside the task: a call of a notifier, or an update sent to the state writer.
pub data Effect (Notifier ObjectId : Type 0) : Type 0 where
  on_run_start : Notifier → RunContext ObjectId → Effect Notifier ObjectId
  on_job_complete : Notifier → RunContext ObjectId → JobResult → Effect Notifier ObjectId
  on_run_complete : Notifier → RunContext ObjectId → RunSummary → Effect Notifier ObjectId
  send : StateUpdate ObjectId → Effect Notifier ObjectId

-- One call for each notifier. What becomes of it is only logged.
abbrev pub spawn_fan_out {ℓ} :
    {Notifier : Type 0} {E : Type ℓ} → List Notifier → (Notifier → E) → List E
spawn_fan_out notifiers f = map f notifiers
