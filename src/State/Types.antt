-- ===== src/State/Types.antt =====
-- src/state/apply.rs: the types.
use gcit.Base.{ℕ, String, Option, none, List, []}
use gcit.Base.Dict.{Dict}

-- `DateTime<Utc>`
abbrev pub DateTime : Type 0
DateTime = ℕ

abbrev pub schema_version : ℕ
schema_version = 1

abbrev pub notified_runs_cap : ℕ
notified_runs_cap = 100

pub record RunState : Type 0 where
  pub run_id : ℕ
  pub started_at : DateTime
  pub conclusion : Option String
  pub completed_at : Option DateTime

pub record FlowState : Type 0 where
  pub last_sha : Option String
  pub last_poll_at : Option DateTime
  pub last_dispatched_at : Option DateTime
  pub cooldown_until : Option DateTime
  pub active_runs : List RunState
  pub notified_runs : List RunState

-- `FlowState::default()`
abbrev pub default_flow : FlowState
default_flow = record {
  last_sha = none;
  last_poll_at = none;
  last_dispatched_at = none;
  cooldown_until = none;
  active_runs = [];
  notified_runs = [];
}

pub record State : Type 0 where
  pub schema : ℕ
  pub flows : Dict FlowState

-- `State::default()`
abbrev pub default_state : State
default_state = record { schema = schema_version; flows = [] }

pub data StateUpdate (ObjectId : Type 0) : Type 0 where
  poll_observation :
      (flow : String) (last_sha : ObjectId) (last_poll_at : DateTime)
      (last_dispatched_at cooldown_until : Option DateTime)
      → StateUpdate ObjectId
  poll_timestamp : (flow : String) (last_poll_at : DateTime) → StateUpdate ObjectId
  run_started : (flow : String) (run_id : ℕ) (started_at : DateTime) → StateUpdate ObjectId
  run_finished :
      (flow : String) (run_id : ℕ) (conclusion : String) (completed_at : DateTime)
      → StateUpdate ObjectId
  flow_removed : (flow : String) → StateUpdate ObjectId
