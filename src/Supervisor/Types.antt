-- ===== src/Supervisor/Types.antt =====
-- src/flow/supervisor/types.rs, and what the supervisor's event loop owns (`Supervisor`): the
-- registry, the tasks of the `JoinSet`, the cancelled tokens, the respawn requests that are asleep
-- and what the control handler is told. The sender half of a `FlowHandle` is left out.
use gcit.Base.{ℕ, String, Bool, Option, List, [], ◌∷◌, str_eq, filter, length, unwrap_or}
use gcit.Base.Dict.{Dict, lookup}
use gcit.LastError.{FlowLastError}

pub data FlowRole : Type 0 where
  poll dispatcher : FlowRole

-- A flow's token is known by its number.
pub record FlowHandle : Type 0 where
  pub cancel : ℕ

pub record FlowExit : Type 0 where
  pub flow : String
  pub role : FlowRole
  pub panic : Option String

-- `respawning_flows` and `pending_exits` are a set and a map to `u8`.
pub record FlowRegistry : Type 0 where
  pub handles : Dict FlowHandle
  pub respawning_flows : Dict (Unit {0})
  pub pending_exits : Dict ℕ

-- `FlowRegistry::new()`
abbrev pub new_registry : FlowRegistry
new_registry = record { handles = []; respawning_flows = []; pending_exits = [] }

-- A task of the `JoinSet`.
pub record Task : Type 0 where
  pub flow : String
  pub role : FlowRole
  pub token : ℕ

pub record RespawnRequest : Type 0 where
  pub flow : String
  pub attempts : ℕ

pub record Supervisor : Type 0 where
  pub registry : FlowRegistry
  pub tasks : List Task
  pub next_token : ℕ
  pub cancelled : List ℕ
  pub last_errors : Dict FlowLastError
  pub asleep : List RespawnRequest
  pub flow_names : List String
  pub sent_removed : List String

-- `CancellationToken::cancel`
abbrev pub cancel_token : ℕ → Supervisor → Supervisor
cancel_token token d = record d { cancelled = token ∷ d.cancelled }

-- What of `FlowConfig` the supervisor reads: `rest` is what of the source, the action and the poll
-- overrides is not the source's URL.
pub record FlowConfig (Rest Destination : Type 0) : Type 0 where
  pub name : String
  pub enabled : Bool
  pub url : String
  pub rest : Rest
  pub destination : List Destination

-- How many tasks of a flow run, and how many of its exits the registry waits for.
abbrev pub is_task_of : String → Task → Bool
is_task_of flow t = str_eq t.flow flow

unfoldable pub running : String → List Task → ℕ
running flow tasks = length (filter (is_task_of flow) tasks)

unfoldable pub pending : String → FlowRegistry → ℕ
pending flow r = unwrap_or (lookup flow r.pending_exits) 0
