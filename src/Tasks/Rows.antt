-- ===== src/Tasks/Rows.antt =====
-- sandbox/extensions/task_engine/models.py, schema.py and state.py: the rows of the two tables and
-- the state of the engine. Times are in microseconds; `int(time.time())` is whole seconds.
use Prim.Native.Nat.{◌/◌}
use yodoca.Base.{ℕ, suc, String, Bool, true, false, Option, List, same, update, find}

pub data Status : Type 0 where
  pending running retry_scheduled blocked waiting_subtasks human_review : Status
  done failed cancelled : Status

-- The JSON of the payload column, as submit_task and submit_chain write it and unblock_successors
-- extends it.
pub record Payload : Type 0 where
  pub goal : String
  pub max_steps : ℕ
  pub source : String
  pub output_channel : Option String
  pub predecessor_result : Option String
  pub predecessor_task_id : Option String

-- The JSON of the result column: {"content": …} or {"content": …, "warning": …}.
pub record TaskResult : Type 0 where
  pub content : String
  pub warning : Option String

pub record SubtaskResult : Type 0 where
  pub task_id : String
  pub status : Status
  pub result : Option TaskResult

pub record SubtaskFailure : Type 0 where
  pub task_id : String
  pub status : Status
  pub error : String

pub data ContextValue : Type 0 where
  text : String → ContextValue
  results : List SubtaskResult → ContextValue
  failures : List SubtaskFailure → ContextValue

pub record LogEntry : Type 0 where
  pub step : ℕ
  pub type : String
  pub summary : String

pub record TaskState : Type 0 where
  pub goal : String
  pub step : ℕ
  pub status : String
  pub context : List (String × ContextValue)
  pub steps_log : List LogEntry
  pub pending_subtasks : List String
  pub partial_result : Option String
  pub schema_version : ℕ

-- The checkpoint column by what TaskState.from_json makes of it: a state, or an exception.
pub data Checkpoint : Type 0 where
  saved : TaskState → Checkpoint
  unreadable : Checkpoint

pub record Task : Type 0 where
  pub task_id : String
  pub parent_id : Option String
  pub run_id : String
  pub agent_id : String
  pub status : Status
  pub priority : ℕ
  pub payload : Payload
  pub result : Option TaskResult
  pub checkpoint : Option Checkpoint
  pub error : Option String
  pub attempt_no : ℕ
  pub schedule_at : Option ℕ
  pub leased_by : Option String
  pub lease_exp : Option ℕ
  pub created_at : ℕ
  pub updated_at : ℕ
  pub after_task_id : Option String
  pub chain_id : Option String
  pub chain_order : Option ℕ

pub record StepRecord : Type 0 where
  pub step_id : String
  pub task_id : String
  pub step_no : ℕ
  pub step_type : String
  pub status : String
  pub tokens_used : Option ℕ
  pub duration_ms : ℕ
  pub error_code : Option String

-- What the engine emits on the bus and shows to the user.
pub data Emitted : Type 0 where
  submitted : (task_id agent_id goal : String) (priority : ℕ) → Emitted
  completed :
      (task_id : String) (parent_id : Option String) (status : Status)
      → Option TaskResult
      → Option String
      → Emitted
  progress : (task_id : String) (step max_steps : ℕ) → Emitted
  notified : String → Emitted

-- `time n` is the n-th reading of time.time(), `clock` the number of readings so far, and `uuids n`
-- the n-th value of uuid.uuid4().
pub record Db : Type 0 where
  pub tasks : List Task
  pub steps : List StepRecord
  pub emitted : List Emitted
  pub time : ℕ → ℕ
  pub clock : ℕ
  pub uuids : ℕ → String
  pub drawn : ℕ

abbrev pub second : ℕ
second = 1000000

abbrev pub now : Db → ℕ
now db = db.time db.clock

-- int(time.time()), for `updated_at`
abbrev pub stamp : Db → ℕ
stamp db = db.time db.clock / second

abbrev pub tick : Db → Db
tick db = record db { clock = suc db.clock }

-- UPDATE agent_task SET … WHERE …, which reads the time once
abbrev pub update_tasks : (Task → Bool) → (ℕ → Task → Task) → Db → Db
update_tasks p f db = record db { tasks = update p (f (stamp db)) db.tasks; clock = suc db.clock }

abbrev pub has_id : String → Task → Bool
has_id task_id t = same t.task_id task_id

abbrev pub is_blocked : Task → Bool
is_blocked t = elim t.status [ Status.blocked ↦ true | _ ↦ false ]

abbrev pub is_running : Task → Bool
is_running t = elim t.status [ Status.running ↦ true | _ ↦ false ]

-- status IN ('done', 'failed', 'cancelled')
abbrev pub is_terminal : Task → Bool
is_terminal t = elim t.status [
  | Status.done ↦ true
  | Status.failed ↦ true
  | Status.cancelled ↦ true
  | _ ↦ false
]

-- SELECT … WHERE task_id = ?
abbrev pub find_task : String → Db → Option Task
find_task task_id db = find (has_id task_id) db.tasks
