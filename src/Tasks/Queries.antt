-- ===== src/Tasks/Queries.antt =====
-- sandbox/extensions/task_engine/task_queries.py: status, lists and cancellation.
use yodoca.Base.{
  ℕ, String, Bool, true, ◌&&◌, not, Option, none, some, List, [], ◌∷◌, map, ◌==◌, if◌then◌else◌,
  same, select, count, length,
}
use yodoca.Base.Sort.{sort}
use yodoca.Tasks.Rows.{
  Status, cancelled, Checkpoint, saved, Task, Db, update_tasks, has_id, is_terminal, find_task,
}
use yodoca.Tasks.Queue.{comes_before}
use yodoca.Tasks.Chains.{status_name, cancel_chain_downstream}

-- TaskStatusResult
pub record TaskInfo : Type 0 where
  pub task_id : String
  pub status : String
  pub agent_id : String
  pub goal : String
  pub step : ℕ
  pub max_steps : ℕ
  pub attempt_no : ℕ
  pub partial_result : Option String
  pub error : Option String
  pub created_at : ℕ
  pub updated_at : ℕ
  pub chain_id : Option String
  pub chain_order : Option ℕ

-- `step_val` and the partial result: 0 and none without a readable checkpoint.
shown_step : Option Checkpoint → ℕ
shown_step (some (saved state)) = state.step
shown_step _ = 0

shown_result : Option Checkpoint → Option String
shown_result (some (saved state)) = state.partial_result
shown_result _ = none

unfoldable pub to_task_info : Task → TaskInfo
unfolding shown_step shown_result
to_task_info t = record {
  task_id = t.task_id;
  status = status_name t.status;
  agent_id = t.agent_id;
  goal = t.payload.goal;
  step = shown_step t.checkpoint;
  max_steps = t.payload.max_steps;
  attempt_no = t.attempt_no;
  partial_result = shown_result t.checkpoint;
  error = t.error;
  created_at = t.created_at;
  updated_at = t.updated_at;
  chain_id = t.chain_id;
  chain_order = t.chain_order;
}

unfoldable pub get_task_status : String → Db → TaskInfo
unfolding to_task_info
get_task_status task_id db = elim (find_task task_id db) [
  | some t ↦ to_task_info t
  | none ↦ record {
    task_id = task_id;
    status = "not_found";
    agent_id = "";
    goal = "";
    step = 0;
    max_steps = 0;
    attempt_no = 0;
    partial_result = none;
    error = some "Task not found";
    created_at = 0;
    updated_at = 0;
    chain_id = none;
    chain_order = none;
  }
]

-- The status filter: active, all, or one status by its name.
pub data Filter : Type 0 where
  active every : Filter
  only : Status → Filter

abbrev pub is_same_status : Status → Status → Bool
is_same_status s t = same (status_name s) (status_name t)

abbrev pub passes : Filter → Task → Bool
passes active t = not (is_terminal t)
passes every t = true
passes (only s) t = is_same_status t.status s

status_of_name : String → List Status → Option Status
status_of_name n [] = none
status_of_name n (s ∷ rest) = if same n (status_name s) then some s else status_of_name n rest

abbrev all_statuses : List Status
all_statuses =
    Status.pending ∷ Status.blocked ∷ Status.running ∷ Status.retry_scheduled
    ∷ Status.waiting_subtasks ∷ Status.human_review ∷ Status.done ∷ Status.failed ∷ Status.cancelled
    ∷ []

-- `none`: the filter is invalid, and ValueError is raised.
unfoldable pub filter_of : String → Option Filter
unfolding status_of_name
filter_of name =
    if same name "active"
    then some active
    else if same name "all"
    then some every
    else elim (status_of_name name all_statuses) [ none ↦ none | some s ↦ some (only s) ]

unfoldable pub listed : Filter → Db → List Task
listed f db = sort comes_before (select (passes f) db.tasks)

-- The tasks and their number.
unfoldable pub list_tasks : String → Db → Option (List TaskInfo × ℕ)
unfolding filter_of listed to_task_info
list_tasks name db = elim (filter_of name) [
  | none ↦ none
  | some f ↦ let ts = map to_task_info (listed f db) in some (ts, length ts)
]

unfoldable pub list_active_tasks : Db → List TaskInfo × ℕ
unfolding listed to_task_info
list_active_tasks db = let ts = map to_task_info (listed active db) in (ts, length ts)

-- The status and the message of CancelTaskResult.
pub data CancelResult : Type 0 where
  was_cancelled not_found : CancelResult

-- `reason or "Cancelled by user"`
abbrev pub reason_or : String → String
reason_or reason = if same reason "" then "Cancelled by user" else reason

-- Every status that is not terminal can be cancelled. `none`: the fuel ran out.
unfoldable pub cancel_task : ℕ → String → String → Db → Option (Db × CancelResult)
cancel_task fuel task_id reason db =
    let hit = λ (t : Task). has_id task_id t && not (is_terminal t) in
    let db' =
      update_tasks hit
        (λ at t. record t { status = cancelled; error = some (reason_or reason); updated_at = at })
        db in
    if count hit db.tasks == 0
    then some (db', not_found)
    else elim (cancel_chain_downstream fuel task_id (reason_or reason) db') [
      | none ↦ none
      | some (db'', total) ↦ some (db'', was_cancelled)
    ]
