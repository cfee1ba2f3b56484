-- ===== src/Tasks/State.antt =====
-- sandbox/extensions/task_engine/state.py.
use yodoca.Base.{String, Option, none, some, []}
use yodoca.Tasks.Rows.{Payload, TaskState, Checkpoint, saved, unreadable}

-- TaskState(goal=…)
unfoldable pub fresh_state : String → TaskState
fresh_state goal = record {
  goal = goal;
  step = 0;
  status = "running";
  context = [];
  steps_log = [];
  pending_subtasks = [];
  partial_result = none;
  schema_version = 1;
}

-- The block `try: TaskState.from_json(…) if … else TaskState(goal=…) except: TaskState(goal=…)`.
unfoldable pub load_state : Payload → Option Checkpoint → TaskState
unfolding fresh_state
load_state payload none = fresh_state payload.goal
load_state payload (some (saved state)) = state
load_state payload (some unreadable) = fresh_state payload.goal
