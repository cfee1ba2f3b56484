-- ===== src/Tasks/Worker.antt =====
-- sandbox/extensions/task_engine/worker.py: the steps of one task.
pub mod Run
pub mod Steps
pub mod Retrying
use Prim.Native.Char.{Char}
use Prim.Native.String.{◌++◌ as ◌+++◌}
use yodoca.Base.{
  ℕ, zero, suc, ◌+◌, ◌-◌, ◌*◌, ◌^◌, min, String, Bool, true, false, ◌&&◌, ◌||◌, Option, none, some,
  List, [], ◌∷◌, ◌++◌, leb, ltb, if◌then◌else◌, same,
}
use yodoca.Tasks.Rows.{
  Status, done, failed, retry_scheduled, TaskResult, LogEntry, TaskState, Task, StepRecord, Db,
  Emitted, completed, progress, second, now, stamp, tick, update_tasks, has_id, find_task,
}
use yodoca.Tasks.State.{load_state}
use yodoca.Tasks.Queue.{renew_lease, check_cancellation, save_step, save_checkpoint}
use yodoca.Base.{take_chars}
use yodoca.Tasks.Marker.{extract_final_result}

pub data StepStatus : Type 0 where
  success error refused : StepStatus

pub record StepOutcome : Type 0 where
  pub content : Option String
  pub status : StepStatus
  pub tokens_used : Option ℕ
  pub error : Option String

-- What the awaited agent does: it answers or raises.
pub data Invoked : Type 0 where
  answers : StepOutcome → Invoked
  fails : String → Invoked

-- What the awaited background call of the default agent does.
pub data Reply : Type 0 where
  replies breaks : String → Reply

-- The exceptions that leave a step.
pub data Raised : Type 0 where
  retryable non_retryable lease_revoked other : String → Raised
  task_cancelled : Raised

pub data StepResult : Type 0 where
  final : TaskResult → StepResult
  goes_on : StepResult
  raises : Raised → StepResult

-- What the worker takes from outside. An agent sees the state and may, with all that runs
-- meanwhile (tools, other tasks, the keepalive of the lease), change the database. `show` prints a
-- number, `jitter db delay` is random.uniform(0, delay * 0.3), `duration` the measured milliseconds.
pub record World : Type 0 where
  pub known_agent : String → Bool
  pub router_id : String
  pub invoke : String → TaskState → Db → Invoked × Db
  pub background : TaskState → Db → Reply × Db
  pub is_space : Char → Bool
  pub show : ℕ → String
  pub jitter : Db → ℕ → ℕ
  pub duration : Db → ℕ

pub record Lease : Type 0 where
  pub worker_id : String
  pub lease_ttl : ℕ
  pub max_retries : ℕ

unfoldable pub is_router_agent_task : World → String → Bool
is_router_agent_task world agent_id = same agent_id world.router_id || same agent_id "orchestrator"

-- `e or default`
abbrev pub text_or : Option String → String → String
text_or none d = d
text_or (some t) d = if same t "" then d else t

abbrev pub emit : Emitted → Db → Db
emit e db = record db { emitted = db.emitted ++ e ∷ [] }

-- The error code of a step that did not succeed, cut at 100 characters.
error_code : StepOutcome → Option String
error_code o = elim o.status [
  | StepStatus.success ↦ none
  | _ ↦ elim o.error [ none ↦ none | some e ↦ if same e "" then none else some (take_chars 100 e) ]
]

abbrev step_name : StepStatus → String
step_name success = "done"
step_name _ = "failed"

abbrev pub Stepped : Type 0
Stepped = Db × (TaskState × StepResult)

-- `if result is not None: return result`, and the next round of the loop otherwise.
pub unless_ended : (TaskState → Db → Stepped) → Stepped → Stepped
unless_ended rest (db, (state, goes_on)) = rest state db
unless_ended rest (db, (state, final r)) = (db, (state, final r))
unless_ended rest (db, (state, raises e)) = (db, (state, raises e))

-- `invoke_fn` of `run_orchestrator_loop`.
replied : Reply × Db → Invoked × Db
replied (replies c, db) =
    (answers (record { content = some c; status = success; tokens_used = none; error = none }), db)
replied (breaks e, db) = (fails e, db)

-- str(e) of the IntegrityError.
abbrev pub duplicate_step : String
duplicate_step = "UNIQUE constraint failed: task_step.step_id"

module _ (world : World) (task : Task) where
  pub step_record : ℕ → ℕ → StepOutcome → StepRecord
  unfolding error_code
  step_record step_num duration_ms o = record {
    step_id = task.task_id +++ "-" +++ world.show step_num;
    task_id = task.task_id;
    step_no = step_num;
    step_type = "llm_call";
    status = step_name o.status;
    tokens_used = o.tokens_used;
    duration_ms = duration_ms;
    error_code = error_code o;
  }

  -- `state.step`, `state.partial_result` and `state.steps_log` after a successful step.
  pub advance : ℕ → StepOutcome → TaskState → TaskState
  advance step_num o state = record state {
    step = step_num + 1;
    partial_result = o.content;
    steps_log =
        state.steps_log
        ++ record {
          step = step_num + 1;
          type = "llm_call";
          summary = take_chars 200 (elim o.content [ none ↦ "" | some c ↦ c ]);
        }
          ∷ [];
  }

  -- After the checkpoint: the final result ends the loop, and otherwise the progress is reported.
  pub conclude : ℕ → Option String → TaskState → Db → Db × (TaskState × StepResult)
  conclude step_num (some r) state db =
      (db, (state, final (record { content = r; warning = none })))
  conclude step_num none state db =
      (emit (progress task.task_id (step_num + 1) task.payload.max_steps) db, (state, goes_on))

  -- The end of `_run_step`, after the step is recorded.
  pub judge : ℕ → StepOutcome → TaskState → Db → Db × (TaskState × StepResult)
  unfolding advance conclude
  judge step_num o state db = elim o.status [
    | StepStatus.error ↦ (db, (state, raises (retryable (text_or o.error "Agent step failed"))))
    | StepStatus.refused ↦
        (db, (state, raises (non_retryable (text_or o.error "Agent refused task"))))
    | StepStatus.success ↦
        let state' = advance step_num o state in
        conclude step_num
          (extract_final_result world.is_space (elim o.content [ none ↦ "" | some c ↦ c ])) state'
          (save_checkpoint task.task_id state' db)
  ]

  -- `invoke_fn` of the two loops.
  pub call_agent : TaskState → Db → Invoked × Db
  unfolding replied
  call_agent state db =
      if is_router_agent_task world task.agent_id
      then replied (world.background state db)
      else world.invoke task.agent_id state db

  pub answered : ℕ → TaskState → Invoked × Db → Db × (TaskState × StepResult)
  unfolding step_record judge
  answered step_num state (fails e, db) = (db, (state, raises (other e)))
  answered step_num state (answers o, db) =
      elim (save_step (step_record step_num (world.duration db) o) db) [
        | none ↦ (db, (state, raises (other duplicate_step)))
        | some db' ↦ judge step_num o state db'
      ]

  pub run_step : Lease → ℕ → TaskState → Db → Db × (TaskState × StepResult)
  unfolding call_agent answered
  run_step lease step_num state db =
      let (db', renewed) = renew_lease task.task_id lease.worker_id lease.lease_ttl db in
      if renewed
      then (if check_cancellation task.task_id db'
          then (db', (state, raises task_cancelled))
          else answered step_num state (call_agent state db'))
      else (db', (state, raises (lease_revoked ("Lease lost for task " +++ task.task_id))))

  -- `for step_num in range(state.step, max_steps)`: `left` steps are left.
  pub loop : Lease → ℕ → ℕ → TaskState → Db → Db × (TaskState × StepResult)
  loop lease zero step_num state db = (
    db,
    (
      state,
      final (record {
        content = text_or state.partial_result "";
        warning = some (
            "Reached max_steps ("
            +++ world.show task.payload.max_steps
            +++ ") without completion signal");
      }),
    ),
  )
  loop lease (suc left) step_num state db =
      unless_ended (loop lease left (suc step_num)) (run_step lease step_num state db)

  -- `run_orchestrator_loop` and `run_agent_loop`, which differ in `invoke_fn` alone.
  pub run_loop : Lease → TaskState → Db → Db × (TaskState × StepResult)
  run_loop lease state db = loop lease (task.payload.max_steps - state.step) state.step state db
