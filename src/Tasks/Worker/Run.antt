-- ===== src/Tasks/Worker/Run.antt =====
-- The end of `execute_task`: the rows of the task, its events and its retries.
pub mod Endings
pub mod Overwriting
use Prim.Native.String.{◌++◌ as ◌+++◌}
use yodoca.Base.{
  ℕ, ◌+◌, ◌*◌, ◌^◌, min, String, Bool, true, false, ◌||◌, none, some, leb, if◌then◌else◌,
}
use yodoca.Tasks.Rows.{
  Status, done, failed, retry_scheduled, TaskResult, Task, Db, completed, second, now, tick,
  update_tasks, has_id, find_task,
}
use yodoca.Tasks.State.{load_state}
use yodoca.Tasks.Worker.{
  retryable, non_retryable, lease_revoked, other, task_cancelled, StepResult, final, goes_on,
  raises, World, Lease, emit, is_router_agent_task, run_loop,
}

-- 5 seconds doubled at each attempt, at most 300 seconds, and the jitter.
pub compute_retry_delay : World → ℕ → Db → ℕ
compute_retry_delay world attempt db =
    let delay = min (5 * second * 2 ^ attempt) (300 * second) in delay + world.jitter db delay

-- `row and row[0] in ("waiting_subtasks", "human_review")`
abbrev pub is_paused : String → Db → Bool
is_paused task_id db = elim (find_task task_id db) [
  | none ↦ false
  | some t ↦ elim t.status [
    | Status.waiting_subtasks ↦ true
    | Status.human_review ↦ true
    | _ ↦ false
  ]
]

module _ (world : World) (task : Task) where
  -- After the loop: a paused task gives up its lease, any other is done.
  pub finish : TaskResult → Db → Db
  finish result db =
      if is_paused task.task_id db
      then update_tasks (has_id task.task_id)
          (λ at t. record t { leased_by = none; lease_exp = none; updated_at = at }) db
      else emit (completed task.task_id task.parent_id done (some result) none) (
          update_tasks (has_id task.task_id)
            (λ at t. record t {
              status = done;
              result = some result;
              error = none;
              updated_at = at;
            })
            db)

  -- UPDATE … SET status = 'failed', error = ?, and the event.
  pub fail : String → Db → Db
  fail e db = emit (completed task.task_id task.parent_id failed none (some e)) (
      update_tasks (has_id task.task_id)
        (λ at t. record t { status = failed; error = some e; updated_at = at }) db)

  -- The handler of RetryableError.
  pub retry : ℕ → String → Db → Db
  retry max_retries e db =
      if leb max_retries (task.attempt_no + 1)
      then emit (completed task.task_id task.parent_id failed none (some e)) (
          update_tasks (has_id task.task_id)
            (λ at t. record t {
              status = failed;
              attempt_no = task.attempt_no + 1;
              schedule_at = none;
              error = some e;
              updated_at = at;
            })
            db)
      else let due = now db + compute_retry_delay world task.attempt_no db in
        update_tasks (has_id task.task_id)
          (λ at t. record t {
            status = retry_scheduled;
            attempt_no = task.attempt_no + 1;
            schedule_at = some due;
            error = some e;
            updated_at = at;
          })
          (tick db)

  pub handle : Lease → Db → StepResult → Db
  unfolding finish fail retry
  handle lease db (final r) = finish r db
  handle lease db goes_on = db
  handle lease db (raises (retryable e)) = retry lease.max_retries e db
  handle lease db (raises task_cancelled) =
      emit (completed task.task_id task.parent_id Status.cancelled none (some "Cancelled by user"))
        db
  handle lease db (raises (non_retryable e)) = fail e db
  handle lease db (raises (lease_revoked e)) = fail e db
  handle lease db (raises (other e)) = fail e db

  unfoldable pub execute_task : Lease → Db → Db
  unfolding run_loop handle
  execute_task lease db =
      if is_router_agent_task world task.agent_id || world.known_agent task.agent_id
      then (let (db', (state, result)) =
            run_loop world task lease (load_state task.payload task.checkpoint) db in
          handle lease db' result)
      else handle lease db (raises (non_retryable ("Unknown agent: " +++ task.agent_id)))
