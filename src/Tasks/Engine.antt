-- ===== src/Tasks/Engine.antt =====
-- sandbox/extensions/task_engine/main.py: the status of a chain, the handler of `task.completed`,
-- and the rounds of the worker.
use Prim.Native.String.{◌++◌ as ◌+++◌}
use yodoca.Base.{
  ℕ, String, Bool, true, false, ◌&&◌, not, Option, none, some, List, [], ◌∷◌, if◌then◌else◌, any,
  all,
}
use yodoca.Tasks.Rows.{Status, failed, TaskResult, Task, Db, completed, notified}
use yodoca.Tasks.Queue.{claim_next_task, recover_stale_tasks, restart_interrupted_error}
use yodoca.Tasks.Chains.{unblock_successors, get_chain_tasks}
use yodoca.Tasks.Subtasks.{try_resume_parent}
use yodoca.Tasks.Worker.{World, Lease, emit}
use yodoca.Tasks.Worker.Run.{execute_task}
use yodoca.Base.{take_chars}
use yodoca.Tasks.Submission.{given}

pub data Overall : Type 0 where
  not_found all_done some_failed some_cancelled some_running all_blocked : Overall

abbrev has_status : Status → Task → Bool
has_status Status.done t = elim t.status [ Status.done ↦ true | _ ↦ false ]
has_status Status.failed t = elim t.status [ Status.failed ↦ true | _ ↦ false ]
has_status Status.cancelled t = elim t.status [ Status.cancelled ↦ true | _ ↦ false ]
has_status _ t = elim t.status [ Status.running ↦ true | Status.pending ↦ true | _ ↦ false ]

pub overall : List Task → Overall
overall [] = not_found
overall (t ∷ ts) =
    let tasks = t ∷ ts in
    if all (has_status Status.done) tasks
    then all_done
    else if any (has_status Status.failed) tasks
    then some_failed
    else if any (has_status Status.cancelled) tasks
    then some_cancelled
    else if any (has_status Status.running) tasks
    then some_running
    else all_blocked

unfoldable pub get_chain_status : String → Db → Overall
unfolding overall get_chain_tasks
get_chain_status chain_id db = overall (get_chain_tasks chain_id db)

-- The payload of a `task.completed` event.
pub record Completed : Type 0 where
  pub task_id : String
  pub parent_id : Option String
  pub status : Status
  pub result : Option TaskResult
  pub error : Option String

-- `_notify_task_completed`
pub summary : Completed → String
summary e =
    let name = "Task " +++ take_chars 8 e.task_id in
    elim e.status [
      | Status.done ↦
          name
          +++ "... completed: "
          +++ take_chars 500 (elim e.result [ none ↦ "Task completed." | some r ↦ r.content ])
      | _ ↦ name +++ "... failed: " +++ elim e.error [ none ↦ "unknown" | some m ↦ m ]
    ]

abbrev is_reported : Status → Bool
is_reported Status.done = true
is_reported Status.failed = true
is_reported _ = false

-- `_on_task_completed`; `none`: the fuel of the cascade ran out.
unfoldable pub on_task_completed : ℕ → Completed → Db → Option Db
unfolding summary
on_task_completed fuel e db =
    let db' =
      if given e.parent_id
      then try_resume_parent (elim e.parent_id [ none ↦ "" | some p ↦ p ]) db
      else db in
    elim (unblock_successors fuel e.task_id e.status e.result db') [
      | none ↦ none
      | some db'' ↦ some (
          if not (given e.parent_id) && is_reported e.status
          then emit (notified (summary e)) db''
          else db'')
    ]

emit_all : List (String × Option String) → Db → Db
emit_all [] db = db
emit_all ((task_id, parent_id) ∷ rest) db =
    emit_all rest
      (emit (completed task_id parent_id failed none (some restart_interrupted_error)) db)

-- `run_background` before its loop.
unfoldable pub recover_at_start : Db → Db
unfolding emit_all
recover_at_start db = let (db', refs) = recover_stale_tasks db in emit_all refs db'

-- One pass of the loop of `run_background`; `false`: no task was claimed, and the worker sleeps.
unfoldable pub work : World → Lease → Db → Db × Bool
work world lease db =
    let (db', claimed) = claim_next_task lease.worker_id lease.lease_ttl db in
    elim claimed [ none ↦ (db', false) | some t ↦ (execute_task world t lease db', true) ]
