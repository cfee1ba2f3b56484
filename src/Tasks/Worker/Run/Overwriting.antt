-- ===== src/Tasks/Worker/Run/Overwriting.antt =====
-- `cancel_task` of sandbox/extensions/task_engine/task_queries.py while the last step of the task
-- runs, and the end of `execute_task` of worker.py behind it.
use mathlib.Core.Path.{subst, sym}
use yodoca.Base.{
  ℕ, ◌≤◌, ◌<◌, ◌≡◌, refl, inl, inr, String, Bool, true, false, ◌&&◌, not, Option, none, some, [],
  ◌∷◌, ◌++◌, arith, ◌==◌, count, All, All-of, All-update, All-find, Each-All,
}
use yodoca.Tasks.Rows.{
  Status, done, cancelled, TaskResult, Task, Db, completed, update_tasks, has_id, find_task,
  is_terminal, is_blocked, stamp,
}
use yodoca.Tasks.Chains.Failing.{blocked_count}
use yodoca.Tasks.Chains.Cancelling.{IsCancelling, count-update_clear}
use yodoca.Tasks.Chains.Downstream.{cancel_chain_downstream-ends}
use yodoca.Tasks.Queries.{was_cancelled, reason_or, cancel_task}
use yodoca.Tasks.Worker.{World}
use yodoca.Tasks.Worker.Run.{is_paused, finish}
use yodoca.Tasks.Worker.Run.Endings.{set-All}

abbrev waits : Status → Bool
waits s = elim s [ Status.waiting_subtasks ↦ true | Status.human_review ↦ true | _ ↦ false ]

-- A row of the task does not wait for anything.
abbrev Unpaused : String → Task → Type 0
Unpaused task_id t = has_id task_id t ≡ true → waits t.status ≡ false

Unpaused-is_paused :
    (task_id : String) (db : Db) → All (Unpaused task_id) db.tasks → is_paused task_id db ≡ false
Unpaused-is_paused task_id db h = go (find_task task_id db) refl
  where
    go : (o : Option Task) → find_task task_id db ≡ o → is_paused task_id db ≡ false
    go none e = rw (is_paused, e) refl
    go (some t) e =
        let (calm, named) = All-find (Unpaused task_id) (has_id task_id) db.tasks t h e in
        rw (is_paused, e) (calm named)

module _ (task_id reason : String) (db : Db) where
  abbrev open_row : Task → Bool
  open_row t = has_id task_id t && not (is_terminal t)

  abbrev closed_row : ℕ → Task → Task
  closed_row at t = record t {
    status = cancelled;
    error = some (reason_or reason);
    updated_at = at;
  }

  abbrev marked : Db
  marked = update_tasks open_row closed_row db

  marked-Unpaused : All (Unpaused task_id) marked.tasks
  marked-Unpaused =
      All-update (λ _. Unit {0}) (Unpaused task_id) open_row _ db.tasks (λ t _ hit named. refl)
        (λ t _ miss named. ended t miss named) (All-of (λ _. Unit {0}) db.tasks (λ _. tt))
    where
      ended : (t : Task) → open_row t ≡ false → has_id task_id t ≡ true → waits t.status ≡ false
      ended t miss named = ground arith

  marked_fewer : blocked_count marked ≤ blocked_count db
  marked_fewer =
      omega
        (arith, count-update_clear open_row is_blocked (closed_row (stamp db)) db.tasks (λ t. refl))

  -- A cancellation of an open task answers that it is cancelled, and leaves no row of it paused.
  cancel_task-Unpaused :
      (fuel : ℕ)
      → blocked_count db < fuel
      → (count open_row db.tasks == 0) ≡ false
      → (db' : Db) × (cancel_task fuel task_id reason db ≡ some (db', was_cancelled))
        × All (Unpaused task_id) db'.tasks
  unfolding cancel_task
  cancel_task-Unpaused fuel enough busy =
      let (db', n, e, c, _, _) =
        cancel_chain_downstream-ends fuel task_id (reason_or reason) marked
          (omega (arith, marked_fewer)) in
      (
        db',
        rw (busy, e, cancel_task) refl,
        Each-All (Unpaused task_id) (Unpaused task_id) marked.tasks db'.tasks kept c
            marked-Unpaused,
      )
    where
      kept : (t t' : Task) → IsCancelling t t' → Unpaused task_id t → Unpaused task_id t'
      kept t t' (inl e) h = subst (Unpaused task_id) (sym e) h
      kept t t' (inr e) h = λ named. rw (e.0) refl

-- If a task that has not ended is cancelled while its last step runs, the cancellation succeeds, and
-- then the worker, which has a result, makes all rows of the task done and reports it as done.
pub finish-cancel_task :
    (world : World) (task : Task) (result : TaskResult) (fuel : ℕ) (reason : String) (db : Db)
    → blocked_count db < fuel
    → (count (λ t. has_id task.task_id t && not (is_terminal t)) db.tasks == 0) ≡ false
    → (db' : Db) × (cancel_task fuel task.task_id reason db ≡ some (db', was_cancelled))
      × All
          (λ t. has_id task.task_id t ≡ true → t.status ≡ done)
          (finish world task result db').tasks
      × ((finish world task result db').emitted
          ≡ db'.emitted ++ completed task.task_id task.parent_id done (some result) none ∷ [])
unfolding finish
finish-cancel_task world task result fuel reason db enough busy =
    let (db', e, calm) = cancel_task-Unpaused task.task_id reason db fuel enough busy in
    let runs_on = Unpaused-is_paused task.task_id db' calm in
    (
      db',
      e,
      rw (runs_on, finish) (set-All world task _ done db' (λ t. refl)),
      rw (runs_on, finish) refl,
    )
