-- ===== src/Tasks/Queue.antt =====
-- sandbox/extensions/task_engine/worker.py: claims, leases and the recovery of stale tasks.
pub mod Claiming
use Prim.Native.Nat.{◌/◌}
use yodoca.Base.{
  ℕ, zero, suc, ◌+◌, ◌≡◌, String, Bool, true, false, ◌&&◌, ◌||◌, Option, none, some, List, [], ◌∷◌,
  ltb, leb, ◌==◌, if◌then◌else◌, is_text, is_before, head?, select, update, count, map, ◌++◌, any,
  same,
}
use yodoca.Base.Sort.{sort}
use yodoca.Tasks.Rows.{
  Status, pending, running, retry_scheduled, failed, cancelled, Task, StepRecord, TaskState, saved,
  Db, second, now, stamp, tick, update_tasks, has_id, is_running, find_task,
}

abbrev pub is_claimable : Task → Bool
is_claimable t = elim t.status [ Status.pending ↦ true | Status.retry_scheduled ↦ true | _ ↦ false ]

-- column IS NULL OR column <= ?
abbrev pub is_due : Option ℕ → ℕ → Bool
is_due none t = true
is_due (some s) t = leb s t

-- column IS NULL OR column < ?
abbrev pub is_free : Option ℕ → ℕ → Bool
is_free none t = true
is_free (some s) t = ltb s t

-- The WHERE clause of `claim_next_task`.
abbrev pub is_eligible : ℕ → Task → Bool
is_eligible now t = is_claimable t && (is_due t.schedule_at now && is_free t.lease_exp now)

-- ORDER BY priority DESC, created_at ASC
abbrev pub comes_before : Task → Task → Bool
comes_before s t =
    ltb t.priority s.priority || (t.priority == s.priority && ltb s.created_at t.created_at)

-- `_load_task`: the row as a TaskRecord, with `priority or 5`.
unfoldable pub load_task : String → Db → Option Task
load_task task_id db = elim (find_task task_id db) [
  | none ↦ none
  | some t ↦ some (record t { priority = if t.priority == 0 then 5 else t.priority })
]

unfoldable pub claim_row : String → ℕ → ℕ → Task → Task
claim_row worker_id lease_exp at t = record t {
  status = running;
  leased_by = some worker_id;
  lease_exp = some lease_exp;
  updated_at = at;
}

-- `claim_next_task` after the SELECT: the UPDATE tests the status again.
unfoldable pub take_task : String → ℕ → ℕ → String → Db → Db × Option Task
unfolding claim_row load_task
take_task worker_id lease_ttl at task_id db =
    let hit = λ (t : Task). has_id task_id t && is_claimable t in
    let db' = record db {
      tasks = update hit (claim_row worker_id (at + lease_ttl) (at / second)) db.tasks;
    } in
    if count hit db.tasks == 0 then (db', none) else (db', load_task task_id db')

-- The first row of the SELECT, with the time already read.
unfoldable pub next_eligible : ℕ → Db → Option Task
next_eligible at db = head? (sort comes_before (select (is_eligible at) db.tasks))

unfoldable pub claim_next_task : String → ℕ → Db → Db × Option Task
unfolding next_eligible take_task
claim_next_task worker_id lease_ttl db = elim (next_eligible (now db) db) [
  | none ↦ (tick db, none)
  | some t ↦ take_task worker_id lease_ttl (now db) t.task_id (tick db)
]

-- Reads the time twice: for the expiry and for `updated_at`.
unfoldable pub renew_lease : String → String → ℕ → Db → Db × Bool
renew_lease task_id worker_id lease_ttl db =
    let hit = λ (t : Task). has_id task_id t && is_text t.leased_by worker_id in
    let exp = now db + lease_ttl in
    (
      update_tasks hit (λ at t. record t { lease_exp = some exp; updated_at = at }) (tick db),
      ltb 0 (count hit db.tasks),
    )

-- `true` where TaskCancelled is raised.
unfoldable pub check_cancellation : String → Db → Bool
check_cancellation task_id db = elim (find_task task_id db) [
  | none ↦ false
  | some t ↦ elim t.status [ Status.cancelled ↦ true | _ ↦ false ]
]

unfoldable pub save_checkpoint : String → TaskState → Db → Db
save_checkpoint task_id state =
    update_tasks (has_id task_id)
      (λ at t. record t { checkpoint = some (saved state); updated_at = at })

-- `step_id` is the primary key of task_step: `none` is the IntegrityError of a second record.
unfoldable pub save_step : StepRecord → Db → Option Db
save_step step db =
    if any (λ s. same s.step_id step.step_id) db.steps
    then none
    else some (record db { steps = db.steps ++ step ∷ [] })

abbrev pub restart_interrupted_error : String
restart_interrupted_error =
    "Interrupted by process restart while task was running; re-submit to retry safely."

abbrev pub is_abandoned : ℕ → Task → Bool
is_abandoned at t = is_running t && is_free t.lease_exp at

-- The task ids and parent ids of the tasks that were failed.
unfoldable pub recover_stale_tasks : Db → Db × List (String × Option String)
recover_stale_tasks db =
    let hit = is_abandoned (now db) in
    (
      update_tasks hit
          (λ at t. record t {
            status = failed;
            leased_by = none;
            lease_exp = none;
            error = some restart_interrupted_error;
            updated_at = at;
          })
          db,
      map (λ t. (t.task_id, t.parent_id)) (select hit db.tasks),
    )
