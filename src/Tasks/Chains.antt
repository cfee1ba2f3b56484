-- ===== src/Tasks/Chains.antt =====
-- sandbox/extensions/task_engine/chains.py: successors of a task that has ended.
pub mod Failing
pub mod Cascade
pub mod Cancelling
pub mod Downstream
use Prim.Native.String.{◌++◌ as ◌+++◌}
use yodoca.Base.{
  ℕ, zero, suc, ◌+◌, String, Bool, true, false, ◌&&◌, Option, none, some, List, [], ◌∷◌, map, ltb,
  if◌then◌else◌, same, is_text, select, any, length,
}
use yodoca.Base.Sort.{sort}
use yodoca.Tasks.Rows.{
  Status, pending, failed, cancelled, Payload, TaskResult, Task, Db, update_tasks, has_id,
  is_blocked,
}

-- after_task_id = ? AND status = 'blocked'
abbrev pub waits_for : String → Task → Bool
waits_for task_id t = is_text t.after_task_id task_id && is_blocked t

-- The name of a status in the database, as the f-string prints it.
abbrev pub status_name : Status → String
status_name Status.pending = "pending"
status_name Status.running = "running"
status_name Status.retry_scheduled = "retry_scheduled"
status_name Status.blocked = "blocked"
status_name Status.waiting_subtasks = "waiting_subtasks"
status_name Status.human_review = "human_review"
status_name Status.done = "done"
status_name Status.failed = "failed"
status_name Status.cancelled = "cancelled"

-- `result.get("content", …)`, or "" without a result.
predecessor_content : Option TaskResult → String
predecessor_content none = ""
predecessor_content (some r) = r.content

-- The branch `status == "done"`: each successor gets the result and becomes pending.
pub unblock_rows : String → String → List Task → Db → Db
unblock_rows completed_task_id content [] db = db
unblock_rows completed_task_id content (row ∷ rows) db =
    let payload = record (row.payload) {
      predecessor_result = some content;
      predecessor_task_id = some completed_task_id;
    } in
    unblock_rows completed_task_id content rows (
      update_tasks (has_id row.task_id)
        (λ at t. record t { payload = payload; status = pending; updated_at = at }) db)

-- UPDATE … SET status = 'failed' WHERE task_id = ? AND status = 'blocked'
pub fail_blocked : String → String → Db → Db
fail_blocked error task_id =
    update_tasks (λ t. has_id task_id t && is_blocked t)
      (λ at t. record t { status = failed; error = some error; updated_at = at })

-- The branch for a failed or cancelled predecessor, over the rows of its SELECT; `cascade` is the
-- recursive call `unblock_successors(db, task_id, "failed", None)`.
pub fail_rows : (String → Db → Option Db) → String → List Task → Db → Option Db
fail_rows cascade error [] db = some db
fail_rows cascade error (row ∷ rows) db =
    elim (cascade row.task_id (fail_blocked error row.task_id db)) [
      | none ↦ none
      | some db' ↦ fail_rows cascade error rows db'
    ]

error_text : String → Status → String
error_text task_id status = "Predecessor " +++ task_id +++ " " +++ status_name status

-- `unblock_successors` for a status other than done; `none`: the fuel ran out.
pub cascade_failure : ℕ → Status → String → Db → Option Db
unfolding error_text
cascade_failure zero status task_id db = none
cascade_failure (suc fuel) status task_id db =
    fail_rows (cascade_failure fuel failed) (error_text task_id status)
      (select (waits_for task_id) db.tasks) db

unfoldable pub unblock_successors : ℕ → String → Status → Option TaskResult → Db → Option Db
unfolding predecessor_content unblock_rows cascade_failure fail_rows fail_blocked
unblock_successors fuel completed_task_id Status.done result db = some (
    unblock_rows completed_task_id (predecessor_content result)
      (select (waits_for completed_task_id) db.tasks) db)
unblock_successors fuel completed_task_id status result db =
    cascade_failure fuel status completed_task_id db

-- after_task_id IN (…) AND status = 'blocked'
abbrev pub waits_for_any : List String → Task → Bool
waits_for_any ids t = any (is_text t.after_task_id) ids && is_blocked t

pub cancel_rows : String → List String → Db → Db
cancel_rows error [] db = db
cancel_rows error (task_id ∷ ids) db = cancel_rows error ids (
    update_tasks (has_id task_id)
      (λ at t. record t { status = cancelled; error = some error; updated_at = at }) db)

-- The `while current_ids` loop, with the number of tasks cancelled so far.
pub cancel_levels : ℕ → String → List String → ℕ → Db → Option (Db × ℕ)
unfolding cancel_rows
cancel_levels fuel error [] total db = some (db, total)
cancel_levels zero error (i ∷ ids) total db = none
cancel_levels (suc fuel) error (i ∷ ids) total db =
    let next_ids = map (λ t. t.task_id) (select (waits_for_any (i ∷ ids)) db.tasks) in
    cancel_levels fuel error next_ids (total + length next_ids) (cancel_rows error next_ids db)

unfoldable pub cancel_chain_downstream : ℕ → String → String → Db → Option (Db × ℕ)
unfolding cancel_levels
cancel_chain_downstream fuel task_id reason db =
    cancel_levels fuel (if same reason "" then "Cancelled (predecessor cancelled)" else reason)
      (task_id ∷ []) 0 db

-- ORDER BY chain_order ASC, created_at ASC; NULL comes first.
abbrev order_of : Option ℕ → ℕ
order_of none = 0
order_of (some n) = suc n

abbrev pub chain_before : Task → Task → Bool
chain_before s t =
    if ltb (order_of s.chain_order) (order_of t.chain_order)
    then true
    else if ltb (order_of t.chain_order) (order_of s.chain_order)
    then false
    else ltb s.created_at t.created_at

unfoldable pub get_chain_tasks : String → Db → List Task
get_chain_tasks chain_id db = sort chain_before (select (λ t. is_text t.chain_id chain_id) db.tasks)
