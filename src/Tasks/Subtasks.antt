-- ===== src/Tasks/Subtasks.antt =====
-- sandbox/extensions/task_engine/subtasks.py: depth of subtasks, and the parent of subtasks.
pub mod Resuming
pub mod Depth
use yodoca.Base.{
  ℕ, zero, suc, ◌+◌, String, Bool, true, false, ◌&&◌, not, Option, none, some, List, [], ◌∷◌, ◌++◌,
  ◌==◌, leb, if◌then◌else◌, same, is_text, select, count, any, find,
}
use yodoca.Tasks.Rows.{
  Status, pending, Payload, SubtaskResult, SubtaskFailure, results, failures, TaskState, saved,
  Task, Db, update_tasks, has_id, is_terminal, find_task,
}
use yodoca.Tasks.State.{load_state}
use yodoca.Base.{put}

abbrev pub max_subtask_depth : ℕ
max_subtask_depth = 3

-- row[0] of SELECT parent_id, with the test `not row or not row[0]`.
abbrev pub parent_of : String → Db → Option String
parent_of task_id db = elim (find_task task_id db) [
  | none ↦ none
  | some t ↦ elim t.parent_id [ none ↦ none | some p ↦ if same p "" then none else some p ]
]

-- The `while` loop: `left` is how often the test `depth <= MAX_SUBTASK_DEPTH` can still pass.
pub depth_loop : ℕ → String → ℕ → Db → ℕ
depth_loop zero current depth db = depth
depth_loop (suc left) current depth db = elim (parent_of current db) [
  | none ↦ depth
  | some p ↦ depth_loop left p (depth + 1) db
]

unfoldable pub get_subtask_depth : String → Db → ℕ
unfolding depth_loop
get_subtask_depth task_id db =
    if same task_id "" then 0 else depth_loop (max_subtask_depth + 1) task_id 0 db

add_pending : String → TaskState → TaskState
add_pending child state =
    if any (λ i. same i child) state.pending_subtasks
    then state
    else record state { pending_subtasks = state.pending_subtasks ++ child ∷ [] }

unfoldable pub update_parent_checkpoint : String → String → Db → Db
unfolding add_pending load_state
update_parent_checkpoint parent_task_id child_task_id db = elim (find_task parent_task_id db) [
  | none ↦ db
  | some t ↦
      let state = add_pending child_task_id (load_state t.payload t.checkpoint) in
      update_tasks (has_id parent_task_id)
        (λ at r. record r { checkpoint = some (saved state); updated_at = at }) db
]

abbrev pub is_child_of : String → Task → Bool
is_child_of parent_id t = is_text t.parent_id parent_id

abbrev pub is_done : Task → Bool
is_done t = elim t.status [ Status.done ↦ true | _ ↦ false ]

-- `d.get("error") or "unknown"`
or_unknown : Option String → String
or_unknown none = "unknown"
or_unknown (some e) = if same e "" then "unknown" else e

-- The loop of `collect_subtask_results` over the children.
pub collect : List Task → List SubtaskResult × List SubtaskFailure
unfolding or_unknown
collect [] = ([], [])
collect (t ∷ ts) =
    let (rs, fs) = collect ts in
    if is_done t
    then (record { task_id = t.task_id; status = t.status; result = t.result } ∷ rs, fs)
    else (rs, record { task_id = t.task_id; status = t.status; error = or_unknown t.error } ∷ fs)

unfoldable pub collect_subtask_results : String → Db → List SubtaskResult × List SubtaskFailure
unfolding collect
collect_subtask_results parent_id db = collect (select (is_child_of parent_id) db.tasks)

abbrev is_waiting : Task → Bool
is_waiting t = elim t.status [ Status.waiting_subtasks ↦ true | _ ↦ false ]

-- The state that the parent goes on with.
unfoldable pub resumed_state : Task → List SubtaskResult × List SubtaskFailure → TaskState
unfolding load_state put
resumed_state t (rs, fs) =
    let state = load_state t.payload t.checkpoint in
    record state {
      context =
          put "subtask_failures" (failures fs) (put "subtask_results" (results rs) state.context);
    }

unfoldable pub try_resume_parent : String → Db → Db
unfolding resumed_state collect_subtask_results
try_resume_parent parent_id db =
    if count (λ t. is_child_of parent_id t && not (is_terminal t)) db.tasks == 0
    then elim (find (λ t. has_id parent_id t && is_waiting t) db.tasks) [
      | none ↦ db
      | some t ↦
          let state = resumed_state t (collect_subtask_results parent_id db) in
          update_tasks (has_id parent_id)
            (λ at r. record r {
              status = pending;
              checkpoint = some (saved state);
              updated_at = at;
            })
            db
    ]
    else db
