-- ===== src/Tasks/Review.antt =====
-- sandbox/extensions/task_engine/hitl.py: a task pauses for the user and is resumed.
pub mod Pausing
use Prim.Native.String.{◌++◌ as ◌+++◌, slice}
use yodoca.Base.{
  ℕ, suc, ◌+◌, String, Bool, true, false, ◌&&◌, Option, none, some, List, [], ◌∷◌, ◌++◌, ◌==◌,
  if◌then◌else◌, count, find,
}
use yodoca.Tasks.Rows.{
  Status, pending, human_review, text, TaskState, saved, Task, Db, Emitted, notified, tick,
  update_tasks, has_id, is_running, find_task,
}
use yodoca.Tasks.State.{load_state}
use yodoca.Base.{put, pop}

-- SubmitTaskResult: the status and the message.
pub record Answer : Type 0 where
  pub task_id : String
  pub status : String
  pub message : String

abbrev is_reviewed : Task → Bool
is_reviewed t = elim t.status [ Status.human_review ↦ true | _ ↦ false ]

unfoldable pub asked_state : String → Task → TaskState
unfolding load_state put
asked_state question t =
    let state = load_state t.payload t.checkpoint in
    record state { context = put "review_question" (text question) state.context }

save_question : String → String → Db → Db
unfolding asked_state
save_question task_id question db = elim (find_task task_id db) [
  | none ↦ db
  | some t ↦
      update_tasks (has_id task_id)
        (λ at r. record r { checkpoint = some (saved (asked_state question t)); updated_at = at })
        db
]

unfoldable pub request_human_review : String → String → Db → Db × Answer
unfolding save_question
request_human_review task_id question db =
    let hit = λ (t : Task). has_id task_id t && is_running t in
    let db' = update_tasks hit (λ at t. record t { status = human_review; updated_at = at }) db in
    if count hit db.tasks == 0
    then (db', record { task_id = task_id; status = "error"; message = "Task not running" })
    else (let db'' = save_question task_id question db' in
        (
          record db'' {
            emitted =
                db''.emitted
                ++ notified
                    ("Task " +++ slice task_id 0 8 +++ "... needs your input: " +++ question)
                  ∷ [];
          },
          record { task_id = task_id; status = "human_review"; message = "Task paused for review" },
        ))

unfoldable pub answered_state : String → Task → TaskState
unfolding load_state put pop
answered_state response t =
    let state = load_state t.payload t.checkpoint in
    record state {
      context = pop "review_question" (put "review_response" (text response) state.context);
    }

unfoldable pub respond_to_review : String → String → Db → Db × Answer
unfolding answered_state
respond_to_review task_id response db =
    elim (find (λ t. has_id task_id t && is_reviewed t) db.tasks) [
      | none ↦
          (db, record { task_id = task_id; status = "error"; message = "Task not in human_review" })
      | some t ↦ (
        update_tasks (has_id task_id)
            (λ at r. record r {
              status = pending;
              checkpoint = some (saved (answered_state response t));
              updated_at = at;
            })
            db,
        record {
          task_id = task_id;
          status = "pending";
          message = "Task resumed with user response";
        },
      )
    ]
