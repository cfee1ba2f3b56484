-- ===== src/Tasks/Review/Pausing.antt =====
-- `respond_to_review` of sandbox/extensions/task_engine/hitl.py.
use yodoca.Base.{◌≡◌, ◌⊎◌, String, true, false, ◌&&◌, none, some, if◌then◌else◌, same, find, Each}
use yodoca.Tasks.Rows.{pending, text, saved, Task, Db, has_id}
use yodoca.Tasks.State.{load_state}
use yodoca.Base.{get}
use yodoca.Tasks.Review.{is_reviewed, Answer, answered_state}

-- A row that the answer reaches.
abbrev pub IsAnswered : String → Task → Task → Type 0
IsAnswered response t r =
    (r.status ≡ pending) × (r.checkpoint ≡ some (saved (answered_state response t)))

-- What an answer may do to the queue.
abbrev pub Answers : String → String → Db → Db × Answer → Type 0
Answers task_id response db (db', answer) =
    ((find (λ t. has_id task_id t && is_reviewed t) db.tasks ≡ none)
      × (db' ≡ db)
      × (answer.status ≡ "error"))
    ⊎ ((t : Task) × (find (λ t. has_id task_id t && is_reviewed t) db.tasks ≡ some t)
        × (answer.status ≡ "pending")
        × Each
            (λ r r'.
              ((has_id task_id r ≡ true) × IsAnswered response t r')
              ⊎ ((has_id task_id r ≡ false) × (r' ≡ r)))
            db.tasks db'.tasks
        × ((key : String)
            → get key (answered_state response t).context ≡ (
                if same "review_question" key
                then none
                else if same "review_response" key
                then some (text response)
                else get key (load_state t.payload t.checkpoint).context)))
