-- ===== src/Tasks/Subtasks/Resuming.antt =====
-- `try_resume_parent` and `collect_subtask_results` of
-- sandbox/extensions/task_engine/subtasks.py.
use yodoca.Base.{
  ℕ, ◌≡◌, ◌≢◌, refl, inl, inr, String, true, false, ◌&&◌, not, Option, none, some, List, [], ◌∷◌,
  arith, ◌==◌, count, select, find, All-of, Each, Each-update, ◌⊎◌, ==→eq, map, same, ap,
  Bool-cases, if◌then◌else◌,
}
use yodoca.Tasks.Rows.{
  pending, results, failures, SubtaskResult, SubtaskFailure, TaskState, saved, Task, Db, has_id,
  is_terminal, update_tasks,
}
use yodoca.Base.{get, get-put}
use yodoca.Tasks.State.{load_state}
use yodoca.Tasks.Subtasks.{
  or_unknown, is_child_of, is_done, is_waiting, collect, collect_subtask_results, resumed_state,
  try_resume_parent,
}

-- The children that a parent still waits for.
abbrev pub open_children : String → Db → ℕ
open_children parent_id db = count (λ t. is_child_of parent_id t && not (is_terminal t)) db.tasks

-- What the parent is told of a child that is done, and of one that is not.
abbrev pub result_of : Task → SubtaskResult
result_of t = record { task_id = t.task_id; status = t.status; result = t.result }

abbrev pub error_of : Option String → String
error_of none = "unknown"
error_of (some e) = if same e "" then "unknown" else e

abbrev pub failure_of : Task → SubtaskFailure
failure_of t = record { task_id = t.task_id; status = t.status; error = error_of t.error }

or_unknown-error_of : (e : Option String) → or_unknown e ≡ error_of e
unfolding or_unknown
or_unknown-error_of none = refl
or_unknown-error_of (some e) = refl

collect-map :
    (ts : List Task)
    → ((collect ts).0 ≡ map result_of (select is_done ts))
      × ((collect ts).1 ≡ map failure_of (select (λ t. not (is_done t)) ts))
unfolding collect
collect-map [] = (refl, refl)
collect-map (t ∷ ts) =
    let (a, b) = collect-map ts in
    elim (Bool-cases (is_done t)) [
      | inl e ↦ rw e (ap (λ l. result_of t ∷ l) a, b)
      | inr e ↦ rw (e, or_unknown-error_of t.error) (a, ap (λ l. failure_of t ∷ l) b)
    ]

-- The state that a parent goes on with: that of its checkpoint, with the children's outcomes in the
-- context and all other keys of it as they were.
abbrev pub HasOutcomes : Task → List SubtaskResult × List SubtaskFailure → TaskState → Type 0
HasOutcomes p (rs, fs) state =
    (state ≡ record (load_state p.payload p.checkpoint) { context = state.context })
    × (get "subtask_results" state.context ≡ some (results rs))
    × (get "subtask_failures" state.context ≡ some (failures fs))
    × ((k : String)
        → same "subtask_results" k ≡ false
        → same "subtask_failures" k ≡ false
        → get k state.context ≡ get k (load_state p.payload p.checkpoint).context)

resumed_state-HasOutcomes :
    (p : Task) (rs : List SubtaskResult) (fs : List SubtaskFailure)
    → HasOutcomes p (rs, fs) (resumed_state p (rs, fs))
unfolding resumed_state
resumed_state-HasOutcomes p rs fs =
    (refl, simp get-put, simp get-put, (λ k a b. rw (get-put, get-put, a, b) refl))

-- The row that waits for the subtasks.
abbrev parent_row : String → Db → Option Task
parent_row parent_id db = find (λ t. has_id parent_id t && is_waiting t) db.tasks

-- A row of the parent after it was resumed: pending, with the children's outcomes.
abbrev pub IsResumed : Task → List SubtaskResult × List SubtaskFailure → Task → Task → Type 0
IsResumed p outcomes t t' =
    (t'.status ≡ pending)
    × ((state : TaskState) × (t'.checkpoint ≡ some (saved state)) × HasOutcomes p outcomes state)

-- The rows of the parent are resumed, and no other row changes.
abbrev pub OnlyResumed : String → Task → Db → Db → Type 0
OnlyResumed parent_id p db db' =
    Each
      (λ r r'.
        ((has_id parent_id r ≡ true) × IsResumed p (collect_subtask_results parent_id db) r r')
        ⊎ ((has_id parent_id r ≡ false) × (r' ≡ r)))
      db.tasks db'.tasks

resume_rows :
    (parent_id : String) (t : Task) (db : Db)
    → OnlyResumed parent_id t db (
        update_tasks
          (has_id parent_id)
          (λ at r. record r {
            status = pending;
            checkpoint = some (saved (resumed_state t (collect_subtask_results parent_id db)));
            updated_at = at;
          })
          db)
resume_rows parent_id t db =
    let (rs, fs) = collect_subtask_results parent_id db in
    Each-update (λ _. Unit {0}) (has_id parent_id) _ db.tasks
      (λ r _ h.
        inl ((h, (refl, ((resumed_state t (rs, fs), refl, resumed_state-HasOutcomes t rs fs))))))
      (λ r _ h. inr ((h, refl))) (All-of (λ _. Unit {0}) db.tasks (λ _. tt))

-- What may become of a parent that waits for its subtasks.
abbrev pub Resumes : String → Db → Db → Type 0
Resumes parent_id db db' =
    ((open_children parent_id db ≢ 0) × (db' ≡ db))
    ⊎ ((open_children parent_id db ≡ 0) × (parent_row parent_id db ≡ none) × (db' ≡ db))
    ⊎ ((open_children parent_id db ≡ 0)
        × ((p : Task) × (parent_row parent_id db ≡ some p) × OnlyResumed parent_id p db db'))

resumes : (parent_id : String) (db : Db) → Resumes parent_id db (try_resume_parent parent_id db)
unfolding try_resume_parent
resumes parent_id db = elim (Bool-cases (open_children parent_id db == 0)) [
  | inr busy ↦ rw (busy, try_resume_parent) (inl ((different _ busy, refl)))
  | inl over ↦ inr (go over (parent_row parent_id db) refl)
]
  where
    different : (n : ℕ) → (n == 0) ≡ false → n ≢ 0
    different n k = ground arith

    go :
        (open_children parent_id db == 0) ≡ true
        → (o : Option Task) → parent_row parent_id db ≡ o
        → ((open_children parent_id db ≡ 0)
            × (parent_row parent_id db ≡ none)
            × (try_resume_parent parent_id db ≡ db))
          ⊎ ((open_children parent_id db ≡ 0)
              × ((p : Task) × (parent_row parent_id db ≡ some p)
                  × OnlyResumed parent_id p db (try_resume_parent parent_id db)))
    go over none e = inl ((==→eq _ _ over, e, rw (over, e, try_resume_parent)))
    go over (some t) e =
        inr ((==→eq _ _ over, (t, e, rw (over, e, try_resume_parent) (resume_rows parent_id t db))))

-- While a child is open the queue is not touched, nor if no row of the parent waits for subtasks.
-- Otherwise exactly the parent's rows become pending, with the state of the waiting row's checkpoint
-- in which the context holds the outcomes of the children and keeps its other keys. The outcomes are
-- one result for each child that is done, with its text, and one failure for each other, with its
-- error or "unknown".
pub try_resume_parent-Resumes :
    (parent_id : String) (db : Db)
    → Resumes parent_id db (try_resume_parent parent_id db)
      × ((collect_subtask_results parent_id db).0
          ≡ map result_of (select is_done (select (is_child_of parent_id) db.tasks)))
      × ((collect_subtask_results parent_id db).1
          ≡ map failure_of
              (select (λ t. not (is_done t)) (select (is_child_of parent_id) db.tasks)))
unfolding collect_subtask_results
try_resume_parent-Resumes parent_id db = (
  resumes parent_id db,
  (collect-map (select (is_child_of parent_id) db.tasks)).0,
  (collect-map (select (is_child_of parent_id) db.tasks)).1,
)
