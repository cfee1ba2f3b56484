-- ===== src/Tasks/Cleanup.antt =====
-- sandbox/extensions/task_engine/cleanup.py.
pub mod References
use yodoca.Base.{
  ℕ, ◌+◌, ◌*◌, String, Bool, true, false, ◌&&◌, not, Option, none, some, List, ltb, is_text, same,
  suc, delete, count, any,
}
use yodoca.Tasks.Rows.{Task, StepRecord, Db, second, now, is_terminal}

-- `updated_at < time.time() - retention_days * 86400`, over the whole numbers.
abbrev pub is_old : ℕ → ℕ → Task → Bool
is_old at retention_days t =
    is_terminal t && ltb (t.updated_at * second + retention_days * 86400 * second) at

-- task_id IN (SELECT DISTINCT parent_id …)
abbrev pub is_parent : List Task → Task → Bool
is_parent tasks t = any (λ c. is_text c.parent_id t.task_id) tasks

abbrev pub old_step : ℕ → ℕ → List Task → StepRecord → Bool
old_step at retention_days tasks s =
    any (λ t. is_old at retention_days t && same t.task_id s.task_id) tasks

-- The numbers of deleted tasks and steps.
unfoldable pub cleanup_old_tasks : ℕ → Db → Db × (ℕ × ℕ)
cleanup_old_tasks retention_days db =
    let old = λ (t : Task). is_old (now db) retention_days t && not (is_parent db.tasks t) in
    let stale_step = old_step (now db) retention_days db.tasks in
    (
      record db {
        tasks = delete old db.tasks;
        steps = delete stale_step db.steps;
        clock = suc db.clock;
      },
      (count old db.tasks, count stale_step db.steps),
    )
