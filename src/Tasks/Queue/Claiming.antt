-- ===== src/Tasks/Queue/Claiming.antt =====
-- `claim_next_task` of sandbox/extensions/task_engine/worker.py takes the best eligible task.
use Prim.Native.Nat.{◌/◌}
use yodoca.Base.{
  ℕ, ◌+◌, ◌≡◌, ◌⊎◌, String, Bool, true, false, ◌&&◌, Option, none, List, is_some, select, update,
  All,
}
use yodoca.Base.Sort.{sort}
use yodoca.Tasks.Rows.{Task, Db, second, now, has_id}
use yodoca.Tasks.Queue.{is_claimable, is_eligible, comes_before, claim_row}

module _ (at : ℕ) (db : Db) where
  abbrev queue : List Task
  queue = sort comes_before (select (is_eligible at) db.tasks)

  abbrev picked : Task → Task → Bool
  picked t s = has_id t.task_id s && is_claimable s

-- What a claim may do, from the queue `db` to the queue and the task that it returns.
abbrev pub TakesBest : String → ℕ → Db → Db × Option Task → Type 0
TakesBest worker_id lease_ttl db r =
    (All (λ s. is_eligible (now db) s ≡ false) db.tasks × (r.1 ≡ none) × (r.0.tasks ≡ db.tasks))
    ⊎ ((t : Task) × (is_eligible (now db) t ≡ true)
        × All (λ s. is_eligible (now db) s ≡ true → comes_before s t ≡ false) db.tasks
        × (r.0.tasks
            ≡ update (λ s. has_id t.task_id s && is_claimable s)
                (claim_row worker_id (now db + lease_ttl) (now db / second)) db.tasks)
        × (is_some r.1 ≡ true))
