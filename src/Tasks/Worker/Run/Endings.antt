-- ===== src/Tasks/Worker/Run/Endings.antt =====
-- The end of `execute_task` of sandbox/extensions/task_engine/worker.py: the rows of the task and
-- the event `task.completed`.
use yodoca.Base.{
  ℕ, ◌+◌, ◌≤◌, ◌<◌, ◌≡◌, ◌≢◌, ◌⊎◌, refl, inl, inr, String, Bool, true, false, Option, none, some,
  [], ◌∷◌, ◌++◌, arith, leb, update, Bool-cases, All, All-of, All-update, Each, Each-update,
}
use yodoca.Tasks.Rows.{
  Status, done, failed, retry_scheduled, TaskResult, Task, Db, completed, has_id, now, stamp, tick,
}
use yodoca.Tasks.Queue.{is_eligible}
use yodoca.Tasks.Worker.{
  retryable, non_retryable, lease_revoked, other, task_cancelled, StepResult, final, goes_on,
  raises, World, Lease,
}
use yodoca.Tasks.Worker.Run.{compute_retry_delay, is_paused, finish, fail, retry, handle}

abbrev pub ends : Status → Bool
ends s = elim s [ Status.done ↦ true | Status.failed ↦ true | Status.cancelled ↦ true | _ ↦ false ]

-- The run is reported with the status that the task's rows have, and that status is terminal.
abbrev pub IsReported : Task → Db → Db → Type 0
IsReported task db db' =
    (s : Status) × (r : Option TaskResult) × (e : Option String) × (db'.emitted
      ≡ db.emitted ++ completed task.task_id task.parent_id s r e ∷ [])
    × (ends s ≡ true)
    × All (λ t. has_id task.task_id t ≡ true → t.status ≡ s) db'.tasks

-- Nothing is reported: the rows wait for another attempt, or keep their status without a lease.
abbrev pub IsSilent : Task → Db → Db → Type 0
IsSilent task db db' =
    (db'.emitted ≡ db.emitted)
    × (All (λ t. has_id task.task_id t ≡ true → t.status ≡ retry_scheduled) db'.tasks
        ⊎ ((is_paused task.task_id db ≡ true)
            × Each
                (λ t t'.
                  (t'.status ≡ t.status) × (has_id task.task_id t ≡ true → t'.leased_by ≡ none))
                db.tasks db'.tasks))

abbrev Ends : Task → Db → Db → Type 0
Ends task db db' = IsReported task db db' ⊎ IsSilent task db db'

module _ (world : World) (task : Task) where
  abbrev pub named : Task → Bool
  named = has_id task.task_id

  pub set-All :
      (f : Task → Task) (s : Status) (db : Db)
      → ((t : Task) → (f t).status ≡ s)
      → All (λ t. named t ≡ true → t.status ≡ s) (update named f db.tasks)
  set-All f s db sets =
      All-update (λ _. Unit {0}) (λ t. named t ≡ true → t.status ≡ s) named f db.tasks
        (λ t _ hit h. sets t) (λ t _ miss h. absurd (cc (miss, h)))
        (All-of (λ _. Unit {0}) db.tasks (λ _. tt))

  fail-Ends : (e : String) (db : Db) → Ends task db (fail world task e db)
  unfolding fail
  fail-Ends e db = inl ((failed, none, some e, refl, refl, set-All _ failed db (λ t. refl)))

  finish-Ends : (r : TaskResult) (db : Db) → Ends task db (finish world task r db)
  unfolding finish
  finish-Ends r db = elim (Bool-cases (is_paused task.task_id db)) [
    | inl p ↦
        rw (p, finish)
          (inr (
            (
              refl,
              inr (
                  (
                    refl,
                    Each-update (λ _. Unit {0}) named _ db.tasks (λ t _ hit. (refl, λ _. refl))
                        (λ t _ miss. (refl, λ h. absurd (cc (miss, h))))
                        (All-of (λ _. Unit {0}) db.tasks (λ _. tt)),
                  )),
            )))
    | inr p ↦ rw (p, finish) (inl ((done, some r, none, refl, refl, set-All _ done db (λ t. refl))))
  ]

  retry-Ends : (n : ℕ) (e : String) (db : Db) → Ends task db (retry world task n e db)
  unfolding retry
  retry-Ends n e db = elim (Bool-cases (leb n (task.attempt_no + 1))) [
    | inl over ↦
        rw (over, retry) (inl ((failed, none, some e, refl, refl, set-All _ failed db (λ t. refl))))
    | inr more ↦ rw (more, retry) (inr ((refl, inl (set-All _ retry_scheduled db (λ t. refl)))))
  ]

  -- However a run ends, but by a cancellation: either it is reported once, by an event whose status
  -- is terminal and is the status of all rows of the task; or nothing is reported, and the rows are
  -- scheduled for another attempt, or the task was paused, every row keeps its status and the task's
  -- rows have lost their lease.
  pub handle-reports :
      (lease : Lease) (db : Db) (result : StepResult)
      → result ≢ goes_on
      → result ≢ raises task_cancelled
      → IsReported task db (handle world task lease db result)
        ⊎ IsSilent task db (handle world task lease db result)
  unfolding handle
  handle-reports lease db (final r) h k = finish-Ends r db
  handle-reports lease db goes_on h k = absurd (h refl)
  handle-reports lease db (raises (retryable e)) h k = retry-Ends lease.max_retries e db
  handle-reports lease db (raises task_cancelled) h k = absurd (k refl)
  handle-reports lease db (raises (non_retryable e)) h k = fail-Ends e db
  handle-reports lease db (raises (lease_revoked e)) h k = fail-Ends e db
  handle-reports lease db (raises (other e)) h k = fail-Ends e db

  -- Below the retry limit, and with the task's rows leased until `exp`: a retry schedules the rows
  -- for another attempt and leaves the lease in place, so that up to `exp` no row of the task is
  -- eligible, however short the delay of the retry is.
  pub retry-waits_for_lease :
      (max_retries exp at : ℕ) (e : String) (db : Db)
      → task.attempt_no + 1 < max_retries
      → at ≤ exp
      → All (λ t. named t ≡ true → t.lease_exp ≡ some exp) db.tasks
      → All
          (λ t. named t ≡ true → (t.status ≡ retry_scheduled) × (is_eligible at t ≡ false))
          (retry world task max_retries e db).tasks
  unfolding retry
  retry-waits_for_lease max_retries exp at e db low early leased =
      rw (below _ _ low, retry)
        (All-update (λ t. named t ≡ true → t.lease_exp ≡ some exp)
          (λ t. named t ≡ true → (t.status ≡ retry_scheduled) × (is_eligible at t ≡ false)) named _
          db.tasks
          (λ t h hit _. (
            refl,
            late
                (record t {
                  status = retry_scheduled;
                  attempt_no = task.attempt_no + 1;
                  schedule_at = some (now db + compute_retry_delay world task.attempt_no db);
                  error = some e;
                  updated_at = stamp (tick db);
                })
                (h hit),
          ))
          (λ t h miss n. absurd (cc (miss, n))) leased)
    where
      below : (a b : ℕ) → a < b → leb b a ≡ false
      below a b h = ground arith

      late : (t : Task) → t.lease_exp ≡ some exp → is_eligible at t ≡ false
      late t h = ground arith
