-- ===== src/Tasks/Worker/Retrying.antt =====
-- `_run_step` of sandbox/extensions/task_engine/worker.py: a step that is run a second time.
use yodoca.Base.{ℕ, ◌≡◌, refl, Bool, true, false, List, [], ◌∷◌, ◌++◌, arith, same, any}
use Prim.Native.String.{◌++◌ as ◌+++◌}
use text.Mathlib.TextPositions.{eq_refl}
use yodoca.Tasks.Rows.{StepRecord, TaskState, Task, Db}
use yodoca.Tasks.Queue.{save_step}
use yodoca.Tasks.Worker.{
  error, StepOutcome, answers, raises, retryable, other, World, text_or, step_record, judge,
  answered, duplicate_step,
}

any-append :
    {A : Type 0} (p : A → Bool) (xs ys : List A) → any p xs ≡ true → any p (xs ++ ys) ≡ true
any-append p [] ys h = absurd (cc h)
any-append p (x ∷ xs) ys h = ground (arith, any-append p xs ys)

any_last :
    {A : Type 0} (p : A → Bool) (xs : List A) (x : A) → p x ≡ true → any p (xs ++ x ∷ []) ≡ true
any_last p [] x h = ground arith
any_last p (y ∷ xs) x h = ground (arith, any_last p xs x h)

module _ (world : World) (task : Task) where
  -- The table has a record of the step.
  abbrev pub is_recorded : ℕ → Db → Bool
  is_recorded n db = any (λ r. same r.step_id (task.task_id +++ "-" +++ world.show n)) db.steps

  second_record :
      (n : ℕ) (s : TaskState) (o : StepOutcome) (db : Db)
      → is_recorded n db ≡ true
      → answered world task n s (answers o, db) ≡ (db, (s, raises (other duplicate_step)))
  unfolding answered save_step step_record
  second_record n s o db h = rw (h, answered) refl

  -- A step without a record that ends in an error is recorded, and asks for a retry. Whatever is recorded since then,
  -- and whatever the agent answers, the retry of the step raises the error of the primary key of
  -- task_step instead of going on.
  pub answered-twice :
      (n : ℕ) (s s' : TaskState) (o o' : StepOutcome) (db db' : Db) (since : List StepRecord)
      → is_recorded n db ≡ false
      → o.status ≡ error
      → db'.steps ≡ (answered world task n s (answers o, db)).0.steps ++ since
      → ((answered world task n s (answers o, db)).1
          ≡ (s, raises (retryable (text_or o.error "Agent step failed"))))
        × (answered world task n s' (answers o', db') ≡ (db', (s', raises (other duplicate_step))))
  unfolding answered save_step step_record judge
  answered-twice n s s' o o' db db' since new e later = (
    rw (new, e, answered) refl,
    second_record n s' o' db' (
        rw later (
          any-append (λ r. same r.step_id (task.task_id +++ "-" +++ world.show n))
            (answered world task n s (answers o, db)).0.steps since recorded)),
  )
    where
      recorded : is_recorded n (answered world task n s (answers o, db)).0 ≡ true
      recorded =
          rw (new, e, answered)
            (any_last _ db.steps _ (eq_refl (task.task_id +++ "-" +++ world.show n)))
