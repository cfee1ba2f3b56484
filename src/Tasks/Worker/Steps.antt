-- ===== src/Tasks/Worker/Steps.antt =====
-- The step loops of sandbox/extensions/task_engine/worker.py: how far they go.
use mathlib.Core.Path.{subst}
use yodoca.Base.{
  ℕ, zero, suc, ◌+◌, ◌-◌, ◌≤◌, ◌≡◌, ◌⊎◌, refl, inl, inr, String, Option, none, some, List, [], ◌∷◌,
  ◌++◌, arith, length, if_both, ◌≢◌, sym, ap,
}
use yodoca.Tasks.Rows.{TaskState, Task, Db}
use yodoca.Tasks.Queue.{renew_lease, check_cancellation, save_checkpoint, save_step}
use yodoca.Tasks.Marker.{extract_final_result}
use yodoca.Tasks.Worker.{
  StepStatus, success, error, refused, StepOutcome, Invoked, answers, fails, StepResult, final,
  goes_on, raises, World, Lease, advance, conclude, judge, answered, call_agent, step_record,
  run_step, loop, run_loop, Stepped, unless_ended,
}

-- A step from number `n` leaves the state alone, or moves it to number `n + 1` with one more log
-- entry; the loop goes on only in the second case.
abbrev pub IsStep : ℕ → TaskState → TaskState × StepResult → Type 0
IsStep n s (s', r) =
    ((s' ≡ s) × (r ≢ goes_on))
    ⊎ ((s'.step ≡ n + 1) × (length s'.steps_log ≡ length s.steps_log + 1))

length_snoc : {A : Type 0} (xs : List A) (x : A) → length (xs ++ x ∷ []) ≡ length xs + 1
length_snoc [] x = refl
length_snoc (y ∷ xs) x = omega (arith, length_snoc xs x)

module _ (world : World) (task : Task) where
  advance_log :
      (n : ℕ) (o : StepOutcome) (s : TaskState)
      → ((advance world task n o s).step ≡ n + 1)
        × (length (advance world task n o s).steps_log ≡ length s.steps_log + 1)
  unfolding advance
  advance_log n o s = (refl, length_snoc s.steps_log _)

  state-conclude :
      (n : ℕ) (r : Option String) (s : TaskState) (db : Db) → (conclude world task n r s db).1.0 ≡ s
  unfolding conclude
  state-conclude n none s db = refl
  state-conclude n (some r) s db = refl

  judge-IsStep :
      (n : ℕ) (o : StepOutcome) (s : TaskState) (db : Db) → IsStep n s (judge world task n o s db).1
  unfolding judge
  judge-IsStep n o s db = go o.status refl
    where
      go : (k : StepStatus) → o.status ≡ k → IsStep n s (judge world task n o s db).1
      go error e = rw (e, judge) (inl ((refl, λ p. cc)))
      go refused e = rw (e, judge) (inl ((refl, λ p. cc)))
      go success e =
          let state' : TaskState = advance world task n o s in
          let found : Option String =
            extract_final_result world.is_space (elim o.content [ none ↦ "" | some c ↦ c ]) in
          let (a, b) = advance_log n o s in
          rw (e, judge)
            (inr (
              subst
                (λ (t : TaskState).
                  (t.step ≡ n + 1) × (length t.steps_log ≡ length s.steps_log + 1))
                (sym (state-conclude n found state' (save_checkpoint task.task_id state' db)))
                ((a, b))))

  answered-IsStep :
      (n : ℕ) (s : TaskState) (r : Invoked × Db) → IsStep n s (answered world task n s r).1
  unfolding answered
  answered-IsStep n s (fails e, db) = inl ((refl, λ p. cc))
  answered-IsStep n s (answers o, db) =
      go (save_step (step_record world task n (world.duration db) o) db) refl
    where
      go :
          (r : Option Db)
          → save_step (step_record world task n (world.duration db) o) db ≡ r
          → IsStep n s (answered world task n s (answers o, db)).1
      go none e = rw (e, answered) (inl ((refl, λ p. cc)))
      go (some db') e = rw (e, answered) (judge-IsStep n o s db')

  run_step-IsStep :
      (lease : Lease) (n : ℕ) (s : TaskState) (db : Db)
      → IsStep n s (run_step world task lease n s db).1
  unfolding run_step
  run_step-IsStep lease n s db =
      let db' : Db = (renew_lease task.task_id lease.worker_id lease.lease_ttl db).0 in
      if_both (λ (r : Db × (TaskState × StepResult)). IsStep n s r.1)
        (renew_lease task.task_id lease.worker_id lease.lease_ttl db).1
        (if_both (λ (r : Db × (TaskState × StepResult)). IsStep n s r.1)
          (check_cancellation task.task_id db') (inl ((refl, λ p. cc)))
          (answered-IsStep n s (call_agent world task s db')))
        (inl ((refl, λ p. cc)))

  -- From number `n`, with `left` steps left.
  abbrev IsRun : ℕ → TaskState → TaskState × StepResult → Type 0
  IsRun left s (s', r) =
      (s.step ≤ s'.step)
      × (s'.step ≤ s.step + left)
      × (length s'.steps_log + s.step ≡ length s.steps_log + s'.step)
      × (r ≢ goes_on)

  ended-IsRun :
      (rest : TaskState → Db → Stepped) (left n : ℕ) (s : TaskState) (x : Stepped)
      → s.step ≡ n
      → IsStep n s x.1
      → ((s' : TaskState) (db : Db) → s'.step ≡ suc n → IsRun left s' (rest s' db).1)
      → IsRun (suc left) s (unless_ended rest x).1
  unfolding unless_ended
  ended-IsRun rest left n s (db, (s', goes_on)) e (inl (same, ended)) ih = absurd (ended refl)
  ended-IsRun rest left n s (db, (s', goes_on)) e (inr (one, more)) ih =
      let (a, b, c, d) = ih s' db (omega arith) in (omega arith, omega arith, omega arith, d)
  ended-IsRun rest left n s (db, (s', final r)) e (inl (same, ended)) ih = (
    omega (arith, ap (λ (t : TaskState). t.step) same),
    omega (arith, ap (λ (t : TaskState). t.step) same),
    cc (same),
    λ p. cc,
  )
  ended-IsRun rest left n s (db, (s', final r)) e (inr (one, more)) ih =
      (omega arith, omega arith, omega arith, λ p. cc)
  ended-IsRun rest left n s (db, (s', raises r)) e (inl (same, ended)) ih = (
    omega (arith, ap (λ (t : TaskState). t.step) same),
    omega (arith, ap (λ (t : TaskState). t.step) same),
    cc (same),
    λ p. cc,
  )
  ended-IsRun rest left n s (db, (s', raises r)) e (inr (one, more)) ih =
      (omega arith, omega arith, omega arith, λ p. cc)

  loop-IsRun :
      (lease : Lease) (left n : ℕ) (s : TaskState) (db : Db)
      → s.step ≡ n
      → IsRun left s (loop world task lease left n s db).1
  unfolding loop
  loop-IsRun lease zero n s db e = (omega arith, omega arith, refl, λ p. cc)
  loop-IsRun lease (suc left) n s db e =
      ended-IsRun (loop world task lease left (suc n)) left n s (run_step world task lease n s db) e
        (run_step-IsStep lease n s db) (λ s' db' e'. loop-IsRun lease left (suc n) s' db' e')

  -- Whatever the agent and the other tasks do, the loop over the steps ends with a result or an
  -- exception; the step counter never falls, passes the task's limit only if it stood above it
  -- before, and grows by exactly the number of log entries that were added.
  pub run_loop-steps :
      (lease : Lease) (s : TaskState) (db : Db)
      → (s.step ≤ (run_loop world task lease s db).1.0.step)
        × ((run_loop world task lease s db).1.0.step ≤ s.step + (task.payload.max_steps - s.step))
        × (length (run_loop world task lease s db).1.0.steps_log + s.step
            ≡ length s.steps_log + (run_loop world task lease s db).1.0.step)
        × ((run_loop world task lease s db).1.1 ≢ goes_on)
  unfolding run_loop
  run_loop-steps lease s db = loop-IsRun lease (task.payload.max_steps - s.step) s.step s db refl
