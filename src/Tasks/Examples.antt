-- ===== src/Tasks/Examples.antt =====
-- The task engine on a concrete queue, with a concrete agent.
use Prim.Native.Char.{code}
use mathlib.Core.Path.{subst, sym}
use mathlib.Core.List.{append-nil}
use yodoca.Base.{
  ◌++◌, map, select, ℕ, ◌+◌, ◌*◌, ◌≡◌, ◌≢◌, ◌≤◌, ◌⊎◌, refl, String, List, true, false, not, none,
  some, [], ◌∷◌, arith, length, ◌==◌, same, count, any, All, Each, eq_iff,
}
use yodoca.Tasks.Rows.{
  Status, pending, running, blocked, waiting_subtasks, human_review, done, cancelled, Payload,
  unreadable, Task, Db, completed, has_id, is_terminal,
}
use yodoca.Tasks.State.{fresh_state}
use yodoca.Tasks.Queue.{is_eligible}
use yodoca.Tasks.Chains.{unblock_successors, cancel_chain_downstream}
use yodoca.Tasks.Chains.Cancelling.{IsCancelling}
use yodoca.Tasks.Chains.Downstream.{cancel_chain_downstream-ends}
use yodoca.Tasks.Chains.Failing.{IsUnblocked, IsClear, IsFailing}
use yodoca.Tasks.Chains.Cascade.{unblock_successors-cascades}
use yodoca.Tasks.Subtasks.{
  is_done, is_child_of, collect_subtask_results, try_resume_parent, get_subtask_depth,
}
use yodoca.Tasks.Subtasks.Resuming.{result_of, failure_of, Resumes, try_resume_parent-Resumes}
use yodoca.Tasks.Subtasks.Depth.{top, below, get_subtask_depth-min}
use yodoca.Tasks.Cleanup.{cleanup_old_tasks}
use yodoca.Tasks.Cleanup.References.{HasParent, cleanup_old_tasks-references}
use yodoca.Tasks.Worker.{
  StepStatus, StepOutcome, success, answers, replies, goes_on, raises, retryable, other,
  duplicate_step, answered, World, Lease, run_loop,
}
use yodoca.Tasks.Worker.Retrying.{answered-twice}
use yodoca.Tasks.Submission.{ChainStep, submit_chain}
use yodoca.Tasks.Submission.Linking.{Links, submit_chain-Links}
use yodoca.Tasks.Worker.Steps.{run_loop-steps}
use yodoca.Tasks.Worker.Run.{finish, retry, handle}
use yodoca.Tasks.Queries.{was_cancelled, cancel_task}
use yodoca.Tasks.Worker.Run.Overwriting.{finish-cancel_task}
use yodoca.Tasks.Worker.Run.Endings.{IsReported, IsSilent, handle-reports, retry-waits_for_lease}

-- An agent that answers the same at each step, and a clock that stands at one second more each time.
abbrev desk : World
desk = record {
  known_agent = same "builder";
  router_id = "router";
  invoke = λ agent_id state db. (
    answers (record {
      content = some "working";
      status = success;
      tokens_used = some 10;
      error = none;
    }),
    db,
  );
  background = λ state db. (replies "<<TASK_COMPLETE>> 42", db);
  is_space = λ c. code c == 32;
  show = λ n. "n";
  jitter = λ db delay. 0;
  duration = λ db. 7;
}

abbrev lease : Lease
lease = record { worker_id = "w"; lease_ttl = 90000000; max_retries = 3 }

abbrev job : Payload
job = record {
  goal = "count";
  max_steps = 2;
  source = "orchestrator";
  output_channel = none;
  predecessor_result = none;
  predecessor_task_id = none;
}

-- It runs under a lease until second 100.
abbrev first : Task
first = record {
  task_id = "a";
  parent_id = none;
  run_id = "r";
  agent_id = "builder";
  status = running;
  priority = 5;
  payload = job;
  result = none;
  checkpoint = none;
  error = none;
  attempt_no = 0;
  schedule_at = none;
  leased_by = some "w";
  lease_exp = some 100000000;
  created_at = 1;
  updated_at = 1;
  after_task_id = none;
  chain_id = none;
  chain_order = none;
}

abbrev idle : Task
idle = record first { task_id = "i"; status = pending; leased_by = none; lease_exp = none }

-- Two tasks that wait for one another, the second for the first task as well by its chain.
abbrev second_task : Task
second_task = record idle { task_id = "b"; status = blocked; after_task_id = some "a" }

abbrev third : Task
third = record second_task { task_id = "c"; after_task_id = some "b" }

-- A parent whose only subtask is done.
abbrev parent : Task
parent = record idle { task_id = "p"; status = waiting_subtasks; checkpoint = some unreadable }

abbrev child : Task
child = record idle {
  task_id = "k";
  status = done;
  parent_id = some "p";
  result = some (record { content = "7"; warning = none });
}

abbrev asking : Task
asking = record idle { task_id = "q"; status = human_review; parent_id = some "k" }

abbrev dropped : Task
dropped = record first { task_id = "x"; status = cancelled }

abbrev queue : Db
queue = record {
  tasks = first ∷ second_task ∷ third ∷ idle ∷ parent ∷ child ∷ asking ∷ dropped ∷ [];
  steps = [];
  emitted = [];
  time = λ n. (n + 10) * 1000000;
  clock = 0;
  uuids = λ n. "id";
  drawn = 0;
}

unblock_successors-cascades_example :
    (db' : Db) × (unblock_successors 3 "a" Status.failed none queue ≡ some db')
    × Each IsFailing queue.tasks db'.tasks
    × IsClear "a" db'
    × ((y : String) → IsUnblocked y db' → IsUnblocked y queue ⊎ IsClear y db')
unblock_successors-cascades_example =
    unblock_successors-cascades 3 "a" Status.failed none queue refl (omega arith)

run_loop-steps_example :
    (0 ≤ (run_loop desk first lease (fresh_state "count") queue).1.0.step)
    × ((run_loop desk first lease (fresh_state "count") queue).1.0.step ≤ 2)
    × (length (run_loop desk first lease (fresh_state "count") queue).1.0.steps_log + 0
        ≡ 0 + (run_loop desk first lease (fresh_state "count") queue).1.0.step)
    × ((run_loop desk first lease (fresh_state "count") queue).1.1 ≢ goes_on)
unfolding fresh_state
run_loop-steps_example = run_loop-steps desk first lease (fresh_state "count") queue

handle-reports_example :
    IsReported first queue (handle desk first lease queue (raises (retryable "timeout")))
    ⊎ IsSilent first queue (handle desk first lease queue (raises (retryable "timeout")))
handle-reports_example =
    handle-reports desk first lease queue (raises (retryable "timeout")) (λ e. cc) (λ e. cc)

try_resume_parent-Resumes_example :
    Resumes "p" queue (try_resume_parent "p" queue)
    × ((collect_subtask_results "p" queue).0
        ≡ map result_of (select is_done (select (is_child_of "p") queue.tasks)))
    × ((collect_subtask_results "p" queue).1
        ≡ map failure_of (select (λ t. not (is_done t)) (select (is_child_of "p") queue.tasks)))
try_resume_parent-Resumes_example = try_resume_parent-Resumes "p" queue

get_subtask_depth-min_example : get_subtask_depth "q" queue ≡ 2
get_subtask_depth-min_example =
    get_subtask_depth-min "q" 2 queue refl (below refl (below refl (top refl)))

finish-cancel_task_example :
    (db' : Db) × (cancel_task 3 "a" "" queue ≡ some (db', was_cancelled))
    × All
        (λ t. has_id "a" t ≡ true → t.status ≡ done)
        (finish desk first (record { content = "42"; warning = none }) db').tasks
    × ((finish desk first (record { content = "42"; warning = none }) db').emitted
        ≡ db'.emitted
          ++ completed "a" none done (some (record { content = "42"; warning = none })) none ∷ [])
finish-cancel_task_example =
    finish-cancel_task desk first (record { content = "42"; warning = none }) 3 "" queue
      (omega arith) refl

leased : All (λ t. has_id "a" t ≡ true → t.lease_exp ≡ some 100000000) queue.tasks
leased = (
  (λ h. refl),
  ((λ h. cc), ((λ h. cc), ((λ h. cc), ((λ h. cc), ((λ h. cc), ((λ h. cc), ((λ h. cc), tt))))))),
)

-- The retry is due after five seconds; a minute later it is still not eligible.
retry-waits_for_lease_example :
    All
      (λ t.
        has_id "a" t ≡ true
        → (t.status ≡ Status.retry_scheduled) × (is_eligible 75000000 t ≡ false))
      (retry desk first 3 "timeout" queue).tasks
retry-waits_for_lease_example =
    retry-waits_for_lease desk first 3 100000000 75000000 "timeout" queue (omega arith)
      (omega arith) leased

named :
    (i p : String)
    → any (has_id i) queue.tasks ≡ true
    → same i p ≡ true
    → any (has_id p) queue.tasks ≡ true
named i p there h = subst (λ q. any (has_id q) queue.tasks ≡ true) ((eq_iff i p).0 h) there

known_parents : All (HasParent queue.tasks) queue.tasks
known_parents = (
  (λ p h. cc),
  (
    (λ p h. cc),
    (
      (λ p h. cc),
      (
        (λ p h. cc),
        ((λ p h. cc), ((λ p. named "p" p refl), ((λ p. named "k" p refl), ((λ p h. cc), tt)))),
      ),
    ),
  ),
)

cleanup_old_tasks-references_example :
    All (HasParent (cleanup_old_tasks 0 queue).0.tasks) (cleanup_old_tasks 0 queue).0.tasks
    × (count (λ t. not (is_terminal t)) (cleanup_old_tasks 0 queue).0.tasks ≡ 6)
cleanup_old_tasks-references_example = cleanup_old_tasks-references 0 queue known_parents

abbrev trouble : StepOutcome
trouble = record {
  content = none;
  status = StepStatus.error;
  tokens_used = none;
  error = some "rate limit";
}

abbrev well : StepOutcome
well = record {
  content = some "<<TASK_COMPLETE>> 42";
  status = success;
  tokens_used = none;
  error = none;
}

-- The agent fails at step 0 and succeeds when it is run again.
answered-twice_example :
    ((answered desk first 0 (fresh_state "count") (answers trouble, queue)).1
      ≡ (fresh_state "count", raises (retryable "rate limit")))
    × (answered desk first 0
          (fresh_state "count")
          (answers well, (answered desk first 0 (fresh_state "count") (answers trouble, queue)).0)
        ≡ (
          (answered desk first 0 (fresh_state "count") (answers trouble, queue)).0,
          (fresh_state "count", raises (other duplicate_step)),
        ))
answered-twice_example =
    answered-twice desk first 0 (fresh_state "count") (fresh_state "count") trouble well queue
      (answered desk first 0 (fresh_state "count") (answers trouble, queue)).0 [] refl refl
      (sym
        (append-nil (answered desk first 0 (fresh_state "count") (answers trouble, queue)).0.steps))

abbrev two_steps : List ChainStep
two_steps =
    record { goal = "draft"; agent_id = "builder" }
    ∷ record { goal = "review"; agent_id = "orchestrator" }
    ∷ []

submit_chain-Links_example :
    Links desk two_steps queue
      (submit_chain desk (record { default_max_steps = 20 }) two_steps 5 none queue)
submit_chain-Links_example =
    submit_chain-Links desk (record { default_max_steps = 20 }) two_steps 5 none queue

cancel_chain_downstream-ends_example :
    (db' : Db) × (n : ℕ) × (cancel_chain_downstream 3 "a" "" queue ≡ some (db', n))
    × Each IsCancelling queue.tasks db'.tasks
    × IsClear "a" db'
    × ((y : String) → IsUnblocked y db' → IsUnblocked y queue ⊎ IsClear y db')
cancel_chain_downstream-ends_example = cancel_chain_downstream-ends 3 "a" "" queue (omega arith)
