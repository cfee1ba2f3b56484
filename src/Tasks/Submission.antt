-- ===== src/Tasks/Submission.antt =====
-- sandbox/extensions/task_engine/main.py: the submission of tasks and chains, of an initialized
-- extension with an agent registry.
pub mod Linking
use yodoca.Base.{
  ℕ, suc, String, Bool, false, ◌&&◌, ◌||◌, not, Option, none, some, List, [], ◌∷◌, ◌++◌, leb, ◌==◌,
  if◌then◌else◌, same, is_some, update,
}
use yodoca.Tasks.Rows.{
  Status, pending, blocked, waiting_subtasks, Payload, Task, Db, submitted, stamp, has_id,
  is_running, find_task,
}
use yodoca.Tasks.Subtasks.{max_subtask_depth, get_subtask_depth, update_parent_checkpoint}
use yodoca.Tasks.Worker.{World, emit}

-- What the tool answers: the new task's id, or why there is none.
pub data Submitted : Type 0 where
  queued : String → Submitted
  unknown_agent : String → Submitted
  too_deep predecessor_missing : Submitted

pub record Config : Type 0 where
  pub default_max_steps : ℕ

-- An optional id that is given and not the empty text.
abbrev pub given : Option String → Bool
given none = false
given (some s) = not (same s "")

abbrev effective_agent : World → String → String
effective_agent world agent_id = if same agent_id "orchestrator" then world.router_id else agent_id

-- The agent is the router or registered.
abbrev is_known : World → String → Bool
is_known world agent_id = same agent_id world.router_id || world.known_agent agent_id

-- `max_steps or default`
abbrev steps_or : Option ℕ → ℕ → ℕ
steps_or none d = d
steps_or (some n) d = if n == 0 then d else n

pub new_payload : String → ℕ → Option String → Payload
new_payload goal max_steps output_channel = record {
  goal = goal;
  max_steps = max_steps;
  source = "orchestrator";
  output_channel = output_channel;
  predecessor_result = none;
  predecessor_task_id = none;
}

pub record Request : Type 0 where
  pub goal : String
  pub agent_id : String
  pub priority : ℕ
  pub parent_task_id : Option String
  pub after_task_id : Option String
  pub max_steps : Option ℕ
  pub output_channel : Option String

-- The row of the INSERT; the columns that it leaves out have their defaults.
pub new_task : World → Config → Request → String → String → ℕ → Task
unfolding new_payload
new_task world config req task_id run_id at = record {
  task_id = task_id;
  parent_id = req.parent_task_id;
  run_id = run_id;
  agent_id = effective_agent world req.agent_id;
  status = if given req.after_task_id then blocked else pending;
  priority = req.priority;
  payload =
      new_payload req.goal (steps_or req.max_steps config.default_max_steps) req.output_channel;
  result = none;
  checkpoint = none;
  error = none;
  attempt_no = 0;
  schedule_at = none;
  leased_by = none;
  lease_exp = none;
  created_at = at;
  updated_at = at;
  after_task_id = req.after_task_id;
  chain_id = none;
  chain_order = none;
}

-- The parent of a new subtask waits if it is running, and notes the subtask.
pub attach : Option String → String → ℕ → Db → Db
attach none child at db = db
attach (some parent) child at db =
    if same parent ""
    then db
    else update_parent_checkpoint parent child (record db {
      tasks =
          update (λ t. has_id parent t && is_running t)
            (λ t. record t { status = waiting_subtasks; updated_at = at }) db.tasks;
    })

-- The two ids are drawn first, then the time is read.
pub enqueue : World → Config → Request → Db → Db × Submitted
unfolding new_task attach
enqueue world config req db =
    let task_id = db.uuids db.drawn in
    let run_id = db.uuids (suc db.drawn) in
    let t = new_task world config req task_id run_id (stamp db) in
    let db' = record db {
      tasks = db.tasks ++ t ∷ [];
      clock = suc db.clock;
      drawn = suc (suc db.drawn);
    } in
    (
      emit (submitted task_id t.agent_id req.goal req.priority)
          (attach req.parent_task_id task_id (stamp db) db'),
      queued task_id,
    )

depth_of : Option String → Db → ℕ
depth_of none db = 0
depth_of (some p) db = get_subtask_depth p db

task_exists : Option String → Db → Bool
task_exists none db = false
task_exists (some i) db = is_some (find_task i db)

unfoldable pub submit_task : World → Config → Request → Db → Db × Submitted
unfolding enqueue depth_of task_exists
submit_task world config req db =
    if not (is_known world (effective_agent world req.agent_id))
    then (db, unknown_agent (effective_agent world req.agent_id))
    else if given req.parent_task_id && leb max_subtask_depth (depth_of req.parent_task_id db)
    then (db, too_deep)
    else if given req.after_task_id && not (task_exists req.after_task_id db)
    then (db, predecessor_missing)
    else enqueue world config req db

-- ChainStep: the goal and the agent.
pub record ChainStep : Type 0 where
  pub goal : String
  pub agent_id : String

pub record ChainInfo : Type 0 where
  pub task_id : String
  pub goal : String
  pub agent_id : String
  pub chain_order : ℕ
  pub status : Status

pub data ChainSubmitted : Type 0 where
  chain_queued : String → List ChainInfo → ChainSubmitted
  no_steps : ChainSubmitted
  chain_unknown_agent : String → ChainSubmitted

-- The first step whose agent is not known.
pub unknown_step : World → List ChainStep → Option String
unknown_step world [] = none
unknown_step world (s ∷ rest) =
    if is_known world (effective_agent world s.agent_id)
    then unknown_step world rest
    else some s.agent_id

pub chain_task :
    World
    → Config
    → ℕ
    → Option String
    → String
    → ℕ
    → ℕ
    → ChainStep
    → Option String
    → String
    → String
    → Task
unfolding new_payload
chain_task world config priority output_channel chain_id at i step prev task_id run_id = record {
  task_id = task_id;
  parent_id = none;
  run_id = run_id;
  agent_id = effective_agent world step.agent_id;
  status = elim prev [ none ↦ pending | some p ↦ blocked ];
  priority = priority;
  payload = new_payload step.goal config.default_max_steps output_channel;
  result = none;
  checkpoint = none;
  error = none;
  attempt_no = 0;
  schedule_at = none;
  leased_by = none;
  lease_exp = none;
  created_at = at;
  updated_at = at;
  after_task_id = prev;
  chain_id = some chain_id;
  chain_order = some i;
}

-- The loop over the steps: `i` of `enumerate`, and `prev_task_id`.
pub enqueue_chain :
    World
    → Config
    → ℕ
    → Option String
    → String
    → ℕ
    → ℕ
    → Option String
    → List ChainStep
    → Db
    → Db × List ChainInfo
unfolding chain_task
enqueue_chain world config priority output_channel chain_id at i prev [] db = (db, [])
enqueue_chain world config priority output_channel chain_id at i prev (step ∷ steps) db =
    let task_id = db.uuids db.drawn in
    let run_id = db.uuids (suc db.drawn) in
    let t =
      chain_task world config priority output_channel chain_id at i step prev task_id run_id in
    let db' =
      emit (submitted task_id t.agent_id step.goal priority)
        (record db { tasks = db.tasks ++ t ∷ []; drawn = suc (suc db.drawn) }) in
    let (db'', infos) =
      enqueue_chain world config priority output_channel chain_id at (suc i) (some task_id) steps
        db' in
    (
      db'',
      record {
        task_id = task_id;
        goal = step.goal;
        agent_id = t.agent_id;
        chain_order = i;
        status = t.status;
      }
          ∷ infos,
    )

unfoldable pub submit_chain :
    World → Config → List ChainStep → ℕ → Option String → Db → Db × ChainSubmitted
unfolding unknown_step enqueue_chain
submit_chain world config [] priority output_channel db = (db, no_steps)
submit_chain world config (s ∷ ss) priority output_channel db = elim (unknown_step world (s ∷ ss)) [
  | some agent ↦ (db, chain_unknown_agent agent)
  | none ↦
      let chain_id = db.uuids db.drawn in
      let (db', infos) =
        enqueue_chain world config priority output_channel chain_id (stamp db) 0 none (s ∷ ss)
          (record db { drawn = suc db.drawn; clock = suc db.clock }) in
      (db', chain_queued chain_id infos)
]
