-- ===== src/Tasks/Submission/Linking.antt =====
-- `submit_chain` of sandbox/extensions/task_engine/main.py: the rows of a new chain.
use mathlib.Core.List.{append_assoc, append-nil}
use yodoca.Base.{
  ℕ, suc, ◌≡◌, ◌⊎◌, refl, inl, inr, String, Option, none, some, List, [], ◌∷◌, ◌++◌, map, sym, ◌∙◌,
  is_some, if◌then◌else◌,
}
use yodoca.Tasks.Rows.{submitted, Status, pending, blocked, Task, Db, stamp}
use yodoca.Tasks.Submission.{
  Config, ChainStep, ChainInfo, ChainSubmitted, chain_queued, no_steps, chain_unknown_agent,
  chain_task, unknown_step, enqueue_chain, submit_chain,
}
use yodoca.Tasks.Worker.{World, emit}

-- The rows of a chain from its `i`th step on: each waits for the one before it, by its order, and
-- the first, behind nothing, is free to run.
abbrev pub IsLinked : String → ℕ → Option String → List ChainStep → List Task → Type 0
IsLinked chain_id i prev [] [] = Unit
IsLinked chain_id i prev [] (t ∷ ts) = ⊥
IsLinked chain_id i prev (s ∷ ss) [] = ⊥
IsLinked chain_id i prev (s ∷ ss) (t ∷ ts) =
    (t.after_task_id ≡ prev)
    × (t.status ≡ (if is_some prev then blocked else pending))
    × (t.chain_id ≡ some chain_id)
    × (t.chain_order ≡ some i)
    × (t.payload.goal ≡ s.goal)
    × IsLinked chain_id (suc i) (some t.task_id) ss ts

-- The answer lists the rows.
abbrev pub Lists : List Task → List ChainInfo → Type 0
Lists ts infos =
    (map (λ (r : ChainInfo). r.task_id) infos ≡ map (λ (t : Task). t.task_id) ts)
    × (map (λ (r : ChainInfo). r.status) infos ≡ map (λ (t : Task). t.status) ts)

module _ (world : World) (config : Config) (priority : ℕ) (output_channel : Option String) where
  enqueue_chain-IsLinked :
      (chain_id : String) (at i : ℕ) (prev : Option String) (steps : List ChainStep) (db : Db)
      → (ts : List Task) × ((enqueue_chain world config priority output_channel chain_id at i prev
            steps db).0.tasks
          ≡ db.tasks ++ ts)
        × IsLinked chain_id i prev steps ts
        × Lists ts
            (enqueue_chain world config priority output_channel chain_id at i prev steps db).1
  unfolding enqueue_chain chain_task
  enqueue_chain-IsLinked chain_id at i prev [] db =
      ([], sym (append-nil db.tasks), tt, (refl, refl))
  enqueue_chain-IsLinked chain_id at i prev (step ∷ steps) db =
      let task_id = db.uuids db.drawn in
      let t =
        chain_task world config priority output_channel chain_id at i step prev task_id
          (db.uuids (suc db.drawn)) in
      let db' =
        emit (submitted task_id t.agent_id step.goal priority)
          (record db { tasks = db.tasks ++ t ∷ []; drawn = suc (suc db.drawn) }) in
      let (ts, rows, linked, (ids, statuses)) =
        enqueue_chain-IsLinked chain_id at (suc i) (some task_id) steps db' in
      (
        t ∷ ts,
        rows ∙ append_assoc db.tasks (t ∷ []) ts,
        (refl, first_status prev, refl, refl, refl, linked),
        (cc ids, cc statuses),
      )
    where
      first_status :
          (p : Option String)
          → (elim p as (λ _. Status) [ none ↦ pending | some q ↦ blocked ])
            ≡ (if is_some p then blocked else pending)
      first_status none = refl
      first_status (some q) = refl

-- What a submission may do to the queue.
abbrev pub Links : World → List ChainStep → Db → Db × ChainSubmitted → Type 0
Links world steps db (db', answer) =
    ((steps ≡ []) × (db' ≡ db) × (answer ≡ no_steps))
    ⊎ ((agent : String) × (unknown_step world steps ≡ some agent)
        × (db' ≡ db)
        × (answer ≡ chain_unknown_agent agent))
    ⊎ ((chain_id : String) × (ts : List Task) × (infos : List ChainInfo) × (unknown_step world steps
          ≡ none)
        × (db'.tasks ≡ db.tasks ++ ts)
        × IsLinked chain_id 0 none steps ts
        × (answer ≡ chain_queued chain_id infos)
        × Lists ts infos)

-- A chain without steps, or with a step whose agent is not known, changes nothing and is refused.
-- Any other chain is appended to the queue with one row for each step, in order and under one chain
-- id: the first is pending and waits for nothing, each other is blocked and waits for the row before
-- it; and the answer lists the ids and the statuses of these rows.
pub submit_chain-Links :
    (world : World) (config : Config) (steps : List ChainStep) (priority : ℕ)
    (output_channel : Option String) (db : Db)
    → Links world steps db (submit_chain world config steps priority output_channel db)
unfolding submit_chain
submit_chain-Links world config [] priority output_channel db = inl ((refl, refl, refl))
submit_chain-Links world config (s ∷ ss) priority output_channel db =
    inr (go (unknown_step world (s ∷ ss)) refl)
  where
    go :
        (o : Option String)
        → unknown_step world (s ∷ ss) ≡ o
        → ((agent : String) × (unknown_step world (s ∷ ss) ≡ some agent)
            × ((submit_chain world config (s ∷ ss) priority output_channel db).0 ≡ db)
            × ((submit_chain world config (s ∷ ss) priority output_channel db).1
                ≡ chain_unknown_agent agent))
          ⊎ ((chain_id : String) × (ts : List Task) × (infos : List ChainInfo) × (unknown_step world
                  (s ∷ ss)
                ≡ none)
              × ((submit_chain world config (s ∷ ss) priority output_channel db).0.tasks
                  ≡ db.tasks ++ ts)
              × IsLinked chain_id 0 none (s ∷ ss) ts
              × ((submit_chain world config (s ∷ ss) priority output_channel db).1
                  ≡ chain_queued chain_id infos)
              × Lists ts infos)
    go (some agent) e = rw (e, submit_chain) (inl ((agent, refl, refl, refl)))
    go none e =
        let chain_id = db.uuids db.drawn in
        let begun = record db { drawn = suc db.drawn; clock = suc db.clock } in
        let (ts, rows, linked, listed) =
          enqueue_chain-IsLinked world config priority output_channel chain_id (stamp db) 0 none
            (s ∷ ss) begun in
        rw (e, submit_chain)
          (inr (
            (
              chain_id,
              ts,
              (enqueue_chain world config priority output_channel chain_id (stamp db) 0 none
                  (s ∷ ss) begun).1,
              refl,
              rows,
              linked,
              refl,
              listed,
            )))
