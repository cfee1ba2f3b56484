-- ===== src/Tasks/Subtasks/Depth.antt =====
-- `get_subtask_depth` of sandbox/extensions/task_engine/subtasks.py.
use yodoca.Base.{ℕ, zero, suc, ◌+◌, ◌≡◌, String, false, none, some, arith, same, min}
use yodoca.Tasks.Rows.{Db}
use yodoca.Tasks.Subtasks.{parent_of, depth_loop, get_subtask_depth, max_subtask_depth}

-- The task has `n` ancestors: following the parents ends after `n` of them.
pub data HasAncestors (db : Db) : String → ℕ → Type 0 where
  top : {i : String} → parent_of i db ≡ none → HasAncestors db i 0
  below :
      {i p : String} {n : ℕ}
      → parent_of i db ≡ some p
      → HasAncestors db p n
      → HasAncestors db i (suc n)

loop-min :
    (left : ℕ) (i : String) (depth n : ℕ) (db : Db)
    → HasAncestors db i n
    → depth_loop left i depth db ≡ depth + min n left
unfolding depth_loop
loop-min zero i depth n db h = omega arith
loop-min (suc left) i depth n db (top e) = rw (e, depth_loop) (omega arith)
loop-min (suc left) i depth n db (below {p = p} {n = m} e h) =
    rw (e, depth_loop) (omega (arith, loop-min left p (depth + 1) m db h))

-- The depth of a task with `n` ancestors is `n`, cut at one more than the limit.
pub get_subtask_depth-min :
    (i : String) (n : ℕ) (db : Db)
    → same i "" ≡ false
    → HasAncestors db i n
    → get_subtask_depth i db ≡ min n (max_subtask_depth + 1)
unfolding get_subtask_depth
get_subtask_depth-min i n db named h =
    rw named (omega (arith, loop-min (max_subtask_depth + 1) i 0 n db h))
