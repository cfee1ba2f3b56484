-- ===== src/Tasks/Chains/Cascade.antt =====
-- The failure cascade of `unblock_successors`: it ends, and leaves nothing blocked behind.
use text.Mathlib.TextPositions.{eq_refl}
use yodoca.Base.{
  ℕ, zero, suc, ◌≤◌, ◌<◌, ◌≡◌, ◌⊎◌, refl, inl, inr, String, Bool, true, false, Option, some, List,
  [], ◌∷◌, arith, ◌==◌, is_text, select, count, length, Bool-cases, ==→eq, All, All-map, All-of,
  All-select, All-of_select, All-diag, All-×, select-nil, count_zero, count_mono, length-select,
  Each, ◌∙◌,
}
use yodoca.Tasks.Rows.{Status, failed, TaskResult, Task, Db, has_id, is_blocked}
use yodoca.Tasks.Chains.{
  waits_for, fail_blocked, fail_rows, cascade_failure, error_text, unblock_successors,
}
use yodoca.Tasks.Chains.Failing.{
  IsUnblocked, IsClear, blocked_count, IsFailing, IsCascaded, keep, IsCascaded-trans,
  IsCascaded-refl, hit, fail-IsFailing, fail-fewer, fail_self, round-IsCascaded,
}

waits_blocked : (x : String) (t : Task) → waits_for x t ≡ true → is_blocked t ≡ true
waits_blocked x t h = ground arith

nobody_waits : (x : String) (db : Db) → IsClear x db → select (waits_for x) db.tasks ≡ []
nobody_waits x db clear =
    select-nil (waits_for x) db.tasks (All-map _ _ db.tasks (λ t h. one t h) clear)
  where
    one :
        (t : Task)
        → (is_blocked t ≡ true → is_text t.after_task_id x ≡ false)
        → waits_for x t ≡ false
    one t h = ground arith

-- A cascade from an id for which nothing waits.
cascade_clear :
    (fuel : ℕ) (status : Status) (x : String) (db : Db)
    → IsClear x db
    → 1 ≤ fuel
    → cascade_failure fuel status x db ≡ some db
unfolding cascade_failure fail_rows
cascade_clear zero status x db clear h = absurd (omega arith)
cascade_clear (suc fuel) status x db clear h = rw (nobody_waits x db clear)

-- What a cascade from `x` is to reach.
abbrev Reaches : String → Db → Option Db → Type 0
Reaches x db r = (db' : Db) × (r ≡ some db') × IsCascaded db db' × IsClear x db'

self_blocked :
    (x : String) (db : Db) → All (λ t. waits_for x t ≡ true → IsUnblocked t.task_id db → ⊥) db.tasks
self_blocked x db =
    All-map _ _ db.tasks (λ t h w u. cc (h u (waits_blocked x t w), eq_refl t.task_id))
      (All-diag (λ t s. is_blocked s ≡ true → has_id t.task_id s ≡ false) db.tasks)

-- Once every task that waited for `x` is unblocked, none waits for it.
left-IsClear :
    (x : String) (db db' : Db)
    → Each IsFailing db.tasks db'.tasks
    → All (λ t. IsUnblocked t.task_id db') (select (waits_for x) db.tasks)
    → IsClear x db'
left-IsClear x db db' failing off =
    All-map _ _ db'.tasks (λ t h b. one t (h.0 b) h.1 b)
      (All-× _ _ db'.tasks
        (keep (λ t. waits_for x t ≡ true → IsUnblocked t.task_id db') db db' failing
          (All-map _ _ db.tasks (λ t h b w. h w)
            (All-of_select (λ t. IsUnblocked t.task_id db') (waits_for x) db.tasks off)))
        (self_blocked x db'))
  where
    one :
        (t : Task)
        → (waits_for x t ≡ true → IsUnblocked t.task_id db')
        → (waits_for x t ≡ true → IsUnblocked t.task_id db' → ⊥)
        → is_blocked t ≡ true
        → is_text t.after_task_id x ≡ false
    one t h k b = elim (Bool-cases (is_text t.after_task_id x)) [
      | inr e ↦ e
      | inl e ↦ let w = both t e b in absurd (k w (h w))
    ]
      where
        both :
            (u : Task)
            → is_text u.after_task_id x ≡ true
            → is_blocked u ≡ true
            → waits_for x u ≡ true
        both u e f = ground arith

module _ (fuel : ℕ)
    (total : (status : Status) (x : String) (db : Db)
      → blocked_count db < fuel
      → Reaches x db (cascade_failure fuel status x db)) where
  one_row :
      (error x : String) (db : Db)
      → blocked_count db ≤ fuel
      → 1 ≤ fuel
      → (IsUnblocked x db → IsClear x db)
      → (db' : Db) × (cascade_failure fuel failed x (fail_blocked error x db) ≡ some db')
        × IsCascaded db db'
        × IsUnblocked x db'
  one_row error x db small some_fuel fine =
      elim (Bool-cases (count (hit error x db) db.tasks == 0)) [
        | inr busy ↦
            let (db', e, c, clear) =
              total failed x (fail_blocked error x db)
                (omega (arith, fail-fewer error x db, nonzero _ busy)) in
            (
              db',
              e,
              round-IsCascaded error x db db' c clear,
              keep (λ t. has_id x t ≡ false) (fail_blocked error x db) db' c.failing
                  (fail_self error x db),
            )
        | inl idle ↦
            let calm =
              keep (λ t. is_text t.after_task_id x ≡ false) db (fail_blocked error x db)
                (fail-IsFailing error x db)
                (fine (
                  All-map _ _ db.tasks (λ t h b. missed t h b)
                    (count_zero (hit error x db) db.tasks (==→eq _ _ idle)))) in
            (
              fail_blocked error x db,
              cascade_clear fuel failed x (fail_blocked error x db) calm some_fuel,
              round-IsCascaded error x db (fail_blocked error x db)
                  (IsCascaded-refl (fail_blocked error x db)) calm,
              fail_self error x db,
            )
      ]
    where
      nonzero : (n : ℕ) → (n == 0) ≡ false → 1 ≤ n
      nonzero n h = ground arith

      missed : (t : Task) → hit error x db t ≡ false → is_blocked t ≡ true → has_id x t ≡ false
      missed t h b = ground arith

  -- The rows of the SELECT, each blocked or without blocked successors.
  abbrev IsFine : List Task → Db → Type 0
  IsFine rows db = All (λ r. IsUnblocked r.task_id db → IsClear r.task_id db) rows

  -- What the loop is to reach: all its rows are unblocked.
  abbrev Finishes : List Task → Db → Option Db → Type 0
  Finishes rows db r =
      (db' : Db) × (r ≡ some db') × IsCascaded db db' × All (λ t. IsUnblocked t.task_id db') rows

  rows_total :
      (error : String) (rows : List Task) (db : Db)
      → blocked_count db ≤ fuel
      → length rows ≤ fuel
      → IsFine rows db
      → Finishes rows db (fail_rows (cascade_failure fuel failed) error rows db)
  unfolding fail_rows
  rows_total error [] db small short fine = (db, refl, IsCascaded-refl db, tt)
  rows_total error (r ∷ rows) db small short fine =
      let (db1, e, c, off) = one_row error r.task_id db small (omega arith) fine.0 in
      let (db2, e', c', others) = rows_total error rows db1 (omega (arith, c.fewer)) (omega arith) (
        All-map (λ t. IsUnblocked t.task_id db → IsClear t.task_id db)
          (λ t. IsUnblocked t.task_id db1 → IsClear t.task_id db1) rows
          (λ t h u. still t.task_id db1 c h (c.closed t.task_id u)) fine.1) in
      (
        db2,
        rw (e, fail_rows) e',
        IsCascaded-trans db db1 db2 c c',
        (keep (λ t. has_id r.task_id t ≡ false) db1 db2 c'.failing off, others),
      )
    where
      still :
          (x : String) (db1 : Db)
          → IsCascaded db db1
          → (IsUnblocked x db → IsClear x db)
          → IsUnblocked x db ⊎ IsClear x db1
          → IsClear x db1
      still x db1 c h (inr clear) = clear
      still x db1 c h (inl u) = keep (λ t. is_text t.after_task_id x ≡ false) db db1 c.failing (h u)

  next_total :
      (status : Status) (x : String) (db : Db)
      → blocked_count db < suc fuel
      → Reaches x db (cascade_failure (suc fuel) status x db)
  unfolding cascade_failure
  next_total status x db h =
      let rows = select (waits_for x) db.tasks in
      let (db', e, c, off) =
        rows_total (error_text x status) rows db (omega arith)
          (omega (
            arith,
            length-select (waits_for x) db.tasks,
            count_mono (waits_for x) is_blocked db.tasks (All-of _ db.tasks (waits_blocked x)),
          ))
          (All-map _ _ rows (λ t k u. absurd (k.0 k.1 u))
            (All-select _ (waits_for x) db.tasks (self_blocked x db))) in
      (db', e, c, left-IsClear x db db' c.failing off)

cascade_total :
    (fuel : ℕ) (status : Status) (x : String) (db : Db)
    → blocked_count db < fuel
    → Reaches x db (cascade_failure fuel status x db)
cascade_total zero status x db h = absurd (omega arith)
cascade_total (suc fuel) status x db h = next_total fuel (cascade_total fuel) status x db h

abbrev pub is_success : Status → Bool
is_success s = elim s [ Status.done ↦ true | _ ↦ false ]

cascades :
    (fuel : ℕ) (x : String) (s : Status) (result : Option TaskResult) (db : Db)
    → is_success s ≡ false
    → unblock_successors fuel x s result db ≡ cascade_failure fuel s x db
unfolding unblock_successors
cascades fuel x Status.done result db o = cc
cascades fuel x _ result db o = refl

-- When a task ends in another way than done, the cascade ends, with more fuel than there are
-- blocked tasks, also where tasks wait for one another in a cycle. Every row stays as
-- it was or was blocked and is failed, with its id and its predecessor; no task that waits for the
-- ended task stays blocked; and an id that had a blocked task and has none now has no blocked task
-- waiting for it.
pub unblock_successors-cascades :
    (fuel : ℕ) (x : String) (status : Status) (result : Option TaskResult) (db : Db)
    → is_success status ≡ false
    → blocked_count db < fuel
    → (db' : Db) × (unblock_successors fuel x status result db ≡ some db')
      × Each IsFailing db.tasks db'.tasks
      × IsClear x db'
      × ((y : String) → IsUnblocked y db' → IsUnblocked y db ⊎ IsClear y db')
unblock_successors-cascades fuel x status result db other enough =
    let (db', e, c, clear) = cascade_total fuel status x db enough in
    (db', cascades fuel x status result db other ∙ e, c.failing, clear, c.closed)
