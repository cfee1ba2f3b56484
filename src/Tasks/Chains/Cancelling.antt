-- ===== src/Tasks/Chains/Cancelling.antt =====
-- `cancel_chain_downstream` of sandbox/extensions/task_engine/chains.py: it ends, and leaves nothing
-- blocked behind a task that it has cancelled.
use mathlib.Core.Path.{subst}
use yodoca.Base.{
  ℕ, ◌+◌, ◌≤◌, ◌≡◌, ◌⊎◌, refl, sym, inl, inr, String, Bool, true, false, ◌&&◌, some, List, [], ◌∷◌,
  arith, same, is_text, update, any, count, eq_iff, Bool-cases, All, All-map, All-update, All-of,
  All-of_update, Each, Each-update, Each-refl, Each-trans, ◌∙◌,
}
use yodoca.Tasks.Rows.{cancelled, Task, Db, update_tasks, has_id, is_blocked}
use yodoca.Tasks.Chains.{cancel_rows}
use yodoca.Tasks.Chains.Failing.{IsUnblocked, blocked_count, keep_by}

-- A task stays as it is, or is cancelled.
abbrev pub IsCancelling : Task → Task → Type 0
IsCancelling t t' =
    (t' ≡ t)
    ⊎ ((t'.status ≡ cancelled) × (t'.task_id ≡ t.task_id) × (t'.after_task_id ≡ t.after_task_id))

-- No blocked task waits for one of the ids.
abbrev pub AllClear : List String → Db → Type 0
AllClear ids db =
    All (λ t. is_blocked t ≡ true → any (is_text t.after_task_id) ids ≡ false) db.tasks

pub IsCancelling-trans : (x y z : Task) → IsCancelling x y → IsCancelling y z → IsCancelling x z
IsCancelling-trans x y z (inl e) (inl f) = inl (f ∙ e)
IsCancelling-trans x y z (inl e) (inr f) = inr (
    subst
      (λ (w : Task).
        (z.status ≡ cancelled) × (z.task_id ≡ w.task_id) × (z.after_task_id ≡ w.after_task_id))
      e f)
IsCancelling-trans x y z (inr e) (inl f) = inr (
    subst
      (λ (w : Task).
        (w.status ≡ cancelled) × (w.task_id ≡ x.task_id) × (w.after_task_id ≡ x.after_task_id))
      (sym f) e)
IsCancelling-trans x y z (inr e) (inr f) = inr ((f.0, f.1 ∙ e.1, f.2 ∙ e.2))

pub still : (t t' : Task) → IsCancelling t t' → is_blocked t' ≡ true → t' ≡ t
still t t' (inl e) b = e
still t t' (inr e) b = absurd (cc (rw e.0 at b))

-- Rows that pass the test `q` and are turned by the update into rows that do not.
pub count-update_clear :
    (p q : Task → Bool) (f : Task → Task) (xs : List Task)
    → ((x : Task) → q (f x) ≡ false)
    → count q (update p f xs) + count (λ x. p x && q x) xs ≡ count q xs
count-update_clear p q f [] off = refl
count-update_clear p q f (x ∷ xs) off = ground (arith, off x, count-update_clear p q f xs off)

module _ (error : String) where
  abbrev pub cancelled_row : ℕ → Task → Task
  cancelled_row at t = record t { status = cancelled; error = some error; updated_at = at }

  -- One UPDATE of the inner loop.
  abbrev pub cancel_one : String → Db → Db
  cancel_one i = update_tasks (has_id i) cancelled_row

  one-IsCancelling : (i : String) (db : Db) → Each IsCancelling db.tasks (cancel_one i db).tasks
  one-IsCancelling i db =
      Each-update (λ _. Unit {0}) (has_id i) _ db.tasks (λ t _ h. inr ((refl, refl, refl)))
        (λ t _ h. inl refl) (All-of (λ _. Unit {0}) db.tasks (λ _. tt))

  pub one-fewer :
      (i : String) (db : Db)
      → blocked_count (cancel_one i db) + count (λ t. has_id i t && is_blocked t) db.tasks
        ≡ blocked_count db
  one-fewer i db = count-update_clear (has_id i) is_blocked _ db.tasks (λ t. refl)

  one_self : (i : String) (db : Db) → IsUnblocked i (cancel_one i db)
  one_self i db =
      All-update (λ _. Unit {0}) (λ t. is_blocked t ≡ true → has_id i t ≡ false) (has_id i) _
        db.tasks (λ t _ h b. absurd (cc b)) (λ t _ h b. h)
        (All-of (λ _. Unit {0}) db.tasks (λ _. tt))

  one_other :
      (i y : String) (db : Db)
      → same i y ≡ false
      → IsUnblocked y (cancel_one i db)
      → IsUnblocked y db
  one_other i y db other u =
      All-map _ _ db.tasks (λ t h b. one t h b)
        (All-of_update (λ t. is_blocked t ≡ true → has_id y t ≡ false) (has_id i) _ db.tasks u)
    where
      one :
          (t : Task)
          → (has_id i t ≡ false → is_blocked t ≡ true → has_id y t ≡ false)
          → is_blocked t ≡ true
          → has_id y t ≡ false
      one t h b = ground (arith, eq_iff t.task_id i, eq_iff t.task_id y, eq_iff i y)

  pub rows-IsCancelling :
      (ids : List String) (db : Db) → Each IsCancelling db.tasks (cancel_rows error ids db).tasks
  unfolding cancel_rows
  rows-IsCancelling [] db = Each-refl IsCancelling (λ t. inl refl) db.tasks
  rows-IsCancelling (i ∷ ids) db =
      Each-trans IsCancelling IsCancelling-trans db.tasks (cancel_one i db).tasks
        (cancel_rows error ids (cancel_one i db)).tasks (one-IsCancelling i db)
        (rows-IsCancelling ids (cancel_one i db))

  pub rows-fewer :
      (ids : List String) (db : Db) → blocked_count (cancel_rows error ids db) ≤ blocked_count db
  unfolding cancel_rows
  rows-fewer [] db = omega arith
  rows-fewer (i ∷ ids) db = omega (arith, one-fewer i db, rows-fewer ids (cancel_one i db))

  pub rows_self :
      (ids : List String) (db : Db) → All (λ i. IsUnblocked i (cancel_rows error ids db)) ids
  unfolding cancel_rows
  rows_self [] db = tt
  rows_self (i ∷ ids) db = (
    keep_by IsCancelling still (λ t. has_id i t ≡ false) (cancel_one i db)
        (cancel_rows error ids (cancel_one i db)) (rows-IsCancelling ids (cancel_one i db))
        (one_self i db),
    rows_self ids (cancel_one i db),
  )

  pub rows_other :
      (ids : List String) (y : String) (db : Db)
      → any (λ i. same i y) ids ≡ false
      → IsUnblocked y (cancel_rows error ids db)
      → IsUnblocked y db
  unfolding cancel_rows
  rows_other [] y db other u = u
  rows_other (i ∷ ids) y db other u = elim (Bool-cases (same i y)) [
    | inl e ↦ absurd (cc (rw e at other))
    | inr e ↦ one_other i y db e (rows_other ids y (cancel_one i db) (rw e at other) u)
  ]
