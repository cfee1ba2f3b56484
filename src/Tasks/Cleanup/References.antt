-- ===== src/Tasks/Cleanup/References.antt =====
-- `cleanup_old_tasks` of sandbox/extensions/task_engine/cleanup.py keeps what is referred to.
use mathlib.Core.Path.{subst}
use yodoca.Base.{
  ℕ, ◌≡◌, refl, String, Bool, true, false, ◌&&◌, not, List, [], ◌∷◌, arith, is_text, delete, count,
  any, All, All-map, All-delete, All-×, sym, eq_iff,
}
use yodoca.Tasks.Rows.{Task, Db, now, has_id, is_terminal}
use yodoca.Tasks.Cleanup.{is_old, is_parent, cleanup_old_tasks}

-- The parent that a row names, if it names one, is in the table.
abbrev pub HasParent : List Task → Task → Type 0
HasParent tasks t = (p : String) → is_text t.parent_id p ≡ true → any (has_id p) tasks ≡ true

any-delete :
    (p q : Task → Bool) (xs : List Task)
    → ((x : Task) → p x ≡ true → q x ≡ false)
    → any p xs ≡ true
    → any p (delete q xs) ≡ true
any-delete p q [] kept h = h
any-delete p q (x ∷ xs) kept h = ground (arith, kept x, any-delete p q xs kept)

any_self :
    (tasks : List Task) (p : Task → Task → Bool)
    → All (λ t. (q : Task → Bool) → q t ≡ true → any q tasks ≡ true) tasks
any_self tasks p = go tasks (λ q h. h)
  where
    go :
        (ys : List Task)
        → ((q : Task → Bool) → any q ys ≡ true → any q tasks ≡ true)
        → All (λ t. (q : Task → Bool) → q t ≡ true → any q tasks ≡ true) ys
    go [] f = tt
    go (y ∷ ys) f = ((λ q h. f q (ground arith)), go ys (λ q h. f q (ground arith)))

count-delete_kept :
    (p q : Task → Bool) (xs : List Task)
    → ((x : Task) → p x ≡ true → q x ≡ false)
    → count p (delete q xs) ≡ count p xs
count-delete_kept p q [] kept = refl
count-delete_kept p q (x ∷ xs) kept = ground (arith, kept x, count-delete_kept p q xs kept)

module _ (retention_days : ℕ) (db : Db) where
  abbrev deleted : Task → Bool
  deleted t = is_old (now db) retention_days t && not (is_parent db.tasks t)

  parent_kept :
      (t : Task)
      → ((q : Task → Bool) → q t ≡ true → any q db.tasks ≡ true)
      → (p : String) → is_text t.parent_id p ≡ true
      → (x : Task) → has_id p x ≡ true
      → deleted x ≡ false
  parent_kept t among p h x named =
      refused (is_old (now db) retention_days x) (is_parent db.tasks x) (
        among (λ c. is_text c.parent_id x.task_id)
          (subst (λ i. is_text t.parent_id i ≡ true) (sym ((eq_iff x.task_id p).0 named)) h))
    where
      refused : (a b : Bool) → b ≡ true → (a && not b) ≡ false
      refused a b e = ground arith

  live_kept : (x : Task) → not (is_terminal x) ≡ true → deleted x ≡ false
  live_kept x h = first (is_terminal x) _ _ h
    where
      first : (a b c : Bool) → not a ≡ true → ((a && b) && c) ≡ false
      first a b c e = ground arith

  -- If every parent that a task names is in the table, that is so after a cleanup as well; and a
  -- cleanup deletes no task that has not ended.
  pub cleanup_old_tasks-references :
      All (HasParent db.tasks) db.tasks
      → All
          (HasParent (cleanup_old_tasks retention_days db).0.tasks)
          (cleanup_old_tasks retention_days db).0.tasks
        × (count (λ t. not (is_terminal t)) (cleanup_old_tasks retention_days db).0.tasks
            ≡ count (λ t. not (is_terminal t)) db.tasks)
  unfolding cleanup_old_tasks
  cleanup_old_tasks-references h = (
    All-delete _ deleted db.tasks (
        All-map _ _ db.tasks
          (λ t k p e. any-delete (has_id p) deleted db.tasks (parent_kept t k.1 p e) (k.0 p e))
          (All-× _ _ db.tasks h (any_self db.tasks (λ a b. true)))),
    count-delete_kept (λ t. not (is_terminal t)) deleted db.tasks live_kept,
  )
