-- ===== src/Tasks/Chains/Failing.antt =====
-- What a row and a queue keep while blocked tasks fail, and one round of `_cascade_failure`.
use mathlib.Core.Path.{subst}
use yodoca.Base.{
  ℕ, ◌+◌, ◌≤◌, ◌≡◌, ◌⊎◌, refl, sym, inl, inr, String, Bool, true, false, ◌&&◌, arith, same, is_text,
  count, eq_iff, Bool-cases, All, All-map, All-update, All-of, All-of_update, count-update_off,
  Each, Each-All, Each-update, Each-refl, Each-trans, ◌∙◌,
}
use yodoca.Tasks.Rows.{failed, Task, Db, has_id, is_blocked}
use yodoca.Tasks.Chains.{fail_blocked}

-- No blocked task has the id.
abbrev pub IsUnblocked : String → Db → Type 0
IsUnblocked x db = All (λ t. is_blocked t ≡ true → has_id x t ≡ false) db.tasks

-- No blocked task waits for the id.
abbrev pub IsClear : String → Db → Type 0
IsClear x db = All (λ t. is_blocked t ≡ true → is_text t.after_task_id x ≡ false) db.tasks

abbrev pub blocked_count : Db → ℕ
blocked_count db = count is_blocked db.tasks

-- A task stays as it is, or was blocked and has failed.
abbrev pub IsFailing : Task → Task → Type 0
IsFailing t t' =
    (t' ≡ t)
    ⊎ ((is_blocked t ≡ true)
        × (t'.status ≡ failed)
        × (t'.task_id ≡ t.task_id)
        × (t'.after_task_id ≡ t.after_task_id))

-- From `db` to `db'` blocked tasks have failed, no others have changed, and nothing waits for a
-- task that has failed.
pub record IsCascaded (db db' : Db) : Type 0 where
  pub failing : Each IsFailing db.tasks db'.tasks
  pub fewer : blocked_count db' ≤ blocked_count db
  pub closed : (x : String) → IsUnblocked x db' → IsUnblocked x db ⊎ IsClear x db'

pub IsFailing-trans : (x y z : Task) → IsFailing x y → IsFailing y z → IsFailing x z
IsFailing-trans x y z (inl e) (inl f) = inl (f ∙ e)
IsFailing-trans x y z (inl e) (inr f) = inr (
    subst
      (λ w.
        (is_blocked w ≡ true)
        × (z.status ≡ failed)
        × (z.task_id ≡ w.task_id)
        × (z.after_task_id ≡ w.after_task_id))
      e f)
IsFailing-trans x y z (inr e) (inl f) = inr (
    subst
      (λ w.
        (is_blocked x ≡ true)
        × (w.status ≡ failed)
        × (w.task_id ≡ x.task_id)
        × (w.after_task_id ≡ x.after_task_id))
      (sym f) e)
IsFailing-trans x y z (inr e) (inr f) = inr ((e.0, f.1, f.2 ∙ e.2, f.3 ∙ e.3))

-- What holds of the blocked tasks goes on to hold of them, where only unchanged rows are blocked.
pub keep_by :
    (R : Task → Task → Type 0)
    → ((t t' : Task) → R t t' → is_blocked t' ≡ true → t' ≡ t)
    → (P : Task → Type 0) (db db' : Db) → Each R db.tasks db'.tasks
    → All (λ t. is_blocked t ≡ true → P t) db.tasks
    → All (λ t. is_blocked t ≡ true → P t) db'.tasks
keep_by R still P db db' c =
    Each-All (λ t. is_blocked t ≡ true → P t) (λ t. is_blocked t ≡ true → P t) db.tasks db'.tasks
      (λ t t' r h b. one t t' (still t t' r b) h b) c
  where
    one : (t t' : Task) → t' ≡ t → (is_blocked t ≡ true → P t) → is_blocked t' ≡ true → P t'
    one t t' e h b = subst P (sym e) (h (subst (λ w. is_blocked w ≡ true) e b))

pub keep :
    (P : Task → Type 0) (db db' : Db)
    → Each IsFailing db.tasks db'.tasks
    → All (λ t. is_blocked t ≡ true → P t) db.tasks
    → All (λ t. is_blocked t ≡ true → P t) db'.tasks
keep = keep_by IsFailing still
  where
    still : (t t' : Task) → IsFailing t t' → is_blocked t' ≡ true → t' ≡ t
    still t t' (inl e) b = e
    still t t' (inr e) b = absurd (cc (rw e.1 at b))

pub IsCascaded-trans : (a b c : Db) → IsCascaded a b → IsCascaded b c → IsCascaded a c
IsCascaded-trans a b c p q = record {
  failing = Each-trans IsFailing IsFailing-trans a.tasks b.tasks c.tasks p.failing q.failing;
  fewer = omega (arith, p.fewer, q.fewer);
  closed = λ x u. go x (q.closed x u);
}
  where
    go : (x : String) → IsUnblocked x b ⊎ IsClear x c → IsUnblocked x a ⊎ IsClear x c
    go x (inr clear) = inr clear
    go x (inl u) = elim (p.closed x u) [
      | inl u' ↦ inl u'
      | inr clear ↦ inr (keep (λ t. is_text t.after_task_id x ≡ false) b c q.failing clear)
    ]

-- UPDATE … SET status = 'failed': one round of the loop before its recursive call.
module _ (error : String) (x : String) (db : Db) where
  abbrev pub hit : Task → Bool
  hit t = has_id x t && is_blocked t

  abbrev failed_db : Db
  failed_db = fail_blocked error x db

  hit_blocked : (t : Task) → hit t ≡ true → is_blocked t ≡ true
  hit_blocked t h = ground arith

  pub fail-IsFailing : Each IsFailing db.tasks failed_db.tasks
  unfolding fail_blocked
  fail-IsFailing =
      Each-update (λ _. Unit {0}) hit _ db.tasks
        (λ t _ h. inr ((hit_blocked t h, refl, refl, refl))) (λ t _ h. inl refl)
        (All-of (λ _. Unit {0}) db.tasks (λ _. tt))

  pub fail-fewer : blocked_count failed_db + count hit db.tasks ≡ blocked_count db
  unfolding fail_blocked
  fail-fewer = count-update_off hit is_blocked _ db.tasks hit_blocked (λ t. refl)

  -- Another id is blocked as it was before.
  fail-IsUnblocked : (y : String) → same x y ≡ false → IsUnblocked y failed_db → IsUnblocked y db
  unfolding fail_blocked
  fail-IsUnblocked y other u =
      All-map _ _ db.tasks (λ t h b. one t h b)
        (All-of_update (λ t. is_blocked t ≡ true → has_id y t ≡ false) hit _ db.tasks u)
    where
      one :
          (t : Task)
          → (hit t ≡ false → is_blocked t ≡ true → has_id y t ≡ false)
          → is_blocked t ≡ true
          → has_id y t ≡ false
      one t h b = ground (arith, eq_iff t.task_id x, eq_iff t.task_id y, eq_iff x y)

  -- After the update the id is not blocked.
  pub fail_self : IsUnblocked x failed_db
  unfolding fail_blocked
  fail_self =
      All-update (λ _. Unit {0}) (λ t. is_blocked t ≡ true → has_id x t ≡ false) hit _ db.tasks
        (λ t _ h b. absurd (cc b)) (λ t _ h b. ground arith)
        (All-of (λ _. Unit {0}) db.tasks (λ _. tt))

  -- With the cascade from the id, the round leaves a cascaded queue.
  pub round-IsCascaded : (db' : Db) → IsCascaded failed_db db' → IsClear x db' → IsCascaded db db'
  round-IsCascaded db' c clear = record {
    failing =
        Each-trans IsFailing IsFailing-trans db.tasks failed_db.tasks db'.tasks fail-IsFailing
          c.failing;
    fewer = omega (arith, c.fewer, fail-fewer);
    closed = λ y u. go y (Bool-cases (same x y)) (c.closed y u);
  }
    where
      go :
          (y : String)
          → (same x y ≡ true) ⊎ (same x y ≡ false)
          → IsUnblocked y failed_db ⊎ IsClear y db'
          → IsUnblocked y db ⊎ IsClear y db'
      go y _ (inr cl) = inr cl
      go y (inl e) (inl u) = inr (subst (λ z. IsClear z db') ((eq_iff x y).0 e) clear)
      go y (inr e) (inl u) = inl (fail-IsUnblocked y e u)

pub IsCascaded-refl : (db : Db) → IsCascaded db db
IsCascaded-refl db = record {
  failing = Each-refl IsFailing (λ t. inl refl) db.tasks;
  fewer = omega arith;
  closed = λ x u. inl u;
}
