-- ===== src/Tasks/Chains/Downstream.antt =====
-- `cancel_chain_downstream` of sandbox/extensions/task_engine/chains.py: its levels.
use mathlib.Core.Path.{subst}
use text.Mathlib.TextPositions.{eq_refl}
use yodoca.Base.{
  ℕ, zero, suc, ◌+◌, ◌≤◌, ◌<◌, ◌≡◌, ◌⊎◌, refl, inl, inr, String, Bool, true, false, ◌&&◌, ◌||◌,
  Option, some, List, [], ◌∷◌, arith, ◌==◌, same, is_text, select, any, map, count, length, eq_iff,
  Bool-cases, All, All-map, All-of, All-select, All-of_select, All-diag, All-×, Each, Each-refl,
  Each-trans, if◌then◌else◌, ==→eq, count_zero,
}
use yodoca.Tasks.Rows.{Task, Db, has_id, is_blocked}
use yodoca.Tasks.Chains.{waits_for_any, cancel_rows, cancel_levels, cancel_chain_downstream}
use yodoca.Tasks.Chains.Failing.{IsUnblocked, IsClear, blocked_count, keep_by}
use yodoca.Tasks.Chains.Cancelling.{
  IsCancelling, AllClear, IsCancelling-trans, still, rows-IsCancelling, rows-fewer, rows_self,
  rows_other, one-fewer, cancel_one,
}

abbrev id_of : Task → String
id_of t = t.task_id

-- The ids of the next level.
abbrev successors : List String → Db → List Task
successors ids db = select (waits_for_any ids) db.tasks

All-map_of :
    (P : String → Type 0) (ts : List Task) → All P (map id_of ts) → All (λ t. P t.task_id) ts
All-map_of P [] h = tt
All-map_of P (t ∷ ts) h = (h.0, All-map_of P ts h.1)

-- A blocked row is among the blocked rows with its id.
counted :
    (db : Db)
    → All
        (λ t.
          is_blocked t ≡ true
          → (count (λ s. has_id t.task_id s && is_blocked s) db.tasks == 0) ≡ false)
        db.tasks
counted db =
    All-map _ _ db.tasks
      (λ t h b. elim (Bool-cases (count (λ s. has_id t.task_id s && is_blocked s) db.tasks == 0)) [
        | inr e ↦ e
        | inl e ↦ absurd (cc (h (count_zero _ db.tasks (==→eq _ _ e)), eq_refl t.task_id, b))
      ])
      (All-diag (λ t s. (has_id t.task_id s && is_blocked s) ≡ false) db.tasks)

waits_blocked : (ids : List String) (t : Task) → waits_for_any ids t ≡ true → is_blocked t ≡ true
waits_blocked ids t h = ground arith

-- A level that cancels a task leaves fewer blocked tasks.
level-fewer :
    (error : String) (ids : List String) (t : Task) (ts : List Task) (db : Db)
    → successors ids db ≡ t ∷ ts
    → blocked_count (cancel_rows error (t.task_id ∷ map id_of ts) db) < blocked_count db
unfolding cancel_rows
level-fewer error ids t ts db e =
    let found =
      subst (All (λ s. (count (λ r. has_id s.task_id r && is_blocked r) db.tasks == 0) ≡ false)) e (
        All-map _ _ (successors ids db) (λ s h. h.0 (waits_blocked ids s h.1))
          (All-select _ (waits_for_any ids) db.tasks (counted db))) in
    omega (
      arith,
      one-fewer error t.task_id db,
      rows-fewer error (map id_of ts) (cancel_one error t.task_id db),
      nonzero _ found.0,
    )
  where
    nonzero : (n : ℕ) → (n == 0) ≡ false → 1 ≤ n
    nonzero n h = ground arith

-- What the levels from `ids` on reach.
abbrev Ends : List String → Db → Option (Db × ℕ) → Type 0
Ends ids db r =
    (db' : Db) × (n : ℕ) × (r ≡ some (db', n))
    × Each IsCancelling db.tasks db'.tasks
    × AllClear ids db'
    × ((y : String) → IsUnblocked y db' → IsUnblocked y db ⊎ IsClear y db')

member-IsClear :
    (ids : List String) (y : String) (db : Db)
    → AllClear ids db
    → any (λ i. same i y) ids ≡ true
    → IsClear y db
member-IsClear ids y db clear listed =
    All-map _ _ db.tasks (λ t h b. one ids t.after_task_id (h b) listed) clear
  where
    one :
        (is : List String) (o : Option String)
        → any (is_text o) is ≡ false
        → any (λ i. same i y) is ≡ true
        → is_text o y ≡ false
    one [] o h k = absurd (cc k)
    one (i ∷ is) o h k = elim (Bool-cases (same i y)) [
      | inl e ↦ subst (λ z. is_text o z ≡ false) ((eq_iff i y).0 e) (first _ _ h)
      | inr e ↦ one is o (second _ _ h) (rw e at k)
    ]
      where
        first : (a b : Bool) → (a || b) ≡ false → a ≡ false
        first a b p = ground arith

        second : (a b : Bool) → (a || b) ≡ false → b ≡ false
        second a b p = ground arith

-- Once the successors of the ids are unblocked, no blocked task waits for one of the ids.
level-clear :
    (ids : List String) (db db' : Db)
    → Each IsCancelling db.tasks db'.tasks
    → All (λ t. IsUnblocked t.task_id db') (successors ids db)
    → AllClear ids db'
level-clear ids db db' c off =
    All-map _ _ db'.tasks (λ t h b. one t b (h.0 b) (h.1 b))
      (All-× _ _ db'.tasks
        (keep_by IsCancelling still (λ t. waits_for_any ids t ≡ true → IsUnblocked t.task_id db') db
          db' c
          (All-map _ _ db.tasks (λ t h b. h)
            (All-of_select (λ t. IsUnblocked t.task_id db') (waits_for_any ids) db.tasks off)))
        (All-map (λ t. IsUnblocked t.task_id db' → is_blocked t ≡ true → has_id t.task_id t ≡ false)
          (λ t. is_blocked t ≡ true → IsUnblocked t.task_id db' → ⊥) db'.tasks
          (λ t h b u. self t (h u) b)
          (All-diag (λ t s. is_blocked s ≡ true → has_id t.task_id s ≡ false) db'.tasks)))
  where
    self : (t : Task) → (is_blocked t ≡ true → has_id t.task_id t ≡ false) → is_blocked t ≡ true → ⊥
    self t h b = cc (h b, eq_refl t.task_id)

    one :
        (t : Task)
        → is_blocked t ≡ true
        → (waits_for_any ids t ≡ true → IsUnblocked t.task_id db')
        → (IsUnblocked t.task_id db' → ⊥)
        → any (is_text t.after_task_id) ids ≡ false
    one t b h k = elim (Bool-cases (any (is_text t.after_task_id) ids)) [
      | inr e ↦ e
      | inl e ↦ absurd (k (h (rw (e, b) refl)))
    ]

-- A level and the levels behind it.
level-Ends :
    (error : String) (ids : List String) (db : Db) (r : Option (Db × ℕ))
    → Ends (map id_of (successors ids db)) (cancel_rows error (map id_of (successors ids db)) db) r
    → Ends ids db r
level-Ends error ids db r (db', n, e, c, clear, closed) =
    let next = map id_of (successors ids db) in
    let db1 = cancel_rows error next db in
    let once = rows-IsCancelling error next db in
    let all_of = Each-trans IsCancelling IsCancelling-trans db.tasks db1.tasks db'.tasks once c in
    (
      db',
      n,
      e,
      all_of,
      keep_by IsCancelling still (λ t. any (is_text t.after_task_id) ids ≡ false) db1 db' c
          (level-clear ids db db1 once
            (All-map_of (λ i. IsUnblocked i db1) (successors ids db) (rows_self error next db))),
      λ y u. go y (Bool-cases (any (λ i. same i y) next)) (closed y u),
    )
  where
    go :
        (y : String)
        → (any (λ i. same i y) (map id_of (successors ids db)) ≡ true)
          ⊎ (any (λ i. same i y) (map id_of (successors ids db)) ≡ false)
        → IsUnblocked y (cancel_rows error (map id_of (successors ids db)) db) ⊎ IsClear y db'
        → IsUnblocked y db ⊎ IsClear y db'
    go y _ (inr cl) = inr cl
    go y (inl m) (inl u) = inr (member-IsClear (map id_of (successors ids db)) y db' clear m)
    go y (inr m) (inl u) = inl (rows_other error (map id_of (successors ids db)) y db m u)

none_left :
    (fuel : ℕ) (error : String) (total : ℕ) (db : Db)
    → Ends [] db (cancel_levels fuel error [] total db)
unfolding cancel_levels
none_left fuel error total db = (
  db,
  total,
  refl,
  Each-refl IsCancelling (λ t. inl refl) db.tasks,
  All-of _ db.tasks (λ t b. refl),
  λ y u. inl u,
)

-- The rows of the next level, with the levels behind it by the recursive call.
next_level :
    (fuel : ℕ)
    → ((error : String) (ids : List String) (total : ℕ) (db : Db)
        → blocked_count db < fuel
        → Ends ids db (cancel_levels fuel error ids total db))
    → (error : String) (ids : List String) (total : ℕ) (db : Db) → blocked_count db ≤ fuel
    → (ts : List Task) → successors ids db ≡ ts
    → Ends (map id_of ts) (cancel_rows error (map id_of ts) db) (
        cancel_levels fuel error
          (map id_of ts)
          (total + length (map id_of ts))
          (cancel_rows error (map id_of ts) db))
next_level fuel further error ids total db h [] e =
    none_left fuel error (total + 0) (cancel_rows error [] db)
next_level fuel further error ids total db h (t ∷ ts) e =
    further error (map id_of (t ∷ ts)) (total + length (map id_of (t ∷ ts)))
      (cancel_rows error (map id_of (t ∷ ts)) db) (omega (arith, level-fewer error ids t ts db e))

levels-Ends :
    (fuel : ℕ) (error : String) (ids : List String) (total : ℕ) (db : Db)
    → blocked_count db < fuel
    → Ends ids db (cancel_levels fuel error ids total db)
unfolding cancel_levels
levels-Ends fuel error [] total db h = none_left fuel error total db
levels-Ends zero error (i ∷ ids) total db h = absurd (omega arith)
levels-Ends (suc fuel) error (i ∷ ids) total db h = level-Ends error (i ∷ ids) db _ (
    next_level fuel (levels-Ends fuel) error (i ∷ ids) total db (omega arith)
      (successors (i ∷ ids) db) refl)

-- With more fuel than there are blocked tasks the cancellation ends, also where tasks wait for one
-- another in a cycle. Every row stays as it was or is cancelled, with its id and its predecessor; no
-- blocked task waits for the task, nor for an id that had a blocked task and has none now.
pub cancel_chain_downstream-ends :
    (fuel : ℕ) (x reason : String) (db : Db)
    → blocked_count db < fuel
    → (db' : Db) × (n : ℕ) × (cancel_chain_downstream fuel x reason db ≡ some (db', n))
      × Each IsCancelling db.tasks db'.tasks
      × IsClear x db'
      × ((y : String) → IsUnblocked y db' → IsUnblocked y db ⊎ IsClear y db')
unfolding cancel_chain_downstream
cancel_chain_downstream-ends fuel x reason db enough =
    let (db', n, e, c, clear, closed) =
      levels-Ends fuel (if same reason "" then "Cancelled (predecessor cancelled)" else reason)
        (x ∷ []) 0 db enough in
    (
      db',
      n,
      e,
      c,
      All-map _ (λ t. is_blocked t ≡ true → is_text t.after_task_id x ≡ false) db'.tasks
          (λ t h b. only _ (h b)) clear,
      closed,
    )
  where
    only : (a : Bool) → (a || false) ≡ false → a ≡ false
    only a h = ground arith
