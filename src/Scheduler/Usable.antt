-- ===== src/Scheduler/Usable.antt =====
-- The cron expressions in the table are such that croniter has accepted them once; where the start
-- or the loop ends by an exception, it raises on one of them later.
use yodoca.Base.{
  ◌⊎◌, or_old, ℕ, ◌≡◌, refl, inl, inr, String, Bool, true, ◌||◌, Option, none, some, List, [], ◌∷◌,
  All, All-update, All-map, All-select, find, All-find, select, is_empty, is_some, Bool-cases,
  if_both,
}
use yodoca.Scheduler.{
  Status, Recurring, Scheduler, is_over, cancelled, is_status, has_recurring_id, set_cancelled,
  set_next,
}
use yodoca.Scheduler.Recurrence.{
  Cron, or_else, set_changes, set_status, clamp, update_schedule, write_next, write_changes,
  is_missed, next_of, compute_next_fire, advance_row, advance_found, advance_next, recover_rows,
  recover_recurring, update_row, update_found, update_recurring,
}

-- `Known e t`: a tool has been given the expression at that time. `Passed t`: a step was at that time.
module _ (cron : Cron) (Known : String → ℕ → Bool) (Passed : ℕ → Bool) where
  -- croniter has given a time for the expression when a tool was given it.
  abbrev pub IsAccepted : String → ℕ → Type 0
  IsAccepted e t = (Known e t ≡ true) × (is_some (cron.next_time e t) ≡ true)

  -- croniter does not come to see the expression, or it has accepted it once.
  abbrev pub Usable : Option String → Type 0
  Usable none = Unit
  Usable (some e) = (is_empty e ≡ true) ⊎ ((t : ℕ) × IsAccepted e t)

  abbrev pub IsUsable : Recurring → Type 0
  IsUsable r = Usable r.cron_expr

  -- Every recurring schedule has such an expression.
  abbrev pub AllUsable : Scheduler → Type 0
  AllUsable s = All IsUsable s.recurrings

  -- Why an exception comes: an expression that was accepted at one time, and on which croniter raises
  -- at the time of a step.
  abbrev pub HasExpired : Type 0
  HasExpired =
      (e : String) × (t : ℕ) × (now : ℕ) × IsAccepted e t
      × ((Passed now ≡ true) × (cron.next_time e now ≡ none))

  -- A result keeps the expressions usable, and an exception has its cause.
  unfoldable pub Succeeds : Option Scheduler → Type 0
  Succeeds none = HasExpired
  Succeeds (some s) = AllUsable s

  compute_next_fire-HasExpired :
      (e : Option String) (every : Option ℕ) (now : ℕ)
      → Usable e
      → Passed now ≡ true
      → compute_next_fire cron e every now ≡ none
      → HasExpired
  unfolding compute_next_fire
  compute_next_fire-HasExpired none every now u k h = absurd (cc (h))
  compute_next_fire-HasExpired (some e) every now u k h = elim (Bool-cases (is_empty e)) [
    | inl q ↦ absurd (cc (rw q at h))
    | inr q ↦ elim u [ inl p ↦ absurd (cc (p, q)) | inr (t, a) ↦ (e, t, now, a, (k, rw q at h)) ]
  ]

  -- And where there is a next time, the expression is usable from then on.
  pub next_of-Usable :
      (e : String) (now t : ℕ) → Known e now ≡ true → next_of cron e now ≡ some t → Usable (some e)
  next_of-Usable e now t k h = inr ((now, (k, rw h refl)))

  compute_next_fire-Usable :
      (e old : Option String) (every : Option ℕ) (now t : ℕ)
      → ((x : String) → e ≡ some x → Known x now ≡ true)
      → compute_next_fire cron (or_else e old) every now ≡ some t
      → Usable e
  unfolding compute_next_fire
  compute_next_fire-Usable none old every now t k h = tt
  compute_next_fire-Usable (some e) old every now t k h = elim (Bool-cases (is_empty e)) [
    | inl q ↦ inl q
    | inr q ↦ next_of-Usable e now t (k e refl) (rw q at h)
  ]

  write_next-Succeeds :
      (i : ℕ) (t : Option ℕ) (s : Scheduler)
      → (t ≡ none → HasExpired)
      → AllUsable s
      → Succeeds (write_next i t s)
  unfolding write_next Succeeds
  write_next-Succeeds i none s h a = h refl
  write_next-Succeeds i (some t) s h a =
      All-update IsUsable IsUsable (has_recurring_id i) (set_next t) s.recurrings (λ r u _. u)
        (λ r u _. u) a

  cancelled-Succeeds :
      (i : ℕ) (s : Scheduler) → AllUsable s → Succeeds (some (update_schedule i set_cancelled s))
  unfolding Succeeds
  cancelled-Succeeds i s a =
      All-update IsUsable IsUsable (has_recurring_id i) set_cancelled s.recurrings (λ r u _. u)
        (λ r u _. u) a

  advance_row-Succeeds :
      (r : Recurring) (now : ℕ) (s : Scheduler)
      → IsUsable r
      → Passed now ≡ true
      → AllUsable s
      → Succeeds (advance_row cron r now s)
  unfolding advance_row
  advance_row-Succeeds r now s u k a =
      if_both Succeeds (is_over r.until_at now) (cancelled-Succeeds r.id s a) (
        write_next-Succeeds r.id (compute_next_fire cron r.cron_expr r.every_sec now) s
          (compute_next_fire-HasExpired r.cron_expr r.every_sec now u k) a)

  advance_found-Succeeds :
      (o : Option Recurring) (now : ℕ) (s : Scheduler)
      → ((r : Recurring) → o ≡ some r → IsUsable r)
      → Passed now ≡ true
      → AllUsable s
      → Succeeds (advance_found cron o now s)
  unfolding advance_found
  advance_found-Succeeds none now s u k a = unfold Succeeds in a
  advance_found-Succeeds (some r) now s u k a = advance_row-Succeeds r now s (u r refl) k a

  pub advance_next-Succeeds :
      (i now : ℕ) (s : Scheduler)
      → Passed now ≡ true
      → AllUsable s
      → Succeeds (advance_next cron i now s)
  unfolding advance_next
  advance_next-Succeeds i now s k a =
      advance_found-Succeeds (find (has_recurring_id i) s.recurrings) now s
        (λ r e. (All-find {0, 0} IsUsable (has_recurring_id i) s.recurrings r a e).0) k a

  pub result : (s : Scheduler) → Succeeds (some s) → AllUsable s
  unfolding Succeeds
  result s h = h

  recover_rows-Succeeds :
      (rs : List Recurring) (now : ℕ) (o : Option Scheduler)
      → All IsUsable rs
      → Passed now ≡ true
      → Succeeds o
      → Succeeds (recover_rows cron rs now o)
  unfolding recover_rows
  recover_rows-Succeeds rs now none u k h = h
  recover_rows-Succeeds [] now (some s) u k h = h
  recover_rows-Succeeds (r ∷ rs) now (some s) u k h =
      recover_rows-Succeeds rs now (advance_row cron r now s) u.1 k
        (advance_row-Succeeds r now s u.0 k (result s h))

  pub recover_recurring-Succeeds :
      (now : ℕ) (s : Scheduler)
      → Passed now ≡ true
      → AllUsable s
      → Succeeds (recover_recurring cron now s)
  unfolding recover_recurring
  recover_recurring-Succeeds now s k a =
      recover_rows-Succeeds (select (is_missed now) s.recurrings) now (some s)
        (All-map _ IsUsable (select (is_missed now) s.recurrings) (λ r h. h.0)
          (All-select IsUsable (is_missed now) s.recurrings a))
        k (unfold Succeeds in a)

  -- What `update_recurring` answers keeps the expressions usable.
  unfoldable pub Answers : Option (Option ℕ × Scheduler) → Type 0
  Answers none = Unit
  Answers (some (t, s)) = AllUsable s

  answer-Answers : (t : Option ℕ) (s : Scheduler) → AllUsable s → Answers (some (t, s))
  unfolding Answers
  answer-Answers t s a = a

  write_changes-Answers :
      (expr : Option String) (every : Option ℕ) (until : Option (Option ℕ)) (status : Option Status)
      (r : Recurring) (t : Option ℕ) (s : Scheduler)
      → ((u : ℕ) → t ≡ some u → Usable expr)
      → AllUsable s
      → Answers (write_changes expr every until status r t s)
  unfolding write_changes Answers
  write_changes-Answers expr every until status r none s u a = tt
  write_changes-Answers expr every until status r (some t) s u a =
      All-update IsUsable IsUsable (has_recurring_id r.id)
        (set_changes expr every until status (clamp (or_old until r.until_at) t)) s.recurrings
        (λ q k _. still expr q (u t refl) k) (λ q k _. k) a
    where
      still :
          (e : Option String) (q : Recurring)
          → Usable e
          → IsUsable q
          → Usable (or_else e q.cron_expr)
      still none q h k = k
      still (some e) q h k = h

  update_found-Answers :
      (expr : Option String) (every : Option ℕ) (until : Option (Option ℕ)) (status : Option Status)
      (now : ℕ) (r : Option Recurring) (s : Scheduler)
      → ((x : String) → expr ≡ some x → Known x now ≡ true)
      → AllUsable s
      → Answers (update_found cron expr every until status now r s)
  unfolding update_found update_row
  update_found-Answers expr every until status now none s k a = answer-Answers none s a
  update_found-Answers expr every until status now (some r) s k a =
      if_both Answers (is_status r.status cancelled) (answer-Answers none s a) (
        if_both Answers (is_some expr || is_some every || is_some until)
          (write_changes-Answers expr every until status r
            (compute_next_fire cron (or_else expr r.cron_expr) (or_else every r.every_sec) now) s
            (λ t e. compute_next_fire-Usable expr r.cron_expr (or_else every r.every_sec) now t k e)
            a)
          (if_both Answers (is_some status)
            (answer-Answers (some r.next_fire_at) (update_schedule r.id (set_status status) s) (
              All-update IsUsable IsUsable (has_recurring_id r.id) (set_status status) s.recurrings
                (λ q k _. k) (λ q k _. k) a))
            (answer-Answers (some r.next_fire_at) s a)))

  pub update_recurring-Answers :
      (i : ℕ) (expr : Option String) (every : Option ℕ) (until : Option (Option ℕ))
      (status : Option Status) (now : ℕ) (s : Scheduler)
      → ((x : String) → expr ≡ some x → Known x now ≡ true)
      → AllUsable s
      → Answers (update_recurring cron i expr every until status now s)
  unfolding update_recurring
  update_recurring-Answers i expr every until status now s k a =
      update_found-Answers expr every until status now (find (has_recurring_id i) s.recurrings) s k
        a
