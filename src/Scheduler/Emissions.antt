-- ===== src/Scheduler/Emissions.antt =====
-- How often a one-shot schedule is emitted, however the calls of the tools and the restarts fall.
use yodoca.Base.{
  ℕ, suc, ◌+◌, ◌≤◌, ◌≡◌, refl, inl, inr, Bool, true, false, Option, none, some, update, List, [],
  ◌∷◌, ◌==◌, count, select, count-update, count-update_le, arith, Bool-cases, ==→eq, ◌∙◌,
}
use yodoca.Base.Sort.{count-sort}
use yodoca.Scheduler.{
  set_fired, Recurring, recurring, fetch_due_recurring, OneShot, Scheduler, has_id, is_scheduled,
  is_due, fires_before, fetch_due_one_shot, mark_one_shot_fired, one_shot,
}
use yodoca.Scheduler.Rounds.{
  Stage, starting, sleeping, crashed, emitting, marking, emitting_recurring, advancing, Machine,
  Action, proceeds, calls, restarts, proceed, act, run, emit, serve, new_machine, started, advanced,
}
use yodoca.Scheduler.Recurrence.{Cron, recover_recurring, advance_next}
use yodoca.Scheduler.Serving.{
  emissions, emissions-emit, emissions-emit_recurring, IsSame-recurrings, rows_of, scheduled_rows,
  bit, IsServed, serve-IsServed, scheduled_rows-le, IsSame, IsSame-IsKept,
}
use yodoca.Scheduler.Changing.{KeepsRest, recover_recurring-KeepsRest, advance_next-KeepsRest}

-- How many of the rows that were fetched are left to be emitted.
abbrev pub queued : ℕ → Stage → ℕ
queued i (emitting b now rs) = count (has_id i) rs
queued i (marking b now r rs) = count (has_id i) rs
queued i stage = 0

abbrev pub is_marking : ℕ → Stage → Bool
is_marking i (marking b now r rs) = r.id == i
is_marking i stage = false

-- The process is started anew.
abbrev pub is_restart : Action → Bool
is_restart restarts = true
is_restart action = false

-- The table has one row for a key, and none for a key that is to come; and what was emitted, and
-- what still can be, is within the bound.
abbrev IsWithin : (bound : ℕ) → (i : ℕ) → Stage → Scheduler → Type 0
IsWithin bound i stage s =
    (rows_of i s ≤ 1)
    × (s.next_one_shot ≤ i → (rows_of i s ≡ 0) × (emissions i s ≡ 0) × (queued i stage ≡ 0))
    × (emissions i s + queued i stage ≤ bound)
    × (is_marking i stage ≡ false → emissions i s + scheduled_rows i s ≤ bound)

serve-IsWithin :
    (bound i : ℕ) (stage : Stage) (s s' : Scheduler)
    → 1 ≤ bound
    → IsServed i s s'
    → IsWithin bound i stage s
    → IsWithin bound i stage s'
serve-IsWithin bound i stage s s' b (inl k) h = (
  omega (arith, k.2, h.0),
  (λ n. let (r, e, q) = h.1 (omega (arith, k.1, n)) in (k.2 ∙ r, k.0 ∙ e, q)),
  omega (arith, k.0, h.2),
  (λ m. omega (arith, k.0, k.3, h.3 m)),
)
serve-IsWithin bound i stage s s' b (inr a) h = elim (Bool-cases (s.next_one_shot == i)) [
  | inr f ↦
      let same : bit (s.next_one_shot == i) ≡ 0 = rw f refl in
      (
        omega (arith, same, a.2, h.0),
        (λ n.
            let (r, e, q) = h.1 (omega (arith, a.1, n)) in
            (omega (arith, same, a.2, r), a.0 ∙ e, q)),
        omega (arith, a.0, h.2),
        (λ m. omega (arith, same, a.0, a.3, h.3 m)),
      )
  | inl t ↦
      let one : bit (s.next_one_shot == i) ≡ 1 = rw t refl in
      let key : s.next_one_shot ≡ i = ==→eq s.next_one_shot i t in
      let (r, e, q) = h.1 (omega (arith, key)) in
      (
        omega (arith, one, a.2, r),
        (λ n. absurd (omega (arith, a.1, key, n))),
        omega (arith, a.0, h.2),
        (λ m. omega (arith, one, a.0, a.3, e, r, scheduled_rows-le i s, b)),
      )
]

-- The rows that a pass fetches are scheduled.
fetch_due_one_shot-le :
    (i t : ℕ) (s : Scheduler) → count (has_id i) (fetch_due_one_shot t s) ≤ scheduled_rows i s
unfolding fetch_due_one_shot
fetch_due_one_shot-le i t s =
    rw (count-sort fires_before (has_id i) (select (is_due t) s.one_shots)) (go s.one_shots)
  where
    go : (rs : List OneShot) → count (has_id i) (select (is_due t) rs) ≤ count (is_scheduled i) rs
    go [] = omega arith
    go (r ∷ rs) = ground (arith, go rs)

fetch-IsWithin :
    (bound i t : ℕ) (b : Bool) (stage : Stage) (s : Scheduler)
    → is_marking i stage ≡ false
    → IsWithin bound i stage s
    → IsWithin bound i (emitting b t (fetch_due_one_shot t s)) s
fetch-IsWithin bound i t b stage s m h = (
  h.0,
  (λ n.
      let (r, e, q) = h.1 n in
      (r, e, omega (arith, fetch_due_one_shot-le i t s, scheduled_rows-le i s, r))),
  omega (arith, fetch_due_one_shot-le i t s, h.3 m),
  (λ _. h.3 m),
)

-- A stage in which no one-shot schedule is at hand.
rest-IsWithin :
    (bound i : ℕ) (stage stage' : Stage) (s s' : Scheduler)
    → is_marking i stage ≡ false
    → queued i stage' ≡ 0
    → IsSame i s s'
    → IsWithin bound i stage s
    → IsWithin bound i stage' s'
rest-IsWithin bound i stage stage' s s' m q k h =
    let same = IsSame-IsKept i s s' k in
    (
      omega (arith, same.2, h.0),
      (λ n. let (r, e, _) = h.1 (omega (arith, k.1, n)) in (same.2 ∙ r, k.0 ∙ e, q)),
      omega (arith, k.0, q, h.2),
      (λ _. omega (arith, k.0, same.3, h.3 m)),
    )

emit-IsWithin :
    (bound i now : ℕ) (b : Bool) (r : OneShot) (rs : List OneShot) (s : Scheduler)
    → IsWithin bound i (emitting b now (r ∷ rs)) s
    → IsWithin bound i (marking b now r rs) (emit r.topic r.payload r.id one_shot s)
emit-IsWithin bound i now b r rs s h =
    let e = emissions-emit i r.topic r.payload r.id s in
    let q = head_count r rs in
    (
      unfold emit in h.0,
      (λ n.
          let (r', e', q') = h.1 (unfold emit in n) in
          (unfold emit in r', omega (arith, e, e', q, q'), omega (arith, q, q'))),
      omega (arith, e, q, h.2),
      (λ m.
          let zero : bit (r.id == i) ≡ 0 = rw m refl in
          omega (arith, zero, e, same_rows r s, h.3 refl)),
    )
  where
    same_rows :
        (x : OneShot) (z : Scheduler)
        → scheduled_rows i (emit x.topic x.payload x.id one_shot z) ≡ scheduled_rows i z
    same_rows x z = unfold emit in refl

    head_count :
        (x : OneShot) (xs : List OneShot)
        → count (has_id i) (x ∷ xs) ≡ bit (x.id == i) + count (has_id i) xs
    head_count x xs = ground arith

mark-IsWithin :
    (bound i now : ℕ) (b : Bool) (r : OneShot) (rs : List OneShot) (s : Scheduler)
    → IsWithin bound i (marking b now r rs) s
    → IsWithin bound i (emitting b now rs) (mark_one_shot_fired r.id s)
unfolding mark_one_shot_fired
mark-IsWithin bound i now b r rs s h =
    let same = count-update (has_id r.id) (has_id i) set_fired s.one_shots (λ x. refl) in
    let less =
      count-update_le (has_id r.id) (is_scheduled i) set_fired s.one_shots
        (λ x e. absurd (ground arith)) in
    (
      omega (arith, same, h.0),
      (λ n. let (r', e', q') = h.1 n in (same ∙ r', e', q')),
      h.2,
      (λ _. elim (Bool-cases (r.id == i)) [
        | inr m ↦ omega (arith, less, h.3 m)
        | inl m ↦ omega (arith, h.2, none_left m s.one_shots)
      ]),
    )
  where
    none_left :
        r.id == i ≡ true
        → (xs : List OneShot) → count (is_scheduled i) (update (has_id r.id) set_fired xs) ≡ 0
    none_left m [] = refl
    none_left m (x ∷ xs) = ground (arith, none_left m xs)

restart-IsWithin :
    (bound i : ℕ) (stage : Stage) (s : Scheduler)
    → IsWithin bound i stage s
    → IsWithin (suc bound) i starting s
restart-IsWithin bound i stage s h = (
  h.0,
  (λ n. let (r, e, q) = h.1 n in (r, e, refl)),
  omega (arith, h.2),
  (λ _. omega (arith, h.0, h.2, scheduled_rows-le i s)),
)

started-IsWithin :
    (bound i t : ℕ) (s : Scheduler) (o : Option Scheduler)
    → KeepsRest s o
    → IsWithin bound i starting s
    → IsWithin bound i (started t o s).stage (started t o s).store
unfolding started KeepsRest
started-IsWithin bound i t s none k h =
    rest-IsWithin bound i starting crashed s s refl refl (refl, refl, refl) h
started-IsWithin bound i t s (some s') k h =
    fetch-IsWithin bound i t true starting s' refl
      (rest-IsWithin bound i starting starting s s' refl refl (IsSame-recurrings i s s' k) h)

advanced-IsWithin :
    (bound i now : ℕ) (r : Recurring) (rs : List Recurring) (s : Scheduler) (o : Option Scheduler)
    → KeepsRest s o
    → IsWithin bound i (advancing now r rs) s
    → IsWithin bound i (advanced now rs o s).stage (advanced now rs o s).store
unfolding advanced KeepsRest
advanced-IsWithin bound i now r rs s none k h =
    rest-IsWithin bound i (advancing now r rs) crashed s s refl refl (refl, refl, refl) h
advanced-IsWithin bound i now r rs s (some s') k h =
    rest-IsWithin bound i (advancing now r rs) (emitting_recurring now rs) s s' refl refl
      (IsSame-recurrings i s s' k) h

emit_recurring-IsSame :
    (i : ℕ) (r : Recurring) (s : Scheduler) → IsSame i s (emit r.topic r.payload r.id recurring s)
emit_recurring-IsSame i r s =
    (emissions-emit_recurring i r.topic r.payload r.id s, unfold emit in refl, unfold emit in refl)

module _ (cron : Cron) where
  proceed-IsWithin :
      (bound i t : ℕ) (stage : Stage) (s : Scheduler)
      → IsWithin bound i stage s
      → IsWithin bound i (proceed cron t stage s).stage (proceed cron t stage s).store
  unfolding proceed
  proceed-IsWithin bound i t starting s h =
      started-IsWithin bound i t s (recover_recurring cron t s)
        (recover_recurring-KeepsRest cron t s) h
  proceed-IsWithin bound i t sleeping s h = fetch-IsWithin bound i t false sleeping s refl h
  proceed-IsWithin bound i t crashed s h = h
  proceed-IsWithin bound i t (emitting true now []) s h =
      rest-IsWithin bound i (emitting true now []) sleeping s s refl refl (refl, refl, refl) h
  proceed-IsWithin bound i t (emitting false now []) s h =
      rest-IsWithin bound i (emitting false now [])
        (emitting_recurring now (fetch_due_recurring now s)) s s refl refl (refl, refl, refl) h
  proceed-IsWithin bound i t (emitting true now (r ∷ rs)) s h =
      emit-IsWithin bound i now true r rs s h
  proceed-IsWithin bound i t (emitting false now (r ∷ rs)) s h =
      emit-IsWithin bound i now false r rs s h
  proceed-IsWithin bound i t (marking b now r rs) s h = mark-IsWithin bound i now b r rs s h
  proceed-IsWithin bound i t (emitting_recurring now []) s h =
      rest-IsWithin bound i (emitting_recurring now []) sleeping s s refl refl (refl, refl, refl) h
  proceed-IsWithin bound i t (emitting_recurring now (r ∷ rs)) s h =
      rest-IsWithin bound i (emitting_recurring now (r ∷ rs)) (advancing now r rs) s
        (emit r.topic r.payload r.id recurring s) refl refl (emit_recurring-IsSame i r s) h
  proceed-IsWithin bound i t (advancing now r rs) s h =
      advanced-IsWithin bound i now r rs s (advance_next cron r.id now s)
        (advance_next-KeepsRest cron r.id now s) h

  run-IsWithin :
      (bound i : ℕ) (actions : List Action) (m : Machine)
      → 1 ≤ bound
      → IsWithin bound i m.stage m.store
      → emissions i (run cron actions m).store ≤ count is_restart actions + bound
  unfolding run act
  run-IsWithin bound i [] m b h = omega (arith, h.2)
  run-IsWithin bound i (proceeds t ∷ rest) m b h =
      run-IsWithin bound i rest (proceed cron t m.stage m.store) b
        (proceed-IsWithin bound i t m.stage m.store h)
  run-IsWithin bound i (calls c ∷ rest) m b h =
      run-IsWithin bound i rest (record m { store = serve cron c m.store }) b
        (serve-IsWithin bound i m.stage m.store (serve cron c m.store) b
          (serve-IsServed cron i c m.store) h)
  run-IsWithin bound i (restarts ∷ rest) m b h = omega (
    arith,
    run-IsWithin (suc bound) i rest (record m { stage = starting }) (omega arith)
        (restart-IsWithin bound i m.stage m.store h),
  )

  -- However the calls of the tools and the restarts fall between the steps of the extension, no
  -- one-shot schedule is emitted more often than once and once for each restart.
  pub run-emissions :
      (i : ℕ) (actions : List Action)
      → emissions i (run cron actions new_machine).store ≤ suc (count is_restart actions)
  run-emissions i actions = omega (
    arith,
    run-IsWithin 1 i actions new_machine (omega arith)
        (omega arith, (λ n. (refl, refl, refl)), omega arith, (λ _. omega arith)),
  )
