-- ===== src/Scheduler/Delivery.antt =====
-- A one-shot schedule that is due is emitted, whatever the tools do in between.
use yodoca.Base.{
  ℕ, suc, ◌*◌, ◌≤◌, ◌<◌, ◌≡◌, refl, ◌∙◌, ◌⊎◌, inl, inr, Bool, true, false, ◌&&◌, Option, none, some,
  List, [], ◌∷◌, ◌==◌, count, length, select, Bool-cases, arith,
}
use yodoca.Base.Sort.{count-sort}
use yodoca.Scheduler.{
  one_shot, OneShot, Recurring, Scheduler, has_id, is_due, fires_before, fetch_due_one_shot,
  mark_one_shot_fired,
}
use yodoca.Scheduler.Recurrence.{Cron, recover_recurring, advance_next}
use yodoca.Scheduler.Rounds.{
  Stage, starting, sleeping, crashed, emitting, marking, emitting_recurring, advancing, Machine,
  Action, proceeds, calls, restarts, emit, started, advanced, serve, proceed, act, run,
}
use yodoca.Scheduler.Serving.{
  emissions, emissions-emit, emissions-emit_recurring, bit, IsSame-recurrings, serve-IsServed,
  IsServed,
}
use yodoca.Scheduler.Emissions.{is_restart}
use yodoca.Scheduler.Changing.{KeepsRest, recover_recurring-KeepsRest, advance_next-KeepsRest}

abbrev pub is_step : Action → Bool
is_step (proceeds t) = true
is_step action = false

-- The schedule is among the rows that are left, and `n` steps are enough to come to it.
IsComing : ℕ → ℕ → Stage → Type 0
IsComing i n (emitting b now rs) = (0 < count (has_id i) rs) × (2 * length rs ≤ n)
IsComing i n (marking b now r rs) = (0 < count (has_id i) rs) × (suc (2 * length rs) ≤ n)
IsComing i n stage = 1 ≤ 0

-- Where `e` emissions were, there is one more, or it is coming.
abbrev IsOnTheWay : ℕ → ℕ → ℕ → Stage → Scheduler → Type 0
IsOnTheWay e i n stage s = (e < emissions i s) ⊎ ((e ≤ emissions i s) × IsComing i n stage)

-- The row has the key and is due.
abbrev pub is_due_id : ℕ → ℕ → OneShot → Bool
is_due_id t i r = is_due t r && has_id i r

not_coming : (i : ℕ) (stage : Stage) → IsComing i 0 stage → 1 ≤ 0
unfolding IsComing
not_coming i (emitting b now []) c = omega (arith, c.0)
not_coming i (emitting b now (r ∷ rs)) c = omega (arith, c.1)
not_coming i (marking b now r rs) c = omega (arith, c.1)
not_coming i starting c = c
not_coming i sleeping c = c
not_coming i crashed c = c
not_coming i (emitting_recurring now rs) c = c
not_coming i (advancing now r rs) c = c

count-fetch_due_one_shot :
    (i t : ℕ) (s : Scheduler)
    → count (has_id i) (fetch_due_one_shot t s) ≡ count (is_due_id t i) s.one_shots
unfolding fetch_due_one_shot
count-fetch_due_one_shot i t s =
    count-sort fires_before (has_id i) (select (is_due t) s.one_shots) ∙ go s.one_shots
  where
    go : (rs : List OneShot) → count (has_id i) (select (is_due t) rs) ≡ count (is_due_id t i) rs
    go [] = refl
    go (r ∷ rs) = ground (arith, go rs)

emissions-serve : (i : ℕ) (s s' : Scheduler) → IsServed i s s' → emissions i s' ≡ emissions i s
emissions-serve i s s' (inl k) = k.0
emissions-serve i s s' (inr a) = a.0

kept_emissions :
    (i : ℕ) (s : Scheduler) (o : Option Scheduler)
    → KeepsRest s o
    → (t : ℕ) (rs : List Recurring)
    → (emissions i s ≤ emissions i (started t o s).store)
      × (emissions i s ≤ emissions i (advanced t rs o s).store)
unfolding started advanced KeepsRest
kept_emissions i s none k t rs = (omega arith, omega arith)
kept_emissions i s (some s') k t rs =
    let same = (IsSame-recurrings i s s' k).0 in (omega (arith, same), omega (arith, same))

module _ (cron : Cron) where
  emissions-proceed :
      (i t : ℕ) (stage : Stage) (s : Scheduler)
      → emissions i s ≤ emissions i (proceed cron t stage s).store
  unfolding proceed mark_one_shot_fired
  emissions-proceed i t starting s =
      (kept_emissions i s (recover_recurring cron t s) (recover_recurring-KeepsRest cron t s) t
        []).0
  emissions-proceed i t sleeping s = omega arith
  emissions-proceed i t crashed s = omega arith
  emissions-proceed i t (emitting true now []) s = omega arith
  emissions-proceed i t (emitting false now []) s = omega arith
  emissions-proceed i t (emitting true now (r ∷ rs)) s =
      omega (arith, emissions-emit i r.topic r.payload r.id s)
  emissions-proceed i t (emitting false now (r ∷ rs)) s =
      omega (arith, emissions-emit i r.topic r.payload r.id s)
  emissions-proceed i t (marking b now r rs) s = omega arith
  emissions-proceed i t (emitting_recurring now []) s = omega arith
  emissions-proceed i t (emitting_recurring now (r ∷ rs)) s =
      omega (arith, emissions-emit_recurring i r.topic r.payload r.id s)
  emissions-proceed i t (advancing now r rs) s =
      (kept_emissions i s (advance_next cron r.id now s) (advance_next-KeepsRest cron r.id now s)
        now rs).1

  emit-IsOnTheWay :
      (e i n now : ℕ) (b : Bool) (r : OneShot) (rs : List OneShot) (s : Scheduler)
      → e ≤ emissions i s
      → IsComing i (suc n) (emitting b now (r ∷ rs))
      → IsOnTheWay e i n (marking b now r rs) (emit r.topic r.payload r.id one_shot s)
  unfolding IsComing
  emit-IsOnTheWay e i n now b r rs s le c = elim (Bool-cases (r.id == i)) [
    | inl h ↦
        let one : bit (r.id == i) ≡ 1 = rw h refl in
        inl (omega (arith, one, le, emissions-emit i r.topic r.payload r.id s))
    | inr h ↦
        let same : count (has_id i) (r ∷ rs) ≡ count (has_id i) rs = rw h refl in
        inr (
          (
            omega (arith, le, emissions-emit i r.topic r.payload r.id s),
            (omega (arith, same, c.0), omega (arith, c.1)),
          ))
  ]

  proceed-IsOnTheWay :
      (e i n t : ℕ) (stage : Stage) (s : Scheduler)
      → e ≤ emissions i s
      → IsComing i (suc n) stage
      → IsOnTheWay e i n (proceed cron t stage s).stage (proceed cron t stage s).store
  unfolding proceed mark_one_shot_fired IsComing
  proceed-IsOnTheWay e i n t (emitting true now []) s le c = absurd (omega (arith, c.0))
  proceed-IsOnTheWay e i n t (emitting false now []) s le c = absurd (omega (arith, c.0))
  proceed-IsOnTheWay e i n t (emitting true now (r ∷ rs)) s le c =
      emit-IsOnTheWay e i n now true r rs s le c
  proceed-IsOnTheWay e i n t (emitting false now (r ∷ rs)) s le c =
      emit-IsOnTheWay e i n now false r rs s le c
  proceed-IsOnTheWay e i n t (marking b now r rs) s le c = inr ((le, (c.0, omega (arith, c.1))))
  proceed-IsOnTheWay e i n t stage s le c = absurd (omega (arith, c))

  run-IsOnTheWay :
      (e i : ℕ) (actions : List Action) (m : Machine)
      → count is_restart actions ≡ 0
      → IsOnTheWay e i (count is_step actions) m.stage m.store
      → e < emissions i (run cron actions m).store
  unfolding run act
  run-IsOnTheWay e i [] m z (inl h) = h
  run-IsOnTheWay e i [] m z (inr h) = absurd (omega (arith, not_coming i m.stage h.1))
  run-IsOnTheWay e i (proceeds t ∷ rest) m z (inl h) =
      run-IsOnTheWay e i rest (proceed cron t m.stage m.store) z
        (inl (omega (arith, h, emissions-proceed i t m.stage m.store)))
  run-IsOnTheWay e i (proceeds t ∷ rest) m z (inr h) =
      run-IsOnTheWay e i rest (proceed cron t m.stage m.store) z
        (proceed-IsOnTheWay e i (count is_step rest) t m.stage m.store h.0 h.1)
  run-IsOnTheWay e i (calls c ∷ rest) m z (inl h) =
      run-IsOnTheWay e i rest (record m { store = serve cron c m.store }) z
        (inl (
          omega (
            arith,
            h,
            emissions-serve i m.store (serve cron c m.store) (serve-IsServed cron i c m.store),
          )))
  run-IsOnTheWay e i (calls c ∷ rest) m z (inr h) =
      run-IsOnTheWay e i rest (record m { store = serve cron c m.store }) z
        (inr (
          (
            omega (
              arith,
              h.0,
              emissions-serve i m.store (serve cron c m.store) (serve-IsServed cron i c m.store),
            ),
            h.1,
          )))
  run-IsOnTheWay e i (restarts ∷ rest) m z h = absurd (omega (arith, z))

  -- From the sleep of the loop on, a one-shot schedule that is due is emitted within two steps for
  -- each schedule that is due, whatever the tools do in between.
  pub run-delivers :
      (i t : ℕ) (s : Scheduler) (actions : List Action)
      → 0 < count (is_due_id t i) s.one_shots
      → count is_restart actions ≡ 0
      → 2 * length (fetch_due_one_shot t s) ≤ count is_step actions
      → emissions i s
        < emissions i
            (run cron (proceeds t ∷ actions) (record { stage = sleeping; store = s })).store
  unfolding run act proceed IsComing
  run-delivers i t s actions due z enough =
      run-IsOnTheWay (emissions i s) i actions
        (record { stage = emitting false t (fetch_due_one_shot t s); store = s }) z
        (inr ((omega arith, (omega (arith, due, count-fetch_due_one_shot i t s), enough))))
