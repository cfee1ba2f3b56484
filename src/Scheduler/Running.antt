-- ===== src/Scheduler/Running.antt =====
-- Why the start or the loop of the scheduler ends by an exception of croniter.
use yodoca.Base.{
  ◌==◌, is_text, is_some, eq_iff, arith, All, All-map, ℕ, ◌≡◌, refl, String, Bool, true, false,
  ◌&&◌, Option, none, some, List, [], ◌∷◌, All-append, All-update, any, is_nil, if_both, Bool-cases,
  inl, inr, strip,
}
use yodoca.Scheduler.{
  ScheduleType, one_shot, recurring, Payload, Recurring, Scheduler, has_recurring_id, is_scheduled,
  set_cancelled, on_cancel, cancel_one_shot, cancel_recurring, insert_recurring, insert_one_shot,
  mark_one_shot_fired,
}
use yodoca.Scheduler.Recurrence.{Cron, next_of, advance_next, recover_recurring, update_recurring}
use yodoca.Scheduler.Tools.{
  Result, Timed, at_time, refused, raised, Until, ends_at, no_until, has_cron, has_interval,
  equals_interval, stripped, first_time, none_if_zero, recurring_time, until_time, once_time,
  insert_once, insert_every, build_event_payload, is_given, report, schedule_once,
  schedule_recurring, cancel_schedule, update_recurring_schedule,
}
use yodoca.Scheduler.Rounds.{
  perform, Stage, starting, sleeping, crashed, emitting, marking, emitting_recurring, advancing,
  Machine, new_machine, Call, schedules_once, schedules_recurring, cancels, updates, Action,
  proceeds, calls, restarts, emit, started, advanced, serve, proceed, act, run,
}
use yodoca.Scheduler.Usable.{
  HasExpired, Usable, IsUsable, AllUsable, Succeeds, Answers, advance_next-Succeeds,
  recover_recurring-Succeeds, update_recurring-Answers, next_of-Usable,
}

abbrev pub is_crashed : Stage → Bool
is_crashed crashed = true
is_crashed stage = false

-- The call gives a tool the text of that expression at that time.
abbrev pub gives : Cron → String → ℕ → Action → Bool
gives cron e t
      (calls (schedules_recurring topic message channel_id extra expr every until_iso now)) =
    is_text (stripped cron expr) e && t == now
gives cron e t (calls (updates i expr every until_iso status now)) =
    is_text (stripped cron expr) e && t == now
gives cron e t action = false

-- A step at that time.
abbrev pub passes : ℕ → Action → Bool
passes t (proceeds u) = t == u
passes t action = false

module _ (cron : Cron) (Known : String → ℕ → Bool) (Passed : ℕ → Bool) where
  first_time-Usable :
      (e : Option String) (every : Option ℕ) (now t : ℕ)
      → ((x : String) → e ≡ some x → Known x now ≡ true)
      → first_time cron e every now ≡ at_time t
      → Usable cron Known Passed e
  first_time-Usable none every now t k h = tt
  first_time-Usable (some e) every now t k h = go (next_of cron e now) refl
    where
      go : (o : Option ℕ) → next_of cron e now ≡ o → Usable cron Known Passed (some e)
      go none q = absurd (cc (rw (q, first_time) at h))
      go (some u) q = next_of-Usable cron Known Passed e now u (k e refl) q

  recurring_time-Usable :
      (expr : Option String) (every : Option ℕ) (now t : ℕ)
      → ((x : String) → stripped cron expr ≡ some x → Known x now ≡ true)
      → recurring_time cron expr every now ≡ at_time t
      → Usable cron Known Passed (stripped cron expr)
  unfolding recurring_time
  recurring_time-Usable expr every now t k h =
      elim (Bool-cases
        (equals_interval (has_cron (strip cron.is_space) expr) (has_interval every))) [
          | inl q ↦ absurd (cc (rw q at h))
          | inr q ↦ first_time-Usable (stripped cron expr) every now t k (rw q at h)
        ]

  insert_every-AllUsable :
      (topic : String) (p : Payload) (expr : Option String) (every : Option ℕ) (t : Timed)
      (u : Until) (now : ℕ) (s : Scheduler)
      → ((v : ℕ) → t ≡ at_time v → Usable cron Known Passed expr)
      → AllUsable cron Known Passed s
      → AllUsable cron Known Passed (insert_every cron topic p expr every t u now s).1
  unfolding insert_every insert_recurring
  insert_every-AllUsable topic p expr every raised u now s h a = a
  insert_every-AllUsable topic p expr every (refused e) u now s h a = a
  insert_every-AllUsable topic p expr every (at_time t) (no_until e) now s h a = a
  insert_every-AllUsable topic p expr every (at_time t) (ends_at u) now s h a =
      All-append (IsUsable cron Known Passed) s.recurrings (_ ∷ []) a (h t refl, tt)

  insert_once-AllUsable :
      (topic : String) (p : Payload) (t : Timed) (now : ℕ) (s : Scheduler)
      → AllUsable cron Known Passed s
      → AllUsable cron Known Passed (insert_once topic p t now s).1
  unfolding insert_once insert_one_shot
  insert_once-AllUsable topic p raised now s a = a
  insert_once-AllUsable topic p (refused e) now s a = a
  insert_once-AllUsable topic p (at_time t) now s a = a

  cancel_schedule-AllUsable :
      (i : ℕ) (type : ScheduleType) (s : Scheduler)
      → AllUsable cron Known Passed s
      → AllUsable cron Known Passed (cancel_schedule i type s).1
  unfolding cancel_schedule cancel_one_shot cancel_recurring on_cancel
  cancel_schedule-AllUsable i one_shot s a = elim (Bool-cases (any (is_scheduled i) s.one_shots)) [
    | inl e ↦ rw e a
    | inr e ↦ rw e a
  ]
  cancel_schedule-AllUsable i recurring s a =
      if_both (AllUsable cron Known Passed) (any (has_recurring_id i) s.recurrings)
        (All-update (IsUsable cron Known Passed) (IsUsable cron Known Passed) (has_recurring_id i)
          set_cancelled s.recurrings (λ r u _. u) (λ r u _. u) a)
        a

  report-AllUsable :
      (i : ℕ) (o : Option (Option ℕ × Scheduler)) (s : Scheduler)
      → Answers cron Known Passed o
      → AllUsable cron Known Passed s
      → AllUsable cron Known Passed (report cron i o s).1
  unfolding report Answers
  report-AllUsable i none s h a = a
  report-AllUsable i (some (none, s')) s h a = h
  report-AllUsable i (some (some t, s')) s h a = h

  -- What the call gives to a tool is known, and so is the time of the step.
  abbrev IsKnown : Action → Type 0
  IsKnown action =
      ((e : String) (t : ℕ) → gives cron e t action ≡ true → Known e t ≡ true)
      × ((t : ℕ) → passes t action ≡ true → Passed t ≡ true)

  is_given_now :
      (o : Option String) (x : String) (now : ℕ) → o ≡ some x → (is_text o x && now == now) ≡ true
  is_given_now none x now h = absurd (cc (h))
  is_given_now (some y) x now h =
      let same_text : y ≡ x = cc h in ground (arith, same_text, eq_iff y x)

  serve-AllUsable :
      (c : Call) (s : Scheduler)
      → IsKnown (calls c)
      → AllUsable cron Known Passed s
      → AllUsable cron Known Passed (serve cron c s)
  unfolding serve perform schedule_once schedule_recurring update_recurring_schedule
  serve-AllUsable (schedules_once topic message channel_id extra delay at_iso now) s k a =
      insert_once-AllUsable topic (build_event_payload topic message channel_id extra)
        (once_time cron delay at_iso now) now s a
  serve-AllUsable (schedules_recurring topic message channel_id extra expr every until_iso now) s k
        a =
      insert_every-AllUsable topic (build_event_payload topic message channel_id extra)
        (stripped cron expr) (none_if_zero every) (recurring_time cron expr every now)
        (until_time cron until_iso now) now s
        (λ v e.
          recurring_time-Usable expr every now v
            (λ x q. k.0 x now (is_given_now (stripped cron expr) x now q)) e)
        a
  serve-AllUsable (cancels i type) s k a = cancel_schedule-AllUsable i type s a
  serve-AllUsable (updates i expr every until_iso status now) s k a =
      if_both {A = Result × Scheduler} (λ q. AllUsable cron Known Passed q.1)
        (is_given until_iso && is_nil (elim until_iso [ none ↦ none | some t ↦ cron.parse_iso t ]))
        a
        (report-AllUsable i (update_recurring cron i (stripped cron expr) every none status now s) s
          (update_recurring-Answers cron Known Passed i (stripped cron expr) every none status now s
            (λ x q. k.0 x now (is_given_now (stripped cron expr) x now q)) a)
          a)

  -- The time that a stage has read is that of a step.
  abbrev InTime : Stage → Type 0
  InTime (emitting b now rs) = Passed now ≡ true
  InTime (marking b now r rs) = Passed now ≡ true
  InTime (emitting_recurring now rs) = Passed now ≡ true
  InTime (advancing now r rs) = Passed now ≡ true
  InTime stage = Unit

  -- A crash has its cause, and the expressions are usable.
  abbrev IsRunning : Machine → Type 0
  IsRunning m =
      (is_crashed m.stage ≡ true → HasExpired cron Known Passed)
      × AllUsable cron Known Passed m.store
      × InTime m.stage

  started-IsRunning :
      (t : ℕ) (o : Option Scheduler) (s : Scheduler)
      → Succeeds cron Known Passed o
      → AllUsable cron Known Passed s
      → Passed t ≡ true
      → IsRunning (started t o s)
  unfolding started Succeeds
  started-IsRunning t none s h a k = ((λ _. h), a, tt)
  started-IsRunning t (some s') s h a k = ((λ e. absurd (cc (e))), h, k)

  advanced-IsRunning :
      (t : ℕ) (rs : List Recurring) (o : Option Scheduler) (s : Scheduler)
      → Succeeds cron Known Passed o
      → AllUsable cron Known Passed s
      → Passed t ≡ true
      → IsRunning (advanced t rs o s)
  unfolding advanced Succeeds
  advanced-IsRunning t rs none s h a k = ((λ _. h), a, tt)
  advanced-IsRunning t rs (some s') s h a k = ((λ e. absurd (cc (e))), h, k)

  proceed-IsRunning :
      (t : ℕ) (stage : Stage) (s : Scheduler)
      → (is_crashed stage ≡ true → HasExpired cron Known Passed)
      → AllUsable cron Known Passed s
      → Passed t ≡ true
      → InTime stage
      → IsRunning (proceed cron t stage s)
  unfolding proceed mark_one_shot_fired emit
  proceed-IsRunning t starting s c a k i =
      started-IsRunning t (recover_recurring cron t s) s
        (recover_recurring-Succeeds cron Known Passed t s k a) a k
  proceed-IsRunning t sleeping s c a k i = ((λ e. absurd (cc (e))), a, k)
  proceed-IsRunning t crashed s c a k i = (c, a, tt)
  proceed-IsRunning t (emitting true now []) s c a k i = ((λ e. absurd (cc (e))), a, tt)
  proceed-IsRunning t (emitting false now []) s c a k i = ((λ e. absurd (cc (e))), a, i)
  proceed-IsRunning t (emitting true now (r ∷ rs)) s c a k i = ((λ e. absurd (cc (e))), a, i)
  proceed-IsRunning t (emitting false now (r ∷ rs)) s c a k i = ((λ e. absurd (cc (e))), a, i)
  proceed-IsRunning t (marking b now r rs) s c a k i = ((λ e. absurd (cc (e))), a, i)
  proceed-IsRunning t (emitting_recurring now []) s c a k i = ((λ e. absurd (cc (e))), a, tt)
  proceed-IsRunning t (emitting_recurring now (r ∷ rs)) s c a k i = ((λ e. absurd (cc (e))), a, i)
  proceed-IsRunning t (advancing now r rs) s c a k i =
      advanced-IsRunning now rs (advance_next cron r.id now s) s
        (advance_next-Succeeds cron Known Passed r.id now s i a) a i

  run-IsRunning :
      (actions : List Action) (m : Machine)
      → All IsKnown actions
      → IsRunning m
      → IsRunning (run cron actions m)
  unfolding run act
  run-IsRunning [] m k h = h
  run-IsRunning (proceeds t ∷ rest) m k h =
      run-IsRunning rest (proceed cron t m.stage m.store) k.1
        (proceed-IsRunning t m.stage m.store h.0 h.1 (k.0.1 t (ground arith)) h.2)
  run-IsRunning (calls c ∷ rest) m k h =
      run-IsRunning rest (record m { store = serve cron c m.store }) k.1
        (h.0, serve-AllUsable c m.store k.0 h.1, h.2)
  run-IsRunning (restarts ∷ rest) m k h =
      run-IsRunning rest (record m { stage = starting }) k.1 ((λ e. absurd (cc (e))), h.1, tt)

-- Every action of a list is among those of the list.
IsKnown-all :
    (cron : Cron) (actions : List Action)
    → All (IsKnown cron (λ e t. any (gives cron e t) actions) (λ t. any (passes t) actions)) actions
IsKnown-all cron [] = tt
IsKnown-all cron (x ∷ xs) = (
  ((λ e t h. ground (arith, h)), (λ t h. ground (arith, h))),
  All-map (IsKnown cron (λ e t. any (gives cron e t) xs) (λ t. any (passes t) xs)) _ xs
      (λ y known. ((λ e t h. ground (arith, known.0 e t h)), (λ t h. ground (arith, known.1 t h))))
      (IsKnown-all cron xs),
)

-- From a new database on, however the calls of the tools and the restarts fall between the steps: an
-- exception of croniter ends the start or the loop only through an expression that one of these calls
-- has given to a tool, for which croniter had a next time at the time of the call, and for which it
-- raises at the time of one of the steps.
pub run-is_crashed :
    (cron : Cron) (actions : List Action)
    → is_crashed (run cron actions new_machine).stage ≡ true
    → (e : String) × (t : ℕ) × (now : ℕ) × ((any (gives cron e t) actions ≡ true)
        × (is_some (cron.next_time e t) ≡ true))
      × ((any (passes now) actions ≡ true) × (cron.next_time e now ≡ none))
run-is_crashed cron actions =
    (run-IsRunning cron (λ e t. any (gives cron e t) actions) (λ t. any (passes t) actions) actions
      new_machine (IsKnown-all cron actions) ((λ e. absurd (cc (e))), tt, tt)).0
