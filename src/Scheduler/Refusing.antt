-- ===== src/Scheduler/Refusing.antt =====
-- The tools of the scheduler where they fail.
use yodoca.Base.{
  ℕ, ◌≡◌, refl, String, Bool, true, false, ◌&&◌, ◌||◌, Option, none, some, is_nil, is_some, if_both,
  any, find, Bool-cases, inl, inr,
}
use yodoca.Scheduler.{
  Status, ScheduleType, one_shot, recurring, Payload, Recurring, Scheduler, is_status, cancelled,
  is_scheduled, has_recurring_id, cancel_one_shot, insert_recurring,
}
use yodoca.Scheduler.Recurrence.{
  Cron, or_else, update_schedule, set_status, write_changes, compute_next_fire, update_row,
  update_found, update_recurring,
}
use yodoca.Scheduler.Tools.{
  ToolError, invalid_until, Result, failed, created, updated, printed, raises, Timed, at_time,
  refused, raised, Until, ends_at, no_until, stripped, none_if_zero, recurring_time, until_time,
  once_time, insert_once, insert_every, build_event_payload, is_given, report, schedule_once,
  schedule_recurring, cancel_schedule, update_recurring_schedule,
}
use yodoca.Scheduler.Rounds.{Call, schedules_once, schedules_recurring, cancels, updates, perform}

-- The tool says that it failed, or it raises before its write.
abbrev pub is_failure : Result → Bool
is_failure (failed e) = true
is_failure raises = true
is_failure r = false

printed-is_failure :
    (answer : String → Result) (o : Option String)
    → ((iso : String) → is_failure (answer iso) ≡ false)
    → is_failure (printed answer o) ≡ false
printed-is_failure answer none h = refl
printed-is_failure answer (some iso) h = h iso

-- Where the tool fails, the schedules are as before.
unfoldable IsAtomic : Scheduler → Result × Scheduler → Type 0
IsAtomic s (r, s') = is_failure r ≡ true → s' ≡ s

-- Where the store answers None, the schedules are as before.
unfoldable IsUnchanged : Scheduler → Option (Option ℕ × Scheduler) → Type 0
IsUnchanged s (some (none, s')) = s' ≡ s
IsUnchanged s answer = Unit

answer_none : (s : Scheduler) → IsUnchanged s (some (none, s))
unfolding IsUnchanged
answer_none s = refl

answer_some : (t : ℕ) (s s' : Scheduler) → IsUnchanged s (some (some t, s'))
unfolding IsUnchanged
answer_some t s s' = tt

write_changes-IsUnchanged :
    (expr : Option String) (every : Option ℕ) (until : Option (Option ℕ)) (status : Option Status)
    (r : Recurring) (t : Option ℕ) (s : Scheduler)
    → IsUnchanged s (write_changes expr every until status r t s)
unfolding write_changes IsUnchanged
write_changes-IsUnchanged expr every until status r none s = tt
write_changes-IsUnchanged expr every until status r (some t) s = tt

insert_once-IsAtomic :
    (topic : String) (p : Payload) (t : Timed) (now : ℕ) (s : Scheduler)
    → IsAtomic s (insert_once topic p t now s)
unfolding insert_once IsAtomic
insert_once-IsAtomic topic p raised now s h = refl
insert_once-IsAtomic topic p (refused e) now s h = refl
insert_once-IsAtomic topic p (at_time t) now s h = absurd (cc (h))

module _ (cron : Cron) where
  update_found-IsUnchanged :
      (expr : Option String) (every : Option ℕ) (until : Option (Option ℕ)) (status : Option Status)
      (now : ℕ) (r : Option Recurring) (s : Scheduler)
      → IsUnchanged s (update_found cron expr every until status now r s)
  unfolding update_found update_row
  update_found-IsUnchanged expr every until status now none s = answer_none s
  update_found-IsUnchanged expr every until status now (some r) s =
      if_both (IsUnchanged s) (is_status r.status cancelled) (answer_none s) (
        if_both (IsUnchanged s) (is_some expr || is_some every || is_some until)
          (write_changes-IsUnchanged expr every until status r
            (compute_next_fire cron (or_else expr r.cron_expr) (or_else every r.every_sec) now) s)
          (if_both (IsUnchanged s) (is_some status)
            (answer_some r.next_fire_at s (update_schedule r.id (set_status status) s))
            (answer_some r.next_fire_at s s)))

  insert_every-IsAtomic :
      (topic : String) (p : Payload) (expr : Option String) (every : Option ℕ) (t : Timed)
      (u : Until) (now : ℕ) (s : Scheduler)
      → IsAtomic s (insert_every cron topic p expr every t u now s)
  unfolding insert_every IsAtomic
  insert_every-IsAtomic topic p expr every raised u now s h = refl
  insert_every-IsAtomic topic p expr every (refused e) u now s h = refl
  insert_every-IsAtomic topic p expr every (at_time t) (no_until e) now s h = refl
  insert_every-IsAtomic topic p expr every (at_time t) (ends_at u) now s h =
      let (id, s') = insert_recurring topic p expr every u t now s in
      absurd (cc (h, printed-is_failure (created id) (cron.to_utc_iso t) (λ iso. refl)))

  report-IsAtomic :
      (i : ℕ) (o : Option (Option ℕ × Scheduler)) (s : Scheduler)
      → IsUnchanged s o
      → IsAtomic s (report cron i o s)
  unfolding report IsAtomic IsUnchanged
  report-IsAtomic i none s u h = refl
  report-IsAtomic i (some (none, s')) s u h = u
  report-IsAtomic i (some (some t, s')) s u h =
      absurd (cc (h, printed-is_failure (updated i) (cron.to_utc_iso t) (λ iso. refl)))

  refusal : (e : ToolError) (s : Scheduler) → IsAtomic s (failed e, s)
  unfolding IsAtomic
  refusal e s h = refl

  cancel_schedule-IsAtomic :
      (i : ℕ) (type : ScheduleType) (s : Scheduler) → IsAtomic s (cancel_schedule i type s)
  unfolding cancel_schedule cancel_one_shot IsAtomic
  cancel_schedule-IsAtomic i one_shot s = elim (Bool-cases (any (is_scheduled i) s.one_shots)) [
    | inl e ↦ rw e (λ h. absurd (cc (h)))
    | inr e ↦ rw e (λ h. refl)
  ]
  cancel_schedule-IsAtomic i recurring s = λ h. absurd (cc (h))

  perform-IsAtomic : (c : Call) (s : Scheduler) → IsAtomic s (perform cron c s)
  unfolding perform schedule_once schedule_recurring update_recurring_schedule update_recurring
  perform-IsAtomic (schedules_once topic message channel_id extra delay at_iso now) s =
      insert_once-IsAtomic topic (build_event_payload topic message channel_id extra)
        (once_time cron delay at_iso now) now s
  perform-IsAtomic (schedules_recurring topic message channel_id extra expr every until_iso now) s =
      insert_every-IsAtomic topic (build_event_payload topic message channel_id extra)
        (stripped cron expr) (none_if_zero every) (recurring_time cron expr every now)
        (until_time cron until_iso now) now s
  perform-IsAtomic (cancels i type) s = cancel_schedule-IsAtomic i type s
  perform-IsAtomic (updates i expr every until_iso status now) s =
      if_both (IsAtomic s)
        (is_given until_iso && is_nil (elim until_iso [ none ↦ none | some t ↦ cron.parse_iso t ]))
        (refusal invalid_until s)
        (report-IsAtomic i (update_recurring cron i (stripped cron expr) every none status now s) s
          (update_found-IsUnchanged (stripped cron expr) every none status now
            (find (has_recurring_id i) s.recurrings) s))

  -- A call of a tool that reports a failure, or that raises for any other reason than that
  -- `_to_utc_iso` cannot print the next time behind the committed write, leaves all schedules, and what
  -- was emitted, as they were.
  pub perform-failed :
      (c : Call) (s : Scheduler) → is_failure (perform cron c s).0 ≡ true → (perform cron c s).1 ≡ s
  perform-failed c s h = unfold IsAtomic in perform-IsAtomic c s h
