-- ===== src/Scheduler/Serving.antt =====
-- What the changes of the schedules' tables do to one one-shot schedule: how often it has been
-- emitted, how many rows it has, and how many of these are scheduled.
use yodoca.Base.{
  ℕ, suc, ◌+◌, ◌≤◌, ◌≡◌, refl, ap, ◌⊎◌, inl, inr, String, Bool, true, false, Option, none, some,
  List, [], ◌∷◌, ◌++◌, ◌==◌, ◌&&◌, is_nil, count, any, get, get-put, count-append, count-update,
  count-update_le, count_mono, All-of, Bool-cases, if_both, arith,
}
use yodoca.Events.Bus.{
  Effect, publishes, purges, watchdog_round, completes_message, stops, cancels_loop,
}
use yodoca.Scheduler.{
  ScheduleType, one_shot, recurring, Field, marker, Payload, object, value, Scheduler, has_id,
  has_recurring_id, is_scheduled, set_one_shot_cancelled, on_cancel, cancel_one_shot,
  cancel_recurring, insert_one_shot, insert_recurring, with_schedule_metadata,
}
use yodoca.Scheduler.Recurrence.{Cron, update_recurring}
use yodoca.Scheduler.Tools.{
  Timed, at_time, refused, raised, Until, ends_at, no_until, once_time, recurring_time, until_time,
  insert_once, insert_every, schedule_once, schedule_recurring, cancel_schedule, report,
  update_recurring_schedule, Result, is_given, build_event_payload, stripped, none_if_zero,
}
use yodoca.Scheduler.Rounds.{
  perform, Call, schedules_once, schedules_recurring, cancels, updates, emit, serve,
}
use yodoca.Scheduler.Changing.{KeepsRestUpdate, update_recurring-KeepsRest}

-- The marker says that it is the one-shot schedule `i`.
abbrev pub is_marker : ℕ → Option Field → Bool
is_marker i (some (marker j one_shot)) = j == i
is_marker i f = false

-- The event has been emitted for the one-shot schedule `i`.
unfoldable pub is_firing : ℕ → Effect Payload → Bool
is_firing i (publishes topic source (object d) c) = is_marker i (get "__schedule" d)
is_firing i (publishes topic source (value v) c) = false
is_firing i watchdog_round = false
is_firing i (completes_message n) = false
is_firing i (purges n t ts) = false
is_firing i stops = false
is_firing i cancels_loop = false

abbrev pub emissions : ℕ → Scheduler → ℕ
emissions i s = count (is_firing i) s.log

abbrev pub rows_of : ℕ → Scheduler → ℕ
rows_of i s = count (has_id i) s.one_shots

abbrev pub scheduled_rows : ℕ → Scheduler → ℕ
scheduled_rows i s = count (is_scheduled i) s.one_shots

-- 1 for true
abbrev pub bit : Bool → ℕ
bit true = 1
bit false = 0

pub is_firing-with_schedule_metadata :
    (i : ℕ) (p : Payload) (j : ℕ) (type : ScheduleType) (topic source : String) (c : Option String)
    → is_firing i (publishes topic source (with_schedule_metadata p j type) c)
      ≡ is_marker i (some (marker j type))
unfolding is_firing with_schedule_metadata
is_firing-with_schedule_metadata i (object d) j type topic source c =
    rw (get-put "__schedule" "__schedule" (marker j type) d) refl
is_firing-with_schedule_metadata i (value v) j type topic source c =
    rw (get-put "__schedule" "__schedule" (marker j type) (("message", v) ∷ [])) refl

-- An emission for a one-shot schedule counts for that schedule, and one for a recurring schedule
-- for none.
pub emissions-emit :
    (i : ℕ) (topic : String) (p : Payload) (j : ℕ) (s : Scheduler)
    → emissions i (emit topic p j one_shot s) ≡ emissions i s + bit (j == i)
unfolding emit
emissions-emit i topic p j s =
    rw
      (
        count-append (is_firing i) s.log
            (publishes topic "scheduler" (with_schedule_metadata p j one_shot) none ∷ []),
        is_firing-with_schedule_metadata i p j one_shot topic "scheduler" none,
      )
      (ground arith)

pub emissions-emit_recurring :
    (i : ℕ) (topic : String) (p : Payload) (j : ℕ) (s : Scheduler)
    → emissions i (emit topic p j recurring s) ≡ emissions i s
unfolding emit
emissions-emit_recurring i topic p j s =
    rw
      (
        count-append (is_firing i) s.log
            (publishes topic "scheduler" (with_schedule_metadata p j recurring) none ∷ []),
        is_firing-with_schedule_metadata i p j recurring topic "scheduler" none,
      )
      (ground arith)

pub scheduled_rows-le : (i : ℕ) (s : Scheduler) → scheduled_rows i s ≤ rows_of i s
scheduled_rows-le i s =
    count_mono (is_scheduled i) (has_id i) s.one_shots (All-of _ s.one_shots (λ r. ground arith))

-- No schedule is added, and none is scheduled again.
abbrev pub IsKept : ℕ → Scheduler → Scheduler → Type 0
IsKept i s s' =
    (emissions i s' ≡ emissions i s)
    × (s'.next_one_shot ≡ s.next_one_shot)
    × (rows_of i s' ≡ rows_of i s)
    × (scheduled_rows i s' ≤ scheduled_rows i s)

-- A schedule is added under the next key.
abbrev pub IsAdded : ℕ → Scheduler → Scheduler → Type 0
IsAdded i s s' =
    (emissions i s' ≡ emissions i s)
    × (s'.next_one_shot ≡ suc s.next_one_shot)
    × (rows_of i s' ≡ rows_of i s + bit (s.next_one_shot == i))
    × (scheduled_rows i s' ≡ scheduled_rows i s + bit (s.next_one_shot == i))

pub IsKept-refl : (i : ℕ) (s : Scheduler) → IsKept i s s
IsKept-refl i s = (refl, refl, refl, omega arith)

pub insert_one_shot-IsAdded :
    (i : ℕ) (topic : String) (p : Payload) (t now : ℕ) (s : Scheduler)
    → IsAdded i s (insert_one_shot topic p t now s).1
unfolding insert_one_shot
insert_one_shot-IsAdded i topic p t now s = (
  refl,
  refl,
  rw (count-append (has_id i) s.one_shots (_ ∷ [])) (ground arith),
  rw (count-append (is_scheduled i) s.one_shots (_ ∷ [])) (ground arith),
)

count-purges :
    (i j : ℕ) (type : String) (es : List (Effect Payload))
    → count (is_firing i) (es ++ purges j type none ∷ []) ≡ count (is_firing i) es
unfolding is_firing
count-purges i j type es =
    rw (count-append (is_firing i) es (purges j type none ∷ [])) (omega arith)

-- The table, its next key and the emissions are as before.
abbrev pub IsSame : ℕ → Scheduler → Scheduler → Type 0
IsSame i s s' =
    (emissions i s' ≡ emissions i s)
    × (s'.next_one_shot ≡ s.next_one_shot)
    × (s'.one_shots ≡ s.one_shots)

pub IsSame-IsKept : (i : ℕ) (s s' : Scheduler) → IsSame i s s' → IsKept i s s'
IsSame-IsKept i s s' h = (h.0, h.1, rw (h.2) refl, rw (h.2) (omega arith))

pub cancel_one_shot-IsKept : (i j : ℕ) (s : Scheduler) → IsKept i s (cancel_one_shot j s).1
unfolding cancel_one_shot on_cancel
cancel_one_shot-IsKept i j s = elim (Bool-cases (any (is_scheduled j) s.one_shots)) [
  | inr e ↦ rw e (IsKept-refl i s)
  | inl e ↦ rw e (
      (
        count-purges i j "one_shot" s.log,
        refl,
        count-update (is_scheduled j) (has_id i) set_one_shot_cancelled s.one_shots (λ r. refl),
        count-update_le (is_scheduled j) (is_scheduled i) set_one_shot_cancelled s.one_shots
            (λ r h. absurd (ground arith)),
      ))
]

pub cancel_recurring-IsSame : (i j : ℕ) (s : Scheduler) → IsSame i s (cancel_recurring j s)
unfolding cancel_recurring on_cancel
cancel_recurring-IsSame i j s = elim (Bool-cases (any (has_recurring_id j) s.recurrings)) [
  | inr e ↦ rw e ((refl, refl, refl))
  | inl e ↦ rw e ((count-purges i j "recurring" s.log, refl, refl))
]

pub IsSame-recurrings :
    (i : ℕ) (s s' : Scheduler) → s' ≡ record s { recurrings = s'.recurrings } → IsSame i s s'
IsSame-recurrings i s s' e =
    (ap (λ q. emissions i q) e, ap (λ q. q.next_one_shot) e, ap (λ q. q.one_shots) e)

-- A call of a tool adds one schedule, or it keeps the schedules or ends some.
abbrev pub IsServed : ℕ → Scheduler → Scheduler → Type 0
IsServed i s s' = IsKept i s s' ⊎ IsAdded i s s'

insert_once-IsServed :
    (i : ℕ) (topic : String) (p : Payload) (t : Timed) (now : ℕ) (s : Scheduler)
    → IsServed i s (insert_once topic p t now s).1
unfolding insert_once
insert_once-IsServed i topic p (at_time t) now s = inr (insert_one_shot-IsAdded i topic p t now s)
insert_once-IsServed i topic p (refused e) now s = inl (IsKept-refl i s)
insert_once-IsServed i topic p raised now s = inl (IsKept-refl i s)

cancel_schedule-IsKept :
    (i j : ℕ) (type : ScheduleType) (s : Scheduler) → IsKept i s (cancel_schedule j type s).1
unfolding cancel_schedule
cancel_schedule-IsKept i j one_shot s =
    if_both {A = Result × Scheduler} (λ q. IsKept i s q.1) (cancel_one_shot j s).0
      (cancel_one_shot-IsKept i j s) (cancel_one_shot-IsKept i j s)
cancel_schedule-IsKept i j recurring s =
    IsSame-IsKept i s (cancel_recurring j s) (cancel_recurring-IsSame i j s)

module _ (cron : Cron) where
  insert_every-IsSame :
      (i : ℕ) (topic : String) (p : Payload) (expr : Option String) (every : Option ℕ) (t : Timed)
      (u : Until) (now : ℕ) (s : Scheduler)
      → IsSame i s (insert_every cron topic p expr every t u now s).1
  unfolding insert_every insert_recurring
  insert_every-IsSame i topic p expr every raised u now s = (refl, refl, refl)
  insert_every-IsSame i topic p expr every (refused e) u now s = (refl, refl, refl)
  insert_every-IsSame i topic p expr every (at_time t) (no_until e) now s = (refl, refl, refl)
  insert_every-IsSame i topic p expr every (at_time t) (ends_at u) now s = (refl, refl, refl)

  report-IsSame :
      (i j : ℕ) (o : Option (Option ℕ × Scheduler)) (s : Scheduler)
      → KeepsRestUpdate s o
      → IsSame i s (report cron j o s).1
  unfolding KeepsRestUpdate report
  report-IsSame i j none s h = (refl, refl, refl)
  report-IsSame i j (some (none, s')) s h = IsSame-recurrings i s s' h
  report-IsSame i j (some (some t, s')) s h = IsSame-recurrings i s s' h

  pub serve-IsServed : (i : ℕ) (c : Call) (s : Scheduler) → IsServed i s (serve cron c s)
  unfolding serve perform schedule_once schedule_recurring update_recurring_schedule
  serve-IsServed i (schedules_once topic message channel_id extra delay at_iso now) s =
      insert_once-IsServed i topic (build_event_payload topic message channel_id extra)
        (once_time cron delay at_iso now) now s
  serve-IsServed i (schedules_recurring topic message channel_id extra expr every until_iso now) s =
      inl (
        IsSame-IsKept i s
          (serve cron (schedules_recurring topic message channel_id extra expr every until_iso now)
            s)
          (insert_every-IsSame i topic (build_event_payload topic message channel_id extra)
            (stripped cron expr) (none_if_zero every) (recurring_time cron expr every now)
            (until_time cron until_iso now) now s))
  serve-IsServed i (cancels j type) s = inl (cancel_schedule-IsKept i j type s)
  serve-IsServed i (updates j expr every until_iso status now) s = inl (
      IsSame-IsKept i s (serve cron (updates j expr every until_iso status now) s) (
        if_both {A = Result × Scheduler} (λ q. IsSame i s q.1)
          (is_given until_iso
            && is_nil (elim until_iso [ none ↦ none | some t ↦ cron.parse_iso t ]))
          (refl, refl, refl)
          (report-IsSame i j (update_recurring cron j (stripped cron expr) every none status now s)
            s (update_recurring-KeepsRest cron j (stripped cron expr) every none status now s))))
