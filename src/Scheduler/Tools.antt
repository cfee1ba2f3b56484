-- ===== src/Scheduler/Tools.antt =====
-- sandbox/extensions/scheduler/main.py: the five tools. A tool reads the time once, as `now`.
use yodoca.Base.{
  ℕ, zero, suc, ◌+◌, ◌-◌, String, Bool, true, false, ◌&&◌, ◌||◌, not, Option, none, some, List, [],
  ◌∷◌, length, leb, if◌then◌else◌, same, is_empty, is_some, is_nil, get, put, strip,
}
use yodoca.Scheduler.{
  Status, ScheduleType, one_shot, recurring, Field, text, Payload, object, Listed, Scheduler,
  insert_one_shot, insert_recurring, list_all, cancel_one_shot, cancel_recurring,
}
use yodoca.Scheduler.Recurrence.{Cron, next_of, update_recurring}

pub data ToolError : Type 0 where
  delay_or_at_needed delay_not_positive invalid_at at_not_future : ToolError
  cron_or_every_needed invalid_cron invalid_until until_not_future : ToolError
  not_found : ToolError

pub record ScheduleItem : Type 0 where
  pub id : ℕ
  pub type : ScheduleType
  pub topic : String
  pub payload : Payload
  pub next_fire_iso : String
  pub status : Status

-- The results of the tools; `raises` is an exception that a tool does not catch, and `unprinted` that
-- of `_to_utc_iso`, which comes behind the committed write.
pub data Result : Type 0 where
  scheduled_once : (id : ℕ) → (topic : String) → (fires_in : ℕ) → Result
  created updated : (id : ℕ) → (next_fire_iso : String) → Result
  schedules : List ScheduleItem → (count : ℕ) → Result
  cancelled_schedule : (id : ℕ) → Result
  failed : ToolError → Result
  raises unprinted : Result

-- The answer with the printed time, where it can be printed.
abbrev pub printed : (String → Result) → Option String → Result
printed answer none = unprinted
printed answer (some iso) = answer iso

-- A text that may be missing, as `if` reads it.
abbrev pub is_given : Option String → Bool
is_given none = false
is_given (some t) = not (is_empty t)

-- The dictionary without the channel.
unfoldable pub message_payload :
    String → String → Option (List (String × Field)) → List (String × Field)
message_payload topic message extra =
    if same topic "system.user.notify"
    then ("text", text message) ∷ []
    else if same topic "system.agent.task" || same topic "system.agent.background"
    then ("prompt", text message) ∷ []
    else elim extra [
      | none ↦ ("message", text message) ∷ []
      | some [] ↦ ("message", text message) ∷ []
      | some (e ∷ es) ↦
          if is_some (get "message" (e ∷ es))
            || is_some (get "text" (e ∷ es))
            || is_some (get "prompt" (e ∷ es))
          then e ∷ es
          else put "message" (text message) (e ∷ es)
    ]

-- `_build_event_payload`
unfoldable pub build_event_payload :
    String → String → Option String → Option (List (String × Field)) → Payload
unfolding message_payload
build_event_payload topic message none extra = object (message_payload topic message extra)
build_event_payload topic message (some c) extra =
    if is_empty c
    then object (message_payload topic message extra)
    else object (put "channel_id" (text c) (message_payload topic message extra))

-- A time, or why there is none.
pub data Timed : Type 0 where
  at_time : ℕ → Timed
  refused : ToolError → Timed
  raised : Timed

pub data Until : Type 0 where
  ends_at : Option ℕ → Until
  no_until : ToolError → Until

-- `has_cron`: False, or the stripped text.
abbrev pub has_cron : (String → String) → Option String → Option String
has_cron strip none = none
has_cron strip (some c) = some (strip c)

-- `every_seconds is not None and every_seconds > 0`
abbrev pub has_interval : Option ℕ → Bool
has_interval none = false
has_interval (some zero) = false
has_interval (some (suc n)) = true

-- `has_cron == has_interval`: a text equals neither True nor False.
abbrev pub equals_interval : Option String → Bool → Bool
equals_interval none b = not b
equals_interval (some t) b = false

abbrev pub none_if_zero : Option ℕ → Option ℕ
none_if_zero none = none
none_if_zero (some zero) = none
none_if_zero (some (suc n)) = some (suc n)

-- The rest of `schedule_once` behind its tests.
unfoldable pub insert_once : String → Payload → Timed → (now : ℕ) → Scheduler → Result × Scheduler
unfolding insert_one_shot
insert_once topic payload raised now s = (raises, s)
insert_once topic payload (refused e) now s = (failed e, s)
insert_once topic payload (at_time t) now s =
    let (id, s') = insert_one_shot topic payload t now s in (scheduled_once id topic (t - now), s')

module _ (cron : Cron) where
  -- `cron.strip() if cron else None`
  abbrev pub stripped : Option String → Option String
  stripped none = none
  stripped (some c) = if is_empty c then none else some (strip cron.is_space c)

  -- `_parse_iso` and the test against the time.
  abbrev pub future_time : ToolError → ToolError → String → ℕ → Timed
  future_time invalid not_future t now = elim (cron.parse_iso t) [
    | none ↦ refused invalid
    | some u ↦ if leb u now then refused not_future else at_time u
  ]

  -- `if at_iso: … else: time.time() + delay_seconds`
  abbrev pub once_at : Option ℕ → Option String → ℕ → Timed
  once_at none none now = raised
  once_at (some d) none now = at_time (now + d)
  once_at none (some t) now =
      if is_empty t then raised else future_time invalid_at at_not_future t now
  once_at (some d) (some t) now =
      if is_empty t then at_time (now + d) else future_time invalid_at at_not_future t now

  -- The tests of `schedule_once`, and its time.
  unfoldable pub once_time : Option ℕ → Option String → ℕ → Timed
  once_time none none now = refused delay_or_at_needed
  once_time (some d) (some t) now = refused delay_or_at_needed
  once_time (some zero) none now = refused delay_not_positive
  once_time (some (suc d)) none now = once_at (some (suc d)) none now
  once_time none (some t) now = once_at none (some t) now

  unfoldable pub schedule_once :
      String
      → String
      → Option String
      → Option (List (String × Field))
      → Option ℕ
      → Option String
      → (now : ℕ) → Scheduler
      → Result × Scheduler
  unfolding once_time build_event_payload insert_once
  schedule_once topic message channel_id extra delay at_iso now s =
      insert_once topic (build_event_payload topic message channel_id extra)
        (once_time delay at_iso now) now s

  abbrev pub of_cron : Option ℕ → Timed
  of_cron none = refused invalid_cron
  of_cron (some t) = at_time t

  -- `if cron: … else: time.time() + every_seconds`
  abbrev pub first_time : Option String → Option ℕ → ℕ → Timed
  first_time (some e) every now = of_cron (next_of cron e now)
  first_time none none now = raised
  first_time none (some n) now = at_time (now + n)

  -- The first time of `schedule_recurring`.
  unfoldable pub recurring_time : Option String → Option ℕ → ℕ → Timed
  recurring_time expr every now =
      if equals_interval (has_cron (strip cron.is_space) expr) (has_interval every)
      then refused cron_or_every_needed
      else first_time (stripped expr) every now

  unfoldable pub until_time : Option String → ℕ → Until
  until_time none now = ends_at none
  until_time (some t) now =
      if is_empty t then ends_at none else elim (future_time invalid_until until_not_future t now) [
        | at_time u ↦ ends_at (some u)
        | refused e ↦ no_until e
        | raised ↦ ends_at none
      ]

  -- The rest of `schedule_recurring` behind its tests.
  unfoldable pub insert_every :
      String
      → Payload
      → Option String
      → Option ℕ
      → Timed
      → Until
      → (now : ℕ) → Scheduler
      → Result × Scheduler
  unfolding insert_recurring
  insert_every topic payload expr every raised u now s = (raises, s)
  insert_every topic payload expr every (refused e) u now s = (failed e, s)
  insert_every topic payload expr every (at_time t) (no_until e) now s = (failed e, s)
  insert_every topic payload expr every (at_time t) (ends_at u) now s =
      let (id, s') = insert_recurring topic payload expr every u t now s in
      (printed (created id) (cron.to_utc_iso t), s')

  unfoldable pub schedule_recurring :
      String
      → String
      → Option String
      → Option (List (String × Field))
      → Option String
      → Option ℕ
      → Option String
      → (now : ℕ) → Scheduler
      → Result × Scheduler
  unfolding recurring_time until_time build_event_payload insert_every
  schedule_recurring topic message channel_id extra expr every until_iso now s =
      insert_every topic (build_event_payload topic message channel_id extra) (stripped expr)
        (none_if_zero every) (recurring_time expr every now) (until_time until_iso now) now s

  abbrev pub item : Listed → String → ScheduleItem
  item r iso = record {
    id = r.id;
    type = r.type;
    topic = r.topic;
    payload = r.payload;
    next_fire_iso = iso;
    status = r.status;
  }

  -- The list comprehension over the rows; `none` is the exception of `_to_utc_iso`.
  unfoldable pub printed_items : List Listed → Option (List ScheduleItem)
  printed_items [] = some []
  printed_items (r ∷ rs) =
      let rest = printed_items rs in
      elim (cron.to_utc_iso r.fire_at_or_next) [
        | none ↦ none
        | some iso ↦ elim rest [ none ↦ none | some is ↦ some (item r iso ∷ is) ]
      ]

  unfoldable pub list_schedules : Option Status → Scheduler → Result
  unfolding list_all printed_items
  list_schedules status s = elim (printed_items (list_all status s)) [
    | none ↦ raises
    | some is ↦ schedules is (length is)
  ]

  -- What `update_recurring_schedule` says of the store's answer.
  unfoldable pub report : ℕ → Option (Option ℕ × Scheduler) → Scheduler → Result × Scheduler
  report i none s = (raises, s)
  report i (some (none, s')) s = (failed not_found, s')
  report i (some (some t, s')) s = (printed (updated i) (cron.to_utc_iso t), s')

  unfoldable pub update_recurring_schedule :
      ℕ
      → Option String
      → Option ℕ
      → Option String
      → Option Status
      → (now : ℕ) → Scheduler
      → Result × Scheduler
  unfolding update_recurring report
  update_recurring_schedule i expr every until_iso status now s =
      if is_given until_iso && is_nil (elim until_iso [ none ↦ none | some t ↦ cron.parse_iso t ])
      then (failed invalid_until, s)
      else report i (update_recurring cron i (stripped expr) every none status now s) s

unfoldable pub cancel_schedule : ℕ → ScheduleType → Scheduler → Result × Scheduler
unfolding cancel_one_shot cancel_recurring
cancel_schedule i one_shot s =
    let (ok, s') = cancel_one_shot i s in
    if ok then (cancelled_schedule i, s') else (failed not_found, s')
cancel_schedule i recurring s = (cancelled_schedule i, cancel_recurring i s)
