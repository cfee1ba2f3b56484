-- ===== src/Scheduler.antt =====
-- sandbox/extensions/scheduler/main.py: the store of one-shot and recurring schedules.
pub mod Recurrence
pub mod Tools
pub mod Rounds
pub mod Changing
pub mod Serving
pub mod Emissions
pub mod Delivery
pub mod Usable
pub mod Running
pub mod Recovering
pub mod Cancelling
pub mod Refusing
pub mod Examples
use yodoca.Base.{
  ℕ, zero, suc, ◌+◌, String, Bool, true, false, ◌&&◌, Option, none, some, List, [], ◌∷◌, ◌++◌, map,
  ltb, leb, ◌==◌, if◌then◌else◌, select, update, any, put,
}
use yodoca.Base.Sort.{sort}
use yodoca.Events.Bus.{Effect, publishes, purges}

pub data Status : Type 0 where
  scheduled fired cancelled active paused : Status

pub data ScheduleType : Type 0 where
  one_shot recurring : ScheduleType

-- A value of the payload: a text, the marker `__schedule`, or any other value of json.
pub data Field : Type 0 where
  text : String → Field
  marker : ℕ → ScheduleType → Field
  other : ℕ → Field

-- What json.loads makes of the payload column: a dictionary or another value.
pub data Payload : Type 0 where
  object : List (String × Field) → Payload
  value : Field → Payload

-- A row of one_shot_schedules. Times and intervals are whole numbers.
pub record OneShot : Type 0 where
  pub id : ℕ
  pub topic : String
  pub payload : Payload
  pub fire_at : ℕ
  pub status : Status
  pub created_at : ℕ

-- A row of recurring_schedules.
pub record Recurring : Type 0 where
  pub id : ℕ
  pub topic : String
  pub payload : Payload
  pub cron_expr : Option String
  pub every_sec : Option ℕ
  pub until_at : Option ℕ
  pub status : Status
  pub next_fire_at : ℕ
  pub created_at : ℕ

-- Both tables with their next keys, and the calls of `emit` and of the purge so far, which are
-- effects on the event bus.
pub record Scheduler : Type 0 where
  pub one_shots : List OneShot
  pub recurrings : List Recurring
  pub next_one_shot : ℕ
  pub next_recurring : ℕ
  pub log : List (Effect Payload)

abbrev pub is_status : Status → Status → Bool
is_status scheduled scheduled = true
is_status fired fired = true
is_status cancelled cancelled = true
is_status active active = true
is_status paused paused = true
is_status s t = false

abbrev pub type_name : ScheduleType → String
type_name one_shot = "one_shot"
type_name recurring = "recurring"

-- `_with_schedule_metadata`
unfoldable pub with_schedule_metadata : Payload → ℕ → ScheduleType → Payload
with_schedule_metadata (object d) id type = object (put "__schedule" (marker id type) d)
with_schedule_metadata (value v) id type =
    object (put "__schedule" (marker id type) (("message", v) ∷ []))

-- `until_at is not None and until_at < now`
abbrev pub is_over : Option ℕ → ℕ → Bool
is_over none now = false
is_over (some u) now = ltb u now

abbrev pub or_zero : Option ℕ → ℕ
or_zero none = 0
or_zero (some n) = n

abbrev pub has_id : ℕ → OneShot → Bool
has_id i r = r.id == i

abbrev pub has_recurring_id : ℕ → Recurring → Bool
has_recurring_id i r = r.id == i

-- status = 'scheduled' AND fire_at <= ?
abbrev pub is_due : ℕ → OneShot → Bool
is_due now r = is_status r.status scheduled && leb r.fire_at now

-- status = 'active' AND next_fire_at <= ?
abbrev pub is_due_recurring : ℕ → Recurring → Bool
is_due_recurring now r = is_status r.status active && leb r.next_fire_at now

abbrev pub fires_before : OneShot → OneShot → Bool
fires_before r s = ltb r.fire_at s.fire_at

abbrev pub recurs_before : Recurring → Recurring → Bool
recurs_before r s = ltb r.next_fire_at s.next_fire_at

unfoldable pub insert_one_shot : String → Payload → ℕ → (now : ℕ) → Scheduler → ℕ × Scheduler
insert_one_shot topic payload fire_at now s = (
  s.next_one_shot,
  record s {
    one_shots =
        s.one_shots
        ++ record {
          id = s.next_one_shot;
          topic = topic;
          payload = payload;
          fire_at = fire_at;
          status = scheduled;
          created_at = now;
        }
          ∷ [];
    next_one_shot = suc s.next_one_shot;
  },
)

unfoldable pub fetch_due_one_shot : ℕ → Scheduler → List OneShot
fetch_due_one_shot now s = sort fires_before (select (is_due now) s.one_shots)

abbrev pub set_fired : OneShot → OneShot
set_fired r = record r { status = fired }

unfoldable pub mark_one_shot_fired : ℕ → Scheduler → Scheduler
mark_one_shot_fired i s = record s { one_shots = update (has_id i) set_fired s.one_shots }

unfoldable pub insert_recurring :
    String
    → Payload
    → Option String
    → Option ℕ
    → Option ℕ
    → (next_fire_at : ℕ) → (now : ℕ) → Scheduler
    → ℕ × Scheduler
insert_recurring topic payload cron every until next_fire_at now s = (
  s.next_recurring,
  record s {
    recurrings =
        s.recurrings
        ++ record {
          id = s.next_recurring;
          topic = topic;
          payload = payload;
          cron_expr = cron;
          every_sec = every;
          until_at = until;
          status = active;
          next_fire_at = next_fire_at;
          created_at = now;
        }
          ∷ [];
    next_recurring = suc s.next_recurring;
  },
)

unfoldable pub fetch_due_recurring : ℕ → Scheduler → List Recurring
fetch_due_recurring now s = sort recurs_before (select (is_due_recurring now) s.recurrings)

abbrev pub set_cancelled : Recurring → Recurring
set_cancelled r = record r { status = cancelled }

abbrev pub set_next : ℕ → Recurring → Recurring
set_next t r = record r { next_fire_at = t }

abbrev pub is_scheduled : ℕ → OneShot → Bool
is_scheduled i r = has_id i r && is_status r.status scheduled

abbrev pub set_one_shot_cancelled : OneShot → OneShot
set_one_shot_cancelled r = record r { status = cancelled }

-- `_on_store_cancel`: the purge of the default topics; what it raises is caught.
unfoldable pub on_cancel : ℕ → ScheduleType → Scheduler → Scheduler
on_cancel i type s = record s { log = s.log ++ purges i (type_name type) none ∷ [] }

unfoldable pub cancel_one_shot : ℕ → Scheduler → Bool × Scheduler
unfolding on_cancel
cancel_one_shot i s =
    if any (is_scheduled i) s.one_shots
    then (
      true,
      on_cancel i one_shot
          (record s { one_shots = update (is_scheduled i) set_one_shot_cancelled s.one_shots }),
    )
    else (false, s)

unfoldable pub cancel_recurring : ℕ → Scheduler → Scheduler
unfolding on_cancel
cancel_recurring i s =
    if any (has_recurring_id i) s.recurrings
    then on_cancel i recurring
        (record s { recurrings = update (has_recurring_id i) set_cancelled s.recurrings })
    else s

-- A row of the listing.
pub record Listed : Type 0 where
  pub id : ℕ
  pub type : ScheduleType
  pub topic : String
  pub payload : Payload
  pub fire_at_or_next : ℕ
  pub status : Status
  pub created_at : ℕ

abbrev pub listed_one_shot : OneShot → Listed
listed_one_shot r = record {
  id = r.id;
  type = one_shot;
  topic = r.topic;
  payload = r.payload;
  fire_at_or_next = r.fire_at;
  status = r.status;
  created_at = r.created_at;
}

abbrev pub listed_recurring : Recurring → Listed
listed_recurring r = record {
  id = r.id;
  type = recurring;
  topic = r.topic;
  payload = r.payload;
  fire_at_or_next = r.next_fire_at;
  status = r.status;
  created_at = r.created_at;
}

-- `WHERE status = ?`, where there is a filter.
abbrev pub has_status : Option Status → Status → Bool
has_status none s = true
has_status (some t) s = is_status s t

-- ORDER BY created_at DESC
abbrev pub newer : Listed → Listed → Bool
newer r s = ltb s.created_at r.created_at

unfoldable pub list_all : Option Status → Scheduler → List Listed
list_all filter s =
    sort newer (map listed_one_shot (select (λ r. has_status filter r.status) s.one_shots))
    ++ sort newer (map listed_recurring (select (λ r. has_status filter r.status) s.recurrings))
