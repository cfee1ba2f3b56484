-- ===== src/Scheduler/Examples.antt =====
-- The scheduler's theorems and functions on concrete schedules.
use Prim.Native.Char.{code}
use yodoca.Base.{
  true, get, get-put, ◌&&◌, ltb, any, is_some, ◌&&◌, lstrip, rstrip, strip, is_empty, ℕ, suc, ◌+◌,
  ◌≤◌, ◌<◌, ◌≡◌, refl, String, false, Option, none, some, List, [], ◌∷◌, ◌==◌, All, count,
  if◌then◌else◌, same, arith,
}
use yodoca.Events.Bus.{publishes, Config, new}
use yodoca.Events.Journal.{Json, Returning}
use yodoca.Scheduler.{
  Field, marker, Payload, value, with_schedule_metadata, insert_recurring, scheduled, active,
  one_shot, object, text, OneShot, Recurring, Scheduler, is_scheduled, fetch_due_one_shot,
  cancel_one_shot, on_cancel,
}
use yodoca.Scheduler.Recurrence.{
  Cron, compute_next_fire, write_next, advance_row, recover_rows, recover_recurring,
}
use yodoca.Scheduler.Tools.{
  schedule_recurring, recurring_time, insert_every, until_time, created, unprinted, raises,
  cancel_schedule, cancelled_schedule,
}
use yodoca.Scheduler.Rounds.{
  schedules_recurring, started, serve, proceed, act, new_machine, Action, proceeds, calls, restarts,
  schedules_once, cancels, sleeping, run, perform,
}
use yodoca.Scheduler.Serving.{emissions}
use yodoca.Scheduler.Emissions.{is_restart, run-emissions}
use yodoca.Scheduler.Delivery.{run-delivers}
use yodoca.Scheduler.Running.{passes, gives, run-is_crashed}
use yodoca.Scheduler.Refusing.{perform-failed}
use yodoca.Scheduler.Cancelling.{IsMarked, is_open, bus_after, cancel_schedule-purges}

-- This croniter knows every minute, and the second 100 of one year, which is over at 100.
abbrev minutes : String → ℕ → Option ℕ
minutes e n =
    if same e "* * * * *"
    then some (n + 60)
    else if same e "1 0 1 1 * 0 1970"
    then if ltb n 100 then some 100 else none
    else none

minutes-later : (e : String) (n t : ℕ) → minutes e n ≡ some t → n < t
minutes-later e n t h = ground arith

abbrev cron : Cron
cron = record {
  next_time = minutes;
  is_space = λ c. code c == 32;
  parse_iso = λ t. none;
  to_utc_iso = λ t. if ltb t 253402300800 then some "" else none;
  next_later = minutes-later;
}

-- A schedule in five seconds, the two steps of `start`, a pass of the loop, and a restart between
-- the emission and the mark.
abbrev day : List Action
day =
    proceeds 10
    ∷ proceeds 10
    ∷ calls (schedules_once "system.user.notify" "hello" none none (some 5) none 12)
    ∷ proceeds 20
    ∷ proceeds 20
    ∷ restarts
    ∷ proceeds 30
    ∷ proceeds 30
    ∷ proceeds 30
    ∷ []

run-emissions_example : emissions 1 (run cron day new_machine).store ≤ suc (count is_restart day)
run-emissions_example = run-emissions cron 1 day

-- The schedule with the year is accepted before its time; after a restart the start raises.
abbrev year_over : List Action
year_over =
    proceeds 10
    ∷ calls (
        schedules_recurring "system.user.notify" "hello" none none (some "1 0 1 1 * 0 1970") none
          none 12)
    ∷ restarts
    ∷ proceeds 200
    ∷ []

run-is_crashed_example :
    (e : String) × (t : ℕ) × (now : ℕ) × ((any (gives cron e t) year_over ≡ true)
      × (is_some (minutes e t) ≡ true))
    × ((any (passes now) year_over ≡ true) × (minutes e now ≡ none))
unfolding run act proceed serve perform schedule_recurring recurring_time insert_every
    insert_recurring until_time is_empty strip lstrip rstrip recover_recurring recover_rows
    advance_row compute_next_fire write_next started
run-is_crashed_example = run-is_crashed cron year_over refl

abbrev hello : ℕ → ℕ → OneShot
hello i t = record {
  id = i;
  topic = "system.user.notify";
  payload = object (("text", text "hello") ∷ []);
  fire_at = t;
  status = scheduled;
  created_at = 1;
}

abbrev two_due : Scheduler
two_due = record {
  one_shots = hello 1 5 ∷ hello 2 6 ∷ [];
  recurrings = [];
  next_one_shot = 3;
  next_recurring = 1;
  log = [];
}

-- The second schedule is cancelled while the first one is emitted.
abbrev cancelled_meanwhile : List Action
cancelled_meanwhile =
    proceeds 10 ∷ calls (cancels 2 one_shot) ∷ proceeds 10 ∷ proceeds 10 ∷ proceeds 10 ∷ []

run-delivers_example :
    emissions 2 two_due
    < emissions 2
        (run cron
          (proceeds 10 ∷ cancelled_meanwhile)
          (record { stage = sleeping; store = two_due })).store
unfolding fetch_due_one_shot
run-delivers_example =
    run-delivers cron 2 10 two_due cancelled_meanwhile (omega arith) refl (omega arith)

-- The tool says that it is cancelled.
cancel_says_so : (perform cron (cancels 2 one_shot) two_due).0 ≡ cancelled_schedule 2
unfolding perform cancel_schedule cancel_one_shot on_cancel
cancel_says_so = refl

perform-failed_example : (perform cron (cancels 7 one_shot) two_due).1 ≡ two_due
unfolding perform cancel_schedule cancel_one_shot
perform-failed_example = perform-failed cron (cancels 7 one_shot) two_due refl

abbrev every_ten : ℕ → Option String → Option ℕ → Recurring
every_ten i expr until = record {
  id = i;
  topic = "system.agent.task";
  payload = object (("prompt", text "news") ∷ []);
  cron_expr = expr;
  every_sec = some 10;
  until_at = until;
  status = active;
  next_fire_at = 5;
  created_at = 1;
}

abbrev all_missed : Scheduler
all_missed = record two_due {
  recurrings =
      every_ten 1 none none ∷ every_ten 2 (some "* * * * *") none ∷ every_ten 3 none (some 7) ∷ [];
}

-- The row is committed, and then the tool raises as the time cannot be printed.
unprinted_after_write :
    (schedule_recurring cron "system.user.notify" "hello" none none none
      (some 1000000000000)
      none
      10
      two_due).0
    ≡ unprinted
unfolding schedule_recurring recurring_time insert_every insert_recurring until_time is_empty
unprinted_after_write = refl

-- Payloads as the bus reads them are texts here: "2" where the marker is that of the one-shot
-- schedule 2, and "other" otherwise.
abbrev read_marker : Option Field → String
read_marker (some (marker i one_shot)) = if i == 2 then "2" else "other"
read_marker f = "other"

abbrev as_read : Payload → String
as_read (object d) = read_marker (get "__schedule" d)
as_read (value v) = "other"

abbrev plain : Json String
plain = record {
  dumps = λ p. p;
  loads = some;
  schedule_id = λ p. if same p "2" then some 2 else none;
  schedule_type = λ p. if same p "2" then some "one_shot" else none;
  loads-dumps = λ p. refl;
}

as_read-two : (p : Payload) → as_read (with_schedule_metadata p 2 one_shot) ≡ "2"
unfolding with_schedule_metadata
as_read-two (object d) = rw (get-put "__schedule" "__schedule" (marker 2 one_shot) d) refl
as_read-two (value v) =
    rw (get-put "__schedule" "__schedule" (marker 2 one_shot) (("message", v) ∷ [])) refl

reads_id :
    (p : Payload) → plain.schedule_id (as_read (with_schedule_metadata p 2 one_shot)) ≡ some 2
reads_id p = rw (as_read-two p) refl

reads_type :
    (p : Payload)
    → plain.schedule_type (as_read (with_schedule_metadata p 2 one_shot)) ≡ some "one_shot"
reads_type p = rw (as_read-two p) refl

abbrev in_order : Returning
in_order = record {
  arrange = λ rows. rows;
  All-arrange = λ P rows h. h;
  Distinct-arrange = λ rows h. h;
  count-arrange = λ p rows. refl;
  length-arrange = λ rows. refl;
}

abbrev config : Config
config = record { batch_size = 3; max_retries = 3; stale_timeout = 300; timeout_text = "300" }

-- The event of the second schedule is in the queue.
abbrev one_queued : Scheduler
one_queued = record two_due {
  log =
      publishes "system.user.notify" "scheduler"
        (with_schedule_metadata (object (("text", text "hello") ∷ [])) 2 one_shot) none
      ∷ [];
}

cancel_schedule-purges_example :
    (count (is_scheduled 2) (cancel_schedule 2 one_shot one_queued).1.one_shots ≡ 0)
    × All
        (λ r. IsMarked as_read plain in_order (λ n. n) config 2 r → is_open r ≡ false)
        (bus_after as_read plain in_order
          (λ n. n)
          config
          (cancel_schedule 2 one_shot one_queued).1.log
          new).journal.rows
unfolding cancel_schedule cancel_one_shot on_cancel
cancel_schedule-purges_example =
    cancel_schedule-purges as_read plain in_order (λ n. n) config 2 reads_id reads_type one_queued
      new refl

-- Both a cron expression and an interval are taken, and neither with an empty text raises.
both_taken :
    (schedule_recurring cron "system.user.notify" "hello" none none
      (some "* * * * *")
      (some 5)
      none
      10
      two_due).0
    ≡ created 1 ""
unfolding schedule_recurring recurring_time insert_every insert_recurring until_time is_empty strip
    lstrip rstrip
both_taken = refl

empty_raises :
    (schedule_recurring cron "system.user.notify" "hello" none none
      (some "")
      none
      none
      10
      two_due).0
    ≡ raises
unfolding schedule_recurring recurring_time insert_every until_time is_empty
empty_raises = refl
