-- ===== src/Scheduler/Rounds.antt =====
-- sandbox/extensions/scheduler/main.py: `start` and `run_background` as a machine that proceeds from
-- one await to the next, with the calls of the tools that come between them.
use yodoca.Base.{ℕ, String, Bool, true, false, Option, none, some, List, [], ◌∷◌, ◌++◌}
use yodoca.Events.Bus.{publishes}
use yodoca.Scheduler.{
  Status, ScheduleType, one_shot, recurring, Field, Payload, OneShot, Recurring, Scheduler,
  with_schedule_metadata, fetch_due_one_shot, mark_one_shot_fired, fetch_due_recurring,
}
use yodoca.Scheduler.Recurrence.{Cron, advance_next, recover_recurring}
use yodoca.Scheduler.Tools.{
  Result, schedule_once, schedule_recurring, cancel_schedule, update_recurring_schedule,
}

-- Where the extension is. `starting` is before `start`, `sleeping` before the sleep of
-- `run_background`. At `emitting` rows that were fetched are left to be emitted, at `marking` one
-- has just been emitted; the Bool says that this is in `start`. `crashed` is after an exception.
pub data Stage : Type 0 where
  starting sleeping crashed : Stage
  emitting : Bool → ℕ → List OneShot → Stage
  marking : Bool → ℕ → OneShot → List OneShot → Stage
  emitting_recurring : ℕ → List Recurring → Stage
  advancing : ℕ → Recurring → List Recurring → Stage

pub record Machine : Type 0 where
  pub stage : Stage
  pub store : Scheduler

-- A new database, before `start`.
abbrev pub new_machine : Machine
new_machine = record {
  stage = starting;
  store = record {
    one_shots = [];
    recurrings = [];
    next_one_shot = 1;
    next_recurring = 1;
    log = [];
  };
}

-- A call of a tool, with the time that it reads.
pub data Call : Type 0 where
  schedules_once :
      String
      → String
      → Option String
      → Option (List (String × Field))
      → Option ℕ
      → Option String
      → ℕ
      → Call
  schedules_recurring :
      String
      → String
      → Option String
      → Option (List (String × Field))
      → Option String
      → Option ℕ
      → Option String
      → ℕ
      → Call
  cancels : ℕ → ScheduleType → Call
  updates : ℕ → Option String → Option ℕ → Option String → Option Status → ℕ → Call

-- What happens next: the extension proceeds, at a time; a tool is called; the process is started
-- anew, at any point, with the tables as they are.
pub data Action : Type 0 where
  proceeds : ℕ → Action
  calls : Call → Action
  restarts : Action

-- `ctx.emit` with the payload and its marker, whose publication is noted.
unfoldable pub emit : String → Payload → ℕ → ScheduleType → Scheduler → Scheduler
unfolding with_schedule_metadata
emit topic payload id type s = record s {
  log = s.log ++ publishes topic "scheduler" (with_schedule_metadata payload id type) none ∷ [];
}

-- `start` behind `recover_recurring`, which may raise; its updates are not committed then.
unfoldable pub started : ℕ → Option Scheduler → Scheduler → Machine
unfolding fetch_due_one_shot
started t none s = record { stage = crashed; store = s }
started t (some s') s = record { stage = emitting true t (fetch_due_one_shot t s'); store = s' }

-- The loop behind `advance_next`, which may raise.
unfoldable pub advanced : ℕ → List Recurring → Option Scheduler → Scheduler → Machine
advanced now rs none s = record { stage = crashed; store = s }
advanced now rs (some s') s = record { stage = emitting_recurring now rs; store = s' }

module _ (cron : Cron) where
  unfoldable pub perform : Call → Scheduler → Result × Scheduler
  unfolding schedule_once schedule_recurring cancel_schedule update_recurring_schedule
  perform (schedules_once topic message channel_id extra delay at_iso now) s =
      schedule_once cron topic message channel_id extra delay at_iso now s
  perform (schedules_recurring topic message channel_id extra expr every until_iso now) s =
      schedule_recurring cron topic message channel_id extra expr every until_iso now s
  perform (cancels i type) s = cancel_schedule i type s
  perform (updates i expr every until_iso status now) s =
      update_recurring_schedule cron i expr every until_iso status now s

  unfoldable pub serve : Call → Scheduler → Scheduler
  unfolding perform
  serve c s = (perform c s).1

  unfoldable pub proceed : ℕ → Stage → Scheduler → Machine
  unfolding emit mark_one_shot_fired fetch_due_one_shot fetch_due_recurring advance_next
      recover_recurring
  proceed t starting s = started t (recover_recurring cron t s) s
  proceed t sleeping s = record { stage = emitting false t (fetch_due_one_shot t s); store = s }
  proceed t crashed s = record { stage = crashed; store = s }
  proceed t (emitting true now []) s = record { stage = sleeping; store = s }
  proceed t (emitting false now []) s = record {
    stage = emitting_recurring now (fetch_due_recurring now s);
    store = s;
  }
  proceed t (emitting b now (r ∷ rs)) s = record {
    stage = marking b now r rs;
    store = emit r.topic r.payload r.id one_shot s;
  }
  proceed t (marking b now r rs) s = record {
    stage = emitting b now rs;
    store = mark_one_shot_fired r.id s;
  }
  proceed t (emitting_recurring now []) s = record { stage = sleeping; store = s }
  proceed t (emitting_recurring now (r ∷ rs)) s = record {
    stage = advancing now r rs;
    store = emit r.topic r.payload r.id recurring s;
  }
  proceed t (advancing now r rs) s = advanced now rs (advance_next cron r.id now s) s

  unfoldable pub act : Action → Machine → Machine
  unfolding proceed serve
  act (proceeds t) m = proceed t m.stage m.store
  act (calls c) m = record m { store = serve c m.store }
  act restarts m = record m { stage = starting }

  unfoldable pub run : List Action → Machine → Machine
  unfolding act
  run [] m = m
  run (a ∷ rest) m = run rest (act a m)
