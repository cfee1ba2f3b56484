-- ===== src/Scheduler/Recurrence.antt =====
-- sandbox/extensions/scheduler/main.py: the next time of a recurring schedule, and its changes.
use Prim.Native.Char.{Char}
use yodoca.Base.{
  or_old, ℕ, ◌+◌, ◌<◌, ◌≡◌, String, Bool, ◌&&◌, ◌||◌, Option, none, some, List, [], ◌∷◌, ltb,
  if◌then◌else◌, is_empty, is_some, select, update, find,
}
use yodoca.Scheduler.{
  Status, cancelled, active, Recurring, Scheduler, is_status, is_over, or_zero, has_recurring_id,
  set_cancelled, set_next,
}

-- What the code takes from outside: croniter, the next time of an expression after a given one, or
-- `none` where it raises, for an expression that it cannot read and for one without a time after the
-- given one, such as one with a year that is over; the white space of str.strip;
-- datetime.fromisoformat with timestamp(), `none` where it raises; and `_to_utc_iso`, `none` where
-- datetime.fromtimestamp raises as the time is out of its range.
pub record Cron : Type 0 where
  pub next_time : String → ℕ → Option ℕ
  pub is_space : Char → Bool
  pub parse_iso : String → Option ℕ
  pub to_utc_iso : ℕ → Option String
  pub next_later : (e : String) (now t : ℕ) → next_time e now ≡ some t → now < t

abbrev pub or_else {ℓ} : {A : Type ℓ} → Option A → Option A → Option A
or_else none b = b
or_else (some a) b = some a

abbrev pub set_changes :
    Option String → Option ℕ → Option (Option ℕ) → Option Status → ℕ → Recurring → Recurring
set_changes expr every until status next r = record r {
  cron_expr = or_else expr r.cron_expr;
  every_sec = or_else every r.every_sec;
  until_at = or_old until r.until_at;
  status = or_old status r.status;
  next_fire_at = next;
}

abbrev pub set_status : Option Status → Recurring → Recurring
set_status status r = record r { status = or_old status r.status }

-- `if new_until is not None and next_fire > new_until: next_fire = new_until`
abbrev pub clamp : Option ℕ → ℕ → ℕ
clamp none t = t
clamp (some u) t = if ltb u t then u else t

-- UPDATE recurring_schedules SET … WHERE id = ?
abbrev pub update_schedule : ℕ → (Recurring → Recurring) → Scheduler → Scheduler
update_schedule i f s = record s { recurrings = update (has_recurring_id i) f s.recurrings }

-- The write of the next time; `none` is the exception from before it.
unfoldable pub write_next : ℕ → Option ℕ → Scheduler → Option Scheduler
write_next i none s = none
write_next i (some t) s = some (update_schedule i (set_next t) s)

-- The write of the changes, of the next time among them.
unfoldable pub write_changes :
    Option String
    → Option ℕ
    → Option (Option ℕ)
    → Option Status
    → Recurring
    → Option ℕ
    → Scheduler
    → Option (Option ℕ × Scheduler)
write_changes expr every until status r none s = none
write_changes expr every until status r (some t) s =
    let next = clamp (or_old until r.until_at) t in
    some (some next, update_schedule r.id (set_changes expr every until status next) s)

-- status = 'active' AND next_fire_at < ?
abbrev pub is_missed : ℕ → Recurring → Bool
is_missed now r = is_status r.status active && ltb r.next_fire_at now

module _ (cron : Cron) where
  -- `croniter(expr, now).get_next(float)`
  abbrev pub next_of : String → ℕ → Option ℕ
  next_of e now = cron.next_time e now

  -- `_compute_next_fire`; `none` is the exception of croniter.
  unfoldable pub compute_next_fire : Option String → Option ℕ → ℕ → Option ℕ
  compute_next_fire none every now = some (now + or_zero every)
  compute_next_fire (some e) every now =
      if is_empty e then some (now + or_zero every) else next_of e now

  -- What `advance_next` and the loop of `recover_recurring` do with a row that was read.
  unfoldable pub advance_row : Recurring → ℕ → Scheduler → Option Scheduler
  unfolding compute_next_fire write_next
  advance_row r now s =
      if is_over r.until_at now
      then some (update_schedule r.id set_cancelled s)
      else write_next r.id (compute_next_fire r.cron_expr r.every_sec now) s

  unfoldable pub advance_found : Option Recurring → ℕ → Scheduler → Option Scheduler
  unfolding advance_row
  advance_found none now s = some s
  advance_found (some r) now s = advance_row r now s

  unfoldable pub advance_next : ℕ → ℕ → Scheduler → Option Scheduler
  unfolding advance_found
  advance_next i now s = advance_found (find (has_recurring_id i) s.recurrings) now s

  -- The loop of `recover_recurring` over the rows that were fetched.
  unfoldable pub recover_rows : List Recurring → ℕ → Option Scheduler → Option Scheduler
  unfolding advance_row
  recover_rows rs now none = none
  recover_rows [] now (some s) = some s
  recover_rows (r ∷ rs) now (some s) = recover_rows rs now (advance_row r now s)

  unfoldable pub recover_recurring : ℕ → Scheduler → Option Scheduler
  unfolding recover_rows
  recover_recurring now s = recover_rows (select (is_missed now) s.recurrings) now (some s)

  -- The body of `update_recurring` for the row that was found; `until` is `some` where `set_until`.
  unfoldable pub update_row :
      Option String
      → Option ℕ
      → Option (Option ℕ)
      → Option Status
      → (now : ℕ) → Recurring
      → Scheduler
      → Option (Option ℕ × Scheduler)
  unfolding compute_next_fire write_changes
  update_row expr every until status now r s =
      if is_status r.status cancelled
      then some (none, s)
      else if is_some expr || is_some every || is_some until
      then write_changes expr every until status r
          (compute_next_fire (or_else expr r.cron_expr) (or_else every r.every_sec) now) s
      else if is_some status
      then some (some r.next_fire_at, update_schedule r.id (set_status status) s)
      else some (some r.next_fire_at, s)

  unfoldable pub update_found :
      Option String
      → Option ℕ
      → Option (Option ℕ)
      → Option Status
      → (now : ℕ) → Option Recurring
      → Scheduler
      → Option (Option ℕ × Scheduler)
  unfolding update_row
  update_found expr every until status now none s = some (none, s)
  update_found expr every until status now (some r) s = update_row expr every until status now r s

  -- `none` is the exception of croniter, `some (none, …)` the return of None.
  unfoldable pub update_recurring :
      ℕ
      → Option String
      → Option ℕ
      → Option (Option ℕ)
      → Option Status
      → (now : ℕ) → Scheduler
      → Option (Option ℕ × Scheduler)
  unfolding update_found
  update_recurring i expr every until status now s =
      update_found expr every until status now (find (has_recurring_id i) s.recurrings) s
