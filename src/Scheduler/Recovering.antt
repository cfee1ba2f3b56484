-- ===== src/Scheduler/Recovering.antt =====
-- `recover_recurring` deals with every recurring schedule whose time has passed.
use yodoca.Base.{
  ◌&&◌, not, is_nil, ℕ, ◌≡◌, Bool, true, false, ◌||◌, Option, none, some, List, All, any,
}
use yodoca.Scheduler.{Recurring, Scheduler, is_over, has_recurring_id}
use yodoca.Scheduler.Recurrence.{Cron, is_missed, compute_next_fire}
use yodoca.Scheduler.Tools.{is_given, has_interval}

-- The schedule has a cron expression or a positive interval.
abbrev pub is_repeating : Recurring → Bool
is_repeating r = is_given r.cron_expr || has_interval r.every_sec

-- A row of the list has the key of the schedule.
abbrev is_among : List Recurring → Recurring → Bool
is_among rs x = any (has_recurring_id x.id) rs

module _ (cron : Cron) (now : ℕ) where
  -- croniter has no next time for a schedule that is not over.
  abbrev pub is_expired : Recurring → Bool
  is_expired r =
      not (is_over r.until_at now) && is_nil (compute_next_fire cron r.cron_expr r.every_sec now)

  -- What is missed in a result is among the rows that are left.
  unfoldable IsCovered : List Recurring → Option Scheduler → Type 0
  IsCovered rs none = Unit
  IsCovered rs (some s) = All (λ x. is_missed now x ≡ true → is_among rs x ≡ true) s.recurrings

  -- No active schedule in a result is missed.
  unfoldable pub NoneMissed : Option Scheduler → Type 0
  NoneMissed none = Unit
  NoneMissed (some s) = All (λ x. is_missed now x ≡ false) s.recurrings
