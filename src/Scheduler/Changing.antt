-- ===== src/Scheduler/Changing.antt =====
-- The statements on the recurring schedules change nothing else.
use yodoca.Base.{
  ℕ, ◌≡◌, refl, ap, ◌∙◌, String, Option, none, some, List, [], ◌∷◌, ◌||◌, is_some, select, find,
  if_both,
}
use yodoca.Scheduler.{
  Status, Recurring, Scheduler, has_recurring_id, set_cancelled, is_status, cancelled, is_over,
}
use yodoca.Scheduler.Recurrence.{
  Cron, compute_next_fire, or_else, is_missed, write_next, write_changes, advance_row,
  advance_found, advance_next, recover_rows, recover_recurring, update_schedule, set_status,
  update_row, update_found, update_recurring,
}

-- At most the table of the recurring schedules has changed, where there is a result.
unfoldable pub KeepsRest : Scheduler → Option Scheduler → Type 0
KeepsRest s none = Unit
KeepsRest s (some s') = s' ≡ record s { recurrings = s'.recurrings }

unfoldable pub KeepsRestUpdate : Scheduler → Option (Option ℕ × Scheduler) → Type 0
KeepsRestUpdate s none = Unit
KeepsRestUpdate s (some (t, s')) = s' ≡ record s { recurrings = s'.recurrings }

KeepsRest-some :
    (s s' : Scheduler) → s' ≡ record s { recurrings = s'.recurrings } → KeepsRest s (some s')
unfolding KeepsRest
KeepsRest-some s s' e = e

KeepsRestUpdate-some :
    (s : Scheduler) (t : Option ℕ) (s' : Scheduler)
    → s' ≡ record s { recurrings = s'.recurrings }
    → KeepsRestUpdate s (some (t, s'))
unfolding KeepsRestUpdate
KeepsRestUpdate-some s t s' e = e

write_next-KeepsRest : (i : ℕ) (t : Option ℕ) (s : Scheduler) → KeepsRest s (write_next i t s)
unfolding KeepsRest write_next
write_next-KeepsRest i none s = tt
write_next-KeepsRest i (some t) s = refl

write_changes-KeepsRest :
    (expr : Option String) (every : Option ℕ) (until : Option (Option ℕ)) (status : Option Status)
    (r : Recurring) (t : Option ℕ) (s : Scheduler)
    → KeepsRestUpdate s (write_changes expr every until status r t s)
unfolding KeepsRestUpdate write_changes
write_changes-KeepsRest expr every until status r none s = tt
write_changes-KeepsRest expr every until status r (some t) s = refl

module _ (cron : Cron) where
  update_found-KeepsRest :
      (expr : Option String) (every : Option ℕ) (until : Option (Option ℕ)) (status : Option Status)
      (now : ℕ) (r : Option Recurring) (s : Scheduler)
      → KeepsRestUpdate s (update_found cron expr every until status now r s)
  unfolding update_found update_row
  update_found-KeepsRest expr every until status now none s = KeepsRestUpdate-some s none s refl
  update_found-KeepsRest expr every until status now (some r) s =
      if_both (KeepsRestUpdate s) (is_status r.status cancelled)
        (KeepsRestUpdate-some s none s refl)
        (if_both (KeepsRestUpdate s) (is_some expr || is_some every || is_some until)
          (write_changes-KeepsRest expr every until status r
            (compute_next_fire cron (or_else expr r.cron_expr) (or_else every r.every_sec) now) s)
          (if_both (KeepsRestUpdate s) (is_some status)
            (KeepsRestUpdate-some s (some r.next_fire_at)
              (update_schedule r.id (set_status status) s) refl)
            (KeepsRestUpdate-some s (some r.next_fire_at) s refl)))

  pub update_recurring-KeepsRest :
      (j : ℕ) (expr : Option String) (every : Option ℕ) (until : Option (Option ℕ))
      (status : Option Status) (now : ℕ) (s : Scheduler)
      → KeepsRestUpdate s (update_recurring cron j expr every until status now s)
  unfolding update_recurring
  update_recurring-KeepsRest j expr every until status now s =
      update_found-KeepsRest expr every until status now _ s

  advance_row-KeepsRest :
      (r : Recurring) (now : ℕ) (s : Scheduler) → KeepsRest s (advance_row cron r now s)
  unfolding advance_row
  advance_row-KeepsRest r now s =
      if_both (KeepsRest s) (is_over r.until_at now)
        (KeepsRest-some s (update_schedule r.id set_cancelled s) refl)
        (write_next-KeepsRest r.id (compute_next_fire cron r.cron_expr r.every_sec now) s)

  pub advance_next-KeepsRest :
      (i : ℕ) (now : ℕ) (s : Scheduler) → KeepsRest s (advance_next cron i now s)
  unfolding KeepsRest advance_next advance_found
  advance_next-KeepsRest i now s = go (find (has_recurring_id i) s.recurrings)
    where
      go : (r : Option Recurring) → KeepsRest s (advance_found cron r now s)
      go none = refl
      go (some r) = advance_row-KeepsRest r now s

  recover_rows-KeepsRest :
      (rs : List Recurring) (now : ℕ) (s : Scheduler) (o : Option Scheduler)
      → KeepsRest s o
      → KeepsRest s (recover_rows cron rs now o)
  unfolding KeepsRest recover_rows
  recover_rows-KeepsRest rs now s none h = tt
  recover_rows-KeepsRest [] now s (some s') h = h
  recover_rows-KeepsRest (r ∷ rs) now s (some s') h =
      recover_rows-KeepsRest rs now s (advance_row cron r now s')
        (later (advance_row cron r now s') (advance_row-KeepsRest r now s'))
    where
      later : (o : Option Scheduler) → KeepsRest s' o → KeepsRest s o
      later none k = tt
      later (some q) k =
          k ∙ ap {A = Scheduler} {B = Scheduler} (λ z. record z { recurrings = q.recurrings }) h

  pub recover_recurring-KeepsRest :
      (now : ℕ) (s : Scheduler) → KeepsRest s (recover_recurring cron now s)
  unfolding KeepsRest recover_recurring
  recover_recurring-KeepsRest now s =
      recover_rows-KeepsRest (select (is_missed now) s.recurrings) now s (some s) refl
