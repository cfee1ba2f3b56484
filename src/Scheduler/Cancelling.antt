-- ===== src/Scheduler/Cancelling.antt =====
-- A schedule that is cancelled, and its events on the bus.
use mathlib.Core.Path.{subst}
use yodoca.Events.Journal
use yodoca.Base.{
  some, sym, All, All-map, true, false, ◌&&◌, ◌||◌, same, map, ℕ, ◌≡◌, refl, Bool, none, List, [],
  ◌∷◌, ◌++◌, count, delete, update, any, Bool-cases, inl, inr, arith,
}
use yodoca.Events.Journal.{
  Json, Returning, Row, is_scheduled as is_event_of, purge_scheduled_events,
}
use yodoca.Events.Bus.{
  publishes, watchdog_round, completes_message, stops, cancels_loop, Bus, Config, Effect, purges,
  purge_topics, happen, happen_all, purge_scheduled_events as bus_purge,
}
use yodoca.Scheduler.{
  one_shot, Payload, with_schedule_metadata, Scheduler, is_scheduled, cancel_one_shot, on_cancel,
  set_one_shot_cancelled,
}
use yodoca.Scheduler.Tools.{cancelled_schedule, cancel_schedule}

All-of_delete {ℓ} : {A : Type ℓ} (p : A → Bool) (xs : List A) → All (λ x. p x ≡ false) (delete p xs)
All-of_delete p [] = tt
All-of_delete p (x ∷ xs) = elim (Bool-cases (p x)) [
  | inl e ↦ rw e (All-of_delete p xs)
  | inr e ↦ rw e ((e, All-of_delete p xs))
]

-- An event that waits or is being delivered, under a topic of the system's agents and of the user.
pub is_open : Row → Bool
is_open r =
    elim r.status [ Journal.Status.pending ↦ true | Journal.Status.processing ↦ true | _ ↦ false ]
    && (same r.topic "system.agent.task"
        || same r.topic "system.agent.background"
        || same r.topic "system.user.notify")

count-cancelled :
    (i : ℕ) (rs : List _)
    → count (is_scheduled i) (update (is_scheduled i) set_one_shot_cancelled rs) ≡ 0
count-cancelled i [] = refl
count-cancelled i (r ∷ rs) = ground (arith, count-cancelled i rs)

-- An effect with its payload as the bus reads it.
abbrev pub translate : {P : Type 0} → (Payload → P) → Effect Payload → Effect P
translate as_read (publishes topic source p c) = publishes topic source (as_read p) c
translate as_read watchdog_round = watchdog_round
translate as_read (completes_message i) = completes_message i
translate as_read (purges i type topics) = purges i type topics
translate as_read stops = stops
translate as_read cancels_loop = cancels_loop

module _ {P : Type 0} (as_read : Payload → P) (json : Json P) (db : Returning) (time : ℕ → ℕ)
    (config : Config) where
  -- The bus after the effects of the extension.
  unfoldable pub bus_after : List (Effect Payload) → Bus P → Bus P
  unfolding happen_all
  bus_after es b = happen_all json db time config (map (translate as_read) es) b

  bus_after-append :
      (es fs : List (Effect Payload)) (b : Bus P)
      → bus_after (es ++ fs) b ≡ bus_after fs (bus_after es b)
  unfolding bus_after happen_all
  bus_after-append [] fs b = refl
  bus_after-append (e ∷ es) fs b =
      bus_after-append es fs (happen json db time config (translate as_read e) b)

  -- The text of the row stands for a payload with the marker of the one-shot schedule.
  abbrev pub IsMarked : ℕ → Row → Type 0
  IsMarked i r =
      (p : Payload) × (json.loads r.payload ≡ some (as_read (with_schedule_metadata p i one_shot)))

  -- A payload with the marker of schedule `i`, whose parts json_extract reads.
  module _ (i : ℕ)
      (reads_id : (p : Payload)
        → json.schedule_id (as_read (with_schedule_metadata p i one_shot)) ≡ some i)
      (reads_type : (p : Payload)
        → json.schedule_type (as_read (with_schedule_metadata p i one_shot))
          ≡ some "one_shot") where
    marked-is_event_of :
        (r : Row) (p : Payload)
        → json.loads r.payload ≡ some (as_read (with_schedule_metadata p i one_shot))
        → is_open r ≡ true
        → is_event_of json i "one_shot" (purge_topics none) r ≡ true
    unfolding is_event_of is_open
    marked-is_event_of r p e h = rw (e, reads_id p, reads_type p) (ground (arith, h))

    purged :
        (b : Bus P)
        → All
            (λ r. IsMarked i r → is_open r ≡ false)
            (bus_after (purges i "one_shot" none ∷ []) b).journal.rows
    unfolding bus_after happen_all happen bus_purge purge_scheduled_events
    purged b =
        All-map (λ r. is_event_of json i "one_shot" (purge_topics none) r ≡ false)
          (λ r. IsMarked i r → is_open r ≡ false)
          (delete (is_event_of json i "one_shot" (purge_topics none)) b.journal.rows)
          (λ r off m. elim (Bool-cases (is_open r)) [
            | inl o ↦ absurd (cc (off, marked-is_event_of r m.0 m.1 o))
            | inr c ↦ c
          ])
          (All-of_delete (is_event_of json i "one_shot" (purge_topics none)) b.journal.rows)

    -- Where json_extract reads the marker of the schedule: when `cancel_schedule` says that this one-shot
    -- schedule is cancelled, it is not scheduled any more; and on any bus, after the effects of the
    -- extension up to then, no event with its marker is pending or processing under the topics
    -- system.agent.task, system.agent.background and system.user.notify.
    pub cancel_schedule-purges :
        (s : Scheduler) (b : Bus P)
        → (cancel_schedule i one_shot s).0 ≡ cancelled_schedule i
        → (count (is_scheduled i) (cancel_schedule i one_shot s).1.one_shots ≡ 0)
          × All
              (λ r. IsMarked i r → is_open r ≡ false)
              (bus_after (cancel_schedule i one_shot s).1.log b).journal.rows
    unfolding cancel_schedule cancel_one_shot on_cancel
    cancel_schedule-purges s b h = elim (Bool-cases (any (is_scheduled i) s.one_shots)) [
      | inr e ↦ absurd (cc (rw e at h))
      | inl e ↦ rw e (
          (
            count-cancelled i s.one_shots,
            subst (λ q. All (λ r. IsMarked i r → is_open r ≡ false) q.journal.rows)
                (sym (bus_after-append s.log (purges i "one_shot" none ∷ []) b))
                (purged (bus_after s.log b)),
          ))
    ]
