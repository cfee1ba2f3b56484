-- ===== src/Events/Examples.antt =====
-- The event journal and the bus on concrete rows, handlers and waits.
use yodoca.Base.{
  ◌==◌, zero, suc, ◌≡◌, refl, String, true, false, none, some, List, [], ◌∷◌, ◌+◌, arith, length,
  count, All, Distinct,
}
use yodoca.Events.Journal.{
  Json, Returning, pending, processing, Row, EventRow, Journal, contains, claimed_ids,
  claim_pending, is_stale, recover_stale,
}
use yodoca.Events.Journal.Returned.{IsRead, claim_pending-returns}
use yodoca.Events.Journal.Recovery.{recover_stale-recovered}
use yodoca.Events.Journal.Validity.{IsValid}
use yodoca.Events.Bus.{
  Event, Effect, completed, raised, timed_out, publishes, watchdog_round, stops, cancels_loop,
  Handler, Config, Bus, handlers_of, deliver, dispatch_loop,
}
use yodoca.Events.Bus.Invariant.{is_broken, dispatch_loop-IsValid}
use yodoca.Events.Bus.Settling.{Settles, deliver-Settles}

-- A payload is its own text.
abbrev plain : Json String
plain = record {
  dumps = λ p. p;
  loads = some;
  schedule_id = λ p. none;
  schedule_type = λ p. none;
  loads-dumps = λ p. refl;
}

abbrev in_order : Returning
in_order = record {
  arrange = λ rows. rows;
  All-arrange = λ P rows h. h;
  Distinct-arrange = λ rows h. h;
  count-arrange = λ p rows. refl;
  length-arrange = λ rows. refl;
}

abbrev young : Row
young = record {
  id = 1;
  correlation_id = none;
  topic = "user.message";
  source = "cli";
  payload = "hello";
  status = pending;
  retry_count = 0;
  created_at = 9;
  processed_at = none;
  error = none;
  processing_since = none;
}

abbrev old : Row
old = record young { id = 2; created_at = 4; retry_count = 3 }

abbrev stuck : Row
stuck = record young { id = 3; created_at = 2; status = processing; processing_since = some 3 }

abbrev three : Journal
three = record { rows = young ∷ old ∷ stuck ∷ []; next_id = 4; completed = [] }

three-Distinct : Distinct (λ (r : Row). r.id) three.rows
three-Distinct = (
  ((λ e. omega (arith, e)), ((λ e. omega (arith, e)), tt)),
  (((λ e. omega (arith, e)), tt), (tt, tt)),
)

three-IsValid : IsValid plain 3 [] three
three-IsValid = record {
  sound = (
    (omega arith, refl, omega arith),
    ((omega arith, refl, omega arith), ((omega arith, refl, omega arith), tt)),
  );
  distinct = three-Distinct;
  covered = tt;
  once = tt;
}

abbrev limits : Config
limits = record { batch_size = 1; max_retries = 3; stale_timeout = 60; timeout_text = "30" }

-- It publishes an event and fails at its first call, and returns at every other.
abbrev flaky : Handler String
flaky zero event = (raised "down", publishes "user.reply" "agent" "hi" none ∷ watchdog_round ∷ [])
flaky (suc n) event = (completed, [])

abbrev slow : Handler String
slow calls event = (timed_out, [])

abbrev bus : Bus String
bus = record {
  journal = three;
  subscribers = ("user.message", (flaky, "orchestrator") ∷ (slow, "logger") ∷ []) ∷ [];
  wake = false;
  stopped = false;
  clock = 0;
  calls = 0;
}

abbrev greeting : Event String
greeting = record {
  id = 2;
  topic = "user.message";
  source = "cli";
  payload = "hello";
  created_at = 4;
  correlation_id = none;
  status = processing;
  retry_count = 3;
}

-- A publication is waited for, then the bus is stopped, which also ends the third wait.
abbrev stopped_later : List (List (Effect String))
stopped_later =
    [] ∷ (publishes "user.reply" "cli" "more" none ∷ []) ∷ (stops ∷ cancels_loop ∷ []) ∷ []

dispatch_loop-IsValid_example :
    IsValid plain 3 []
      (dispatch_loop plain in_order (λ n. 100 + n) limits stopped_later bus).0.journal
    × (is_broken (dispatch_loop plain in_order (λ n. 100 + n) limits stopped_later bus).1 ≡ false)
dispatch_loop-IsValid_example =
    dispatch_loop-IsValid plain in_order (λ n. 100 + n) limits stopped_later bus three-IsValid

deliver-Settles_example :
    Settles plain in_order
      (λ n. 100 + n)
      limits
      (handlers_of "user.message" bus.subscribers)
      greeting
      bus
      (deliver plain in_order (λ n. 100 + n) limits greeting bus)
deliver-Settles_example = deliver-Settles plain in_order (λ n. 100 + n) limits greeting bus

claim_pending-returns_example :
    (es : List (EventRow String)) × ((claim_pending plain in_order 10 1 three).1 ≡ some es)
    × (length es ≡ 1)
    × All (λ e. contains (claimed_ids 1 three) e.id ≡ true) es
    × All
        (λ r. contains (claimed_ids 1 three) r.id ≡ true → count (λ e. r.id == e.id) es ≡ 1)
        three.rows
    × All (IsRead plain three.rows) es
claim_pending-returns_example =
    claim_pending-returns plain in_order 10 1 three three-Distinct (refl, (refl, (refl, tt)))

recover_stale-recovered_example :
    ((recover_stale 100 60 3 three).0.rows
      ≡ young
        ∷ old
        ∷ record stuck { status = pending; retry_count = 1; processing_since = none }
        ∷ [])
    × ((recover_stale 100 60 3 three).1.0 ≡ 1)
    × ((recover_stale 100 60 3 three).1.1 ≡ 0)
    × All (λ r. is_stale 100 60 r ≡ false) (recover_stale 100 60 3 three).0.rows
unfolding is_stale
recover_stale-recovered_example = recover_stale-recovered 100 60 3 three
