-- ===== src/Events/Bus.antt =====
-- core/events/bus.py: publish, subscribe, the dispatch loop's rounds and the watchdog's rounds.
-- Time is a function `time` of the number of readings so far. What other tasks and the handler
-- itself do to the bus while a handler is awaited is the list of effects that the handler returns.
pub mod Invariant
pub mod Settling
use Prim.Native.String.{◌++◌ as ◌+++◌}
use yodoca.Base.{
  ℕ, suc, String, Bool, true, false, Option, none, some, List, [], ◌∷◌, ◌++◌, ltb, if◌then◌else◌,
  same, any,
}
use yodoca.Events.Journal
use yodoca.Events.Journal.{Json, Returning, Status, processing, EventRow, Journal}

-- core/events/models.py
pub record Event (Payload : Type 0) : Type 0 where
  pub id : ℕ
  pub topic : String
  pub source : String
  pub payload : Payload
  pub created_at : ℕ
  pub correlation_id : Option String
  pub status : Status
  pub retry_count : ℕ

-- How the awaited handler ends: it returns, it is timed out, it raises, or it is interrupted by an
-- exception that `except Exception` lets pass, such as the CancelledError of `stop` or a SystemExit.
pub data Outcome : Type 0 where
  completed timed_out interrupted : Outcome
  raised : String → Outcome

-- What may happen to the bus while a handler is awaited or the loop waits. `stop` is two of these, as
-- it awaits the end of the watchdog between them: the flag, and the cancellation of the dispatch task,
-- which reaches what the task awaits: a wait ends by it, and a handler is interrupted by it or, where
-- it catches the CancelledError, ends otherwise.
pub data Effect (Payload : Type 0) : Type 0 where
  publishes : String → String → Payload → Option String → Effect Payload
  watchdog_round : Effect Payload
  completes_message : ℕ → Effect Payload
  purges : ℕ → String → Option (List String) → Effect Payload
  stops cancels_loop : Effect Payload

-- The first argument is the number of handler calls before this one.
abbrev pub Handler : Type 0 → Type 0
Handler Payload = ℕ → Event Payload → Outcome × List (Effect Payload)

abbrev pub Subscribers : Type 0 → Type 0
Subscribers Payload = List (String × List (Handler Payload × String))

-- `timeout_text` is the handler timeout as an f-string prints it.
pub record Config : Type 0 where
  pub batch_size : ℕ
  pub max_retries : ℕ
  pub stale_timeout : ℕ
  pub timeout_text : String

-- `clock` counts the readings of the time, `calls` the handler calls.
pub record Bus (Payload : Type 0) : Type 0 where
  pub journal : Journal
  pub subscribers : Subscribers Payload
  pub wake : Bool
  pub stopped : Bool
  pub clock : ℕ
  pub calls : ℕ

module _ {Payload : Type 0} where
  abbrev pub new : Bus Payload
  new = record {
    journal = Journal.empty;
    subscribers = [];
    wake = false;
    stopped = false;
    clock = 0;
    calls = 0;
  }

  -- `self._subscribers[topic].append(…)` on a defaultdict.
  add_subscriber : String → Handler Payload × String → Subscribers Payload → Subscribers Payload
  add_subscriber topic h [] = (topic, h ∷ []) ∷ []
  add_subscriber topic h ((t, hs) ∷ rest) =
      if same t topic then (t, hs ++ h ∷ []) ∷ rest else (t, hs) ∷ add_subscriber topic h rest

  pub subscribe : String → Handler Payload → String → Bus Payload → Bus Payload
  unfolding add_subscriber
  subscribe topic handler subscriber_id b = record b {
    subscribers = add_subscriber topic (handler, subscriber_id) b.subscribers;
  }

  -- `self._subscribers.get(topic, [])`
  unfoldable pub handlers_of : String → Subscribers Payload → List (Handler Payload × String)
  handlers_of topic [] = []
  handlers_of topic ((t, hs) ∷ rest) = if same t topic then hs else handlers_of topic rest

  pub start : Bus Payload → Bus Payload
  start b = record b { stopped = false }

  -- The part of `stop` before it cancels the tasks and closes the journal.
  pub stop : Bus Payload → Bus Payload
  stop b = record b { stopped = true; wake = true }

  pub recover : Bus Payload → Bus Payload × ℕ
  recover b =
      let (j, n) = Journal.reset_processing_to_pending b.journal in (record b { journal = j }, n)

  pub is_user_message_completed : ℕ → Bus Payload → Bool
  is_user_message_completed event_id b = Journal.is_user_message_completed event_id b.journal

  event_of : EventRow Payload → Event Payload
  event_of row = record {
    id = row.id;
    topic = row.topic;
    source = row.source;
    payload = row.payload;
    created_at = row.created_at;
    correlation_id = row.correlation_id;
    status = processing;
    retry_count = row.retry_count;
  }

abbrev pub is_interrupted : Outcome → Bool
is_interrupted interrupted = true
is_interrupted outcome = false

abbrev pub is_cancel : {Payload : Type 0} → Effect Payload → Bool
is_cancel cancels_loop = true
is_cancel effect = false

-- How far the dispatch loop has come: it goes on or was stopped, it was cut off by an interruption, or
-- json.loads has raised.
pub data Ending : Type 0 where
  going cut broken : Ending

abbrev pub purge_topics : Option (List String) → List String
purge_topics none = "system.agent.task" ∷ "system.agent.background" ∷ "system.user.notify" ∷ []
purge_topics (some []) = "system.agent.task" ∷ "system.agent.background" ∷ "system.user.notify" ∷ []
purge_topics (some (t ∷ ts)) = t ∷ ts

-- "; ".join(errors)
join_errors : List String → String
join_errors [] = ""
join_errors (e ∷ []) = e
join_errors (e ∷ f ∷ es) = e +++ "; " +++ join_errors (f ∷ es)

error_message : Config → String → Outcome → List String
error_message config subscriber_id completed = []
error_message config subscriber_id interrupted = []
error_message config subscriber_id timed_out =
    ("handler " +++ subscriber_id +++ " timed out after " +++ config.timeout_text +++ "s") ∷ []
error_message config subscriber_id (raised e) = e ∷ []

abbrev pub append_errors : List String → Option (List String) → Option (List String)
append_errors es none = none
append_errors es (some fs) = some (es ++ fs)

module _ {Payload : Type 0} (json : Json Payload) (db : Returning) (time : ℕ → ℕ)
    (config : Config) where
  pub publish : String → String → Payload → Option String → Bus Payload → Bus Payload × ℕ
  publish topic source payload correlation_id b =
      let (j, id) =
        Journal.insert json (time b.clock) topic source payload correlation_id b.journal in
      (record b { journal = j; wake = true; clock = suc b.clock }, id)

  -- One pass of the loop body of `_watchdog_loop` after the sleep.
  pub watchdog : Bus Payload → Bus Payload
  watchdog b =
      let (j, counts) =
        Journal.recover_stale (time b.clock) config.stale_timeout config.max_retries b.journal in
      record b { journal = j; clock = suc b.clock }

  pub record_user_message_completed : ℕ → Bus Payload → Bus Payload
  record_user_message_completed event_id b = record b {
    journal = Journal.record_user_message_completed (time b.clock) event_id b.journal;
    clock = suc b.clock;
  }

  unfoldable pub purge_scheduled_events :
      ℕ → String → Option (List String) → Bus Payload → Bus Payload × ℕ
  purge_scheduled_events schedule_id schedule_type topics b =
      let (j, n) =
        Journal.purge_scheduled_events json schedule_id schedule_type (purge_topics topics)
          b.journal in
      (record b { journal = j }, n)

  unfoldable pub happen : Effect Payload → Bus Payload → Bus Payload
  unfolding publish watchdog record_user_message_completed purge_scheduled_events stop
  happen (publishes topic source payload correlation_id) b =
      (publish topic source payload correlation_id b).0
  happen watchdog_round b = watchdog b
  happen (completes_message event_id) b = record_user_message_completed event_id b
  happen (purges schedule_id schedule_type topics) b =
      (purge_scheduled_events schedule_id schedule_type topics b).0
  happen stops b = stop b
  happen cancels_loop b = b

  unfoldable pub happen_all : List (Effect Payload) → Bus Payload → Bus Payload
  happen_all [] b = b
  happen_all (e ∷ es) b = happen_all es (happen e b)

  -- The loop of `_run_handlers`: every handler runs, also after one has failed. `none`: an interruption
  -- leaves the loop.
  pub run_each :
      List (Handler Payload × String)
      → Event Payload
      → Bus Payload
      → Bus Payload × Option (List String)
  unfolding error_message
  run_each [] event b = (b, some [])
  run_each ((handler, subscriber_id) ∷ rest) event b =
      let (outcome, effects) = handler b.calls event in
      let after = happen_all effects (record b { calls = suc b.calls }) in
      let (b', errors) = run_each rest event after in
      if is_interrupted outcome
      then (after, none)
      else (b', append_errors (error_message config subscriber_id outcome) errors)

  pub run_handlers : Event Payload → Bus Payload → Bus Payload × Option (List String)
  run_handlers event b = run_each (handlers_of event.topic b.subscribers) event b

  pub mark_delivery_result : Event Payload → List String → Bus Payload → Bus Payload
  unfolding join_errors
  mark_delivery_result event [] b = record b {
    journal = Journal.mark_done (time b.clock) event.id b.journal;
    clock = suc b.clock;
  }
  mark_delivery_result event (e ∷ errors) b =
      if ltb event.retry_count config.max_retries
      then record b { journal = Journal.mark_retry event.id b.journal }
      else record b {
        journal =
            Journal.mark_dead_letter (time b.clock) event.id (join_errors (e ∷ errors)) b.journal;
        clock = suc b.clock;
      }

  -- The end of `_deliver`; `false`: an interruption leaves it before the result is marked.
  abbrev pub settle : Event Payload → Bus Payload × Option (List String) → Bus Payload × Bool
  settle event (b, none) = (b, false)
  settle event (b, some errors) = (mark_delivery_result event errors b, true)

  -- Without handlers the loop gives no error, and the event is marked done as well.
  deliver_to : List (Handler Payload × String) → Event Payload → Bus Payload → Bus Payload × Bool
  deliver_to [] event b = (
    record b { journal = Journal.mark_done (time b.clock) event.id b.journal; clock = suc b.clock },
    true,
  )
  deliver_to (h ∷ hs) event b = settle event (run_handlers event b)

  pub deliver : Event Payload → Bus Payload → Bus Payload × Bool
  unfolding deliver_to
  deliver event b = deliver_to (handlers_of event.topic b.subscribers) event b

  deliver_rows : List (EventRow Payload) → Bus Payload → Bus Payload × Bool
  deliver_rows [] b = (b, true)
  deliver_rows (row ∷ rows) b =
      let (b', ok) = deliver (event_of row) b in
      let rest = deliver_rows rows b' in
      if b.stopped then (b, true) else if ok then rest else (b', false)

  -- The exception of json.loads leaves the dispatch loop, and so does an interruption.
  pub claim_and_deliver_batch : Bus Payload → Bus Payload × Ending
  claim_and_deliver_batch b =
      let (j, claimed) = Journal.claim_pending json db (time b.clock) config.batch_size b.journal in
      let b' = record b { journal = j; clock = suc b.clock } in
      elim claimed [
        | none ↦ (b', broken)
        | some rows ↦ let (b'', ok) = deliver_rows rows b' in (b'', if ok then going else cut)
      ]

  -- A run of `_dispatch_loop`, with one list of effects for each wait on `_wake`. It ends when the
  -- bus is stopped, by an exception, or with the given waits.
  pub dispatch_loop : List (List (Effect Payload)) → Bus Payload → Bus Payload × Ending
  dispatch_loop [] b = (b, going)
  dispatch_loop (during ∷ waits) b = elim b.stopped [
    | true ↦ (b, going)
    | false ↦ elim (any is_cancel during) [
      | true ↦ (happen_all during b, cut)
      | false ↦
          let (b', ending) =
            claim_and_deliver_batch (record (happen_all during b) { wake = false }) in
          elim ending [ going ↦ dispatch_loop waits b' | cut ↦ (b', cut) | broken ↦ (b', broken) ]
    ]
  ]
