-- ===== src/Events/Bus/Invariant.antt =====
-- The journal under the bus stays valid, whatever handlers and other tasks do.
use yodoca.Base.{
  ℕ, suc, Option, none, some, Bool, any, if◌then◌else◌, ◌<◌, ◌≡◌, refl, inl, inr, true, false,
  String, List, [], ◌∷◌, map, arith, Bool-cases, ltb, if_both,
}
use yodoca.Events.Journal.{Json, Returning, EventRow}
use yodoca.Events.Journal.Validity
use yodoca.Events.Journal.Validity.{Flight, IsValid, flight_of}
use yodoca.Events.Bus.{
  Event, Effect, publishes, watchdog_round, completes_message, purges, stops, cancels_loop,
  is_interrupted, is_cancel, Ending, going, cut, broken, settle, Handler, Config, Bus, happen,
  happen_all, run_each, run_handlers, mark_delivery_result, deliver_to, deliver, event_of,
  deliver_rows, claim_and_deliver_batch, dispatch_loop, handlers_of,
}

abbrev pub is_broken : Ending → Bool
is_broken broken = true
is_broken ending = false

module _ {Payload : Type 0} (json : Json Payload) (db : Returning) (time : ℕ → ℕ)
    (config : Config) where
  abbrev pub IsKept : List Flight → Bus Payload → Type 0
  IsKept flights b = IsValid json config.max_retries flights b.journal

  happen-IsKept :
      (flights : List Flight) (e : Effect Payload) (b : Bus Payload)
      → IsKept flights b
      → IsKept flights (happen json db time config e b)
  unfolding happen
  happen-IsKept flights (publishes topic source payload correlation_id) b v =
      Validity.insert-IsValid json config.max_retries flights b.journal (time b.clock) topic source
        payload correlation_id v
  happen-IsKept flights watchdog_round b v =
      Validity.recover_stale-IsValid json config.max_retries flights b.journal (time b.clock)
        config.stale_timeout v
  happen-IsKept flights (completes_message i) b v =
      Validity.record-IsValid json config.max_retries flights b.journal (time b.clock) i v
  happen-IsKept flights (purges i t topics) b v =
      Validity.purge-IsValid json config.max_retries flights b.journal i t _ v
  happen-IsKept flights stops b v = v
  happen-IsKept flights cancels_loop b v = v

  pub happen_all-IsKept :
      (flights : List Flight) (es : List (Effect Payload)) (b : Bus Payload)
      → IsKept flights b
      → IsKept flights (happen_all json db time config es b)
  unfolding happen_all
  happen_all-IsKept flights [] b v = v
  happen_all-IsKept flights (e ∷ es) b v =
      happen_all-IsKept flights es _ (happen-IsKept flights e b v)

  pub run_each-IsKept :
      (flights : List Flight) (hs : List (Handler Payload × String)) (event : Event Payload)
      (b : Bus Payload)
      → IsKept flights b
      → IsKept flights (run_each json db time config hs event b).0
  unfolding run_each
  run_each-IsKept flights [] event b v = v
  run_each-IsKept flights ((handler, subscriber_id) ∷ rest) event b v =
      let kept =
        happen_all-IsKept flights (handler b.calls event).1 (record b { calls = suc b.calls }) v in
      if_both {A = Bus Payload × Option (List String)} (λ q. IsKept flights q.0)
        (is_interrupted (handler b.calls event).0) kept (run_each-IsKept flights rest event _ kept)

  -- The flight of an event that is being delivered.
  abbrev flight : Event Payload → Flight
  flight e = record { id = e.id; retry_count = e.retry_count }

  mark-IsKept :
      (flights : List Flight) (event : Event Payload) (errors : List String) (b : Bus Payload)
      → IsKept (flight event ∷ flights) b
      → IsKept flights (mark_delivery_result json db time config event errors b)
  unfolding mark_delivery_result
  mark-IsKept flights event [] b v =
      Validity.mark_done-IsValid json config.max_retries flights b.journal (time b.clock) event.id
        (Validity.settle-IsValid json config.max_retries (flight event) flights b.journal v)
  mark-IsKept flights event (e ∷ errors) b v =
      elim (Bool-cases (ltb event.retry_count config.max_retries)) [
        | inl low ↦ rw low (
            Validity.mark_retry-IsValid json config.max_retries (flight event) flights b.journal
              (is_low event.retry_count low) v)
        | inr high ↦ rw high (
            Validity.mark_dead_letter-IsValid json config.max_retries flights b.journal
              (time b.clock) event.id _
              (Validity.settle-IsValid json config.max_retries (flight event) flights b.journal v))
      ]
    where
      is_low : (n : ℕ) → ltb n config.max_retries ≡ true → n < config.max_retries
      is_low n h = ground arith

  settle-IsKept :
      (flights : List Flight) (event : Event Payload) (q : Bus Payload × Option (List String))
      → IsKept (flight event ∷ flights) q.0
      → IsKept flights (settle json db time config event q).0
  settle-IsKept flights event (b, none) v =
      Validity.settle-IsValid json config.max_retries (flight event) flights b.journal v
  settle-IsKept flights event (b, some errors) v = mark-IsKept flights event errors b v

  deliver_to-IsKept :
      (flights : List Flight) (hs : List (Handler Payload × String)) (event : Event Payload)
      (b : Bus Payload)
      → IsKept (flight event ∷ flights) b
      → IsKept flights (deliver_to json db time config hs event b).0
  unfolding deliver_to run_handlers
  deliver_to-IsKept flights [] event b v =
      Validity.mark_done-IsValid json config.max_retries flights b.journal (time b.clock) event.id
        (Validity.settle-IsValid json config.max_retries (flight event) flights b.journal v)
  deliver_to-IsKept flights (h ∷ hs) event b v =
      settle-IsKept flights event
        (run_each json db time config (handlers_of event.topic b.subscribers) event b)
        (run_each-IsKept (flight event ∷ flights) (handlers_of event.topic b.subscribers) event b v)

  deliver_rows-IsKept :
      (rows : List (EventRow Payload)) (b : Bus Payload)
      → IsKept (map flight_of rows) b
      → IsKept [] (deliver_rows json db time config rows b).0
  unfolding deliver_rows deliver event_of
  deliver_rows-IsKept [] b v = v
  deliver_rows-IsKept (row ∷ rows) b v =
      let kept =
        deliver_to-IsKept (map flight_of rows) (handlers_of row.topic b.subscribers) (event_of row)
          b v in
      if_both {A = Bus Payload × Bool} (λ q. IsKept [] q.0) b.stopped
        (Validity.land-IsValid json config.max_retries _ b.journal v)
        (if_both {A = Bus Payload × Bool} (λ q. IsKept [] q.0)
          (deliver json db time config (event_of row) b).1 (deliver_rows-IsKept rows _ kept)
          (Validity.land-IsValid json config.max_retries _ _ kept))

  -- The journal is valid, and json.loads has not raised.
  abbrev IsSound : Bus Payload × Ending → Type 0
  IsSound (b, ending) = IsKept [] b × (is_broken ending ≡ false)

  going_on : (ok : Bool) → is_broken (if ok then going else cut) ≡ false
  going_on true = refl
  going_on false = refl

  batch-IsKept :
      (b : Bus Payload) → IsKept [] b → IsSound (claim_and_deliver_batch json db time config b)
  unfolding claim_and_deliver_batch
  batch-IsKept b v =
      let (es, eq, kept) =
        Validity.claim_pending-IsValid json config.max_retries db (time b.clock) config.batch_size
          b.journal v in
      rw (eq, claim_and_deliver_batch) ((deliver_rows-IsKept es _ kept, going_on _))

  loop-IsKept :
      (waits : List (List (Effect Payload))) (b : Bus Payload)
      → IsKept [] b
      → IsSound (dispatch_loop json db time config waits b)
  unfolding dispatch_loop
  loop-IsKept [] b v = (v, refl)
  loop-IsKept (during ∷ waits) b v = elim (Bool-cases b.stopped) [
    | inl e ↦ rw (e, dispatch_loop) ((v, refl))
    | inr e ↦ elim (Bool-cases (any is_cancel during)) [
      | inl c ↦ rw (e, c, dispatch_loop) ((happen_all-IsKept [] during b v, refl))
      | inr c ↦
          rw (e, c, dispatch_loop)
            (next (loop-IsKept waits)
              (claim_and_deliver_batch json db time config
                (record (happen_all json db time config during b) { wake = false }))
              (batch-IsKept _ (happen_all-IsKept [] during b v)))
    ]
  ]
    where
      next :
          ((b' : Bus Payload) → IsKept [] b' → IsSound (dispatch_loop json db time config waits b'))
          → (q : Bus Payload × Ending) → IsSound q
          → IsSound (elim q.1 [
            | going ↦ dispatch_loop json db time config waits q.0
            | cut ↦ (q.0, cut)
            | broken ↦ (q.0, broken)
          ])
      next rest (b', going) h = rest b' h.0
      next rest (b', cut) h = h
      next rest (b', broken) h = h

-- From a valid journal, whatever the handlers return, raise, or do to the bus, by whatever they are
-- interrupted, and whatever other tasks do while the loop waits, a stop included: the loop goes
-- on, was stopped or was cut off by an interruption, and never ended by an exception of json.loads;
-- and it leaves a journal in which ids are distinct and used up, payloads are readable, and no event
-- has been retried more than once beyond the limit.
pub dispatch_loop-IsValid :
    {Payload : Type 0} (json : Json Payload) (db : Returning) (time : ℕ → ℕ) (config : Config)
    (waits : List (List (Effect Payload))) (b : Bus Payload)
    → IsValid json config.max_retries [] b.journal
    → IsValid json config.max_retries [] (dispatch_loop json db time config waits b).0.journal
      × (is_broken (dispatch_loop json db time config waits b).1 ≡ false)
dispatch_loop-IsValid json db time config = loop-IsKept json db time config
