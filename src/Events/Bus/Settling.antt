-- ===== src/Events/Bus/Settling.antt =====
-- `_deliver` of core/events/bus.py: what a delivery makes of its event.
use mathlib.Core.Path.{subst}
use yodoca.Base.{
  ◌⊎◌, any, is_nil, not, sym, Option, none, some, ℕ, suc, ◌+◌, ◌≡◌, refl, inl, inr, Bool, true,
  false, ◌&&◌, String, List, [], ◌∷◌, ◌++◌, arith, Bool-cases, ltb, ◌==◌, if◌then◌else◌, length,
  all, update, All, All-update, All-of, ap, ◌∙◌,
}
use yodoca.Events.Journal.{
  Json, Returning, Status, pending, done, dead_letter, Row, mark_done, mark_retry, mark_dead_letter,
}
use yodoca.Events.Bus.{
  Event, Outcome, completed, timed_out, raised, Effect, publishes, watchdog_round,
  completes_message, purges, stops, cancels_loop, interrupted, is_interrupted, append_errors,
  settle, Handler, Config, Bus, happen, happen_all, run_each, run_handlers, mark_delivery_result,
  deliver_to, deliver, handlers_of, error_message,
}

-- How each handler ends, when they are called one after the other from call number `calls` on.
abbrev pub outcomes :
    {Payload : Type 0} → ℕ → List (Handler Payload × String) → Event Payload → List Outcome
outcomes calls [] event = []
outcomes calls ((handler, _) ∷ rest) event =
    (handler calls event).0 ∷ outcomes (suc calls) rest event

-- The outcomes up to the first interruption.
abbrev pub until_cut : List Outcome → List Outcome
until_cut [] = []
until_cut (o ∷ os) = let rest = until_cut os in if is_interrupted o then o ∷ [] else o ∷ rest

-- What the handlers do up to the first one that is interrupted, its own effects included.
abbrev pub effects_until :
    {Payload : Type 0} → ℕ → List (Handler Payload × String) → Event Payload → List (Effect Payload)
effects_until calls [] event = []
effects_until calls ((handler, _) ∷ rest) event =
    let more = effects_until (suc calls) rest event in
    (handler calls event).1 ++ (if is_interrupted (handler calls event).0 then [] else more)

abbrev pub is_completed : Outcome → Bool
is_completed completed = true
is_completed _ = false

-- The status of the event's row after a delivery: done if every handler returned, otherwise
-- pending again below the retry limit, and a dead letter at it.
abbrev pub verdict : Config → ℕ → List Outcome → Status
verdict config retry_count os =
    if all is_completed os
    then done
    else if ltb retry_count config.max_retries
    then pending
    else dead_letter

abbrev pub HasStatus : ℕ → Status → Row → Type 0
HasStatus i s r = r.id ≡ i → r.status ≡ s

set_status :
    (i : ℕ) (s : Status) (f : Row → Row) (rows : List Row)
    → ((r : Row) → (f r).status ≡ s)
    → All (HasStatus i s) (update (λ r. r.id == i) f rows)
set_status i s f rows sets =
    All-update (λ _. Unit {0}) (HasStatus i s) _ f rows (λ r _ hit e. sets r)
      (λ r _ miss e. absurd (other r.id miss e)) (All-of (λ _. Unit {0}) rows (λ _. tt))
  where
    other : (n : ℕ) → (n == i) ≡ false → n ≡ i → ⊥
    other n miss e = ground arith

module _ {Payload : Type 0} (json : Json Payload) (db : Returning) (time : ℕ → ℕ)
    (config : Config) where
  calls-happen :
      (e : Effect Payload) (b : Bus Payload) → (happen json db time config e b).calls ≡ b.calls
  unfolding happen
  calls-happen (publishes topic source payload correlation_id) b = refl
  calls-happen watchdog_round b = refl
  calls-happen (completes_message i) b = refl
  calls-happen (purges i t topics) b = refl
  calls-happen stops b = refl
  calls-happen cancels_loop b = refl

  calls-happen_all :
      (es : List (Effect Payload)) (b : Bus Payload)
      → (happen_all json db time config es b).calls ≡ b.calls
  unfolding happen_all
  calls-happen_all [] b = refl
  calls-happen_all (e ∷ es) b =
      cc (calls-happen_all es (happen json db time config e b), calls-happen e b)

  -- The effects do not look at the number of calls.
  calls_apart :
      (n : ℕ) (e : Effect Payload) (b : Bus Payload)
      → happen json db time config e (record b { calls = n })
        ≡ record (happen json db time config e b) { calls = n }
  unfolding happen
  calls_apart n (publishes topic source payload correlation_id) b = refl
  calls_apart n watchdog_round b = refl
  calls_apart n (completes_message i) b = refl
  calls_apart n (purges i t topics) b = refl
  calls_apart n stops b = refl
  calls_apart n cancels_loop b = refl

  journal-happen_all :
      (n : ℕ) (es : List (Effect Payload)) (b : Bus Payload)
      → (happen_all json db time config es (record b { calls = n })).journal
        ≡ (happen_all json db time config es b).journal
  unfolding happen_all
  journal-happen_all n [] b = refl
  journal-happen_all n (e ∷ es) b =
      ap (λ q. (happen_all json db time config es q).journal) (calls_apart n e b)
      ∙ journal-happen_all n es (happen json db time config e b)

  happen_all-append :
      (es fs : List (Effect Payload)) (b : Bus Payload)
      → happen_all json db time config (es ++ fs) b
        ≡ happen_all json db time config fs (happen_all json db time config es b)
  unfolding happen_all
  happen_all-append [] fs b = refl
  happen_all-append (e ∷ es) fs b = happen_all-append es fs (happen json db time config e b)

  happen_calls :
      (n : ℕ) (es : List (Effect Payload)) (b : Bus Payload)
      → happen_all json db time config es (record b { calls = n })
        ≡ record (happen_all json db time config es b) { calls = n }
  unfolding happen_all
  happen_calls n [] b = refl
  happen_calls n (e ∷ es) b =
      ap (happen_all json db time config es) (calls_apart n e b)
      ∙ happen_calls n es (happen json db time config e b)

  abbrev run :
      List (Handler Payload × String)
      → Event Payload
      → Bus Payload
      → Bus Payload × Option (List String)
  run = run_each json db time config

  -- The bus behind the first handler.
  abbrev after : Handler Payload → Event Payload → Bus Payload → Bus Payload
  after handler event b =
      happen_all json db time config (handler b.calls event).1 (record b { calls = suc b.calls })

  calls-after :
      (handler : Handler Payload) (event : Event Payload) (b : Bus Payload)
      → (after handler event b).calls ≡ suc b.calls
  calls-after handler event b =
      calls-happen_all (handler b.calls event).1 (record b { calls = suc b.calls })

  calls-run_each :
      (hs : List (Handler Payload × String)) (event : Event Payload) (b : Bus Payload)
      → (run hs event b).0.calls ≡ b.calls + length (until_cut (outcomes b.calls hs event))
  unfolding run_each
  calls-run_each [] event b = omega arith
  calls-run_each ((handler, subscriber_id) ∷ rest) event b =
      elim (Bool-cases (is_interrupted (handler b.calls event).0)) [
        | inl e ↦ rw e (omega (arith, calls-after handler event b))
        | inr e ↦ rw e (
            omega (
              arith,
              calls-run_each rest event (after handler event b)
                  ∙ ap (λ n. n + length (until_cut (outcomes n rest event)))
                      (calls-after handler event b),
            ))
      ]

  journal-run_each :
      (hs : List (Handler Payload × String)) (event : Event Payload) (b : Bus Payload)
      → (run hs event b).0.journal
        ≡ (happen_all json db time config (effects_until b.calls hs event) b).journal
  unfolding run_each happen_all
  journal-run_each [] event b = refl
  journal-run_each ((handler, subscriber_id) ∷ rest) event b =
      elim (Bool-cases (is_interrupted (handler b.calls event).0)) [
        | inl e ↦ rw e (
            journal-happen_all (suc b.calls) (handler b.calls event).1 b
            ∙ ap (λ q. q.journal) (sym (happen_all-append (handler b.calls event).1 [] b)))
        | inr e ↦ rw e (
            journal-run_each rest event (after handler event b)
            ∙ ap
                (λ n.
                  (happen_all json db time config (effects_until n rest event)
                    (after handler event b)).journal)
                (calls-after handler event b)
            ∙ ap
                (λ q.
                  (happen_all json db time config (effects_until (suc b.calls) rest event)
                    q).journal)
                (happen_calls (suc b.calls) (handler b.calls event).1 b)
            ∙ journal-happen_all (suc b.calls) (effects_until (suc b.calls) rest event)
                (happen_all json db time config (handler b.calls event).1 b)
            ∙ ap (λ q. q.journal)
                (sym (
                  happen_all-append (handler b.calls event).1
                    (effects_until (suc b.calls) rest event) b)))
      ]

  is_nil-append_errors :
      (es : List String) (o : Option (List String)) → is_nil (append_errors es o) ≡ is_nil o
  is_nil-append_errors es none = refl
  is_nil-append_errors es (some fs) = refl

  is_nil-run_each :
      (hs : List (Handler Payload × String)) (event : Event Payload) (b : Bus Payload)
      → is_nil (run hs event b).1 ≡ any is_interrupted (outcomes b.calls hs event)
  unfolding run_each
  is_nil-run_each [] event b = refl
  is_nil-run_each ((handler, subscriber_id) ∷ rest) event b =
      elim (Bool-cases (is_interrupted (handler b.calls event).0)) [
        | inl e ↦ rw e refl
        | inr e ↦ rw e (
            is_nil-append_errors (error_message config subscriber_id (handler b.calls event).0)
              (run rest event (after handler event b)).1
            ∙ is_nil-run_each rest event (after handler event b)
            ∙ ap (λ n. any is_interrupted (outcomes n rest event)) (calls-after handler event b))
      ]

  is_empty : List String → Bool
  is_empty [] = true
  is_empty (e ∷ es) = false

  -- There are no errors, and no interruption.
  is_clean : Option (List String) → Bool
  unfolding is_empty
  is_clean none = false
  is_clean (some es) = is_empty es

  clean_start : is_clean (some []) ≡ true
  unfolding is_clean is_empty
  clean_start = refl

  no_errors :
      (subscriber_id : String) (o : Outcome) (r : Option (List String))
      → is_interrupted o ≡ false
      → is_clean (append_errors (error_message config subscriber_id o) r)
        ≡ (is_completed o && is_clean r)
  unfolding is_clean is_empty error_message
  no_errors subscriber_id completed none h = refl
  no_errors subscriber_id completed (some es) h = refl
  no_errors subscriber_id timed_out none h = refl
  no_errors subscriber_id timed_out (some es) h = refl
  no_errors subscriber_id interrupted r h = absurd (cc (h))
  no_errors subscriber_id (raised e) none h = refl
  no_errors subscriber_id (raised e) (some es) h = refl

  interrupted_fails : (o : Outcome) → is_interrupted o ≡ true → is_completed o ≡ false
  interrupted_fails completed h = absurd (cc (h))
  interrupted_fails timed_out h = refl
  interrupted_fails interrupted h = refl
  interrupted_fails (raised e) h = refl

  is_clean-run_each :
      (hs : List (Handler Payload × String)) (event : Event Payload) (b : Bus Payload)
      → is_clean (run hs event b).1 ≡ all is_completed (outcomes b.calls hs event)
  unfolding run_each
  is_clean-run_each [] event b = clean_start
  is_clean-run_each ((handler, subscriber_id) ∷ rest) event b =
      elim (Bool-cases (is_interrupted (handler b.calls event).0)) [
        | inl e ↦ rw (e, interrupted_fails _ e) (unfold is_clean in refl)
        | inr e ↦ rw e (
            no_errors subscriber_id (handler b.calls event).0
              (run rest event (after handler event b)).1 e
            ∙ ap (λ t. is_completed (handler b.calls event).0 && t)
                (is_clean-run_each rest event (after handler event b)
                  ∙ ap (λ n. all is_completed (outcomes n rest event))
                      (calls-after handler event b)))
      ]

  settled :
      (event : Event Payload) (errors : List String) (b : Bus Payload)
      → All
          (HasStatus event.id (
            if is_empty errors
            then done
            else if ltb event.retry_count config.max_retries
            then pending
            else dead_letter))
          (mark_delivery_result json db time config event errors b).journal.rows
  unfolding mark_delivery_result is_empty mark_done mark_retry mark_dead_letter
  settled event [] b = set_status event.id done _ b.journal.rows (λ r. refl)
  settled event (e ∷ errors) b = elim (Bool-cases (ltb event.retry_count config.max_retries)) [
    | inl low ↦ rw low (set_status event.id pending _ b.journal.rows (λ r. refl))
    | inr high ↦ rw high (set_status event.id dead_letter _ b.journal.rows (λ r. refl))
  ]

  calls-mark :
      (event : Event Payload) (errors : List String) (b : Bus Payload)
      → (mark_delivery_result json db time config event errors b).calls ≡ b.calls
  unfolding mark_delivery_result
  calls-mark event [] b = refl
  calls-mark event (e ∷ errors) b = ground arith

  -- What a delivery by the handlers `hs`, started on `b`, makes of its event.
  abbrev pub Settles :
      List (Handler Payload × String) → Event Payload → Bus Payload → Bus Payload × Bool → Type 0
  Settles hs event b (b', ended) =
      (ended ≡ not (any is_interrupted (outcomes b.calls hs event)))
      × (b'.calls ≡ b.calls + length (until_cut (outcomes b.calls hs event)))
      × (((any is_interrupted (outcomes b.calls hs event) ≡ false)
            × All
                (HasStatus event.id (verdict config event.retry_count (outcomes b.calls hs event)))
                b'.journal.rows)
          ⊎ ((any is_interrupted (outcomes b.calls hs event) ≡ true)
              × (b'.journal
                  ≡ (happen_all json db time config (effects_until b.calls hs event) b).journal)))

  Settles-settle :
      (hs : List (Handler Payload × String)) (event : Event Payload) (b : Bus Payload)
      (q : Bus Payload × Option (List String))
      → is_nil q.1 ≡ any is_interrupted (outcomes b.calls hs event)
      → is_clean q.1 ≡ all is_completed (outcomes b.calls hs event)
      → q.0.calls ≡ b.calls + length (until_cut (outcomes b.calls hs event))
      → q.0.journal ≡ (happen_all json db time config (effects_until b.calls hs event) b).journal
      → Settles hs event b (settle json db time config event q)
  unfolding is_clean
  Settles-settle hs event b (b', none) nil clean calls journal =
      (rw (← nil) refl, calls, inr ((sym nil, journal)))
  Settles-settle hs event b (b', some errors) nil clean calls journal = (
    rw (← nil) refl,
    calls-mark event errors b' ∙ calls,
    inl (
        (
          sym nil,
          subst
              (λ t.
                All
                  (HasStatus event.id (
                    if t
                    then done
                    else if ltb event.retry_count config.max_retries
                    then pending
                    else dead_letter))
                  (mark_delivery_result json db time config event errors b').journal.rows)
              clean (settled event errors b'),
        )),
  )

  Settles-to :
      (hs : List (Handler Payload × String)) (event : Event Payload) (b : Bus Payload)
      → hs ≡ handlers_of event.topic b.subscribers
      → Settles hs event b (deliver_to json db time config hs event b)
  unfolding deliver_to run_handlers mark_done
  Settles-to [] event b e =
      (refl, omega arith, inl ((refl, set_status event.id done _ b.journal.rows (λ r. refl))))
  Settles-to (h ∷ hs) event b e =
      subst (λ l. Settles (h ∷ hs) event b (settle json db time config event (run l event b))) e
        (Settles-settle (h ∷ hs) event b (run (h ∷ hs) event b) (is_nil-run_each (h ∷ hs) event b)
          (is_clean-run_each (h ∷ hs) event b) (calls-run_each (h ∷ hs) event b)
          (journal-run_each (h ∷ hs) event b))

-- Whatever the handlers do to the bus meanwhile, a delivery calls the handlers of the topic one after
-- the other, also after one of them has failed or timed out, up to the first that is interrupted. If
-- none is, it goes to its end and leaves the rows of its event done if all handlers returned, else
-- pending if the retries that were claimed are below the limit, else a dead letter. If one is, the
-- delivery ends there, and the journal is as the handlers that were called have left it: the event is
-- not marked.
pub deliver-Settles :
    {Payload : Type 0} (json : Json Payload) (db : Returning) (time : ℕ → ℕ) (config : Config)
    (event : Event Payload) (b : Bus Payload)
    → Settles json db time config
        (handlers_of event.topic b.subscribers)
        event
        b
        (deliver json db time config event b)
unfolding deliver
deliver-Settles json db time config event b =
    Settles-to json db time config (handlers_of event.topic b.subscribers) event b refl
