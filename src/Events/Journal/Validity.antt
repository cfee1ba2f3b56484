-- ===== src/Events/Journal/Validity.antt =====
-- What holds of the journal at all times, and that the statements which the bus uses keep it.
use mathlib.Core.Path.{subst}
use yodoca.Base.{
  ℕ, suc, ◌+◌, ◌≤◌, ◌<◌, ◌≡◌, ◌≢◌, ◌⊎◌, refl, ap, inl, inr, Bool, true, false, String, Option, some,
  List, [], ◌∷◌, map, arith, Bool-cases, leb, ◌==◌, is_some, select, update, All, All-map,
  All-update, All-delete, All-append, All-of, All-select, All-×, Distinct, Distinct-update,
  Distinct-delete, Distinct-append, Distinct-alike, Distinct-select, Distinct-map, All-of_map,
}
use yodoca.Events.Journal.{
  Json, Returning, Row, EventRow, Journal, contains, empty, insert, claimed_ids, claim,
  claim_pending, mark_done, mark_retry, mark_dead_letter, reset_processing_to_pending,
  recover_stale, purge_scheduled_events, record_user_message_completed, event_row, event_rows,
}
use yodoca.Events.Journal.Returned.{some_of, convert, convert_more}

leb→le : (a b : ℕ) → leb a b ≡ true → a ≤ b
leb→le a b h = ground arith

le→leb : (a b : ℕ) → leb a b ≡ false → a < b → ⊥
le→leb a b h k = ground arith

-- An event that is claimed and not yet settled: its id, and the retries that the claim read.
pub record Flight : Type 0 where
  pub id : ℕ
  pub retry_count : ℕ

abbrev row_flight : Row → Flight
row_flight r = record { id = r.id; retry_count = r.retry_count }

abbrev pub flight_of : {Payload : Type 0} → EventRow Payload → Flight
flight_of e = record { id = e.id; retry_count = e.retry_count }

abbrev pub key : Row → ℕ
key r = r.id

abbrev pub flight_key : Flight → ℕ
flight_key f = f.id

module _ {Payload : Type 0} (json : Json Payload) (max_retries : ℕ) where
  -- A row by itself: its id is used up, its payload is readable, its retries are bounded.
  abbrev pub IsSound : ℕ → Row → Type 0
  IsSound next_id r =
      (r.id < next_id) × (is_some (json.loads r.payload) ≡ true) × (r.retry_count ≤ max_retries + 1)

  -- The rows of an event that may still be retried are within the limit.
  abbrev pub Owes : Flight → Row → Type 0
  Owes f r = f.id ≡ r.id → f.retry_count < max_retries → r.retry_count ≤ max_retries

  abbrev pub Covers : List Row → Flight → Type 0
  Covers rows f = All (Owes f) rows

  pub record IsValid (flights : List Flight) (j : Journal) : Type 0 where
    pub sound : All (IsSound j.next_id) j.rows
    pub distinct : Distinct key j.rows
    pub covered : All (λ f. (f.id < j.next_id) × Covers j.rows f) flights
    pub once : Distinct flight_key flights

  pub empty-IsValid : IsValid [] empty
  empty-IsValid = record { sound = tt; distinct = tt; covered = tt; once = tt }

  -- An UPDATE that leaves ids and payloads alone and keeps the retries of the rows within bounds.
  update-IsValid :
      (flights : List Flight) (j : Journal) (p : Row → Bool) (f : Row → Row)
      → ((r : Row) → (f r).id ≡ r.id)
      → ((r : Row) → (f r).payload ≡ r.payload)
      → ((r : Row)
          → p r ≡ true
          → r.retry_count ≤ max_retries + 1
          → (f r).retry_count ≤ max_retries + 1)
      → ((r : Row) → p r ≡ true → r.retry_count ≤ max_retries → (f r).retry_count ≤ max_retries)
      → IsValid flights j
      → IsValid flights (record j { rows = update p f j.rows })
  update-IsValid flights j p f ids texts loose tight v = record {
    sound =
        All-update (IsSound j.next_id) (IsSound j.next_id) p f j.rows
          (λ r h hit. (rw (ids r) h.0, rw (texts r) h.1, loose r hit h.2)) (λ r h miss. h) v.sound;
    distinct = Distinct-update key p f j.rows ids v.distinct;
    covered =
        All-map _ _ flights
          (λ g h. (
            h.0,
            All-update _ _ p f j.rows (λ r k hit e low. tight r hit (k (rw (ids r) at e) low))
                (λ r k miss. k) h.1,
          ))
          v.covered;
    once = v.once;
  }

  module _ (flights : List Flight) (j : Journal) where
    pub mark_done-IsValid : (now i : ℕ) → IsValid flights j → IsValid flights (mark_done now i j)
    unfolding mark_done
    mark_done-IsValid now i =
        update-IsValid flights j _ _ (λ r. refl) (λ r. refl) (λ r _ h. h) (λ r _ h. h)

    pub mark_dead_letter-IsValid :
        (now i : ℕ) (e : String) → IsValid flights j → IsValid flights (mark_dead_letter now i e j)
    unfolding mark_dead_letter
    mark_dead_letter-IsValid now i e =
        update-IsValid flights j _ _ (λ r. refl) (λ r. refl) (λ r _ h. h) (λ r _ h. h)

    pub reset-IsValid : IsValid flights j → IsValid flights (reset_processing_to_pending j).0
    unfolding reset_processing_to_pending
    reset-IsValid = update-IsValid flights j _ _ (λ r. refl) (λ r. refl) (λ r _ h. h) (λ r _ h. h)

    pub record-IsValid :
        (now i : ℕ) → IsValid flights j → IsValid flights (record_user_message_completed now i j)
    unfolding record_user_message_completed
    record-IsValid now i v = record {
      sound = v.sound;
      distinct = v.distinct;
      covered = v.covered;
      once = v.once;
    }

    pub purge-IsValid :
        (i : ℕ) (t : String) (topics : List String)
        → IsValid flights j
        → IsValid flights (purge_scheduled_events json i t topics j).0
    unfolding purge_scheduled_events
    purge-IsValid i t topics v = record {
      sound = All-delete (IsSound j.next_id) _ j.rows v.sound;
      distinct = Distinct-delete key _ j.rows v.distinct;
      covered = All-map _ _ flights (λ g h. (h.0, All-delete _ _ j.rows h.1)) v.covered;
      once = v.once;
    }

    pub insert-IsValid :
        (now : ℕ) (topic source : String) (payload : Payload) (correlation_id : Option String)
        → IsValid flights j
        → IsValid flights (insert json now topic source payload correlation_id j).0
    unfolding insert
    insert-IsValid now topic source payload correlation_id v = record {
      sound =
          All-append (IsSound (suc j.next_id)) j.rows _
            (All-map (IsSound j.next_id) (IsSound (suc j.next_id)) j.rows
              (λ r h. (omega arith, h.1, h.2)) v.sound)
            ((omega arith, rw json.loads-dumps refl, omega arith), tt);
      distinct =
          Distinct-append key j.rows _
            (All-map (IsSound j.next_id) (λ r. key r ≢ j.next_id) j.rows (λ r h. omega arith)
              v.sound)
            v.distinct;
      covered =
          All-map _ _ flights
            (λ g h. (omega arith, All-append _ j.rows _ h.1 ((λ e low. omega arith), tt)))
            v.covered;
      once = v.once;
    }

  pub recover_stale-IsValid :
      (flights : List Flight) (j : Journal) (now threshold : ℕ)
      → IsValid flights j
      → IsValid flights (recover_stale now threshold max_retries j).0
  unfolding recover_stale
  recover_stale-IsValid flights j now threshold v =
      update-IsValid flights _ _ _ (λ r. refl) (λ r. refl) (λ r _ h. h) (λ r _ h. h)
        (update-IsValid flights j _ _ (λ r. refl) (λ r. refl) (λ r e h. ground arith)
          (λ r e h. ground arith) v)

  pub mark_retry-IsValid :
      (f : Flight) (flights : List Flight) (j : Journal)
      → f.retry_count < max_retries
      → IsValid (f ∷ flights) j
      → IsValid flights (mark_retry f.id j)
  unfolding mark_retry
  mark_retry-IsValid f flights j low v = record {
    sound =
        All-update (λ r. IsSound j.next_id r × Owes f r) (IsSound j.next_id) _ _ j.rows
          (λ r h hit. (h.0.0, h.0.1, omega (arith, h.1 (ground arith) low))) (λ r h miss. h.0)
          (All-× (IsSound j.next_id) _ j.rows v.sound v.covered.0.1);
    distinct = Distinct-update key _ _ j.rows (λ r. refl) v.distinct;
    covered =
        All-map (λ g. ((g.id < j.next_id) × Covers j.rows g) × (g.id ≢ f.id)) _ flights
          (λ g h. (
            h.0.0,
            All-update (Owes g) (Owes g) (λ r. r.id == f.id) _ j.rows
                (λ r k hit e low'. absurd (h.1 (ground arith))) (λ r k miss. k) h.0.1,
          ))
          (All-× _ _ flights v.covered.1 v.once.0);
    once = v.once.1;
  }

  pub settle-IsValid :
      (f : Flight) (flights : List Flight) (j : Journal)
      → IsValid (f ∷ flights) j
      → IsValid flights j
  settle-IsValid f flights j v = record {
    sound = v.sound;
    distinct = v.distinct;
    covered = v.covered.1;
    once = v.once.1;
  }

  pub land-IsValid : (flights : List Flight) (j : Journal) → IsValid flights j → IsValid [] j
  land-IsValid flights j v = record {
    sound = v.sound;
    distinct = v.distinct;
    covered = tt;
    once = tt;
  }

  -- The rows that a claim gives out, read as flights over the claimed journal.
  flights_covered :
      (rows : List Row) (next_id : ℕ)
      → All (IsSound next_id) rows
      → Distinct key rows
      → All (λ r. (r.id < next_id) × Covers rows (row_flight r)) rows
  flights_covered rows next_id sound d =
      All-map _ _ rows (λ r h. (h.0.0, one r (Bool-cases (leb r.retry_count max_retries)) h.1))
        (All-× (IsSound next_id) _ rows sound
          (Distinct-alike key (λ r. leb r.retry_count max_retries) rows d))
    where
      one :
          (r : Row)
          → (leb r.retry_count max_retries ≡ true) ⊎ (leb r.retry_count max_retries ≡ false)
          → (leb r.retry_count max_retries ≡ true
              → All (λ s. key r ≡ key s → leb s.retry_count max_retries ≡ true) rows)
          → Covers rows (row_flight r)
      one r (inl within) h = All-map _ _ rows (λ s k e low. leb→le _ _ (k e)) (h within)
      one r (inr over) h = All-of _ rows (λ s e low. absurd (le→leb _ _ over low))

  flights_of_rows :
      (rs : List Row)
      → All (λ r. is_some (json.loads r.payload) ≡ true) rs
      → (es : List (EventRow Payload)) × (event_rows json rs ≡ some es)
        × (map row_flight rs ≡ map flight_of es)
  unfolding event_rows event_row
  flights_of_rows [] h = ([], refl, refl)
  flights_of_rows (r ∷ rs) h =
      let (p, eq) = some_of (json.loads r.payload) h.0 in
      let (es, eqs, same) = flights_of_rows rs h.1 in
      (
        event_row r p ∷ es,
        convert_more json r rs (event_row r p) es (convert json r p eq) eqs,
        ap (λ fs. row_flight r ∷ fs) same,
      )

  -- A claim keeps a valid journal valid, and the events that it returns are its flights.
  pub claim_pending-IsValid :
      (db : Returning) (now limit : ℕ) (j : Journal)
      → IsValid [] j
      → (es : List (EventRow Payload)) × ((claim_pending json db now limit j).1 ≡ some es)
        × IsValid (map flight_of es) (claim_pending json db now limit j).0
  unfolding claim_pending claim
  claim_pending-IsValid db now limit j v =
      let hit : Row → Bool = λ r. contains (claimed_ids limit j) r.id in
      let v' : IsValid [] (record j { rows = update hit (claim now) j.rows }) =
        update-IsValid [] j hit (claim now) (λ r. refl) (λ r. refl) (λ r _ h. h) (λ r _ h. h) v in
      let rows' : List Row = update hit (claim now) j.rows in
      let taken : List Row = db.arrange (select hit rows') in
      let sound : All (IsSound j.next_id) taken = db.All-arrange _ (select hit rows') (
        All-map _ _ (select hit rows') (λ r h. h.0)
          (All-select (IsSound j.next_id) hit rows' v'.sound)) in
      let (es, eq, same) =
        flights_of_rows taken (All-map (IsSound j.next_id) _ taken (λ r h. h.1) sound) in
      (
        es,
        eq,
        subst (λ fs. IsValid fs (record j { rows = rows' })) same
            (record {
              sound = v'.sound;
              distinct = v'.distinct;
              covered = All-of_map row_flight _ taken (
                  db.All-arrange _ (select hit rows') (
                    All-map _ _ (select hit rows') (λ r h. h.0)
                      (All-select _ hit rows'
                        (flights_covered rows' j.next_id v'.sound v'.distinct))));
              once = Distinct-map row_flight flight_key taken (
                  db.Distinct-arrange (select hit rows')
                    (Distinct-select key hit rows' v'.distinct));
            }),
      )
