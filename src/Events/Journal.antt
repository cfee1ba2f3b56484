-- ===== src/Events/Journal.antt =====
-- core/events/journal.py: the table `event_journal`, one function for each statement.
-- Times are natural numbers of some unit. `processing_since < now - threshold` over the reals is
-- written `processing_since + threshold < now`. `now` is the reading of time.time().
mod Rows
pub mod Claims
pub mod Returned
pub mod Recovery
pub mod Validity
pub use Rows.{
  Json, Returning, Status, pending, processing, done, failed, dead_letter, Row, EventRow, Journal,
  is_pending, is_processing, is_status, contains, older, empty,
}
use yodoca.Base.{
  ℕ, suc, ◌+◌, String, Bool, true, false, ◌&&◌, ◌||◌, Option, none, some, List, [], ◌∷◌, ◌++◌, map,
  ltb, leb, ◌==◌, if◌then◌else◌, same, is_text, length, take, select, update, delete, count, any,
  find,
}
use yodoca.Base.Sort.{sort}

-- The subselect of `claim_pending`: the ids of the oldest pending rows.
pub oldest_pending : ℕ → Journal → List Row
oldest_pending limit j = take limit (sort older (select is_pending j.rows))

pub claimed_ids : ℕ → Journal → List ℕ
unfolding oldest_pending
claimed_ids limit j = map (λ r. r.id) (oldest_pending limit j)

pub claim : ℕ → Row → Row
claim now r = record r { status = processing; processing_since = some now }

pub claim_rows : ℕ → ℕ → Journal → Journal
claim_rows now limit j = record j {
  rows = update (λ r. contains (claimed_ids limit j) r.id) (claim now) j.rows;
}

pub event_row : {Payload : Type 0} → Row → Payload → EventRow Payload
event_row r p = record {
  id = r.id;
  topic = r.topic;
  source = r.source;
  payload = p;
  created_at = r.created_at;
  correlation_id = r.correlation_id;
  retry_count = r.retry_count;
}

module _ {Payload : Type 0} (json : Json Payload) where
  pub row_to_event_row : Row → Option (EventRow Payload)
  unfolding event_row
  row_to_event_row r = elim (json.loads r.payload) [ none ↦ none | some p ↦ some (event_row r p) ]

  -- The list comprehension over the rows: json.loads may raise, which is `none`.
  pub event_rows : List Row → Option (List (EventRow Payload))
  unfolding row_to_event_row
  event_rows [] = some []
  event_rows (r ∷ rs) =
      let rest = event_rows rs in
      elim (row_to_event_row r) [
        | none ↦ none
        | some e ↦ elim rest [ none ↦ none | some es ↦ some (e ∷ es) ]
      ]

  -- The new journal, and the row id.
  unfoldable pub insert : ℕ → String → String → Payload → Option String → Journal → Journal × ℕ
  insert now topic source payload correlation_id j = (
    record j {
      rows =
          j.rows
          ++ record {
            id = j.next_id;
            correlation_id = correlation_id;
            topic = topic;
            source = source;
            payload = json.dumps payload;
            status = pending;
            retry_count = 0;
            created_at = now;
            processed_at = none;
            error = none;
            processing_since = none;
          }
            ∷ [];
      next_id = suc j.next_id;
    },
    j.next_id,
  )

  -- The rows that the UPDATE returns, in the order that the database chooses.
  unfoldable pub claim_pending :
      Returning → ℕ → ℕ → Journal → Journal × Option (List (EventRow Payload))
  unfolding claim_rows event_rows
  claim_pending db now limit j =
      let j' = claim_rows now limit j in
      (j', event_rows (db.arrange (select (λ r. contains (claimed_ids limit j) r.id) j'.rows)))

unfoldable pub mark_processing : ℕ → Journal → Journal
mark_processing event_id j = record j {
  rows = update (λ r. r.id == event_id) (λ r. record r { status = processing }) j.rows;
}

unfoldable pub mark_done : ℕ → ℕ → Journal → Journal
mark_done now event_id j = record j {
  rows =
      update (λ r. r.id == event_id) (λ r. record r { status = done; processed_at = some now })
        j.rows;
}

unfoldable pub mark_failed : ℕ → ℕ → String → Journal → Journal
mark_failed now event_id error j = record j {
  rows =
      update (λ r. r.id == event_id)
        (λ r. record r { status = failed; processed_at = some now; error = some error }) j.rows;
}

unfoldable pub mark_retry : ℕ → Journal → Journal
mark_retry event_id j = record j {
  rows =
      update (λ r. r.id == event_id)
        (λ r. record r { status = pending; retry_count = r.retry_count + 1 }) j.rows;
}

unfoldable pub mark_dead_letter : ℕ → ℕ → String → Journal → Journal
mark_dead_letter now event_id error j = record j {
  rows =
      update (λ r. r.id == event_id)
        (λ r. record r { status = dead_letter; processed_at = some now; error = some error })
        j.rows;
}

unfoldable pub reset_processing_to_pending : Journal → Journal × ℕ
reset_processing_to_pending j = (
  record j {
    rows =
        update is_processing (λ r. record r { status = pending; processing_since = none }) j.rows;
  },
  count is_processing j.rows,
)

-- `processing_since < now - threshold`, false where the column is NULL.
unfoldable pub is_stale : ℕ → ℕ → Row → Bool
is_stale now threshold r =
    is_processing r
    && elim r.processing_since [ none ↦ false | some since ↦ ltb (since + threshold) now ]

reset_stale_to_pending : ℕ → ℕ → ℕ → Journal → Journal × ℕ
unfolding is_stale
reset_stale_to_pending now threshold max_retries j =
    let hit = λ (r : Row). is_stale now threshold r && ltb r.retry_count max_retries in
    (
      record j {
        rows =
            update hit
              (λ r. record r {
                status = pending;
                retry_count = r.retry_count + 1;
                processing_since = none;
              })
              j.rows;
      },
      count hit j.rows,
    )

dead_letter_stale : ℕ → ℕ → ℕ → Journal → Journal × ℕ
unfolding is_stale
dead_letter_stale now threshold max_retries j =
    let hit = λ (r : Row). is_stale now threshold r && leb max_retries r.retry_count in
    (
      record j {
        rows =
            update hit
              (λ r. record r {
                status = dead_letter;
                processed_at = some now;
                error = some "stale: max retries exceeded";
                processing_since = none;
              })
              j.rows;
      },
      count hit j.rows,
    )

unfoldable pub recover_stale : ℕ → ℕ → ℕ → Journal → Journal × (ℕ × ℕ)
unfolding reset_stale_to_pending dead_letter_stale
recover_stale now threshold max_retries j =
    let (j', reset_count) = reset_stale_to_pending now threshold max_retries j in
    let (j'', dead_letter_count) = dead_letter_stale now threshold max_retries j' in
    (j'', (reset_count, dead_letter_count))

unfoldable pub is_user_message_completed : ℕ → Journal → Bool
is_user_message_completed event_id j = any (λ c. c.0 == event_id) j.completed

-- INSERT OR REPLACE: the row with the primary key goes, the new one comes.
unfoldable pub record_user_message_completed : ℕ → ℕ → Journal → Journal
record_user_message_completed now event_id j = record j {
  completed = delete (λ c. c.0 == event_id) j.completed ++ (event_id, now) ∷ [];
}

-- The count of one group; a group is listed if it is not empty.
unfoldable pub status_count : Status → Journal → ℕ
status_count s j = count (λ r. is_status s r.status) j.rows

module _ {Payload : Type 0} (json : Json Payload) where
  -- The WHERE clause: `json_extract` gives NULL, hence no match, where the marker is missing.
  unfoldable pub is_scheduled : ℕ → String → List String → Row → Bool
  is_scheduled schedule_id schedule_type topics r =
      (is_pending r || is_processing r)
      && any (same r.topic) topics
      && elim (json.loads r.payload) [
        | none ↦ false
        | some p ↦
            elim (json.schedule_id p) [ none ↦ false | some i ↦ i == schedule_id ]
            && is_text (json.schedule_type p) schedule_type
      ]

  unfoldable pub purge_scheduled_events : ℕ → String → List String → Journal → Journal × ℕ
  unfolding is_scheduled
  purge_scheduled_events schedule_id schedule_type topics j =
      let hit = is_scheduled schedule_id schedule_type topics in
      (record j { rows = delete hit j.rows }, count hit j.rows)
