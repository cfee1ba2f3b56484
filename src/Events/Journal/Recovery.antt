-- ===== src/Events/Journal/Recovery.antt =====
-- `recover_stale` and `reset_processing_to_pending` of core/events/journal.py.
use yodoca.Base.{
  ℕ, ◌+◌, ◌≡◌, refl, Bool, false, ◌&&◌, none, some, List, [], ◌∷◌, map, arith, ltb, leb,
  if◌then◌else◌, update, count, All,
}
use yodoca.Events.Journal.{pending, dead_letter, Row, Journal, is_stale, recover_stale}

-- What one sweep makes of one row, by its state before the sweep.
abbrev pub recovered : ℕ → ℕ → ℕ → Row → Row
recovered now threshold max_retries r =
    if is_stale now threshold r
    then (if ltb r.retry_count max_retries
        then record r { status = pending; retry_count = r.retry_count + 1; processing_since = none }
        else record r {
          status = dead_letter;
          processed_at = some now;
          error = some "stale: max retries exceeded";
          processing_since = none;
        })
    else r

module _ (now threshold max_retries : ℕ) where
  abbrev resettable : Row → Bool
  resettable r = is_stale now threshold r && ltb r.retry_count max_retries

  abbrev exhausted : Row → Bool
  exhausted r = is_stale now threshold r && leb max_retries r.retry_count

  abbrev reset_row : Row → Row
  reset_row r = record r {
    status = pending;
    retry_count = r.retry_count + 1;
    processing_since = none;
  }

  abbrev bury_row : Row → Row
  bury_row r = record r {
    status = dead_letter;
    processed_at = some now;
    error = some "stale: max retries exceeded";
    processing_since = none;
  }

  one_row :
      (r : Row)
      → (let r' = if resettable r then reset_row r else r in
          if exhausted r' then bury_row r' else r')
        ≡ recovered now threshold max_retries r
  unfolding is_stale
  one_row r = ground arith

  two_sweeps :
      (rows : List Row)
      → update exhausted bury_row (update resettable reset_row rows)
        ≡ map (recovered now threshold max_retries) rows
  two_sweeps [] = refl
  two_sweeps (r ∷ rows) = cc (one_row r, two_sweeps rows)

  still_exhausted : (r : Row) → exhausted (if resettable r then reset_row r else r) ≡ exhausted r
  unfolding is_stale
  still_exhausted r = ground arith

  count-exhausted :
      (rows : List Row) → count exhausted (update resettable reset_row rows) ≡ count exhausted rows
  count-exhausted [] = refl
  count-exhausted (r ∷ rows) = rw (still_exhausted r, count-exhausted rows) refl

  not_stale_again :
      (r : Row) → is_stale now threshold (recovered now threshold max_retries r) ≡ false
  unfolding is_stale
  not_stale_again r = ground arith

  none_stale :
      (rows : List Row)
      → All (λ r. is_stale now threshold r ≡ false) (map (recovered now threshold max_retries) rows)
  none_stale [] = tt
  none_stale (r ∷ rows) = (not_stale_again r, none_stale rows)

-- The two UPDATEs in a row treat every row once, by its state before the first: a stale row below
-- the retry limit goes back to `pending` with one more retry, a stale row at the limit is
-- dead-lettered, and any other row stays. The two numbers returned count these rows, and no row is
-- stale at that time after the sweep.
pub recover_stale-recovered :
    (now threshold max_retries : ℕ) (j : Journal)
    → ((recover_stale now threshold max_retries j).0.rows
        ≡ map (recovered now threshold max_retries) j.rows)
      × ((recover_stale now threshold max_retries j).1.0
          ≡ count (λ r. is_stale now threshold r && ltb r.retry_count max_retries) j.rows)
      × ((recover_stale now threshold max_retries j).1.1
          ≡ count (λ r. is_stale now threshold r && leb max_retries r.retry_count) j.rows)
      × All
          (λ r. is_stale now threshold r ≡ false)
          (recover_stale now threshold max_retries j).0.rows
unfolding recover_stale
recover_stale-recovered now threshold max_retries j = (
  two_sweeps now threshold max_retries j.rows,
  refl,
  count-exhausted now threshold max_retries j.rows,
  rw (two_sweeps now threshold max_retries j.rows) (none_stale now threshold max_retries j.rows),
)
