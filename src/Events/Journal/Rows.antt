-- ===== src/Events/Journal/Rows.antt =====
-- core/events/journal.py: the two tables, and what the module takes from json and SQLite.
use yodoca.Base.{
  ℕ, ◌≡◌, String, Bool, true, false, Option, some, List, [], ltb, ◌==◌, any, All, count, length,
  Distinct,
}

-- json.dumps, json.loads (`none`: it raises) and SQLite's json_extract at the schedule marker.
pub record Json (Payload : Type 0) : Type 0 where
  pub dumps : Payload → String
  pub loads : String → Option Payload
  pub schedule_id : Payload → Option ℕ
  pub schedule_type : Payload → Option String
  pub loads-dumps : (p : Payload) → loads (dumps p) ≡ some p

pub data Status : Type 0 where
  pending processing done failed dead_letter : Status

pub record Row : Type 0 where
  pub id : ℕ
  pub correlation_id : Option String
  pub topic : String
  pub source : String
  pub payload : String
  pub status : Status
  pub retry_count : ℕ
  pub created_at : ℕ
  pub processed_at : Option ℕ
  pub error : Option String
  pub processing_since : Option ℕ

pub record EventRow (Payload : Type 0) : Type 0 where
  pub id : ℕ
  pub topic : String
  pub source : String
  pub payload : Payload
  pub created_at : ℕ
  pub correlation_id : Option String
  pub retry_count : ℕ

-- The order in which UPDATE … RETURNING gives its rows, which SQLite leaves open: the same rows.
pub record Returning : Type 1 where
  pub arrange : List Row → List Row
  pub All-arrange : (P : Row → Type 0) (rows : List Row) → All P rows → All P (arrange rows)
  pub Distinct-arrange :
      (rows : List Row) → Distinct (λ r. r.id) rows → Distinct (λ r. r.id) (arrange rows)
  pub count-arrange : (p : Row → Bool) (rows : List Row) → count p (arrange rows) ≡ count p rows
  pub length-arrange : (rows : List Row) → length (arrange rows) ≡ length rows

-- `next_id` is the next AUTOINCREMENT key; `completed` is the table user_message_processing.
pub record Journal : Type 0 where
  pub rows : List Row
  pub next_id : ℕ
  pub completed : List (ℕ × ℕ)

abbrev pub empty : Journal
empty = record { rows = []; next_id = 1; completed = [] }

abbrev pub is_status : Status → Status → Bool
is_status pending pending = true
is_status processing processing = true
is_status done done = true
is_status failed failed = true
is_status dead_letter dead_letter = true
is_status _ _ = false

abbrev pub is_pending : Row → Bool
is_pending r = is_status pending r.status

abbrev pub is_processing : Row → Bool
is_processing r = is_status processing r.status

-- ORDER BY created_at
abbrev pub older : Row → Row → Bool
older r s = ltb r.created_at s.created_at

-- id IN (…)
abbrev pub contains : List ℕ → ℕ → Bool
contains ids id = any (λ i. i == id) ids
