-- ===== src/Inbox.antt =====
-- sandbox/extensions/inbox/repository.py: the versioned items and the cursors of the inbox.
pub mod Versions
pub mod Finding
pub mod Changing
pub mod Upserting
pub mod Reading
pub mod Examples
use yodoca.Base.{
  ℕ, zero, suc, ◌+◌, String, Bool, true, false, ◌&&◌, ◌||◌, not, Option, none, some, List, [], ◌∷◌,
  ◌++◌, map, length, take, drop, ◌==◌, ltb, if◌then◌else◌, same, select, update, delete, count,
  find, any,
}
use yodoca.Base.Sort.{sort}

pub data Status : Type 0 where
  active deleted : Status

-- The four columns of the unique index uq_inbox_current.
pub record Key : Type 0 where
  pub source_type : String
  pub source_account : String
  pub entity_type : String
  pub external_id : String

-- A row of inbox_items. Times are whole numbers; the payload is in parsed form.
pub record Item (Payload : Type 0) : Type 0 where
  pub id : ℕ
  pub key : Key
  pub title : String
  pub occurred_at : ℕ
  pub ingested_at : ℕ
  pub status : Status
  pub is_read : Bool
  pub is_current : Bool
  pub payload : Payload
  pub payload_hash : String

-- A row of inbox_cursors.
pub record Cursor : Type 0 where
  pub source_type : String
  pub source_account : String
  pub stream : String
  pub cursor_value : String
  pub updated_at : ℕ

-- Both tables, the items by rowid, and the next key of AUTOINCREMENT.
pub record Inbox (Payload : Type 0) : Type 0 where
  pub items : List (Item Payload)
  pub cursors : List Cursor
  pub next_id : ℕ

pub record InboxItemInput (Payload : Type 0) : Type 0 where
  pub key : Key
  pub title : String
  pub occurred_at : ℕ
  pub status : Status
  pub payload : Payload

pub data ChangeType : Type 0 where
  created updated deleted_item duplicate : ChangeType

abbrev pub is_deleted : Status → Bool
is_deleted active = false
is_deleted deleted = true

abbrev pub status_name : Status → String
status_name active = "active"
status_name deleted = "deleted"

abbrev pub same_key : Key → Key → Bool
same_key a b =
    same a.source_type b.source_type
    && same a.source_account b.source_account
    && same a.entity_type b.entity_type
    && same a.external_id b.external_id

-- The rows of a WHERE clause of `list_items`; `none` stands for a condition that is not made.
pub record Filter : Type 0 where
  pub source_type : Option String
  pub entity_type : Option String
  pub status : String
  pub is_read : Option Bool
  pub limit : ℕ
  pub offset : ℕ

abbrev pub is_given : Option String → String → Bool
is_given none t = true
is_given (some s) t = same s t

abbrev pub same_bool : Option Bool → Bool → Bool
same_bool none b = true
same_bool (some true) b = b
same_bool (some false) b = not b

abbrev pub is_cursor_of : String → String → Cursor → Bool
is_cursor_of t a c = same c.source_type t && same c.source_account a

abbrev pub is_cursor : String → String → String → Cursor → Bool
is_cursor t a s c = is_cursor_of t a c && same c.stream s

abbrev pub value_of : Option Cursor → Option String
value_of none = none
value_of (some c) = some c.cursor_value

module _ {Payload : Type 0} where
  abbrev pub is_current_of : Key → Item Payload → Bool
  is_current_of k r = r.is_current && same_key r.key k

  abbrev pub has_id : ℕ → Item Payload → Bool
  has_id i r = r.id == i

  -- is_current = 1 AND status = 'active' AND is_read = 0
  abbrev pub is_unread : Item Payload → Bool
  is_unread r = r.is_current && not (is_deleted r.status) && not r.is_read

  abbrev pub passes : Filter → Item Payload → Bool
  passes f r =
      r.is_current
      && is_given f.source_type r.key.source_type
      && is_given f.entity_type r.key.entity_type
      && (same f.status "" || same (status_name r.status) f.status)
      && same_bool f.is_read r.is_read

  -- ORDER BY ingested_at DESC
  abbrev pub newer : Item Payload → Item Payload → Bool
  newer r s = ltb s.ingested_at r.ingested_at

  -- The INSERT of a new current row; `none` is the error of the unique index.
  unfoldable pub insert_item :
      InboxItemInput Payload
      → (hash : String) → (now : ℕ) → (is_read : Bool) → Inbox Payload
      → Option (Inbox Payload)
  insert_item input hash now is_read inbox =
      if any (is_current_of input.key) inbox.items
      then none
      else some (record inbox {
        items =
            inbox.items
            ++ record {
              id = inbox.next_id;
              key = input.key;
              title = input.title;
              occurred_at = input.occurred_at;
              ingested_at = now;
              status = input.status;
              is_read = is_read;
              is_current = true;
              payload = input.payload;
              payload_hash = hash;
            }
              ∷ [];
        next_id = suc inbox.next_id;
      })

  -- UPDATE inbox_items SET is_current = 0 WHERE id = ?
  abbrev pub retire : Item Payload → Item Payload
  retire r = record r { is_current = false }

  -- UPDATE inbox_items SET status = 'deleted', ingested_at = ? WHERE id = ?
  abbrev pub mark_deleted : ℕ → Item Payload → Item Payload
  mark_deleted now r = record r { status = deleted; ingested_at = now }

  -- The answer for an inserted row.
  unfoldable pub inserted :
      ChangeType → ℕ → ℕ → Option (Inbox Payload) → Option ((ℕ × (ChangeType × ℕ)) × Inbox Payload)
  inserted change id now none = none
  inserted change id now (some inbox) = some ((id, (change, now)), inbox)

  -- What `upsert_item` does with the current row `r` of the key.
  unfoldable pub replace_item :
      InboxItemInput Payload
      → (hash : String) → (now : ℕ) → Item Payload
      → Inbox Payload
      → Option ((ℕ × (ChangeType × ℕ)) × Inbox Payload)
  unfolding insert_item inserted
  replace_item input hash now r inbox =
      if is_deleted input.status
      then (if is_deleted r.status
          then some ((r.id, (duplicate, 0)), inbox)
          else some (
            (r.id, (deleted_item, now)),
            record inbox { items = update (has_id r.id) (mark_deleted now) inbox.items },
          ))
      else if same r.payload_hash hash
      then some ((r.id, (duplicate, 0)), inbox)
      else inserted updated inbox.next_id now (
          insert_item input hash now r.is_read
            (record inbox { items = update (has_id r.id) retire inbox.items }))

  -- `hash` is `_compute_payload_hash`, `now` the reading of the clock. `none` is an exception, after
  -- which the transaction is rolled back.
  unfoldable pub upsert_item :
      (Payload → String)
      → (now : ℕ) → InboxItemInput Payload
      → Inbox Payload
      → Option ((ℕ × (ChangeType × ℕ)) × Inbox Payload)
  unfolding replace_item
  upsert_item hash now input inbox = elim (find (is_current_of input.key) inbox.items) [
    | none ↦
        inserted (if is_deleted input.status then deleted_item else created) inbox.next_id now
          (insert_item input (hash input.payload) now false inbox)
    | some r ↦ replace_item input (hash input.payload) now r inbox
  ]

  unfoldable pub get_item : ℕ → Inbox Payload → Option (Item Payload)
  get_item i inbox = find (has_id i) inbox.items

  unfoldable pub list_items : Filter → Inbox Payload → List (Item Payload) × ℕ
  list_items f inbox = (
    take f.limit (drop f.offset (sort newer (select (passes f) inbox.items))),
    count (passes f) inbox.items,
  )

  abbrev pub set_read : Item Payload → Item Payload
  set_read r = record r { is_read = true }

  unfoldable pub mark_read : ℕ → Inbox Payload → Bool × Inbox Payload
  mark_read i inbox = (
    any (λ r. has_id i r && not r.is_read) inbox.items,
    record inbox { items = update (λ r. has_id i r && not r.is_read) set_read inbox.items },
  )

  abbrev pub is_unread_of : Option String → Item Payload → Bool
  is_unread_of source r = is_unread r && is_given source r.key.source_type

  unfoldable pub mark_all_read : Option String → Inbox Payload → ℕ × Inbox Payload
  mark_all_read source inbox = (
    count (is_unread_of source) inbox.items,
    record inbox { items = update (is_unread_of source) set_read inbox.items },
  )

  unfoldable pub get_unread_count : Inbox Payload → ℕ
  get_unread_count inbox = count is_unread inbox.items

  unfoldable pub get_cursor : String → String → String → Inbox Payload → Option String
  get_cursor t a s inbox = value_of (find (is_cursor t a s) inbox.cursors)

  -- INSERT OR REPLACE
  unfoldable pub set_cursor : String → String → String → String → ℕ → Inbox Payload → Inbox Payload
  set_cursor t a s value now inbox = record inbox {
    cursors =
        delete (is_cursor t a s) inbox.cursors
        ++ record {
          source_type = t;
          source_account = a;
          stream = s;
          cursor_value = value;
          updated_at = now;
        }
          ∷ [];
  }

  unfoldable pub delete_cursors : String → String → Inbox Payload → Inbox Payload
  delete_cursors t a inbox = record inbox { cursors = delete (is_cursor_of t a) inbox.cursors }
