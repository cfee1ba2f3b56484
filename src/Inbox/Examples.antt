-- ===== src/Inbox/Examples.antt =====
-- The inbox on concrete items; a payload is a text, which is its own hash.
use yodoca.Base.{
  ◌+◌, ◌-◌, ◌≤◌, String, true, false, none, some, [], ◌∷◌, ◌≡◌, refl, ◌&&◌, min, length, count, All,
  same, if◌then◌else◌, arith,
}
use yodoca.Base.Sort.{IsSorted}
use yodoca.Inbox.{
  Status, active, deleted, Key, Item, Inbox, InboxItemInput, Filter, created, duplicate,
  is_current_of, passes, newer, list_items, is_unread_of, upsert_item, mark_all_read,
  get_unread_count, get_cursor, set_cursor, delete_cursors,
}
use yodoca.Inbox.Versions.{IsValid}
use yodoca.Inbox.Upserting.{Upserts, upsert_item-Upserts}
use yodoca.Inbox.Reading.{IsPage, list_items-IsPage, mark_all_read-marks, get_cursor-set_cursor}

abbrev letter : Key
letter = record {
  source_type = "mail";
  source_account = "me";
  entity_type = "message";
  external_id = "1";
}

abbrev new_letter : Status → String → InboxItemInput String
new_letter status text = record {
  key = letter;
  title = "hello";
  occurred_at = 3;
  status = status;
  payload = text;
}

abbrev no_items : Inbox String
no_items = record { items = []; cursors = []; next_id = 1 }

abbrev first_version : Item String
first_version = record {
  id = 1;
  key = letter;
  title = "hello";
  occurred_at = 3;
  ingested_at = 5;
  status = active;
  is_read = false;
  is_current = true;
  payload = "a";
  payload_hash = "a";
}

abbrev one_item : Inbox String
one_item = record { items = first_version ∷ []; cursors = []; next_id = 2 }

creates :
    upsert_item (λ t. t) 5 (new_letter active "a") no_items ≡ some ((1, (created, 5)), one_item)
unfolding upsert_item
creates = refl

-- An item that was deleted stays deleted when the same payload comes in again.
stays_deleted :
    upsert_item
      (λ t. t)
      9
      (new_letter active "a")
      (record one_item { items = record first_version { status = deleted } ∷ [] })
    ≡ some (
      (1, (duplicate, 0)),
      record one_item { items = record first_version { status = deleted } ∷ [] },
    )
unfolding upsert_item
stays_deleted = refl

one_item-IsValid : IsValid one_item
one_item-IsValid = record {
  one_current = λ k. few k;
  ascending = (tt, tt);
  next_new = (omega arith, tt);
}
  where
    few : (k : Key) → count (is_current_of k) (first_version ∷ []) ≤ 1
    few k = ground arith

upsert_item-Upserts_example :
    Upserts
      (λ t. t)
      7
      (new_letter active "b")
      one_item
      (upsert_item (λ t. t) 7 (new_letter active "b") one_item)
upsert_item-Upserts_example =
    upsert_item-Upserts (λ t. t) 7 (new_letter active "b") one_item one_item-IsValid

abbrev unread_mail : Filter
unread_mail = record {
  source_type = some "mail";
  entity_type = none;
  status = "active";
  is_read = some false;
  limit = 10;
  offset = 0;
}

list_items-IsPage_example :
    IsPage unread_mail one_item (list_items unread_mail one_item).0
    × (All (λ r. passes unread_mail r ≡ true) (list_items unread_mail one_item).0
        × (IsSorted newer (list_items unread_mail one_item).0
            × ((length (list_items unread_mail one_item).0
                  ≡ min unread_mail.limit
                      ((list_items unread_mail one_item).1 - unread_mail.offset))
                × ((list_items unread_mail one_item).1
                    ≡ count (passes unread_mail) one_item.items))))
list_items-IsPage_example = list_items-IsPage unread_mail one_item

mark_all_read-marks_example :
    (count (is_unread_of none) (mark_all_read none one_item).1.items ≡ 0)
    × (get_unread_count (mark_all_read none one_item).1 + (mark_all_read none one_item).0
        ≡ get_unread_count one_item)
mark_all_read-marks_example = mark_all_read-marks none one_item

get_cursor-set_cursor_example :
    (get_cursor "mail" "me" "in" (set_cursor "mail" "me" "in" "7" 4 one_item) ≡ (
      if (same "mail" "mail" && same "me" "me") && same "in" "in"
      then some "7"
      else get_cursor "mail" "me" "in" one_item))
    × (get_cursor "mail" "me" "in" (delete_cursors "mail" "me" one_item) ≡ (
        if same "mail" "mail" && same "me" "me"
        then none
        else get_cursor "mail" "me" "in" one_item))
get_cursor-set_cursor_example =
    get_cursor-set_cursor "mail" "me" "in" "7" "mail" "me" "in" 4 one_item
