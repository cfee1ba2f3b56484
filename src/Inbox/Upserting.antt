-- ===== src/Inbox/Upserting.antt =====
-- upsert_item of the inbox as a change of one version: the current rows as a map from keys.
use mathlib.Core.Path.{subst}
use yodoca.Base.{
  ℕ, ◌≡◌, refl, sym, ◌∙◌, inl, inr, String, Bool, true, false, Option, none, some, if◌then◌else◌,
  Bool-cases, same, eq→==, update, All, All-find, All-of,
}
use yodoca.Inbox.{
  Key, Item, Inbox, InboxItemInput, ChangeType, created, updated, deleted_item, duplicate,
  is_deleted, same_key, is_current_of, has_id, insert_item, retire, mark_deleted, inserted,
  replace_item, upsert_item,
}
use yodoca.Inbox.Finding.{find-update_hit, find-update_off, any-of_find-none}
use yodoca.Inbox.Versions.{IsValid, find-only}
use yodoca.Inbox.Changing.{
  same_key-eq, same_key_refl, current, appended, appended-IsValid, current-appended, changed,
  changed-IsValid, current-changed_other,
}

module _ {Payload : Type 0} where
  -- The current version of a key after an upsert: `i` and `read` are the id and the mark of a new row.
  abbrev pub fresh :
      InboxItemInput Payload → (hash : String) → (now i : ℕ) → (read : Bool) → Item Payload
  fresh input hash now i read = record {
    id = i;
    key = input.key;
    title = input.title;
    occurred_at = input.occurred_at;
    ingested_at = now;
    status = input.status;
    is_read = read;
    is_current = true;
    payload = input.payload;
    payload_hash = hash;
  }

  abbrev pub next_version :
      InboxItemInput Payload
      → (hash : String) → (now i : ℕ) → Option (Item Payload)
      → ChangeType × Item Payload
  next_version input hash now i none =
      (if is_deleted input.status then deleted_item else created, fresh input hash now i false)
  next_version input hash now i (some r) =
      if is_deleted input.status
      then (if is_deleted r.status then (duplicate, r) else (deleted_item, mark_deleted now r))
      else if same r.payload_hash hash
      then (duplicate, r)
      else (updated, fresh input hash now i r.is_read)

  -- The answer and the inbox of an upsert that changes the current version of its key to `v`.
  pub record BecomesVersion (inbox : Inbox Payload) (key : Key) (v : ChangeType × Item Payload)
      (id : ℕ) (change : ChangeType) (after : Inbox Payload) : Type 0 where
    pub valid : IsValid after
    pub reported : change ≡ v.0
    pub id_of_version : id ≡ v.1.id
    pub versions :
        (k : Key) → current k after ≡ (if same_key key k then some v.1 else current k inbox)

  abbrev pub UpsertsAs :
      Inbox Payload
      → Key
      → ChangeType × Item Payload
      → Option ((ℕ × (ChangeType × ℕ)) × Inbox Payload)
      → Type 0
  UpsertsAs inbox key v none = ⊥
  UpsertsAs inbox key v (some ((id, (change, at)), after)) =
      BecomesVersion inbox key v id change after

  abbrev pub Upserts :
      (Payload → String)
      → (now : ℕ) → InboxItemInput Payload
      → Inbox Payload
      → Option ((ℕ × (ChangeType × ℕ)) × Inbox Payload)
      → Type 0
  Upserts hash now input inbox answer =
      UpsertsAs inbox input.key
        (next_version input (hash input.payload) now inbox.next_id (current input.key inbox)) answer

  module _ (inbox : Inbox Payload) (r : Item Payload) (key : Key) (v : IsValid inbox)
      (c : current key inbox ≡ some r) where
    found_current : is_current_of key r ≡ true
    found_current =
        (All-find {0, 0} (λ x. Unit) (is_current_of key) inbox.items r
          (All-of {0, 0} (λ x. Unit) inbox.items (λ x. tt)) c).1

    -- What holds for the key and for the keys that differ from it.
    by_key :
        (P : Key → Option (Item Payload) → Type 0) (x : Option (Item Payload))
        (y : Key → Option (Item Payload))
        → P key x
        → ((k : Key) → same_key key k ≡ false → P k (y k))
        → (k : Key) → P k (if same_key key k then x else y k)
    by_key P x y h other k = go (same_key key k) refl
      where
        go : (b : Bool) → same_key key k ≡ b → P k (if b then x else y k)
        go true e = subst (λ j. P j x) (same_key-eq key k e) h
        go false e = other k e

    kept-BecomesVersion : BecomesVersion inbox key (duplicate, r) r.id duplicate inbox
    kept-BecomesVersion = record {
      valid = v;
      reported = refl;
      id_of_version = refl;
      versions =
          by_key (λ k o. current k inbox ≡ o) (some r) (λ k. current k inbox) c (λ k e. refl);
    }

    only : All (λ x. has_id r.id x ≡ true → x ≡ r) inbox.items
    only = find-only (is_current_of key) r inbox.items v.ascending c

    deleted-BecomesVersion :
        (now : ℕ)
        → BecomesVersion inbox key
            (deleted_item, mark_deleted now r)
            r.id
            deleted_item
            (changed inbox r.id (mark_deleted now))
    deleted-BecomesVersion now = record {
      valid = changed-IsValid inbox r.id (mark_deleted now) v (λ x. refl) (λ k x h. h);
      reported = refl;
      id_of_version = refl;
      versions =
          by_key (λ k o. current k (changed inbox r.id (mark_deleted now)) ≡ o)
            (some (mark_deleted now r)) (λ k. current k inbox)
            (find-update_hit (is_current_of key) (has_id r.id) (mark_deleted now) r inbox.items only
              (eq→== r.id r.id refl) found_current found_current c)
            (λ k e. current-changed_other inbox r (mark_deleted now) key k v c refl e);
    }

    retired : current key (changed inbox r.id retire) ≡ none
    retired =
        find-update_off (is_current_of key) (has_id r.id) retire r inbox.items only
          (eq→== r.id r.id refl) found_current refl (v.one_current key) c

    updated-BecomesVersion :
        (new : Item Payload)
        → new.key ≡ key
        → new.is_current ≡ true
        → new.id ≡ inbox.next_id
        → BecomesVersion inbox key
            (updated, new)
            inbox.next_id
            updated
            (appended (changed inbox r.id retire) new)
    updated-BecomesVersion new same_key_of on i = record {
      valid =
          appended-IsValid (changed inbox r.id retire) new
            (changed-IsValid inbox r.id retire v (λ x. refl) (λ k x h. absurd (cc (h)))) i
            (rw same_key_of retired);
      reported = refl;
      id_of_version = sym i;
      versions = λ k.
          current-appended (changed inbox r.id retire) new k on (rw same_key_of retired)
          ∙ by_key
              (λ k o.
                (if same_key new.key k then some new else current k (changed inbox r.id retire))
                ≡ o)
              (some new) (λ k. current k inbox) (rw (same_key_of, same_key_refl key) refl)
              (λ k e. rw (same_key_of, e) (current-changed_other inbox r retire key k v c refl e))
              k;
    }

  -- A valid inbox takes every item: the unique index is never violated, and the inbox is valid
  -- afterwards. Then the current version of the item's key is `next_version` of the one before, with
  -- the id that is returned and the change that is reported, and every other key has the current
  -- version that it had.
  pub upsert_item-Upserts :
      (hash : Payload → String) (now : ℕ) (input : InboxItemInput Payload) (inbox : Inbox Payload)
      → IsValid inbox
      → Upserts hash now input inbox (upsert_item hash now input inbox)
  unfolding upsert_item insert_item inserted replace_item
  upsert_item-Upserts hash now input inbox v = go (current input.key inbox) refl
    where
      new : Bool → Item Payload
      new read = fresh input (hash input.payload) now inbox.next_id read

      go :
          (o : Option (Item Payload))
          → current input.key inbox ≡ o
          → Upserts hash now input inbox (upsert_item hash now input inbox)
      go none e =
          rw (e, upsert_item)
            (rw (any-of_find-none (is_current_of input.key) inbox.items e) (record {
              valid = appended-IsValid inbox (new false) v refl e;
              reported = refl;
              id_of_version = refl;
              versions = λ k. current-appended inbox (new false) k refl e;
            }))
      go (some r) e =
          rw (e, upsert_item)
            (elim (Bool-cases (is_deleted input.status)) [
              | inl d ↦ elim (Bool-cases (is_deleted r.status)) [
                | inl t ↦ rw (d, t) (kept-BecomesVersion inbox r input.key v e)
                | inr t ↦ rw (d, t) (deleted-BecomesVersion inbox r input.key v e now)
              ]
              | inr d ↦ elim (Bool-cases (same r.payload_hash (hash input.payload))) [
                | inl t ↦ rw (d, t) (kept-BecomesVersion inbox r input.key v e)
                | inr t ↦
                    rw (d, t)
                      (rw
                        (any-of_find-none (is_current_of input.key)
                          (update (has_id r.id) retire inbox.items) (retired inbox r input.key v e))
                        (updated-BecomesVersion inbox r input.key v e (new r.is_read) refl refl
                          refl))
              ]
            ])
