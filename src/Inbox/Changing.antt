-- ===== src/Inbox/Changing.antt =====
-- Rows appended to the inbox and changed in it: validity, and the current row of each key.
use mathlib.Core.Path.{subst}
use text.Mathlib.TextPositions.{eq_refl}
use yodoca.Base.{
  ℕ, ◌<◌, suc, ◌≡◌, refl, ap, ◌∙◌, Bool, true, false, ◌&&◌, Option, none, some, [], ◌∷◌, ◌++◌,
  arith, if◌then◌else◌, find, update, count, All-map, All-append, All-update, All-find,
  count-append, count-eq_zero, find-none, eq_iff, All-of,
}
use yodoca.Inbox.{Key, Item, Inbox, same_key, is_current_of, has_id}
use yodoca.Inbox.Finding.{find-append_none, find-append_miss, find-update_miss}
use yodoca.Inbox.Versions.{IsValid, find-only, Ascending-update, Ascending-append, count-update-le}

pub same_key-eq : (a b : Key) → same_key a b ≡ true → a ≡ b
same_key-eq a b e = rw (fields.0, fields.1.0, fields.1.1.0, fields.1.1.1) refl
  where
    fields :
        (a.source_type ≡ b.source_type)
        × ((a.source_account ≡ b.source_account)
            × ((a.entity_type ≡ b.entity_type) × (a.external_id ≡ b.external_id)))
    fields = (
      ground (arith, e, eq_iff a.source_type b.source_type),
      (
        ground (arith, e, eq_iff a.source_account b.source_account),
        (
          ground (arith, e, eq_iff a.entity_type b.entity_type),
          ground (arith, e, eq_iff a.external_id b.external_id),
        ),
      ),
    )

pub same_key_refl : (k : Key) → same_key k k ≡ true
same_key_refl k =
    rw
      (
        eq_refl k.source_type,
        eq_refl k.source_account,
        eq_refl k.entity_type,
        eq_refl k.external_id,
      )
      refl

module _ {Payload : Type 0} where
  abbrev pub current : Key → Inbox Payload → Option (Item Payload)
  current k inbox = find (is_current_of k) inbox.items

  -- The inbox with a row more.
  abbrev pub appended : Inbox Payload → Item Payload → Inbox Payload
  appended inbox new = record inbox { items = inbox.items ++ new ∷ []; next_id = suc inbox.next_id }

  pub none_at :
      (inbox : Inbox Payload) (a k : Key)
      → current a inbox ≡ none
      → same_key a k ≡ true
      → current k inbox ≡ none
  none_at inbox a k c e = subst (λ j. current j inbox ≡ none) (same_key-eq a k e) c

  pub appended-IsValid :
      (inbox : Inbox Payload) (new : Item Payload)
      → IsValid inbox
      → new.id ≡ inbox.next_id
      → current new.key inbox ≡ none
      → IsValid (appended inbox new)
  appended-IsValid inbox new v e c = record {
    one_current = λ k.
        rw (count-append (is_current_of k) inbox.items (new ∷ []))
          (ground (arith, v.one_current k, none_left k));
    ascending = Ascending-append inbox.items new (rw e v.next_new) v.ascending;
    next_new =
        All-append (λ r. r.id < suc inbox.next_id) inbox.items (new ∷ [])
          (All-map (λ r. r.id < inbox.next_id) (λ r. r.id < suc inbox.next_id) inbox.items
            (λ r h. omega (arith, h)) v.next_new)
          ((omega (arith, e), tt));
  }
    where
      none_left : (k : Key) → same_key new.key k ≡ true → count (is_current_of k) inbox.items ≡ 0
      none_left k h =
          count-eq_zero (is_current_of k) inbox.items
            (find-none (is_current_of k) inbox.items (none_at inbox new.key k c h))

  pub current-appended :
      (inbox : Inbox Payload) (new : Item Payload) (k : Key)
      → new.is_current ≡ true
      → current new.key inbox ≡ none
      → current k (appended inbox new) ≡ (if same_key new.key k then some new else current k inbox)
  current-appended inbox new k on c = go (same_key new.key k) refl
    where
      there : (b : Bool) → new.is_current && b ≡ b
      there b = rw on refl

      go :
          (b : Bool)
          → same_key new.key k ≡ b
          → current k (appended inbox new) ≡ (if b then some new else current k inbox)
      go true e =
          find-append_none (is_current_of k) inbox.items (new ∷ []) (none_at inbox new.key k c e)
          ∙ ap (λ b. if b then some new else none) (there (same_key new.key k) ∙ e)
      go false e =
          find-append_miss (is_current_of k) inbox.items new (there (same_key new.key k) ∙ e)

  -- The inbox with one row changed.
  abbrev pub changed : Inbox Payload → ℕ → (Item Payload → Item Payload) → Inbox Payload
  changed inbox i f = record inbox { items = update (has_id i) f inbox.items }

  pub changed-IsValid :
      (inbox : Inbox Payload) (i : ℕ) (f : Item Payload → Item Payload)
      → IsValid inbox
      → ((r : Item Payload) → (f r).id ≡ r.id)
      → ((k : Key) (r : Item Payload) → is_current_of k (f r) ≡ true → is_current_of k r ≡ true)
      → IsValid (changed inbox i f)
  changed-IsValid inbox i f v same_id falls = record {
    one_current = λ k. omega (
      arith,
      v.one_current k,
      count-update-le (is_current_of k) (has_id i) f inbox.items (falls k),
    );
    ascending = Ascending-update (has_id i) f inbox.items same_id v.ascending;
    next_new =
        All-update (λ r. r.id < inbox.next_id) (λ r. r.id < inbox.next_id) (has_id i) f inbox.items
          (λ r h e. rw (same_id r) h) (λ r h e. h) v.next_new;
  }

  -- The rows of the other keys are not touched by a change of the current row of a key.
  pub current-changed_other :
      (inbox : Inbox Payload) (r : Item Payload) (f : Item Payload → Item Payload) (key k : Key)
      → IsValid inbox
      → current key inbox ≡ some r
      → (f r).key ≡ r.key
      → same_key key k ≡ false
      → current k (changed inbox r.id f) ≡ current k inbox
  current-changed_other inbox r f key k v c same_key_of e =
      find-update_miss (is_current_of k) (has_id r.id) f inbox.items (
        All-map (λ x. has_id r.id x ≡ true → x ≡ r)
          (λ x.
            has_id r.id x ≡ true → (is_current_of k x ≡ false) × (is_current_of k (f x) ≡ false))
          inbox.items (λ x only h. rw (only h) ((off r refl, off (f r) same_key_of)))
          (find-only (is_current_of key) r inbox.items v.ascending c))
    where
      here : r.key ≡ key
      here = same_key-eq r.key key (
          ground (
            arith,
            (All-find {0, 0} (λ x. Unit) (is_current_of key) inbox.items r
                (All-of {0, 0} (λ x. Unit) inbox.items (λ x. tt)) c).1,
          ))

      if_and : (b : Bool) {c : Bool} → c ≡ false → b && c ≡ false
      if_and true h = h
      if_and false h = refl

      off : (x : Item Payload) → x.key ≡ r.key → is_current_of k x ≡ false
      off x h = if_and x.is_current (rw (h, here) e)
