-- ===== src/Inbox/Reading.antt =====
-- Reading the inbox: the marks of read items, the pages of a list and the cursors.
use mathlib.Core.Path.{subst}
use yodoca.Base.{
  ◌++◌, sym, drop, length-drop, All-drop, ℕ, zero, suc, ◌+◌, ◌-◌, min, ◌≡◌, refl, ap, ◌∙◌, inl, inr,
  String, Bool, true, false, ◌&&◌, Option, none, some, List, [], ◌∷◌, arith, if◌then◌else◌,
  Bool-cases, same, length, take, find, select, delete, count, All, All-map, All-take, All-select,
  All-of, length-take, length-select, count-update_off, eq_iff,
}
use yodoca.Base.Sort.{count-sort, sort, IsSorted, sort-IsSorted, length-sort, All-sort}
use yodoca.Inbox.{
  Item, Inbox, Filter, Cursor, passes, newer, list_items, is_unread, is_unread_of, set_read,
  mark_all_read, get_unread_count, is_cursor, is_cursor_of, get_cursor, set_cursor, delete_cursors,
  value_of,
}
use yodoca.Inbox.Finding.{find-append_none, find-append_miss}

module _ {ℓ} {A : Type ℓ} where
  IsSorted-drop :
      (before : A → A → Bool) (n : ℕ) (xs : List A)
      → IsSorted before xs
      → IsSorted before (drop n xs)
  IsSorted-drop before zero xs h = h
  IsSorted-drop before (suc n) [] h = tt
  IsSorted-drop before (suc n) (x ∷ xs) h = IsSorted-drop before n xs h.1

  IsSorted-take :
      (before : A → A → Bool) (n : ℕ) (xs : List A)
      → IsSorted before xs
      → IsSorted before (take n xs)
  IsSorted-take before zero xs h = tt
  IsSorted-take before (suc n) [] h = tt
  IsSorted-take before (suc n) (x ∷ xs) h = (All-take _ n xs h.0, IsSorted-take before n xs h.1)

  take-drop : (n : ℕ) (xs : List A) → take n xs ++ drop n xs ≡ xs
  take-drop zero xs = refl
  take-drop (suc n) [] = refl
  take-drop (suc n) (x ∷ xs) = ap (λ l. x ∷ l) (take-drop n xs)

  -- A search for rows that a deletion has taken away, and for rows that it leaves.
  find-delete_all :
      (q p : A → Bool) (xs : List A)
      → ((x : A) → q x ≡ true → p x ≡ true)
      → find q (delete p xs) ≡ none
  find-delete_all q p [] h = refl
  find-delete_all q p (x ∷ xs) h = elim (Bool-cases (p x)) [
    | inl e ↦ rw e (find-delete_all q p xs h)
    | inr e ↦ rw (e, off (q x) e refl) (find-delete_all q p xs h)
  ]
    where
      off : (b : Bool) → p x ≡ false → q x ≡ b → q x ≡ false
      off true e a = absurd (cc (e, h x a))
      off false e a = a

  find-delete_miss :
      (q p : A → Bool) (xs : List A)
      → ((x : A) → p x ≡ true → q x ≡ false)
      → find q (delete p xs) ≡ find q xs
  find-delete_miss q p [] h = refl
  find-delete_miss q p (x ∷ xs) h = elim (Bool-cases (p x)) [
    | inl e ↦ rw (e, h x e) (find-delete_miss q p xs h)
    | inr e ↦ rw e (ap (λ r. if q x then some x else r) (find-delete_miss q p xs h))
  ]

same_sym : (a b : String) → same a b ≡ same b a
same_sym a b = ground (arith, eq_iff a b, eq_iff b a)

is_source_of :
    (t a t' a' : String) (c : Cursor)
    → is_cursor_of t' a' c ≡ true
    → is_cursor_of t a c ≡ (same t t' && same a a')
is_source_of t a t' a' c h = rw (t_is, a_is, same_sym t' t, same_sym a' a) refl
  where
    t_is : c.source_type ≡ t'
    t_is = ground (arith, h, eq_iff c.source_type t')

    a_is : c.source_account ≡ a'
    a_is = ground (arith, h, eq_iff c.source_account a')

is_cursor_is :
    (t a s t' a' s' : String) (c : Cursor)
    → is_cursor t' a' s' c ≡ true
    → is_cursor t a s c ≡ ((same t t' && same a a') && same s s')
is_cursor_is t a s t' a' s' c h =
    rw (is_source_of t a t' a' c (ground (arith, h)), s_is, same_sym s' s) refl
  where
    s_is : c.stream ≡ s'
    s_is = ground (arith, h, eq_iff c.stream s')

differs : {p q : Bool} {b : Bool} → (q ≡ true → p ≡ b) → b ≡ false → p ≡ true → q ≡ false
differs {q = false} f e h = refl
differs {q = true} f e h = absurd (cc (f refl, e, h))

module _ {Payload : Type 0} where
  newest_first :
      (f : Filter) (inbox : Inbox Payload)
      → IsSorted newer (sort newer (select (passes f) inbox.items))
  newest_first f inbox =
      sort-IsSorted newer (λ r q h. ground (arith, h)) (λ r q t h k. ground (arith, h, k))
        (select (passes f) inbox.items)

  -- A page as a part of all rows that pass the filter: the rows of the pages before it, its own rows
  -- and the rows behind it are together the rows of the table that pass, each as often as there and
  -- newest first, and the rows before it are as many as the offset skips.
  abbrev pub IsPage : Filter → Inbox Payload → List (Item Payload) → Type 0
  IsPage f inbox page =
      (front : List (Item Payload)) × (back : List (Item Payload)) × IsSorted newer
        (front ++ (page ++ back))
      × ((p : Item Payload → Bool)
          → count p (front ++ (page ++ back)) ≡ count p (select (passes f) inbox.items))
      × (length front ≡ min f.offset (count (passes f) inbox.items))

  IsPage-of :
      (f : Filter) (inbox : Inbox Payload)
      → IsPage f inbox (take f.limit (drop f.offset (sort newer (select (passes f) inbox.items))))
  IsPage-of f inbox =
      let rows = sort newer (select (passes f) inbox.items) in
      let whole =
        (take f.offset rows
          ++ (take f.limit (drop f.offset rows) ++ drop f.limit (drop f.offset rows))) in
      let e : whole ≡ rows =
        ap (λ l. take f.offset rows ++ l) (take-drop f.limit (drop f.offset rows))
        ∙ take-drop f.offset rows in
      (
        take f.offset rows,
        drop f.limit (drop f.offset rows),
        subst (IsSorted newer) (sym e) (newest_first f inbox),
        (λ p. ap (count p) e ∙ count-sort newer p (select (passes f) inbox.items)),
        length-take f.offset rows
            ∙ ap (min f.offset) (
                length-sort newer (select (passes f) inbox.items)
                ∙ length-select (passes f) inbox.items),
      )

  -- A page is the part of the rows that pass the filter, in the order of the newest first, behind the
  -- offset: all its rows pass, its length is the limit or what is left behind the offset, and the
  -- total is the number of all rows that pass.
  pub list_items-IsPage :
      (f : Filter) (inbox : Inbox Payload)
      → IsPage f inbox (list_items f inbox).0
        × (All (λ r. passes f r ≡ true) (list_items f inbox).0
            × (IsSorted newer (list_items f inbox).0
                × ((length (list_items f inbox).0 ≡ min f.limit ((list_items f inbox).1 - f.offset))
                    × ((list_items f inbox).1 ≡ count (passes f) inbox.items))))
  unfolding list_items
  list_items-IsPage f inbox =
      let found = select (passes f) inbox.items in
      (
        IsPage-of f inbox,
        (
          All-take (λ r. passes f r ≡ true) f.limit (drop f.offset (sort newer found))
              (All-drop (λ r. passes f r ≡ true) f.offset (sort newer found)
                (All-sort newer (λ r. passes f r ≡ true) found
                  (All-map {0, 0, 0} (λ r. Unit × (passes f r ≡ true)) (λ r. passes f r ≡ true)
                    found (λ r h. h.1)
                    (All-select {0, 0} (λ r. Unit) (passes f) inbox.items
                      (All-of {0, 0} (λ r. Unit) inbox.items (λ r. tt)))))),
          (
            IsSorted-take newer f.limit (drop f.offset (sort newer found))
                (IsSorted-drop newer f.offset (sort newer found) (newest_first f inbox)),
            (
              length-take f.limit (drop f.offset (sort newer found))
                  ∙ ap (min f.limit) (
                      length-drop f.offset (sort newer found)
                      ∙ ap (λ n. n - f.offset)
                          (length-sort newer found ∙ length-select (passes f) inbox.items)),
              refl,
            ),
          ),
        ),
      )

  -- Marking all items as read, of one source or of all, leaves no unread item of that source, and
  -- lowers the number of unread items by the number that it returns.
  pub mark_all_read-marks :
      (source : Option String) (inbox : Inbox Payload)
      → (count (is_unread_of source) (mark_all_read source inbox).1.items ≡ 0)
        × (get_unread_count (mark_all_read source inbox).1 + (mark_all_read source inbox).0
            ≡ get_unread_count inbox)
  unfolding mark_all_read get_unread_count
  mark_all_read-marks source inbox = (
    omega (
      arith,
      count-update_off (is_unread_of source) (is_unread_of source) set_read inbox.items (λ r h. h)
          (λ r. ground arith),
    ),
    count-update_off (is_unread_of source) is_unread set_read inbox.items (λ r h. ground (arith, h))
        (λ r. ground arith),
  )

  -- A cursor that is set is read back, and no other cursor changes; a deletion takes exactly the
  -- cursors of the source and the account away.
  pub get_cursor-set_cursor :
      (t a s value t' a' s' : String) (now : ℕ) (inbox : Inbox Payload)
      → (get_cursor t' a' s' (set_cursor t a s value now inbox) ≡ (
          if (same t t' && same a a') && same s s' then some value else get_cursor t' a' s' inbox))
        × (get_cursor t' a' s' (delete_cursors t a inbox)
            ≡ (if same t t' && same a a' then none else get_cursor t' a' s' inbox))
  unfolding get_cursor set_cursor delete_cursors
  get_cursor-set_cursor t a s value t' a' s' now inbox = (
    elim (Bool-cases ((same t t' && same a a') && same s s')) [
      | inl e ↦ rw e (
          ap value_of (
            find-append_none (is_cursor t' a' s') (delete (is_cursor t a s) inbox.cursors)
              (new ∷ [])
              (find-delete_all (is_cursor t' a' s') (is_cursor t a s) inbox.cursors
                (λ c h. is_cursor_is t a s t' a' s' c h ∙ e))
            ∙ ap (λ b. if b then some new else none) e))
      | inr e ↦ rw e (
          ap value_of (
            find-append_miss (is_cursor t' a' s') (delete (is_cursor t a s) inbox.cursors) new e
            ∙ find-delete_miss (is_cursor t' a' s') (is_cursor t a s) inbox.cursors
                (λ c. differs (is_cursor_is t a s t' a' s' c) e)))
    ],
    elim (Bool-cases (same t t' && same a a')) [
      | inl e ↦ rw e (
          ap value_of (
            find-delete_all (is_cursor t' a' s') (is_cursor_of t a) inbox.cursors
              (λ c h. is_source_of t a t' a' c (ground (arith, h)) ∙ e)))
      | inr e ↦ rw e (
          ap value_of (
            find-delete_miss (is_cursor t' a' s') (is_cursor_of t a) inbox.cursors
              (λ c. differs (λ h. is_source_of t a t' a' c (ground (arith, h))) e)))
    ],
  )
    where
      new : Cursor
      new = record {
        source_type = t;
        source_account = a;
        stream = s;
        cursor_value = value;
        updated_at = now;
      }
