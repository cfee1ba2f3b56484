-- ===== src/Inbox/Versions.antt =====
-- The versions of the inbox's items: one current row for each key, ascending ids.
use yodoca.Base.{
  ◌≤◌, ◌<◌, ◌≡◌, ap, inl, inr, Bool, true, false, some, List, [], ◌∷◌, ◌++◌, arith, if◌then◌else◌,
  Bool-cases, find, update, count, All, All-map, All-append, All-update, All-find,
}
use yodoca.Inbox.{Key, Item, Inbox, is_current_of, has_id}

module _ {Payload : Type 0} where
  -- Each id is below the ids of the rows behind it.
  abbrev pub Ascending : List (Item Payload) → Type 0
  Ascending [] = Unit
  Ascending (r ∷ rs) = All (λ s. r.id < s.id) rs × Ascending rs

  -- A key has at most one current row, ids ascend, and the next one is new.
  pub record IsValid (inbox : Inbox Payload) : Type 0 where
    pub one_current : (k : Key) → count (is_current_of k) inbox.items ≤ 1
    pub ascending : Ascending inbox.items
    pub next_new : All (λ r. r.id < inbox.next_id) inbox.items

  -- A row that is found is the only one with its id.
  pub find-only :
      (q : Item Payload → Bool) (y : Item Payload) (rs : List (Item Payload))
      → Ascending rs
      → find q rs ≡ some y
      → All (λ r. has_id y.id r ≡ true → r ≡ y) rs
  find-only q y [] h e = tt
  find-only q y (r ∷ rs) h e = elim (Bool-cases (q r)) [
    | inl a ↦ (
      (λ b. first (rw a at e)),
      All-map (λ s. r.id < s.id) (λ s. has_id y.id s ≡ true → s ≡ y) rs
          (λ s less b.
            absurd (ground (arith, less, b, ap (λ (t : Item Payload). t.id) (first (rw a at e)))))
          h.0,
    )
    | inr a ↦ (
      (λ b. absurd (ground (arith, b, (All-find (λ s. r.id < s.id) q rs y h.0 (rw a at e)).0))),
      find-only q y rs h.1 (rw a at e),
    )
  ]
    where
      first : some r ≡ some y → r ≡ y
      first d = cc

  pub Ascending-update :
      (p : Item Payload → Bool) (f : Item Payload → Item Payload) (rs : List (Item Payload))
      → ((r : Item Payload) → (f r).id ≡ r.id)
      → Ascending rs
      → Ascending (update p f rs)
  Ascending-update p f [] same_id h = tt
  Ascending-update p f (r ∷ rs) same_id h = (head (p r), Ascending-update p f rs same_id h.1)
    where
      later : All (λ s. r.id < s.id) (update p f rs)
      later =
          All-update (λ s. r.id < s.id) (λ s. r.id < s.id) p f rs (λ s less e. rw (same_id s) less)
            (λ s less e. less) h.0

      head : (b : Bool) → All (λ s. (if b then f r else r).id < s.id) (update p f rs)
      head true = rw (same_id r) later
      head false = later

  pub Ascending-append :
      (rs : List (Item Payload)) (new : Item Payload)
      → All (λ r. r.id < new.id) rs
      → Ascending rs
      → Ascending (rs ++ new ∷ [])
  Ascending-append [] new k h = (tt, tt)
  Ascending-append (r ∷ rs) new k h =
      (All-append (λ s. r.id < s.id) rs (new ∷ []) h.0 ((k.0, tt)), Ascending-append rs new k.1 h.1)

  -- Rows that pass a test `q` only before the update, or as before.
  pub count-update-le :
      (q p : Item Payload → Bool) (f : Item Payload → Item Payload) (rs : List (Item Payload))
      → ((r : Item Payload) → q (f r) ≡ true → q r ≡ true)
      → count q (update p f rs) ≤ count q rs
  count-update-le q p f [] h = omega arith
  count-update-le q p f (r ∷ rs) h = ground (arith, h r, count-update-le q p f rs h)
