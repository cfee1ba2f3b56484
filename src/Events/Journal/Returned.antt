-- ===== src/Events/Journal/Returned.antt =====
-- `claim_pending` of core/events/journal.py: the events that a claim returns.
use yodoca.Base.{
  ℕ, suc, ◌≡◌, ◌≤◌, refl, sym, ap, ◌∙◌, Bool, true, Option, none, some, List, [], ◌∷◌, arith, ◌==◌,
  is_some, length, select, update, count, All, All-select, All-map, All-update, All-×,
  length-select, Distinct, min, count-update, count-key, ==→eq,
}
use mathlib.Core.Path.{subst}
use yodoca.Events.Journal.{
  Json, Returning, Row, EventRow, Journal, is_pending, contains, event_row, row_to_event_row,
  event_rows, claimed_ids, claim, claim_pending,
}
use yodoca.Events.Journal.Claims.{id_of, is_claimed, count-claimed}

pub some_of {ℓ} : {A : Type ℓ} (o : Option A) → is_some o ≡ true → (a : A) × (o ≡ some a)
some_of none h = absurd (cc)
some_of (some a) h = (a, refl)

module _ {ℓ} {A : Type ℓ} where
  -- Rows with distinct keys: a row is the only one with its key, and is counted once by it.
  Distinct-only :
      (key : A → ℕ) (xs : List A)
      → Distinct key xs
      → All (λ x. All (λ y. key x ≡ key y → x ≡ y) xs) xs
  Distinct-only key [] h = tt
  Distinct-only key (x ∷ xs) h = (
    ((λ _. refl), All-map _ (λ y. key x ≡ key y → x ≡ y) xs (λ y ne e. absurd (ne (sym e))) h.0),
    All-× (λ y. key y ≡ key x → y ≡ x) (λ y. All (λ z. key y ≡ key z → y ≡ z) xs) xs
        (All-map _ (λ y. key y ≡ key x → y ≡ x) xs (λ y ne e. absurd (ne e)) h.0)
        (Distinct-only key xs h.1),
  )

  count-own :
      (key : A → ℕ) (xs : List A)
      → Distinct key xs
      → All (λ x. count (λ y. key x == key y) xs ≡ 1) xs
  count-own key xs h =
      All-map (λ x. 1 ≤ count (λ y. key x == key y) xs) _ xs
        (λ x least. omega (arith, least, count-key key (key x) xs h)) (present xs)
    where
      present : (ys : List A) → All (λ x. 1 ≤ count (λ y. key x == key y) ys) ys
      present [] = tt
      present (y ∷ ys) = (
        ground arith,
        All-map (λ x. 1 ≤ count (λ z. key x == key z) ys) _ ys (λ x k. ground (arith, k))
            (present ys),
      )

  count-select_of :
      (p q : A → Bool) (xs : List A)
      → ((x : A) → p x ≡ true → q x ≡ true)
      → count p (select q xs) ≡ count p xs
  count-select_of p q [] h = refl
  count-select_of p q (x ∷ xs) h = ground (arith, h x, count-select_of p q xs h)

module _ {Payload : Type 0} (json : Json Payload) where
  abbrev pub IsReadable : Row → Type 0
  IsReadable r = is_some (json.loads r.payload) ≡ true

  pub convert :
      (r : Row) (p : Payload)
      → json.loads r.payload ≡ some p
      → row_to_event_row json r ≡ some (event_row r p)
  unfolding row_to_event_row
  convert r p h = rw (h, row_to_event_row)

  -- An event and the row that it was read from.
  abbrev pub Matches : Row → EventRow Payload → Type 0
  Matches r e =
      (e.id ≡ r.id)
      × (e.topic ≡ r.topic)
      × (e.source ≡ r.source)
      × (json.loads r.payload ≡ some e.payload)
      × (e.created_at ≡ r.created_at)
      × (e.correlation_id ≡ r.correlation_id)
      × (e.retry_count ≡ r.retry_count)

  readable_row :
      (r : Row)
      → IsReadable r
      → (e : EventRow Payload) × (row_to_event_row json r ≡ some e) × Matches r e
  unfolding event_row
  readable_row r h =
      let (p, eq) = some_of (json.loads r.payload) h in
      (event_row r p, convert r p eq, (refl, refl, refl, eq, refl, refl, refl))

  pub convert_more :
      (r : Row) (rs : List Row) (e : EventRow Payload) (es : List (EventRow Payload))
      → row_to_event_row json r ≡ some e
      → event_rows json rs ≡ some es
      → event_rows json (r ∷ rs) ≡ some (e ∷ es)
  unfolding event_rows
  convert_more r rs e es h k = rw (h, k, event_rows)

  -- Readable rows are all converted, one by one: what follows from a row holds of its event, and each
  -- id is among the events as often as among the rows.
  event_rows_total :
      (Q : EventRow Payload → Type 0) (rs : List Row)
      → All (λ r. IsReadable r × ((e : EventRow Payload) → Matches r e → Q e)) rs
      → (es : List (EventRow Payload)) × (event_rows json rs ≡ some es)
        × (length es ≡ length rs)
        × ((i : ℕ) → count (λ e. i == e.id) es ≡ count (λ r. i == r.id) rs)
        × All Q es
  unfolding event_rows
  event_rows_total Q [] h = ([], refl, refl, (λ i. refl), tt)
  event_rows_total Q (r ∷ rs) h =
      let (e, eq, m) = readable_row r h.0.0 in
      let (es, eqs, len, ids, ok) = event_rows_total Q rs h.1 in
      (
        e ∷ es,
        convert_more r rs e es eq eqs,
        ap suc len,
        (λ i. rw (m.0, ids i) refl),
        (h.0.1 e m, ok),
      )

  -- An event is the only one of its id, and is read from the row of that id.
  abbrev pub IsRead : List Row → EventRow Payload → Type 0
  IsRead rows e = All (λ r. e.id ≡ r.id → Matches r e) rows

  Matches-only :
      (rows : List Row)
      → Distinct id_of rows
      → All (λ r. (e : EventRow Payload) → Matches r e → IsRead rows e) rows
  Matches-only rows d =
      All-map _ (λ r. (e : EventRow Payload) → Matches r e → IsRead rows e) rows
        (λ r only e m.
          All-map (λ q. r.id ≡ q.id → r ≡ q) _ rows
            (λ q f same_id. subst (λ x. Matches x e) (f (sym m.0 ∙ same_id)) m) only)
        (Distinct-only id_of rows d)

  -- On a journal with distinct ids and readable payloads a claim returns one event for each row that it
  -- claims and no other, as many as the limit and the pending rows allow, in whatever order the
  -- database gives them; each has the id, topic, source, time, correlation id and retry count of its
  -- row and the payload that the row's text stands for.
  pub claim_pending-returns :
      (db : Returning) (now limit : ℕ) (j : Journal)
      → Distinct id_of j.rows
      → All IsReadable j.rows
      → (es : List (EventRow Payload)) × ((claim_pending json db now limit j).1 ≡ some es)
        × (length es ≡ min limit (count is_pending j.rows))
        × All (λ e. contains (claimed_ids limit j) e.id ≡ true) es
        × All
            (λ r. contains (claimed_ids limit j) r.id ≡ true → count (λ e. r.id == e.id) es ≡ 1)
            j.rows
        × All (IsRead j.rows) es
  unfolding claim_pending claim
  claim_pending-returns db now limit j d readable =
      let hit = is_claimed limit j in
      let rows' = update hit (claim now) j.rows in
      let taken = select hit rows' in
      let Q =
        λ (e : EventRow Payload). (contains (claimed_ids limit j) e.id ≡ true) × IsRead j.rows e in
      let Fine =
        λ (r : Row). IsReadable r × ((e : EventRow Payload) → Matches r e → IsRead j.rows e) in
      let fine =
        All-map (λ r. Fine r × (hit r ≡ true))
          (λ r. IsReadable r × ((e : EventRow Payload) → Matches r e → Q e)) taken
          (λ r h. (
            h.0.0,
            (λ e m.
                (subst (λ i. contains (claimed_ids limit j) i ≡ true) (sym m.0) h.1, h.0.1 e m)),
          ))
          (All-select Fine hit rows' (
            All-update Fine Fine hit (claim now) j.rows (λ r h _. h) (λ r h _. h)
              (All-× _ _ j.rows readable (Matches-only j.rows d)))) in
      let (es, eq, len, ids, ok) =
        event_rows_total Q (db.arrange taken) (db.All-arrange _ taken fine) in
      (
        es,
        eq,
        omega (
          arith,
          len,
          db.length-arrange taken,
          length-select hit rows',
          count-update hit hit (claim now) j.rows (λ r. refl),
          count-claimed limit j d,
        ),
        All-map Q (λ e. contains (claimed_ids limit j) e.id ≡ true) es (λ e h. h.0) ok,
        All-map (λ r. count (λ q. r.id == q.id) j.rows ≡ 1) _ j.rows
            (λ r once h.
              ids r.id
              ∙ db.count-arrange (λ q. r.id == q.id) taken
              ∙ count-select_of (λ q. r.id == q.id) hit rows'
                  (λ q e. subst (λ i. contains (claimed_ids limit j) i ≡ true) (==→eq _ _ e) h)
              ∙ count-update hit (λ q. r.id == q.id) (claim now) j.rows (λ q. refl)
              ∙ once)
            (count-own id_of j.rows d),
        All-map Q (IsRead j.rows) es (λ e h. h.1) ok,
      )
