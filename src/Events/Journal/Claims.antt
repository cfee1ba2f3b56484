-- ===== src/Events/Journal/Claims.antt =====
-- `claim_pending` of core/events/journal.py: which rows a claim takes.
use yodoca.Base.{
  ℕ, ◌≡◌, inl, inr, Bool, true, List, [], ◌∷◌, map, arith, Bool-cases, ◌==◌, select, count, All,
  All-select, All-map, All-of, length-select, length-take, Distinct, Distinct-alike, count-keys,
  min, All-take, All-×, length-map, length-take-le_count, count-select-le, count_mono,
}
use yodoca.Base.Sort.{sort, length-sort, count-sort, All-sort}
use yodoca.Events.Journal.{Row, Journal, is_pending, contains, older, oldest_pending, claimed_ids}

abbrev pub id_of : Row → ℕ
id_of r = r.id

abbrev pub is_claimed : ℕ → Journal → Row → Bool
is_claimed limit j r = contains (claimed_ids limit j) r.id

-- A row whose id is that of a listed row, where the rows with the id of a listed row satisfy `p`.
contains-map :
    (p : Row → Bool) (r : Row) (xs : List Row)
    → All (λ x. id_of x ≡ r.id → p r ≡ true) xs
    → contains (map id_of xs) r.id ≡ true
    → p r ≡ true
contains-map p r [] h e = cc
contains-map p r (x ∷ xs) h e = elim (Bool-cases (x.id == r.id)) [
  | inl same_id ↦ h.0 (ground arith)
  | inr other ↦ contains-map p r xs h.1 (rw other at e)
]

hit_self : (xs : List Row) → All (λ x. contains (map id_of xs) x.id ≡ true) xs
hit_self [] = tt
hit_self (x ∷ xs) = (
  ground arith,
  All-map (λ y. contains (map id_of xs) y.id ≡ true)
      (λ y. contains (map id_of (x ∷ xs)) y.id ≡ true) xs (λ y h. ground arith) (hit_self xs),
)

module _ (limit : ℕ) (j : Journal) where
  All-oldest :
      (P : Row → Type 0)
      → All P j.rows
      → All (λ x. P x × (is_pending x ≡ true)) (oldest_pending limit j)
  unfolding oldest_pending
  All-oldest P h =
      All-take _ limit (sort older (select is_pending j.rows))
        (All-sort older _ (select is_pending j.rows) (All-select P is_pending j.rows h))

  -- If `p` holds of every picked row, it holds of every row that has the id of a picked row.
  alike :
      (p : Row → Bool) (rs : List Row)
      → All (λ x. p x ≡ true) (oldest_pending limit j)
      → All
          (λ x. p x ≡ true → All (λ y. id_of x ≡ id_of y → p y ≡ true) rs)
          (oldest_pending limit j)
      → All (λ r. is_claimed limit j r ≡ true → p r ≡ true) rs
  unfolding claimed_ids
  alike p [] h k = tt
  alike p (y ∷ ys) h k = (
    contains-map p y picked (
        All-map _ _ picked (λ x hk. (hk.1 hk.0).0)
          (All-× (λ x. p x ≡ true)
            (λ x. p x ≡ true → All (λ z. id_of x ≡ id_of z → p z ≡ true) (y ∷ ys)) picked h k)),
    alike p ys h (All-map _ _ picked (λ x f e. (f e).1) k),
  )
    where
      picked : List Row
      picked = oldest_pending limit j

  claimed-alike :
      (p : Row → Bool)
      → Distinct id_of j.rows
      → All (λ x. p x ≡ true) (oldest_pending limit j)
      → All (λ r. is_claimed limit j r ≡ true → p r ≡ true) j.rows
  claimed-alike p d h = alike p j.rows h (
      All-map _ _ (oldest_pending limit j) (λ x k. k.0)
        (All-oldest (λ x. p x ≡ true → All (λ y. id_of x ≡ id_of y → p y ≡ true) j.rows)
          (Distinct-alike id_of p j.rows d)))

  claimed-pending :
      Distinct id_of j.rows → All (λ r. is_claimed limit j r ≡ true → is_pending r ≡ true) j.rows
  claimed-pending d = claimed-alike is_pending d (
      All-map _ _ (oldest_pending limit j) (λ x k. k.1)
        (All-oldest (λ _. Unit {0}) (All-of (λ _. Unit {0}) j.rows (λ _. tt))))

  pub count-claimed :
      Distinct id_of j.rows
      → count (is_claimed limit j) j.rows ≡ min limit (count is_pending j.rows)
  unfolding claimed_ids oldest_pending
  count-claimed d =
      let waiting = select is_pending j.rows in
      let queue = sort older waiting in
      let hit = is_claimed limit j in
      omega (
        arith,
        count-keys id_of (claimed_ids limit j) j.rows d,
        length-map id_of (oldest_pending limit j),
        length-take limit queue,
        length-sort older waiting,
        length-select is_pending j.rows,
        count_mono hit is_pending j.rows (claimed-pending d),
        length-take-le_count hit limit queue (hit_self (oldest_pending limit j)),
        count-sort older hit waiting,
        count-select-le hit is_pending j.rows,
      )
