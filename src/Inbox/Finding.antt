-- ===== src/Inbox/Finding.antt =====
-- Which row a search finds after an update or an insertion.
use yodoca.Base.{
  ◌≡◌, refl, ap, inl, inr, Bool, true, false, none, some, List, [], ◌∷◌, ◌++◌, arith, if◌then◌else◌,
  Bool-cases, find, update, any, count, count_zero, All, ◌≤◌,
}

module _ {ℓ} {A : Type ℓ} where
  pub find-append_none :
      (q : A → Bool) (xs ys : List A) → find q xs ≡ none → find q (xs ++ ys) ≡ find q ys
  find-append_none q [] ys e = refl
  find-append_none q (x ∷ xs) ys e = elim (Bool-cases (q x)) [
    | inl h ↦ absurd (cc (rw h at e))
    | inr h ↦ rw h (find-append_none q xs ys (rw h at e))
  ]

  pub find-append_miss :
      (q : A → Bool) (xs : List A) (y : A) → q y ≡ false → find q (xs ++ y ∷ []) ≡ find q xs
  find-append_miss q [] y e = rw e refl
  find-append_miss q (x ∷ xs) y e = elim (Bool-cases (q x)) [
    | inl h ↦ rw h refl
    | inr h ↦ rw h (find-append_miss q xs y e)
  ]

  -- An update of rows that the search passes over, before and after it.
  pub find-update_miss :
      (q p : A → Bool) (f : A → A) (xs : List A)
      → All (λ x. p x ≡ true → (q x ≡ false) × (q (f x) ≡ false)) xs
      → find q (update p f xs) ≡ find q xs
  find-update_miss q p f [] h = refl
  find-update_miss q p f (x ∷ xs) h = elim (Bool-cases (p x)) [
    | inl e ↦ rw (e, (h.0 e).0, (h.0 e).1) (find-update_miss q p f xs h.1)
    | inr e ↦ rw e (ap (λ r. if q x then some x else r) (find-update_miss q p f xs h.1))
  ]

  -- An update of the row that the search finds, and of no other.
  pub find-update_hit :
      (q p : A → Bool) (f : A → A) (y : A) (xs : List A)
      → All (λ x. p x ≡ true → x ≡ y) xs
      → p y ≡ true
      → q y ≡ true
      → q (f y) ≡ true
      → find q xs ≡ some y
      → find q (update p f xs) ≡ some (f y)
  find-update_hit q p f y [] h py qy qf e = absurd (cc)
  find-update_hit q p f y (x ∷ xs) h py qy qf e = elim (Bool-cases (p x)) [
    | inl a ↦ rw (a, h.0 a, qf) refl
    | inr a ↦ elim (Bool-cases (q x)) [
      | inl b ↦ absurd (cc (other (first (rw b at e)) a))
      | inr b ↦ rw (a, b) (find-update_hit q p f y xs h.1 py qy qf (rw b at e))
    ]
  ]
    where
      first : some x ≡ some y → x ≡ y
      first d = cc

      other : x ≡ y → p x ≡ false → true ≡ false
      other d a = cc

  pub any-of_find-none : (q : A → Bool) (xs : List A) → find q xs ≡ none → any q xs ≡ false
  any-of_find-none q [] e = refl
  any-of_find-none q (x ∷ xs) e = elim (Bool-cases (q x)) [
    | inl h ↦ absurd (cc (rw h at e))
    | inr h ↦ rw h (any-of_find-none q xs (rw h at e))
  ]

  -- An update that takes the one row which passes the test away from it.
  pub find-update_off :
      (q p : A → Bool) (f : A → A) (y : A) (xs : List A)
      → All (λ x. p x ≡ true → x ≡ y) xs
      → p y ≡ true
      → q y ≡ true
      → q (f y) ≡ false
      → count q xs ≤ 1
      → find q xs ≡ some y
      → find q (update p f xs) ≡ none
  find-update_off q p f y [] h py qy qf few e = absurd (cc)
  find-update_off q p f y (x ∷ xs) h py qy qf few e = elim (Bool-cases (q x)) [
    | inl b ↦
        rw (h_x (first (rw b at e)), f_x (first (rw b at e)))
          (rest xs h.1 (count_zero q xs (omega (arith, rw b at few))))
    | inr b ↦ elim (Bool-cases (p x)) [
      | inl a ↦ absurd (cc (h.0 a))
      | inr a ↦ rw (a, b) (find-update_off q p f y xs h.1 py qy qf (rw b at few) (rw b at e))
    ]
  ]
    where
      first : some x ≡ some y → x ≡ y
      first d = cc

      h_x : x ≡ y → p x ≡ true
      h_x d = rw d py

      f_x : x ≡ y → q (f x) ≡ false
      f_x d = rw d qf

      rest :
          (zs : List A)
          → All (λ z. p z ≡ true → z ≡ y) zs
          → All (λ z. q z ≡ false) zs
          → find q (update p f zs) ≡ none
      rest [] k l = refl
      rest (z ∷ zs) k l = elim (Bool-cases (p z)) [
        | inl a ↦ absurd (cc (k.0 a, l.0))
        | inr a ↦ rw (a, l.0) (rest zs k.1 l.1)
      ]
