-- ===== src/Base/Rows.antt =====
-- Laws of the SQL forms: how many rows there are, and which row is found.
use Prim.Native.Nat.{ℕ, zero, suc, ◌+◌, ◌-◌, ◌≤◌, min}
use mathlib.Core.Path.{◌≡◌, refl, ap, subst}
use mathlib.Core.Logic.{inl, inr}
use mathlib.Core.Bool.{Bool, true, false}
use mathlib.Core.Option.{none, some}
use mathlib.Core.List.{List, [], ◌∷◌, ◌++◌, map}
use native.Mathlib.Omega.{arith}
use yodoca.Base.Tests.{Bool-cases}
use yodoca.Base.Lists.{length, take, drop, head?, select, update, count, find, any, All}

module _ {ℓ} {A : Type ℓ} where
  pub length-select : (p : A → Bool) (xs : List A) → length (select p xs) ≡ count p xs
  length-select p [] = refl
  length-select p (x ∷ xs) = ground (arith, length-select p xs)

  pub length-take : (n : ℕ) (xs : List A) → length (take n xs) ≡ min n (length xs)
  length-take zero xs = omega arith
  length-take (suc n) [] = omega arith
  length-take (suc n) (x ∷ xs) = omega (arith, length-take n xs)

  pub length-drop : (n : ℕ) (xs : List A) → length (drop n xs) ≡ length xs - n
  length-drop zero xs = omega arith
  length-drop (suc n) [] = omega arith
  length-drop (suc n) (x ∷ xs) = omega (arith, length-drop n xs)

  pub All-drop {κ} : (P : A → Type κ) (n : ℕ) (xs : List A) → All P xs → All P (drop n xs)
  All-drop P zero xs h = h
  All-drop P (suc n) [] h = tt
  All-drop P (suc n) (x ∷ xs) h = All-drop P n xs h.1

  pub count-append : (p : A → Bool) (xs ys : List A) → count p (xs ++ ys) ≡ count p xs + count p ys
  count-append p [] ys = omega arith
  count-append p (x ∷ xs) ys = ground (arith, count-append p xs ys)

  -- Rows that fail the test in every place are not counted.
  pub count-eq_zero : (p : A → Bool) (xs : List A) → All (λ x. p x ≡ false) xs → count p xs ≡ 0
  count-eq_zero p [] h = refl
  count-eq_zero p (x ∷ xs) h = rw (h.0) (count-eq_zero p xs h.1)

  pub any-eq_false : (p : A → Bool) (xs : List A) → any p xs ≡ false → All (λ x. p x ≡ false) xs
  any-eq_false p [] h = tt
  any-eq_false p (x ∷ xs) h = elim (Bool-cases (p x)) [
    | inl e ↦ absurd (cc (rw e at h))
    | inr e ↦ (e, any-eq_false p xs (rw e at h))
  ]

module _ {ℓ κ} {A : Type ℓ} {B : Type κ} where
  pub All-map_image {μ} :
      (P : B → Type μ) (f : A → B) (xs : List A) → ((x : A) → P (f x)) → All P (map f xs)
  All-map_image P f [] h = tt
  All-map_image P f (x ∷ xs) h = (h x, All-map_image P f xs h)

module _ {ℓ} {A : Type ℓ} where
  pub All-of_select {κ} :
      (P : A → Type κ) (p : A → Bool) (xs : List A)
      → All P (select p xs)
      → All (λ x. p x ≡ true → P x) xs
  All-of_select P p [] h = tt
  All-of_select P p (x ∷ xs) h = elim (Bool-cases (p x)) [
    | inl e ↦
        let h' : P x × All P (select p xs) = rw e at h in ((λ _. h'.0), All-of_select P p xs h'.1)
    | inr e ↦ ((λ e'. absurd (cc)), All-of_select P p xs (rw e at h))
  ]

  pub All-take {κ} : (P : A → Type κ) (n : ℕ) (xs : List A) → All P xs → All P (take n xs)
  All-take P zero xs h = tt
  All-take P (suc n) [] h = tt
  All-take P (suc n) (x ∷ xs) h = (h.0, All-take P n xs h.1)

  pub length-take-le_count :
      (p : A → Bool) (n : ℕ) (xs : List A)
      → All (λ x. p x ≡ true) (take n xs)
      → length (take n xs) ≤ count p xs
  length-take-le_count p zero xs h = omega arith
  length-take-le_count p (suc n) [] h = omega arith
  length-take-le_count p (suc n) (x ∷ xs) h =
      rw (h.0) (omega (arith, length-take-le_count p n xs h.1))

  pub count-select-le : (p q : A → Bool) (xs : List A) → count p (select q xs) ≤ count p xs
  count-select-le p q [] = omega arith
  count-select-le p q (x ∷ xs) = ground (arith, count-select-le p q xs)

  pub count_mono :
      (p q : A → Bool) (xs : List A)
      → All (λ x. p x ≡ true → q x ≡ true) xs
      → count p xs ≤ count q xs
  count_mono p q [] h = omega arith
  count_mono p q (x ∷ xs) h = ground (arith, h.0, count_mono p q xs h.1)

  pub count-update :
      (p q : A → Bool) (f : A → A) (xs : List A)
      → ((x : A) → q (f x) ≡ q x)
      → count q (update p f xs) ≡ count q xs
  count-update p q f [] h = refl
  count-update p q f (x ∷ xs) h = ground (arith, h x, count-update p q f xs h)

  pub All-× {κ μ} :
      (P : A → Type κ) (Q : A → Type μ) (xs : List A)
      → All P xs
      → All Q xs
      → All (λ x. P x × Q x) xs
  All-× P Q [] h k = tt
  All-× P Q (x ∷ xs) h k = ((h.0, k.0), All-× P Q xs h.1 k.1)

pub length-map {ℓ κ} :
    {A : Type ℓ} {B : Type κ} (f : A → B) (xs : List A) → length (map f xs) ≡ length xs
length-map f [] = refl
length-map f (x ∷ xs) = ap suc (length-map f xs)

module _ {ℓ} {A : Type ℓ} where
  pub All-head {κ} : (P : A → Type κ) (xs : List A) (h : A) → All P xs → head? xs ≡ some h → P h
  All-head P [] h a e = absurd (cc)
  All-head P (x ∷ xs) h a e = subst P (first e) a.0
    where
      first : some x ≡ some h → x ≡ h
      first p = cc

  pub count_zero : (p : A → Bool) (xs : List A) → count p xs ≡ 0 → All (λ x. p x ≡ false) xs
  count_zero p [] h = tt
  count_zero p (x ∷ xs) h = elim (Bool-cases (p x)) [
    | inl e ↦ absurd (omega (arith, rw e at h))
    | inr e ↦ (e, count_zero p xs (rw e at h))
  ]

  pub find-none : (p : A → Bool) (xs : List A) → find p xs ≡ none → All (λ x. p x ≡ false) xs
  find-none p [] h = tt
  find-none p (x ∷ xs) h = elim (Bool-cases (p x)) [
    | inl e ↦ absurd (cc (rw e at h))
    | inr e ↦ (e, find-none p xs (rw e at h))
  ]

  -- What `find` returns passes the test, and has what every row has.
  pub All-find {κ} :
      (P : A → Type κ) (p : A → Bool) (xs : List A) (h : A)
      → All P xs
      → find p xs ≡ some h
      → P h × (p h ≡ true)
  All-find P p [] h a e = absurd (cc)
  All-find P p (x ∷ xs) h a e = elim (Bool-cases (p x)) [
    | inl t ↦ subst (λ y. P y × (p y ≡ true)) (first (rw t at e)) ((a.0, t))
    | inr f ↦ All-find P p xs h a.1 (rw f at e)
  ]
    where
      first : some x ≡ some h → x ≡ h
      first p = cc

  -- Each element is among the elements.
  pub All-diag {κ} : (Q : A → A → Type κ) (xs : List A) → All (λ x. All (Q x) xs → Q x x) xs
  All-diag Q xs = go xs (λ x h. h)
    where
      go :
          (ys : List A)
          → ((x : A) → All (Q x) xs → All (Q x) ys)
          → All (λ x. All (Q x) xs → Q x x) ys
      go [] f = tt
      go (y ∷ ys) f = ((λ h. (f y h).0), go ys (λ x h. (f x h).1))

  pub select-nil : (p : A → Bool) (xs : List A) → All (λ x. p x ≡ false) xs → select p xs ≡ []
  select-nil p [] h = refl
  select-nil p (x ∷ xs) h = rw (h.0) (select-nil p xs h.1)

  -- An update that turns rows which pass `q` into rows which do not.
  pub count-update_off :
      (p q : A → Bool) (f : A → A) (xs : List A)
      → ((x : A) → p x ≡ true → q x ≡ true)
      → ((x : A) → q (f x) ≡ false)
      → count q (update p f xs) + count p xs ≡ count q xs
  count-update_off p q f [] on off = refl
  count-update_off p q f (x ∷ xs) on off =
      ground (arith, on x, off x, count-update_off p q f xs on off)

  -- What holds after an update of the rows that it leaves alone held before.
  pub All-of_update {κ} :
      (P : A → Type κ) (p : A → Bool) (f : A → A) (xs : List A)
      → All P (update p f xs)
      → All (λ x. p x ≡ false → P x) xs
  All-of_update P p f [] h = tt
  All-of_update P p f (x ∷ xs) h = ((λ e. rw e at h.0), All-of_update P p f xs h.1)

  -- An update that turns no row into one which passes `q`.
  pub count-update_le :
      (p q : A → Bool) (f : A → A) (xs : List A)
      → ((x : A) → q (f x) ≡ true → q x ≡ true)
      → count q (update p f xs) ≤ count q xs
  count-update_le p q f [] h = omega arith
  count-update_le p q f (x ∷ xs) h = ground (arith, h x, count-update_le p q f xs h)
