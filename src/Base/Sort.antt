-- ===== src/Base/Sort.antt =====
-- ORDER BY: a stable insertion sort by a strict order on rows, and LIMIT.
use mathlib.Core.Path.{◌≡◌, refl, sym, subst}
use mathlib.Core.Bool.{Bool, true, false}
use mathlib.Core.Option.{none, some}
use mathlib.Core.List.{List, [], ◌∷◌}
use Prim.Native.Nat.{ℕ, zero, suc}
use mathlib.Core.Logic.{inl, inr}
use native.Mathlib.Omega.{arith}
use yodoca.Base.Tests.{if◌then◌else◌, Bool-cases}
use yodoca.Base.Lists.{All, All-map, All-of, count, length, take, head?, any}

-- `before x y`: row `x` comes strictly before row `y`.
module _ {ℓ} {A : Type ℓ} (before : A → A → Bool) where
  abbrev pub insert : A → List A → List A
  insert x [] = x ∷ []
  insert x (y ∷ ys) = if before y x then y ∷ insert x ys else x ∷ y ∷ ys

  abbrev pub sort : List A → List A
  sort [] = []
  sort (x ∷ xs) = insert x (sort xs)

  -- No row has a row behind it that comes strictly before it.
  abbrev pub IsSorted : List A → Type ℓ
  IsSorted [] = Unit
  IsSorted (x ∷ xs) = All (λ y. before y x ≡ false) xs × IsSorted xs

  pub count-insert : (p : A → Bool) (x : A) (ys : List A) → count p (insert x ys) ≡ count p (x ∷ ys)
  count-insert p x [] = refl
  count-insert p x (y ∷ ys) = ground (arith, count-insert p x ys)

  pub count-sort : (p : A → Bool) (xs : List A) → count p (sort xs) ≡ count p xs
  count-sort p [] = refl
  count-sort p (x ∷ xs) = ground (arith, count-insert p x (sort xs), count-sort p xs)

  All-insert {κ} : (P : A → Type κ) (x : A) (ys : List A) → P x → All P ys → All P (insert x ys)
  All-insert P x [] h k = (h, tt)
  All-insert P x (y ∷ ys) h k = elim (Bool-cases (before y x)) [
    | inl e ↦ rw e ((k.0, All-insert P x ys h k.1))
    | inr e ↦ rw e ((h, k))
  ]

  pub All-sort {κ} : (P : A → Type κ) (xs : List A) → All P xs → All P (sort xs)
  All-sort P [] h = tt
  All-sort P (x ∷ xs) h = All-insert P x (sort xs) h.0 (All-sort P xs h.1)

  pub All-of_sort {κ} : (P : A → Type κ) (xs : List A) → All P (sort xs) → All P xs
  All-of_sort P [] h = tt
  All-of_sort P (x ∷ xs) h = let (a, b) = take_out x (sort xs) h in (a, All-of_sort P xs b)
    where
      take_out : (y : A) (ys : List A) → All P (insert y ys) → P y × All P ys
      take_out y [] k = (k.0, tt)
      take_out y (z ∷ zs) k = elim (Bool-cases (before z y)) [
        | inl e ↦
            let k' : P z × All P (insert y zs) = rw e at k in
            let (a, b) = take_out y zs k'.1 in (a, (k'.0, b))
        | inr e ↦ let k' : P y × (P z × All P zs) = rw e at k in (k'.0, k'.1)
      ]

  module _ (asym : (x y : A) → before x y ≡ true → before y x ≡ false)
      (trans : (x y z : A) → before z y ≡ false → before y x ≡ false → before z x ≡ false) where
    insert-IsSorted : (x : A) (ys : List A) → IsSorted ys → IsSorted (insert x ys)
    insert-IsSorted x [] h = (tt, tt)
    insert-IsSorted x (y ∷ ys) h = elim (Bool-cases (before y x)) [
      | inl e ↦
          rw e
            ((All-insert (λ z. before z y ≡ false) x ys (asym y x e) h.0, insert-IsSorted x ys h.1))
      | inr e ↦ rw e (
          (
            (
              e,
              All-map (λ z. before z y ≡ false) (λ z. before z x ≡ false) ys
                  (λ z k. trans x y z k e) h.0,
            ),
            h,
          ))
    ]

    -- Sorting puts the rows in order.
    pub sort-IsSorted : (xs : List A) → IsSorted (sort xs)
    sort-IsSorted [] = tt
    sort-IsSorted (x ∷ xs) = insert-IsSorted x (sort xs) (sort-IsSorted xs)

  -- In a sorted list, no row that is not among the first `n` comes before one of these.
  pub take-first :
      (hit : A → Bool) (n : ℕ) (xs : List A)
      → IsSorted xs
      → All (λ x. hit x ≡ true) (take n xs)
      → All (λ y. hit y ≡ false → All (λ x. before y x ≡ false) (take n xs)) xs
  take-first hit zero xs h k = All-of _ xs (λ y e. tt)
  take-first hit (suc n) [] h k = tt
  take-first hit (suc n) (x ∷ xs) h k =
      ((λ e. absurd (cc (k.0))), both xs h.0 (take-first hit n xs h.1 k.1))
    where
      both :
          (ys : List A)
          → All (λ y. before y x ≡ false) ys
          → All (λ y. hit y ≡ false → All (λ z. before y z ≡ false) (take n xs)) ys
          → All (λ y. hit y ≡ false → All (λ z. before y z ≡ false) (x ∷ take n xs)) ys
      both [] a b = tt
      both (y ∷ ys) a b = ((λ e. (a.0, b.0 e)), both ys a.1 b.1)

module _ {ℓ} {A : Type ℓ} (before : A → A → Bool) where
  any-insert : (p : A → Bool) (x : A) (ys : List A) → any p (insert before x ys) ≡ any p (x ∷ ys)
  any-insert p x [] = refl
  any-insert p x (y ∷ ys) = ground (arith, any-insert p x ys)

  pub any-sort : (p : A → Bool) (xs : List A) → any p (sort before xs) ≡ any p xs
  any-sort p [] = refl
  any-sort p (x ∷ xs) = ground (arith, any-insert p x (sort before xs), any-sort p xs)

  length-insert : (x : A) (ys : List A) → length (insert before x ys) ≡ suc (length ys)
  length-insert x [] = refl
  length-insert x (y ∷ ys) = ground (arith, length-insert x ys)

  pub length-sort : (xs : List A) → length (sort before xs) ≡ length xs
  length-sort [] = refl
  length-sort (x ∷ xs) = omega (arith, length-insert x (sort before xs), length-sort xs)

  -- The first row of a sorted list comes before all others.
  pub head-first :
      (h : A) (xs : List A)
      → before h h ≡ false
      → IsSorted before xs
      → head? xs ≡ some h
      → All (λ x. before x h ≡ false) xs
  head-first h [] irreflexive s e = cc
  head-first h (x ∷ xs) irreflexive s e =
      subst (λ y. All (λ z. before z y ≡ false) (x ∷ xs)) (first e)
        ((subst (λ y. before y y ≡ false) (sym (first e)) irreflexive, s.0))
    where
      first : some x ≡ some h → x ≡ h
      first p = cc

  pub head-none : (xs : List A) → head? xs ≡ none → xs ≡ []
  head-none [] e = refl
  head-none (x ∷ xs) e = cc
