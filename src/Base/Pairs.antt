-- ===== src/Base/Pairs.antt =====
-- Tables row by row: two tables of one length, and keys that no two rows share.
use mathlib.Core.Path.{◌≡◌, refl, sym}
use mathlib.Core.Logic.{◌≢◌, inl, inr}
use mathlib.Core.Bool.{Bool, true, false}
use mathlib.Core.List.{List, [], ◌∷◌, ◌++◌, map}
use Prim.Native.Nat.{ℕ, ◌+◌, ◌≤◌}
use native.Mathlib.Omega.{arith}
use yodoca.Base.Tests.{if◌then◌else◌, ◌==◌, Bool-cases}
use yodoca.Base.Lists.{
  All, All-delete, All-append, All-map, All-select, All-of, select, update, delete, count, any,
  length,
}
use yodoca.Base.Rows.{count-eq_zero}

-- The tables have one length, and the relation holds of each row and the row in its place.
pub data Each {ℓ κ} {A : Type ℓ} (R : A → A → Type κ) : List A → List A → Type (ℓ ⊔ κ) where
  end : Each R [] []
  row : {x y : A} {xs ys : List A} → R x y → Each R xs ys → Each R (x ∷ xs) (y ∷ ys)

module _ {ℓ κ} {A : Type ℓ} {R : A → A → Type κ} where
  pub Each-update {μ} :
      (P : A → Type μ) (p : A → Bool) (f : A → A) (xs : List A)
      → ((x : A) → P x → p x ≡ true → R x (f x))
      → ((x : A) → P x → p x ≡ false → R x x)
      → All P xs
      → Each R xs (update p f xs)
  Each-update P p f [] hit miss h = end
  Each-update P p f (x ∷ xs) hit miss h = row (step (p x) refl) (Each-update P p f xs hit miss h.1)
    where
      step : (b : Bool) → p x ≡ b → R x (if b then f x else x)
      step true e = hit x h.0 e
      step false e = miss x h.0 e

  pub Each-All {μ} :
      (P Q : A → Type μ) (xs ys : List A)
      → ((x y : A) → R x y → P x → Q y)
      → Each R xs ys
      → All P xs
      → All Q ys
  Each-All P Q xs ys f end h = tt
  Each-All P Q xs ys f (row {x = x} {y = y} {xs = xs'} {ys = ys'} r e) h =
      (f x y r h.0, Each-All P Q xs' ys' f e h.1)

module _ {ℓ} {A : Type ℓ} (key : A → ℕ) where
  -- No two rows have one key.
  abbrev pub Distinct : List A → Type 0
  Distinct [] = Unit
  Distinct (x ∷ xs) = All (λ y. key y ≢ key x) xs × Distinct xs

  pub Distinct-update :
      (p : A → Bool) (f : A → A) (xs : List A)
      → ((x : A) → key (f x) ≡ key x)
      → Distinct xs
      → Distinct (update p f xs)
  Distinct-update p f [] same_key h = tt
  Distinct-update p f (x ∷ xs) same_key h = (others xs h.0, Distinct-update p f xs same_key h.1)
    where
      kept : (y : A) → key (if p y then f y else y) ≡ key y
      kept y = elim (Bool-cases (p y)) [ inl e ↦ rw e (same_key y) | inr e ↦ rw e refl ]

      others :
          (ys : List A)
          → All (λ y. key y ≢ key x) ys
          → All (λ y. key y ≢ key (if p x then f x else x)) (update p f ys)
      others [] k = tt
      others (y ∷ ys) k = (λ e. k.0 (cc (kept x, kept y)), others ys k.1)

  pub Distinct-delete : (p : A → Bool) (xs : List A) → Distinct xs → Distinct (delete p xs)
  Distinct-delete p [] h = tt
  Distinct-delete p (x ∷ xs) h = elim (Bool-cases (p x)) [
    | inl e ↦ rw e (Distinct-delete p xs h.1)
    | inr e ↦ rw e ((All-delete (λ y. key y ≢ key x) p xs h.0, Distinct-delete p xs h.1))
  ]

  -- A row whose key is above all others is added at the end.
  pub Distinct-append :
      (xs : List A) (y : A) → All (λ x. key x ≢ key y) xs → Distinct xs → Distinct (xs ++ y ∷ [])
  Distinct-append [] y h k = (tt, tt)
  Distinct-append (x ∷ xs) y h k = (
    All-append (λ z. key z ≢ key x) xs (y ∷ []) k.0 ((λ e. h.0 (sym e)), tt),
    Distinct-append xs y h.1 k.1,
  )

  -- What holds of one row holds of every row with its key.
  pub Distinct-alike :
      (p : A → Bool) (xs : List A)
      → Distinct xs
      → All (λ x. p x ≡ true → All (λ y. key x ≡ key y → p y ≡ true) xs) xs
  Distinct-alike p [] h = tt
  Distinct-alike p (x ∷ xs) h = (
    (λ e. (
      (λ _. e),
      All-map (λ y. key y ≢ key x) _ xs (λ y ne same_key. absurd (ne (sym same_key))) h.0,
    )),
    All-both xs h.0 (Distinct-alike p xs h.1),
  )
    where
      All-both :
          (ys : List A)
          → All (λ y. key y ≢ key x) ys
          → All (λ y. p y ≡ true → All (λ z. key y ≡ key z → p z ≡ true) xs) ys
          → All (λ y. p y ≡ true → All (λ z. key y ≡ key z → p z ≡ true) (x ∷ xs)) ys
      All-both [] a b = tt
      All-both (y ∷ ys) a b =
          ((λ e. ((λ same_key. absurd (a.0 same_key)), b.0 e)), All-both ys a.1 b.1)

  pub count-key : (i : ℕ) (xs : List A) → Distinct xs → count (λ x. i == key x) xs ≤ 1
  count-key i [] h = omega arith
  count-key i (x ∷ xs) h = elim (Bool-cases (i == key x)) [
    | inl e ↦
        rw
          (
            e,
            count-eq_zero (λ y. i == key y) xs
                (All-map (λ y. key y ≢ key x) (λ y. (i == key y) ≡ false) xs
                  (λ y ne. differs y ne e) h.0),
          )
          (omega arith)
    | inr e ↦ rw e (count-key i xs h.1)
  ]
    where
      differs : (y : A) → key y ≢ key x → (i == key x) ≡ true → (i == key y) ≡ false
      differs y ne e = ground arith

  -- At most as many rows as keys are picked by their keys.
  pub count-keys :
      (is : List ℕ) (xs : List A)
      → Distinct xs
      → count (λ x. any (λ i. i == key x) is) xs ≤ length is
  count-keys [] xs h = rw (count-eq_zero _ xs (All-of _ xs (λ x. refl))) (omega arith)
  count-keys (i ∷ is) xs h = omega (arith, count_or xs, count-key i xs h, count-keys is xs h)
    where
      count_or :
          (ys : List A)
          → count (λ x. any (λ k. k == key x) (i ∷ is)) ys
            ≤ count (λ x. i == key x) ys + count (λ x. any (λ k. k == key x) is) ys
      count_or [] = omega arith
      count_or (y ∷ ys) = ground (arith, count_or ys)

  pub Distinct-select : (p : A → Bool) (xs : List A) → Distinct xs → Distinct (select p xs)
  Distinct-select p [] h = tt
  Distinct-select p (x ∷ xs) h = elim (Bool-cases (p x)) [
    | inl e ↦ rw e (
        (
          All-map (λ y. (key y ≢ key x) × (p y ≡ true)) (λ y. key y ≢ key x) (select p xs)
              (λ y k. k.0) (All-select (λ y. key y ≢ key x) p xs h.0),
          Distinct-select p xs h.1,
        ))
    | inr e ↦ rw e (Distinct-select p xs h.1)
  ]

module _ {ℓ κ} {A : Type ℓ} {B : Type κ} (f : A → B) where
  pub All-of_map {μ} : (P : B → Type μ) (xs : List A) → All (λ x. P (f x)) xs → All P (map f xs)
  All-of_map P [] h = tt
  All-of_map P (x ∷ xs) h = (h.0, All-of_map P xs h.1)

  pub Distinct-map :
      (key : B → ℕ) (xs : List A) → Distinct (λ x. key (f x)) xs → Distinct key (map f xs)
  Distinct-map key [] h = tt
  Distinct-map key (x ∷ xs) h =
      (All-of_map (λ y. key y ≢ key (f x)) xs h.0, Distinct-map key xs h.1)

module _ {ℓ κ} {A : Type ℓ} (R : A → A → Type κ) where
  pub Each-refl : ((x : A) → R x x) → (xs : List A) → Each R xs xs
  Each-refl r [] = end
  Each-refl r (x ∷ xs) = row (r x) (Each-refl r xs)

  pub Each-trans :
      ((x y z : A) → R x y → R y z → R x z)
      → (xs ys zs : List A) → Each R xs ys
      → Each R ys zs
      → Each R xs zs
  Each-trans t xs ys zs end f = f
  Each-trans t xs ys zs (row {x = x} {y = y} {xs = xs'} {ys = ys'} r e)
        (row {y = z} {ys = zs'} s f) =
      row (t x y z r s) (Each-trans t xs' ys' zs' e f)
