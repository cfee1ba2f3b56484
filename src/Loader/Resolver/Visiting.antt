-- ===== src/Loader/Resolver/Visiting.antt =====
-- What a visit of dependency_resolver.py makes of a traversal.
use mathlib.Core.Path.{subst}
use text.Mathlib.TextPositions.{eq_refl}
use mathlib.Core.List.{append_assoc, append-nil}
use yodoca.Base.{
  ℕ, ◌≤◌, ◌<◌, ◌≡◌, ◌⊎◌, refl, ◌∙◌, inl, inr, String, Bool, true, false, Option, none, some, List,
  [], ◌∷◌, ◌++◌, map, not, ◌||◌, if◌then◌else◌, same, count, arith, eq_iff, All,
}
use yodoca.Loader.Resolver.{Manifest, Traversal, is_member, remove, by_id}

abbrev pub id_of : Manifest → String
id_of m = m.id

-- Every dependency stands among the ids before it.
abbrev pub IsOrdered : List String → List Manifest → Type 0
IsOrdered before [] = Unit
IsOrdered before (m ∷ ms) =
    All (λ d. is_member d before ≡ true) m.depends_on × IsOrdered (before ++ m.id ∷ []) ms

-- No id comes twice.
abbrev pub IsDistinct : List String → Type 0
IsDistinct [] = Unit
IsDistinct (i ∷ is) = (is_member i is ≡ false) × IsDistinct is

-- The order so far holds what is seen, each id once, each manifest behind its dependencies.
pub record IsSound (ms : List Manifest) (t : Traversal) : Type 0 where
  pub agrees : t.seen ≡ map id_of t.order
  pub distinct : IsDistinct t.seen
  pub ordered : IsOrdered [] t.order
  pub unseen : All (λ i. is_member i t.seen ≡ false) t.visiting
  pub known : All (λ m. by_id ms m.id ≡ some m) t.order

-- What is seen stays seen, and the ids on the way are as before.
pub record Extends (t t' : Traversal) : Type 0 where
  pub keeps : (x : String) → is_member x t.seen ≡ true → is_member x t'.seen ≡ true
  pub same_way : t'.visiting ≡ t.visiting

pub member-append :
    (x : String) (xs ys : List String) → is_member x (xs ++ ys) ≡ (is_member x xs || is_member x ys)
member-append x [] ys = refl
member-append x (y ∷ xs) ys = ground (arith, member-append x xs ys)

-- The manifests that are not on the way: what bounds the recursion.
abbrev pub free : List Manifest → List String → ℕ
free ms way = count (λ m. not (is_member m.id way)) ms

remove-absent : (x : String) (xs : List String) → is_member x xs ≡ false → remove x xs ≡ xs
remove-absent x [] h = refl
remove-absent x (y ∷ xs) h = ground (arith, remove-absent x xs)

pub remove-head : (x : String) (xs : List String) → is_member x xs ≡ false → remove x (x ∷ xs) ≡ xs
remove-head x xs h = rw (eq_refl x) (remove-absent x xs h)

or_right : (a b : Bool) → (a || b) ≡ false → b ≡ false
or_right a b h = ground arith

pub IsDistinct-snoc :
    (xs : List String) (x : String)
    → IsDistinct xs
    → is_member x xs ≡ false
    → IsDistinct (xs ++ x ∷ [])
IsDistinct-snoc [] x d h = (refl, tt)
IsDistinct-snoc (y ∷ xs) x d h = (
  ground (arith, member-append y xs (x ∷ []), eq_iff x y, eq_iff y x),
  IsDistinct-snoc xs x d.1 (or_right _ _ h),
)

pub IsOrdered-snoc :
    (before : List String) (ms : List Manifest) (m : Manifest)
    → IsOrdered before ms
    → All (λ d. is_member d (before ++ map id_of ms) ≡ true) m.depends_on
    → IsOrdered before (ms ++ m ∷ [])
IsOrdered-snoc before [] m o h = (rw (append-nil before) at h, tt)
IsOrdered-snoc before (n ∷ ms) m o h = (
  o.0,
  IsOrdered-snoc (before ++ n.id ∷ []) ms m o.1
      (rw (append_assoc before (n.id ∷ []) (map id_of ms)) h),
)

by_id-cons :
    (m : Manifest) (ms : List Manifest) (x : String) (n : Manifest)
    → by_id (m ∷ ms) x ≡ some n
    → (by_id ms x ≡ some n) ⊎ ((same m.id x ≡ true) × (m ≡ n))
unfolding by_id
by_id-cons m ms x n e = go (by_id ms x) refl
  where
    first : some m ≡ some n → m ≡ n
    first q = cc

    head :
        (b : Bool)
        → same m.id x ≡ b
        → (if b then some m else none) ≡ some n
        → (by_id ms x ≡ some n) ⊎ ((same m.id x ≡ true) × (m ≡ n))
    head true t q = inr ((t, first q))
    head false t q = absurd (cc)

    go :
        (o : Option Manifest)
        → by_id ms x ≡ o
        → (by_id ms x ≡ some n) ⊎ ((same m.id x ≡ true) × (m ≡ n))
    go none o = head (same m.id x) refl (rw (o, by_id) at e)
    go (some k) o = inl (o ∙ (rw (o, by_id) at e))

-- The manifest that a dictionary holds has what every manifest has, and the id that it is held by.
pub All-by_id :
    (P : Manifest → Type 0) (ms : List Manifest) (x : String) (n : Manifest)
    → All P ms
    → by_id ms x ≡ some n
    → P n × (n.id ≡ x)
unfolding by_id
All-by_id P [] x n h e = absurd (cc)
All-by_id P (m ∷ ms) x n h e = elim (by_id-cons m ms x n e) [
  | inl later ↦ All-by_id P ms x n h.1 later
  | inr here ↦ subst (λ (k : Manifest). P k × (k.id ≡ x)) here.1 ((h.0, (eq_iff m.id x).0 here.0))
]

free-le : (ms : List Manifest) (x : String) (way : List String) → free ms (x ∷ way) ≤ free ms way
free-le [] x way = omega arith
free-le (m ∷ ms) x way = ground (arith, free-le ms x way)

-- One more id on the way leaves fewer manifests off it.
pub free-cons :
    (ms : List Manifest) (x : String) (n : Manifest) (way : List String)
    → by_id ms x ≡ some n
    → is_member x way ≡ false
    → free ms (x ∷ way) < free ms way
unfolding by_id
free-cons [] x n way e h = absurd (cc)
free-cons (m ∷ ms) x n way e h = elim (by_id-cons m ms x n e) [
  | inl later ↦ ground (arith, free-cons ms x n way later h)
  | inr here ↦ ground (arith, here.0, free-le ms x way, eq_iff m.id x, eq_iff x m.id)
]
