-- ===== src/Base/Dicts.antt =====
-- Dictionaries as lists of entries in the order in which their keys were first set, and the laws of
-- reads after writes.
use Prim.Native.Nat.{suc, ◌≤◌}
use Prim.Native.String.{String}
use mathlib.Core.Path.{◌≡◌, refl, ap, ◌∙◌}
use mathlib.Core.Logic.{inl, inr}
use mathlib.Core.Bool.{Bool, true}
use mathlib.Core.Option.{Option, none, some}
use mathlib.Core.List.{List, [], ◌∷◌}
use native.Mathlib.Omega.{arith}
use text.Mathlib.TextEquality.{eq_iff}
use yodoca.Base.Tests.{if◌then◌else◌, same, Bool-cases}
use yodoca.Base.Sort.{insert, sort}
use yodoca.Base.Lists.{length, All}

module _ {ℓ} {V : Type ℓ} where
  -- d[key] = value: a key keeps its place.
  unfoldable pub put : String → V → List (String × V) → List (String × V)
  put k v [] = (k, v) ∷ []
  put k v ((j, w) ∷ rest) = if same j k then (j, v) ∷ rest else (j, w) ∷ put k v rest

  -- d.pop(key, None)
  unfoldable pub pop : String → List (String × V) → List (String × V)
  pop k [] = []
  pop k ((j, w) ∷ rest) = if same j k then pop k rest else (j, w) ∷ pop k rest

  -- d.get(key)
  unfoldable pub get : String → List (String × V) → Option V
  get k [] = none
  get k ((j, w) ∷ rest) = if same j k then some w else get k rest

  pub get-put :
      (k j : String) (v : V) (c : List (String × V))
      → get j (put k v c) ≡ (if same k j then some v else get j c)
  unfolding get put
  get-put k j v [] = refl
  get-put k j v ((i, w) ∷ c) = ground (arith, eq_iff i k, eq_iff i j, eq_iff k j, get-put k j v c)

  pub get-pop :
      (k j : String) (c : List (String × V))
      → get j (pop k c) ≡ (if same k j then none else get j c)
  unfolding get pop
  get-pop k j [] = ground arith
  get-pop k j ((i, w) ∷ c) = ground (arith, eq_iff i k, eq_iff i j, eq_iff k j, get-pop k j c)

  -- A key that is not set yet makes one entry more, a key that is set makes none.
  pub length-put_new :
      (k : String) (v : V) (c : List (String × V))
      → get k c ≡ none
      → length (put k v c) ≡ suc (length c)
  unfolding put get
  length-put_new k v [] e = refl
  length-put_new k v ((j, w) ∷ c) e = elim (Bool-cases (same j k)) [
    | inl h ↦ absurd (cc (rw h at e))
    | inr h ↦ rw h (ap suc (length-put_new k v c (rw h at e)))
  ]

  pub length-put_old :
      (k : String) (v w : V) (c : List (String × V))
      → get k c ≡ some w
      → length (put k v c) ≡ length c
  unfolding put get
  length-put_old k v w [] e = absurd (cc)
  length-put_old k v w ((j, u) ∷ c) e = elim (Bool-cases (same j k)) [
    | inl h ↦ rw h refl
    | inr h ↦ rw h (ap suc (length-put_old k v w c (rw h at e)))
  ]

  pub length-pop : (k : String) (c : List (String × V)) → length (pop k c) ≤ length c
  unfolding pop
  length-pop k [] = omega arith
  length-pop k ((j, w) ∷ c) = ground (arith, length-pop k c)

  -- Each key has one entry, as in a dictionary.
  abbrev pub IsDict : List (String × V) → Type ℓ
  IsDict [] = Unit
  IsDict ((k, v) ∷ c) = (get k c ≡ none) × IsDict c

  pub put-IsDict : (k : String) (v : V) (c : List (String × V)) → IsDict c → IsDict (put k v c)
  unfolding put get
  put-IsDict k v [] h = (refl, tt)
  put-IsDict k v ((j, w) ∷ c) h = elim (Bool-cases (same j k)) [
    | inl e ↦ rw e h
    | inr e ↦
        rw e ((ground (arith, eq_iff k j, eq_iff j k, get-put k j v c, h.0), put-IsDict k v c h.1))
  ]

  pub pop-IsDict : (k : String) (c : List (String × V)) → IsDict c → IsDict (pop k c)
  unfolding pop get
  pop-IsDict k [] h = tt
  pop-IsDict k ((j, w) ∷ c) h = elim (Bool-cases (same j k)) [
    | inl e ↦ rw e (pop-IsDict k c h.1)
    | inr e ↦
        rw e ((ground (arith, eq_iff k j, eq_iff j k, get-pop k j c, h.0), pop-IsDict k c h.1))
  ]

  module _ (before : String × V → String × V → Bool) where
    get-insert :
        (j k : String) (v : V) (c : List (String × V))
        → get k c ≡ none
        → get j (insert before (k, v) c) ≡ (if same k j then some v else get j c)
    unfolding get
    get-insert j k v [] e = refl
    get-insert j k v ((i, w) ∷ c) e =
        ground (arith, eq_iff i k, eq_iff i j, eq_iff k j, e, get-insert j k v c)

    -- The order of the entries does not matter to a read.
    pub get-sort : (j : String) (c : List (String × V)) → IsDict c → get j (sort before c) ≡ get j c
    unfolding get
    get-sort j [] h = refl
    get-sort j ((k, v) ∷ c) h =
        get-insert j k v (sort before c) (get-sort k c h.1 ∙ h.0)
        ∙ ap (λ r. if same k j then some v else r) (get-sort j c h.1)

  pub All-put {κ} :
      (P : String × V → Type κ) (k : String) (v : V) (d : List (String × V))
      → P (k, v)
      → ((j : String) (w : V) → same j k ≡ true → P (j, w) → P (j, v))
      → All P d
      → All P (put k v d)
  unfolding put
  All-put P k v [] p q h = (p, tt)
  All-put P k v ((j, w) ∷ d) p q h = elim (Bool-cases (same j k)) [
    | inl e ↦ rw e ((q j w e h.0, h.1))
    | inr e ↦ rw e ((h.0, All-put P k v d p q h.1))
  ]

  pub All-pop {κ} :
      (P : String × V → Type κ) (k : String) (d : List (String × V)) → All P d → All P (pop k d)
  unfolding pop
  All-pop P k [] h = tt
  All-pop P k ((j, w) ∷ d) h = elim (Bool-cases (same j k)) [
    | inl e ↦ rw e (All-pop P k d h.1)
    | inr e ↦ rw e ((h.0, All-pop P k d h.1))
  ]
