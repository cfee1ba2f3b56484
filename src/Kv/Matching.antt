-- ===== src/Kv/Matching.antt =====
-- The key-value store: what a read by a pattern finds.
use Prim.Native.Char.{Char}
use Prim.Native.String.{◌++◌ as append}
use mathlib.Core.Path.{subst}
use text.Mathlib.TextPositions.{eq_refl}
use yodoca.Base.{
  is_empty, All-put, All-pop, if_both, ◌⊎◌, not, ◌&&◌, is_some, leb, length, ◌≡◌, refl, sym, ap,
  ◌∙◌, inl, inr, String, Bool, true, false, Option, none, some, [], ◌∷◌, All, if◌then◌else◌, same,
  Bool-cases, get, put, get-put, IsDict, put-IsDict, pop-IsDict, get-sort, behind, behind-append,
  strip, arith, eq_iff,
}
use yodoca.Kv.{
  File, entries, Store, Entries, ns, to_user_key, prefix_of, load, set, matching, get_matching,
  key_before,
}
use yodoca.Kv.Storing.{same-ns}

-- A key under the namespace of the store, as `_ns` makes it.
abbrev pub IsOwn : String → String × String → Type 0
IsOwn n e = ns n (to_user_key n e.0) ≡ e.0

-- The file holds one entry for each key, and only keys under the namespace.
abbrev pub IsClean : String → File → Type 0
IsClean n f = IsDict (load f) × All (IsOwn n) (load f)

-- The key of the user comes back from the key in the file.
pub to_user_key-ns : (n u : String) → to_user_key n (ns n u) ≡ u
unfolding to_user_key ns
to_user_key-ns n u = go (is_empty n)
  where
    go :
        (b : Bool)
        → (if b
            then (if b then u else append (prefix_of n) u)
            else elim (behind (prefix_of n) (if b then u else append (prefix_of n) u)) [
              | some key ↦ key
              | none ↦ if b then u else append (prefix_of n) u
            ])
          ≡ u
    go true = refl
    go false = rw (behind-append (prefix_of n) u) refl

abbrev or_else : Option String → Option String → Option String
or_else none r = r
or_else (some v) r = some v

-- If the file holds one entry for each key, and only keys under the namespace, so does the file after
-- a write that is carried out.
pub set-IsClean :
    (is_space : Char → Bool) (s : Store) (key : String) (v : Option String) (file f : File)
    → IsClean s.namespace file
    → set is_space s key v file ≡ some f
    → IsClean s.namespace f
unfolding set load
set-IsClean is_space s key none file f h e = subst (IsClean s.namespace) (first e) (
    (
      pop-IsDict (ns s.namespace (strip is_space key)) (load file) h.0,
      All-pop (IsOwn s.namespace) (ns s.namespace (strip is_space key)) (load file) h.1,
    ))
  where
    first : {x y : File} → some x ≡ some y → x ≡ y
    first p = cc
set-IsClean is_space s key (some v) file f h e =
    go
      (not (is_some (get (ns s.namespace (strip is_space key)) (load file)))
        && leb s.max_entries (length (load file)))
      e
  where
    first : {x y : File} → some x ≡ some y → x ≡ y
    first p = cc

    go :
        (b : Bool)
        → (if b
            then none
            else some (entries (put (ns s.namespace (strip is_space key)) v (load file))))
          ≡ some f
        → IsClean s.namespace f
    go true q = absurd (cc)
    go false q = subst (IsClean s.namespace) (first q) (
        (
          put-IsDict (ns s.namespace (strip is_space key)) v (load file) h.0,
          All-put (IsOwn s.namespace) (ns s.namespace (strip is_space key)) v (load file)
              (ap (ns s.namespace) (to_user_key-ns s.namespace (strip is_space key))) (λ j w e p. p)
              h.1,
        ))

module _ (fnmatch : String → String → Bool) (n pattern u : String) where
  step :
      (j v : String) (r : Option String) (acc : Entries)
      → (same j u ≡ true → r ≡ none)
      → (if fnmatch u pattern
          then or_else r (get u (if fnmatch j pattern then put j v acc else acc))
          else get u (if fnmatch j pattern then put j v acc else acc))
        ≡ (if fnmatch u pattern
            then or_else (if same j u then some v else r) (get u acc)
            else get u acc)
  step j v r acc z = elim (Bool-cases (same j u)) [
    | inl e ↦ rw (z e, e, equal e) (hit (Bool-cases (fnmatch u pattern)))
    | inr e ↦ rw (e, miss e) refl
  ]
    where
      equal : same j u ≡ true → j ≡ u
      equal e = ground (arith, eq_iff j u)

      miss : same j u ≡ false → get u (if fnmatch j pattern then put j v acc else acc) ≡ get u acc
      miss e =
          if_both (λ d. get u d ≡ get u acc) (fnmatch j pattern) (rw (get-put j u v acc, e) refl)
            refl

      hit :
          (fnmatch u pattern ≡ true) ⊎ (fnmatch u pattern ≡ false)
          → (if fnmatch u pattern
              then get u (if fnmatch u pattern then put u v acc else acc)
              else get u (if fnmatch u pattern then put u v acc else acc))
            ≡ (if fnmatch u pattern then some v else get u acc)
      hit (inl f) = rw (f, get-put u u v acc, eq_refl u) refl
      hit (inr f) = rw f refl

  -- What the loop adds for the user's key `u`.
  matching-get :
      (d acc : Entries)
      → IsDict d
      → All (IsOwn n) d
      → get u (matching fnmatch n pattern d acc)
        ≡ (if fnmatch u pattern then or_else (get (ns n u) d) (get u acc) else get u acc)
  unfolding matching get
  matching-get [] acc h o = if_both (λ r. get u acc ≡ r) (fnmatch u pattern) refl refl
  matching-get ((k, v) ∷ d) acc h o =
      matching-get d
        (if fnmatch (to_user_key n k) pattern then put (to_user_key n k) v acc else acc) h.1 o.1
      ∙ step (to_user_key n k) v (get (ns n u) d) acc
          (λ e. ap (λ x. get (ns n x) d) (sym (equal e)) ∙ ap (λ i. get i d) o.0 ∙ h.0)
      ∙ ap
          (λ b.
            if fnmatch u pattern
            then or_else (if b then some v else get (ns n u) d) (get u acc)
            else get u acc)
          same_key
    where
      same_key : same (to_user_key n k) u ≡ same k (ns n u)
      same_key = sym (same-ns n (to_user_key n k) u) ∙ ap (λ i. same i (ns n u)) o.0

      equal : same (to_user_key n k) u ≡ true → to_user_key n k ≡ u
      equal e = ground (arith, eq_iff (to_user_key n k) u)

  matching-IsDict : (d acc : Entries) → IsDict acc → IsDict (matching fnmatch n pattern d acc)
  unfolding matching
  matching-IsDict [] acc h = h
  matching-IsDict ((k, v) ∷ d) acc h =
      matching-IsDict d
        (if fnmatch (to_user_key n k) pattern then put (to_user_key n k) v acc else acc)
        (if_both IsDict (fnmatch (to_user_key n k) pattern) (put-IsDict (to_user_key n k) v acc h)
          h)

-- On a file that holds one entry for each key and only keys under the namespace, a read by a pattern
-- gives every key of the user that matches the pattern the text that is stored for it, and no other
-- key anything.
pub get_matching-finds :
    (fnmatch : String → String → Bool) (s : Store) (pattern u : String) (file : File)
    → IsClean s.namespace file
    → get u (get_matching fnmatch s pattern file)
      ≡ (if fnmatch u pattern then get (ns s.namespace u) (load file) else none)
unfolding get_matching get
get_matching-finds fnmatch s pattern u file h =
    get-sort key_before u (matching fnmatch s.namespace pattern (load file) [])
      (matching-IsDict fnmatch s.namespace pattern u (load file) [] tt)
    ∙ matching-get fnmatch s.namespace pattern u (load file) [] h.0 h.1
    ∙ ap (λ r. if fnmatch u pattern then r else none) (or_none (get (ns s.namespace u) (load file)))
  where
    or_none : (r : Option String) → or_else r none ≡ r
    or_none none = refl
    or_none (some v) = refl
