-- ===== src/Loader/Boot/Loading.antt =====
-- load_all of the loader: what it leaves for the stages after it.
use mathlib.Core.Path.{subst}
use mathlib.Core.List.{append-nil, append_assoc}
use yodoca.Base.{
  ◌≡◌, refl, sym, inl, inr, String, true, false, Option, none, some, List, [], ◌∷◌, ◌++◌, arith,
  eq_iff, map, if◌then◌else◌, same, select, All, Bool-cases, get, put, get-put,
}
use yodoca.Loader.Resolver.{Manifest, by_id, is_member}
use yodoca.Loader.Resolver.Visiting.{id_of, IsOrdered, IsDistinct}
use yodoca.Loader.Boot.{
  ExtensionState, inactive, error, World, Loader, is_error, load_loop, add, skip, fail, loading,
  import_error, record_diagnostic, mark_error,
}
use yodoca.Loader.Boot.States.{States, deps_of, Follows-put, Cause}
use yodoca.Loader.Boot.Loaded.{IsLoaded, fail-IsLoaded, add-IsLoaded, select-cons_any}

module _ (w : World) (ms : List Manifest) where
  -- Every extension is new when its turn comes.
  abbrev pub IsFresh : States → List Manifest → Type 0
  IsFresh s os = All (λ m. get m.id s ≡ none) os × IsDistinct (map id_of os)

  IsFresh-put :
      (s : States) (m : Manifest) (o : ExtensionState) (os : List Manifest)
      → is_member m.id (map id_of os) ≡ false
      → All (λ n. get n.id s ≡ none) os
      → All (λ n. get n.id (put m.id o s) ≡ none) os
  IsFresh-put s m o [] h k = tt
  IsFresh-put s m o (n ∷ os) h k =
      (rw (get-put m.id n.id o s, differs) k.0, IsFresh-put s m o os (ground (arith, h)) k.1)
    where
      differs : same m.id n.id ≡ false
      differs = ground (arith, h, eq_iff m.id n.id, eq_iff n.id m.id)

  pub load_loop-IsLoaded :
      (os : List Manifest) (before failed : List String) (l : Loader)
      → IsLoaded w ms before l
      → ((d : String) → is_member d failed ≡ true → is_error (get d l.state) ≡ true)
      → IsFresh l.state os
      → IsOrdered before os
      → All (λ m. by_id ms m.id ≡ some m) os
      → IsLoaded w ms (before ++ map id_of os) (load_loop w os failed l)
  unfolding load_loop skip fail record_diagnostic mark_error
  load_loop-IsLoaded [] before failed l h f fresh o k =
      subst (λ b. IsLoaded w ms b l) (sym (append-nil before)) h
  load_loop-IsLoaded (m ∷ os) before failed l h f fresh o k =
      go (select (λ d. is_member d failed) m.depends_on) refl (λ failed' l' h' f' fresh'.
        subst (λ b. IsLoaded w ms b (load_loop w os failed' l'))
          (append_assoc before (m.id ∷ []) (map id_of os))
          (load_loop-IsLoaded os (before ++ m.id ∷ []) failed' l' h' f' fresh' o.1 k.1))
    where
      same_deps : deps_of ms m.id ≡ m.depends_on
      same_deps = rw (k.0, deps_of) refl

      differs : is_member m.id (map id_of os) ≡ false
      differs = fresh.1.0

      fails :
          (l' : Loader)
          → Cause w ms l.state m.id
          → l'.state ≡ put m.id error l.state
          → l'.extensions ≡ l.extensions
          → l'.services ≡ l.services
          → IsLoaded w ms (before ++ m.id ∷ []) l'
            × (((d : String)
                  → is_member d (m.id ∷ failed) ≡ true
                  → is_error (get d l'.state) ≡ true)
                × IsFresh l'.state os)
      fails l' c st ex sv = (
        fail-IsLoaded w ms before m l l' h fresh.0.0 c st ex sv,
        (
          (λ d a. rw (st, get-put m.id d error l.state) (in_error d a)),
          (rw st (IsFresh-put l.state m error os differs fresh.0.1), fresh.1.1),
        ),
      )
        where
          in_error :
              (d : String)
              → is_member d (m.id ∷ failed) ≡ true
              → is_error (if same m.id d then some error else get d l.state) ≡ true
          in_error d a = elim (Bool-cases (same m.id d)) [
            | inl b ↦ rw b refl
            | inr b ↦ rw b (f d (rw b at a))
          ]

      by_create :
          (o' : Option String)
          → w.create m.id ≡ o'
          → select (λ d. is_member d failed) m.depends_on ≡ []
          → ((failed' : List String) (l' : Loader)
              → IsLoaded w ms (before ++ m.id ∷ []) l'
              → ((d : String) → is_member d failed' ≡ true → is_error (get d l'.state) ≡ true)
              → IsFresh l'.state os
              → IsLoaded w ms (before ++ m.id ∷ map id_of os) (load_loop w os failed' l'))
          → IsLoaded w ms (before ++ m.id ∷ map id_of os) (load_loop w (m ∷ os) failed l)
      by_create (some message) e p next =
          let r =
            fails (fail m.id loading import_error message [] l) (inl (rw e refl)) refl refl refl in
          rw (p, e, load_loop)
            (next (m.id ∷ failed) (fail m.id loading import_error message [] l) r.0 r.1.0 r.1.1)
      by_create none e p next =
          rw (p, e, load_loop)
            (next failed
              (record l { extensions = add m.id l.extensions; state = put m.id inactive l.state })
              (add-IsLoaded w ms before m l h fresh.0.0 e same_deps (rw k.0 refl) o.0)
              (λ d a.
                (Follows-put w ms l.state m.id inactive (rw fresh.0.0 refl)).errors_stay d (f d a))
              (IsFresh-put l.state m inactive os differs fresh.0.1, fresh.1.1))

      go :
          (xs : List String)
          → select (λ d. is_member d failed) m.depends_on ≡ xs
          → ((failed' : List String) (l' : Loader)
              → IsLoaded w ms (before ++ m.id ∷ []) l'
              → ((d : String) → is_member d failed' ≡ true → is_error (get d l'.state) ≡ true)
              → IsFresh l'.state os
              → IsLoaded w ms (before ++ m.id ∷ map id_of os) (load_loop w os failed' l'))
          → IsLoaded w ms (before ++ m.id ∷ map id_of os) (load_loop w (m ∷ os) failed l)
      go [] p next = by_create (w.create m.id) refl p next
      go (d ∷ ds) p next =
          let r =
            fails (skip m.id (d ∷ ds) loading l)
              (inr (
                inl (
                  rw same_deps (
                    select-cons_any (λ x. is_member x failed) (λ x. is_error (get x l.state))
                      m.depends_on d ds f p))))
              refl refl refl in
          rw (p, load_loop) (next (m.id ∷ failed) (skip m.id (d ∷ ds) loading l) r.0 r.1.0 r.1.1)
