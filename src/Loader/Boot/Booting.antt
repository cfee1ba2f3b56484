-- ===== src/Loader/Boot/Booting.antt =====
-- The boot of the loader: the three stages together.
use mathlib.Core.Path.{subst}
use text.Mathlib.TextPositions.{eq_refl}
use yodoca.Base.{
  ◌≡◌, refl, sym, ap, ◌∙◌, inl, inr, String, Bool, true, false, ◌||◌, Option, none, some, List, [],
  ◌∷◌, arith, eq_iff, map, same, is_some, All, All-map, All-of, Bool-cases, get,
}
use yodoca.Loader.Resolver.{
  Manifest, Resolved, ordered, missing, cyclic, unresolved, resolve, by_id, is_member,
}
use yodoca.Loader.Resolver.Visiting.{id_of, IsOrdered, IsDistinct}
use yodoca.Loader.Resolver.Resolving.{IsUnique, Resolves, resolve-Resolves}
use yodoca.Loader.Boot.{
  ExtensionState, inactive, active, error, World, Loader, is_error, load_all, load_loop,
  initialize_all, initialize_loop, start_all, start_loop, boot,
}
use yodoca.Loader.Boot.States.{
  States, deps_of, early_fault, fault, Cause, Runs, is_settled, Justified,
}
use yodoca.Loader.Boot.Loaded.{IsLoaded, IsReady-Follows}
use yodoca.Loader.Boot.Loading.{load_loop-IsLoaded}
use yodoca.Loader.Boot.Initializing.{shown_fault, Initializes, initialize_loop-Initializes}
use yodoca.Loader.Boot.Failing.{Starts}
use yodoca.Loader.Boot.Starting.{start_loop-Starts}

module _ (w : World) (ms : List Manifest) where
  -- The state of an extension when the program has booted.
  abbrev pub IsBooted : States → String → Option ExtensionState → Type 0
  IsBooted s id none = ⊥
  IsBooted s id (some inactive) = ⊥
  IsBooted s id (some active) = (fault w id ≡ false) × All (Runs w ms s) (deps_of ms id)
  IsBooted s id (some error) = Cause w ms s id

  abbrev pub Boots : Option Loader → Type 0
  Boots none = (os : List Manifest) → resolve ms ≡ ordered os → ⊥
  Boots (some l) = All (λ m. IsBooted l.state m.id (get m.id l.state)) ms

  All-member :
      (P : String → Type 0) (x : String) (xs : List String) → All P xs → is_member x xs ≡ true → P x
  All-member P x [] h e = absurd (cc)
  All-member P x (y ∷ xs) h e = elim (Bool-cases (same y x)) [
    | inl a ↦ subst P (equal a) h.0
    | inr a ↦ All-member P x xs h.1 (rw a at e)
  ]
    where
      equal : same y x ≡ true → y ≡ x
      equal a = ground (arith, eq_iff y x)

  All-from_member :
      (P : String → Type 0) (xs ys : List String)
      → ((x : String) → is_member x ys ≡ true → P x)
      → ((x : String) → is_member x xs ≡ true → is_member x ys ≡ true)
      → All P xs
  All-from_member P [] ys h k = tt
  All-from_member P (x ∷ xs) ys h k =
      (h x (k x (rw (eq_refl x) refl)), All-from_member P xs ys h (λ y e. k y (ground (arith, e))))

  IsBooted-of :
      (early : String → Bool) (s : States) (id : String) (o : Option ExtensionState)
      → is_settled o ≡ true
      → Justified w ms early s id o
      → IsBooted s id o
  IsBooted-of early s id none e j = absurd (cc (e))
  IsBooted-of early s id (some inactive) e j = absurd (cc (e))
  IsBooted-of early s id (some active) e j = j
  IsBooted-of early s id (some error) e j = j

  error-settled : (o : Option ExtensionState) → is_error o ≡ true → is_settled o ≡ true
  error-settled none e = absurd (cc (e))
  error-settled (some inactive) e = absurd (cc (e))
  error-settled (some active) e = refl
  error-settled (some error) e = refl

  stages-Boot :
      (os : List Manifest)
      → IsOrdered [] os
      → IsDistinct (map id_of os)
      → All (λ m. by_id ms m.id ≡ some m) os
      → All (λ m. is_member m.id (map id_of os) ≡ true) ms
      → Boots (some (start_all w ms (initialize_all w ms (load_all w os))))
  unfolding load_all initialize_all start_all get
  stages-Boot os o d k all =
      All-map (λ m. is_member m.id (map id_of os) ≡ true)
        (λ m. IsBooted last.state m.id (get m.id last.state)) ms booted all
    where
      start_state : Loader
      start_state = record { extensions = []; state = []; diagnostics = []; services = [] }

      loaded : Loader
      loaded = load_loop w os [] start_state

      l : IsLoaded w ms (map id_of os) loaded
      l =
          load_loop-IsLoaded w ms os [] [] start_state
            (record {
              justified = λ id. tt;
              ready = tt;
              found = λ x e. absurd (cc (e));
              no_services = refl;
              stated = tt;
              known = tt;
            })
            (λ x e. absurd (cc (e))) (All-of {0, 0} (λ m. get m.id [] ≡ none) os (λ m. refl), d) o k

      first_stage :
          (done' : List String) × (((e : String)
              → (is_member e loaded.extensions || false) ≡ is_member e done')
            × Initializes w ms [] done' loaded (initialize_loop w ms loaded.extensions loaded))
      first_stage = initialize_loop-Initializes w ms loaded.extensions [] loaded l.known l.justified

      middle : Loader
      middle = initialize_loop w ms loaded.extensions loaded

      last : Loader
      last = start_loop w ms middle.extensions middle

      same_ids : middle.extensions ≡ loaded.extensions
      same_ids = first_stage.1.1.same_extensions

      through :
          (x : String) → is_member x loaded.extensions ≡ true → is_member x first_stage.0 ≡ true
      through x m = sym (first_stage.1.0 x) ∙ (rw m refl)

      no_service : (x : String) → is_member x middle.services ≡ false
      no_service x = ap (is_member x) (first_stage.1.1.same_services ∙ l.no_services)

      second_stage :
          Starts w ms (shown_fault w ms first_stage.0) middle last
          × All (λ e. is_settled (get e last.state) ≡ true) middle.extensions
      second_stage =
          start_loop-Starts w ms (shown_fault w ms first_stage.0) middle.extensions [] middle
            (rw same_ids (
              All-from_member (λ e. shown_fault w ms first_stage.0 e ≡ early_fault w e)
                loaded.extensions loaded.extensions (λ x m. rw (through x m) refl) (λ x m. m)))
            (rw same_ids (
              All-map (λ e. is_some (get e loaded.state) ≡ true)
                (λ e. is_some (get e middle.state) ≡ true) loaded.extensions
                first_stage.1.1.follows.known_stay l.stated))
            (rw same_ids (
              IsReady-Follows w ms loaded.state middle.state [] loaded.extensions
                first_stage.1.1.follows l.ready))
            (λ x e. absurd (cc (e))) first_stage.1.1.justified
            (λ x m. absurd (cc (no_service x, m)))

      settled :
          (m : Manifest)
          → is_member m.id (map id_of os) ≡ true
          → is_settled (get m.id last.state) ≡ true
      settled m e = elim (l.found m.id e) [
        | inl a ↦
            error-settled (get m.id last.state)
              (second_stage.0.follows.errors_stay m.id (first_stage.1.1.follows.errors_stay m.id a))
        | inr b ↦
            All-member (λ x. is_settled (get x last.state) ≡ true) m.id middle.extensions
              second_stage.1 (rw same_ids b)
      ]

      booted :
          (m : Manifest)
          → is_member m.id (map id_of os) ≡ true
          → IsBooted last.state m.id (get m.id last.state)
      booted m e =
          IsBooted-of (shown_fault w ms first_stage.0) last.state m.id (get m.id last.state)
            (settled m e) (second_stage.0.justified m.id)

  -- After the boot every extension is active or in error. It is in error only if its own code has
  -- reported an error at one of the stages, or a dependency of it is in error, or its service task has
  -- ended in an error while an extension was starting. It is active only if its own code has reported
  -- none, and each of its dependencies is active or has lost its service task in this way. There is no
  -- boot only where the resolver finds no order. The ids of the manifests differ.
  pub boot-Boots : IsUnique ms → Boots (boot w ms)
  unfolding boot
  boot-Boots u = go (resolve ms) refl (resolve-Resolves ms u)
    where
      go : (r : Resolved) → resolve ms ≡ r → Resolves ms r → Boots (boot w ms)
      go (ordered os) e h = rw (e, boot) (stages-Boot os h.0 h.1 h.2 h.3)
      go (missing id dep) e h = rw (e, boot) (λ os q. cc (e, q))
      go (cyclic id) e h = rw (e, boot) (λ os q. cc (e, q))
      go unresolved e h = absurd h
