-- ===== src/Loader/Boot/Initializing.antt =====
-- initialize_all of the loader.
use mathlib.Core.Path.{subst}
use text.Mathlib.TextPositions.{eq_refl}
use yodoca.Base.{
  ◌≡◌, refl, ap, ◌∙◌, inl, inr, String, Bool, true, false, ◌||◌, Option, none, some, List, [], ◌∷◌,
  arith, if◌then◌else◌, same, is_some, any, select, All, get, put, get-put,
}
use yodoca.Loader.Resolver.{Manifest, by_id, is_member}
use yodoca.Loader.Boot.{
  ExtensionState, inactive, active, error, World, Loader, is_error, is_inactive, fail, skip,
  record_diagnostic, mark_error, check_deps_healthy, initialize_one, initialize_loop, Phase, Reason,
  config_validate, config_invalid, initializing, init_error, dependency_failed,
}
use yodoca.Loader.Boot.States.{
  deps_of, load_fault, early_fault, AllJustified, Justified, Follows, Follows-error, Follows-refl,
  Follows-trans, error-AllJustified, AllJustified-advance, Cause,
}
use yodoca.Loader.Boot.Loaded.{select-cons_any}

module _ (w : World) (ms : List Manifest) where
  -- The faults that would have shown, once the extensions `done` have been through initialize.
  abbrev pub shown_fault : List String → String → Bool
  shown_fault done id = if is_member id done then early_fault w id else load_fault w id

  -- What a step of the stage makes of the loader.
  pub record Initializes (done done' : List String) (l l' : Loader) : Type 0 where
    pub justified : AllJustified w ms (shown_fault done') l'.state
    pub follows : Follows w ms l.state l'.state
    pub same_extensions : l'.extensions ≡ l.extensions
    pub same_services : l'.services ≡ l.services

  others :
      (done : List String) (id x : String)
      → same id x ≡ false
      → shown_fault (id ∷ done) x ≡ shown_fault done x
  others done id x e = rw e refl

  -- The extension is put into error.
  pub fails :
      (done : List String) (id : String) (phase : Phase) (reason : Reason) (message : String)
      (chain : List String) (l : Loader)
      → get id l.state ≡ some inactive
      → Cause w ms l.state id
      → AllJustified w ms (shown_fault done) l.state
      → Initializes done (id ∷ done) l (fail id phase reason message chain l)
  unfolding fail record_diagnostic mark_error
  fails done id phase reason message chain l i c j = record {
    justified =
        AllJustified-advance w ms (shown_fault done) (shown_fault (id ∷ done))
          (put id error l.state) id (others done id) (λ e. absurd (in_error e))
          (error-AllJustified w ms (shown_fault done) l.state id (λ a. absurd (cc (i, a))) c j);
    follows = Follows-error w ms l.state id (λ a. absurd (cc (i, a)));
    same_extensions = refl;
    same_services = refl;
  }
    where
      in_error : get id (put id error l.state) ≡ some inactive → ⊥
      in_error e = cc (
        get-put id id error l.state
            ∙ ap (λ b. if b then some error else get id l.state) (eq_refl id),
        e,
      )

  -- A dependency in error is a cause.
  pub failed_dep :
      (l : Loader) (id d : String) (ds : List String)
      → check_deps_healthy ms id l ≡ d ∷ ds
      → Cause w ms l.state id
  unfolding check_deps_healthy
  failed_dep l id d ds e = inr (inl (go (by_id ms id) refl e))
    where
      go :
          (o : Option Manifest)
          → by_id ms id ≡ o
          → elim o [ none ↦ [] | some m ↦ select (λ d. is_error (get d l.state)) m.depends_on ]
            ≡ d ∷ ds
          → any (λ d. is_error (get d l.state)) (deps_of ms id) ≡ true
      go none b h = absurd (cc)
      go (some m) b h =
          rw (b, deps_of)
            (select-cons_any (λ x. is_error (get x l.state)) (λ x. is_error (get x l.state))
              m.depends_on d ds (λ x a. a) h)

  initialize_one-Initializes :
      (done : List String) (id : String) (l : Loader)
      → get id l.state ≡ some inactive
      → is_some (by_id ms id) ≡ true
      → AllJustified w ms (shown_fault done) l.state
      → Initializes done (id ∷ done) l (initialize_one w ms id l)
  unfolding initialize_one skip
  initialize_one-Initializes done id l i k j = go (by_id ms id) refl
    where
      no_load_fault : load_fault w id ≡ false
      no_load_fault =
          go (is_member id done) refl
            (subst (Justified w ms (shown_fault done) l.state id) i (j id))
        where
          go :
              (b : Bool)
              → is_member id done ≡ b
              → (if b then early_fault w id else load_fault w id) ≡ false
              → load_fault w id ≡ false
          go true e h = ground (arith, h)
          go false e h = h

      pass : w.config_error id ≡ none → w.initialize id ≡ none → Initializes done (id ∷ done) l l
      pass a b = record {
        justified =
            AllJustified-advance w ms (shown_fault done) (shown_fault (id ∷ done)) l.state id
              (others done id) (λ e. rw (eq_refl id, no_load_fault, a, b) refl) j;
        follows = Follows-refl w ms l.state;
        same_extensions = refl;
        same_services = refl;
      }

      by_start :
          (o : Option String)
          → w.initialize id ≡ o
          → w.config_error id ≡ none
          → check_deps_healthy ms id l ≡ []
          → (m : Manifest) → by_id ms id ≡ some m
          → Initializes done (id ∷ done) l (initialize_one w ms id l)
      by_start (some message) a b c m e =
          rw (e, b, c, a, initialize_one)
            (fails done id initializing init_error message [] l i
              (inl (ground (arith, ap is_some a))) j)
      by_start none a b c m e = rw (e, b, c, a, initialize_one) (pass b a)

      by_deps :
          (ds : List String)
          → check_deps_healthy ms id l ≡ ds
          → w.config_error id ≡ none
          → (m : Manifest) → by_id ms id ≡ some m
          → Initializes done (id ∷ done) l (initialize_one w ms id l)
      by_deps [] c b m e = by_start (w.initialize id) refl b c m e
      by_deps (d ∷ ds) c b m e =
          rw (e, b, c, initialize_one)
            (fails done id initializing dependency_failed "" (d ∷ ds) l i (failed_dep l id d ds c)
              j)

      by_config :
          (o : Option String)
          → w.config_error id ≡ o
          → (m : Manifest) → by_id ms id ≡ some m
          → Initializes done (id ∷ done) l (initialize_one w ms id l)
      by_config (some message) b m e =
          rw (e, b, initialize_one)
            (fails done id config_validate config_invalid message [] l i
              (inl (ground (arith, ap is_some b))) j)
      by_config none b m e = by_deps (check_deps_healthy ms id l) refl b m e

      go :
          (o : Option Manifest)
          → by_id ms id ≡ o
          → Initializes done (id ∷ done) l (initialize_one w ms id l)
      go none e = absurd (cc (e, k))
      go (some m) e = by_config (w.config_error id) refl m e

  -- The loop: every extension has then been through the stage.
  pub initialize_loop-Initializes :
      (ids done : List String) (l : Loader)
      → All (λ e. is_some (by_id ms e) ≡ true) ids
      → AllJustified w ms (shown_fault done) l.state
      → (done' : List String) × (((e : String)
            → (is_member e ids || is_member e done) ≡ is_member e done')
          × Initializes done done' l (initialize_loop w ms ids l))
  unfolding initialize_loop
  initialize_loop-Initializes [] done l k j = (
    done,
    (
      (λ e. refl),
      record {
        justified = j;
        follows = Follows-refl w ms l.state;
        same_extensions = refl;
        same_services = refl;
      },
    ),
  )
  initialize_loop-Initializes (id ∷ ids) done l k j =
      let one : Initializes done (id ∷ done) l
          (if is_inactive (get id l.state) then initialize_one w ms id l else l) =
        step (get id l.state) refl in
      let rest =
        initialize_loop-Initializes ids (id ∷ done)
          (if is_inactive (get id l.state) then initialize_one w ms id l else l) k.1
          one.justified in
      (
        rest.0,
        (
          (λ e. ground (arith, rest.1.0 e)),
          record {
            justified = rest.1.1.justified;
            follows =
                Follows-trans w ms l.state
                  (if is_inactive (get id l.state) then initialize_one w ms id l else l).state
                  (initialize_loop w ms (id ∷ ids) l).state one.follows rest.1.1.follows;
            same_extensions = rest.1.1.same_extensions ∙ one.same_extensions;
            same_services = rest.1.1.same_services ∙ one.same_services;
          },
        ),
      )
    where
      skipped : is_inactive (get id l.state) ≡ false → Initializes done (id ∷ done) l l
      skipped e = record {
        justified =
            AllJustified-advance w ms (shown_fault done) (shown_fault (id ∷ done)) l.state id
              (others done id) (λ a. absurd (cc (ap is_inactive a, e))) j;
        follows = Follows-refl w ms l.state;
        same_extensions = refl;
        same_services = refl;
      }

      step :
          (o : Option ExtensionState)
          → get id l.state ≡ o
          → Initializes done
              (id ∷ done)
              l
              (if is_inactive (get id l.state) then initialize_one w ms id l else l)
      step none e = rw (ap is_inactive e) (skipped (ap is_inactive e))
      step (some active) e = rw (ap is_inactive e) (skipped (ap is_inactive e))
      step (some error) e = rw (ap is_inactive e) (skipped (ap is_inactive e))
      step (some inactive) e = rw (ap is_inactive e) (initialize_one-Initializes done id l e k.0 j)
