-- ===== src/Loader/Boot/Loaded.antt =====
-- What load_all of the loader leaves for the stages after it, one extension at a time.
use mathlib.Core.Path.{subst}
use text.Mathlib.TextPositions.{eq_refl}
use yodoca.Base.{
  ◌≡◌, ◌⊎◌, refl, ◌∙◌, inl, inr, String, Bool, true, false, ◌||◌, none, List, [], ◌∷◌, ◌++◌, arith,
  eq_iff, if_both, same, is_some, any, select, All, All-map, All-append, Bool-cases, get, put,
  get-put,
}
use yodoca.Loader.Resolver.{Manifest, by_id, is_member}
use yodoca.Loader.Resolver.Visiting.{member-append}
use yodoca.Loader.Boot.{inactive, error, World, Loader, is_error, add}
use yodoca.Loader.Boot.States.{
  States, deps_of, load_fault, AllJustified, Follows, Follows-put, Follows-error, put-AllJustified,
  error-AllJustified, Cause,
}

pub select-cons_any :
    (p q : String → Bool) (xs : List String) (d : String) (ds : List String)
    → ((x : String) → p x ≡ true → q x ≡ true)
    → select p xs ≡ d ∷ ds
    → any q xs ≡ true
select-cons_any p q [] d ds h e = absurd (cc)
select-cons_any p q (x ∷ xs) d ds h e = elim (Bool-cases (p x)) [
  | inl a ↦ rw (h x a) refl
  | inr a ↦ ground (arith, select-cons_any p q xs d ds h (rw a at e))
]

module _ (w : World) (ms : List Manifest) where
  -- Each dependency is in error or among the extensions before.
  abbrev pub IsReady : States → List String → List String → Type 0
  IsReady s before [] = Unit
  IsReady s before (e ∷ es) =
      All (λ d. (is_error (get d s) ≡ true) ⊎ (is_member d before ≡ true)) (deps_of ms e)
      × IsReady s (e ∷ before) es

  pub IsReady-Follows :
      (s s' : States) (before es : List String)
      → Follows w ms s s'
      → IsReady s before es
      → IsReady s' before es
  IsReady-Follows s s' before [] f h = tt
  IsReady-Follows s s' before (e ∷ es) f h = (
    All-map (λ d. (is_error (get d s) ≡ true) ⊎ (is_member d before ≡ true))
        (λ d. (is_error (get d s') ≡ true) ⊎ (is_member d before ≡ true)) (deps_of ms e)
        (λ d x. elim x [ inl a ↦ inl (f.errors_stay d a) | inr b ↦ inr b ]) h.0,
    IsReady-Follows s s' (e ∷ before) es f h.1,
  )

  IsReady-snoc :
      (s : States) (before es : List String) (e : String)
      → IsReady s before es
      → All
          (λ d. (is_error (get d s) ≡ true) ⊎ (is_member d before || is_member d es ≡ true))
          (deps_of ms e)
      → IsReady s before (es ++ e ∷ [])
  IsReady-snoc s before [] e h k = (
    All-map (λ d. (is_error (get d s) ≡ true) ⊎ (is_member d before || false ≡ true))
        (λ d. (is_error (get d s) ≡ true) ⊎ (is_member d before ≡ true)) (deps_of ms e)
        (λ d x. elim x [ inl a ↦ inl a | inr b ↦ inr (ground (arith, b)) ]) k,
    tt,
  )
  IsReady-snoc s before (i ∷ es) e h k = (
    h.0,
    IsReady-snoc s (i ∷ before) es e h.1 (
        All-map
          (λ d. (is_error (get d s) ≡ true) ⊎ (is_member d before || is_member d (i ∷ es) ≡ true))
          (λ d. (is_error (get d s) ≡ true) ⊎ (is_member d (i ∷ before) || is_member d es ≡ true))
          (deps_of ms e) (λ d x. elim x [ inl a ↦ inl a | inr b ↦ inr (ground (arith, b)) ]) k),
  )

  -- The state of `load_all` behind the manifests with the ids `before`.
  pub record IsLoaded (before : List String) (l : Loader) : Type 0 where
    pub justified : AllJustified w ms (load_fault w) l.state
    pub ready : IsReady l.state [] l.extensions
    pub found :
        (d : String)
        → is_member d before ≡ true
        → (is_error (get d l.state) ≡ true) ⊎ (is_member d l.extensions ≡ true)
    pub no_services : l.services ≡ []
    pub stated : All (λ e. is_some (get e l.state) ≡ true) l.extensions
    pub known : All (λ e. is_some (by_id ms e) ≡ true) l.extensions

  member-snoc :
      (d x : String) (xs : List String)
      → is_member d (xs ++ x ∷ []) ≡ true
      → (is_member d xs ≡ true) ⊎ (x ≡ d)
  member-snoc d x [] h = inr (ground (arith, h, eq_iff x d))
  member-snoc d x (y ∷ xs) h = elim (Bool-cases (same y d)) [
    | inl a ↦ inl (rw a refl)
    | inr a ↦ elim (member-snoc d x xs (rw a at h)) [ inl b ↦ inl (rw a b) | inr c ↦ inr c ]
  ]

  pub fail-IsLoaded :
      (before : List String) (m : Manifest) (l l' : Loader)
      → IsLoaded before l
      → get m.id l.state ≡ none
      → Cause w ms l.state m.id
      → l'.state ≡ put m.id error l.state
      → l'.extensions ≡ l.extensions
      → l'.services ≡ l.services
      → IsLoaded (before ++ m.id ∷ []) l'
  fail-IsLoaded before m l l' h fresh c st ex sv = record {
    justified = rw st (
        error-AllJustified w ms (load_fault w) l.state m.id (λ a. absurd (cc (fresh, a))) c
          h.justified);
    ready =
        rw (st, ex)
          (IsReady-Follows l.state (put m.id error l.state) [] l.extensions follows h.ready);
    found = λ d e. elim (member-snoc d m.id before e) [
      | inl a ↦ elim (h.found d a) [
        | inl b ↦ inl (rw st (follows.errors_stay d b))
        | inr b ↦ inr (rw ex b)
      ]
      | inr q ↦ inl (rw st (rw (get-put m.id d error l.state, equal d q) refl))
    ];
    no_services = sv ∙ h.no_services;
    known = rw ex h.known;
    stated =
        rw (st, ex)
          (All-map (λ e. is_some (get e l.state) ≡ true)
            (λ e. is_some (get e (put m.id error l.state)) ≡ true) l.extensions follows.known_stay
            h.stated);
  }
    where
      follows : Follows w ms l.state (put m.id error l.state)
      follows = Follows-error w ms l.state m.id (λ a. absurd (cc (fresh, a)))

      equal : (d : String) → m.id ≡ d → same m.id d ≡ true
      equal d q = ground (arith, q, eq_iff m.id d)

  pub add-IsLoaded :
      (before : List String) (m : Manifest) (l : Loader)
      → IsLoaded before l
      → get m.id l.state ≡ none
      → w.create m.id ≡ none
      → deps_of ms m.id ≡ m.depends_on
      → is_some (by_id ms m.id) ≡ true
      → All (λ d. is_member d before ≡ true) m.depends_on
      → IsLoaded
          (before ++ m.id ∷ [])
          (record l { extensions = add m.id l.extensions; state = put m.id inactive l.state })
  unfolding add
  add-IsLoaded before m l h fresh ok same_deps has_manifest ordered = record {
    justified =
        put-AllJustified w ms (load_fault w) l.state m.id inactive follows (rw ok refl) h.justified;
    ready = ready_add (Bool-cases (is_member m.id l.extensions));
    found = λ d e. elim (member-snoc d m.id before e) [
      | inl a ↦ elim (h.found d a) [
        | inl b ↦ inl (follows.errors_stay d b)
        | inr b ↦ inr (add_keeps d b)
      ]
      | inr q ↦ inr (subst (λ x. is_member x (add m.id l.extensions) ≡ true) q add_has)
    ];
    no_services = h.no_services;
    stated =
        if_both (All (λ e. is_some (get e (put m.id inactive l.state)) ≡ true))
          (is_member m.id l.extensions) stay
          (All-append (λ e. is_some (get e (put m.id inactive l.state)) ≡ true) l.extensions
            (m.id ∷ []) stay ((rw (get-put m.id m.id inactive l.state, eq_refl m.id) refl, tt)));
    known = if_both (All (λ e. is_some (by_id ms e) ≡ true)) (is_member m.id l.extensions) h.known (
        All-append (λ e. is_some (by_id ms e) ≡ true) l.extensions (m.id ∷ []) h.known
          ((has_manifest, tt)));
  }
    where
      follows : Follows w ms l.state (put m.id inactive l.state)
      follows = Follows-put w ms l.state m.id inactive (rw fresh refl)

      stay : All (λ e. is_some (get e (put m.id inactive l.state)) ≡ true) l.extensions
      stay =
          All-map (λ e. is_some (get e l.state) ≡ true)
            (λ e. is_some (get e (put m.id inactive l.state)) ≡ true) l.extensions
            follows.known_stay h.stated

      add_keeps :
          (d : String)
          → is_member d l.extensions ≡ true
          → is_member d (add m.id l.extensions) ≡ true
      add_keeps d b =
          if_both (λ x. is_member d x ≡ true) (is_member m.id l.extensions) b
            (rw (member-append d l.extensions (m.id ∷ []), b) refl)

      add_has : is_member m.id (add m.id l.extensions) ≡ true
      add_has = elim (Bool-cases (is_member m.id l.extensions)) [
        | inl a ↦ rw (a, a) refl
        | inr a ↦ rw (a, member-append m.id l.extensions (m.id ∷ []), a, eq_refl m.id) refl
      ]

      deps_ready :
          All
            (λ d.
              (is_error (get d (put m.id inactive l.state)) ≡ true)
              ⊎ (is_member d l.extensions ≡ true))
            (deps_of ms m.id)
      deps_ready = rw same_deps (
          All-map (λ d. is_member d before ≡ true)
            (λ d.
              (is_error (get d (put m.id inactive l.state)) ≡ true)
              ⊎ (is_member d l.extensions ≡ true))
            m.depends_on
            (λ d a. elim (h.found d a) [ inl b ↦ inl (follows.errors_stay d b) | inr b ↦ inr b ])
            ordered)

      ready_add :
          (is_member m.id l.extensions ≡ true) ⊎ (is_member m.id l.extensions ≡ false)
          → IsReady (put m.id inactive l.state) [] (add m.id l.extensions)
      ready_add (inl a) =
          rw a (IsReady-Follows l.state (put m.id inactive l.state) [] l.extensions follows h.ready)
      ready_add (inr a) = rw a (
          IsReady-snoc (put m.id inactive l.state) [] l.extensions m.id
            (IsReady-Follows l.state (put m.id inactive l.state) [] l.extensions follows h.ready)
            deps_ready)
