-- ===== src/Loader/Boot/States.antt =====
-- The states of the extensions while the loader boots: each has its reason.
use mathlib.Core.Path.{subst}
use yodoca.Base.{
  ◌≡◌, ◌⊎◌, refl, ap, ◌∙◌, inl, inr, String, Bool, true, false, ◌||◌, Option, none, some, List, [],
  ◌∷◌, arith, eq_iff, same, is_some, any, All, All-map, Bool-cases, get, put, get-put,
}
use yodoca.Loader.Resolver.{Manifest, by_id}
use yodoca.Loader.Boot.{ExtensionState, inactive, active, error, World, is_error}

abbrev pub States : Type 0
States = List (String × ExtensionState)

-- The extension has been started, or is in error.
abbrev pub is_settled : Option ExtensionState → Bool
is_settled none = false
is_settled (some inactive) = false
is_settled (some active) = true
is_settled (some error) = true

-- The dependencies of an extension.
abbrev pub deps_of : List Manifest → String → List String
deps_of ms id = elim (by_id ms id) [ none ↦ [] | some m ↦ m.depends_on ]

abbrev pub load_fault : World → String → Bool
load_fault w id = is_some (w.create id)

abbrev pub early_fault : World → String → Bool
early_fault w id = load_fault w id || is_some (w.config_error id) || is_some (w.initialize id)

-- The extension's own code reports an error at one of the stages.
abbrev pub fault : World → String → Bool
fault w id = early_fault w id || is_some (w.start id)

-- The service task of the extension ends in an error while some extension starts.
abbrev pub ServiceFails : World → String → Type 0
ServiceFails w id = (e : String) × (any (λ f. same f.0 id) (w.failures e) ≡ true)

module _ (w : World) (ms : List Manifest) where
  -- Why an extension is in error: its own code, a dependency in error, or its service task.
  abbrev pub Cause : States → String → Type 0
  Cause s id =
      (fault w id ≡ true)
      ⊎ ((any (λ d. is_error (get d s)) (deps_of ms id) ≡ true) ⊎ ServiceFails w id)

  abbrev pub Runs : States → String → Type 0
  Runs s d = (get d s ≡ some active) ⊎ ServiceFails w d

  -- `early` is a fault at one of the stages that are over.
  abbrev pub Justified : (String → Bool) → States → String → Option ExtensionState → Type 0
  Justified early s id none = Unit
  Justified early s id (some inactive) = early id ≡ false
  Justified early s id (some active) = (fault w id ≡ false) × All (Runs s) (deps_of ms id)
  Justified early s id (some error) = Cause s id

  abbrev pub AllJustified : (String → Bool) → States → Type 0
  AllJustified early s = (id : String) → Justified early s id (get id s)

  -- What a step keeps: errors stay, and running extensions run or have failed as services.
  pub record Follows (s s' : States) : Type 0 where
    pub errors_stay : (d : String) → is_error (get d s) ≡ true → is_error (get d s') ≡ true
    pub runs_stay : (d : String) → Runs s d → Runs s' d
    pub settled_stay : (d : String) → is_settled (get d s) ≡ true → is_settled (get d s') ≡ true
    pub known_stay : (d : String) → is_some (get d s) ≡ true → is_some (get d s') ≡ true

  any_mono :
      (p q : String → Bool) (ds : List String)
      → ((d : String) → p d ≡ true → q d ≡ true)
      → any p ds ≡ true
      → any q ds ≡ true
  any_mono p q [] h e = e
  any_mono p q (d ∷ ds) h e = ground (arith, h d, any_mono p q ds h, e)

  Justified-Follows :
      (early : String → Bool) (s s' : States) (id : String) (o : Option ExtensionState)
      → Follows s s'
      → Justified early s id o
      → Justified early s' id o
  Justified-Follows early s s' id none f j = tt
  Justified-Follows early s s' id (some inactive) f j = j
  Justified-Follows early s s' id (some active) f j =
      (j.0, All-map (Runs s) (Runs s') (deps_of ms id) f.runs_stay j.1)
  Justified-Follows early s s' id (some error) f (inl h) = inl h
  Justified-Follows early s s' id (some error) f (inr (inl h)) = inr (
      inl (
        any_mono (λ d. is_error (get d s)) (λ d. is_error (get d s')) (deps_of ms id) f.errors_stay
          h))
  Justified-Follows early s s' id (some error) f (inr (inr h)) = inr (inr h)

  -- A step that sets one state.
  pub put-AllJustified :
      (early : String → Bool) (s : States) (id : String) (o : ExtensionState)
      → Follows s (put id o s)
      → Justified early (put id o s) id (some o)
      → AllJustified early s
      → AllJustified early (put id o s)
  put-AllJustified early s id o f own j x = elim (Bool-cases (same id x)) [
    | inl e ↦
        rw (get-put id x o s, e)
          (subst (λ y. Justified early (put id o s) y (some o)) (equal e) own)
    | inr e ↦ rw (get-put id x o s, e) (Justified-Follows early s (put id o s) x (get x s) f (j x))
  ]
    where
      equal : same id x ≡ true → id ≡ x
      equal e = ground (arith, eq_iff id x)

  -- An extension is put into error that does not run, or whose service has failed.
  pub Follows-error :
      (s : States) (id : String)
      → (get id s ≡ some active → ServiceFails w id)
      → Follows s (put id error s)
  Follows-error s id h = record {
    errors_stay = λ d e. elim (Bool-cases (same id d)) [
      | inl c ↦ rw (get-put id d error s, c) refl
      | inr c ↦ rw (get-put id d error s, c) e
    ];
    runs_stay = λ d r. elim (Bool-cases (same id d)) [
      | inl c ↦ inr (named d c r)
      | inr c ↦ rw (get-put id d error s, c) r
    ];
    settled_stay = λ d e. elim (Bool-cases (same id d)) [
      | inl c ↦ rw (get-put id d error s, c) refl
      | inr c ↦ rw (get-put id d error s, c) e
    ];
    known_stay = λ d e. elim (Bool-cases (same id d)) [
      | inl c ↦ rw (get-put id d error s, c) refl
      | inr c ↦ rw (get-put id d error s, c) e
    ];
  }
    where
      named : (d : String) → same id d ≡ true → Runs s d → ServiceFails w d
      named d c (inr n) = n
      named d c (inl a) = subst (ServiceFails w) (equal d c) (h (ap (λ x. get x s) (equal d c) ∙ a))
        where
          equal : (d : String) → same id d ≡ true → id ≡ d
          equal d c = ground (arith, eq_iff id d)

  -- The state of an extension is set that is neither running nor in error.
  pub Follows-put :
      (s : States) (id : String) (o : ExtensionState)
      → is_settled (get id s) ≡ false
      → Follows s (put id o s)
  Follows-put s id o h = record {
    errors_stay = λ d e. elim (Bool-cases (same id d)) [
      | inl c ↦ absurd (no_error (get d s) (at d c) e)
      | inr c ↦ rw (get-put id d o s, c) e
    ];
    runs_stay = λ d r. elim (Bool-cases (same id d)) [
      | inl c ↦ elim r [ inl a ↦ absurd (cc (at d c, a)) | inr n ↦ inr n ]
      | inr c ↦ rw (get-put id d o s, c) r
    ];
    settled_stay = λ d e. elim (Bool-cases (same id d)) [
      | inl c ↦ absurd (cc (at d c, e))
      | inr c ↦ rw (get-put id d o s, c) e
    ];
    known_stay = λ d e. elim (Bool-cases (same id d)) [
      | inl c ↦ rw (get-put id d o s, c) refl
      | inr c ↦ rw (get-put id d o s, c) e
    ];
  }
    where
      at : (d : String) → same id d ≡ true → is_settled (get d s) ≡ false
      at d c = subst (λ x. is_settled (get x s) ≡ false) (equal d c) h
        where
          equal : (d : String) → same id d ≡ true → id ≡ d
          equal d c = ground (arith, eq_iff id d)

      no_error : (x : Option ExtensionState) → is_settled x ≡ false → is_error x ≡ true → ⊥
      no_error none a b = cc
      no_error (some inactive) a b = cc
      no_error (some active) a b = cc
      no_error (some error) a b = cc

  pub error-AllJustified :
      (early : String → Bool) (s : States) (id : String)
      → (get id s ≡ some active → ServiceFails w id)
      → Cause s id
      → AllJustified early s
      → AllJustified early (put id error s)
  error-AllJustified early s id h c =
      put-AllJustified early s id error (Follows-error s id h)
        (Justified-Follows early s (put id error s) id (some error) (Follows-error s id h) c)

  pub Follows-refl : (s : States) → Follows s s
  Follows-refl s = record {
    errors_stay = λ d e. e;
    runs_stay = λ d r. r;
    settled_stay = λ d e. e;
    known_stay = λ d e. e;
  }

  pub Follows-trans : (s t u : States) → Follows s t → Follows t u → Follows s u
  Follows-trans s t u f g = record {
    errors_stay = λ d e. g.errors_stay d (f.errors_stay d e);
    runs_stay = λ d r. g.runs_stay d (f.runs_stay d r);
    settled_stay = λ d e. g.settled_stay d (f.settled_stay d e);
    known_stay = λ d e. g.known_stay d (f.known_stay d e);
  }

  -- A stage is over for one extension more.
  pub AllJustified-advance :
      (early early' : String → Bool) (s : States) (id : String)
      → ((x : String) → same id x ≡ false → early' x ≡ early x)
      → (get id s ≡ some inactive → early' id ≡ false)
      → AllJustified early s
      → AllJustified early' s
  AllJustified-advance early early' s id others own j x = go (get x s) refl (j x)
    where
      equal : same id x ≡ true → id ≡ x
      equal e = ground (arith, eq_iff id x)

      go :
          (o : Option ExtensionState) → get x s ≡ o → Justified early s x o → Justified early' s x o
      go none e h = tt
      go (some active) e h = h
      go (some error) e h = h
      go (some inactive) e h = elim (Bool-cases (same id x)) [
        | inl c ↦ subst (λ y. early' y ≡ false) (equal c) (own (ap (λ y. get y s) (equal c) ∙ e))
        | inr c ↦ others x c ∙ h
      ]
