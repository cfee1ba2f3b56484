-- ===== src/Loader/Boot/Failing.antt =====
-- start_all of the loader: extensions and service tasks that fail.
use mathlib.Core.List.{append_assoc}
use text.Mathlib.TextPositions.{eq_refl}
use yodoca.Base.{
  ◌≡◌, ◌⊎◌, refl, sym, ap, ◌∙◌, inl, inr, String, Bool, true, false, ◌++◌, some, List, [], ◌∷◌,
  arith, eq_iff, if◌then◌else◌, same, any, Bool-cases, get, get-put,
}
use yodoca.Loader.Resolver.{Manifest, is_member, remove}
use yodoca.Loader.Resolver.Visiting.{member-append}
use yodoca.Loader.Boot.{
  inactive, active, error, World, Loader, is_inactive, fail, record_diagnostic, mark_error, add,
  service_fails, services_fail, Phase, Reason, starting, start_error,
}
use yodoca.Loader.Boot.States.{
  ServiceFails, AllJustified, Follows, Follows-error, Follows-refl, Follows-trans,
  error-AllJustified, Cause,
}

member-remove :
    (x y : String) (ids : List String) → is_member x (remove y ids) ≡ true → is_member x ids ≡ true
member-remove x y [] h = h
member-remove x y (i ∷ ids) h = ground (arith, h, member-remove x y ids)

any-middle :
    (p : String × String → Bool) (xs : List (String × String)) (y : String × String)
    (ys : List (String × String))
    → p y ≡ true
    → any p (xs ++ y ∷ ys) ≡ true
any-middle p [] y ys h = rw h refl
any-middle p (x ∷ xs) y ys h = ground (arith, any-middle p xs y ys h)

pub member-add :
    (x id : String) (ids : List String)
    → same id x ≡ false
    → is_member x (add id ids) ≡ true
    → is_member x ids ≡ true
unfolding add
member-add x id ids e h = elim (Bool-cases (is_member id ids)) [
  | inl a ↦ rw a at h
  | inr a ↦ ground (arith, e, member-append x ids (id ∷ []), rw a at h)
]

module _ (w : World) (ms : List Manifest) (early : String → Bool) where
  -- No service task runs for an inactive extension.
  abbrev pub IsServing : Loader → Type 0
  IsServing l = (x : String) → is_member x l.services ≡ true → is_inactive (get x l.state) ≡ false

  -- What a step of the stage makes of the loader.
  pub record Starts (l l' : Loader) : Type 0 where
    pub justified : AllJustified w ms early l'.state
    pub follows : Follows w ms l.state l'.state
    pub serving : IsServing l'

  pub Starts-trans : (l l' l'' : Loader) → Starts l l' → Starts l' l'' → Starts l l''
  Starts-trans l l' l'' a b = record {
    justified = b.justified;
    follows = Follows-trans w ms l.state l'.state l''.state a.follows b.follows;
    serving = b.serving;
  }

  -- The extension is put into error.
  pub fail-Starts :
      (id : String) (phase : Phase) (reason : Reason) (message : String) (chain : List String)
      (l : Loader)
      → (get id l.state ≡ some active → ServiceFails w id)
      → Cause w ms l.state id
      → AllJustified w ms early l.state
      → IsServing l
      → Starts l (fail id phase reason message chain l)
  unfolding fail record_diagnostic mark_error
  fail-Starts id phase reason message chain l i c j s = record {
    justified = error-AllJustified w ms early l.state id i c j;
    follows = Follows-error w ms l.state id i;
    serving = λ x h. elim (Bool-cases (same id x)) [
      | inl e ↦ rw (get-put id x error l.state, e) refl
      | inr e ↦ rw (get-put id x error l.state, e) (s x h)
    ];
  }

  service_fails-Starts :
      (id message : String) (l : Loader)
      → ServiceFails w id
      → AllJustified w ms early l.state
      → IsServing l
      → Starts l (service_fails id message l)
  unfolding service_fails fail record_diagnostic mark_error
  service_fails-Starts id message l n j s = elim (Bool-cases (is_member id l.services)) [
    | inl e ↦ rw e (
        let f = fail-Starts id starting start_error message [] l (λ a. n) (inr (inr n)) j s in
        record {
          justified = f.justified;
          follows = f.follows;
          serving = λ x h. f.serving x (member-remove x id l.services h);
        })
    | inr e ↦ rw e (record { justified = j; follows = Follows-refl w ms l.state; serving = s })
  ]

  -- An inactive extension stays so while others fail.
  service_fails-inactive :
      (id message x : String) (l : Loader)
      → IsServing l
      → get x l.state ≡ some inactive
      → get x (service_fails id message l).state ≡ some inactive
  unfolding service_fails fail record_diagnostic mark_error
  service_fails-inactive id message x l s i = elim (Bool-cases (is_member id l.services)) [
    | inl e ↦ rw (e, get-put id x error l.state) (differs (Bool-cases (same id x)) e)
    | inr e ↦ rw e i
  ]
    where
      equal : same id x ≡ true → id ≡ x
      equal c = ground (arith, eq_iff id x)

      differs :
          (same id x ≡ true) ⊎ (same id x ≡ false)
          → is_member id l.services ≡ true
          → (if same id x then some error else get x l.state) ≡ some inactive
      differs (inl c) e =
          absurd (cc (s id e, ap is_inactive (ap (λ y. get y l.state) (equal c) ∙ i)))
      differs (inr c) e = rw c i

  pub services_fail-Starts :
      (e : String) (before fs : List (String × String)) (x : String) (l : Loader)
      → w.failures e ≡ before ++ fs
      → get x l.state ≡ some inactive
      → AllJustified w ms early l.state
      → IsServing l
      → Starts l (services_fail fs l) × (get x (services_fail fs l).state ≡ some inactive)
  unfolding services_fail
  services_fail-Starts e before [] x l q i j s =
      (record { justified = j; follows = Follows-refl w ms l.state; serving = s }, i)
  services_fail-Starts e before ((id, message) ∷ fs) x l q i j s =
      let one =
        service_fails-Starts id message l
          (e, rw q (any-middle (λ f. same f.0 id) before (id, message) fs (eq_refl id))) j s in
      let rest =
        services_fail-Starts e (before ++ (id, message) ∷ []) fs x (service_fails id message l)
          (q ∙ sym (append_assoc before ((id, message) ∷ []) fs))
          (service_fails-inactive id message x l s i) one.justified one.serving in
      (
        Starts-trans l (service_fails id message l) (services_fail fs (service_fails id message l))
            one rest.0,
        rest.1,
      )
