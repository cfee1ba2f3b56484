-- ===== src/Loader/Boot/Starting.antt =====
-- start_all of the loader: the states of the extensions, and the service tasks.
use mathlib.Core.Path.{subst}
use text.Mathlib.TextPositions.{eq_refl}
use yodoca.Base.{
  ◌≡◌, ◌⊎◌, refl, sym, ap, ◌∙◌, inl, inr, String, Bool, true, false, Option, none, some, List, [],
  ◌∷◌, arith, eq_iff, if◌then◌else◌, same, is_some, select, All, All-map, All-×, Bool-cases, get,
  put, get-put,
}
use yodoca.Loader.Resolver.{Manifest, by_id, is_member}
use yodoca.Loader.Boot.{
  ExtensionState, inactive, active, error, World, Loader, is_error, is_inactive, fail, skip,
  record_diagnostic, mark_error, mark_active, check_deps_healthy, services_fail, started, start_one,
  start_loop, starting, start_error, dependency_failed,
}
use yodoca.Loader.Boot.States.{
  deps_of, early_fault, Runs, is_settled, AllJustified, Justified, Follows, Follows-put,
  Follows-refl, put-AllJustified,
}
use yodoca.Loader.Boot.Loaded.{IsReady, IsReady-Follows}
use yodoca.Loader.Boot.Initializing.{failed_dep}
use yodoca.Loader.Boot.Failing.{
  IsServing, Starts, Starts-trans, fail-Starts, services_fail-Starts, member-add,
}

module _ (w : World) (ms : List Manifest) (early : String → Bool) where
  pub started-Starts :
      (id : String) (l : Loader)
      → get id l.state ≡ some inactive
      → early_fault w id ≡ false
      → All (Runs w ms l.state) (deps_of ms id)
      → AllJustified w ms early l.state
      → IsServing w ms early l
      → Starts w ms early l (started w id l) × (is_settled (get id (started w id l).state) ≡ true)
  unfolding started mark_active fail record_diagnostic mark_error
  started-Starts id l i f r j s = go (w.start id) refl
    where
      follows : Follows w ms l.state (put id active l.state)
      follows = Follows-put w ms l.state id active (rw i refl)

      running : w.start id ≡ none → AllJustified w ms early (put id active l.state)
      running e =
          put-AllJustified w ms early l.state id active follows
            ((
              ground (arith, f, ap is_some e),
              All-map (Runs w ms l.state) (Runs w ms (put id active l.state)) (deps_of ms id)
                  follows.runs_stay r,
            ))
            j

      served :
          (x : String)
          → (same id x ≡ false → is_member x l.services ≡ true)
          → is_inactive (get x (put id active l.state)) ≡ false
      served x h = elim (Bool-cases (same id x)) [
        | inl e ↦ rw (get-put id x active l.state, e) refl
        | inr e ↦ rw (get-put id x active l.state, e) (s x (h e))
      ]

      is_set :
          (o : ExtensionState)
          → is_settled (some o) ≡ true
          → is_settled (get id (put id o l.state)) ≡ true
      is_set o h = rw (get-put id id o l.state, eq_refl id) h

      go :
          (o : Option String)
          → w.start id ≡ o
          → Starts w ms early l (started w id l)
            × (is_settled (get id (started w id l).state) ≡ true)
      go (some message) e =
          rw (e, started)
            ((
              fail-Starts w ms early id starting start_error message [] l (λ a. absurd (cc (i, a)))
                  (inl (ground (arith, ap is_some e))) j s,
              is_set error refl,
            ))
      go none e =
          rw (e, started, ap is_inactive i)
            (elim (Bool-cases (w.is_service id)) [
              | inl b ↦ rw b (
                  (
                    record {
                      justified = running e;
                      follows = follows;
                      serving = λ x h. served x (λ c. member-add x id l.services c h);
                    },
                    is_set active refl,
                  ))
              | inr b ↦ rw b (
                  (
                    record {
                      justified = running e;
                      follows = follows;
                      serving = λ x h. served x (λ c. h);
                    },
                    is_set active refl,
                  ))
            ])

  All-select_nil :
      (p : String → Bool) (xs : List String) → select p xs ≡ [] → All (λ x. p x ≡ false) xs
  All-select_nil p [] h = tt
  All-select_nil p (x ∷ xs) h = elim (Bool-cases (p x)) [
    | inl e ↦ absurd (cc (rw e at h))
    | inr e ↦ (e, All-select_nil p xs (rw e at h))
  ]

  start_one-Starts :
      (id : String) (before : List String) (l : Loader)
      → get id l.state ≡ some inactive
      → early_fault w id ≡ false
      → All (λ d. (is_error (get d l.state) ≡ true) ⊎ (is_member d before ≡ true)) (deps_of ms id)
      → ((d : String) → is_member d before ≡ true → is_settled (get d l.state) ≡ true)
      → AllJustified w ms early l.state
      → IsServing w ms early l
      → Starts w ms early l (start_one w ms id l)
        × (is_settled (get id (start_one w ms id l).state) ≡ true)
  unfolding start_one skip fail record_diagnostic mark_error check_deps_healthy
  start_one-Starts id before l i f r settled j s = go (check_deps_healthy ms id l) refl
    where
      healthy :
          check_deps_healthy ms id l ≡ []
          → All (λ d. is_error (get d l.state) ≡ false) (deps_of ms id)
      healthy h = by_manifest (by_id ms id) h
        where
          by_manifest :
              (o : Option Manifest)
              → elim o [ none ↦ [] | some m ↦ select (λ d. is_error (get d l.state)) m.depends_on ]
                ≡ []
              → All
                  (λ d. is_error (get d l.state) ≡ false)
                  (elim o [ none ↦ [] | some m ↦ m.depends_on ])
          by_manifest none h = tt
          by_manifest (some m) h = All-select_nil (λ d. is_error (get d l.state)) m.depends_on h

      runs_of :
          (o : Option ExtensionState) → is_error o ≡ false → is_settled o ≡ true → o ≡ some active
      runs_of none a b = absurd (cc (b))
      runs_of (some inactive) a b = absurd (cc (b))
      runs_of (some active) a b = refl
      runs_of (some error) a b = absurd (cc (a))

      run :
          (d : String)
          → ((is_error (get d l.state) ≡ true) ⊎ (is_member d before ≡ true))
            × (is_error (get d l.state) ≡ false)
          → Runs w ms l.state d
      run d (inl a, b) = absurd (cc (a, b))
      run d (inr a, b) = inl (runs_of (get d l.state) b (settled d a))

      runs : check_deps_healthy ms id l ≡ [] → All (Runs w ms l.state) (deps_of ms id)
      runs h =
          All-map
            (λ d.
              ((is_error (get d l.state) ≡ true) ⊎ (is_member d before ≡ true))
              × (is_error (get d l.state) ≡ false))
            (Runs w ms l.state) (deps_of ms id) run
            (All-× (λ d. (is_error (get d l.state) ≡ true) ⊎ (is_member d before ≡ true))
              (λ d. is_error (get d l.state) ≡ false) (deps_of ms id) r (healthy h))

      go :
          (ds : List String)
          → check_deps_healthy ms id l ≡ ds
          → Starts w ms early l (start_one w ms id l)
            × (is_settled (get id (start_one w ms id l).state) ≡ true)
      go (d ∷ ds) c =
          rw (c, start_one)
            ((
              fail-Starts w ms early id starting dependency_failed "" (d ∷ ds) l
                  (λ a. absurd (cc (i, a))) (failed_dep w ms l id d ds c) j s,
              rw (get-put id id error l.state, eq_refl id) refl,
            ))
      go [] c =
          let one = services_fail-Starts w ms early id [] (w.failures id) id l refl i j s in
          let two =
            started-Starts id (services_fail (w.failures id) l) one.1 f
              (All-map (Runs w ms l.state) (Runs w ms (services_fail (w.failures id) l).state)
                (deps_of ms id) one.0.follows.runs_stay (runs c))
              one.0.justified one.0.serving in
          rw (c, start_one)
            ((
              Starts-trans w ms early l (services_fail (w.failures id) l)
                  (started w id (services_fail (w.failures id) l)) one.0 two.0,
              two.1,
            ))

  -- The loop: every extension is then settled.
  pub start_loop-Starts :
      (ids before : List String) (l : Loader)
      → All (λ e. early e ≡ early_fault w e) ids
      → All (λ e. is_some (get e l.state) ≡ true) ids
      → IsReady w ms l.state before ids
      → ((d : String) → is_member d before ≡ true → is_settled (get d l.state) ≡ true)
      → AllJustified w ms early l.state
      → IsServing w ms early l
      → Starts w ms early l (start_loop w ms ids l)
        × All (λ e. is_settled (get e (start_loop w ms ids l).state) ≡ true) ids
  unfolding start_loop
  start_loop-Starts [] before l f k r settled j s =
      (record { justified = j; follows = Follows-refl w ms l.state; serving = s }, tt)
  start_loop-Starts (id ∷ ids) before l f k r settled j s =
      let l' : Loader = if is_inactive (get id l.state) then start_one w ms id l else l in
      let one = step (get id l.state) refl in
      let rest =
        start_loop-Starts ids (id ∷ before) l' f.1
          (All-map (λ e. is_some (get e l.state) ≡ true) (λ e. is_some (get e l'.state) ≡ true) ids
            one.0.follows.known_stay k.1)
          (IsReady-Follows w ms l.state l'.state (id ∷ before) ids one.0.follows r.1)
          (λ d m. settled_after l' one.0 one.1 d m) one.0.justified one.0.serving in
      (
        Starts-trans w ms early l l' (start_loop w ms ids l') one.0 rest.0,
        (rest.0.follows.settled_stay id one.1, rest.1),
      )
    where
      equal : (d : String) → same id d ≡ true → id ≡ d
      equal d e = ground (arith, eq_iff id d)

      settled_after :
          (l' : Loader)
          → Starts w ms early l l'
          → is_settled (get id l'.state) ≡ true
          → (d : String) → is_member d (id ∷ before) ≡ true
          → is_settled (get d l'.state) ≡ true
      settled_after l' one own d m = elim (Bool-cases (same id d)) [
        | inl e ↦ subst (λ x. is_settled (get x l'.state) ≡ true) (equal d e) own
        | inr e ↦ one.follows.settled_stay d (settled d (rw e at m))
      ]

      stays : Starts w ms early l l
      stays = record { justified = j; follows = Follows-refl w ms l.state; serving = s }

      step :
          (o : Option ExtensionState)
          → get id l.state ≡ o
          → Starts w ms early l (if is_inactive (get id l.state) then start_one w ms id l else l)
            × (is_settled
                  (get id (if is_inactive (get id l.state) then start_one w ms id l else l).state)
                ≡ true)
      step none e = absurd (cc (e, k.0))
      step (some active) e = rw (ap is_inactive e) ((stays, ap is_settled e))
      step (some error) e = rw (ap is_inactive e) ((stays, ap is_settled e))
      step (some inactive) e = rw (ap is_inactive e) (
          start_one-Starts id before l e
            (sym f.0 ∙ subst (Justified w ms early l.state id) e (j id)) r.0 settled j s)
