-- ===== src/Loader/Resolver/Ordering.antt =====
-- dependency_resolver.py: the traversal ends, in a topological order or at a cycle.
use mathlib.Core.Path.{subst}
use mathlib.Core.List.{map-append}
use text.Mathlib.TextPositions.{eq_refl}
use yodoca.Base.{
  ℕ, zero, suc, ◌<◌, ◌≡◌, refl, sym, ◌∙◌, inl, inr, String, true, false, Option, none, some, List,
  [], ◌∷◌, ◌++◌, same, is_some, arith, eq_iff, Bool-cases, All, All-map, All-of, All-append, All-×,
  any-eq_false,
}
use yodoca.Loader.Resolver.{
  Manifest, Traversal, Visit, visited, cycle_at, out_of_fuel, is_member, remove, by_id, leave,
  visit_deps, visit,
}
use yodoca.Loader.Resolver.Visiting.{
  id_of, IsSound, Extends, member-append, free, remove-head, IsDistinct-snoc, IsOrdered-snoc,
  All-by_id, free-cons,
}

-- Every dependency of every manifest ranks below it.
abbrev pub Ranks : (String → ℕ) → List Manifest → Type 0
Ranks rank ms = All (λ m. All (λ d. rank d < rank m.id) m.depends_on) ms

abbrev pub Above : (String → ℕ) → String → List String → Type 0
Above rank x way = All (λ i. rank x < rank i) way

-- Every dependency of every manifest has a manifest.
abbrev pub IsClosed : List Manifest → Type 0
IsClosed ms = All (λ m. All (λ d. is_some (by_id ms d) ≡ true) m.depends_on) ms

pub Extends-refl : (t : Traversal) → Extends t t
Extends-refl t = record { keeps = λ x h. h; same_way = refl }

Extends-trans : (a b c : Traversal) → Extends a b → Extends b c → Extends a c
Extends-trans a b c p q = record {
  keeps = λ x h. q.keeps x (p.keeps x h);
  same_way = q.same_way ∙ p.same_way;
}

Above-member :
    (rank : String → ℕ) (x : String) (way : List String)
    → Above rank x way
    → is_member x way ≡ true
    → ⊥
Above-member rank x [] h m = cc
Above-member rank x (i ∷ way) h m = elim (Bool-cases (same i x)) [
  | inl e ↦ absurd (irreflexive (rank x) (subst (λ j. rank x < rank j) ((eq_iff i x).0 e) h.0))
  | inr e ↦ Above-member rank x way h.1 (rw e at m)
]
  where
    irreflexive : (n : ℕ) → n < n → ⊥
    irreflexive n p = omega arith

module _ (ms : List Manifest) where
  -- A visit of a manifest ends: it is seen, or there is a cycle.
  abbrev pub Visits : Manifest → Traversal → Visit → Type 0
  Visits m t (visited t') = IsSound ms t' × Extends t t' × (is_member m.id t'.seen ≡ true)
  Visits m t (cycle_at i) = (rank : String → ℕ) → Ranks rank ms → Above rank m.id t.visiting → ⊥
  Visits m t out_of_fuel = ⊥

  -- So do the visits of dependencies.
  abbrev pub VisitsAll : List String → Traversal → Visit → Type 0
  VisitsAll deps t (visited t') =
      IsSound ms t' × Extends t t' × All (λ d. is_member d t'.seen ≡ true) deps
  VisitsAll deps t (cycle_at i) =
      (rank : String → ℕ) → Ranks rank ms → All (λ d. Above rank d t.visiting) deps → ⊥
  VisitsAll deps t out_of_fuel = ⊥

  -- A visit behind other visits.
  pub VisitsAll-step :
      (dep : String) (deps : List String) (m : Manifest) (t t' : Traversal) (r : Visit)
      → m.id ≡ dep
      → IsSound ms t'
      → Extends t t'
      → is_member m.id t'.seen ≡ true
      → VisitsAll deps t' r
      → VisitsAll (dep ∷ deps) t r
  VisitsAll-step dep deps m t t' (visited t'') e s x seen h = (
    h.0,
    Extends-trans t t' t'' x h.1,
    (subst (λ i. is_member i t''.seen ≡ true) e (h.1.keeps m.id seen), h.2),
  )
  VisitsAll-step dep deps m t t' (cycle_at i) e s x seen h =
      λ rank ranks above. h rank ranks (rw x.same_way above.1)
  VisitsAll-step dep deps m t t' out_of_fuel e s x seen h = h

  deps-Visits :
      (fuel : ℕ) (recurse : Manifest → Traversal → Visit)
      → ((m : Manifest) (t : Traversal)
          → by_id ms m.id ≡ some m
          → IsSound ms t
          → free ms t.visiting < fuel
          → Visits m t (recurse m t))
      → (deps : List String) (t : Traversal) → All (λ d. is_some (by_id ms d) ≡ true) deps
      → IsSound ms t
      → free ms t.visiting < fuel
      → VisitsAll deps t (visit_deps recurse ms deps t)
  unfolding visit_deps
  deps-Visits fuel recurse ok [] t known s h = (s, Extends-refl t, tt)
  deps-Visits fuel recurse ok (dep ∷ deps) t known s h =
      start (by_id ms dep) refl (λ t'. deps-Visits fuel recurse ok deps t' known.1)
    where
      rest :
          (m : Manifest) (r : Visit)
          → by_id ms dep ≡ some m
          → recurse m t ≡ r
          → m.id ≡ dep
          → Visits m t r
          → ((t' : Traversal)
              → IsSound ms t'
              → free ms t'.visiting < fuel
              → VisitsAll deps t' (visit_deps recurse ms deps t'))
          → VisitsAll (dep ∷ deps) t (visit_deps recurse ms (dep ∷ deps) t)
      rest m (visited t') e q d v more =
          rw (e, q, visit_deps)
            (VisitsAll-step dep deps m t t' (visit_deps recurse ms deps t') d v.0 v.1 v.2
              (more t' v.0 (subst (λ way. free ms way < fuel) (sym v.1.same_way) h)))
      rest m (cycle_at i) e q d v more =
          rw (e, q, visit_deps)
            (λ rank ranks above.
              v rank ranks (subst (λ x. Above rank x t.visiting) (sym d) above.0))
      rest m out_of_fuel e q d v more = absurd v

      start :
          (o : Option Manifest)
          → by_id ms dep ≡ o
          → ((t' : Traversal)
              → IsSound ms t'
              → free ms t'.visiting < fuel
              → VisitsAll deps t' (visit_deps recurse ms deps t'))
          → VisitsAll (dep ∷ deps) t (visit_deps recurse ms (dep ∷ deps) t)
      start none e more = absurd (cc (e, known.0))
      start (some m) e more =
          let (_, d) = All-by_id (λ _. Unit {0}) ms dep m (All-of _ ms (λ _. tt)) e in
          rest m (recurse m t) e refl d (ok m t (subst (λ x. by_id ms x ≡ some m) (sym d) e) s h)
            more

  -- The ids on the way, behind the one that is left.
  module _ (m : Manifest) (t t' : Traversal) (off : is_member m.id t.visiting ≡ false)
      (s : IsSound ms t') (x : Extends (record t { visiting = m.id ∷ t.visiting }) t') where
    way_back : remove m.id t'.visiting ≡ t.visiting
    way_back = rw (x.same_way) (remove-head m.id t.visiting off)

    way_unseen : All (λ i. is_member i t'.seen ≡ false) (m.id ∷ t.visiting)
    way_unseen = subst (All (λ i. is_member i t'.seen ≡ false)) x.same_way s.unseen

    left_unseen : All (λ i. is_member i (t'.seen ++ m.id ∷ []) ≡ false) t.visiting
    left_unseen =
        All-map _ _ t.visiting (λ i h. one i h.0 h.1)
          (All-× _ _ t.visiting way_unseen.1 (any-eq_false (λ i. same i m.id) t.visiting off))
      where
        one :
            (i : String)
            → is_member i t'.seen ≡ false
            → same i m.id ≡ false
            → is_member i (t'.seen ++ m.id ∷ []) ≡ false
        one i h k =
            ground (arith, member-append i t'.seen (m.id ∷ []), eq_iff i m.id, eq_iff m.id i)

    abbrev left : Traversal
    left = record {
      order = t'.order ++ m ∷ [];
      seen = t'.seen ++ m.id ∷ [];
      visiting = remove m.id t'.visiting;
    }

    left-IsSound :
        by_id ms m.id ≡ some m
        → All (λ d. is_member d t'.seen ≡ true) m.depends_on
        → IsSound ms left
    left-IsSound e seen = record {
      agrees = rw (s.agrees) (sym (map-append id_of t'.order (m ∷ [])));
      distinct = IsDistinct-snoc t'.seen m.id s.distinct way_unseen.0;
      ordered = IsOrdered-snoc [] t'.order m s.ordered (rw s.agrees at seen);
      unseen = rw way_back left_unseen;
      known = All-append _ t'.order (m ∷ []) s.known ((e, tt));
    }

    left-Extends : Extends t left
    left-Extends = record { keeps = λ y h. kept y (x.keeps y h); same_way = way_back }
      where
        kept : (y : String) → is_member y t'.seen ≡ true → is_member y (t'.seen ++ m.id ∷ []) ≡ true
        kept y h = ground (arith, member-append y t'.seen (m.id ∷ []))

    left_seen : is_member m.id (t'.seen ++ m.id ∷ []) ≡ true
    left_seen = ground (arith, member-append m.id t'.seen (m.id ∷ []), eq_refl m.id)

  leave-Visits :
      (m : Manifest) (t : Traversal) (r : Visit)
      → by_id ms m.id ≡ some m
      → is_member m.id t.visiting ≡ false
      → VisitsAll m.depends_on (record t { visiting = m.id ∷ t.visiting }) r
      → Visits m t (leave m r)
  unfolding leave
  leave-Visits m t (visited t') e off h = (
    left-IsSound m t t' off h.0 h.1 e h.2,
    left-Extends m t t' off h.0 h.1,
    left_seen m t t' off h.0 h.1,
  )
  leave-Visits m t (cycle_at i) e off h = λ rank ranks above. h rank ranks (
      All-map _ _ m.depends_on (λ d low. (low, lower rank d low t.visiting above))
        (All-by_id (λ n. All (λ d. rank d < rank n.id) n.depends_on) ms m.id m ranks e).0)
    where
      lower :
          (rank : String → ℕ) (d : String)
          → rank d < rank m.id
          → (way : List String) → Above rank m.id way
          → Above rank d way
      lower rank d low way above = All-map _ _ way (λ i p. omega arith) above
  leave-Visits m t out_of_fuel e off h = h

  pub visit-Visits :
      IsClosed ms
      → (fuel : ℕ) (m : Manifest) (t : Traversal) → by_id ms m.id ≡ some m
      → IsSound ms t
      → free ms t.visiting < fuel
      → Visits m t (visit fuel ms m t)
  unfolding visit
  visit-Visits closed zero m t e s h = absurd (omega arith)
  visit-Visits closed (suc fuel) m t e s h = elim (Bool-cases (is_member m.id t.seen)) [
    | inl old ↦ rw (old, visit) ((s, Extends-refl t, old))
    | inr unseen ↦ elim (Bool-cases (is_member m.id t.visiting)) [
      | inl on ↦
          rw (unseen, on, visit) (λ rank ranks above. Above-member rank m.id t.visiting above on)
      | inr off ↦
          rw (unseen, off, visit)
            (leave-Visits m t
              (visit_deps (visit fuel ms) ms m.depends_on
                (record t { visiting = m.id ∷ t.visiting }))
              e off
              (deps-Visits fuel (visit fuel ms) (visit-Visits closed fuel) m.depends_on
                (record t { visiting = m.id ∷ t.visiting }) (All-by_id _ ms m.id m closed e).0
                (record {
                  agrees = s.agrees;
                  distinct = s.distinct;
                  ordered = s.ordered;
                  unseen = (unseen, s.unseen);
                  known = s.known;
                })
                (below (free-cons ms m.id m t.visiting e off))))
    ]
  ]
    where
      below : free ms (m.id ∷ t.visiting) < free ms t.visiting → free ms (m.id ∷ t.visiting) < fuel
      below p = omega arith
