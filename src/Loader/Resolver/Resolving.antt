-- ===== src/Loader/Resolver/Resolving.antt =====
-- `resolve` of dependency_resolver.py as a whole.
use mathlib.Core.Path.{subst}
use text.Mathlib.TextPositions.{eq_refl}
use yodoca.Base.{
  ℕ, suc, ◌≤◌, ◌<◌, ◌≡◌, refl, sym, inl, inr, String, Bool, true, false, Option, none, some, List,
  [], ◌∷◌, map, length, ◌||◌, ◌&&◌, same, any, is_some, arith, Bool-cases, All, All-of,
}
use yodoca.Loader.Resolver.{
  Manifest, Traversal, Visit, visited, cycle_at, out_of_fuel, Resolved, ordered, missing, cyclic,
  unresolved, is_member, by_id, visit, visit_all, missing_dep, first_missing, resolution, resolve,
}
use yodoca.Loader.Resolver.Visiting.{id_of, IsOrdered, IsDistinct, IsSound, free}
use yodoca.Loader.Resolver.Ordering.{
  Ranks, IsClosed, Extends-refl, Visits, VisitsAll, VisitsAll-step, visit-Visits,
}

-- Each id names one manifest.
abbrev pub IsUnique : List Manifest → Type 0
IsUnique ms = All (λ m. by_id ms m.id ≡ some m) ms

-- What `resolve` may make of the manifests.
abbrev pub Resolves : List Manifest → Resolved → Type 0
Resolves ms (ordered os) =
    IsOrdered [] os
    × IsDistinct (map id_of os)
    × All (λ m. by_id ms m.id ≡ some m) os
    × All (λ m. is_member m.id (map id_of os) ≡ true) ms
Resolves ms (missing id dep) =
    (any (λ m. same m.id id && is_member dep m.depends_on) ms ≡ true)
    × (any (λ m. same m.id dep) ms ≡ false)
Resolves ms (cyclic id) = (rank : String → ℕ) → Ranks rank ms → ⊥
Resolves ms unresolved = ⊥

All-of_map_ids :
    (P : String → Type 0) (ms : List Manifest) → All P (map id_of ms) → All (λ m. P m.id) ms
All-of_map_ids P [] h = tt
All-of_map_ids P (m ∷ ms) h = (h.0, All-of_map_ids P ms h.1)

known-by_id :
    (ms : List Manifest) (x : String)
    → any (λ m. same m.id x) ms ≡ true
    → is_some (by_id ms x) ≡ true
unfolding by_id
known-by_id [] x h = h
known-by_id (m ∷ ms) x h = ground (arith, known-by_id ms x)

module _ (ms : List Manifest) where
  missing_dep-none :
      (deps : List String)
      → missing_dep ms deps ≡ none
      → All (λ d. is_some (by_id ms d) ≡ true) deps
  unfolding missing_dep
  missing_dep-none [] e = tt
  missing_dep-none (dep ∷ deps) e = elim (Bool-cases (any (λ m. same m.id dep) ms)) [
    | inl there ↦ (known-by_id ms dep there, missing_dep-none deps (rw there at e))
    | inr gone ↦ absurd (cc (rw gone at e))
  ]

  missing_dep-some :
      (deps : List String) (d : String)
      → missing_dep ms deps ≡ some d
      → (is_member d deps ≡ true) × (any (λ m. same m.id d) ms ≡ false)
  unfolding missing_dep
  missing_dep-some [] d e = absurd (cc)
  missing_dep-some (dep ∷ deps) d e = elim (Bool-cases (any (λ m. same m.id dep) ms)) [
    | inl there ↦
        let (a, b) = missing_dep-some deps d (rw there at e) in
        (later (same dep d) (is_member d deps) a, b)
    | inr gone ↦
        subst (λ x. (is_member x (dep ∷ deps) ≡ true) × (any (λ m. same m.id x) ms ≡ false))
          (first (rw gone at e)) ((rw (eq_refl dep) refl, gone))
  ]
    where
      later : (a b : Bool) → b ≡ true → (a || b) ≡ true
      later a b h = ground arith

      first : some dep ≡ some d → dep ≡ d
      first q = cc

  first_missing-none :
      (rest : List Manifest)
      → first_missing ms rest ≡ none
      → All (λ m. All (λ d. is_some (by_id ms d) ≡ true) m.depends_on) rest
  unfolding first_missing
  first_missing-none [] e = tt
  first_missing-none (m ∷ rest) e = go (missing_dep ms m.depends_on) refl (first_missing-none rest)
    where
      go :
          (o : Option String)
          → missing_dep ms m.depends_on ≡ o
          → (first_missing ms rest ≡ none
              → All (λ n. All (λ d. is_some (by_id ms d) ≡ true) n.depends_on) rest)
          → All (λ n. All (λ d. is_some (by_id ms d) ≡ true) n.depends_on) (m ∷ rest)
      go none q more = (missing_dep-none m.depends_on q, more (rw (q, first_missing) at e))
      go (some d) q more = absurd (cc (rw (q, first_missing) at e))

  first_missing-some :
      (rest : List Manifest) (id dep : String)
      → first_missing ms rest ≡ some (id, dep)
      → (any (λ m. same m.id id && is_member dep m.depends_on) rest ≡ true)
        × (any (λ m. same m.id dep) ms ≡ false)
  unfolding first_missing
  first_missing-some [] id dep e = absurd (cc)
  first_missing-some (m ∷ rest) id dep e =
      go (missing_dep ms m.depends_on) refl (first_missing-some rest id dep)
    where
      pair :
          (d : String)
          → ◌≡◌ {A = Option (String × String)} (some (m.id, d)) (some (id, dep))
          → (m.id ≡ id) × (d ≡ dep)
      pair d q = (cc, cc)

      later : (a b : Bool) → b ≡ true → (a || b) ≡ true
      later a b h = ground arith

      go :
          (o : Option String)
          → missing_dep ms m.depends_on ≡ o
          → (first_missing ms rest ≡ some (id, dep)
              → (any (λ n. same n.id id && is_member dep n.depends_on) rest ≡ true)
                × (any (λ n. same n.id dep) ms ≡ false))
          → (any (λ n. same n.id id && is_member dep n.depends_on) (m ∷ rest) ≡ true)
            × (any (λ n. same n.id dep) ms ≡ false)
      go none q more = let (a, b) = more (rw (q, first_missing) at e) in (later _ _ a, b)
      go (some d) q more =
          let (a, b) = pair d (rw (q, first_missing) at e) in
          let (x, y) = missing_dep-some m.depends_on d q in
          (
            here (subst (λ i. same m.id i ≡ true) a (eq_refl m.id))
                (subst (λ i. is_member i m.depends_on ≡ true) b x),
            subst (λ i. any (λ n. same n.id i) ms ≡ false) b y,
          )
        where
          here :
              same m.id id ≡ true
              → is_member dep m.depends_on ≡ true
              → any (λ n. same n.id id && is_member dep n.depends_on) (m ∷ rest) ≡ true
          here p r = rw (p, r) refl

  visit_all-VisitsAll :
      IsClosed ms
      → (fuel : ℕ) (rest : List Manifest) (t : Traversal) → All (λ m. by_id ms m.id ≡ some m) rest
      → IsSound ms t
      → free ms t.visiting < fuel
      → VisitsAll ms (map id_of rest) t (visit_all fuel ms rest t)
  unfolding visit_all
  visit_all-VisitsAll closed fuel [] t u s h = (s, Extends-refl t, tt)
  visit_all-VisitsAll closed fuel (m ∷ rest) t u s h =
      go (visit fuel ms m t) refl (visit-Visits ms closed fuel m t u.0 s h)
        (λ t'. visit_all-VisitsAll closed fuel rest t' u.1)
    where
      go :
          (r : Visit)
          → visit fuel ms m t ≡ r
          → Visits ms m t r
          → ((t' : Traversal)
              → IsSound ms t'
              → free ms t'.visiting < fuel
              → VisitsAll ms (map id_of rest) t' (visit_all fuel ms rest t'))
          → VisitsAll ms (map id_of (m ∷ rest)) t (visit_all fuel ms (m ∷ rest) t)
      go (visited t') q v more =
          rw (q, visit_all)
            (VisitsAll-step ms m.id (map id_of rest) m t t' (visit_all fuel ms rest t') refl v.0 v.1
              v.2 (more t' v.0 (subst (λ way. free ms way < fuel) (sym v.1.same_way) h)))
      go (cycle_at i) q v more = rw (q, visit_all) (λ rank ranks above. v rank ranks above.0)
      go out_of_fuel q v more = absurd v

  resolution-Resolves :
      (r : Visit)
      → VisitsAll ms (map id_of ms) (record { order = []; seen = []; visiting = [] }) r
      → Resolves ms (resolution r)
  unfolding resolution
  resolution-Resolves (visited t) h = (
    h.0.ordered,
    subst IsDistinct h.0.agrees h.0.distinct,
    h.0.known,
    subst (λ ids. All (λ m. is_member m.id ids ≡ true) ms) h.0.agrees
        (All-of_map_ids (λ i. is_member i t.seen ≡ true) ms h.2),
  )
  resolution-Resolves (cycle_at i) h =
      λ rank ranks. h rank ranks (All-of _ (map id_of ms) (λ d. tt))
  resolution-Resolves out_of_fuel h = h

  free-le-length : free ms [] ≤ length ms
  free-le-length = go ms
    where
      go : (ns : List Manifest) → free ns [] ≤ length ns
      go [] = omega arith
      go (n ∷ ns) = omega (arith, go ns)

-- Where each id names one manifest, `resolve` comes to an end in one of three ways. It returns an
-- order that holds every manifest once, each behind all its dependencies; it names a manifest and a
-- dependency of it for which there is no manifest; or it reports a cycle, and then there is no way
-- to rank the ids that puts every dependency below the manifest that declares it.
pub resolve-Resolves : (ms : List Manifest) → IsUnique ms → Resolves ms (resolve ms)
unfolding resolve
resolve-Resolves ms unique = go (first_missing ms ms) refl
  where
    go : (o : Option (String × String)) → first_missing ms ms ≡ o → Resolves ms (resolve ms)
    go (some (id, dep)) e = rw (e, resolve) (first_missing-some ms ms id dep e)
    go none e =
        rw (e, resolve)
          (resolution-Resolves ms
            (visit_all (suc (length ms)) ms ms (record { order = []; seen = []; visiting = [] }))
            (visit_all-VisitsAll ms (first_missing-none ms ms e) (suc (length ms)) ms
              (record { order = []; seen = []; visiting = [] }) unique
              (record { agrees = refl; distinct = tt; ordered = tt; unseen = tt; known = tt })
              (omega (arith, free-le-length ms))))
